-- ===== src/Ca/Mint.antt =====
-- Minting: internal/ca/mint.go. A template is a certificate without key and content.
pub mod Minted
pub mod Signed
use cube_idp.Base.{
  ℕ, ◌+◌, ◌*◌, true, false, Option, none, some, [], ◌∷◌, ◌++◌, Result, ◌>>=◌, or_error, ◌>>?◌, Text,
  txt, ok,
}
use cube_idp.Ca.Material.{
  Bytes, Material, Certificate, Crypto, Subject, subject_ca, subject_leaf, CaError, mint_failed,
  marker_unit, common_name, ecdsa_with_sha256, Cert, parse_material,
}

pub record MintRequest (c : Crypto) : Type 0 where
  pub cube_name : Text
  pub domain : Text
  pub now : c.Time
  pub rand : c.Rand

-- 2^128 - 1, of serialBits
abbrev pub serial_limit : ℕ
serial_limit = 340282366920938463463374607431768211455

module _ (c : Crypto) where
  pub new_serial : c.Rand → Option (ℕ × c.Rand)
  new_serial rand = c.rand_int serial_limit rand >>? λ drawn. some (drawn.0 + 1, drawn.1)

  pub new_key_and_serial : c.Rand → Option (c.PrivateKey × ℕ × c.Rand)
  unfolding new_serial
  new_key_and_serial rand =
      c.generate_key rand >>? λ made. new_serial made.1 >>? λ drawn. some (made.0, drawn.0, drawn.1)

  -- The key usage is x509.KeyUsageCertSign | x509.KeyUsageCRLSign.
  pub ca_template : (cube_name : Text) → (now : c.Time) → (serial : ℕ) → Cert c
  ca_template cube_name now serial = record {
    serial = serial;
    common_name = common_name cube_name;
    organizational_unit = marker_unit ∷ [];
    dns_names = [];
    not_before = c.hour_before now;
    not_after = c.add_years 10 now;
    signature_algorithm = ecdsa_with_sha256;
    key_usage = 96;
    server_auth = false;
    basic_constraints_valid = true;
    is_ca = true;
    max_path_len = 0;
    max_path_len_zero = true;
    public_key = none;
    raw = [];
  }

  -- The key usage is x509.KeyUsageDigitalSignature.
  pub leaf_template : (domain : Text) → (now : c.Time) → (serial : ℕ) → Cert c
  leaf_template domain now serial = record {
    serial = serial;
    common_name = txt "*." ++ domain;
    organizational_unit = [];
    dns_names = (txt "*." ++ domain) ∷ [];
    not_before = c.hour_before now;
    not_after = c.add_years 2 now;
    signature_algorithm = ecdsa_with_sha256;
    key_usage = 1;
    server_auth = true;
    basic_constraints_valid = true;
    is_ca = false;
    max_path_len = 0;
    max_path_len_zero = false;
    public_key = none;
    raw = [];
  }

  abbrev pub encoded : (der key_der : Bytes) → Material
  encoded der key_der = record {
    cert_pem = c.encode_pem (txt "CERTIFICATE") der;
    key_pem = c.encode_pem (txt "PRIVATE KEY") key_der;
  }

  pub sign_and_encode :
      c.Rand → (tpl parent : Cert c) → (key signer : c.PrivateKey) → Option (Material × c.Rand)
  sign_and_encode rand tpl parent key signer =
      c.create_certificate tpl parent (c.public_of key) signer rand >>? λ created.
      c.marshal_pkcs8 key >>? λ key_der. some (encoded created.0 key_der, created.1)

  -- What is left of the entropy is returned, since a later call draws from it.
  unfoldable pub mint_leaf : (ca : Material) → MintRequest c → Result CaError (Material × c.Rand)
  unfolding new_key_and_serial leaf_template sign_and_encode
  mint_leaf ca req = parse_material c ca >>= λ parsed.
      or_error (mint_failed subject_leaf) (new_key_and_serial req.rand) >>= λ drawn.
      or_error (mint_failed subject_leaf) (
        sign_and_encode drawn.2 (leaf_template req.domain req.now drawn.1) parsed.0 drawn.0
          parsed.1)

  pub mint_ca : MintRequest c → Result CaError (Material × c.Rand)
  unfolding new_key_and_serial ca_template sign_and_encode
  mint_ca req = or_error (mint_failed subject_ca) (new_key_and_serial req.rand) >>= λ drawn.
      let tpl = ca_template req.cube_name req.now drawn.1 in
      or_error (mint_failed subject_ca) (sign_and_encode drawn.2 tpl tpl drawn.0 drawn.0)

  abbrev pub with_rand : MintRequest c → c.Rand → MintRequest c
  with_rand req rand = record {
    cube_name = req.cube_name;
    domain = req.domain;
    now = req.now;
    rand = rand;
  }

  unfoldable pub mint : MintRequest c → Result CaError (Material × Material × c.Rand)
  unfolding mint_ca mint_leaf
  mint req = mint_ca req >>= λ minted.
      mint_leaf minted.0 (with_rand req minted.1) >>= λ leaf. ok (minted.0, leaf.0, leaf.1)
