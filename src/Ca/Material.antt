-- ===== src/Ca/Material.antt =====
-- CA material: internal/ca/ca.go and parseMaterial of internal/ca/ensure.go. The packages crypto and
-- encoding/pem are a parameter.
pub mod Usable
use Prim.Native.Nat.{◌/◌, ◌%◌}
use cube_idp.Base.{
  ℕ, ◌≡◌, Bool, true, false, not, ◌&&◌, Option, none, some, List, [], ◌∷◌, ◌++◌, arith, contains,
  contains-head, Result, ◌>>=◌, or_error, hex, eqb, if◌then◌else◌, Text, txt, ◌==◌, ==_iff, ok, err,
}

abbrev pub Bytes : Type 0
Bytes = List ℕ

pub record Material : Type 0 where
  pub cert_pem : Bytes
  pub key_pem : Bytes

-- The fields of x509.Certificate that the code writes and reads. A path length below zero is only
-- in certificates that are parsed, of which no code reads it.
pub record Certificate (Time PublicKey : Type 0) : Type 0 where
  pub serial : ℕ
  pub common_name : Text
  pub organizational_unit : List Text
  pub dns_names : List Text
  pub not_before : Time
  pub not_after : Time
  pub signature_algorithm : ℕ
  pub key_usage : ℕ
  pub server_auth : Bool
  pub basic_constraints_valid : Bool
  pub is_ca : Bool
  pub max_path_len : ℕ
  pub max_path_len_zero : Bool
  -- Of a template, the zero value.
  pub public_key : Option PublicKey
  pub raw : Bytes

-- The calls of Go's packages crypto/*, encoding/* and time. An error is `none`; a call that draws
-- returns what is left of the source of entropy.
pub record Crypto : Type 1 where
  pub Time : Type 0
  pub PublicKey : Type 0
  pub PrivateKey : Type 0
  pub Rand : Type 0
  pub decode_pem : Bytes → Option Bytes
  pub encode_pem : (block_type : Text) → Bytes → Bytes
  pub parse_certificate : Bytes → Option (Certificate Time PublicKey)
  -- A key that is no ECDSA key is `some none`.
  pub parse_pkcs8 : Bytes → Option (Option PrivateKey)
  pub marshal_pkcs8 : PrivateKey → Option Bytes
  pub public_of : PrivateKey → PublicKey
  pub equal : PublicKey → PublicKey → Bool
  pub generate_key : Rand → Option (PrivateKey × Rand)
  -- rand.Int of a limit
  pub rand_int : ℕ → Rand → Option (ℕ × Rand)
  -- The template, the parent, the public key and the key of the signer.
  pub create_certificate :
      Certificate Time PublicKey
      → Certificate Time PublicKey
      → PublicKey
      → PrivateKey
      → Rand
      → Option (Bytes × Rand)
  pub sha256 : Bytes → Bytes
  -- now.Add(-clockSkew)
  pub hour_before : Time → Time
  -- now.AddDate(years, 0, 0)
  pub add_years : ℕ → Time → Time

pub data Subject : Type 0 where
  subject_ca : Subject
  subject_leaf : Subject

-- What is wrong with material.
pub data Fault : Type 0 where
  cert_pem_broken : Fault
  cert_broken : Fault
  key_pem_broken : Fault
  key_broken : Fault
  key_not_ecdsa : Fault
  key_mismatch : Fault
  not_a_ca : Fault
  cannot_sign : Fault

-- What is wrong with a Secret; the text is the key of its data.
pub data SecretFault : Type 0 where
  data_malformed : SecretFault
  data_missing : SecretFault
  value_missing : (key : Text) → SecretFault
  value_not_base64 : (key : Text) → SecretFault

pub data CaError : Type 0 where
  mint_failed : Subject → CaError
  unusable_material : Fault → CaError
  unusable_secret : (namespace name : Text) → SecretFault → CaError

-- MarkerOrganizationalUnit
abbrev pub marker_unit : Text
marker_unit = txt "cube-idp.dev"

unfoldable pub common_name : (cube_name : Text) → Text
common_name cube_name = txt "cube-idp " ++ cube_name ++ txt " CA"

-- x509.ECDSAWithSHA256
abbrev pub ecdsa_with_sha256 : ℕ
ecdsa_with_sha256 = 10

-- x509.KeyUsageCertSign
abbrev pub key_usage_cert_sign : ℕ
key_usage_cert_sign = 32

-- cert.KeyUsage&x509.KeyUsageCertSign == 0
abbrev pub lacks_cert_sign : ℕ → Bool
lacks_cert_sign usage = eqb ((usage / key_usage_cert_sign) % 2) 0

module _ (c : Crypto) where
  abbrev pub Cert : Type 0
  Cert = Certificate c.Time c.PublicKey

  -- `none` is a nil certificate.
  pub has_marker : Option Cert → (cube_name : Text) → Bool
  unfolding common_name
  has_marker none cube_name = false
  has_marker (some cert) cube_name =
      if not (cert.common_name == common_name cube_name)
      then false
      else contains cert.organizational_unit marker_unit

  -- The error has no code.
  pub fingerprint : (cert_pem : Bytes) → Result Fault Text
  fingerprint cert_pem = or_error cert_pem_broken (c.decode_pem cert_pem) >>= λ block.
      or_error cert_broken (c.parse_certificate block) >>= λ cert. ok (hex (c.sha256 cert.raw))

  abbrev pub key_matches : c.PrivateKey → Option c.PublicKey → Bool
  key_matches key none = false
  key_matches key (some public) = c.equal (c.public_of key) public

  pub parse_cert : Bytes → Result CaError Cert
  parse_cert pem = or_error (unusable_material cert_pem_broken) (c.decode_pem pem) >>= λ block.
      or_error (unusable_material cert_broken) (c.parse_certificate block)

  pub parse_key : Bytes → Result CaError c.PrivateKey
  parse_key pem = or_error (unusable_material key_pem_broken) (c.decode_pem pem) >>= λ block.
      or_error (unusable_material key_broken) (c.parse_pkcs8 block) >>= λ parsed.
      or_error (unusable_material key_not_ecdsa) parsed

  -- The criteria on what is parsed.
  pub check_pair : Cert → c.PrivateKey → Result CaError (Cert × c.PrivateKey)
  check_pair cert key =
      if not (key_matches key cert.public_key)
      then err (unusable_material key_mismatch)
      else if not cert.is_ca
      then err (unusable_material not_a_ca)
      else if not (eqb cert.key_usage 0) && lacks_cert_sign cert.key_usage
      then err (unusable_material cannot_sign)
      else ok (cert, key)

  unfoldable pub parse_material : Material → Result CaError (Cert × c.PrivateKey)
  unfolding parse_cert parse_key check_pair
  parse_material m =
      parse_cert m.cert_pem >>= λ cert. parse_key m.key_pem >>= λ key. check_pair cert key

  pub has_marker_own :
      (cert : Cert) (cube_name : Text)
      → cert.common_name ≡ common_name cube_name
      → cert.organizational_unit ≡ marker_unit ∷ []
      → has_marker (some cert) cube_name ≡ true
  unfolding has_marker
  has_marker_own cert cube_name e u = ground (
    arith,
    (==_iff cert.common_name (common_name cube_name)).1 e,
    u,
    contains-head marker_unit [],
  )
