-- ===== src/Ca/Mint/Minted.antt =====
-- A minted CA is usable (internal/ca/mint.go).
use cube_idp.Base.{
  ℕ, ◌+◌, ◌≤◌, ◌<◌, ◌≡◌, sym, ap, ◌∙◌, ◌≢◌, inr, true, ◌&&◌, Option, none, some, [], ◌∷◌, ◌++◌,
  arith, subst, ◌>>=◌, ok_of_bind, err_is, some_is, or_error, or_error_iff, some_of_bind, Text, txt,
  ok, err,
}
use cube_idp.Ca.Material.{
  Bytes, Material, Certificate, Crypto, CaError, mint_failed, subject_ca, subject_leaf,
  lacks_cert_sign, common_name, Cert, has_marker, has_marker_own, key_matches, parse_material,
}
use cube_idp.Ca.Material.Usable.{IsUsable}
use cube_idp.Ca.Mint.{
  MintRequest, serial_limit, new_serial, new_key_and_serial, ca_template, leaf_template, encoded,
  sign_and_encode, mint_leaf, mint_ca,
}

-- The fields of a template that the parsed certificate has again. IsCA is only encoded where
-- BasicConstraintsValid is set.
pub record SameFields {Time PublicKey : Type 0} (tpl cert : Certificate Time PublicKey)
    : Type 0 where
  pub serial : cert.serial ≡ tpl.serial
  pub common_name : cert.common_name ≡ tpl.common_name
  pub organizational_unit : cert.organizational_unit ≡ tpl.organizational_unit
  pub key_usage : cert.key_usage ≡ tpl.key_usage
  pub is_ca : cert.is_ca ≡ (tpl.basic_constraints_valid && tpl.is_ca)

-- Documented behaviour of the packages: what is encoded decodes to the same, a certificate that is
-- created parses to what its template encodes and to the public key that it was given, a key is
-- equal to itself, and rand.Int stays below its limit.
pub record IsLawful (c : Crypto) : Type 0 where
  pub decode-encode :
      (block_type : Text) (block : Bytes)
      → c.decode_pem (c.encode_pem block_type block) ≡ some block
  pub encode_some : (block_type : Text) (block : Bytes) → c.encode_pem block_type block ≢ []
  pub parse-create :
      (tpl parent : Cert c) (public : c.PublicKey) (signer : c.PrivateKey) (rand rest : c.Rand)
      (der : Bytes)
      → c.create_certificate tpl parent public signer rand ≡ some (der, rest)
      → (cert : Cert c) × (c.parse_certificate der ≡ some cert)
        × (cert.public_key ≡ some public)
        × SameFields tpl cert
  pub parse-marshal :
      (key : c.PrivateKey) (der : Bytes)
      → c.marshal_pkcs8 key ≡ some der
      → c.parse_pkcs8 der ≡ some (some key)
  pub equal_refl : (public : c.PublicKey) → c.equal public public ≡ true
  pub rand_int_below :
      (limit n : ℕ) (rand rest : c.Rand) → c.rand_int limit rand ≡ some (n, rest) → n < limit

module _ (c : Crypto) where
  -- A leaf over material that parses fails to mint for its own reason.
  pub mint_leaf-err :
      (m : Material) (req : MintRequest c) (parsed : Cert c × c.PrivateKey) (e : CaError)
      → parse_material c m ≡ ok parsed
      → mint_leaf c m req ≡ err e
      → e ≡ mint_failed subject_leaf
  unfolding mint_leaf
  mint_leaf-err m req parsed e p h = by_draw (new_key_and_serial c req.rand) (
      subst
        (λ r.
          (r >>= λ parsed.
          or_error (mint_failed subject_leaf) (new_key_and_serial c req.rand) >>= λ drawn.
          or_error (mint_failed subject_leaf) (signed parsed drawn))
          ≡ err e)
        p h)
    where
      signed : Cert c × c.PrivateKey → c.PrivateKey × ℕ × c.Rand → Option (Material × c.Rand)
      signed parsed drawn =
          sign_and_encode c drawn.2 (leaf_template c req.domain req.now drawn.1) parsed.0 drawn.0
            parsed.1

      by_draw :
          (o : Option (c.PrivateKey × ℕ × c.Rand))
          → (or_error (mint_failed subject_leaf) o >>= λ drawn.
              or_error (mint_failed subject_leaf) (signed parsed drawn))
            ≡ err e
          → e ≡ mint_failed subject_leaf
      by_draw none h = sym (err_is h)
      by_draw (some drawn) h = by_sign (signed parsed drawn) h
        where
          by_sign :
              (o : Option (Material × c.Rand))
              → or_error (mint_failed subject_leaf) o ≡ err e
              → e ≡ mint_failed subject_leaf
          by_sign none h = sym (err_is h)
          by_sign (some m) h = cc

  pub sign_and_encode-some :
      (rand rest : c.Rand) (tpl parent : Cert c) (key signer : c.PrivateKey) (m : Material)
      → sign_and_encode c rand tpl parent key signer ≡ some (m, rest)
      → (der : Bytes) × (key_der : Bytes) × (c.create_certificate tpl parent
            (c.public_of key)
            signer
            rand
          ≡ some (der, rest))
        × (c.marshal_pkcs8 key ≡ some key_der)
        × (m ≡ encoded c der key_der)
  unfolding sign_and_encode
  sign_and_encode-some rand rest tpl parent key signer m h =
      let (created, e, h₁) =
        some_of_bind (c.create_certificate tpl parent (c.public_of key) signer rand) _ h in
      let (key_der, k, h₂) = some_of_bind (c.marshal_pkcs8 key) _ h₁ in
      let same = some_is h₂ in
      (created.0, key_der, e ∙ ap (λ x. some (created.0, x.1)) same, k, sym (ap (λ x. x.0) same))

  new_key_and_serial-bounds :
      (rand rest : c.Rand) (key : c.PrivateKey) (serial : ℕ)
      → IsLawful c
      → new_key_and_serial c rand ≡ some (key, serial, rest)
      → (0 < serial) × (serial ≤ serial_limit)
  unfolding new_key_and_serial new_serial
  new_key_and_serial-bounds rand rest key serial laws h =
      let (made, e, h₁) = some_of_bind (c.generate_key rand) _ h in
      let (drawn, d, h₂) = some_of_bind (new_serial c made.1) _ h₁ in
      let (n, r, h₃) = some_of_bind (c.rand_int serial_limit made.1) _ d in
      let same : n.0 + 1 ≡ serial = ap (λ x. x.0) (some_is h₃) ∙ ap (λ x. x.1) (some_is h₂) in
      let below : n.0 < serial_limit = laws.rand_int_below serial_limit n.0 made.1 n.1 r in
      (omega (arith, same), omega (arith, same, below))

  -- The CA that a mint makes.
  pub record MintedCa (cube_name : Text) (m : Material) : Type 0 where
    pub cert : Cert c
    pub key : c.PrivateKey
    pub usable : IsUsable c m cert key
    pub named : cert.common_name ≡ txt "cube-idp " ++ cube_name ++ txt " CA"
    pub unit : cert.organizational_unit ≡ txt "cube-idp.dev" ∷ []
    pub marked : has_marker c (some cert) cube_name ≡ true
    pub serial_above : 0 < cert.serial
    pub serial_below : cert.serial ≤ serial_limit
    pub pem : (m.cert_pem ≢ []) × (m.key_pem ≢ [])

  pub mint_ca-MintedCa :
      (req : MintRequest c) (m : Material) (rest : c.Rand)
      → IsLawful c
      → mint_ca c req ≡ ok (m, rest)
      → MintedCa req.cube_name m
  unfolding mint_ca ca_template common_name
  mint_ca-MintedCa req m rest laws h =
      let (drawn, draws, h₁) =
        ok_of_bind (or_error (mint_failed subject_ca) (new_key_and_serial c req.rand)) _ h in
      let tpl = ca_template c req.cube_name req.now drawn.1 in
      let (der, key_der, created, marshalled, same) =
        sign_and_encode-some drawn.2 rest tpl tpl drawn.0 drawn.0 m (
          (or_error_iff (mint_failed subject_ca) (sign_and_encode c drawn.2 tpl tpl drawn.0 drawn.0)
              (m, rest)).0
            h₁) in
      let (cert, parses, has_key, fields) =
        laws.parse-create tpl tpl (c.public_of drawn.0) drawn.0 drawn.2 rest der created in
      let bounds =
        new_key_and_serial-bounds req.rand drawn.2 drawn.0 drawn.1 laws
          ((or_error_iff (mint_failed subject_ca) (new_key_and_serial c req.rand) drawn).0 draws) in
      record {
        cert = cert;
        key = drawn.0;
        usable = record {
          cert_block = der;
          key_block = key_der;
          cert_decodes =
              ap (λ x. c.decode_pem x.cert_pem) same ∙ laws.decode-encode (txt "CERTIFICATE") der;
          cert_parses = parses;
          key_decodes =
              ap (λ x. c.decode_pem x.key_pem) same
              ∙ laws.decode-encode (txt "PRIVATE KEY") key_der;
          key_parses = laws.parse-marshal drawn.0 key_der marshalled;
          matches = ap (key_matches c drawn.0) has_key ∙ laws.equal_refl (c.public_of drawn.0);
          is_ca = fields.is_ca;
          may_sign = inr (ap lacks_cert_sign fields.key_usage);
        };
        named = fields.common_name;
        unit = fields.organizational_unit;
        marked = has_marker_own c cert req.cube_name fields.common_name fields.organizational_unit;
        serial_above = subst (λ n. 0 < n) (sym fields.serial) bounds.0;
        serial_below = subst (λ n. n ≤ serial_limit) (sym fields.serial) bounds.1;
        pem = (
          subst (λ x. x.cert_pem ≢ []) (sym same) (laws.encode_some (txt "CERTIFICATE") der),
          subst (λ x. x.key_pem ≢ []) (sym same) (laws.encode_some (txt "PRIVATE KEY") key_der),
        );
      }
