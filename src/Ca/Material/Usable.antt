-- ===== src/Ca/Material/Usable.antt =====
-- Which CA material is usable (internal/ca/ensure.go).
use cube_idp.Base.{
  ℕ, ◌≡◌, refl, sym, ap, ◌∙◌, ◌↔◌, ◌⊎◌, inl, inr, Bool, true, false, not, ◌&&◌, Option, none, some,
  arith, subst, Result, ◌>>=◌, ok_of_bind, ok_is, err_is, or_error, or_error_iff, eqb,
  if◌then◌else◌, ok, err,
}
use cube_idp.Ca.Material.{
  Bytes, Material, Crypto, Fault, CaError, cert_pem_broken, cert_broken, key_pem_broken, key_broken,
  key_not_ecdsa, key_mismatch, not_a_ca, cannot_sign, unusable_material, lacks_cert_sign, Cert,
  key_matches, parse_cert, parse_key, check_pair, parse_material,
}

module _ (c : Crypto) where
  -- A key usage of zero restricts nothing.
  abbrev pub MaySign : ℕ → Type 0
  MaySign usage = (usage ≡ 0) ⊎ (lacks_cert_sign usage ≡ false)

  pub record IsUsable (m : Material) (cert : Cert c) (key : c.PrivateKey) : Type 0 where
    pub cert_block : Bytes
    pub key_block : Bytes
    pub cert_decodes : c.decode_pem m.cert_pem ≡ some cert_block
    pub cert_parses : c.parse_certificate cert_block ≡ some cert
    pub key_decodes : c.decode_pem m.key_pem ≡ some key_block
    pub key_parses : c.parse_pkcs8 key_block ≡ some (some key)
    pub matches : key_matches c key cert.public_key ≡ true
    pub is_ca : cert.is_ca ≡ true
    pub may_sign : MaySign cert.key_usage

  check_pair-ok :
      (cert : Cert c) (key : c.PrivateKey) (out : Cert c × c.PrivateKey)
      → check_pair c cert key ≡ ok out
      → (out ≡ (cert, key))
        × (key_matches c key cert.public_key ≡ true)
        × (cert.is_ca ≡ true)
        × MaySign cert.key_usage
  unfolding check_pair
  check_pair-ok cert key out h =
      by_tests (key_matches c key cert.public_key) cert.is_ca (eqb cert.key_usage 0)
        (lacks_cert_sign cert.key_usage) refl h
    where
      by_tests :
          (same authority free lacks : Bool)
          → eqb cert.key_usage 0 ≡ free
          → (if not same
              then err (unusable_material key_mismatch)
              else if not authority
              then err (unusable_material not_a_ca)
              else if not free && lacks
              then err (unusable_material cannot_sign)
              else ok (cert, key))
            ≡ ok out
          → (out ≡ (cert, key))
            × (same ≡ true)
            × (authority ≡ true)
            × ((cert.key_usage ≡ 0) ⊎ (lacks ≡ false))
      by_tests false authority free lacks e h = cc
      by_tests true false free lacks e h = cc
      by_tests true true true lacks e h = (sym (ok_is h), refl, refl, inl (ground (arith, e)))
      by_tests true true false true e h = cc
      by_tests true true false false e h = (sym (ok_is h), refl, refl, inr refl)

  check_pair_passes :
      (cert : Cert c) (key : c.PrivateKey)
      → key_matches c key cert.public_key ≡ true
      → cert.is_ca ≡ true
      → MaySign cert.key_usage
      → check_pair c cert key ≡ ok (cert, key)
  unfolding check_pair
  check_pair_passes cert key m a (inl z) = ground (arith, m, a, z)
  check_pair_passes cert key m a (inr l) = ground (arith, m, a, l)

  -- Material is accepted exactly if the PEM blocks of its certificate and of its key decode and
  -- parse, the key is an ECDSA key whose public half is that of the certificate, the certificate
  -- is a CA, and its key usage, where it has any, includes the signing of certificates. Neither
  -- the times of the certificate nor its names count.
  pub parse_material_iff :
      (m : Material) (cert : Cert c) (key : c.PrivateKey)
      → (parse_material c m ≡ ok (cert, key)) ↔ IsUsable m cert key
  unfolding parse_material parse_cert parse_key
  parse_material_iff m cert key = (
    (λ h.
        let (cert', read_cert, h₁) = ok_of_bind (parse_cert c m.cert_pem) _ h in
        let (key', read_key, h₂) = ok_of_bind (parse_key c m.key_pem) _ h₁ in
        let (cb, d₁, d₂) =
          ok_of_bind (or_error (unusable_material cert_pem_broken) (c.decode_pem m.cert_pem)) _
            read_cert in
        let (kb, d₃, d₄) =
          ok_of_bind (or_error (unusable_material key_pem_broken) (c.decode_pem m.key_pem)) _
            read_key in
        let (parsed, d₅, d₆) =
          ok_of_bind (or_error (unusable_material key_broken) (c.parse_pkcs8 kb)) _ d₄ in
        let (same, m₁, m₂, m₃) = check_pair-ok cert' key' (cert, key) h₂ in
        let ec = ap (λ x. x.0) same in
        let ek = ap (λ x. x.1) same in
        record {
          cert_block = cb;
          key_block = kb;
          cert_decodes = (or_error_iff _ _ cb).0 d₁;
          cert_parses = (or_error_iff _ _ cert').0 d₂ ∙ ap some (sym ec);
          key_decodes = (or_error_iff _ _ kb).0 d₃;
          key_parses =
              (or_error_iff _ _ parsed).0 d₅
              ∙ ap some ((or_error_iff _ parsed key').0 d₆ ∙ ap some (sym ek));
          matches = subst (λ x. key_matches c x.1 x.0.public_key ≡ true) (sym same) m₁;
          is_ca = subst (λ x. x.is_ca ≡ true) (sym ec) m₂;
          may_sign = subst (λ x. MaySign x.key_usage) (sym ec) m₃;
        }),
    (λ u.
        rw (u.cert_decodes, u.cert_parses, u.key_decodes, u.key_parses)
          (check_pair_passes cert key u.matches u.is_ca u.may_sign)),
  )

  -- The errors of parse_material are of one kind.
  abbrev pub IsFault : CaError → Type 0
  IsFault (unusable_material f) = Unit
  IsFault _ = ⊥

  or_error-IsFault :
      {A : Type 0} (f : Fault) (o : Option A) (e : CaError)
      → or_error (unusable_material f) o ≡ err e
      → IsFault e
  or_error-IsFault f none e h = subst IsFault (err_is h) tt
  or_error-IsFault f (some a) e h = cc

  bind-IsFault :
      {A B : Type 0} (r : Result CaError A) (next : A → Result CaError B) (e : CaError)
      → ((e : CaError) → r ≡ err e → IsFault e)
      → ((a : A) (e : CaError) → next a ≡ err e → IsFault e)
      → (r >>= next) ≡ err e
      → IsFault e
  bind-IsFault (ok a) next e p q h = q a e h
  bind-IsFault (err e') next e p q h = subst IsFault (err_is h) (p e' refl)

  check_pair-IsFault :
      (cert : Cert c) (key : c.PrivateKey) (e : CaError) → check_pair c cert key ≡ err e → IsFault e
  unfolding check_pair
  check_pair-IsFault cert key e h =
      by_tests (cert, key) (key_matches c key cert.public_key) cert.is_ca
        (not (eqb cert.key_usage 0) && lacks_cert_sign cert.key_usage) h
    where
      by_tests :
          (pair : Cert c × c.PrivateKey) (same authority bound : Bool)
          → (if not same
              then err (unusable_material key_mismatch)
              else if not authority
              then err (unusable_material not_a_ca)
              else if bound
              then err (unusable_material cannot_sign)
              else ok pair)
            ≡ err e
          → IsFault e
      by_tests pair false authority bound h = subst IsFault (err_is h) tt
      by_tests pair true false bound h = subst IsFault (err_is h) tt
      by_tests pair true true true h = subst IsFault (err_is h) tt
      by_tests pair true true false h = cc

  pub parse_material-IsFault : (m : Material) (e : CaError) → parse_material c m ≡ err e → IsFault e
  unfolding parse_material parse_cert parse_key
  parse_material-IsFault m e h =
      bind-IsFault (parse_cert c m.cert_pem) _ e
        (λ e h.
          bind-IsFault _ _ e (λ e. or_error-IsFault cert_pem_broken (c.decode_pem m.cert_pem) e)
            (λ b e. or_error-IsFault cert_broken (c.parse_certificate b) e) h)
        (λ cert e h.
          bind-IsFault (parse_key c m.key_pem) _ e
            (λ e h.
              bind-IsFault _ _ e (λ e. or_error-IsFault key_pem_broken (c.decode_pem m.key_pem) e)
                (λ b e h.
                  bind-IsFault _ _ e (λ e. or_error-IsFault key_broken (c.parse_pkcs8 b) e)
                    (λ p e. or_error-IsFault key_not_ecdsa p e) h)
                h)
            (λ key e. check_pair-IsFault cert key e) h)
        h
