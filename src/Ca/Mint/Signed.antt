-- ===== src/Ca/Mint/Signed.antt =====
-- A minted leaf is signed by the CA (internal/ca/mint.go).
use cube_idp.Base.{
  ◌≡◌, refl, sym, ap, ◌∙◌, false, some, [], ◌∷◌, ◌++◌, subst, ok_of_bind, ok_is, or_error,
  or_error_iff, txt, ok,
}
use cube_idp.Ca.Material.{Bytes, Material, Crypto, Cert, parse_material, mint_failed, subject_leaf}
use cube_idp.Ca.Mint.{MintRequest, new_key_and_serial, leaf_template, sign_and_encode, mint_leaf}
use cube_idp.Ca.Mint.Minted.{sign_and_encode-some}

module _ (c : Crypto) where
  -- A leaf for the domain: its certificate is created for its own key, and the certificate and the
  -- key of the CA sign it.
  pub record SignedBy (cert : Cert c) (key : c.PrivateKey) (req : MintRequest c) (leaf : Material)
      : Type 0 where
    pub tpl : Cert c
    pub leaf_key : c.PrivateKey
    pub drawn : c.Rand
    pub rest : c.Rand
    pub der : Bytes
    pub key_der : Bytes
    pub created : c.create_certificate tpl cert (c.public_of leaf_key) key drawn ≡ some (der, rest)
    pub marshalled : c.marshal_pkcs8 leaf_key ≡ some key_der
    pub cert_pem : leaf.cert_pem ≡ c.encode_pem (txt "CERTIFICATE") der
    pub key_pem : leaf.key_pem ≡ c.encode_pem (txt "PRIVATE KEY") key_der
    pub covers : tpl.dns_names ≡ (txt "*." ++ req.domain) ∷ []
    pub no_ca : tpl.is_ca ≡ false

  pub mint_leaf-SignedBy :
      (m : Material) (req : MintRequest c) (cert : Cert c) (key : c.PrivateKey) (leaf : Material)
      (rest : c.Rand)
      → parse_material c m ≡ ok (cert, key)
      → mint_leaf c m req ≡ ok (leaf, rest)
      → SignedBy cert key req leaf
  unfolding mint_leaf leaf_template
  mint_leaf-SignedBy m req cert key leaf rest p h =
      let (parsed, q, h₁) = ok_of_bind (parse_material c m) _ h in
      let (drawn, draws, h₂) =
        ok_of_bind (or_error (mint_failed subject_leaf) (new_key_and_serial c req.rand)) _ h₁ in
      let same = ok_is (sym q ∙ p) in
      let tpl = leaf_template c req.domain req.now drawn.1 in
      let (der, key_der, created, marshalled, e) =
        sign_and_encode-some c drawn.2 rest tpl parsed.0 drawn.0 parsed.1 leaf (
          (or_error_iff (mint_failed subject_leaf)
              (sign_and_encode c drawn.2 tpl parsed.0 drawn.0 parsed.1) (leaf, rest)).0
            h₂) in
      record {
        tpl = tpl;
        leaf_key = drawn.0;
        drawn = drawn.2;
        rest = rest;
        der = der;
        key_der = key_der;
        created =
            subst
              (λ x.
                c.create_certificate tpl x.0 (c.public_of drawn.0) x.1 drawn.2 ≡ some (der, rest))
              same created;
        marshalled = marshalled;
        cert_pem = ap (λ x. x.cert_pem) e;
        key_pem = ap (λ x. x.key_pem) e;
        covers = refl;
        no_ca = refl;
      }
