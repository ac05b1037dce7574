-- ===== src/Ca/Ensure/Again.antt =====
-- Bootstrapping again with the same CA (internal/ca/ensure.go, mint.go and secrets.go).
use cube_idp.Base.{
  ◌≡◌, refl, sym, ap, ◌∙◌, ◌≢◌, true, false, none, some, [], ◌∷◌, arith, subst, Result, ◌>>=◌, ◌>>◌,
  ok_of_bind, ok_is, ok≢err, Text, ◌==◌, ==_iff, ok, err,
}
use cube_idp.Base.Document.{Fields, get}
use cube_idp.Ca.Material.{
  Bytes, Material, Crypto, CaError, mint_failed, subject_ca, subject_leaf, unusable_material,
  unusable_secret, Cert, parse_material,
}
use cube_idp.Ca.Material.Usable.{IsUsable, IsFault, parse_material_iff, parse_material-IsFault}
use cube_idp.Ca.Mint.{MintRequest, mint_leaf, mint_ca, mint, with_rand}
use cube_idp.Ca.Mint.Signed.{SignedBy, mint_leaf-SignedBy}
use cube_idp.Ca.Mint.Minted.{IsLawful, MintedCa, mint_leaf-err, mint_ca-MintedCa}
use cube_idp.Ca.Ensure.{
  EnsureResult, ensure, Base64, SecretPlacement, secret_object, secret_objects,
  material_from_secret,
}

module _ (c : Crypto) where
  -- What Ensure does with material that is there.
  abbrev pub Kept : Material → MintRequest c → Result CaError EnsureResult → Type 0
  Kept m req (ok r) =
      (r.ca ≡ m)
      × (r.minted ≡ false)
      × ((cert : Cert c) × (key : c.PrivateKey) × IsUsable c m cert key
          × SignedBy c cert key req r.leaf)
  Kept m req (err (unusable_material fault)) =
      (cert : Cert c) (key : c.PrivateKey) → IsUsable c m cert key → ⊥
  Kept m req (err (mint_failed subject_leaf)) =
      (cert : Cert c) × (key : c.PrivateKey) × IsUsable c m cert key
  Kept m req (err _) = ⊥

  -- Material that is there is returned byte for byte, with a leaf for the domain of the request,
  -- whose certificate is created for the key of the leaf and signed with the certificate and the
  -- key of that CA; and nothing is minted in its place: if it is usable, the only error is that of
  -- minting the leaf; if it is not, the error says so.
  pub ensure-Kept : (m : Material) (req : MintRequest c) → Kept m req (ensure c (some m) req)
  unfolding ensure
  ensure-Kept m req = by_parse (parse_material c m) refl (mint_leaf c m req) refl
    where
      by_parse :
          (r : Result CaError (Cert c × c.PrivateKey))
          → parse_material c m ≡ r
          → (l : Result CaError (Material × c.Rand)) → mint_leaf c m req ≡ l
          → Kept m req (r >> (l >>= λ leaf. ok (record { ca = m; leaf = leaf.0; minted = false })))
      by_parse (ok (cert, key)) p (ok (leaf, rest)) l = (
        refl,
        refl,
        (
          cert,
          key,
          (parse_material_iff c m cert key).0 p,
          mint_leaf-SignedBy c m req cert key leaf rest p l,
        ),
      )
      by_parse (ok (cert, key)) p (err e) l =
          subst (λ x. Kept m req (err x)) (sym (mint_leaf-err c m req (cert, key) e p l))
            (cert, key, (parse_material_iff c m cert key).0 p)
      by_parse (err e) p leaf l = refused e (parse_material-IsFault c m e p) p
        where
          refused : (e : CaError) → IsFault c e → parse_material c m ≡ err e → Kept m req (err e)
          refused (mint_failed _) f p = elim f [ ]
          refused (unusable_secret namespace name _) f p = elim f [ ]
          refused (unusable_material fault) f p =
              λ cert key u. ok≢err (sym ((parse_material_iff c m cert key).1 u) ∙ p)

-- Documented behaviour of encoding/base64.
pub record IsBase64 (b : Base64) : Type 0 where
  pub decode-encode : (bytes : Bytes) → b.decode (b.encode bytes) ≡ some bytes
  pub encode_some : (bytes : Bytes) → bytes ≢ [] → b.encode bytes ≢ []

material_from_secret-secret_object :
    (b : Base64) (namespace name : Text) (m : Material)
    → IsBase64 b
    → m.cert_pem ≢ []
    → m.key_pem ≢ []
    → material_from_secret b (secret_object b namespace name m) ≡ ok m
unfolding material_from_secret secret_object get ◌==◌
material_from_secret-secret_object b namespace name m laws n k =
    let cert = (==_iff (b.encode m.cert_pem) []) in
    let key = (==_iff (b.encode m.key_pem) []) in
    ground (
      arith,
      laws.decode-encode m.cert_pem,
      laws.decode-encode m.key_pem,
      laws.encode_some m.cert_pem n,
      laws.encode_some m.key_pem k,
      cert,
      key,
    )

module _ (c : Crypto) (b : Base64) where
  -- A later bootstrap over the same CA.
  abbrev pub Reuses : Material → Result CaError EnsureResult → Type 0
  Reuses m (ok r) = (r.ca ≡ m) × (r.minted ≡ false)
  Reuses m (err e) = e ≡ mint_failed subject_leaf

  Reuses-of-Kept :
      (m : Material) (req : MintRequest c) (cert : Cert c) (key : c.PrivateKey)
      (r : Result CaError EnsureResult)
      → IsUsable c m cert key
      → Kept c m req r
      → Reuses m r
  Reuses-of-Kept m req cert key (ok r) u (same, old, usable) = (same, old)
  Reuses-of-Kept m req cert key (err (unusable_material fault)) u h = absurd (h cert key u)
  Reuses-of-Kept m req cert key (err (mint_failed subject_leaf)) u h = refl
  Reuses-of-Kept m req cert key (err (mint_failed subject_ca)) u h = elim h [ ]
  Reuses-of-Kept m req cert key (err (unusable_secret _ _ _)) u h = elim h [ ]

  -- What a bootstrap that minted a CA leaves for the ones after it.
  pub record Lasting (req : MintRequest c) (p : SecretPlacement) (r : EnsureResult) : Type 0 where
    pub minted : r.minted ≡ true
    pub minted_ca : MintedCa c req.cube_name r.ca
    pub secret : Fields
    pub leaf_secret : Fields
    pub secrets : secret_objects b p r ≡ secret ∷ leaf_secret ∷ []
    pub read_back : material_from_secret b secret ≡ ok r.ca
    pub reused : (later : MintRequest c) → Reuses r.ca (ensure c (some r.ca) later)

  -- Where no material is there and a mint succeeds, the CA is usable, carries the marker of the
  -- cube and has a serial number of RFC 5280's range; the first of the two Secrets reads back as
  -- exactly this CA; and any later bootstrap with what was read returns it byte for byte, or fails
  -- to mint its own leaf.
  pub ensure-Lasting :
      (req : MintRequest c) (p : SecretPlacement) (r : EnsureResult)
      → IsLawful c
      → IsBase64 b
      → ensure c none req ≡ ok r
      → Lasting req p r
  unfolding ensure mint secret_objects
  ensure-Lasting req p r laws codec h =
      let (minted, e, h₁) = ok_of_bind (mint c req) _ h in
      let (own, made, h₂) = ok_of_bind (mint_ca c req) _ e in
      let (leaf, signed, h₃) = ok_of_bind (mint_leaf c own.0 (with_rand c req own.1)) _ h₂ in
      let same : own.0 ≡ r.ca = ap (λ x. x.0) (ok_is h₃) ∙ ap (λ x. x.ca) (ok_is h₁) in
      let ca =
        subst (MintedCa c req.cube_name) same (mint_ca-MintedCa c req own.0 own.1 laws made) in
      record {
        minted = sym (ap (λ x. x.minted) (ok_is h₁));
        minted_ca = ca;
        secret = secret_object b p.namespace p.ca_secret r.ca;
        leaf_secret = secret_object b p.namespace p.leaf_secret r.leaf;
        secrets = refl;
        read_back =
            material_from_secret-secret_object b p.namespace p.ca_secret r.ca codec ca.pem.0
              ca.pem.1;
        reused = λ later.
            Reuses-of-Kept r.ca later ca.cert ca.key (ensure c (some r.ca) later) ca.usable
              (ensure-Kept c r.ca later);
      }
