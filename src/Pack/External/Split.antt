-- ===== src/Pack/External/Split.antt =====
-- Which objects the external manifests of an instance give (internal/pack/external.go).
use cube_idp.Base.{
  append_assoc, append-nil, ℕ, ◌+◌, ◌≡◌, refl, sym, ap, ◌∙◌, ◌↔◌, Bool, true, false, Option, none,
  some, List, [], ◌∷◌, ◌++◌, arith, ◌>>=◌, ok_of_bind, ok_is, wrapped, or_error_iff, wrapped_iff,
  Text, txt, ◌==◌, ok,
}
use cube_idp.Base.Document.{Fields}
use cube_idp.Api.{ExternalManifest}
use cube_idp.Pack.Errors.{external_ref, inline_parse}
use cube_idp.Pack.Context.{Checkpoint, Context, live, at_entry}
use cube_idp.Pack.Raw.{decode_documents}
use cube_idp.Pack.Raw.Manifests.{Ends, kept, decode_documents_iff}
use cube_idp.Pack.Values.{Decoders}
use cube_idp.Pack.External.{
  ExternalGroups, is_kubernetes_object, one_object, inline_manifest, external_object, add_object,
  resolve_external_from, resolve_external_manifests,
}

module _ (d : Decoders) where
  -- The reference holds one document that is not empty, a Kubernetes object.
  abbrev pub Referred : Text → Fields → Type 0
  Referred ref o =
      (data' : Text) × (d.resolve ref ≡ ok data')
      × Ends (d.decoder data')
      × (kept (d.decoder data') ≡ o ∷ [])
      × (is_kubernetes_object o ≡ true)

  -- The one object of an entry: its inline mapping, or the one document that its reference holds.
  abbrev pub Gives : ExternalManifest → Fields → Type 0
  Gives e o = elim e.manifest [ some raw ↦ d.unmarshal raw ≡ some o | none ↦ Referred e.ref o ]

  one_object_iff :
      (ref : Text) (docs : Option (List Fields)) (o : Fields)
      → (one_object ref docs ≡ ok o) ↔ ((docs ≡ some (o ∷ [])) × (is_kubernetes_object o ≡ true))
  unfolding one_object
  one_object_iff ref none o = ((λ h. cc), (λ h. cc))
  one_object_iff ref (some []) o = ((λ h. cc), (λ h. cc))
  one_object_iff ref (some (doc ∷ [])) o = ground arith
  one_object_iff ref (some (doc ∷ next ∷ more)) o = ((λ h. cc), (λ h. cc))

  external_object_iff :
      (i : ℕ) (e : ExternalManifest) (o : Fields) → (external_object d i e ≡ ok o) ↔ Gives e o
  unfolding external_object inline_manifest
  external_object_iff i e o = by_manifest e.manifest
    where
      by_manifest :
          (m : Option Text)
          → (elim m [
            | some raw ↦ inline_manifest d i raw
            | none ↦ wrapped (external_ref i) (d.resolve e.ref) >>= λ data'.
                one_object e.ref (decode_documents (d.decoder data'))
          ]
              ≡ ok o)
            ↔ (elim m [ some raw ↦ d.unmarshal raw ≡ some o | none ↦ Referred e.ref o ])
      by_manifest (some raw) = or_error_iff (inline_parse i) (d.unmarshal raw) o
      by_manifest none = (
        (λ h.
            let (data', e₁, rest) = ok_of_bind (wrapped (external_ref i) (d.resolve e.ref)) _ h in
            let (docs, good) =
              (one_object_iff e.ref (decode_documents (d.decoder data')) o).0 rest in
            let (ends, all) = (decode_documents_iff (d.decoder data') (o ∷ [])).0 docs in
            (
              data',
              (wrapped_iff (external_ref i) (d.resolve e.ref) data').0 e₁,
              ends,
              sym all,
              good,
            )),
        (λ h.
            let (data', resolved, ends, all, good) = h in
            rw ((wrapped_iff (external_ref i) (d.resolve e.ref) data').1 resolved) (
              (one_object_iff e.ref (decode_documents (d.decoder data')) o).1
                ((decode_documents_iff (d.decoder data') (o ∷ [])).1 (ends, sym all), good))),
      )

  module _ (ctx : Context) where
    -- The objects of the entries from an index on, in two groups by their lifecycles.
    pub data Split : ℕ → List ExternalManifest → (pre with_pack : List Fields) → Type 0 where
      split_nil : {i : ℕ} → Split i [] [] []
      split_pre :
          {i : ℕ} {e : ExternalManifest} {entries : List ExternalManifest} {o : Fields}
          {pre with_pack : List Fields}
          → ctx (at_entry i) ≡ false
          → (e.lifecycle == txt "pre") ≡ true
          → Gives e o
          → Split (i + 1) entries pre with_pack
          → Split i (e ∷ entries) (o ∷ pre) with_pack
      split_with :
          {i : ℕ} {e : ExternalManifest} {entries : List ExternalManifest} {o : Fields}
          {pre with_pack : List Fields}
          → ctx (at_entry i) ≡ false
          → (e.lifecycle == txt "pre") ≡ false
          → Gives e o
          → Split (i + 1) entries pre with_pack
          → Split i (e ∷ entries) pre (o ∷ with_pack)

    abbrev Extends : ℕ → List ExternalManifest → (before after : ExternalGroups) → Type 0
    Extends i entries before after =
        (pre : List Fields) × (with_pack : List Fields) × Split i entries pre with_pack
        × (after.pre ≡ before.pre ++ pre)
        × (after.with_pack ≡ before.with_pack ++ with_pack)

    live-ok : (place : Checkpoint) (u : Unit {0}) → live ctx place ≡ ok u → ctx place ≡ false
    live-ok place u h = ground (arith, h)

    Extends-cons :
        (i : ℕ) (e : ExternalManifest) (entries : List ExternalManifest) (o : Fields)
        (before after : ExternalGroups) (is_pre : Bool)
        → ctx (at_entry i) ≡ false
        → (e.lifecycle == txt "pre") ≡ is_pre
        → Gives e o
        → Extends (i + 1) entries (add_object before is_pre o) after
        → Extends i (e ∷ entries) before after
    Extends-cons i e entries o before after true c t g (pre, with_pack, s, p, w) =
        (o ∷ pre, with_pack, split_pre c t g s, p ∙ append_assoc before.pre (o ∷ []) pre, w)
    Extends-cons i e entries o before after false c t g (pre, with_pack, s, p, w) = (
      pre,
      o ∷ with_pack,
      split_with c t g s,
      p,
      w ∙ append_assoc before.with_pack (o ∷ []) with_pack,
    )

    resolve_external_from-Extends :
        (i : ℕ) (before after : ExternalGroups) (entries : List ExternalManifest)
        → resolve_external_from d ctx i before entries ≡ ok after
        → Extends i entries before after
    unfolding resolve_external_from
    resolve_external_from-Extends i before after [] h = (
      [],
      [],
      split_nil,
      ap (λ g. g.pre) (sym (ok_is h)) ∙ sym (append-nil before.pre),
      ap (λ g. g.with_pack) (sym (ok_is h)) ∙ sym (append-nil before.with_pack),
    )
    resolve_external_from-Extends i before after (e ∷ entries) h =
        let (u, alive, rest) = ok_of_bind (live ctx (at_entry i)) _ h in
        let (o, gives, later) = ok_of_bind (external_object d i e) _ rest in
        Extends-cons i e entries o before after (e.lifecycle == txt "pre")
          (live-ok (at_entry i) u alive) refl ((external_object_iff i e o).0 gives)
          (resolve_external_from-Extends (i + 1) (add_object before (e.lifecycle == txt "pre") o)
            after entries later)

    joined :
        {a b c e : List Fields}
        → a ≡ b
        → c ≡ e
        → Path ExternalGroups
            (record { pre = a; with_pack = c })
            (record { pre = b; with_pack = e })
    joined p w = λ i. record { pre = p i; with_pack = w i }

    resolve_external_from-Split :
        (i : ℕ) (before : ExternalGroups) (entries : List ExternalManifest)
        (pre with_pack : List Fields)
        → Split i entries pre with_pack
        → resolve_external_from d ctx i before entries
          ≡ ok (record { pre = before.pre ++ pre; with_pack = before.with_pack ++ with_pack })
    unfolding resolve_external_from
    resolve_external_from-Split i before entries pre with_pack split_nil =
        ap ok (joined (sym (append-nil before.pre)) (sym (append-nil before.with_pack)))
    resolve_external_from-Split i before (e ∷ entries) (o ∷ pre) with_pack (split_pre c t g s) =
        rw (c, (external_object_iff i e o).1 g, t)
          (resolve_external_from-Split (i + 1) (add_object before true o) entries pre with_pack s
            ∙ ap ok (joined (append_assoc before.pre (o ∷ []) pre) refl))
    resolve_external_from-Split i before (e ∷ entries) pre (o ∷ with_pack) (split_with c t g s) =
        rw (c, (external_object_iff i e o).1 g, t)
          (resolve_external_from-Split (i + 1) (add_object before false o) entries pre with_pack s
            ∙ ap ok (joined refl (append_assoc before.with_pack (o ∷ []) with_pack)))

    pub resolve_external_manifests_iff :
        (entries : List ExternalManifest) (groups : ExternalGroups)
        → (resolve_external_manifests d ctx entries ≡ ok groups)
          ↔ Split 0 entries groups.pre groups.with_pack
    unfolding resolve_external_manifests
    resolve_external_manifests_iff entries groups = (
      (λ h.
          let (pre, with_pack, s, p, w) =
            resolve_external_from-Extends 0 (record { pre = []; with_pack = [] }) groups entries
              h in
          rw (p, w) s),
      (λ s.
          resolve_external_from-Split 0 (record { pre = []; with_pack = [] }) entries groups.pre
            groups.with_pack s),
    )
