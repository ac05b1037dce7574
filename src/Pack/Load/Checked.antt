-- ===== src/Pack/Load/Checked.antt =====
-- What a loaded pack has passed (internal/pack/pack.go).
use cube_idp.Base.{
  ◌≡◌, refl, sym, ap, ◌∙◌, ◌↔◌, Bool, true, false, Option, none, some, ◌∷◌, arith, subst,
  ok_of_bind, ok_is, or_error, or_error_iff, if◌then◌else◌, Text, txt, ok, err,
}
use cube_idp.Pack.Errors.{source_unreadable, metadata_compile, metadata_schema}
use cube_idp.Pack.Context.{Checkpoint, Context, live, at_load}
use cube_idp.Pack.Source.{Node, read_at}
use cube_idp.Pack.Chart.{Chart, check_chart_version_iff}
use cube_idp.Pack.Load.{
  Cue, Pack, Metadata, check_chart, metadata_of, decode_metadata, check_payload, load,
}
use cube_idp.Pack.Load.Payload.{Fits, check_payload_iff}

module _ (cue : Cue) where
  -- The version of a chart is canonical.
  abbrev pub IsExact : Option Chart → Type 0
  IsExact none = Unit
  IsExact (some chart) = cue.canonical (b'v' ∷ chart.version) ≡ b'v' ∷ chart.version

  pub record Loaded (fsys : Node) (p : Pack cue) : Type 0 where
    pub source : Text
    pub compiled : cue.Val
    pub read : read_at fsys (txt "pack.cue") ≡ some source
    pub compiles : cue.compile source ≡ some compiled
    pub conforms : cue.is_valid (cue.unify compiled cue.schema) ≡ true
    pub decodes : cue.decode_metadata (cue.unify compiled cue.schema) ≡ some p.meta
    pub values : p.values ≡ cue.values_of compiled
    pub same_files : p.fsys ≡ fsys
    pub fits : Fits fsys p.meta.pack_type
    pub exact : IsExact p.meta.chart

  check_chart_iff : (chart : Option Chart) → (check_chart cue chart ≡ ok tt) ↔ IsExact chart
  unfolding check_chart
  check_chart_iff none = ((λ h. tt), (λ h. refl))
  check_chart_iff (some chart) = check_chart_version_iff cue.canonical chart.version

  metadata_of_iff :
      (v : cue.Val) (m : Metadata)
      → (metadata_of cue v ≡ ok m) ↔ (
          (cue.is_valid (cue.unify v cue.schema) ≡ true)
          × (cue.decode_metadata (cue.unify v cue.schema) ≡ some m))
  unfolding metadata_of
  metadata_of_iff v m = by_test (cue.is_valid (cue.unify v cue.schema))
    where
      by_test :
          (b : Bool)
          → ((if b
                then or_error metadata_schema (cue.decode_metadata (cue.unify v cue.schema))
                else err metadata_schema)
              ≡ ok m)
            ↔ ((b ≡ true) × (cue.decode_metadata (cue.unify v cue.schema) ≡ some m))
      by_test true = (
        (λ h. (refl, (or_error_iff metadata_schema _ m).0 h)),
        (λ h. (or_error_iff metadata_schema _ m).1 h.1),
      )
      by_test false = ((λ h. cc), (λ h. cc))

  live-ok :
      (ctx : Context) (place : Checkpoint) (u : Unit {0})
      → live ctx place ≡ ok u
      → ctx place ≡ false
  live-ok ctx place u h = ground (arith, h)

  -- Loading succeeds exactly if the context is live, pack.cue can be read at the root and compiles,
  -- its unification with the schema is valid and decodes to the metadata of the pack, the payload
  -- fits the declared type, and the version of a chart is its own canonical form.
  pub load_iff :
      (ctx : Context) (fsys : Node) (ref : Text) (p : Pack cue)
      → (load cue ctx fsys ref ≡ ok p) ↔ ((ctx at_load ≡ false) × Loaded fsys p)
  unfolding load decode_metadata
  load_iff ctx fsys ref p = (
    (λ h.
        let (u, alive, h₁) = ok_of_bind (live ctx at_load) _ h in
        let (src, read, h₂) =
          ok_of_bind (or_error (source_unreadable ref) (read_at fsys (txt "pack.cue"))) _ h₁ in
        let (decoded, decodes, h₃) = ok_of_bind (decode_metadata cue src) _ h₂ in
        let (v, compiles, d₁) =
          ok_of_bind (or_error metadata_compile (cue.compile src)) _ decodes in
        let (m, conforms, d₂) = ok_of_bind (metadata_of cue v) _ d₁ in
        let (u₁, exact, d₃) = ok_of_bind (check_chart cue m.chart) _ d₂ in
        let (u₂, fits, last) = ok_of_bind (check_payload fsys decoded.0.pack_type) _ h₃ in
        let e = ok_is d₃ in
        let q = ok_is last in
        let meta = ap (λ x. x.0) e ∙ ap (λ x. x.meta) q in
        let valid = (metadata_of_iff v m).0 conforms in
        (
          live-ok ctx at_load u alive,
          record {
            source = src;
            compiled = v;
            read = (or_error_iff _ _ src).0 read;
            compiles = (or_error_iff _ _ v).0 compiles;
            conforms = valid.0;
            decodes = valid.1 ∙ ap some meta;
            values = sym (ap (λ x. x.1) e ∙ ap (λ x. x.values) q);
            same_files = sym (ap (λ x. x.fsys) q);
            fits =
                subst (λ t. Fits fsys t) (ap (λ x. x.meta.pack_type) q)
                  ((check_payload_iff fsys decoded.0.pack_type).0 fits);
            exact = subst (λ x. IsExact x.chart) meta ((check_chart_iff m.chart).0 exact);
          },
        )),
    (λ h.
        let (alive, l) = h in
        rw
          (
            alive,
            l.read,
            l.compiles,
            (metadata_of_iff l.compiled p.meta).1 (l.conforms, l.decodes),
            (check_chart_iff p.meta.chart).1 l.exact,
            (check_payload_iff fsys p.meta.pack_type).1 l.fits,
          )
          (ap ok
            (sym (λ i. record { meta = p.meta; fsys = l.same_files i; values = l.values i })))),
  )
