-- ===== src/Pack/Helm/Delegation.antt =====
-- The two objects of a helm pack (internal/pack/helm.go).
use cube_idp.Base.{
  ◌≡◌, refl, sym, ap, ◌∙◌, Bool, true, false, Option, none, some, List, [], ◌∷◌, arith, ◌>>=◌,
  ok_of_bind, ok_is, or_error, or_error_iff, Text, txt, ◌==◌, ==_iff, ok, err,
}
use cube_idp.Base.Document.{Value, str, obj, Fields, end, field, get, nested, nested_string}
use cube_idp.Pack.Errors.{schema_drift, values_rejected}
use cube_idp.Pack.Namespace.{kind_of, name_of, namespace_of}
use cube_idp.Pack.Chart.{Chart, chart_kind_oci}
use cube_idp.Pack.Load.{Metadata}
use cube_idp.Pack.Helm.{
  rendered, append_fields, kind_helm_repository, kind_oci_repository, helm_interval, oci_ref,
  chart_source, chart_fields, target_fields, json_values, values_fields, helm_release,
  plan_helm_objects,
}

-- A string of the spec.
abbrev pub spec_string : Fields → List Text → Text
spec_string o path = nested_string o (txt "spec") path

-- Where the release says which source it pulls its chart from.
abbrev pub source_path : (oci : Bool) → (key : Text) → List Text
source_path true key = txt "chartRef" ∷ key ∷ []
source_path false key = txt "chart" ∷ txt "spec" ∷ txt "sourceRef" ∷ key ∷ []

-- How the chart is addressed: an artifact by a tag and a digest at the source, a chart of a
-- repository by its name and version at the release.
abbrev pub Addressed : (oci : Bool) → Chart → (source release : Fields) → Type 0
Addressed true chart source release =
    (kind_of source ≡ kind_oci_repository)
    × (spec_string source (txt "ref" ∷ txt "tag" ∷ []) ≡ chart.version)
    × (spec_string source (txt "ref" ∷ txt "digest" ∷ []) ≡ chart.digest)
Addressed false chart source release =
    (kind_of source ≡ kind_helm_repository)
    × (spec_string release (txt "chart" ∷ txt "spec" ∷ txt "chart" ∷ []) ≡ chart.name)
    × (spec_string release (txt "chart" ∷ txt "spec" ∷ txt "version" ∷ []) ≡ chart.version)

-- The release delegates to the chart through the source.
pub record Delegates (meta : Metadata) (id : Text) (chart : Chart) (source release : Fields)
    : Type 0 where
  pub source_name : name_of source ≡ id
  pub release_name : name_of release ≡ id
  pub release_kind : kind_of release ≡ txt "HelmRelease"
  pub names_source :
      (spec_string release (source_path (chart.kind == chart_kind_oci) (txt "kind"))
        ≡ kind_of source)
      × (spec_string release (source_path (chart.kind == chart_kind_oci) (txt "name"))
          ≡ name_of source)
  pub url : spec_string source (txt "url" ∷ []) ≡ chart.url
  pub addressed : Addressed (chart.kind == chart_kind_oci) chart source release
  pub target : spec_string release (txt "targetNamespace" ∷ []) ≡ meta.namespace
  pub unplaced : (namespace_of source ≡ []) × (namespace_of release ≡ [])

abbrev pub as_value : Option Fields → Option Value
as_value none = none
as_value (some content) = some (obj content)

-- The field of the values, if there are any.
abbrev values_part : Option Fields → Fields
values_part none = end
values_part (some content) = field (txt "values") (obj content) end

abbrev release_of : Metadata → Text → Chart → Option Fields → Fields
release_of meta id chart content =
    rendered (txt "helm.toolkit.fluxcd.io/v2") (txt "HelmRelease") id (
      field (txt "interval") (str helm_interval) (
        field (txt "releaseName") (str id) (
          append_fields (target_fields meta.namespace)
            (append_fields (chart_fields id chart) (values_part content)))))

release-target :
    (meta : Metadata) (id : Text) (chart : Chart) (content : Option Fields)
    → spec_string (release_of meta id chart content) (txt "targetNamespace" ∷ []) ≡ meta.namespace
unfolding target_fields chart_fields nested nested_string get ◌==◌
release-target meta id chart none = ground (arith, ==_iff meta.namespace [])
release-target meta id chart (some content) = ground (arith, ==_iff meta.namespace [])

release-source :
    (meta : Metadata) (id : Text) (chart : Chart) (content : Option Fields)
    → (spec_string
          (release_of meta id chart content)
          (source_path (chart.kind == chart_kind_oci) (txt "kind"))
        ≡ kind_of (chart_source id chart))
      × (spec_string
            (release_of meta id chart content)
            (source_path (chart.kind == chart_kind_oci) (txt "name"))
          ≡ name_of (chart_source id chart))
unfolding target_fields chart_fields chart_source nested nested_string get ◌==◌
release-source meta id chart none = ground arith
release-source meta id chart (some content) = ground arith

release-Addressed :
    (meta : Metadata) (id : Text) (chart : Chart) (content : Option Fields)
    → Addressed
        (chart.kind == chart_kind_oci)
        chart
        (chart_source id chart)
        (release_of meta id chart content)
unfolding target_fields chart_fields chart_source oci_ref nested nested_string get ◌==◌
release-Addressed meta id chart content = by_test (chart.kind == chart_kind_oci) refl
  where
    by_test :
        (oci : Bool)
        → (chart.kind == chart_kind_oci) ≡ oci
        → Addressed oci chart (chart_source id chart) (release_of meta id chart content)
    by_test true e =
        (ground (arith, e), ground (arith, e), ground (arith, e, ==_iff chart.digest []))
    by_test false e = (ground (arith, e), ground (arith, e), ground (arith, e))

release-Delegates :
    (meta : Metadata) (id : Text) (chart : Chart) (content : Option Fields)
    → Delegates meta id chart (chart_source id chart) (release_of meta id chart content)
unfolding chart_source nested nested_string get ◌==◌
release-Delegates meta id chart content = record {
  source_name = ground arith;
  release_name = refl;
  release_kind = refl;
  names_source = release-source meta id chart content;
  url = ground arith;
  addressed = release-Addressed meta id chart content;
  target = release-target meta id chart content;
  unplaced = (ground arith, refl);
}

release-values :
    (meta : Metadata) (id : Text) (chart : Chart) (content : Option Fields)
    → nested (release_of meta id chart content) (txt "spec") (txt "values" ∷ []) ≡ as_value content
unfolding target_fields chart_fields nested get ◌==◌
release-values meta id chart none = ground arith
release-values meta id chart (some content) = ground arith

module _ (json_round_trip : Fields → Option Fields) where
  -- The values that the release carries: none where there are none.
  abbrev pub carried : (values : Fields) → Option Fields
  carried end = none
  carried (field k v rest) = json_round_trip (field k v rest)

  values_fields-ok :
      (values out : Fields)
      → values_fields json_round_trip values ≡ ok out
      → out ≡ values_part (carried values)
  unfolding values_fields json_values
  values_fields-ok end out h = sym (ok_is h)
  values_fields-ok (field k v rest) out h =
      let (content, e, last) =
        ok_of_bind (or_error values_rejected (json_round_trip (field k v rest))) _ h in
      sym (ok_is last)
      ∙ ap values_part
          (sym ((or_error_iff values_rejected (json_round_trip (field k v rest)) content).0 e))

  helm_release-ok :
      (meta : Metadata) (id : Text) (chart : Chart) (values release : Fields)
      → helm_release json_round_trip meta id chart values ≡ ok release
      → release ≡ release_of meta id chart (carried values)
  unfolding helm_release
  helm_release-ok meta id chart values release h =
      let (content, e, last) = ok_of_bind (values_fields json_round_trip values) _ h in
      sym (ok_is last)
      ∙ ap
          (λ c. rendered (txt "helm.toolkit.fluxcd.io/v2") (txt "HelmRelease") id (
            field (txt "interval") (str helm_interval) (
              field (txt "releaseName") (str id) (
                append_fields (target_fields meta.namespace)
                  (append_fields (chart_fields id chart) c)))))
          (values_fields-ok values content e)

  -- Where a helm pack renders, it has a chart, and its objects are two: the source of the chart,
  -- then the release. Both are named by the instance and stand in no namespace; the release names
  -- the source by the source's own kind and name; the source has the chart's address; the chart is
  -- addressed by tag and digest as an artifact, and by name and version in a repository; the
  -- release targets the namespace of the pack, and carries the JSON form of the values, if there
  -- are any.
  pub plan_helm_objects-Delegates :
      (meta : Metadata) (id : Text) (values : Fields) (objs : List Fields)
      → plan_helm_objects json_round_trip meta id values ≡ ok objs
      → (chart : Chart) × (source : Fields) × (release : Fields) × (meta.chart ≡ some chart)
        × (objs ≡ source ∷ release ∷ [])
        × Delegates meta id chart source release
        × (nested release (txt "spec") (txt "values" ∷ []) ≡ as_value (carried values))
  unfolding plan_helm_objects
  plan_helm_objects-Delegates meta id values objs h = by_chart meta.chart h
    where
      by_chart :
          (o : Option Chart)
          → elim o [
            | none ↦ err (schema_drift meta.pack_type)
            | some chart ↦ helm_release json_round_trip meta id chart values >>= λ release.
                ok (chart_source id chart ∷ release ∷ [])
          ]
            ≡ ok objs
          → (chart : Chart) × (source : Fields) × (release : Fields) × (o ≡ some chart)
            × (objs ≡ source ∷ release ∷ [])
            × Delegates meta id chart source release
            × (nested release (txt "spec") (txt "values" ∷ []) ≡ as_value (carried values))
      by_chart none h = cc
      by_chart (some chart) h =
          let (release, e, last) =
            ok_of_bind (helm_release json_round_trip meta id chart values) _ h in
          let same = helm_release-ok meta id chart values release e in
          (
            chart,
            chart_source id chart,
            release_of meta id chart (carried values),
            refl,
            sym (ok_is last) ∙ ap (λ r. chart_source id chart ∷ r ∷ []) same,
            release-Delegates meta id chart (carried values),
            release-values meta id chart (carried values),
          )
