-- ===== src/Pack/Helm.antt =====
-- Helm packs: internal/pack/helm.go. The JSON round trip of the values is a parameter.
pub mod Delegation
use cube_idp.Base.{
  true, not, Option, none, some, List, [], ◌∷◌, Result, ◌>>=◌, or_error, if◌then◌else◌, Text, txt,
  ◌==◌, ok, err,
}
use cube_idp.Base.Document.{Value, bool, str, obj, Fields, end, field}
use cube_idp.Pack.Errors.{PackError, schema_drift, values_rejected}
use cube_idp.Pack.Chart.{Chart, chart_kind_oci}
use cube_idp.Pack.Load.{Metadata}

-- A mapping of some fields.
abbrev pub fields : List (Text × Value) → Fields
fields [] = end
fields ((k, v) ∷ rest) = field k v (fields rest)

abbrev pub append_fields : Fields → Fields → Fields
append_fields end back = back
append_fields (field k v front) back = field k v (append_fields front back)

abbrev pub kind_helm_repository : Text
kind_helm_repository = txt "HelmRepository"

abbrev pub kind_oci_repository : Text
kind_oci_repository = txt "OCIRepository"

abbrev pub helm_interval : Text
helm_interval = txt "10m"

unfoldable pub instance_id : Metadata → (id : Text) → Text
instance_id meta id = if not (id == []) then id else meta.name

pub oci_ref : Chart → Fields
oci_ref chart =
    field (txt "tag") (str chart.version)
      (if not (chart.digest == []) then field (txt "digest") (str chart.digest) end else end)

-- The source and the release differ in four places.
abbrev pub rendered : (version kind id : Text) → (spec : Fields) → Fields
rendered version kind id spec = fields (
    (txt "apiVersion", str version)
    ∷ (txt "kind", str kind)
    ∷ (txt "metadata", obj (field (txt "name") (str id) end))
    ∷ (txt "spec", obj spec)
    ∷ [])

abbrev pub layer_selector : Fields
layer_selector = fields (
    (txt "mediaType", str (txt "application/vnd.cncf.helm.chart.content.v1.tar+gzip"))
    ∷ (txt "operation", str (txt "copy"))
    ∷ [])

pub chart_source : (id : Text) → Chart → Fields
unfolding oci_ref
chart_source id chart =
    if chart.kind == chart_kind_oci
    then rendered (txt "source.toolkit.fluxcd.io/v1") kind_oci_repository id (
        fields (
          (txt "url", str chart.url)
          ∷ (txt "interval", str helm_interval)
          ∷ (txt "layerSelector", obj layer_selector)
          ∷ (txt "ref", obj (oci_ref chart))
          ∷ []))
    else rendered (txt "source.toolkit.fluxcd.io/v1") kind_helm_repository id
        (fields ((txt "url", str chart.url) ∷ (txt "interval", str helm_interval) ∷ []))

-- The fields of the release that address its chart.
pub chart_fields : (id : Text) → Chart → Fields
chart_fields id chart =
    if chart.kind == chart_kind_oci
    then field (txt "chartRef")
        (obj (fields ((txt "kind", str kind_oci_repository) ∷ (txt "name", str id) ∷ []))) end
    else field (txt "chart")
        (obj (
          field (txt "spec")
            (obj (
              fields (
                (txt "chart", str chart.name)
                ∷ (txt "version", str chart.version)
                ∷ (
                  txt "sourceRef",
                  obj (fields ((txt "kind", str kind_helm_repository) ∷ (txt "name", str id) ∷ [])),
                )
                ∷ [])))
            end))
        end

pub target_fields : (namespace : Text) → Fields
target_fields ns =
    if not (ns == [])
    then fields (
        (txt "targetNamespace", str ns)
        ∷ (txt "install", obj (field (txt "createNamespace") (bool true) end))
        ∷ [])
    else end

-- The first argument is the round trip of jsonValues through encoding/json; `none` is its error.
module _ (json_round_trip : Fields → Option Fields) where
  pub json_values : (values : Fields) → Result PackError Fields
  json_values values = or_error values_rejected (json_round_trip values)

  pub values_fields : (values : Fields) → Result PackError Fields
  unfolding json_values
  values_fields end = ok end
  values_fields (field k v rest) =
      json_values (field k v rest) >>= λ content. ok (field (txt "values") (obj content) end)

  pub helm_release : Metadata → (id : Text) → Chart → (values : Fields) → Result PackError Fields
  unfolding values_fields target_fields chart_fields
  helm_release meta id chart values = values_fields values >>= λ content. ok (
      rendered (txt "helm.toolkit.fluxcd.io/v2") (txt "HelmRelease") id (
        field (txt "interval") (str helm_interval) (
          field (txt "releaseName") (str id) (
            append_fields (target_fields meta.namespace)
              (append_fields (chart_fields id chart) content)))))

  unfoldable pub plan_helm_objects :
      Metadata → (id : Text) → (values : Fields) → Result PackError (List Fields)
  unfolding helm_release chart_source
  plan_helm_objects meta id values = elim meta.chart [
    | none ↦ err (schema_drift meta.pack_type)
    | some chart ↦
        helm_release meta id chart values >>= λ release. ok (chart_source id chart ∷ release ∷ [])
  ]
