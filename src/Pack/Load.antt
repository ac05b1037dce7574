-- ===== src/Pack/Load.antt =====
-- Loading a pack: internal/pack/pack.go, and resolveValues of internal/pack/values.go. CUE and the
-- parser of versions are packages that the code calls: they are parameters.
pub mod Payload
pub mod Checked
use cube_idp.Base.{
  Bool, true, false, not, ◌||◌, Option, none, some, List, [], ◌∷◌, Result, ◌>>=◌, ◌>>◌, or_error,
  if◌then◌else◌, Text, txt, ◌==◌, ok, err,
}
use cube_idp.Base.Document.{Fields, end, field}
use cube_idp.Pack.Errors.{
  PackError, source_unreadable, metadata_compile, metadata_schema, payload_mismatch, chart_content,
  values_on_raw_pack, values_rejected,
}
use cube_idp.Pack.Context.{Context, live, at_load}
use cube_idp.Pack.Source.{Node, file, dir, stat_at, read_at}
use cube_idp.Pack.Chart.{Chart, check_chart_version}

-- TypeRaw, TypeHelm, TypeKustomize
abbrev pub type_raw : Text
type_raw = txt "raw"

abbrev pub type_helm : Text
type_helm = txt "helm"

abbrev pub type_kustomize : Text
type_kustomize = txt "kustomize"

pub record Metadata : Type 0 where
  pub name : Text
  pub version : Text
  pub pack_type : Text
  pub namespace : Text
  pub category : Text
  pub chart : Option Chart

-- What the code calls of CUE, with the errors as `none`, and semver.Canonical. The schema is the
-- text packSchema.
pub record Cue : Type 1 where
  pub Val : Type 0
  pub compile : Text → Option Val
  pub schema : Val
  pub unify : Val → Val → Val
  -- Validate(cue.Concrete(true), cue.Final()) without an error.
  pub is_valid : Val → Bool
  pub decode_metadata : Val → Option Metadata
  pub decode_values : Val → Option Fields
  -- LookupPath of #Values.
  pub values_of : Val → Val
  pub exists : Val → Bool
  pub encode : Fields → Val
  pub canonical : Text → Text

-- The struct Pack.
pub record Pack (cue : Cue) : Type 0 where
  pub meta : Metadata
  pub fsys : Node
  pub values : cue.Val

pub any_chart_content_of : (fsys : Node) → (names : List Text) → Option Text
any_chart_content_of fsys [] = none
any_chart_content_of fsys (name ∷ names) = elim (stat_at fsys name) [
  | some info ↦ some name
  | none ↦ any_chart_content_of fsys names
]

abbrev pub chart_names : List Text
chart_names = txt "Chart.yaml" ∷ txt "Chart.yml" ∷ txt "templates" ∷ txt "charts" ∷ []

pub any_chart_content : (fsys : Node) → Option Text
unfolding any_chart_content_of
any_chart_content fsys = any_chart_content_of fsys chart_names

abbrev pub is_dir_node : Option Node → Bool
is_dir_node (some (dir listable entries)) = true
is_dir_node _ = false

abbrev pub is_file_node : Option Node → Bool
is_file_node (some (file content)) = true
is_file_node _ = false

pub dir_exists : (fsys : Node) → (name : Text) → Bool
dir_exists fsys name = is_dir_node (stat_at fsys name)

pub any_file_exists : (fsys : Node) → (names : List Text) → Bool
any_file_exists fsys [] = false
any_file_exists fsys (name ∷ names) = is_file_node (stat_at fsys name) || any_file_exists fsys names

abbrev pub kustomization_markers : List Text
kustomization_markers =
    txt "kustomization.yaml" ∷ txt "kustomization.yml" ∷ txt "Kustomization" ∷ []

-- Chart content that is found is an error.
abbrev pub refuse_content : Option Text → Result PackError (Unit {0})
refuse_content none = ok tt
refuse_content (some name) = err (chart_content name)

unfoldable pub check_payload : (fsys : Node) → (t : Text) → Result PackError (Unit {0})
unfolding any_chart_content dir_exists any_file_exists
check_payload fsys t =
    if t == type_raw
    then (if not (dir_exists fsys (txt "manifests"))
        then err (payload_mismatch t (txt "manifests/ directory"))
        else ok tt)
    else if t == type_kustomize
    then (if not (any_file_exists fsys kustomization_markers)
        then err (payload_mismatch t (txt "kustomization.yaml"))
        else ok tt)
    else if t == type_helm
    then refuse_content (any_chart_content fsys)
    else ok tt

module _ (cue : Cue) where
  pub check_chart : Option Chart → Result PackError (Unit {0})
  check_chart none = ok tt
  check_chart (some chart) = check_chart_version cue.canonical chart.version

  -- What decodeMetadata does with a compiled pack.cue.
  pub metadata_of : cue.Val → Result PackError Metadata
  metadata_of v =
      let unified = cue.unify v cue.schema in
      if cue.is_valid unified
      then or_error metadata_schema (cue.decode_metadata unified)
      else err metadata_schema

  pub decode_metadata : (src : Text) → Result PackError (Metadata × cue.Val)
  unfolding metadata_of check_chart
  decode_metadata src = or_error metadata_compile (cue.compile src) >>= λ v.
      metadata_of v >>= λ meta. check_chart meta.chart >> ok (meta, cue.values_of v)

  unfoldable pub load : Context → (fsys : Node) → (ref : Text) → Result PackError (Pack cue)
  unfolding decode_metadata check_payload
  load ctx fsys ref =
      live ctx at_load
      >> (or_error (source_unreadable ref) (read_at fsys (txt "pack.cue")) >>= λ src.
          decode_metadata src >>= λ decoded.
          check_payload fsys decoded.0.pack_type
          >> ok (record { meta = decoded.0; fsys = fsys; values = decoded.1 }))

  pub decode_values : cue.Val → Result PackError Fields
  decode_values v = or_error values_rejected (cue.decode_values v)

  pub validated : cue.Val → Result PackError Fields
  unfolding decode_values
  validated v = if cue.is_valid v then decode_values v else err values_rejected

  pub defaults : Pack cue → Result PackError Fields
  unfolding validated
  defaults p = if not (cue.exists p.values) then ok end else validated p.values

  unfoldable pub resolve_values : Pack cue → (values : Fields) → Result PackError Fields
  unfolding defaults validated
  resolve_values p end = defaults p
  resolve_values p (field k v rest) =
      if p.meta.pack_type == type_raw
      then err values_on_raw_pack
      else if not (cue.exists p.values)
      then ok (field k v rest)
      else validated (cue.unify p.values (cue.encode (field k v rest)))
