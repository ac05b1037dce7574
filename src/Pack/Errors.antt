-- ===== src/Pack/Errors.antt =====
-- internal/pack/errors.go and the errors of helm.go: one constructor for each error that the
-- modelled code raises, with the values that its message shows, and its code. The texts of the
-- messages are not modelled.
use cube_idp.Base.{ℕ, Option, none, some, List, Text, txt}

pub data PackError : Type 0 where
  source_unreadable : (ref : Text) → PackError
  file_unreadable : (name : Text) → PackError
  metadata_compile : PackError
  metadata_schema : PackError
  payload_mismatch : (pack_type want : Text) → PackError
  manifest_parse : (name : Text) → PackError
  inline_parse : (index : ℕ) → PackError
  empty_render : (name : Text) → PackError
  namespace_conflict : (kind name got want : Text) → PackError
  values_on_raw_pack : PackError
  values_rejected : PackError
  kustomize_build : PackError
  values_not_flat : (name : Text) → PackError
  substitution_missing : (names : List Text) → PackError
  values_document : (ref : Text) (count : Option ℕ) → PackError
  inline_values : PackError
  external_manifest : (ref : Text) (count : Option ℕ) → PackError
  remote_ref : (file ref : Text) → PackError
  instance_id_required : (name : Text) (count : ℕ) → PackError
  duplicate_instance_id : (id : Text) (first second : ℕ) → PackError
  unknown_dependency : (from target : Text) → PackError
  ambiguous_dependency : (from target : Text) (candidates : List Text) → PackError
  dependency_cycle : (members : List Text) → PackError
  -- Of helm.go.
  chart_content : (found : Text) → PackError
  chart_version : (version : Text) → PackError
  schema_drift : (pack_type : Text) → PackError
  -- The error of a context that is done.
  context_done : PackError
  -- An error of the resolver, with its own code.
  not_resolved : (code : Text) → PackError
  -- What fmt.Errorf wraps: the error that the reference of an entry or of the values met.
  external_ref : (index : ℕ) (cause : PackError) → PackError
  values_ref : (cause : PackError) → PackError

-- The code that errors.As finds in the error; `none` where no error of the chain has one.
pub code_of : PackError → Option Text
code_of (source_unreadable ref) = some (txt "CUBE-PKG-001")
code_of (file_unreadable name) = some (txt "CUBE-PKG-001")
code_of metadata_compile = some (txt "CUBE-PKG-002")
code_of metadata_schema = some (txt "CUBE-PKG-003")
code_of (payload_mismatch pack_type want) = some (txt "CUBE-PKG-004")
code_of (manifest_parse name) = some (txt "CUBE-PKG-005")
code_of (inline_parse index) = some (txt "CUBE-PKG-005")
code_of kustomize_build = some (txt "CUBE-PKG-006")
code_of (empty_render name) = some (txt "CUBE-PKG-007")
code_of (namespace_conflict kind name got want) = some (txt "CUBE-PKG-008")
code_of values_on_raw_pack = some (txt "CUBE-PKG-009")
code_of values_rejected = some (txt "CUBE-PKG-010")
code_of (values_not_flat name) = some (txt "CUBE-PKG-011")
code_of (substitution_missing names) = some (txt "CUBE-PKG-012")
code_of (values_document ref count) = some (txt "CUBE-PKG-013")
code_of inline_values = some (txt "CUBE-PKG-013")
code_of (external_manifest ref count) = some (txt "CUBE-PKG-014")
code_of (instance_id_required name count) = some (txt "CUBE-PKG-015")
code_of (duplicate_instance_id id first second) = some (txt "CUBE-PKG-016")
code_of (unknown_dependency from target) = some (txt "CUBE-PKG-017")
code_of (ambiguous_dependency from target candidates) = some (txt "CUBE-PKG-018")
code_of (dependency_cycle members) = some (txt "CUBE-PKG-019")
code_of (remote_ref file ref) = some (txt "CUBE-PKG-021")
code_of (chart_content found) = some (txt "CUBE-PKG-004")
code_of (chart_version version) = some (txt "CUBE-PKG-003")
code_of (schema_drift pack_type) = some (txt "CUBE-PKG-003")
code_of context_done = none
code_of (not_resolved code) = some code
code_of (external_ref index cause) = code_of cause
code_of (values_ref cause) = code_of cause
