-- ===== src/Api/Packs.antt =====
-- api/config/v1alpha1/pack_validation.go
pub mod WellFormed
pub mod Valid
use cube_idp.Base.{
  ℕ, suc, not, ◌&&◌, ◌||◌, Option, none, some, List, [], ◌∷◌, ◌++◌, Dict, find, put, trim_space,
  if◌then◌else◌, Text, txt, ◌==◌,
}
use cube_idp.Api.{PackSpec, ExternalManifest}
use cube_idp.Api.Errors.{
  FieldPath, FieldError, required, invalid, not_supported, duplicate, child, index, Libraries,
  matches_name, is_token, validate_ref_token,
}

module _ (libraries : Libraries) where
  missing_text : FieldPath → (key value : Text) → List FieldError
  missing_text path key value = if value == [] then required (path ++ child key ∷ []) ∷ [] else []

  pub validate_inline_manifest : FieldPath → (raw : Text) → List FieldError
  unfolding missing_text
  validate_inline_manifest path raw = elim (libraries.unmarshal_object raw) [
    | none ↦ invalid path raw ∷ []
    | some (version, kind) ↦
        missing_text path (txt "apiVersion") version ++ missing_text path (txt "kind") kind
  ]

  -- The first switch of validateExternalManifest.
  manifest_source : FieldPath → (ref : Text) → (manifest : Option Text) → List FieldError
  unfolding validate_inline_manifest
  manifest_source path ref none =
      if ref == []
      then required path ∷ []
      else validate_ref_token (path ++ child (txt "ref") ∷ []) ref
  manifest_source path ref (some raw) =
      if not (ref == [])
      then invalid path (txt "ref+manifest") ∷ []
      else validate_inline_manifest (path ++ child (txt "manifest") ∷ []) raw

  lifecycle_rules : FieldPath → (lifecycle : Text) → List FieldError
  lifecycle_rules path lifecycle =
      if (lifecycle == txt "pre") || (lifecycle == txt "with")
      then []
      else not_supported (path ++ child (txt "lifecycle") ∷ []) lifecycle ∷ []

  pub validate_external_manifest : FieldPath → ExternalManifest → List FieldError
  unfolding manifest_source lifecycle_rules
  validate_external_manifest path m =
      manifest_source path m.ref m.manifest ++ lifecycle_rules path m.lifecycle

  validate_manifests : FieldPath → ℕ → List ExternalManifest → List FieldError
  unfolding validate_external_manifest
  validate_manifests path j [] = []
  validate_manifests path j (m ∷ rest) =
      validate_external_manifest (path ++ child (txt "externalManifests") ∷ index j ∷ []) m
      ++ validate_manifests path (suc j) rest

  dependency_rules : FieldPath → (id dep : Text) → List FieldError
  dependency_rules path id dep =
      if trim_space dep == []
      then required path ∷ []
      else if not (id == []) && (dep == id)
      then invalid path dep ∷ []
      else []

  validate_dependencies : FieldPath → (id : Text) → ℕ → List Text → List FieldError
  unfolding dependency_rules
  validate_dependencies path id j [] = []
  validate_dependencies path id j (dep ∷ deps) =
      dependency_rules (path ++ child (txt "dependsOn") ∷ index j ∷ []) id dep
      ++ validate_dependencies path id (suc j) deps

  id_rules : FieldPath → (id : Text) → List FieldError
  id_rules path id =
      if not (id == []) && not (matches_name id)
      then invalid (path ++ child (txt "id") ∷ []) id ∷ []
      else []

  pack_ref_rules : FieldPath → (ref : Text) → List FieldError
  pack_ref_rules path ref =
      if ref == []
      then required (path ++ child (txt "packRef") ∷ []) ∷ []
      else validate_ref_token (path ++ child (txt "packRef") ∷ []) ref

  values_ref_rules : FieldPath → (ref : Text) → List FieldError
  values_ref_rules path ref =
      if not (ref == []) then validate_ref_token (path ++ child (txt "valuesRef") ∷ []) ref else []

  pub validate_pack : FieldPath → PackSpec → List FieldError
  unfolding id_rules pack_ref_rules values_ref_rules validate_manifests validate_dependencies
  validate_pack path p =
      id_rules path p.id
      ++ (pack_ref_rules path p.pack_ref
          ++ (values_ref_rules path p.values_ref
              ++ (validate_manifests path 0 p.external_manifests
                  ++ validate_dependencies path p.id 0 p.depends_on)))

  -- What the loop of validatePacks reports of an id, and the map after it.
  duplicate_id : Dict ℕ → FieldPath → (id : Text) → List FieldError
  duplicate_id seen path id = if id == [] then [] else elim (find seen id) [
    | none ↦ []
    | some first ↦ duplicate (path ++ child (txt "id") ∷ []) id first ∷ []
  ]

  note_id : Dict ℕ → ℕ → (id : Text) → Dict ℕ
  note_id seen i id =
      if id == [] then seen else elim (find seen id) [ none ↦ put seen id i | some first ↦ seen ]

  abbrev pub packs_path : FieldPath
  packs_path = child (txt "spec") ∷ child (txt "packs") ∷ []

  pub validate_packs_from : Dict ℕ → ℕ → List PackSpec → List FieldError
  unfolding validate_pack duplicate_id note_id
  validate_packs_from seen i [] = []
  validate_packs_from seen i (p ∷ packs) =
      let path = packs_path ++ index i ∷ [] in
      validate_pack path p
      ++ (duplicate_id seen path p.id ++ validate_packs_from (note_id seen i p.id) (suc i) packs)

  pub validate_packs : List PackSpec → List FieldError
  unfolding validate_packs_from
  validate_packs packs = validate_packs_from [] 0 packs
