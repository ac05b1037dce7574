-- ===== src/Api/Packs/WellFormed.antt =====
-- Which packs api/config/v1alpha1/pack_validation.go accepts, one by one.
use cube_idp.Base.{
  ℕ, suc, ◌≡◌, refl, ◌≢◌, ◌↔◌, ◌⊎◌, true, Option, none, some, List, [], ◌∷◌, ◌++◌, arith, Every,
  trim_space, Text, txt, ==_iff,
}
use cube_idp.Api.{PackSpec, ExternalManifest}
use cube_idp.Api.Errors.{
  FieldPath, child, index, Libraries, matches_name, is_token, validate_ref_token, both_iff,
}
use cube_idp.Api.Packs.{
  missing_text, validate_inline_manifest, manifest_source, lifecycle_rules,
  validate_external_manifest, validate_manifests, dependency_rules, validate_dependencies, id_rules,
  pack_ref_rules, values_ref_rules, validate_pack,
}

module _ (libraries : Libraries) where
  -- The text is a JSON object with an apiVersion and a kind.
  abbrev pub IsObject : (raw : Text) → Type 0
  IsObject raw =
      (version : Text) × (kind : Text) × (libraries.unmarshal_object raw ≡ some (version, kind))
      × (version ≢ [])
      × (kind ≢ [])

  -- Exactly one of a reference, well-formed, and an inline object.
  abbrev pub HasSource : (ref : Text) → (manifest : Option Text) → Type 0
  HasSource ref none = (ref ≢ []) × (is_token ref ≡ true)
  HasSource ref (some raw) = (ref ≡ []) × IsObject raw

  pub record IsValidManifest (m : ExternalManifest) : Type 0 where
    pub source : HasSource m.ref m.manifest
    pub lifecycle : (m.lifecycle ≡ txt "pre") ⊎ (m.lifecycle ≡ txt "with")

  -- A dependency is named, and is not the pack itself by its explicit id.
  abbrev pub IsValidDependency : (id dep : Text) → Type 0
  IsValidDependency id dep = (trim_space dep ≢ []) × (id ≢ [] → dep ≢ id)

  pub record IsValidPack (p : PackSpec) : Type 0 where
    pub id : (p.id ≡ []) ⊎ (matches_name p.id ≡ true)
    pub pack_ref : (p.pack_ref ≢ []) × (is_token p.pack_ref ≡ true)
    pub values_ref : (p.values_ref ≡ []) ⊎ (is_token p.values_ref ≡ true)
    pub manifests : Every IsValidManifest p.external_manifests
    pub dependencies : Every (IsValidDependency p.id) p.depends_on

  inline_iff :
      (path : FieldPath) (raw : Text)
      → (validate_inline_manifest libraries path raw ≡ []) ↔ IsObject raw
  unfolding validate_inline_manifest missing_text
  inline_iff path raw = by_object (libraries.unmarshal_object raw) refl
    where
      by_object :
          (o : Option (Text × Text))
          → libraries.unmarshal_object raw ≡ o
          → (validate_inline_manifest libraries path raw ≡ []) ↔ IsObject raw
      by_object none e = ground (arith, e)
      by_object (some (version, kind)) e = ground (arith, e, ==_iff version [], ==_iff kind [])

  manifest_source_iff :
      (path : FieldPath) (ref : Text) (manifest : Option Text)
      → (manifest_source libraries path ref manifest ≡ []) ↔ HasSource ref manifest
  unfolding manifest_source validate_ref_token
  manifest_source_iff path ref none = ground (arith, ==_iff ref [])
  manifest_source_iff path ref (some raw) =
      ground (arith, ==_iff ref [], inline_iff (path ++ child (txt "manifest") ∷ []) raw)

  lifecycle_rules_iff :
      (path : FieldPath) (lifecycle : Text)
      → (lifecycle_rules libraries path lifecycle ≡ [])
        ↔ ((lifecycle ≡ txt "pre") ⊎ (lifecycle ≡ txt "with"))
  unfolding lifecycle_rules
  lifecycle_rules_iff path lifecycle =
      ground (arith, ==_iff lifecycle (txt "pre"), ==_iff lifecycle (txt "with"))

  validate_external_manifest_iff :
      (path : FieldPath) (m : ExternalManifest)
      → (validate_external_manifest libraries path m ≡ []) ↔ IsValidManifest m
  unfolding validate_external_manifest
  validate_external_manifest_iff path m =
      let both =
        both_iff (manifest_source libraries path m.ref m.manifest)
          (lifecycle_rules libraries path m.lifecycle) (manifest_source_iff path m.ref m.manifest)
          (lifecycle_rules_iff path m.lifecycle) in
      (
        (λ h. let (s, l) = both.0 h in record { source = s; lifecycle = l }),
        (λ v. both.1 (v.source, v.lifecycle)),
      )

  validate_manifests_iff :
      (path : FieldPath) (j : ℕ) (manifests : List ExternalManifest)
      → (validate_manifests libraries path j manifests ≡ []) ↔ Every IsValidManifest manifests
  unfolding validate_manifests
  validate_manifests_iff path j [] = ((λ h. tt), (λ h. refl))
  validate_manifests_iff path j (m ∷ rest) =
      both_iff _ _
        (validate_external_manifest_iff (path ++ child (txt "externalManifests") ∷ index j ∷ []) m)
        (validate_manifests_iff path (suc j) rest)

  dependency_rules_iff :
      (path : FieldPath) (id dep : Text)
      → (dependency_rules libraries path id dep ≡ []) ↔ IsValidDependency id dep
  unfolding dependency_rules
  dependency_rules_iff path id dep =
      ground (arith, ==_iff (trim_space dep) [], ==_iff id [], ==_iff dep id)

  validate_dependencies_iff :
      (path : FieldPath) (id : Text) (j : ℕ) (deps : List Text)
      → (validate_dependencies libraries path id j deps ≡ []) ↔ Every (IsValidDependency id) deps
  unfolding validate_dependencies
  validate_dependencies_iff path id j [] = ((λ h. tt), (λ h. refl))
  validate_dependencies_iff path id j (dep ∷ deps) =
      both_iff _ _ (dependency_rules_iff (path ++ child (txt "dependsOn") ∷ index j ∷ []) id dep)
        (validate_dependencies_iff path id (suc j) deps)

  id_rules_iff :
      (path : FieldPath) (id : Text)
      → (id_rules libraries path id ≡ []) ↔ ((id ≡ []) ⊎ (matches_name id ≡ true))
  unfolding id_rules
  id_rules_iff path id = ground (arith, ==_iff id [])

  pack_ref_rules_iff :
      (path : FieldPath) (ref : Text)
      → (pack_ref_rules libraries path ref ≡ []) ↔ ((ref ≢ []) × (is_token ref ≡ true))
  unfolding pack_ref_rules validate_ref_token
  pack_ref_rules_iff path ref = ground (arith, ==_iff ref [])

  values_ref_rules_iff :
      (path : FieldPath) (ref : Text)
      → (values_ref_rules libraries path ref ≡ []) ↔ ((ref ≡ []) ⊎ (is_token ref ≡ true))
  unfolding values_ref_rules validate_ref_token
  values_ref_rules_iff path ref = ground (arith, ==_iff ref [])

  pub validate_pack_iff :
      (path : FieldPath) (p : PackSpec) → (validate_pack libraries path p ≡ []) ↔ IsValidPack p
  unfolding validate_pack
  validate_pack_iff path p =
      let all = both_iff _ _ (id_rules_iff path p.id) (
        both_iff _ _ (pack_ref_rules_iff path p.pack_ref) (
          both_iff _ _ (values_ref_rules_iff path p.values_ref) (
            both_iff _ _ (validate_manifests_iff path 0 p.external_manifests)
              (validate_dependencies_iff path p.id 0 p.depends_on)))) in
      (
        (λ h.
            let (i, (r, (v, (m, d)))) = all.0 h in
            record { id = i; pack_ref = r; values_ref = v; manifests = m; dependencies = d }),
        (λ v. all.1 (v.id, (v.pack_ref, (v.values_ref, (v.manifests, v.dependencies))))),
      )
