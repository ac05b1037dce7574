-- ===== src/Pack/Kustomize/Contained.antt =====
-- A kustomization is self-contained (internal/pack/kustomize.go).
use cube_idp.Base.{
  ◌≡◌, refl, sym, ◌↔◌, ◌⊎◌, Bool, true, false, not, ◌||◌, Option, none, some, List, [], ◌∷◌, ◌++◌,
  subst, false≢true, Every, Every-append, contains, Every-of-append, some_is, path_base,
  if◌then◌else◌, or_iff, Text, txt, ◌==◌, ==_iff, ok, err,
}
use cube_idp.Pack.Errors.{kustomize_build, remote_ref}
use cube_idp.Pack.Source.{Node, Visit, failed, directory, regular}
use cube_idp.Base.WalkDir.Walked.{all_visits, walk_dir_iff}
use cube_idp.Pack.Kustomize.Remote.{IsRemote, is_remote_ref_iff}
use cube_idp.Pack.Kustomize.{
  Kustomization, is_kustomization, is_remote_ref, first_remote, refs_of, check_kustomization_refs,
  check_file, check_visit, check_self_contained,
}

-- A file with one of the names that kustomize accepts for a kustomization.
abbrev pub IsKustomization : (name : Text) → Type 0
IsKustomization name =
    (path_base name ≡ txt "kustomization.yaml")
    ⊎ ((path_base name ≡ txt "kustomization.yml") ⊎ (path_base name ≡ txt "Kustomization"))

pub is_kustomization_iff : (name : Text) → (is_kustomization name ≡ true) ↔ IsKustomization name
unfolding is_kustomization contains
is_kustomization_iff name =
    or_iff (named (txt "kustomization.yaml"))
      (or_iff (named (txt "kustomization.yml")) (last (named (txt "Kustomization"))))
  where
    named : (t : Text) → ((t == path_base name) ≡ true) ↔ (path_base name ≡ t)
    named t =
        ((λ h. sym ((==_iff t (path_base name)).0 h)), (λ e. (==_iff t (path_base name)).1 (sym e)))

    last : {a : Bool} {P : Type 0} → (a ≡ true) ↔ P → ((a || false) ≡ true) ↔ P
    last {a = true} p = p
    last {a = false} p = p

abbrev pub AreLocal : List Text → Type 0
AreLocal = Every (λ ref. IsRemote ref → ⊥)

-- No reference in any field of a kustomization is remote.
pub record HasLocalRefs (k : Kustomization) : Type 0 where
  pub resources : AreLocal k.resources
  pub components : AreLocal k.components
  pub crds : AreLocal k.crds
  pub configurations : AreLocal k.configurations
  pub bases : AreLocal k.bases
  pub patches : AreLocal k.patches

refs_of_iff : (k : Kustomization) → AreLocal (refs_of k) ↔ HasLocalRefs k
refs_of_iff k = (
  (λ h.
      let (h₁, patches) = Every-of-append _ (with_bases k) k.patches h in
      let (h₂, bases) = Every-of-append _ (with_configurations k) k.bases h₁ in
      let (h₃, configurations) = Every-of-append _ (with_crds k) k.configurations h₂ in
      let (h₄, crds) = Every-of-append _ (k.resources ++ k.components) k.crds h₃ in
      let (resources, components) = Every-of-append _ k.resources k.components h₄ in
      record {
        resources = resources;
        components = components;
        crds = crds;
        configurations = configurations;
        bases = bases;
        patches = patches;
      }),
  (λ h.
      Every-append _ (with_bases k) k.patches
        (Every-append _ (with_configurations k) k.bases
          (Every-append _ (with_crds k) k.configurations
            (Every-append _ (k.resources ++ k.components) k.crds
              (Every-append _ k.resources k.components h.resources h.components) h.crds)
            h.configurations)
          h.bases)
        h.patches),
)
  where
    with_crds : Kustomization → List Text
    with_crds k = k.resources ++ k.components ++ k.crds

    with_configurations : Kustomization → List Text
    with_configurations k = with_crds k ++ k.configurations

    with_bases : Kustomization → List Text
    with_bases k = with_configurations k ++ k.bases

first_remote_iff :
    (name : Text) (refs : List Text) → (first_remote name refs ≡ ok tt) ↔ AreLocal refs
unfolding first_remote
first_remote_iff name [] = ((λ h. tt), (λ h. refl))
first_remote_iff name (ref ∷ refs) =
    by_test (is_remote_ref ref) (is_remote_ref_iff ref) (first_remote_iff name refs)
  where
    by_test :
        (remote : Bool)
        → (remote ≡ true) ↔ IsRemote ref
        → (first_remote name refs ≡ ok tt) ↔ AreLocal refs
        → ((if remote then err (remote_ref name ref) else first_remote name refs) ≡ ok tt)
          ↔ ((IsRemote ref → ⊥) × AreLocal refs)
    by_test true test later = ((λ h. cc), (λ h. absurd (h.0 (test.0 refl))))
    by_test false test later =
        ((λ h. ((λ x. false≢true (test.1 x)), later.0 h)), (λ h. later.1 h.1))

module _ (unmarshal : Text → Option Kustomization) where
  abbrev pub IsLocal : Option Text → Type 0
  IsLocal none = ⊥
  IsLocal (some data') = (k : Kustomization) × (unmarshal data' ≡ some k) × HasLocalRefs k

  -- Everything can be listed, and a kustomization file is readable, decodes and refers to nothing
  -- remote.
  abbrev pub IsContained : Text → Visit → Type 0
  IsContained name failed = ⊥
  IsContained name directory = Unit
  IsContained name (regular content) = IsKustomization name → IsLocal content

  check_file_iff :
      (name : Text) (content : Option Text)
      → (check_file unmarshal name content ≡ ok tt) ↔ IsLocal content
  unfolding check_file check_kustomization_refs
  check_file_iff name none = ((λ h. cc), (λ h. elim h [ ]))
  check_file_iff name (some data') = by_value (unmarshal data')
    where
      by_value :
          (o : Option Kustomization)
          → (elim o [ none ↦ err kustomize_build | some k ↦ first_remote name (refs_of k) ] ≡ ok tt)
            ↔ ((k : Kustomization) × (o ≡ some k) × HasLocalRefs k)
      by_value none = ((λ h. cc), (λ h. cc))
      by_value (some k) = (
        (λ h. (k, refl, (refs_of_iff k).0 ((first_remote_iff name (refs_of k)).0 h))),
        (λ h.
            (first_remote_iff name (refs_of k)).1
              ((refs_of_iff k).1 (subst HasLocalRefs (some_is (sym h.1)) h.2))),
      )

  check_visit_iff :
      (name : Text) (v : Visit) (s s' : Unit {0})
      → (check_visit unmarshal name v s ≡ ok s') ↔ (IsContained name v × (s' ≡ s))
  unfolding check_visit
  check_visit_iff name failed s s' = ((λ h. cc), (λ h. elim h.0 [ ]))
  check_visit_iff name directory s s' = ((λ h. (tt, refl)), (λ h. refl))
  check_visit_iff name (regular content) s s' =
      by_test (is_kustomization name) (is_kustomization_iff name) (check_file_iff name content)
    where
      by_test :
          (yes : Bool)
          → (yes ≡ true) ↔ IsKustomization name
          → (check_file unmarshal name content ≡ ok tt) ↔ IsLocal content
          → ((if not yes then ok s else check_file unmarshal name content) ≡ ok s')
            ↔ ((IsKustomization name → IsLocal content) × (s' ≡ s))
      by_test false test local = ((λ h. ((λ e. absurd (false≢true (test.1 e))), refl)), (λ h. refl))
      by_test true test local =
          ((λ h. ((λ e. local.0 h), refl)), (λ h. local.1 (h.0 (test.0 refl))))

  -- The check passes exactly if everything below the root can be listed, and each kustomization
  -- file, at whatever depth, can be read and decoded and has no reference that looks remote in any
  -- of its fields.
  pub check_self_contained_iff :
      (fsys : Node)
      → (check_self_contained unmarshal fsys ≡ ok tt)
        ↔ Every (λ x. IsContained x.0 x.1) (all_visits fsys (txt "."))
  unfolding check_self_contained
  check_self_contained_iff fsys =
      let walk =
        walk_dir_iff (check_visit unmarshal) IsContained (λ name v s. s) check_visit_iff fsys
          (txt ".") tt tt in
      ((λ h. (walk.0 h).0), (λ h. walk.1 (h, refl)))
