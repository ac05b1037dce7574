-- ===== src/Pack/Namespace.antt =====
-- internal/pack/namespace.go: forcing the namespace of a pack onto its rendered objects. The proofs
-- are in the modules below.
pub mod Scope
pub mod Force
pub mod Stable
mod Tests
use cube_idp.Base.{
  Bool, true, false, not, ◌&&◌, ◌||◌, Option, none, some, List, [], ◌∷◌, contains, Result, eqb,
  if◌then◌else◌, Text, txt, ◌==◌, ok, err,
}
use cube_idp.Base.Document.{Value, str, Fields, nested_string, set_nested}
use cube_idp.Pack.Errors.{PackError, namespace_conflict}

-- The accessors of unstructured.Unstructured.
abbrev pub kind_of : Fields → Text
kind_of o = nested_string o (txt "kind") []

abbrev pub name_of : Fields → Text
name_of o = nested_string o (txt "metadata") (txt "name" ∷ [])

abbrev pub api_version_of : Fields → Text
api_version_of o = nested_string o (txt "apiVersion") []

abbrev pub namespace_of : Fields → Text
namespace_of o = nested_string o (txt "metadata") (txt "namespace" ∷ [])

-- SetNamespace, for a namespace that is not empty.
abbrev pub set_namespace : Fields → Text → Fields
set_namespace o ns = set_nested o (txt "metadata") (txt "namespace") (str ns)

pub cluster_scoped_kinds : List Text
cluster_scoped_kinds =
    txt "APIService"
    ∷ txt "CSIDriver"
    ∷ txt "CSINode"
    ∷ txt "CertificateSigningRequest"
    ∷ txt "ClusterRole"
    ∷ txt "ClusterRoleBinding"
    ∷ txt "ComponentStatus"
    ∷ txt "CustomResourceDefinition"
    ∷ txt "FlowSchema"
    ∷ txt "IngressClass"
    ∷ txt "MutatingWebhookConfiguration"
    ∷ txt "Namespace"
    ∷ txt "Node"
    ∷ txt "PersistentVolume"
    ∷ txt "PriorityClass"
    ∷ txt "PriorityLevelConfiguration"
    ∷ txt "RuntimeClass"
    ∷ txt "SelfSubjectAccessReview"
    ∷ txt "SelfSubjectRulesReview"
    ∷ txt "StorageClass"
    ∷ txt "SubjectAccessReview"
    ∷ txt "TokenReview"
    ∷ txt "ValidatingAdmissionPolicy"
    ∷ txt "ValidatingAdmissionPolicyBinding"
    ∷ txt "ValidatingWebhookConfiguration"
    ∷ txt "VolumeAttachment"
    ∷ []

pub record ResourceKey : Type 0 where
  pub group : Text
  pub kind : Text

-- A map from resource keys to whether they are cluster-scoped. The entry put in last stands first.
abbrev pub ScopeIndex : Type 0
ScopeIndex = List (ResourceKey × Bool)

abbrev pub same_key : ResourceKey → ResourceKey → Bool
same_key a b = (a.group == b.group) && (a.kind == b.kind)

pub scope_at : ScopeIndex → ResourceKey → Option Bool
scope_at [] key = none
scope_at ((k, cluster) ∷ scopes) key = if same_key k key then some cluster else scope_at scopes key

-- What strings.Cut at a slash finds before it; `none` where there is none.
unfoldable pub before_slash : Text → Option Text
before_slash [] = none
before_slash (c ∷ s) =
    let rest = before_slash s in
    if eqb c b'/' then some [] else elim rest [ none ↦ none | some t ↦ some (c ∷ t) ]

pub api_group : Text → Text
unfolding before_slash
api_group version = elim (before_slash version) [ none ↦ [] | some group ↦ group ]

-- The scope that one object declares for a kind: `none` where the loop of indexCRDScopes skips it.
pub declared_scope : Fields → Option (ResourceKey × Bool)
unfolding api_group
declared_scope o =
    let group = nested_string o (txt "spec") (txt "group" ∷ []) in
    let kind = nested_string o (txt "spec") (txt "names" ∷ txt "kind" ∷ []) in
    let scope = nested_string o (txt "spec") (txt "scope" ∷ []) in
    if not (kind_of o == txt "CustomResourceDefinition")
      || not (api_group (api_version_of o) == txt "apiextensions.k8s.io")
    then none
    else if (kind == []) || (not (scope == txt "Cluster") && not (scope == txt "Namespaced"))
    then none
    else some (record { group = group; kind = kind }, scope == txt "Cluster")

pub add_scope : ScopeIndex → Option (ResourceKey × Bool) → ScopeIndex
add_scope scopes none = scopes
add_scope scopes (some entry) = entry ∷ scopes

pub index_scopes_from : ScopeIndex → List Fields → ScopeIndex
unfolding declared_scope add_scope
index_scopes_from scopes [] = scopes
index_scopes_from scopes (o ∷ objs) = index_scopes_from (add_scope scopes (declared_scope o)) objs

unfoldable pub index_crd_scopes : List Fields → ScopeIndex
unfolding index_scopes_from
index_crd_scopes = index_scopes_from []

unfoldable pub cluster_scoped : ScopeIndex → Fields → Bool
unfolding cluster_scoped_kinds scope_at api_group
cluster_scoped scopes o =
    if contains cluster_scoped_kinds (kind_of o)
    then true
    else elim (scope_at scopes
        (record { group = api_group (api_version_of o); kind = kind_of o })) [
          | some cluster ↦ cluster
          | none ↦ false
        ]

-- One object: what becomes of it, and the error.
pub force_namespace : (ns : Text) → ScopeIndex → Fields → Result PackError Fields
unfolding cluster_scoped
force_namespace ns scopes o =
    if cluster_scoped scopes o
    then ok o
    else if (namespace_of o == []) || (namespace_of o == ns)
    then ok (set_namespace o ns)
    else err (namespace_conflict (kind_of o) (name_of o) (namespace_of o) ns)

-- The loop of applyNamespace: the objects as it leaves them, and the error.
pub force_all : (ns : Text) → ScopeIndex → List Fields → List Fields × Option PackError
unfolding force_namespace
force_all ns scopes [] = ([], none)
force_all ns scopes (o ∷ objs) = elim (force_namespace ns scopes o) [
  | err e ↦ (o ∷ objs, some e)
  | ok o' ↦ let (objs', e) = force_all ns scopes objs in (o' ∷ objs', e)
]

unfoldable pub apply_namespace :
    List Fields → (ns : Text) → ScopeIndex → List Fields × Option PackError
unfolding force_all
apply_namespace objs ns scopes = if ns == [] then (objs, none) else force_all ns scopes objs
