-- ===== src/Pack/Namespace/Scope.antt =====
-- Which objects count as cluster-scoped (internal/pack/namespace.go).
use cube_idp.Base.{
  ◌≡◌, refl, ap, ◌∙◌, ◌↔◌, ◌⊎◌, Bool, true, Option, none, some, List, [], ◌∷◌, arith, contains,
  if◌then◌else◌,
}
use cube_idp.Base.Document.{Fields}
use cube_idp.Pack.Namespace.{
  ResourceKey, ScopeIndex, same_key, scope_at, kind_of, api_version_of, api_group, declared_scope,
  add_scope, index_scopes_from, index_crd_scopes, cluster_scoped, cluster_scoped_kinds,
}

-- The scope that an object declares for one key, if it does.
abbrev pub scope_for : Option (ResourceKey × Bool) → ResourceKey → Option Bool
scope_for none key = none
scope_for (some (k, cluster)) key = if same_key k key then some cluster else none

-- The scope that the last object with one for the key declares.
abbrev pub last_scope : List Fields → ResourceKey → Option Bool
last_scope [] key = none
last_scope (o ∷ objs) key = elim (last_scope objs key) [
  | some cluster ↦ some cluster
  | none ↦ scope_for (declared_scope o) key
]

abbrev or_else : Option Bool → Option Bool → Option Bool
or_else (some cluster) other = some cluster
or_else none other = other

scope_at-add_scope :
    (scopes : ScopeIndex) (entry : Option (ResourceKey × Bool)) (key : ResourceKey)
    → scope_at (add_scope scopes entry) key ≡ or_else (scope_for entry key) (scope_at scopes key)
unfolding scope_at add_scope
scope_at-add_scope scopes none key = refl
scope_at-add_scope scopes (some (k, cluster)) key = ground arith

or_else_assoc :
    (a b c : Option Bool)
    → or_else a (or_else b c) ≡ or_else (elim a [ some x ↦ some x | none ↦ b ]) c
or_else_assoc none b c = refl
or_else_assoc (some x) b c = refl

scope_at-index_scopes_from :
    (scopes : ScopeIndex) (objs : List Fields) (key : ResourceKey)
    → scope_at (index_scopes_from scopes objs) key
      ≡ or_else (last_scope objs key) (scope_at scopes key)
unfolding index_scopes_from
scope_at-index_scopes_from scopes [] key = refl
scope_at-index_scopes_from scopes (o ∷ objs) key =
    scope_at-index_scopes_from (add_scope scopes (declared_scope o)) objs key
    ∙ ap (or_else (last_scope objs key)) (scope_at-add_scope scopes (declared_scope o) key)
    ∙ or_else_assoc (last_scope objs key) (scope_for (declared_scope o) key) (scope_at scopes key)

or_else-none : (a : Option Bool) → or_else a none ≡ a
or_else-none none = refl
or_else-none (some x) = refl

pub scope_at-index_crd_scopes :
    (objs : List Fields) (key : ResourceKey)
    → scope_at (index_crd_scopes objs) key ≡ last_scope objs key
unfolding index_crd_scopes scope_at
scope_at-index_crd_scopes objs key =
    scope_at-index_scopes_from [] objs key ∙ or_else-none (last_scope objs key)

abbrev pub key_of : Fields → ResourceKey
key_of o = record { group = api_group (api_version_of o); kind = kind_of o }

-- With the index of a pack's objects, an object is cluster-scoped exactly if its kind is built in
-- as such, or the last definition among the pack's objects that declares a scope for its group
-- and kind says so.
pub cluster_scoped_iff :
    (objs : List Fields) (o : Fields)
    → (cluster_scoped (index_crd_scopes objs) o ≡ true) ↔ (
        (contains cluster_scoped_kinds (kind_of o) ≡ true)
        ⊎ (last_scope objs (key_of o) ≡ some true))
unfolding cluster_scoped
cluster_scoped_iff objs o = ground (arith, scope_at-index_crd_scopes objs (key_of o))
