-- ===== src/Pack/Namespace/Stable.antt =====
-- Forcing a namespace keeps the scopes that objects declare and have (internal/pack/namespace.go).
use cube_idp.Base.{
  ◌≡◌, refl, ◌≢◌, false, none, List, [], ◌∷◌, arith, subst, Every, Text, txt, ◌==◌, ==_iff,
}
use cube_idp.Base.Document.{Fields, get, nested, nested_string}
use cube_idp.Pack.Namespace.{
  ScopeIndex, declared_scope, add_scope, index_scopes_from, index_crd_scopes, apply_namespace,
}
use cube_idp.Pack.Namespace.Force.{
  HasMetadata, Placed, untouched, moved, AllPlaced, placed_nil, placed_cons, Forced,
  apply_namespace-Forced,
}

nested_same :
    (o o' : Fields) (k : Text) (path : List Text)
    → get o' k ≡ get o k
    → nested o' k path ≡ nested o k path
unfolding nested
nested_same o o' k [] h = h
nested_same o o' k (next ∷ path) h = rw (nested, h) refl

nested_string_same :
    (o o' : Fields) (k : Text) (path : List Text)
    → get o' k ≡ get o k
    → nested_string o' k path ≡ nested_string o k path
unfolding nested_string
nested_string_same o o' k path h = rw (nested_string, nested_same o o' k path h) refl

module _ (ns : Text) (scopes : ScopeIndex) where
  get-Placed :
      (o o' : Fields) (k : Text) → Placed ns scopes o o' → k ≢ txt "metadata" → get o' k ≡ get o k
  get-Placed o _ k (untouched c) n = refl
  get-Placed o o' k (moved c free there kept) n = kept k n

  string-Placed :
      (o o' : Fields) (k : Text) (path : List Text)
      → Placed ns scopes o o'
      → (k == txt "metadata") ≡ false
      → nested_string o' k path ≡ nested_string o k path
  string-Placed o o' k path placed n =
      nested_string_same o o' k path
        (get-Placed o o' k placed (λ e. ground (arith, n, e, ==_iff k (txt "metadata"))))

  declared_scope-Placed :
      (o o' : Fields) → Placed ns scopes o o' → declared_scope o' ≡ declared_scope o
  unfolding declared_scope ◌==◌
  declared_scope-Placed o o' placed =
      rw
        (
          string-Placed o o' (txt "kind") [] placed refl,
          string-Placed o o' (txt "apiVersion") [] placed refl,
          string-Placed o o' (txt "spec") (txt "group" ∷ []) placed refl,
          string-Placed o o' (txt "spec") (txt "names" ∷ txt "kind" ∷ []) placed refl,
          string-Placed o o' (txt "spec") (txt "scope" ∷ []) placed refl,
        )
        refl

  index_scopes_from-AllPlaced :
      (front : ScopeIndex) (objs objs' : List Fields)
      → AllPlaced ns scopes objs objs'
      → index_scopes_from front objs' ≡ index_scopes_from front objs
  unfolding index_scopes_from
  index_scopes_from-AllPlaced front [] [] placed_nil = refl
  index_scopes_from-AllPlaced front [] (o' ∷ objs') h = elim h [ ]
  index_scopes_from-AllPlaced front (o ∷ objs) [] h = elim h [ ]
  index_scopes_from-AllPlaced front (o ∷ objs) (o' ∷ objs') (placed_cons p rest) =
      rw (declared_scope-Placed o o' p)
        (index_scopes_from-AllPlaced (add_scope front (declared_scope o)) objs objs' rest)

  -- The index of the placed objects is that of the objects before.
  pub index_crd_scopes-AllPlaced :
      (objs objs' : List Fields)
      → AllPlaced ns scopes objs objs'
      → index_crd_scopes objs' ≡ index_crd_scopes objs
  unfolding index_crd_scopes
  index_crd_scopes-AllPlaced objs objs' placed = index_scopes_from-AllPlaced [] objs objs' placed

  -- The effect of a call without an error: none for an empty namespace, else all are placed.
  pub record Joins (objs objs' : List Fields) : Type 0 where
    pub unforced : ns ≡ [] → objs' ≡ objs
    pub placed : ns ≢ [] → Every HasMetadata objs → AllPlaced ns scopes objs objs'

  pub apply_namespace-Joins :
      (objs objs' : List Fields) → apply_namespace objs ns scopes ≡ (objs', none) → Joins objs objs'
  unfolding apply_namespace
  apply_namespace-Joins objs objs' h = record {
    unforced = λ e. ground (arith, h, e, ==_iff ns []);
    placed =
        λ n m. subst (λ r. Forced ns scopes objs r) h (apply_namespace-Forced objs ns scopes n m);
  }
