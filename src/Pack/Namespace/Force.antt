-- ===== src/Pack/Namespace/Force.antt =====
-- What applyNamespace of internal/pack/namespace.go leaves.
use cube_idp.Base.{
  ◌≡◌, refl, sym, ap, ◌∙◌, ◌≢◌, ◌⊎◌, inl, inr, Bool, true, false, ◌||◌, Option, none, some, List,
  [], ◌∷◌, ◌++◌, arith, false≢true, Every, Result, if◌then◌else◌, Text, txt, ◌==◌, ==_iff, ok, err,
}
use cube_idp.Base.Document.{
  Value, null, bool, int, float, str, arr, obj, Fields, end, field, get, set, get-set, nested,
  nested_string, set_nested,
}
use cube_idp.Pack.Errors.{PackError, namespace_conflict}
use cube_idp.Pack.Namespace.{
  ScopeIndex, kind_of, name_of, namespace_of, set_namespace, cluster_scoped, force_namespace,
  force_all, apply_namespace,
}

-- The object has metadata that can hold a namespace, or none.
abbrev pub HasMetadata : Fields → Type 0
HasMetadata o =
    (get o (txt "metadata") ≡ none) ⊎ ((m : Fields) × (get o (txt "metadata") ≡ some (obj m)))

-- The namespace may be forced on the object.
abbrev pub IsFree : Text → Fields → Type 0
IsFree ns o = (namespace_of o ≡ []) ⊎ (namespace_of o ≡ ns)

-- What becomes of one object.
pub data Placed (ns : Text) (scopes : ScopeIndex) : Fields → Fields → Type 0 where
  untouched : {o : Fields} → cluster_scoped scopes o ≡ true → Placed ns scopes o o
  moved :
      {o o' : Fields}
      → cluster_scoped scopes o ≡ false
      → IsFree ns o
      → namespace_of o' ≡ ns
      → ((k : Text) → k ≢ txt "metadata" → get o' k ≡ get o k)
      → Placed ns scopes o o'

pub data AllPlaced (ns : Text) (scopes : ScopeIndex) : List Fields → List Fields → Type 0 where
  placed_nil : AllPlaced ns scopes [] []
  placed_cons :
      {o o' : Fields} {objs objs' : List Fields}
      → Placed ns scopes o o'
      → AllPlaced ns scopes objs objs'
      → AllPlaced ns scopes (o ∷ objs) (o' ∷ objs')

-- A namespaced object that stands in another namespace.
pub record Conflict (ns : Text) (scopes : ScopeIndex) (o : Fields) : Type 0 where
  pub namespaced : cluster_scoped scopes o ≡ false
  pub taken : namespace_of o ≢ []
  pub other : namespace_of o ≢ ns

-- All objects are placed; or the first conflict is reported, and only those before it are placed.
abbrev pub Forced : Text → ScopeIndex → List Fields → List Fields × Option PackError → Type 0
Forced ns scopes objs (objs', none) = AllPlaced ns scopes objs objs'
Forced ns scopes objs (objs', some e) =
    (front : List Fields) × (front' : List Fields) × (o : Fields) × (back : List Fields) × (objs
      ≡ front ++ o ∷ back)
    × (objs' ≡ front' ++ o ∷ back)
    × AllPlaced ns scopes front front'
    × Conflict ns scopes o
    × (e ≡ namespace_conflict (kind_of o) (name_of o) (namespace_of o) ns)

Forced-cons :
    (ns : Text) (scopes : ScopeIndex) (o o' : Fields) (objs : List Fields)
    (r : List Fields × Option PackError)
    → Placed ns scopes o o'
    → Forced ns scopes objs r
    → Forced ns scopes (o ∷ objs) (o' ∷ r.0, r.1)
Forced-cons ns scopes o o' objs (objs', none) p h = placed_cons p h
Forced-cons ns scopes o o' objs (objs', some e) p
      (front, front', c, back, s, s', before, conflict, m) =
    (
      o ∷ front,
      o' ∷ front',
      c,
      back,
      ap (λ l. o ∷ l) s,
      ap (λ l. o' ∷ l) s',
      placed_cons p before,
      conflict,
      m,
    )

-- The metadata with the namespace put in.
abbrev metadata_with : Option Value → Text → Fields
metadata_with (some (obj m)) ns = set m (txt "namespace") (str ns)
metadata_with _ ns = field (txt "namespace") (str ns) end

set_namespace-metadata :
    (o : Fields) (ns : Text)
    → HasMetadata o
    → set_namespace o ns ≡ set o (txt "metadata") (obj (metadata_with (get o (txt "metadata")) ns))
unfolding set_nested
set_namespace-metadata o ns (inl e) = ground (arith, e)
set_namespace-metadata o ns (inr (m, e)) = ground (arith, e)

get-metadata_with :
    (v : Option Value) (ns : Text) → get (metadata_with v ns) (txt "namespace") ≡ some (str ns)
unfolding get ◌==◌
get-metadata_with none ns = refl
get-metadata_with (some (obj m)) ns = get-set m (txt "namespace") (txt "namespace") (str ns)
get-metadata_with (some null) ns = refl
get-metadata_with (some (bool b)) ns = refl
get-metadata_with (some (int i)) ns = refl
get-metadata_with (some (float f)) ns = refl
get-metadata_with (some (str s)) ns = refl
get-metadata_with (some (arr l)) ns = refl

namespace_of_metadata :
    (o m : Fields) (ns : Text)
    → get o (txt "metadata") ≡ some (obj m)
    → get m (txt "namespace") ≡ some (str ns)
    → namespace_of o ≡ ns
unfolding nested nested_string
namespace_of_metadata o m ns e f = ground (arith, e, f)

namespace_of-set_namespace :
    (o : Fields) (ns : Text) → HasMetadata o → namespace_of (set_namespace o ns) ≡ ns
unfolding ◌==◌
namespace_of-set_namespace o ns h =
    let m = metadata_with (get o (txt "metadata")) ns in
    ap namespace_of (set_namespace-metadata o ns h)
    ∙ namespace_of_metadata (set o (txt "metadata") (obj m)) m ns
        (get-set o (txt "metadata") (txt "metadata") (obj m))
        (get-metadata_with (get o (txt "metadata")) ns)

get-set_namespace :
    (o : Fields) (ns k : Text)
    → k ≢ txt "metadata"
    → HasMetadata o
    → get (set_namespace o ns) k ≡ get o k
get-set_namespace o ns k n h =
    let m = metadata_with (get o (txt "metadata")) ns in
    ap (λ f. get f k) (set_namespace-metadata o ns h)
    ∙ ground (arith, n, ==_iff (txt "metadata") k, get-set o (txt "metadata") k (obj m))

-- One object.
abbrev ForcedOne : Text → ScopeIndex → Fields → Result PackError Fields → Type 0
ForcedOne ns scopes o (ok o') = Placed ns scopes o o'
ForcedOne ns scopes o (err e) =
    Conflict ns scopes o × (e ≡ namespace_conflict (kind_of o) (name_of o) (namespace_of o) ns)

force_namespace-ForcedOne :
    (ns : Text) (scopes : ScopeIndex) (o : Fields)
    → HasMetadata o
    → ForcedOne ns scopes o (force_namespace ns scopes o)
unfolding force_namespace
force_namespace-ForcedOne ns scopes o h =
    by_test (cluster_scoped scopes o) (namespace_of o == []) (namespace_of o == ns) refl refl refl
  where
    by_test :
        (scoped empty same : Bool)
        → cluster_scoped scopes o ≡ scoped
        → (namespace_of o == []) ≡ empty
        → (namespace_of o == ns) ≡ same
        → ForcedOne ns scopes o (
            if scoped
            then ok o
            else if empty || same
            then ok (set_namespace o ns)
            else err (namespace_conflict (kind_of o) (name_of o) (namespace_of o) ns))
    by_test true empty same c e s = untouched c
    by_test false true same c e s =
        moved c (inl ((==_iff (namespace_of o) []).0 e)) (namespace_of-set_namespace o ns h)
          (λ k n. get-set_namespace o ns k n h)
    by_test false false true c e s =
        moved c (inr ((==_iff (namespace_of o) ns).0 s)) (namespace_of-set_namespace o ns h)
          (λ k n. get-set_namespace o ns k n h)
    by_test false false false c e s = (
      record {
        namespaced = c;
        taken = λ t. false≢true (sym e ∙ (==_iff (namespace_of o) []).1 t);
        other = λ t. false≢true (sym s ∙ (==_iff (namespace_of o) ns).1 t);
      },
      refl,
    )

force_all-Forced :
    (ns : Text) (scopes : ScopeIndex) (objs : List Fields)
    → Every HasMetadata objs
    → Forced ns scopes objs (force_all ns scopes objs)
unfolding force_all
force_all-Forced ns scopes [] h = placed_nil
force_all-Forced ns scopes (o ∷ objs) h =
    by_result (force_namespace ns scopes o) (force_namespace-ForcedOne ns scopes o h.0)
      (force_all ns scopes objs) (force_all-Forced ns scopes objs h.1)
  where
    by_result :
        (r : Result PackError Fields)
        → ForcedOne ns scopes o r
        → (rest : List Fields × Option PackError) → Forced ns scopes objs rest
        → Forced ns scopes
            (o ∷ objs)
            (elim r [ err e ↦ (o ∷ objs, some e) | ok o' ↦ (o' ∷ rest.0, rest.1) ])
    by_result (ok o') p rest f = Forced-cons ns scopes o o' objs rest p f
    by_result (err e) (c, m) rest f = ([], [], o, objs, refl, refl, placed_nil, c, m)

-- For a namespace that is not empty, and objects whose metadata is a mapping where they have any:
-- either every namespaced object ends in that namespace, with its fields other than metadata kept
-- and the cluster-scoped objects untouched; or the error names the first namespaced object of
-- another namespace, with the objects from there on untouched.
pub apply_namespace-Forced :
    (objs : List Fields) (ns : Text) (scopes : ScopeIndex)
    → ns ≢ []
    → Every HasMetadata objs
    → Forced ns scopes objs (apply_namespace objs ns scopes)
unfolding apply_namespace
apply_namespace-Forced objs ns scopes n h =
    let e : (ns == []) ≡ false = ground (arith, n, ==_iff ns []) in
    rw e (force_all-Forced ns scopes objs h)
