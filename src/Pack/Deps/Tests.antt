-- ===== src/Pack/Deps/Tests.antt =====
-- Small setups for internal/pack/deps.go, and what the code does on them.
use cube_idp.Base.{
  ℕ, ◌<◌, ◌≡◌, refl, sym, ◌↔◌, inl, inr, Bool, true, false, none, List, [], ◌∷◌, arith, subst,
  Every, contains, IsNodup, Dict, find, put, delete, if◌then◌else◌, Bool-cases, Text, txt, ◌==◌,
  ==-refl, ==_iff, ok, err,
}
use cube_idp.Pack.Errors.{PackError, dependency_cycle, instance_id_required}
use cube_idp.Pack.Deps.{
  Instance, slice_at, new_instance_index, lookup, effective_ids, resolve_order, topo_sort,
}
use cube_idp.Pack.Deps.Edges.{LookedUp, lookup-LookedUp}
use cube_idp.Pack.Deps.State.{IsOrdered}
use cube_idp.Pack.Deps.Sort.{IsStuck, Sorted, topo_sort-Sorted}
use cube_idp.Pack.Deps.Cycles.{topo_sort-Fails_iff}
use cube_idp.Pack.Deps.Resolve.{Resolved, resolve_order-Resolved}
use cube_idp.Pack.Deps.Stable.{topo_sort_stable}

abbrev instance_of : (name id : Text) → List Text → Instance
instance_of name id targets = record {
  name = name;
  spec = record {
    id = id;
    pack_ref = txt "./pack";
    values_ref = [];
    values = none;
    external_manifests = [];
    depends_on = targets;
  };
}

abbrev setup : List Instance
setup =
    instance_of (txt "app") [] (txt "db" ∷ txt "db" ∷ [])
    ∷ instance_of (txt "db") (txt "db-prod") []
    ∷ instance_of (txt "web") [] (txt "app" ∷ txt "db-prod" ∷ [])
    ∷ []

abbrev setup_ids : List Text
setup_ids = txt "app" ∷ txt "db-prod" ∷ txt "web" ∷ []

abbrev setup_deps : Dict (List Text)
setup_deps =
    (txt "app", txt "db-prod" ∷ [])
    ∷ (txt "db-prod", [])
    ∷ (txt "web", txt "app" ∷ txt "db-prod" ∷ [])
    ∷ []

setup-ids : effective_ids setup ≡ ok setup_ids
unfolding effective_ids ◌==◌ find put
setup-ids = refl

setup-order :
    resolve_order setup
    ≡ ok (record { order = txt "db-prod" ∷ txt "app" ∷ txt "web" ∷ []; dependencies = setup_deps })
unfolding resolve_order ◌==◌ find put delete contains
setup-order = refl

-- An instance that only depends on a cycle is reported among its members.
cycle_reports_dependents :
    resolve_order (
      instance_of (txt "a") [] (txt "b" ∷ [])
      ∷ instance_of (txt "b") [] (txt "a" ∷ [])
      ∷ instance_of (txt "c") [] (txt "a" ∷ [])
      ∷ [])
    ≡ err (dependency_cycle (txt "a" ∷ txt "b" ∷ txt "c" ∷ []))
unfolding resolve_order ◌==◌ find put delete contains
cycle_reports_dependents = refl

self_dependency :
    resolve_order (instance_of (txt "a") [] (txt "a" ∷ []) ∷ [])
    ≡ err (dependency_cycle (txt "a" ∷ []))
unfolding resolve_order ◌==◌ find put delete contains
self_dependency = refl

same_names :
    resolve_order (instance_of (txt "a") [] [] ∷ instance_of (txt "a") (txt "b") [] ∷ [])
    ≡ err (instance_id_required (txt "a") 2)
unfolding resolve_order ◌==◌ find put delete contains
same_names = refl

-- The dependencies of a dictionary whose entries are all distinct lists.
slices_distinct :
    (m : Dict (List Text)) → Every (λ e. IsNodup e.1) m → (id : Text) → IsNodup (slice_at m id)
unfolding find
slices_distinct [] h id = tt
slices_distinct ((j, l) ∷ m) h id =
    subst IsNodup (sym split) (pick (slices_distinct m h.1 id) (j == id))
  where
    split : slice_at ((j, l) ∷ m) id ≡ (if j == id then l else slice_at m id)
    split = ground arith

    pick : IsNodup (slice_at m id) → (b : Bool) → IsNodup (if b then l else slice_at m id)
    pick rest true = h.0
    pick rest false = rest

setup_ids-IsNodup : IsNodup setup_ids
unfolding contains ◌==◌
setup_ids-IsNodup = (refl, (refl, (refl, tt)))

setup_deps-IsNodup : (id : Text) → IsNodup (slice_at setup_deps id)
unfolding contains ◌==◌
setup_deps-IsNodup = slices_distinct setup_deps ((refl, tt), (tt, ((refl, (refl, tt)), tt)))

lookup-LookedUp_example :
    LookedUp setup setup_ids
      (txt "db")
      (txt "app")
      (lookup (new_instance_index setup setup_ids) (txt "db") (txt "app"))
lookup-LookedUp_example = lookup-LookedUp setup setup_ids refl (txt "db") (txt "app")

topo_sort-Sorted_example : Sorted setup_ids setup_deps (topo_sort setup_ids setup_deps)
topo_sort-Sorted_example =
    topo_sort-Sorted setup_ids setup_deps setup_ids-IsNodup setup_deps-IsNodup

resolve_order-Resolved_example : Resolved setup (resolve_order setup)
resolve_order-Resolved_example = resolve_order-Resolved setup

topo_sort-Fails_iff_example :
    ((e : PackError) × (topo_sort setup_ids setup_deps ≡ err e))
    ↔ ((members : List Text) × IsStuck setup_ids setup_deps members)
topo_sort-Fails_iff_example =
    topo_sort-Fails_iff setup_ids setup_deps setup_ids-IsNodup setup_deps-IsNodup

abbrev pair_ids : List Text
pair_ids = txt "a" ∷ txt "b" ∷ []

abbrev pair_deps : Dict (List Text)
pair_deps = (txt "a", txt "b" ∷ []) ∷ []

pair_deps-IsNodup : (id : Text) → IsNodup (slice_at pair_deps id)
unfolding contains ◌==◌
pair_deps-IsNodup = slices_distinct pair_deps ((refl, tt), tt)

abbrev rank : Text → ℕ
rank id = if id == txt "b" then 0 else 1

rank_falls :
    (id dep : Text)
    → contains pair_ids id ≡ true
    → contains (slice_at pair_deps id) dep ≡ true
    → contains pair_ids dep ≡ true
    → rank dep < rank id
unfolding contains find
rank_falls id dep m d k = elim (Bool-cases (txt "a" == id)) [
  | inl e ↦
      ground (
        arith,
        e,
        (==_iff (txt "a") id).0 e,
        a_not_b,
        (==_iff (txt "b") dep).0,
        d,
        ==-refl (txt "b"),
      )
  | inr n ↦ ground (arith, n, d)
]
  where
    a_not_b : (txt "a" == txt "b") ≡ false
    a_not_b = unfold ◌==◌ in refl

abbrev sorted_ids : List Text
sorted_ids = txt "db-prod" ∷ txt "app" ∷ txt "web" ∷ []

sorted_ids-IsOrdered : IsOrdered sorted_ids setup_deps [] sorted_ids
unfolding contains find ◌==◌
sorted_ids-IsOrdered =
    ((λ dep d k. cc), ((λ dep d k. ground (arith, d)), ((λ dep d k. ground (arith, d)), tt)))

topo_sort_stable_example : topo_sort sorted_ids setup_deps ≡ ok sorted_ids
unfolding contains ◌==◌
topo_sort_stable_example =
    topo_sort_stable sorted_ids setup_deps (refl, (refl, (refl, tt))) setup_deps-IsNodup
      sorted_ids-IsOrdered
