-- ===== src/Pack/Deps/Resolve.antt =====
-- ResolveOrder of internal/pack/deps.go: the whole graph of a setup.
use cube_idp.Base.{
  ◌≡◌, refl, sym, Bool, true, false, none, List, [], ◌∷◌, arith, subst, length, contains, IsNodup,
  Dict, find, put, find-put, Result, ◌>>=◌, ok_of_bind, if◌then◌else◌, Text, ◌==◌, ==-refl, ==_iff,
  ok, err,
}
use cube_idp.Pack.Errors.{PackError, dependency_cycle}
use cube_idp.Pack.Deps.{
  Instance, ResolvedGraph, InstanceIndex, slice_at, new_instance_index, resolve_targets,
  resolve_instances, resolve_dependencies, effective_ids, topo_sort, resolve_order,
}
use cube_idp.Pack.Deps.Ids.{AreIdsOf, effective_ids-AreIdsOf, length-AreIdsOf}
use cube_idp.Pack.Deps.Graph.{IsEdges, resolve_targets-IsEdges}
use cube_idp.Pack.Deps.Sort.{IsPlan, IsStuck, Sorted, topo_sort-Sorted}

-- One round of the outer loop that succeeds.
resolve_instances-cons :
    (index : InstanceIndex) (deps : Dict (List Text)) (inst : Instance) (rest : List Instance)
    (from : Text) (ids : List Text) {after : Dict (List Text)}
    → resolve_instances index deps (inst ∷ rest) (from ∷ ids) ≡ ok after
    → (edges : List Text) × (resolve_targets index from [] inst.spec.depends_on ≡ ok edges)
      × (resolve_instances index (put deps from edges) rest ids ≡ ok after)
unfolding resolve_instances
resolve_instances-cons index deps inst rest from ids h =
    ok_of_bind (resolve_targets index from [] inst.spec.depends_on) _ h

-- An identity that no later instance has keeps its edges.
find-resolve_instances :
    (index : InstanceIndex) (deps : Dict (List Text)) (insts : List Instance) (ids : List Text)
    (after : Dict (List Text)) (x : Text)
    → resolve_instances index deps insts ids ≡ ok after
    → contains ids x ≡ false
    → find after x ≡ find deps x
unfolding resolve_instances contains
find-resolve_instances index deps [] ids after x h m = ground arith
find-resolve_instances index deps (inst ∷ rest) [] after x h m = ground arith
find-resolve_instances index deps (inst ∷ rest) (from ∷ ids) after x h m =
    let (edges, e, h') = resolve_instances-cons index deps inst rest from ids h in
    ground (
      arith,
      find-resolve_instances index (put deps from edges) rest ids after x h',
      find-put deps from x edges,
      ==_iff from x,
    )

-- Position by position, the edges of a list of instances of the setup.
abbrev pub AreEdges :
    List Instance → List Text → Dict (List Text) → List Instance → List Text → Type 0
AreEdges all known deps [] ids = Unit
AreEdges all known deps (inst ∷ rest) [] = Unit
AreEdges all known deps (inst ∷ rest) (id ∷ ids) =
    IsEdges all known id inst.spec.depends_on (slice_at deps id) × AreEdges all known deps rest ids

slice_at-put :
    (deps : Dict (List Text)) (k : Text) (l : List Text) (x : Text)
    → slice_at (put deps k l) x ≡ (if k == x then l else slice_at deps x)
slice_at-put deps k l x = ground (arith, find-put deps k x l)

put-IsNodup :
    (deps : Dict (List Text)) (k : Text) (l : List Text)
    → IsNodup l
    → ((x : Text) → IsNodup (slice_at deps x))
    → (x : Text) → IsNodup (slice_at (put deps k l) x)
put-IsNodup deps k l n d x = subst IsNodup (sym (slice_at-put deps k l x)) (pick (k == x))
  where
    pick : (b : Bool) → IsNodup (if b then l else slice_at deps x)
    pick true = n
    pick false = d x

module _ (all : List Instance) (known : List Text) (same : length known ≡ length all) where
  resolve_instances-AreEdges :
      (deps : Dict (List Text)) (insts : List Instance) (ids : List Text) (after : Dict (List Text))
      → resolve_instances (new_instance_index all known) deps insts ids ≡ ok after
      → IsNodup ids
      → AreEdges all known after insts ids
  resolve_instances-AreEdges deps [] ids after h n = tt
  resolve_instances-AreEdges deps (inst ∷ rest) [] after h n = tt
  resolve_instances-AreEdges deps (inst ∷ rest) (from ∷ ids) after h n =
      let (edges, e, h') = resolve_instances-cons _ deps inst rest from ids h in
      let kept : find after from ≡ find (put deps from edges) from =
        find-resolve_instances _ _ rest ids after from h' n.0 in
      let same_slice : slice_at after from ≡ edges =
        ground (arith, kept, slice_at-put deps from edges from, ==-refl from) in
      (
        rw same_slice (resolve_targets-IsEdges all known same from inst.spec.depends_on edges e),
        resolve_instances-AreEdges (put deps from edges) rest ids after h' n.1,
      )

  resolve_instances-IsNodup :
      (deps : Dict (List Text)) (insts : List Instance) (ids : List Text) (after : Dict (List Text))
      → resolve_instances (new_instance_index all known) deps insts ids ≡ ok after
      → ((x : Text) → IsNodup (slice_at deps x))
      → (x : Text) → IsNodup (slice_at after x)
  unfolding resolve_instances
  resolve_instances-IsNodup deps [] ids after h d x =
      let e : deps ≡ after = cc in subst (λ m. IsNodup (slice_at m x)) e (d x)
  resolve_instances-IsNodup deps (inst ∷ rest) [] after h d x =
      let e : deps ≡ after = cc in subst (λ m. IsNodup (slice_at m x)) e (d x)
  resolve_instances-IsNodup deps (inst ∷ rest) (from ∷ ids) after h d x =
      let (edges, e, h') = resolve_instances-cons _ deps inst rest from ids h in
      resolve_instances-IsNodup (put deps from edges) rest ids after h'
        (put-IsNodup deps from edges
          (resolve_targets-IsEdges all known same from inst.spec.depends_on edges e).distinct d)
        x

-- What a resolved setup is: identities, the declared edges and no other, and an order for them.
pub record IsGraph (insts : List Instance) (g : ResolvedGraph) : Type 0 where
  pub ids : List Text
  pub assigned : AreIdsOf insts insts ids
  pub distinct : IsNodup ids
  pub edges : AreEdges insts ids g.dependencies insts ids
  pub no_others : (x : Text) → contains ids x ≡ false → find g.dependencies x ≡ none
  pub plan : IsPlan ids g.dependencies g.order

-- Why a setup is refused.
pub data Refused (insts : List Instance) (e : PackError) : Type 0 where
  no_ids : effective_ids insts ≡ err e → Refused insts e
  no_edges :
      (ids : List Text)
      → effective_ids insts ≡ ok ids
      → resolve_dependencies insts ids ≡ err e
      → Refused insts e
  no_order :
      (ids : List Text) (deps : Dict (List Text)) (members : List Text)
      → effective_ids insts ≡ ok ids
      → resolve_dependencies insts ids ≡ ok deps
      → e ≡ dependency_cycle members
      → IsStuck ids deps members
      → Refused insts e

abbrev pub Resolved : List Instance → Result PackError ResolvedGraph → Type 0
Resolved insts (ok g) = IsGraph insts g
Resolved insts (err e) = Refused insts e

module _ (insts : List Instance) (ids : List Text) (assigned : effective_ids insts ≡ ok ids)
    (deps : Dict (List Text)) (resolved : resolve_dependencies insts ids ≡ ok deps) where
  same_length : length ids ≡ length insts
  same_length = length-AreIdsOf insts insts ids (effective_ids-AreIdsOf insts ids assigned).0

  slices-IsNodup : (x : Text) → IsNodup (slice_at deps x)
  unfolding resolve_dependencies find
  slices-IsNodup =
      resolve_instances-IsNodup insts ids same_length [] insts ids deps resolved (λ x. tt)

  order-IsGraph :
      (order : List Text)
      → IsPlan ids deps order
      → IsGraph insts (record { order = order; dependencies = deps })
  unfolding resolve_dependencies find
  order-IsGraph order p = record {
    ids = ids;
    assigned = (effective_ids-AreIdsOf insts ids assigned).0;
    distinct = (effective_ids-AreIdsOf insts ids assigned).1;
    edges =
        resolve_instances-AreEdges insts ids same_length [] insts ids deps resolved
          (effective_ids-AreIdsOf insts ids assigned).1;
    no_others = λ x m. find-resolve_instances _ [] insts ids deps x resolved m;
    plan = p;
  }

  Sorted-Resolved :
      (r : Result PackError (List Text))
      → Sorted ids deps r
      → Resolved insts (r >>= λ order. ok (record { order = order; dependencies = deps }))
  Sorted-Resolved (ok order) s = order-IsGraph order s
  Sorted-Resolved (err e) (members, q, s, c) = no_order ids deps members assigned resolved q s

-- A setup that is resolved has one identity for each instance and exactly the edges its dependsOn
-- entries declare, and its order has each instance once and every dependency before its dependent.
-- A setup is refused only because identities or edges cannot be resolved, or because there are
-- instances each of which depends on another of them.
pub resolve_order-Resolved : (insts : List Instance) → Resolved insts (resolve_order insts)
unfolding resolve_order
resolve_order-Resolved insts = with_ids (effective_ids insts) refl
  where
    with_deps :
        (ids : List Text)
        → effective_ids insts ≡ ok ids
        → (r : Result PackError (Dict (List Text))) → resolve_dependencies insts ids ≡ r
        → Resolved insts (
            r >>= λ deps.
            topo_sort ids deps >>= λ order. ok (record { order = order; dependencies = deps }))
    with_deps ids a (err e) q = no_edges ids a q
    with_deps ids a (ok deps) q = Sorted-Resolved insts ids a deps q (topo_sort ids deps) (
        topo_sort-Sorted ids deps (effective_ids-AreIdsOf insts ids a).1
          (slices-IsNodup insts ids a deps q))

    with_ids :
        (r : Result PackError (List Text))
        → effective_ids insts ≡ r
        → Resolved insts (
            r >>= λ ids. resolve_dependencies insts ids >>= λ deps.
            topo_sort ids deps >>= λ order. ok (record { order = order; dependencies = deps }))
    with_ids (err e) q = no_ids q
    with_ids (ok ids) q = with_deps ids q (resolve_dependencies insts ids) refl
