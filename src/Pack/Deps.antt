-- ===== src/Pack/Deps.antt =====
-- internal/pack/deps.go: the identities of the pack instances of a setup, the edges between them
-- and the order in which they are installed. The proofs are in the modules below.
pub mod Ids
mod Counts
mod State
pub mod Sort
pub mod Cycles
pub mod Edges
pub mod Graph
pub mod Resolve
pub mod Stable
mod Tests
use cube_idp.Base.{
  ℕ, zero, suc, ◌+◌, ◌-◌, Option, none, some, List, [], ◌∷◌, ◌++◌, length, contains, Dict, find,
  put, delete, Result, ◌>>=◌, ltb, eqb, if◌then◌else◌, Text, ◌==◌, ok, err,
}
use cube_idp.Api.{PackSpec}
use cube_idp.Pack.Errors.{
  PackError, instance_id_required, duplicate_instance_id, unknown_dependency, ambiguous_dependency,
  dependency_cycle,
}

-- An InstanceID is its text.
pub record Instance : Type 0 where
  pub name : Text
  pub spec : PackSpec

pub record ResolvedGraph : Type 0 where
  pub order : List Text
  pub dependencies : Dict (List Text)

-- m[k] of a map of counts, and of a map of slices, reads a missing key as the zero value.
abbrev pub count_at : Dict ℕ → Text → ℕ
count_at m k = elim (find m k) [ none ↦ 0 | some n ↦ n ]

abbrev pub slice_at : Dict (List Text) → Text → List Text
slice_at m k = elim (find m k) [ none ↦ [] | some l ↦ l ]

-- The first loop of EffectiveIDs.
count_names : Dict ℕ → List Instance → Dict ℕ
count_names by_name [] = by_name
count_names by_name (inst ∷ rest) =
    count_names (put by_name inst.name (count_at by_name inst.name + 1)) rest

-- The identity of one instance.
effective_id : Dict ℕ → Instance → Result PackError Text
effective_id by_name inst =
    if inst.spec.id == []
    then (if ltb 1 (count_at by_name inst.name)
        then err (instance_id_required inst.name (count_at by_name inst.name))
        else ok inst.name)
    else ok inst.spec.id

-- The second loop of EffectiveIDs: `seen` holds the position that took each identity, and `i` is
-- the position of the next instance.
assign_ids : Dict ℕ → Dict ℕ → ℕ → List Instance → Result PackError (List Text)
unfolding effective_id
assign_ids by_name seen i [] = ok []
assign_ids by_name seen i (inst ∷ rest) = effective_id by_name inst >>= λ id. elim (find seen id) [
  | some first ↦ err (duplicate_instance_id id first i)
  | none ↦ assign_ids by_name (put seen id i) (suc i) rest >>= λ ids. ok (id ∷ ids)
]

pub effective_ids : List Instance → Result PackError (List Text)
unfolding assign_ids count_names
effective_ids instances = assign_ids (count_names [] instances) [] 0 instances

-- instanceIndex
pub record InstanceIndex : Type 0 where
  pub by_id : List Text
  pub by_name : Dict (List Text)

-- The index as filled by the loop of newInstanceIndex. The set byID is the list of its keys.
fill_index : InstanceIndex → List Instance → List Text → InstanceIndex
fill_index index [] ids = index
fill_index index (inst ∷ rest) [] = index
fill_index index (inst ∷ rest) (id ∷ ids) =
    fill_index
      (record {
        by_id = id ∷ index.by_id;
        by_name = put index.by_name inst.name (slice_at index.by_name inst.name ++ id ∷ []);
      })
      rest ids

pub new_instance_index : List Instance → List Text → InstanceIndex
unfolding fill_index
new_instance_index = fill_index (record { by_id = []; by_name = [] })

-- What the switch of lookup makes of the instances that carry the name `target`.
pick_candidate : (from target : Text) → List Text → Result PackError Text
pick_candidate from target [] = err (unknown_dependency from target)
pick_candidate from target (id ∷ []) = ok id
pick_candidate from target (id ∷ other ∷ rest) =
    err (ambiguous_dependency from target (id ∷ other ∷ rest))

pub lookup : InstanceIndex → (target from : Text) → Result PackError Text
unfolding pick_candidate
lookup index target from =
    (if contains index.by_id target
      then ok target
      else pick_candidate from target (slice_at index.by_name target))
    >>= λ id. if id == from then err (dependency_cycle (from ∷ [])) else ok id

-- The inner loop of resolveDependencies over the targets of one instance.
pub resolve_targets :
    InstanceIndex → (from : Text) → List Text → List Text → Result PackError (List Text)
unfolding lookup
resolve_targets index from edges [] = ok edges
resolve_targets index from edges (target ∷ targets) = lookup index target from >>= λ to.
    resolve_targets index from (if contains edges to then edges else edges ++ to ∷ []) targets

-- The outer loop of resolveDependencies.
resolve_instances :
    InstanceIndex
    → Dict (List Text)
    → List Instance
    → List Text
    → Result PackError (Dict (List Text))
unfolding resolve_targets
resolve_instances index deps [] ids = ok deps
resolve_instances index deps (inst ∷ rest) [] = ok deps
resolve_instances index deps (inst ∷ rest) (from ∷ ids) =
    resolve_targets index from [] inst.spec.depends_on >>= λ edges.
    resolve_instances index (put deps from edges) rest ids

pub resolve_dependencies : List Instance → List Text → Result PackError (Dict (List Text))
unfolding resolve_instances new_instance_index
resolve_dependencies instances ids =
    resolve_instances (new_instance_index instances ids) [] instances ids

-- How many of the dependencies are instances of the set.
pub count_known : (ids deps : List Text) → ℕ
count_known ids [] = 0
count_known ids (dep ∷ deps) = (if contains ids dep then 1 else 0) + count_known ids deps

-- The second loop of pendingCounts. The set `known` is the list of its keys, `all`.
pub fill_pending : (all : List Text) → Dict (List Text) → Dict ℕ → List Text → Dict ℕ
unfolding count_known
fill_pending all deps remaining [] = remaining
fill_pending all deps remaining (id ∷ ids) =
    fill_pending all deps (put remaining id (count_known all (slice_at deps id))) ids

pub pending_counts : List Text → Dict (List Text) → Dict ℕ
unfolding fill_pending
pending_counts ids deps = fill_pending ids deps [] ids

pub ready_instance : List Text → Dict ℕ → Option Text
ready_instance [] remaining = none
ready_instance (id ∷ ids) remaining =
    let later = ready_instance ids remaining in
    elim (find remaining id) [ none ↦ later | some count ↦ if eqb count 0 then some id else later ]

pub unresolved : List Text → Dict ℕ → List Text
unresolved [] remaining = []
unresolved (id ∷ ids) remaining = elim (find remaining id) [
  | none ↦ unresolved ids remaining
  | some _ ↦ id ∷ unresolved ids remaining
]

-- The loop that brings everything that waited on `next` one dependency closer. The counts are of
-- dependencies still open, so that a count which is lowered is positive where the identities are
-- distinct, as effectiveIDs makes them. Twice the same identity would bring Go's count below zero,
-- and this one stays there.
pub release : List Text → Dict (List Text) → (next : Text) → Dict ℕ → Dict ℕ
release [] deps next remaining = remaining
release (id ∷ ids) deps next remaining = release ids deps next (elim (find remaining id) [
  | none ↦ remaining
  | some count ↦
      if contains (slice_at deps id) next then put remaining id (count - 1) else remaining
])

-- The loop of topoSort. `left` is len(ids) - len(order), which falls by one in each round.
pub sort_rounds :
    (left : ℕ) → List Text → Dict (List Text) → Dict ℕ → List Text → Result PackError (List Text)
unfolding ready_instance unresolved release
sort_rounds zero ids deps remaining order = ok order
sort_rounds (suc left) ids deps remaining order = elim (ready_instance ids remaining) [
  | none ↦ err (dependency_cycle (unresolved ids remaining))
  | some next ↦
      sort_rounds left ids deps (release ids deps next (delete remaining next)) (order ++ next ∷ [])
]

pub topo_sort : List Text → Dict (List Text) → Result PackError (List Text)
unfolding sort_rounds pending_counts
topo_sort ids deps = sort_rounds (length ids) ids deps (pending_counts ids deps) []

pub resolve_order : List Instance → Result PackError ResolvedGraph
unfolding effective_ids resolve_dependencies topo_sort
resolve_order instances = effective_ids instances >>= λ ids.
    resolve_dependencies instances ids >>= λ deps.
    topo_sort ids deps >>= λ order. ok (record { order = order; dependencies = deps })
