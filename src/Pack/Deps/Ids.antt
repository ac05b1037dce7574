-- ===== src/Pack/Deps/Ids.antt =====
-- EffectiveIDs of internal/pack/deps.go: what the assigned identities are.
use cube_idp.Base.{
  ℕ, suc, ◌+◌, ◌≤◌, ◌≡◌, refl, ◌≢◌, ◌⊎◌, false, none, List, [], ◌∷◌, arith, length, Every, contains,
  IsNodup, Dict, find, put, find-put, if◌then◌else◌, Text, ◌==◌, ==_iff, ok,
}
use cube_idp.Pack.Deps.{Instance, count_at, count_names, effective_id, assign_ids, effective_ids}

-- How many instances carry a name.
pub occurrences : Text → List Instance → ℕ
occurrences name [] = 0
occurrences name (inst ∷ rest) = (if inst.name == name then 1 else 0) + occurrences name rest

-- The identity of an instance: its explicit id, or else its name, if no other instance has it.
abbrev pub IsIdOf : List Instance → Instance → Text → Type 0
IsIdOf all inst id =
    (inst.spec.id ≢ []) × (id ≡ inst.spec.id)
    ⊎ (inst.spec.id ≡ []) × (id ≡ inst.name) × (occurrences inst.name all ≤ 1)

-- The identities of a list of instances, position by position.
abbrev pub AreIdsOf : List Instance → List Instance → List Text → Type 0
AreIdsOf all [] [] = Unit
AreIdsOf all [] (id ∷ ids) = ⊥
AreIdsOf all (inst ∷ rest) [] = ⊥
AreIdsOf all (inst ∷ rest) (id ∷ ids) = IsIdOf all inst id × AreIdsOf all rest ids

count_at-count_names :
    (m : Dict ℕ) (insts : List Instance) (name : Text)
    → count_at (count_names m insts) name ≡ count_at m name + occurrences name insts
unfolding count_names occurrences
count_at-count_names m [] name = omega arith
count_at-count_names m (inst ∷ rest) name =
    let m' = put m inst.name (count_at m inst.name + 1) in
    ground (
      arith,
      count_at-count_names m' rest name,
      find-put m inst.name name (count_at m inst.name + 1),
      ==_iff inst.name name,
    )

effective_id-IsIdOf :
    (all : List Instance) (inst : Instance) (id : Text)
    → effective_id (count_names [] all) inst ≡ ok id
    → IsIdOf all inst id
unfolding effective_id find
effective_id-IsIdOf all inst id h =
    ground (arith, count_at-count_names [] all inst.name, ==_iff inst.spec.id [])

-- One round of the second loop that succeeds.
assign_ids-cons :
    (by_name seen : Dict ℕ) (i : ℕ) (inst : Instance) (rest : List Instance) (ids : List Text)
    → assign_ids by_name seen i (inst ∷ rest) ≡ ok ids
    → (id : Text) × (ids' : List Text) × (effective_id by_name inst ≡ ok id)
      × (find seen id ≡ none)
      × (assign_ids by_name (put seen id i) (suc i) rest ≡ ok ids')
      × (ids ≡ id ∷ ids')
unfolding assign_ids effective_id
assign_ids-cons by_name seen i inst rest ids h = ground arith

assign_ids-AreIdsOf :
    (all : List Instance) (seen : Dict ℕ) (i : ℕ) (insts : List Instance) (ids : List Text)
    → assign_ids (count_names [] all) seen i insts ≡ ok ids
    → AreIdsOf all insts ids
unfolding assign_ids
assign_ids-AreIdsOf all seen i [] [] h = tt
assign_ids-AreIdsOf all seen i [] (id ∷ ids) h = cc
assign_ids-AreIdsOf all seen i (inst ∷ rest) ids h =
    let (id, ids', e, fresh, h', eq) = assign_ids-cons _ seen i inst rest ids h in
    rw eq (
      effective_id-IsIdOf all inst id e,
      assign_ids-AreIdsOf all (put seen id i) (suc i) rest ids' h',
    )

-- Identities that are fresh against an extended map are fresh against the map, and new.
fresh_of_put :
    (seen : Dict ℕ) (id : Text) (i : ℕ) (ids : List Text)
    → Every (λ x. find (put seen id i) x ≡ none) ids
    → Every (λ x. find seen x ≡ none) ids × (contains ids id ≡ false)
unfolding contains
fresh_of_put seen id i [] h = (tt, refl)
fresh_of_put seen id i (x ∷ ids) h =
    let (older, new) = fresh_of_put seen id i ids h.1 in
    (
      (ground (arith, find-put seen id x i, h.0), older),
      ground (arith, find-put seen id x i, h.0, new, ==_iff x id, ==_iff id x),
    )

assign_ids-IsNodup :
    (by_name seen : Dict ℕ) (i : ℕ) (insts : List Instance) (ids : List Text)
    → assign_ids by_name seen i insts ≡ ok ids
    → Every (λ x. find seen x ≡ none) ids × IsNodup ids
unfolding assign_ids
assign_ids-IsNodup by_name seen i [] [] h = (tt, tt)
assign_ids-IsNodup by_name seen i [] (id ∷ ids) h = cc
assign_ids-IsNodup by_name seen i (inst ∷ rest) ids h =
    let (id, ids', e, fresh, h', eq) = assign_ids-cons by_name seen i inst rest ids h in
    let (later, distinct) = assign_ids-IsNodup by_name (put seen id i) (suc i) rest ids' h' in
    let (older, new) = fresh_of_put seen id i ids' later in rw eq ((fresh, older), (new, distinct))

-- If identities are assigned, each is the explicit id of the instance at its position or, where
-- that is empty, the name of its pack, which then no other instance carries; and no two are equal.
pub effective_ids-AreIdsOf :
    (insts : List Instance) (ids : List Text)
    → effective_ids insts ≡ ok ids
    → AreIdsOf insts insts ids × IsNodup ids
unfolding effective_ids
effective_ids-AreIdsOf insts ids h =
    (assign_ids-AreIdsOf insts [] 0 insts ids h, (assign_ids-IsNodup _ [] 0 insts ids h).1)

pub length-AreIdsOf :
    (all insts : List Instance) (ids : List Text)
    → AreIdsOf all insts ids
    → length ids ≡ length insts
length-AreIdsOf all [] [] h = refl
length-AreIdsOf all [] (id ∷ ids) h = elim h [ ]
length-AreIdsOf all (inst ∷ rest) [] h = elim h [ ]
length-AreIdsOf all (inst ∷ rest) (id ∷ ids) h = omega (arith, length-AreIdsOf all rest ids h.1)
