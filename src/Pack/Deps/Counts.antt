-- ===== src/Pack/Deps/Counts.antt =====
-- The counts of topoSort in internal/pack/deps.go: what `pendingCounts` and the release loop do
-- to the entry of each instance.
use cube_idp.Base.{
  ℕ, ◌+◌, ◌-◌, ◌≤◌, ◌≡◌, refl, ◌≢◌, inl, inr, Bool, true, false, not, ◌&&◌, Option, none, some,
  List, [], ◌∷◌, ◌++◌, arith, length, contains, contains-append, IsNodup, Dict, find, put, find-put,
  if◌then◌else◌, Bool-cases, Option-cases, Text, ==-refl, ==_iff,
}
use cube_idp.Pack.Deps.{
  slice_at, count_known, fill_pending, pending_counts, ready_instance, release,
}

-- How many of the dependencies are instances that are not placed yet.
pub open_count : (ids order deps : List Text) → ℕ
open_count ids order [] = 0
open_count ids order (dep ∷ deps) =
    (if contains ids dep && not (contains order dep) then 1 else 0) + open_count ids order deps

pub open_count-nil : (ids deps : List Text) → open_count ids [] deps ≡ count_known ids deps
unfolding open_count count_known contains
open_count-nil ids [] = refl
open_count-nil ids (dep ∷ deps) = ground (arith, open_count-nil ids deps)

count_known-le : (ids deps : List Text) → count_known ids deps ≤ length deps
unfolding count_known
count_known-le ids [] = omega arith
count_known-le ids (dep ∷ deps) = ground (arith, count_known-le ids deps)

count_known_weaken :
    (ids deps : List Text) (x : Text)
    → count_known ids deps ≡ length deps
    → count_known (x ∷ ids) deps ≡ length deps
unfolding count_known contains
count_known_weaken ids [] x h = refl
count_known_weaken ids (dep ∷ deps) x h =
    ground (arith, count_known_weaken ids deps x, count_known-le ids deps)

pub count_known_self : (ids : List Text) → count_known ids ids ≡ length ids
unfolding count_known contains
count_known_self [] = refl
count_known_self (x ∷ ids) =
    ground (arith, count_known_weaken ids ids x (count_known_self ids), ==-refl x)

-- Placing an instance that is not among the dependencies changes no count.
open_count-snoc_other :
    (ids order deps : List Text) (next : Text)
    → contains deps next ≡ false
    → open_count ids (order ++ next ∷ []) deps ≡ open_count ids order deps
unfolding open_count contains
open_count-snoc_other ids order [] next h = refl
open_count-snoc_other ids order (dep ∷ deps) next h = ground (
  arith,
  open_count-snoc_other ids order deps next,
  contains-append order (next ∷ []) dep,
  ==_iff next dep,
  ==_iff dep next,
)

-- Placing one of the dependencies takes one from the count.
pub open_count-snoc :
    (ids order deps : List Text) (next : Text)
    → IsNodup deps
    → contains ids next ≡ true
    → contains order next ≡ false
    → open_count ids (order ++ next ∷ []) deps + (if contains deps next then 1 else 0)
      ≡ open_count ids order deps
unfolding open_count contains
open_count-snoc ids order [] next n k p = omega arith
open_count-snoc ids order (dep ∷ deps) next n k p = ground (
  arith,
  open_count-snoc ids order deps next n.1 k p,
  open_count-snoc_other ids order deps next,
  contains-append order (next ∷ []) dep,
  ==_iff next dep,
  ==_iff dep next,
)

-- Every known dependency is placed, if none is open.
pub open_count-zero :
    (ids order deps : List Text) (dep : Text)
    → open_count ids order deps ≡ 0
    → contains deps dep ≡ true
    → contains ids dep ≡ true
    → contains order dep ≡ true
unfolding open_count contains
open_count-zero ids order [] dep z m k = cc
open_count-zero ids order (d ∷ deps) dep z m k =
    ground (arith, open_count-zero ids order deps dep, ==_iff d dep)

-- An open count that is not zero shows an open dependency.
pub open_count-pos :
    (ids order deps : List Text)
    → open_count ids order deps ≢ 0
    → (dep : Text) × (contains deps dep ≡ true)
      × (contains ids dep ≡ true)
      × (contains order dep ≡ false)
unfolding open_count contains
open_count-pos ids order [] h = absurd (h refl)
open_count-pos ids order (d ∷ deps) h =
    elim (Bool-cases (contains ids d && not (contains order d))) [
      | inl open_dep ↦ (d, ground (arith, ==-refl d), ground arith, ground arith)
      | inr closed ↦
          let (dep, m, k, p) = open_count-pos ids order deps (λ z. h (ground arith)) in
          (dep, ground arith, k, p)
    ]

find-fill_pending :
    (all : List Text) (deps : Dict (List Text)) (m : Dict ℕ) (ids : List Text) (id : Text)
    → find (fill_pending all deps m ids) id
      ≡ (if contains ids id then some (count_known all (slice_at deps id)) else find m id)
unfolding fill_pending contains
find-fill_pending all deps m [] id = refl
find-fill_pending all deps m (x ∷ ids) id =
    let m' = put m x (count_known all (slice_at deps x)) in
    ground (
      arith,
      find-fill_pending all deps m' ids id,
      find-put m x id (count_known all (slice_at deps x)),
      ==_iff x id,
    )

pub find-pending_counts :
    (ids : List Text) (deps : Dict (List Text)) (id : Text)
    → find (pending_counts ids deps) id
      ≡ (if contains ids id then some (open_count ids [] (slice_at deps id)) else none)
unfolding pending_counts find
find-pending_counts ids deps id =
    ground (arith, find-fill_pending ids deps [] ids id, open_count-nil ids (slice_at deps id))

-- What one release does to an entry.
abbrev pub lowered : Bool → Option ℕ → Option ℕ
lowered hit none = none
lowered hit (some count) = if hit then some (count - 1) else some count

-- The release loop lowers the entry of each instance that depends on the placed one, once.
pub find-release :
    (ids : List Text) (deps : Dict (List Text)) (next : Text) (remaining : Dict ℕ) (id : Text)
    → IsNodup ids
    → find (release ids deps next remaining) id
      ≡ lowered (contains ids id && contains (slice_at deps id) next) (find remaining id)
unfolding release contains
find-release [] deps next remaining id n = ground arith
find-release (x ∷ ids) deps next remaining id n = elim (Option-cases (find remaining x)) [
  | inl e ↦ ground (arith, find-release ids deps next remaining id n.1, ==_iff x id)
  | inr (count, e) ↦
      let m' = put remaining x (count - 1) in
      ground (
        arith,
        find-release ids deps next remaining id n.1,
        find-release ids deps next m' id n.1,
        find-put remaining x id (count - 1),
        ==_iff x id,
      )
]

pub ready_instance-some :
    (ids : List Text) (remaining : Dict ℕ) (next : Text)
    → ready_instance ids remaining ≡ some next
    → (contains ids next ≡ true) × (find remaining next ≡ some 0)
unfolding ready_instance contains
ready_instance-some [] remaining next h = cc
ready_instance-some (x ∷ ids) remaining next h =
    ground (arith, ready_instance-some ids remaining next, ==-refl next)

pub ready_instance-none :
    (ids : List Text) (remaining : Dict ℕ) (id : Text)
    → ready_instance ids remaining ≡ none
    → contains ids id ≡ true
    → find remaining id ≢ some 0
unfolding ready_instance contains
ready_instance-none [] remaining id h m = cc
ready_instance-none (x ∷ ids) remaining id h m =
    ground (arith, ready_instance-none ids remaining id, ==_iff x id)

-- No dependency is open, if each is met.
pub open_count-met :
    (ids order deps : List Text)
    → ((dep : Text)
        → contains deps dep ≡ true
        → contains ids dep ≡ true
        → contains order dep ≡ true)
    → open_count ids order deps ≡ 0
unfolding open_count contains
open_count-met ids order [] h = refl
open_count-met ids order (dep ∷ deps) h =
    ground (
      arith,
      h dep,
      ==-refl dep,
      open_count-met ids order deps (λ d m k. h d (ground (arith, m)) k),
    )
