-- ===== src/Pack/Deps/Sort.antt =====
-- topoSort of internal/pack/deps.go: what it returns, and when it reports a cycle.
use cube_idp.Base.{
  append_assoc, ℕ, zero, suc, ◌≡◌, refl, ◌≢◌, inl, inr, Bool, true, false, not, ◌&&◌, Option, none,
  some, List, [], ◌∷◌, ◌++◌, arith, subst, false≢true, length, contains, contains-append, IsNodup,
  Dict, find, delete, Result, Bool-cases, Option-cases, Text, ◌==◌, ==_iff, ok, err,
}
use cube_idp.Pack.Errors.{PackError, dependency_cycle}
use cube_idp.Pack.Deps.{slice_at, ready_instance, unresolved, release, sort_rounds, topo_sort}
use cube_idp.Pack.Deps.Counts.{open_count-zero, open_count-pos, ready_instance-none}
use cube_idp.Pack.Deps.State.{IsMet, IsOrdered, IsState, IsState-initial, IsState-round}

-- An order of installation: each instance once, and its dependencies before it.
pub record IsPlan (ids : List Text) (deps : Dict (List Text)) (order : List Text) : Type 0 where
  pub distinct : IsNodup order
  pub complete : (id : Text) → contains order id ≡ contains ids id
  pub ordered : IsOrdered ids deps [] order

-- Instances that wait for one another: some, and each depends on one of them.
pub record IsStuck (ids : List Text) (deps : Dict (List Text)) (members : List Text) : Type 0 where
  pub inhabited : members ≢ []
  pub known : (id : Text) → contains members id ≡ true → contains ids id ≡ true
  pub waiting :
      (id : Text)
      → contains members id ≡ true
      → (dep : Text) × (contains (slice_at deps id) dep ≡ true) × (contains members dep ≡ true)

-- An instance that depends on one of the members is one of them too.
abbrev pub IsClosed : (ids : List Text) → Dict (List Text) → (members : List Text) → Type 0
IsClosed ids deps members =
    (id dep : Text)
    → contains ids id ≡ true
    → contains (slice_at deps id) dep ≡ true
    → contains members dep ≡ true
    → contains members id ≡ true

abbrev pub Sorted : (ids : List Text) → Dict (List Text) → Result PackError (List Text) → Type 0
Sorted ids deps (ok order) = IsPlan ids deps order
Sorted ids deps (err e) =
    (members : List Text) × (e ≡ dependency_cycle members)
    × IsStuck ids deps members
    × IsClosed ids deps members

-- What is placed has its dependencies placed.
placed_dependency :
    (ids : List Text) (deps : Dict (List Text)) (placed order : List Text) (id dep : Text)
    → IsOrdered ids deps placed order
    → contains order id ≡ true
    → contains (slice_at deps id) dep ≡ true
    → contains ids dep ≡ true
    → contains (placed ++ order) dep ≡ true
unfolding contains
placed_dependency ids deps placed [] id dep h m d k = absurd (false≢true m)
placed_dependency ids deps placed (x ∷ order) id dep h m d k = elim (Bool-cases (x == id)) [
  | inl e ↦
      let e' : x ≡ id = (==_iff x id).0 e in
      let met : contains placed dep ≡ true = subst (IsMet ids deps placed) e' h.0 dep d k in
      ground (arith, contains-append placed (x ∷ order) dep, met)
  | inr o ↦
      let later =
        placed_dependency ids deps (placed ++ x ∷ []) order id dep h.1 (ground (arith, o, m)) d k in
      subst (λ l. contains l dep ≡ true) (append_assoc placed (x ∷ []) order) later
]

abbrev is_pending : Option ℕ → Bool
is_pending none = false
is_pending (some _) = true

contains-unresolved :
    (ids : List Text) (remaining : Dict ℕ) (id : Text)
    → contains (unresolved ids remaining) id ≡ (contains ids id && is_pending (find remaining id))
unfolding unresolved contains
contains-unresolved [] remaining id = refl
contains-unresolved (x ∷ ids) remaining id =
    ground (arith, contains-unresolved ids remaining id, ==_iff x id)

inhabited_of_contains : (l : List Text) (a : Text) → contains l a ≡ true → l ≢ []
unfolding contains
inhabited_of_contains [] a h e = cc
inhabited_of_contains (x ∷ l) a h e = cc

module _ (ids : List Text) (deps : Dict (List Text)) where
  IsState-IsPlan :
      (remaining : Dict ℕ) (order : List Text)
      → IsState ids deps 0 remaining order
      → IsPlan ids deps order
  IsState-IsPlan remaining order s = record {
    distinct = s.distinct;
    complete = λ id. ground (arith, s.known id, open_count-zero ids order ids id s.left_open);
    ordered = s.ordered;
  }

  module _ {left : ℕ} {remaining : Dict ℕ} {order : List Text}
      (s : IsState ids deps (suc left) remaining order)
      (r : ready_instance ids remaining ≡ none) where
    members_iff :
        (id : Text)
        → contains (unresolved ids remaining) id ≡ (contains ids id && not (contains order id))
    members_iff id = ground (arith, contains-unresolved ids remaining id, s.counts id)

    member_waits :
        (id : Text)
        → contains (unresolved ids remaining) id ≡ true
        → (dep : Text) × (contains (slice_at deps id) dep ≡ true)
          × (contains (unresolved ids remaining) dep ≡ true)
    member_waits id m =
        let (dep, a, b, c) = open_count-pos ids order (slice_at deps id) (λ z.
          ready_instance-none ids remaining id r (ground (arith, members_iff id))
            (ground (arith, s.counts id, members_iff id, z))) in
        (dep, a, ground (arith, members_iff dep))

    IsState-IsStuck : IsStuck ids deps (unresolved ids remaining)
    IsState-IsStuck =
        let (id, a, b, c) = open_count-pos ids order ids (λ z. omega (arith, s.left_open, z)) in
        record {
          inhabited = inhabited_of_contains _ id (ground (arith, members_iff id));
          known = λ id m. ground (arith, members_iff id);
          waiting = member_waits;
        }

    IsState-IsClosed : IsClosed ids deps (unresolved ids remaining)
    IsState-IsClosed id dep k d m = ground (
      arith,
      members_iff id,
      members_iff dep,
      placed_dependency ids deps [] order id dep s.ordered,
    )

module _ (ids : List Text) (deps : Dict (List Text)) (n : IsNodup ids)
    (dn : (id : Text) → IsNodup (slice_at deps id)) where
  sort_rounds-Sorted :
      (left : ℕ) (remaining : Dict ℕ) (order : List Text)
      → IsState ids deps left remaining order
      → Sorted ids deps (sort_rounds left ids deps remaining order)
  unfolding sort_rounds
  sort_rounds-Sorted zero remaining order s = IsState-IsPlan ids deps remaining order s
  sort_rounds-Sorted (suc left) remaining order s =
      elim (Option-cases (ready_instance ids remaining)) [
        | inl r ↦
            rw (r, sort_rounds)
              (
                unresolved ids remaining,
                refl,
                IsState-IsStuck ids deps s r,
                IsState-IsClosed ids deps s r,
              )
        | inr (next, r) ↦
            rw (r, sort_rounds)
              (sort_rounds-Sorted left (release ids deps next (delete remaining next))
                (order ++ next ∷ []) (IsState-round ids deps n dn s r))
      ]

  -- For distinct instances with distinct dependencies the result is a complete order in which
  -- every dependency stands before its dependent; or it names instances each of which depends on
  -- another of them, together with every instance that depends on one of those.
  pub topo_sort-Sorted : Sorted ids deps (topo_sort ids deps)
  unfolding topo_sort
  topo_sort-Sorted = sort_rounds-Sorted (length ids) _ [] (IsState-initial ids deps n dn)
