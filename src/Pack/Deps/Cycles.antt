-- ===== src/Pack/Deps/Cycles.antt =====
-- When topoSort of internal/pack/deps.go reports a cycle.
use cube_idp.Base.{
  ℕ, zero, suc, ◌<◌, ◌≡◌, refl, sym, ◌∙◌, ◌≢◌, ◌↔◌, inl, inr, true, false, List, [], ◌∷◌, ◌++◌,
  arith, false≢true, contains, contains-nil, contains-head, contains-append, IsNodup, Dict, Result,
  ok≢err, Bool-cases, Text, ==_iff, ok, err,
}
use cube_idp.Pack.Errors.{PackError}
use cube_idp.Pack.Deps.{slice_at, topo_sort}
use cube_idp.Pack.Deps.State.{IsOrdered}
use cube_idp.Pack.Deps.Sort.{IsPlan, IsStuck, Sorted, topo_sort-Sorted}

module _ (ids : List Text) (deps : Dict (List Text)) {members : List Text}
    (s : IsStuck ids deps members) where
  -- No member is ever placed: the first one would need another before it.
  members_not_placed :
      (placed order : List Text)
      → IsOrdered ids deps placed order
      → ((id : Text) → contains members id ≡ true → contains placed id ≡ false)
      → (id : Text) → contains members id ≡ true
      → contains order id ≡ false
  unfolding contains
  members_not_placed placed [] h none_placed id m = refl
  members_not_placed placed (x ∷ order) h none_placed id m =
      elim (Bool-cases (contains members x)) [
        | inl mx ↦
            let (dep, d, md) = s.waiting x mx in
            absurd (false≢true (sym (none_placed dep md) ∙ h.0 dep d (s.known dep md)))
        | inr nx ↦
            let later =
              members_not_placed (placed ++ x ∷ []) order h.1
                (λ y my.
                  ground (arith, contains-append placed (x ∷ []) y, none_placed y my, ==_iff x y))
                id m in
            ground (arith, later, ==_iff x id)
      ]

  not-IsPlan : (order : List Text) → ¬ IsPlan ids deps order
  not-IsPlan order p =
      let (id, m) = has_head members s.inhabited in
      false≢true (
        sym (members_not_placed [] order p.ordered (λ y my. contains-nil y) id m)
        ∙ p.complete id
        ∙ s.known id m)
    where
      has_head : (l : List Text) → l ≢ [] → (a : Text) × (contains l a ≡ true)
      has_head [] h = absurd (h refl)
      has_head (x ∷ l) h = (x, contains-head x l)

abbrev Fails : Result PackError (List Text) → Type 0
Fails r = (e : PackError) × (r ≡ err e)

module _ (ids : List Text) (deps : Dict (List Text)) (n : IsNodup ids)
    (dn : (id : Text) → IsNodup (slice_at deps id)) where
  Fails-cases :
      (r : Result PackError (List Text))
      → Sorted ids deps r
      → Fails r ↔ ((members : List Text) × IsStuck ids deps members)
  Fails-cases (ok order) h =
      ((λ (e, q). absurd (ok≢err q)), (λ (members, s). absurd (not-IsPlan ids deps s order h)))
  Fails-cases (err e) h = ((λ _. (h.0, h.2)), (λ _. (e, refl)))

  -- For distinct instances with distinct dependencies, sorting fails exactly when there are
  -- instances each of which depends on another of them.
  pub topo_sort-Fails_iff :
      Fails (topo_sort ids deps) ↔ ((members : List Text) × IsStuck ids deps members)
  topo_sort-Fails_iff = Fails-cases (topo_sort ids deps) (topo_sort-Sorted ids deps n dn)

  module _ (rank : Text → ℕ)
      (falls : (id dep : Text)
        → contains ids id ≡ true
        → contains (slice_at deps id) dep ≡ true
        → contains ids dep ≡ true
        → rank dep < rank id) where
    no_stuck_below :
        {members : List Text} (s : IsStuck ids deps members) (bound : ℕ) (id : Text)
        → rank id < bound
        → contains members id ≡ true
        → ⊥
    no_stuck_below s zero id h m = elim h [ ]
    no_stuck_below s (suc bound) id h m =
        let (dep, d, md) = s.waiting id m in
        no_stuck_below s bound dep (omega (arith, falls id dep (s.known id m) d (s.known dep md)))
          md

    not-IsStuck : {members : List Text} → ¬ IsStuck ids deps members
    not-IsStuck {members = []} s = s.inhabited refl
    not-IsStuck {members = x ∷ l} s =
        no_stuck_below s (suc (rank x)) x (omega arith) (contains-head x l)

    ok_of_Sorted :
        (r : Result PackError (List Text))
        → Sorted ids deps r
        → (order : List Text) × (r ≡ ok order) × IsPlan ids deps order
    ok_of_Sorted (ok order) h = (order, refl, h)
    ok_of_Sorted (err e) h = absurd (not-IsStuck h.2)

    -- For distinct instances with distinct dependencies: if the dependencies of each instance rank
    -- below it, sorting succeeds, and its result is a complete order in which every dependency
    -- stands before its dependent.
    pub topo_sort_acyclic :
        (order : List Text) × (topo_sort ids deps ≡ ok order) × IsPlan ids deps order
    topo_sort_acyclic = ok_of_Sorted (topo_sort ids deps) (topo_sort-Sorted ids deps n dn)
