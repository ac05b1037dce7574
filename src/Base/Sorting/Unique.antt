-- ===== src/Base/Sorting/Unique.antt =====
-- A sorted list without repetition is determined by its members.
use mathlib.Core.Path.{◌≡◌, refl, sym, ◌∙◌, subst}
use mathlib.Core.Logic.{inl, inr}
use mathlib.Core.Bool.{true, false}
use mathlib.Core.List.{List, [], ◌∷◌}
use native.Mathlib.Omega.{arith}
use cube_idp.Base.Tests.{Text, ◌==◌, ==_iff, Bool-cases}
use cube_idp.Base.Lists.{contains, contains-head, IsNodup}
use cube_idp.Base.Sorting.{text_le, IsSortedFrom, IsSorted}

text_le_refl : (s : Text) → text_le s s ≡ true
unfolding text_le
text_le_refl [] = refl
text_le_refl (x ∷ s) = ground (arith, text_le_refl s)

text_le_trans : (s t u : Text) → text_le s t ≡ true → text_le t u ≡ true → text_le s u ≡ true
unfolding text_le
text_le_trans [] t u h k = refl
text_le_trans (x ∷ s) [] u h k = cc
text_le_trans (x ∷ s) (y ∷ t) [] h k = cc
text_le_trans (x ∷ s) (y ∷ t) (z ∷ u) h k = ground (arith, text_le_trans s t u)

text_le_antisym : (s t : Text) → text_le s t ≡ true → text_le t s ≡ true → s ≡ t
unfolding text_le
text_le_antisym [] [] h k = refl
text_le_antisym [] (y ∷ t) h k = cc
text_le_antisym (x ∷ s) [] h k = cc
text_le_antisym (x ∷ s) (y ∷ t) h k = ground (arith, text_le_antisym s t)

least :
    (a b : Text) (xs : List Text) → IsSortedFrom a xs → contains xs b ≡ true → text_le a b ≡ true
unfolding contains
least a b [] s h = cc
least a b (x ∷ xs) s h = ground (arith, ==_iff x b, least x b xs s.1, text_le_trans a x b s.0)

least_of :
    (a b : Text) (xs : List Text)
    → IsSortedFrom a xs
    → contains (a ∷ xs) b ≡ true
    → text_le a b ≡ true
unfolding contains
least_of a b xs s h = ground (arith, ==_iff a b, text_le_refl a, least a b xs s)

IsSorted-tail : (a : Text) (xs : List Text) → IsSortedFrom a xs → IsSorted xs
IsSorted-tail a [] s = tt
IsSorted-tail a (x ∷ xs) s = s.1

same_tail :
    (x y : Text) (xs ys : List Text) (n : Text)
    → x ≡ y
    → contains xs x ≡ false
    → contains ys y ≡ false
    → contains (x ∷ xs) n ≡ contains (y ∷ ys) n
    → contains xs n ≡ contains ys n
unfolding contains
same_tail x y xs ys n e d f h = elim (Bool-cases (x == n)) [
  | inl m ↦
      let xn = (==_iff x n).0 m in
      subst (λ k. contains xs k ≡ contains ys k) (sym e ∙ xn)
        (subst (λ k. contains xs k ≡ false) e d ∙ sym f)
  | inr m ↦ ground (arith, h, m, e, ==_iff x n, ==_iff y n)
]

pub sorted_unique :
    (xs ys : List Text)
    → IsSorted xs
    → IsSorted ys
    → IsNodup xs
    → IsNodup ys
    → ((n : Text) → contains xs n ≡ contains ys n)
    → xs ≡ ys
sorted_unique [] [] s t d e h = refl
sorted_unique [] (y ∷ ys) s t d e h = unfold contains in ground (arith, h y, contains-head y ys)
sorted_unique (x ∷ xs) [] s t d e h = unfold contains in ground (arith, h x, contains-head x xs)
sorted_unique (x ∷ xs) (y ∷ ys) s t d e h =
    let up = least_of y x ys t (sym (h x) ∙ contains-head x xs) in
    let down = least_of x y xs s (h y ∙ contains-head y ys) in
    let same = text_le_antisym x y down up in
    let rest =
      sorted_unique xs ys (IsSorted-tail x xs s) (IsSorted-tail y ys t) d.1 e.1
        (λ n. same_tail x y xs ys n same d.0 e.0 (h n)) in
    λ i. same i ∷ rest i
