-- ===== src/Base/Sorting.antt =====
-- slices.Sort on texts: the result is determined by being sorted and having the same members as
-- often, so the order is computed by insertion.
pub mod Unique
use mathlib.Core.Path.{◌≡◌, refl}
use mathlib.Core.Logic.{inl, inr}
use mathlib.Core.Bool.{Bool, true, false, ◌||◌}
use mathlib.Core.List.{List, [], ◌∷◌}
use native.Mathlib.Omega.{arith}
use cube_idp.Base.Tests.{Text, ltb, eqb, if◌then◌else◌, ◌==◌, ==_iff, Bool-cases}
use cube_idp.Base.Lists.{contains, IsNodup}

-- The order of Go's strings: code point by code point.
unfoldable pub text_le : Text → Text → Bool
text_le [] t = true
text_le (x ∷ s) [] = false
text_le (x ∷ s) (y ∷ t) = let rest = text_le s t in if eqb x y then rest else ltb x y

unfoldable pub insert_text : Text → List Text → List Text
unfolding text_le
insert_text a [] = a ∷ []
insert_text a (x ∷ xs) = let rest = insert_text a xs in if text_le a x then a ∷ x ∷ xs else x ∷ rest

unfoldable pub sort_texts : List Text → List Text
unfolding insert_text
sort_texts [] = []
sort_texts (x ∷ xs) = insert_text x (sort_texts xs)

-- Each text is at most the one after it.
abbrev pub IsSortedFrom : Text → List Text → Type 0
IsSortedFrom a [] = Unit
IsSortedFrom a (x ∷ xs) = (text_le a x ≡ true) × IsSortedFrom x xs

abbrev pub IsSorted : List Text → Type 0
IsSorted [] = Unit
IsSorted (x ∷ xs) = IsSortedFrom x xs

pub text_le_total : (s t : Text) → text_le s t ≡ false → text_le t s ≡ true
unfolding text_le
text_le_total [] t h = cc
text_le_total (x ∷ s) [] h = refl
text_le_total (x ∷ s) (y ∷ t) h = ground (arith, text_le_total s t)

insert_text-IsSortedFrom :
    (b a : Text) (xs : List Text)
    → text_le b a ≡ true
    → IsSortedFrom b xs
    → IsSortedFrom b (insert_text a xs)
unfolding insert_text
insert_text-IsSortedFrom b a [] h s = (h, tt)
insert_text-IsSortedFrom b a (x ∷ xs) h s = elim (Bool-cases (text_le a x)) [
  | inl e ↦ rw e (h, (e, s.1))
  | inr e ↦ rw e (s.0, insert_text-IsSortedFrom x a xs (text_le_total a x e) s.1)
]

insert_text-IsSorted : (a : Text) (xs : List Text) → IsSorted xs → IsSorted (insert_text a xs)
unfolding insert_text
insert_text-IsSorted a [] s = tt
insert_text-IsSorted a (x ∷ xs) s = elim (Bool-cases (text_le a x)) [
  | inl e ↦ rw e (e, s)
  | inr e ↦ rw e (insert_text-IsSortedFrom x a xs (text_le_total a x e) s)
]

pub sort_texts-IsSorted : (xs : List Text) → IsSorted (sort_texts xs)
unfolding sort_texts
sort_texts-IsSorted [] = tt
sort_texts-IsSorted (x ∷ xs) = insert_text-IsSorted x (sort_texts xs) (sort_texts-IsSorted xs)

contains-insert_text :
    (a : Text) (xs : List Text) (b : Text)
    → contains (insert_text a xs) b ≡ ((a == b) || contains xs b)
unfolding insert_text contains
contains-insert_text a [] b = refl
contains-insert_text a (x ∷ xs) b = ground (arith, contains-insert_text a xs b)

pub contains-sort_texts : (xs : List Text) (b : Text) → contains (sort_texts xs) b ≡ contains xs b
unfolding sort_texts contains
contains-sort_texts [] b = refl
contains-sort_texts (x ∷ xs) b =
    ground (arith, contains-insert_text x (sort_texts xs) b, contains-sort_texts xs b)

insert_text-IsNodup :
    (a : Text) (xs : List Text) → contains xs a ≡ false → IsNodup xs → IsNodup (insert_text a xs)
unfolding insert_text contains
insert_text-IsNodup a [] h n = (refl, tt)
insert_text-IsNodup a (x ∷ xs) h n = elim (Bool-cases (text_le a x)) [
  | inl e ↦ rw e (h, n)
  | inr e ↦ rw e (
    ground (arith, contains-insert_text a xs x, n.0, h, ==_iff a x, ==_iff x a),
    insert_text-IsNodup a xs (ground (arith, h)) n.1,
  )
]

pub sort_texts-IsNodup : (xs : List Text) → IsNodup xs → IsNodup (sort_texts xs)
unfolding sort_texts
sort_texts-IsNodup [] n = tt
sort_texts-IsNodup (x ∷ xs) n =
    insert_text-IsNodup x (sort_texts xs) (ground (arith, contains-sort_texts xs x, n.0))
      (sort_texts-IsNodup xs n.1)
