-- ===== src/Base/Lists.antt =====
-- Lists measured by native numbers, and membership of texts as a Boolean test.
use Prim.Native.Nat.{ℕ, zero, suc, ◌+◌}
use mathlib.Core.Path.{◌≡◌, refl, ap}
use mathlib.Core.Bool.{Bool, true, false, ◌||◌}
use mathlib.Core.List.{List, [], ◌∷◌, ◌++◌}
use native.Mathlib.Omega.{arith}
use cube_idp.Base.Tests.{Text, ◌==◌, ==_iff, ==-refl}

module _ {ℓ} {A : Type ℓ} where
  abbrev pub length : List A → ℕ
  length [] = 0
  length (x ∷ xs) = suc (length xs)

  pub length-append : (xs ys : List A) → length (xs ++ ys) ≡ length xs + length ys
  length-append [] ys = omega arith
  length-append (x ∷ xs) ys = omega (arith, length-append xs ys)

  -- A property that every element of a list has.
  abbrev pub Every {κ} : (property : A → Type κ) → List A → Type κ
  Every property [] = Unit
  Every property (head ∷ rest) = property head × Every property rest

  pub Every-append {κ} :
      (property : A → Type κ) (front back : List A)
      → Every property front
      → Every property back
      → Every property (front ++ back)
  Every-append property [] back here there = there
  Every-append property (head ∷ rest) back (first, here) there =
      (first, Every-append property rest back here there)

-- slices.Contains at texts.
unfoldable pub contains : List Text → Text → Bool
contains [] a = false
contains (x ∷ xs) a = (x == a) || contains xs a

pub contains-nil : (a : Text) → contains [] a ≡ false
unfolding contains
contains-nil a = refl

pub contains-head : (a : Text) (xs : List Text) → contains (a ∷ xs) a ≡ true
unfolding contains
contains-head a xs = ground (arith, ==-refl a)

pub contains-append :
    (xs ys : List Text) (a : Text) → contains (xs ++ ys) a ≡ (contains xs a || contains ys a)
unfolding contains
contains-append [] ys a = refl
contains-append (x ∷ xs) ys a = ground (arith, contains-append xs ys a)

-- No text stands twice in the list.
abbrev pub IsNodup : List Text → Type 0
IsNodup [] = Unit
IsNodup (x ∷ xs) = (contains xs x ≡ false) × IsNodup xs

pub IsNodup-snoc :
    (xs : List Text) (a : Text) → IsNodup xs → contains xs a ≡ false → IsNodup (xs ++ a ∷ [])
unfolding contains
IsNodup-snoc [] a h n = (refl, tt)
IsNodup-snoc (x ∷ xs) a h n = (
  ground (arith, contains-append xs (a ∷ []) x, ==_iff a x, ==_iff x a),
  IsNodup-snoc xs a h.1 (ground arith),
)

-- What stands behind a part of a list without repetition is not in that part.
pub nodup_split :
    (xs : List Text) (a : Text) (ys : List Text) → IsNodup (xs ++ a ∷ ys) → contains xs a ≡ false
unfolding contains
nodup_split [] a ys h = refl
nodup_split (x ∷ xs) a ys h = ground (
  arith,
  h.0,
  nodup_split xs a ys h.1,
  contains-append xs (a ∷ ys) x,
  contains-head a ys,
  ==_iff x a,
)

module _ {ℓ} {A : Type ℓ} where
  -- xs[:n] and xs[n:]
  abbrev pub take : ℕ → List A → List A
  take zero xs = []
  take (suc n) [] = []
  take (suc n) (x ∷ xs) = x ∷ take n xs

  abbrev pub drop : ℕ → List A → List A
  drop zero xs = xs
  drop (suc n) [] = []
  drop (suc n) (x ∷ xs) = drop n xs

  pub take-length-append : (xs ys : List A) → take (length xs) (xs ++ ys) ≡ xs
  take-length-append [] ys = refl
  take-length-append (x ∷ xs) ys = ap (λ l. x ∷ l) (take-length-append xs ys)

  pub drop-length-append : (xs ys : List A) → drop (length xs) (xs ++ ys) ≡ ys
  drop-length-append [] ys = refl
  drop-length-append (x ∷ xs) ys = drop-length-append xs ys

  pub take_past :
      (xs : List A) (y : A) (ys : List A) → take (length xs + 1) (xs ++ y ∷ ys) ≡ xs ++ y ∷ []
  take_past [] y ys = refl
  take_past (x ∷ xs) y ys =
      let e : suc (length xs) + 1 ≡ suc (length xs + 1) = omega arith in
      rw e (ap (λ l. x ∷ l) (take_past xs y ys))

  pub drop_past : (xs : List A) (y : A) (ys : List A) → drop (length xs + 1) (xs ++ y ∷ ys) ≡ ys
  drop_past [] y ys = refl
  drop_past (x ∷ xs) y ys =
      let e : suc (length xs) + 1 ≡ suc (length xs + 1) = omega arith in rw e (drop_past xs y ys)

  pub Every-of-append {κ} :
      (P : A → Type κ) (xs ys : List A) → Every P (xs ++ ys) → Every P xs × Every P ys
  Every-of-append P [] ys h = (tt, h)
  Every-of-append P (x ∷ xs) ys h = let (a, b) = Every-of-append P xs ys h.1 in ((h.0, a), b)

-- The slices of a list at a position that a search from 0 has found.
module _ {ℓ} {A : Type ℓ} {lines : List A} (xs : List A) {i : ℕ} (place : i ≡ 0 + length xs) where
  pub take_at : (ys : List A) → lines ≡ xs ++ ys → take i lines ≡ xs
  take_at ys s =
      let p : i ≡ length xs = omega (arith, place) in rw (s, p) (take-length-append xs ys)

  pub take_past_at :
      (y : A) (ys : List A) → lines ≡ xs ++ y ∷ ys → take (i + 1) lines ≡ xs ++ y ∷ []
  take_past_at y ys s =
      let p : i + 1 ≡ length xs + 1 = omega (arith, place) in rw (s, p) (take_past xs y ys)

  pub drop_past_at : (y : A) (ys : List A) → lines ≡ xs ++ y ∷ ys → drop (i + 1) lines ≡ ys
  drop_past_at y ys s =
      let p : i + 1 ≡ length xs + 1 = omega (arith, place) in rw (s, p) (drop_past xs y ys)
