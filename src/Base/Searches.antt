-- ===== src/Base/Searches.antt =====
-- What the searches in texts find, told by the parts of the text.
use mathlib.Core.Path.{◌≡◌, refl, sym, ap, ◌∙◌}
use mathlib.Core.Logic.{◌↔◌, inl, inr}
use mathlib.Core.Bool.{Bool, true, false}
use mathlib.Core.Option.{Option, none, some}
use mathlib.Core.List.{[], ◌∷◌, ◌++◌}
use native.Mathlib.Omega.{arith}
use Prim.Native.Nat.{ℕ}
use cube_idp.Base.Tests.{Text, eqb, ◌==◌, ==_iff, Bool-cases, if◌then◌else◌}
use cube_idp.Base.Outcome.{some_is}
use cube_idp.Base.Lists.{Every}
use cube_idp.Base.Strings.{has_prefix}
use cube_idp.Base.Paths.{has_text, cut_at}

-- The text begins with `p`.
abbrev pub Begins : (p s : Text) → Type 0
Begins p s = (rest : Text) × (s ≡ p ++ rest)

-- The text has `p` somewhere.
abbrev pub Holds : (p s : Text) → Type 0
Holds p s = (before : Text) × (after : Text) × (s ≡ before ++ (p ++ after))

pub has_prefix_iff : (p s : Text) → (has_prefix p s ≡ true) ↔ Begins p s
unfolding has_prefix
has_prefix_iff [] s = ((λ h. (s, refl)), (λ h. refl))
has_prefix_iff (p ∷ ps) [] = ((λ h. cc), (λ h. let (rest, e) = h in cc))
has_prefix_iff (p ∷ ps) (c ∷ s) = (
  (λ h.
      let (rest, e) = (has_prefix_iff ps s).0 (ground (arith, h)) in
      let q : c ≡ p = ground (arith, h) in (rest, cc)),
  (λ h.
      let (rest, e) = h in
      let q : p ≡ c = cc in
      let t : s ≡ ps ++ rest = cc in ground (arith, q, (has_prefix_iff ps s).1 (rest, t))),
)

has_text-Holds : (p s : Text) → has_text p s ≡ true → Holds p s
unfolding has_text
has_text-Holds p [] h = ([], [], sym (ap (λ x. x ++ []) ((==_iff p []).0 h)))
has_text-Holds p (c ∷ s) h = elim (Bool-cases (has_prefix p (c ∷ s))) [
  | inl e ↦ let (rest, q) = (has_prefix_iff p (c ∷ s)).0 e in ([], rest, q)
  | inr e ↦
      let (before, after, q) = has_text-Holds p s (ground (arith, h, e)) in
      (c ∷ before, after, ap (λ t. c ∷ t) q)
]

has_text-split : (p before after : Text) → has_text p (before ++ (p ++ after)) ≡ true
unfolding has_text ◌==◌
has_text-split p (b ∷ before) after = ground (arith, has_text-split p before after)
has_text-split [] [] [] = refl
has_text-split [] [] (c ∷ after) = ground (arith, (has_prefix_iff [] (c ∷ after)).1 (_, refl))
has_text-split (p ∷ ps) [] after =
    ground (arith, (has_prefix_iff (p ∷ ps) (p ∷ (ps ++ after))).1 (after, refl))

pub has_text_iff : (p s : Text) → (has_text p s ≡ true) ↔ Holds p s
has_text_iff p s = (
  has_text-Holds p s,
  (λ h. let (before, after, e) = h in ap (has_text p) e ∙ has_text-split p before after),
)

-- The parts of a text at its first `c`.
abbrev pub FirstAt : ℕ → Text → Text × Text → Type 0
FirstAt c s (before, after) = (s ≡ before ++ c ∷ after) × Every (λ d. eqb c d ≡ false) before

cut_at-FirstAt :
    (c : ℕ) (s before after : Text)
    → cut_at c s ≡ some (before, after)
    → FirstAt c s (before, after)
unfolding cut_at
cut_at-FirstAt c [] before after h = cc
cut_at-FirstAt c (d ∷ s) before after h = by_test (eqb c d) (cut_at c s) refl (cut_at-FirstAt c s) h
  where
    by_test :
        (hit : Bool) (o : Option (Text × Text))
        → eqb c d ≡ hit
        → ((before after : Text) → o ≡ some (before, after) → FirstAt c s (before, after))
        → Path
            (Option (Text × Text))
            (if hit then some ([], s) else elim o [ none ↦ none | some x ↦ some (d ∷ x.0, x.1) ])
            (some (before, after))
        → FirstAt c (d ∷ s) (before, after)
    by_test true o e later h =
        let x : [] ≡ before = ap (λ x. x.0) (some_is h) in
        let y : s ≡ after = ap (λ x. x.1) (some_is h) in
        let q : d ≡ c = ground (arith, e) in rw (← x, ← y, q) (refl, tt)
    by_test false none e later h = cc
    by_test false (some x) e later h =
        let (split, free) = later x.0 x.1 refl in
        let y : d ∷ x.0 ≡ before = ap (λ x. x.0) (some_is h) in
        let z : x.1 ≡ after = ap (λ x. x.1) (some_is h) in
        rw (← y, ← z) (ap (λ t. d ∷ t) split, (e, free))

cut_at-split :
    (c : ℕ) (before after : Text)
    → Every (λ d. eqb c d ≡ false) before
    → cut_at c (before ++ c ∷ after) ≡ some (before, after)
unfolding cut_at
cut_at-split c [] after h = ground arith
cut_at-split c (d ∷ before) after h = rw (h.0, cut_at-split c before after h.1) refl

pub cut_at_iff :
    (c : ℕ) (s before after : Text)
    → (cut_at c s ≡ some (before, after)) ↔ FirstAt c s (before, after)
cut_at_iff c s before after =
    (cut_at-FirstAt c s before after, (λ h. ap (cut_at c) h.0 ∙ cut_at-split c before after h.1))
