-- ===== src/Base/TextLaws.antt =====
-- Laws of the text functions: splitting into lines and joining, trimming.
use mathlib.Core.Path.{◌≡◌, refl, ap, ◌∙◌}
use mathlib.Core.Logic.{◌≢◌, inl, inr}
use mathlib.Core.Bool.{Bool, true, false, not, ◌&&◌}
use mathlib.Core.List.{List, [], ◌∷◌, ◌++◌}
use native.Mathlib.Omega.{arith}
use Prim.Native.Nat.{ℕ}
use cube_idp.Base.Tests.{Text, eqb, Bool-cases}
use cube_idp.Base.Lists.{Every}
use cube_idp.Base.Strings.{
  cons_head, split_lines, join_lines, is_space, trim_right, is_meta, quote_meta,
}

-- A text without a newline.
abbrev pub IsLine : Text → Type 0
IsLine s = Every (λ c. eqb c 10 ≡ false) s

split_lines-line : (line : Text) → IsLine line → split_lines line ≡ line ∷ []
unfolding split_lines
split_lines-line [] h = refl
split_lines-line (c ∷ line) h = ground (arith, split_lines-line line h.1, h.0)

split_lines-append :
    (line s : Text) → IsLine line → split_lines (line ++ 10 ∷ s) ≡ line ∷ split_lines s
unfolding split_lines
split_lines-append [] s h = refl
split_lines-append (c ∷ line) s h = ground (arith, split_lines-append line s h.1, h.0)

pub split_lines-join_lines :
    (lines : List Text) → Every IsLine lines → lines ≢ [] → split_lines (join_lines lines) ≡ lines
unfolding join_lines
split_lines-join_lines [] h n = absurd (n refl)
split_lines-join_lines (line ∷ []) h n = split_lines-line line h.0
split_lines-join_lines (line ∷ next ∷ lines) h n =
    split_lines-append line (join_lines (next ∷ lines)) h.0
    ∙ ap (λ l. line ∷ l) (split_lines-join_lines (next ∷ lines) h.1 (λ e. cc))

cons_head-IsLine :
    (c : ℕ) (lines : List Text)
    → eqb c 10 ≡ false
    → Every IsLine lines
    → Every IsLine (cons_head c lines)
cons_head-IsLine c [] h a = ((h, tt), tt)
cons_head-IsLine c (line ∷ lines) h a = ((h, a.0), a.1)

pub split_lines-IsLine : (s : Text) → Every IsLine (split_lines s)
unfolding split_lines
split_lines-IsLine [] = (tt, tt)
split_lines-IsLine (c ∷ s) = elim (Bool-cases (eqb c 10)) [
  | inl e ↦ rw e (tt, split_lines-IsLine s)
  | inr e ↦ rw e (cons_head-IsLine c (split_lines s) e (split_lines-IsLine s))
]

pub trim_right-cons :
    (c : ℕ) (s : Text) → is_space c ≡ false → trim_right (c ∷ s) ≡ c ∷ trim_right s
unfolding trim_right
trim_right-cons c s h = ground (arith, h)

trim_right_keeps : (c : ℕ) (s : Text) → trim_right s ≡ s → s ≢ [] → trim_right (c ∷ s) ≡ c ∷ s
unfolding trim_right
trim_right_keeps c [] h n = absurd (n refl)
trim_right_keeps c (d ∷ s) h n = rw (h, trim_right)

pub trim_right-append : (p s : Text) → trim_right s ≡ s → s ≢ [] → trim_right (p ++ s) ≡ p ++ s
trim_right-append [] s h n = h
trim_right-append (c ∷ p) s h n =
    trim_right_keeps c (p ++ s) (trim_right-append p s h n) (append_ne_nil p s n)
  where
    append_ne_nil : (p s : Text) → s ≢ [] → p ++ s ≢ []
    append_ne_nil [] s n e = n e
    append_ne_nil (c ∷ p) s n e = cc

-- A text without spaces is trimmed already.
pub trim_right_solid : (s : Text) → Every (λ c. is_space c ≡ false) s → trim_right s ≡ s
unfolding trim_right
trim_right_solid [] h = refl
trim_right_solid (c ∷ s) h = trim_right-cons c s h.0 ∙ ap (λ l. c ∷ l) (trim_right_solid s h.1)

pub IsLine-append : (s t : Text) → IsLine s → IsLine t → IsLine (s ++ t)
IsLine-append [] t h k = k
IsLine-append (c ∷ s) t h k = (h.0, IsLine-append s t h.1 k)

pub solid-IsLine : (s : Text) → Every (λ c. is_space c ≡ false) s → IsLine s
unfolding is_space
solid-IsLine [] h = tt
solid-IsLine (c ∷ s) h = (ground (arith, h.0), solid-IsLine s h.1)

pub quote_meta-IsLine : (s : Text) → IsLine s → IsLine (quote_meta s)
unfolding quote_meta
quote_meta-IsLine [] h = tt
quote_meta-IsLine (c ∷ s) h = elim (Bool-cases (is_meta c)) [
  | inl e ↦ rw e (refl, (h.0, quote_meta-IsLine s h.1))
  | inr e ↦ rw e (h.0, quote_meta-IsLine s h.1)
]

-- IsLine as a test, for literals.
unfoldable pub has_no_newline : Text → Bool
has_no_newline [] = true
has_no_newline (c ∷ s) = not (eqb c 10) && has_no_newline s

pub has_no_newline-IsLine : (s : Text) → has_no_newline s ≡ true → IsLine s
unfolding has_no_newline
has_no_newline-IsLine [] h = tt
has_no_newline-IsLine (c ∷ s) h = (ground (arith, h), has_no_newline-IsLine s (ground (arith, h)))
