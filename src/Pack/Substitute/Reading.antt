-- ===== src/Pack/Substitute/Reading.antt =====
-- The references of a text of internal/pack/substitute.go, told by its grammar.
use cube_idp.Base.{
  append_assoc, ℕ, zero, suc, ◌+◌, ◌≡◌, refl, sym, ap, ◌∙◌, ◌⊎◌, inl, inr, Bool, true, false, not,
  none, some, List, [], ◌∷◌, ◌++◌, arith, subst, length, length-append, drop, drop-length-append,
  Begins, has_prefix_iff, has_prefix, eqb, if◌then◌else◌, Option-cases, false_of_not, Text, txt,
}
use cube_idp.Pack.Substitute.{reference, Round, round}
use cube_idp.Pack.Substitute.Tokens.{round-variable, round-escape}
use cube_idp.Pack.Substitute.Missing.{
  names_from, resolved_names, names_from-round, names_from_passed,
}
use cube_idp.Pack.Substitute.Grammar.{IsName, IsLiteral, is_var_name_iff, reference-some, opening}

-- The names that a text refers to, from left to right: an escape refers to nothing, and what is no
-- escape and no reference is passed over.
pub data Reads : Text → List Text → Type 0 where
  reads_end : Reads [] []
  reads_escape :
      {s rest : Text} {names : List Text} → s ≡ txt "$${" ++ rest → Reads rest names → Reads s names
  reads_reference :
      {s name rest : Text} {names : List Text}
      → IsName name
      → s ≡ txt "${" ++ (name ++ b'}' ∷ rest)
      → Reads rest names
      → Reads s (name ∷ names)
  reads_literal :
      {c : ℕ} {s : Text} {names : List Text}
      → IsLiteral (c ∷ s)
      → Reads s names
      → Reads (c ∷ s) names

-- The round at a literal.
pub round-literal :
    (c : ℕ) (s : Text)
    → IsLiteral (c ∷ s)
    → round [] c s ≡ record { written = c ∷ []; passed = 0; resolved = none }
unfolding round
round-literal c s (plain, lone) =
    let prefix = has_prefix_iff (txt "$${") (c ∷ s) in
    let e : has_prefix (txt "$${") (c ∷ s) ≡ false =
      false_of_not (has_prefix (txt "$${") (c ∷ s)) (λ h. plain (prefix.0 h)) in
    rw (e, no_reference (Option-cases (reference (c ∷ s)))) (by_dollar (eqb c b'$'))
  where
    no_reference :
        (reference (c ∷ s) ≡ none) ⊎ ((x : Text × ℕ) × (reference (c ∷ s) ≡ some x))
        → reference (c ∷ s) ≡ none
    no_reference (inl q) = q
    no_reference (inr (x, q)) =
        let (named, (rest, split)) = reference-some (c ∷ s) x.0 x.1 q in
        absurd (lone x.0 rest named split)

    literal : Round
    literal = record { written = c ∷ []; passed = 0; resolved = none }

    by_dollar : (dollar : Bool) → (if not dollar then literal else literal) ≡ literal
    by_dollar true = refl
    by_dollar false = refl

names_from_skip : (p s : Text) → names_from (length p) (p ++ s) ≡ names_from 0 s
names_from_skip [] s = refl
names_from_skip (c ∷ p) s = names_from_passed (length p) c (p ++ s) ∙ names_from_skip p s

names_from_at :
    (c : ℕ) (s : Text) (r : Round)
    → round [] c s ≡ r
    → names_from 0 (c ∷ s) ≡ resolved_names r.resolved ++ names_from r.passed s
names_from_at c s r e =
    subst (λ x. names_from 0 (c ∷ s) ≡ resolved_names x.resolved ++ names_from x.passed s) e
      (names_from-round c s)

names_from-literal : (c : ℕ) (s : Text) → IsLiteral (c ∷ s) → names_from 0 (c ∷ s) ≡ names_from 0 s
names_from-literal c s l = names_from_at c s _ (round-literal c s l)

names_from-escape : (rest : Text) → names_from 0 (txt "$${" ++ rest) ≡ names_from 0 rest
names_from-escape rest =
    names_from_at b'$' (txt "${" ++ rest) _ (round-escape [] rest) ∙ names_from_skip (txt "${") rest

names_from-reference :
    (name rest : Text)
    → IsName name
    → names_from 0 (txt "${" ++ (name ++ b'}' ∷ rest)) ≡ name ∷ names_from 0 rest
names_from-reference name rest named =
    names_from_at b'$' (b'{' ∷ (name ++ b'}' ∷ rest)) _
      (round-variable [] name rest ((is_var_name_iff name).1 named))
    ∙ ap (λ l. name ∷ l) past
  where
    past : names_from (length name + 2) (b'{' ∷ (name ++ b'}' ∷ rest)) ≡ names_from 0 rest
    past =
        let p : Text = b'{' ∷ (name ++ b'}' ∷ []) in
        let n : length p ≡ length name + 2 = omega (arith, length-append name (b'}' ∷ [])) in
        subst (λ t. names_from (length name + 2) (b'{' ∷ t) ≡ names_from 0 rest)
          (append_assoc name (b'}' ∷ []) rest)
          (subst (λ k. names_from k (p ++ rest) ≡ names_from 0 rest) n (names_from_skip p rest))

-- A text is read in one way only.
pub Reads-names_from : (s : Text) (names : List Text) → Reads s names → names ≡ names_from 0 s
Reads-names_from _ _ reads_end = unfold names_from in refl
Reads-names_from s names (reads_escape {rest = rest} e h) =
    Reads-names_from rest names h ∙ sym (names_from-escape rest) ∙ ap (names_from 0) (sym e)
Reads-names_from s _ (reads_reference {name = name} {rest = rest} {names = names} named e h) =
    ap (λ l. name ∷ l) (Reads-names_from rest names h)
    ∙ sym (names_from-reference name rest named)
    ∙ ap (names_from 0) (sym e)
Reads-names_from _ names (reads_literal {c = c} {s = s} l h) =
    Reads-names_from s names h ∙ sym (names_from-literal c s l)

-- Every text can be read.
names_from-read : (passed : ℕ) (s : Text) → Reads (drop passed s) (names_from passed s)
names_from-read zero [] = unfold names_from in reads_end
names_from-read (suc passed) [] = unfold names_from in reads_end
names_from-read (suc passed) (c ∷ s) =
    subst (λ l. Reads (drop passed s) l) (sym (names_from_passed passed c s))
      (names_from-read passed s)
names_from-read zero (c ∷ s) = by_opening (opening (c ∷ s)) (λ passed. names_from-read passed s)
  where
    -- The names of what is left behind a part of the text.
    behind :
        ((passed : ℕ) → Reads (drop passed s) (names_from passed s))
        → (p rest : Text) → s ≡ p ++ rest
        → Reads rest (names_from 0 rest)
    behind later p rest e =
        subst (λ l. Reads rest l) (names_from_skip p rest)
          (subst (λ t. Reads t (names_from (length p) (p ++ rest))) (drop-length-append p rest)
            (subst (λ t. Reads (drop (length p) t) (names_from (length p) t)) e (later (length p))))

    by_opening :
        Begins (txt "$${") (c ∷ s)
          ⊎ (((name : Text) × (rest : Text) × IsName name
                × (c ∷ s ≡ txt "${" ++ (name ++ b'}' ∷ rest)))
              ⊎ IsLiteral (c ∷ s))
        → ((passed : ℕ) → Reads (drop passed s) (names_from passed s))
        → Reads (c ∷ s) (names_from 0 (c ∷ s))
    by_opening (inl (rest, e)) later =
        let t : s ≡ txt "${" ++ rest = ap (drop 1) e in
        subst (λ l. Reads (c ∷ s) l) (sym (ap (names_from 0) e ∙ names_from-escape rest))
          (reads_escape e (behind later (txt "${") rest t))
    by_opening (inr (inl (name, rest, named, e))) later =
        let t : s ≡ (b'{' ∷ (name ++ b'}' ∷ [])) ++ rest =
          ap (drop 1) e ∙ ap (λ t. b'{' ∷ t) (sym (append_assoc name (b'}' ∷ []) rest)) in
        subst (λ l. Reads (c ∷ s) l)
          (sym (ap (names_from 0) e ∙ names_from-reference name rest named))
          (reads_reference named e (behind later (b'{' ∷ (name ++ b'}' ∷ [])) rest t))
    by_opening (inr (inr l)) later =
        subst (λ l. Reads (c ∷ s) l) (sym (names_from-literal c s l))
          (reads_literal l (behind later [] s refl))

pub names_from-Reads : (s : Text) → Reads s (names_from 0 s)
names_from-Reads s = names_from-read 0 s
