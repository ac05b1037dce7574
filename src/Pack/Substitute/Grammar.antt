-- ===== src/Pack/Substitute/Grammar.antt =====
-- The grammar of references in internal/pack/substitute.go.
use cube_idp.Base.{
  ℕ, ◌+◌, ◌≤◌, ◌≡◌, refl, sym, ap, ◌∙◌, ◌≢◌, ◌↔◌, ◌⊎◌, inl, inr, Bool, true, false, Option, none,
  some, [], ◌∷◌, ◌++◌, arith, subst, false≢true, length, Every, some_is, Begins, has_prefix_iff,
  has_prefix, eqb, if◌then◌else◌, if_true, Bool-cases, Option-cases, and_iff, or_iff, leb_iff,
  eqb_iff, Text, txt,
}
use cube_idp.Pack.Substitute.{
  is_letter, is_digit, is_name_rest, is_var_name, up_to_brace, reference,
}
use cube_idp.Pack.Substitute.Tokens.{reference-variable}

-- [A-Za-z_]
abbrev pub IsLetter : ℕ → Type 0
IsLetter c = (((b'a' ≤ c) × (c ≤ b'z')) ⊎ ((b'A' ≤ c) × (c ≤ b'Z'))) ⊎ (c ≡ b'_')

-- [0-9]
abbrev pub IsDigit : ℕ → Type 0
IsDigit c = (b'0' ≤ c) × (c ≤ b'9')

-- [A-Za-z_][A-Za-z0-9_]*
abbrev pub IsName : Text → Type 0
IsName [] = ⊥
IsName (c ∷ name) = IsLetter c × Every (λ d. IsLetter d ⊎ IsDigit d) name

-- The text opens no escape and no reference.
abbrev pub IsLiteral : Text → Type 0
IsLiteral s =
    (Begins (txt "$${") s → ⊥)
    × ((name rest : Text) → IsName name → s ≢ txt "${" ++ (name ++ b'}' ∷ rest))

is_letter_iff : (c : ℕ) → (is_letter c ≡ true) ↔ IsLetter c
unfolding is_letter
is_letter_iff c =
    or_iff
      (or_iff (and_iff (leb_iff b'a' c) (leb_iff c b'z'))
        (and_iff (leb_iff b'A' c) (leb_iff c b'Z')))
      (eqb_iff c b'_')

is_digit_iff : (c : ℕ) → (is_digit c ≡ true) ↔ IsDigit c
unfolding is_digit
is_digit_iff c = and_iff (leb_iff b'0' c) (leb_iff c b'9')

is_name_rest_iff : (s : Text) → (is_name_rest s ≡ true) ↔ Every (λ d. IsLetter d ⊎ IsDigit d) s
unfolding is_name_rest
is_name_rest_iff [] = ((λ h. tt), (λ h. refl))
is_name_rest_iff (c ∷ s) = and_iff (or_iff (is_letter_iff c) (is_digit_iff c)) (is_name_rest_iff s)

pub is_var_name_iff : (s : Text) → (is_var_name s ≡ true) ↔ IsName s
unfolding is_var_name
is_var_name_iff [] = ((λ h. cc), (λ h. elim h [ ]))
is_var_name_iff (c ∷ s) = and_iff (is_letter_iff c) (is_name_rest_iff s)

up_to_brace-some :
    (s name : Text) → up_to_brace s ≡ some name → (rest : Text) × (s ≡ name ++ b'}' ∷ rest)
unfolding up_to_brace
up_to_brace-some [] name h = cc
up_to_brace-some (c ∷ s) name h = by_test (eqb c b'}') (up_to_brace s) refl (up_to_brace-some s) h
  where
    by_test :
        (hit : Bool) (o : Option Text)
        → eqb c b'}' ≡ hit
        → ((name : Text) → o ≡ some name → (rest : Text) × (s ≡ name ++ b'}' ∷ rest))
        → Path
            (Option Text)
            (if hit then some [] else elim o [ none ↦ none | some name ↦ some (c ∷ name) ])
            (some name)
        → (rest : Text) × (c ∷ s ≡ name ++ b'}' ∷ rest)
    by_test true o e later h =
        let x : [] ≡ name = some_is h in
        let q : c ≡ b'}' = ground (arith, e) in rw (← x, q) (s, refl)
    by_test false none e later h = cc
    by_test false (some name') e later h =
        let (rest, split) = later name' refl in
        let x : c ∷ name' ≡ name = some_is h in rw (← x) (rest, ap (λ t. c ∷ t) split)

reference-opened :
    (r name : Text) (width : ℕ)
    → reference (txt "${" ++ r) ≡ some (name, width)
    → IsName name × ((rest : Text) × (r ≡ name ++ b'}' ∷ rest))
unfolding reference has_prefix
reference-opened r name width h = by_name (up_to_brace r) (up_to_brace-some r) h
  where
    by_name :
        (o : Option Text)
        → ((name : Text) → o ≡ some name → (rest : Text) × (r ≡ name ++ b'}' ∷ rest))
        → Path
            (Option (Text × ℕ))
            (elim o [
              | none ↦ none
              | some name ↦ if is_var_name name then some (name, length name + 3) else none
            ])
            (some (name, width))
        → IsName name × ((rest : Text) × (r ≡ name ++ b'}' ∷ rest))
    by_name none split h = cc
    by_name (some name') split h = elim (Bool-cases (is_var_name name')) [
      | inl e ↦
          let q : name' ≡ name =
            ap (λ x. x.0) (some_is (sym (if_true (is_var_name name') _ _ e) ∙ h)) in
          (subst IsName q ((is_var_name_iff name').0 e), split name (ap some q))
      | inr e ↦ ground (arith, h, e)
    ]

pub reference-some :
    (s name : Text) (width : ℕ)
    → reference s ≡ some (name, width)
    → IsName name × ((rest : Text) × (s ≡ txt "${" ++ (name ++ b'}' ∷ rest)))
reference-some s name width h = elim (Bool-cases (has_prefix (txt "${") s)) [
  | inl e ↦
      let (r, q) = (has_prefix_iff (txt "${") s).0 e in
      let (named, (rest, split)) = reference-opened r name width (ap reference (sym q) ∙ h) in
      (named, (rest, q ∙ ap (λ t. txt "${" ++ t) split))
  | inr e ↦ unfold reference in ground (arith, h, e)
]

-- A text opens an escape, or a reference, or neither.
pub opening :
    (s : Text)
    → Begins (txt "$${") s
      ⊎ (((name : Text) × (rest : Text) × IsName name × (s ≡ txt "${" ++ (name ++ b'}' ∷ rest)))
          ⊎ IsLiteral s)
opening s = elim (Bool-cases (has_prefix (txt "$${") s)) [
  | inl e ↦ inl ((has_prefix_iff (txt "$${") s).0 e)
  | inr e ↦ inr (elim (Option-cases (reference s)) [
    | inr (x, q) ↦
        let (named, (rest, split)) = reference-some s x.0 x.1 q in inl (x.0, rest, named, split)
    | inl q ↦ inr (
      (λ b. false≢true (sym e ∙ (has_prefix_iff (txt "$${") s).1 b)),
      (λ name rest named split.
          let r = reference-variable name rest ((is_var_name_iff name).1 named) in
          let z : none ≡ some (name, length name + 3) = sym q ∙ ap reference split ∙ r in cc),
    )
  ])
]
