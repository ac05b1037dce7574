-- ===== src/Pack/Substitute/Tokens.antt =====
-- expand of internal/pack/substitute.go against the grammar of its comment.
use cube_idp.Base.{
  append_assoc, ℕ, ◌+◌, ◌-◌, ◌≡◌, refl, ◌∙◌, true, false, none, some, List, [], ◌∷◌, ◌++◌, arith,
  subst, length, length-append, Dict, find, has_prefix, eqb, Text, txt,
}
use cube_idp.Pack.Substitute.{
  is_letter, is_digit, is_name_rest, is_var_name, up_to_brace, reference, value_or_empty, Round,
  round, note_missing, expand_from, expand_from_step, expand,
}

-- The pieces of a template: a character, a reference ${NAME}, the escape $${, and a $ that opens
-- neither.
pub data Token : Type 0 where
  character : ℕ → Token
  variable : Text → Token
  escape : Token
  dollar : Token

unfoldable pub source : List Token → Text
source [] = []
source (character c ∷ ts) = c ∷ source ts
source (variable name ∷ ts) = txt "${" ++ (name ++ b'}' ∷ source ts)
source (escape ∷ ts) = txt "$${" ++ source ts
source (dollar ∷ ts) = b'$' ∷ source ts

pub meaning : Dict Text → List Token → Text
meaning vars [] = []
meaning vars (character c ∷ ts) = c ∷ meaning vars ts
meaning vars (variable name ∷ ts) = value_or_empty (find vars name) ++ meaning vars ts
meaning vars (escape ∷ ts) = txt "${" ++ meaning vars ts
meaning vars (dollar ∷ ts) = b'$' ∷ meaning vars ts

-- The names that the template refers to and the variables lack, after those noted before.
pub lacking : Dict Text → List Text → List Token → List Text
unfolding note_missing
lacking vars missing [] = missing
lacking vars missing (variable name ∷ ts) = lacking vars (note_missing vars missing (some name)) ts
lacking vars missing (character c ∷ ts) = lacking vars missing ts
lacking vars missing (escape ∷ ts) = lacking vars missing ts
lacking vars missing (dollar ∷ ts) = lacking vars missing ts

-- Characters are no dollars, names are names, and a lone dollar stands before no brace.
abbrev pub IsTemplate : List Token → Type 0
IsTemplate [] = Unit
IsTemplate (character c ∷ ts) = (eqb c b'$' ≡ false) × IsTemplate ts
IsTemplate (variable name ∷ ts) = (is_var_name name ≡ true) × IsTemplate ts
IsTemplate (escape ∷ ts) = IsTemplate ts
IsTemplate (dollar ∷ ts) =
    (has_prefix (txt "{") (source ts) ≡ false)
    × (has_prefix (txt "${") (source ts) ≡ false)
    × IsTemplate ts

-- What `i` has passed is not looked at.
expand_from_skip :
    (p s : Text) (vars : Dict Text) (missing : List Text)
    → expand_from (length p) (p ++ s) vars missing ≡ expand_from 0 s vars missing
unfolding expand_from
expand_from_skip [] s vars missing = refl
expand_from_skip (c ∷ p) s vars missing = expand_from_skip p s vars missing

up_to_brace-name :
    (name s : Text) → is_name_rest name ≡ true → up_to_brace (name ++ b'}' ∷ s) ≡ some name
unfolding up_to_brace is_name_rest is_letter is_digit
up_to_brace-name [] s h = refl
up_to_brace-name (c ∷ name) s h = ground (arith, up_to_brace-name name s, h)

is_name_rest_of_var : (name : Text) → is_var_name name ≡ true → is_name_rest name ≡ true
unfolding is_var_name is_name_rest
is_name_rest_of_var [] h = refl
is_name_rest_of_var (c ∷ name) h = ground (arith, h)

pub reference-variable :
    (name s : Text)
    → is_var_name name ≡ true
    → reference (txt "${" ++ (name ++ b'}' ∷ s)) ≡ some (name, length name + 3)
unfolding reference has_prefix
reference-variable name s h =
    ground (arith, up_to_brace-name name s (is_name_rest_of_var name h), h)

pub round-variable :
    (vars : Dict Text) (name s : Text)
    → is_var_name name ≡ true
    → round vars b'$' (b'{' ∷ (name ++ b'}' ∷ s)) ≡ record {
      written = value_or_empty (find vars name);
      passed = length name + 2;
      resolved = some name;
    }
unfolding round has_prefix
round-variable vars name s h =
    let e : length name + 3 - 1 ≡ length name + 2 = omega arith in
    rw (reference-variable name s h, e)

reference-dollar : (s : Text) → has_prefix (txt "{") s ≡ false → reference (b'$' ∷ s) ≡ none
unfolding reference has_prefix
reference-dollar [] h = refl
reference-dollar (c ∷ s) h = ground (arith, h)

round-dollar :
    (vars : Dict Text) (s : Text)
    → has_prefix (txt "{") s ≡ false
    → has_prefix (txt "${") s ≡ false
    → round vars b'$' s ≡ record { written = b'$' ∷ []; passed = 0; resolved = none }
unfolding round
round-dollar vars s h k =
    let e : has_prefix (txt "$${") (b'$' ∷ s) ≡ false = unfold has_prefix in k in
    rw (e, reference-dollar s h)

round-character :
    (vars : Dict Text) (c : ℕ) (s : Text)
    → eqb c b'$' ≡ false
    → round vars c s ≡ record { written = c ∷ []; passed = 0; resolved = none }
unfolding round
round-character vars c s h = rw h

abbrev Steps : Dict Text → List Text → ℕ → Text → Round → Type 0
Steps vars missing c s r = expand_from 0 (c ∷ s) vars missing ≡ (
  r.written ++ (expand_from r.passed s vars (note_missing vars missing r.resolved)).0,
  (expand_from r.passed s vars (note_missing vars missing r.resolved)).1,
)

-- One round, its outcome given.
expand_from-round :
    (vars : Dict Text) (missing : List Text) (c : ℕ) (s : Text) (r : Round)
    → round vars c s ≡ r
    → Steps vars missing c s r
expand_from-round vars missing c s r e =
    subst (Steps vars missing c s) e (expand_from_step c s vars missing)

past_variable :
    (vars : Dict Text) (missing : List Text) (name s : Text)
    → expand_from (length name + 2) (b'{' ∷ (name ++ b'}' ∷ s)) vars missing
      ≡ expand_from 0 s vars missing
past_variable vars missing name s =
    let p : Text = b'{' ∷ (name ++ b'}' ∷ []) in
    let n : length p ≡ length name + 2 = omega (arith, length-append name (b'}' ∷ [])) in
    subst
      (λ t. expand_from (length name + 2) (b'{' ∷ t) vars missing ≡ expand_from 0 s vars missing)
      (append_assoc name (b'}' ∷ []) s)
      (subst (λ k. expand_from k (p ++ s) vars missing ≡ expand_from 0 s vars missing) n
        (expand_from_skip p s vars missing))

pub round-escape :
    (vars : Dict Text) (s : Text)
    → round vars b'$' (txt "${" ++ s) ≡ record { written = txt "${"; passed = 2; resolved = none }
unfolding round has_prefix
round-escape vars s = refl

note_missing-none : (vars : Dict Text) (m : List Text) → note_missing vars m none ≡ m
unfolding note_missing
note_missing-none vars m = refl

expand_from-source :
    (vars : Dict Text) (missing : List Text) (ts : List Token)
    → IsTemplate ts
    → expand_from 0 (source ts) vars missing ≡ (meaning vars ts, lacking vars missing ts)
unfolding source meaning lacking
expand_from-source vars missing [] h = unfold expand_from in refl
expand_from-source vars missing (character c ∷ ts) h =
    expand_from-round vars missing c (source ts) _ (round-character vars c (source ts) h.0)
    ∙ rw (note_missing-none vars missing, expand_from-source vars missing ts h.1)
expand_from-source vars missing (variable name ∷ ts) h =
    let missing' = note_missing vars missing (some name) in
    expand_from-round vars missing b'$' (b'{' ∷ (name ++ b'}' ∷ source ts)) _
      (round-variable vars name (source ts) h.0)
    ∙ rw (past_variable vars missing' name (source ts), expand_from-source vars missing' ts h.1)
expand_from-source vars missing (escape ∷ ts) h =
    expand_from-round vars missing b'$' (txt "${" ++ source ts) _ (round-escape vars (source ts))
    ∙ rw (
      note_missing-none vars missing,
      expand_from_skip (txt "${") (source ts) vars missing,
      expand_from-source vars missing ts h,
    )
expand_from-source vars missing (dollar ∷ ts) h =
    expand_from-round vars missing b'$' (source ts) _ (round-dollar vars (source ts) h.0 h.1)
    ∙ rw (note_missing-none vars missing, expand_from-source vars missing ts h.2)

-- On a template, expansion writes each character, the value of each reference (the empty text for
-- a name without one), ${ for each escape and $ for each lone dollar; and it notes exactly the
-- referenced names without a value, each once.
pub expand-source :
    (vars : Dict Text) (missing : List Text) (ts : List Token)
    → IsTemplate ts
    → expand (source ts) vars missing ≡ (meaning vars ts, lacking vars missing ts)
unfolding expand
expand-source vars missing ts h = expand_from-source vars missing ts h
