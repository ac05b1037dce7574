-- ===== src/Api/Errors.antt =====
-- The field errors of api/config/v1alpha1, and its tests on texts.
use cube_idp.Base.{
  ℕ, ◌≡◌, refl, ◌↔◌, Bool, true, false, not, ◌&&◌, ◌||◌, Option, List, [], ◌∷◌, ◌++◌, length,
  is_space, leb, eqb, if◌then◌else◌, Text,
}

pub data PathPart : Type 0 where
  child : Text → PathPart
  index : ℕ → PathPart

abbrev pub FieldPath : Type 0
FieldPath = List PathPart

-- field.Error: its type, its path and its value. The detail texts are left out, but for the
-- position that a duplicate names.
pub data FieldError : Type 0 where
  required : FieldPath → FieldError
  invalid : FieldPath → (value : Text) → FieldError
  not_supported : FieldPath → (value : Text) → FieldError
  duplicate : FieldPath → (value : Text) → (first : ℕ) → FieldError
  forbidden : FieldPath → FieldError

-- The code outside the repository that validation calls, and time.ParseDuration: the messages of
-- validation.IsDNS1123Subdomain, whether a text is a duration, and the fields apiVersion and kind
-- of a JSON object; `none` where json.Unmarshal fails.
pub record Libraries : Type 0 where
  pub subdomain_messages : Text → List Text
  pub is_duration : Text → Bool
  pub unmarshal_object : Text → Option (Text × Text)

unfoldable pub name_start : ℕ → Bool
name_start c = (leb b'a' c && leb c b'z') || (leb b'0' c && leb c b'9')

unfoldable pub name_rest : Text → Bool
unfolding name_start
name_rest [] = true
name_rest (c ∷ s) = (name_start c || eqb c b'-') && name_rest s

-- nameRE.MatchString: ^[a-z0-9][a-z0-9-]{0,30}$
unfoldable pub matches_name : Text → Bool
unfolding name_start name_rest
matches_name [] = false
matches_name (c ∷ s) = name_start c && name_rest s && leb (length s) 30

-- unicode.IsControl
is_control : ℕ → Bool
is_control c = leb c 31 || (leb 127 c && leb c 159)

-- What the loop of validateRefToken tests.
pub is_token : Text → Bool
unfolding is_control is_space
is_token [] = true
is_token (c ∷ s) = not (is_space c || is_control c) && is_token s

pub matches_name-nil : matches_name [] ≡ false
unfolding matches_name
matches_name-nil = refl

unfoldable pub validate_ref_token : FieldPath → Text → List FieldError
validate_ref_token path ref = if is_token ref then [] else invalid path ref ∷ []

-- Two parts of an error list.
pub append-nil_iff : {A : Type 0} (xs ys : List A) → (xs ++ ys ≡ []) ↔ ((xs ≡ []) × (ys ≡ []))
append-nil_iff [] ys = ((λ h. (refl, h)), (λ h. h.1))
append-nil_iff (x ∷ xs) ys = ((λ h. cc), (λ h. cc))

-- Chains of equivalences, for the parts of an error list.
pub both_iff :
    {A : Type 0} {P Q : Type 0} (xs ys : List A)
    → (xs ≡ []) ↔ P
    → (ys ≡ []) ↔ Q
    → (xs ++ ys ≡ []) ↔ (P × Q)
both_iff xs ys p q = (
  (λ h. let (a, b) = (append-nil_iff xs ys).0 h in (p.0 a, q.0 b)),
  (λ h. (append-nil_iff xs ys).1 (p.1 h.0, q.1 h.1)),
)
