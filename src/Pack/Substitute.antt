-- ===== src/Pack/Substitute.antt =====
-- internal/pack/substitute.go: ${VAR} references in rendered objects. The proofs are in the
-- modules below.
pub mod Tokens
pub mod Missing
pub mod Grammar
pub mod Reading
pub mod Referenced
pub mod Flat
mod Tests
use cube_idp.Base.{
  ℕ, zero, suc, ◌+◌, ◌-◌, ◌≡◌, refl, Bool, true, false, not, ◌&&◌, ◌||◌, Option, none, some, List,
  [], ◌∷◌, ◌++◌, length, contains, drop, Dict, find, put, Result, sort_texts, has_prefix, leb, eqb,
  if◌then◌else◌, Text, txt, ok, err,
}
use cube_idp.Base.Document.{
  Value, null, bool, int, float, str, arr, obj, Items, nil, cons, Fields, end, field, get,
}
use cube_idp.Pack.Errors.{PackError, values_not_flat, substitution_missing}

pub keys : Fields → List Text
keys end = []
keys (field k v m) = k ∷ keys m

pub sorted_keys : Fields → List Text
unfolding keys
sorted_keys m = sort_texts (keys m)

-- The loop of flatStringValues over the sorted names.
pub flatten_names : Fields → Dict Text → List Text → Result PackError (Dict Text)
flatten_names values out [] = ok out
flatten_names values out (name ∷ names) = elim (get values name) [
  | some (str s) ↦ flatten_names values (put out name s) names
  | _ ↦ err (values_not_flat name)
]

unfoldable pub flat_string_values : Fields → Result PackError (Dict Text)
unfolding flatten_names sorted_keys
flat_string_values values = flatten_names values [] (sorted_keys values)

is_letter : ℕ → Bool
is_letter c = leb b'a' c && leb c b'z' || leb b'A' c && leb c b'Z' || eqb c b'_'

is_digit : ℕ → Bool
is_digit c = leb b'0' c && leb c b'9'

-- The loop of isVarName at a position that is not the first.
is_name_rest : Text → Bool
unfolding is_letter is_digit
is_name_rest [] = true
is_name_rest (c ∷ s) = (is_letter c || is_digit c) && is_name_rest s

pub is_var_name : Text → Bool
unfolding is_letter is_name_rest
is_var_name [] = false
is_var_name (c ∷ s) = is_letter c && is_name_rest s

-- s[len("${"):end] for the index `end` of the first closing brace, if there is one.
up_to_brace : Text → Option Text
up_to_brace [] = none
up_to_brace (c ∷ s) =
    let rest = up_to_brace s in
    if eqb c b'}' then some [] else elim rest [ none ↦ none | some name ↦ some (c ∷ name) ]

-- The name and the width of a leading reference.
unfoldable pub reference : Text → Option (Text × ℕ)
unfolding up_to_brace is_var_name
reference s =
    if has_prefix (txt "${") s
    then elim (up_to_brace (drop 2 s)) [
      | none ↦ none
      | some name ↦ if is_var_name name then some (name, length name + 3) else none
    ]
    else none

-- A set of names; a name is put in once.
abbrev pub add_name : List Text → Text → List Text
add_name missing name = if contains missing name then missing else missing ++ name ∷ []

-- What one round of expand writes, how many more places it passes over, and the reference it
-- resolved.
pub record Round : Type 0 where
  pub written : Text
  pub passed : ℕ
  pub resolved : Option Text

abbrev pub value_or_empty : Option Text → Text
value_or_empty none = []
value_or_empty (some v) = v

unfoldable pub round : Dict Text → ℕ → Text → Round
unfolding reference
round vars c s =
    if not (eqb c b'$')
    then record { written = c ∷ []; passed = 0; resolved = none }
    else if has_prefix (txt "$${") (c ∷ s)
    then record { written = txt "${"; passed = 2; resolved = none }
    else elim (reference (c ∷ s)) [
      | none ↦ record { written = c ∷ []; passed = 0; resolved = none }
      | some (name, width) ↦ record {
        written = value_or_empty (find vars name);
        passed = width - 1;
        resolved = some name;
      }
    ]

-- A resolved name that the variables lack is missing.
unfoldable pub note_missing : Dict Text → List Text → Option Text → List Text
note_missing vars missing none = missing
note_missing vars missing (some name) = elim (find vars name) [
  | none ↦ add_name missing name
  | some _ ↦ missing
]

-- The loop of expand, by the places left; the first argument counts those that `i` has passed.
pub expand_from : ℕ → Text → Dict Text → List Text → Text × List Text
expand_from passed [] vars missing = ([], missing)
expand_from (suc passed) (c ∷ s) vars missing = expand_from passed s vars missing
expand_from zero (c ∷ s) vars missing =
    let r = round vars c s in
    let (out, missing') = expand_from r.passed s vars (note_missing vars missing r.resolved) in
    (r.written ++ out, missing')

-- One round.
pub expand_from_step :
    (c : ℕ) (s : Text) (vars : Dict Text) (missing : List Text)
    → expand_from 0 (c ∷ s) vars missing ≡ (
      (round vars c s).written
          ++ (expand_from
              (round vars c s).passed
              s
              vars
              (note_missing vars missing (round vars c s).resolved)).0,
      (expand_from
          (round vars c s).passed
          s
          vars
          (note_missing vars missing (round vars c s).resolved)).1,
    )
unfolding expand_from
expand_from_step c s vars missing = refl

pub expand : Text → Dict Text → List Text → Text × List Text
unfolding expand_from
expand s vars missing = expand_from 0 s vars missing

unfoldable mutual
  unfolding expand

  pub expand_value : Value → Dict Text → List Text → Value × List Text
  expand_value null vars missing = (null, missing)
  expand_value (bool b) vars missing = (bool b, missing)
  expand_value (int i) vars missing = (int i, missing)
  expand_value (float f) vars missing = (float f, missing)
  expand_value (str s) vars missing = let (s', m) = expand s vars missing in (str s', m)
  expand_value (arr l) vars missing = let (l', m) = expand_items l vars missing in (arr l', m)
  expand_value (obj f) vars missing = let (f', m) = expand_fields f vars missing in (obj f', m)

  pub expand_items : Items → Dict Text → List Text → Items × List Text
  expand_items nil vars missing = (nil, missing)
  expand_items (cons v l) vars missing =
      let (v', m) = expand_value v vars missing in
      let (l', m') = expand_items l vars m in (cons v' l', m')

  pub expand_fields : Fields → Dict Text → List Text → Fields × List Text
  expand_fields end vars missing = (end, missing)
  expand_fields (field k v f) vars missing =
      let (v', m) = expand_value v vars missing in
      let (f', m') = expand_fields f vars m in (field k v' f', m')

-- The loop of substitute over the objects, which are rewritten in place.
pub expand_objects : List Fields → Dict Text → List Text → List Fields × List Text
expand_objects [] vars missing = ([], missing)
expand_objects (f ∷ objs) vars missing =
    let (f', m) = expand_fields f vars missing in
    let (objs', m') = expand_objects objs vars m in (f' ∷ objs', m')

-- The objects as they are left, and the error.
unfoldable pub substitute : List Fields → Dict Text → List Fields × Option PackError
unfolding expand_objects
substitute objs vars =
    let (objs', missing) = expand_objects objs vars [] in
    (
      objs',
      elim missing [
        | [] ↦ none
        | name ∷ names ↦ some (substitution_missing (sort_texts (name ∷ names)))
      ],
    )
