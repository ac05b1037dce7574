-- ===== src/Pack/Substitute/Referenced.antt =====
-- The variables that rendered objects refer to, and what substitute of internal/pack/substitute.go
-- reports of them.
use cube_idp.Base.{
  ◌≡◌, refl, sym, ◌∙◌, ◌≢◌, ◌↔◌, ◌⊎◌, true, Option, none, some, List, [], ◌∷◌, ◌++◌, subst,
  false≢true, contains, contains-append, IsNodup, Dict, find, IsSorted, and_iff, or_iff, Text,
}
use cube_idp.Base.Document.{
  Value, null, bool, int, float, str, arr, obj, Items, nil, cons, Fields, end, field,
}
use cube_idp.Pack.Errors.{PackError, substitution_missing}
use cube_idp.Pack.Substitute.{substitute}
use cube_idp.Pack.Substitute.Reading.{Reads, Reads-names_from, names_from-Reads}
use cube_idp.Pack.Substitute.Missing.{
  names_from, names_value, names_items, names_fields, names_objects, is_unset, ReportsNames,
  substitute_names,
}

-- A text refers to a name.
abbrev pub RefersText : Text → (name : Text) → Type 0
RefersText s name = (names : List Text) × Reads s names × (contains names name ≡ true)

-- A string somewhere in a value refers to a name; a key does not.
unfoldable mutual
  pub RefersValue : Value → (name : Text) → Type 0
  RefersValue null name = ⊥
  RefersValue (bool b) name = ⊥
  RefersValue (int i) name = ⊥
  RefersValue (float f) name = ⊥
  RefersValue (str s) name = RefersText s name
  RefersValue (arr l) name = RefersItems l name
  RefersValue (obj f) name = RefersFields f name

  pub RefersItems : Items → (name : Text) → Type 0
  RefersItems nil name = ⊥
  RefersItems (cons v l) name = RefersValue v name ⊎ RefersItems l name

  pub RefersFields : Fields → (name : Text) → Type 0
  RefersFields end name = ⊥
  RefersFields (field k v f) name = RefersValue v name ⊎ RefersFields f name

abbrev pub Refers : List Fields → (name : Text) → Type 0
Refers [] name = ⊥
Refers (f ∷ objs) name = RefersFields f name ⊎ Refers objs name

text_refers : (s name : Text) → (contains (names_from 0 s) name ≡ true) ↔ RefersText s name
text_refers s name = (
  (λ h. (names_from 0 s, names_from-Reads s, h)),
  (λ h.
      let (names, reads, m) = h in
      subst (λ l. contains l name ≡ true) (Reads-names_from s names reads) m),
)

none_iff : (name : Text) → (contains [] name ≡ true) ↔ ⊥
unfolding contains
none_iff name = ((λ h. cc), (λ h. elim h [ ]))

append_iff :
    (xs ys : List Text) (name : Text) {P Q : Type 0}
    → (contains xs name ≡ true) ↔ P
    → (contains ys name ≡ true) ↔ Q
    → (contains (xs ++ ys) name ≡ true) ↔ (P ⊎ Q)
append_iff xs ys name p q = rw (contains-append xs ys name) (or_iff p q)

mutual
  unfolding names_value RefersValue

  value_refers :
      (v : Value) (name : Text) → (contains (names_value v) name ≡ true) ↔ RefersValue v name
  value_refers null name = none_iff name
  value_refers (bool b) name = none_iff name
  value_refers (int i) name = none_iff name
  value_refers (float f) name = none_iff name
  value_refers (str s) name = text_refers s name
  value_refers (arr l) name = items_refer l name
  value_refers (obj f) name = fields_refer f name

  items_refer :
      (l : Items) (name : Text) → (contains (names_items l) name ≡ true) ↔ RefersItems l name
  items_refer nil name = none_iff name
  items_refer (cons v l) name =
      append_iff (names_value v) (names_items l) name (value_refers v name) (items_refer l name)

  fields_refer :
      (f : Fields) (name : Text) → (contains (names_fields f) name ≡ true) ↔ RefersFields f name
  fields_refer end name = none_iff name
  fields_refer (field k v f) name =
      append_iff (names_value v) (names_fields f) name (value_refers v name) (fields_refer f name)

objects_refer :
    (objs : List Fields) (name : Text)
    → (contains (names_objects objs) name ≡ true) ↔ Refers objs name
unfolding names_objects
objects_refer [] name = none_iff name
objects_refer (f ∷ objs) name =
    append_iff (names_fields f) (names_objects objs) name (fields_refer f name)
      (objects_refer objs name)

is_unset_iff : (o : Option Text) → (is_unset o ≡ true) ↔ (o ≡ none)
is_unset_iff none = ((λ h. refl), (λ h. refl))
is_unset_iff (some v) = ((λ h. cc), (λ h. cc))

-- What an error says of the objects.
abbrev pub Reports : Dict Text → List Fields → Option PackError → Type 0
Reports vars objs none = (name : Text) → Refers objs name → find vars name ≢ none
Reports vars objs (some e) =
    (missing : List Text) × (e ≡ substitution_missing missing)
    × (missing ≢ [])
    × IsSorted missing
    × IsNodup missing
    × ((name : Text)
        → (contains missing name ≡ true) ↔ (Refers objs name × (find vars name ≡ none)))

Reports-ReportsNames :
    (vars : Dict Text) (objs : List Fields) (o : Option PackError)
    → ReportsNames vars (names_objects objs) o
    → Reports vars objs o
Reports-ReportsNames vars objs none h = λ name refers unset.
    false≢true
      (sym (h name ((objects_refer objs name).1 refers)) ∙ (is_unset_iff (find vars name)).1 unset)
Reports-ReportsNames vars objs (some e) (missing, same, full, sorted, distinct, members) = (
  missing,
  same,
  full,
  sorted,
  distinct,
  (λ name. rw (members name) (and_iff (objects_refer objs name) (is_unset_iff (find vars name)))),
)

-- Substitution succeeds exactly if every name that some string in some object refers to has a
-- value; otherwise its one error names all of these names without a value, in order and each once,
-- and no other. A string refers to the names of its references ${NAME} with a name of
-- [A-Za-z_][A-Za-z0-9_]*, read from left to right, where $${ is an escape and refers to nothing.
pub substitute-Reports :
    (objs : List Fields) (vars : Dict Text) → Reports vars objs (substitute objs vars).1
substitute-Reports objs vars =
    Reports-ReportsNames vars objs (substitute objs vars).1 (substitute_names objs vars)
