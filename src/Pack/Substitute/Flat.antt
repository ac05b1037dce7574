-- ===== src/Pack/Substitute/Flat.antt =====
-- flatStringValues of internal/pack/substitute.go.
use cube_idp.Base.{
  ◌≡◌, refl, sym, ap, ◌∙◌, ◌⊎◌, inl, inr, Bool, true, false, Option, none, some, List, [], ◌∷◌,
  arith, contains, contains-head, Dict, find, put, find-put, Result, sort_texts,
  contains-sort_texts, if◌then◌else◌, Text, ==_iff, ok, err,
}
use cube_idp.Base.Document.{Value, null, bool, int, float, str, arr, obj, Fields, end, field, get}
use cube_idp.Pack.Errors.{PackError, values_not_flat}
use cube_idp.Pack.Substitute.{keys, sorted_keys, flatten_names, flat_string_values}

abbrev pub is_string : Option Value → Bool
is_string (some (str s)) = true
is_string _ = false

-- What the flat map has at a name, for a string in the values.
abbrev pub string_of : Option Value → Option Text
string_of (some (str s)) = some s
string_of _ = none

-- Every value is a string, and the flat map holds just these; or the named value is none.
abbrev pub Flattened : Fields → Result PackError (Dict Text) → Type 0
Flattened values (ok out) =
    (name : Text)
    → (find out name ≡ string_of (get values name))
      × ((get values name ≡ none) ⊎ (is_string (get values name) ≡ true))
Flattened values (err (values_not_flat name)) =
    (contains (keys values) name ≡ true) × (is_string (get values name) ≡ false)
Flattened values (err _) = ⊥

abbrev is_some : Option Value → Bool
is_some none = false
is_some (some v) = true

contains-keys : (m : Fields) (k : Text) → contains (keys m) k ≡ is_some (get m k)
unfolding keys get contains
contains-keys end k = refl
contains-keys (field j v m) k = ground (arith, contains-keys m k)

-- The loop, over names of which `done` are in the map.
abbrev Partly :
    Fields → (out : Dict Text) → (names : List Text) → Result PackError (Dict Text) → Type 0
Partly values out names (ok out') =
    (name : Text)
    → find out' name ≡ (if contains names name then string_of (get values name) else find out name)
      × (contains names name ≡ true → is_string (get values name) ≡ true)
Partly values out names (err (values_not_flat name)) =
    (contains names name ≡ true) × (is_string (get values name) ≡ false)
Partly values out names (err _) = ⊥

Partly-cons :
    (values : Fields) (out : Dict Text) (n s : Text) (ns : List Text)
    (r : Result PackError (Dict Text))
    → get values n ≡ some (str s)
    → Partly values (put out n s) ns r
    → Partly values out (n ∷ ns) r
unfolding contains
Partly-cons values out n s ns (ok out') e h = λ name. (
  ground (arith, e, (h name).0, find-put out n name s, ==_iff n name),
  (λ m. ground (arith, e, m, (h name).1, ==_iff n name)),
)
Partly-cons values out n s ns (err (values_not_flat name)) e h = (ground (arith, h.0), h.1)
Partly-cons values out n s ns (err other) e h = elim h [ ]

flatten_names-Partly :
    (values : Fields) (out : Dict Text) (names : List Text)
    → Partly values out names (flatten_names values out names)
unfolding flatten_names
flatten_names-Partly values out [] = λ name. unfold contains in (refl, (λ m. cc))
flatten_names-Partly values out (n ∷ ns) =
    by_value (get values n) refl (λ s. flatten_names-Partly values (put out n s) ns)
  where
    by_value :
        (o : Option Value)
        → get values n ≡ o
        → ((s : Text) → Partly values (put out n s) ns (flatten_names values (put out n s) ns))
        → Partly values out (n ∷ ns) (elim o [
          | some (str s) ↦ flatten_names values (put out n s) ns
          | _ ↦ err (values_not_flat n)
        ])
    by_value (some (str s)) e later = Partly-cons values out n s ns _ e (later s)
    by_value none e later = (contains-head n ns, ap is_string e)
    by_value (some null) e later = (contains-head n ns, ap is_string e)
    by_value (some (bool b)) e later = (contains-head n ns, ap is_string e)
    by_value (some (int i)) e later = (contains-head n ns, ap is_string e)
    by_value (some (float f)) e later = (contains-head n ns, ap is_string e)
    by_value (some (arr l)) e later = (contains-head n ns, ap is_string e)
    by_value (some (obj f)) e later = (contains-head n ns, ap is_string e)

Flattened-of-Partly :
    (values : Fields) (r : Result PackError (Dict Text))
    → Partly values [] (sorted_keys values) r
    → Flattened values r
unfolding sorted_keys find
Flattened-of-Partly values (ok out) h = λ name. by_value name (get values name) refl
  where
    by_value :
        (name : Text) (o : Option Value)
        → get values name ≡ o
        → (find out name ≡ string_of (get values name))
          × ((get values name ≡ none) ⊎ (is_string (get values name) ≡ true))
    by_value name none e = (
      ground
          (arith, e, (h name).0, contains-sort_texts (keys values) name, contains-keys values name),
      inl e,
    )
    by_value name (some v) e =
        let m : contains (sort_texts (keys values)) name ≡ true =
          contains-sort_texts (keys values) name ∙ contains-keys values name ∙ ap is_some e in
        (ground (arith, m, (h name).0), inr ((h name).1 m))
Flattened-of-Partly values (err (values_not_flat name)) h =
    (sym (contains-sort_texts (keys values) name) ∙ h.0, h.1)
Flattened-of-Partly values (err other) h = elim h [ ]

-- If all values are strings, the flat map has exactly their names, with these strings; otherwise
-- the error names a value that is no string.
pub flat_string_values-Flattened : (values : Fields) → Flattened values (flat_string_values values)
unfolding flat_string_values
flat_string_values-Flattened values =
    Flattened-of-Partly values _ (flatten_names-Partly values [] (sorted_keys values))
