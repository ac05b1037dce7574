-- ===== src/Pack/Substitute/Missing.antt =====
-- Which names substitute of internal/pack/substitute.go reports.
use cube_idp.Base.{
  ℕ, zero, suc, ◌≡◌, refl, sym, ap, ◌∙◌, ◌≢◌, inl, inr, Bool, true, false, ◌&&◌, ◌||◌, Option, none,
  some, List, [], ◌∷◌, ◌++◌, arith, false≢true, contains, contains-head, contains-append, IsNodup,
  IsNodup-snoc, Dict, find, sort_texts, IsSorted, sort_texts-IsSorted, contains-sort_texts,
  sort_texts-IsNodup, Bool-cases, Option-cases, Text, ◌==◌, ==_iff,
}
use cube_idp.Base.Document.{
  Value, null, bool, int, float, str, arr, obj, Items, nil, cons, Fields, end, field,
}
use cube_idp.Pack.Errors.{PackError, substitution_missing}
use cube_idp.Pack.Substitute.{
  round, add_name, note_missing, expand_from, expand_from_step, expand, expand_value, expand_items,
  expand_fields, expand_objects, substitute,
}

-- The names that a text refers to. No variable is needed to find them.
unfoldable pub names_from : ℕ → Text → List Text
unfolding round
names_from passed [] = []
names_from (suc passed) (c ∷ s) = names_from passed s
names_from zero (c ∷ s) =
    let r = round [] c s in
    let rest = names_from r.passed s in elim r.resolved [ none ↦ rest | some name ↦ name ∷ rest ]

unfoldable mutual
  pub names_value : Value → List Text
  names_value null = []
  names_value (bool b) = []
  names_value (int i) = []
  names_value (float f) = []
  names_value (str s) = names_from 0 s
  names_value (arr l) = names_items l
  names_value (obj f) = names_fields f

  pub names_items : Items → List Text
  names_items nil = []
  names_items (cons v l) = names_value v ++ names_items l

  pub names_fields : Fields → List Text
  names_fields end = []
  names_fields (field k v f) = names_value v ++ names_fields f

unfoldable pub names_objects : List Fields → List Text
names_objects [] = []
names_objects (f ∷ objs) = names_fields f ++ names_objects objs

abbrev pub is_unset : Option Text → Bool
is_unset none = true
is_unset (some v) = false

-- What an expansion may do to the set of missing names: it adds the names that have no value.
pub record Notes (vars : Dict Text) (names before after : List Text) : Type 0 where
  pub members :
      (n : Text)
      → contains after n ≡ (contains before n || (contains names n && is_unset (find vars n)))
  pub distinct : IsNodup before → IsNodup after

Notes-none : (vars : Dict Text) (m : List Text) → Notes vars [] m m
unfolding contains
Notes-none vars m = record { members = λ n. ground arith; distinct = λ d. d }

Notes-append :
    (vars : Dict Text) (xs ys : List Text) {a b c : List Text}
    → Notes vars xs a b
    → Notes vars ys b c
    → Notes vars (xs ++ ys) a c
Notes-append vars xs ys p q = record {
  members = λ n. ground (arith, p.members n, q.members n, contains-append xs ys n);
  distinct = λ d. q.distinct (p.distinct d);
}

add_name-IsNodup : (m : List Text) (name : Text) → IsNodup m → IsNodup (add_name m name)
add_name-IsNodup m name d = elim (Bool-cases (contains m name)) [
  | inl old ↦ rw old d
  | inr new ↦ rw new (IsNodup-snoc m name d new)
]

contains-add_name :
    (m : List Text) (name n : Text) → contains (add_name m name) n ≡ (contains m n || (name == n))
unfolding contains
contains-add_name m name n = ground (arith, contains-append m (name ∷ []) n, ==_iff name n)

Notes-name :
    (vars : Dict Text) (m : List Text) (name : Text)
    → Notes vars (name ∷ []) m (note_missing vars m (some name))
unfolding contains note_missing
Notes-name vars m name = elim (Option-cases (find vars name)) [
  | inl e ↦
      rw (e, note_missing)
        (record {
          members = λ n. ground (arith, e, contains-add_name m name n, ==_iff name n);
          distinct = add_name-IsNodup m name;
        })
  | inr (v, e) ↦
      rw (e, note_missing)
        (record { members = λ n. ground (arith, e, ==_iff name n); distinct = λ d. d })
]

-- What a round resolves and passes over does not turn on the variables.
round_same :
    (vars : Dict Text) (c : ℕ) (s : Text)
    → ((round vars c s).passed ≡ (round [] c s).passed)
      × ((round vars c s).resolved ≡ (round [] c s).resolved)
unfolding round
round_same vars c s = ground arith

abbrev pub resolved_names : Option Text → List Text
resolved_names none = []
resolved_names (some name) = name ∷ []

Notes-resolved :
    (vars : Dict Text) (m : List Text) (o : Option Text)
    → Notes vars (resolved_names o) m (note_missing vars m o)
unfolding note_missing
Notes-resolved vars m none = Notes-none vars m
Notes-resolved vars m (some name) = Notes-name vars m name

pub names_from-round :
    (c : ℕ) (s : Text)
    → names_from 0 (c ∷ s)
      ≡ resolved_names (round [] c s).resolved ++ names_from (round [] c s).passed s
unfolding names_from
names_from-round c s = ground arith

pub names_from_passed :
    (passed c : ℕ) (s : Text) → names_from (suc passed) (c ∷ s) ≡ names_from passed s
unfolding names_from
names_from_passed passed c s = refl

expand_from_passed :
    (passed c : ℕ) (s : Text) (vars : Dict Text) (m : List Text)
    → expand_from (suc passed) (c ∷ s) vars m ≡ expand_from passed s vars m
unfolding expand_from
expand_from_passed passed c s vars m = refl

expand_from-Notes :
    (passed : ℕ) (s : Text) (vars : Dict Text) (m : List Text)
    → Notes vars (names_from passed s) m (expand_from passed s vars m).1
expand_from-Notes passed [] vars m = unfold names_from expand_from in Notes-none vars m
expand_from-Notes (suc passed) (c ∷ s) vars m =
    rw (names_from_passed passed c s, expand_from_passed passed c s vars m)
      (expand_from-Notes passed s vars m)
expand_from-Notes zero (c ∷ s) vars m =
    rw
      (
        names_from-round c s,
        ← (round_same vars c s).0,
        ← (round_same vars c s).1,
        expand_from_step c s vars m,
      )
      (Notes-append vars _ _ (Notes-resolved vars m (round vars c s).resolved) (
        expand_from-Notes (round vars c s).passed s vars
          (note_missing vars m (round vars c s).resolved)))

mutual
  unfolding expand_value names_value expand

  expand_value-Notes :
      (v : Value) (vars : Dict Text) (m : List Text)
      → Notes vars (names_value v) m (expand_value v vars m).1
  expand_value-Notes null vars m = Notes-none vars m
  expand_value-Notes (bool b) vars m = Notes-none vars m
  expand_value-Notes (int i) vars m = Notes-none vars m
  expand_value-Notes (float f) vars m = Notes-none vars m
  expand_value-Notes (str s) vars m = expand_from-Notes 0 s vars m
  expand_value-Notes (arr l) vars m = expand_items-Notes l vars m
  expand_value-Notes (obj f) vars m = expand_fields-Notes f vars m

  expand_items-Notes :
      (l : Items) (vars : Dict Text) (m : List Text)
      → Notes vars (names_items l) m (expand_items l vars m).1
  expand_items-Notes nil vars m = Notes-none vars m
  expand_items-Notes (cons v l) vars m =
      Notes-append vars (names_value v) (names_items l) (expand_value-Notes v vars m)
        (expand_items-Notes l vars (expand_value v vars m).1)

  expand_fields-Notes :
      (f : Fields) (vars : Dict Text) (m : List Text)
      → Notes vars (names_fields f) m (expand_fields f vars m).1
  expand_fields-Notes end vars m = Notes-none vars m
  expand_fields-Notes (field k v f) vars m =
      Notes-append vars (names_value v) (names_fields f) (expand_value-Notes v vars m)
        (expand_fields-Notes f vars (expand_value v vars m).1)

expand_objects-Notes :
    (objs : List Fields) (vars : Dict Text) (m : List Text)
    → Notes vars (names_objects objs) m (expand_objects objs vars m).1
unfolding expand_objects names_objects
expand_objects-Notes [] vars m = Notes-none vars m
expand_objects-Notes (f ∷ objs) vars m =
    Notes-append vars (names_fields f) (names_objects objs) (expand_fields-Notes f vars m)
      (expand_objects-Notes objs vars (expand_fields f vars m).1)

-- What an error says of the names that the objects refer to.
abbrev pub ReportsNames : Dict Text → (names : List Text) → Option PackError → Type 0
ReportsNames vars names none = (n : Text) → contains names n ≡ true → is_unset (find vars n) ≡ false
ReportsNames vars names (some e) =
    (missing : List Text) × (e ≡ substitution_missing missing)
    × (missing ≢ [])
    × IsSorted missing
    × IsNodup missing
    × ((n : Text) → contains missing n ≡ (contains names n && is_unset (find vars n)))

abbrev report : List Text → Option PackError
report [] = none
report (name ∷ names) = some (substitution_missing (sort_texts (name ∷ names)))

report_of_Notes :
    (vars : Dict Text) (names missing : List Text)
    → Notes vars names [] missing
    → ReportsNames vars names (report missing)
unfolding contains
report_of_Notes vars names [] h = λ n m. ground (arith, h.members n, m)
report_of_Notes vars names (x ∷ missing) h = (
  sort_texts (x ∷ missing),
  refl,
  (λ e. false≢true (
      ap (λ l. contains l x) (sym e)
      ∙ contains-sort_texts (x ∷ missing) x
      ∙ contains-head x missing)),
  sort_texts-IsSorted (x ∷ missing),
  sort_texts-IsNodup (x ∷ missing) (h.distinct tt),
  (λ n. contains-sort_texts (x ∷ missing) n ∙ h.members n),
)

-- The report, by the names that the objects hold.
pub substitute_names :
    (objs : List Fields) (vars : Dict Text)
    → ReportsNames vars (names_objects objs) (substitute objs vars).1
unfolding substitute
substitute_names objs vars =
    report_of_Notes vars (names_objects objs) (expand_objects objs vars []).1
      (expand_objects-Notes objs vars [])
