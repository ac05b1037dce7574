-- ===== src/Api/Prerequisites/Valid.antt =====
-- Which prerequisite lists api/config/v1alpha1/prerequisite_validation.go accepts.
use cube_idp.Base.{
  ℕ, suc, ◌≡◌, refl, sym, ◌≢◌, ◌↔◌, ◌⊎◌, true, false, none, List, [], ◌∷◌, ◌++◌, map, arith, subst,
  Every, contains, IsNodup, Dict, find, put, find-put, Text, ==_iff,
}
use cube_idp.Api.{PrerequisiteSpec}
use cube_idp.Api.Errors.{FieldPath, index, is_token, validate_ref_token, append-nil_iff, both_iff}
use cube_idp.Api.Prerequisites.{
  is_built_in, is_well_known, is_blank, unit_rules, ref_rules, validate_prerequisite,
  duplicate_name, note_name, prerequisites_path, validate_units, validate_prerequisites,
}

-- A name that is not blank; a built-in unit without a reference, a unit that the cube does not ship
-- with one.
pub record IsValidUnit (u : PrerequisiteSpec) : Type 0 where
  pub token : (u.ref ≡ []) ⊎ (is_token u.ref ≡ true)
  pub named : is_blank u.name ≡ false
  pub built_in : is_built_in u.name ≡ true → u.ref ≡ []
  pub shipped : is_well_known u.name ≡ false → u.ref ≢ []

ref_rules_iff :
    (path : FieldPath) (ref : Text)
    → (ref_rules path ref ≡ []) ↔ ((ref ≡ []) ⊎ (is_token ref ≡ true))
unfolding ref_rules validate_ref_token
ref_rules_iff path ref = ground (arith, ==_iff ref [])

unit_rules_iff :
    (path : FieldPath) (u : PrerequisiteSpec)
    → (unit_rules path u ≡ []) ↔ (
        (is_blank u.name ≡ false)
        × (is_built_in u.name ≡ true → u.ref ≡ [])
        × (is_well_known u.name ≡ false → u.ref ≢ []))
unfolding unit_rules
unit_rules_iff path u = ground (arith, ==_iff u.ref [])

validate_prerequisite_iff :
    (path : FieldPath) (u : PrerequisiteSpec) → (validate_prerequisite path u ≡ []) ↔ IsValidUnit u
unfolding validate_prerequisite
validate_prerequisite_iff path u =
    let both =
      both_iff (ref_rules path u.ref) (unit_rules path u) (ref_rules_iff path u.ref)
        (unit_rules_iff path u) in
    (
      (λ h.
          let (t, (n, b, w)) = both.0 h in
          record { token = t; named = n; built_in = b; shipped = w }),
      (λ v. both.1 (v.token, (v.named, v.built_in, v.shipped))),
    )

-- The loop: the names taken before do not come again.
abbrev Accepted : Dict ℕ → List PrerequisiteSpec → Type 0
Accepted seen units =
    Every IsValidUnit units
    × IsNodup (map (λ u. u.name) units)
    × Every (λ u. find seen u.name ≡ none) units

duplicate_name_iff :
    (seen : Dict ℕ) (i : ℕ) (path : FieldPath) (name : Text)
    → is_blank name ≡ false
    → (duplicate_name seen i path name ≡ []) ↔ (find seen name ≡ none)
unfolding duplicate_name
duplicate_name_iff seen i path name h = ground (arith, h)

note_name-put :
    (seen : Dict ℕ) (i : ℕ) (name : Text)
    → is_blank name ≡ false
    → find seen name ≡ none
    → note_name seen i name ≡ put seen name i
unfolding note_name
note_name-put seen i name h f = ground (arith, h, f)

abbrev names : List PrerequisiteSpec → List Text
names units = map (λ u. u.name) units

-- The names that are free after one more is taken.
free_put :
    (seen : Dict ℕ) (name : Text) (i : ℕ) (units : List PrerequisiteSpec)
    → Every (λ u. find (put seen name i) u.name ≡ none) units
      ↔ ((contains (names units) name ≡ false) × Every (λ u. find seen u.name ≡ none) units)
unfolding contains
free_put seen name i [] = ((λ h. (refl, tt)), (λ h. tt))
free_put seen name i (u ∷ units) =
    let rest = free_put seen name i units in
    (
      (λ h.
          let (absent, free) = rest.0 h.1 in
          (
            ground (
              arith,
              h.0,
              absent,
              find-put seen name u.name i,
              ==_iff name u.name,
              ==_iff u.name name,
            ),
            (ground (arith, h.0, find-put seen name u.name i), free),
          )),
      (λ h. (
        ground (
          arith,
          h.0,
          h.1.0,
          find-put seen name u.name i,
          ==_iff name u.name,
          ==_iff u.name name,
        ),
        rest.1 (ground (arith, h.0), h.1.1),
      )),
    )

validate_units_iff :
    (seen : Dict ℕ) (i : ℕ) (units : List PrerequisiteSpec)
    → (validate_units seen i units ≡ []) ↔ Accepted seen units
unfolding validate_units
validate_units_iff seen i [] = ((λ h. (tt, tt, tt)), (λ h. refl))
validate_units_iff seen i (u ∷ units) =
    let path = prerequisites_path ++ index i ∷ [] in
    let later = validate_units (note_name seen i u.name) (suc i) units in
    let unit = validate_prerequisite_iff path u in
    let rest : (later ≡ []) ↔ Accepted (note_name seen i u.name) units =
      validate_units_iff (note_name seen i u.name) (suc i) units in
    let all =
      both_iff (validate_prerequisite path u) (duplicate_name seen i path u.name ++ later) unit
        (append-nil_iff (duplicate_name seen i path u.name) later) in
    (
      (λ h.
          let (v, (d, l)) = all.0 h in
          let f : find seen u.name ≡ none = (duplicate_name_iff seen i path u.name v.named).0 d in
          let (valid, distinct, free) = rest.0 l in
          let (absent, free') = (free_put seen u.name i units).0 (
            subst (λ m. Every (λ w. find m w.name ≡ none) units)
              (note_name-put seen i u.name v.named f) free) in
          ((v, valid), (absent, distinct), (f, free'))),
      (λ h.
          let v = h.0.0 in
          let f = h.2.0 in
          let free = (free_put seen u.name i units).1 (h.1.0, h.2.1) in
          all.1 (
            v,
            (
              (duplicate_name_iff seen i path u.name v.named).1 f,
              rest.1 (
                h.0.1,
                h.1.1,
                subst (λ m. Every (λ w. find m w.name ≡ none) units)
                    (sym (note_name-put seen i u.name v.named f)) free,
              ),
            ),
          )),
    )

-- A list of units without an error: each unit is valid, and no name stands twice.
abbrev pub AreValidUnits : List PrerequisiteSpec → Type 0
AreValidUnits units = Every IsValidUnit units × IsNodup (map (λ u. u.name) units)

none_taken : (units : List PrerequisiteSpec) → Every (λ u. find {V = ℕ} [] u.name ≡ none) units
unfolding find
none_taken [] = tt
none_taken (u ∷ units) = (refl, none_taken units)

-- validatePrerequisites finds nothing exactly if every unit has a name that is not blank and a
-- well-formed reference or none, built-in units have none, units that the cube does not ship have
-- one, and no name stands twice.
pub validate_prerequisites_iff :
    (units : List PrerequisiteSpec) → (validate_prerequisites units ≡ []) ↔ AreValidUnits units
unfolding validate_prerequisites
validate_prerequisites_iff units =
    let all = validate_units_iff [] 0 units in
    ((λ h. let (v, d, f) = all.0 h in (v, d)), (λ h. all.1 (h.0, h.1, none_taken units)))
