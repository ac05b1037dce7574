-- ===== src/Api/Prerequisites.antt =====
-- api/config/v1alpha1/prerequisite_types.go and prerequisite_validation.go.
pub mod Valid
use cube_idp.Base.{
  ℕ, suc, Bool, not, ◌&&◌, ◌||◌, none, some, List, [], ◌∷◌, ◌++◌, Dict, find, put, trim_space,
  if◌then◌else◌, Text, txt, ◌==◌,
}
use cube_idp.Api.{PrerequisiteSpec}
use cube_idp.Api.Errors.{
  FieldPath, FieldError, required, duplicate, forbidden, child, index, is_token, validate_ref_token,
  both_iff,
}

pub is_built_in : (name : Text) → Bool
is_built_in name = (name == txt "gateway-platform") || (name == txt "ca-secrets")

pub is_well_known : (name : Text) → Bool
unfolding is_built_in
is_well_known name =
    is_built_in name || (name == txt "gateway-api-crds") || (name == txt "traefik-gateway")

unfoldable pub default_prerequisites : List PrerequisiteSpec
default_prerequisites =
    record { name = txt "gateway-platform"; ref = [] }
    ∷ record { name = txt "gateway-api-crds"; ref = [] }
    ∷ record { name = txt "ca-secrets"; ref = [] }
    ∷ record { name = txt "traefik-gateway"; ref = [] }
    ∷ []

abbrev pub is_blank : Text → Bool
is_blank s = trim_space s == []

-- What validatePrerequisite appends behind the reference's errors.
unit_rules : FieldPath → PrerequisiteSpec → List FieldError
unfolding is_built_in is_well_known
unit_rules path u =
    if is_blank u.name
    then required (path ++ child (txt "name") ∷ []) ∷ []
    else if is_built_in u.name && not (u.ref == [])
    then forbidden (path ++ child (txt "ref") ∷ []) ∷ []
    else if not (is_well_known u.name) && (u.ref == [])
    then required (path ++ child (txt "ref") ∷ []) ∷ []
    else []

ref_rules : FieldPath → (ref : Text) → List FieldError
ref_rules path ref =
    if not (ref == []) then validate_ref_token (path ++ child (txt "ref") ∷ []) ref else []

pub validate_prerequisite : FieldPath → PrerequisiteSpec → List FieldError
unfolding unit_rules ref_rules
validate_prerequisite path u = ref_rules path u.ref ++ unit_rules path u

-- What the loop of validatePrerequisites reports of a name, and the map after it.
duplicate_name : Dict ℕ → ℕ → FieldPath → (name : Text) → List FieldError
duplicate_name seen i path name = if is_blank name then [] else elim (find seen name) [
  | none ↦ []
  | some first ↦ duplicate (path ++ child (txt "name") ∷ []) name first ∷ []
]

note_name : Dict ℕ → ℕ → (name : Text) → Dict ℕ
note_name seen i name =
    if is_blank name
    then seen
    else elim (find seen name) [ none ↦ put seen name i | some first ↦ seen ]

abbrev pub prerequisites_path : FieldPath
prerequisites_path = child (txt "spec") ∷ child (txt "prerequisites") ∷ []

pub validate_units : Dict ℕ → ℕ → List PrerequisiteSpec → List FieldError
unfolding validate_prerequisite duplicate_name note_name
validate_units seen i [] = []
validate_units seen i (u ∷ units) =
    let path = prerequisites_path ++ index i ∷ [] in
    validate_prerequisite path u
    ++ (duplicate_name seen i path u.name ++ validate_units (note_name seen i u.name) (suc i) units)

pub validate_prerequisites : List PrerequisiteSpec → List FieldError
unfolding validate_units
validate_prerequisites units = validate_units [] 0 units
