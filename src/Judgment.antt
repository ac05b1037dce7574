-- ===== src/Judgment.antt =====
-- The judgment of a declared object, as internal/engine/flux/reconciled.go and
-- internal/gateway/predicates.go both have it: the same text but for the kinds that they recognize.
pub mod Current
mod Tests
use cube_idp.Base.{
  Bool, true, false, not, ◌||◌, Option, none, some, [], ◌∷◌, ◌++◌, Result, eqb, if◌then◌else◌, Text,
  txt, ◌==◌, ok, err,
}
use cube_idp.Base.Document.{
  Integer, pos, negsuc, Value, obj, Items, nil, cons, Fields, nested_string, nested_int,
  nested_slice,
}

-- The reason, by what it says.
pub data Reason : Type 0 where
  no_message : Reason
  no_ready_condition : Reason
  not_ready : Text → Reason
  no_observed_generation : Reason
  stale_status : (observed generation : Integer) → Reason

pub record UnrecognizedObject : Type 0 where
  pub api_version : Text
  pub kind : Text

abbrev pub api_version_of : Fields → Text
api_version_of o = nested_string o (txt "apiVersion") []

abbrev pub kind_of : Fields → Text
kind_of o = nested_string o (txt "kind") []

-- recognized of the flux driver.
pub recognized_by_flux : Fields → Bool
recognized_by_flux o =
    if api_version_of o == txt "source.toolkit.fluxcd.io/v1"
    then (kind_of o == txt "GitRepository") || (kind_of o == txt "OCIRepository")
    else if api_version_of o == txt "kustomize.toolkit.fluxcd.io/v1"
    then kind_of o == txt "Kustomization"
    else false

-- recognized of the gateway domain.
pub recognized_by_gateway : Fields → Bool
recognized_by_gateway o =
    if api_version_of o == txt "source.toolkit.fluxcd.io/v1"
    then kind_of o == txt "OCIRepository"
    else if api_version_of o == txt "helm.toolkit.fluxcd.io/v2"
    then kind_of o == txt "HelmRelease"
    else false

appended : (out part : Text) → Text
appended out part = if not (part == []) then out ++ (txt ": " ++ part) else out

pub describe_condition : (status : Text) → Fields → Text
unfolding appended
describe_condition status cond =
    appended (appended (txt "Ready=" ++ status) (nested_string cond (txt "reason") []))
      (nested_string cond (txt "message") [])

-- The loop of readyCondition; `none` is found=false.
pub first_ready : Items → Option (Text × Text)
unfolding describe_condition
first_ready nil = none
first_ready (cons (obj c) conds) =
    let rest = first_ready conds in
    let status = nested_string c (txt "status") [] in
    if nested_string c (txt "type") [] == txt "Ready"
    then some (status, describe_condition status c)
    else rest
first_ready (cons v conds) = first_ready conds

pub ready_condition : Fields → Option (Text × Text)
unfolding first_ready
ready_condition o = first_ready (nested_slice o (txt "status") (txt "conditions" ∷ []))

pub same_int : Integer → Integer → Bool
same_int (pos a) (pos b) = eqb a b
same_int (pos a) (negsuc b) = false
same_int (negsuc a) (pos b) = false
same_int (negsuc a) (negsuc b) = eqb a b

abbrev generation_or : Option Integer → Integer
generation_or none = pos 0
generation_or (some i) = i

-- GetGeneration
abbrev pub generation_of : Fields → Integer
generation_of o = generation_or (nested_int o (txt "metadata") (txt "generation" ∷ []))

-- The second switch of Reconciled, on status.observedGeneration.
judge_generation : (generation : Integer) → Option Integer → Bool × Reason
unfolding same_int
judge_generation generation none = (false, no_observed_generation)
judge_generation generation (some observed) =
    if not (same_int observed generation)
    then (false, stale_status observed generation)
    else (true, no_message)

-- Its first switch.
judge_ready : Fields → Option (Text × Text) → Bool × Reason
unfolding judge_generation
judge_ready o none = (false, no_ready_condition)
judge_ready o (some (status, reason)) =
    if not (status == txt "True")
    then (false, not_ready reason)
    else judge_generation (generation_of o)
        (nested_int o (txt "status") (txt "observedGeneration" ∷ []))

pub reconciled : (recognized : Fields → Bool) → Fields → Result UnrecognizedObject (Bool × Reason)
unfolding judge_ready ready_condition
reconciled recognized o =
    if not (recognized o)
    then err (record { api_version = api_version_of o; kind = kind_of o })
    else ok (judge_ready o (ready_condition o))
