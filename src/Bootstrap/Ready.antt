-- ===== src/Bootstrap/Ready.antt =====
-- internal/bootstrap/wait.go: the wait until the objects of the bootstrap kind-set are ready.
pub mod Waited
use cube_idp.Base.{
  Bool, true, false, not, ◌||◌, Option, none, some, List, [], ◌∷◌, Result, ltb, eqb, if◌then◌else◌,
  Text, txt, ◌==◌, ok, err,
}
use cube_idp.Base.Document.{
  Integer, pos, negsuc, Value, obj, Items, nil, cons, Fields, nested_string, nested_int,
  nested_slice,
}
use cube_idp.Bootstrap.Failures.{Failure, object_kind, new_wait_error, terminal_poll_error}
use cube_idp.Bootstrap.Client.{Client, Applier, Action, get_object}
use cube_idp.Bootstrap.Polling.{Check, poll_round}

pub int_lt : Integer → Integer → Bool
int_lt (pos a) (pos b) = ltb a b
int_lt (pos a) (negsuc b) = false
int_lt (negsuc a) (pos b) = true
int_lt (negsuc a) (negsuc b) = ltb b a

abbrev pub value_or : Option Integer → Integer → Integer
value_or none i = i
value_or (some i) j = i

-- GetGeneration
abbrev pub generation_of : Fields → Integer
generation_of o = value_or (nested_int o (txt "metadata") (txt "generation" ∷ [])) (pos 0)

abbrev pub is_zero : Integer → Bool
is_zero (pos n) = eqb n 0
is_zero (negsuc n) = false

-- The status is of an older generation.
abbrev is_stale : Option Integer → Integer → Bool
is_stale none generation = false
is_stale (some observed) generation = int_lt observed generation

pub workload_ready : Fields → Bool
unfolding int_lt
workload_ready o =
    let desired = value_or (nested_int o (txt "spec") (txt "replicas" ∷ [])) (pos 1) in
    let ready = value_or (nested_int o (txt "status") (txt "readyReplicas" ∷ [])) (pos 0) in
    if is_stale (nested_int o (txt "status") (txt "observedGeneration" ∷ [])) (generation_of o)
    then false
    else if is_zero desired
    then true
    else not (int_lt ready desired)

-- The loop of conditionTrue.
pub first_condition : Items → (cond_type : Text) → Bool
first_condition nil cond_type = false
first_condition (cons (obj c) conds) cond_type =
    let rest = first_condition conds cond_type in
    if nested_string c (txt "type") [] == cond_type
    then nested_string c (txt "status") [] == txt "True"
    else rest
first_condition (cons v conds) cond_type = first_condition conds cond_type

pub condition_true : Fields → (cond_type : Text) → Bool
unfolding first_condition
condition_true o cond_type =
    first_condition (nested_slice o (txt "status") (txt "conditions" ∷ [])) cond_type

pub in_kind_set : Text → Bool
in_kind_set kind =
    (kind == txt "CustomResourceDefinition")
    || (kind == txt "Deployment")
    || (kind == txt "StatefulSet")
    || (kind == txt "Job")
    || (kind == txt "Namespace")

pub filter_kind_set : List Fields → List Fields
unfolding in_kind_set
filter_kind_set [] = []
filter_kind_set (o ∷ objs) =
    let rest = filter_kind_set objs in if in_kind_set (object_kind o) then o ∷ rest else rest

-- The switch of ready, on the declared kind and the live object.
pub ready_by_kind : (kind : Text) → Fields → Bool
unfolding condition_true workload_ready
ready_by_kind kind found =
    if kind == txt "CustomResourceDefinition"
    then condition_true found (txt "Established")
    else if (kind == txt "Deployment") || (kind == txt "StatefulSet")
    then workload_ready found
    else if kind == txt "Job"
    then condition_true found (txt "Complete")
    else if kind == txt "Namespace"
    then nested_string found (txt "status") (txt "phase" ∷ []) == txt "Active"
    else true

kept : Fields → Result Failure Bool → Result Failure (Option Fields)
kept o (err e) = err (terminal_poll_error o e)
kept o (ok is_ready) = if is_ready then ok none else ok (some o)

module _ {S : Type 0} where
  -- What ready makes of the read.
  read_ready : Client S → Fields → Result Failure Fields → Result Failure Bool
  unfolding ready_by_kind
  read_ready k o (err e) = if k.is_not_found e then ok false else err e
  read_ready k o (ok found) = ok (ready_by_kind (object_kind o) found)

  pub ready : Client S → Fields → S → S × Result Failure Bool
  unfolding read_ready
  ready k o s = let (s', r) = get_object k o s in (s', read_ready k o r)

  -- One object of a pass of checkReady.
  pub check_one_ready : Client S → Check S Fields
  unfolding ready kept
  check_one_ready k o s = let (s', r) = ready k o s in (s', kept o r)

  wait_result : (subject namespace : Text) → S × (List Fields × Option Failure) → S × Option Failure
  wait_result subject namespace (s, (pending, none)) = (s, none)
  wait_result subject namespace (s, (pending, some e)) =
      (s, some (new_wait_error subject namespace pending e))

  -- waitReady
  pub wait_ready_for : Applier S → List Fields → (subject : Text) → Action S
  unfolding wait_result check_one_ready filter_kind_set
  wait_ready_for a objs subject s =
      wait_result subject a.inv_ns
        (a.client.poll (poll_round (check_one_ready a.client)) (filter_kind_set objs) s)

  -- WaitReady
  abbrev pub wait_ready : Applier S → List Fields → Action S
  wait_ready a objs = wait_ready_for a objs (txt "bootstrap resources")
