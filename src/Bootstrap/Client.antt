-- ===== src/Bootstrap/Client.antt =====
-- internal/bootstrap/apply.go over the client-go interfaces that are injected. `S` is the state of
-- what is outside: the API server, the discovery cache, the context and the clock.
use cube_idp.Base.{
  ◌≡◌, Bool, true, false, Option, none, some, List, [], ◌∷◌, Result, if◌then◌else◌, Text, ok, err,
}
use cube_idp.Base.Document.{Fields}
use cube_idp.Bootstrap.Failures.{
  Failure, raw, object_version, object_kind, object_name, object_namespace, new_mapping_error,
  new_apply_error,
}

pub record Mapping : Type 0 where
  pub resource : Text
  pub is_namespaced : Bool

-- dynamic.ResourceInterface: a resource, within a namespace or not.
pub record ResourceClient : Type 0 where
  pub resource : Text
  pub within : Option Text

-- One round of a poll: the captured variable, and whether the condition holds.
abbrev pub Condition : Type 0 → Type 0 → Type 0
Condition S P = P → S → S × (P × Result Failure Bool)

-- What wait.PollUntilContextCancel may do with a condition: it returns at the first round that holds
-- or fails, and, between rounds or before the first, with the context's error.
pub data Polled {S P : Type 0} (passes : S → S → Type 0) (condition : Condition S P)
    : P → S → S × (P × Option Failure) → Type 0 where
  holds :
      {p p' : P} {s s' : S}
      → condition p s ≡ (s', (p', ok true))
      → Polled passes condition p s (s', (p', none))
  fails :
      {p p' : P} {s s' : S} {e : Failure}
      → condition p s ≡ (s', (p', err e))
      → Polled passes condition p s (s', (p', some e))
  again :
      {p p' : P} {s s' s'' : S} {r : S × (P × Option Failure)}
      → condition p s ≡ (s', (p', ok false))
      → passes s' s''
      → Polled passes condition p' s'' r
      → Polled passes condition p s r
  expired : {p : P} {s : S} (why : Text) → Polled passes condition p s (s, (p, some (raw why)))

-- The injected dynamic client and REST mapper, and what the code calls of apimachinery. `reset` is
-- `none` for a mapper without Reset; `passes` relates the states between two rounds of a poll.
pub record Client (S : Type 0) : Type 1 where
  pub rest_mapping_of : (version kind : Text) → S → S × Result Failure Mapping
  pub reset : Option (S → S)
  pub server_apply : ResourceClient → (name : Text) → Fields → S → S × Option Failure
  pub server_get : ResourceClient → (name : Text) → S → S × Result Failure Fields
  pub is_no_match : Failure → Bool
  pub is_not_found : Failure → Bool
  pub passes : S → S → Type 0
  pub poll : {P : Type 0} → Condition S P → P → S → S × (P × Option Failure)
  pub poll-Polled :
      {P : Type 0} (condition : Condition S P) (p : P) (s : S)
      → Polled passes condition p s (poll condition p s)

pub record Applier (S : Type 0) : Type 1 where
  pub client : Client S
  pub inv_ns : Text

abbrev pub Action : Type 0 → Type 0
Action S = S → S × Option Failure

-- What a call that may fail has left, and what follows if it did not fail.
abbrev pub follow : {S : Type 0} → S × Option Failure → Action S → S × Option Failure
follow (s, none) next = next s
follow (s, some e) next = (s, some e)

infixl 5 ◌then◌
abbrev pub ◌then◌ : {S : Type 0} → Action S → Action S → Action S
(first then next) s = follow (first s) next

abbrev pub done : {S : Type 0} → Action S
done s = (s, none)

module _ {S : Type 0} (k : Client S) where
  -- The mapping, consulted once more after a reset where the mapper has one.
  map_again : (version kind : Text) → S × Result Failure Mapping → S × Result Failure Mapping
  map_again version kind (s, ok mapping) = (s, ok mapping)
  map_again version kind (s, err e) = elim k.reset [
    | none ↦ (s, err e)
    | some refresh ↦ k.rest_mapping_of version kind (refresh s)
  ]

  scoped : Fields → Result Failure Mapping → Result Failure ResourceClient
  scoped o (err e) = err e
  scoped o (ok mapping) = ok (record {
    resource = mapping.resource;
    within = if mapping.is_namespaced then some (object_namespace o) else none;
  })

  pub raw_resource_for : Fields → S → S × Result Failure ResourceClient
  unfolding map_again scoped
  raw_resource_for o s =
      let (s', r) =
        map_again (object_version o) (object_kind o)
          (k.rest_mapping_of (object_version o) (object_kind o) s) in
      (s', scoped o r)

  coded_mapping : Fields → Result Failure ResourceClient → Result Failure ResourceClient
  coded_mapping o (ok rc) = ok rc
  coded_mapping o (err e) = err (new_mapping_error o e)

  pub resource_for : Fields → S → S × Result Failure ResourceClient
  unfolding raw_resource_for coded_mapping
  resource_for o s = let (s', r) = raw_resource_for o s in (s', coded_mapping o r)

  coded_apply : Fields → Option Failure → Option Failure
  coded_apply o none = none
  coded_apply o (some e) = some (new_apply_error o e)

  pub apply : Fields → S → S × Option Failure
  unfolding resource_for coded_apply
  apply o s =
      let (s', r) = resource_for o s in
      elim r [
        | err e ↦ (s', some e)
        | ok rc ↦ let (s'', e) = k.server_apply rc (object_name o) o s' in (s'', coded_apply o e)
      ]

  -- dynamicCluster.get
  pub get_object : Fields → S → S × Result Failure Fields
  unfolding resource_for
  get_object o s =
      let (s', r) = resource_for o s in
      elim r [ err e ↦ (s', err e) | ok rc ↦ k.server_get rc (object_name o) s' ]

  pub live : Fields → S → S × Result Failure Fields
  unfolding raw_resource_for
  live o s =
      let (s', r) = raw_resource_for o s in
      elim r [ err e ↦ (s', err e) | ok rc ↦ k.server_get rc (object_name o) s' ]

module _ {S : Type 0} where
  -- Applier.Apply
  pub apply_all : Applier S → List Fields → Action S
  unfolding apply
  apply_all a [] = done
  apply_all a (o ∷ objs) = apply a.client o then apply_all a objs
