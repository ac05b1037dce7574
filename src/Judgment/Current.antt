-- ===== src/Judgment/Current.antt =====
-- When an object is judged reconciled (internal/engine/flux/reconciled.go,
-- internal/gateway/predicates.go).
use cube_idp.Base.{
  ◌≡◌, refl, sym, ap, ◌∙◌, ◌↔◌, Bool, true, false, Option, none, some, List, [], ◌∷◌, arith, subst,
  false≢true, Every, Result, ok≢err, if◌then◌else◌, Text, txt, ◌==◌, ==_iff, ok, err,
}
use cube_idp.Base.Document.{
  Integer, pos, negsuc, Value, null, bool, int, float, str, arr, obj, Items, nil, cons, Fields,
  nested_string, nested_int, nested_slice,
}
use cube_idp.Judgment.{
  Reason, UnrecognizedObject, describe_condition, first_ready, ready_condition, same_int,
  generation_of, judge_generation, judge_ready, reconciled,
}

-- The condition is a mapping of the type Ready.
abbrev pub IsReadyType : Value → Type 0
IsReadyType (obj c) = nested_string c (txt "type") [] ≡ txt "Ready"
IsReadyType v = ⊥

abbrev pub prepend : List Value → Items → Items
prepend [] conds = conds
prepend (v ∷ front) conds = cons v (prepend front conds)

-- The first condition of the type Ready has the status True.
abbrev pub IsReadyNow : Items → Type 0
IsReadyNow conds =
    (front : List Value) × (c : Fields) × (back : Items) × (conds
      ≡ prepend front (cons (obj c) back))
    × Every (λ v. ¬ IsReadyType v) front
    × (nested_string c (txt "type") [] ≡ txt "Ready")
    × (nested_string c (txt "status") [] ≡ txt "True")

-- The status is of the latest spec.
abbrev pub IsCurrent : Fields → Type 0
IsCurrent o = nested_int o (txt "status") (txt "observedGeneration" ∷ []) ≡ some (generation_of o)

same_int_iff : (a b : Integer) → (same_int a b ≡ true) ↔ (a ≡ b)
unfolding same_int
same_int_iff (pos a) (pos b) = ground arith
same_int_iff (pos a) (negsuc b) = ground arith
same_int_iff (negsuc a) (pos b) = ground arith
same_int_iff (negsuc a) (negsuc b) = ground arith

judge_generation_iff :
    (generation : Integer) (o : Option Integer)
    → ((judge_generation generation o).0 ≡ true) ↔ (o ≡ some generation)
unfolding judge_generation
judge_generation_iff generation none = ground arith
judge_generation_iff generation (some observed) = ground (arith, same_int_iff observed generation)

-- What is asked of the condition that was found.
abbrev IsTrue : Option (Text × Text) → Type 0
IsTrue none = ⊥
IsTrue (some (status, reason)) = status ≡ txt "True"

judge_ready_iff :
    (o : Fields) (found : Option (Text × Text))
    → ((judge_ready o found).0 ≡ true) ↔ (IsTrue found × IsCurrent o)
unfolding judge_ready
judge_ready_iff o none = ((λ h. absurd (false≢true h)), (λ h. elim h.0 [ ]))
judge_ready_iff o (some (status, reason)) = ground (
  arith,
  ==_iff status (txt "True"),
  judge_generation_iff (generation_of o)
      (nested_int o (txt "status") (txt "observedGeneration" ∷ [])),
)

-- One condition more in front that is not of the type Ready.
IsReadyNow-cons :
    (v : Value) (conds : Items) → ¬ IsReadyType v → IsReadyNow conds → IsReadyNow (cons v conds)
IsReadyNow-cons v conds n (front, c, back, s, others, t, u) =
    (v ∷ front, c, back, ap (cons v) s, (n, others), t, u)

first_ready-IsReadyNow : (conds : Items) → IsTrue (first_ready conds) → IsReadyNow conds
unfolding first_ready
first_ready-IsReadyNow nil h = elim h [ ]
first_ready-IsReadyNow (cons (obj c) conds) h =
    by_type (nested_string c (txt "type") [] == txt "Ready") refl h
      (λ k. first_ready-IsReadyNow conds k)
  where
    by_type :
        (b : Bool)
        → (nested_string c (txt "type") [] == txt "Ready") ≡ b
        → IsTrue (
            if b
            then some (
              nested_string c (txt "status") [],
              describe_condition (nested_string c (txt "status") []) c,
            )
            else first_ready conds)
        → (IsTrue (first_ready conds) → IsReadyNow conds)
        → IsReadyNow (cons (obj c) conds)
    by_type true e k later =
        ([], c, conds, refl, tt, (==_iff (nested_string c (txt "type") []) (txt "Ready")).0 e, k)
    by_type false e k later =
        IsReadyNow-cons (obj c) conds
          (λ z. false≢true (sym e ∙ (==_iff (nested_string c (txt "type") []) (txt "Ready")).1 z))
          (later k)
first_ready-IsReadyNow (cons null conds) h =
    IsReadyNow-cons null conds (λ z. z) (first_ready-IsReadyNow conds h)
first_ready-IsReadyNow (cons (bool b) conds) h =
    IsReadyNow-cons (bool b) conds (λ z. z) (first_ready-IsReadyNow conds h)
first_ready-IsReadyNow (cons (int i) conds) h =
    IsReadyNow-cons (int i) conds (λ z. z) (first_ready-IsReadyNow conds h)
first_ready-IsReadyNow (cons (float f) conds) h =
    IsReadyNow-cons (float f) conds (λ z. z) (first_ready-IsReadyNow conds h)
first_ready-IsReadyNow (cons (str s) conds) h =
    IsReadyNow-cons (str s) conds (λ z. z) (first_ready-IsReadyNow conds h)
first_ready-IsReadyNow (cons (arr l) conds) h =
    IsReadyNow-cons (arr l) conds (λ z. z) (first_ready-IsReadyNow conds h)

first_ready-prepend :
    (front : List Value) (c : Fields) (back : Items)
    → Every (λ v. ¬ IsReadyType v) front
    → nested_string c (txt "type") [] ≡ txt "Ready"
    → nested_string c (txt "status") [] ≡ txt "True"
    → IsTrue (first_ready (prepend front (cons (obj c) back)))
unfolding first_ready
first_ready-prepend [] c back others t u =
    rw ((==_iff (nested_string c (txt "type") []) (txt "Ready")).1 t) u
first_ready-prepend (obj d ∷ front) c back others t u =
    let e : (nested_string d (txt "type") [] == txt "Ready") ≡ false =
      ground (arith, others.0, ==_iff (nested_string d (txt "type") []) (txt "Ready")) in
    rw e (first_ready-prepend front c back others.1 t u)
first_ready-prepend (null ∷ front) c back others t u = first_ready-prepend front c back others.1 t u
first_ready-prepend (bool b ∷ front) c back others t u =
    first_ready-prepend front c back others.1 t u
first_ready-prepend (int i ∷ front) c back others t u =
    first_ready-prepend front c back others.1 t u
first_ready-prepend (float f ∷ front) c back others t u =
    first_ready-prepend front c back others.1 t u
first_ready-prepend (str s ∷ front) c back others t u =
    first_ready-prepend front c back others.1 t u
first_ready-prepend (arr l ∷ front) c back others t u =
    first_ready-prepend front c back others.1 t u

-- The conditions that an object reports.
abbrev pub conditions_of : Fields → Items
conditions_of o = nested_slice o (txt "status") (txt "conditions" ∷ [])

ready_condition_iff : (o : Fields) → IsTrue (ready_condition o) ↔ IsReadyNow (conditions_of o)
unfolding ready_condition
ready_condition_iff o = (
  first_ready-IsReadyNow (conditions_of o),
  λ h.
      let (front, c, back, s, others, t, u) = h in
      subst (λ l. IsTrue (first_ready l)) (sym s) (first_ready-prepend front c back others t u),
)

-- The judgment without its reason.
abbrev pub verdict : Result UnrecognizedObject (Bool × Reason) → Result UnrecognizedObject Bool
verdict (ok (b, reason)) = ok b
verdict (err e) = err e

-- An object is judged reconciled exactly if its kind is recognized, the first of its conditions of the
-- type Ready has the status True, and its observed generation is its generation.
pub reconciled_iff :
    (recognized : Fields → Bool) (o : Fields)
    → (verdict (reconciled recognized o) ≡ ok true)
      ↔ ((recognized o ≡ true) × IsReadyNow (conditions_of o) × IsCurrent o)
unfolding reconciled
reconciled_iff recognized o = by_kind (recognized o) refl
  where
    by_kind :
        (known : Bool)
        → recognized o ≡ known
        → (verdict (reconciled recognized o) ≡ ok true)
          ↔ ((recognized o ≡ true) × IsReadyNow (conditions_of o) × IsCurrent o)
    by_kind true e =
        let both = judge_ready_iff o (ready_condition o) in
        let ready = ready_condition_iff o in
        rw e (
          (λ h.
              let w : (judge_ready o (ready_condition o)).0 ≡ true = cc in
              let (t, c) = both.0 w in (refl, ready.0 t, c)),
          (λ h. ap ok (both.1 (ready.1 h.1, h.2))),
        )
    by_kind false e = rw e ((λ h. absurd (ok≢err (sym h))), (λ h. absurd (false≢true h.0)))
