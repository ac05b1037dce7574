-- ===== src/Bootstrap/Polling.antt =====
-- What the waits of internal/bootstrap/wait.go and reconcile.go share: a pass over the pending
-- objects, which keeps those that are not done, repeated until none is left.
use cube_idp.Base.{
  ◌≡◌, refl, sym, ◌∙◌, ◌⊎◌, inl, inr, Bool, true, false, Option, none, some, List, [], ◌∷◌, subst,
  false≢true, Every, Result, Text, ok, err,
}
use cube_idp.Base.Document.{Fields}
use cube_idp.Bootstrap.Failures.{Failure, raw}
use cube_idp.Bootstrap.Client.{Condition, Polled, holds, fails, again, expired}

-- The check of one pending element: `none` when it is done, or what stays pending.
abbrev pub Check : Type 0 → Type 0 → Type 0
Check S A = A → S → S × Result Failure (Option A)

abbrev pub keep : {A : Type 0} → Option A → Result Failure (List A) → Result Failure (List A)
keep o (err e) = err e
keep none (ok rest) = ok rest
keep (some a) (ok rest) = ok (a ∷ rest)

abbrev pub is_empty : {A : Type 0} → List A → Bool
is_empty [] = true
is_empty (a ∷ xs) = false

module _ {S A : Type 0} (check : Check S A) where
  -- The loops of checkReady and checkReconciled.
  pub check_each : List A → S → S × Result Failure (List A)
  check_each [] s = (s, ok [])
  check_each (a ∷ xs) s =
      let (s', r) = check a s in
      elim r [
        | err e ↦ (s', err e)
        | ok o ↦ let (s'', rest) = check_each xs s' in (s'', keep o rest)
      ]

  -- The condition that both waits poll.
  pub poll_round : Condition S (List A)
  unfolding check_each
  poll_round pending s =
      let (s', r) = check_each pending s in
      elim r [
        | err e ↦ (s', (pending, err e))
        | ok remaining ↦ (s', (remaining, ok (is_empty remaining)))
      ]

-- The states that a wait passes through.
pub data Reaches {S A : Type 0} (passes : S → S → Type 0) (check : Check S A) : S → S → Type 0 where
  here : {s : S} → Reaches passes check s s
  checked : {s t : S} (a : A) → Reaches passes check (check a s).0 t → Reaches passes check s t
  passed : {s s' t : S} → passes s s' → Reaches passes check s' t → Reaches passes check s t

module _ {S A : Type 0} (passes : S → S → Type 0) (check : Check S A) (object_of : A → Fields)
    (IsPermanent : Failure → Type 0) where
  pub Reaches-trans :
      {s t u : S} → Reaches passes check s t → Reaches passes check t u → Reaches passes check s u
  Reaches-trans here r = r
  Reaches-trans (checked a q) r = checked a (Reaches-trans q r)
  Reaches-trans (passed p q) r = passed p (Reaches-trans q r)

  -- In a state that the wait passed through, the check found the object done.
  pub record Settled (s : S) (o : Fields) : Type 0 where
    pub state : S
    pub element : A
    pub reached : Reaches passes check s state
    pub is_object : object_of element ≡ o
    pub is_done : (check element state).1 ≡ ok none

  pub Settled-later : {s t : S} {o : Fields} → Reaches passes check s t → Settled t o → Settled s o
  Settled-later r h = record {
    state = h.state;
    element = h.element;
    reached = Reaches-trans r h.reached;
    is_object = h.is_object;
    is_done = h.is_done;
  }

  -- Why `b` is what is pending of `a`: nothing was checked, or in a state that the wait passed
  -- through, the check left it.
  pub data Stays (s : S) (a b : A) : Type 0 where
    unchecked : b ≡ a → Stays s a b
    checked_pending :
        (element : A) (state : S)
        → Reaches passes check s state
        → object_of element ≡ object_of a
        → (check element state).1 ≡ ok (some b)
        → Stays s a b

  Stays-later : {s t : S} {a b : A} → Reaches passes check s t → Stays t a b → Stays s a b
  Stays-later r (unchecked e) = unchecked e
  Stays-later r (checked_pending x state q o e) = checked_pending x state (Reaches-trans r q) o e

  Stays-trans :
      {s : S} {a b c : A} → object_of b ≡ object_of a → Stays s a b → Stays s b c → Stays s a c
  Stays-trans o (unchecked e) (unchecked e') = unchecked (e' ∙ e)
  Stays-trans {s} {a} o (checked_pending x state q k e) (unchecked e') =
      subst (λ z. Stays s a z) (sym e') (checked_pending x state q k e)
  Stays-trans o h (checked_pending x state q k e) = checked_pending x state q (k ∙ o) e

  -- Which of the elements are still pending, and why: the others are settled.
  pub data Left (s : S) : List A → List A → Type 0 where
    left_nil : Left s [] []
    settled : {a : A} {xs bs : List A} → Settled s (object_of a) → Left s xs bs → Left s (a ∷ xs) bs
    pending :
        {a b : A} {xs bs : List A}
        → object_of b ≡ object_of a
        → Stays s a b
        → Left s xs bs
        → Left s (a ∷ xs) (b ∷ bs)

  pub Left-later :
      {s t : S} {xs bs : List A} → Reaches passes check s t → Left t xs bs → Left s xs bs
  Left-later r left_nil = left_nil
  Left-later r (settled h l) = settled (Settled-later r h) (Left-later r l)
  Left-later r (pending e w l) = pending e (Stays-later r w) (Left-later r l)

  pub Left-all : (s : S) (xs : List A) → Left s xs xs
  Left-all s [] = left_nil
  Left-all s (a ∷ xs) = pending refl (unchecked refl) (Left-all s xs)

  Settled-of : {s : S} {o o' : Fields} → o ≡ o' → Settled s o → Settled s o'
  Settled-of {s} e h = subst (λ x. Settled s x) e h

  pub Left-trans : {s : S} {xs bs cs : List A} → Left s xs bs → Left s bs cs → Left s xs cs
  Left-trans left_nil m = m
  Left-trans (settled h l) m = settled h (Left-trans l m)
  Left-trans (pending e w l) (settled h m) = settled (Settled-of e h) (Left-trans l m)
  Left-trans (pending e w l) (pending e' w' m) =
      pending (e' ∙ e) (Stays-trans e w w') (Left-trans l m)

  pub Left-done : {s : S} {xs : List A} → Left s xs [] → Every (λ a. Settled s (object_of a)) xs
  Left-done left_nil = tt
  Left-done (settled h l) = (h, Left-done l)

  -- The laws of one check: it keeps the object, and all its errors are permanent.
  pub record IsCheck : Type 0 where
    pub keeps : (a b : A) (s : S) → (check a s).1 ≡ ok (some b) → object_of b ≡ object_of a
    pub permanent : (a : A) (s : S) (e : Failure) → (check a s).1 ≡ err e → IsPermanent e

  -- A pass.
  abbrev pub Passed : S → List A → S × Result Failure (List A) → Type 0
  Passed s xs (t, ok bs) = Reaches passes check s t × Left s xs bs
  Passed s xs (t, err e) = IsPermanent e

  check_each-Passed : (law : IsCheck) (xs : List A) (s : S) → Passed s xs (check_each check xs s)
  unfolding check_each
  check_each-Passed law [] s = (here, left_nil)
  check_each-Passed law (a ∷ xs) s =
      by_result (check a s).1 refl (check_each-Passed law xs (check a s).0)
    where
      by_rest :
          (o : Option A)
          → (check a s).1 ≡ ok o
          → (rest : S × Result Failure (List A)) → Passed (check a s).0 xs rest
          → Passed s (a ∷ xs) (rest.0, keep o rest.1)
      by_rest o e (t, err f) h = h
      by_rest none e (t, ok bs) h = (
        checked a h.0,
        settled (record { state = s; element = a; reached = here; is_object = refl; is_done = e })
            (Left-later (checked a here) h.1),
      )
      by_rest (some b) e (t, ok bs) h = (
        checked a h.0,
        pending (law.keeps a b s e) (checked_pending a s here refl e)
            (Left-later (checked a here) h.1),
      )

      by_result :
          (r : Result Failure (Option A))
          → (check a s).1 ≡ r
          → Passed (check a s).0 xs (check_each check xs (check a s).0)
          → Passed s (a ∷ xs) (elim r [
            | err e ↦ ((check a s).0, err e)
            | ok o ↦ (
              (check_each check xs (check a s).0).0,
              keep o (check_each check xs (check a s).0).1,
            )
          ])
      by_result (err f) e later = law.permanent a s f e
      by_result (ok o) e later = by_rest o e (check_each check xs (check a s).0) later

  -- A round, as the poll sees it.
  abbrev pub Round : S → List A → S × (List A × Result Failure Bool) → Type 0
  Round s xs (t, (bs, ok b)) = Reaches passes check s t × Left s xs bs × (is_empty bs ≡ b)
  Round s xs (t, (bs, err e)) = IsPermanent e

  poll_round-Round : (law : IsCheck) (xs : List A) (s : S) → Round s xs (poll_round check xs s)
  unfolding poll_round
  poll_round-Round law xs s = by_pass (check_each check xs s) (check_each-Passed law xs s)
    where
      by_pass :
          (r : S × Result Failure (List A))
          → Passed s xs r
          → Round s xs (elim r.1 [
            | err e ↦ (r.0, (xs, err e))
            | ok remaining ↦ (r.0, (remaining, ok (is_empty remaining)))
          ])
      by_pass (t, err e) h = h
      by_pass (t, ok bs) h = (h.0, h.1, refl)

  -- A wait: without an error every element is settled; an error is a permanent one,
  -- or the end of the context while something is pending.
  abbrev pub Waited : S → List A → S × (List A × Option Failure) → Type 0
  Waited s xs (t, (bs, none)) = Every (λ a. Settled s (object_of a)) xs
  Waited s xs (t, (bs, some e)) = (IsPermanent e) ⊎ ((why : Text) × (e ≡ raw why) × Left s xs bs)

  is_empty-nil : (bs : List A) → is_empty bs ≡ true → bs ≡ []
  is_empty-nil [] h = refl
  is_empty-nil (b ∷ bs) h = absurd (false≢true h)

  Waited-later :
      {s t : S} {xs bs : List A} (r : S × (List A × Option Failure))
      → Reaches passes check s t
      → Left s xs bs
      → Waited t bs r
      → Waited s xs r
  Waited-later {s} {t} (u, (cs, none)) q l h = Left-done (Left-trans l (all_settled _ h))
    where
      all_settled : (xs : List A) → Every (λ a. Settled t (object_of a)) xs → Left s xs []
      all_settled [] h = left_nil
      all_settled (x ∷ xs) h = settled (Settled-later q h.0) (all_settled xs h.1)
  Waited-later (u, (cs, some e)) q l (inl c) = inl c
  Waited-later (u, (cs, some e)) q l (inr (why, f, m)) = inr (why, f, Left-trans l (Left-later q m))

  pub Polled-Waited :
      (law : IsCheck) {xs : List A} {s : S} {r : S × (List A × Option Failure)}
      → Polled passes (poll_round check) xs s r
      → Waited s xs r
  Polled-Waited law {xs} {s} (holds {p' = bs} {s' = t} e) =
      let h = subst (λ x. Round s xs x) e (poll_round-Round law xs s) in
      Left-done (subst (λ x. Left s xs x) (is_empty-nil bs h.2) h.1)
  Polled-Waited law {xs} {s} (fails e) =
      inl (subst (λ x. Round s xs x) e (poll_round-Round law xs s))
  Polled-Waited law {xs} {s} (again {r = r} e p q) =
      let h = subst (λ x. Round s xs x) e (poll_round-Round law xs s) in
      Waited-later r (Reaches-trans h.0 (passed p here)) h.1 (Polled-Waited law q)
  Polled-Waited law {xs} {s} (expired why) = inr (why, refl, Left-all s xs)
