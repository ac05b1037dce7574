-- ===== src/Bootstrap/Reconcile/Waited.antt =====
-- What the wait of internal/bootstrap/reconcile.go has seen when it returns.
use cube_idp.Base.{
  ◌≡◌, refl, sym, ap, ◌∙◌, ◌⊎◌, inl, inr, Bool, true, false, Option, none, some, List, [], ◌∷◌,
  subst, Every, Result, if◌then◌else◌, Text, txt, ok, err,
}
use cube_idp.Base.Document.{Fields}
use cube_idp.Bootstrap.Failures.{
  Failure, raw, reconcile_timeout, is_coded, PendingObject, new_reconcile_wait_error,
  new_reconcile_wait_error-coded, new_reconcile_wait_error-raw, terminal_poll_error,
  is_coded-terminal_poll_error,
}
use cube_idp.Bootstrap.Client.{Client, Applier, live}
use cube_idp.Bootstrap.Polling.{
  Check, poll_round, Reaches, Settled, Left, left_nil, settled, Stays, unchecked, checked_pending,
  IsCheck, Waited, Polled-Waited,
}
use cube_idp.Bootstrap.Reconcile.{
  ReconciledFunc, transient_poll_reason, judged, unread, looked_at, check_one_reconciled,
  not_polled, wait_result, wait_reconciled_for,
}

module _ {S : Type 0} (k : Client S) (judge : ReconciledFunc) where
  abbrev check : Check S PendingObject
  check = check_one_reconciled k judge

  -- In a state that the wait passed through, the live object was judged reconciled.
  pub record SeenReconciled (s : S) (o : Fields) : Type 0 where
    pub state : S
    pub found : Fields
    pub reason : Text
    pub reached : Reaches k.passes (check_one_reconciled k judge) s state
    pub read : (live k o state).1 ≡ ok found
    pub verdict : judge found ≡ ok (true, reason)

  -- An error that waiting cannot fix: of the read, or of the judgment.
  pub data IsPermanent : Failure → Type 0 where
    unreadable :
        (o : Fields) (s : S) {cause : Failure}
        → (live k o s).1 ≡ err cause
        → k.is_no_match cause ≡ false
        → k.is_not_found cause ≡ false
        → IsPermanent (terminal_poll_error o cause)
    unjudged :
        (o : Fields) (s : S) {found : Fields} {cause : Failure}
        → (live k o s).1 ≡ ok found
        → judge found ≡ err cause
        → IsPermanent (terminal_poll_error o cause)

  -- Why an object is still pending, with the reason that a timeout gives: the one it starts with; or
  -- in a state that the wait passed through, its kind was not served, or it was not there, or it
  -- was judged not reconciled.
  pub data SeenPending (s : S) (o : Fields) : (reason : Text) → Type 0 where
    not_polled_yet : SeenPending s o (txt "not polled yet")
    not_served :
        (state : S) {cause : Failure}
        → Reaches k.passes (check_one_reconciled k judge) s state
        → (live k o state).1 ≡ err cause
        → k.is_no_match cause ≡ true
        → SeenPending s o (txt "kind not served by the cluster yet")
    not_created :
        (state : S) {cause : Failure}
        → Reaches k.passes (check_one_reconciled k judge) s state
        → (live k o state).1 ≡ err cause
        → k.is_no_match cause ≡ false
        → k.is_not_found cause ≡ true
        → SeenPending s o (txt "object not created yet")
    not_reconciled :
        (state : S) {found : Fields} {reason : Text}
        → Reaches k.passes (check_one_reconciled k judge) s state
        → (live k o state).1 ≡ ok found
        → judge found ≡ ok (false, reason)
        → SeenPending s o reason

  -- The objects that a timeout lists: every other object was seen reconciled.
  pub data Awaited (s : S) : List Fields → List PendingObject → Type 0 where
    awaited_nil : Awaited s [] []
    reconciled :
        {o : Fields} {objs : List Fields} {pending : List PendingObject}
        → SeenReconciled s o
        → Awaited s objs pending
        → Awaited s (o ∷ objs) pending
    still_pending :
        {o : Fields} {p : PendingObject} {objs : List Fields} {pending : List PendingObject}
        → p.object ≡ o
        → SeenPending s o p.reason
        → Awaited s objs pending
        → Awaited s (o ∷ objs) (p ∷ pending)

  -- What one check means, by what it read.
  abbrev Checked : PendingObject → S → Result Failure (Option PendingObject) → Type 0
  Checked p s (err e) = IsPermanent e
  Checked p s (ok none) =
      (found : Fields) × (reason : Text) × ((live k p.object s).1 ≡ ok found)
      × (judge found ≡ ok (true, reason))
  Checked p s (ok (some q)) =
      (q.object ≡ p.object)
      × ((before : S)
          → Reaches k.passes (check_one_reconciled k judge) before s
          → SeenPending before p.object q.reason)

  check_one_reconciled-Checked : (p : PendingObject) (s : S) → Checked p s (check p s).1
  unfolding check_one_reconciled looked_at judged unread transient_poll_reason
  check_one_reconciled-Checked p s = by_read (live k p.object s).1 refl
    where
      by_reason :
          (e : Failure) (unserved missing : Bool)
          → (live k p.object s).1 ≡ err e
          → k.is_no_match e ≡ unserved
          → k.is_not_found e ≡ missing
          → Checked p s (
              unread k p e (
                if unserved
                then some (txt "kind not served by the cluster yet")
                else if missing
                then some (txt "object not created yet")
                else none))
      by_reason e true missing h t u = (refl, (λ b q. not_served s q h t))
      by_reason e false true h t u = (refl, (λ b q. not_created s q h t u))
      by_reason e false false h t u = unreadable p.object s h t u

      by_verdict :
          (found : Fields) (r : Result Failure (Bool × Text))
          → (live k p.object s).1 ≡ ok found
          → judge found ≡ r
          → Checked p s (judged k p r)
      by_verdict found (err e) h v = unjudged p.object s h v
      by_verdict found (ok (true, reason)) h v = (found, reason, h, v)
      by_verdict found (ok (false, reason)) h v = (refl, (λ b q. not_reconciled s q h v))

      by_read :
          (r : Result Failure Fields)
          → (live k p.object s).1 ≡ r
          → Checked p s (looked_at k judge p r)
      by_read (err e) h = by_reason e (k.is_no_match e) (k.is_not_found e) h refl refl
      by_read (ok found) h = by_verdict found (judge found) h refl

  abbrev of_pending : PendingObject → Fields
  of_pending p = p.object

  check-IsCheck : IsCheck k.passes check of_pending IsPermanent
  check-IsCheck = record {
    keeps = λ p q s e. (subst (λ r. Checked p s r) e (check_one_reconciled-Checked p s)).0;
    permanent = λ p s f e. subst (λ r. Checked p s r) e (check_one_reconciled-Checked p s);
  }

  SeenReconciled-Settled :
      (s : S) (o : Fields) → Settled k.passes check of_pending IsPermanent s o → SeenReconciled s o
  SeenReconciled-Settled s o h =
      let (found, reason, read, verdict) =
        subst (λ r. Checked h.element h.state r) h.is_done
          (check_one_reconciled-Checked h.element h.state) in
      record {
        state = h.state;
        found = found;
        reason = reason;
        reached = h.reached;
        read = subst (λ x. (live k x h.state).1 ≡ ok found) h.is_object read;
        verdict = verdict;
      }

  IsPermanent-coded : (e : Failure) → IsPermanent e → is_coded e ≡ true
  IsPermanent-coded _ (unreadable o s {cause = cause} h t u) = is_coded-terminal_poll_error o cause
  IsPermanent-coded _ (unjudged o s {cause = cause} h v) = is_coded-terminal_poll_error o cause

  -- Success: all were seen reconciled. An error: a permanent one, just as it was raised; or a
  -- timeout that lists what is still pending, while all others were seen reconciled.
  abbrev pub Reconciled : (subject : Text) → List Fields → S → S × Option Failure → Type 0
  Reconciled subject objs s (t, none) = Every (SeenReconciled s) objs
  Reconciled subject objs s (t, some e) =
      IsPermanent e
      ⊎ ((pending : List PendingObject) × (why : Text) × (e
            ≡ reconcile_timeout subject pending (raw why))
          × Awaited s objs pending)

  all_seen :
      (s : S) (objs : List Fields)
      → Every
          (λ p. Settled k.passes check of_pending IsPermanent s (of_pending p))
          (not_polled objs)
      → Every (SeenReconciled s) objs
  unfolding not_polled
  all_seen s [] h = tt
  all_seen s (o ∷ objs) h = (SeenReconciled-Settled s o h.0, all_seen s objs h.1)

  SeenPending-Stays :
      (s : S) (o : Fields) (p q : PendingObject)
      → p ≡ record { object = o; reason = txt "not polled yet" }
      → Stays k.passes check of_pending IsPermanent s p q
      → SeenPending s o q.reason
  SeenPending-Stays s o p q first (unchecked e) =
      subst (λ x. SeenPending s o x.reason) (sym (e ∙ first)) not_polled_yet
  SeenPending-Stays s o p q first (checked_pending x state reached same e) =
      let seen = (subst (λ r. Checked x state r) e (check_one_reconciled-Checked x state)).1 in
      subst (λ y. SeenPending s y q.reason) (same ∙ ap (λ y. y.object) first) (seen s reached)

  Awaited-Left :
      (s : S) (objs : List Fields) (pending : List PendingObject)
      → Left k.passes check of_pending IsPermanent s (not_polled objs) pending
      → Awaited s objs pending
  unfolding not_polled
  Awaited-Left s [] _ left_nil = awaited_nil
  Awaited-Left s (o ∷ objs) pending (settled h l) =
      reconciled (SeenReconciled-Settled s o h) (Awaited-Left s objs pending l)
  Awaited-Left s (o ∷ objs) (q ∷ pending) (Left.pending e w l) =
      still_pending e (SeenPending-Stays s o _ q refl w) (Awaited-Left s objs pending l)

  wait_result-Reconciled :
      (subject : Text) (objs : List Fields) (s : S) (r : S × (List PendingObject × Option Failure))
      → Waited k.passes check of_pending IsPermanent s (not_polled objs) r
      → Reconciled subject objs s (wait_result subject r)
  unfolding wait_result
  wait_result-Reconciled subject objs s (t, (pending, none)) h = all_seen s objs h
  wait_result-Reconciled subject objs s (t, (pending, some e)) (inl h) =
      rw (new_reconcile_wait_error-coded subject pending e (IsPermanent-coded e h)) (inl h)
  wait_result-Reconciled subject objs s (t, (pending, some e)) (inr (why, f, l)) = inr (
    pending,
    why,
    ap (new_reconcile_wait_error subject pending) f
        ∙ new_reconcile_wait_error-raw subject pending why,
    Awaited-Left s objs pending l,
  )

-- A wait, by whether there is a judgment.
abbrev pub WaitedFor :
    {S : Type 0}
    → Client S
    → Option ReconciledFunc
    → (subject : Text) → List Fields
    → S
    → S × Option Failure
    → Type 0
WaitedFor k none subject objs s r = r ≡ (s, none)
WaitedFor k (some judge) subject objs s r = Reconciled k judge subject objs s r

-- Without a judgment, waitReconciled touches nothing and returns no error. With one: if it returns
-- no error, it has seen every object reconciled; if it returns one, it is a permanent error of a
-- read or of the judgment, with the code it had, or a timeout that lists objects. Of those, each
-- has the reason that it was not polled yet, or in a state that the wait passed through it was seen
-- not served, not there or not reconciled, and has the reason for that; every other object was seen
-- reconciled.
pub wait_reconciled_for-Reconciled :
    {S : Type 0} (a : Applier S) (judge : Option ReconciledFunc) (objs : List Fields)
    (subject : Text) (s : S)
    → WaitedFor a.client judge subject objs s (wait_reconciled_for a objs judge subject s)
unfolding wait_reconciled_for
wait_reconciled_for-Reconciled a none objs subject s = refl
wait_reconciled_for-Reconciled a (some judge) [] subject s = tt
wait_reconciled_for-Reconciled a (some judge) (o ∷ objs) subject s =
    wait_result-Reconciled a.client judge subject (o ∷ objs) s _ (
      Polled-Waited a.client.passes (check_one_reconciled a.client judge) (λ p. p.object)
        (IsPermanent a.client judge) (check-IsCheck a.client judge)
        (a.client.poll-Polled (poll_round (check_one_reconciled a.client judge))
          (not_polled (o ∷ objs)) s))
