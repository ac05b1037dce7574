-- ===== src/Bootstrap/Reconcile.antt =====
-- internal/bootstrap/reconcile.go: the wait until a judgment reports every object reconciled.
pub mod Waited
use cube_idp.Base.{
  Bool, not, Option, none, some, List, [], ◌∷◌, Result, if◌then◌else◌, Text, txt, ok, err,
}
use cube_idp.Base.Document.{Fields}
use cube_idp.Bootstrap.Failures.{
  Failure, PendingObject, new_reconcile_wait_error, terminal_poll_error,
}
use cube_idp.Bootstrap.Client.{Client, Applier, Action, live}
use cube_idp.Bootstrap.Polling.{Check, poll_round}

-- The judgment of one live object: reconciled or not, and the reason; or an error.
abbrev pub ReconciledFunc : Type 0
ReconciledFunc = Fields → Result Failure (Bool × Text)

-- A nil Reconciled is `none`.
pub record EngineWait : Type 0 where
  pub reconciled : Option ReconciledFunc
  pub engine_objects : List Fields

module _ {S : Type 0} (k : Client S) where
  -- The reason of a transient error, and none for a permanent one.
  pub transient_poll_reason : Failure → Option Text
  transient_poll_reason e =
      if k.is_no_match e
      then some (txt "kind not served by the cluster yet")
      else if k.is_not_found e
      then some (txt "object not created yet")
      else none

  judged : PendingObject → Result Failure (Bool × Text) → Result Failure (Option PendingObject)
  judged p (err e) = err (terminal_poll_error p.object e)
  judged p (ok (reconciled, reason)) =
      if reconciled then ok none else ok (some (record { object = p.object; reason = reason }))

  unread : PendingObject → Failure → Option Text → Result Failure (Option PendingObject)
  unread p e none = err (terminal_poll_error p.object e)
  unread p e (some reason) = ok (some (record { object = p.object; reason = reason }))

  -- What becomes of one pending object, by what was read.
  looked_at :
      ReconciledFunc → PendingObject → Result Failure Fields → Result Failure (Option PendingObject)
  unfolding judged unread transient_poll_reason
  looked_at judge p (err e) = unread p e (transient_poll_reason e)
  looked_at judge p (ok found) = judged p (judge found)

  -- One object of a pass of checkReconciled.
  pub check_one_reconciled : ReconciledFunc → Check S PendingObject
  unfolding looked_at
  check_one_reconciled judge p s = let (s', r) = live k p.object s in (s', looked_at judge p r)

pub not_polled : List Fields → List PendingObject
not_polled [] = []
not_polled (o ∷ objs) = record { object = o; reason = txt "not polled yet" } ∷ not_polled objs

module _ {S : Type 0} where
  wait_result : (subject : Text) → S × (List PendingObject × Option Failure) → S × Option Failure
  wait_result subject (s, (pending, none)) = (s, none)
  wait_result subject (s, (pending, some e)) =
      (s, some (new_reconcile_wait_error subject pending e))

  -- waitReconciled
  pub wait_reconciled_for :
      Applier S → List Fields → Option ReconciledFunc → (subject : Text) → Action S
  unfolding check_one_reconciled wait_result not_polled
  wait_reconciled_for a objs none subject s = (s, none)
  wait_reconciled_for a [] (some judge) subject s = (s, none)
  wait_reconciled_for a (o ∷ objs) (some judge) subject s =
      wait_result subject
        (a.client.poll (poll_round (check_one_reconciled a.client judge)) (not_polled (o ∷ objs)) s)

  -- WaitReconciled
  abbrev pub wait_reconciled : Applier S → List Fields → Option ReconciledFunc → Action S
  wait_reconciled a objs judge = wait_reconciled_for a objs judge (txt "declared resources")
