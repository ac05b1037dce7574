-- ===== src/Bootstrap/Ready/Waited.antt =====
-- What the wait of internal/bootstrap/wait.go has seen when it returns.
use cube_idp.Base.{◌≡◌, ◌⊎◌, true, false, Option, none, some, List, Every, Result, Text, ok, err}
use cube_idp.Base.Document.{Fields}
use cube_idp.Bootstrap.Failures.{Failure, raw, wait_timeout, object_kind, terminal_poll_error}
use cube_idp.Bootstrap.Client.{Client, get_object}
use cube_idp.Bootstrap.Polling.{Reaches, Left}
use cube_idp.Bootstrap.Ready.{in_kind_set, filter_kind_set, ready_by_kind, check_one_ready}

module _ {S : Type 0} (k : Client S) where
  -- In a state that the wait passed through, the live object was ready.
  pub record SeenReady (s : S) (o : Fields) : Type 0 where
    pub state : S
    pub found : Fields
    pub reached : Reaches k.passes (check_one_ready k) s state
    pub read : (get_object k o state).1 ≡ ok found
    pub is_ready : ready_by_kind (object_kind o) found ≡ true

  -- An error of a read, other than that the object is not there.
  pub data IsPermanent : Failure → Type 0 where
    unreadable :
        (o : Fields) (s : S) {cause : Failure}
        → (get_object k o s).1 ≡ err cause
        → k.is_not_found cause ≡ false
        → IsPermanent (terminal_poll_error o cause)

  abbrev Checked : Fields → S → Result Failure (Option Fields) → Type 0
  Checked o s (err e) = IsPermanent e
  Checked o s (ok none) =
      (found : Fields) × ((get_object k o s).1 ≡ ok found)
      × (ready_by_kind (object_kind o) found ≡ true)
  Checked o s (ok (some p)) = p ≡ o

  abbrev itself : Fields → Fields
  itself o = o

  -- Success: all objects of the kind-set were seen ready. An error: a permanent one, just as it was
  -- raised; or a timeout that lists what is still pending of them, all others seen ready.
  abbrev pub Ready : (subject namespace : Text) → List Fields → S → S × Option Failure → Type 0
  Ready subject namespace objs s (t, none) =
      Every (λ o. in_kind_set (object_kind o) ≡ true → SeenReady s o) objs
  Ready subject namespace objs s (t, some e) =
      IsPermanent e
      ⊎ ((pending : List Fields) × (why : Text) × (e
            ≡ wait_timeout subject namespace pending (raw why))
          × Left k.passes (check_one_ready k) (λ o. o) IsPermanent s (filter_kind_set objs) pending)
