-- ===== src/Bootstrap/Failures.antt =====
-- internal/bootstrap/errors.go: the errors, and which of them keep their code. Message texts are
-- left out but for what they name.
use cube_idp.Base.{
  ◌≡◌, refl, inl, inr, Bool, true, false, not, List, [], ◌∷◌, ◌++◌, if◌then◌else◌, Bool-cases, Text,
  txt, ◌==◌,
}
use cube_idp.Base.Document.{Fields, nested_string}

abbrev pub object_kind : Fields → Text
object_kind o = nested_string o (txt "kind") []

abbrev pub object_name : Fields → Text
object_name o = nested_string o (txt "metadata") (txt "name" ∷ [])

abbrev pub object_namespace : Fields → Text
object_namespace o = nested_string o (txt "metadata") (txt "namespace" ∷ [])

abbrev pub object_version : Fields → Text
object_version o = nested_string o (txt "apiVersion") []

pub describe : Fields → Text
describe o =
    if not (object_namespace o == [])
    then object_kind o ++ b' ' ∷ object_namespace o ++ b'/' ∷ object_name o
    else object_kind o ++ b' ' ∷ object_name o

-- One not yet reconciled object, with the latest reason.
pub record PendingObject : Type 0 where
  pub object : Fields
  pub reason : Text

-- `raw` is an error of a library, `coded` one with a code of another domain.
pub data Failure : Type 0 where
  raw : Text → Failure
  coded : Text → Failure
  rest_mapping : Text → Failure → Failure
  apply_failed : Text → Failure → Failure
  wait_timeout : (subject namespace : Text) → List Fields → Failure → Failure
  inventory_failed : Failure → Failure
  reconcile_timeout : (subject : Text) → List PendingObject → Failure → Failure
  poll_failed : Text → Failure → Failure
  unit_judge : (name : Text) → Failure

-- errors.As(cause, &coded)
pub is_coded : Failure → Bool
is_coded (raw message) = false
is_coded (coded code') = true
is_coded (rest_mapping what cause) = true
is_coded (apply_failed what cause) = true
is_coded (wait_timeout subject namespace pending cause) = true
is_coded (inventory_failed cause) = true
is_coded (reconcile_timeout subject pending cause) = true
is_coded (poll_failed what cause) = true
is_coded (unit_judge name) = true

pub new_mapping_error : Fields → Failure → Failure
unfolding describe
new_mapping_error o cause = rest_mapping (describe o) cause

pub new_apply_error : Fields → Failure → Failure
unfolding describe
new_apply_error o cause = apply_failed (describe o) cause

pub new_wait_error :
    (subject namespace : Text) → (pending : List Fields) → (cause : Failure) → Failure
unfolding is_coded
new_wait_error subject namespace pending cause =
    if is_coded cause then cause else wait_timeout subject namespace pending cause

pub new_reconcile_wait_error :
    (subject : Text) → (pending : List PendingObject) → (cause : Failure) → Failure
unfolding is_coded
new_reconcile_wait_error subject pending cause =
    if is_coded cause then cause else reconcile_timeout subject pending cause

pub terminal_poll_error : Fields → Failure → Failure
unfolding is_coded describe
terminal_poll_error o cause = if is_coded cause then cause else poll_failed (describe o) cause

-- A permanent failure always has a code, so that no wait makes a timeout of it.
pub is_coded-terminal_poll_error :
    (o : Fields) (cause : Failure) → is_coded (terminal_poll_error o cause) ≡ true
unfolding terminal_poll_error is_coded
is_coded-terminal_poll_error o cause = elim (Bool-cases (is_coded cause)) [
  | inl e ↦ rw e e
  | inr e ↦ rw e refl
]

pub new_reconcile_wait_error-coded :
    (subject : Text) (pending : List PendingObject) (e : Failure)
    → is_coded e ≡ true
    → new_reconcile_wait_error subject pending e ≡ e
unfolding new_reconcile_wait_error
new_reconcile_wait_error-coded subject pending e h = rw h refl

pub new_reconcile_wait_error-raw :
    (subject : Text) (pending : List PendingObject) (why : Text)
    → new_reconcile_wait_error subject pending (raw why)
      ≡ reconcile_timeout subject pending (raw why)
unfolding new_reconcile_wait_error is_coded
new_reconcile_wait_error-raw subject pending why = refl

pub new_wait_error-coded :
    (subject namespace : Text) (pending : List Fields) (e : Failure)
    → is_coded e ≡ true
    → new_wait_error subject namespace pending e ≡ e
unfolding new_wait_error
new_wait_error-coded subject namespace pending e h = rw h refl

pub new_wait_error-raw :
    (subject namespace : Text) (pending : List Fields) (why : Text)
    → new_wait_error subject namespace pending (raw why)
      ≡ wait_timeout subject namespace pending (raw why)
unfolding new_wait_error is_coded
new_wait_error-raw subject namespace pending why = refl
