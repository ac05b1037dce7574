-- ===== src/Bootstrap/Inventory/Recorded.antt =====
-- What the inventory of internal/bootstrap/inventory.go holds.
use mathlib.Core.List.{Perm}
use mathlib.Core.List.Perm
use cube_idp.Base.{◌≡◌, true, List, [], ◌∷◌, Result, text_le, Text, txt, ok, err}
use cube_idp.Base.Document.{Fields, nested_string}
use cube_idp.Bootstrap.Failures.{
  Failure, inventory_failed, object_kind, object_name, object_namespace, object_version,
}
use cube_idp.Bootstrap.Inventory.{ObjectRef, ref_key, object_refs}

-- Each key is at most the one after it.
abbrev pub IsSortedRefsFrom : ObjectRef → List ObjectRef → Type 0
IsSortedRefsFrom r [] = Unit
IsSortedRefsFrom r (q ∷ refs) = (text_le (ref_key r) (ref_key q) ≡ true) × IsSortedRefsFrom q refs

abbrev pub IsSortedRefs : List ObjectRef → Type 0
IsSortedRefs [] = Unit
IsSortedRefs (r ∷ refs) = IsSortedRefsFrom r refs

-- The config map of an inventory: where it is, and what it holds.
pub record IsInventory (marshal : List ObjectRef → Result Failure Text) (namespace : Text)
    (objs : List Fields) (cm : Fields) : Type 0 where
  pub refs : List ObjectRef
  pub ascending : IsSortedRefs refs
  pub complete : Perm refs (object_refs objs)
  pub content : marshal refs ≡ ok (nested_string cm (txt "data") (txt "objects" ∷ []))
  pub identity :
      (object_version cm ≡ txt "v1")
      × (object_kind cm ≡ txt "ConfigMap")
      × (object_name cm ≡ txt "cube-idp-bootstrap-inventory")
      × (object_namespace cm ≡ namespace)

abbrev pub InventoryOf :
    (marshal : List ObjectRef → Result Failure Text) (namespace : Text)
    → List Fields
    → Result Failure Fields
    → Type 0
InventoryOf marshal namespace objs (ok cm) = IsInventory marshal namespace objs cm
InventoryOf marshal namespace objs (err e) =
    (refs : List ObjectRef) × (cause : Failure) × (marshal refs ≡ err cause)
    × (e ≡ inventory_failed cause)
