-- ===== src/Bootstrap/Install.antt =====
-- internal/bootstrap/install.go and unit.go: the run that installs the engine.
pub mod Steps
pub mod Plan
use cube_idp.Base.{
  Bool, true, false, Option, none, some, List, [], ◌∷◌, ◌++◌, Result, if◌then◌else◌, Text, txt,
}
use cube_idp.Base.Document.{Fields}
use cube_idp.Bootstrap.Failures.{Failure, unit_judge}
use cube_idp.Bootstrap.Client.{Applier, Action, ◌then◌, follow, apply_all}
use cube_idp.Bootstrap.Reconcile.{ReconciledFunc, EngineWait, wait_reconciled, wait_reconciled_for}
use cube_idp.Bootstrap.Ready.{wait_ready, wait_ready_for}
use cube_idp.Bootstrap.Inventory.{ObjectRef, record_inventory}

pub data UnitKind : Type 0 where
  unit_raw : UnitKind
  unit_cr : UnitKind
  unit_inert : UnitKind

-- The Go type is called Unit.
pub record PrerequisiteUnit : Type 0 where
  pub name : Text
  pub objects : List Fields
  pub kind : UnitKind
  pub reconciled : Option ReconciledFunc

pub new_raw_unit : (name : Text) → List Fields → PrerequisiteUnit
new_raw_unit name objs = record { name = name; objects = objs; kind = unit_raw; reconciled = none }

-- A nil judgment is `none`.
pub new_cr_unit : (name : Text) → List Fields → Option ReconciledFunc → PrerequisiteUnit
new_cr_unit name objs judge = record {
  name = name;
  objects = objs;
  kind = unit_cr;
  reconciled = judge;
}

pub new_inert_unit : (name : Text) → List Fields → PrerequisiteUnit
new_inert_unit name objs = record {
  name = name;
  objects = objs;
  kind = unit_inert;
  reconciled = none;
}

pub record EngineInstall : Type 0 where
  pub substrate : List Fields
  pub prerequisites : List PrerequisiteUnit
  pub wiring : List Fields
  pub wait : EngineWait

abbrev pub is_defective : UnitKind → Option ReconciledFunc → Bool
is_defective unit_cr none = true
is_defective unit_cr (some judge) = false
is_defective unit_raw judge = false
is_defective unit_inert judge = false

pub check_units : List PrerequisiteUnit → Option Failure
check_units [] = none
check_units (u ∷ units) =
    let rest = check_units units in
    if is_defective u.kind u.reconciled then some (unit_judge u.name) else rest

abbrev pub unit_subject : PrerequisiteUnit → Text
unit_subject u = txt "prerequisite unit " ++ u.name

-- The rest of installPrerequisites, with the set applied by then, and of InstallEngine.
abbrev pub next_unit :
    {S : Type 0} (applied : List Fields)
    → S × Option Failure
    → (S → S × (List Fields × Option Failure))
    → S × (List Fields × Option Failure)
next_unit applied (s, some e) next = (s, (applied, some e))
next_unit applied (s, none) next = next s

abbrev pub with_applied :
    {S : Type 0}
    → S × (List Fields × Option Failure)
    → (List Fields → Action S)
    → S × Option Failure
with_applied (s, (applied, some e)) next = (s, some e)
with_applied (s, (applied, none)) next = next applied s

module _ {S : Type 0} (marshal : List ObjectRef → Result Failure Text) (a : Applier S) where
  pub wait_unit : PrerequisiteUnit → Action S
  wait_unit u s = elim u.kind [
    | unit_cr ↦ wait_reconciled_for a u.objects u.reconciled (unit_subject u) s
    | unit_inert ↦ (s, none)
    | unit_raw ↦ wait_ready_for a u.objects (unit_subject u) s
  ]

  -- One round of installPrerequisites, with the set that is applied after it.
  pub install_unit : (applied : List Fields) → PrerequisiteUnit → Action S
  unfolding wait_unit
  install_unit applied u =
      record_inventory marshal a applied then apply_all a u.objects then wait_unit u

  pub install_prerequisites :
      (applied : List Fields) → List PrerequisiteUnit → S → S × (List Fields × Option Failure)
  unfolding install_unit
  install_prerequisites applied [] s = (s, (applied, none))
  install_prerequisites applied (u ∷ units) s =
      let applied' = applied ++ u.objects in
      next_unit applied' (install_unit applied' u s) (install_prerequisites applied' units)

  pub install : List Fields → Action S
  install objs = apply_all a objs then record_inventory marshal a objs then wait_ready a objs

  -- InstallEngine from the wiring on.
  pub finish_engine : EngineWait → (wiring applied : List Fields) → Action S
  finish_engine wait [] applied = wait_reconciled a wait.engine_objects wait.reconciled
  finish_engine wait (o ∷ objs) applied =
      record_inventory marshal a (applied ++ o ∷ objs)
      then apply_all a (o ∷ objs)
      then wait_reconciled a (o ∷ objs) wait.reconciled
      then wait_reconciled a wait.engine_objects wait.reconciled

  -- InstallEngine behind the first check.
  pub install_checked : EngineInstall → Action S
  unfolding install install_prerequisites finish_engine
  install_checked in' s = follow (install in'.substrate s) (λ s'.
      with_applied (install_prerequisites in'.substrate in'.prerequisites s')
        (finish_engine in'.wait in'.wiring))

  pub install_engine : EngineInstall → Action S
  unfolding check_units install_checked
  install_engine in' s = elim (check_units in'.prerequisites) [
    | some e ↦ (s, some e)
    | none ↦ install_checked in' s
  ]
