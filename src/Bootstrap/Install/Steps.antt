-- ===== src/Bootstrap/Install/Steps.antt =====
-- The steps of an installation (internal/bootstrap/install.go), as one list.
use cube_idp.Base.{
  append_assoc, append-nil, ◌≡◌, refl, sym, Option, List, [], ◌∷◌, ◌++◌, subst, Text, txt,
}
use cube_idp.Base.Document.{Fields}
use cube_idp.Bootstrap.Reconcile.{ReconciledFunc}
use cube_idp.Bootstrap.Install.{
  UnitKind, unit_raw, unit_cr, unit_inert, PrerequisiteUnit, EngineInstall, unit_subject,
}

pub data Step : Type 0 where
  apply_objects : List Fields → Step
  record_objects : List Fields → Step
  await_ready : List Fields → (subject : Text) → Step
  await_reconciled : List Fields → Option ReconciledFunc → (subject : Text) → Step

abbrev pub unit_wait : UnitKind → PrerequisiteUnit → List Step
unit_wait unit_cr u = await_reconciled u.objects u.reconciled (unit_subject u) ∷ []
unit_wait unit_inert u = []
unit_wait unit_raw u = await_ready u.objects (unit_subject u) ∷ []

unfoldable pub units_plan : (applied : List Fields) → List PrerequisiteUnit → List Step → List Step
units_plan applied [] rest = rest
units_plan applied (u ∷ units) rest =
    record_objects (applied ++ u.objects) ∷ apply_objects u.objects ∷ unit_wait u.kind u
    ++ units_plan (applied ++ u.objects) units rest

unfoldable pub objects_of : List PrerequisiteUnit → List Fields
objects_of [] = []
objects_of (u ∷ units) = u.objects ++ objects_of units

abbrev pub wiring_plan : (applied wiring : List Fields) → Option ReconciledFunc → List Step
wiring_plan applied [] judge = []
wiring_plan applied (o ∷ objs) judge =
    record_objects (applied ++ o ∷ objs)
    ∷ apply_objects (o ∷ objs)
    ∷ await_reconciled (o ∷ objs) judge (txt "declared resources")
    ∷ []

-- The steps after the first, which applies the substrate.
unfoldable pub steps_after_apply : EngineInstall → List Step
steps_after_apply in' =
    record_objects in'.substrate
    ∷ await_ready in'.substrate (txt "bootstrap resources")
    ∷ units_plan in'.substrate in'.prerequisites (
        wiring_plan (in'.substrate ++ objects_of in'.prerequisites) in'.wiring in'.wait.reconciled
        ++ await_reconciled in'.wait.engine_objects in'.wait.reconciled (txt "declared resources")
          ∷ [])

-- The inventory only grows, and what a step applies is in it by then.
abbrev pub Covered : (recorded : List Fields) → List Step → Type 0
Covered recorded [] = Unit
Covered recorded (record_objects objs ∷ steps) =
    ((more : List Fields) × (objs ≡ recorded ++ more)) × Covered objs steps
Covered recorded (apply_objects objs ∷ steps) =
    ((before : List Fields) × (recorded ≡ before ++ objs)) × Covered recorded steps
Covered recorded (await_ready objs subject ∷ steps) = Covered recorded steps
Covered recorded (await_reconciled objs judge subject ∷ steps) = Covered recorded steps

Covered-unit_wait :
    (recorded : List Fields) (kind : UnitKind) (u : PrerequisiteUnit) (steps : List Step)
    → Covered recorded steps
    → Covered recorded (unit_wait kind u ++ steps)
Covered-unit_wait recorded unit_cr u steps h = h
Covered-unit_wait recorded unit_inert u steps h = h
Covered-unit_wait recorded unit_raw u steps h = h

Covered-units_plan :
    (applied : List Fields) (units : List PrerequisiteUnit) (rest : List Step)
    → Covered (applied ++ objects_of units) rest
    → Covered applied (units_plan applied units rest)
unfolding units_plan objects_of
Covered-units_plan applied [] rest h = subst (λ l. Covered l rest) (append-nil applied) h
Covered-units_plan applied (u ∷ units) rest h = (
  (u.objects, refl),
  (
    (applied, refl),
    Covered-unit_wait (applied ++ u.objects) u.kind u _ (
        Covered-units_plan (applied ++ u.objects) units rest (
          subst (λ l. Covered l rest) (sym (append_assoc applied u.objects (objects_of units))) h)),
  ),
)

Covered-wiring_plan :
    (applied wiring : List Fields) (judge : Option ReconciledFunc) (steps : List Step)
    → ((recorded : List Fields) → Covered recorded steps)
    → Covered applied (wiring_plan applied wiring judge ++ steps)
Covered-wiring_plan applied [] judge steps h = h applied
Covered-wiring_plan applied (o ∷ objs) judge steps h =
    ((o ∷ objs, refl), ((applied, refl), h (applied ++ o ∷ objs)))

pub Covered-steps_after_apply : (in' : EngineInstall) → Covered [] (steps_after_apply in')
unfolding steps_after_apply
Covered-steps_after_apply in' = (
  (in'.substrate, refl),
  Covered-units_plan in'.substrate in'.prerequisites _
      (Covered-wiring_plan _ in'.wiring in'.wait.reconciled _ (λ recorded. tt)),
)
