-- ===== src/Bootstrap/Install/Plan.antt =====
-- InstallEngine of internal/bootstrap/install.go against the list of its steps.
use cube_idp.Base.{
  append_assoc, append-nil, ◌≡◌, refl, sym, ap, ◌∙◌, ◌⊎◌, inl, inr, Bool, true, false, Option, none,
  some, List, [], ◌∷◌, ◌++◌, subst, Every, Result, if◌then◌else◌, Text, txt,
}
use cube_idp.Base.Document.{Fields}
use cube_idp.Bootstrap.Failures.{Failure, unit_judge}
use cube_idp.Bootstrap.Client.{Applier, Action, ◌then◌, follow, apply_all}
use cube_idp.Bootstrap.Reconcile.{EngineWait, wait_reconciled, wait_reconciled_for}
use cube_idp.Bootstrap.Ready.{wait_ready, wait_ready_for}
use cube_idp.Bootstrap.Inventory.{ObjectRef, record_inventory}
use cube_idp.Bootstrap.Install.{
  UnitKind, unit_raw, unit_cr, unit_inert, PrerequisiteUnit, EngineInstall, is_defective,
  check_units, wait_unit, install_unit, next_unit, install_prerequisites, install, finish_engine,
  with_applied, install_checked, install_engine,
}
use cube_idp.Bootstrap.Install.Steps.{
  Step, apply_objects, record_objects, await_ready, await_reconciled, unit_wait, units_plan,
  objects_of, wiring_plan, steps_after_apply, Covered, Covered-steps_after_apply,
}

module _ {S : Type 0} (marshal : List ObjectRef → Result Failure Text) (a : Applier S) where
  abbrev pub run_step : Step → Action S
  run_step (apply_objects objs) = apply_all a objs
  run_step (record_objects objs) = record_inventory marshal a objs
  run_step (await_ready objs subject) = wait_ready_for a objs subject
  run_step (await_reconciled objs judge subject) = wait_reconciled_for a objs judge subject

  -- The steps in order, until one fails.
  pub run_steps : List Step → Action S
  run_steps [] s = (s, none)
  run_steps (step ∷ steps) s = follow (run_step step s) (run_steps steps)

  follow_assoc :
      (r : S × Option Failure) (f g : Action S)
      → follow (follow r f) g ≡ follow r (λ s. follow (f s) g)
  follow_assoc (s, none) f g = refl
  follow_assoc (s, some e) f g = refl

  follow-done : (r : S × Option Failure) → follow r (λ s. (s, none)) ≡ r
  follow-done (s, none) = refl
  follow-done (s, some e) = refl

  follow_ext :
      (r : S × Option Failure) (f g : Action S) → ((s : S) → f s ≡ g s) → follow r f ≡ follow r g
  follow_ext (s, none) f g h = h s
  follow_ext (s, some e) f g h = refl

  wait_unit-plan :
      (u : PrerequisiteUnit) (kind : UnitKind) (steps : List Step) (s : S)
      → u.kind ≡ kind
      → follow (wait_unit marshal a u s) (run_steps steps) ≡ run_steps (unit_wait kind u ++ steps) s
  unfolding wait_unit run_steps
  wait_unit-plan u unit_cr steps s e = rw e refl
  wait_unit-plan u unit_inert steps s e = rw e refl
  wait_unit-plan u unit_raw steps s e = rw e refl

  with_applied-next_unit :
      (applied : List Fields) (r : S × Option Failure)
      (later : S → S × (List Fields × Option Failure)) (next : List Fields → Action S)
      → with_applied (next_unit applied r later) next ≡ follow r (λ s. with_applied (later s) next)
  with_applied-next_unit applied (s, none) later next = refl
  with_applied-next_unit applied (s, some e) later next = refl

  units_plan-run :
      (applied : List Fields) (units : List PrerequisiteUnit) (next : List Fields → Action S)
      (rest : List Step) (s : S)
      → ((t : S) → next (applied ++ objects_of units) t ≡ run_steps rest t)
      → with_applied (install_prerequisites marshal a applied units s) next
        ≡ run_steps (units_plan applied units rest) s
  unfolding install_prerequisites install_unit units_plan objects_of run_steps
  units_plan-run applied [] next rest s h =
      subst (λ l. next l s ≡ run_steps rest s) (append-nil applied) (h s)
  units_plan-run applied (u ∷ units) next rest s h =
      let applied' = applied ++ u.objects in
      let later = units_plan applied' units rest in
      let reassociated : (t : S) → next (applied' ++ objects_of units) t ≡ run_steps rest t =
        λ t. ap (λ l. next l t) (append_assoc applied u.objects (objects_of units)) ∙ h t in
      let recorded = record_inventory marshal a applied' s in
      with_applied-next_unit applied' (install_unit marshal a applied' u s)
        (install_prerequisites marshal a applied' units) next
      ∙ follow_ext (install_unit marshal a applied' u s) _ (run_steps later)
          (λ t. units_plan-run applied' units next rest t reassociated)
      ∙ follow_assoc (follow recorded (apply_all a u.objects)) (wait_unit marshal a u)
          (run_steps later)
      ∙ follow_assoc recorded (apply_all a u.objects)
          (λ t. follow (wait_unit marshal a u t) (run_steps later))
      ∙ follow_ext recorded _ _ (λ t.
        follow_ext (apply_all a u.objects t) _ _ (λ v. wait_unit-plan u u.kind later v refl))

  finish_engine-run :
      (wait : EngineWait) (wiring applied : List Fields) (s : S)
      → finish_engine marshal a wait wiring applied s
        ≡ run_steps
            (wiring_plan applied wiring wait.reconciled
              ++ await_reconciled wait.engine_objects wait.reconciled (txt "declared resources")
                ∷ [])
            s
  unfolding finish_engine run_steps
  finish_engine-run wait [] applied s = sym (follow-done _)
  finish_engine-run wait (o ∷ objs) applied s =
      let recorded = record_inventory marshal a (applied ++ o ∷ objs) s in
      let last = wait_reconciled a wait.engine_objects wait.reconciled in
      let judged = wait_reconciled a (o ∷ objs) wait.reconciled in
      follow_assoc (follow recorded (apply_all a (o ∷ objs))) judged last
      ∙ follow_assoc recorded (apply_all a (o ∷ objs)) (λ t. follow (judged t) last)
      ∙ follow_ext recorded _ _ (λ t.
        follow_ext (apply_all a (o ∷ objs) t) _ _
          (λ v. follow_ext (judged v) _ _ (λ w. sym (follow-done (last w)))))

  -- What InstallEngine leaves, by its units: the run of the steps; or, with a unit that has no
  -- judgment, the state as it was, and the error for the first such unit.
  abbrev pub Installed : EngineInstall → S → S × Option Failure → Type 0
  Installed in' s r =
      ((r ≡ run_steps (apply_objects in'.substrate ∷ steps_after_apply in') s)
        × Every (λ u. is_defective u.kind u.reconciled ≡ false) in'.prerequisites)
      ⊎ ((front : List PrerequisiteUnit) × (u : PrerequisiteUnit) × (back : List PrerequisiteUnit)
          × (in'.prerequisites ≡ front ++ u ∷ back)
          × Every (λ v. is_defective v.kind v.reconciled ≡ false) front
          × (is_defective u.kind u.reconciled ≡ true)
          × (r ≡ (s, some (unit_judge u.name))))

  install_checked-run :
      (in' : EngineInstall) (s : S)
      → install_checked marshal a in' s
        ≡ run_steps (apply_objects in'.substrate ∷ steps_after_apply in') s
  unfolding install_checked install steps_after_apply run_steps
  install_checked-run in' s =
      let later : Action S = λ t.
        with_applied (install_prerequisites marshal a in'.substrate in'.prerequisites t)
          (finish_engine marshal a in'.wait in'.wiring) in
      let applied = apply_all a in'.substrate s in
      follow_assoc (follow applied (record_inventory marshal a in'.substrate))
        (wait_ready a in'.substrate) later
      ∙ follow_assoc applied (record_inventory marshal a in'.substrate)
          (λ t. follow (wait_ready a in'.substrate t) later)
      ∙ follow_ext applied _ _ (λ t.
        follow_ext (record_inventory marshal a in'.substrate t) _ _ (λ v.
          follow_ext (wait_ready a in'.substrate v) _ _ (λ w.
            units_plan-run in'.substrate in'.prerequisites _ _ w
              (λ x. finish_engine-run in'.wait in'.wiring _ x))))

-- The units without a judgment that need one.
abbrev pub CheckedUnits : List PrerequisiteUnit → Option Failure → Type 0
CheckedUnits units none = Every (λ u. is_defective u.kind u.reconciled ≡ false) units
CheckedUnits units (some e) =
    (front : List PrerequisiteUnit) × (u : PrerequisiteUnit) × (back : List PrerequisiteUnit)
    × (units ≡ front ++ u ∷ back)
    × Every (λ v. is_defective v.kind v.reconciled ≡ false) front
    × (is_defective u.kind u.reconciled ≡ true)
    × (e ≡ unit_judge u.name)

check_units-CheckedUnits : (units : List PrerequisiteUnit) → CheckedUnits units (check_units units)
unfolding check_units
check_units-CheckedUnits [] = tt
check_units-CheckedUnits (u ∷ units) =
    by_test (is_defective u.kind u.reconciled) refl (check_units units)
      (check_units-CheckedUnits units)
  where
    by_test :
        (defective : Bool)
        → is_defective u.kind u.reconciled ≡ defective
        → (rest : Option Failure) → CheckedUnits units rest
        → CheckedUnits (u ∷ units) (if defective then some (unit_judge u.name) else rest)
    by_test true e rest h = ([], u, units, refl, tt, e, refl)
    by_test false e none h = (e, h)
    by_test false e (some f) (front, v, back, s, fine, d, m) =
        (u ∷ front, v, back, ap (λ l. u ∷ l) s, (e, fine), d, m)

-- If a unit that waits for a judgment has none, InstallEngine touches nothing and returns the error
-- for the first such unit. Otherwise it does these steps in order until one fails: it applies the
-- substrate, records and awaits it; for each prerequisite unit it records, applies and awaits it
-- as the unit declares; it records, applies and awaits the wiring, if there is any; it awaits the
-- engine objects. Each record holds all that the records before it held, and all that a later step
-- applies is in the last record by then.
pub install_engine-Installed :
    {S : Type 0} (marshal : List ObjectRef → Result Failure Text) (a : Applier S)
    (in' : EngineInstall) (s : S)
    → Installed marshal a in' s (install_engine marshal a in' s)
      × Covered [] (steps_after_apply in')
unfolding install_engine
install_engine-Installed {S} marshal a in' s = (
  by_check (check_units in'.prerequisites) (check_units-CheckedUnits in'.prerequisites),
  Covered-steps_after_apply in',
)
  where
    by_check :
        (e : Option Failure)
        → CheckedUnits in'.prerequisites e
        → Installed marshal a in' s
            (elim e [ some e' ↦ (s, some e') | none ↦ install_checked marshal a in' s ])
    by_check none h = inl (install_checked-run marshal a in' s, h)
    by_check (some f) (front, u, back, split, fine, d, m) =
        inr (front, u, back, split, fine, d, ap (λ x. (s, some x)) m)
