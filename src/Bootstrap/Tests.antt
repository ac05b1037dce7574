-- ===== src/Bootstrap/Tests.antt =====
-- A cluster that serves every kind, for internal/bootstrap. Its state is the list of the objects
-- that it holds, the last one first, and a poll has two rounds.
use cube_idp.Base.{
  ℕ, zero, suc, ◌≡◌, refl, Bool, true, false, Option, none, some, List, [], ◌∷◌, Result,
  if◌then◌else◌, Text, txt, ◌==◌, ok, err,
}
use cube_idp.Base.Document.{str, obj, Fields, end, field}
use cube_idp.Bootstrap.Failures.{Failure, raw, object_name}
use cube_idp.Bootstrap.Client.{Client, Applier, Condition, Polled, holds, fails, again, expired}
use cube_idp.Bootstrap.Reconcile.{ReconciledFunc, wait_reconciled_for}
use cube_idp.Bootstrap.Reconcile.Waited.{WaitedFor, wait_reconciled_for-Reconciled}
use cube_idp.Bootstrap.Ready.Waited.{Ready}
use cube_idp.Bootstrap.Inventory.{ObjectRef}
use cube_idp.Bootstrap.Install.{EngineInstall, unit_cr, unit_inert, install_engine}
use cube_idp.Bootstrap.Install.Steps.{Covered, steps_after_apply}
use cube_idp.Bootstrap.Install.Plan.{Installed, install_engine-Installed}

abbrev Store : Type 0
Store = List Fields

abbrev AnyTime : Store → Store → Type 0
AnyTime s t = Unit

after_round :
    {P : Type 0}
    → Store × (P × Result Failure Bool)
    → (P → Store → Store × (P × Option Failure))
    → Store × (P × Option Failure)
after_round (s, (p, ok true)) next = (s, (p, none))
after_round (s, (p, ok false)) next = next p s
after_round (s, (p, err e)) next = (s, (p, some e))

rounds : {P : Type 0} → ℕ → Condition Store P → P → Store → Store × (P × Option Failure)
unfolding after_round
rounds zero condition p s = (s, (p, some (raw (txt "context deadline exceeded"))))
rounds (suc n) condition p s = after_round (condition p s) (rounds n condition)

after_round-Polled :
    {P : Type 0} (condition : Condition Store P) (p : P) (s : Store)
    (next : P → Store → Store × (P × Option Failure))
    → ((q : P) (t : Store) → Polled AnyTime condition q t (next q t))
    → (r : Store × (P × Result Failure Bool)) → condition p s ≡ r
    → Polled AnyTime condition p s (after_round r next)
unfolding after_round
after_round-Polled condition p s next h (t, (q, ok true)) e = holds e
after_round-Polled condition p s next h (t, (q, ok false)) e = again e tt (h q t)
after_round-Polled condition p s next h (t, (q, err f)) e = fails e

rounds-Polled :
    {P : Type 0} (n : ℕ) (condition : Condition Store P) (p : P) (s : Store)
    → Polled AnyTime condition p s (rounds n condition p s)
unfolding rounds
rounds-Polled zero condition p s = expired _
rounds-Polled (suc n) condition p s =
    after_round-Polled condition p s (rounds n condition) (λ q t. rounds-Polled n condition q t)
      (condition p s) refl

stored : Store → (name : Text) → Result Failure Fields
stored [] name = err (raw (txt "not found"))
stored (o ∷ objs) name = let rest = stored objs name in if object_name o == name then ok o else rest

abbrev client : Client Store
unfolding stored ◌==◌ rounds
client = record {
  rest_mapping_of = λ version kind s. (s, ok (record { resource = kind; is_namespaced = true }));
  reset = none;
  server_apply = λ rc name o s. (o ∷ s, none);
  server_get = λ rc name s. (s, stored s name);
  is_no_match = λ e. false;
  is_not_found = λ e. true;
  passes = AnyTime;
  poll = λ condition p s. rounds 2 condition p s;
  poll-Polled = λ condition p s. rounds-Polled 2 condition p s;
}

abbrev applier : Applier Store
applier = record { client = client; inv_ns = txt "cube" }

abbrev encode : List ObjectRef → Result Failure Text
encode refs = ok (txt "[]")

abbrev named : Text → Text → Fields
named kind name = field (txt "apiVersion") (str (txt "v1")) (
    field (txt "kind") (str kind)
      (field (txt "metadata") (obj (field (txt "name") (str name) end)) end))

abbrev judge : ReconciledFunc
judge o = ok (true, [])

abbrev setup : EngineInstall
setup = record {
  substrate = named (txt "ConfigMap") (txt "a") ∷ [];
  prerequisites =
      record {
        name = txt "keys";
        objects = named (txt "Secret") (txt "b") ∷ [];
        kind = unit_inert;
        reconciled = none;
      }
      ∷ record {
        name = txt "gateway";
        objects = named (txt "Gateway") (txt "c") ∷ [];
        kind = unit_cr;
        reconciled = some judge;
      }
      ∷ [];
  wiring = named (txt "GitRepository") (txt "d") ∷ [];
  wait = record { reconciled = some judge; engine_objects = [] };
}

wait_reconciled_for-Reconciled_example :
    WaitedFor client (some judge) (txt "it") (named (txt "Gateway") (txt "c") ∷ []) [] (
      wait_reconciled_for applier (named (txt "Gateway") (txt "c") ∷ []) (some judge) (txt "it") [])
wait_reconciled_for-Reconciled_example =
    wait_reconciled_for-Reconciled applier (some judge) (named (txt "Gateway") (txt "c") ∷ [])
      (txt "it") []

install_engine-Installed_example :
    Installed encode applier setup [] (install_engine encode applier setup [])
    × Covered [] (steps_after_apply setup)
install_engine-Installed_example = install_engine-Installed encode applier setup []
