-- ===== src/VmStarter.antt =====
-- internal/wol/kubevirt.go: starting a VM, and giving it back its run strategy once it runs.
pub mod Start
pub mod Restore
mod Tests
use kubevirt_wol.Common.{
  ℕ, zero, suc, List, [], ◌∷◌, ◌++◌, Bool, true, false, Option, none, some, Text, codes,
  if◌then◌else◌, Result, ok, err, ◌&&◌, ◌||◌, not,
}
use kubevirt_wol.Cluster.{
  Vm, VmClient, RunStrategy, PrintableStatus, always, halted, manual, rerun_on_failure, once, unset,
  running, starting, Metrics, count_error, count_vm_started,
}

-- A goroutine of `restoreStrategyWhenRunning` that was started.
pub record RestoreTask : Type 0 where
  pub namespace : Text
  pub name : Text
  pub original_strategy : RunStrategy

-- What StartVM works on: the cluster, the metrics and the goroutines started.
pub record World (S : Type 0) : Type 0 where
  pub cluster : S
  pub metrics : Metrics
  pub restores : List RestoreTask

abbrev pub is_always : RunStrategy → Bool
is_always always = true
is_always _ = false

-- the strategies that are changed for a while only
abbrev pub needs_restore : RunStrategy → Bool
needs_restore once = true
needs_restore rerun_on_failure = true
needs_restore manual = true
needs_restore _ = false

abbrev pub is_status_running : PrintableStatus → Bool
is_status_running running = true
is_status_running _ = false

abbrev pub is_status_up : PrintableStatus → Bool
is_status_up running = true
is_status_up starting = true
is_status_up _ = false

abbrev pub is_set : PrintableStatus → Bool
is_set unset = false
is_set _ = true

-- `isRunning` of StartVM, which counts a VM that is starting
abbrev pub is_up : Vm → Bool
is_up vm = vm.ready || is_set vm.printable_status && is_status_up vm.printable_status

-- `isRunning` of restoreStrategyWhenRunning, which does not
abbrev pub is_running_now : Vm → Bool
is_running_now vm = vm.ready || is_set vm.printable_status && is_status_running vm.printable_status

abbrev pub is_true : Option Bool → Bool
is_true (some true) = true
is_true _ = false

abbrev pub failure : Text → Text → Text → Text → Text
failure what namespace name e =
    codes "failed to " ++ what ++ codes " VM " ++ namespace ++ codes "/" ++ name ++ codes ": " ++ e

module _ {S : Type 0} (client : VmClient S) (namespace name : Text) where
  -- the end of each branch that patches; `spawned` are the goroutines that the branch starts
  abbrev after_patch : World S → List RestoreTask → Result Text S → World S × Result Text (Unit {0})
  after_patch w spawned (err e) =
      (record w { metrics = count_error w.metrics }, err (failure (codes "start") namespace name e))
  after_patch w spawned (ok s) = (
    record { cluster = s; metrics = count_vm_started w.metrics; restores = w.restores ++ spawned },
    ok tt,
  )

  abbrev start_by_strategy : World S → Vm → RunStrategy → World S × Result Text (Unit {0})
  start_by_strategy w vm strategy =
      let started : Vm = record vm { run_strategy = some always } in
      let restore : RestoreTask = record {
        namespace = namespace;
        name = name;
        original_strategy = strategy;
      } in
      if is_up vm
      then (w, ok tt)
      else if needs_restore strategy
      then after_patch w (restore ∷ []) (client.patch_vm w.cluster vm started)
      else if not (is_always strategy)
      then after_patch w [] (client.patch_vm w.cluster vm started)
      else (w, ok tt)

  -- the deprecated field `Running`
  abbrev start_by_running : World S → Vm → World S × Result Text (Unit {0})
  start_by_running w vm =
      if is_true vm.is_running
      then (w, ok tt)
      else after_patch w [] (client.patch_vm w.cluster vm (record vm { is_running = some true }))

  abbrev start_in : World S → Vm → Option RunStrategy → World S × Result Text (Unit {0})
  start_in w vm (some strategy) = start_by_strategy w vm strategy
  start_in w vm none = start_by_running w vm

  abbrev start_found : World S → Result Text Vm → World S × Result Text (Unit {0})
  start_found w (err e) =
      (record w { metrics = count_error w.metrics }, err (failure (codes "get") namespace name e))
  start_found w (ok vm) = start_in w vm vm.run_strategy

  unfoldable pub start_vm : World S → World S × Result Text (Unit {0})
  start_vm w = start_found w (client.get_vm w.cluster namespace name)

-- How a run of restoreStrategyWhenRunning ends; `restored` and `patch_failed` tell the attempt.
pub data Restored (S : Type 0) : Type 0 where
  restored : ℕ → S → Restored S
  patch_failed : ℕ → Text → Restored S
  timed_out : Restored S

abbrev pub max_attempts : ℕ
max_attempts = 60

module _ {S : Type 0} (client : VmClient S) (r : RestoreTask) (at_attempt : ℕ → S) where
  abbrev patched : ℕ → Result Text S → Restored S
  patched attempt (ok s) = restored attempt s
  patched attempt (err e) = patch_failed attempt e

  abbrev put_back : Vm → Vm
  put_back vm = record vm { run_strategy = some r.original_strategy }

  -- one round, and what follows if it goes on
  abbrev attempt_once : ℕ → Result Text Vm → Restored S → Restored S
  attempt_once attempt (err e) rest = rest
  attempt_once attempt (ok vm) rest =
      if is_running_now vm
      then patched attempt (client.patch_vm (at_attempt attempt) vm (put_back vm))
      else rest

  -- the rounds left, and `attempt`; `at_attempt i` is the cluster when round i has slept
  unfoldable pub restore_from : ℕ → ℕ → Restored S
  restore_from zero attempt = timed_out
  restore_from (suc rounds) attempt =
      let rest = restore_from rounds (suc attempt) in
      attempt_once attempt (client.get_vm (at_attempt attempt) r.namespace r.name) rest

  unfoldable pub restore_strategy_when_running : Restored S
  restore_strategy_when_running = restore_from max_attempts 0

abbrev running_vm : Result Text Vm → Text → Text → Result Text Bool
running_vm (err e) namespace name = err (failure (codes "get") namespace name e)
running_vm (ok vm) namespace name =
    if is_true vm.is_running then ok true else if vm.ready then ok true else ok false

unfoldable pub is_vm_running : {S : Type 0} → VmClient S → S → Text → Text → Result Text Bool
is_vm_running client s namespace name = running_vm (client.get_vm s namespace name) namespace name
