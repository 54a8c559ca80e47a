-- ===== src/VmStarter/Tests.antt =====
-- Runs of the starter, and its theorems at concrete VMs.
use kubevirt_wol.Common.{
  ℕ, ◌≡◌, ◌⊎◌, ◌++◌, refl, [], ◌∷◌, codes, some, arith, ok, ltb, if◌then◌else◌,
}
use kubevirt_wol.Cluster.{Vm, once, always, count_vm_started}
use kubevirt_wol.VmStarter.{
  RestoreTask, start_vm, restore_strategy_when_running, restore_from, restored, timed_out,
  max_attempts,
}
use kubevirt_wol.VmStarter.Start
use kubevirt_wol.VmStarter.Start.{IsUp, Passing, ShallRun, Patches, after}
use kubevirt_wol.VmStarter.Restore
use kubevirt_wol.VmStarter.Restore.{Ends}
use kubevirt_wol.Examples.{sample_vm, up_vm, one_vm, sample_world}

one_vm-Patches : Patches one_vm
one_vm-Patches s s' namespace name vm vm' n ns found patched = ground arith

abbrev sample_task : RestoreTask
sample_task = record { namespace = codes "ns"; name = codes "vm"; original_strategy = once }

-- The VM runs from the third read on.
abbrev slow_boot : ℕ → Vm
slow_boot i = if ltb i 2 then sample_vm else up_vm

started_once : start_vm one_vm (codes "ns") (codes "vm") (sample_world sample_vm) ≡ (
  record {
    cluster = record sample_vm { run_strategy = some always };
    metrics = record { packets = 0; vm_started = 1; errors = 0; managed_vms = 0 };
    restores = sample_task ∷ [];
  },
  ok tt,
)
unfolding start_vm count_vm_started
started_once = refl

third : restore_strategy_when_running one_vm sample_task slow_boot ≡ restored 2 up_vm
unfolding restore_strategy_when_running restore_from
third = refl

never : restore_strategy_when_running one_vm sample_task (λ i. sample_vm) ≡ timed_out
unfolding restore_strategy_when_running restore_from
never = refl

start_vm-restores_example :
    ((after one_vm (codes "ns") (codes "vm") (sample_world sample_vm)).restores
        ≡ [] ++ sample_task ∷ [])
      × (¬ IsUp sample_vm)
      × Passing once
    ⊎ ((after one_vm (codes "ns") (codes "vm") (sample_world sample_vm)).restores ≡ [])
      × (IsUp sample_vm ⊎ (¬ Passing once))
unfolding start_vm
start_vm-restores_example =
    Start.start_vm-restores one_vm (codes "ns") (codes "vm") (sample_world sample_vm)
      {vm = sample_vm} refl refl refl

restore-Ends_example :
    Ends one_vm sample_task slow_boot 0 max_attempts
      (restore_strategy_when_running one_vm sample_task slow_boot)
restore-Ends_example = Restore.restore-Ends one_vm sample_task slow_boot
