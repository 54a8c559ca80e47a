-- ===== src/VmStarter/Start.antt =====
-- What StartVM does to the cluster, on every branch.
use kubevirt_wol.Common.{
  ◌&&◌, ◌↔◌, Bool-cases, ap, ◌∙◌, not, if-cases, ◌≡◌, ◌≢◌, ◌⊎◌, inl, inr, refl, List, [], ◌∷◌, ◌++◌,
  true, false, Option, none, some, Text, arith, Result, ok, err, append-nil,
}
use kubevirt_wol.Cluster.{
  unset, halted, manual, rerun_on_failure, other, starting, once, running, PrintableStatus, Vm,
  VmClient, RunStrategy, always, count_error,
}
use kubevirt_wol.VmStarter.{
  is_status_up, is_set, start_by_running, start_in, after_patch, start_by_strategy, World,
  RestoreTask, start_vm, start_found, is_up, needs_restore, is_always, is_true,
}

-- The VM is up already, or is configured to run.
abbrev pub ShallRun : Vm → Type 0
ShallRun vm =
    (is_up vm ≡ true)
    ⊎ (vm.run_strategy ≡ some always)
    ⊎ ((vm.run_strategy ≡ none) × (is_true vm.is_running ≡ true))

-- What the API promises of a patch: the VM is found as it was to be.
abbrev pub Patches : {S : Type 0} → VmClient S → Type 0
Patches {S} client =
    (s s' : S) (namespace name : Text) (vm vm' : Vm)
    → vm'.name ≡ vm.name
    → vm'.namespace ≡ vm.namespace
    → client.get_vm s namespace name ≡ ok vm
    → client.patch_vm s vm vm' ≡ ok s'
    → client.get_vm s' namespace name ≡ ok vm'

always_of : (strategy : RunStrategy) → not (is_always strategy) ≡ false → strategy ≡ always
always_of strategy h = ground arith

-- The VM runs, or is starting.
abbrev pub IsUp : Vm → Type 0
IsUp vm = (vm.ready ≡ true) ⊎ ((vm.printable_status ≡ running) ⊎ (vm.printable_status ≡ starting))

-- A strategy that is changed for a while only.
abbrev pub Passing : RunStrategy → Type 0
Passing strategy = (strategy ≡ once) ⊎ ((strategy ≡ rerun_on_failure) ⊎ (strategy ≡ manual))

status_up_iff :
    (s : PrintableStatus) → ((is_set s && is_status_up s) ≡ true) ↔ ((s ≡ running) ⊎ (s ≡ starting))
status_up_iff unset = (λ h. cc, λ h. ground arith)
status_up_iff running = (λ h. inl refl, λ h. refl)
status_up_iff starting = (λ h. inr refl, λ h. refl)
status_up_iff (other t) = (λ h. cc, λ h. ground arith)

is_up_iff : (vm : Vm) → (is_up vm ≡ true) ↔ IsUp vm
is_up_iff vm =
    let status = status_up_iff vm.printable_status in
    (
      λ h. elim (Bool-cases vm.ready) [
        | inl ready ↦ inl ready
        | inr waits ↦ inr (status.0 (ground (arith, waits)))
      ],
      λ h. ground arith,
    )

needs_restore_iff : (strategy : RunStrategy) → (needs_restore strategy ≡ true) ↔ Passing strategy
needs_restore_iff always = (λ h. cc, λ h. ground arith)
needs_restore_iff halted = (λ h. cc, λ h. ground arith)
needs_restore_iff manual = (λ h. inr (inr refl), λ h. refl)
needs_restore_iff rerun_on_failure = (λ h. inr (inl refl), λ h. refl)
needs_restore_iff once = (λ h. inl refl, λ h. refl)
needs_restore_iff (other t) = (λ h. cc, λ h. ground arith)

module _ {S : Type 0} (client : VmClient S) (namespace name : Text) (w : World S) where
  abbrev pub after : World S
  after = (start_vm client namespace name w).0

  Configured : World S → Type 0
  Configured w' = (vm : Vm) × (client.get_vm w'.cluster namespace name ≡ ok vm) × ShallRun vm

  -- If it succeeded, the VM is up or is configured to run.
  Succeeds : World S × Result Text (Unit {0}) → Type 0
  Succeeds out = out.1 ≡ ok tt → Configured out.0

  Succeeds-idle :
      (vm : Vm) → client.get_vm w.cluster namespace name ≡ ok vm → ShallRun vm → Succeeds (w, ok tt)
  unfolding Succeeds Configured
  Succeeds-idle vm found shall h = (vm, found, shall)

  Succeeds-after_patch :
      (vm vm' : Vm) (spawned : List RestoreTask)
      → Patches client
      → client.get_vm w.cluster namespace name ≡ ok vm
      → ShallRun vm'
      → vm'.name ≡ vm.name
      → vm'.namespace ≡ vm.namespace
      → (r : Result Text S) → client.patch_vm w.cluster vm vm' ≡ r
      → Succeeds (after_patch client namespace name w spawned r)
  unfolding Succeeds Configured
  Succeeds-after_patch vm vm' spawned law found shall n ns (ok s') p h =
      (vm', law w.cluster s' namespace name vm vm' n ns found p, shall)
  Succeeds-after_patch vm vm' spawned law found shall n ns (err e) p h = cc

  Succeeds-by_strategy :
      (vm : Vm) (strategy : RunStrategy)
      → Patches client
      → client.get_vm w.cluster namespace name ≡ ok vm
      → vm.run_strategy ≡ some strategy
      → Succeeds (start_by_strategy client namespace name w vm strategy)
  Succeeds-by_strategy vm strategy law found st =
      let started : Vm = record vm { run_strategy = some always } in
      let restore : RestoreTask = record {
        namespace = namespace;
        name = name;
        original_strategy = strategy;
      } in
      if-cases Succeeds (is_up vm) (λ up. Succeeds-idle vm found (inl up))
        λ down.
          if-cases Succeeds (needs_restore strategy)
            (λ _.
              Succeeds-after_patch vm started (restore ∷ []) law found (inr (inl refl)) refl refl _
                refl)
            λ _.
              if-cases Succeeds (not (is_always strategy))
                (λ _.
                  Succeeds-after_patch vm started [] law found (inr (inl refl)) refl refl _ refl)
                λ set. Succeeds-idle vm found (inr (inl (st ∙ ap some (always_of strategy set))))

  Succeeds-by_running :
      (vm : Vm)
      → Patches client
      → client.get_vm w.cluster namespace name ≡ ok vm
      → vm.run_strategy ≡ none
      → Succeeds (start_by_running client namespace name w vm)
  Succeeds-by_running vm law found st =
      if-cases Succeeds (is_true vm.is_running) (λ on. Succeeds-idle vm found (inr (inr (st, on))))
        λ _.
          Succeeds-after_patch vm (record vm { is_running = some true }) [] law found
            (inr (inr (st, refl))) refl refl _ refl

  Succeeds-in :
      (vm : Vm) (st : Option RunStrategy)
      → Patches client
      → client.get_vm w.cluster namespace name ≡ ok vm
      → vm.run_strategy ≡ st
      → Succeeds (start_in client namespace name w vm st)
  Succeeds-in vm none law found e = Succeeds-by_running vm law found e
  Succeeds-in vm (some strategy) law found e = Succeeds-by_strategy vm strategy law found e

  Succeeds-found :
      (r : Result Text Vm)
      → Patches client
      → client.get_vm w.cluster namespace name ≡ r
      → Succeeds (start_found client namespace name w r)
  unfolding Succeeds
  Succeeds-found (ok vm) law found h = Succeeds-in vm vm.run_strategy law found refl h
  Succeeds-found (err e) law found h = cc

  -- Where a patched VM is found as it was patched: when StartVM succeeds, the VM is up or is
  -- configured to run.
  pub start_vm-ShallRun :
      Patches client
      → (start_vm client namespace name w).1 ≡ ok tt
      → (vm : Vm) × (client.get_vm after.cluster namespace name ≡ ok vm) × ShallRun vm
  unfolding start_vm Succeeds Configured
  start_vm-ShallRun law = Succeeds-found (client.get_vm w.cluster namespace name) law refl

  -- A VM that is up already, or is set to run, is left alone: nothing is patched, no counter moves
  -- and no goroutine starts.
  pub start_vm-idle :
      {vm : Vm}
      → client.get_vm w.cluster namespace name ≡ ok vm
      → (vm.run_strategy ≢ none) × (is_up vm ≡ true)
        ⊎ (vm.run_strategy ≡ some always)
        ⊎ ((vm.run_strategy ≡ none) × (is_true vm.is_running ≡ true))
      → start_vm client namespace name w ≡ (w, ok tt)
  unfolding start_vm
  start_vm-idle found h = ground arith

  -- A failure leaves the cluster and the goroutines as they were, and counts one error.
  pub start_vm-err :
      {e : Text}
      → (start_vm client namespace name w).1 ≡ err e
      → after ≡ record w { metrics = count_error w.metrics }
  unfolding start_vm
  start_vm-err h = ground arith

  -- Of a VM with a run strategy: when StartVM succeeds, it has started a goroutine that restores the
  -- strategy if the VM was neither running nor starting and the strategy is Once, RerunOnFailure or
  -- Manual, and hands it that strategy; else it has started none.
  pub start_vm-restores :
      {vm : Vm} {strategy : RunStrategy}
      → client.get_vm w.cluster namespace name ≡ ok vm
      → vm.run_strategy ≡ some strategy
      → (start_vm client namespace name w).1 ≡ ok tt
      → (after.restores
            ≡ w.restores
              ++ record { namespace = namespace; name = name; original_strategy = strategy } ∷ [])
          × (¬ IsUp vm)
          × Passing strategy
        ⊎ (after.restores ≡ w.restores) × (IsUp vm ⊎ (¬ Passing strategy))
  unfolding start_vm
  start_vm-restores {vm} {strategy} found st h =
      let up = is_up_iff vm in
      let passing = needs_restore_iff strategy in
      elim (Bool-cases (is_up vm)) [
        | inl runs ↦ inr (ground (arith, runs), inl (up.0 runs))
        | inr stands ↦ elim (Bool-cases (needs_restore strategy)) [
          | inl changes ↦
              inl (ground (arith, stands, changes), (λ u. absurd (ground arith)), passing.0 changes)
          | inr stays ↦ inr (
            ground (arith, stands, stays, append-nil w.restores),
            inr (λ q. absurd (ground arith)),
          )
        ]
      ]
