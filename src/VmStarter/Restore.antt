-- ===== src/VmStarter/Restore.antt =====
-- The loop of restoreStrategyWhenRunning: it patches at most once, at the first attempt that sees the
-- VM running.
use kubevirt_wol.Common.{
  ==_iff, if-cases, ◌==◌, ℕ, zero, suc, ◌+◌, ◌≤◌, ◌<◌, ◌≡◌, inl, inr, refl, Bool, true, false, some,
  Text, arith, Result, ok, err, Result-cases, Bool-cases,
}
use kubevirt_wol.Cluster.{Vm, VmClient}
use kubevirt_wol.VmStarter.{
  RestoreTask, Restored, restored, timed_out, is_running_now, restore_from, patched, put_back,
  restore_strategy_when_running, max_attempts, attempt_once,
}
use kubevirt_wol.VmStarter.Start.{Patches}

-- A read of the VM that finds it running.
abbrev pub sees : Result Text Vm → Bool
sees (ok vm) = is_running_now vm
sees (err e) = false

module _ {S : Type 0} (client : VmClient S) (r : RestoreTask) (at_attempt : ℕ → S) where
  abbrev pub read : ℕ → Result Text Vm
  read i = client.get_vm (at_attempt i) r.namespace r.name

  -- How attempts from `first` up to `last` can end: none sees the VM running, and the loop times out;
  -- or the first that does patches the VM back, and the loop ends as the patch does.
  pub data Ends (first last : ℕ) (out : Restored S) : Type 0 where
    quiet :
        ((j : ℕ) → first ≤ j → j < last → sees (read j) ≡ false)
        → out ≡ timed_out
        → Ends first last out
    seen :
        (i : ℕ) (vm : Vm)
        → first ≤ i
        → i < last
        → ((j : ℕ) → first ≤ j → j < i → sees (read j) ≡ false)
        → read i ≡ ok vm
        → is_running_now vm ≡ true
        → out
          ≡ patched client r at_attempt i
              (client.patch_vm (at_attempt i) vm (put_back client r at_attempt vm))
        → Ends first last out

  before :
      {a i j : ℕ}
      → sees (read a) ≡ false
      → ((k : ℕ) → suc a ≤ k → k < i → sees (read k) ≡ false)
      → a ≤ j
      → j < i
      → sees (read j) ≡ false
  before {a} {i} {j} first rest lo hi = elim (Bool-cases (a == j)) [
    | inl same ↦ rw (← (==_iff a j).0 same) first
    | inr other ↦ rest j (ground arith) hi
  ]

  Ends-later :
      (a b : ℕ) (out : Restored S) → sees (read a) ≡ false → Ends (suc a) b out → Ends a b out
  Ends-later a b out h (quiet none_seen e) = quiet (λ j lo hi. before h none_seen lo hi) e
  Ends-later a b out h (seen i vm lo hi none_seen found up e) =
      seen i vm (omega arith) hi (λ j lo' hi'. before h none_seen lo' hi') found up e

  attempt_once-Ends :
      (a b : ℕ) (rest : Restored S) (v : Result Text Vm)
      → a < b
      → read a ≡ v
      → Ends (suc a) b rest
      → Ends a b (attempt_once client r at_attempt a v rest)
  attempt_once-Ends a b rest (err e) lt found later = Ends-later a b rest (rw found refl) later
  attempt_once-Ends a b rest (ok vm) lt found later =
      if-cases (Ends a b) (is_running_now vm)
        (λ up. seen a vm (omega arith) lt (λ j lo hi. absurd (omega arith)) found up refl)
        (λ down. Ends-later a b rest (rw found down) later)

  restore_from-Ends :
      (rounds a b : ℕ) → a + rounds ≡ b → Ends a b (restore_from client r at_attempt rounds a)
  unfolding restore_from
  restore_from-Ends zero a b e = quiet (λ j lo hi. absurd (omega arith)) refl
  restore_from-Ends (suc rounds) a b e =
      attempt_once-Ends a b (restore_from client r at_attempt rounds (suc a)) (read a) (omega arith)
        refl (restore_from-Ends rounds (suc a) b (omega arith))

  -- Whatever the cluster does in the meantime, the loop ends within its 60 attempts: either none
  -- of them sees the VM running, and nothing was patched, or the first one that does patches the
  -- original strategy back and the loop ends as this one patch does.
  pub restore-Ends : Ends 0 max_attempts (restore_strategy_when_running client r at_attempt)
  unfolding restore_strategy_when_running
  restore-Ends = restore_from-Ends max_attempts 0 max_attempts refl

  Ends-restored :
      {first last i : ℕ} {s : S} (out : Restored S)
      → Patches client
      → Ends first last out
      → out ≡ restored i s
      → (vm : Vm) × (client.get_vm s r.namespace r.name ≡ ok vm)
        × (vm.run_strategy ≡ some r.original_strategy)
  Ends-restored out law (quiet none_seen e) h = cc
  Ends-restored {i} {s} out law (seen j vm lo hi none_seen found up e) h =
      elim (Result-cases (client.patch_vm (at_attempt j) vm (put_back client r at_attempt vm))) [
        | inl (s', done) ↦
            let back = put_back client r at_attempt vm in
            let same : s' ≡ s = ground arith in
            (
              back,
              rw (← same) (law (at_attempt j) s' r.namespace r.name vm back refl refl found done),
              refl,
            )
        | inr (x, failed) ↦ absurd (ground arith)
      ]

  -- Where a patched VM is found as it was patched: if the loop ends by restoring, the VM has its
  -- original strategy again.
  pub restore-original :
      {i : ℕ} {s : S}
      → Patches client
      → restore_strategy_when_running client r at_attempt ≡ restored i s
      → (vm : Vm) × (client.get_vm s r.namespace r.name ≡ ok vm)
        × (vm.run_strategy ≡ some r.original_strategy)
  restore-original law h =
      Ends-restored (restore_strategy_when_running client r at_attempt) law restore-Ends h
