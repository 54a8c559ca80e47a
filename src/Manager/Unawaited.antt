-- ===== src/Manager/Unawaited.antt =====
-- cmd/manager/main.go: the process does not wait for the gRPC server to be stopped.
use kubevirt_wol.Common.{
  refl, [], some, ok, err, arith, List, ◌∷◌, ◌≡◌, ◌≢◌, inl, inr, true, false, Bool-cases, Text,
  Result, Bool, if◌then◌else◌,
}
use kubevirt_wol.Manager.{Flags, Environment, Framework, setup}
use kubevirt_wol.Manager.Serve.{
  Stopping, waiting, stopping, stopped, Process, Event, listen_returns, serve_returns, cancel, wake,
  stop_returns, manager_returns, started, exit, step, run, after_setup, manager_main,
}
use kubevirt_wol.Manager.Ended.{run-step}

abbrev is_stop : Event → Bool
is_stop stop_returns = true
is_stop _ = false

-- The events without the return of GracefulStop.
unfoldable pub without_stop : List Event → List Event
without_stop [] = []
without_stop (e ∷ es) = let rest = without_stop es in if is_stop e then rest else e ∷ rest

-- The goroutine is still in GracefulStop.
abbrev pub still : Stopping → Stopping
still waiting = waiting
still stopping = stopping
still stopped = stopping

abbrev pub unstopped : Process → Process
unstopped p = record p { shutdown = still p.shutdown }

still-running : (s : Stopping) → still s ≢ stopped
still-running waiting h = cc
still-running stopping h = cc
still-running stopped h = cc

-- Every other event comes just the same.
step-unstopped :
    (e : Event) (p q : Process)
    → is_stop e ≡ false
    → step e p ≡ some q
    → step e (unstopped p) ≡ some (unstopped q)
unfolding step
step-unstopped (listen_returns (ok u)) p q other h = ground arith
step-unstopped (listen_returns (err e)) p q other h = ground arith
step-unstopped (serve_returns (ok u)) p q other h = ground arith
step-unstopped (serve_returns (err e)) p q other h = ground arith
step-unstopped cancel p q other h = ground arith
step-unstopped wake p q other h = ground arith
step-unstopped stop_returns p q other h = cc
step-unstopped (manager_returns (ok u)) p q other h = ground arith
step-unstopped (manager_returns (err e)) p q other h = ground arith

step-stop :
    (e : Event) (p q : Process) → is_stop e ≡ true → step e p ≡ some q → unstopped p ≡ unstopped q
unfolding step
step-stop e p q stop h = ground arith

run-unstopped :
    (es : List Event) (p q : Process)
    → run es p ≡ some q
    → run (without_stop es) (unstopped p) ≡ some (unstopped q)
unfolding run without_stop
run-unstopped [] p q h = ground arith
run-unstopped (e ∷ es) p q h =
    let (p', stepped, rest) = run-step e es p q h in
    let more = run-unstopped es p' q rest in
    elim (Bool-cases (is_stop e)) [
      | inl stop ↦ rw (stop, step-stop e p p' stop stepped) more
      | inr other ↦ rw (other, step-unstopped e p p' other stepped) more
    ]

-- However the process ends, it may end the same way, after the same other events in the same order,
-- although GracefulStop has not returned: `main` does not wait for it.
pub manager_main-unawaited :
    {W M : Type 0} (fw : Framework W M) (flags : Flags) (env : Environment) (es : List Event)
    (p : Process)
    → manager_main fw flags env es ≡ some p
    → (p' : Process) × (manager_main fw flags env (without_stop es) ≡ some p')
      × (p'.status ≡ p.status)
      × (p'.server ≡ p.server)
      × (p'.cancelled ≡ p.cancelled)
      × (p'.shutdown ≢ stopped)
unfolding manager_main started
manager_main-unawaited fw flags env es p h =
    (unstopped p, main_unstopped (setup fw flags env) h, refl, refl, refl, still-running p.shutdown)
  where
    main_unstopped :
        {M : Type 0} (r : Result Text M)
        → after_setup es r ≡ some p
        → after_setup (without_stop es) r ≡ some (unstopped p)
    main_unstopped (ok m) h = run-unstopped es started p h
    main_unstopped (err e) h = run-unstopped es (exit 1 started) p h
