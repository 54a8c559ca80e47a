-- ===== src/Manager/Ended.antt =====
-- cmd/manager/main.go: when the process of the manager ends, and with which status.
use kubevirt_wol.Common.{
  [], none, some, ok, err, arith, Option, List, ℕ, All, ◌∷◌, ◌++◌, ◌≡◌, refl, inl, inr,
  Option-cases, Result-cases, ap, Text, ◌⊎◌, ◌∙◌,
}
use kubevirt_wol.Manager.{Flags, Environment, Framework, setup}
use kubevirt_wol.Manager.Serve.{
  Process, Event, listen_returns, serve_returns, cancel, wake, stop_returns, manager_returns,
  started, exit, step, run, manager_main,
}

-- The status with which an event ends the process, if it does.
abbrev pub ends : Event → Option ℕ
ends (listen_returns (ok u)) = none
ends (listen_returns (err e)) = some 1
ends (serve_returns (ok u)) = none
ends (serve_returns (err e)) = some 1
ends cancel = none
ends wake = none
ends stop_returns = none
ends (manager_returns (ok u)) = some 0
ends (manager_returns (err e)) = some 1

-- How events leave the process: still running, or ended by the last of them.
pub data Outcome (es : List Event) (p : Process) : Type 0 where
  running : p.status ≡ none → All (λ e. ends e ≡ none) es → Outcome es p
  ended :
      (before : List Event) (e : Event) (status : ℕ)
      → es ≡ before ++ e ∷ []
      → All (λ e. ends e ≡ none) before
      → ends e ≡ some status
      → p.status ≡ some status
      → Outcome es p

step-status :
    (e : Event) (p q : Process) → step e p ≡ some q → (p.status ≡ none) × (q.status ≡ ends e)
unfolding step
step-status (listen_returns (ok u)) p q h = ground arith
step-status (listen_returns (err e)) p q h = ground arith
step-status (serve_returns (ok u)) p q h = ground arith
step-status (serve_returns (err e)) p q h = ground arith
step-status cancel p q h = ground arith
step-status wake p q h = ground arith
step-status stop_returns p q h = ground arith
step-status (manager_returns (ok u)) p q h = ground arith
step-status (manager_returns (err e)) p q h = ground arith

prepend :
    (e : Event) (es : List Event) (p : Process) → ends e ≡ none → Outcome es p → Outcome (e ∷ es) p
prepend e es p quiet (running r all_quiet) = running r (quiet, all_quiet)
prepend e es p quiet (ended before last status h all_quiet ending r) =
    ended (e ∷ before) last status (ap (λ xs. e ∷ xs) h) (quiet, all_quiet) ending r

-- Nothing follows in a process that has ended.
run-ended :
    (es : List Event) (p q : Process) (status : ℕ)
    → p.status ≡ some status
    → run es p ≡ some q
    → (es ≡ []) × (q ≡ p)
unfolding run step
run-ended [] p q status end h = ground arith
run-ended (e ∷ es) p q status end h = ground (arith, end)

pub run-step :
    (e : Event) (es : List Event) (p q : Process)
    → run (e ∷ es) p ≡ some q
    → (p' : Process) × (step e p ≡ some p') × (run es p' ≡ some q)
unfolding run
run-step e es p q h = elim (Option-cases (step e p)) [
  | inl stuck ↦ ground (arith, stuck)
  | inr (p', stepped) ↦ (p', stepped, ground (arith, stepped))
]

run-Outcome : (es : List Event) (p q : Process) → p.status ≡ none → run es p ≡ some q → Outcome es q
unfolding run
run-Outcome [] p q alive h = let same : p ≡ q = ground arith in running (rw (← same) alive) tt
run-Outcome (e ∷ es) p q alive h =
    let (p', stepped, rest) = run-step e es p q h in
    let (_, s) = step-status e p p' stepped in
    elim (Option-cases (ends e)) [
      | inl quiet ↦ prepend e es q quiet (run-Outcome es p' q (s ∙ quiet) rest)
      | inr (status, ending) ↦
          let (last, same) = run-ended es p' q status (s ∙ ending) rest in
          ended [] e status (ap (λ xs. e ∷ xs) last) tt ending (rw same (s ∙ ending))
    ]

-- Whatever happens: where the manager cannot be set up, the process ends at once, with status 1.
-- Otherwise, it runs until the first of these, and nothing happens afterwards: net.Listen, Serve or
-- the manager's Start returns an error, for which the status is 1, or Start returns none, for which
-- it is 0.
pub manager_main-Outcome :
    {W M : Type 0} (fw : Framework W M) (flags : Flags) (env : Environment) (es : List Event)
    (p : Process)
    → manager_main fw flags env es ≡ some p
    → ((e : Text) × (setup fw flags env ≡ err e) × (es ≡ []) × (p.status ≡ some 1))
      ⊎ (m : M) × (setup fw flags env ≡ ok m) × Outcome es p
unfolding manager_main started
manager_main-Outcome fw flags env es p h = elim (Result-cases (setup fw flags env)) [
  | inl (m, made) ↦ inr (m, made, run-Outcome es started p refl (ground (arith, made)))
  | inr (e, failed) ↦
      let (none_follow, same) = run-ended es (exit 1 started) p 1 refl (ground (arith, failed)) in
      inl (e, failed, none_follow, rw same refl)
]
