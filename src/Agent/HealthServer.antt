-- ===== src/Agent/HealthServer.antt =====
-- internal/wol/agent.go: when the health server answers.
use kubevirt_wol.Common.{
  refl, [], some, ok, err, Text, ℕ, if◌then◌else◌, ◌∷◌, ◌≡◌, Result, none, true, false, arith,
  Option, List, Bool,
}
use kubevirt_wol.Agent.Life.{Life}

pub record Answer : Type 0 where
  pub status : ℕ
  pub body : Text

-- The server of the endpoints, before its port is opened, while it answers, and afterwards.
pub data HttpServer : Type 0 where
  unopened answering closed : HttpServer

-- The port of ListenAndServe is opened or not; the context is cancelled, on which the server is shut
-- down.
pub data ServerEvent : Type 0 where
  opens : Result Text (Unit {0}) → ServerEvent
  cancelled : ServerEvent

-- A server that was shut down does not open its port any more.
abbrev pub step_server : ServerEvent → HttpServer → HttpServer
step_server (opens (ok u)) unopened = answering
step_server (opens (err e)) unopened = closed
step_server (opens r) answering = answering
step_server (opens r) closed = closed
step_server cancelled h = closed

unfoldable pub run_server : List ServerEvent → HttpServer → HttpServer
run_server [] h = h
run_server (e ∷ es) h = run_server es (step_server e h)

-- `startHealthServer`, after these events
unfoldable pub start_health_server : List ServerEvent → HttpServer
start_health_server es = run_server es unopened

-- What a request gets, where it gets an answer.
abbrev pub respond : (Life → Answer) → HttpServer → Life → Option Answer
respond handler answering l = some (handler l)
respond handler unopened l = none
respond handler closed l = none

-- The context was not cancelled.
unfoldable pub quiet : List ServerEvent → Bool
quiet [] = true
quiet (opens r ∷ es) = quiet es
quiet (cancelled ∷ es) = false

-- The port was opened before the context was cancelled, which has not happened yet.
abbrev pub serves : List ServerEvent → Bool
serves [] = false
serves (opens (ok u) ∷ es) = quiet es
serves (opens (err e) ∷ es) = false
serves (cancelled ∷ es) = false

run_server-closed : (es : List ServerEvent) → run_server es closed ≡ closed
unfolding run_server
run_server-closed [] = refl
run_server-closed (opens r ∷ es) = run_server-closed es
run_server-closed (cancelled ∷ es) = run_server-closed es

run_server-answering :
    (es : List ServerEvent) → run_server es answering ≡ (if quiet es then answering else closed)
unfolding run_server quiet
run_server-answering [] = refl
run_server-answering (opens r ∷ es) = run_server-answering es
run_server-answering (cancelled ∷ es) = run_server-closed es

pub respond-serves :
    (handler : Life → Answer) (es : List ServerEvent) (l : Life)
    → respond handler (start_health_server es) l ≡ (if serves es then some (handler l) else none)
unfolding start_health_server run_server
respond-serves handler [] l = refl
respond-serves handler (opens (ok u) ∷ es) l = ground (arith, run_server-answering es)
respond-serves handler (opens (err e) ∷ es) l = rw (run_server-closed es) refl
respond-serves handler (cancelled ∷ es) l = rw (run_server-closed es) refl
