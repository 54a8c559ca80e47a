-- ===== src/Manager/Serve.antt =====
-- cmd/manager/main.go, from where the manager is set up: the goroutine that serves the agents, the one
-- that stops the gRPC server, and the manager itself, as steps of one process. What the calls return,
-- and when, are the events.
use kubevirt_wol.Common.{
  [], none, some, true, false, ok, err, Text, Result, Option, List, Bool, ℕ, ◌∷◌,
}
use kubevirt_wol.Manager.{Flags, Environment, Framework, setup}

-- The goroutine of the server waits in net.Listen or in Serve, or has ended.
pub data Serving : Type 0 where
  listening : Serving
  serving : Serving
  served : Serving

-- The other waits for the context or in GracefulStop, or has ended.
pub data Stopping : Type 0 where
  waiting : Stopping
  stopping : Stopping
  stopped : Stopping

pub record Process : Type 0 where
  pub server : Serving
  pub shutdown : Stopping
  pub cancelled : Bool
  pub status : Option ℕ

-- `cancel`: the handler of signals cancels the context. `wake`: the goroutine receives from ctx.Done().
-- The others are the returns of net.Listen, Serve, GracefulStop and the manager's Start.
pub data Event : Type 0 where
  listen_returns : Result Text (Unit {0}) → Event
  serve_returns : Result Text (Unit {0}) → Event
  cancel : Event
  wake : Event
  stop_returns : Event
  manager_returns : Result Text (Unit {0}) → Event

unfoldable pub started : Process
started = record { server = listening; shutdown = waiting; cancelled = false; status = none }

abbrev pub exit : ℕ → Process → Process
exit status p = record p { status = some status }

-- Where the goroutine is not in the call, the call cannot return.
abbrev pub after_listen : Result Text (Unit {0}) → Process → Serving → Option Process
after_listen (ok u) p listening = some (record p { server = serving })
after_listen (err e) p listening = some (exit 1 p)
after_listen r p serving = none
after_listen r p served = none

abbrev pub after_serve : Result Text (Unit {0}) → Process → Serving → Option Process
after_serve (ok u) p serving = some (record p { server = served })
after_serve (err e) p serving = some (exit 1 p)
after_serve r p listening = none
after_serve r p served = none

abbrev pub after_wake : Process → Stopping → Bool → Option Process
after_wake p waiting true = some (record p { shutdown = stopping })
after_wake p waiting false = none
after_wake p stopping c = none
after_wake p stopped c = none

abbrev pub after_stop : Process → Stopping → Option Process
after_stop p stopping = some (record p { shutdown = stopped })
after_stop p waiting = none
after_stop p stopped = none

-- `main` returns, and the process ends, as soon as the manager has returned.
abbrev pub after_manager : Result Text (Unit {0}) → Process → Process
after_manager (ok u) p = exit 0 p
after_manager (err e) p = exit 1 p

abbrev pub proceed : Event → Process → Option Process
proceed (listen_returns r) p = after_listen r p p.server
proceed (serve_returns r) p = after_serve r p p.server
proceed cancel p = some (record p { cancelled = true })
proceed wake p = after_wake p p.shutdown p.cancelled
proceed stop_returns p = after_stop p p.shutdown
proceed (manager_returns r) p = some (after_manager r p)

-- Nothing happens in a process that has ended.
abbrev pub unless_ended : Option ℕ → Option Process → Option Process
unless_ended none next = next
unless_ended (some status) next = none

-- `none` where the event cannot come.
unfoldable pub step : Event → Process → Option Process
step e p = unless_ended p.status (proceed e p)

infixl 5 ◌>>=◌
abbrev ◌>>=◌ : {A B : Type 0} → Option A → (A → Option B) → Option B
some a >>= f = f a
none >>= f = none

unfoldable pub run : List Event → Process → Option Process
run [] p = some p
run (e ∷ es) p = do p' ← step e p; run es p'

-- `main`: a set-up that fails exits at once.
abbrev pub after_setup : {M : Type 0} → List Event → Result Text M → Option Process
after_setup es (ok m) = run es started
after_setup es (err e) = run es (exit 1 started)

unfoldable pub manager_main :
    {W M : Type 0} → Framework W M → Flags → Environment → List Event → Option Process
manager_main fw flags env es = after_setup es (setup fw flags env)
