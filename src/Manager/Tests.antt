-- ===== src/Manager/Tests.antt =====
-- The manager on a framework that keeps what is added to it.
use kubevirt_wol.Common.{
  refl, [], none, some, ok, arith, ap, sym, codes, Text, Result, Option, List, text_eq, ◌∷◌, ◌++◌,
  ◌≡◌, true, err, ◌⊎◌, ◌≢◌,
}
use kubevirt_wol.Manager.{
  Flags, Environment, Runnable, cert_watcher, startup_reconciler, default_flags, Framework, setup,
  cert_watcher_for,
}
use kubevirt_wol.Manager.Setup.{RunsAdded, Made, startup_of, watcher_of, setup-runs}
use kubevirt_wol.Manager.Standby.{new_replica, standby-idle}
use kubevirt_wol.Manager.Serve.{
  Event, Process, served, stopped, listen_returns, serve_returns, cancel, wake, stop_returns,
  manager_returns, started, step, run, manager_main,
}
use kubevirt_wol.Manager.Ended.{Outcome, manager_main-Outcome}
use kubevirt_wol.Manager.Unawaited.{without_stop, manager_main-unawaited}
use kubevirt_wol.Aggregator.{Received, report_wol_event_stream}
use kubevirt_wol.Examples.{sample_event, sample_world, sample_vm, one_vm}

abbrev Kept : Type 0
Kept = List (Runnable Text) × Option Environment

-- A watcher is the name of its certificate; the checks of health are not kept.
abbrev keeping : Framework Text Kept
keeping = record {
  watcher = λ cert key. ok cert;
  in_directory = λ path name. path ++ b'/' ∷ name;
  new_manager = λ o. ok ([], none);
  setup_controller = λ env m. ok (m.0, some env);
  add = λ r m. ok (m.0 ++ r ∷ [], m.1);
  add_healthz_check = λ name m. ok m;
  add_readyz_check = λ name m. ok m;
}

of_ok : {A : Type 0} {a b : A} → (let r : Result Text A = ok a in r) ≡ ok b → a ≡ b
of_ok h = ground arith

keeping-RunsAdded : RunsAdded keeping (λ m. m.0) (λ m. m.1)
keeping-RunsAdded = record {
  starts = λ flags webhook metrics m h. ap (λ (k : Kept). k.0) (sym (of_ok h));
  controls = λ env m m' h. rw (← of_ok h) (refl, refl);
  adds = λ r m m' h. rw (← of_ok h) (refl, refl);
  checks_health = λ name m m' h. rw (← of_ok h) (refl, refl);
  checks_ready = λ name m m' h. rw (← of_ok h) (refl, refl);
}

abbrev flags : Flags
flags = record default_flags { metrics_cert_path = codes "/certs" }

abbrev environment : Environment
environment = record { agent_image = codes "agent:1"; pod_namespace = codes "wol" }

abbrev managed : Kept
managed =
    (startup_reconciler environment ∷ cert_watcher (codes "/certs/tls.crt") ∷ [], some environment)

is_set_up : setup keeping flags environment ≡ ok managed
unfolding setup cert_watcher_for text_eq
is_set_up = refl

setup-runs_example :
    (webhook : Option Text) × (metrics : Option Text) × Made keeping []
      (codes "tls.crt")
      (codes "tls.key")
      webhook
    × Made keeping (codes "/certs") (codes "tls.crt") (codes "tls.key") metrics
    × (managed.1 ≡ some environment)
    × (managed.0 ≡ startup_of environment ++ (watcher_of metrics ++ watcher_of webhook))
setup-runs_example = setup-runs keeping-RunsAdded flags environment managed is_set_up

abbrev heard : Received
heard = record {
  readings = record { started = 1; checked = 1; answered = 1; recorded = 1 };
  event = sample_event;
  send_error = none;
}

standby-idle_example :
    (report_wol_event_stream one_vm
      (codes "EOF")
      (heard ∷ [])
      new_replica
      (sample_world sample_vm)).1.cluster
    ≡ (sample_world sample_vm).cluster
standby-idle_example = standby-idle one_vm (codes "EOF") (heard ∷ []) (sample_world sample_vm)

abbrev shut_down : List Event
shut_down =
    listen_returns (ok tt)
    ∷ cancel
    ∷ wake
    ∷ stop_returns
    ∷ serve_returns (ok tt)
    ∷ manager_returns (ok tt)
    ∷ []

abbrev over : Process
over = record { server = served; shutdown = stopped; cancelled = true; status = some 0 }

shut_down-over : manager_main keeping flags environment shut_down ≡ some over
unfolding manager_main setup cert_watcher_for text_eq run step started
shut_down-over = refl

manager_main-Outcome_example :
    ((e : Text) × (setup keeping flags environment ≡ err e)
      × (shut_down ≡ [])
      × (over.status ≡ some 1))
    ⊎ (m : Kept) × (setup keeping flags environment ≡ ok m) × Outcome shut_down over
manager_main-Outcome_example =
    manager_main-Outcome keeping flags environment shut_down over shut_down-over

manager_main-unawaited_example :
    (p' : Process) × (manager_main keeping flags environment (without_stop shut_down) ≡ some p')
    × (p'.status ≡ over.status)
    × (p'.server ≡ over.server)
    × (p'.cancelled ≡ over.cancelled)
    × (p'.shutdown ≢ stopped)
manager_main-unawaited_example =
    manager_main-unawaited keeping flags environment shut_down over shut_down-over
