-- ===== src/Aggregator/Moves.antt =====
-- The handler of a report, cut at its critical sections.
use kubevirt_wol.Common.{ℕ, zero, suc, ◌≡◌, refl, Option, none, some, Text, Result, ok, err}
use kubevirt_wol.Cluster.{VmClient, count_packet, count_error, count_vm_started}
use kubevirt_wol.Mapper.{VmInfo, lookup}
use kubevirt_wol.VmStarter.{World, start_vm}
use kubevirt_wol.Aggregator.{
  WolEvent, WolEventResponse, Aggregator, Readings, check_duplicate, record_event, report_wol_event,
  milliseconds, not_found_response, Reply, error_response, initiated_response, answer_found,
  answer_checked, answer_start,
}

pub data Phase : Type 0 where
  checking looking_up : Phase
  starting : VmInfo → Phase
  recording : WolEventResponse → Phase
  returned : WolEventResponse → Phase

pub record Handler : Type 0 where
  pub readings : Readings
  pub event : WolEvent
  pub phase : Phase

pub record Shared (S : Type 0) : Type 0 where
  pub aggregator : Aggregator
  pub world : World S

module _ {S : Type 0} (client : VmClient S) (t : Readings) (event : WolEvent) where
  abbrev pub Moved : Type 0
  Moved = Phase × Shared S

  abbrev pub checked : World S → Aggregator × Option WolEventResponse → Moved
  checked w (a, some resp) = (
    returned (record resp { processing_time_ms = milliseconds t }),
    record { aggregator = a; world = w },
  )
  checked w (a, none) = (looking_up, record { aggregator = a; world = w })

  abbrev pub looked_up : Shared S → Option VmInfo → Moved
  looked_up s none = (recording (not_found_response t event), s)
  looked_up s (some vm) = (starting vm, s)

  abbrev pub started : Aggregator → VmInfo → World S × Result Text (Unit {0}) → Moved
  started a vm (w, err e) = (
    recording (error_response t vm e),
    record { aggregator = a; world = record w { metrics = count_error w.metrics } },
  )
  started a vm (w, ok _) = (
    recording (initiated_response t event vm),
    record { aggregator = a; world = record w { metrics = count_vm_started w.metrics } },
  )

  -- one move of a handler
  unfoldable pub move : Phase → Shared S → Moved
  move checking s =
      checked (record s.world { metrics = count_packet s.world.metrics })
        (check_duplicate t.checked event s.aggregator)
  move looking_up s = looked_up s (lookup event.mac_address s.aggregator.mapper)
  move (starting vm) s = started s.aggregator vm (start_vm client vm.namespace vm.name s.world)
  move (recording resp) s =
      (returned resp, record s { aggregator = record_event t.recorded event resp s.aggregator })
  move (returned resp) s = (returned resp, s)

  abbrev pub moves : ℕ → Moved → Moved
  moves zero m = m
  moves (suc n) (p, s) = moves n (move p s)

  abbrev pub as_moved : Reply client → Moved
  as_moved (a, w, resp) = (returned resp, record { aggregator = a; world = w })

  pub moves-started :
      (a : Aggregator) (vm : VmInfo) (r : World S × Result Text (Unit {0}))
      → moves 1 (started a vm r) ≡ as_moved (answer_start client t event a vm r)
  unfolding move
  moves-started a vm (w, ok u) = refl
  moves-started a vm (w, err e) = refl

  pub moves-looked_up :
      (a : Aggregator) (w : World S) (found : Option VmInfo)
      → moves 2 (looked_up (record { aggregator = a; world = w }) found)
        ≡ as_moved (answer_found client t event a w found)
  unfolding move
  moves-looked_up a w none = refl
  moves-looked_up a w (some vm) = moves-started a vm (start_vm client vm.namespace vm.name w)

  pub moves-checked :
      (w : World S) (c : Aggregator × Option WolEventResponse)
      → moves 3 (checked w c) ≡ as_moved (answer_checked client t event w c)
  unfolding move
  moves-checked w (a, some resp) = refl
  moves-checked w (a, none) = moves-looked_up a w (lookup event.mac_address a.mapper)

  -- A handler that runs alone does in four moves what the sequential handler does.
  pub moves-report :
      (s : Shared S)
      → moves 4 (checking, s) ≡ as_moved (report_wol_event client t event s.aggregator s.world)
  unfolding move report_wol_event
  moves-report s =
      moves-checked (record s.world { metrics = count_packet s.world.metrics })
        (check_duplicate t.checked event s.aggregator)
