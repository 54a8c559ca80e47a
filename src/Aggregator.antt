-- ===== src/Aggregator.antt =====
-- internal/wol/aggregator.go: the gRPC service that the agents report to. Each handler is a function
-- from the state before to the state after and the response; the readings of the clock that it makes
-- are an argument. Times are nanoseconds.
mod Messages
pub mod Responses
pub mod Burst
pub mod Debounce
pub mod Windows
pub mod System
pub mod Spaced
pub mod Cleanup
pub mod Moves
pub mod Progress
pub mod Race
pub mod Counts
mod Tests
unfoldable pub use Messages.*
use kubevirt_wol.Common.{
  ℕ, suc, ◌+◌, ◌-◌, ◌*◌, ◌/◌, List, [], ◌∷◌, ◌++◌, Bool, true, false, Option, none, some, Text,
  codes, ltb, if◌then◌else◌, length, Assoc, get, put, retain, Result, ok, err, format_nat, not,
  ◌==◌,
}
use kubevirt_wol.Cluster.{VmClient, Metrics, count_packet, count_error, count_vm_started}
use kubevirt_wol.Mapper.{VmInfo, MacMapper, lookup, get_mapping_count}
use kubevirt_wol.VmStarter.{World, start_vm}

pub record Aggregator : Type 0 where
  pub mapper : MacMapper
  pub dedupe_map : Assoc DedupeEntry
  pub dedupe_duration : ℕ

abbrev pub second : ℕ
second = 1_000_000_000

unfoldable pub new_aggregator : MacMapper → Aggregator
new_aggregator mapper = record { mapper = mapper; dedupe_map = []; dedupe_duration = 10 * second }

-- now.Sub(seen) < window: the difference is signed
abbrev pub is_within : ℕ → ℕ → ℕ → Bool
is_within now seen window = ltb now (seen + window)

abbrev vm_info_of : Option WolEventResponse → Option VmState
vm_info_of none = none
vm_info_of (some resp) = resp.vm_info

-- what a duplicate is answered
abbrev duplicate_response : DedupeEntry → WolEventResponse
duplicate_response entry = record {
  status = duplicate;
  message =
      codes "Event already processed recently (seen on "
      ++ format_nat entry.count
      ++ codes " nodes)";
  vm_info = vm_info_of entry.last_response;
  was_duplicate = true;
  processing_time_ms = 0;
}

abbrev seen_again : ℕ → WolEvent → DedupeEntry → DedupeEntry
seen_again now event entry = record entry {
  count = entry.count + 1;
  nodes = entry.nodes ++ event.node_name ∷ [];
  last_seen = now;
}

abbrev check_entry :
    ℕ → WolEvent → Aggregator → Option DedupeEntry → Aggregator × Option WolEventResponse
check_entry now event a none = (a, none)
check_entry now event a (some entry) =
    let again = seen_again now event entry in
    if is_within now entry.last_seen a.dedupe_duration
    then (
      record a { dedupe_map = put event.mac_address again a.dedupe_map },
      some (duplicate_response again),
    )
    else (a, none)

-- The result `false, nil` is `none`.
unfoldable pub check_duplicate : ℕ → WolEvent → Aggregator → Aggregator × Option WolEventResponse
check_duplicate now event a = check_entry now event a (get event.mac_address a.dedupe_map)

unfoldable pub record_event : ℕ → WolEvent → WolEventResponse → Aggregator → Aggregator
record_event now event resp a = record a {
  dedupe_map =
      put event.mac_address
        (record {
          last_seen = now;
          count = 1;
          nodes = event.node_name ∷ [];
          last_response = some resp;
        })
        a.dedupe_map;
}

-- The readings of the clock in one call: at the start, in `checkDuplicate`, for the processing time,
-- and in `recordEvent`.
pub record Readings : Type 0 where
  pub started : ℕ
  pub checked : ℕ
  pub answered : ℕ
  pub recorded : ℕ

-- time.Since(startTime).Milliseconds()
abbrev pub milliseconds : Readings → ℕ
milliseconds t = (t.answered - t.started) / 1_000_000

abbrev not_found_response : Readings → WolEvent → WolEventResponse
not_found_response t event = record {
  status = vm_not_found;
  message = codes "No VM configured for MAC " ++ event.mac_address;
  vm_info = none;
  was_duplicate = false;
  processing_time_ms = milliseconds t;
}

abbrev error_response : Readings → VmInfo → Text → WolEventResponse
error_response t vm e = record {
  status = error;
  message = codes "Failed to start VM: " ++ e;
  vm_info = some (record { name = vm.name; namespace = vm.namespace; current_state = [] });
  was_duplicate = false;
  processing_time_ms = milliseconds t;
}

abbrev initiated_response : Readings → WolEvent → VmInfo → WolEventResponse
initiated_response t event vm = record {
  status = vm_start_initiated;
  message = codes "VM start initiated successfully from node " ++ event.node_name;
  vm_info =
      some (record { name = vm.name; namespace = vm.namespace; current_state = codes "Starting" });
  was_duplicate = false;
  processing_time_ms = milliseconds t;
}

-- What the stream gives the handler: an event, the clock's readings while it is answered, and the
-- error of sending the response, if that fails.
pub record Received : Type 0 where
  pub readings : Readings
  pub event : WolEvent
  pub send_error : Option Text

module _ {S : Type 0} (client : VmClient S) where
  abbrev pub Reply : Type 0
  Reply = Aggregator × World S × WolEventResponse

  abbrev answer_start :
      Readings → WolEvent → Aggregator → VmInfo → World S × Result Text (Unit {0}) → Reply
  answer_start t event a vm (w, err e) =
      let resp = error_response t vm e in
      (record_event t.recorded event resp a, record w { metrics = count_error w.metrics }, resp)
  answer_start t event a vm (w, ok _) =
      let resp = initiated_response t event vm in
      (
        record_event t.recorded event resp a,
        record w { metrics = count_vm_started w.metrics },
        resp,
      )

  abbrev answer_found : Readings → WolEvent → Aggregator → World S → Option VmInfo → Reply
  answer_found t event a w none =
      let resp = not_found_response t event in (record_event t.recorded event resp a, w, resp)
  answer_found t event a w (some vm) =
      answer_start t event a vm (start_vm client vm.namespace vm.name w)

  -- the rest of the handler, by the result of `checkDuplicate`
  abbrev answer_checked :
      Readings → WolEvent → World S → Aggregator × Option WolEventResponse → Reply
  answer_checked t event w (a, some resp) =
      (a, w, record resp { processing_time_ms = milliseconds t })
  answer_checked t event w (a, none) = answer_found t event a w (lookup event.mac_address a.mapper)

  -- The error of the handler is always nil.
  unfoldable pub report_wol_event : Readings → WolEvent → Aggregator → World S → Reply
  report_wol_event t event a w =
      answer_checked t event (record w { metrics = count_packet w.metrics })
        (check_duplicate t.checked event a)

  abbrev pub Streamed : Type 0
  Streamed = Aggregator × World S × List WolEventResponse × Text

  -- `stream.Send`: an error of it ends the loop, else the loop goes on to `rest`
  abbrev after_send : WolEventResponse → Option Text → Aggregator × World S → Streamed → Streamed
  after_send resp none (a, w) rest = (rest.0, rest.1, resp ∷ rest.2, rest.3)
  after_send resp (some e) (a, w) rest = (a, w, [], e)

  -- The loop of ReportWOLEventStream over the events received, until `Recv` returns `closed` or a
  -- response cannot be sent: the state, the responses sent and the error returned.
  unfoldable pub report_wol_event_stream : Text → List Received → Aggregator → World S → Streamed
  report_wol_event_stream closed [] a w = (a, w, [], closed)
  report_wol_event_stream closed (r ∷ rs) a w =
      let (a', w', resp) = report_wol_event r.readings r.event a w in
      let rest = report_wol_event_stream closed rs a' w' in
      after_send resp r.send_error (a', w') rest

unfoldable pub health_check : Aggregator → ServingStatus
health_check a =
    let status = ServingStatus.serving in if get_mapping_count a.mapper == 0 then status else status

-- now.Sub(entry.lastSeen) > a.dedupeDuration*2
abbrev pub is_stale : ℕ → ℕ → DedupeEntry → Bool
is_stale now window entry = ltb (entry.last_seen + window * 2) now

unfoldable pub cleanup : ℕ → Aggregator → Aggregator
cleanup now a = record a {
  dedupe_map = retain (λ entry. not (is_stale now a.dedupe_duration entry)) a.dedupe_map;
}

-- The loop of StartCleanup: the times of the ticks until the context is cancelled.
unfoldable pub start_cleanup : List ℕ → Aggregator → Aggregator
start_cleanup [] a = a
start_cleanup (now ∷ ticks) a = start_cleanup ticks (cleanup now a)

pub record Stats : Type 0 where
  pub dedupe_cache_size : ℕ
  pub vm_mappings : ℕ

unfoldable pub get_stats : Aggregator → Stats
get_stats a = record {
  dedupe_cache_size = length a.dedupe_map;
  vm_mappings = get_mapping_count a.mapper;
}
