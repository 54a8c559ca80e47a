-- ===== src/Aggregator/Tests.antt =====
-- Runs of the aggregator, and its theorems at concrete events.
use kubevirt_wol.Common.{
  false, inr, inl, Bool-cases, ℕ, ◌*◌, ◌≡◌, refl, [], ◌∷◌, Text, codes, none, some, arith, get,
  text_eq, to_lower, trim_space, true, List, Bool,
}
use kubevirt_wol.Cluster.{Vm}
use kubevirt_wol.Mapper.{lookup, normalize_mac_address}
use kubevirt_wol.VmStarter.{World}
use kubevirt_wol.Aggregator.{
  vm_not_found, Aggregator, DedupeEntry, second, report_wol_event_stream, cleanup,
}
use kubevirt_wol.Aggregator.Responses
use kubevirt_wol.Aggregator.Responses.{Fresh, Answered, next, world, response, packet_counted}
use kubevirt_wol.Aggregator.Debounce.{flags_for, debounce_all, stream-debounces}
use kubevirt_wol.Aggregator.System.{System, reported, here, after, reports, cleans, IsSpaced}
use kubevirt_wol.Aggregator.Spaced.{Reach-IsSpaced}
use kubevirt_wol.Aggregator.Spaced
use kubevirt_wol.Api.{explicit}
use kubevirt_wol.Aggregator.Burst
use kubevirt_wol.Aggregator.Burst.{Quiet, Chain}
use kubevirt_wol.Aggregator.Cleanup
use kubevirt_wol.Aggregator.Cleanup.{observed, InOrder}
use kubevirt_wol.Aggregator.Counts.{IsValid, Counted}
use kubevirt_wol.Aggregator.Race
use kubevirt_wol.Aggregator.Race.{run, overlaps, arrived, BothStart}
use kubevirt_wol.Examples.{
  sample_mapper, sample_mac, sample_vm, sample_info, one_vm, sample_world, sample_aggregator,
  sample_event, readings_at, received_at,
}

abbrev sample_entry : DedupeEntry
sample_entry = record {
  last_seen = 5 * second;
  count = 1;
  nodes = codes "n" ∷ [];
  last_response = none;
}

abbrev seen_once : Aggregator
seen_once = record sample_aggregator { dedupe_map = (sample_mac, sample_entry) ∷ [] }

nothing_seen : (n : ℕ) → Fresh n sample_mac sample_aggregator
unfolding get
nothing_seen n entry h = cc

report-fresh_example :
    Answered one_vm (readings_at 1) sample_event sample_aggregator (sample_world sample_vm)
report-fresh_example =
    Responses.report-fresh one_vm (readings_at 1) sample_event sample_aggregator
      (sample_world sample_vm) (nothing_seen 1)

abbrev after_first : Aggregator
after_first = next one_vm (readings_at 1) sample_event sample_aggregator (sample_world sample_vm)

abbrev world_first : World Vm
world_first = world one_vm (readings_at 1) sample_event sample_aggregator (sample_world sample_vm)

burst_starts_once_example : Quiet one_vm world_first (
    report_wol_event_stream one_vm
      (codes "EOF")
      (received_at (9 * second) ∷ received_at (18 * second) ∷ [])
      after_first
      world_first)
burst_starts_once_example =
    Burst.burst_starts_once one_vm (codes "EOF") (received_at 1)
      (received_at (9 * second) ∷ received_at (18 * second) ∷ []) sample_aggregator
      (sample_world sample_vm) (nothing_seen 1) (refl, omega arith, (refl, omega arith, tt))

cleanup_unobserved_example :
    observed one_vm (
      report_wol_event_stream one_vm
        (codes "EOF")
        (received_at (40 * second) ∷ [])
        (cleanup (30 * second) seen_once)
        (sample_world sample_vm))
    ≡ observed one_vm (
        report_wol_event_stream one_vm
          (codes "EOF")
          (received_at (40 * second) ∷ [])
          seen_once
          (sample_world sample_vm))
unfolding get
cleanup_unobserved_example =
    Cleanup.cleanup_unobserved one_vm (codes "EOF") (30 * second) (received_at (40 * second) ∷ [])
      seen_once (sample_world sample_vm) (refl, tt) (omega arith, tt)

sample-IsValid : IsValid sample_aggregator
unfolding get
sample-IsValid = record { is_map = tt; counted = λ k e h. absurd (ground arith) }

-- an entry with a first response
abbrev answered_entry : DedupeEntry
answered_entry = record sample_entry {
  last_response = some (record {
    status = vm_not_found;
    message = [];
    vm_info = none;
    was_duplicate = false;
    processing_time_ms = 0;
  });
}

abbrev seen_answered : Aggregator
seen_answered = record sample_aggregator { dedupe_map = (sample_mac, answered_entry) ∷ [] }

sample_entries-Counted :
    (k : Text) (e : DedupeEntry) → get k seen_answered.dedupe_map ≡ some e → Counted e
unfolding get
sample_entries-Counted k e h = elim (Bool-cases (text_eq sample_mac k)) [
  | inl same ↦
      let f : answered_entry ≡ e = ground (arith, same) in
      rw (← f) (record { count = refl; some_node = omega arith; answered = λ n. cc })
  | inr differs ↦ absurd (ground (arith, differs))
]

seen_answered-IsValid : IsValid seen_answered
unfolding get
seen_answered-IsValid = record { is_map = (refl, tt); counted = sample_entries-Counted }

found : lookup sample_mac sample_aggregator.mapper ≡ some sample_info
unfolding lookup normalize_mac_address get text_eq to_lower trim_space
found = refl

-- The second handler checks when the first one has started the VM.
abbrev late : List Bool
late = true ∷ true ∷ true ∷ false ∷ true ∷ false ∷ false ∷ false ∷ []

-- One handler after the other is no overlap.
in_sequence : overlaps (true ∷ true ∷ true ∷ true ∷ false ∷ false ∷ false ∷ false ∷ []) 0 0 ≡ false
unfolding overlaps
in_sequence = refl

both_start_example :
    BothStart one_vm
      (readings_at 1)
      (readings_at 2)
      sample_event
      sample_event
      sample_aggregator
      (sample_world sample_vm)
      sample_info
      refl
      (nothing_seen 1)
      (nothing_seen 2)
      found
      (run one_vm late (
        arrived one_vm
          (readings_at 1)
          (readings_at 2)
          sample_event
          sample_event
          sample_aggregator
          (sample_world sample_vm)))
unfolding overlaps
both_start_example =
    Race.both_start one_vm (readings_at 1) (readings_at 2) sample_event sample_event
      sample_aggregator (sample_world sample_vm) sample_info refl (nothing_seen 1) (nothing_seen 2)
      found late refl

stream-debounces_example :
    flags_for sample_mac
      (received_at 1 ∷ received_at (9 * second) ∷ received_at (30 * second) ∷ [])
      (report_wol_event_stream one_vm
        (codes "EOF")
        (received_at 1 ∷ received_at (9 * second) ∷ received_at (30 * second) ∷ [])
        sample_aggregator
        (sample_world sample_vm)).2
    ≡ debounce_all
        (10 * second)
        none
        (readings_at 1 ∷ readings_at (9 * second) ∷ readings_at (30 * second) ∷ [])
unfolding get text_eq
stream-debounces_example =
    stream-debounces one_vm sample_mac (codes "EOF")
      (received_at 1 ∷ received_at (9 * second) ∷ received_at (30 * second) ∷ []) sample_aggregator
      (sample_world sample_vm) (refl, (refl, (refl, tt)))

abbrev at_first : System Vm
at_first = Spaced.started (sample_mapper explicit) (sample_world sample_vm) 0

abbrev at_second : System Vm
at_second = reported one_vm (readings_at 1) sample_event at_first

abbrev at_third : System Vm
at_third = record at_second {
  aggregator = cleanup (2 * second) at_second.aggregator;
  now = 2 * second;
}

-- The address is answered, the map is cleaned up, and the address is answered again.
abbrev at_last : System Vm
at_last = reported one_vm (readings_at (11 * second)) sample_event at_third

Reach-IsSpaced_example : IsSpaced (10 * second) at_last.answers
Reach-IsSpaced_example =
    Reach-IsSpaced one_vm (sample_mapper explicit) (sample_world sample_vm) 0 at_last (
      after
        (after
          (after here (reports at_first (readings_at 1) sample_event (omega arith) (omega arith)))
          (cleans at_second (2 * second) (omega arith)))
        (reports at_third (readings_at (11 * second)) sample_event (omega arith) (omega arith)))
