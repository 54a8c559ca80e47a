-- ===== src/Aggregator/Responses.antt =====
-- What one report does, on every branch.
use kubevirt_wol.Common.{
  ℕ, ◌+◌, ◌≤◌, ◌<◌, ◌≡◌, inl, inr, [], ◌∷◌, ◌++◌, true, none, some, Text, arith, get, Result, ok,
  err, get-put_self, Option-cases, Result-cases,
}
use kubevirt_wol.Cluster.{VmClient, count_packet}
use kubevirt_wol.Mapper.{VmInfo, lookup}
use kubevirt_wol.VmStarter.{World, start_vm}
use kubevirt_wol.Aggregator.{
  WolEvent, WolEventResponse, DedupeEntry, Aggregator, Readings, check_duplicate, record_event,
  report_wol_event, duplicate, vm_not_found, error, vm_start_initiated, answer_found,
}

-- The address was seen within the window before `now`.
abbrev pub Recent : ℕ → Text → Aggregator → Type 0
Recent now mac a =
    (entry : DedupeEntry) × (get mac a.dedupe_map ≡ some entry)
    × (now < entry.last_seen + a.dedupe_duration)

abbrev pub packet_counted : {S : Type 0} → World S → World S
packet_counted w = record w { metrics = count_packet w.metrics }

module _ {S : Type 0} (client : VmClient S) (t : Readings) (event : WolEvent) (a : Aggregator)
    (w : World S) where
  abbrev pub next : Aggregator
  next = (report_wol_event client t event a w).0

  abbrev pub world : World S
  world = (report_wol_event client t event a w).1

  abbrev pub response : WolEventResponse
  response = (report_wol_event client t event a w).2

  -- An address that was seen within the window is answered as a duplicate, with the VM of the first
  -- response, and nothing happens but that the packet is counted and the entry is renewed.
  pub report-duplicate :
      (entry : DedupeEntry)
      → get event.mac_address a.dedupe_map ≡ some entry
      → t.checked < entry.last_seen + a.dedupe_duration
      → (response.status ≡ duplicate)
        × (response.was_duplicate ≡ true)
        × (world ≡ packet_counted w)
        × (get event.mac_address next.dedupe_map
            ≡ some (record entry {
              last_seen = t.checked;
              count = entry.count + 1;
              nodes = entry.nodes ++ event.node_name ∷ [];
            }))
  unfolding report_wol_event check_duplicate
  report-duplicate entry e h = ground (
    arith,
    get-put_self {V = DedupeEntry} event.mac_address
        (record entry {
          last_seen = t.checked;
          count = entry.count + 1;
          nodes = entry.nodes ++ event.node_name ∷ [];
        })
        a.dedupe_map,
  )

-- The address was not seen within the window before `now`.
abbrev pub Fresh : ℕ → Text → Aggregator → Type 0
Fresh now mac a =
    (entry : DedupeEntry)
    → get mac a.dedupe_map ≡ some entry
    → entry.last_seen + a.dedupe_duration ≤ now

pub check-Fresh :
    (now : ℕ) (event : WolEvent) (a : Aggregator)
    → Fresh now event.mac_address a
    → check_duplicate now event a ≡ (a, none)
unfolding check_duplicate
check-Fresh now event a fresh = elim (Option-cases (get event.mac_address a.dedupe_map)) [
  | inl e ↦ rw e
  | inr (entry, e) ↦ rw e (ground (arith, fresh entry e))
]

module _ {S : Type 0} (client : VmClient S) (t : Readings) (event : WolEvent) (a : Aggregator)
    (w : World S) where
  abbrev pub started : VmInfo → World S × Result Text (Unit {0})
  started vm = start_vm client vm.namespace vm.name (packet_counted w)

  -- How an address that is not a duplicate is answered: not found, with nothing done; or the VM that
  -- the mapper knows is started, and the answer tells whether that failed.
  pub data Answered : Type 0 where
    not_found :
        lookup event.mac_address a.mapper ≡ none
        → (response client t event a w).status ≡ vm_not_found
        → world client t event a w ≡ packet_counted w
        → Answered
    initiated :
        (vm : VmInfo)
        → lookup event.mac_address a.mapper ≡ some vm
        → (started vm).1 ≡ ok tt
        → (response client t event a w).status ≡ vm_start_initiated
        → (world client t event a w).cluster ≡ (started vm).0.cluster
        → Answered
    failed :
        (vm : VmInfo) (e : Text)
        → lookup event.mac_address a.mapper ≡ some vm
        → (started vm).1 ≡ err e
        → (response client t event a w).status ≡ error
        → (world client t event a w).cluster ≡ (started vm).0.cluster
        → Answered

  -- What `recordEvent` stores.
  abbrev pub first_entry : DedupeEntry
  first_entry = record {
    last_seen = t.recorded;
    count = 1;
    nodes = event.node_name ∷ [];
    last_response = some (response client t event a w);
  }

  pub report-answer :
      Fresh t.checked event.mac_address a
      → report_wol_event client t event a w
        ≡ answer_found client t event a (packet_counted w) (lookup event.mac_address a.mapper)
  unfolding report_wol_event
  report-answer fresh = rw (check-Fresh t.checked event a fresh)

  -- An address that was not seen within the window is looked up and its VM started, and the answer
  -- tells which case it was.
  pub report-fresh : Fresh t.checked event.mac_address a → Answered
  report-fresh fresh = elim (Option-cases (lookup event.mac_address a.mapper)) [
    | inl missing ↦
        not_found missing (ground (arith, report-answer fresh))
          (ground (arith, report-answer fresh))
    | inr (vm, found) ↦ elim (Result-cases (started vm).1) [
      | inl (u, fine) ↦
          initiated vm found fine (ground (arith, report-answer fresh))
            (ground (arith, report-answer fresh))
      | inr (e, bad) ↦
          failed vm e found bad (ground (arith, report-answer fresh))
            (ground (arith, report-answer fresh))
    ]
  ]

  -- Either way the answer is remembered for the window, from the time that it was recorded.
  pub get-report-Fresh :
      Fresh t.checked event.mac_address a
      → get event.mac_address (next client t event a w).dedupe_map ≡ some first_entry
  unfolding record_event
  get-report-Fresh fresh =
      ground (arith, report-answer fresh, get-put_self event.mac_address first_entry a.dedupe_map)
