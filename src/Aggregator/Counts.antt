-- ===== src/Aggregator/Counts.antt =====
-- The invariant of the dedupe map, and the bound on what a cleanup leaves.
use kubevirt_wol.Common.{
  ◌∙◌, sym, Bool-cases, true, ℕ, ◌+◌, ◌*◌, ◌≤◌, ◌≡◌, ◌≢◌, refl, [], ◌∷◌, Bool, Option, none, some,
  Text, arith, get, put, get-put, get-retain, IsMap, put-IsMap, retain-IsMap, length, length-append,
  not, inl, inr, Result, ok, err, text_eq, if-cases, keep_if,
}
use kubevirt_wol.Cluster.{VmClient}
use kubevirt_wol.Mapper.{VmInfo, MacMapper, lookup}
use kubevirt_wol.VmStarter.{World, start_vm}
use kubevirt_wol.Aggregator.{
  WolEvent, WolEventResponse, DedupeEntry, Aggregator, Readings, new_aggregator, check_duplicate,
  check_entry, record_event, report_wol_event, cleanup, is_stale, is_within, seen_again,
  answer_checked, answer_found, answer_start,
}

-- The count of an entry is the number of its nodes, at least one, and there is a first response.
pub record Counted (e : DedupeEntry) : Type 0 where
  pub count : e.count ≡ length e.nodes
  pub some_node : 1 ≤ e.count
  pub answered : e.last_response ≢ none

pub record IsValid (a : Aggregator) : Type 0 where
  pub is_map : IsMap a.dedupe_map
  pub counted : (k : Text) (e : DedupeEntry) → get k a.dedupe_map ≡ some e → Counted e

put-IsValid :
    (k : Text) (e : DedupeEntry) (a : Aggregator)
    → Counted e
    → IsValid a
    → IsValid (record a { dedupe_map = put k e a.dedupe_map })
put-IsValid k e a c v = record {
  is_map = put-IsMap k e a.dedupe_map v.is_map;
  counted = λ j e' found. elim (Bool-cases (text_eq k j)) [
    | inl same ↦ let eq : e ≡ e' = ground (arith, get-put k j e a.dedupe_map) in rw (← eq) c
    | inr other ↦ v.counted j e' (ground (arith, get-put k j e a.dedupe_map))
  ];
}

check-IsValid :
    (now : ℕ) (event : WolEvent) (a : Aggregator)
    → IsValid a
    → IsValid (check_duplicate now event a).0
unfolding check_duplicate
check-IsValid now event a v = by_entry (get event.mac_address a.dedupe_map) refl
  where
    by_entry :
        (o : Option DedupeEntry)
        → get event.mac_address a.dedupe_map ≡ o
        → IsValid (check_entry now event a o).0
    by_entry none e = v
    by_entry (some entry) e =
        let c = v.counted event.mac_address entry e in
        if-cases (λ (x : Aggregator × Option WolEventResponse). IsValid x.0)
          (is_within now entry.last_seen a.dedupe_duration)
          (λ _.
            put-IsValid event.mac_address (seen_again now event entry) a
              (record {
                count = omega (arith, length-append {0} entry.nodes (event.node_name ∷ []), c);
                some_node = omega arith;
                answered = c.answered;
              })
              v)
          (λ _. v)

record-IsValid :
    (now : ℕ) (event : WolEvent) (resp : WolEventResponse) (a : Aggregator)
    → IsValid a
    → IsValid (record_event now event resp a)
unfolding record_event
record-IsValid now event resp a v =
    put-IsValid event.mac_address _ a
      (record { count = refl; some_node = omega arith; answered = λ h. cc }) v

module _ {S : Type 0} (client : VmClient S) where
  answer_start-IsValid :
      (t : Readings) (event : WolEvent) (a : Aggregator) (vm : VmInfo)
      (r : World S × Result Text (Unit {0}))
      → IsValid a
      → IsValid (answer_start client t event a vm r).0
  answer_start-IsValid t event a vm (w, ok u) v = record-IsValid t.recorded event _ a v
  answer_start-IsValid t event a vm (w, err e) v = record-IsValid t.recorded event _ a v

  answer_found-IsValid :
      (t : Readings) (event : WolEvent) (a : Aggregator) (w : World S) (found : Option VmInfo)
      → IsValid a
      → IsValid (answer_found client t event a w found).0
  answer_found-IsValid t event a w none v = record-IsValid t.recorded event _ a v
  answer_found-IsValid t event a w (some vm) v =
      answer_start-IsValid t event a vm (start_vm client vm.namespace vm.name w) v

  answer_checked-IsValid :
      (t : Readings) (event : WolEvent) (w : World S) (c : Aggregator × Option WolEventResponse)
      → IsValid c.0
      → IsValid (answer_checked client t event w c).0
  answer_checked-IsValid t event w (a, none) v =
      answer_found-IsValid t event a w (lookup event.mac_address a.mapper) v
  answer_checked-IsValid t event w (a, some resp) v = v

  -- A report keeps the dedupe map valid, whichever way it ends.
  pub report-IsValid :
      (t : Readings) (event : WolEvent) (a : Aggregator) (w : World S)
      → IsValid a
      → IsValid (report_wol_event client t event a w).0
  unfolding report_wol_event
  report-IsValid t event a w v =
      answer_checked-IsValid t event _ (check_duplicate t.checked event a)
        (check-IsValid t.checked event a v)

new_aggregator-IsValid : (m : MacMapper) → IsValid (new_aggregator m)
unfolding new_aggregator get
new_aggregator-IsValid m = record { is_map = tt; counted = λ k e h. absurd (ground arith) }

kept_some :
    (keep : DedupeEntry → Bool) (o : Option DedupeEntry) (e : DedupeEntry)
    → keep_if keep o ≡ some e
    → (o ≡ some e) × (keep e ≡ true)
kept_some keep none e h = cc
kept_some keep (some x) e h = (ground arith, ground arith)

-- A cleanup keeps the dedupe map valid, and an entry that it leaves was seen within twice the window.
pub cleanup-IsValid :
    (now : ℕ) (a : Aggregator) (k : Text) (e : DedupeEntry)
    → IsValid a
    → get k (cleanup now a).dedupe_map ≡ some e
    → IsValid (cleanup now a) × (now ≤ e.last_seen + a.dedupe_duration * 2)
unfolding cleanup
cleanup-IsValid now a k e v found =
    let keep = λ (entry : DedupeEntry). not (is_stale now a.dedupe_duration entry) in
    let kept = λ (k : Text). get-retain keep k a.dedupe_map v.is_map in
    (
      record {
        is_map = retain-IsMap keep a.dedupe_map v.is_map;
        counted =
            λ j f h. v.counted j f (kept_some keep (get j a.dedupe_map) f (sym (kept j) ∙ h)).0;
      },
      let b = (kept_some keep (get k a.dedupe_map) e (sym (kept k) ∙ found)).1 in ground arith,
    )
