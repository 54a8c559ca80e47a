-- ===== src/Aggregator/Cleanup.antt =====
-- The cleanup of the dedupe map is not observed: it drops only entries that no longer count.
use kubevirt_wol.Common.{
  ℕ, ◌+◌, ◌≤◌, ◌≡◌, refl, sym, ◌∙◌, ap, List, [], ◌∷◌, Bool, Option, none, some, Text, arith, get,
  put, get-put, get-retain, IsMap, keep_if, ltb, not, Result, ok, err,
}
use kubevirt_wol.Cluster.{VmClient}
use kubevirt_wol.Mapper.{VmInfo, lookup}
use kubevirt_wol.VmStarter.{World, start_vm}
use kubevirt_wol.Aggregator.{
  WolEvent, WolEventResponse, DedupeEntry, Aggregator, Readings, Received, report_wol_event,
  report_wol_event_stream, cleanup, check_duplicate, check_entry, duplicate_response, seen_again,
  answer_checked, answer_found, answer_start, record_event, Reply, Streamed, after_send, is_stale,
}

-- The entry still counts at `now`.
abbrev pub live : ℕ → ℕ → DedupeEntry → Bool
live now window entry = ltb now (entry.last_seen + window)

-- At `now` and later the two know the same.
pub record Agrees (now : ℕ) (a b : Aggregator) : Type 0 where
  pub mapper : a.mapper ≡ b.mapper
  pub duration : a.dedupe_duration ≡ b.dedupe_duration
  pub at_key :
      (k : Text)
      → keep_if (live now a.dedupe_duration) (get k a.dedupe_map)
        ≡ keep_if (live now b.dedupe_duration) (get k b.dedupe_map)

keep_live_later :
    (now later window : ℕ) (o : Option DedupeEntry)
    → now ≤ later
    → keep_if (live later window) (keep_if (live now window) o) ≡ keep_if (live later window) o
keep_live_later now later window none h = refl
keep_live_later now later window (some entry) h = ground arith

Agrees-later : {now later : ℕ} {a b : Aggregator} → now ≤ later → Agrees now a b → Agrees later a b
Agrees-later {now} {later} {a} {b} h g = record {
  mapper = g.mapper;
  duration = g.duration;
  at_key = λ k.
      sym (keep_live_later now later a.dedupe_duration (get k a.dedupe_map) h)
      ∙ ap (λ o. keep_if (live later a.dedupe_duration) o) (g.at_key k)
      ∙ rw g.duration (keep_live_later now later b.dedupe_duration (get k b.dedupe_map) h);
}

abbrev with_entry : Text → DedupeEntry → Aggregator → Aggregator
with_entry k entry a = record a { dedupe_map = put k entry a.dedupe_map }

Agrees-with_entry :
    {now : ℕ} {a b : Aggregator} (k : Text) (entry : DedupeEntry)
    → Agrees now a b
    → Agrees now (with_entry k entry a) (with_entry k entry b)
Agrees-with_entry {now} {a} {b} k entry g = record {
  mapper = g.mapper;
  duration = g.duration;
  at_key = λ j. ground (
    arith,
    get-put k j entry a.dedupe_map,
    get-put k j entry b.dedupe_map,
    g.at_key j,
    g.duration,
  );
}

cleanup-Agrees : (now : ℕ) (a : Aggregator) → IsMap a.dedupe_map → Agrees now a (cleanup now a)
unfolding cleanup
cleanup-Agrees now a h = record {
  mapper = refl;
  duration = refl;
  at_key = λ k.
      rw (get-retain (λ entry. not (is_stale now a.dedupe_duration entry)) k a.dedupe_map h)
        (stale_dead (get k a.dedupe_map));
}
  where
    stale_dead :
        (o : Option DedupeEntry)
        → keep_if (live now a.dedupe_duration) o
          ≡ keep_if
              (live now a.dedupe_duration)
              (keep_if (λ entry. not (is_stale now a.dedupe_duration entry)) o)
    stale_dead none = refl
    stale_dead (some entry) = ground arith

-- `checkDuplicate`, by the entry if that still counts.
abbrev check_live :
    ℕ → WolEvent → Aggregator → Option DedupeEntry → Aggregator × Option WolEventResponse
check_live now event a none = (a, none)
check_live now event a (some entry) =
    let again = seen_again now event entry in
    (with_entry event.mac_address again a, some (duplicate_response again))

check-live :
    (now : ℕ) (event : WolEvent) (a : Aggregator)
    → check_duplicate now event a
      ≡ check_live now event a
          (keep_if (live now a.dedupe_duration) (get event.mac_address a.dedupe_map))
unfolding check_duplicate
check-live now event a = by_entry (get event.mac_address a.dedupe_map)
  where
    by_entry :
        (o : Option DedupeEntry)
        → check_entry now event a o
          ≡ check_live now event a (keep_if (live now a.dedupe_duration) o)
    by_entry none = refl
    by_entry (some entry) = ground arith

module _ {S : Type 0} (client : VmClient S) where
  -- The replies differ in the state of the aggregator only, and those states agree.
  pub record Same (now : ℕ) (x y : Reply client) : Type 0 where
    pub world : x.1 ≡ y.1
    pub response : x.2 ≡ y.2
    pub state : Agrees now x.0 y.0

  Same-answer_found :
      (now : ℕ) (t : Readings) (event : WolEvent) (a b : Aggregator) (w : World S)
      (found : Option VmInfo)
      → Agrees now a b
      → Same now (answer_found client t event a w found) (answer_found client t event b w found)
  unfolding record_event
  Same-answer_found now t event a b w none g = record {
    world = refl;
    response = refl;
    state = Agrees-with_entry event.mac_address _ g;
  }
  Same-answer_found now t event a b w (some vm) g =
      by_result (start_vm client vm.namespace vm.name w)
    where
      by_result :
          (r : World S × Result Text (Unit {0}))
          → Same now (answer_start client t event a vm r) (answer_start client t event b vm r)
      by_result (w', ok u) = record {
        world = refl;
        response = refl;
        state = Agrees-with_entry event.mac_address _ g;
      }
      by_result (w', err e) = record {
        world = refl;
        response = refl;
        state = Agrees-with_entry event.mac_address _ g;
      }

  Same-checked :
      (t : Readings) (event : WolEvent) (a b : Aggregator) (w : World S) (o : Option DedupeEntry)
      → Agrees t.checked a b
      → Same t.checked
          (answer_checked client t event w (check_live t.checked event a o))
          (answer_checked client t event w (check_live t.checked event b o))
  Same-checked t event a b w none g =
      simp g.mapper
        (Same-answer_found t.checked t event a b w (lookup event.mac_address b.mapper) g)
  Same-checked t event a b w (some entry) g = record {
    world = refl;
    response = refl;
    state = Agrees-with_entry event.mac_address _ g;
  }

  report-Same :
      (t : Readings) (event : WolEvent) (a b : Aggregator) (w : World S)
      → Agrees t.checked a b
      → Same t.checked (report_wol_event client t event a w) (report_wol_event client t event b w)
  unfolding report_wol_event
  report-Same t event a b w g =
      rw (check-live t.checked event a, check-live t.checked event b, g.at_key event.mac_address)
        (Same-checked t event a b _ _ g)

-- The events are checked in order, none before `now`.
abbrev pub InOrder : ℕ → List Received → Type 0
InOrder now [] = Unit
InOrder now (r ∷ rs) = (now ≤ r.readings.checked) × InOrder r.readings.checked rs

module _ {S : Type 0} (client : VmClient S) where
  -- What a client of the stream, the cluster and the metrics see.
  abbrev pub observed : Streamed client → World S × List WolEventResponse × Text
  observed out = (out.1, out.2, out.3)

  observed-after_send :
      (o : Option Text) {resp resp' : WolEventResponse} (a b : Aggregator) {w w' : World S}
      (x y : Streamed client)
      → resp ≡ resp'
      → w ≡ w'
      → observed x ≡ observed y
      → observed (after_send client resp o (a, w) x)
        ≡ observed (after_send client resp' o (b, w') y)
  observed-after_send none a b x y p q e = λ i. ((e i).0, p i ∷ (e i).1, (e i).2)
  observed-after_send (some m) a b x y p q e = λ i. (q i, [], m)

  stream-Agrees :
      (closed : Text) (now : ℕ) (rs : List Received) (a b : Aggregator) (w : World S)
      → InOrder now rs
      → Agrees now a b
      → observed (report_wol_event_stream client closed rs a w)
        ≡ observed (report_wol_event_stream client closed rs b w)
  unfolding report_wol_event_stream
  stream-Agrees closed now [] a b w h g = refl
  stream-Agrees closed now (r ∷ rs) a b w (le, h) g =
      let same = report-Same client r.readings r.event a b w (Agrees-later le g) in
      let (a', v, _) = report_wol_event client r.readings r.event a w in
      let (b', w', _) = report_wol_event client r.readings r.event b w in
      observed-after_send r.send_error a' b' (report_wol_event_stream client closed rs a' v)
        (report_wol_event_stream client closed rs b' w') same.response same.world
        (stream-Agrees closed r.readings.checked rs a' b' v h same.state
          ∙ ap (λ v'. observed (report_wol_event_stream client closed rs b' v')) same.world)

  -- To clean up the dedupe map changes nothing that can be observed afterwards: whatever events come,
  -- checked in order and not before the cleanup, the responses, the cluster, the metrics and the
  -- goroutines are those without the cleanup.
  pub cleanup_unobserved :
      (closed : Text) (now : ℕ) (rs : List Received) (a : Aggregator) (w : World S)
      → IsMap a.dedupe_map
      → InOrder now rs
      → observed (report_wol_event_stream client closed rs (cleanup now a) w)
        ≡ observed (report_wol_event_stream client closed rs a w)
  cleanup_unobserved closed now rs a w m h =
      sym (stream-Agrees closed now rs a (cleanup now a) w h (cleanup-Agrees now a m))
