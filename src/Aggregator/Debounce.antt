-- ===== src/Aggregator/Debounce.antt =====
-- The dedupe map against its abstract view: each address is debounced for itself.
use mathlib.Core.Path.{ap₂}
use kubevirt_wol.Common.{
  ltb→lt, text_eq→≡, put, get, get-put, refl, [], none, some, inl, inr, true, false, arith,
  Bool-cases, Option-cases, Text, Option, List, Bool, ℕ, All, ltb, if◌then◌else◌, text_eq, ◌∷◌,
  ◌++◌, ◌+◌, ◌≡◌, ap, ◌∙◌,
}
use kubevirt_wol.Cluster.{VmClient}
use kubevirt_wol.VmStarter.{World}
use kubevirt_wol.Aggregator.{
  WolEvent, WolEventResponse, DedupeEntry, Aggregator, Readings, Received, report_wol_event,
  report_wol_event_stream, check_duplicate, record_event,
}
use kubevirt_wol.Aggregator.Responses.{
  Fresh, next, world, response, first_entry, report-answer, report-duplicate,
}
use kubevirt_wol.Aggregator.Burst.{report-duration}

-- The specification: of one address only the time is kept when it was last seen. An event within the
-- window of it is a duplicate, and renews it; any other is answered and starts a new window.
abbrev pub debounce : ℕ → Option ℕ → Readings → Option ℕ × Bool
debounce window none t = (some t.recorded, false)
debounce window (some last) t =
    if ltb t.checked (last + window) then (some t.checked, true) else (some t.recorded, false)

-- Which of several events for one address are duplicates.
abbrev pub debounce_all : ℕ → Option ℕ → List Readings → List Bool
debounce_all window last [] = []
debounce_all window last (t ∷ ts) =
    (debounce window last t).1 ∷ debounce_all window (debounce window last t).0 ts

-- What the map keeps of an address, as the specification sees it.
abbrev pub last_of : Option DedupeEntry → Option ℕ
last_of none = none
last_of (some entry) = some entry.last_seen

abbrev pub last_seen_of : Text → Aggregator → Option ℕ
last_seen_of mac a = last_of (get mac a.dedupe_map)

-- The events for an address, and what they were answered.
abbrev pub readings_for : Text → List Received → List Readings
readings_for mac [] = []
readings_for mac (r ∷ rs) =
    let rest = readings_for mac rs in
    if text_eq r.event.mac_address mac then r.readings ∷ rest else rest

abbrev pub flags_for : Text → List Received → List WolEventResponse → List Bool
flags_for mac [] resps = []
flags_for mac (r ∷ rs) [] = []
flags_for mac (r ∷ rs) (resp ∷ resps) =
    let rest = flags_for mac rs resps in
    if text_eq r.event.mac_address mac then resp.was_duplicate ∷ rest else rest

-- Every response can be sent.
abbrev pub AllSent : List Received → Type 0
AllSent rs = All (λ (r : Received). r.send_error ≡ none) rs

module _ {S : Type 0} (client : VmClient S) (t : Readings) (event : WolEvent) (a : Aggregator)
    (w : World S) where
  -- One report, as the specification sees it.
  pub record Refines : Type 0 where
    pub entry : DedupeEntry
    pub kept : (next client t event a w).dedupe_map ≡ put event.mac_address entry a.dedupe_map
    pub renewed :
        some entry.last_seen ≡ (debounce a.dedupe_duration (last_seen_of event.mac_address a) t).0
    pub answered :
        (response client t event a w).was_duplicate
        ≡ (debounce a.dedupe_duration (last_seen_of event.mac_address a) t).1

  fresh-Refines :
      Fresh t.checked event.mac_address a
      → debounce a.dedupe_duration (last_seen_of event.mac_address a) t ≡ (some t.recorded, false)
      → Refines
  unfolding record_event
  fresh-Refines fresh e = record {
    entry = first_entry client t event a w;
    kept = ground (arith, report-answer client t event a w fresh);
    renewed = rw e refl;
    answered = rw e (ground (arith, report-answer client t event a w fresh));
  }

  duplicate-Refines :
      (entry : DedupeEntry)
      → get event.mac_address a.dedupe_map ≡ some entry
      → ltb t.checked (entry.last_seen + a.dedupe_duration) ≡ true
      → Refines
  unfolding report_wol_event check_duplicate
  duplicate-Refines entry e within = record {
    entry = record entry {
      last_seen = t.checked;
      count = entry.count + 1;
      nodes = entry.nodes ++ event.node_name ∷ [];
    };
    kept = ground (arith, e, within);
    renewed = rw (e, within) refl;
    answered =
        rw (e, within)
          ((report-duplicate client t event a w entry e (ltb→lt t.checked _ within)).1);
  }

  pub report-Refines : Refines
  report-Refines = elim (Option-cases (get event.mac_address a.dedupe_map)) [
    | inl e ↦ fresh-Refines (λ entry found. cc) (rw e refl)
    | inr (entry, e) ↦ elim (Bool-cases (ltb t.checked (entry.last_seen + a.dedupe_duration))) [
      | inl within ↦ duplicate-Refines entry e within
      | inr outside ↦
          fresh-Refines
            (λ entry' found. let same : entry ≡ entry' = cc in rw (← same) (ground arith))
            (rw (e, outside) refl)
    ]
  ]

  pub last_seen-next :
      (mac : Text)
      → last_seen_of mac (next client t event a w) ≡ (
          if text_eq event.mac_address mac
          then (debounce a.dedupe_duration (last_seen_of event.mac_address a) t).0
          else last_seen_of mac a)
  last_seen-next mac =
      let r = report-Refines in
      rw (r.kept, get-put event.mac_address mac r.entry a.dedupe_map, ← r.renewed)
        (elim (Bool-cases (text_eq event.mac_address mac)) [
          | inl e ↦ rw e refl
          | inr e ↦ rw e refl
        ])

module _ {S : Type 0} (client : VmClient S) where
  -- In any stream of events whose responses can be sent, the events for an address that are answered
  -- as duplicates are those of the specification of one address alone: neither events for other
  -- addresses nor the cluster, what the mapper knows or a failure to start the VM make a difference.
  pub stream-debounces :
      (mac closed : Text) (rs : List Received) (a : Aggregator) (w : World S)
      → AllSent rs
      → flags_for mac rs (report_wol_event_stream client closed rs a w).2
        ≡ debounce_all a.dedupe_duration (last_seen_of mac a) (readings_for mac rs)
  unfolding report_wol_event_stream
  stream-debounces mac closed [] a w sent = refl
  stream-debounces mac closed (r ∷ rs) a w (fine, sent) =
      let a' = next client r.readings r.event a w in
      let w' = world client r.readings r.event a w in
      let rest = stream-debounces mac closed rs a' w' sent in
      let moved = last_seen-next client r.readings r.event a w mac in
      let duration = report-duration client r a w in
      let rds = readings_for mac rs in
      elim (Bool-cases (text_eq r.event.mac_address mac)) [
        | inl e ↦
            let seen : ℕ → Text → Option ℕ × Bool =
              λ d m. debounce d (last_seen_of m a) r.readings in
            let same = text_eq→≡ r.event.mac_address mac e in
            let now : last_seen_of mac a' ≡ (seen a.dedupe_duration mac).0 =
              moved ∙ rw e (ap (λ m. (seen a.dedupe_duration m).0) same) in
            let flag =
              (report-Refines client r.readings r.event a w).answered
              ∙ ap (λ m. (seen a.dedupe_duration m).1) same in
            let tail =
              rest
              ∙ (ap (λ d. debounce_all d (last_seen_of mac a') rds) duration
                  ∙ ap (λ l. debounce_all a.dedupe_duration l rds) now) in
            rw (fine, e) (ap₂ ◌∷◌ flag tail)
        | inr e ↦
            let tail =
              rest
              ∙ (ap (λ d. debounce_all d (last_seen_of mac a') rds) duration
                  ∙ ap (λ l. debounce_all a.dedupe_duration l rds) (moved ∙ rw e refl)) in
            rw (fine, e) tail
      ]
