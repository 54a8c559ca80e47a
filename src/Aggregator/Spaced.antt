-- ===== src/Aggregator/Spaced.antt =====
-- The windows of an address do not overlap, whatever happens to the aggregator.
use kubevirt_wol.Aggregator.System.{
  System, Apart, IsSpaced, reported, Step, reports, cleans, refreshes, changes, Reach, here, after,
  Covered, Inv,
}
use kubevirt_wol.Aggregator.Windows.{
  debounce-le, debounce-ge, debounce-new, debounce-spaced, All-map,
}
use kubevirt_wol.Common.{
  IsMap, put-IsMap, retain-IsMap, get-retain, keep_if, text_eq_refl, text_eq→≡, if-cases, get, refl,
  [], none, some, inl, inr, false, arith, Bool-cases, Text, Option, ℕ, All, if◌then◌else◌, ◌+◌, ◌≤◌,
  ◌⊎◌, ◌≡◌, ap, sym, Bool, text_eq, ◌∙◌, not, ◌*◌,
}
use kubevirt_wol.Cluster.{VmClient}
use kubevirt_wol.Mapper.{MacMapper}
use kubevirt_wol.VmStarter.{World}
use kubevirt_wol.Aggregator.{
  new_aggregator, second, WolEvent, DedupeEntry, Readings, cleanup, is_stale,
}
use kubevirt_wol.Aggregator.Responses.{response}
use kubevirt_wol.Aggregator.Debounce.{
  debounce, last_of, last_seen_of, report-Refines, last_seen-next,
}
use kubevirt_wol.Aggregator.Burst.{report-duration}

module _ {S : Type 0} (client : VmClient S) (window : ℕ) where
  -- A step that keeps what the map knows of each address, and does not turn back the clock.
  pub Inv-same :
      (s s' : System S)
      → s'.answers ≡ s.answers
      → IsMap s'.aggregator.dedupe_map
      → s'.aggregator.dedupe_duration ≡ s.aggregator.dedupe_duration
      → s.now ≤ s'.now
      → ((mac : Text)
          → (last_seen_of mac s'.aggregator ≡ last_seen_of mac s.aggregator)
            ⊎ ((last_seen_of mac s'.aggregator ≡ none)
                × ((last : ℕ)
                    → last_seen_of mac s.aggregator ≡ some last
                    → last + window ≤ s'.now)))
      → Inv client window s
      → Inv client window s'
  Inv-same s s' answers is_map duration later same inv = record {
    is_map = is_map;
    duration = duration ∙ inv.duration;
    past = λ mac last e. elim (same mac) [
      | inl known ↦ omega (arith, inv.past mac last (sym known ∙ e))
      | inr (gone, old) ↦ cc
    ];
    covered =
        rw answers (
          All-map (Covered client window s) (Covered client window s') s.answers still inv.covered);
    spaced = rw answers inv.spaced;
  }
    where
      still : (x : Text × ℕ) → Covered client window s x → Covered client window s' x
      still (mac, at) (inl over) = inl (omega arith)
      still (mac, at) (inr (last, e, le)) = elim (same mac) [
        | inl known ↦ inr (last, known ∙ e, le)
        | inr (gone, old) ↦ inl (omega (arith, old last e))
      ]

  module _ (s : System S) (t : Readings) (event : WolEvent) (checked : s.now ≤ t.checked)
      (recorded : t.checked ≤ t.recorded) (inv : Inv client window s) where
    -- what the specification says of the address of the event
    abbrev now_seen : Option ℕ × Bool
    now_seen = debounce s.aggregator.dedupe_duration (last_seen_of event.mac_address s.aggregator) t

    moved :
        (mac : Text)
        → last_seen_of mac (reported client t event s).aggregator
          ≡ (if text_eq event.mac_address mac then now_seen.0 else last_seen_of mac s.aggregator)
    moved = last_seen-next client t event s.aggregator s.world

    reported-past :
        (mac : Text) (last : ℕ)
        → last_seen_of mac (reported client t event s).aggregator ≡ some last
        → last ≤ t.recorded
    reported-past mac last e = elim (Bool-cases (text_eq event.mac_address mac)) [
      | inl same ↦
          debounce-le s.aggregator.dedupe_duration (last_seen_of event.mac_address s.aggregator) t
            last recorded (sym (moved mac ∙ rw same refl) ∙ e)
      | inr other ↦ omega (arith, inv.past mac last (sym (moved mac ∙ rw other refl) ∙ e))
    ]

    reported-Covered :
        (x : Text × ℕ)
        → Covered client window s x
        → Covered client window (reported client t event s) x
    reported-Covered (mac, at) (inl over) = inl (omega arith)
    reported-Covered (mac, at) (inr (last, e, le)) =
        elim (Bool-cases (text_eq event.mac_address mac)) [
          | inl same ↦
              let eq : event.mac_address ≡ mac = text_eq→≡ event.mac_address mac same in
              let known : last_seen_of event.mac_address s.aggregator ≡ some last = rw eq e in
              let (last', e', le') =
                debounce-ge s.aggregator.dedupe_duration last t (omega (arith, inv.past mac last e))
                  recorded in
              inr (last', moved mac ∙ rw (same, known) e', omega arith)
          | inr other ↦ inr (last, moved mac ∙ rw other e, le)
        ]

    -- An answer that is no duplicate comes after the windows of those before.
    reported-Apart :
        now_seen.1 ≡ false
        → (x : Text × ℕ) → Covered client window s x
        → Apart window event.mac_address t.recorded x
    reported-Apart new (mac, at) (inl over) same = omega arith
    reported-Apart new (mac, at) (inr (last, e, le)) same =
        let known : last_seen_of event.mac_address s.aggregator ≡ some last = rw (← same) e in
        let new' : (debounce s.aggregator.dedupe_duration (some last) t).1 ≡ false =
          ap (λ o. (debounce s.aggregator.dedupe_duration o t).1) (sym known) ∙ new in
        omega (arith, debounce-spaced s.aggregator.dedupe_duration last t new', inv.duration)

    reported-new :
        (response client t event s.aggregator s.world).was_duplicate ≡ false → now_seen.1 ≡ false
    reported-new new = sym (report-Refines client t event s.aggregator s.world).answered ∙ new

    reported_self :
        now_seen.1 ≡ false
        → last_seen_of event.mac_address (reported client t event s).aggregator ≡ some t.recorded
    reported_self new =
        moved event.mac_address ∙ rw (text_eq_refl event.mac_address) (debounce-new _ _ t new)

    reported-Inv : Inv client window (reported client t event s)
    reported-Inv =
        let r = report-Refines client t event s.aggregator s.world in
        let s' = reported client t event s in
        let kept =
          All-map (Covered client window s) (Covered client window s') s.answers reported-Covered
            inv.covered in
        let duplicate = (response client t event s.aggregator s.world).was_duplicate in
        record {
          is_map =
              rw r.kept (put-IsMap event.mac_address r.entry s.aggregator.dedupe_map inv.is_map);
          duration =
              report-duration client (record { readings = t; event = event; send_error = none })
                s.aggregator s.world
              ∙ inv.duration;
          past = reported-past;
          covered =
              if-cases (All (Covered client window s')) duplicate (λ _. kept)
                (λ new. (inr (t.recorded, reported_self (reported-new new), omega arith), kept));
          spaced =
              if-cases (IsSpaced window) duplicate (λ _. inv.spaced)
                (λ new. (
                  All-map (Covered client window s) (Apart window event.mac_address t.recorded)
                      s.answers (reported-Apart (reported-new new)) inv.covered,
                  inv.spaced,
                ));
        }

  -- A tick of the cleanup: what it drops was seen longer than the window before.
  pub dropped :
      (n duration : ℕ) (o : Option DedupeEntry)
      → let left = keep_if (λ entry. not (is_stale n duration entry)) o in
        (last_of left ≡ last_of o)
        ⊎ ((last_of left ≡ none) × ((last : ℕ) → last_of o ≡ some last → last + duration ≤ n))
  dropped n duration none = inl refl
  dropped n duration (some entry) = elim (Bool-cases (is_stale n duration entry)) [
    | inl stale ↦ inr (rw stale refl, λ last e. ground (arith, stale))
    | inr kept ↦ inl (rw kept refl)
  ]

  pub cleaned-Inv :
      (s : System S) (n : ℕ)
      → s.now ≤ n
      → Inv client window s
      → Inv client window (record s { aggregator = cleanup n s.aggregator; now = n })
  unfolding cleanup
  cleaned-Inv s n later inv =
      let a = s.aggregator in
      let keep = λ (entry : DedupeEntry). not (is_stale n a.dedupe_duration entry) in
      Inv-same s (record s { aggregator = cleanup n a; now = n }) refl
        (retain-IsMap keep a.dedupe_map inv.is_map) refl later
        (λ mac.
          rw (get-retain keep mac a.dedupe_map inv.is_map, ← inv.duration)
            (dropped n a.dedupe_duration (get mac a.dedupe_map)))
        inv

  pub Step-Inv : {s s' : System S} → Step client s s' → Inv client window s → Inv client window s'
  Step-Inv (reports s t event checked recorded) inv = reported-Inv s t event checked recorded inv
  Step-Inv (cleans s n later) inv = cleaned-Inv s n later inv
  Step-Inv (refreshes s m) inv =
      Inv-same s _ refl inv.is_map refl (omega arith) (λ mac. inl refl) inv
  Step-Inv (changes s w) inv = Inv-same s _ refl inv.is_map refl (omega arith) (λ mac. inl refl) inv

  pub Reach-Inv : {s s' : System S} → Inv client window s → Reach client s s' → Inv client window s'
  Reach-Inv inv here = inv
  Reach-Inv inv (after r step) = Step-Inv step (Reach-Inv inv r)

-- A new aggregator that has answered nothing.
abbrev pub started : {S : Type 0} → MacMapper → World S → ℕ → System S
started m w now = record { aggregator = new_aggregator m; world = w; now = now; answers = [] }

pub started-Inv :
    {S : Type 0} (client : VmClient S) (m : MacMapper) (w : World S) (now : ℕ)
    → Inv client (10 * second) (started m w now)
unfolding new_aggregator get
started-Inv client m w now = record {
  is_map = tt;
  duration = refl;
  past = λ mac last e. cc;
  covered = tt;
  spaced = tt;
}

-- However many agents report whatever events, and whatever cleanups, refreshes and changes of the
-- cluster come between them: as long as reports are handled one at a time and the clock does not go
-- back, two events for one address that are answered other than as duplicates are at least the ten
-- seconds of the window apart.
pub Reach-IsSpaced :
    {S : Type 0} (client : VmClient S) (m : MacMapper) (w : World S) (now : ℕ) (s : System S)
    → Reach client (started m w now) s
    → IsSpaced (10 * second) s.answers
Reach-IsSpaced client m w now s r =
    (Reach-Inv client (10 * second) (started-Inv client m w now) r).spaced
