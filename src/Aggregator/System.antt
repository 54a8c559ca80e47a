-- ===== src/Aggregator/System.antt =====
-- The aggregator among all that happens to it, one after the other: reports of any agents, ticks of the
-- cleanup, refreshes of the mapper and changes of the cluster by others.
use kubevirt_wol.Common.{
  IsMap, [], some, Text, List, ℕ, All, if◌then◌else◌, ◌∷◌, ◌+◌, ◌≤◌, ◌⊎◌, ◌≡◌,
}
use kubevirt_wol.Cluster.{VmClient}
use kubevirt_wol.Mapper.{MacMapper}
use kubevirt_wol.VmStarter.{World}
use kubevirt_wol.Aggregator.{WolEvent, Aggregator, Readings, cleanup}
use kubevirt_wol.Aggregator.Responses.{next, world, response}
use kubevirt_wol.Aggregator.Debounce.{last_seen_of}

-- `now` is the last reading of the clock. `answers` are the addresses that were answered other than as
-- duplicates, the last one first, with the time that was recorded.
pub record System (S : Type 0) : Type 0 where
  pub aggregator : Aggregator
  pub world : World S
  pub now : ℕ
  pub answers : List (Text × ℕ)

abbrev pub Apart : ℕ → Text → ℕ → Text × ℕ → Type 0
Apart window mac at (mac', before) = mac' ≡ mac → before + window ≤ at

-- Two answers for one address are at least the window apart.
abbrev pub IsSpaced : ℕ → List (Text × ℕ) → Type 0
IsSpaced window [] = Unit
IsSpaced window ((mac, at) ∷ answers) = All (Apart window mac at) answers × IsSpaced window answers

module _ {S : Type 0} (client : VmClient S) where
  abbrev pub reported : Readings → WolEvent → System S → System S
  reported t event s = record {
    aggregator = next client t event s.aggregator s.world;
    world = world client t event s.aggregator s.world;
    now = t.recorded;
    answers =
        if (response client t event s.aggregator s.world).was_duplicate
        then s.answers
        else (event.mac_address, t.recorded) ∷ s.answers;
  }

  -- The clock does not go back. Reports are handled one at a time.
  pub data Step : System S → System S → Type 0 where
    reports :
        (s : System S) (t : Readings) (event : WolEvent)
        → s.now ≤ t.checked
        → t.checked ≤ t.recorded
        → Step s (reported t event s)
    cleans :
        (s : System S) (n : ℕ)
        → s.now ≤ n
        → Step s (record s { aggregator = cleanup n s.aggregator; now = n })
    refreshes :
        (s : System S) (m : MacMapper)
        → Step s (record s { aggregator = record s.aggregator { mapper = m } })
    changes : (s : System S) (w : World S) → Step s (record s { world = w })

  pub data Reach (s : System S) : System S → Type 0 where
    here : Reach s s
    after : {t u : System S} → Reach s t → Step t u → Reach s u

  -- What is known of an answer: its window is over, or the map still knows a time not before it.
  abbrev pub Covered : ℕ → System S → Text × ℕ → Type 0
  Covered window s (mac, at) =
      (at + window ≤ s.now)
      ⊎ ((last : ℕ) × (last_seen_of mac s.aggregator ≡ some last) × (at ≤ last))

  pub record Inv (window : ℕ) (s : System S) : Type 0 where
    pub is_map : IsMap s.aggregator.dedupe_map
    pub duration : s.aggregator.dedupe_duration ≡ window
    pub past : (mac : Text) (last : ℕ) → last_seen_of mac s.aggregator ≡ some last → last ≤ s.now
    pub covered : All (Covered window s) s.answers
    pub spaced : IsSpaced window s.answers
