-- ===== src/Aggregator/Progress.antt =====
-- The handler of a report that is new, by how many of its four moves it has made.
use kubevirt_wol.Aggregator.Moves.{
  looking_up, Phase, Shared, started, move, checking, starting, recording, returned,
}
use kubevirt_wol.Common.{◌≡◌, ◌≢◌, refl, some, Text, Result, ok, err, arith, ℕ, suc, zero, ◌+◌, ◌≤◌}
use mathlib.Core.Path.{subst}
use kubevirt_wol.Cluster.{VmClient, count_error, count_vm_started}
use kubevirt_wol.Mapper.{VmInfo, lookup}
use kubevirt_wol.VmStarter.{World, start_vm}
use kubevirt_wol.Aggregator.{
  WolEvent, WolEventResponse, Aggregator, Readings, record_event, error_response,
  initiated_response, duplicate,
}
use kubevirt_wol.Aggregator.Responses.{Fresh, check-Fresh}

-- the calls of StartVM that a handler has made after so many moves, and that it makes in the next one
abbrev pub started_by : ℕ → ℕ
started_by (suc (suc (suc n))) = 1
started_by _ = 0

abbrev pub starts_at : ℕ → ℕ
starts_at (suc (suc zero)) = 1
starts_at _ = 0

pub started_by-suc : (i : ℕ) → started_by (suc i) ≡ started_by i + starts_at i
started_by-suc zero = refl
started_by-suc (suc zero) = refl
started_by-suc (suc (suc zero)) = refl
started_by-suc (suc (suc (suc n))) = refl

record_event-mapper :
    (now : ℕ) (event : WolEvent) (resp : WolEventResponse) (a : Aggregator)
    → (record_event now event resp a).mapper ≡ a.mapper
unfolding record_event
record_event-mapper now event resp a = ground arith

module _ {S : Type 0} (client : VmClient S) where
  abbrev pub Returned : Phase → Type 0
  Returned p = (resp : WolEventResponse) × (p ≡ returned resp) × (resp.status ≢ duplicate)

  abbrev pub start_of : VmInfo → World S → World S × Result Text (Unit {0})
  start_of vm w = start_vm client vm.namespace vm.name w

  -- the response and the world after a start, by its result
  abbrev response_of : Readings → WolEvent → VmInfo → Result Text (Unit {0}) → WolEventResponse
  response_of t event vm (ok _) = initiated_response t event vm
  response_of t event vm (err e) = error_response t vm e

  abbrev world_of : World S × Result Text (Unit {0}) → World S
  world_of (w, ok _) = record w { metrics = count_vm_started w.metrics }
  world_of (w, err _) = record w { metrics = count_error w.metrics }

  started-of :
      (t : Readings) (event : WolEvent) (a : Aggregator) (vm : VmInfo)
      (r : World S × Result Text (Unit {0}))
      → started client t event a vm r
        ≡ (recording (response_of t event vm r.1), record { aggregator = a; world = world_of r })
  started-of t event a vm (w, ok u) = refl
  started-of t event a vm (w, err e) = refl

  cluster-world_of : (r : World S × Result Text (Unit {0})) → (world_of r).cluster ≡ r.0.cluster
  cluster-world_of (w, ok u) = refl
  cluster-world_of (w, err e) = refl

  not_duplicate :
      (t : Readings) (event : WolEvent) (vm : VmInfo) (r : Result Text (Unit {0}))
      → (response_of t event vm r).status ≢ duplicate
  not_duplicate t event vm (ok u) = λ h. cc
  not_duplicate t event vm (err e) = λ h. cc

  -- From one cluster to another by n calls of StartVM of the VM. In between, the cluster stays.
  pub data Starts (vm : VmInfo) (c : S) : ℕ → S → Type 0 where
    no_start : Starts vm c 0 c
    start :
        {n : ℕ} {c' : S} (u : World S)
        → Starts vm c n u.cluster
        → c' ≡ (start_of vm u).0.cluster
        → Starts vm c (n + 1) c'

  module _ (vm : VmInfo) where
    -- The phase of a handler that is new, after so many moves.
    abbrev pub At : ℕ → Phase → Type 0
    At zero p = p ≡ checking
    At (suc zero) p = p ≡ looking_up
    At (suc (suc zero)) p = p ≡ starting vm
    At (suc (suc (suc zero))) p =
        (resp : WolEventResponse) × (p ≡ recording resp) × (resp.status ≢ duplicate)
    At (suc (suc (suc (suc n)))) p = Returned p

    pub At-Returned : (i : ℕ) (p : Phase) → 4 ≤ i → At i p → Returned p
    At-Returned zero p le h = absurd (omega arith)
    At-Returned (suc zero) p le h = absurd (omega arith)
    At-Returned (suc (suc zero)) p le h = absurd (omega arith)
    At-Returned (suc (suc (suc zero))) p le h = absurd (omega arith)
    At-Returned (suc (suc (suc (suc n)))) p le h = h

    -- What a move makes of a handler and of what it shares, from move `i` and `k` calls on.
    pub record Moved (mac : Text) (i k : ℕ) (c : S) (s : Shared S) (out : Phase × Shared S)
        : Type 0 where
      pub phase : At (suc i) out.0
      pub found : lookup mac out.1.aggregator.mapper ≡ some vm
      pub starts : Starts vm c (k + starts_at i) out.1.world.cluster
      pub untouched : i ≢ 3 → out.1.aggregator ≡ s.aggregator

    still : {k : ℕ} {c x : S} → Starts vm c k x → Starts vm c (k + 0) x
    still {k} {c} {x} h = subst (λ n. Starts vm c n x) (let e : k ≡ k + 0 = omega arith in e) h

    module _ (t : Readings) (event : WolEvent) (k : ℕ) (c : S) where
      pub move-Moved :
          (i : ℕ) (p : Phase) (s : Shared S)
          → At i p
          → (i ≡ 0 → Fresh t.checked event.mac_address s.aggregator)
          → lookup event.mac_address s.aggregator.mapper ≡ some vm
          → Starts vm c k s.world.cluster
          → Moved event.mac_address i k c s (move client t event p s)
      unfolding move
      move-Moved zero p s h fresh found starts =
          rw (h, check-Fresh t.checked event s.aggregator (fresh refl))
            (record { phase = refl; found = found; starts = still starts; untouched = λ _. refl })
      move-Moved (suc zero) p s h fresh found starts =
          rw (h, found)
            (record { phase = refl; found = found; starts = still starts; untouched = λ _. refl })
      move-Moved (suc (suc zero)) p s h fresh found starts =
          let r = start_of vm s.world in
          rw (h, started-of t event s.aggregator vm r)
            (record {
              phase = (response_of t event vm r.1, refl, not_duplicate t event vm r.1);
              found = found;
              starts = start s.world starts (cluster-world_of r);
              untouched = λ _. refl;
            })
      move-Moved (suc (suc (suc zero))) p s (resp, h, new) fresh found starts = rw h (record {
        phase = (resp, refl, new);
        found = rw (record_event-mapper t.recorded event resp s.aggregator) found;
        starts = still starts;
        untouched = λ ne. absurd (ne refl);
      })
      move-Moved (suc (suc (suc (suc n)))) p s (resp, h, new) fresh found starts = rw h (record {
        phase = (resp, refl, new);
        found = found;
        starts = still starts;
        untouched = λ _. refl;
      })
