-- ===== src/Aggregator/Race.antt =====
-- Two handlers at once. The gRPC server runs each call of ReportWOLEvent in a goroutine of its own;
-- `dedupeLock` is held in `checkDuplicate` and in `recordEvent`, and not in between. A handler is cut
-- at those calls, and a schedule says which handler moves.
use kubevirt_wol.Aggregator.Moves.{Phase, Handler, Shared, move, checking}
use kubevirt_wol.Common.{
  ◌∙◌, ◌≡◌, refl, List, [], ◌∷◌, Bool, true, false, some, if◌then◌else◌, arith, ℕ, suc, zero, ltb,
  leb, ◌+◌, ◌≤◌, ◌&&◌, ◌||◌,
}
use mathlib.Core.Path.{subst}
use kubevirt_wol.Cluster.{VmClient}
use kubevirt_wol.Mapper.{VmInfo, lookup}
use kubevirt_wol.VmStarter.{World}
use kubevirt_wol.Aggregator.{WolEvent, Aggregator, Readings}
use kubevirt_wol.Aggregator.Responses.{Fresh}
use kubevirt_wol.Aggregator.Progress.{
  started_by, starts_at, started_by-suc, Returned, Starts, no_start, At, At-Returned, move-Moved,
}

pub record Two (S : Type 0) : Type 0 where
  pub first : Handler
  pub second : Handler
  pub shared : Shared S

-- Whether each handler checks before the other one records, and both return, where they have made i
-- and j of their four moves.
unfoldable pub overlaps : List Bool → ℕ → ℕ → Bool
overlaps [] i j = leb 4 i && leb 4 j
overlaps (true ∷ bs) i j = (ltb 0 i || ltb j 4) && overlaps bs (suc i) j
overlaps (false ∷ bs) i j = (ltb 0 j || ltb i 4) && overlaps bs i (suc j)

module _ {S : Type 0} (client : VmClient S) where
  abbrev pub move_first : Two S → Two S
  move_first c =
      let (p, s) = move client c.first.readings c.first.event c.first.phase c.shared in
      record c { first = record c.first { phase = p }; shared = s }

  abbrev pub move_second : Two S → Two S
  move_second c =
      let (p, s) = move client c.second.readings c.second.event c.second.phase c.shared in
      record c { second = record c.second { phase = p }; shared = s }

  -- `true` moves the first handler.
  unfoldable pub run : List Bool → Two S → Two S
  run [] c = c
  run (b ∷ bs) c = run bs (if b then move_first c else move_second c)

  -- two handlers that are about to check
  abbrev pub arrived : Readings → Readings → WolEvent → WolEvent → Aggregator → World S → Two S
  arrived t₁ t₂ e₁ e₂ a w = record {
    first = record { readings = t₁; event = e₁; phase = checking };
    second = record { readings = t₂; event = e₂; phase = checking };
    shared = record { aggregator = a; world = w };
  }

  module _ (t₁ t₂ : Readings) (e₁ e₂ : WolEvent) (a : Aggregator) (w : World S) (vm : VmInfo)
      (same : e₂.mac_address ≡ e₁.mac_address) (fresh₁ : Fresh t₁.checked e₁.mac_address a)
      (fresh₂ : Fresh t₂.checked e₁.mac_address a)
      (found : lookup e₁.mac_address a.mapper ≡ some vm) where
    abbrev two : Phase → Phase → Shared S → Two S
    two p q s = record {
      first = record { readings = t₁; event = e₁; phase = p };
      second = record { readings = t₂; event = e₂; phase = q };
      shared = s;
    }

    -- After i and j moves. The dedupe map is as it was, as long as neither has recorded.
    record Inv (i j : ℕ) (p q : Phase) (s : Shared S) : Type 0 where
      first : At client vm i p
      second : At client vm j q
      known : lookup e₁.mac_address s.aggregator.mapper ≡ some vm
      starts : Starts client vm w.cluster (started_by i + started_by j) s.world.cluster
      unrecorded : i ≤ 3 → j ≤ 3 → s.aggregator ≡ a

    first-Inv :
        (i j : ℕ) (p q : Phase) (s : Shared S)
        → Inv i j p q s
        → (i ≡ 0 → j ≤ 3)
        → let (p', s') = move client t₁ e₁ p s in Inv (suc i) j p' q s'
    first-Inv i j p q s inv before =
        let m =
          move-Moved client vm t₁ e₁ (started_by i + started_by j) w.cluster i p s inv.first
            (λ e. rw (inv.unrecorded (omega arith) (before e)) fresh₁) inv.known inv.starts in
        record {
          first = m.phase;
          second = inv.second;
          known = m.found;
          starts =
              subst (λ n. Starts client vm w.cluster n (move client t₁ e₁ p s).1.world.cluster)
                (let count : started_by i + started_by j + starts_at i
                      ≡ started_by (suc i) + started_by j =
                    omega (arith, started_by-suc i) in
                  count)
                m.starts;
          unrecorded =
              λ le le'. m.untouched (λ e. absurd (omega arith)) ∙ inv.unrecorded (omega arith) le';
        }

    second-Inv :
        (i j : ℕ) (p q : Phase) (s : Shared S)
        → Inv i j p q s
        → (j ≡ 0 → i ≤ 3)
        → let (q', s') = move client t₂ e₂ q s in Inv i (suc j) p q' s'
    second-Inv i j p q s inv before =
        let m =
          move-Moved client vm t₂ e₂ (started_by i + started_by j) w.cluster j q s inv.second
            (λ e. rw (inv.unrecorded (before e) (omega arith), same) fresh₂) (rw same inv.known)
            inv.starts in
        record {
          first = inv.first;
          second = m.phase;
          known = rw (← same) m.found;
          starts =
              subst (λ n. Starts client vm w.cluster n (move client t₂ e₂ q s).1.world.cluster)
                (let count : started_by i + started_by j + starts_at j
                      ≡ started_by i + started_by (suc j) =
                    omega (arith, started_by-suc j) in
                  count)
                m.starts;
          unrecorded =
              λ le le'. m.untouched (λ e. absurd (omega arith)) ∙ inv.unrecorded le (omega arith);
        }

    -- Both have started the VM, and neither was answered as a duplicate.
    abbrev pub BothStart : Two S → Type 0
    BothStart c =
        Starts client vm w.cluster 2 c.shared.world.cluster
        × Returned client c.first.phase
        × Returned client c.second.phase

    started_by-all : (i : ℕ) → 4 ≤ i → started_by i ≡ 1
    started_by-all zero le = absurd (omega arith)
    started_by-all (suc zero) le = absurd (omega arith)
    started_by-all (suc (suc zero)) le = absurd (omega arith)
    started_by-all (suc (suc (suc n))) le = refl

    run-BothStart :
        (bs : List Bool) (i j : ℕ) (p q : Phase) (s : Shared S)
        → overlaps bs i j ≡ true
        → Inv i j p q s
        → BothStart (run bs (two p q s))
    unfolding run overlaps
    run-BothStart [] i j p q s h inv =
        let le : 4 ≤ i = ground arith in
        let le' : 4 ≤ j = ground arith in
        (
          subst (λ n. Starts client vm w.cluster n s.world.cluster)
              (let two_calls : started_by i + started_by j ≡ 2 =
                  omega (arith, started_by-all i le, started_by-all j le') in
                two_calls)
              inv.starts,
          At-Returned client vm i p le inv.first,
          At-Returned client vm j q le' inv.second,
        )
    run-BothStart (true ∷ bs) i j p q s h inv =
        let (p', s') = move client t₁ e₁ p s in
        run-BothStart bs (suc i) j p' q s' (ground arith)
          (first-Inv i j p q s inv (λ e. ground arith))
    run-BothStart (false ∷ bs) i j p q s h inv =
        let (q', s') = move client t₂ e₂ q s in
        run-BothStart bs i (suc j) p q' s' (ground arith)
          (second-Inv i j p q s inv (λ e. ground arith))

    -- Two packets for one address of a known VM that was not seen before: however the moves of their
    -- handlers are interleaved, where each handler checks before the other one records, and both
    -- return, neither is answered as a duplicate, and StartVM is called for the VM twice, which is
    -- all that is done to the cluster.
    pub both_start :
        (bs : List Bool) → overlaps bs 0 0 ≡ true → BothStart (run bs (arrived t₁ t₂ e₁ e₂ a w))
    both_start bs h =
        run-BothStart bs 0 0 checking checking (record { aggregator = a; world = w }) h
          (record {
            first = refl;
            second = refl;
            known = found;
            starts = no_start;
            unrecorded = λ le le'. refl;
          })
