-- ===== src/Agent/Lost.antt =====
-- internal/wol/agent.go: an address is kept before it is reported, also where the report then fails.
use kubevirt_wol.Common.{
  get-put_self, put, get, refl, [], some, true, false, err, done, arith, Text, Result, List, ℕ, Run,
  All, ltb, ◌>>=◌, ◌∷◌, ◌+◌, ◌<◌, ◌≡◌,
}
use kubevirt_wol.Cluster.{count_error}
use kubevirt_wol.Packet.Spec.{mac_text}
use kubevirt_wol.Packet.Decide.{Announces, parse_magic_packet_iff}
use kubevirt_wol.Aggregator.{WolEvent, WolEventResponse}
use kubevirt_wol.Agent.{
  Agent, Clock, Addr, Node, seen_within, should_process, process_packet, event_of,
}

-- A packet that was received, with the readings of the clock while it is processed.
pub record Arrival : Type 0 where
  pub clock : Clock
  pub timestamp : ℕ
  pub addr : Addr
  pub packet : List ℕ

module _ {W : Type 0} (report : WolEvent → W → W × Result Text WolEventResponse) where
  unfoldable pub process_packets : List Arrival → Node W → Run (Node W)
  process_packets [] n = done n
  process_packets (x ∷ xs) n = do
    n' ← process_packet report x.clock x.timestamp x.addr x.packet n
    process_packets xs n'

  -- An arrival of a packet that announces `m`, checked before `until`.
  abbrev pub Repeats : List ℕ → ℕ → Arrival → Type 0
  Repeats m until x = Announces x.packet m × (x.clock.checked < until)

  process_packet-kept :
      (m : List ℕ) (last : ℕ) (n : Node W) (x : Arrival)
      → get (mac_text m) n.agent.dedupe_cache ≡ some last
      → Repeats m (last + n.agent.dedupe_duration) x
      → process_packet report x.clock x.timestamp x.addr x.packet n ≡ done n
  unfolding process_packet should_process
  process_packet-kept m last n x kept (announced, soon) =
      let parsed = (parse_magic_packet_iff x.packet (mac_text m)).1 (m, announced, refl) in
      let dup : ltb x.clock.checked (last + n.agent.dedupe_duration) ≡ true = ground arith in
      rw (parsed, kept, dup) refl

  process_packets-kept :
      (m : List ℕ) (last : ℕ) (n : Node W) (xs : List Arrival)
      → get (mac_text m) n.agent.dedupe_cache ≡ some last
      → All (Repeats m (last + n.agent.dedupe_duration)) xs
      → process_packets xs n ≡ done n
  unfolding process_packets
  process_packets-kept m last n [] kept repeats = refl
  process_packets-kept m last n (x ∷ xs) kept repeats =
      rw (process_packet-kept m last n x kept repeats.0)
        (process_packets-kept m last n xs kept repeats.1)

  -- Where the report of a new address fails, however many packets for the address are checked less
  -- than the window after it was kept, none of them is reported: what the agent reports to stays as
  -- the failed call left it, and one error is counted.
  pub lost-silences :
      (x : Arrival) (xs : List Arrival) (m : List ℕ) (n : Node W) (w : W) (e : Text)
      → Announces x.packet m
      → seen_within x.clock.checked n.agent.dedupe_duration (get (mac_text m) n.agent.dedupe_cache)
        ≡ false
      → ((event : WolEvent) → event.mac_address ≡ mac_text m → report event n.remote ≡ (w, err e))
      → All (Repeats m (x.clock.kept + n.agent.dedupe_duration)) xs
      → (n' : Node W) × (process_packets (x ∷ xs) n ≡ done n')
        × (n'.remote ≡ w)
        × (n'.metrics ≡ count_error n.metrics)
  unfolding process_packets process_packet should_process
  lost-silences x xs m n w e announced unseen fails repeats =
      let parsed = (parse_magic_packet_iff x.packet (mac_text m)).1 (m, announced, refl) in
      let kept : Agent = record n.agent {
        dedupe_cache = put (mac_text m) x.clock.kept n.agent.dedupe_cache;
      } in
      let n' : Node W = record { agent = kept; metrics = count_error n.metrics; remote = w } in
      let failed = fails (event_of x.timestamp x.addr x.packet (mac_text m) kept) refl in
      let rest =
        process_packets-kept m x.clock.kept n' xs
          (get-put_self (mac_text m) x.clock.kept n.agent.dedupe_cache) repeats in
      (n', rw (parsed, unseen, failed) rest, refl, refl)
