-- ===== src/Agent.antt =====
-- internal/wol/agent.go: an agent, from the packet to the report. `W` is the state behind the gRPC
-- client, which is a parameter. Times are nanoseconds.
pub mod Window
pub mod Rebuild
pub mod Wake
pub mod Lost
pub mod Life
pub mod HealthServer
pub mod Health
pub mod Released
pub mod Owned
pub mod Udp
mod Tests
pub mod LifeTests
use kubevirt_wol.Common.{
  ◌-◌, ℕ, zero, suc, ◌+◌, ◌*◌, ◌%◌, ◌^◌, List, [], ◌∷◌, ◌++◌, Bool, true, false, not, ◌&&◌, ◌||◌,
  Option, none, some, Text, codes, ltb, leb, ◌==◌, if◌then◌else◌, length, take, drop, replicate,
  Assoc, get, put, retain, ℤ, pos, ltb_ℤ, Result, ok, err, Run, panic, done, ◌>>=◌,
}
use kubevirt_wol.Cluster.{Metrics, count_packet, count_error}
use kubevirt_wol.Packet.{parse_magic_packet, default_wol_port, magic_packet_size}
use kubevirt_wol.Aggregator.{WolEvent, WolEventResponse, second}

pub record Agent : Type 0 where
  pub port : ℤ
  pub node_name : Text
  pub operator_addr : Text
  pub dedupe_cache : Assoc ℕ
  pub dedupe_duration : ℕ
  pub enable_raw_wol : Bool

abbrev pub port_or_default : ℤ → ℤ
port_or_default port = if ltb_ℤ (pos 0) port then port else pos default_wol_port

unfoldable pub new_agent : ℤ → Text → Text → Agent
new_agent port node_name operator_addr = record {
  port = port_or_default port;
  node_name = node_name;
  operator_addr = operator_addr;
  dedupe_cache = [];
  dedupe_duration = 2 * second;
  enable_raw_wol = true;
}

unfoldable pub set_enable_raw_wol : Bool → Agent → Agent
set_enable_raw_wol enable a = record a { enable_raw_wol = enable }

-- The readings of the clock in shouldProcess: for `time.Since`, and for the time that is kept.
pub record Clock : Type 0 where
  pub checked : ℕ
  pub kept : ℕ

-- time.Since(lastSeen) < a.dedupeDuration: the difference is signed
abbrev pub seen_within : ℕ → ℕ → Option ℕ → Bool
seen_within now window none = false
seen_within now window (some last_seen) = ltb now (last_seen + window)

unfoldable pub should_process : Clock → Text → Agent → Agent × Bool
should_process t mac a =
    if seen_within t.checked a.dedupe_duration (get mac a.dedupe_cache)
    then (a, false)
    else (record a { dedupe_cache = put mac t.kept a.dedupe_cache }, true)

-- One tick of `cleanupCache`: now.Sub(lastSeen) > a.dedupeDuration*3 deletes.
unfoldable pub cleanup_cache : ℕ → Agent → Agent
cleanup_cache now a = record a {
  dedupe_cache =
      retain (λ last_seen. not (ltb (last_seen + a.dedupe_duration * 3) now)) a.dedupe_cache;
}

-- Where a packet came from: the text of the IP address, and the port.
pub record Addr : Type 0 where
  pub ip : Text
  pub port : ℕ

abbrev pub event_of : ℕ → Addr → List ℕ → Text → Agent → WolEvent
event_of timestamp addr packet mac a = record {
  mac_address = mac;
  timestamp = timestamp;
  node_name = a.node_name;
  source_ip = addr.ip;
  source_port = addr.port % 2 ^ 32;
  packet_size = length packet % 2 ^ 32;
}

-- The state of an agent and of what it reports to.
pub record Node (W : Type 0) : Type 0 where
  pub agent : Agent
  pub metrics : Metrics
  pub remote : W

module _ {W : Type 0} (report : WolEvent → W → W × Result Text WolEventResponse) (t : Clock)
    (timestamp : ℕ) (addr : Addr) where
  abbrev pub after_report : Node W → W × Result Text WolEventResponse → Node W
  after_report n (w, err e) = record n { remote = w; metrics = count_error n.metrics }
  after_report n (w, ok resp) = record n { remote = w; metrics = count_packet n.metrics }

  abbrev pub process_new : List ℕ → Text → Node W → Agent × Bool → Node W
  process_new packet mac n (a, false) = record n { agent = a }
  process_new packet mac n (a, true) =
      after_report (record n { agent = a }) (report (event_of timestamp addr packet mac a) n.remote)

  abbrev pub process_parsed : List ℕ → Node W → Option Text → Node W
  process_parsed packet n none = n
  process_parsed packet n (some mac) = process_new packet mac n (should_process t mac n.agent)

  unfoldable pub process_packet : List ℕ → Node W → Run (Node W)
  process_packet packet n = do
    parsed ← parse_magic_packet packet
    done (process_parsed packet n parsed)

-- net.ParseMAC, for the texts with a separator of one byte behind each pair of digits, which are all
-- that the handler is called with; other texts give `none`, as an error does.
abbrev pub hex_value : ℕ → Option ℕ
hex_value c =
    if leb b'0' c && leb c b'9'
    then some (c - b'0')
    else if leb b'a' c && leb c b'f'
    then some (c - b'a' + 10)
    else if leb b'A' c && leb c b'F'
    then some (c - b'A' + 10)
    else none

abbrev pub two_digits : Option ℕ → Option ℕ → Option ℕ
two_digits (some h) (some l) = some (h * 16 + l)
two_digits (some h) none = none
two_digits none l = none

abbrev pub cons_byte : Option ℕ → Option (List ℕ) → Option (List ℕ)
cons_byte (some b) (some bs) = some (b ∷ bs)
cons_byte (some b) none = none
cons_byte none bs = none

unfoldable pub parse_groups : ℕ → Text → Option (List ℕ)
parse_groups sep (h ∷ l ∷ []) = cons_byte (two_digits (hex_value h) (hex_value l)) (some [])
parse_groups sep (h ∷ l ∷ c ∷ s) =
    let rest = parse_groups sep s in
    if c == sep then cons_byte (two_digits (hex_value h) (hex_value l)) rest else none
parse_groups sep (h ∷ []) = none
parse_groups sep [] = none

abbrev pub of_length : Option (List ℕ) → Option (List ℕ)
of_length none = none
of_length (some bs) = let n = length bs in if n == 6 || (n == 8 || n == 20) then some bs else none

abbrev third_byte : Text → ℕ
third_byte (a ∷ b ∷ c ∷ _) = c
third_byte _ = 0

unfoldable pub parse_mac : Text → Option (List ℕ)
parse_mac s =
    let sep = third_byte s in
    if leb 14 (length s) && (sep == b':' || sep == b'-')
    then of_length (parse_groups sep s)
    else none

-- copy(dst, src) for six bytes, which were 0; on an error `src` is nil
abbrev pub six_of : Option (List ℕ) → List ℕ
six_of none = replicate 6 0
six_of (some bs) = take 6 (take 6 bs ++ replicate (6 - length bs) 0)

-- for i := 0; i < 16; i++ { copy(packet[6+i*6:6+(i+1)*6], macBytes) }
unfoldable pub copies : ℕ → List ℕ → List ℕ
copies zero mac_bytes = []
copies (suc n) mac_bytes = mac_bytes ++ copies n mac_bytes

-- The packet that `packetHandler` makes of an address.
unfoldable pub rebuild_packet : Text → List ℕ
rebuild_packet mac = replicate 6 255 ++ copies 16 (six_of (parse_mac mac))

abbrev pub broadcast_addr : Addr
broadcast_addr = record { ip = codes "255.255.255.255"; port = 0 }

-- `packetHandler`, where the goroutine that it starts runs to its end
unfoldable pub packet_handler :
    {W : Type 0}
    → (WolEvent → W → W × Result Text WolEventResponse)
    → Clock
    → ℕ
    → Text
    → Node W
    → Run (Node W)
packet_handler report t timestamp mac n =
    process_packet report t timestamp broadcast_addr (rebuild_packet mac) n
