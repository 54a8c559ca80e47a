-- ===== src/RawListener.antt =====
-- internal/wol/raw_listener.go: magic packets in Ethernet frames, and the interfaces to listen on. The
-- system calls on the socket are parameters of RawListener/Socket.
pub mod View
pub mod Handled
pub mod Frames
pub mod Candidates
pub mod Suitable
pub mod Kept
pub mod Selected
pub mod Socket
pub mod Filter
pub mod Opened
pub mod Loop
mod Tests
mod FilterTests
use kubevirt_wol.Common.{
  ℕ, zero, suc, ◌+◌, ◌*◌, ◌≤◌, List, [], ◌∷◌, ◌++◌, map, Bool, true, false, not, ◌&&◌, ◌||◌, Option,
  none, some, Text, codes, ltb, leb, ◌==◌, if◌then◌else◌, length, get_elem?, has_prefix, contains,
  text_eq, Assoc, get, put, Result, ok, err, Run, panic, done, ◌>>=◌, at, slice,
}
use kubevirt_wol.Packet.{parse_magic_packet, check_sync}
use kubevirt_wol.Packet.Spec.{mac_text}

-- binary.BigEndian.Uint16
abbrev pub uint16 : List ℕ → Run ℕ
uint16 b = do hi ← at b 0; lo ← at b 1; done (hi * 256 + lo)

-- for i := 0; i < 6; i++ { if b[i] != 0xFF { return false } }: the rounds left, and i
unfoldable pub all_ones : ℕ → ℕ → List ℕ → Run Bool
all_ones zero i b = done true
all_ones (suc n) i b = do
  x ← at b i
  let rest = all_ones n (suc i) b
  if x == 255 then rest else done false

unfoldable pub is_broadcast_mac : List ℕ → Run Bool
is_broadcast_mac b = if not (length b == 6) then done false else all_ones 6 0 b

-- What the packet handler is called with: the text of the address, and the source of the frame.
abbrev pub Detected : Type 0
Detected = Option (Text × List ℕ)

abbrev pub with_source : List ℕ → Option Text → Detected
with_source src_mac none = none
with_source src_mac (some mac) = some (mac, src_mac)

-- from the check of the EtherType on
abbrev pub handle_payload : List ℕ → List ℕ → ℕ → List ℕ → Run Detected
handle_payload dst_mac src_mac ether_type payload =
    if not (ether_type == 2114) then done none else do
      broadcast ← is_broadcast_mac dst_mac
      if not broadcast
          then done none
          else do parsed ← parse_magic_packet payload; done (with_source src_mac parsed)

-- behind a VLAN tag: its last two bytes are the inner EtherType
abbrev pub handle_tagged : List ℕ → List ℕ → List ℕ → Run Detected
handle_tagged dst_mac src_mac payload = if ltb (length payload) 4 then done none else do
  inner ← slice 2 4 payload
  ether_type ← uint16 inner
  rest ← slice 4 (length payload) payload
  handle_payload dst_mac src_mac ether_type rest

-- 0x8100 is 33024, and 0x0842 is 2114.
abbrev pub handle_header : List ℕ → List ℕ → ℕ → List ℕ → Run Detected
handle_header dst_mac src_mac ether_type payload =
    if ether_type == 33024
    then handle_tagged dst_mac src_mac payload
    else handle_payload dst_mac src_mac ether_type payload

unfoldable pub process_ethernet_frame : List ℕ → Run Detected
process_ethernet_frame frame = do
  dst_mac ← slice 0 6 frame
  src_mac ← slice 6 12 frame
  header ← slice 12 14 frame
  ether_type ← uint16 header
  payload ← slice 14 (length frame) frame
  handle_header dst_mac src_mac ether_type payload

-- One frame of `listen`, whose first n bytes were received.
unfoldable pub listen_frame : List ℕ → Run Detected
listen_frame frame = if leb (length frame) 14 then done none else process_ethernet_frame frame

-- net.Interface, with the flags that are read; `hardware_addr` is the text of the address.
pub record NetInterface : Type 0 where
  pub name : Text
  pub hardware_addr : Text
  pub is_loopback : Bool
  pub is_up : Bool
  pub is_broadcast : Bool

abbrev pub is_bridge : NetInterface → Bool
is_bridge iface = has_prefix iface.name (codes "br-")

abbrev pub is_virtual : Text → Bool
is_virtual name =
    has_prefix name (codes "veth")
    || (has_prefix name (codes "br-int")
        || (has_prefix name (codes "ovn-")
            || (has_prefix name (codes "tap")
                || (has_prefix name (codes "ovs-system") || contains name (codes "@if")))))

abbrev pub is_wanted : Text → Bool
is_wanted name =
    has_prefix name (codes "en")
    || (has_prefix name (codes "eth")
        || (has_prefix name (codes "wlp") || has_prefix name (codes "br-")))

unfoldable pub is_candidate : NetInterface → Bool
is_candidate iface =
    if iface.is_loopback || not iface.is_up
    then false
    else if not iface.is_broadcast
    then false
    else if is_virtual iface.name
    then false
    else is_wanted iface.name

unfoldable pub candidates : List NetInterface → List NetInterface
candidates [] = []
candidates (iface ∷ interfaces) =
    let rest = candidates interfaces in if is_candidate iface then iface ∷ rest else rest

-- one round of the loop that leaves one interface for each address: a bridge before others, else the first
abbrev pub dedupe_in : NetInterface → Option NetInterface → Assoc NetInterface → Assoc NetInterface
dedupe_in iface none deduped = put iface.hardware_addr iface deduped
dedupe_in iface (some existing) deduped =
    if is_bridge existing
    then deduped
    else if is_bridge iface
    then put iface.hardware_addr iface deduped
    else deduped

unfoldable pub dedupe : List NetInterface → Assoc NetInterface → Assoc NetInterface
dedupe [] deduped = deduped
dedupe (iface ∷ interfaces) deduped =
    dedupe interfaces (dedupe_in iface (get iface.hardware_addr deduped) deduped)

-- Go's `<` on strings
unfoldable pub text_ltb : Text → Text → Bool
text_ltb s [] = false
text_ltb [] (_ ∷ _) = true
text_ltb (a ∷ s) (b ∷ t) = ltb a b || a == b && text_ltb s t

unfoldable pub insert : NetInterface → List NetInterface → List NetInterface
insert iface [] = iface ∷ []
insert iface (i ∷ is) =
    let rest = insert iface is in if text_ltb i.name iface.name then i ∷ rest else iface ∷ i ∷ is

-- sort.Slice by name
unfoldable pub sort_by_name : List NetInterface → List NetInterface
sort_by_name [] = []
sort_by_name (iface ∷ is) = insert iface (sort_by_name is)

abbrev pub select :
    (Assoc NetInterface → List NetInterface) → List NetInterface → Result Text (List NetInterface)
select visit [] = err (codes "no suitable interfaces found")
select visit (iface ∷ result) = ok (sort_by_name (visit (dedupe (iface ∷ result) [])))

abbrev pub of_interfaces :
    (Assoc NetInterface → List NetInterface)
    → Result Text (List NetInterface)
    → Result Text (List NetInterface)
of_interfaces visit (err e) = err e
of_interfaces visit (ok interfaces) = select visit (candidates interfaces)

-- `visit` gives the values of a map in the order of `range`; the argument is the answer of
-- net.Interfaces.
unfoldable pub get_candidate_interfaces :
    (Assoc NetInterface → List NetInterface)
    → Result Text (List NetInterface)
    → Result Text (List NetInterface)
get_candidate_interfaces visit interfaces = of_interfaces visit interfaces
