-- ===== src/RawListener/Tests.antt =====
-- The raw listener at concrete frames and interfaces.
use kubevirt_wol.Common.{
  All, ltb, all, delete, put, contains, has_prefix, text_eq, map, ℕ, ◌≡◌, refl, List, [], ◌∷◌, true,
  false, Text, codes, arith, get, ok,
}
use kubevirt_wol.Packet.Spec.{magic_packet}
use kubevirt_wol.RawListener.{
  text_ltb, insert, sort_by_name, is_candidate, NetInterface, dedupe, candidates,
  get_candidate_interfaces,
}
use kubevirt_wol.RawListener.Frames.{IsByte}
use kubevirt_wol.RawListener.View.{broadcast, frame_of}
use mathlib.Core.List.Perm
use kubevirt_wol.RawListener.Selected.{Selects, get_candidate_interfaces-Selects}
use kubevirt_wol.Examples.{sample_address}

abbrev pub source : List ℕ
source = 2 ∷ 0 ∷ 0 ∷ 0 ∷ 0 ∷ 1 ∷ []

abbrev pub wake_frame : List ℕ
wake_frame = frame_of broadcast source 8 66 (magic_packet sample_address)

pub bytes_of : (f : List ℕ) → all (λ b. ltb b 256) f ≡ true → All IsByte f
bytes_of [] h = tt
bytes_of (b ∷ f) h = (ground arith, bytes_of f (ground arith))

abbrev interface : Text → NetInterface
interface name = record {
  name = name;
  hardware_addr = codes "a";
  is_loopback = false;
  is_up = true;
  is_broadcast = true;
}

abbrev nic : NetInterface
nic = interface (codes "eth0")

abbrev bridge : NetInterface
bridge = interface (codes "br-ex")

program : Unit {0}
unfolding get_candidate_interfaces candidates is_candidate dedupe sort_by_name insert text_ltb
    text_eq has_prefix contains get put delete
program = tt

keeps_bridge :
    get_candidate_interfaces
      (map (λ (k, i). i))
      (ok (nic ∷ interface (codes "veth1") ∷ bridge ∷ []))
    ≡ ok (bridge ∷ [])
unfolding program
keeps_bridge = refl

get_candidate_interfaces-Selects_example :
    Selects (codes "a") (ok (nic ∷ interface (codes "veth1") ∷ bridge ∷ [])) (
      get_candidate_interfaces
        (map (λ (k, i). i))
        (ok (nic ∷ interface (codes "veth1") ∷ bridge ∷ [])))
get_candidate_interfaces-Selects_example =
    get_candidate_interfaces-Selects (map (λ (k, i). i)) (λ m. Perm.refl _) (codes "a")
      (ok (nic ∷ interface (codes "veth1") ∷ bridge ∷ []))
