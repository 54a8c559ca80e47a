-- ===== src/Agent/Rebuild.antt =====
-- The packet handler of the raw listeners is given the text of an address and makes a magic packet of
-- it again, which is parsed again.
use kubevirt_wol.Common.{
  ℕ, zero, suc, ◌/◌, ◌%◌, ◌<◌, ◌≡◌, refl, sym, ap, List, [], ◌∷◌, ◌++◌, some, arith, All, length,
  done, append-nil,
}
use kubevirt_wol.Packet.{parse_magic_packet, hex_digit, colon}
use kubevirt_wol.Packet.Spec.{mac_text, magic_packet, repeat}
use kubevirt_wol.Packet.Decide.{parse_magic_packet_iff}
use kubevirt_wol.Agent.{
  hex_value, two_digits, parse_groups, parse_mac, six_of, copies, rebuild_packet,
}

abbrev pub IsByte : ℕ → Type 0
IsByte b = b < 256

hex_value-hex_digit : (d : ℕ) → d < 16 → hex_value (hex_digit d) ≡ some d
hex_value-hex_digit d h = ground arith

byte-digits :
    (b : ℕ)
    → IsByte b
    → two_digits (hex_value (hex_digit (b / 16))) (hex_value (hex_digit (b % 16))) ≡ some b
byte-digits b h =
    rw (hex_value-hex_digit (b / 16) (omega arith), hex_value-hex_digit (b % 16) (omega arith))
      (ap some (omega arith))

parse_groups-mac_text :
    (b : ℕ) (m : List ℕ) → All IsByte (b ∷ m) → parse_groups colon (mac_text (b ∷ m)) ≡ some (b ∷ m)
unfolding parse_groups mac_text
parse_groups-mac_text b [] h = rw (byte-digits b h.0) refl
parse_groups-mac_text b (c ∷ m) h = rw (byte-digits b h.0, parse_groups-mac_text c m h.1) refl

parse_mac-mac_text : (m : List ℕ) → length m ≡ 6 → All IsByte m → parse_mac (mac_text m) ≡ some m
unfolding parse_mac mac_text
parse_mac-mac_text (a ∷ b ∷ c ∷ d ∷ e ∷ f ∷ []) l h =
    rw (parse_groups-mac_text a (b ∷ c ∷ d ∷ e ∷ f ∷ []) h) refl
parse_mac-mac_text [] l h = absurd (omega arith)
parse_mac-mac_text (a ∷ []) l h = absurd (omega arith)
parse_mac-mac_text (a ∷ b ∷ []) l h = absurd (omega arith)
parse_mac-mac_text (a ∷ b ∷ c ∷ []) l h = absurd (omega arith)
parse_mac-mac_text (a ∷ b ∷ c ∷ d ∷ []) l h = absurd (omega arith)
parse_mac-mac_text (a ∷ b ∷ c ∷ d ∷ e ∷ []) l h = absurd (omega arith)
parse_mac-mac_text (a ∷ b ∷ c ∷ d ∷ e ∷ f ∷ g ∷ r) l h = absurd (omega arith)

copies-repeat : (n : ℕ) (m : List ℕ) → copies n m ≡ repeat n m
unfolding copies repeat
copies-repeat zero m = refl
copies-repeat (suc n) m = ap (λ r. m ++ r) (copies-repeat n m)

six_of-some : (m : List ℕ) → length m ≡ 6 → six_of (some m) ≡ m
six_of-some (a ∷ b ∷ c ∷ d ∷ e ∷ f ∷ []) l = refl
six_of-some [] l = absurd (omega arith)
six_of-some (a ∷ []) l = absurd (omega arith)
six_of-some (a ∷ b ∷ []) l = absurd (omega arith)
six_of-some (a ∷ b ∷ c ∷ []) l = absurd (omega arith)
six_of-some (a ∷ b ∷ c ∷ d ∷ []) l = absurd (omega arith)
six_of-some (a ∷ b ∷ c ∷ d ∷ e ∷ []) l = absurd (omega arith)
six_of-some (a ∷ b ∷ c ∷ d ∷ e ∷ f ∷ g ∷ r) l = absurd (omega arith)

pub rebuild_packet-mac_text :
    (m : List ℕ) → length m ≡ 6 → All IsByte m → rebuild_packet (mac_text m) ≡ magic_packet m
unfolding rebuild_packet magic_packet
rebuild_packet-mac_text m l h = rw (parse_mac-mac_text m l h, six_of-some m l, copies-repeat 16 m)

-- The packet that the handler rebuilds from the text of an address is a magic packet of that address,
-- and the parser reads the same text out of it.
pub parse-rebuild_packet :
    (m : List ℕ)
    → length m ≡ 6
    → All IsByte m
    → (rebuild_packet (mac_text m) ≡ magic_packet m)
      × (parse_magic_packet (rebuild_packet (mac_text m)) ≡ done (some (mac_text m)))
parse-rebuild_packet m l h =
    let e = rebuild_packet-mac_text m l h in
    (
      e,
      rw e (
          (parse_magic_packet_iff (magic_packet m) (mac_text m)).1
            (m, (l, ([], sym (append-nil (magic_packet m)))), refl)),
    )
