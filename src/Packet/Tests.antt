-- ===== src/Packet/Tests.antt =====
-- Runs of the parser, and its theorems at concrete packets.
use kubevirt_wol.Common.{ℕ, ◌≡◌, ◌↔◌, refl, List, [], ◌∷◌, ◌++◌, codes, none, some, done, replicate}
use kubevirt_wol.Packet.{parse_magic_packet}
use kubevirt_wol.Packet.Decide.{Announces, parse_magic_packet_iff}
use kubevirt_wol.Packet.Spec.{magic_packet, mac_text}

abbrev sample_address : List ℕ
sample_address = 82 ∷ 84 ∷ 0 ∷ 171 ∷ 205 ∷ 239 ∷ []

accepted :
    parse_magic_packet (magic_packet sample_address ++ 1 ∷ [])
    ≡ done (some (codes "52:54:00:ab:cd:ef"))
unfolding parse_magic_packet magic_packet
accepted = refl

too_short : parse_magic_packet (replicate 101 255) ≡ done none
unfolding parse_magic_packet
too_short = refl

-- the sixteenth copy differs in its last byte
not_repeated : parse_magic_packet (replicate 101 255 ++ 254 ∷ []) ≡ done none
unfolding parse_magic_packet
not_repeated = refl

parse_magic_packet_iff_example :
    (parse_magic_packet (magic_packet sample_address ++ 1 ∷ [])
      ≡ done (some (codes "52:54:00:ab:cd:ef")))
    ↔ ((m : List ℕ) × Announces (magic_packet sample_address ++ 1 ∷ []) m
        × (mac_text m ≡ codes "52:54:00:ab:cd:ef"))
parse_magic_packet_iff_example =
    parse_magic_packet_iff (magic_packet sample_address ++ 1 ∷ []) (codes "52:54:00:ab:cd:ef")
