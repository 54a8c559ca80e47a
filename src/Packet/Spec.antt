-- ===== src/Packet/Spec.antt =====
-- The magic packet of a MAC address, and the text of an address, as the formats describe them.
use kubevirt_wol.Common.{ℕ, zero, suc, List, [], ◌∷◌, ◌++◌, Text, replicate}
use kubevirt_wol.Packet.{hex_byte, colon}

-- n copies of a list, one behind the other
unfoldable pub repeat : ℕ → List ℕ → List ℕ
repeat zero mac = []
repeat (suc n) mac = mac ++ repeat n mac

-- Six bytes 0xFF, and sixteen times the address.
unfoldable pub magic_packet : List ℕ → List ℕ
unfolding repeat
magic_packet mac = replicate 6 255 ++ repeat 16 mac

-- Two hexadecimal digits for each byte, with colons between the bytes.
unfoldable pub mac_text : List ℕ → Text
mac_text [] = []
mac_text (b ∷ []) = hex_byte b
mac_text (b ∷ c ∷ r) = hex_byte b ++ colon ∷ mac_text (c ∷ r)
