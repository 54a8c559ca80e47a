-- ===== src/Packet.antt =====
-- internal/wol/packet.go: what a Wake-on-LAN magic packet is. A slice of bytes is a list of numbers,
-- and reading one out of range is a panic. The proofs are in the modules below this one.
pub mod Spec
mod Loops
pub mod Decide
mod Tests
use kubevirt_wol.Common.{
  ℕ, zero, suc, ◌+◌, ◌-◌, ◌*◌, ◌/◌, ◌%◌, List, [], ◌∷◌, ◌++◌, Bool, true, false, Option, none, some,
  Text, codes, ltb, ◌==◌, if◌then◌else◌, length, not, Run, panic, done, ◌>>=◌, at, slice,
}

abbrev pub default_wol_port : ℕ
default_wol_port = 9

-- 6 + 16 * 6
abbrev pub magic_packet_size : ℕ
magic_packet_size = 102

-- for i := …; packet[i] != 0xFF: the rounds left, and i
unfoldable pub check_sync : ℕ → ℕ → List ℕ → Run Bool
check_sync zero i packet = done true
check_sync (suc n) i packet = do
  b ← at packet i
  let rest = check_sync n (suc i) packet
  if b == 255 then rest else done false

-- for j := …; packet[offset+j] != macBytes[j]
unfoldable pub check_row : ℕ → ℕ → ℕ → List ℕ → List ℕ → Run Bool
check_row zero offset j packet mac_bytes = done true
check_row (suc n) offset j packet mac_bytes = do
  b ← at packet (offset + j)
  m ← at mac_bytes j
  let rest = check_row n offset (suc j) packet mac_bytes
  if b == m then rest else done false

-- for i := 1; i < 16; i++
unfoldable pub check_rows : ℕ → ℕ → List ℕ → List ℕ → Run Bool
unfolding check_row
check_rows zero i packet mac_bytes = done true
check_rows (suc n) i packet mac_bytes = do
  same ← check_row 6 (6 + i * 6) 0 packet mac_bytes
  let rest = check_rows n (suc i) packet mac_bytes
  if same then rest else done false

-- %02x, for a byte
abbrev pub hex_digit : ℕ → ℕ
hex_digit d = if ltb d 10 then 48 + d else 87 + d

abbrev pub hex_byte : ℕ → Text
hex_byte b = hex_digit (b / 16) ∷ hex_digit (b % 16) ∷ []

abbrev pub colon : ℕ
colon = b':'

-- fmt.Sprintf("%02x:%02x:%02x:%02x:%02x:%02x", …)
unfoldable pub format_mac : List ℕ → Run Text
format_mac mac_bytes = do
  b0 ← at mac_bytes 0
  b1 ← at mac_bytes 1
  b2 ← at mac_bytes 2
  b3 ← at mac_bytes 3
  b4 ← at mac_bytes 4
  b5 ← at mac_bytes 5
  done (
      hex_byte b0
      ++ colon
        ∷ (hex_byte b1
            ++ colon
              ∷ (hex_byte b2
                  ++ colon ∷ (hex_byte b3 ++ colon ∷ (hex_byte b4 ++ colon ∷ hex_byte b5)))))

-- `none` is the result `"", false`.
unfoldable pub parse_magic_packet : List ℕ → Run (Option Text)
unfolding check_sync check_rows format_mac
parse_magic_packet packet = if ltb (length packet) magic_packet_size then done none else do
  sync ← check_sync 6 0 packet
  if not sync then done none else do
    mac_bytes ← slice 6 12 packet
    same ← check_rows 15 1 packet mac_bytes
    if not same then done none else do mac ← format_mac mac_bytes; done (some mac)
