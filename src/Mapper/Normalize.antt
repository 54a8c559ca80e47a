-- ===== src/Mapper/Normalize.antt =====
-- `normalizeMACAddress` puts every spelling of an address into one form.
use kubevirt_wol.Common.{
  ℕ, suc, ◌+◌, ◌*◌, ◌/◌, ◌%◌, ◌<◌, ◌≤◌, ◌≡◌, ◌⊎◌, refl, ap, List, [], ◌∷◌, false, Text, arith,
  is_space, trim_left, trim_right, trim_space, to_lower, lower, map, length,
}
use kubevirt_wol.Packet.{hex_digit, colon}
use kubevirt_wol.Packet.Spec.{mac_text}
use kubevirt_wol.Mapper.{normalize_mac_address}

is_space-lower : (c : ℕ) → is_space (lower c) ≡ is_space c
unfolding is_space lower
is_space-lower c = ground arith

lower-lower : (c : ℕ) → lower (lower c) ≡ lower c
unfolding lower
lower-lower c = ground arith

trim_left-map : (s : Text) → trim_left (map lower s) ≡ map lower (trim_left s)
unfolding trim_left
trim_left-map [] = refl
trim_left-map (c ∷ s) = ground (arith, is_space-lower c, trim_left-map s)

trim_right-map : (s : Text) → trim_right (map lower s) ≡ map lower (trim_right s)
unfolding trim_right
trim_right-map [] = refl
trim_right-map (c ∷ s) = ground (arith, is_space-lower c, trim_right-map s)

trim_left-trim_left : (s : Text) → trim_left (trim_left s) ≡ trim_left s
unfolding trim_left
trim_left-trim_left [] = refl
trim_left-trim_left (c ∷ s) = ground (arith, trim_left-trim_left s)

trim_right-trim_right : (s : Text) → trim_right (trim_right s) ≡ trim_right s
unfolding trim_right
trim_right-trim_right [] = refl
trim_right-trim_right (c ∷ s) = ground (arith, trim_right-trim_right s)

length-trim_left-le : (s : Text) → suc (length (trim_left s)) ≤ suc (length s)
unfolding trim_left
length-trim_left-le [] = omega arith
length-trim_left-le (c ∷ s) = ground (arith, length-trim_left-le s)

-- What does not begin with white space still does not when its end is trimmed.
trim_left-trim_right : (s : Text) → trim_left s ≡ s → trim_left (trim_right s) ≡ trim_right s
unfolding trim_left trim_right
trim_left-trim_right [] h = refl
trim_left-trim_right (c ∷ s) h =
    let shorter : suc (length (trim_left s)) ≤ suc (length s) = length-trim_left-le s in
    let first : is_space c ≡ false = ground (arith, ap length h) in ground arith

trim_space-map : (s : Text) → trim_space (map lower s) ≡ map lower (trim_space s)
unfolding trim_space
trim_space-map s = rw (trim_left-map s, trim_right-map (trim_left s))

trim_space-trim_space : (s : Text) → trim_space (trim_space s) ≡ trim_space s
unfolding trim_space
trim_space-trim_space s = rw (
  trim_left-trim_right (trim_left s) (trim_left-trim_left s),
  trim_right-trim_right (trim_left s),
)

map-lower_idem : (s : Text) → map lower (map lower s) ≡ map lower s
map-lower_idem [] = refl
map-lower_idem (c ∷ s) = ground (arith, lower-lower c, map-lower_idem s)

-- A normal address is left as it is, so that a key of the mapping finds itself.
pub normalize-normalize :
    (s : Text) → normalize_mac_address (normalize_mac_address s) ≡ normalize_mac_address s
unfolding normalize_mac_address to_lower
normalize-normalize s = rw (trim_space-map, trim_space-trim_space, map-lower_idem)

-- The hexadecimal digits, in either case.
abbrev pub IsHex : ℕ → ℕ → Type 0
IsHex x d = (d < 16) × ((x ≡ hex_digit d) ⊎ ((10 ≤ d) × (x ≡ 55 + d)))

-- A text spells an address, each byte with two digits of either case.
pub data Spells : Text → List ℕ → Type 0 where
  byte :
      {x y hi lo b : ℕ} → IsHex x hi → IsHex y lo → b ≡ hi * 16 + lo → Spells (x ∷ y ∷ []) (b ∷ [])
  bytes :
      {x y hi lo b c : ℕ} {t : Text} {m : List ℕ}
      → IsHex x hi
      → IsHex y lo
      → b ≡ hi * 16 + lo
      → Spells t (c ∷ m)
      → Spells (x ∷ y ∷ colon ∷ t) (b ∷ c ∷ m)

lower-IsHex : {x d : ℕ} → IsHex x d → lower x ≡ hex_digit d
unfolding lower
lower-IsHex h = ground arith

is_space-IsHex : {x d : ℕ} → IsHex x d → is_space x ≡ false
unfolding is_space
is_space-IsHex h = ground arith

lower-Spells : {t : Text} {m : List ℕ} → Spells t m → map lower t ≡ mac_text m
unfolding mac_text lower
lower-Spells (byte {hi} {lo} {b} hx hy e) =
    let q : b / 16 ≡ hi = omega arith in
    let r : b % 16 ≡ lo = omega arith in rw (q, r, lower-IsHex hx, lower-IsHex hy)
lower-Spells (bytes {hi} {lo} {b} hx hy e s) =
    let q : b / 16 ≡ hi = omega arith in
    let r : b % 16 ≡ lo = omega arith in rw (q, r, lower-IsHex hx, lower-IsHex hy, lower-Spells s)

-- A spelled address neither begins nor ends with white space.
trim_left-Spells : {t : Text} {m : List ℕ} → Spells t m → trim_left t ≡ t
unfolding trim_left
trim_left-Spells (byte hx hy e) = rw (is_space-IsHex hx)
trim_left-Spells (bytes hx hy e s) = rw (is_space-IsHex hx)

trim_right-Spells : {t : Text} {m : List ℕ} → Spells t m → trim_right t ≡ t
unfolding trim_right
trim_right-Spells (byte hx hy e) = ground (arith, is_space-IsHex hx, is_space-IsHex hy)
trim_right-Spells (bytes hx hy e s) = ground (arith, trim_right-Spells s)

-- Whatever the case of its digits, a spelled address is normalized to the text of the address.
pub normalize-Spells : {t : Text} {m : List ℕ} → Spells t m → normalize_mac_address t ≡ mac_text m
unfolding normalize_mac_address trim_space to_lower mac_text
normalize-Spells s = rw (trim_space, trim_left-Spells s, trim_right-Spells s) (lower-Spells s)
