-- ===== src/Packet/Decide.antt =====
-- `parseMagicPacket` decides the format: it accepts what begins with a magic packet, returns the
-- address of that packet, and never reads out of range.
use kubevirt_wol.Common.{
  ℕ, zero, suc, ◌*◌, ◌≤◌, ◌≡◌, sym, ap, ◌∙◌, ◌↔◌, ◌⊎◌, inl, inr, refl, List, [], ◌∷◌, ◌++◌, true,
  append_assoc, arith, if◌then◌else◌, length, drop, take, replicate, done, Text, Option, some, none,
  ltb, ◌&&◌, drop-drop, length-drop, length-take_of_le, take-append-drop, take-append_left,
  drop-append_left, length-append, Bool-cases, Option-cases, slice, ltb→le,
}
use kubevirt_wol.Packet.{parse_magic_packet, check_sync, check_rows, format_mac, magic_packet_size}
use kubevirt_wol.Packet.Loops.{
  ones, rows, check_sync-ones, check_rows-rows, ones-split, rows-split, rows-append,
}
use kubevirt_wol.Packet.Spec.{repeat, magic_packet, mac_text}

pub format_mac-mac_text : (m : List ℕ) → length m ≡ 6 → format_mac m ≡ done (mac_text m)
unfolding format_mac mac_text
format_mac-mac_text (a ∷ b ∷ c ∷ d ∷ e ∷ f ∷ []) h = refl
format_mac-mac_text [] h = absurd (omega arith)
format_mac-mac_text (a ∷ []) h = absurd (omega arith)
format_mac-mac_text (a ∷ b ∷ []) h = absurd (omega arith)
format_mac-mac_text (a ∷ b ∷ c ∷ []) h = absurd (omega arith)
format_mac-mac_text (a ∷ b ∷ c ∷ d ∷ []) h = absurd (omega arith)
format_mac-mac_text (a ∷ b ∷ c ∷ d ∷ e ∷ []) h = absurd (omega arith)
format_mac-mac_text (a ∷ b ∷ c ∷ d ∷ e ∷ f ∷ g ∷ r) h = absurd (omega arith)

-- the bytes of the first copy of the address
abbrev address : List ℕ → List ℕ
address p = take 6 (drop 6 p)

abbrev verdict : List ℕ → Option Text
verdict p =
    if ltb (length p) magic_packet_size
    then none
    else if ones 6 p && rows 15 (address p) (drop 12 p)
    then some (mac_text (address p))
    else none

module _ (p : List ℕ) (fits : magic_packet_size ≤ length p) where
  slice-address : slice 6 12 p ≡ done (address p)
  slice-address = ground arith

  length-address : length (address p) ≡ 6
  length-address = length-take_of_le 6 (drop 6 p) (omega (arith, length-drop 6 p))

  sync_step : check_sync 6 0 p ≡ done (ones 6 p)
  sync_step = check_sync-ones 6 0 p p refl (omega arith)

  rows_step : check_rows 15 1 p (address p) ≡ done (rows 15 (address p) (drop 12 p))
  rows_step =
      check_rows-rows 15 1 p (address p) (drop 12 p) refl length-address
        (omega (arith, length-drop 12 p))

pub parse-verdict : (p : List ℕ) → parse_magic_packet p ≡ done (verdict p)
unfolding parse_magic_packet
parse-verdict p = elim (Bool-cases (ltb (length p) magic_packet_size)) [
  | inl short ↦ rw short
  | inr long ↦
      let fits = ltb→le (length p) magic_packet_size long in
      rw
        (
          long,
          sync_step p fits,
          slice-address p fits,
          rows_step p fits,
          format_mac-mac_text (address p) (length-address p fits),
        )
        (ground arith)
]

-- p begins with the magic packet of the address m.
abbrev pub Announces : List ℕ → List ℕ → Type 0
Announces p m = (length m ≡ 6) × ((rest : List ℕ) × (p ≡ magic_packet m ++ rest))

accepted_parts :
    (p : List ℕ) {t : Text}
    → verdict p ≡ some t
    → (magic_packet_size ≤ length p)
      × (ones 6 p ≡ true)
      × (rows 15 (address p) (drop 12 p) ≡ true)
      × (mac_text (address p) ≡ t)
accepted_parts p h = (ground arith, ground arith, ground arith, ground arith)

accepted-Announces :
    (p : List ℕ)
    → magic_packet_size ≤ length p
    → ones 6 p ≡ true
    → rows 15 (address p) (drop 12 p) ≡ true
    → Announces p (address p)
unfolding magic_packet repeat
accepted-Announces p fits sync same =
    let (rest, e) = rows-split 15 (address p) (drop 12 p) (length-address p fits) same in
    let first = take-append-drop 6 (drop 6 p) in
    let second = drop-drop 6 6 p in
    let start = ones-split 6 p sync in
    (
      length-address p fits,
      (
        rest,
        start
            ∙ ap (λ q. replicate 6 255 ++ q)
                (sym first
                  ∙ ap (λ q. address p ++ q) (second ∙ e)
                  ∙ sym (append_assoc (address p) (repeat 15 (address p)) rest)),
      ),
    )

length-repeat : (n : ℕ) (m : List ℕ) → length m ≡ 6 → length (repeat n m) ≡ n * 6
unfolding repeat
length-repeat zero m h = refl
length-repeat (suc n) m h = omega (arith, length-append {0} m (repeat n m), length-repeat n m h)

verdict-front :
    (q : List ℕ)
    → 96 ≤ length q
    → verdict (replicate 6 255 ++ q)
      ≡ (if rows 15 (take 6 q) (drop 6 q) then some (mac_text (take 6 q)) else none)
unfolding ones
verdict-front q h = ground arith

module _ (m rest : List ℕ) (l : length m ≡ 6) where
  body : List ℕ
  body = (m ++ repeat 15 m) ++ rest

  body-split : body ≡ m ++ (repeat 15 m ++ rest)
  unfolding body
  body-split = append_assoc m (repeat 15 m) rest

  take-body : take 6 body ≡ m
  take-body = rw body-split (take-append_left 6 m _ l)

  drop-body : drop 6 body ≡ repeat 15 m ++ rest
  drop-body = rw body-split (drop-append_left 6 m _ l)

  length-body : 96 ≤ length body
  length-body = rw body-split (
      omega (
        arith,
        length-append {0} m (repeat 15 m ++ rest),
        length-append {0} (repeat 15 m) rest,
        length-repeat 15 m l,
      ))

  magic_packet-body : magic_packet m ++ rest ≡ replicate 6 255 ++ body
  unfolding magic_packet repeat body
  magic_packet-body = refl

  verdict-magic_packet : verdict (magic_packet m ++ rest) ≡ some (mac_text m)
  verdict-magic_packet = rw (
    magic_packet-body,
    verdict-front body length-body,
    take-body,
    drop-body,
    rows-append 15 m rest l,
  )

Announces-verdict : (p m : List ℕ) → Announces p m → verdict p ≡ some (mac_text m)
Announces-verdict p m (l, (rest, e)) = rw e (verdict-magic_packet m rest l)

verdict-Announces :
    (p : List ℕ) {t : Text} → verdict p ≡ some t → (m : List ℕ) × Announces p m × (mac_text m ≡ t)
verdict-Announces p h =
    let (fits, sync, same, e) = accepted_parts p h in
    (address p, accepted-Announces p fits sync same, e)

-- A slice of bytes is accepted, with the text t, exactly when it begins with six bytes 0xFF and
-- sixteen copies of a six-byte address whose text is t.
pub parse_magic_packet_iff :
    (p : List ℕ) (t : Text)
    → (parse_magic_packet p ≡ done (some t)) ↔ ((m : List ℕ) × Announces p m × (mac_text m ≡ t))
parse_magic_packet_iff p t = (
  λ h. verdict-Announces p (ground (arith, parse-verdict p)),
  λ (m, a, e). ground (arith, parse-verdict p, Announces-verdict p m a),
)

-- On every slice of bytes the parser returns, with no read out of range: either it rejects, or it
-- returns the text of an address whose magic packet the slice begins with.
pub parse_magic_packet-total :
    (p : List ℕ)
    → (parse_magic_packet p ≡ done none)
      ⊎ ((m : List ℕ) × Announces p m × (parse_magic_packet p ≡ done (some (mac_text m))))
parse_magic_packet-total p = elim (Option-cases (verdict p)) [
  | inl rejected ↦ inl (ground (arith, parse-verdict p))
  | inr (t, accepted) ↦
      let (m, a, e) = verdict-Announces p accepted in inr (m, a, ground (arith, parse-verdict p))
]
