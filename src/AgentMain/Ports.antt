-- ===== src/AgentMain/Ports.antt =====
-- The ports that the controller writes into the arguments of an agent are those that the agent reads.
use kubevirt_wol.Common.{
  All-append, zero, ltb_ℤ, NumError, split, negsuc, positive, append-nil, ℕ, suc, ◌+◌, ◌/◌, ◌%◌,
  ◌^◌, ◌≤◌, ◌<◌, ◌≡◌, ◌≢◌, refl, List, [], ◌∷◌, ◌++◌, map, Text, arith, ℤ, pos, format_nat,
  format_from, format_int, atoi, parse_digits, Result, ok, All, trim_space, trim_left, trim_right,
  is_space, join, split-join, append_assoc, inl, inr, err, Bool-cases, ◌||◌,
}
use kubevirt_wol.Agents.{ports_text, ports_or_default}
use kubevirt_wol.Agent.{port_or_default}
use kubevirt_wol.AgentMain.{add_part, add_port, PortError, or_nine, parse_ports, parse_parts}

abbrev pub IsDigit : ℕ → Type 0
IsDigit c = (48 ≤ c) × (c ≤ 57)

parse-format_from :
    (fuel n : ℕ) (out : Text)
    → n < fuel
    → n < 2 ^ 63
    → parse_digits 0 (format_from fuel n out) ≡ parse_digits n out
unfolding format_from parse_digits
parse-format_from zero n out h b = absurd (omega arith)
parse-format_from (suc fuel) n out h b =
    ground (arith, parse-format_from fuel (n / 10) ((48 + n % 10) ∷ out))

format_from-IsDigit :
    (fuel n : ℕ) (out : Text) → All IsDigit out → All IsDigit (format_from fuel n out)
unfolding format_from
format_from-IsDigit zero n out h = h
format_from-IsDigit (suc fuel) n out h =
    ground (arith, format_from-IsDigit fuel (n / 10) ((48 + n % 10) ∷ out))

format_from_ne : (fuel n c : ℕ) (out : Text) → format_from fuel n (c ∷ out) ≢ []
unfolding format_from
format_from_ne zero n c out = λ h. cc
format_from_ne (suc fuel) n c out =
    λ h. ground (arith, format_from_ne fuel (n / 10) (48 + n % 10) (c ∷ out))

-- A text of digits that is not empty.
abbrev Numeral : Text → Type 0
Numeral s = (s ≢ []) × All IsDigit s

format_nat-Numeral : (n : ℕ) → Numeral (format_nat n)
unfolding format_nat format_from
format_nat-Numeral n = (
  λ h. ground (arith, format_from_ne n (n / 10) (48 + n % 10) []),
  format_from-IsDigit (suc n) n [] tt,
)

trim_left-Numeral : (s : Text) → All IsDigit s → trim_left s ≡ s
unfolding trim_left is_space
trim_left-Numeral [] h = refl
trim_left-Numeral (c ∷ s) h = ground arith

trim_right-Numeral : (s : Text) → All IsDigit s → trim_right s ≡ s
unfolding trim_right is_space
trim_right-Numeral [] h = refl
trim_right-Numeral (c ∷ []) h = ground arith
trim_right-Numeral (c ∷ d ∷ s) h = rw (trim_right-Numeral (d ∷ s) h.1)

trim_space-Numeral : (s : Text) → All IsDigit s → trim_space s ≡ s
unfolding trim_space
trim_space-Numeral s h = rw (trim_left-Numeral s h, trim_right-Numeral s h)

atoi-Numeral : (s : Text) → Numeral s → atoi s ≡ positive (parse_digits 0 s)
unfolding atoi
atoi-Numeral [] h = absurd (h.0 refl)
atoi-Numeral (c ∷ s) h = ground arith

-- Atoi reads back what `%d` writes.
pub atoi-format_nat : (n : ℕ) → n < 2 ^ 63 → atoi (format_nat n) ≡ ok (pos n)
unfolding format_nat parse_digits
atoi-format_nat n b =
    rw
      (
        atoi-Numeral (format_nat n) (format_nat-Numeral n),
        parse-format_from (suc n) n [] (omega arith) b,
      )
      (ground arith)

-- A port that UDP has.
abbrev pub IsPort : ℤ → Type 0
IsPort (pos n) = (1 ≤ n) × (n ≤ 65535)
IsPort (negsuc n) = ⊥

format_int-Numeral : (p : ℤ) → IsPort p → Numeral (format_int p)
unfolding format_int
format_int-Numeral (pos n) h = format_nat-Numeral n
format_int-Numeral (negsuc n) h = absurd h

atoi-format_int : (p : ℤ) → IsPort p → atoi (format_int p) ≡ ok p
unfolding format_int
atoi-format_int (pos n) h = atoi-format_nat n (omega arith)
atoi-format_int (negsuc n) h = absurd h

add_part_of_ne :
    (rest : List ℤ → Result PortError (List ℤ)) (ports : List ℤ) (part : Text)
    → part ≢ []
    → add_part rest ports part ≡ add_port rest ports part (atoi part)
add_part_of_ne rest ports [] h = absurd (h refl)
add_part_of_ne rest ports (c ∷ part) h = refl

add_port_of_IsPort :
    (rest : List ℤ → Result PortError (List ℤ)) (ports : List ℤ) (part : Text) (p : ℤ)
    → IsPort p
    → add_port rest ports part (ok p) ≡ rest (ports ++ p ∷ [])
add_port_of_IsPort rest ports part (pos n) h = ground arith
add_port_of_IsPort rest ports part (negsuc n) h = absurd h

add_part-format_int :
    (rest : List ℤ → Result PortError (List ℤ)) (ports : List ℤ) (p : ℤ)
    → IsPort p
    → add_part rest ports (format_int p) ≡ rest (ports ++ p ∷ [])
add_part-format_int rest ports p h = rw (
  add_part_of_ne rest ports (format_int p) (format_int-Numeral p h).0,
  atoi-format_int p h,
  add_port_of_IsPort rest ports (format_int p) p h,
)

parse_parts-format :
    (ps ports : List ℤ) → All IsPort ps → parse_parts (map format_int ps) ports ≡ ok (ports ++ ps)
unfolding parse_parts
parse_parts-format [] ports h = rw append-nil
parse_parts-format (p ∷ ps) ports h = rw (
  trim_space-Numeral (format_int p) (format_int-Numeral p h.0).1,
  add_part-format_int (parse_parts (map format_int ps)) ports p h.0,
  parse_parts-format ps (ports ++ p ∷ []) h.1,
  append_assoc,
)

All-no_comma : (s : Text) → All IsDigit s → All (λ c. c ≢ b',') s
All-no_comma [] h = tt
All-no_comma (c ∷ s) h = (λ e. omega arith, All-no_comma s h.1)

no_comma : (ps : List ℤ) → All IsPort ps → All (All (λ c. c ≢ b',')) (map format_int ps)
no_comma [] h = tt
no_comma (p ∷ ps) h = (All-no_comma (format_int p) (format_int-Numeral p h.0).1, no_comma ps h.1)

parse_ports-join :
    (p : ℤ) (ps : List ℤ)
    → All IsPort (p ∷ ps)
    → parse_ports (join b',' (map format_int (p ∷ ps))) ≡ ok (p ∷ ps)
unfolding parse_ports
parse_ports-join p ps h = rw (
  split-join b',' (format_int p) (map format_int ps) (no_comma (p ∷ ps) h),
  parse_parts-format (p ∷ ps) [] h,
)

-- The agent reads back, in order, the ports that the controller writes into its arguments, where each
-- is from 1 to 65535: those of the WolConfig, or 9 if there are none.
pub parse_ports-ports_text :
    (ports : List ℤ)
    → All IsPort ports
    → parse_ports (ports_text ports) ≡ ok (ports_or_default ports)
unfolding ports_text
parse_ports-ports_text [] h = parse_ports-join (pos 9) [] ((omega arith, omega arith), tt)
parse_ports-ports_text (p ∷ ps) h = parse_ports-join p ps h

add_port-IsPort :
    (part : Text) (r : Result NumError ℤ) (rest : List ℤ → Result PortError (List ℤ))
    (ports qs : List ℤ)
    → All IsPort ports
    → ((ps : List ℤ) → All IsPort ps → rest ps ≡ ok qs → All IsPort qs)
    → add_port rest ports part r ≡ ok qs
    → All IsPort qs
add_port-IsPort part (err e) rest ports qs valid go h = cc
add_port-IsPort part (ok (negsuc n)) rest ports qs valid go h = ground arith
add_port-IsPort part (ok (pos n)) rest ports qs valid go h =
    elim (Bool-cases (ltb_ℤ (pos n) (pos 1) || ltb_ℤ (pos 65535) (pos n))) [
      | inl out ↦ ground (arith, out)
      | inr inside ↦
          go (ports ++ pos n ∷ []) (All-append IsPort ports (pos n ∷ []) valid (ground arith, tt))
            (ground (arith, inside))
    ]

add_part-IsPort :
    (part : Text) (rest : List ℤ → Result PortError (List ℤ)) (ports qs : List ℤ)
    → All IsPort ports
    → ((ps : List ℤ) → All IsPort ps → rest ps ≡ ok qs → All IsPort qs)
    → add_part rest ports part ≡ ok qs
    → All IsPort qs
add_part-IsPort [] rest ports qs valid go h = go ports valid h
add_part-IsPort (c ∷ part) rest ports qs valid go h =
    add_port-IsPort (c ∷ part) (atoi (c ∷ part)) rest ports qs valid go h

parse_parts-IsPort :
    (parts : List Text) (ports qs : List ℤ)
    → All IsPort ports
    → parse_parts parts ports ≡ ok qs
    → All IsPort qs
unfolding parse_parts
parse_parts-IsPort [] ports qs valid h = let same : ports ≡ qs = ground arith in rw (← same) valid
parse_parts-IsPort (part ∷ parts) ports qs valid h =
    add_part-IsPort (trim_space part) (parse_parts parts) ports qs valid
      (λ ps v e. parse_parts-IsPort parts ps qs v e) h

-- Whatever is parsed, the ports are from 1 to 65535.
pub parse_ports-IsPort : (t : Text) (qs : List ℤ) → parse_ports t ≡ ok qs → All IsPort qs
unfolding parse_ports
parse_ports-IsPort t qs h = of_parts (parse_parts (split b',' t) []) refl h
  where
    of_parts :
        (r : Result PortError (List ℤ))
        → parse_parts (split b',' t) [] ≡ r
        → or_nine r ≡ ok qs
        → All IsPort qs
    of_parts (err e) parsed h = cc
    of_parts (ok []) parsed h =
        let same : ◌≡◌ {A = List ℤ} (pos 9 ∷ []) qs = ground arith in
        rw (← same) ((omega arith, omega arith), tt)
    of_parts (ok (p ∷ ps)) parsed h =
        let same : p ∷ ps ≡ qs = ground arith in
        rw (← same) (parse_parts-IsPort (split b',' t) [] (p ∷ ps) tt parsed)

-- The agent listens on the port that it is given.
pub port_or_default-IsPort : (p : ℤ) → IsPort p → port_or_default p ≡ p
port_or_default-IsPort (pos n) h = ground arith
port_or_default-IsPort (negsuc n) h = absurd h
