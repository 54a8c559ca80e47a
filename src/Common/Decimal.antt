-- ===== src/Common/Decimal.antt =====
-- `%d` for a number that is not negative. The fuel `suc n` is enough, since n falls at each digit.
use Prim.Native.Nat.{ℕ, zero, suc, ◌+◌, ◌*◌, ◌/◌, ◌%◌, ◌-◌, ◌^◌}
use mathlib.Core.Bool.{◌&&◌, not}
use mathlib.Core.List.{[], ◌∷◌}
use kubevirt_wol.Common.Tests.{Result, ok, err, ltb, leb, ◌==◌, if◌then◌else◌}
use kubevirt_wol.Common.Strings.{Text}
use kubevirt_wol.Common.Int.{ℤ, pos, negsuc}

unfoldable pub format_from : ℕ → ℕ → Text → Text
format_from zero n out = out
format_from (suc fuel) n out =
    let rest = format_from fuel (n / 10) ((48 + n % 10) ∷ out) in
    if ltb n 10 then (48 + n) ∷ out else rest

unfoldable pub format_nat : ℕ → Text
unfolding format_from
format_nat n = format_from (suc n) n []

-- %d
unfoldable pub format_int : ℤ → Text
format_int (pos n) = format_nat n
format_int (negsuc n) = b'-' ∷ format_nat (suc n)

pub data NumError : Type 0 where
  invalid_syntax out_of_range : NumError

-- The loop of strconv.ParseUint in base 10 and 64 bits: a byte that is no digit ends it, as a value
-- out of range does.
unfoldable pub parse_digits : ℕ → Text → Result NumError ℕ
parse_digits n [] = ok n
parse_digits n (c ∷ s) =
    let n' = n * 10 + (c - b'0') in
    let rest = parse_digits n' s in
    if not (leb b'0' c && leb c b'9')
    then err invalid_syntax
    else if leb (2 ^ 64) n'
    then err out_of_range
    else rest

abbrev parse_unsigned : Text → Result NumError ℕ
parse_unsigned [] = err invalid_syntax
parse_unsigned (c ∷ s) = parse_digits 0 (c ∷ s)

abbrev pub positive : Result NumError ℕ → Result NumError ℤ
positive (err e) = err e
positive (ok n) = if leb (2 ^ 63) n then err out_of_range else ok (pos n)

abbrev negative : Result NumError ℕ → Result NumError ℤ
negative (err e) = err e
negative (ok zero) = ok (pos 0)
negative (ok (suc n)) = if leb (2 ^ 63) n then err out_of_range else ok (negsuc n)

-- strconv.Atoi, where int has 64 bits
unfoldable pub atoi : Text → Result NumError ℤ
unfolding parse_digits
atoi [] = err invalid_syntax
atoi (c ∷ s) =
    if c == b'-'
    then negative (parse_unsigned s)
    else if c == b'+'
    then positive (parse_unsigned s)
    else positive (parse_unsigned (c ∷ s))
