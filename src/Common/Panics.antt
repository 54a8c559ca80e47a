-- ===== src/Common/Panics.antt =====
-- Go code that may panic: an index or a slice out of range is `panic`.
use Prim.Native.Nat.{ℕ, ◌-◌}
use mathlib.Core.Bool.{◌&&◌}
use mathlib.Core.List.{List}
use mathlib.Core.Option.{Option, none, some}
use kubevirt_wol.Common.Tests.{leb, if◌then◌else◌}
use kubevirt_wol.Common.Lists.{length, get_elem?, take, drop}

pub data Run {ℓ} (A : Type ℓ) : Type ℓ where
  panic : Run A
  done : A → Run A

infixl 5 ◌>>=◌
abbrev pub ◌>>=◌ {ℓ κ} : {A : Type ℓ} {B : Type κ} → Run A → (A → Run B) → Run B
panic >>= f = panic
done a >>= f = f a

module _ {ℓ} {A : Type ℓ} where
  abbrev pub checked : Option A → Run A
  checked none = panic
  checked (some a) = done a

  -- xs[i]
  abbrev pub at : List A → ℕ → Run A
  at xs i = checked (get_elem? xs i)

  -- xs[lo:hi]
  abbrev pub slice : ℕ → ℕ → List A → Run (List A)
  slice lo hi xs =
      if leb lo hi && leb hi (length xs) then done (take (hi - lo) (drop lo xs)) else panic
