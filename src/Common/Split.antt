-- ===== src/Common/Split.antt =====
-- `strings.Join` and `strings.Split`, for a separator of one byte.
use Prim.Native.Nat.{ℕ}
use mathlib.Core.Path.{◌≡◌, refl}
use mathlib.Core.Logic.{◌≢◌}
use mathlib.Core.List.{List, [], ◌∷◌, ◌++◌}
use native.Mathlib.Omega.{arith}
use kubevirt_wol.Common.Tests.{◌==◌, if◌then◌else◌}
use kubevirt_wol.Common.Strings.{Text}
use kubevirt_wol.Common.Lists.{All}

unfoldable pub join : ℕ → List Text → Text
join sep [] = []
join sep (s ∷ []) = s
join sep (s ∷ t ∷ ts) = s ++ sep ∷ join sep (t ∷ ts)

abbrev cons_first : ℕ → List Text → List Text
cons_first c [] = (c ∷ []) ∷ []
cons_first c (p ∷ ps) = (c ∷ p) ∷ ps

unfoldable pub split : ℕ → Text → List Text
split sep [] = [] ∷ []
split sep (c ∷ s) = let rest = split sep s in if c == sep then [] ∷ rest else cons_first c rest

split-append :
    (sep : ℕ) (p s : Text) → All (λ c. c ≢ sep) p → split sep (p ++ sep ∷ s) ≡ p ∷ split sep s
unfolding split
split-append sep [] s h = ground arith
split-append sep (c ∷ p) s h = ground (arith, split-append sep p s h.1)

split_single : (sep : ℕ) (p : Text) → All (λ c. c ≢ sep) p → split sep p ≡ p ∷ []
unfolding split
split_single sep [] h = refl
split_single sep (c ∷ p) h = ground (arith, split_single sep p h.1)

-- Parts that do not hold the separator come back.
pub split-join :
    (sep : ℕ) (p : Text) (ps : List Text)
    → All (All (λ c. c ≢ sep)) (p ∷ ps)
    → split sep (join sep (p ∷ ps)) ≡ p ∷ ps
unfolding join
split-join sep p [] h = split_single sep p h.0
split-join sep p (q ∷ ps) h =
    rw (split-append sep p (join sep (q ∷ ps)) h.0, split-join sep q ps h.1)
