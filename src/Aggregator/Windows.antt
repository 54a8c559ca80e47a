-- ===== src/Aggregator/Windows.antt =====
-- How the times that are kept for an address follow each other.
use kubevirt_wol.Common.{
  refl, [], none, some, inl, inr, false, arith, Bool-cases, Option, List, ℕ, All, ltb, ◌∷◌, ◌+◌,
  ◌≤◌, ◌≡◌,
}
use kubevirt_wol.Aggregator.{Readings}
use kubevirt_wol.Aggregator.Debounce.{debounce}

pub debounce-le :
    (window : ℕ) (o : Option ℕ) (t : Readings) (last : ℕ)
    → t.checked ≤ t.recorded
    → (debounce window o t).0 ≡ some last
    → last ≤ t.recorded
debounce-le window none t last h e = ground arith
debounce-le window (some l) t last h e = ground arith

-- The time that is kept does not go back.
pub debounce-ge :
    (window l : ℕ) (t : Readings)
    → l ≤ t.checked
    → t.checked ≤ t.recorded
    → (last : ℕ) × ((debounce window (some l) t).0 ≡ some last) × (l ≤ last)
debounce-ge window l t h k = elim (Bool-cases (ltb t.checked (l + window))) [
  | inl e ↦ (t.checked, rw e refl, h)
  | inr e ↦ (t.recorded, rw e refl, omega arith)
]

pub debounce-new :
    (window : ℕ) (o : Option ℕ) (t : Readings)
    → (debounce window o t).1 ≡ false
    → (debounce window o t).0 ≡ some t.recorded
debounce-new window none t e = refl
debounce-new window (some l) t e = ground arith

pub debounce-spaced :
    (window l : ℕ) (t : Readings) → (debounce window (some l) t).1 ≡ false → l + window ≤ t.checked
debounce-spaced window l t e = ground arith

pub All-map :
    {A : Type 0} (P Q : A → Type 0) (xs : List A) → ((a : A) → P a → Q a) → All P xs → All Q xs
All-map P Q [] f h = tt
All-map P Q (x ∷ xs) f h = (f x h.0, All-map P Q xs f h.1)
