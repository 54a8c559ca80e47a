-- ===== src/Common/Maps.antt =====
-- Go's `map[string]V` as an association list. The program never depends on the order of a map's
-- entries except where it says so, and there the order is a parameter.
use Prim.Native.Nat.{◌≤◌}
use mathlib.Core.Path.{◌≡◌, refl}
use mathlib.Core.Bool.{Bool}
use mathlib.Core.Option.{Option, none, some}
use mathlib.Core.List.{List, [], ◌∷◌}
use native.Mathlib.Omega.{arith}
use kubevirt_wol.Common.Tests.{if◌then◌else◌}
use kubevirt_wol.Common.Lists.{length}
use kubevirt_wol.Common.Strings.{Text, text_eq, text_eq_iff, text_eq_refl}

abbrev pub Assoc {ℓ} : Type ℓ → Type ℓ
Assoc V = List (Text × V)

module _ {ℓ} {V : Type ℓ} where
  -- m[k], with ok
  unfoldable pub get : Text → Assoc V → Option V
  get k [] = none
  get k ((j, v) ∷ m) = if text_eq j k then some v else get k m

  -- delete(m, k)
  unfoldable pub delete : Text → Assoc V → Assoc V
  delete k [] = []
  delete k ((j, v) ∷ m) = let rest = delete k m in if text_eq j k then rest else (j, v) ∷ rest

  -- m[k] = v
  unfoldable pub put : Text → V → Assoc V → Assoc V
  unfolding delete
  put k v m = (k, v) ∷ delete k m

  -- for k, v := range m { if !keep(v) { delete(m, k) } }
  unfoldable pub retain : (V → Bool) → Assoc V → Assoc V
  retain keep [] = []
  retain keep ((j, v) ∷ m) = let rest = retain keep m in if keep v then (j, v) ∷ rest else rest

  abbrev pub keep_if : (V → Bool) → Option V → Option V
  keep_if keep none = none
  keep_if keep (some v) = if keep v then some v else none

  -- No key stands twice: what a Go map is.
  abbrev pub IsMap : Assoc V → Type ℓ
  IsMap [] = Unit
  IsMap ((k, v) ∷ m) = (get k m ≡ none) × IsMap m

module _ {ℓ} {V : Type ℓ} where
  pub get-delete :
      (k j : Text) (m : Assoc V) → get j (delete k m) ≡ (if text_eq k j then none else get j m)
  unfolding get delete
  get-delete k j [] = ground arith
  get-delete k j ((i, v) ∷ m) =
      ground (arith, get-delete k j m, text_eq_iff i k, text_eq_iff i j, text_eq_iff k j)

  pub get-put :
      (k j : Text) (v : V) (m : Assoc V)
      → get j (put k v m) ≡ (if text_eq k j then some v else get j m)
  unfolding get put
  get-put k j v m = ground (arith, get-delete k j m)

  pub get-put_self : (k : Text) (v : V) (m : Assoc V) → get k (put k v m) ≡ some v
  get-put_self k v m = ground (arith, get-put k k v m, text_eq_refl k)

  pub delete-IsMap : (k : Text) (m : Assoc V) → IsMap m → IsMap (delete k m)
  unfolding delete
  delete-IsMap k [] h = tt
  delete-IsMap k ((i, v) ∷ m) h = ground (arith, delete-IsMap k m h.1, get-delete k i m)

  pub put-IsMap : (k : Text) (v : V) (m : Assoc V) → IsMap m → IsMap (put k v m)
  unfolding put
  put-IsMap k v m h = (ground (arith, get-delete k k m, text_eq_refl k), delete-IsMap k m h)

  pub get-retain-none :
      (keep : V → Bool) (k : Text) (m : Assoc V) → get k m ≡ none → get k (retain keep m) ≡ none
  unfolding get retain
  get-retain-none keep k [] h = refl
  get-retain-none keep k ((i, v) ∷ m) h = ground (arith, get-retain-none keep k m)

  pub get-retain :
      (keep : V → Bool) (k : Text) (m : Assoc V)
      → IsMap m
      → get k (retain keep m) ≡ keep_if keep (get k m)
  unfolding get retain
  get-retain keep k [] h = refl
  get-retain keep k ((i, v) ∷ m) h =
      ground (arith, get-retain keep k m h.1, get-retain-none keep k m, text_eq_iff i k)

  pub retain-IsMap : (keep : V → Bool) (m : Assoc V) → IsMap m → IsMap (retain keep m)
  unfolding retain
  retain-IsMap keep [] h = tt
  retain-IsMap keep ((i, v) ∷ m) h =
      ground (arith, retain-IsMap keep m h.1, get-retain-none keep i m h.0)

  pub length-retain-le : (keep : V → Bool) (m : Assoc V) → length (retain keep m) ≤ length m
  unfolding retain
  length-retain-le keep [] = omega arith
  length-retain-le keep ((i, v) ∷ m) = ground (arith, length-retain-le keep m)
