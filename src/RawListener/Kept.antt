-- ===== src/RawListener/Kept.antt =====
-- The map that the loop over the candidates leaves: for each address one interface, with that address.
use kubevirt_wol.Common.{
  text_eq_iff, put-IsMap, delete, if-cases, IsMap, get, put, refl, [], none, some, inl, inr, true,
  false, Bool-cases, Text, Option, List, Bool, All, if◌then◌else◌, text_eq, Assoc, map, ◌∷◌, ◌≡◌,
  ◌∙◌, ◌≢◌,
}
use mathlib.Core.Logic.{ite}
use mathlib.Core.List.{filter}
use kubevirt_wol.RawListener.{is_bridge, NetInterface, dedupe, dedupe_in}
use kubevirt_wol.RawListener.Candidates.{has_addr}

-- A map whose keys are the addresses of its values.
abbrev pub IsKept : Assoc NetInterface → Type 0
IsKept m = IsMap m × All (λ e. e.1.hardware_addr ≡ e.0) m

delete-All :
    (P : Text × NetInterface → Type 0) (k : Text) (m : Assoc NetInterface)
    → All P m
    → All P (delete k m)
unfolding delete
delete-All P k [] h = tt
delete-All P k ((j, v) ∷ m) h = elim (Bool-cases (text_eq j k)) [
  | inl e ↦ rw e (delete-All P k m h.1)
  | inr e ↦ rw e (h.0, delete-All P k m h.1)
]

put-IsKept :
    (i : NetInterface) (m : Assoc NetInterface) → IsKept m → IsKept (put i.hardware_addr i m)
unfolding put
put-IsKept i m (map, keyed) =
    (put-IsMap i.hardware_addr i m map, (refl, delete-All _ i.hardware_addr m keyed))

dedupe_in-IsKept :
    (i : NetInterface) (o : Option NetInterface) (m : Assoc NetInterface)
    → IsKept m
    → IsKept (dedupe_in i o m)
dedupe_in-IsKept i none m h = put-IsKept i m h
dedupe_in-IsKept i (some old) m h =
    if-cases IsKept (is_bridge old) (λ _. h)
      (λ _. if-cases IsKept (is_bridge i) (λ _. put-IsKept i m h) (λ _. h))

pub dedupe-IsKept :
    (is : List NetInterface) (m : Assoc NetInterface) → IsKept m → IsKept (dedupe is m)
unfolding dedupe
dedupe-IsKept [] m h = h
dedupe-IsKept (i ∷ is) m h =
    dedupe-IsKept is (dedupe_in i (get i.hardware_addr m) m)
      (dedupe_in-IsKept i (get i.hardware_addr m) m h)

pub false_ne_true : false ≢ true
false_ne_true h = cc

abbrev pub decided : (b : Bool) → Dec (b ≡ true)
decided true = yes refl
decided false = no false_ne_true

-- whether an interface has the address
abbrev pub is_at : (mac : Text) (i : NetInterface) → Dec (has_addr mac i ≡ true)
is_at mac i = decided (has_addr mac i)

abbrev pub to_list : Option NetInterface → List NetInterface
to_list none = []
to_list (some i) = i ∷ []

ite-decided :
    (b : Bool) (xs ys : List NetInterface)
    → ite {C = List NetInterface} (decided b) xs ys ≡ (if b then xs else ys)
ite-decided true xs ys = refl
ite-decided false xs ys = refl

-- Of the values of such a map, those with an address are the one that is kept for it.
pub filter-IsKept :
    (mac : Text) (m : Assoc NetInterface)
    → IsKept m
    → filter (is_at mac) (map (λ (k, i). i) m) ≡ to_list (get mac m)
unfolding get
filter-IsKept mac [] h = refl
filter-IsKept mac ((k, i) ∷ m) ((absent, map_rest), (same, keyed)) =
    let rest = filter-IsKept mac m (map_rest, keyed) in
    ite-decided (has_addr mac i) _ _ ∙ elim (Bool-cases (text_eq k mac)) [
      | inl e ↦
          let here : k ≡ mac = (text_eq_iff k mac).0 e in rw (same, e, rest, ← here, absent) refl
      | inr e ↦ rw (same, e, rest) refl
    ]
