-- ===== src/RawListener/Candidates.antt =====
-- Which of several interfaces with one address is listened on.
use kubevirt_wol.Common.{
  has_prefix, ◌∙◌, ◌≡◌, refl, List, [], ◌∷◌, Bool, ◌&&◌, Option, none, some, Text, arith, text_eq,
  text_eq_iff, get, get-put, Assoc, if◌then◌else◌, Option-cases, inl, inr, codes,
}
use kubevirt_wol.RawListener.{NetInterface, dedupe, dedupe_in}

-- The first interface of the list that passes a test.
abbrev pub first : (NetInterface → Bool) → List NetInterface → Option NetInterface
first p [] = none
first p (iface ∷ interfaces) = if p iface then some iface else first p interfaces

abbrev pub or_else : Option NetInterface → Option NetInterface → Option NetInterface
or_else none o = o
or_else (some iface) o = some iface

abbrev pub has_addr : Text → NetInterface → Bool
has_addr mac iface = text_eq iface.hardware_addr mac

-- a Linux bridge, by its name
abbrev pub is_br : NetInterface → Bool
is_br iface = has_prefix iface.name (codes "br-")

-- The first bridge with the address, or else the first interface with it.
abbrev pub preferred : Text → List NetInterface → Option NetInterface
preferred mac interfaces =
    or_else (first (λ i. has_addr mac i && is_br i) interfaces) (first (has_addr mac) interfaces)

-- The same where one was kept before.
abbrev preferred_to : Text → Option NetInterface → List NetInterface → Option NetInterface
preferred_to mac none interfaces = preferred mac interfaces
preferred_to mac (some kept) interfaces =
    if is_br kept
    then some kept
    else or_else (first (λ i. has_addr mac i && is_br i) interfaces) (some kept)

-- one round, by what was kept for the address of the interface and for `mac`
preferred_to-in :
    (mac : Text) (i : NetInterface) (is : List NetInterface) (m : Assoc NetInterface)
    (at_addr at_mac : Option NetInterface)
    → get i.hardware_addr m ≡ at_addr
    → get mac m ≡ at_mac
    → preferred_to mac (get mac (dedupe_in i at_addr m)) is ≡ preferred_to mac at_mac (i ∷ is)
preferred_to-in mac i is m none none e f =
    ground (arith, get-put i.hardware_addr mac i m, text_eq_iff i.hardware_addr mac)
preferred_to-in mac i is m none (some kept) e f =
    ground (arith, get-put i.hardware_addr mac i m, text_eq_iff i.hardware_addr mac)
preferred_to-in mac i is m (some old) none e f =
    ground (arith, get-put i.hardware_addr mac i m, text_eq_iff i.hardware_addr mac)
preferred_to-in mac i is m (some old) (some kept) e f =
    ground (arith, get-put i.hardware_addr mac i m, text_eq_iff i.hardware_addr mac)

get-dedupe_from :
    (mac : Text) (interfaces : List NetInterface) (m : Assoc NetInterface)
    → get mac (dedupe interfaces m) ≡ preferred_to mac (get mac m) interfaces
unfolding dedupe
get-dedupe_from mac [] m = elim (Option-cases (get mac m)) [
  | inl e ↦ rw e refl
  | inr (kept, e) ↦ rw e (ground arith)
]
get-dedupe_from mac (i ∷ is) m =
    get-dedupe_from mac is (dedupe_in i (get i.hardware_addr m) m)
    ∙ preferred_to-in mac i is m (get i.hardware_addr m) (get mac m) refl refl

-- For each address the loop keeps the first bridge with it, or else the first interface with it,
-- and none if there is none.
pub get-dedupe :
    (mac : Text) (interfaces : List NetInterface)
    → get mac (dedupe interfaces []) ≡ preferred mac interfaces
unfolding get
get-dedupe mac interfaces = get-dedupe_from mac interfaces []
