-- ===== src/RawListener/Suitable.antt =====
-- Which interfaces are candidates, written as one condition.
use kubevirt_wol.Common.{
  contains, has_prefix, refl, [], false, arith, codes, Text, List, Bool, not, if◌then◌else◌, ◌∷◌,
  ◌&&◌, ◌||◌, ◌≡◌, ◌∙◌,
}
use kubevirt_wol.RawListener.{NetInterface, is_virtual, is_wanted, is_candidate, candidates}

abbrev pub any_prefix : List Text → Text → Bool
any_prefix [] s = false
any_prefix (p ∷ ps) s = has_prefix s p || any_prefix ps s

-- The names of virtual interfaces and of those inside OVS, and of the others that are wanted.
abbrev pub excluded : List Text
excluded = codes "veth" ∷ codes "br-int" ∷ codes "ovn-" ∷ codes "tap" ∷ codes "ovs-system" ∷ []

abbrev pub included : List Text
included = codes "en" ∷ codes "eth" ∷ codes "wlp" ∷ codes "br-" ∷ []

-- No loopback, up, able to broadcast, and with a name that is wanted and not excluded.
abbrev pub suitable : NetInterface → Bool
suitable i =
    not i.is_loopback
    && (i.is_up
        && (i.is_broadcast
            && (any_prefix included i.name
                && not (any_prefix excluded i.name || contains i.name (codes "@if")))))

-- The interfaces that are suitable, in their order.
unfoldable pub only_suitable : List NetInterface → List NetInterface
only_suitable [] = []
only_suitable (i ∷ is) = let rest = only_suitable is in if suitable i then i ∷ rest else rest

excluded_assoc :
    (a b c d e f : Bool)
    → (a || (b || (c || (d || (e || f))))) ≡ ((a || (b || (c || (d || (e || false))))) || f)
excluded_assoc a b c d e f = ground arith

included_assoc : (a b c d : Bool) → (a || (b || (c || d))) ≡ (a || (b || (c || (d || false))))
included_assoc a b c d = ground arith

conditions :
    (l u b v w : Bool)
    → (if l || not u then false else if not b then false else if v then false else w)
      ≡ (not l && (u && (b && (w && not v))))
conditions l u b v w = ground arith

is_virtual-excluded :
    (s : Text) → is_virtual s ≡ (any_prefix excluded s || contains s (codes "@if"))
is_virtual-excluded s =
    excluded_assoc (has_prefix s (codes "veth")) (has_prefix s (codes "br-int"))
      (has_prefix s (codes "ovn-")) (has_prefix s (codes "tap")) (has_prefix s (codes "ovs-system"))
      (contains s (codes "@if"))

is_wanted-included : (s : Text) → is_wanted s ≡ any_prefix included s
is_wanted-included s =
    included_assoc (has_prefix s (codes "en")) (has_prefix s (codes "eth"))
      (has_prefix s (codes "wlp")) (has_prefix s (codes "br-"))

pub is_candidate-suitable : (i : NetInterface) → is_candidate i ≡ suitable i
unfolding is_candidate
is_candidate-suitable i =
    conditions i.is_loopback i.is_up i.is_broadcast (is_virtual i.name) (is_wanted i.name)
    ∙ rw (is_virtual-excluded i.name, is_wanted-included i.name) refl

pub candidates-only : (found : List NetInterface) → candidates found ≡ only_suitable found
unfolding candidates only_suitable
candidates-only [] = refl
candidates-only (i ∷ is) = rw (is_candidate-suitable i, candidates-only is) refl
