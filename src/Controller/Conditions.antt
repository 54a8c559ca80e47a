-- ===== src/Controller/Conditions.antt =====
-- The conditions in the status of a WolConfig.
use kubevirt_wol.Common.{
  ◌==◌, ℕ, suc, ◌≡◌, List, [], ◌∷◌, Bool, true, Option, none, some, arith, text_eq, if◌then◌else◌,
}
use kubevirt_wol.Api.{Condition}
use kubevirt_wol.Controller.{set_condition, condition_type_ready}

abbrev pub is_ready : Condition → Bool
is_ready cond = text_eq cond.condition_type condition_type_ready

-- the first condition of the type, which is the one that clients read
unfoldable pub ready_of : List Condition → Option Condition
ready_of [] = none
ready_of (cond ∷ conditions) = if is_ready cond then some cond else ready_of conditions

unfoldable pub ready_count : List Condition → ℕ
ready_count [] = 0
ready_count (cond ∷ conditions) =
    if is_ready cond then suc (ready_count conditions) else ready_count conditions

unfoldable pub others : List Condition → List Condition
others [] = []
others (cond ∷ conditions) =
    let rest = others conditions in if is_ready cond then rest else cond ∷ rest

-- Setting a Ready condition makes it the one that is read, leaves the conditions of other types as
-- they were and in their order, and adds one of its type only where there was none.
pub set_condition_lem :
    (c : Condition) (conditions : List Condition)
    → is_ready c ≡ true
    → (ready_of (set_condition c conditions) ≡ some c)
      × (others (set_condition c conditions) ≡ others conditions)
      × (ready_count (set_condition c conditions)
          ≡ (if ready_count conditions == 0 then 1 else ready_count conditions))
unfolding set_condition ready_of ready_count others
set_condition_lem c [] h = ground arith
set_condition_lem c (d ∷ conditions) h = ground (arith, set_condition_lem c conditions h)
