-- ===== src/RawListener/Selected.antt =====
-- What `GetCandidateInterfaces` returns: the interfaces that the loop left, sorted by name.
use kubevirt_wol.Common.{
  refl, [], inl, inr, true, false, ok, err, arith, Bool-cases, Text, Result, List, Assoc, map, ◌∷◌,
  ◌≡◌, ◌≢◌, codes, ◌⊎◌,
}
use mathlib.Core.List.{Perm}
use mathlib.Core.List.Perm
use mathlib.Core.List.{filter}
use mathlib.Core.Path.{subst}
use kubevirt_wol.RawListener.{
  NetInterface, dedupe, text_ltb, insert, sort_by_name, select, get_candidate_interfaces,
}
use kubevirt_wol.RawListener.Suitable.{only_suitable, candidates-only}
use kubevirt_wol.RawListener.Candidates.{preferred, get-dedupe}
use kubevirt_wol.RawListener.Kept.{is_at, to_list, filter-IsKept, dedupe-IsKept}

-- No name is less than the one before it.
abbrev Follows : NetInterface → List NetInterface → Type 0
Follows i [] = Unit
Follows i (j ∷ is) = text_ltb j.name i.name ≡ false

abbrev pub IsSorted : List NetInterface → Type 0
IsSorted [] = Unit
IsSorted (i ∷ is) = Follows i is × IsSorted is

text_ltb-asymm : (s t : Text) → text_ltb s t ≡ true → text_ltb t s ≡ false
unfolding text_ltb
text_ltb-asymm [] [] h = refl
text_ltb-asymm [] (b ∷ t) h = refl
text_ltb-asymm (a ∷ s) [] h = cc
text_ltb-asymm (a ∷ s) (b ∷ t) h = ground (arith, text_ltb-asymm s t)

insert-Follows :
    (iface i : NetInterface) (is : List NetInterface)
    → text_ltb i.name iface.name ≡ true
    → Follows i is
    → Follows i (insert iface is)
unfolding insert
insert-Follows iface i [] less h = text_ltb-asymm i.name iface.name less
insert-Follows iface i (j ∷ is) less h = elim (Bool-cases (text_ltb j.name iface.name)) [
  | inl e ↦ rw e h
  | inr e ↦ rw e (text_ltb-asymm i.name iface.name less)
]

insert-IsSorted :
    (iface : NetInterface) (is : List NetInterface) → IsSorted is → IsSorted (insert iface is)
unfolding insert
insert-IsSorted iface [] h = (tt, tt)
insert-IsSorted iface (i ∷ is) (f, h) = elim (Bool-cases (text_ltb i.name iface.name)) [
  | inl e ↦ rw e (insert-Follows iface i is e f, insert-IsSorted iface is h)
  | inr e ↦ rw e (e, (f, h))
]

insert-perm : (iface : NetInterface) (is : List NetInterface) → Perm (insert iface is) (iface ∷ is)
unfolding insert
insert-perm iface [] = Perm.refl (iface ∷ [])
insert-perm iface (i ∷ is) = elim (Bool-cases (text_ltb i.name iface.name)) [
  | inl e ↦ rw e (Perm.trans (Perm.cons i (insert-perm iface is)) (Perm.swap iface i is))
  | inr e ↦ rw e (Perm.refl (iface ∷ i ∷ is))
]

sort_by_name-Sorts :
    (is : List NetInterface) → IsSorted (sort_by_name is) × Perm (sort_by_name is) is
unfolding sort_by_name
sort_by_name-Sorts [] = (tt, Perm.refl [])
sort_by_name-Sorts (i ∷ is) =
    let (sorted, same) = sort_by_name-Sorts is in
    (
      insert-IsSorted i (sort_by_name is) sorted,
      Perm.trans (insert-perm i (sort_by_name is)) (Perm.cons i same),
    )

-- What is returned for the answer of net.Interfaces, seen at the address `mac`.
abbrev pub Selects :
    Text → Result Text (List NetInterface) → Result Text (List NetInterface) → Type 0
Selects mac (err e) out = out ≡ err e
Selects mac (ok found) out =
    ((only_suitable found ≡ []) × (out ≡ err (codes "no suitable interfaces found")))
    ⊎ (result : List NetInterface) × (only_suitable found ≢ [])
      × (out ≡ ok result)
      × IsSorted result
      × Perm (filter (is_at mac) result) (to_list (preferred mac (only_suitable found)))

module _ (visit : Assoc NetInterface → List NetInterface)
    (visits : (m : Assoc NetInterface) → Perm (visit m) (map (λ (mac, i). i) m)) where
  -- The order of `range` and the sorting change nothing in what is kept for an address.
  kept-Perm :
      (mac : Text) (cs : List NetInterface)
      → Perm (filter (is_at mac) (sort_by_name (visit (dedupe cs [])))) (to_list (preferred mac cs))
  kept-Perm mac cs =
      let m = dedupe cs [] in
      let all = Perm.trans (sort_by_name-Sorts (visit m)).1 (visits m) in
      let one = filter-IsKept mac m (dedupe-IsKept cs [] (tt, tt)) in
      let is_preferred = get-dedupe mac cs in
      subst (λ o. Perm (filter (is_at mac) (sort_by_name (visit m))) (to_list o)) is_preferred
        (subst (λ l. Perm (filter (is_at mac) (sort_by_name (visit m))) l) one
          (Perm.filter (is_at mac) all))

  select-Selects :
      (mac : Text) (found cs : List NetInterface)
      → only_suitable found ≡ cs
      → Selects mac (ok found) (select visit cs)
  select-Selects mac found [] e = inl (e, refl)
  select-Selects mac found (c ∷ cs) e =
      let result = sort_by_name (visit (dedupe (c ∷ cs) [])) in
      inr (
        result,
        rw e (λ empty. cc),
        refl,
        (sort_by_name-Sorts (visit (dedupe (c ∷ cs) []))).0,
        rw e (kept-Perm mac (c ∷ cs)),
      )

  -- Where `range` visits each value of a map once, in whatever order: the result is an error where
  -- the system's interfaces cannot be listed, or where none is suitable: no loopback, up, able to
  -- broadcast, and with a wanted name. Otherwise it is sorted by name and holds, with each address,
  -- exactly one of the suitable interfaces that have it, the first bridge if there is one and else
  -- the first; and none where none has it.
  pub get_candidate_interfaces-Selects :
      (mac : Text) (interfaces : Result Text (List NetInterface))
      → Selects mac interfaces (get_candidate_interfaces visit interfaces)
  unfolding get_candidate_interfaces
  get_candidate_interfaces-Selects mac (err e) = refl
  get_candidate_interfaces-Selects mac (ok found) =
      rw (candidates-only found) (select-Selects mac found (only_suitable found) refl)
