-- ===== src/Mapper/Refresh.antt =====
-- `RefreshMapping`: what a lookup finds afterwards, and what an error leaves.
use kubevirt_wol.Mapper.NewMapping.{
  new_mapping-explicit, Selects, watched, new_mapping-watched, Maps-install, new_mapping-Maps,
}
use kubevirt_wol.Common.{
  Option-cases, All-append, sym, All, ℕ, ◌≡◌, inl, inr, List, [], ◌∷◌, true, Option, none, some,
  Text, arith, get, IsMap, Result, ok, err, Result-cases, ◌∙◌,
}
use kubevirt_wol.Api.{WolConfig, explicit}
use kubevirt_wol.Cluster.{Vm, VmClient, Selector, Metrics}
use kubevirt_wol.Mapper.{
  VmInfo, MacMapper, normalize_mac_address, refresh_mapping, lookup, new_mapping, refresh_with,
}
use kubevirt_wol.Mapper.Lookup.{
  last_explicit, last_owner, info, owns, listed, get-explicit_mapping, get-extract_macs_from_vms,
  or_else-none,
}

last_owner_sound :
    (P : Vm → Type 0) (k : Text) (vms : List Vm) {v : VmInfo}
    → All P vms
    → last_owner k vms ≡ some v
    → (vm : Vm) × (info vm ≡ v) × (owns k vm.template ≡ true) × P vm
unfolding last_owner
last_owner_sound P k [] a h = cc
last_owner_sound P k (vm ∷ vms) (pv, a) h = elim (Option-cases (last_owner k vms)) [
  | inl nothing ↦ (vm, ground arith, ground arith, pv)
  | inr (v', e) ↦ last_owner_sound P k vms a (ground arith)
]

ok-All :
    (P : Vm → Type 0) {xs ys : List Vm}
    → ◌≡◌ {A = Result Text (List Vm)} (ok xs) (ok ys)
    → All P xs
    → All P ys
ok-All P {xs} {ys} h a = let e : xs ≡ ys = cc in rw (← e) a

listed-All :
    {S : Type 0} (P : Vm → Type 0) (client : VmClient S) (s : S) (sel : Option Selector)
    (namespaces : List Text)
    → ((ns : Option Text) (vms : List Vm) → client.list_vms s ns sel ≡ ok vms → All P vms)
    → All P (listed client s sel namespaces)
unfolding listed
listed-All P client s sel [] law = tt
listed-All P client s sel (ns ∷ namespaces) law =
    elim (Result-cases (client.list_vms s (some ns) sel)) [
      | inl (vms, e) ↦
          rw e (All-append P vms _ (law (some ns) vms e) (listed-All P client s sel namespaces law))
      | inr (x, e) ↦ rw e (listed-All P client s sel namespaces law)
    ]

watched-All :
    {S : Type 0} (P : Vm → Type 0) (client : VmClient S) (s : S) (sel : Option Selector)
    (namespaces : List Text) {vms : List Vm}
    → ((ns : Option Text) (vms : List Vm) → client.list_vms s ns sel ≡ ok vms → All P vms)
    → watched client s sel namespaces ≡ ok vms
    → All P vms
watched-All P client s sel [] law h = law none _ h
watched-All P client s sel (ns ∷ namespaces) law h =
    ok-All P h (listed-All P client s sel (ns ∷ namespaces) law)

module _ {S : Type 0} (client : VmClient S) (s : S) (now : ℕ) (m : MacMapper)
    (metrics : Metrics) where
  abbrev pub refreshed : MacMapper
  refreshed = (refresh_mapping client s now m metrics).0

  abbrev pub outcome : Result Text (Unit {0})
  outcome = (refresh_mapping client s now m metrics).2

  -- A refresh that fails changes neither the mapper nor the metrics.
  pub refresh_mapping-err :
      {e : Text}
      → outcome ≡ err e
      → (refreshed ≡ m) × ((refresh_mapping client s now m metrics).1 ≡ metrics)
  unfolding refresh_mapping
  refresh_mapping-err h = ground arith

  -- After a refresh from explicit mappings a lookup finds the last mapping for the address, in
  -- whatever form mapping and lookup write it, and nothing that was mapped before.
  pub lookup-refresh_explicit :
      (config : WolConfig) (mac : Text)
      → m.config ≡ some config
      → config.spec.discovery_mode ≡ explicit
      → (outcome ≡ ok tt)
        × (lookup mac refreshed
            ≡ last_explicit (normalize_mac_address mac) config.spec.explicit_mappings)
  unfolding refresh_mapping lookup get
  lookup-refresh_explicit config mac e mode =
      let made = new_mapping-explicit client s config mode in
      ground (
        arith,
        get-explicit_mapping (normalize_mac_address mac) config.spec.explicit_mappings [],
        or_else-none (last_explicit (normalize_mac_address mac) config.spec.explicit_mappings),
      )

  -- Where the VMs in view can be listed, a refresh that discovers VMs succeeds, and a lookup then
  -- finds the last VM in view that has an interface with the address, and nothing that was mapped
  -- before.
  pub lookup-refresh_discovered :
      (config : WolConfig) (mac : Text) {sel : Option Selector} {vms : List Vm}
      → m.config ≡ some config
      → Selects client config sel
      → watched client s sel config.spec.namespace_selectors ≡ ok vms
      → (outcome ≡ ok tt) × (lookup mac refreshed ≡ last_owner (normalize_mac_address mac) vms)
  unfolding refresh_mapping lookup get
  lookup-refresh_discovered config mac {vms} e sels view =
      let made = new_mapping-watched client s config sels view in
      ground (
        arith,
        get-extract_macs_from_vms (normalize_mac_address mac) vms [],
        or_else-none (last_owner (normalize_mac_address mac) vms),
      )

  -- In LabelSelector mode, where the API lists only VMs that match and those in view can be listed,
  -- whatever a lookup finds after a refresh is a VM that matches the selector and has an interface
  -- with the address.
  pub lookup-refresh_matches :
      (config : WolConfig) (mac : Text) {p : Selector} {vms : List Vm} {v : VmInfo}
      → ((ns : Option Text) (found : List Vm)
          → client.list_vms s ns (some p) ≡ ok found
          → All (λ vm. p vm.labels ≡ true) found)
      → m.config ≡ some config
      → Selects client config (some p)
      → watched client s (some p) config.spec.namespace_selectors ≡ ok vms
      → lookup mac refreshed ≡ some v
      → (vm : Vm) × (info vm ≡ v)
        × (owns (normalize_mac_address mac) vm.template ≡ true)
        × (p vm.labels ≡ true)
  lookup-refresh_matches config mac {p} {vms} law e sels view found =
      last_owner_sound (λ vm. p vm.labels ≡ true) (normalize_mac_address mac) vms
        (watched-All _ client s (some p) config.spec.namespace_selectors law view)
        (sym (lookup-refresh_discovered config mac e sels view).1 ∙ found)

  -- A refresh keeps the mapping a map, so that the count is the number of addresses.
  pub refresh_mapping-IsMap : IsMap m.mapping → IsMap refreshed.mapping
  unfolding refresh_mapping
  refresh_mapping-IsMap h = refreshed_with m.config
    where
      refreshed_with :
          (c : Option WolConfig) → IsMap (refresh_with client s now c (m, metrics)).0.mapping
      refreshed_with none = h
      refreshed_with (some config) =
          Maps-install now m metrics (new_mapping client s config) h
            (new_mapping-Maps client s config)
