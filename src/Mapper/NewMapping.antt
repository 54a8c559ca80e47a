-- ===== src/Mapper/NewMapping.antt =====
-- What one refresh finds, by the mode of the config.
use kubevirt_wol.Common.{
  ℕ, ◌≡◌, ◌≢◌, List, [], ◌∷◌, Option, none, some, Text, arith, Assoc, codes, IsMap, Result, ok, err,
}
use kubevirt_wol.Api.{WolConfig, LabelSelector, DiscoveryMode, label_selector, explicit}
use kubevirt_wol.Cluster.{Vm, VmClient, Selector, Metrics}
use kubevirt_wol.Mapper.{
  VmInfo, MacMapper, explicit_mapping, discover_all_vms, discover_vms_with_selector,
  extract_macs_from_vms, new_mapping, list_all, discover, wrap, discover_selected, discover_with,
  new_mapping_in, install,
}
use kubevirt_wol.Mapper.Lookup.{
  listed, discover_namespaces-listed, explicit_mapping-IsMap, extract_macs_from_vms-IsMap,
}

pub new_mapping-explicit :
    {S : Type 0} (client : VmClient S) (s : S) (config : WolConfig)
    → config.spec.discovery_mode ≡ explicit
    → new_mapping client s config ≡ ok (explicit_mapping config.spec.explicit_mappings [])
unfolding new_mapping
new_mapping-explicit client s config mode = rw mode

-- Which VMs a config that discovers asks for: all of them, or those of its label selector.
pub data Selects {S : Type 0} (client : VmClient S) (config : WolConfig) (sel : Option Selector)
    : Type 0 where
  every :
      config.spec.discovery_mode ≢ label_selector
      → config.spec.discovery_mode ≢ explicit
      → sel ≡ none
      → Selects client config sel
  chosen :
      {raw : LabelSelector} {p : Selector}
      → config.spec.discovery_mode ≡ label_selector
      → config.spec.vm_selector ≡ some raw
      → client.as_selector raw ≡ ok p
      → sel ≡ some p
      → Selects client config sel

-- The VMs in view: those of the whole cluster if no namespace is named, else those of the namespaces
-- that can be listed.
abbrev pub watched :
    {S : Type 0} → VmClient S → S → Option Selector → List Text → Result Text (List Vm)
watched client s sel [] = client.list_vms s none sel
watched client s sel (ns ∷ namespaces) = ok (listed client s sel (ns ∷ namespaces))

module _ {S : Type 0} (client : VmClient S) (s : S) where
  pub discover-watched :
      (what : Text) (sel : Option Selector) (namespaces : List Text) {vms : List Vm}
      → watched client s sel namespaces ≡ ok vms
      → discover client s what sel namespaces [] ≡ ok (extract_macs_from_vms vms [])
  discover-watched what sel [] h = ground arith
  discover-watched what sel (ns ∷ namespaces) h =
      ground (arith, discover_namespaces-listed client s sel (ns ∷ namespaces) [])

  pub new_mapping-watched :
      (config : WolConfig) {sel : Option Selector} {vms : List Vm}
      → Selects client config sel
      → watched client s sel config.spec.namespace_selectors ≡ ok vms
      → new_mapping client s config ≡ ok (extract_macs_from_vms vms [])
  unfolding new_mapping discover_all_vms discover_vms_with_selector
  new_mapping-watched config {sel} {vms} (every a b e) h = ground (
    arith,
    discover-watched (codes "failed to list VMs: ") sel config.spec.namespace_selectors {vms = vms},
  )
  new_mapping-watched config {sel} {vms} (chosen mode raw compiled e) h = ground (
    arith,
    discover-watched (codes "failed to list VMs with selector: ") sel
        config.spec.namespace_selectors {vms = vms},
  )

-- A result that, if there is one, is a map.
abbrev pub Maps : Result Text (Assoc VmInfo) → Type 0
Maps (ok mapping) = IsMap mapping
Maps (err e) = Unit

pub Maps-wrap : (what : Text) (r : Result Text (Assoc VmInfo)) → Maps r → Maps (wrap what r)
Maps-wrap what (ok mapping) h = h
Maps-wrap what (err e) h = tt

pub Maps-list_all : (what : Text) (r : Result Text (List Vm)) → Maps (list_all what r [])
Maps-list_all what (ok vms) = extract_macs_from_vms-IsMap vms [] tt
Maps-list_all what (err e) = tt

pub Maps-install :
    (now : ℕ) (m : MacMapper) (metrics : Metrics) (r : Result Text (Assoc VmInfo))
    → IsMap m.mapping
    → Maps r
    → IsMap (install now r (m, metrics)).0.mapping
Maps-install now m metrics (ok mapping) h k = k
Maps-install now m metrics (err e) h k = h

module _ {S : Type 0} (client : VmClient S) (s : S) where
  pub Maps-discover :
      (what : Text) (sel : Option Selector) (namespaces : List Text)
      → Maps (discover client s what sel namespaces [])
  Maps-discover what sel [] = Maps-list_all what (client.list_vms s none sel)
  Maps-discover what sel (ns ∷ namespaces) =
      rw (discover_namespaces-listed client s sel (ns ∷ namespaces) [])
        (extract_macs_from_vms-IsMap (listed client s sel (ns ∷ namespaces)) [] tt)

  pub Maps-selected :
      (r : Result Text Selector) (namespaces : List Text)
      → Maps (discover_selected client s r namespaces [])
  Maps-selected (ok p) namespaces =
      Maps-discover (codes "failed to list VMs with selector: ") (some p) namespaces
  Maps-selected (err e) namespaces = tt

  pub Maps-with :
      (sel : Option LabelSelector) (namespaces : List Text)
      → Maps (discover_with client s sel namespaces [])
  Maps-with none namespaces = tt
  Maps-with (some raw) namespaces = Maps-selected (client.as_selector raw) namespaces

  pub new_mapping-Maps : (config : WolConfig) → Maps (new_mapping client s config)
  unfolding new_mapping discover_all_vms discover_vms_with_selector
  new_mapping-Maps config = by_mode config.spec.discovery_mode
    where
      by_mode : (mode : DiscoveryMode) → Maps (new_mapping_in client s config mode)
      by_mode explicit = explicit_mapping-IsMap config.spec.explicit_mappings [] tt
      by_mode label_selector =
          Maps-wrap (codes "failed to discover VMs with selector: ")
            (discover_vms_with_selector client s config [])
            (Maps-with config.spec.vm_selector config.spec.namespace_selectors)
      by_mode _ =
          Maps-wrap (codes "failed to discover all VMs: ") (discover_all_vms client s config [])
            (Maps-discover (codes "failed to list VMs: ") none config.spec.namespace_selectors)
