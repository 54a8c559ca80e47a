-- ===== src/Mapper.antt =====
-- internal/wol/mapper.go: the map from MAC addresses to VMs, and how it is discovered.
-- Times are nanoseconds since the zero time of Go; `now` is the reading of the clock.
pub mod Normalize
pub mod Lookup
pub mod NewMapping
pub mod Refresh
mod Tests
use kubevirt_wol.Common.{
  ℕ, ◌+◌, ◌-◌, ◌*◌, ◌^◌, List, [], ◌∷◌, ◌++◌, Bool, true, false, Option, none, some, Text, codes,
  ltb, ℤ, pos, negsuc, ltb_ℤ, int64, if◌then◌else◌, length, Assoc, get, put, trim_space, to_lower,
  Result, ok, err, text_eq, not,
}
use kubevirt_wol.Api.{
  DiscoveryMode, unset, other, WolConfig, MacVmMapping, LabelSelector, all, label_selector,
  explicit,
}
use kubevirt_wol.Cluster.{Vm, Interface, VmClient, Selector, Metrics}

pub record VmInfo : Type 0 where
  pub name : Text
  pub namespace : Text

pub record MacMapper : Type 0 where
  pub mapping : Assoc VmInfo
  pub last_sync : ℕ
  pub cache_ttl : ℤ
  pub config : Option WolConfig

-- n seconds as a time.Duration: the product is taken in int64
abbrev pub seconds : ℕ → ℤ
seconds n = int64 (n * 1_000_000_000)

unfoldable pub new_mac_mapper : MacMapper
new_mac_mapper = record { mapping = []; last_sync = 0; cache_ttl = seconds 300; config = none }

abbrev pub ttl_of : ℤ → ℤ → ℤ
ttl_of (pos n) old = if ltb 0 n then seconds n else old
ttl_of (negsuc n) old = old

unfoldable pub update_config : WolConfig → MacMapper → MacMapper
update_config config m = record m {
  config = some config;
  cache_ttl = ttl_of config.spec.cache_ttl m.cache_ttl;
}

unfoldable pub normalize_mac_address : Text → Text
normalize_mac_address mac = to_lower (trim_space mac)

-- the loop over `ExplicitMappings`
unfoldable pub explicit_mapping : List MacVmMapping → Assoc VmInfo → Assoc VmInfo
explicit_mapping [] mapping = mapping
explicit_mapping (e ∷ es) mapping = explicit_mapping es (
    put (normalize_mac_address e.mac_address) (record { name = e.vm_name; namespace = e.namespace })
      mapping)

-- the inner loop of `extractMACsFromVMs`, over the interfaces of one VM
unfoldable pub extract_interfaces : Vm → List Interface → Assoc VmInfo → Assoc VmInfo
extract_interfaces vm [] mapping = mapping
extract_interfaces vm (iface ∷ networks) mapping = extract_interfaces vm networks (
    if not (text_eq iface.mac_address [])
    then put (normalize_mac_address iface.mac_address)
        (record { name = vm.name; namespace = vm.namespace }) mapping
    else mapping)

unfoldable pub extract_vm : Vm → Option (List Interface) → Assoc VmInfo → Assoc VmInfo
extract_vm vm none mapping = mapping
extract_vm vm (some networks) mapping = extract_interfaces vm networks mapping

unfoldable pub extract_macs_from_vms : List Vm → Assoc VmInfo → Assoc VmInfo
extract_macs_from_vms [] mapping = mapping
extract_macs_from_vms (vm ∷ vms) mapping =
    extract_macs_from_vms vms (extract_vm vm vm.template mapping)

abbrev list_or_skip : Result Text (List Vm) → Assoc VmInfo → Assoc VmInfo
list_or_skip (ok vms) mapping = extract_macs_from_vms vms mapping
list_or_skip (err e) mapping = mapping

abbrev list_all : Text → Result Text (List Vm) → Assoc VmInfo → Result Text (Assoc VmInfo)
list_all what (ok vms) mapping = ok (extract_macs_from_vms vms mapping)
list_all what (err e) mapping = err (what ++ e)

abbrev wrap : Text → Result Text (Assoc VmInfo) → Result Text (Assoc VmInfo)
wrap what (ok m) = ok m
wrap what (err e) = err (what ++ e)

abbrev install :
    ℕ
    → Result Text (Assoc VmInfo)
    → MacMapper × Metrics
    → MacMapper × Metrics × Result Text (Unit {0})
install now (ok mapping) (m, metrics) = (
  record m { mapping = mapping; last_sync = now },
  record metrics { managed_vms = length mapping },
  ok tt,
)
install now (err e) (m, metrics) = (m, metrics, err e)

module _ {S : Type 0} (client : VmClient S) (s : S) where
  -- the loop over the namespaces: one that cannot be listed is skipped
  unfoldable pub discover_namespaces : Option Selector → List Text → Assoc VmInfo → Assoc VmInfo
  discover_namespaces sel [] mapping = mapping
  discover_namespaces sel (ns ∷ namespaces) mapping =
      discover_namespaces sel namespaces (list_or_skip (client.list_vms s (some ns) sel) mapping)

  abbrev discover : Text → Option Selector → List Text → Assoc VmInfo → Result Text (Assoc VmInfo)
  discover what sel [] mapping = list_all what (client.list_vms s none sel) mapping
  discover what sel (ns ∷ namespaces) mapping =
      ok (discover_namespaces sel (ns ∷ namespaces) mapping)

  unfoldable pub discover_all_vms : WolConfig → Assoc VmInfo → Result Text (Assoc VmInfo)
  discover_all_vms config =
      discover (codes "failed to list VMs: ") none config.spec.namespace_selectors

  abbrev discover_selected :
      Result Text Selector → List Text → Assoc VmInfo → Result Text (Assoc VmInfo)
  discover_selected (err e) namespaces mapping = err (codes "invalid label selector: " ++ e)
  discover_selected (ok selector) namespaces mapping =
      discover (codes "failed to list VMs with selector: ") (some selector) namespaces mapping

  abbrev discover_with :
      Option LabelSelector → List Text → Assoc VmInfo → Result Text (Assoc VmInfo)
  discover_with none namespaces mapping = err (codes "VMSelector is nil in LabelSelector mode")
  discover_with (some selector) namespaces mapping =
      discover_selected (client.as_selector selector) namespaces mapping

  unfoldable pub discover_vms_with_selector : WolConfig → Assoc VmInfo → Result Text (Assoc VmInfo)
  discover_vms_with_selector config =
      discover_with config.spec.vm_selector config.spec.namespace_selectors

  -- the `switch` of `RefreshMapping`
  abbrev new_mapping_in : WolConfig → DiscoveryMode → Result Text (Assoc VmInfo)
  new_mapping_in config explicit = ok (explicit_mapping config.spec.explicit_mappings [])
  new_mapping_in config label_selector =
      wrap (codes "failed to discover VMs with selector: ") (discover_vms_with_selector config [])
  new_mapping_in config _ = wrap (codes "failed to discover all VMs: ") (discover_all_vms config [])

  unfoldable pub new_mapping : WolConfig → Result Text (Assoc VmInfo)
  new_mapping config = new_mapping_in config config.spec.discovery_mode

  abbrev refresh_with :
      ℕ → Option WolConfig → MacMapper × Metrics → MacMapper × Metrics × Result Text (Unit {0})
  refresh_with now none (m, metrics) = (m, metrics, err (codes "no config set"))
  refresh_with now (some config) (m, metrics) = install now (new_mapping config) (m, metrics)

  unfoldable pub refresh_mapping :
      ℕ → MacMapper → Metrics → MacMapper × Metrics × Result Text (Unit {0})
  refresh_mapping now m metrics = refresh_with now m.config (m, metrics)

unfoldable pub lookup : Text → MacMapper → Option VmInfo
lookup mac_address m = get (normalize_mac_address mac_address) m.mapping

unfoldable pub get_mapping_count : MacMapper → ℕ
get_mapping_count m = length m.mapping

-- the longest time.Duration, at which `time.Since` stays
abbrev pub max_duration : ℕ
max_duration = 2 ^ 63 - 1

-- time.Since, for a time that is not in the future
abbrev pub since : ℕ → ℕ → ℕ
since now t = if ltb max_duration (now - t) then max_duration else now - t

unfoldable pub need_refresh : ℕ → MacMapper → Bool
need_refresh now m = ltb_ℤ m.cache_ttl (pos (since now m.last_sync))

abbrev matches_labels : Assoc Text → Result Text Selector → Result Text Bool
matches_labels vm_labels (err e) = err e
matches_labels vm_labels (ok selector) = ok (selector vm_labels)

unfoldable pub matches_selector :
    {S : Type 0} → VmClient S → Assoc Text → Option LabelSelector → Result Text Bool
matches_selector client vm_labels none = ok true
matches_selector client vm_labels (some selector) =
    matches_labels vm_labels (client.as_selector selector)
