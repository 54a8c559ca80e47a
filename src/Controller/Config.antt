-- ===== src/Controller/Config.antt =====
-- internal/controller/wolconfig_controller.go and status.go: what the controller checks of a WolConfig and
-- writes into it, and the config that it merges them into.
use kubevirt_wol.Common.{
  ℕ, List, [], ◌∷◌, ◌++◌, Bool, true, ◌||◌, Option, none, some, Text, codes, text_eq, Assoc, put, ℤ,
  pos, ltb_ℤ, eq_ℤ, format_int, if◌then◌else◌, Result, ok, err,
}
use kubevirt_wol.Api.{
  DiscoveryMode, all, label_selector, explicit, unset, MacVmMapping, LabelSelector, WolConfig,
  WolConfigSpec, Condition,
}
use kubevirt_wol.Cluster.{Metrics}
use kubevirt_wol.Agents.{ports_or_default}

abbrev pub condition_type_ready : Text
condition_type_ready = codes "Ready"

abbrev pub reason_invalid_config : Text
reason_invalid_config = codes "InvalidConfig"

abbrev pub reason_mapping_updated : Text
reason_mapping_updated = codes "MappingUpdated"

abbrev pub reason_agent_failed : Text
reason_agent_failed = codes "AgentFailed"

-- for _, port := range config.Spec.WOLPorts: the first port out of range is the error
unfoldable pub check_ports : List ℤ → Result Text (Unit {0})
check_ports [] = ok tt
check_ports (port ∷ ports) =
    if ltb_ℤ port (pos 1) || ltb_ℤ (pos 65535) port
    then err (codes "invalid WOL port: " ++ format_int port ++ codes " (must be 1-65535)")
    else check_ports ports

abbrev pub mode_or_default : DiscoveryMode → DiscoveryMode
mode_or_default unset = all
mode_or_default mode = mode

abbrev pub ttl_or_default : ℤ → ℤ
ttl_or_default ttl = if eq_ℤ ttl (pos 0) then pos 300 else ttl

abbrev pub check_selector : Option LabelSelector → Result Text (Unit {0})
check_selector none = err (codes "VMSelector is required for LabelSelector discovery mode")
check_selector (some _) = ok tt

abbrev pub check_explicit : List MacVmMapping → Result Text (Unit {0})
check_explicit [] = err (codes "ExplicitMappings is required for Explicit discovery mode")
check_explicit (_ ∷ _) = ok tt

-- the last switch of `validateConfig`
abbrev pub check_mode : WolConfigSpec → DiscoveryMode → Result Text (Unit {0})
check_mode spec label_selector = check_selector spec.vm_selector
check_mode spec explicit = check_explicit spec.explicit_mappings
check_mode spec _ = ok tt

abbrev pub check_ttl : WolConfig → WolConfig × Result Text (Unit {0})
check_ttl config =
    let ttl = ttl_or_default config.spec.cache_ttl in
    let config' : WolConfig = record config { spec = record config.spec { cache_ttl = ttl } } in
    if ltb_ℤ ttl (pos 0)
    then (config', err (codes "invalid cache TTL: " ++ format_int ttl ++ codes " (must be >= 0)"))
    else (config', check_mode config'.spec config'.spec.discovery_mode)

abbrev pub after_ports : WolConfig → Result Text (Unit {0}) → WolConfig × Result Text (Unit {0})
after_ports config (err e) = (config, err e)
after_ports config (ok _) = check_ttl config

abbrev pub defaulted : WolConfig → WolConfig
defaulted config = record config {
  spec = record config.spec {
    discovery_mode = mode_or_default config.spec.discovery_mode;
    wol_ports = ports_or_default config.spec.wol_ports;
  };
}

-- The config with the defaults written into it so far, and the error.
unfoldable pub validate_config : WolConfig → WolConfig × Result Text (Unit {0})
validate_config config =
    let config' = defaulted config in after_ports config' (check_ports config'.spec.wol_ports)

-- Writes the condition over the first one of its type, or at the end.
unfoldable pub set_condition : Condition → List Condition → List Condition
set_condition condition [] = condition ∷ []
set_condition condition (cond ∷ conditions) =
    let rest = set_condition condition conditions in
    if text_eq cond.condition_type condition_type_ready then condition ∷ conditions else cond ∷ rest

abbrev pub ready_condition : ℕ → WolConfig → Bool → Text → Text → Condition
ready_condition now config ready reason message = record {
  condition_type = condition_type_ready;
  status = ready;
  observed_generation = config.generation;
  last_transition_time = now;
  reason = reason;
  message = message;
}

abbrev pub with_condition : ℕ → WolConfig → Bool → Text → Text → WolConfig
with_condition now config ready reason message = record config {
  status = record config.status {
    conditions =
        set_condition (ready_condition now config ready reason message) config.status.conditions;
  };
}

-- `allNamespaces`, `allExplicitMappings`, and the metrics, which the mapper of a LabelSelector config
-- sets too
pub record Collected : Type 0 where
  pub namespaces : Assoc Bool
  pub mappings : List MacVmMapping
  pub metrics : Metrics

unfoldable pub add_namespaces : List Text → Assoc Bool → Assoc Bool
add_namespaces [] all_namespaces = all_namespaces
add_namespaces (ns ∷ namespaces) all_namespaces =
    add_namespaces namespaces (put ns true all_namespaces)

abbrev pub merged_mode : List MacVmMapping → DiscoveryMode
merged_mode [] = all
merged_mode (_ ∷ _) = explicit

-- `namespaces` are the keys of `allNamespaces` in the order in which `range` visits them.
unfoldable pub merged_config : List Text → List MacVmMapping → WolConfig
merged_config namespaces mappings = record {
  name = [];
  generation = pos 0;
  annotations = none;
  spec = record {
    discovery_mode = merged_mode mappings;
    namespace_selectors = namespaces;
    vm_selector = none;
    explicit_mappings = mappings;
    wol_ports = [];
    cache_ttl = pos 0;
    agent = record {
      node_selector = [];
      tolerations = [];
      resources = record { requests = none; limits = none };
      image = [];
      image_pull_policy = [];
      update_strategy = none;
      priority_class_name = [];
    };
  };
  status = record { managed_vms = 0; last_sync = none; conditions = []; agent_status = none };
}
