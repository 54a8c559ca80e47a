-- ===== src/Controller/Tests.antt =====
-- Reconciliations of concrete WolConfigs in a small cluster.
use kubevirt_wol.Common.{
  if◌then◌else◌, ◌==◌, lower, to_lower, is_space, trim_right, trim_left, trim_space, format_from,
  format_nat, format_int, join, ℕ, ◌≡◌, ◌↔◌, refl, [], ◌∷◌, Bool, true, false, none, some, Text,
  codes, arith, pos, Assoc, get, put, delete, ok, text_eq, is_some,
}
use kubevirt_wol.Api.{unset, WolConfig, Condition, explicit, all, label_selector}
use kubevirt_wol.Kube.{KubeClient}
use kubevirt_wol.Mapper.{
  refresh_mapping, update_config, get_mapping_count, explicit_mapping, new_mapping, lookup,
  normalize_mac_address,
}
use kubevirt_wol.Mapper.Lookup.{last_explicit}
use kubevirt_wol.Agents.{
  ports_text, service_port, grpc_port, reconcile_agent_daemon_set, discover_agent_service_account,
  discover_operator_address, agent_container, agent_pod_spec, build_agent_daemon_set,
  get_daemon_set_name, Operator,
}
use kubevirt_wol.Controller.{
  update_agent_status, update_status, merged_config, add_namespaces, collect, State, Times,
  validate_config, check_ports, set_condition, ready_condition, refresh_all_configs, reconcile,
}
use kubevirt_wol.Controller.Validate.{IsValid, full, validate_config_iff, validate_config-Full}
use kubevirt_wol.Controller.Conditions.{ready_of, others, ready_count, set_condition_lem}
use kubevirt_wol.Controller.Merge.{explicit_of, merge_explicit}
use kubevirt_wol.Controller.Ignored.{without_selectors, selectors_ignored, is_in}
use kubevirt_wol.Controller.Reconcile.{Settled, reconcile-Settled}
use kubevirt_wol.Controller.Refused.{Refused, reconcile-Refused}
use kubevirt_wol.Examples.{sample_config, sample_vm, sample_mac, sample_mapper, no_metrics}
use kubevirt_wol.Store.{Store, store_kube, store_vms, keys}

abbrev op : Operator
op = record { agent_image = codes "agent:1"; operator_namespace = [] }

abbrev store_with : WolConfig → Store
store_with config = record { vm = sample_vm; config = config; daemon_set = none }

abbrev state_with : WolConfig → State Store
state_with config = record {
  cluster = store_with config;
  mapper = record (sample_mapper all) { mapping = [] };
  metrics = no_metrics;
}

abbrev times : Times
times = record { refreshed = 3; synced = 4; written = 5 }

abbrev mode_all : WolConfig
mode_all = sample_config all

abbrev mode_explicit : WolConfig
mode_explicit = sample_config explicit

abbrev mode_selector : WolConfig
mode_selector = sample_config label_selector

-- port 0
abbrev bad_ports : WolConfig
bad_ports = record mode_all { spec = record mode_all.spec { wol_ports = pos 0 ∷ [] } }

program : Unit {0}
unfolding reconcile validate_config check_ports set_condition refresh_all_configs collect
    add_namespaces merged_config update_status update_agent_status get_daemon_set_name
    build_agent_daemon_set agent_pod_spec agent_container discover_operator_address
    discover_agent_service_account reconcile_agent_daemon_set grpc_port service_port ports_text join
    format_int format_nat format_from text_eq refresh_mapping new_mapping explicit_mapping put
    delete update_config lookup normalize_mac_address trim_space trim_left trim_right is_space
    to_lower lower get_mapping_count
program = tt

validate_config_iff_example :
    ((validate_config mode_explicit).1 ≡ ok tt) ↔ IsValid mode_explicit.spec
validate_config_iff_example = validate_config_iff mode_explicit

-- a config that leaves everything to the defaults
abbrev mode_unset : WolConfig
mode_unset = record mode_all {
  spec = record mode_all.spec { discovery_mode = unset; wol_ports = []; cache_ttl = pos 0 };
}

validate_config-Full_example :
    ((validate_config mode_unset).0 ≡ full mode_unset)
    × IsValid (full mode_unset).spec
    × (validate_config (full mode_unset) ≡ (full mode_unset, ok tt))
unfolding validate_config check_ports
validate_config-Full_example = validate_config-Full mode_unset refl

abbrev was_failed : Condition
was_failed = ready_condition 1 mode_all false (codes "InvalidConfig") (codes "x")

abbrev now_ready : Condition
now_ready = ready_condition 2 mode_all true (codes "MappingUpdated") (codes "y")

set_condition_lem_example :
    (ready_of (set_condition now_ready (was_failed ∷ [])) ≡ some now_ready)
    × (others (set_condition now_ready (was_failed ∷ [])) ≡ others (was_failed ∷ []))
    × (ready_count (set_condition now_ready (was_failed ∷ []))
        ≡ (if ready_count (was_failed ∷ []) == 0 then 1 else ready_count (was_failed ∷ [])))
unfolding text_eq
set_condition_lem_example = set_condition_lem now_ready (was_failed ∷ []) refl

merge_explicit_example :
    (n : ℕ) × ((refresh_all_configs store_kube store_vms op keys 3 (state_with mode_explicit)).1
      ≡ ok n)
    × (lookup sample_mac
          (refresh_all_configs store_kube store_vms op keys 3 (state_with mode_explicit)).0.mapper
        ≡ last_explicit (normalize_mac_address sample_mac) (explicit_of (mode_explicit ∷ [])))
unfolding explicit_of
merge_explicit_example =
    merge_explicit store_kube store_vms op keys 3 (state_with mode_explicit) (mode_explicit ∷ [])
      refl sample_mac (λ h. cc)

-- the same cluster without its WolConfig
abbrev no_configs : KubeClient Store
no_configs = record store_kube { list_configs = λ s. ok [] }

selectors_ignored_example :
    ((refresh_all_configs store_kube store_vms op keys 3 (state_with mode_selector)).0.mapper
      ≡ (refresh_all_configs no_configs store_vms op keys 3 (state_with mode_selector)).0.mapper)
    × ((refresh_all_configs store_kube store_vms op keys 3 (state_with mode_selector)).1
        ≡ (refresh_all_configs no_configs store_vms op keys 3 (state_with mode_selector)).1)
unfolding without_selectors
selectors_ignored_example =
    selectors_ignored store_kube no_configs store_vms op keys 3 (state_with mode_selector)
      (mode_selector ∷ []) refl refl

is_in-keys : (m : Assoc Bool) (k : Text) → is_in k (keys m) ≡ is_some (get k m)
unfolding is_in get
is_in-keys [] k = refl
is_in-keys ((j, b) ∷ m) k = ground (arith, is_in-keys m k)

reconcile-Settled_example :
    Settled store_kube store_vms op keys times
      (state_with mode_explicit)
      (store_kube.get_config (store_with mode_explicit) (codes "cfg"))
      (reconcile store_kube store_vms op keys times (codes "cfg") (state_with mode_explicit))
unfolding program
reconcile-Settled_example =
    reconcile-Settled store_kube store_vms op keys times (state_with mode_explicit) (codes "cfg")
      refl

reconcile-Refused_example :
    (e : Text) × Refused store_kube store_vms op keys times
      (state_with bad_ports)
      (validate_config bad_ports).0
      e
      (reconcile store_kube store_vms op keys times (codes "cfg") (state_with bad_ports))
unfolding text_eq
reconcile-Refused_example =
    reconcile-Refused store_kube store_vms op keys times (state_with bad_ports) (codes "cfg")
      bad_ports refl (λ v. omega arith)
