-- ===== src/Controller.antt =====
-- internal/controller/wolconfig_controller.go and status.go: reconciling a WolConfig. The state is the
-- cluster, the mapper that the aggregator reads, and the metrics.
mod Config
pub mod Validate
pub mod Conditions
pub mod Merge
pub mod Ignored
pub mod Reconcile
pub mod Refused
mod Tests
unfoldable pub use Config.*
use kubevirt_wol.Common.{
  negsuc, int64, suc, ◌*◌, ◌%◌, ◌-◌, ◌^◌, ℕ, List, [], ◌∷◌, ◌++◌, map, Bool, true, false, ◌||◌,
  Option, none, some, Text, codes, text_eq, Assoc, put, ℤ, pos, ltb_ℤ, eq_ℤ, format_int,
  if◌then◌else◌, Result, ok, err,
}
use kubevirt_wol.Api.{
  DiscoveryMode, all, label_selector, explicit, unset, other, MacVmMapping, LabelSelector,
  WolConfig, WolConfigSpec, WolConfigStatus, AgentStatus, Condition,
}
use kubevirt_wol.Cluster.{VmClient, Metrics}
use kubevirt_wol.Kube.{DaemonSet, ApiError, not_found, failed, text_of, KubeClient}
use kubevirt_wol.Mapper.{
  MacMapper, new_mac_mapper, update_config, refresh_mapping, get_mapping_count, seconds,
}
use kubevirt_wol.Agents.{
  Operator, namespace_of, get_daemon_set_name, reconcile_agent_daemon_set, ports_or_default,
}

-- The readings of the clock in one reconciliation.
pub record Times : Type 0 where
  pub refreshed : ℕ
  pub synced : ℕ
  pub written : ℕ

pub record State (S : Type 0) : Type 0 where
  pub cluster : S
  pub mapper : MacMapper
  pub metrics : Metrics

-- ctrl.Result and the error
pub record Outcome : Type 0 where
  pub requeue_after : ℤ
  pub error : Option Text

abbrev pub finished : ℤ → Outcome
finished delay = record { requeue_after = delay; error = none }

abbrev pub failed_after : ℤ → Text → Outcome
failed_after delay e = record { requeue_after = delay; error = some e }

abbrev pub requeue_after_ttl : ℤ → ℤ
requeue_after_ttl delay = if eq_ℤ delay (pos 0) then seconds 300 else delay

-- time.Duration(config.Spec.CacheTTL) * time.Second
abbrev pub ttl_delay : ℤ → ℤ
ttl_delay (pos n) = seconds n
ttl_delay (negsuc n) = int64 (2 ^ 64 - suc n * 1_000_000_000 % 2 ^ 64)

module _ {S : Type 0} (kube : KubeClient S) (vms : VmClient S) (op : Operator)
    (visit : Assoc Bool → List Text) where
  -- one round of the loop over the configs
  abbrev pub collect_in : ℕ → S → WolConfig → Collected → DiscoveryMode → Collected
  collect_in now s config c all = record c {
    namespaces = add_namespaces config.spec.namespace_selectors c.namespaces;
  }
  collect_in now s config c explicit = record c {
    mappings = c.mappings ++ config.spec.explicit_mappings;
  }
  collect_in now s config c label_selector = record c {
    metrics = (refresh_mapping vms s now (update_config config new_mac_mapper) c.metrics).1;
  }
  collect_in now s config c _ = c

  unfoldable pub collect : ℕ → S → List WolConfig → Collected → Collected
  collect now s [] c = c
  collect now s (config ∷ configs) c =
      collect now s configs (collect_in now s config c config.spec.discovery_mode)

  abbrev pub after_refresh :
      S → MacMapper × Metrics × Result Text (Unit {0}) → State S × Result Text ℕ
  after_refresh s (mapper, metrics, err e) = (
    record { cluster = s; mapper = mapper; metrics = metrics },
    err (codes "failed to refresh merged mapping: " ++ e),
  )
  after_refresh s (mapper, metrics, ok _) =
      (record { cluster = s; mapper = mapper; metrics = metrics }, ok (get_mapping_count mapper))

  abbrev pub refresh_collected : ℕ → State S → Collected → State S × Result Text ℕ
  refresh_collected now st c = after_refresh st.cluster (
      refresh_mapping vms st.cluster now
        (update_config (merged_config (visit c.namespaces) c.mappings) st.mapper) c.metrics)

  abbrev pub refresh_listed : ℕ → State S → Result Text (List WolConfig) → State S × Result Text ℕ
  refresh_listed now st (err e) = (st, err (codes "failed to list WolConfigs: " ++ e))
  refresh_listed now st (ok configs) = refresh_collected now st (
      collect now st.cluster configs
        (record { namespaces = []; mappings = []; metrics = st.metrics }))

  unfoldable pub refresh_all_configs : ℕ → State S → State S × Result Text ℕ
  refresh_all_configs now st = refresh_listed now st (kube.list_configs st.cluster)

  abbrev keep_or : S → Result Text (S × WolConfig) → S × Result Text WolConfig
  keep_or s (ok (s', config)) = (s', ok config)
  keep_or s (err e) = (s, err e)

  unfoldable pub update_status : ℕ → WolConfig → Bool → Text → Text → S → S × Result Text WolConfig
  update_status now config ready reason message s =
      keep_or s (kube.update_config_status s (with_condition now config ready reason message))

  abbrev pub agent_status_of : WolConfig → Result ApiError DaemonSet → WolConfig
  agent_status_of config (err (not_found _)) = record config {
    status = record config.status { agent_status = none };
  }
  agent_status_of config (err (failed _)) = config
  agent_status_of config (ok ds) = record config {
    status = record config.status {
      agent_status = some (record {
        daemon_set_name = get_daemon_set_name config;
        desired_number_scheduled = ds.status.desired_number_scheduled;
        number_ready = ds.status.number_ready;
        number_available = ds.status.number_available;
      });
    };
  }

  -- The error, which is only logged, is left out.
  unfoldable pub update_agent_status : S → WolConfig → WolConfig
  update_agent_status s config =
      agent_status_of config (kube.get_daemon_set s (namespace_of op) (get_daemon_set_name config))

  -- an error of writing the status is only logged
  abbrev give_up : ℤ → Times → WolConfig → Text → Text → Text → State S → State S × Outcome
  give_up delay t config reason message e st = (
    record st { cluster = (update_status t.written config false reason message st.cluster).0 },
    failed_after delay e,
  )

  -- The TTL is read from the config that the update left.
  abbrev pub conclude : State S → S × Result Text WolConfig → State S × Outcome
  conclude st (s, err e) = (record st { cluster = s }, failed_after (pos 0) e)
  conclude st (s, ok config) =
      (record st { cluster = s }, finished (requeue_after_ttl (ttl_delay config.spec.cache_ttl)))

  abbrev pub synced_config : Times → WolConfig → ℕ → WolConfig
  synced_config t config count = record config {
    status = record config.status { managed_vms = count; last_sync = some t.synced };
  }

  abbrev pub reconcile_refreshed : Times → WolConfig → State S × Result Text ℕ → State S × Outcome
  reconcile_refreshed t config (st, err e) =
      give_up (seconds 30) t config reason_invalid_config (codes "Failed to refresh mapping: " ++ e)
        e st
  reconcile_refreshed t config (st, ok count) =
      let config' = update_agent_status st.cluster (synced_config t config count) in
      conclude st (
        update_status t.written config' true reason_mapping_updated
          (codes "VM mapping refreshed successfully") st.cluster)

  abbrev pub reconcile_agents :
      Times → WolConfig → State S → S × Result Text (Unit {0}) → State S × Outcome
  reconcile_agents t config st (s, err e) =
      give_up (seconds 30) t config reason_agent_failed
        (codes "Failed to reconcile DaemonSet: " ++ e) e (record st { cluster = s })
  reconcile_agents t config st (s, ok _) =
      reconcile_refreshed t config (refresh_all_configs t.refreshed (record st { cluster = s }))

  abbrev pub reconcile_valid :
      Times → State S → WolConfig × Result Text (Unit {0}) → State S × Outcome
  reconcile_valid t st (config, err e) = give_up (pos 0) t config reason_invalid_config e e st
  reconcile_valid t st (config, ok _) =
      reconcile_agents t config st (reconcile_agent_daemon_set kube op config st.cluster)

  abbrev pub reconcile_found : Times → State S → Result ApiError WolConfig → State S × Outcome
  reconcile_found t st (err (not_found _)) = (st, finished (pos 0))
  reconcile_found t st (err (failed e)) = (st, failed_after (pos 0) e)
  reconcile_found t st (ok config) = reconcile_valid t st (validate_config config)

  unfoldable pub reconcile : Times → Text → State S → State S × Outcome
  reconcile t name st = reconcile_found t st (kube.get_config st.cluster name)

  abbrev request_names : Result Text (List WolConfig) → List Text
  request_names (err e) = []
  request_names (ok configs) = map (λ config. config.name) configs

  -- The requests that a change of a VM triggers, by their names.
  unfoldable pub map_vm_to_config : S → List Text
  map_vm_to_config s = request_names (kube.list_configs s)
