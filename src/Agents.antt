-- ===== src/Agents.antt =====
-- internal/controller/daemonset.go: the DaemonSet of agents that a WolConfig asks for.
mod Spec
pub mod Build
pub mod Reconciled
mod Tests
unfoldable pub use Spec.*
use kubevirt_wol.Common.{
  ℕ, List, [], ◌∷◌, ◌++◌, map, Bool, true, false, Option, none, some, ◌||◌, Text, codes, text_eq,
  Assoc, ℤ, pos, ltb, ◌==◌, eq_ℤ, format_int, join, length, if◌then◌else◌, Result, ok, err,
}
use kubevirt_wol.Api.{WolConfig, Toleration, Resources, UpdateStrategy}
use kubevirt_wol.Kube.{
  EnvVar, EnvSource, value, field_path, SecurityContext, Probe, Container, PodSpec, DaemonSetSpec,
  DaemonSet, ServiceAccount, ServicePort, Service, ApiError, not_found, failed, KubeClient,
}

module _ {S : Type 0} (client : KubeClient S) (op : Operator) where
  unfoldable pub discover_agent_service_account : S → Result Text Text
  discover_agent_service_account s =
      first_account (client.list_service_accounts s (namespace_of op) account_labels)

  unfoldable pub discover_operator_address : S → Result Text Text
  discover_operator_address s = first_service (client.list_services s (namespace_of op) grpc_labels)

  abbrev pub failing : Text → S → Result Text S → S × Result Text (Unit {0})
  failing what s (err e) = (s, err (what ++ e))
  failing what s (ok s') = (s', ok tt)

  abbrev pub create_or_update :
      S → DaemonSet → Result ApiError DaemonSet → S × Result Text (Unit {0})
  create_or_update s desired (err (not_found e)) =
      failing (codes "failed to create DaemonSet: ") s (client.create_daemon_set s desired)
  create_or_update s desired (err (failed e)) = (s, err (codes "failed to get DaemonSet: " ++ e))
  create_or_update s desired (ok existing) =
      failing (codes "failed to update DaemonSet: ") s
        (client.update_daemon_set s (record existing { spec = desired.spec }))

  abbrev pub reconcile_owned : S → Text → Result Text DaemonSet → S × Result Text (Unit {0})
  reconcile_owned s name (err e) = (s, err (codes "failed to set owner reference: " ++ e))
  reconcile_owned s name (ok desired) =
      create_or_update s desired (client.get_daemon_set s (namespace_of op) name)

  abbrev pub reconcile_with :
      S → WolConfig → Result Text Text → Result Text Text → S × Result Text (Unit {0})
  reconcile_with s config (err e) _ = (s, err (codes "failed to discover operator address: " ++ e))
  reconcile_with s config (ok address) (err e) =
      (s, err (codes "failed to discover agent service account: " ++ e))
  reconcile_with s config (ok address) (ok account) =
      let name = get_daemon_set_name config in
      reconcile_owned s name (
        client.set_controller_reference config
          (build_agent_daemon_set op config name address account))

  unfoldable pub reconcile_agent_daemon_set : WolConfig → S → S × Result Text (Unit {0})
  reconcile_agent_daemon_set config s =
      reconcile_with s config (discover_operator_address s) (discover_agent_service_account s)
