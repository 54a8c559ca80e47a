-- ===== src/Agents/Tests.antt =====
-- The DaemonSets of concrete WolConfigs.
use kubevirt_wol.Common.{
  text_eq, format_int, text_eq, format_int, format_from, format_nat, ◌≡◌, ◌↔◌, refl, [], true, none,
  Text, codes, ok,
}
use kubevirt_wol.Api.{explicit}
use kubevirt_wol.Agents.{
  Operator, get_daemon_set_name, build_agent_daemon_set, reconcile_agent_daemon_set,
  discover_operator_address, discover_agent_service_account, grpc_port, service_port, namespace_of,
}
use kubevirt_wol.Agents.Build.{selects, selects-build_agent_daemon_set}
use kubevirt_wol.Agents.Reconciled.{Runs, reconcile-Runs}
use kubevirt_wol.Examples.{sample_config, sample_vm}
use kubevirt_wol.Store.{Store, store_kube, store_kube-Keeps}

abbrev op : Operator
op = record { agent_image = codes "agent:1"; operator_namespace = [] }

abbrev store : Store
store = record { vm = sample_vm; config = sample_config explicit; daemon_set = none }

program : Unit {0}
unfolding discover_operator_address discover_agent_service_account reconcile_agent_daemon_set
    grpc_port service_port format_int format_nat format_from text_eq
program = tt

finds_service : discover_operator_address store_kube op store ≡ ok (codes "grpc.wol.svc:9090")
unfolding program
finds_service = refl

selects-build_agent_daemon_set_example :
    (selects
        (build_agent_daemon_set op
          (sample_config explicit)
          (codes "a")
          (codes "x")
          (codes "u")).spec.selector
        (build_agent_daemon_set op
          (sample_config explicit)
          (codes "b")
          (codes "y")
          (codes "v")).spec.template_labels
      ≡ true)
    ↔ (codes "cfg" ≡ codes "cfg")
selects-build_agent_daemon_set_example =
    selects-build_agent_daemon_set op op (sample_config explicit) (sample_config explicit)
      (codes "a") (codes "b") (codes "x") (codes "y") (codes "u") (codes "v")

reconcile-Runs_example :
    (address : Text) × (account : Text) × (discover_operator_address store_kube op store
      ≡ ok address)
    × (discover_agent_service_account store_kube op store ≡ ok account)
    × Runs store_kube
        (reconcile_agent_daemon_set store_kube op (sample_config explicit) store).0
        (namespace_of op)
        (get_daemon_set_name (sample_config explicit))
        (build_agent_daemon_set op
          (sample_config explicit)
          (get_daemon_set_name (sample_config explicit))
          address
          account).spec
unfolding program
reconcile-Runs_example =
    reconcile-Runs store_kube op (sample_config explicit) store store_kube-Keeps refl
