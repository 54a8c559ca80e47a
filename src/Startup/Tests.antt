-- ===== src/Startup/Tests.antt =====
-- The check at startup in a small cluster.
use kubevirt_wol.Common.{◌≡◌, refl, [], some, codes, get, put, delete, text_eq}
use kubevirt_wol.Api.{explicit}
use kubevirt_wol.Kube.{DaemonSet}
use kubevirt_wol.Agents.{Operator, build_agent_daemon_set, agent_pod_spec, agent_container}
use kubevirt_wol.Startup.{
  outdated, check_daemon_sets, check_and_update_daemon_sets, start, annotate,
}
use kubevirt_wol.Startup.Drift.{Checked, start-Touches}
use kubevirt_wol.Examples.{sample_config, sample_vm}
use kubevirt_wol.Store.{Store, store_kube}

abbrev old : Operator
old = record { agent_image = codes "agent:1"; operator_namespace = [] }

abbrev new : Operator
new = record { agent_image = codes "agent:2"; operator_namespace = [] }

abbrev built_by : Operator → DaemonSet
built_by op =
    build_agent_daemon_set op (sample_config explicit) (codes "ds") (codes "addr") (codes "acc")

abbrev store : Store
store = record { vm = sample_vm; config = sample_config explicit; daemon_set = some (built_by old) }

program : Unit {0}
unfolding build_agent_daemon_set agent_pod_spec agent_container outdated check_daemon_sets
    check_and_update_daemon_sets start get put delete text_eq
program = tt

finds_drift : outdated store_kube new store (built_by old) ≡ some (sample_config explicit)
unfolding program
finds_drift = refl

touches :
    start store_kube new (λ i. codes "now") store
    ≡ record store { config = annotate (codes "now") (sample_config explicit) }
unfolding program
touches = refl

start-Touches_example :
    Checked store_kube new
      (λ i. codes "now")
      store
      (start store_kube new (λ i. codes "now") store)
      (check_and_update_daemon_sets store_kube new (λ i. codes "now") store).1
start-Touches_example = start-Touches store_kube new (λ i. codes "now") store
