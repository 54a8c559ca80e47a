-- ===== src/Wiring/Explicit.antt =====
-- internal/controller/wolconfig_controller.go to internal/wol/agent.go: what a mapping in a WolConfig
-- does, once the mapper was refreshed.
use kubevirt_wol.Common.{get, some, false, ok, done, Text, List, Bool, ℕ, Assoc, ◌≡◌, ◌∙◌}
use kubevirt_wol.Api.{WolConfig}
use kubevirt_wol.Cluster.{VmClient}
use kubevirt_wol.Kube.{KubeClient}
use kubevirt_wol.Packet.Spec.{mac_text}
use kubevirt_wol.Packet.Decide.{Announces}
use kubevirt_wol.Mapper.{VmInfo, MacMapper, normalize_mac_address}
use kubevirt_wol.Mapper.Lookup.{last_explicit}
use kubevirt_wol.VmStarter.{World, start_vm}
use kubevirt_wol.Aggregator.{Aggregator, Readings}
use kubevirt_wol.Aggregator.Responses.{Fresh, packet_counted}
use kubevirt_wol.Agents.{Operator}
use kubevirt_wol.Controller.{State, refresh_all_configs}
use kubevirt_wol.Controller.Merge.{explicit_of, merge_explicit}
use kubevirt_wol.Agent.{Clock, Addr, Node, seen_within, process_packet}
use kubevirt_wol.Agent.Wake.{call, process_packet-wakes}

-- `main` gives the reconciler and the aggregator the same mapper.
abbrev pub sharing :
    {S : Type 0} → MacMapper → Node (Aggregator × World S) → Node (Aggregator × World S)
sharing mapper n = record n { remote = (record n.remote.0 { mapper = mapper }, n.remote.1) }

module _ {S : Type 0} (kube : KubeClient S) (vms : VmClient S) (op : Operator)
    (visit : Assoc Bool → List Text) (now : ℕ) (st : State S) (configs : List WolConfig)
    (listed : kube.list_configs st.cluster ≡ ok configs) (t : Clock) (r : Readings) (timestamp : ℕ)
    (addr : Addr) where
  -- Where the WolConfigs can be listed: after a refresh, a packet for an address that a WolConfig in
  -- Explicit mode maps, and that neither the agent nor the aggregator has seen within its window,
  -- starts the VM of the last such mapping: the cluster afterwards is the one that StartVM of that VM
  -- leaves.
  pub mapped_packet-wakes :
      (p m : List ℕ) (n : Node (Aggregator × World S)) (vm : VmInfo)
      → last_explicit (normalize_mac_address (mac_text m)) (explicit_of configs) ≡ some vm
      → Announces p m
      → seen_within t.checked n.agent.dedupe_duration (get (mac_text m) n.agent.dedupe_cache)
        ≡ false
      → Fresh r.checked (mac_text m) n.remote.0
      → let refreshed = refresh_all_configs kube vms op visit now st in
        (count : ℕ) × (n' : Node (Aggregator × World S)) × (refreshed.1 ≡ ok count)
        × (process_packet (call vms r) t timestamp addr p (sharing refreshed.0.mapper n) ≡ done n')
        × (n'.remote.1.cluster
            ≡ (start_vm vms vm.namespace vm.name (packet_counted n.remote.1)).0.cluster)
  unfolding last_explicit
  mapped_packet-wakes p m n vm mapped announced unseen fresh =
      let (count, fine, finds) =
        merge_explicit kube vms op visit now st configs listed (mac_text m) (λ empty. cc) in
      let (n', runs, woken, kept) =
        process_packet-wakes vms r t timestamp addr p m
          (sharing (refresh_all_configs kube vms op visit now st).0.mapper n) vm announced unseen
          fresh (finds ∙ mapped) in
      (count, n', fine, runs, woken)
