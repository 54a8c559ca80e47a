-- ===== src/Wiring/Discovered.antt =====
-- internal/controller/wolconfig_controller.go to internal/wol/agent.go: what a WolConfig in All mode
-- does, once the mapper was refreshed.
use kubevirt_wol.Common.{get, [], none, some, false, ok, done, Text, List, Bool, ℕ, Assoc, ◌≡◌, ◌∙◌}
use kubevirt_wol.Api.{WolConfig}
use kubevirt_wol.Cluster.{Vm, VmClient}
use kubevirt_wol.Kube.{KubeClient}
use kubevirt_wol.Packet.Spec.{mac_text}
use kubevirt_wol.Packet.Decide.{Announces}
use kubevirt_wol.Mapper.{VmInfo, normalize_mac_address}
use kubevirt_wol.Mapper.Lookup.{last_owner}
use kubevirt_wol.Mapper.NewMapping.{watched}
use kubevirt_wol.VmStarter.{World, start_vm}
use kubevirt_wol.Aggregator.{Aggregator, Readings}
use kubevirt_wol.Aggregator.Responses.{Fresh, packet_counted}
use kubevirt_wol.Agents.{Operator}
use kubevirt_wol.Controller.{State, refresh_all_configs}
use kubevirt_wol.Controller.Merge.{explicit_of, visited, merge_discovered}
use kubevirt_wol.Agent.{Clock, Addr, Node, seen_within, process_packet}
use kubevirt_wol.Agent.Wake.{call, process_packet-wakes}
use kubevirt_wol.Wiring.Explicit.{sharing}

module _ {S : Type 0} (kube : KubeClient S) (vms : VmClient S) (op : Operator)
    (visit : Assoc Bool → List Text) (now : ℕ) (st : State S) (configs : List WolConfig)
    (listed : kube.list_configs st.cluster ≡ ok configs) (no_mapping : explicit_of configs ≡ [])
    {found : List Vm}
    (view : watched vms st.cluster none (visited kube vms op visit now st.cluster configs)
      ≡ ok found)
    (t : Clock) (r : Readings) (timestamp : ℕ) (addr : Addr) where
  -- Where the WolConfigs can be listed, none of them has a mapping in Explicit mode, and the VMs of
  -- the namespaces that those in All mode name, or of the cluster if they name none, can be listed:
  -- after a refresh, a packet for an address of a VM in view, and that neither the agent nor the
  -- aggregator has seen within its window, starts the last VM in view with that address: the cluster
  -- afterwards is the one that StartVM of that VM leaves.
  pub discovered_packet-wakes :
      (p m : List ℕ) (n : Node (Aggregator × World S)) (vm : VmInfo)
      → last_owner (normalize_mac_address (mac_text m)) found ≡ some vm
      → Announces p m
      → seen_within t.checked n.agent.dedupe_duration (get (mac_text m) n.agent.dedupe_cache)
        ≡ false
      → Fresh r.checked (mac_text m) n.remote.0
      → let refreshed = refresh_all_configs kube vms op visit now st in
        (count : ℕ) × (n' : Node (Aggregator × World S)) × (refreshed.1 ≡ ok count)
        × (process_packet (call vms r) t timestamp addr p (sharing refreshed.0.mapper n) ≡ done n')
        × (n'.remote.1.cluster
            ≡ (start_vm vms vm.namespace vm.name (packet_counted n.remote.1)).0.cluster)
  discovered_packet-wakes p m n vm owned announced unseen fresh =
      let (count, fine, finds) =
        merge_discovered kube vms op visit now st configs listed (mac_text m) no_mapping view in
      let (n', runs, woken, kept) =
        process_packet-wakes vms r t timestamp addr p m
          (sharing (refresh_all_configs kube vms op visit now st).0.mapper n) vm announced unseen
          fresh (finds ∙ owned) in
      (count, n', fine, runs, woken)
