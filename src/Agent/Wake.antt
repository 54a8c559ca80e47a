-- ===== src/Agent/Wake.antt =====
-- From a packet at an agent to the VM in the cluster: the agent reports to an aggregator.
use kubevirt_wol.Common.{ℕ, ◌≡◌, refl, List, some, false, Text, get, put, Result, ok, done}
use kubevirt_wol.Cluster.{VmClient}
use kubevirt_wol.Packet.Spec.{mac_text}
use kubevirt_wol.Packet.Decide.{Announces, parse_magic_packet_iff}
use kubevirt_wol.Mapper.{VmInfo, lookup}
use kubevirt_wol.VmStarter.{World, start_vm}
use kubevirt_wol.Aggregator.{Aggregator, WolEvent, WolEventResponse, Readings, report_wol_event}
use kubevirt_wol.Aggregator.Responses.{
  Fresh, Answered, not_found, initiated, failed, report-fresh, packet_counted, world,
}
use kubevirt_wol.Agent.{
  Agent, Clock, Addr, Node, seen_within, should_process, process_packet, after_report, event_of,
}

module _ {S : Type 0} (client : VmClient S) (r : Readings) where
  -- A call of ReportWOLEvent that reaches the aggregator and whose answer comes back.
  abbrev pub call :
      WolEvent → Aggregator × World S → (Aggregator × World S) × Result Text WolEventResponse
  call event (a, w) =
      let (a', w', resp) = report_wol_event client r event a w in ((a', w'), ok resp)

  started-cluster :
      (event : WolEvent) (a : Aggregator) (w : World S) (vm : VmInfo)
      → lookup event.mac_address a.mapper ≡ some vm
      → Answered client r event a w
      → (world client r event a w).cluster
        ≡ (start_vm client vm.namespace vm.name (packet_counted w)).0.cluster
  started-cluster event a w vm found (not_found missing s same) = cc
  started-cluster event a w vm found (initiated vm' found' fine s same) =
      let e : vm' ≡ vm = cc in rw (← e) same
  started-cluster event a w vm found (failed vm' x found' bad s same) =
      let e : vm' ≡ vm = cc in rw (← e) same

  module _ (t : Clock) (timestamp : ℕ) (addr : Addr) where
    -- A packet that announces an address which neither the agent nor the aggregator has seen within
    -- its window, and which the mapper knows, starts the VM of that address, where the call reaches
    -- the aggregator: the cluster afterwards is the one that StartVM leaves, whether that succeeds
    -- or not, and the agent has kept the address.
    pub process_packet-wakes :
        (p m : List ℕ) (n : Node (Aggregator × World S)) (vm : VmInfo)
        → Announces p m
        → seen_within t.checked n.agent.dedupe_duration (get (mac_text m) n.agent.dedupe_cache)
          ≡ false
        → Fresh r.checked (mac_text m) n.remote.0
        → lookup (mac_text m) n.remote.0.mapper ≡ some vm
        → (n' : Node (Aggregator × World S)) × (process_packet call t timestamp addr p n ≡ done n')
          × (n'.remote.1.cluster
              ≡ (start_vm client vm.namespace vm.name (packet_counted n.remote.1)).0.cluster)
          × (n'.agent.dedupe_cache ≡ put (mac_text m) t.kept n.agent.dedupe_cache)
    unfolding process_packet should_process
    process_packet-wakes p m n vm announced unseen fresh found =
        let parsed = (parse_magic_packet_iff p (mac_text m)).1 (m, announced, refl) in
        let kept : Agent = record n.agent {
          dedupe_cache = put (mac_text m) t.kept n.agent.dedupe_cache;
        } in
        let event = event_of timestamp addr p (mac_text m) kept in
        let n' =
          after_report call t timestamp addr (record n { agent = kept }) (call event n.remote) in
        (
          n',
          rw (parsed, unseen) refl,
          started-cluster event n.remote.0 n.remote.1 vm found
              (report-fresh client r event n.remote.0 n.remote.1 fresh),
          refl,
        )
