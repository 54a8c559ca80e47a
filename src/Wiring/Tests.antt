-- ===== src/Wiring/Tests.antt =====
-- A mapping of a WolConfig, from its refresh to a packet.
use kubevirt_wol.Common.{
  lower, is_space, trim_right, trim_left, trim_space, to_lower, get, refl, [], none, ok, done,
  codes, ℕ, pos, text_eq, ◌∷◌, ◌≡◌,
}
use kubevirt_wol.Packet.Spec.{mac_text, magic_packet, repeat}
use kubevirt_wol.Mapper.{normalize_mac_address}
use kubevirt_wol.Mapper.Lookup.{last_explicit, last_owner, owns, has_mac}
use kubevirt_wol.VmStarter.{World, start_vm}
use kubevirt_wol.Aggregator.{Aggregator}
use kubevirt_wol.Aggregator.Responses.{packet_counted}
use kubevirt_wol.Agents.{Operator}
use kubevirt_wol.Controller.{State, refresh_all_configs, add_namespaces}
use kubevirt_wol.Controller.Merge.{explicit_of, namespaces_of}
use kubevirt_wol.Agent.{Node, Clock, broadcast_addr, new_agent, process_packet}
use kubevirt_wol.Agent.Wake.{call}
use kubevirt_wol.Wiring.Explicit.{sharing, mapped_packet-wakes}
use kubevirt_wol.Wiring.Discovered.{discovered_packet-wakes}
use kubevirt_wol.Examples.{
  sample_address, sample_config, sample_vm, sample_info, sample_mapper, no_metrics,
  sample_aggregator, readings_at,
}
use kubevirt_wol.Api.{explicit, all}
use kubevirt_wol.Store.{Store, store_kube, store_vms, keys}

abbrev op : Operator
op = record { agent_image = codes "agent:1"; operator_namespace = [] }

abbrev store : Store
store = record { vm = sample_vm; config = sample_config explicit; daemon_set = none }

abbrev state : State Store
state = record {
  cluster = store;
  mapper = record (sample_mapper explicit) { mapping = [] };
  metrics = no_metrics;
}

abbrev world : World Store
world = record { cluster = store; metrics = no_metrics; restores = [] }

abbrev node : Node (Aggregator × World Store)
node = record {
  agent = new_agent (pos 9) (codes "node") (codes "operator:9090");
  metrics = no_metrics;
  remote = (record sample_aggregator { mapper = state.mapper }, world);
}

abbrev clock : Clock
clock = record { checked = 1; kept = 1 }

mapped_packet-wakes_example :
    let refreshed = refresh_all_configs store_kube store_vms op keys 3 state in
    (count : ℕ) × (n' : Node (Aggregator × World Store)) × (refreshed.1 ≡ ok count)
    × (process_packet
          (call store_vms (readings_at 2))
          clock
          1
          broadcast_addr
          (magic_packet sample_address)
          (sharing refreshed.0.mapper node)
        ≡ done n')
    × (n'.remote.1.cluster
        ≡ (start_vm store_vms (codes "ns") (codes "vm") (packet_counted world)).0.cluster)
unfolding new_agent get last_explicit normalize_mac_address magic_packet repeat mac_text text_eq
    to_lower trim_space trim_left trim_right is_space lower explicit_of
mapped_packet-wakes_example =
    mapped_packet-wakes store_kube store_vms op keys 3 state (sample_config explicit ∷ []) refl
      clock (readings_at 2) 1 broadcast_addr (magic_packet sample_address) sample_address node
      sample_info refl (refl, ([], refl)) refl (λ entry h. cc)

abbrev all_store : Store
all_store = record { vm = sample_vm; config = sample_config all; daemon_set = none }

abbrev all_state : State Store
all_state = record { cluster = all_store; mapper = state.mapper; metrics = no_metrics }

abbrev all_world : World Store
all_world = record { cluster = all_store; metrics = no_metrics; restores = [] }

abbrev all_node : Node (Aggregator × World Store)
all_node = record node { remote = (node.remote.0, all_world) }

discovered_packet-wakes_example :
    let refreshed = refresh_all_configs store_kube store_vms op keys 3 all_state in
    (count : ℕ) × (n' : Node (Aggregator × World Store)) × (refreshed.1 ≡ ok count)
    × (process_packet
          (call store_vms (readings_at 2))
          clock
          1
          broadcast_addr
          (magic_packet sample_address)
          (sharing refreshed.0.mapper all_node)
        ≡ done n')
    × (n'.remote.1.cluster
        ≡ (start_vm store_vms (codes "ns") (codes "vm") (packet_counted all_world)).0.cluster)
unfolding new_agent get last_owner normalize_mac_address magic_packet repeat mac_text text_eq
    to_lower trim_space trim_left trim_right is_space lower explicit_of namespaces_of add_namespaces
    owns has_mac
discovered_packet-wakes_example =
    discovered_packet-wakes store_kube store_vms op keys 3 all_state (sample_config all ∷ []) refl
      refl {found = sample_vm ∷ []} refl clock (readings_at 2) 1 broadcast_addr
      (magic_packet sample_address) sample_address all_node sample_info refl (refl, ([], refl)) refl
      (λ entry h. cc)
