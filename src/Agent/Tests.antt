-- ===== src/Agent/Tests.antt =====
-- An agent at concrete packets.
use kubevirt_wol.Common.{
  lower, is_space, trim_right, trim_left, trim_space, to_lower, ℕ, ◌*◌, ◌-◌, ◌≤◌, ◌≡◌, refl, [],
  ◌∷◌, some, true, codes, arith, get, put, done, text_eq, pos, err, Text, Result,
}
use kubevirt_wol.Cluster.{Vm, count_error}
use kubevirt_wol.VmStarter.{World, start_vm}
use kubevirt_wol.Packet.{parse_magic_packet}
use kubevirt_wol.Packet.Spec.{mac_text, magic_packet, repeat}
use kubevirt_wol.Mapper.{lookup, normalize_mac_address}
use kubevirt_wol.Aggregator.{Aggregator, WolEvent, WolEventResponse}
use kubevirt_wol.Aggregator.Responses.{packet_counted}
use kubevirt_wol.Agent.{
  Agent, Clock, Node, new_agent, broadcast_addr, process_packet, rebuild_packet,
}
use kubevirt_wol.Agent.Window.{reports, reports_lem}
use kubevirt_wol.Agent.Rebuild.{parse-rebuild_packet}
use kubevirt_wol.Agent.Wake.{call, process_packet-wakes}
use kubevirt_wol.Agent.Lost.{Arrival, process_packets, lost-silences}
use kubevirt_wol.Examples.{
  sample_address, sample_mac, sample_vm, sample_info, one_vm, sample_world, sample_aggregator,
  readings_at, no_metrics,
}

abbrev agent : Agent
agent = new_agent (pos 9) (codes "node") (codes "addr")

abbrev clock : ℕ → Clock
clock n = record { checked = n; kept = n }

abbrev kept_agent : Agent
kept_agent = record {
  port = pos 9;
  node_name = codes "node";
  operator_addr = codes "addr";
  dedupe_cache = (sample_mac, 1) ∷ [];
  dedupe_duration = 5;
  enable_raw_wol = true;
}

reports_lem_example :
    reports (clock 3 ∷ clock 7 ∷ clock 9 ∷ []) sample_mac kept_agent * kept_agent.dedupe_duration
    ≤ 20 - 1
unfolding get text_eq
reports_lem_example =
    reports_lem (clock 3 ∷ clock 7 ∷ clock 9 ∷ []) sample_mac kept_agent 1 20 refl (
      omega arith,
      omega arith,
      omega arith,
      (omega arith, omega arith, omega arith, (omega arith, omega arith, omega arith, tt)),
    )

parse-rebuild_packet_example :
    (rebuild_packet (mac_text sample_address) ≡ magic_packet sample_address)
    × (parse_magic_packet (rebuild_packet (mac_text sample_address))
        ≡ done (some (mac_text sample_address)))
parse-rebuild_packet_example =
    parse-rebuild_packet sample_address refl
      (omega arith, (omega arith, (omega arith, (omega arith, (omega arith, (omega arith, tt))))))

abbrev node : Node (Aggregator × World Vm)
node = record {
  agent = agent;
  metrics = no_metrics;
  remote = (sample_aggregator, sample_world sample_vm);
}

process_packet-wakes_example :
    (n' : Node (Aggregator × World Vm)) × (process_packet
        (call one_vm (readings_at 2))
        (clock 1)
        1
        broadcast_addr
        (magic_packet sample_address)
        node
      ≡ done n')
    × (n'.remote.1.cluster
        ≡ (start_vm one_vm
            (codes "ns")
            (codes "vm")
            (packet_counted (sample_world sample_vm))).0.cluster)
    × (n'.agent.dedupe_cache ≡ put (mac_text sample_address) 1 agent.dedupe_cache)
unfolding new_agent get lookup normalize_mac_address magic_packet repeat mac_text text_eq to_lower
    trim_space trim_left trim_right is_space lower
process_packet-wakes_example =
    process_packet-wakes one_vm (readings_at 2) (clock 1) 1 broadcast_addr
      (magic_packet sample_address) sample_address node sample_info (refl, ([], refl)) refl
      (λ entry h. cc) refl

abbrev silent : Node ℕ
silent = record { agent = agent; metrics = no_metrics; remote = 7 }

abbrev down : WolEvent → ℕ → ℕ × Result Text WolEventResponse
down event w = (w, err (codes "down"))

abbrev arrival : ℕ → Arrival
arrival n = record {
  clock = clock n;
  timestamp = n;
  addr = broadcast_addr;
  packet = magic_packet sample_address;
}

lost-silences_example :
    (n' : Node ℕ) × (process_packets down (arrival 1 ∷ arrival 2 ∷ arrival 1999999999 ∷ []) silent
      ≡ done n')
    × (n'.remote ≡ 7)
    × (n'.metrics ≡ count_error no_metrics)
unfolding new_agent get magic_packet repeat
lost-silences_example =
    lost-silences down (arrival 1) (arrival 2 ∷ arrival 1999999999 ∷ []) sample_address silent 7
      (codes "down") (refl, ([], refl)) refl (λ event same. refl)
      (((refl, ([], refl)), omega arith), (((refl, ([], refl)), omega arith), tt))
