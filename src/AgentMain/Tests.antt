-- ===== src/AgentMain/Tests.antt =====
-- The flags of an agent at concrete values.
use kubevirt_wol.Common.{
  ◌≡◌, refl, [], ◌∷◌, codes, arith, pos, ok, err, atoi, parse_digits, split, trim_space, trim_left,
  trim_right, is_space, invalid_syntax, out_of_range, some, text_eq, ◌↔◌, ◌⊎◌,
}
use kubevirt_wol.Agents.{ports_text}
use kubevirt_wol.AgentMain.{
  Flags, settings, agent_main, parse_ports, parse_parts, invalid_port, port_out_of_range,
}
use kubevirt_wol.Agent.LifeTests.{sockets, network}
use kubevirt_wol.AgentMain.Exit.{Starts, agent_main-zero_iff}
use kubevirt_wol.AgentMain.Ports.{parse_ports-ports_text}

program : Unit {0}
unfolding atoi parse_digits split trim_space trim_left trim_right is_space parse_ports parse_parts
program = tt

parses : parse_ports (codes " 9, ,+7,") ≡ ok (pos 9 ∷ pos 7 ∷ [])
unfolding program
parses = refl

refuses_text : parse_ports (codes "9,x") ≡ err (invalid_port (codes "x") invalid_syntax)
unfolding program
refuses_text = refl

refuses_zero : parse_ports (codes "0") ≡ err (port_out_of_range (pos 0))
unfolding program
refuses_zero = refl

refuses_large :
    parse_ports (codes "9223372036854775808")
    ≡ err (invalid_port (codes "9223372036854775808") out_of_range)
unfolding program
refuses_large = refl

parse_ports-ports_text_example :
    parse_ports (ports_text (pos 9 ∷ pos 65535 ∷ [])) ≡ ok (pos 9 ∷ pos 65535 ∷ [])
parse_ports-ports_text_example =
    parse_ports-ports_text (pos 9 ∷ pos 65535 ∷ [])
      ((omega arith, omega arith), ((omega arith, omega arith), tt))

abbrev given : Flags
given = record {
  node_name = codes "node1";
  operator_addr = codes "operator:9090";
  ports_str = codes "9,7";
}

agent_main-zero_iff_example :
    (((agent_main sockets network given []).1 ≡ 0) ↔ Starts sockets network given [])
    × (((agent_main sockets network given []).1 ≡ 0)
        ⊎ ((agent_main sockets network given []).1 ≡ 1))
agent_main-zero_iff_example = agent_main-zero_iff sockets network given []

takes_first_port :
    settings given
    ≡ some
        (record { port = pos 9; node_name = codes "node1"; operator_addr = codes "operator:9090" })
unfolding program settings text_eq
takes_first_port = refl
