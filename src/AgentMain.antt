-- ===== src/AgentMain.antt =====
-- cmd/agent/main.go: the flags of an agent. What `flag` and the environment give is an argument.
pub mod Ports
pub mod Exit
mod Tests
use kubevirt_wol.RawListener.Socket.{Sockets}
use kubevirt_wol.Agent.{new_agent}
use kubevirt_wol.Agent.Life.{Network, Life, new_life, run}
use kubevirt_wol.Common.{
  ℕ, List, [], ◌∷◌, ◌++◌, Bool, true, false, Option, none, some, ◌||◌, Text, codes, text_eq, ℤ, pos,
  ltb_ℤ, NumError, atoi, trim_space, split, if◌then◌else◌, Result, ok, err,
}

-- The errors of parsePorts: `invalid port` with the part and the error of Atoi, and `port … out of
-- range`.
pub data PortError : Type 0 where
  invalid_port : Text → NumError → PortError
  port_out_of_range : ℤ → PortError

module _ (rest : List ℤ → Result PortError (List ℤ)) (ports : List ℤ) where
  abbrev pub add_port : Text → Result NumError ℤ → Result PortError (List ℤ)
  add_port part (err e) = err (invalid_port part e)
  add_port part (ok port) =
      if ltb_ℤ port (pos 1) || ltb_ℤ (pos 65535) port
      then err (port_out_of_range port)
      else rest (ports ++ port ∷ [])

  -- one round of the loop, for a trimmed part; `rest` is the rounds after it
  abbrev pub add_part : Text → Result PortError (List ℤ)
  add_part [] = rest ports
  add_part (c ∷ part) = add_port (c ∷ part) (atoi (c ∷ part))

unfoldable pub parse_parts : List Text → List ℤ → Result PortError (List ℤ)
parse_parts [] ports = ok ports
parse_parts (part ∷ parts) ports = add_part (parse_parts parts) ports (trim_space part)

abbrev pub or_nine : Result PortError (List ℤ) → Result PortError (List ℤ)
or_nine (err e) = err e
or_nine (ok []) = ok (pos 9 ∷ [])
or_nine (ok (p ∷ ports)) = ok (p ∷ ports)

unfoldable pub parse_ports : Text → Result PortError (List ℤ)
parse_ports ports_str = or_nine (parse_parts (split b',' ports_str) [])

pub record Flags : Type 0 where
  pub node_name : Text
  pub operator_addr : Text
  pub ports_str : Text

-- What `main` hands to `NewAgent`; `none` where it exits with status 1 before.
pub record Settings : Type 0 where
  pub port : ℤ
  pub node_name : Text
  pub operator_addr : Text

-- ports[0]
abbrev pub first_of : Flags → Result PortError (List ℤ) → Option Settings
first_of flags (ok (p ∷ _)) =
    some (record { port = p; node_name = flags.node_name; operator_addr = flags.operator_addr })
first_of flags (ok []) = none
first_of flags (err e) = none

unfoldable pub settings : Flags → Option Settings
settings flags =
    if text_eq flags.node_name [] then none else first_of flags (parse_ports flags.ports_str)

module _ {S : Type 0} (os : Sockets S) (net : Network S) where
  -- the exit status of the program
  abbrev pub exit_status : Life × S × Result Text (Unit {0}) → S × ℕ
  exit_status (l, s, err e) = (s, 1)
  exit_status (l, s, ok _) = (s, 0)

  abbrev pub run_with : Option Settings → S → S × ℕ
  run_with none s = (s, 1)
  run_with (some c) s =
      exit_status (run os net (new_life (new_agent c.port c.node_name c.operator_addr)) s)

  -- `main`, until a signal cancels the context
  unfoldable pub agent_main : Flags → S → S × ℕ
  agent_main flags s = run_with (settings flags) s
