-- ===== src/AgentMain/Exit.antt =====
-- cmd/agent/main.go with internal/wol/agent.go: when the agent's command ends without an error.
use kubevirt_wol.Common.{
  text_eq_iff, refl, none, some, ok, err, arith, Text, Result, Option, ℕ, ℤ, ◌↔◌, ◌≡◌, [], inl, inr,
  Bool-cases, sym, List, text_eq, ◌∷◌, ◌⊎◌, ◌≢◌, ◌∙◌,
}
use kubevirt_wol.RawListener.Socket.{Sockets}
use kubevirt_wol.Agent.{new_agent, port_or_default}
use kubevirt_wol.Agent.Life.{
  Network, Life, Begun, new_life, run, start, finish, after_client, after_udp,
}
use mathlib.Core.Path.{subst}
use kubevirt_wol.Agent.Health.{start-IsUp}
use kubevirt_wol.AgentMain.{
  Flags, Settings, PortError, parse_ports, settings, first_of, exit_status, run_with, agent_main,
}
use kubevirt_wol.AgentMain.Ports.{IsPort, parse_ports-IsPort, port_or_default-IsPort}

module _ {S : Type 0} (os : Sockets S) (net : Network S) where
  -- The client for the operator can be made, and then the port can be opened.
  abbrev pub Opens : Text → ℤ → S → Type 0
  Opens addr port s =
      (client : ℕ) × (s1 : S) × (conn : ℕ) × (s2 : S) × (net.new_client addr s ≡ (s1, ok client))
      × (net.listen_udp port (net.health_check client s1).0 ≡ (s2, ok conn))

  abbrev life_of : Settings → Life
  life_of c = new_life (new_agent c.port c.node_name c.operator_addr)

  zero-finish :
      (out : Begun os net) → (exit_status os net (finish os net out)).1 ≡ 0 → out.2 ≡ ok tt
  zero-finish (l, s, err e) h = absurd (omega arith)
  zero-finish (l, s, ok u) h = refl

  after_udp-ok :
      (l : Life) (out : S × Result Text ℕ)
      → (after_udp os net l out).2 ≡ ok tt
      → (conn : ℕ) × (s : S) × (out ≡ (s, ok conn))
  after_udp-ok l (s, ok conn) h = (conn, s, refl)
  after_udp-ok l (s, err e) h = cc

  after_client-ok :
      (l : Life) (s : S) (out : S × Result Text ℕ)
      → net.new_client l.agent.operator_addr s ≡ out
      → (after_client os net l out).2 ≡ ok tt
      → Opens l.agent.operator_addr l.agent.port s
  after_client-ok l s (s1, ok client) e h =
      let (conn, s2, opened) = after_udp-ok (record l { grpc_conn = some client }) _ h in
      (client, s1, conn, s2, e, opened)
  after_client-ok l s (s1, err x) e h = cc

  Opens-zero :
      (c : Settings) (s : S)
      → Opens c.operator_addr (port_or_default c.port) s
      → (exit_status os net (run os net (life_of c) s)).1 ≡ 0
  unfolding run new_agent
  Opens-zero c s (client, s1, conn, s2, made, opened) =
      let (l, s', begun, up) =
        start-IsUp os net (new_agent c.port c.node_name c.operator_addr) s s1 s2 client conn [] made
          opened in
      rw begun refl

  -- A node name is given, the ports can be parsed, and the agent can open what it needs, with the
  -- first of the ports.
  abbrev pub Starts : Flags → S → Type 0
  Starts flags s =
      (flags.node_name ≢ [])
      × (p : ℤ) × (ports : List ℤ) × (parse_ports flags.ports_str ≡ ok (p ∷ ports))
      × IsPort p
      × Opens flags.operator_addr p s

  run_with-zero :
      (c : Settings) (s : S)
      → ((run_with os net (some c) s).1 ≡ 0) ↔ Opens c.operator_addr (port_or_default c.port) s
  unfolding run start new_agent
  run_with-zero c s = (λ h. after_client-ok (life_of c) s _ refl (zero-finish _ h), Opens-zero c s)

  settings-zero :
      (flags : Flags) (s : S) (r : Result PortError (List ℤ))
      → parse_ports flags.ports_str ≡ r
      → ((run_with os net (first_of flags r) s).1 ≡ 0) ↔ (
          (p : ℤ) × (ports : List ℤ) × (parse_ports flags.ports_str ≡ ok (p ∷ ports))
          × IsPort p
          × Opens flags.operator_addr p s)
  settings-zero flags s (err e) parsed =
      (λ h. absurd (omega arith), λ (p, ports, also, p_port, opens). cc)
  settings-zero flags s (ok []) parsed =
      (λ h. absurd (omega arith), λ (p, ports, also, p_port, opens). cc)
  settings-zero flags s (ok (q ∷ qs)) parsed =
      let c : Settings = record {
        port = q;
        node_name = flags.node_name;
        operator_addr = flags.operator_addr;
      } in
      let is_port : IsPort q = (parse_ports-IsPort flags.ports_str (q ∷ qs) parsed).0 in
      let of_status = run_with-zero c s in
      let kept = port_or_default-IsPort q is_port in
      (
        λ h. (
          q,
          qs,
          parsed,
          is_port,
          subst (λ x. Opens flags.operator_addr x s) kept (of_status.0 h),
        ),
        λ (p, ports, also, p_port, opens).
            let same : p ≡ q = cc in
            of_status.1 (subst (λ x. Opens flags.operator_addr x s) (same ∙ sym kept) opens),
      )

  status :
      (o : Option Settings) (s : S) → ((run_with os net o s).1 ≡ 0) ⊎ ((run_with os net o s).1 ≡ 1)
  unfolding run start
  status none s = inr refl
  status (some c) s = of_finish (start os net (life_of c) s)
    where
      of_finish :
          (out : Begun os net)
          → ((exit_status os net (finish os net out)).1 ≡ 0)
            ⊎ ((exit_status os net (finish os net out)).1 ≡ 1)
      of_finish (l, s, err e) = inr refl
      of_finish (l, s, ok u) = inl refl

  -- The status with which the command ends is 0 or 1. It is 0 exactly when a node name is given, the
  -- ports can be parsed, and the client for the operator can be made and then the UDP port, the first
  -- of the ports, which is from 1 to 65535, can be opened.
  pub agent_main-zero_iff :
      (flags : Flags) (s : S)
      → (((agent_main os net flags s).1 ≡ 0) ↔ Starts flags s)
        × (((agent_main os net flags s).1 ≡ 0) ⊎ ((agent_main os net flags s).1 ≡ 1))
  unfolding agent_main settings
  agent_main-zero_iff flags s = (
    elim (Bool-cases (text_eq flags.node_name [])) [
      | inl unnamed ↦
          let e = (text_eq_iff flags.node_name []).0 unnamed in
          (λ h. absurd (ground (arith, unnamed)), λ h. absurd (h.0 e))
      | inr isnamed ↦
          let of_ports = settings-zero flags s (parse_ports flags.ports_str) refl in
          (
            λ h.
                let (p, ports, parsed, is_port, opens) = of_ports.0 (ground (arith, isnamed)) in
                (
                  λ e. ground (arith, text_eq_iff flags.node_name []),
                  p,
                  ports,
                  parsed,
                  is_port,
                  opens,
                ),
            λ (named, p, ports, parsed, is_port, opens).
                rw isnamed (of_ports.1 (p, ports, parsed, is_port, opens)),
          )
    ],
    status (settings flags) s,
  )
