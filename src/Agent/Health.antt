-- ===== src/Agent/Health.antt =====
-- internal/wol/agent.go: the endpoints of the health server, and what they answer while an agent runs.
use kubevirt_wol.Common.{
  format_int, format_nat, is_some, if-cases, refl, [], some, ok, err, codes, Text, ℕ, not, length,
  if◌then◌else◌, ◌∷◌, ◌++◌, ◌≡◌, ap, sym, Result, ◌≢◌, none, List,
}
use kubevirt_wol.RawListener.Socket.{Sockets}
use kubevirt_wol.Agent.{Agent}
use kubevirt_wol.Agent.HealthServer.{
  Answer, ServerEvent, start_health_server, respond, serves, respond-serves,
}
use kubevirt_wol.Agent.Life.{
  Network, Life, health_server, listen, cleanup_cache, new_life, start, after_udp, raw_wol,
  after_client, configure_socket, Begun,
}

abbrev pub unavailable : Text → Answer
unavailable body = record { status = 503; body = body }

unfoldable pub healthz : Life → Answer
healthz l =
    if not (is_some l.grpc_conn)
    then unavailable (codes "gRPC connection not established")
    else record { status = 200; body = codes "ok" }

unfoldable pub readyz : Life → Answer
readyz l =
    if not (is_some l.conn)
    then unavailable (codes "UDP listener not active")
    else if not (is_some l.grpc_conn)
    then unavailable (codes "gRPC connection not established")
    else record { status = 200; body = codes "ready" }

-- The text of `/metrics`: 34 is the quotation mark, and 10 ends a line.
abbrev pub quoted : Text → Text
quoted t = 34 ∷ t ++ 34 ∷ []

unfoldable pub metrics_text : Life → Text
metrics_text l =
    let a = l.agent in
    codes "# HELP wol_agent_dedupe_cache_size Number of entries in deduplication cache"
    ++ (10 ∷ codes "# TYPE wol_agent_dedupe_cache_size gauge"
        ++ (10 ∷ codes "wol_agent_dedupe_cache_size{node="
            ++ (quoted a.node_name
                ++ (codes "} "
                    ++ (format_nat (length a.dedupe_cache)
                        ++ (10 ∷ codes "# HELP wol_agent_info Agent information"
                            ++ (10 ∷ codes "# TYPE wol_agent_info gauge"
                                ++ (10 ∷ codes "wol_agent_info{node="
                                    ++ (quoted a.node_name
                                        ++ (codes ",port="
                                            ++ (quoted (format_int a.port)
                                                ++ (codes ",operator="
                                                    ++ (quoted a.operator_addr
                                                        ++ (codes "} 1" ++ 10 ∷ []))))))))))))))

ok-ne-err : {e : Text} → let r : Result Text (Unit {0}) = ok tt in r ≢ err e
ok-ne-err h = cc

err-inj : {d e : Text} → (let r : Result Text (Unit {0}) = err d in r) ≡ err e → e ≡ d
err-inj h = cc

abbrev pub fine : Text → Answer
fine body = record { status = 200; body = body }

-- The goroutines were started; and after these events of the health server, its endpoints say that
-- all is well where it answers, and say nothing where it does not.
pub record IsUp (es : List ServerEvent) (l : Life) : Type 0 where
  pub spawned : l.spawned ≡ health_server ∷ listen ∷ cleanup_cache ∷ []
  pub healthy :
      respond healthz (start_health_server es) l
      ≡ (if serves es then some (fine (codes "ok")) else none)
  pub ready :
      respond readyz (start_health_server es) l
      ≡ (if serves es then some (fine (codes "ready")) else none)

IsUp-both :
    (es : List ServerEvent) (l : Life) (client conn : ℕ)
    → l.spawned ≡ health_server ∷ listen ∷ cleanup_cache ∷ []
    → l.grpc_conn ≡ some client
    → l.conn ≡ some conn
    → IsUp es l
unfolding healthz readyz
IsUp-both es l client conn t g c =
    let is_healthy : healthz l ≡ fine (codes "ok") = rw g refl in
    let is_ready : readyz l ≡ fine (codes "ready") = rw (g, c) refl in
    record {
      spawned = t;
      healthy = rw (respond-serves healthz es l, is_healthy) refl;
      ready = rw (respond-serves readyz es l, is_ready) refl;
    }

module _ {S : Type 0} (net : Network S) where
  -- How `Start` fails: the client cannot be made, or it was made and the port cannot be opened. The
  -- agent holds what it held before and the client, if there is one; and the last call on the
  -- network is the one that failed.
  pub data Fails (a : Agent) (s : S) (l : Life) (s' : S) (e : Text) : Type 0 where
    no_client :
        (x : Text)
        → net.new_client a.operator_addr s ≡ (s', err x)
        → l ≡ new_life a
        → e ≡ codes "failed to connect to operator: " ++ x
        → Fails a s l s' e
    no_port :
        (s1 : S) (client : ℕ) (x : Text)
        → net.new_client a.operator_addr s ≡ (s1, ok client)
        → net.listen_udp a.port (net.health_check client s1).0 ≡ (s', err x)
        → l ≡ record (new_life a) { grpc_conn = some client }
        → e ≡ codes "failed to listen on UDP port " ++ (format_int a.port ++ (codes ": " ++ x))
        → Fails a s l s' e

module _ {S : Type 0} (os : Sockets S) (net : Network S) where
  raw_wol-keeps :
      (l : Life) (s : S)
      → ((raw_wol os net l s).0.conn ≡ l.conn) × ((raw_wol os net l s).0.grpc_conn ≡ l.grpc_conn)
  raw_wol-keeps l s =
      if-cases (λ (out : Life × S). (out.0.conn ≡ l.conn) × (out.0.grpc_conn ≡ l.grpc_conn))
        l.agent.enable_raw_wol (λ _. (refl, refl)) (λ _. (refl, refl))

  -- Where the client can be made and the port can be opened, `Start` goes on, whatever becomes of the
  -- health check, the socket options and the raw listeners: its goroutines are started; and from
  -- when the port of the health server was opened, if it could be, until the context is cancelled,
  -- the server answers that the agent is healthy and ready, whether the operator was reached or
  -- not. Before, and afterwards, it answers nothing.
  pub start-IsUp :
      (a : Agent) (s s1 s2 : S) (client conn : ℕ) (es : List ServerEvent)
      → net.new_client a.operator_addr s ≡ (s1, ok client)
      → net.listen_udp a.port (net.health_check client s1).0 ≡ (s2, ok conn)
      → (l : Life) × (s' : S) × (start os net (new_life a) s ≡ (l, s', ok tt)) × IsUp es l
  unfolding start
  start-IsUp a s s1 s2 client conn es made opened =
      let with_conn = record (new_life a) { grpc_conn = some client; conn = some conn } in
      let configured = (configure_socket os net conn s2).0 in
      let (l, s') = raw_wol os net with_conn configured in
      let (same_conn, same_client) = raw_wol-keeps with_conn configured in
      (
        record l { spawned = health_server ∷ listen ∷ cleanup_cache ∷ [] },
        s',
        rw (made, opened) refl,
        IsUp-both es _ client conn refl same_client same_conn,
      )

  after_udp-err :
      (l : Life) (out : S × Result Text ℕ) (l' : Life) (s' : S) (e : Text)
      → after_udp os net l out ≡ (l', s', err e)
      → (x : Text) × (out ≡ (s', err x))
        × (l' ≡ l)
        × (e
            ≡ codes "failed to listen on UDP port "
              ++ (format_int l.agent.port ++ (codes ": " ++ x)))
  after_udp-err l (s, ok conn) l' s' e h = absurd (ok-ne-err (ap (λ (b : Begun os net). b.2) h))
  after_udp-err l (s, err x) l' s' e h =
      let same : s ≡ s' = ap (λ (b : Begun os net). b.1) h in
      (
        x,
        rw same refl,
        sym (ap (λ (b : Begun os net). b.0) h),
        err-inj (ap (λ (b : Begun os net). b.2) h),
      )

  after_client-err :
      (a : Agent) (s : S) (out : S × Result Text ℕ) (l' : Life) (s' : S) (e : Text)
      → net.new_client a.operator_addr s ≡ out
      → after_client os net (new_life a) out ≡ (l', s', err e)
      → Fails net a s l' s' e
  after_client-err a s (s1, ok client) l' s' e made h =
      let (x, refused, kept, said) =
        after_udp-err (record (new_life a) { grpc_conn = some client }) _ l' s' e h in
      no_port s1 client x made refused kept said
  after_client-err a s (s1, err x) l' s' e made h =
      let same : s1 ≡ s' = ap (λ (b : Begun os net). b.1) h in
      no_client x (rw (← same) made) (sym (ap (λ (b : Begun os net). b.0) h))
        (err-inj (ap (λ (b : Begun os net). b.2) h))

  -- Where `Start` returns an error, the client could not be made, and the agent is as it was; or it
  -- could and the UDP port could not be opened, and the agent keeps the client, which nothing has
  -- closed: opening the port was the last call on the network. No goroutine and no raw listener was
  -- started, there is no UDP connection, and the error tells which call failed.
  pub start-err :
      (a : Agent) (s s' : S) (l : Life) (e : Text)
      → start os net (new_life a) s ≡ (l, s', err e)
      → Fails net a s l s' e
  unfolding start
  start-err a s s' l e h = after_client-err a s (net.new_client a.operator_addr s) l s' e refl h
