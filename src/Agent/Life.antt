-- ===== src/Agent/Life.antt =====
-- internal/wol/agent.go: the life cycle of an agent. The calls on the network are a parameter, with
-- `S` for the state of the operating system; handles are numbers.
use kubevirt_wol.Common.{
  format_int, [], none, some, true, ok, err, codes, Text, Result, Option, List, ℕ, ℤ, pos,
  if◌then◌else◌, Assoc, ◌∷◌, ◌++◌, ◌*◌,
}
use kubevirt_wol.RawListener.{NetInterface, get_candidate_interfaces}
use kubevirt_wol.RawListener.Socket.{
  RawListener, RawListenerOptions, Sockets, Started, new_raw_listener_with_options,
}
use kubevirt_wol.RawListener.Socket
use kubevirt_wol.Agent.{Agent}

-- The calls of `Start` and `Stop` other than those of the raw listeners. `set_option` sets an option
-- to 1, `health_check` asks the operator, and `close` closes a connection or a file.
pub record Network (S : Type 0) : Type 0 where
  pub new_client : Text → S → S × Result Text ℕ
  pub health_check : ℕ → S → S × Result Text (Unit {0})
  pub listen_udp : ℤ → S → S × Result Text ℕ
  pub file : ℕ → S → S × Result Text ℕ
  pub set_option : ℕ → Text → S → S × Result Text (Unit {0})
  pub set_read_buffer : ℕ → ℕ → S → S × Result Text (Unit {0})
  pub close : ℕ → S → S × Result Text (Unit {0})
  pub interfaces : S → Result Text (List NetInterface)
  pub range : Assoc NetInterface → List NetInterface

-- The goroutines that `Start` adds to the wait group.
pub data Task : Type 0 where
  health_server listen cleanup_cache : Task

-- An agent with its connections, its raw listeners, and the goroutines that it has started, whether
-- they have ended or not.
pub record Life : Type 0 where
  pub agent : Agent
  pub conn : Option ℕ
  pub grpc_conn : Option ℕ
  pub raw_listeners : List RawListener
  pub spawned : List Task

abbrev pub new_life : Agent → Life
new_life a = record { agent = a; conn = none; grpc_conn = none; raw_listeners = []; spawned = [] }

abbrev pub listener_options : RawListenerOptions
listener_options = record { promiscuous = true; attach_bpf = true; recv_timeout_sec = pos 1 }

module _ {S : Type 0} (os : Sockets S) where
  -- The listeners that were started, the names of their interfaces, and the state.
  abbrev pub Launched : Type 0
  Launched = List RawListener × List Text × S

  abbrev pub launch : Text → Started os → (S → Launched) → Launched
  launch name (l, s, err e) rest = rest s
  launch name (l, s, ok _) rest = let (ls, names, s') = rest s in (l ∷ ls, name ∷ names, s')

  -- the loop over the interfaces
  unfoldable pub start_listeners : List NetInterface → S → Launched
  start_listeners [] s = ([], [], s)
  start_listeners (iface ∷ interfaces) s =
      launch iface.name
        (Socket.start os (new_raw_listener_with_options iface.name listener_options) s)
        (start_listeners interfaces)

  abbrev pub summary : List Text → Result Text (Unit {0})
  summary [] = err (codes "no WoL listeners started successfully")
  summary (name ∷ names) = ok tt

  abbrev pub of_launched : Launched → List RawListener × S × Result Text (Unit {0})
  of_launched (ls, names, s) = (ls, s, summary names)

  -- `old` is what `rawListeners` held before.
  unfoldable pub start_raw_listener :
      List RawListener
      → Result Text (List NetInterface)
      → S
      → List RawListener × S × Result Text (Unit {0})
  start_raw_listener old (err e) s =
      (old, s, err (codes "failed to detect network interfaces: " ++ e))
  start_raw_listener old (ok []) s =
      (old, s, err (codes "no suitable network interfaces found for WoL listening"))
  start_raw_listener old (ok (i ∷ is)) s = of_launched (start_listeners (i ∷ is) s)

  abbrev pub stop_next : RawListener × S → (S → List RawListener × S) → List RawListener × S
  stop_next (l, s) rest = let (ls, s') = rest s in (l ∷ ls, s')

  unfoldable pub stop_raw_listeners : List RawListener → S → List RawListener × S
  stop_raw_listeners [] s = ([], s)
  stop_raw_listeners (l ∷ ls) s = stop_next (Socket.stop os l s) (stop_raw_listeners ls)

  module _ (net : Network S) where
    -- behind SO_BROADCAST, which alone is an error; `defer` closes the file
    abbrev pub after_broadcast : ℕ → ℕ → S × Result Text (Unit {0}) → S × Result Text (Unit {0})
    after_broadcast conn fd (s, err e) = ((net.close fd s).0, err (codes "SO_BROADCAST: " ++ e))
    after_broadcast conn fd (s, ok _) =
        let s1 = (net.set_option fd (codes "IP_PKTINFO") s).0 in
        let s2 = (net.set_read_buffer conn (1024 * 64) s1).0 in ((net.close fd s2).0, ok tt)

    abbrev pub after_file : ℕ → S × Result Text ℕ → S × Result Text (Unit {0})
    after_file conn (s, err e) = (s, err e)
    after_file conn (s, ok fd) =
        let s1 = (net.set_option fd (codes "SO_REUSEADDR") s).0 in
        let s2 = (net.set_option fd (codes "SO_REUSEPORT") s1).0 in
        after_broadcast conn fd (net.set_option fd (codes "SO_BROADCAST") s2)

    unfoldable pub configure_socket : ℕ → S → S × Result Text (Unit {0})
    configure_socket conn s = after_file conn (net.file conn s)

    -- What an agent is at a point of `Start`, the state, and the error that `Start` returns.
    abbrev pub Begun : Type 0
    Begun = Life × S × Result Text (Unit {0})

    -- An error of the raw listeners is only logged.
    abbrev pub with_listeners : Life → List RawListener × S × Result Text (Unit {0}) → Life × S
    with_listeners l (ls, s, e) = (record l { raw_listeners = ls }, s)

    abbrev pub raw_wol : Life → S → Life × S
    raw_wol l s =
        if l.agent.enable_raw_wol
        then with_listeners l (
            start_raw_listener l.raw_listeners
              (get_candidate_interfaces net.range (net.interfaces s)) s)
        else (l, s)

    abbrev pub with_tasks : Life × S → Begun
    with_tasks (l, s) =
        (record l { spawned = health_server ∷ listen ∷ cleanup_cache ∷ [] }, s, ok tt)

    abbrev pub after_udp : Life → S × Result Text ℕ → Begun
    after_udp l (s, err e) = (
      l,
      s,
      err (codes "failed to listen on UDP port " ++ (format_int l.agent.port ++ (codes ": " ++ e))),
    )
    after_udp l (s, ok conn) =
        with_tasks (raw_wol (record l { conn = some conn }) (configure_socket conn s).0)

    abbrev pub after_client : Life → S × Result Text ℕ → Begun
    after_client l (s, err e) = (l, s, err (codes "failed to connect to operator: " ++ e))
    after_client l (s, ok client) =
        after_udp (record l { grpc_conn = some client })
          (net.listen_udp l.agent.port (net.health_check client s).0)

    -- `Start`, until it waits for the end of the context.
    unfoldable pub start : Life → S → Begun
    start l s = after_client l (net.new_client l.agent.operator_addr s)

    abbrev pub close_handle : Option ℕ → S → S
    close_handle none s = s
    close_handle (some h) s = (net.close h s).0

    unfoldable pub stop : Life → S → Life × S
    stop l s =
        let (ls, s') = stop_raw_listeners l.raw_listeners (close_handle l.conn s) in
        (record l { raw_listeners = ls }, close_handle l.grpc_conn s')

    abbrev pub finish : Begun → Begun
    finish (l, s, err e) = (l, s, err e)
    finish (l, s, ok _) = let (l', s') = stop l s in (l', s', ok tt)

    -- `Start` as a whole, where the context is cancelled at some time. It returns no error whether
    -- the goroutines end in five seconds or not.
    unfoldable pub run : Life → S → Begun
    run l s = finish (start l s)
