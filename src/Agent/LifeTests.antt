-- ===== src/Agent/LifeTests.antt =====
-- The life cycle of an agent in a small operating system: a list that tells which handles are open.
use kubevirt_wol.Common.{
  format_nat, format_int, replicate, delete, put, get, contains, if-cases, ltb_ℤ, has_prefix, refl,
  [], true, false, ok, err, arith, ap, codes, Text, Result, List, Bool, ℕ, pos, length, suc, zero,
  if◌then◌else◌, text_eq, map, ◌∷◌, ◌++◌, ◌==◌, ◌≡◌,
}
use kubevirt_wol.RawListener.{
  NetInterface, get_candidate_interfaces, candidates, is_candidate, dedupe, sort_by_name, insert,
  text_ltb,
}
use kubevirt_wol.RawListener.Socket.{Sockets, RawListener, new_raw_listener_with_options}
use kubevirt_wol.RawListener.Socket
use kubevirt_wol.RawListener.Opened.{OpensFds}
use kubevirt_wol.Agent.{Agent, Addr, new_agent}
use kubevirt_wol.Agent.Life.{
  Network, Life, new_life, start, stop, run, configure_socket, start_listeners, start_raw_listener,
  stop_raw_listeners,
}
use kubevirt_wol.Agent.Owned.{MayOpen, OpensHandles, run-releases}
use kubevirt_wol.Agent.HealthServer.{
  ServerEvent, opens, cancelled, closed, run_server, start_health_server,
}
use kubevirt_wol.Agent.Health.{IsUp, Fails, start-IsUp, start-err}
use kubevirt_wol.Agent.Udp.{
  Listening, Job, listen, new_listening, received, packet_of, packet_of-overwritten,
}

is_open : List Bool → ℕ → Bool
is_open [] j = false
is_open (b ∷ s) zero = b
is_open (b ∷ s) (suc j) = is_open s j

pub shut : ℕ → List Bool → List Bool
shut fd [] = []
shut zero (b ∷ s) = false ∷ s
shut (suc fd) (b ∷ s) = b ∷ shut fd s

is_open-length : (s : List Bool) → is_open s (length s) ≡ false
unfolding is_open
is_open-length [] = refl
is_open-length (b ∷ s) = is_open-length s

is_open-append :
    (s : List Bool) (j : ℕ)
    → is_open (s ++ true ∷ []) j ≡ (if length s == j then true else is_open s j)
unfolding is_open
is_open-append [] zero = refl
is_open-append [] (suc j) = ground arith
is_open-append (b ∷ s) zero = ground arith
is_open-append (b ∷ s) (suc j) = ground (arith, is_open-append s j)

is_open-shut :
    (fd : ℕ) (s : List Bool) (j : ℕ)
    → is_open (shut fd s) j ≡ (if fd == j then false else is_open s j)
unfolding is_open shut
is_open-shut fd [] j = ground arith
is_open-shut zero (b ∷ s) zero = refl
is_open-shut zero (b ∷ s) (suc j) = ground arith
is_open-shut (suc fd) (b ∷ s) zero = ground arith
is_open-shut (suc fd) (b ∷ s) (suc j) = ground (arith, is_open-shut fd s j)

abbrev opened : List Bool → List Bool × Result Text ℕ
opened s = (s ++ true ∷ [], ok (length s))

abbrev fine : List Bool → List Bool × Result Text (Unit {0})
fine s = (s, ok tt)

-- An interface with a name of five bytes cannot be bound to.
abbrev pub sockets : Sockets (List Bool)
sockets = record {
  interface_by_name = λ s name. ok (record { name = name; index = length name });
  socket = λ p s. opened s;
  bind = λ fd p i s. if i == 5 then (s, err (codes "busy")) else fine s;
  add_membership = λ fd i s. fine s;
  attach_filter = λ fd p s. fine s;
  set_receive_timeout = λ fd t s. fine s;
  shutdown = λ fd s. fine s;
  close = λ fd s. (shut fd s, ok tt);
}

abbrev interface : Text → Text → NetInterface
interface name mac = record {
  name = name;
  hardware_addr = mac;
  is_loopback = false;
  is_up = true;
  is_broadcast = true;
}

-- The operator does not answer, and SO_BROADCAST cannot be set. A port above 65535 is refused.
abbrev pub network : Network (List Bool)
network = record {
  new_client = λ addr s. opened s;
  health_check = λ client s. (s, err (codes "unavailable"));
  listen_udp =
      λ port s. if ltb_ℤ (pos 65535) port then (s, err (codes "invalid port")) else opened s;
  file = λ conn s. opened s;
  set_option = λ fd name s.
      if text_eq name (codes "SO_BROADCAST") then (s, err (codes "denied")) else fine s;
  set_read_buffer = λ conn n s. fine s;
  close = λ h s. (shut h s, ok tt);
  interfaces =
      λ s. ok (interface (codes "eth0") (codes "a") ∷ interface (codes "br-ex") (codes "b") ∷ []);
  range = map (λ (mac, i). i);
}

abbrev agent : Agent
agent = new_agent (pos 9) (codes "node1") (codes "operator:9090")

abbrev bad_agent : Agent
bad_agent = new_agent (pos 70000) (codes "node1") (codes "operator:9090")

started : Unit {0}
unfolding new_agent start stop run configure_socket start_raw_listener start_listeners
    stop_raw_listeners Socket.start Socket.stop new_raw_listener_with_options
    get_candidate_interfaces candidates is_candidate dedupe sort_by_name insert text_ltb text_eq
    has_prefix contains get put delete shut format_int format_nat
started = tt

sockets-OpensFds : OpensFds sockets is_open
sockets-OpensFds = record {
  opens = λ p fd s s' h.
      let e : s ++ true ∷ [] ≡ s' = ap (λ (o : List Bool × Result Text ℕ). o.0) h in
      let f : length s ≡ fd = ground arith in rw (← e, ← f) (is_open-length s, is_open-append s);
  refuses = λ p e s s' h. cc;
  closes = is_open-shut;
  binds = λ fd p i s j.
      if-cases (λ (o : List Bool × Result Text (Unit {0})). is_open o.0 j ≡ is_open s j) (i == 5)
        (λ _. refl) (λ _. refl);
  adds = λ fd i s j. refl;
  attaches = λ fd p s j. refl;
  waits = λ fd t s j. refl;
  shuts = λ fd s j. refl;
}

network-OpensHandles : OpensHandles is_open network
network-OpensHandles = record {
  connects = λ addr s. (is_open-length s, is_open-append s);
  listens = λ port s.
      if-cases (MayOpen is_open s) (ltb_ℤ (pos 65535) port) (λ _ j. refl)
        (λ _. (is_open-length s, is_open-append s));
  copies = λ conn s. (is_open-length s, is_open-append s);
  checks = λ client s j. refl;
  sets = λ fd name s j.
      if-cases (λ (o : List Bool × Result Text (Unit {0})). is_open o.0 j ≡ is_open s j)
        (text_eq name (codes "SO_BROADCAST")) (λ _. refl) (λ _. refl);
  buffers = λ conn n s j. refl;
  closes = is_open-shut;
}

abbrev ended : Life × List Bool × Result Text (Unit {0})
ended = run sockets network (new_life agent) []

-- One raw listener is started: the bridge cannot be bound to. Six handles were opened in all.
ended-state : ended.1 ≡ replicate 5 false
unfolding started
ended-state = refl

ended-fine : ended ≡ (ended.0, ended.1, ok tt)
unfolding started
ended-fine = refl

run-releases_example : is_open ended.1 3 ≡ is_open [] 3
run-releases_example =
    run-releases sockets-OpensFds network-OpensHandles agent [] ended.1 ended.0 ended-fine 3

-- the port of the health server is opened
abbrev opened_port : List ServerEvent
opened_port = opens (ok tt) ∷ []

start-IsUp_example :
    (l : Life) × (s' : List Bool) × (start sockets network (new_life agent) [] ≡ (l, s', ok tt))
    × IsUp opened_port l
unfolding new_agent
start-IsUp_example =
    start-IsUp sockets network agent [] (true ∷ []) (true ∷ true ∷ []) 0 1 opened_port refl refl

-- once the context is cancelled
shut_server : start_health_server (opens (ok tt) ∷ cancelled ∷ []) ≡ closed
unfolding start_health_server run_server
shut_server = refl

abbrev refused : Life × List Bool × Result Text (Unit {0})
refused = start sockets network (new_life bad_agent) []

refused-err :
    refused ≡ (refused.0, refused.1, err (codes "failed to listen on UDP port 70000: invalid port"))
unfolding started
refused-err = refl

start-err_example :
    Fails network bad_agent [] refused.0 refused.1
      (codes "failed to listen on UDP port 70000: invalid port")
start-err_example =
    start-err sockets network bad_agent [] refused.1 refused.0
      (codes "failed to listen on UDP port 70000: invalid port") refused-err

abbrev sender : Addr
sender = record { ip = codes "10.0.0.1"; port = 9 }

abbrev idle : Listening
idle = new_listening (record { packets = 0; vm_started = 0; errors = 0; managed_vms = 0 })

packet_of-overwritten_example :
    let after_one = listen (received (1 ∷ 2 ∷ []) sender ∷ []) idle in
    let after_two = listen (received (3 ∷ 4 ∷ 5 ∷ []) sender ∷ []) after_one in
    let job : Job = record { size = 2; addr = sender } in
    (after_one.jobs ≡ idle.jobs ++ job ∷ [])
    × (packet_of job after_one ≡ 1 ∷ 2 ∷ [])
    × (packet_of job after_two ≡ 3 ∷ 4 ∷ [])
packet_of-overwritten_example =
    packet_of-overwritten (1 ∷ 2 ∷ []) (3 ∷ 4 ∷ 5 ∷ []) sender sender idle (omega arith)
      (omega arith)
