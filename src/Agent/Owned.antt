-- ===== src/Agent/Owned.antt =====
-- internal/wol/agent.go: what an agent has open between `Start` and `Stop`, and that `Stop` closes it.
use kubevirt_wol.Common.{
  if-cases, [], none, some, true, false, ok, err, arith, Text, Result, Option, List, Bool, ℕ, ℤ,
  All, if◌then◌else◌, ◌==◌, ◌||◌, ◌≡◌, ◌∙◌, refl, codes, ◌∷◌, ◌*◌, ap,
}
use kubevirt_wol.RawListener.{NetInterface}
use kubevirt_wol.RawListener.Socket.{Sockets}
use kubevirt_wol.RawListener.Opened.{OpensFds}
use kubevirt_wol.Agent.{Agent}
use kubevirt_wol.Agent.Life.{
  new_life, Network, Life, Begun, start_listeners, start_raw_listener, stop_raw_listeners,
  configure_socket, after_broadcast, after_file, with_listeners, raw_wol, after_udp, after_client,
  start, close_handle, stop, finish, run,
}
use kubevirt_wol.Agent.Released.{
  Running, holds, start_listeners-Launches, stop_raw_listeners-closes,
}

module _ {S : Type 0} (is_open : S → ℕ → Bool) where
  abbrev pub Same : S → S → Type 0
  Same s s' = (j : ℕ) → is_open s' j ≡ is_open s j

  -- How a call that opens a connection or a file ends.
  abbrev pub MayOpen : S → S × Result Text ℕ → Type 0
  MayOpen s (s', ok h) =
      (is_open s h ≡ false) × ((j : ℕ) → is_open s' j ≡ (if h == j then true else is_open s j))
  MayOpen s (s', err e) = Same s s'

  -- What the calls of the network are documented to do with what is open.
  pub record OpensHandles (net : Network S) : Type 0 where
    pub connects : (addr : Text) (s : S) → MayOpen s (net.new_client addr s)
    pub listens : (port : ℤ) (s : S) → MayOpen s (net.listen_udp port s)
    pub copies : (conn : ℕ) (s : S) → MayOpen s (net.file conn s)
    pub checks : (client : ℕ) (s : S) → Same s (net.health_check client s).0
    pub sets : (fd : ℕ) (name : Text) (s : S) → Same s (net.set_option fd name s).0
    pub buffers : (conn n : ℕ) (s : S) → Same s (net.set_read_buffer conn n s).0
    pub closes :
        (h : ℕ) (s : S) (j : ℕ)
        → is_open (net.close h s).0 j ≡ (if h == j then false else is_open s j)

abbrev pub is_handle : ℕ → Option ℕ → Bool
is_handle j none = false
is_handle j (some h) = h == j

-- The connections and sockets of an agent.
abbrev pub owns : ℕ → Life → Bool
owns j l = holds j l.raw_listeners || (is_handle j l.conn || is_handle j l.grpc_conn)

module _ {S : Type 0} {os : Sockets S} {net : Network S} {is_open : S → ℕ → Bool}
    (laws : OpensFds os is_open) (calls : OpensHandles is_open net) where
  open calls use {connects, listens, copies, checks, sets, buffers, closes}

  -- Beside what was open at first, what the agent has is open, and was not.
  pub record Owns (s : S) (l : Life) (s' : S) : Type 0 where
    pub running : All Running l.raw_listeners
    pub opened : (j : ℕ) → is_open s' j ≡ (owns j l || is_open s j)
    pub fresh : (j : ℕ) → owns j l ≡ true → is_open s j ≡ false

  Owns-nothing :
      {s : S} (l : Life) → l.conn ≡ none → l.grpc_conn ≡ none → l.raw_listeners ≡ [] → Owns s l s
  Owns-nothing l no_conn no_grpc no_raw = record {
    running = rw no_raw tt;
    opened = λ j. rw (no_conn, no_grpc, no_raw) refl;
    fresh = λ j e. ground (arith, no_conn, no_grpc, no_raw);
  }

  Owns-Same : {s s' s'' : S} (l : Life) → Owns s l s' → Same is_open s' s'' → Owns s l s''
  Owns-Same l o same = record {
    running = o.running;
    opened = λ j. same j ∙ o.opened j;
    fresh = o.fresh;
  }

  Owns-client :
      {s s' s'' : S} (l : Life) (h : ℕ)
      → l.grpc_conn ≡ none
      → Owns s l s'
      → MayOpen is_open s' (s'', ok h)
      → Owns s (record l { grpc_conn = some h }) s''
  Owns-client l h before o (unused, added) = record {
    running = o.running;
    opened = λ j. ground (arith, o.opened j, added j, before);
    fresh = λ j e. ground (arith, o.fresh j, o.opened j, o.opened h, before, unused);
  }

  Owns-conn :
      {s s' s'' : S} (l : Life) (h : ℕ)
      → l.conn ≡ none
      → Owns s l s'
      → MayOpen is_open s' (s'', ok h)
      → Owns s (record l { conn = some h }) s''
  Owns-conn l h before o (unused, added) = record {
    running = o.running;
    opened = λ j. ground (arith, o.opened j, added j, before);
    fresh = λ j e. ground (arith, o.fresh j, o.opened j, o.opened h, before, unused);
  }

  Owns-listeners :
      {s s' : S} (l : Life) (interfaces : List NetInterface)
      → l.raw_listeners ≡ []
      → Owns s l s'
      → Owns s
          (record l { raw_listeners = (start_listeners os interfaces s').0 })
          (start_listeners os interfaces s').2
  Owns-listeners {s' = s'} l interfaces before o =
      let k = start_listeners-Launches laws interfaces s' in
      record {
        running = k.running;
        opened = λ j. ground (arith, o.opened j, k.opened j, before);
        fresh = λ j e. ground (arith, o.fresh j, o.opened j, k.fresh j, before);
      }

  after_broadcast-closes :
      (conn fd : ℕ) (s : S) (out : S × Result Text (Unit {0})) (j : ℕ)
      → Same is_open s out.0
      → is_open (after_broadcast os net conn fd out).0 j ≡ (if fd == j then false else is_open s j)
  after_broadcast-closes conn fd s (s', err e) j same = closes fd s' j ∙ rw (same j) refl
  after_broadcast-closes conn fd s (s', ok u) j same =
      closes fd _ j
      ∙ rw ((buffers conn (1024 * 64) _ j ∙ (sets fd (codes "IP_PKTINFO") s' j ∙ same j))) refl

  after_file-Same :
      (conn : ℕ) (s : S) (out : S × Result Text ℕ)
      → MayOpen is_open s out
      → Same is_open s (after_file os net conn out).0
  after_file-Same conn s (s', err e) same j = same j
  after_file-Same conn s (s', ok fd) (unused, added) j =
      let option : (name : Text) (s : S) → Same is_open s (net.set_option fd name s).0 = sets fd in
      let kept = after_broadcast-closes conn fd s' _ j (λ j.
        option (codes "SO_BROADCAST") _ j
        ∙ (option (codes "SO_REUSEPORT") _ j ∙ option (codes "SO_REUSEADDR") s' j)) in
      kept ∙ ground (arith, added j)

  start_raw_listener-Owns :
      {s s' : S} (l : Life) (found : Result Text (List NetInterface))
      → l.raw_listeners ≡ []
      → Owns s l s'
      → Owns s
          (with_listeners os net l (start_raw_listener os l.raw_listeners found s')).0
          (with_listeners os net l (start_raw_listener os l.raw_listeners found s')).1
  unfolding start_raw_listener
  start_raw_listener-Owns l (err e) before o = o
  start_raw_listener-Owns l (ok []) before o = o
  start_raw_listener-Owns l (ok (i ∷ is)) before o = Owns-listeners l (i ∷ is) before o

  raw_wol-Owns :
      {s s' : S} (l : Life)
      → l.raw_listeners ≡ []
      → Owns s l s'
      → Owns s (raw_wol os net l s').0 (raw_wol os net l s').1
  raw_wol-Owns {s} l before o =
      if-cases (λ (out : Life × S). Owns s out.0 out.1) l.agent.enable_raw_wol
        (λ _. start_raw_listener-Owns l _ before o) (λ _. o)

  after_udp-Owns :
      {s s' : S} (l : Life) (out : S × Result Text ℕ)
      → l.conn ≡ none
      → l.raw_listeners ≡ []
      → Owns s l s'
      → MayOpen is_open s' out
      → Owns s (after_udp os net l out).0 (after_udp os net l out).1
  unfolding configure_socket
  after_udp-Owns l (s1, err e) no_conn no_raw o same = Owns-Same l o same
  after_udp-Owns {s} l (s1, ok conn) no_conn no_raw o opening =
      let with_conn = record l { conn = some conn } in
      let configured =
        Owns-Same with_conn (Owns-conn l conn no_conn o opening)
          (after_file-Same conn s1 (net.file conn s1) (copies conn s1)) in
      let last = raw_wol-Owns with_conn no_raw configured in
      record { running = last.running; opened = last.opened; fresh = last.fresh }

  after_client-Owns :
      {s : S} (l : Life) (out : S × Result Text ℕ)
      → l.conn ≡ none
      → l.grpc_conn ≡ none
      → l.raw_listeners ≡ []
      → MayOpen is_open s out
      → Owns s (after_client os net l out).0 (after_client os net l out).1
  after_client-Owns l (s1, err e) no_conn no_grpc no_raw same =
      Owns-Same l (Owns-nothing l no_conn no_grpc no_raw) same
  after_client-Owns l (s1, ok client) no_conn no_grpc no_raw opening =
      let with_client = record l { grpc_conn = some client } in
      after_udp-Owns with_client _ no_conn no_raw
        (Owns-Same with_client
          (Owns-client l client no_grpc (Owns-nothing l no_conn no_grpc no_raw) opening)
          (checks client s1))
        (listens l.agent.port _)

  -- A connection that was opened, and no other, is closed.
  close_handle-closes :
      (h : Option ℕ) (s : S) (j : ℕ)
      → is_open (close_handle os net h s) j ≡ (if is_handle j h then false else is_open s j)
  close_handle-closes none s j = refl
  close_handle-closes (some h) s j = closes h s j

  -- Whatever of `Start` failed, `Stop` closes what the agent has open, and nothing else.
  stop-closes : {s s' : S} (l : Life) → Owns s l s' → Same is_open s (stop os net l s').1
  unfolding stop
  stop-closes {s' = s'} l o j = ground (
    arith,
    close_handle-closes l.grpc_conn
        (stop_raw_listeners os l.raw_listeners (close_handle os net l.conn s')).1 j,
    stop_raw_listeners-closes laws l.raw_listeners (close_handle os net l.conn s') j o.running,
    close_handle-closes l.conn s' j,
    o.opened j,
    o.fresh j,
  )

  finish-releases :
      (s s' : S) (out : Begun os net) (l' : Life)
      → Owns s out.0 out.1
      → finish os net out ≡ (l', s', ok tt)
      → Same is_open s s'
  finish-releases s s' (l, s1, err e) l' o h = cc
  finish-releases s s' (l, s1, ok u) l' o h =
      let e : (stop os net l s1).1 ≡ s' = ap (λ (b : Begun os net). b.1) h in
      rw (← e) (stop-closes l o)

  -- After an agent was made and has run from `Start` to the end of its context, exactly that is open
  -- which was open before, whichever of the calls for the socket options, the health check and the
  -- raw listeners failed.
  pub run-releases :
      (a : Agent) (s s' : S) (l' : Life)
      → run os net (new_life a) s ≡ (l', s', ok tt)
      → (j : ℕ) → is_open s' j ≡ is_open s j
  unfolding run start
  run-releases a s s' l' h j =
      finish-releases s s' _ l'
        (after_client-Owns (new_life a) (net.new_client a.operator_addr s) refl refl refl
          (connects a.operator_addr s))
        h j
