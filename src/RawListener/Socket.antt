-- ===== src/RawListener/Socket.antt =====
-- internal/wol/raw_listener.go: the life cycle of a raw listener. The system calls are a parameter,
-- with `S` for the state of the operating system; the loop reads from a list of rounds.
use kubevirt_wol.Common.{
  ok, ◌*◌, ◌+◌, ◌%◌, ◌^◌, ◌/◌, ◌++◌, none, panic, take, ◌>>=◌, ◌∷◌, codes, false, negsuc, ltb_ℤ, ℤ,
  err, pos, some, done, Text, List, ℕ, Bool, Option, [], Run, Result, if◌then◌else◌, true,
}
use kubevirt_wol.RawListener.{listen_frame}

pub record RawListenerOptions : Type 0 where
  pub promiscuous : Bool
  pub attach_bpf : Bool
  pub recv_timeout_sec : ℤ

-- `goroutines` is the counter of the wait group.
pub record RawListener : Type 0 where
  pub interface_name : Text
  pub fd : ℤ
  pub promisc : Bool
  pub attach_bpf : Bool
  pub rcv_timeout_sec : ℤ
  pub stop_done : Bool
  pub closed : Bool
  pub goroutines : ℕ

abbrev pub no_fd : ℤ
no_fd = negsuc 0

unfoldable pub new_raw_listener_with_options : Text → RawListenerOptions → RawListener
new_raw_listener_with_options interface_name opt = record {
  interface_name = interface_name;
  fd = no_fd;
  promisc = opt.promiscuous;
  attach_bpf = opt.attach_bpf;
  rcv_timeout_sec = if ltb_ℤ (pos 0) opt.recv_timeout_sec then opt.recv_timeout_sec else pos 1;
  stop_done = false;
  closed = false;
  goroutines = 0;
}

abbrev pub default_options : RawListenerOptions
default_options = record { promiscuous = true; attach_bpf = true; recv_timeout_sec = pos 1 }

unfoldable pub new_raw_listener : Text → RawListener
unfolding new_raw_listener_with_options
new_raw_listener interface_name = new_raw_listener_with_options interface_name default_options

-- An instruction of the packet filter.
pub record SockFilter : Type 0 where
  pub code : ℕ
  pub jt : ℕ
  pub jf : ℕ
  pub k : ℕ

-- The filter of `Start`: 0x28 loads two bytes, 0x15 compares, and 0x6 returns how much is kept.
abbrev pub bpf : List SockFilter
bpf =
    record { code = 0x28; jt = 0; jf = 0; k = 12 }
    ∷ record { code = 0x15; jt = 0; jf = 1; k = 0x0842 }
    ∷ record { code = 0x6; jt = 0; jf = 0; k = 0x00040000 }
    ∷ record { code = 0x6; jt = 0; jf = 0; k = 0x00000000 }
    ∷ []

-- `|` of two numbers with no bit in common is their sum.
unfoldable pub htons : ℕ → ℕ
htons v = v * 2 ^ 8 % 2 ^ 16 + v / 2 ^ 8

-- unix.ETH_P_ALL
abbrev pub eth_p_all : ℕ
eth_p_all = 3

-- The fields of net.Interface that `Start` reads.
pub record Device : Type 0 where
  pub name : Text
  pub index : ℕ

-- The calls on the operating system, each with its new state: `socket` takes the protocol, and
-- `bind` the protocol and the index of the interface.
pub record Sockets (S : Type 0) : Type 0 where
  pub interface_by_name : S → Text → Result Text Device
  pub socket : ℕ → S → S × Result Text ℕ
  pub bind : ℕ → ℕ → ℕ → S → S × Result Text (Unit {0})
  pub add_membership : ℕ → ℕ → S → S × Result Text (Unit {0})
  pub attach_filter : ℕ → List SockFilter → S → S × Result Text (Unit {0})
  pub set_receive_timeout : ℕ → ℤ → S → S × Result Text (Unit {0})
  pub shutdown : ℕ → S → S × Result Text (Unit {0})
  pub close : ℕ → S → S × Result Text (Unit {0})

module _ {S : Type 0} (os : Sockets S) where
  -- What `Start` leaves, and the error that it returns.
  abbrev pub Started : Type 0
  Started = RawListener × S × Result Text (Unit {0})

  -- The errors of these three calls are only logged.
  abbrev pub set_promiscuous : RawListener → Device → ℕ → S → S
  set_promiscuous r ifi fd s = if r.promisc then (os.add_membership fd ifi.index s).0 else s

  abbrev pub set_filter : RawListener → ℕ → S → S
  set_filter r fd s = if r.attach_bpf then (os.attach_filter fd bpf s).0 else s

  abbrev pub set_options : RawListener → Device → ℕ → S → S
  set_options r ifi fd s =
      (os.set_receive_timeout fd r.rcv_timeout_sec (set_filter r fd (set_promiscuous r ifi fd s))).0

  abbrev pub after_bind : RawListener → Device → ℕ → S × Result Text (Unit {0}) → Started
  after_bind r ifi fd (s, err e) = (
    record r { fd = no_fd },
    (os.close fd s).0,
    err (codes "failed to bind to interface " ++ (ifi.name ++ (codes ": " ++ e))),
  )
  after_bind r ifi fd (s, ok _) =
      (record r { goroutines = r.goroutines + 1 }, set_options r ifi fd s, ok tt)

  abbrev pub after_socket : RawListener → Device → S × Result Text ℕ → Started
  after_socket r ifi (s, err e) =
      (r, s, err (codes "failed to create raw socket: " ++ (e ++ codes " (requires CAP_NET_RAW)")))
  after_socket r ifi (s, ok fd) =
      after_bind (record r { fd = pos fd }) ifi fd (os.bind fd (htons eth_p_all) ifi.index s)

  abbrev pub after_interface : RawListener → S → Result Text Device → Started
  after_interface r s (err e) =
      (r, s, err (codes "failed to get interface " ++ (r.interface_name ++ (codes ": " ++ e))))
  after_interface r s (ok ifi) = after_socket r ifi (os.socket (htons eth_p_all) s)

  unfoldable pub start : RawListener → S → Started
  start r s = after_interface r s (os.interface_by_name s r.interface_name)

  -- The wait at the end is over when the goroutine has ended.
  abbrev pub close_fd : RawListener → ℤ → S → RawListener × S
  close_fd r (pos fd) s =
      (record r { fd = no_fd; goroutines = 0 }, (os.close fd (os.shutdown fd s).0).0)
  close_fd r (negsuc n) s = (record r { goroutines = 0 }, s)

  abbrev pub stop_once : RawListener → S → RawListener × S
  stop_once r s = if r.closed then (r, s) else close_fd (record r { closed = true }) r.fd s

  -- stopOnce.Do
  unfoldable pub stop : RawListener → S → RawListener × S
  stop r s = if r.stop_done then (r, s) else stop_once (record r { stop_done = true }) s

-- What `Recvfrom` gives: bytes, an error that the loop expects (EAGAIN, EWOULDBLOCK, EINTR), or
-- another.
pub data Recv : Type 0 where
  bytes : List ℕ → Recv
  interrupted failed : Recv

-- A round of the loop: whether the context is cancelled or the listener closed when the loop looks,
-- what is received, and whether it is after an error.
pub record Round : Type 0 where
  pub stopping : Bool
  pub received : Recv
  pub stopped : Bool

-- The calls of the packet handler, and whether the loop has ended.
pub record Heard : Type 0 where
  pub detected : List (Text × List ℕ)
  pub ended : Bool

abbrev pub ended_now : Heard
ended_now = record { detected = []; ended = true }

-- `if r.packetHandler != nil`: the agent's listeners have one.
abbrev pub with_detected : Option (Text × List ℕ) → Run Heard → Run Heard
with_detected none rest = rest
with_detected (some d) panic = panic
with_detected (some d) (done h) = done (record h { detected = d ∷ h.detected })

-- Recvfrom(r.fd, buffer, 0): what does not fit into the buffer is cut off
abbrev pub buffer_size : ℕ
buffer_size = 2000

abbrev pub after_receive : Round → Recv → Run Heard → Run Heard
after_receive r (bytes f) rest = do d ← listen_frame (take buffer_size f); with_detected d rest
after_receive r interrupted rest = rest
after_receive r failed rest = if r.stopped then done ended_now else rest

-- The loop over the rounds that have come.
unfoldable pub listen : List Round → Run Heard
listen [] = done (record { detected = []; ended = false })
listen (r ∷ rs) =
    let rest = listen rs in if r.stopping then done ended_now else after_receive r r.received rest
