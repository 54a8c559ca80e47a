-- ===== src/RawListener/Opened.antt =====
-- internal/wol/raw_listener.go: `Start` and `Stop` leave no socket open, whichever call fails.
use kubevirt_wol.Common.{
  refl, ℤ, arith, List, true, err, ◌∙◌, ◌+◌, ◌==◌, Text, if◌then◌else◌, Result, ok, pos, Bool,
  false, ℕ, ◌≡◌,
}
use kubevirt_wol.RawListener.Socket.{
  bpf, RawListener, Device, Sockets, SockFilter, Started, no_fd, start, stop, set_options,
  after_bind, after_socket, after_interface,
}

-- What the calls are documented to do with the descriptors that are open: `socket` opens one that
-- was not, `close` closes it, and the others leave them.
pub record OpensFds {S : Type 0} (os : Sockets S) (is_open : S → ℕ → Bool) : Type 0 where
  pub opens :
      (p fd : ℕ) (s s' : S)
      → os.socket p s ≡ (s', ok fd)
      → (is_open s fd ≡ false) × ((j : ℕ) → is_open s' j ≡ (if fd == j then true else is_open s j))
  pub refuses :
      (p : ℕ) (e : Text) (s s' : S)
      → os.socket p s ≡ (s', err e)
      → (j : ℕ) → is_open s' j ≡ is_open s j
  pub closes :
      (fd : ℕ) (s : S) (j : ℕ)
      → is_open (os.close fd s).0 j ≡ (if fd == j then false else is_open s j)
  pub binds : (fd p i : ℕ) (s : S) (j : ℕ) → is_open (os.bind fd p i s).0 j ≡ is_open s j
  pub adds : (fd i : ℕ) (s : S) (j : ℕ) → is_open (os.add_membership fd i s).0 j ≡ is_open s j
  pub attaches :
      (fd : ℕ) (p : List SockFilter) (s : S) (j : ℕ)
      → is_open (os.attach_filter fd p s).0 j ≡ is_open s j
  pub waits :
      (fd : ℕ) (t : ℤ) (s : S) (j : ℕ) → is_open (os.set_receive_timeout fd t s).0 j ≡ is_open s j
  pub shuts : (fd : ℕ) (s : S) (j : ℕ) → is_open (os.shutdown fd s).0 j ≡ is_open s j

-- A listener that was neither started nor stopped.
pub record IsNew (r : RawListener) : Type 0 where
  pub no_socket : r.fd ≡ no_fd
  pub not_stopped : r.stop_done ≡ false
  pub not_closed : r.closed ≡ false
  pub no_goroutine : r.goroutines ≡ 0

module _ {S : Type 0} {os : Sockets S} {is_open : S → ℕ → Bool} (laws : OpensFds os is_open) where
  open laws use {opens, refuses, closes, binds, adds, attaches, waits, shuts}

  abbrev pub Same : S → S → Type 0
  Same s s' = (j : ℕ) → is_open s' j ≡ is_open s j

  -- How `Start` ends: with the goroutine and one more descriptor, or with an error and no other.
  pub data Ends (r : RawListener) (s : S) (out : Started os) : Type 0 where
    runs :
        (fd : ℕ)
        → out.0 ≡ record r { fd = pos fd; goroutines = r.goroutines + 1 }
        → out.2 ≡ ok tt
        → is_open s fd ≡ false
        → ((j : ℕ) → is_open out.1 j ≡ (if fd == j then true else is_open s j))
        → Ends r s out
    fails : (e : Text) → out.0 ≡ r → out.2 ≡ err e → Same s out.1 → Ends r s out

  set_options-Same :
      (r : RawListener) (ifi : Device) (fd : ℕ) (s : S) → Same s (set_options os r ifi fd s)
  set_options-Same r ifi fd s j =
      waits fd r.rcv_timeout_sec _ j ∙ (filtered r.attach_bpf ∙ member r.promisc)
    where
      filtered :
          (b : Bool) {s : S}
          → is_open (if b then (os.attach_filter fd bpf s).0 else s) j ≡ is_open s j
      filtered true = attaches fd _ _ j
      filtered false = refl

      member :
          (b : Bool)
          → is_open (if b then (os.add_membership fd ifi.index s).0 else s) j ≡ is_open s j
      member true = adds fd ifi.index s j
      member false = refl

  after_bind-Ends :
      (r : RawListener) (ifi : Device) (fd : ℕ) (s s' : S) (bound : S × Result Text (Unit {0}))
      → r.fd ≡ no_fd
      → is_open s fd ≡ false
      → ((j : ℕ) → is_open s' j ≡ (if fd == j then true else is_open s j))
      → Same s' bound.0
      → Ends r s (after_bind os (record r { fd = pos fd }) ifi fd bound)
  after_bind-Ends r ifi fd s s' (s'', ok _) none_yet fresh opened same =
      runs fd refl refl fresh
        (λ j. set_options-Same (record r { fd = pos fd }) ifi fd s'' j ∙ (same j ∙ opened j))
  after_bind-Ends r ifi fd s s' (s'', err e) none_yet fresh opened same =
      fails _ (ground arith) refl (λ j. ground (arith, closes fd s'' j, same j, opened j))

  after_socket-Ends :
      (r : RawListener) (ifi : Device) (p : ℕ) (s : S) (made : S × Result Text ℕ)
      → r.fd ≡ no_fd
      → os.socket p s ≡ made
      → Ends r s (after_socket os r ifi made)
  after_socket-Ends r ifi p s (s', err e) none_yet h = fails _ refl refl (refuses p e s s' h)
  after_socket-Ends r ifi p s (s', ok fd) none_yet h =
      let (fresh, opened) = opens p fd s s' h in
      after_bind-Ends r ifi fd s s' _ none_yet fresh opened (binds fd _ ifi.index s')

  after_interface-Ends :
      (r : RawListener) (s : S) (found : Result Text Device)
      → r.fd ≡ no_fd
      → Ends r s (after_interface os r s found)
  after_interface-Ends r s (err e) none_yet = fails _ refl refl (λ j. refl)
  after_interface-Ends r s (ok ifi) none_yet = after_socket-Ends r ifi _ s _ none_yet refl

  pub start-Ends : (r : RawListener) (s : S) → r.fd ≡ no_fd → Ends r s (start os r s)
  unfolding start
  start-Ends r s none_yet = after_interface-Ends r s _ none_yet

  -- Stopping a listener that runs closes its descriptor; one that did not start has none.
  pub stop-running :
      (r : RawListener) (fd : ℕ) (s : S) (j : ℕ)
      → r.fd ≡ pos fd
      → r.stop_done ≡ false
      → r.closed ≡ false
      → is_open (stop os r s).1 j ≡ (if fd == j then false else is_open s j)
  unfolding stop
  stop-running r fd s j held fresh open_yet =
      rw (fresh, open_yet, held) (closes fd _ j ∙ ground (arith, shuts fd s j))
