-- ===== src/Agent/Released.antt =====
-- internal/wol/agent.go: whatever fails between `Start` and `Stop`, no connection and no socket is
-- left open.
use kubevirt_wol.Common.{
  refl, [], true, false, ok, err, arith, sym, Text, List, Bool, ℕ, ℤ, pos, negsuc, not, All, ◌∷◌,
  ◌==◌, ◌&&◌, ◌||◌, ◌≡◌, ◌∙◌,
}
use kubevirt_wol.RawListener.{NetInterface}
use kubevirt_wol.RawListener.Socket.{
  RawListener, Sockets, Started, no_fd, new_raw_listener_with_options,
}
use kubevirt_wol.RawListener.Socket
use kubevirt_wol.RawListener.Opened.{OpensFds, Ends, runs, fails, start-Ends, stop-running}
use kubevirt_wol.Agent.Life.{
  Launched, launch, start_listeners, stop_raw_listeners, listener_options,
}

-- A listener with a socket and a goroutine, that was not stopped.
pub record Running (l : RawListener) : Type 0 where
  pub socket : ℕ
  pub held : l.fd ≡ pos socket
  pub not_stopped : l.stop_done ≡ false
  pub not_closed : l.closed ≡ false
  pub goroutine : l.goroutines ≡ 1

abbrev pub is_fd : ℕ → ℤ → Bool
is_fd j (pos fd) = fd == j
is_fd j (negsuc n) = false

-- The socket of some listener.
abbrev pub holds : ℕ → List RawListener → Bool
holds j [] = false
holds j (l ∷ ls) = is_fd j l.fd || holds j ls

module _ {S : Type 0} {os : Sockets S} {is_open : S → ℕ → Bool} (laws : OpensFds os is_open) where
  -- The listeners run, with sockets that were not open; no other was opened or closed.
  pub record Launches (s : S) (out : Launched os) : Type 0 where
    pub running : All Running out.0
    pub opened : (j : ℕ) → is_open out.2 j ≡ (holds j out.0 || is_open s j)
    pub fresh : (j : ℕ) → holds j out.0 ≡ true → is_open s j ≡ false

  launch-Launches :
      (name : Text) (r : RawListener) (s : S) (out : Started os) (rest : S → Launched os)
      → r.stop_done ≡ false
      → r.closed ≡ false
      → r.goroutines ≡ 0
      → Ends laws r s out
      → ((s1 : S) → Launches s1 (rest s1))
      → Launches s (launch os name out rest)
  launch-Launches name r s (l, s1, ok u) rest a b c (runs fd same fine fresh opened) h = record {
    running = (
      record {
        socket = fd;
        held = cc;
        not_stopped = cc;
        not_closed = cc;
        goroutine = ground arith;
      },
      (h s1).running,
    );
    opened = λ j. ground (arith, (h s1).opened j, opened j);
    fresh = λ j e. ground (arith, (h s1).fresh j, opened j);
  }
  launch-Launches name r s (l, s1, err e) rest a b c (runs fd same fine fresh opened) h = cc
  launch-Launches name r s (l, s1, ok u) rest a b c (fails e same bad kept) h = cc
  launch-Launches name r s (l, s1, err e') rest a b c (fails e same bad kept) h = record {
    running = (h s1).running;
    opened = λ j. (h s1).opened j ∙ rw (kept j) refl;
    fresh = λ j e. sym (kept j) ∙ (h s1).fresh j e;
  }

  pub start_listeners-Launches :
      (interfaces : List NetInterface) (s : S) → Launches s (start_listeners os interfaces s)
  unfolding start_listeners new_raw_listener_with_options
  start_listeners-Launches [] s = record { running = tt; opened = λ j. refl; fresh = λ j e. cc }
  start_listeners-Launches (i ∷ is) s =
      launch-Launches i.name (new_raw_listener_with_options i.name listener_options) s _
        (start_listeners os is) refl refl refl (start-Ends laws _ s refl)
        (start_listeners-Launches is)

  pub stop_raw_listeners-closes :
      (ls : List RawListener) (s : S) (j : ℕ)
      → All Running ls
      → is_open (stop_raw_listeners os ls s).1 j ≡ (not (holds j ls) && is_open s j)
  unfolding stop_raw_listeners
  stop_raw_listeners-closes [] s j h = refl
  stop_raw_listeners-closes (l ∷ ls) s j (r, h) = ground (
    arith,
    stop_raw_listeners-closes ls (Socket.stop os l s).1 j h,
    stop-running laws l r.socket s j r.held r.not_stopped r.not_closed,
    r.held,
  )
