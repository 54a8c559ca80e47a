-- ===== src/RawListener/Loop.antt =====
-- internal/wol/raw_listener.go: the loop of `listen` ends when it is told to, and loses no packet.
use kubevirt_wol.Common.{
  take_of_le, inr, ◌⊎◌, some, ℕ, Option, Run, take, Text, ◌++◌, ◌&&◌, not, ◌∷◌, true, false, done,
  Bool, ◌≡◌, List, refl, [], none, inl, arith, Bool-cases, ap, length, All, ◌≤◌, ◌||◌, ◌∙◌,
}
use kubevirt_wol.RawListener.Frames.{Carries, IsByte, listen_frame_iff, listen_frame-total}
use kubevirt_wol.RawListener.Socket.{
  buffer_size, Recv, bytes, interrupted, failed, Round, Heard, listen, after_receive, with_detected,
  ended_now,
}

-- Some round sees that the loop is to end.
abbrev pub any_stops : List Round → Bool
any_stops [] = false
any_stops (r ∷ rs) = r.stopping || any_stops rs

-- No round sees it, neither before it receives nor after an error.
abbrev pub none_stops : List Round → Bool
none_stops [] = true
none_stops (r ∷ rs) = not r.stopping && (not r.stopped && none_stops rs)

abbrev pub IsIn : Text × List ℕ → List (Text × List ℕ) → Type 0
IsIn d [] = ⊥
IsIn d (e ∷ ds) = (d ≡ e) ⊎ IsIn d ds

-- One round that goes on keeps the end of the others, and what they detect.
record Keeps (h : Heard) (out : Run Heard) : Type 0 where
  result : Heard
  returns : out ≡ done result
  ends : h.ended ≡ true → result.ended ≡ true
  hears : (d : Text × List ℕ) → IsIn d h.detected → IsIn d result.detected

with_detected-Keeps : (o : Option (Text × List ℕ)) (h : Heard) → Keeps h (with_detected o (done h))
with_detected-Keeps none h = record { result = h; returns = refl; ends = λ e. e; hears = λ d i. i }
with_detected-Keeps (some x) h = record {
  result = _;
  returns = refl;
  ends = λ e. e;
  hears = λ d i. inr i;
}

after_receive-Keeps :
    (r : Round) (rc : Recv) (h : Heard) → r.stopped ≡ false → Keeps h (after_receive r rc (done h))
after_receive-Keeps r (bytes f) h go =
    let (o, e) = listen_frame-total (take buffer_size f) in rw e (with_detected-Keeps o h)
after_receive-Keeps r interrupted h go = record {
  result = h;
  returns = refl;
  ends = λ e. e;
  hears = λ d i. i;
}
after_receive-Keeps r failed h go =
    rw go (record { result = h; returns = refl; ends = λ e. e; hears = λ d i. i })

-- However the loop is told to end, it has ended, and what could be received later changes nothing.
record Settles (stops : Bool) (out : Run Heard) (with_later : List Round → Run Heard) : Type 0 where
  heard : Heard
  returned : out ≡ done heard
  settled :
      stops ≡ true → (heard.ended ≡ true) × ((later : List Round) → with_later later ≡ done heard)

with_detected-Settles :
    (o : Option (Text × List ℕ)) {stops : Bool} {out : Run Heard}
    {with_later : List Round → Run Heard}
    → Settles stops out with_later
    → Settles stops (with_detected o out) (λ later. with_detected o (with_later later))
with_detected-Settles none s = s
with_detected-Settles (some x) s = record {
  heard = record s.heard { detected = x ∷ s.heard.detected };
  returned = rw s.returned refl;
  settled = λ h. ((s.settled h).0, λ later. rw ((s.settled h).1 later) refl);
}

after_receive-Settles :
    (r : Round) (rc : Recv) {stops : Bool} {out : Run Heard} {with_later : List Round → Run Heard}
    → Settles stops out with_later
    → Settles stops (after_receive r rc out) (λ later. after_receive r rc (with_later later))
after_receive-Settles r (bytes f) s =
    let (o, e) = listen_frame-total (take buffer_size f) in rw e (with_detected-Settles o s)
after_receive-Settles r interrupted s = s
after_receive-Settles r failed s = elim (Bool-cases r.stopped) [
  | inl now ↦
      rw now (record { heard = ended_now; returned = refl; settled = λ h. (refl, λ later. refl) })
  | inr on ↦ rw on s
]

listen-Settles :
    (rs : List Round) → Settles (any_stops rs) (listen rs) (λ later. listen (rs ++ later))
unfolding listen
listen-Settles [] = record { heard = _; returned = refl; settled = λ h. cc }
listen-Settles (r ∷ rs) = elim (Bool-cases r.stopping) [
  | inl now ↦
      rw now (record { heard = ended_now; returned = refl; settled = λ h. (refl, λ later. refl) })
  | inr on ↦ rw on (after_receive-Settles r r.received (listen-Settles rs))
]

listen_step :
    (r : Round) (rs : List Round)
    → r.stopping ≡ false
    → listen (r ∷ rs) ≡ after_receive r r.received (listen rs)
unfolding listen
listen_step r rs going = ground (arith, going)

-- However the rounds before went, once the loop sees that the context is cancelled or the listener
-- closed, it has ended without a panic, and what could still be received changes nothing.
pub listen-Ends :
    (rs : List Round)
    → any_stops rs ≡ true
    → (h : Heard) × (listen rs ≡ done h)
      × (h.ended ≡ true)
      × ((later : List Round) → listen (rs ++ later) ≡ done h)
listen-Ends rs stops =
    let s = listen-Settles rs in (s.heard, s.returned, (s.settled stops).0, (s.settled stops).1)

-- A frame that carries a magic packet and fits into the buffer is handed to the packet handler,
-- whatever timeouts, errors and other frames came before it, as long as the loop was not told to
-- end.
pub listen-hears :
    (before after : List Round) (r : Round) (f : List ℕ) (t : Text) (src : List ℕ)
    → none_stops before ≡ true
    → r.stopping ≡ false
    → r.received ≡ bytes f
    → length f ≤ buffer_size
    → All IsByte f
    → Carries f t src
    → (h : Heard) × (listen (before ++ r ∷ after) ≡ done h) × IsIn (t, src) h.detected
unfolding listen
listen-hears [] after r f t src quiet going rc fits is_bytes carries =
    let s = listen-Settles after in
    (
      record s.heard { detected = (t, src) ∷ s.heard.detected },
      rw
          (
            going,
            rc,
            take_of_le buffer_size f fits,
            (listen_frame_iff f t src is_bytes).1 carries,
            s.returned,
          )
          refl,
      inl refl,
    )
listen-hears (q ∷ before) after r f t src quiet going rc fits is_bytes carries =
    let (h, e, found) =
      listen-hears before after r f t src (ground arith) going rc fits is_bytes carries in
    let k = after_receive-Keeps q q.received h (ground arith) in
    (
      k.result,
      listen_step q (before ++ r ∷ after) (ground arith)
          ∙ (ap (after_receive q q.received) e ∙ k.returns),
      k.hears (t, src) found,
    )
