-- ===== src/Agent/Udp.antt =====
-- internal/wol/agent.go: the loop of `listen` on the UDP socket. Its goroutines are given slices of one
-- buffer, which the next packet is read into.
use kubevirt_wol.Common.{
  take_of_le, take-append_of_le, replicate, refl, [], inl, inr, true, false, Bool-cases, List, Bool,
  ℕ, length, take, drop, if◌then◌else◌, ◌∷◌, ◌++◌, ◌||◌, ◌≡◌, arith, ◌≤◌, ◌∙◌,
}
use kubevirt_wol.Cluster.{Metrics, count_error}
use kubevirt_wol.Agent.{Addr}

-- What `ReadFromUDP` gives: a packet, a timeout, or another error.
pub data Received : Type 0 where
  packet : List ℕ → Addr → Received
  timeout failed : Received

-- A round of the loop: whether the context is cancelled when the loop looks, what is received, and
-- whether the context is cancelled after an error.
pub record Round : Type 0 where
  pub cancelled : Bool
  pub received : Received
  pub cancelled_after : Bool

-- A goroutine that was started, with the first `size` bytes of the buffer.
pub record Job : Type 0 where
  pub size : ℕ
  pub addr : Addr

pub record Listening : Type 0 where
  pub buffer : List ℕ
  pub jobs : List Job
  pub metrics : Metrics
  pub ended : Bool

abbrev pub buffer_size : ℕ
buffer_size = 1024

unfoldable pub new_listening : Metrics → Listening
new_listening m = record { buffer = replicate buffer_size 0; jobs = []; metrics = m; ended = false }

-- What does not fit into the buffer is cut off; the bytes behind a packet stay.
abbrev pub read_into : List ℕ → List ℕ → List ℕ
read_into p buffer = let q = take buffer_size p in q ++ drop (length q) buffer

abbrev pub after_read : Round → Received → Listening → (Listening → Listening) → Listening
after_read r (packet p addr) st rest = rest (record st {
  buffer = read_into p st.buffer;
  jobs = st.jobs ++ record { size = length (take buffer_size p); addr = addr } ∷ [];
})
after_read r timeout st rest = rest st
after_read r failed st rest =
    if r.cancelled_after
    then record st { ended = true }
    else rest (record st { metrics = count_error st.metrics })

unfoldable pub listen : List Round → Listening → Listening
listen [] st = st
listen (r ∷ rs) st =
    let next = after_read r r.received st (listen rs) in
    if r.cancelled then record st { ended = true } else next

-- The packet that a goroutine parses when it runs: its slice of the buffer as it is then.
unfoldable pub packet_of : Job → Listening → List ℕ
packet_of job st = take job.size st.buffer

abbrev pub received : List ℕ → Addr → Round
received p addr = record { cancelled = false; received = packet p addr; cancelled_after = false }

abbrev pub any_cancelled : List Round → Bool
any_cancelled [] = false
any_cancelled (r ∷ rs) = r.cancelled || any_cancelled rs

after_read-Ends :
    (r : Round) (rc : Received) (st : Listening) (rest : Listening → Listening)
    (with_later : List Round → Listening → Listening)
    → ((st : Listening)
        → ((rest st).ended ≡ true) × ((later : List Round) → with_later later st ≡ rest st))
    → ((after_read r rc st rest).ended ≡ true)
      × ((later : List Round) → after_read r rc st (with_later later) ≡ after_read r rc st rest)
after_read-Ends r (packet p addr) st rest with_later h = h _
after_read-Ends r timeout st rest with_later h = h st
after_read-Ends r failed st rest with_later h = elim (Bool-cases r.cancelled_after) [
  | inl now ↦ rw now (refl, λ later. refl)
  | inr on ↦ rw on (h _)
]

-- The loop ends when it sees that the context is cancelled, however many packets, timeouts and errors
-- came before, and what could still be received changes nothing.
pub listen-Ends :
    (rs : List Round) (st : Listening)
    → any_cancelled rs ≡ true
    → ((listen rs st).ended ≡ true)
      × ((later : List Round) → listen (rs ++ later) st ≡ listen rs st)
unfolding listen
listen-Ends [] st h = cc
listen-Ends (r ∷ rs) st h = elim (Bool-cases r.cancelled) [
  | inl now ↦ rw now (refl, λ later. refl)
  | inr on ↦ rw on (
      after_read-Ends r r.received st (listen rs) (λ later. listen (rs ++ later))
        (λ st. listen-Ends rs st (ground (arith, on))))
]

packet_of-read :
    (p : List ℕ) (addr : Addr) (n : ℕ) (st : Listening)
    → length p ≤ buffer_size
    → n ≤ length p
    → packet_of (record { size = n; addr = addr }) (listen (received p addr ∷ []) st) ≡ take n p
unfolding listen packet_of
packet_of-read p addr n st fits small =
    rw (take_of_le buffer_size p fits) (take-append_of_le n p (drop (length p) st.buffer) small)

-- The goroutine that is started for a packet that fits into the buffer parses the packet if it runs
-- before the next one is received; after a next one that is as long, it parses the beginning of that
-- one instead of its own.
pub packet_of-overwritten :
    (p q : List ℕ) (addr addr' : Addr) (st : Listening)
    → length p ≤ length q
    → length q ≤ buffer_size
    → let after_one = listen (received p addr ∷ []) st in
      let after_two = listen (received q addr' ∷ []) after_one in
      let job : Job = record { size = length p; addr = addr } in
      (after_one.jobs ≡ st.jobs ++ job ∷ [])
      × (packet_of job after_one ≡ p)
      × (packet_of job after_two ≡ take (length p) q)
unfolding listen packet_of
packet_of-overwritten p q addr addr' st longer fits = (
  rw (take_of_le buffer_size p (omega arith)) refl,
  packet_of-read p addr (length p) st (omega arith) (omega arith)
      ∙ take_of_le (length p) p (omega arith),
  packet_of-read q addr (length p) (listen (received p addr ∷ []) st) fits longer,
)
