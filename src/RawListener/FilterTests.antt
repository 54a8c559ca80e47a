-- ===== src/RawListener/FilterTests.antt =====
-- The filter machine by evaluation, and the raw listener's loop at concrete rounds.
use kubevirt_wol.Common.{
  append-nil, length-drop, refl, [], some, true, false, done, arith, List, ℕ, length, drop, suc,
  zero, if◌then◌else◌, ◌∷◌, ◌++◌, ◌+◌, ◌*◌, ◌<◌, ◌==◌, ◌↔◌, ◌≡◌, sym,
}
use kubevirt_wol.Packet.Spec.{mac_text, magic_packet, repeat}
use kubevirt_wol.RawListener.{listen_frame}
use kubevirt_wol.RawListener.Frames.{Carries, plain}
use kubevirt_wol.RawListener.View.{broadcast, frame_of}
use kubevirt_wol.RawListener.Filter.{IsFilterMachine, IsUntagged, filtered_iff}
use kubevirt_wol.RawListener.Loop.{IsIn, listen-Ends, listen-hears}
use kubevirt_wol.RawListener.Socket.{
  SockFilter, bpf, Round, Heard, Recv, bytes, interrupted, failed, listen,
}
use kubevirt_wol.RawListener.Tests.{source, wake_frame, bytes_of}
use kubevirt_wol.Examples.{sample_address}

abbrev load : List ℕ → (ℕ → ℕ) → ℕ
load [] next = 0
load (hi ∷ []) next = 0
load (hi ∷ lo ∷ rest) next = next (hi * 256 + lo)

-- one instruction: `next` takes the number of instructions to skip, and the accumulator
abbrev instruction : SockFilter → ℕ → List ℕ → (ℕ → ℕ → ℕ) → ℕ
instruction i a f next =
    if i.code == 0x28
    then load (drop i.k f) (next 0)
    else if i.code == 0x15
    then next (if a == i.k then i.jt else i.jf) a
    else i.k

exec_from : ℕ → List SockFilter → ℕ → List ℕ → ℕ
exec_from n [] a f = 0
exec_from zero (i ∷ p) a f = instruction i a f (λ skip b. exec_from skip p b f)
exec_from (suc n) (i ∷ p) a f = exec_from n p a f

abbrev exec : List SockFilter → ℕ → List ℕ → ℕ
exec = exec_from 0

exec-drop :
    (n : ℕ) (p : List SockFilter) (a : ℕ) (f : List ℕ) → exec_from n p a f ≡ exec (drop n p) a f
unfolding exec_from
exec-drop zero p a f = refl
exec-drop (suc n) [] a f = refl
exec-drop (suc n) (i ∷ p) a f = exec-drop n p a f

load-short : (f : List ℕ) (next : ℕ → ℕ) → length f < 2 → load f next ≡ 0
load-short [] next h = refl
load-short (hi ∷ []) next h = refl
load-short (hi ∷ lo ∷ rest) next h = absurd (omega arith)

exec-IsFilterMachine : IsFilterMachine exec
unfolding exec_from
exec-IsFilterMachine = record {
  loads = λ jt jf k a hi lo p f rest e. rw e refl;
  ends = λ jt jf k a p f short. load-short (drop k f) _ (omega (arith, length-drop k f));
  compares = λ jt jf k a p f. exec-drop (if a == k then jt else jf) p a f;
  returns = λ jt jf k a p f. refl;
}

abbrev tagged_frame : List ℕ
tagged_frame = frame_of broadcast source 129 0 (0 ∷ 7 ∷ 8 ∷ 66 ∷ magic_packet sample_address)

filtered_iff_example :
    ((0 < exec bpf 0 wake_frame)
      × (listen_frame wake_frame ≡ done (some (mac_text sample_address, source))))
    ↔ IsUntagged wake_frame (mac_text sample_address) source
unfolding magic_packet repeat
filtered_iff_example =
    filtered_iff exec-IsFilterMachine wake_frame (mac_text sample_address) source
      (bytes_of wake_frame refl)

tagged_dropped : exec bpf 0 tagged_frame ≡ 0
unfolding exec_from magic_packet repeat
tagged_dropped = refl

abbrev going : Recv → Round
going rc = record { stopping = false; received = rc; stopped = false }

abbrev ending : Round
ending = record { stopping = true; received = interrupted; stopped = true }

listen-Ends_example :
    (h : Heard) × (listen (going failed ∷ ending ∷ []) ≡ done h)
    × (h.ended ≡ true)
    × ((later : List Round) → listen ((going failed ∷ ending ∷ []) ++ later) ≡ done h)
listen-Ends_example = listen-Ends (going failed ∷ ending ∷ []) refl

wake_frame-Carries : Carries wake_frame (mac_text sample_address) source
wake_frame-Carries =
    plain (magic_packet sample_address) refl refl
      (sample_address, (refl, ([], sym (append-nil (magic_packet sample_address)))), refl)

listen-hears_example :
    (h : Heard) × (listen
        ((going interrupted ∷ going failed ∷ []) ++ going (bytes wake_frame) ∷ ending ∷ [])
      ≡ done h)
    × IsIn (mac_text sample_address, source) h.detected
unfolding magic_packet repeat
listen-hears_example =
    listen-hears (going interrupted ∷ going failed ∷ []) (ending ∷ []) (going (bytes wake_frame))
      wake_frame (mac_text sample_address) source refl refl refl (omega arith)
      (bytes_of wake_frame refl) wake_frame-Carries
