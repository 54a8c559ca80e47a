-- ===== src/RawListener/Filter.antt =====
-- internal/wol/raw_listener.go: the packet filter that `Start` attaches, and what it leaves to the
-- loop. The kernel's filter machine is a parameter.
use kubevirt_wol.Common.{
  inr, inl, Bool-cases, ◌∙◌, ◌==◌, if◌then◌else◌, ◌+◌, ◌*◌, drop-append_left, ◌∷◌, arith, ◌↔◌, some,
  done, All, ◌≡◌, ◌<◌, length, Text, drop, ℕ, List,
}
use kubevirt_wol.RawListener.{listen_frame}
use kubevirt_wol.RawListener.Socket.{SockFilter, bpf}
use kubevirt_wol.RawListener.Frames.{tagged, plain, IsByte, Carries, listen_frame_iff}
use kubevirt_wol.RawListener.Handled.{Announced}
use kubevirt_wol.RawListener.View.{broadcast, frame_of}

abbrev pub ldh : ℕ → ℕ → ℕ → SockFilter
ldh jt jf k = record { code = 0x28; jt = jt; jf = jf; k = k }

abbrev pub jeq : ℕ → ℕ → ℕ → SockFilter
jeq jt jf k = record { code = 0x15; jt = jt; jf = jf; k = k }

abbrev pub ret : ℕ → ℕ → ℕ → SockFilter
ret jt jf k = record { code = 0x6; jt = jt; jf = jf; k = k }

-- What the filter machine is documented to do with the instructions of the program, where
-- `exec p a f` runs what is left of a program with `a` in the accumulator on the frame `f`, and
-- gives the number of bytes that are kept: a load takes two bytes, the high one first, and ends
-- with 0 behind the end of the frame; a comparison skips instructions; a return ends.
pub record IsFilterMachine (exec : List SockFilter → ℕ → List ℕ → ℕ) : Type 0 where
  pub loads :
      (jt jf k a hi lo : ℕ) (p : List SockFilter) (f rest : List ℕ)
      → drop k f ≡ hi ∷ lo ∷ rest
      → exec (ldh jt jf k ∷ p) a f ≡ exec p (hi * 256 + lo) f
  pub ends :
      (jt jf k a : ℕ) (p : List SockFilter) (f : List ℕ)
      → length f < k + 2
      → exec (ldh jt jf k ∷ p) a f ≡ 0
  pub compares :
      (jt jf k a : ℕ) (p : List SockFilter) (f : List ℕ)
      → exec (jeq jt jf k ∷ p) a f ≡ exec (drop (if a == k then jt else jf) p) a f
  pub returns : (jt jf k a : ℕ) (p : List SockFilter) (f : List ℕ) → exec (ret jt jf k ∷ p) a f ≡ k

drop-12-frame_of :
    (s : List ℕ) (hi lo : ℕ) (payload : List ℕ)
    → length s ≡ 6
    → drop 12 (frame_of broadcast s hi lo payload) ≡ hi ∷ lo ∷ payload
drop-12-frame_of s hi lo payload l = drop-append_left 6 s (hi ∷ lo ∷ payload) l

-- A broadcast of a magic packet with no tag.
abbrev pub IsUntagged : List ℕ → Text → List ℕ → Type 0
IsUntagged f t src =
    (payload : List ℕ) × (length src ≡ 6)
    × (f ≡ frame_of broadcast src 8 66 payload)
    × Announced payload t

module _ {exec : List SockFilter → ℕ → List ℕ → ℕ} (machine : IsFilterMachine exec) where
  open machine use {loads, compares, returns}

  exec-bpf :
      (f : List ℕ) (hi lo : ℕ) (rest : List ℕ)
      → drop 12 f ≡ hi ∷ lo ∷ rest
      → exec bpf 0 f ≡ (if hi * 256 + lo == 0x0842 then 0x00040000 else 0)
  exec-bpf f hi lo rest e =
      loads 0 0 12 0 hi lo _ f rest e
      ∙ (compares 0 1 0x0842 (hi * 256 + lo) _ f ∙ elim (Bool-cases (hi * 256 + lo == 0x0842)) [
        | inl same ↦ rw same (returns 0 0 0x00040000 (hi * 256 + lo) _ f)
        | inr other ↦ rw other (returns 0 0 0 (hi * 256 + lo) _ f)
      ])

  Carries→IsUntagged :
      (f : List ℕ) (t : Text) (src : List ℕ)
      → Carries f t src
      → 0 < exec bpf 0 f
      → IsUntagged f t src
  Carries→IsUntagged f t src (plain payload l e a) kept = (payload, l, e, a)
  Carries→IsUntagged f t src (tagged x y payload l e a) kept =
      let dropped =
        exec-bpf f 129 0 (x ∷ y ∷ 8 ∷ 66 ∷ payload)
          (rw e (drop-12-frame_of src 129 0 (x ∷ y ∷ 8 ∷ 66 ∷ payload) l)) in
      absurd (omega arith)

  -- Where the filter is attached: of bytes that are received, the filter keeps them and a detection
  -- with the text `t` and the source `src` is made of them exactly when they are a broadcast from
  -- `src` with EtherType 0x0842 and no VLAN tag, of a magic packet for the address of `t`.
  pub filtered_iff :
      (f : List ℕ) (t : Text) (src : List ℕ)
      → All IsByte f
      → ((0 < exec bpf 0 f) × (listen_frame f ≡ done (some (t, src)))) ↔ IsUntagged f t src
  filtered_iff f t src bytes = (
    λ (kept, h). Carries→IsUntagged f t src ((listen_frame_iff f t src bytes).0 h) kept,
    λ (payload, l, e, a).
        let kept = exec-bpf f 8 66 payload (rw e (drop-12-frame_of src 8 66 payload l)) in
        (omega arith, (listen_frame_iff f t src bytes).1 (plain payload l e a)),
  )
