-- ===== src/RawListener/Frames.antt =====
-- Which frames are detected: `processEthernetFrame` against the format of an Ethernet frame.
use kubevirt_wol.RawListener.Handled.{
  Announced, Handled, handle_payload-Handled, Handled→detected, detected→Handled,
  handle_tagged-four, ignored, detected,
}
use kubevirt_wol.RawListener.View.{broadcast, frame_of, process-frame_of, view}
use kubevirt_wol.Common.{
  ℕ, ◌+◌, ◌*◌, ◌≤◌, ◌<◌, ◌≡◌, ◌↔◌, inl, inr, refl, sym, ◌∙◌, List, [], ◌∷◌, ◌++◌, false, none, some,
  Text, arith, All, length, done, Run, length-append, leb, ◌==◌, Bool-cases,
}
use kubevirt_wol.Packet.{parse_magic_packet}
use kubevirt_wol.Packet.Decide.{parse_magic_packet_iff}
use kubevirt_wol.RawListener.{
  Detected, handle_payload, handle_tagged, handle_header, process_ethernet_frame, listen_frame,
}

abbrev pub IsByte : ℕ → Type 0
IsByte b = b < 256

-- A frame that carries a magic packet: a broadcast from `src` of a packet for the address of the text
-- `t`, with EtherType 0x0842, or that with a VLAN tag before it.
pub data Carries (f : List ℕ) (t : Text) (src : List ℕ) : Type 0 where
  plain :
      (payload : List ℕ)
      → length src ≡ 6
      → f ≡ frame_of broadcast src 8 66 payload
      → Announced payload t
      → Carries f t src
  tagged :
      (a b : ℕ) (payload : List ℕ)
      → length src ≡ 6
      → f ≡ frame_of broadcast src 129 0 (a ∷ b ∷ 8 ∷ 66 ∷ payload)
      → Announced payload t
      → Carries f t src

Carries→detected :
    (f : List ℕ) (t : Text) (src : List ℕ)
    → Carries f t src
    → process_ethernet_frame f ≡ done (some (t, src))
Carries→detected f t src (plain payload l e a) =
    rw (e, process-frame_of broadcast src 8 66 payload refl l)
      (detected→Handled (handle_payload-Handled broadcast src 2114 payload refl) refl refl a)
Carries→detected f t src (tagged x y payload l e a) =
    rw
      (
        e,
        process-frame_of broadcast src 129 0 (x ∷ y ∷ 8 ∷ 66 ∷ payload) refl l,
        handle_tagged-four broadcast src x y 8 66 payload,
      )
      (detected→Handled (handle_payload-Handled broadcast src 2114 payload refl) refl refl a)

All-right : (xs ys : List ℕ) → All IsByte (xs ++ ys) → All IsByte ys
All-right [] ys h = h
All-right (x ∷ xs) ys h = All-right xs ys h.1

tagged→Carries :
    (d s : List ℕ) (hi lo : ℕ) (payload : List ℕ) (t : Text) (src : List ℕ)
    → length d ≡ 6
    → length s ≡ 6
    → All IsByte (hi ∷ lo ∷ payload)
    → hi * 256 + lo ≡ 33024
    → handle_tagged d s payload ≡ done (some (t, src))
    → Carries (frame_of d s hi lo payload) t src
tagged→Carries d s hi lo [] t src ld ls bytes e h = cc
tagged→Carries d s hi lo (x ∷ []) t src ld ls bytes e h = cc
tagged→Carries d s hi lo (x ∷ y ∷ []) t src ld ls bytes e h = cc
tagged→Carries d s hi lo (x ∷ y ∷ hi' ∷ []) t src ld ls bytes e h = cc
tagged→Carries d s hi lo (x ∷ y ∷ hi' ∷ lo' ∷ rest) t src ld ls
      (bh, (bl, (bx, (by', (bh', (bl', br)))))) e h =
    let (e', b, same, a) =
      Handled→detected (handle_payload-Handled d s (hi' * 256 + lo') rest ld)
        (sym (handle_tagged-four d s x y hi' lo' rest) ∙ h) in
    let eh : hi ≡ 129 = omega arith in
    let el : lo ≡ 0 = omega arith in
    let eh' : hi' ≡ 8 = omega arith in
    let el' : lo' ≡ 66 = omega arith in
    rw (eh, el, eh', el', b, same) (tagged x y rest (rw (← same) ls) refl a)

header→Carries :
    (d s : List ℕ) (hi lo : ℕ) (payload : List ℕ) (t : Text) (src : List ℕ)
    → length d ≡ 6
    → length s ≡ 6
    → All IsByte (hi ∷ lo ∷ payload)
    → handle_header d s (hi * 256 + lo) payload ≡ done (some (t, src))
    → Carries (frame_of d s hi lo payload) t src
header→Carries d s hi lo payload t src ld ls (bh, (bl, bp)) h =
    elim (Bool-cases (hi * 256 + lo == 33024)) [
      | inr untagged ↦
          let h' : handle_payload d s (hi * 256 + lo) payload ≡ done (some (t, src)) =
            ground (arith, untagged) in
          let (e, b, same, a) =
            Handled→detected (handle_payload-Handled d s (hi * 256 + lo) payload ld) h' in
          let eh : hi ≡ 8 = omega arith in
          let el : lo ≡ 66 = omega arith in
          rw (eh, el, b, same) (plain payload (rw (← same) ls) refl a)
      | inl is_tagged ↦
          tagged→Carries d s hi lo payload t src ld ls (bh, (bl, bp)) (ground arith)
            (ground (arith, is_tagged))
    ]

frame-length :
    (d s : List ℕ) (hi lo : ℕ) (payload : List ℕ)
    → length d ≡ 6
    → length s ≡ 6
    → length (frame_of d s hi lo payload) ≡ 14 + length payload
frame-length d s hi lo payload ld ls =
    omega (arith, length-append d (s ++ hi ∷ lo ∷ payload), length-append s (hi ∷ lo ∷ payload))

Announced-length : (payload : List ℕ) (t : Text) → Announced payload t → 1 ≤ length payload
unfolding parse_magic_packet
Announced-length [] t a = let p = (parse_magic_packet_iff [] t).1 a in cc
Announced-length (x ∷ payload) t a = omega arith

Carries-long : (f : List ℕ) (t : Text) (src : List ℕ) → Carries f t src → 14 < length f
Carries-long f t src (plain payload l e a) =
    rw e
      (omega (arith, frame-length broadcast src 8 66 payload refl l, Announced-length payload t a))
Carries-long f t src (tagged x y payload l e a) =
    rw e (omega (arith, frame-length broadcast src 129 0 (x ∷ y ∷ 8 ∷ 66 ∷ payload) refl l))

process→Carries :
    (f : List ℕ) (t : Text) (src : List ℕ)
    → All IsByte f
    → 14 ≤ length f
    → process_ethernet_frame f ≡ done (some (t, src))
    → Carries f t src
process→Carries f t src bytes long h =
    let (d, s, hi, lo, payload, ld, ls, e) = view f long in
    let all : All IsByte (frame_of d s hi lo payload) = rw (← e) bytes in
    rw e (
      header→Carries d s hi lo payload t src ld ls
        (All-right s (hi ∷ lo ∷ payload) (All-right d (s ++ hi ∷ lo ∷ payload) all))
        (sym (process-frame_of d s hi lo payload ld ls) ∙ rw (← e) h))

-- Of bytes that are received, a detection with the text `t` and the source `src` is made exactly
-- when they are a frame that carries a magic packet for the address of `t` from `src`: a broadcast
-- with EtherType 0x0842, or that with a VLAN tag before it.
pub listen_frame_iff :
    (f : List ℕ) (t : Text) (src : List ℕ)
    → All IsByte f
    → (listen_frame f ≡ done (some (t, src))) ↔ Carries f t src
unfolding listen_frame
listen_frame_iff f t src bytes = (
  λ h. elim (Bool-cases (leb (length f) 14)) [
    | inl short ↦ absurd (ground (arith, short))
    | inr long ↦ process→Carries f t src bytes (ground arith) (ground (arith, long))
  ],
  λ c.
      let long : leb (length f) 14 ≡ false = ground (arith, Carries-long f t src c) in
      rw long (Carries→detected f t src c),
)

Handled-done :
    {d s : List ℕ} {ether_type : ℕ} {payload : List ℕ} {r : Run Detected}
    → Handled d s ether_type payload r
    → (o : Detected) × (r ≡ done o)
Handled-done (ignored h) = (none, refl)
Handled-done {s} (detected t e b a) = (some (t, s), refl)

handle_tagged-done :
    (d s payload : List ℕ) → length d ≡ 6 → (o : Detected) × (handle_tagged d s payload ≡ done o)
handle_tagged-done d s [] l = (none, refl)
handle_tagged-done d s (x ∷ []) l = (none, refl)
handle_tagged-done d s (x ∷ y ∷ []) l = (none, refl)
handle_tagged-done d s (x ∷ y ∷ hi ∷ []) l = (none, refl)
handle_tagged-done d s (x ∷ y ∷ hi ∷ lo ∷ rest) l =
    rw (handle_tagged-four d s x y hi lo rest)
      (Handled-done (handle_payload-Handled d s (hi * 256 + lo) rest l))

handle_header-done :
    (d s : List ℕ) (ether_type : ℕ) (payload : List ℕ)
    → length d ≡ 6
    → (o : Detected) × (handle_header d s ether_type payload ≡ done o)
handle_header-done d s ether_type payload l = elim (Bool-cases (ether_type == 33024)) [
  | inl is_tagged ↦ rw is_tagged (handle_tagged-done d s payload l)
  | inr untagged ↦ rw untagged (Handled-done (handle_payload-Handled d s ether_type payload l))
]

-- Whatever bytes are received, however few, the listener reads none out of range.
pub listen_frame-total : (f : List ℕ) → (o : Detected) × (listen_frame f ≡ done o)
unfolding listen_frame
listen_frame-total f = elim (Bool-cases (leb (length f) 14)) [
  | inl short ↦ rw short (none, refl)
  | inr long ↦
      let (d, s, hi, lo, payload, ld, ls, e) = view f (ground arith) in
      rw (long, e, process-frame_of d s hi lo payload ld ls)
        (handle_header-done d s (hi * 256 + lo) payload ld)
]
