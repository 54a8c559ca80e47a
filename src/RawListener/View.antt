-- ===== src/RawListener/View.antt =====
-- Every slice of 14 bytes and more is an Ethernet frame, and how `processEthernetFrame` takes it apart.
use kubevirt_wol.Common.{
  ◌&&◌, ℕ, ◌+◌, ◌*◌, ◌-◌, ◌≤◌, ◌≡◌, ◌≢◌, ◌⊎◌, inl, inr, refl, sym, ap, ◌∙◌, List, [], ◌∷◌, ◌++◌,
  true, false, arith, length, take, drop, replicate, done, slice, length-drop, length-take_of_le,
  take-append-drop, drop-drop, ◌==◌, Bool-cases,
}
use kubevirt_wol.RawListener.{all_ones, is_broadcast_mac, handle_header, process_ethernet_frame}

pub slice-take :
    (lo hi : ℕ) (xs : List ℕ)
    → lo ≤ hi
    → hi ≤ length xs
    → slice lo hi xs ≡ done (take (hi - lo) (drop lo xs))
slice-take lo hi xs h k = ground arith

pub take-length : (xs : List ℕ) → take (length xs) xs ≡ xs
take-length [] = refl
take-length (x ∷ xs) = ap (λ r. x ∷ r) (take-length xs)

-- xs[lo:]
pub slice-drop :
    (lo : ℕ) (xs : List ℕ) → lo ≤ length xs → slice lo (length xs) xs ≡ done (drop lo xs)
slice-drop lo xs h =
    slice-take lo (length xs) xs h (omega arith)
    ∙ ap done (rw (← length-drop lo xs) (take-length (drop lo xs)))

abbrev pub broadcast : List ℕ
broadcast = replicate 6 255

-- A frame: two addresses, the two bytes of the EtherType, and the payload.
abbrev pub frame_of : List ℕ → List ℕ → ℕ → ℕ → List ℕ → List ℕ
frame_of d s hi lo payload = d ++ (s ++ hi ∷ lo ∷ payload)

pub process-frame_of :
    (d s : List ℕ) (hi lo : ℕ) (payload : List ℕ)
    → length d ≡ 6
    → length s ≡ 6
    → process_ethernet_frame (frame_of d s hi lo payload)
      ≡ handle_header d s (hi * 256 + lo) payload
unfolding process_ethernet_frame
process-frame_of (d0 ∷ d1 ∷ d2 ∷ d3 ∷ d4 ∷ d5 ∷ []) (s0 ∷ s1 ∷ s2 ∷ s3 ∷ s4 ∷ s5 ∷ []) hi lo payload
      h k =
    let f =
      frame_of (d0 ∷ d1 ∷ d2 ∷ d3 ∷ d4 ∷ d5 ∷ []) (s0 ∷ s1 ∷ s2 ∷ s3 ∷ s4 ∷ s5 ∷ []) hi lo
        payload in
    rw
      (
        slice-take 0 6 f (omega arith) (omega arith),
        slice-take 6 12 f (omega arith) (omega arith),
        slice-take 12 14 f (omega arith) (omega arith),
        slice-drop 14 f (omega arith),
      )
      refl
process-frame_of d s hi lo payload h k = absurd (omega arith)

-- Every slice of 14 bytes and more is a frame.
abbrev pub View : List ℕ → Type 0
View f =
    (d : List ℕ) × (s : List ℕ) × (hi : ℕ) × (lo : ℕ) × (payload : List ℕ) × (length d ≡ 6)
    × (length s ≡ 6)
    × (f ≡ frame_of d s hi lo payload)

pub two_of : (xs : List ℕ) → 2 ≤ length xs → (a : ℕ) × (b : ℕ) × (r : List ℕ) × (xs ≡ a ∷ b ∷ r)
two_of [] h = absurd (omega arith)
two_of (a ∷ []) h = absurd (omega arith)
two_of (a ∷ b ∷ r) h = (a, b, r, refl)

pub view : (f : List ℕ) → 14 ≤ length f → View f
view f h =
    let (hi, lo, payload, e) = two_of (drop 12 f) (omega (arith, length-drop 12 f)) in
    (
      take 6 f,
      take 6 (drop 6 f),
      hi,
      lo,
      payload,
      length-take_of_le 6 f (omega arith),
      length-take_of_le 6 (drop 6 f) (omega (arith, length-drop 6 f)),
      sym (take-append-drop 6 f)
          ∙ ap (λ r. take 6 f ++ r)
              (sym (take-append-drop 6 (drop 6 f))
                ∙ ap (λ r. take 6 (drop 6 f) ++ r) (drop-drop 6 6 f ∙ e)),
    )

pub is_broadcast-six :
    (d : List ℕ)
    → length d ≡ 6
    → ((is_broadcast_mac d ≡ done true) × (d ≡ broadcast))
      ⊎ ((is_broadcast_mac d ≡ done false) × (d ≢ broadcast))
unfolding is_broadcast_mac all_ones
is_broadcast-six (a ∷ b ∷ c ∷ d ∷ e ∷ f ∷ []) h =
    elim (Bool-cases
      ((a == 255) && ((b == 255) && ((c == 255) && ((d == 255) && ((e == 255) && (f == 255))))))) [
        | inl holds ↦ inl (ground arith, ground arith)
        | inr fails ↦ inr (ground arith, λ same. ground arith)
      ]
is_broadcast-six d h = absurd (omega arith)
