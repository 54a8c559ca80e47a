-- ===== src/RawListener/Handled.antt =====
-- What is detected behind an EtherType.
use kubevirt_wol.RawListener.View.{broadcast, is_broadcast-six, slice-take, slice-drop}
use kubevirt_wol.Common.{
  ℕ, ◌+◌, ◌*◌, ◌≡◌, inl, inr, refl, List, ◌∷◌, false, none, some, Text, arith, length, done, Run,
  ltb, ◌==◌, Bool-cases,
}
use kubevirt_wol.Packet.Spec.{mac_text}
use kubevirt_wol.Packet.Decide.{Announces, parse_magic_packet_iff, parse_magic_packet-total}
use kubevirt_wol.RawListener.{Detected, handle_payload, handle_tagged}

-- The payload announces the address of the text.
abbrev pub Announced : List ℕ → Text → Type 0
Announced payload t = (m : List ℕ) × Announces payload m × (mac_text m ≡ t)

-- What is detected behind an EtherType: nothing, or a broadcast of a magic packet under 0x0842.
pub data Handled (d s : List ℕ) (ether_type : ℕ) (payload : List ℕ) : Run Detected → Type 0 where
  ignored :
      ((t : Text) → ether_type ≡ 2114 → d ≡ broadcast → Announced payload t → ⊥)
      → Handled d s ether_type payload (done none)
  detected :
      (t : Text)
      → ether_type ≡ 2114
      → d ≡ broadcast
      → Announced payload t
      → Handled d s ether_type payload (done (some (t, s)))

pub handle_payload-Handled :
    (d s : List ℕ) (ether_type : ℕ) (payload : List ℕ)
    → length d ≡ 6
    → Handled d s ether_type payload (handle_payload d s ether_type payload)
handle_payload-Handled d s ether_type payload l = elim (Bool-cases (ether_type == 2114)) [
  | inr fails ↦ rw fails (ignored (λ t e b a. ground arith))
  | inl holds ↦ elim (is_broadcast-six d l) [
    | inr (fails, differs) ↦ rw (holds, fails) (ignored (λ t e b a. differs b))
    | inl (fine, same) ↦ elim (parse_magic_packet-total payload) [
      | inl rejected ↦
          rw (holds, fine, rejected)
            (ignored (λ t e b a. let p = (parse_magic_packet_iff payload t).1 a in cc))
      | inr (m, announced, parsed) ↦
          rw (holds, fine, parsed) (detected (mac_text m) (ground arith) same (m, announced, refl))
    ]
  ]
]

pub Announced-unique :
    (payload : List ℕ) (t t' : Text) → Announced payload t → Announced payload t' → t ≡ t'
Announced-unique payload t t' a a' =
    let p = (parse_magic_packet_iff payload t).1 a in
    let p' = (parse_magic_packet_iff payload t').1 a' in cc

pub Handled→detected :
    {d s src : List ℕ} {ether_type : ℕ} {payload : List ℕ} {t : Text} {r : Run Detected}
    → Handled d s ether_type payload r
    → r ≡ done (some (t, src))
    → (ether_type ≡ 2114) × (d ≡ broadcast) × (s ≡ src) × Announced payload t
Handled→detected (ignored h) e = cc
Handled→detected {s} {src} {payload} {t} (detected t' e b a) h =
    let same : t' ≡ t = cc in (e, b, cc, rw (← same) a)

pub detected→Handled :
    {d s : List ℕ} {ether_type : ℕ} {payload : List ℕ} {t : Text} {r : Run Detected}
    → Handled d s ether_type payload r
    → ether_type ≡ 2114
    → d ≡ broadcast
    → Announced payload t
    → r ≡ done (some (t, s))
detected→Handled {t} (ignored h) e b a = absurd (h t e b a)
detected→Handled {s} {payload} {t} (detected t' e' b' a') e b a =
    let same = Announced-unique payload t' t a' a in rw same refl

pub handle_tagged-four :
    (d s : List ℕ) (a b hi lo : ℕ) (payload : List ℕ)
    → handle_tagged d s (a ∷ b ∷ hi ∷ lo ∷ payload) ≡ handle_payload d s (hi * 256 + lo) payload
handle_tagged-four d s a b hi lo payload =
    let p = a ∷ b ∷ hi ∷ lo ∷ payload in
    let long : ltb (length p) 4 ≡ false = ground arith in
    rw (long, slice-take 2 4 p (omega arith) (omega arith), slice-drop 4 p (omega arith)) refl
