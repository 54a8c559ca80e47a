-- ===== src/Agent/Window.antt =====
-- The window of an agent: of the packets for one address, which are reported.
use kubevirt_wol.Common.{
  Bool-cases, suc-mul, inl, inr, ltb→lt, not, All, ap, sym, ◌∙◌, ltb→le, ℕ, suc, ◌+◌, ◌*◌, ◌-◌, ◌≤◌,
  ◌<◌, ◌≡◌, refl, List, [], ◌∷◌, Bool, true, false, none, some, Text, arith, get, put, get-put_self,
  IsMap, get-retain, ltb, if◌then◌else◌, Option-cases,
}
use kubevirt_wol.Agent.{Agent, Clock, should_process, seen_within, cleanup_cache}

-- The agent saw the address, last at `last`.
abbrev pub LastKept : ℕ → Text → Agent → Type 0
LastKept last mac a = get mac a.dedupe_cache ≡ some last

-- How many packets of one address are reported, from the times at which they are checked and kept.
unfoldable pub reports : List Clock → Text → Agent → ℕ
reports [] mac a = 0
reports (t ∷ ts) mac a =
    let (a', fresh) = should_process t mac a in
    let rest = reports ts mac a' in if fresh then suc rest else rest

-- The times of the packets: they do not go back, and a time is kept right after it is checked.
abbrev pub Between : ℕ → ℕ → List Clock → Type 0
Between now until [] = Unit
Between now until (t ∷ ts) =
    (now ≤ t.checked) × (t.checked ≤ t.kept) × (t.kept ≤ until) × Between t.kept until ts

Between-earlier :
    (ts : List Clock) (now earlier until : ℕ)
    → earlier ≤ now
    → Between now until ts
    → Between earlier until ts
Between-earlier [] now earlier until e h = tt
Between-earlier (t ∷ ts) now earlier until e (a, b, c, d) = (omega arith, b, c, d)

-- Where an address was kept at `last`, and time does not go back, the number of reports of it until
-- `until` times the window is at most the time that passes, however many packets come.
pub reports_lem :
    (ts : List Clock) (mac : Text) (a : Agent) (last until : ℕ)
    → LastKept last mac a
    → Between last until ts
    → reports ts mac a * a.dedupe_duration ≤ until - last
unfolding reports should_process
reports_lem [] mac a last until kept order = omega arith
reports_lem (t ∷ ts) mac a last until kept (c, k, u, rest) =
    elim (Bool-cases (ltb t.checked (last + a.dedupe_duration))) [
      | inl dup ↦
          let more =
            reports_lem ts mac a last until kept
              (Between-earlier ts t.kept last until (omega arith) rest) in
          rw (kept, dup) more
      | inr fresh ↦
          let a' : Agent = record a { dedupe_cache = put mac t.kept a.dedupe_cache } in
          let more =
            reports_lem ts mac a' t.kept until (get-put_self mac t.kept a.dedupe_cache) rest in
          rw (kept, fresh)
            (one_more (reports ts mac a') a.dedupe_duration more
              (ltb→le t.checked (last + a.dedupe_duration) fresh))
    ]
  where
    one_more : (r d : ℕ) → r * d ≤ until - t.kept → last + d ≤ t.checked → suc r * d ≤ until - last
    one_more r d h g = omega (arith, suc-mul)

-- What is reported depends on the window and on the time kept for the address only.
reports-same :
    (ts : List Clock) (mac : Text) (a b : Agent)
    → a.dedupe_duration ≡ b.dedupe_duration
    → get mac a.dedupe_cache ≡ get mac b.dedupe_cache
    → reports ts mac a ≡ reports ts mac b
unfolding reports should_process
reports-same [] mac a b d g = refl
reports-same (t ∷ ts) mac a b d g =
    elim (Bool-cases (seen_within t.checked a.dedupe_duration (get mac a.dedupe_cache))) [
      | inl dup ↦
          let dup' : seen_within t.checked b.dedupe_duration (get mac b.dedupe_cache) ≡ true =
            rw (← d, ← g) dup in
          rw (dup, dup') (reports-same ts mac a b d g)
      | inr fresh ↦
          let fresh' : seen_within t.checked b.dedupe_duration (get mac b.dedupe_cache) ≡ false =
            rw (← d, ← g) fresh in
          rw (fresh, fresh')
            (ap suc (
              reports-same ts mac (record a { dedupe_cache = put mac t.kept a.dedupe_cache })
                (record b { dedupe_cache = put mac t.kept b.dedupe_cache }) d
                (get-put_self mac t.kept a.dedupe_cache
                  ∙ sym (get-put_self mac t.kept b.dedupe_cache))))
    ]

-- Where the address was kept so long ago that a cleanup drops it, the next packet is reported anyway.
reports-stale :
    (ts : List Clock) (mac : Text) (a b : Agent) (now last : ℕ)
    → a.dedupe_duration ≡ b.dedupe_duration
    → get mac a.dedupe_cache ≡ none
    → get mac b.dedupe_cache ≡ some last
    → last + b.dedupe_duration * 3 < now
    → All (λ t. now ≤ t.checked) ts
    → reports ts mac a ≡ reports ts mac b
unfolding reports should_process
reports-stale [] mac a b now last d g h stale order = refl
reports-stale (t ∷ ts) mac a b now last d g h stale order =
    let late = order.0 in
    let fresh : ltb t.checked (last + b.dedupe_duration) ≡ false = ground arith in
    rw (g, h, fresh)
      (ap suc (
        reports-same ts mac (record a { dedupe_cache = put mac t.kept a.dedupe_cache })
          (record b { dedupe_cache = put mac t.kept b.dedupe_cache }) d
          (get-put_self mac t.kept a.dedupe_cache ∙ sym (get-put_self mac t.kept b.dedupe_cache))))

-- To clean up the cache changes nothing in what is reported afterwards, of whatever address, by
-- packets that are checked no earlier than the cleanup.
pub cleanup_cache_unobserved :
    (ts : List Clock) (mac : Text) (a : Agent) (now : ℕ)
    → IsMap a.dedupe_cache
    → All (λ t. now ≤ t.checked) ts
    → reports ts mac (cleanup_cache now a) ≡ reports ts mac a
unfolding cleanup_cache
cleanup_cache_unobserved ts mac a now map order =
    let keep : ℕ → Bool = λ last_seen. not (ltb (last_seen + a.dedupe_duration * 3) now) in
    let after = get-retain keep mac a.dedupe_cache map in
    elim (Option-cases (get mac a.dedupe_cache)) [
      | inl none_kept ↦
          reports-same ts mac (cleanup_cache now a) a refl (rw (after, none_kept) refl)
      | inr (last, h) ↦ elim (Bool-cases (ltb (last + a.dedupe_duration * 3) now)) [
        | inl stale ↦
            reports-stale ts mac (cleanup_cache now a) a now last refl (rw (after, h, stale) refl) h
              (ltb→lt (last + a.dedupe_duration * 3) now stale) order
        | inr recent ↦ reports-same ts mac (cleanup_cache now a) a refl (rw (after, h, recent) refl)
      ]
    ]
