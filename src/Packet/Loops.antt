-- ===== src/Packet/Loops.antt =====
-- The three loops of the parser, as tests on the bytes from where they start.
use kubevirt_wol.Common.{
  ℕ, zero, suc, ◌+◌, ◌*◌, ◌≤◌, ◌≡◌, refl, List, [], ◌∷◌, ◌++◌, Bool, true, false, append_assoc,
  arith, ◌==◌, if◌then◌else◌, length, drop, replicate, done, get_elem?-of_drop, drop-suc_of_drop,
  drop-drop, length-drop, drop-append_left,
}
use kubevirt_wol.Packet.{check_sync, check_row, check_rows}
use kubevirt_wol.Packet.Spec.{repeat}

-- The first n bytes are 0xFF.
unfoldable pub ones : ℕ → List ℕ → Bool
ones zero q = true
ones (suc n) [] = false
ones (suc n) (b ∷ q) = let rest = ones n q in if b == 255 then rest else false

-- The first n bytes of the two lists agree.
unfoldable pub same : ℕ → List ℕ → List ℕ → Bool
same zero m q = true
same (suc n) (c ∷ m) (b ∷ q) = let rest = same n m q in if b == c then rest else false
same (suc n) _ _ = false

-- n copies of the address stand in front.
unfoldable pub rows : ℕ → List ℕ → List ℕ → Bool
unfolding same
rows zero mac q = true
rows (suc n) mac q = let rest = rows n mac (drop 6 q) in if same 6 mac q then rest else false

pub check_sync-ones :
    (n i : ℕ) (p q : List ℕ) → drop i p ≡ q → n ≤ length q → check_sync n i p ≡ done (ones n q)
unfolding check_sync ones
check_sync-ones zero i p q e h = refl
check_sync-ones (suc n) i p [] e h = absurd (omega arith)
check_sync-ones (suc n) i p (b ∷ q) e h =
    rw
      (
        get_elem?-of_drop i p e,
        check_sync-ones n (suc i) p q (drop-suc_of_drop i p e) (omega arith),
      )
      (ground arith)

pub check_row-same :
    (n offset j : ℕ) (p mac q m : List ℕ)
    → drop (offset + j) p ≡ q
    → drop j mac ≡ m
    → n ≤ length q
    → n ≤ length m
    → check_row n offset j p mac ≡ done (same n m q)
unfolding check_row same
check_row-same zero offset j p mac q m e f h k = refl
check_row-same (suc n) offset j p mac [] m e f h k = absurd (omega arith)
check_row-same (suc n) offset j p mac (b ∷ q) [] e f h k = absurd (omega arith)
check_row-same (suc n) offset j p mac (b ∷ q) (c ∷ m) e f h k =
    let s : suc (offset + j) ≡ offset + suc j = omega arith in
    rw
      (
        get_elem?-of_drop (offset + j) p e,
        get_elem?-of_drop j mac f,
        check_row-same n offset (suc j) p mac q m (rw (← s) (drop-suc_of_drop (offset + j) p e))
            (drop-suc_of_drop j mac f) (omega arith) (omega arith),
      )
      (ground arith)

pub check_rows-rows :
    (n i : ℕ) (p mac q : List ℕ)
    → drop (6 + i * 6) p ≡ q
    → length mac ≡ 6
    → n * 6 ≤ length q
    → check_rows n i p mac ≡ done (rows n mac q)
unfolding check_rows rows
check_rows-rows zero i p mac q e l h = refl
check_rows-rows (suc n) i p mac q e l h =
    let s : 6 + i * 6 + 0 ≡ 6 + i * 6 = omega arith in
    let t : 6 + suc i * 6 ≡ 6 + i * 6 + 6 = omega arith in
    rw
      (
        check_row-same 6 (6 + i * 6) 0 p mac q mac (rw s e) refl (omega arith) (omega arith),
        check_rows-rows n (suc i) p mac (drop 6 q) (rw (t, ← drop-drop 6 (6 + i * 6) p, e)) l
            (omega (arith, length-drop 6 q)),
      )
      (ground arith)

pub ones-split : (n : ℕ) (q : List ℕ) → ones n q ≡ true → q ≡ replicate n 255 ++ drop n q
unfolding ones
ones-split zero q h = refl
ones-split (suc n) [] h = cc
ones-split (suc n) (b ∷ q) h = ground (arith, ones-split n q)

pub ones-append : (n : ℕ) (r : List ℕ) → ones n (replicate n 255 ++ r) ≡ true
unfolding ones
ones-append zero r = refl
ones-append (suc n) r = ground (arith, ones-append n r)

pub same-split : (n : ℕ) (m q : List ℕ) → length m ≡ n → same n m q ≡ true → q ≡ m ++ drop n q
unfolding same
same-split zero [] q l h = refl
same-split zero (c ∷ m) q l h = absurd (omega arith)
same-split (suc n) [] q l h = absurd (omega arith)
same-split (suc n) (c ∷ m) [] l h = cc
same-split (suc n) (c ∷ m) (b ∷ q) l h = ground (arith, same-split n m q)

pub same-append : (n : ℕ) (m r : List ℕ) → length m ≡ n → same n m (m ++ r) ≡ true
unfolding same
same-append zero m r l = refl
same-append (suc n) [] r l = absurd (omega arith)
same-append (suc n) (c ∷ m) r l = ground (arith, same-append n m r)

pub rows-split :
    (n : ℕ) (mac q : List ℕ)
    → length mac ≡ 6
    → rows n mac q ≡ true
    → (rest : List ℕ) × (q ≡ repeat n mac ++ rest)
unfolding rows repeat
rows-split zero mac q l h = (q, refl)
rows-split (suc n) mac q l h =
    let first : same 6 mac q ≡ true = ground arith in
    let (rest, e) = rows-split n mac (drop 6 q) l (ground arith) in
    (rest, cc (same-split 6 mac q l first, append_assoc mac (repeat n mac) rest))

pub rows-append : (n : ℕ) (mac r : List ℕ) → length mac ≡ 6 → rows n mac (repeat n mac ++ r) ≡ true
unfolding rows repeat
rows-append zero mac r l = refl
rows-append (suc n) mac r l =
    rw
      (
        append_assoc mac (repeat n mac) r,
        same-append 6 mac (repeat n mac ++ r) l,
        drop-append_left 6 mac (repeat n mac ++ r) l,
      )
      (rows-append n mac r l)
