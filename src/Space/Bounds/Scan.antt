-- ===== src/Space/Bounds/Scan.antt =====
-- The scans of `fungespace_minimize_bounds` for one dimension.
use cfunge.Prelude.{
  ℕ, zero, suc, ◌≡◌, ◌≢◌, ◌⊎◌, refl, ap, ◌∙◌, arith, Bool, true, false, ◌==◌, Bool-cases, inl, inr,
}
use cfunge.Cell.{IsCell, add, sub, slt}
use cfunge.Space.Bounds.{scan_up, scan_down, scan_inward}

-- An end of a scan: the other end of the interval, or a line in use.
abbrev pub AtEnd : (ℕ → ℕ) → ℕ → ℕ → Type 0
AtEnd count goal at = (at ≡ goal) ⊎ (count at ≢ 0)

count_nonzero : (n : ℕ) → (n == 0) ≡ false → n ≢ 0
count_nonzero n h = ground arith

count_zero : (n : ℕ) → (n == 0) ≡ true → n ≡ 0
count_zero n h = ground arith

same : (a b : ℕ) → (a == b) ≡ true → a ≡ b
same a b h = ground arith

above_lo :
    (at lo hi : ℕ)
    → IsCell at
    → IsCell lo
    → IsCell hi
    → slt lo hi ≡ true
    → slt at (add lo 1) ≡ false
    → slt at lo ≡ false
above_lo at lo hi ca cl ch m h = ground arith

below_hi :
    (at lo hi : ℕ)
    → IsCell at
    → IsCell lo
    → IsCell hi
    → slt lo hi ≡ true
    → slt (sub hi 1) at ≡ false
    → slt hi at ≡ false
below_hi at lo hi ca cl ch m h = ground arith

-- The scan from below ends at a line in use or at the other end, and passes no line in use.
scan_up_lem :
    (count : ℕ → ℕ) (fuel lo hi : ℕ)
    → IsCell lo
    → IsCell hi
    → slt hi lo ≡ false
    → sub hi lo ≡ fuel
    → let at = scan_up count fuel lo hi in
      AtEnd count hi at
      × IsCell at
      × (slt hi at ≡ false)
      × (slt at lo ≡ false)
      × ((x : ℕ) → IsCell x → slt x lo ≡ false → slt x at ≡ true → count x ≡ 0)
unfolding scan_up
scan_up_lem count zero lo hi cl ch o f =
    (inl (omega arith), cl, o, ground arith, λ x cx a b. ground arith)
scan_up_lem count (suc fuel) lo hi cl ch o f =
    let more : slt lo hi ≡ true = ground arith in
    elim (Bool-cases (count lo == 0)) [
      | inr used ↦
          rw (more, used)
            (inr (count_nonzero (count lo) used), cl, o, ground arith, λ x cx a b. ground arith)
      | inl free ↦
          let lo' = add lo 1 in
          let (end, cell, below, above, rest) =
            scan_up_lem count fuel lo' hi (omega arith) ch (ground arith) (ground arith) in
          rw (more, free)
            (
              end,
              cell,
              below,
              above_lo (scan_up count fuel lo' hi) lo hi cell cl ch more above,
              λ x cx a b. elim (Bool-cases (x == lo)) [
                | inl here ↦ ap count (same x lo here) ∙ count_zero (count lo) free
                | inr there ↦ rest x cx (ground arith) b
              ],
            )
    ]

-- The scan from above ends at a line in use or at the other end, and passes no line in use.
scan_down_lem :
    (count : ℕ → ℕ) (fuel lo hi : ℕ)
    → IsCell lo
    → IsCell hi
    → slt hi lo ≡ false
    → sub hi lo ≡ fuel
    → let at = scan_down count fuel lo hi in
      AtEnd count lo at
      × IsCell at
      × (slt at lo ≡ false)
      × (slt hi at ≡ false)
      × ((x : ℕ) → IsCell x → slt hi x ≡ false → slt at x ≡ true → count x ≡ 0)
unfolding scan_down
scan_down_lem count zero lo hi cl ch o f =
    (inl (omega arith), ch, o, ground arith, λ x cx a b. ground arith)
scan_down_lem count (suc fuel) lo hi cl ch o f =
    let more : slt lo hi ≡ true = ground arith in
    elim (Bool-cases (count hi == 0)) [
      | inr used ↦
          rw (more, used)
            (inr (count_nonzero (count hi) used), ch, o, ground arith, λ x cx a b. ground arith)
      | inl free ↦
          let hi' = sub hi 1 in
          let (end, cell, above, below, rest) =
            scan_down_lem count fuel lo hi' cl (omega arith) (ground arith) (ground arith) in
          rw (more, free)
            (
              end,
              cell,
              above,
              below_hi (scan_down count fuel lo hi') lo hi cell cl ch more below,
              λ x cx a b. elim (Bool-cases (x == hi)) [
                | inl here ↦ ap count (same x hi here) ∙ count_zero (count hi) free
                | inr there ↦ rest x cx (ground arith) b
              ],
            )
    ]

-- What the two scans of one dimension leave of an interval.
pub record Tight (count : ℕ → ℕ) (lo hi : ℕ) (box : ℕ × ℕ) : Type 0 where
  pub ordered : slt box.1 box.0 ≡ false
  pub lower : (box.0 ≡ hi) ⊎ (count box.0 ≢ 0)
  pub upper : (box.1 ≡ box.0) ⊎ (count box.1 ≢ 0)
  pub covers :
      (x : ℕ)
      → IsCell x
      → slt x lo ≡ false
      → slt hi x ≡ false
      → count x ≢ 0
      → (slt x box.0 ≡ false) × (slt box.1 x ≡ false)

not_true : (b : Bool) → (b ≡ true → ⊥) → b ≡ false
not_true true h = absurd (h refl)
not_true false h = refl

-- The scans of one dimension, on an interval of cells that is not empty, leave an interval that
-- holds every line in use of the first, and whose lower and upper ends are lines in use, unless
-- the lower one is the old upper one or both are the same.
pub scan_inward-Tight :
    (count : ℕ → ℕ) (lo hi : ℕ)
    → IsCell lo
    → IsCell hi
    → slt hi lo ≡ false
    → Tight count lo hi (scan_inward count lo hi)
unfolding scan_inward
scan_inward-Tight count lo hi cl ch o =
    let (end, cell, below, above, before) = scan_up_lem count (sub hi lo) lo hi cl ch o refl in
    let lo' = scan_up count (sub hi lo) lo hi in
    let (end', cell', above', below', behind) =
      scan_down_lem count (sub hi lo') lo' hi cell ch below refl in
    record {
      ordered = above';
      lower = end;
      upper = end';
      covers = λ x cx a b used. (
        not_true _ λ left. used (before x cx a left),
        not_true _ λ right. used (behind x cx b right),
      );
    }
