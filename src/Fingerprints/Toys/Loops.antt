-- ===== src/Fingerprints/Toys/Loops.antt =====
-- src/fingerprints/TOYS/TOYS.c: the two shapes of its loops, as folds over the numbers of their
-- rounds.
use cfunge.Prelude.{ℕ, zero, suc, Option, some, ◌>>=◌, if◌then◌else◌}
use cfunge.Cell.{add, slt}

-- The rounds of a counter that starts at `from` and stays below `from + width`. A sum that
-- overflows is below its start, or else bounds as many rounds as the pattern of `width` says.
abbrev pub rounds_of : ℕ → ℕ → ℕ
rounds_of from width = if slt from (add from width) then width else 0

module _ {ℓ} {A : Type ℓ} where
  -- The rounds 0, 1, ..., n - 1
  unfoldable pub ascending : (ℕ → A → Option A) → ℕ → A → Option A
  ascending f zero a = some a
  ascending f (suc n) a = ascending f n a >>= f n

  -- The rounds n - 1, ..., 1, 0
  unfoldable pub descending : (ℕ → A → Option A) → ℕ → A → Option A
  descending f zero a = some a
  descending f (suc n) a = f n a >>= descending f n

  -- Two nested loops, the outer one over y.
  abbrev pub rows_up : (ℕ → ℕ → A → Option A) → ℕ → ℕ → A → Option A
  rows_up f w h = ascending (λ y. ascending (λ x. f x y) w) h

  abbrev pub rows_down : (ℕ → ℕ → A → Option A) → ℕ → ℕ → A → Option A
  rows_down f w h = descending (λ y. descending (λ x. f x y) w) h
