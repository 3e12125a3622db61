-- ===== src/Fingerprints/Toys/Copy.antt =====
-- src/fingerprints/TOYS/TOYS.c: what the loops of C write.
use cfunge.Prelude.{
  ℕ, zero, suc, ◌^◌, ◌≤◌, ◌<◌, ◌≡◌, ◌≢◌, ◌⊎◌, inl, inr, refl, sym, ap, ◌∙◌, arith, Bool, true,
  false, Option, some, ◌>>=◌, ◌==◌, ◌||◌, if◌then◌else◌,
}
use cfunge.Cell.{add, is_neg}
use cfunge.Vector.{Vector, same_vector, IsVector}
use cfunge.Table.{HashLib}
use cfunge.Space.{Space, get, get_offset}
use cfunge.Space.Set.{set_offset}
use cfunge.Space.Bounds.Covers.{Covers, set_lem}
use cfunge.Stack.{Stack, pop_vector}
use cfunge.Ip.{Ip, toss, set_toss}
use cfunge.Fingerprints.Toys.Loops.{ascending, rows_up}
use cfunge.Fingerprints.Toys.Blocks.{copy_cell, on_block, bracelet}

-- The place of the cell (x, y) of a block at `v`.
abbrev pub cell_at : Vector → ℕ → ℕ → Vector
cell_at v x y = record { x = add x v.x; y = add y v.y }

cell_at-IsVector : (v : Vector) (x y : ℕ) → IsVector (cell_at v x y)
cell_at-IsVector v x y = record { x_cell = omega arith; y_cell = omega arith }

cell_at_other :
    (v : Vector) (x y a b : ℕ)
    → x < 2 ^ 63
    → y < 2 ^ 63
    → a < 2 ^ 63
    → b < 2 ^ 63
    → (x ≢ a) ⊎ (y ≢ b)
    → same_vector (cell_at v a b) (cell_at v x y) ≡ false
unfolding same_vector
cell_at_other v x y a b hx hy ha hb (inl ne) = ground arith
cell_at_other v x y a b hx hy ha hb (inr ne) = ground arith

same_self : (v : Vector) → same_vector v v ≡ true
unfolding same_vector
same_self v = ground arith

chosen : (b c : Bool) (x y : ℕ) → b ≡ c → (if b then x else y) ≡ (if c then x else y)
chosen b c x y e = ap (λ d. if d then x else y) e

module _ (lib : HashLib) (o t : Vector) (s₀ : Space lib) where
  -- A space in which the cells that `Done` names have been copied since `s₀`.
  pub record Copied (Done : ℕ → ℕ → Type 0) (s : Space lib) : Type 0 where
    pub written : (x y : ℕ) → Done x y → get lib s (cell_at t x y) ≡ get lib s₀ (cell_at o x y)
    pub kept :
        (q : Vector)
        → IsVector q
        → ((x y : ℕ) → Done x y → same_vector (cell_at t x y) q ≡ false)
        → get lib s q ≡ get lib s₀ q
    pub covers : Covers lib s

  copy_cell-Copied :
      (Done Done' : ℕ → ℕ → Type 0) (a b : ℕ) (s : Space lib)
      → Copied Done s
      → ((x y : ℕ) → Done x y → same_vector (cell_at t x y) (cell_at o a b) ≡ false)
      → ((x y : ℕ) → Done x y → same_vector (cell_at t a b) (cell_at t x y) ≡ false)
      → ((x y : ℕ) → Done x y → Done' x y)
      → Done' a b
      → ((x y : ℕ) → Done' x y → Done x y ⊎ ((x ≡ a) × (y ≡ b)))
      → (u : Space lib) × (copy_cell lib o t a b s ≡ some u) × Copied Done' u
  unfolding copy_cell set_offset get_offset
  copy_cell-Copied Done Done' a b s c source fresh more new only =
      let value = get lib s (cell_at o a b) in
      let (u, returns, reads, good) =
        set_lem lib value (cell_at t a b) s (cell_at-IsVector t a b) c.covers in
      let read : (q : Vector) (e : Bool)
          → IsVector q
          → same_vector (cell_at t a b) q ≡ e
          → get lib u q ≡ (if e then value else get lib s q) =
        λ q e hq same. reads q hq ∙ chosen _ e value (get lib s q) same in
      let here : get lib u (cell_at t a b) ≡ get lib s₀ (cell_at o a b) =
        read (cell_at t a b) true (cell_at-IsVector t a b) (same_self (cell_at t a b))
        ∙ c.kept (cell_at o a b) (cell_at-IsVector o a b) source in
      (
        u,
        returns,
        record {
          written = λ x y d. elim (only x y d) [
            | inl old ↦
                read (cell_at t x y) false (cell_at-IsVector t x y) (fresh x y old)
                ∙ c.written x y old
            | inr (ex, ey) ↦
                ap (λ i. get lib u (cell_at t i y)) ex
                ∙ ap (λ j. get lib u (cell_at t a j)) ey
                ∙ here
                ∙ ap (λ j. get lib s₀ (cell_at o a j)) (sym ey)
                ∙ ap (λ i. get lib s₀ (cell_at o i y)) (sym ex)
          ];
          kept = λ q hq none_here.
              read q false hq (none_here a b new)
              ∙ c.kept q hq (λ x y d. none_here x y (more x y d));
          covers = good;
        },
      )

  split_last : (x k : ℕ) → x < suc k → (x < k) ⊎ (x ≡ k)
  split_last x k h = omega arith

  -- The cells of the rows below `b`, and the first `k` of row `b`.
  Row : ℕ → ℕ → ℕ → ℕ → ℕ → Type 0
  Row w b k x y = ((y < b) × (x < w)) ⊎ ((y ≡ b) × (x < k))

  Row-suc : (w b k x y : ℕ) → Row w b k x y → Row w b (suc k) x y
  unfolding Row
  Row-suc w b k x y (inl d) = inl d
  Row-suc w b k x y (inr (e, h)) = inr (e, omega arith)

  Row-last : (w b k x y : ℕ) → Row w b (suc k) x y → Row w b k x y ⊎ ((x ≡ k) × (y ≡ b))
  unfolding Row
  Row-last w b k x y (inl d) = inl (inl d)
  Row-last w b k x y (inr (e, h)) = elim (split_last x k h) [
    | inl less ↦ inl (inr (e, less))
    | inr same ↦ inr (same, e)
  ]

  Row-new : (w b k : ℕ) → Row w b (suc k) k b
  unfolding Row
  Row-new w b k = inr (refl, omega arith)

  Row-full : (w n x y : ℕ) → Row w n w x y → Row w (suc n) 0 x y
  unfolding Row
  Row-full w n x y (inl (hy, hx)) = inl (omega arith, hx)
  Row-full w n x y (inr (e, hx)) = inl (omega arith, hx)

  Row-start : (w n x y : ℕ) → Row w (suc n) 0 x y → Row w n w x y
  unfolding Row
  Row-start w n x y (inl (hy, hx)) = elim (split_last y n hy) [
    | inl less ↦ inl (less, hx)
    | inr same ↦ inr (same, hx)
  ]
  Row-start w n x y (inr (e, hx)) = absurd (omega arith)

  Copied-same :
      {Done Done' : ℕ → ℕ → Type 0} {s : Space lib}
      → Copied Done s
      → ((x y : ℕ) → Done x y → Done' x y)
      → ((x y : ℕ) → Done' x y → Done x y)
      → Copied Done' s
  Copied-same c to from = record {
    written = λ x y d. c.written x y (from x y d);
    kept = λ q hq none_here. c.kept q hq (λ x y d. none_here x y (to x y d));
    covers = c.covers;
  }

  module _ (w h : ℕ) (narrow : w < 2 ^ 63) (low : h < 2 ^ 63)
      (later : (a b x y : ℕ)
        → a < w
        → b < h
        → Row w b a x y
        → same_vector (cell_at t x y) (cell_at o a b) ≡ false) where
    Row-fresh :
        (a b x y : ℕ)
        → a < w
        → b < h
        → Row w b a x y
        → same_vector (cell_at t a b) (cell_at t x y) ≡ false
    unfolding Row
    Row-fresh a b x y ha hb (inl (hy, hx)) =
        cell_at_other t x y a b (omega arith) (omega arith) (omega arith) (omega arith)
          (inr (omega arith))
    Row-fresh a b x y ha hb (inr (ey, hx)) =
        cell_at_other t x y a b (omega arith) (omega arith) (omega arith) (omega arith)
          (inl (omega arith))

    Row-Copied :
        (b k : ℕ) (s : Space lib)
        → b < h
        → k ≤ w
        → Copied (Row w b 0) s
        → (u : Space lib) × (ascending (λ x. copy_cell lib o t x b) k s ≡ some u)
          × Copied (Row w b k) u
    unfolding ascending
    Row-Copied b zero s hb hk c = (s, refl, c)
    Row-Copied b (suc k) s hb hk c =
        let (u, first, cu) = Row-Copied b k s hb (omega arith) c in
        let (v, second, cv) =
          copy_cell-Copied (Row w b k) (Row w b (suc k)) k b u cu
            (λ x y d. later k b x y (omega arith) hb d)
            (λ x y d. Row-fresh k b x y (omega arith) hb d) (λ x y. Row-suc w b k x y)
            (Row-new w b k) (λ x y. Row-last w b k x y) in
        (v, ap (λ r. r >>= copy_cell lib o t k b) first ∙ second, cv)

    rows-Copied :
        (n : ℕ) (s : Space lib)
        → n ≤ h
        → Copied (Row w 0 0) s
        → (u : Space lib) × (rows_up (copy_cell lib o t) w n s ≡ some u) × Copied (Row w n 0) u
    unfolding ascending
    rows-Copied zero s hn c = (s, refl, c)
    rows-Copied (suc n) s hn c =
        let (u, first, cu) = rows-Copied n s (omega arith) c in
        let (v, second, cv) = Row-Copied n w u (omega arith) (omega arith) cu in
        (
          v,
          ap (λ r. r >>= ascending (λ x. copy_cell lib o t x n) w) first ∙ second,
          Copied-same cv (Row-full w n) (Row-start w n),
        )

  pub block-Copied :
      (w h : ℕ)
      → w < 2 ^ 63
      → h < 2 ^ 63
      → ((a b x y : ℕ)
          → a < w
          → b < h
          → x < w
          → (y < b) ⊎ ((y ≡ b) × (x < a))
          → same_vector (cell_at t x y) (cell_at o a b) ≡ false)
      → Covers lib s₀
      → (u : Space lib) × (rows_up (copy_cell lib o t) w h s₀ ≡ some u)
        × Copied (λ x y. (x < w) × (y < h)) u
  unfolding Row
  block-Copied w h narrow low later c =
      let begin : Copied (Row w 0 0) s₀ = record {
        written = λ x y d. absurd (nowhere x y d);
        kept = λ q hq none_here. refl;
        covers = c;
      } in
      let (u, returns, cu) =
        rows-Copied w h narrow low
          (λ a b x y ha hb d. later a b x y ha hb (below a x y b ha d) (order a x y b d)) h s₀
          (omega arith) begin in
      (u, returns, Copied-same cu (λ x y. within x y) (λ x y d. inl (d.1, d.0)))
    where
      nowhere : (x y : ℕ) → Row w 0 0 x y → ⊥
      nowhere x y (inl d) = omega arith
      nowhere x y (inr d) = omega arith

      below : (a x y b : ℕ) → a < w → Row w b a x y → x < w
      below a x y b ha (inl d) = d.1
      below a x y b ha (inr d) = omega arith

      order : (a x y b : ℕ) → Row w b a x y → (y < b) ⊎ ((y ≡ b) × (x < a))
      order a x y b (inl d) = inl d.0
      order a x y b (inr d) = inr d

      within : (x y : ℕ) → Row w h 0 x y → (x < w) × (y < h)
      within x y (inl d) = (d.1, d.0)
      within x y (inr d) = absurd (omega arith)

in_block :
    (d : Vector)
    → 0 < d.x
    → d.x < 2 ^ 63
    → 0 < d.y
    → d.y < 2 ^ 63
    → ((d.x == 0 || d.y == 0) ≡ false) × ((is_neg d.x || is_neg d.y) ≡ false)
in_block d px nx py ny = ground arith

on_block_lem :
    (lib : HashLib) (loops : Vector → Vector → Vector → Space lib → Option (Space lib)) (ip : Ip)
    (s : Space lib) (t d o : Vector) (s₁ s₂ s₃ : Stack)
    → pop_vector (toss ip) ≡ (t, s₁)
    → pop_vector s₁ ≡ (d, s₂)
    → pop_vector s₂ ≡ (o, s₃)
    → (d.x == 0 || d.y == 0) ≡ false
    → (is_neg d.x || is_neg d.y) ≡ false
    → on_block lib loops ip s ≡ (loops o d t s >>= λ u. some (set_toss s₃ ip, u))
on_block_lem lib loops ip s t d o s₁ s₂ s₃ e₁ e₂ e₃ some_cells positive =
    rw (e₁, e₂, e₃, some_cells, positive) refl

-- C on a covered space, with a width and a height above 0, where no cell that is written comes
-- later among those that are read: it returns, each cell of the target holds what its cell of the
-- source held before, every other cell reads as before, and the space is covered.
pub bracelet_lem :
    (lib : HashLib) (ip : Ip) (s : Space lib) (t d o : Vector) (s₁ s₂ s₃ : Stack)
    → pop_vector (toss ip) ≡ (t, s₁)
    → pop_vector s₁ ≡ (d, s₂)
    → pop_vector s₂ ≡ (o, s₃)
    → 0 < d.x
    → d.x < 2 ^ 63
    → 0 < d.y
    → d.y < 2 ^ 63
    → ((a b x y : ℕ)
        → a < d.x
        → b < d.y
        → x < d.x
        → (y < b) ⊎ ((y ≡ b) × (x < a))
        → same_vector (cell_at t x y) (cell_at o a b) ≡ false)
    → Covers lib s
    → (u : Space lib) × (bracelet lib ip s ≡ some (set_toss s₃ ip, u))
      × ((x y : ℕ) → x < d.x → y < d.y → get lib u (cell_at t x y) ≡ get lib s (cell_at o x y))
      × ((q : Vector)
          → IsVector q
          → ((x y : ℕ) → x < d.x → y < d.y → same_vector (cell_at t x y) q ≡ false)
          → get lib u q ≡ get lib s q)
      × Covers lib u
unfolding bracelet copy_cell
bracelet_lem lib ip s t d o s₁ s₂ s₃ e₁ e₂ e₃ px nx py ny later c =
    let (u, returns, cu) = block-Copied lib o t s d.x d.y nx ny later c in
    let g = in_block d px nx py ny in
    (
      u,
      (on_block_lem lib (λ o d t. rows_up (copy_cell lib o t) d.x d.y) ip s t d o s₁ s₂ s₃ e₁ e₂ e₃
            g.0 g.1
          ∙ ap (λ r. r >>= λ v. some (set_toss s₃ ip, v)) returns),
      (λ x y hx hy. cu.written x y (hx, hy)),
      (λ q hq none_here. cu.kept q hq (λ x y d. none_here x y d.0 d.1)),
      cu.covers,
    )
