-- ===== src/Fingerprints/Toys/Blocks.antt =====
-- src/fingerprints/TOYS/TOYS.c: the functions that work on rectangles, rows and columns of
-- Funge-Space. `none` is the exit by DIAG_FATAL_LOC in a write.
use cfunge.Prelude.{ℕ, ◌+◌, ◌||◌, Option, some, ◌>>=◌, ◌==◌, if◌then◌else◌}
use cfunge.Cell.{add, sub, sle, is_neg, space}
use cfunge.Vector.{Vector}
use cfunge.Table.{HashLib}
use cfunge.Space.{Space, get, get_offset}
use cfunge.Space.Set.{set, set_offset}
use cfunge.Space.Bounds.{get_bounds_rect}
use cfunge.Stack.{Stack, push, pop, pop_vector}
use cfunge.Ip.{Ip, toss, set_toss, reverse}
use cfunge.Fingerprints.Toys.Loops.{rounds_of, rows_up, rows_down, ascending, descending}

abbrev pub at : ℕ → ℕ → Vector
at x y = record { x = x; y = y }

module _ (lib : HashLib) where
  -- The body of the loops of C and K: one cell from the origin `o` to the target `t`.
  unfoldable pub copy_cell : Vector → Vector → ℕ → ℕ → Space lib → Option (Space lib)
  copy_cell o t x y s = set_offset lib (get_offset lib s (at x y) o) (at x y) t s

  -- The body of the loops of M and V: the cell that is copied becomes a space.
  unfoldable pub move_cell : Vector → Vector → ℕ → ℕ → Space lib → Option (Space lib)
  unfolding copy_cell
  move_cell o t x y s = copy_cell o t x y s >>= set_offset lib space (at x y) o

  -- What C, K, M and V have around their loops.
  abbrev pub on_block :
      (Vector → Vector → Vector → Space lib → Option (Space lib))
      → Ip
      → Space lib
      → Option (Ip × Space lib)
  on_block loops ip s =
      let (t, s₁) = pop_vector (toss ip) in
      let (d, s₂) = pop_vector s₁ in
      let (o, s₃) = pop_vector s₂ in
      let ip' = set_toss s₃ ip in
      if d.x == 0 || d.y == 0
      then some (ip', s)
      else if is_neg d.x || is_neg d.y
      then some (reverse ip', s)
      else (loops o d t s >>= λ u. some (ip', u))

  -- C
  unfoldable pub bracelet : Ip → Space lib → Option (Ip × Space lib)
  unfolding copy_cell
  bracelet ip s = on_block (λ o d t. rows_up (copy_cell o t) d.x d.y) ip s

  -- K
  unfoldable pub scissors : Ip → Space lib → Option (Ip × Space lib)
  unfolding copy_cell
  scissors ip s = on_block (λ o d t. rows_down (copy_cell o t) d.x d.y) ip s

  -- M
  unfoldable pub kittycat : Ip → Space lib → Option (Ip × Space lib)
  unfolding move_cell
  kittycat ip s = on_block (λ o d t. rows_up (move_cell o t) d.x d.y) ip s

  -- V
  unfoldable pub dixiecup : Ip → Space lib → Option (Ip × Space lib)
  unfolding move_cell
  dixiecup ip s = on_block (λ o d t. rows_down (move_cell o t) d.x d.y) ip s

  -- S
  unfoldable pub chicane : Ip → Space lib → Option (Ip × Space lib)
  chicane ip s =
      let (o, s₁) = pop_vector (toss ip) in
      let (d, s₂) = pop_vector s₁ in
      let (c, s₃) = pop s₂ in
      let ip' = set_toss s₃ ip in
      if d.x == 0 || d.y == 0
      then some (ip', s)
      else if is_neg d.x || is_neg d.y
      then some (reverse ip', s)
      else (rows_up (λ x y. set lib c (at (add o.x x) (add o.y y))) (rounds_of o.x d.x)
            (rounds_of o.y d.y) s
          >>= λ u. some (ip', u))

  -- The body of the loops of F, on the stack and Funge-Space.
  unfoldable pub pop_to : Vector → Stack × Space lib → Option (Stack × Space lib)
  pop_to p (st, s) = do let (c, st') = pop st; t ← set lib c p s; some (st', t)

  -- F
  unfoldable pub calipers : Ip → Space lib → Option (Ip × Space lib)
  unfolding pop_to
  calipers ip s = do
    let (t, s₁) = pop_vector (toss ip)
    let (j, s₂) = pop s₁
    let (i, s₃) = pop s₂
    (st, u) ←
        rows_up (λ x y. pop_to (at (add t.x x) (add t.y y))) (rounds_of t.x i) (rounds_of t.y j)
          (s₃, s)
    some (set_toss st ip, u)

  -- G
  unfoldable pub counterclockwise : Ip → Space lib → Option (Ip × Space lib)
  counterclockwise ip s = do
    let (o, s₁) = pop_vector (toss ip)
    let (j, s₂) = pop s₁
    let (i, s₃) = pop s₂
    st ←
        rows_down (λ x y st. some (push (get lib s (at (add o.x x) (add o.y y))) st))
          (rounds_of o.x i) (rounds_of o.y j) s₃
    some (set_toss st ip, s)

  -- The rounds of a counter from `lo` to `hi`, both included; one that would pass the largest cell,
  -- where C leaves its increment undefined, ends there.
  abbrev rounds_to : ℕ → ℕ → ℕ
  rounds_to lo hi = if sle lo hi then sub hi lo + 1 else 0

  -- The loops of J and O over the cells of a line, from the end that it moves to; `spot` is the
  -- place on the line for a coordinate.
  unfoldable pub translate : (ℕ → Vector) → ℕ → ℕ → ℕ → Space lib → Option (Space lib)
  translate spot n lo hi s =
      let step : ℕ → Space lib → Option (Space lib) =
        λ i s. set lib (get lib s (spot (add lo i))) (spot (add (add lo i) n)) s in
      if n == 0
      then some s
      else if is_neg n
      then ascending step (rounds_to lo hi) s
      else descending step (rounds_to lo hi) s

  -- J
  unfoldable pub fishhook : Ip → Space lib → Option (Ip × Space lib)
  unfolding translate
  fishhook ip s = do
    let (n, st) = pop (toss ip)
    let (bounds, t) = get_bounds_rect lib s
    u ← translate (λ y. at ip.position.x y) n bounds.y (add bounds.y bounds.h) t
    some (set_toss st ip, u)

  -- O
  unfoldable pub boulder : Ip → Space lib → Option (Ip × Space lib)
  unfolding translate
  boulder ip s = do
    let (n, st) = pop (toss ip)
    let (bounds, t) = get_bounds_rect lib s
    u ← translate (λ x. at x ip.position.y) n bounds.x (add bounds.x bounds.w) t
    some (set_toss st ip, u)
