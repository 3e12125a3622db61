-- ===== src/Prelude/Memory.antt =====
-- An array as the function from its indices: what `realloc` adds, and what `free` leaves, is
-- whatever the function happens to give.
use Prim.Native.Nat.{ℕ, ◌+◌, ◌-◌}
use mathlib.Core.Bool.{◌&&◌}
use mathlib.Core.Path.{◌≡◌}
use mathlib.Core.Logic.{◌≢◌}
use native.Mathlib.Omega.{arith}
use cfunge.Prelude.Tests.{◌==◌, leb, ltb, if◌then◌else◌}

module _ {ℓ} {A : Type ℓ} where
  unfoldable pub update : (ℕ → A) → ℕ → A → ℕ → A
  update f i v j = if j == i then v else f j

  pub update_self : (f : ℕ → A) (i : ℕ) (v : A) → update f i v i ≡ v
  unfolding update
  update_self f i v = ground arith

  pub update_ne : (f : ℕ → A) (i j : ℕ) (v : A) → j ≢ i → update f i v j ≡ f j
  unfolding update
  update_ne f i j v h = ground arith

  update_twice : (f : ℕ → A) (i j : ℕ) (v w : A) → update (update f i v) i w j ≡ update f i w j
  unfolding update
  update_twice f i j v w = ground arith

  pub update-update : (f : ℕ → A) (i : ℕ) (v w : A) → update (update f i v) i w ≡ update f i w
  update-update f i v w = λ k j. update_twice f i j v w k

  -- `memset(&f[i], v, n)`, counted in elements
  unfoldable pub memset : (ℕ → A) → ℕ → A → ℕ → ℕ → A
  memset f i v n j = if leb i j && ltb j (i + n) then v else f j

  -- `memcpy(&f[i], &g[k], n)`, counted in elements
  unfoldable pub memcpy : (ℕ → A) → ℕ → (ℕ → A) → ℕ → ℕ → ℕ → A
  memcpy f i g k n j = if leb i j && ltb j (i + n) then g (k + (j - i)) else f j
