-- ===== src/Fingerprints/Jstr.antt =====
-- src/fingerprints/JSTR/JSTR.c: strings read and written along a delta. `none` is the exit by
-- DIAG_FATAL_LOC in a write.
use cfunge.Prelude.{ℕ, zero, suc, Option, some, ◌>>=◌, if◌then◌else◌}
use cfunge.Cell.{sle}
use cfunge.Vector.{Vector}
use cfunge.Table.{HashLib}
use cfunge.Space.{Space, get}
use cfunge.Space.Set.{set}
use cfunge.Stack.{Stack, push, pop, pop_vector}
use cfunge.Ip.{Ip, toss, set_toss, reverse}
use cfunge.Fingerprints.Indv.{plus}

module _ (lib : HashLib) where
  -- The loop of G
  unfoldable pub read_cells : Space lib → ℕ → Vector → Vector → Stack → Stack
  read_cells s zero pos delta st = st
  read_cells s (suc n) pos delta st =
      read_cells s n (plus pos delta) delta (push (get lib s pos) st)

  -- The loop of P
  unfoldable pub write_cells : ℕ → Vector → Vector → Stack × Space lib → Option (Stack × Space lib)
  write_cells zero pos delta (st, s) = some (st, s)
  write_cells (suc n) pos delta (st, s) =
      let (c, st') = pop st in
      set lib c pos s >>= λ t. write_cells n (plus pos delta) delta (st', t)

  -- G
  unfoldable pub push_n : Ip → Space lib → Ip × Space lib
  unfolding read_cells
  push_n ip s =
      let (n, s₁) = pop (toss ip) in
      let (pos, s₂) = pop_vector s₁ in
      let (delta, s₃) = pop_vector s₂ in
      if sle n 0
      then (reverse (set_toss s₃ ip), s)
      else (set_toss (read_cells s n (plus pos ip.storage_offset) delta (push 0 s₃)) ip, s)

  -- P
  unfoldable pub pop_n : Ip → Space lib → Option (Ip × Space lib)
  unfolding write_cells
  pop_n ip s =
      let (n, s₁) = pop (toss ip) in
      let (pos, s₂) = pop_vector s₁ in
      let (delta, s₃) = pop_vector s₂ in
      if sle n 0
      then some (reverse (set_toss s₃ ip), s)
      else (write_cells n (plus pos ip.storage_offset) delta (s₃, s) >>= λ (st, t).
          some (set_toss st ip, t))
