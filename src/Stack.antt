-- ===== src/Stack.antt =====
-- src/stack.c: the stack of cells, an array of `size` cells of which the first `top` are in use.
-- Allocation succeeds: a run that `stack_oom` ends is outside the model. A write at or beyond `size`,
-- which C leaves undefined, is lost here, so the theorems on contents show that there is none.
pub mod Contents
pub mod Refine
pub mod Text
mod Tests
use cfunge.Prelude.{
  ℕ, zero, suc, ◌+◌, ◌-◌, ◌%◌, ◌≤◌, Bool, true, false, List, [], ◌∷◌, ltb, leb, ◌==◌, if◌then◌else◌,
  get_or, update,
}
use cfunge.Vector.{Vector}

abbrev pub alloc_size : ℕ
alloc_size = 4096

pub record Stack : Type 0 where
  pub entries : ℕ → ℕ
  pub size : ℕ
  pub top : ℕ

-- `memory` is what the new allocation happens to hold.
unfoldable pub create : (ℕ → ℕ) → Stack
create memory = record { entries = memory; size = alloc_size; top = 0 }

unfoldable pub store : ℕ → ℕ → Stack → Stack
store i v s = if ltb i s.size then record s { entries = update s.entries i v } else s

abbrev pub round_up : ℕ → ℕ
round_up n = n + (alloc_size - n % alloc_size)

unfoldable pub prealloc_space : ℕ → Stack → Stack
prealloc_space minfree s =
    if leb s.size (s.top + minfree) then record s { size = round_up (s.size + minfree) } else s

unfoldable pub push_no_check : ℕ → Stack → Stack
push_no_check value s = let t = store s.top value s in record t { top = s.top + 1 }

unfoldable pub push : ℕ → Stack → Stack
push value s =
    let grown = if s.top == s.size then record s { size = s.size + alloc_size } else s in
    let t = store s.top value grown in record t { top = s.top + 1 }

unfoldable pub pop : Stack → ℕ × Stack
pop s = if s.top == 0 then (0, s) else (s.entries (s.top - 1), record s { top = s.top - 1 })

unfoldable pub discard : ℕ → Stack → Stack
discard n s = if ltb n s.top then record s { top = s.top - n } else record s { top = 0 }

unfoldable pub peek : Stack → ℕ
peek s = if s.top == 0 then 0 else s.entries (s.top - 1)

-- `index` counts from 1 at the bottom.
unfoldable pub get_index : Stack → ℕ → ℕ
get_index s index = if s.top == 0 then 0 else if ltb s.top index then 0 else s.entries (index - 1)

-- The loop of `stack_strlen` at `i`, from `top` down.
unfoldable pub strlen_from : (ℕ → ℕ) → ℕ → ℕ → ℕ
strlen_from entries top zero = top
strlen_from entries top (suc i) = if entries i == 0 then top - suc i else strlen_from entries top i

unfoldable pub strlen : Stack → ℕ
unfolding strlen_from
strlen s = strlen_from s.entries s.top s.top

unfoldable pub clear : Stack → Stack
clear s = record s { top = 0 }

unfoldable pub push_vector : Vector → Stack → Stack
push_vector v s = push v.y (push v.x s)

unfoldable pub pop_vector : Stack → Vector × Stack
pop_vector s = let (y, s₁) = pop s in let (x, s₂) = pop s₁ in (record { x = x; y = y }, s₂)

unfoldable pub dup_top : Stack → Stack
dup_top s = let t = push (peek s) s in if t.top == 1 then push 0 t else t

unfoldable pub swap_top : Stack → Stack
swap_top s =
    let (a, s₁) = pop s in
    let (b, s₂) = pop s₁ in push_no_check b (push_no_check a (prealloc_space 2 s₂))
