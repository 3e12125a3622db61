-- ===== src/Stack/Text.antt =====
-- src/stack.c: strings on the stack, ended by a 0. A string pushed has its first byte on top.
pub mod Laws
use cfunge.Prelude.{
  ℕ, zero, suc, ◌+◌, ◌-◌, ◌*◌, ◌%◌, ◌^◌, Bool, Option, none, some, List, [], ◌∷◌, ◌==◌,
  if◌then◌else◌, get_or, length,
}
use mathlib.Core.Option
use cfunge.Stack.{Stack, store, prealloc_space, pop}

-- The loop of `stack_push_string` for the indices below the counter, the highest first; `top` is
-- where the first byte goes.
unfoldable pub fill : ℕ → ℕ → (ℕ → ℕ) → Stack → Stack
fill zero top str s = s
fill (suc i) top str s = fill i top str (store (top - i) (str i) s)

-- Reading `str[len]` gives the string's own final 0.
unfoldable pub push_string : List ℕ → Stack → Stack
unfolding fill
push_string str s =
    let len = length str in
    let t = prealloc_space (len + 1) s in
    let u = fill (suc len) (t.top + len) (λ i. get_or str i 0) t in
    record u { top = t.top + (len + 1) }

-- The loop of `stack_pop_string`; `convert` is the cast to the buffer's element type. A cell comes
-- back as `none` only if the fuel runs out.
unfoldable pub pop_until_zero : (ℕ → ℕ) → ℕ → Stack → Option (List ℕ × Stack)
pop_until_zero convert zero s = none
pop_until_zero convert (suc fuel) s =
    let (c, t) = pop s in
    let rest = pop_until_zero convert fuel t in
    if c == 0 then some ([], t) else Option.map (λ (cs, u). (convert c ∷ cs, u)) rest

abbrev pub to_byte : ℕ → ℕ
to_byte c = c % 2 ^ 8

-- The loops of `stack_pop_string` and `stack_pop_string_multibyte`, with fuel for every cell of the
-- stack and a 0 below it. `top + 1` is also the size of the buffer.
unfoldable pub pop_bytes : Stack → Option (List ℕ × Stack)
unfolding pop_until_zero
pop_bytes s = pop_until_zero to_byte (s.top + 1) s

unfoldable pub pop_cells : Stack → Option (List ℕ × Stack)
unfolding pop_until_zero
pop_cells s = pop_until_zero (λ c. c) (s.top + 1) s

-- The string of a loop, if there are `size` bytes for each cell and the 0; else NULL and the stack
-- as it is. The outer `none` is only for a loop that runs out of fuel.
abbrev unless_null :
    (ℕ → Bool) → ℕ → (Stack → Option (List ℕ × Stack)) → Stack → Option (Option (List ℕ) × Stack)
unless_null alloc size loop s =
    if alloc ((s.top + 1) * size)
    then Option.map (λ (str, t). (some str, t)) (loop s)
    else some (none, s)

unfoldable pub pop_string : (ℕ → Bool) → Stack → Option (Option (List ℕ) × Stack)
unfolding pop_bytes
pop_string alloc s = unless_null alloc 1 pop_bytes s

unfoldable pub pop_string_multibyte : (ℕ → Bool) → Stack → Option (Option (List ℕ) × Stack)
unfolding pop_cells
pop_string_multibyte alloc s = unless_null alloc 8 pop_cells s

-- `stack_push_string_multibyte` on an array, for `count` cells, which is its `len + 1`.
unfoldable pub push_cells : (ℕ → ℕ) → ℕ → Stack → Stack
unfolding fill
push_cells str count s =
    let t = prealloc_space count s in
    let u = fill count (t.top + count - 1) str t in record u { top = t.top + count }

-- The same on a string with the 0 that ends it.
unfoldable pub push_string_multibyte : List ℕ → Stack → Stack
unfolding push_string
push_string_multibyte str s = push_string str s
