-- ===== src/Opcodes/Laws.antt =====
-- The functions on a letter, the one in force first.
use native.Mathlib.Numerals.{add-one}
use cfunge.Prelude.{ℕ, ◌+◌, ◌≤◌, ◌<◌, ◌≡◌, arith, List, ◌∷◌, drop, Bool, true, if◌then◌else◌, ltb}
use cfunge.Stack.Contents.{down, down-update_top, down_of_pos, pop_list}
use cfunge.Opcodes.{OpcodeStack, alloc_chunk_size, store_top, push_at, pop_at, drop_at}

abbrev pub functions : OpcodeStack → List ℕ
functions s = down s.entries s.top

pub record IsValid (s : OpcodeStack) : Type 0 where
  pub fits : s.top ≤ s.size

store_top_lem :
    (func : ℕ) (s : OpcodeStack)
    → s.top < s.size
    → functions (store_top func s) ≡ func ∷ functions s
unfolding store_top
store_top_lem func s h =
    let room : ltb s.top s.size ≡ true = ground arith in
    rw (room, add-one) (down-update_top s.entries func s.top)

-- A push that reports success puts the function in force; one that fails leaves the stack alone.
pub functions-push_at :
    (alloc : ℕ → Bool) (func : ℕ) (s : OpcodeStack)
    → IsValid s
    → functions (push_at alloc func s).1
      ≡ (if (push_at alloc func s).0 then func ∷ functions s else functions s)
unfolding push_at
functions-push_at alloc func s h = ground (
  arith,
  store_top_lem func s,
  store_top_lem func (record s { size = s.size + alloc_chunk_size }),
)

pub push_at-IsValid :
    (alloc : ℕ → Bool) (func : ℕ) (s : OpcodeStack) → IsValid s → IsValid (push_at alloc func s).1
unfolding push_at store_top
push_at-IsValid alloc func s h = ground arith

pub pop_at_lem : (s : OpcodeStack) → ((pop_at s).0, functions (pop_at s).1) ≡ pop_list (functions s)
unfolding pop_at
pop_at_lem s = ground (arith, down_of_pos s.entries s.top)

pub functions-drop_at : (s : OpcodeStack) → functions (drop_at s) ≡ drop 1 (functions s)
unfolding drop_at
functions-drop_at s = ground (arith, down_of_pos s.entries s.top)
