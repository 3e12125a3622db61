-- ===== src/Opcodes.antt =====
-- src/fingerprints/manager.c: for each letter a stack of the functions loaded on it. A function
-- pointer is a number, and 0 is NULL. `alloc` says whether `realloc` gives so many entries.
pub mod Laws
use cfunge.Prelude.{
  ℕ, zero, suc, ◌+◌, ◌-◌, ◌*◌, Bool, true, false, ◌==◌, if◌then◌else◌, update, memcpy, ltb,
}

-- ALLOCCHUNKSIZE of manager.c
abbrev pub alloc_chunk_size : ℕ
alloc_chunk_size = 2

abbrev pub finger_opcode_count : ℕ
finger_opcode_count = 26

pub record OpcodeStack : Type 0 where
  pub size : ℕ
  pub top : ℕ
  pub entries : ℕ → ℕ

abbrev pub empty_stack : OpcodeStack
empty_stack = record { size = 0; top = 0; entries = λ _. 0 }

-- ip->fingerOpcodes
abbrev pub Opcodes : Type 0
Opcodes = ℕ → OpcodeStack

abbrev pub letter_index : ℕ → ℕ
letter_index opcode = opcode - b'A'

-- A write beyond the array, undefined in C, is lost.
unfoldable pub store_top : ℕ → OpcodeStack → OpcodeStack
store_top func s = record s {
  entries = if ltb s.top s.size then update s.entries s.top func else s.entries;
  top = s.top + 1;
}

unfoldable pub push_at : (ℕ → Bool) → ℕ → OpcodeStack → Bool × OpcodeStack
push_at alloc func s =
    if s.top == s.size
    then if alloc (s.size + alloc_chunk_size)
      then (true, store_top func (record s { size = s.size + alloc_chunk_size }))
      else (false, s)
    else (true, store_top func s)

-- `opcode_stack_push`
unfoldable pub opcode_stack_push : (ℕ → Bool) → ℕ → ℕ → Opcodes → Bool × Opcodes
opcode_stack_push alloc opcode func ops =
    let (done, s) = push_at alloc func (ops (letter_index opcode)) in
    (done, update ops (letter_index opcode) s)

unfoldable pub pop_at : OpcodeStack → ℕ × OpcodeStack
pop_at s = if s.top == 0 then (0, s) else (s.entries (s.top - 1), record s { top = s.top - 1 })

-- `opcode_stack_pop`
unfoldable pub opcode_stack_pop : ℕ → Opcodes → ℕ × Opcodes
opcode_stack_pop opcode ops =
    let (func, s) = pop_at (ops (letter_index opcode)) in (func, update ops (letter_index opcode) s)

unfoldable pub drop_at : OpcodeStack → OpcodeStack
drop_at s = if s.top == 0 then s else record s { top = s.top - 1 }

-- `opcode_stack_drop`, on the stack of one letter
unfoldable pub opcode_stack_drop : ℕ → Opcodes → Opcodes
opcode_stack_drop opcode ops =
    update ops (letter_index opcode) (drop_at (ops (letter_index opcode)))

-- `opcode_stack_duplicate`; a failed allocation ends the run
unfoldable pub opcode_stack_duplicate : (ℕ → ℕ) → OpcodeStack → OpcodeStack
opcode_stack_duplicate memory old = if old.top == 0 then empty_stack else record {
  size = old.top + 1;
  top = old.top;
  entries = memcpy memory 0 old.entries 0 old.top;
}
