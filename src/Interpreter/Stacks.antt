-- ===== src/Interpreter/Stacks.antt =====
-- The instructions of `execute_instruction` that work on the current stack alone.
pub mod Laws
use cfunge.Prelude.{
  ℕ, zero, suc, ◌+◌, ◌-◌, ◌*◌, ◌%◌, ◌^◌, Bool, true, false, ◌&&◌, Option, none, some, leb, ◌==◌,
  if◌then◌else◌,
}
use cfunge.Cell.{add, sub, mul, slt, funge_division, funge_modulo}
use cfunge.Stack.{Stack, push, pop, discard, dup_top, swap_top, clear}

-- `b = stack_pop(); a = stack_pop(); stack_push(f(a, b))`
unfoldable pub binary : (ℕ → ℕ → ℕ) → Stack → Stack
binary f s = let (b, s₁) = pop s in let (a, s₂) = pop s₁ in push (f a b) s₂

-- `stack_push(!stack_pop())`
unfoldable pub not_top : Stack → Stack
not_top s = let (a, s₁) = pop s in push (if a == 0 then 1 else 0) s₁

-- The operator of a case of the switch that has two operands.
unfoldable pub operator : ℕ → Option (ℕ → ℕ → ℕ)
operator opcode =
    if opcode == b'+'
    then some add
    else if opcode == b'-'
    then some sub
    else if opcode == b'*'
    then some mul
    else if opcode == b'/'
    then some funge_division
    else if opcode == b'%'
    then some funge_modulo
    else if opcode == b'`'
    then some (λ a b. if slt b a then 1 else 0)
    else none

-- The number that a digit pushes.
unfoldable pub digit : ℕ → Option ℕ
digit opcode =
    if leb b'0' opcode && leb opcode b'9'
    then some (opcode - b'0')
    else if leb b'a' opcode && leb opcode b'f'
    then some (opcode - b'a' + 10)
    else none

abbrev pub with_operator : Option (ℕ → ℕ → ℕ) → Option (Stack → Stack) → Option (Stack → Stack)
with_operator (some f) rest = some (binary f)
with_operator none rest = rest

abbrev pub with_digit : Option ℕ → Option (Stack → Stack) → Option (Stack → Stack)
with_digit (some n) rest = some (push n)
with_digit none rest = rest

unfoldable pub stack_instruction : ℕ → Option (Stack → Stack)
unfolding operator digit binary not_top
stack_instruction opcode = with_digit (digit opcode) (
    with_operator (operator opcode) (
      if opcode == b'!'
      then some not_top
      else if opcode == b':'
      then some dup_top
      else if opcode == b'$'
      then some (discard 1)
      else if opcode == b'\\'
      then some swap_top
      else if opcode == b'n'
      then some clear
      else none))

-- The name of a fingerprint from its cells, for ( and ).
unfoldable pub read_fingerprint : ℕ → ℕ → Stack → ℕ × Stack
read_fingerprint zero fprint s = (fprint, s)
read_fingerprint (suc n) fprint s =
    let (v, s₁) = pop s in read_fingerprint n (add (fprint * 256 % 2 ^ 64) v) s₁
