-- ===== src/Fingerprints/Fing.antt =====
-- src/fingerprints/FING/FING.c: changes of the functions that are bound to letters.
use cfunge.Prelude.{ℕ, ◌+◌, Bool, ◌||◌, leb, ltb, ◌==◌, if◌then◌else◌}
use cfunge.Cell.{is_neg}
use cfunge.Stack.{Stack, pop}
use cfunge.Opcodes.{Opcodes, opcode_stack_push, opcode_stack_pop}
use cfunge.Ip.{Ip, toss, set_toss, reverse}

-- The letter of a cell, or 0.
unfoldable pub stack_spec : ℕ → ℕ
stack_spec n =
    if is_neg n
    then 0
    else if leb n 25
    then b'A' + n
    else if ltb n b'A'
    then 0
    else if leb n b'Z'
    then n
    else 0

unfoldable pub pop_stack_spec : Stack → ℕ × Stack
pop_stack_spec s = let (n, s') = pop s in (stack_spec n, s')

abbrev set_opcodes : Opcodes → Ip → Ip
set_opcodes ops ip = record ip { finger_opcodes = ops }

-- `alloc` says whether the system gives so many entries, and `do_reflect` is the address of the
-- function of that name.
module _ (alloc : ℕ → Bool) (do_reflect : ℕ) where
  abbrev or_reflect : ℕ → ℕ
  or_reflect op = if op == 0 then do_reflect else op

  -- The pushes of X after its pops.
  unfoldable pub push_both : ℕ → ℕ → ℕ → ℕ → Ip → Ip
  push_both first second op1 op2 ip =
      let (done, ops) = opcode_stack_push alloc second (or_reflect op1) ip.finger_opcodes in
      let (done', ops') = opcode_stack_push alloc first (or_reflect op2) ops in
      if done
      then (if done' then set_opcodes ops' ip else reverse (set_opcodes ops' ip))
      else reverse (set_opcodes ops ip)

  -- X
  unfoldable pub swap : Ip → Ip
  swap ip =
      let (first, s₁) = pop_stack_spec (toss ip) in
      let (second, s₂) = pop_stack_spec s₁ in
      let ip' = set_toss s₂ ip in
      let (op1, ops₁) = opcode_stack_pop first ip.finger_opcodes in
      let (op2, ops₂) = opcode_stack_pop second ops₁ in
      if first == 0 || second == 0
      then reverse ip'
      else push_both first second op1 op2 (set_opcodes ops₂ ip')

  -- Y
  unfoldable pub drop_semantic : Ip → Ip
  drop_semantic ip =
      let (opcode, s) = pop_stack_spec (toss ip) in
      let ip' = set_toss s ip in
      if opcode == 0
      then reverse ip'
      else set_opcodes (opcode_stack_pop opcode ip.finger_opcodes).1 ip'

  abbrev push_on : ℕ → ℕ → Opcodes → Ip → Ip
  push_on dst op ops ip =
      let (done, ops') = opcode_stack_push alloc dst op ops in
      if done then set_opcodes ops' ip else reverse (set_opcodes ops' ip)

  -- Z
  unfoldable pub push_semantic : Ip → Ip
  push_semantic ip =
      let (dst, s₁) = pop_stack_spec (toss ip) in
      let (src, s₂) = pop_stack_spec s₁ in
      let ip' = set_toss s₂ ip in
      let (op, ops) = opcode_stack_pop src ip.finger_opcodes in
      let (done, ops') = opcode_stack_push alloc src op ops in
      if src == 0 || dst == 0
      then reverse ip'
      else if op == 0
      then push_on dst do_reflect ops ip'
      else if done
      then push_on dst op ops' ip'
      else reverse (set_opcodes ops' ip')
