-- ===== src/Interpreter/Sound/Blocks.antt =====
-- The order of the stacks under { } and u, and under the copy of a stack of stacks.
use cfunge.Prelude.{
  ℕ, ◌+◌, ◌-◌, ◌<◌, ◌≤◌, ◌≡◌, arith, Bool, some, ltb, ◌==◌, update, Bool-cases, Option-cases, inl,
  inr,
}
use mathlib.Core.Path.{subst⁻¹}
use cfunge.Cell.{neg, is_neg, slt}
use cfunge.Vector.{Vector}
use cfunge.Table.{HashLib}
use cfunge.Stack.{Stack, pop, push_vector, pop_vector}
use cfunge.Stack.Contents.{IsValid, pop-IsValid, discard-IsValid}
use cfunge.StackStack.{StackStack, transfer}
use cfunge.StackStack.Copy.{zero_fill-IsValid, bulk_copy-IsValid}
use cfunge.StackStack.Transfer.{move_cells-IsValid}
use cfunge.Ip.{Ip, toss, set_toss, reverse}
use cfunge.Ip.Blocks.{
  begin_cells, end_cells, set_stack, begin_alloc, begin_with, stackstack_begin, stackstack_end,
}
use cfunge.Ip.Blocks.Laws.{begin_alloc_lem, set_stack_self}
use cfunge.IpList.{stack_duplicate, stackstack_duplicate}
use cfunge.Interpreter.Plane.{end_block, transfer_cells}
use cfunge.Interpreter.Sound.{
  IsSound, IpSound, if_all, update_all, toss-IsValid, pop_vector-IsValid, push_vector-IsValid,
  reverse-IpSound, popped-IpSound,
}

abbrev BothValid : Stack × Stack → Type 0
BothValid (s, t) = IsValid s × IsValid t

begin_cells-BothValid :
    (count : ℕ) (soss toss : Stack)
    → IsValid soss
    → IsValid toss
    → BothValid (begin_cells count soss toss)
unfolding begin_cells
begin_cells-BothValid count soss toss hs ht =
    if_all BothValid (slt 0 count)
      (record { fits = ground arith }, bulk_copy-IsValid toss soss count ht)
      (if_all BothValid (is_neg count) (zero_fill-IsValid (neg count) soss hs, ht) (hs, ht))

end_cells-IsValid :
    (count : ℕ) (soss toss : Stack) → IsValid soss → IsValid (end_cells count soss toss)
unfolding end_cells
end_cells-IsValid count soss toss h =
    if_all IsValid (slt 0 count) (bulk_copy-IsValid soss toss count h)
      (if_all IsValid (is_neg count) (discard-IsValid (neg count) soss h) h)

-- A write of a valid stack keeps a stack valid.
set_stack_all :
    (i j : ℕ) (v : Stack) (s : StackStack)
    → IsValid v
    → IsValid (s.stacks j)
    → IsValid ((set_stack i v s).stacks j)
unfolding set_stack
set_stack_all i j v s hv h =
    if_all (λ (f : ℕ → Stack). IsValid (f j)) (ltb i s.size)
      (update_all IsValid s.stacks i j v hv h) h

begin_with-IsSound :
    (alloc : ℕ → Bool) (memory : ℕ → ℕ) (count : ℕ) (offset : Vector) (ip : Ip) (t : Stack)
    (s : StackStack)
    → begin_alloc alloc memory count ip.stackstack ≡ some (t, s)
    → IpSound ip
    → IpSound (begin_with alloc memory count offset ip (some (t, s))).1
unfolding set_stack
begin_with-IsSound alloc memory count offset ip t s p h =
    let c = s.current in
    let (empty, current, stacks, room) =
      begin_alloc_lem alloc memory count ip.stackstack s t p h.room in
    let old : (j : ℕ) → j ≤ c → IsValid (s.stacks j) = λ j q.
      subst⁻¹ (λ (f : ℕ → Stack). IsValid (f j)) stacks (h.valid j (omega (arith, current))) in
    let empty_valid : IsValid t = record { fits = omega (arith, empty) } in
    let both = begin_cells-BothValid count (s.stacks c) t (old c (omega arith)) empty_valid in
    let (soss', toss') = begin_cells count (s.stacks c) t in
    let soss = push_vector ip.storage_offset soss' in
    let s₁ = set_stack c soss s in
    let wide : c + 1 < s₁.size = omega (arith, room, current) in
    record {
      room = wide;
      valid = λ j q. elim (Bool-cases (j == c + 1)) [
        | inl top ↦
            let same : j ≡ c + 1 = ground arith in
            subst⁻¹ (λ i. IsValid ((set_stack (c + 1) toss' s₁).stacks i)) same
              (subst⁻¹ IsValid (set_stack_self (c + 1) toss' s₁ wide) both.1)
        | inr low ↦ set_stack_all (c + 1) j toss' s₁ both.1 (
            set_stack_all c j soss s (push_vector-IsValid ip.storage_offset soss' both.0)
              (old j (ground arith)))
      ];
    }

pub stackstack_begin-IpSound :
    (alloc : ℕ → Bool) (memory : ℕ → ℕ) (count : ℕ) (offset : Vector) (ip : Ip)
    → IpSound ip
    → IpSound (stackstack_begin alloc memory count offset ip).1
unfolding stackstack_begin
stackstack_begin-IpSound alloc memory count offset ip h =
    elim (Option-cases (begin_alloc alloc memory count ip.stackstack)) [
      | inl p ↦ rw p h
      | inr ((t, s), p) ↦ rw p (begin_with-IsSound alloc memory count offset ip t s p h)
    ]

stackstack_end-IpSound : (count : ℕ) (ip : Ip) → IpSound ip → IpSound (stackstack_end count ip).1
unfolding stackstack_end set_stack
stackstack_end-IpSound count ip h =
    let s = ip.stackstack in
    let below = s.stacks (s.current - 1) in
    let soss = end_cells count (pop_vector below).1 (s.stacks s.current) in
    record {
      room = omega (arith, h.room);
      valid = λ j q.
          set_stack_all (s.current - 1) j soss s
            (end_cells-IsValid count (pop_vector below).1 (s.stacks s.current)
              (pop_vector-IsValid below (h.valid (s.current - 1) (omega arith))))
            (h.valid j (omega arith));
    }

pub end_block-IpSound : (lib : HashLib) (ip : Ip) → IpSound ip → IpSound (end_block lib ip)
unfolding end_block reverse
end_block-IpSound lib ip h =
    let (count, st) = pop (toss ip) in
    let r = stackstack_end count (set_toss st ip) in
    let ended = stackstack_end-IpSound count (set_toss st ip) (popped-IpSound ip h) in
    if_all IpSound (ip.stackstack.current == 0) h
      (if_all IpSound r.0 ended (reverse-IpSound r.1 ended))

transfer-BothValid :
    (count : ℕ) (toss soss : Stack)
    → IsValid toss
    → IsValid soss
    → BothValid (transfer count toss soss)
unfolding transfer
transfer-BothValid count toss soss ht hs =
    let to = move_cells-IsValid count soss toss hs ht in
    if_all BothValid (slt 0 count) (to.1, to.0)
      (if_all BothValid (is_neg count) (move_cells-IsValid (neg count) toss soss ht hs) (ht, hs))

pub transfer_cells-IpSound : (ip : Ip) → IpSound ip → IpSound (transfer_cells ip)
unfolding transfer_cells
transfer_cells-IpSound ip h =
    let (count, st) = pop (toss ip) in
    let c = ip.stackstack.current in
    let soss = ip.stackstack.stacks (c - 1) in
    let v =
      transfer-BothValid count st soss (pop-IsValid (toss ip) (toss-IsValid ip h))
        (h.valid (c - 1) (omega arith)) in
    if_all IpSound (c == 0) (reverse-IpSound ip h) (record {
      room = h.room;
      valid = λ j q.
          update_all IsValid (update ip.stackstack.stacks c (transfer count st soss).0) (c - 1) j
            (transfer count st soss).1 v.1
            (update_all IsValid ip.stackstack.stacks c j (transfer count st soss).0 v.0
              (h.valid j q));
    })

pub stackstack_duplicate-IsSound :
    (memory : ℕ → ℕ) (s : StackStack) → IsSound s → IsSound (stackstack_duplicate memory s)
unfolding stackstack_duplicate stack_duplicate
stackstack_duplicate-IsSound memory s h = record {
  room = h.room;
  valid = λ j q. record { fits = omega arith };
}
