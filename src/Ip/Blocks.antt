-- ===== src/Ip/Blocks.antt =====
-- src/stack.c: the beginning and the end of a block, { and }.
pub mod Cells
pub mod Laws
use cfunge.Prelude.{
  ◌>>=◌, ℕ, ◌+◌, ◌-◌, ◌*◌, ◌%◌, ◌^◌, Bool, true, false, not, ◌&&◌, Option, none, some, ltb, ◌==◌,
  if◌then◌else◌, update,
}
use cfunge.Cell.{add, neg, is_neg, abs, slt}
use cfunge.Vector.{Vector}
use cfunge.Stack.{Stack, alloc_size, create, pop_vector, push_vector, discard}
use cfunge.StackStack.{StackStack, stackstack_alloc, zero_fill, bulk_copy, prealloc_space_non_fatal}
use cfunge.Ip.{Ip}

-- What happens to the second stack and the new top stack, as (SOSS, TOSS).
unfoldable pub begin_cells : ℕ → Stack → Stack → Stack × Stack
begin_cells count soss toss =
    if slt 0 count
    then (
      record soss { top = if ltb soss.top count then 0 else soss.top - count },
      bulk_copy toss soss count,
    )
    else if is_neg count
    then (zero_fill (neg count) soss, toss)
    else (soss, toss)

-- The array of stacks with room for one more; `alloc` says whether the system gives so many bytes.
unfoldable pub extend : (ℕ → Bool) → StackStack → Option StackStack
extend alloc s =
    if s.size == s.current + 1
    then if alloc (16 + (s.size + stackstack_alloc) * 8)
      then some (record s { size = s.size + stackstack_alloc })
      else none
    else some s

-- A write beyond the array, undefined in C, is lost.
unfoldable pub set_stack : ℕ → Stack → StackStack → StackStack
set_stack i v s = record s { stacks = if ltb i s.size then update s.stacks i v else s.stacks }

module _ (alloc : ℕ → Bool) (memory : ℕ → ℕ) where
  -- The new stack and the array with room for it.
  unfoldable pub begin_alloc : ℕ → StackStack → Option (Stack × StackStack)
  begin_alloc count s = do
    created ← if alloc 24 && alloc (alloc_size * 8) then some (create memory) else none
    toss ← prealloc_space_non_fatal alloc (add (abs count) 2) created
    s' ← extend alloc s
    some (toss, s')

  abbrev pub begin_with : ℕ → Vector → Ip → Option (Stack × StackStack) → Bool × Ip
  begin_with count offset ip none = (false, ip)
  begin_with count offset ip (some (toss, s)) =
      let (soss', toss') = begin_cells count (s.stacks s.current) toss in
      let soss'' = push_vector ip.storage_offset soss' in
      let s' = set_stack (s.current + 1) toss' (set_stack s.current soss'' s) in
      (
        true,
        record ip { stackstack = record s' { current = s.current + 1 }; storage_offset = offset },
      )

  -- `stackstack_begin`
  unfoldable pub stackstack_begin : ℕ → Vector → Ip → Bool × Ip
  stackstack_begin count offset ip = begin_with count offset ip (begin_alloc count ip.stackstack)

-- What happens to the second stack once the offset is off it.
unfoldable pub end_cells : ℕ → Stack → Stack → Stack
end_cells count soss toss =
    if slt 0 count
    then bulk_copy soss toss count
    else if is_neg count
    then discard (neg count) soss
    else soss

-- `stackstack_end`, which always succeeds
unfoldable pub stackstack_end : ℕ → Ip → Bool × Ip
stackstack_end count ip =
    let s = ip.stackstack in
    let (offset, soss) = pop_vector (s.stacks (s.current - 1)) in
    let soss' = end_cells count soss (s.stacks s.current) in
    (
      true,
      record ip {
        stackstack = record (set_stack (s.current - 1) soss' s) { current = s.current - 1 };
        storage_offset = offset;
      },
    )
