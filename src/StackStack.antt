-- ===== src/StackStack.antt =====
-- src/stack.c: the stack of stacks, and the copies between two stacks.
pub mod Copy
pub mod Transfer
mod Tests
use cfunge.Prelude.{
  ℕ, zero, suc, ◌+◌, ◌-◌, ◌*◌, ◌%◌, ◌^◌, Bool, true, false, Option, none, some, ltb, leb, ◌==◌,
  if◌then◌else◌, update, memset, memcpy,
}
use cfunge.Cell.{add, sub, neg, is_neg, abs, slt}
use cfunge.Stack.{Stack, alloc_size, round_up, create, prealloc_space, push, pop}

abbrev pub stackstack_alloc : ℕ
stackstack_alloc = 32

pub record StackStack : Type 0 where
  pub size : ℕ
  pub current : ℕ
  pub stacks : ℕ → Stack

-- `stack_zero_fill`
unfoldable pub zero_fill : ℕ → Stack → Stack
zero_fill count s =
    let t = prealloc_space count s in
    record t {
      entries = if leb (t.top + count) t.size then memset t.entries t.top 0 count else t.entries;
      top = t.top + count;
    }

-- The end of `stack_bulk_copy`: `memcpy` of the top `count` cells of `src`.
unfoldable pub copy_top : Stack → Stack → ℕ → Stack
copy_top dest src count = record dest {
  entries =
      if leb (dest.top + count) dest.size
      then memcpy dest.entries dest.top src.entries (src.top - count) count
      else dest.entries;
  top = dest.top + count;
}

-- `stack_bulk_copy`
unfoldable pub bulk_copy : Stack → Stack → ℕ → Stack
bulk_copy dest src count =
    let t = prealloc_space count dest in
    let zero_count = count - src.top in
    if ltb src.top count
    then copy_top (zero_fill zero_count t) src (count - zero_count)
    else copy_top t src count

-- `while (count--) stack_push(to, stack_pop(from))`, as (from, to)
unfoldable pub move_cells : ℕ → Stack → Stack → Stack × Stack
move_cells zero from to = (from, to)
move_cells (suc count) from to = let (v, from') = pop from in move_cells count from' (push v to)

-- `stackstack_transfer`, as (TOSS, SOSS)
unfoldable pub transfer : ℕ → Stack → Stack → Stack × Stack
unfolding move_cells
transfer count toss soss =
    let (soss', toss') = move_cells count soss toss in
    let moved_back = move_cells (neg count) toss soss in
    if slt 0 count then (toss', soss') else if is_neg count then moved_back else (toss, soss)

-- `stack_prealloc_space_non_fatal`; `alloc` says whether the system has so many bytes.
unfoldable pub prealloc_space_non_fatal : (ℕ → Bool) → ℕ → Stack → Option Stack
prealloc_space_non_fatal alloc minfree s =
    let newsize = round_up ((s.size + minfree) % 2 ^ 64) % 2 ^ 64 in
    let allocation_size = newsize * 8 % 2 ^ 64 in
    if leb s.size ((s.top + minfree) % 2 ^ 64)
    then if ltb allocation_size newsize
      then none
      else if alloc allocation_size
      then some (record s { size = newsize })
      else none
    else some s
