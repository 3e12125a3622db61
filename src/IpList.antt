-- ===== src/IpList.antt =====
-- src/ip.c: the list of instruction pointers of concurrent Funge.
pub mod Order
mod Tests
use cfunge.Prelude.{
  ℕ, zero, suc, ◌+◌, ◌-◌, ◌*◌, Bool, true, false, not, Option, none, some, leb, ltb, ◌==◌,
  if◌then◌else◌, update, memcpy,
}
use cfunge.Table.{HashLib}
use cfunge.Space.{Space}
use cfunge.Stack.{Stack}
use cfunge.StackStack.{StackStack}
use cfunge.Opcodes.{opcode_stack_duplicate}
use cfunge.Ip.{Ip, ip_create, reverse, forward}

-- ALLOCCHUNKSIZE of ip.c
abbrev pub chunk : ℕ
chunk = 256

pub record IpList : Type 0 where
  pub size : ℕ
  pub top : ℕ
  pub highest_id : ℕ
  pub ips : ℕ → Ip

-- `iplist_create`
unfoldable pub iplist_create : (ℕ → ℕ) → IpList
iplist_create memory = record { size = chunk; top = 0; highest_id = 0; ips = λ _. ip_create memory }

-- `stack_duplicate`; a failed allocation ends the run
unfoldable pub stack_duplicate : (ℕ → ℕ) → Stack → Stack
stack_duplicate memory old = record {
  entries = if old.top == 0 then memory else memcpy memory 0 old.entries 0 old.top;
  size = old.top + 1;
  top = old.top;
}

-- `stackstack_duplicate`; what stands above `current` is arbitrary
unfoldable pub stackstack_duplicate : (ℕ → ℕ) → StackStack → StackStack
stackstack_duplicate memory old = record {
  size = old.size;
  current = old.current;
  stacks = λ i. stack_duplicate memory (old.stacks i);
}

-- `ip_duplicate_in_place`, with `manager_duplicate`
unfoldable pub ip_duplicate : Bool → (ℕ → ℕ) → Ip → Ip
ip_duplicate disable_fingerprints memory old = record old {
  stackstack = stackstack_duplicate memory old.stackstack;
  finger_opcodes = if disable_fingerprints then old.finger_opcodes else λ k.
      opcode_stack_duplicate memory (old.finger_opcodes k);
  finger_hrti_timestamp = none;
}

-- `for (i = index + n; i > index; i--) ips[i] = ips[i - 1]`
unfoldable pub move_up : ℕ → ℕ → (ℕ → Ip) → ℕ → Ip
move_up zero index ips = ips
move_up (suc n) index ips = move_up n index (update ips (index + suc n) (ips (index + n)))

-- `for (i = index; i < index + n; i++) ips[i] = ips[i + 1]`
unfoldable pub move_down : ℕ → ℕ → (ℕ → Ip) → ℕ → Ip
move_down zero index ips = ips
move_down (suc n) index ips = move_down n (index + 1) (update ips index (ips (index + 1)))

-- The list with room for one more; `alloc` says whether the system gives so many bytes.
unfoldable pub grow : (ℕ → Bool) → IpList → Option IpList
grow alloc list =
    if leb list.size (list.top + 1)
    then if alloc (24 + 8 * (list.size + chunk))
      then some (record list { size = list.size + chunk })
      else none
    else some list

module _ (lib : HashLib) (disable_fingerprints : Bool) (memory : ℕ → ℕ) where
  -- The child of an IP before it has its number.
  unfoldable pub child : Ip → Space lib → Ip × Space lib
  child ip s = forward lib (reverse (ip_duplicate disable_fingerprints memory ip)) s

  abbrev insert_child : ℕ → Space lib → Option IpList → IpList → Option ℕ × IpList × Space lib
  insert_child index s none list = (none, list, s)
  insert_child index s (some grown) list =
      let moved =
        if not (index == list.top)
        then move_up (list.top + 1 - index) index list.ips
        else list.ips in
      let (new, t) = child (moved index) s in
      (
        some index,
        record grown {
          top = list.top + 1;
          highest_id = list.highest_id + 1;
          ips = update moved (index + 1) (record new { id = list.highest_id + 1 });
        },
        t,
      )

  -- `iplist_duplicate_ip`; -1 is `none`
  unfoldable pub iplist_duplicate_ip :
      (ℕ → Bool) → ℕ → IpList → Space lib → Option ℕ × IpList × Space lib
  iplist_duplicate_ip alloc index list s = insert_child index s (grow alloc list) list

-- `iplist_terminate_ip`: the index that it returns, and the list
unfoldable pub iplist_terminate_ip : ℕ → IpList → ℕ × IpList
iplist_terminate_ip index list = (
  if ltb 0 index then index - 1 else 0,
  record list {
    ips = if not (index == list.top) then move_down (list.top - index) index list.ips else list.ips;
    top = list.top - 1;
  },
)
