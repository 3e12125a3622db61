-- ===== src/Ip.antt =====
-- src/ip.h and src/ip.c: one instruction pointer. `ip->stack` is always the stack of
-- `ip->stackstack` at `current`, so it is not a field here.
pub mod Blocks
pub mod Toss
mod Tests
use cfunge.Prelude.{ℕ, ◌+◌, Bool, true, false, Option, none, some, update}
use cfunge.Cell.{add, sub, neg, mul, minus_one}
use cfunge.Vector.{Vector}
use cfunge.Table.{HashLib}
use cfunge.Space.{Space}
use cfunge.Space.Wrap.{fungespace_wrap}
use cfunge.Stack.{Stack, create}
use cfunge.StackStack.{StackStack, stackstack_alloc}
use cfunge.Opcodes.{Opcodes, empty_stack}

pub data Mode : Type 0 where
  code_mode string_mode : Mode

-- `struct timespec`, its fields as cells
pub record Timespec : Type 0 where
  pub tv_sec : ℕ
  pub tv_nsec : ℕ

pub record Ip : Type 0 where
  pub position : Vector
  pub delta : Vector
  pub storage_offset : Vector
  pub mode : Mode
  pub need_move : Bool
  pub string_last_was_space : Bool
  pub finger_subr_is_relative : Bool
  pub id : ℕ
  pub stackstack : StackStack
  pub finger_opcodes : Opcodes
  pub finger_hrti_timestamp : Option Timespec

-- `stackstack_create`
unfoldable pub stackstack_create : (ℕ → ℕ) → StackStack
stackstack_create memory = record {
  size = stackstack_alloc;
  current = 0;
  stacks = λ _. create memory;
}

-- `ip_create_in_place`
unfoldable pub ip_create : (ℕ → ℕ) → Ip
ip_create memory = record {
  position = record { x = 0; y = 0 };
  delta = record { x = 1; y = 0 };
  storage_offset = record { x = 0; y = 0 };
  mode = code_mode;
  need_move = true;
  string_last_was_space = false;
  finger_subr_is_relative = false;
  id = 0;
  stackstack = stackstack_create memory;
  finger_opcodes = λ _. empty_stack;
  finger_hrti_timestamp = none;
}

-- `ip->stack`, and the IP with another stack there.
abbrev pub toss : Ip → Stack
toss ip = ip.stackstack.stacks ip.stackstack.current

abbrev pub set_toss : Stack → Ip → Ip
set_toss s ip = record ip {
  stackstack = record ip.stackstack {
    stacks = update ip.stackstack.stacks ip.stackstack.current s;
  };
}

unfoldable pub forward_no_wrap : Ip → Ip
forward_no_wrap ip = record ip {
  position = record { x = add ip.position.x ip.delta.x; y = add ip.position.y ip.delta.y };
}

unfoldable pub backward_no_wrap : Ip → Ip
backward_no_wrap ip = record ip {
  position = record { x = sub ip.position.x ip.delta.x; y = sub ip.position.y ip.delta.y };
}

module _ (lib : HashLib) where
  -- The calls of `fungespace_wrap` on the position of an IP.
  abbrev wrapped : Ip → Space lib → Ip × Space lib
  wrapped ip s =
      let (p, t) = fungespace_wrap lib ip.position ip.delta s in (record ip { position = p }, t)

  unfoldable pub forward : Ip → Space lib → Ip × Space lib
  forward ip s = wrapped (forward_no_wrap ip) s

  unfoldable pub backward : Ip → Space lib → Ip × Space lib
  backward ip s = wrapped (backward_no_wrap ip) s

  unfoldable pub set_position : Vector → Ip → Space lib → Ip × Space lib
  set_position p ip s = wrapped (record ip { position = p }) s

unfoldable pub reverse : Ip → Ip
reverse ip = record ip {
  delta = record { x = mul ip.delta.x minus_one; y = mul ip.delta.y minus_one };
}

unfoldable pub turn_left : Ip → Ip
turn_left ip = record ip { delta = record { x = ip.delta.y; y = neg ip.delta.x } }

unfoldable pub turn_right : Ip → Ip
turn_right ip = record ip { delta = record { x = neg ip.delta.y; y = ip.delta.x } }

unfoldable pub go_west : Ip → Ip
go_west ip = record ip { delta = record { x = minus_one; y = 0 } }

unfoldable pub go_east : Ip → Ip
go_east ip = record ip { delta = record { x = 1; y = 0 } }

unfoldable pub go_north : Ip → Ip
go_north ip = record ip { delta = record { x = 0; y = minus_one } }

unfoldable pub go_south : Ip → Ip
go_south ip = record ip { delta = record { x = 0; y = 1 } }
