-- ===== src/Sysinfo.antt =====
-- src/instructions/sysinfo.c: the instruction y. `stack_create` and the other allocations succeed.
pub mod Laws
mod Tests
use cfunge.Prelude.{
  ℕ, zero, suc, ◌+◌, ◌-◌, ◌%◌, ◌^◌, Bool, true, false, not, ◌&&◌, Option, none, some, List, [], ◌∷◌,
  leb, ◌==◌, if◌then◌else◌, length,
}
use cfunge.Cell.{add, mul, slt, sle}
use cfunge.Vector.{Vector}
use cfunge.Table.{HashLib}
use cfunge.Space.{Space}
use cfunge.Space.Bounds.{FungeRect, get_bounds_rect}
use cfunge.Stack.{Stack, create, push, pop, push_vector, get_index, clear}
use cfunge.Stack.Text.{push_string}
use cfunge.StackStack.{StackStack, bulk_copy}
use cfunge.Ip.{Ip, toss, set_toss}
use cfunge.Interpreter.Execute.{Settings}

-- `struct tm`, its fields as cells
pub record Tm : Type 0 where
  pub tm_year : ℕ
  pub tm_mon : ℕ
  pub tm_mday : ℕ
  pub tm_hour : ℕ
  pub tm_min : ℕ
  pub tm_sec : ℕ

-- What y asks of the system: the environment, the arguments of the program, which variables
-- `check_env_is_safe` lets through, and the time.
pub record Surroundings : Type 0 where
  pub environ : List (List ℕ)
  pub fungeargv : List (List ℕ)
  pub check_env_is_safe : List ℕ → Bool
  pub now : Tm

-- FUNGE_OLD_HANDPRINT, FUNGE_NEW_HANDPRINT, CFUNGE_VERSION_Y and sizeof(funge_cell)
abbrev pub old_handprint : ℕ
old_handprint = 0x4346554e

abbrev pub new_handprint : List ℕ
new_handprint =
    b'h' ∷ b't' ∷ b't' ∷ b'p' ∷ b's' ∷ b':' ∷ b'/' ∷ b'/' ∷ b'g' ∷ b'i' ∷ b't' ∷ b'h' ∷ b'u' ∷ b'b'
    ∷ b'.' ∷ b'c' ∷ b'o' ∷ b'm' ∷ b'/' ∷ b'V' ∷ b'o' ∷ b'r' ∷ b'p' ∷ b'a' ∷ b'l' ∷ b'B' ∷ b'l'
    ∷ b'a' ∷ b'd' ∷ b'e' ∷ b'/' ∷ b'c' ∷ b'f' ∷ b'u' ∷ b'n' ∷ b'g' ∷ b'e' ∷ []

abbrev pub version_y : ℕ
version_y = 10010

abbrev pub cell_size : ℕ
cell_size = 8

-- PUSH_REQ_1; the flags are different bits.
unfoldable pub flags : Settings → ℕ
flags settings =
    0x01
    + (if settings.sandbox then 0 else 0x02 + 0x04 + 0x08)
    + (if settings.funge109 then 0x20 else 0)

-- PUSH_REQ_5
unfoldable pub paradigm : Settings → ℕ
paradigm settings = if settings.sandbox then 0 else 1

abbrev in_bytes : ℕ → ℕ → ℕ → ℕ
in_bytes a b c = add (add (mul (mul a 256) 256) (mul b 256)) c

-- PUSH_REQ_15
unfoldable pub date_cell : Tm → ℕ
date_cell tm = in_bytes tm.tm_year (add tm.tm_mon 1) tm.tm_mday

-- PUSH_REQ_16
unfoldable pub time_cell : Tm → ℕ
time_cell tm = in_bytes tm.tm_hour tm.tm_min tm.tm_sec

-- The loop of PUSH_REQ_18
unfoldable pub push_tops : ℕ → (ℕ → Stack) → Stack → Stack
push_tops zero stacks s = s
push_tops (suc n) stacks s = push (stacks n).top (push_tops n stacks s)

module _ (settings : Settings) (sys : Surroundings) (memory : ℕ → ℕ) where
  abbrev hidden : List ℕ → Bool
  hidden variable = settings.sandbox && not (sys.check_env_is_safe variable)

  unfoldable pub push_environ : List (List ℕ) → Stack → Stack
  push_environ [] s = s
  push_environ (e ∷ es) s = push_environ es (if hidden e then s else push_string e s)

  unfoldable pub count_environ : List (List ℕ) → ℕ
  count_environ [] = 0
  count_environ (e ∷ es) = if hidden e then count_environ es else suc (count_environ es)

  unfoldable pub push_args : List (List ℕ) → Stack → Stack
  push_args [] s = s
  push_args (a ∷ more) s = push_string a (push_args more s)

  abbrev in_109 : (Stack → Stack) → Stack → Stack
  in_109 f s = if settings.funge109 then f s else s

  -- `create_cache_stack`; `environ_count` is 0 until then.
  unfoldable pub create_cache_stack : Stack
  unfolding push_environ count_environ push_args
  create_cache_stack =
      let handprint = in_109 (push_string new_handprint) (create memory) in
      let variables = push_environ sys.environ (push 0 handprint) in
      let counted = in_109 (push (count_environ sys.environ)) variables in
      let args = push_args sys.fungeargv (push 0 (push 0 counted)) in
      in_109 (push (length sys.fungeargv)) args

  abbrev pub or_create : Option Stack → Stack
  or_create none = create memory
  or_create (some s) = s

  abbrev pub or_cache : Option Stack → Stack
  or_cache none = create_cache_stack
  or_cache (some s) = s

  -- `push_all` with the rectangle of the bounds and TOSSSize, on a stack that has the cache
  unfoldable pub push_values : FungeRect → ℕ → Ip → Stack → Stack
  unfolding push_tops
  push_values rect toss_size ip s =
      let current = ip.stackstack.current in
      let stacks = push toss_size (push_tops current ip.stackstack.stacks s) in
      let times = push (date_cell sys.now) (push (time_cell sys.now) (push (current + 1) stacks)) in
      let greatest = push_vector (record { x = rect.w; y = rect.h }) times in
      let least = push_vector (record { x = rect.x; y = rect.y }) greatest in
      let storage = push_vector ip.storage_offset least in
      let vectors = push_vector ip.position (push_vector ip.delta storage) in
      let of_ip = push 2 (push ip.id (push 0 vectors)) in
      let of_program = push version_y (push (paradigm settings) (push b'/' of_ip)) in
      push (flags settings) (push cell_size (push old_handprint of_program))

  module _ (lib : HashLib) where
    -- `push_all`: the stack, the cache, and the space with exact bounds
    unfoldable pub push_all : Option Stack → ℕ → Ip → Space lib → Stack → Stack × Stack × Space lib
    unfolding push_values
    push_all cached toss_size ip space push_stack =
        let cache = or_cache cached in
        let (rect, space') = get_bounds_rect lib space in
        (push_values rect toss_size ip (bulk_copy push_stack cache cache.top), cache, space')

    -- The cases of `push_yval`, as the cell and the space; there is none outside of 1 to 23.
    unfoldable pub yval : ℕ → ℕ → Ip → Space lib → Option (ℕ × Space lib)
    yval toss_size request ip space =
        let (rect, exact) = get_bounds_rect lib space in
        if request == 1
        then some (flags settings, space)
        else if request == 2
        then some (cell_size, space)
        else if request == 3
        then some (old_handprint, space)
        else if request == 4
        then some (version_y, space)
        else if request == 5
        then some (paradigm settings, space)
        else if request == 6
        then some (b'/', space)
        else if request == 7
        then some (2, space)
        else if request == 8
        then some (ip.id, space)
        else if request == 9
        then some (0, space)
        else if request == 10
        then some (ip.position.y, space)
        else if request == 11
        then some (ip.position.x, space)
        else if request == 12
        then some (ip.delta.y, space)
        else if request == 13
        then some (ip.delta.x, space)
        else if request == 14
        then some (ip.storage_offset.y, space)
        else if request == 15
        then some (ip.storage_offset.x, space)
        else if request == 16
        then some (rect.y, exact)
        else if request == 17
        then some (rect.x, exact)
        else if request == 18
        then some (rect.h, exact)
        else if request == 19
        then some (rect.w, exact)
        else if request == 20
        then some (date_cell sys.now, space)
        else if request == 21
        then some (time_cell sys.now, space)
        else if request == 22
        then some (ip.stackstack.current + 1, space)
        else if request == 23
        then some (toss_size, space)
        else none

    -- `sysinfo_tmp_stack` and `sysinfo_cache_stack`; `none` is NULL.
    pub record Kept : Type 0 where
      pub tmp : Option Stack
      pub cache : Option Stack

    abbrev pub push_found :
        Stack → Ip → Kept → Option (ℕ × Space lib) → Space lib → Ip × Kept × Space lib
    push_found st ip kept none space = (ip, kept, space)
    push_found st ip kept (some (v, t)) space = (set_toss (push v st) ip, kept, t)

    -- The index of a pick, in the arithmetic of a `size_t`. It may be 0, for which C reads before
    -- the array, and this model its first entry.
    abbrev pick : ℕ → Stack → Stack → ℕ
    pick request u st = get_index st ((st.top + 1 + 2 ^ 64 - (request - u.top)) % 2 ^ 64)

    -- `run_sys_info`
    unfoldable pub run_sys_info : Kept → Ip → Space lib → Ip × Kept × Space lib
    unfolding push_all yval
    run_sys_info kept ip space =
        let (request, st) = pop (toss ip) in
        let ip' = set_toss st ip in
        let (s, cache, t) = push_all kept.cache st.top ip' space st in
        let (u, cache', t') = push_all kept.cache st.top ip' space (or_create kept.tmp) in
        let cell = if leb request u.top then u.entries (u.top - request) else pick request u st in
        if sle request 0
        then (set_toss s ip', record kept { cache = some cache }, t)
        else if slt request 24
        then push_found st ip' kept (yval st.top request ip' space) space
        else (set_toss (push cell st) ip', record { tmp = some (clear u); cache = some cache' }, t')
