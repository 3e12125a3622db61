-- ===== src/Fingerprints/Toys.antt =====
-- src/fingerprints/TOYS/TOYS.c: the functions on the stack and on the instruction pointer alone.
pub mod Walk
pub mod Loops
pub mod Blocks
pub mod Copy
mod Tests
use cfunge.Prelude.{ℕ, zero, suc, ◌+◌, ◌-◌, ◌*◌, ◌/◌, ◌%◌, ◌^◌, Bool, ltb, leb, ◌==◌, if◌then◌else◌}
use cfunge.Cell.{add, sub, neg, mul, is_neg}
use cfunge.Stack.{Stack, push, pop, clear}
use cfunge.Ip.{Ip, toss, set_toss, reverse}
use cfunge.Interpreter.Moves.{if_east_west, if_north_south}

-- `while (n--) stack_push(ip->stack, c);`
unfoldable pub push_times : ℕ → ℕ → Stack → Stack
push_times zero c s = s
push_times (suc n) c s = push_times n c (push c s)

-- A
unfoldable pub gable : Ip → Ip
gable ip =
    let (n, s₁) = pop (toss ip) in
    let (c, s₂) = pop s₁ in
    if is_neg n then reverse (set_toss s₂ ip) else set_toss (push_times n c s₂) ip

-- B
unfoldable pub pair_of_shoes : Ip → Ip
pair_of_shoes ip =
    let (y, s₁) = pop (toss ip) in
    let (x, s₂) = pop s₁ in set_toss (push (sub x y) (push (add x y) s₂)) ip

-- The functions that put a cell in place of the top one.
abbrev on_top : (ℕ → ℕ) → Ip → Ip
on_top f ip = let (a, s) = pop (toss ip) in set_toss (push (f a) s) ip

-- D
unfoldable pub toilet_seat : Ip → Ip
toilet_seat ip = on_top (λ a. sub a 1) ip

-- I
unfoldable pub doric_column : Ip → Ip
doric_column ip = on_top (λ a. add a 1) ip

-- N
unfoldable pub lightning_bolt : Ip → Ip
lightning_bolt ip = on_top neg ip

-- The loop over the entries below `n`, from the bottom up.
unfoldable pub accumulate : (ℕ → ℕ → ℕ) → ℕ → (ℕ → ℕ) → ℕ → ℕ
accumulate f start entries zero = start
accumulate f start entries (suc n) = f (accumulate f start entries n) (entries n)

abbrev replace_with : (Stack → ℕ) → Ip → Ip
replace_with f ip = set_toss (push (f (toss ip)) (clear (toss ip))) ip

-- E
unfoldable pub pitchfork_head : Ip → Ip
pitchfork_head ip = replace_with (λ s. accumulate add 0 s.entries s.top) ip

-- P
unfoldable pub mailbox : Ip → Ip
mailbox ip = replace_with (λ s. accumulate mul 1 s.entries s.top) ip

-- A shift of a signed cell to the right keeps the sign.
abbrev pub shift_right : ℕ → ℕ → ℕ
shift_right a n = if is_neg a then (2 ^ 64 - 1) - (2 ^ 64 - 1 - a) / 2 ^ n else a / 2 ^ n

abbrev pub shift_left : ℕ → ℕ → ℕ
shift_left a n = a * 2 ^ n % 2 ^ 64

-- H; C leaves a shift by 64 or more undefined, and `beyond` is what the machine gives then, to the
-- right for `true`.
unfoldable pub pair_of_stilts : (Bool → ℕ → ℕ → ℕ) → Ip → Ip
pair_of_stilts beyond ip =
    let (b, s₁) = pop (toss ip) in
    let (a, s₂) = pop s₁ in
    let n = if is_neg b then neg b else b in
    let shifted =
      if leb 64 n
      then beyond (is_neg b) a n
      else if is_neg b
      then shift_right a n
      else shift_left a n in
    set_toss (push shifted s₂) ip

-- T
unfoldable pub barstool : Ip → Ip
barstool ip =
    let (n, s) = pop (toss ip) in
    let ip' = set_toss s ip in
    if n == 0 then if_east_west ip' else if n == 1 then if_north_south ip' else reverse ip'

-- X
unfoldable pub buried_treasure : Ip → Ip
buried_treasure ip = record ip { position = record { x = add ip.position.x 1; y = ip.position.y } }

-- Y
unfoldable pub slingshot : Ip → Ip
slingshot ip = record ip { position = record { x = ip.position.x; y = add ip.position.y 1 } }

-- Z
unfoldable pub barn_door : Ip → Ip
barn_door ip = reverse ip
