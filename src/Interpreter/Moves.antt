-- ===== src/Interpreter/Moves.antt =====
-- The instructions of `execute_instruction` that work on the instruction pointer alone.
pub mod Laws
use cfunge.Prelude.{ℕ, Bool, true, false, Option, none, some, ◌==◌, if◌then◌else◌, update}
use cfunge.Cell.{slt}
use cfunge.Stack.{Stack, pop, pop_vector}
use cfunge.Ip.{
  Ip, string_mode, toss, set_toss, reverse, turn_left, turn_right, go_west, go_east, go_north,
  go_south,
}

unfoldable pub if_east_west : Ip → Ip
if_east_west ip =
    let (v, s) = pop (toss ip) in
    let ip' = set_toss s ip in if v == 0 then go_east ip' else go_west ip'

unfoldable pub if_north_south : Ip → Ip
if_north_south ip =
    let (v, s) = pop (toss ip) in
    let ip' = set_toss s ip in if v == 0 then go_south ip' else go_north ip'

-- The case 'w'.
unfoldable pub compare_turn : Ip → Ip
compare_turn ip =
    let (b, s₁) = pop (toss ip) in
    let (a, s₂) = pop s₁ in
    let ip' = set_toss s₂ ip in
    if slt a b then turn_left ip' else if slt b a then turn_right ip' else ip'

-- The case 'x'.
unfoldable pub set_delta : Ip → Ip
set_delta ip = let (v, s) = pop_vector (toss ip) in record (set_toss s ip) { delta = v }

-- The case '"'.
unfoldable pub begin_string : Ip → Ip
begin_string ip = record ip { mode = string_mode; string_last_was_space = false }

unfoldable pub move_instruction : ℕ → Option (Ip → Ip)
unfolding if_east_west if_north_south compare_turn set_delta begin_string
move_instruction opcode =
    if opcode == b'z'
    then some (λ ip. ip)
    else if opcode == b'^'
    then some go_north
    else if opcode == b'>'
    then some go_east
    else if opcode == b'v'
    then some go_south
    else if opcode == b'<'
    then some go_west
    else if opcode == b'r'
    then some reverse
    else if opcode == b'['
    then some turn_left
    else if opcode == b']'
    then some turn_right
    else if opcode == b'x'
    then some set_delta
    else if opcode == b'"'
    then some begin_string
    else if opcode == b'_'
    then some if_east_west
    else if opcode == b'|'
    then some if_north_south
    else if opcode == b'w'
    then some compare_turn
    else none
