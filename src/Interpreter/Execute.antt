-- ===== src/Interpreter/Execute.antt =====
-- `execute_instruction` and the main loop.
use cfunge.Prelude.{
  ℕ, ◌-◌, Bool, true, false, not, ◌&&◌, ◌||◌, Option, none, some, ltb, ◌==◌, if◌then◌else◌,
}
use cfunge.Cell.{slt, space}
use cfunge.Table.{HashLib}
use cfunge.Space.{Space}
use cfunge.Stack.{push, pop, discard}
use cfunge.Opcodes.{letter_index}
use cfunge.Manager.{Env, manager_load, manager_unload}
use cfunge.Manager.Table.{implemented_fingerprints}
use cfunge.Ip.{Ip, code_mode, toss, set_toss, reverse, go_north, go_east, go_south, go_west}
use cfunge.Interpreter.Stacks.{read_fingerprint}

-- The settings that the instructions read.
pub record Settings : Type 0 where
  pub disable_fingerprints : Bool
  pub sandbox : Bool
  pub befunge93 : Bool
  pub funge109 : Bool

-- `handle_string_mode`: whether the instruction takes no tick, and the IP
unfoldable pub handle_string_mode : Bool → ℕ → Ip → Bool × Ip
handle_string_mode befunge93 opcode ip =
    let pushed = set_toss (push opcode (toss ip)) ip in
    if opcode == b'"'
    then (false, record ip { mode = code_mode })
    else if not (opcode == space)
    then (false, record pushed { string_last_was_space = false })
    else if not ip.string_last_was_space || befunge93
    then (false, record pushed { string_last_was_space = true })
    else (true, ip)

-- What the interpreter calls outside of the modelled files, with a state of its own: output, input,
-- random numbers, the functions of fingerprints, and y i o =. The result `none` for an input is
-- a failure, and for the last two the end of the run or a loop that runs out of fuel.
pub record Host (lib : HashLib) : Type 1 where
  pub World : Type 0
  pub put_char : ℕ → World → Bool × World
  pub put_int : ℕ → World → Bool × World
  pub get_char : World → Option ℕ × World
  pub get_int : World → Option ℕ × World
  pub random_of_four : World → ℕ × World
  pub call : ℕ → Ip → Space lib → World → Option (Ip × Space lib × World)
  pub other : ℕ → Ip → Space lib → World → Option (Ip × Space lib × World)

module _ (lib : HashLib) (host : Host lib) (settings : Settings) (env : Env) (memory : ℕ → ℕ) where
  open host use {World}

  -- The state after an instruction of one IP.
  abbrev pub Local : Type 0
  Local = Ip × Space lib × World

  abbrev on_ip : (Ip → Ip) → Local → Local
  on_ip f (ip, s, w) = (f ip, s, w)

  abbrev on_plane : World → Ip × Space lib → Local
  on_plane w (ip, s) = (ip, s, w)

  -- A result that reverses the IP when it is a failure.
  abbrev reverse_unless : Bool → Local → Local
  reverse_unless done l = if done then l else on_ip reverse l

  -- `handle_fprint`
  unfoldable pub handle_fprint : ℕ → Local → Option Local
  handle_fprint opcode (ip, s, w) =
      let bound = ip.finger_opcodes (letter_index opcode) in
      let func = bound.entries (bound.top - 1) in
      if settings.disable_fingerprints
      then some (reverse ip, s, w)
      else if ltb 0 bound.top && not (func == 0)
      then host.call func ip s w
      else some (reverse ip, s, w)

  -- The cases '(' and ')'. A warning on a large count is left out.
  unfoldable pub fingerprint_instruction : Bool → Ip → Ip
  fingerprint_instruction loads ip =
      let (fpsize, st) = pop (toss ip) in
      let (fprint, st') = read_fingerprint fpsize 0 st in
      let (loaded, ops, st'') =
        manager_load env settings.sandbox implemented_fingerprints fprint ip.finger_opcodes st' in
      let (unloaded, ops') =
        manager_unload settings.sandbox implemented_fingerprints fprint ip.finger_opcodes in
      let after_load = record (set_toss st'' ip) { finger_opcodes = ops } in
      let after_unload = record (set_toss st' ip) { finger_opcodes = ops' } in
      if slt fpsize 1
      then reverse (set_toss st ip)
      else if settings.disable_fingerprints
      then reverse (set_toss (discard fpsize st) ip)
      else if loads
      then (if loaded then after_load else reverse after_load)
      else if unloaded
      then after_unload
      else reverse after_unload

  -- The cases ',' '.' '~' '&' '?'.
  unfoldable pub print_char : Local → Local
  print_char (ip, s, w) =
      let (a, st) = pop (toss ip) in
      let (done, w') = host.put_char a w in reverse_unless done (set_toss st ip, s, w')

  unfoldable pub print_int : Local → Local
  print_int (ip, s, w) =
      let (a, st) = pop (toss ip) in
      let (done, w') = host.put_int a w in reverse_unless done (set_toss st ip, s, w')

  abbrev pub push_input : Option ℕ → Ip → Ip
  push_input none ip = reverse ip
  push_input (some a) ip = set_toss (push a (toss ip)) ip

  unfoldable pub read_char : Local → Local
  read_char (ip, s, w) = let (a, w') = host.get_char w in (push_input a ip, s, w')

  unfoldable pub read_int : Local → Local
  read_int (ip, s, w) = let (a, w') = host.get_int w in (push_input a ip, s, w')

  unfoldable pub go_away : Local → Local
  go_away (ip, s, w) =
      let (rnd, w') = host.random_of_four w in
      (
        if rnd == 0
            then go_north ip
            else if rnd == 1
            then go_east ip
            else if rnd == 2
            then go_south ip
            else if rnd == 3
            then go_west ip
            else ip,
        s,
        w',
      )
