-- ===== src/Interpreter/Run.antt =====
-- The switch of `execute_instruction`, for all instructions but k.
use cfunge.Prelude.{
  ℕ, ◌%◌, ◌^◌, Bool, true, false, not, ◌&&◌, ◌||◌, Option, none, some, ◌>>=◌, leb, ◌==◌,
  if◌then◌else◌, update,
}
use cfunge.Cell.{space}
use cfunge.Table.{HashLib}
use cfunge.Space.{Space}
use cfunge.Stack.{Stack, pop}
use cfunge.Manager.{Env}
use cfunge.Ip.{Ip, code_mode, string_mode, toss, set_toss, forward, reverse}
use cfunge.IpList.{IpList, iplist_duplicate_ip, iplist_terminate_ip}
use cfunge.Interpreter.Stacks.{stack_instruction}
use cfunge.Interpreter.Moves.{move_instruction}
use cfunge.Interpreter.Plane.{
  skip_until, jump, get_cell, put_cell, fetch, store_next, begin_block, end_block, transfer_cells,
}
use cfunge.Interpreter.Execute.{
  Settings, Host, handle_string_mode, Local, handle_fprint, fingerprint_instruction, print_char,
  print_int, read_char, read_int, go_away,
}

module _ (lib : HashLib) (host : Host lib) (settings : Settings) (env : Env) (memory : ℕ → ℕ) where
  open host use {World}

  abbrev State : Type 0
  State = Local lib host settings env memory

  -- Whether the instruction takes no tick, and the state after it.
  abbrev pub Result : Type 0
  Result = Option (Bool × State)

  abbrev done : State → Result
  done l = some (false, l)

  abbrev pub done_plane : World → Option (Ip × Space lib) → Result
  done_plane w none = none
  done_plane w (some (ip, s)) = some (false, (ip, s, w))

  abbrev pub done_other : Option State → Result
  done_other none = none
  done_other (some l) = some (false, l)

  -- The loops of ' ' and ';'.
  unfoldable pub skip_blanks : ℕ → State → Result
  skip_blanks fuel (ip, s, w) = do
    (ip', s') ← skip_until lib (λ c. not (c == space)) fuel ip s
    some (true, (record ip' { need_move = false }, s', w))

  unfoldable pub skip_comment : ℕ → State → Result
  skip_comment fuel (ip, s, w) = do
    (ip', s') ← skip_until lib (λ c. c == b';') fuel ip s
    some (true, (ip', s', w))

  abbrev pub try_move : Option (Ip → Ip) → State → Result → Result
  try_move none l rest = rest
  try_move (some f) (ip, s, w) rest = some (false, (f ip, s, w))

  abbrev pub try_stack : Option (Stack → Stack) → State → Result → Result
  try_stack none l rest = rest
  try_stack (some f) (ip, s, w) rest = some (false, (set_toss (f (toss ip)) ip, s, w))

  -- The cases of the switch but 't', '@', 'q' and 'k'. An instruction of no case reverses the IP.
  unfoldable pub switch : ℕ → ℕ → State → Result
  unfolding skip_blanks skip_comment
  switch fuel opcode (ip, s, w) =
      let l : State = (ip, s, w) in
      try_move (move_instruction opcode) l (
        try_stack (stack_instruction opcode) l (
          if opcode == space
          then skip_blanks fuel l
          else if opcode == b';'
          then skip_comment fuel l
          else if opcode == b'j'
          then done_plane w (some (jump lib ip s))
          else if opcode == b'?'
          then done (go_away lib host settings env memory l)
          else if opcode == b'#'
          then done_plane w (some (forward lib ip s))
          else if opcode == b'g'
          then done_plane w (some (get_cell lib ip s))
          else if opcode == b'p'
          then done_plane w (put_cell lib ip s)
          else if opcode == b'\''
          then done_plane w (some (fetch lib ip s))
          else if opcode == b's'
          then done_plane w (store_next lib ip s)
          else if opcode == b','
          then done (print_char lib host settings env memory l)
          else if opcode == b'.'
          then done (print_int lib host settings env memory l)
          else if opcode == b'~'
          then done (read_char lib host settings env memory l)
          else if opcode == b'&'
          then done (read_int lib host settings env memory l)
          else if opcode == b'{'
          then done_plane w (some (begin_block lib env.alloc memory ip s))
          else if opcode == b'}'
          then done (end_block lib ip, s, w)
          else if opcode == b'u'
          then done (transfer_cells ip, s, w)
          else if opcode == b'('
          then done (fingerprint_instruction lib host settings env memory true ip, s, w)
          else if opcode == b')'
          then done (fingerprint_instruction lib host settings env memory false ip, s, w)
          else if opcode == b'y' || opcode == b'i' || opcode == b'o' || opcode == b'='
          then done_other (host.other opcode ip s w)
          else done (reverse ip, s, w)))

  pub record Machine : Type 0 where
    pub list : IpList
    pub funge_space : Space lib
    pub world : World

  -- An instruction goes on with a thread index, or it ends the program with a status.
  pub data Outcome : Type 0 where
    went : Bool → ℕ → Machine → Outcome
    exited : ℕ → Outcome

  -- The IP at `at` is changed, and the thread index stays.
  abbrev pub put_back : ℕ → ℕ → Machine → Bool × State → Outcome
  put_back at index m (no_tick, (ip, s, w)) = went no_tick index (record {
    list = record m.list { ips = update m.list.ips at ip };
    funge_space = s;
    world = w;
  })

  abbrev pub put_result : ℕ → ℕ → Machine → Result → Option Outcome
  put_result at index m none = none
  put_result at index m (some r) = some (put_back at index m r)

  -- The case 't'.
  unfoldable pub split : ℕ → ℕ → Machine → Outcome
  split at index m =
      let (new_index, list, s) =
        iplist_duplicate_ip lib settings.disable_fingerprints memory env.alloc index m.list
          m.funge_space in
      let m' = record m { list = list; funge_space = s } in
      elim new_index [
        | none ↦ put_back at index m' (false, (reverse (list.ips at), s, m.world))
        | some i ↦ went false i m'
      ]

  -- The case '@'.
  unfoldable pub terminate : ℕ → Machine → Outcome
  terminate index m =
      let (i, list) = iplist_terminate_ip index m.list in
      if m.list.top == 0
      then exited 0
      else went false i (record m {
        list = record list { ips = update list.ips i (record (list.ips i) { need_move = false }) };
      })

  -- `execute_instruction` for an IP and, for 't' and '@', the thread index. Only k runs an IP whose
  -- index is not the thread index. The instruction k itself is in Iterate. The result is `none`
  -- when the fuel for a loop over cells is used up.
  unfoldable pub execute_other : ℕ → ℕ → ℕ → ℕ → Machine → Option Outcome
  unfolding split terminate
  execute_other fuel opcode at index m =
      let ip = m.list.ips at in
      let l : State = (ip, m.funge_space, m.world) in
      let (no_tick, ip') = handle_string_mode settings.befunge93 opcode ip in
      elim ip.mode [
        | string_mode ↦ some (put_back at index m (no_tick, (ip', m.funge_space, m.world)))
        | code_mode ↦
            if leb b'A' opcode && leb opcode b'Z'
            then put_result at index m
                (done_other (handle_fprint lib host settings env memory opcode l))
            else if opcode == b't'
            then some (split at index m)
            else if opcode == b'@'
            then some (terminate index m)
            else if opcode == b'q'
            then some (exited ((pop (toss ip)).0 % 2 ^ 32))
            else put_result at index m (switch fuel opcode l)
      ]
