-- ===== src/Interpreter/Sound/Execute.antt =====
-- The order of the stacks under string mode, the fingerprints, and the input and output.
use cfunge.Prelude.{ℕ, ◌-◌, Bool, not, ◌&&◌, ◌||◌, Option, none, some, List, ltb, ◌==◌}
use cfunge.Cell.{slt, space}
use cfunge.Table.{HashLib}
use cfunge.Space.{Space}
use cfunge.Stack.{Stack, push, pop, discard}
use cfunge.Stack.Contents.{IsValid, push-IsValid, pop-IsValid, discard-IsValid}
use cfunge.Opcodes.{Opcodes, letter_index}
use cfunge.Manager.{Env, load, load_found, find_fingerprint, manager_load, manager_unload}
use cfunge.Manager.Table.{ImplementedFingerprint, implemented_fingerprints}
use cfunge.Ip.{Ip, toss, reverse, go_north, go_east, go_south, go_west}
use cfunge.Interpreter.Stacks.{read_fingerprint}
use cfunge.Interpreter.Execute.{
  Settings, Host, handle_string_mode, Local, handle_fprint, fingerprint_instruction, print_char,
  print_int, push_input, read_char, read_int, go_away,
}
use cfunge.Interpreter.Run.{Result, done_other}
use cfunge.Interpreter.Sound.{
  IpSound, if_all, toss-IsValid, set_toss-IpSound, reverse-IpSound, popped-IpSound,
  read_fingerprint-IsValid,
}

pub handle_string_mode-IpSound :
    (befunge93 : Bool) (opcode : ℕ) (ip : Ip)
    → IpSound ip
    → IpSound (handle_string_mode befunge93 opcode ip).1
unfolding handle_string_mode
handle_string_mode-IpSound befunge93 opcode ip h =
    let P : Bool × Ip → Type 0 = λ (r : Bool × Ip). IpSound r.1 in
    let pushed =
      set_toss-IpSound (push opcode (toss ip)) ip
        (push-IsValid opcode (toss ip) (toss-IsValid ip h)) h in
    if_all P (opcode == b'"') h (
      if_all P (not (opcode == space)) pushed
        (if_all P (not ip.string_last_was_space || befunge93) pushed h))

load_found-IsValid :
    (env : Env) (sandbox : Bool) (table : List ImplementedFingerprint) (fprint : ℕ)
    (e : Option ImplementedFingerprint) (ops : Opcodes) (s : Stack)
    → IsValid s
    → IsValid (load_found env sandbox table fprint e ops s).2
load_found-IsValid env sandbox table fprint none ops s h = h
load_found-IsValid env sandbox table fprint (some e) ops s h =
    if_all (λ (r : Bool × Opcodes × Stack). IsValid r.2) (load env e ops).0
      (push-IsValid 1 (push fprint s) (push-IsValid fprint s h)) h

manager_load-IsValid :
    (env : Env) (sandbox : Bool) (table : List ImplementedFingerprint) (fprint : ℕ) (ops : Opcodes)
    (s : Stack)
    → IsValid s
    → IsValid (manager_load env sandbox table fprint ops s).2
unfolding manager_load
manager_load-IsValid env sandbox table fprint ops s h =
    load_found-IsValid env sandbox table fprint (find_fingerprint sandbox fprint table) ops s h

module _ (lib : HashLib) (host : Host lib) (settings : Settings) (env : Env) (memory : ℕ → ℕ) where
  open host use {World}

  abbrev State : Type 0
  State = Local lib host settings env memory

  abbrev pub LocalSound : State → Type 0
  LocalSound l = IpSound l.0

  abbrev pub ResultSound : Result lib host settings env memory → Type 0
  ResultSound none = Unit {0}
  ResultSound (some (no_tick, l)) = LocalSound l

  -- The functions of fingerprints, and y i o =, keep the stacks of an IP in order.
  pub record KeepsStacks : Type 0 where
    pub call :
        (f : ℕ) (ip : Ip) (s : Space lib) (w : World)
        → IpSound ip
        → ResultSound (done_other lib host settings env memory (host.call f ip s w))
    pub other :
        (c : ℕ) (ip : Ip) (s : Space lib) (w : World)
        → IpSound ip
        → ResultSound (done_other lib host settings env memory (host.other c ip s w))

  module _ (keeps : KeepsStacks) where
    pub handle_fprint-ResultSound :
        (opcode : ℕ) (l : State)
        → LocalSound l
        → ResultSound (
            done_other lib host settings env memory
              (handle_fprint lib host settings env memory opcode l))
    unfolding handle_fprint
    handle_fprint-ResultSound opcode (ip, s, w) h =
        let bound = ip.finger_opcodes (letter_index opcode) in
        let func = bound.entries (bound.top - 1) in
        let Kept : Option State → Type 0 =
          λ o. ResultSound (done_other lib host settings env memory o) in
        if_all Kept settings.disable_fingerprints (reverse-IpSound ip h) (
          if_all Kept (ltb 0 bound.top && not (func == 0)) (keeps.call func ip s w h)
            (reverse-IpSound ip h))

    pub fingerprint_instruction-IpSound :
        (loads : Bool) (ip : Ip)
        → IpSound ip
        → IpSound (fingerprint_instruction lib host settings env memory loads ip)
    unfolding fingerprint_instruction reverse
    fingerprint_instruction-IpSound loads ip h =
        let (fpsize, st) = pop (toss ip) in
        let hs = pop-IsValid (toss ip) (toss-IsValid ip h) in
        let (fprint, st') = read_fingerprint fpsize 0 st in
        let hs' = read_fingerprint-IsValid fpsize 0 st hs in
        let r =
          manager_load env settings.sandbox implemented_fingerprints fprint ip.finger_opcodes st' in
        let u = manager_unload settings.sandbox implemented_fingerprints fprint ip.finger_opcodes in
        let after_load =
          set_toss-IpSound r.2 ip
            (manager_load-IsValid env settings.sandbox implemented_fingerprints fprint
              ip.finger_opcodes st' hs')
            h in
        let after_unload = set_toss-IpSound st' ip hs' h in
        if_all IpSound (slt fpsize 1) (set_toss-IpSound st ip hs h) (
          if_all IpSound settings.disable_fingerprints
            (set_toss-IpSound (discard fpsize st) ip (discard-IsValid fpsize st hs) h)
            (if_all IpSound loads (if_all IpSound r.0 after_load after_load)
              (if_all IpSound u.0 after_unload after_unload)))

    pub print_char-LocalSound :
        (l : State) → LocalSound l → LocalSound (print_char lib host settings env memory l)
    unfolding print_char reverse
    print_char-LocalSound (ip, s, w) h =
        let (done, w') = host.put_char (pop (toss ip)).0 w in
        if_all LocalSound done (popped-IpSound ip h) (popped-IpSound ip h)

    pub print_int-LocalSound :
        (l : State) → LocalSound l → LocalSound (print_int lib host settings env memory l)
    unfolding print_int reverse
    print_int-LocalSound (ip, s, w) h =
        let (done, w') = host.put_int (pop (toss ip)).0 w in
        if_all LocalSound done (popped-IpSound ip h) (popped-IpSound ip h)

    push_input-IpSound :
        (a : Option ℕ) (ip : Ip)
        → IpSound ip
        → IpSound (push_input lib host settings env memory a ip)
    unfolding reverse
    push_input-IpSound none ip h = h
    push_input-IpSound (some a) ip h =
        set_toss-IpSound (push a (toss ip)) ip (push-IsValid a (toss ip) (toss-IsValid ip h)) h

    pub read_char-LocalSound :
        (l : State) → LocalSound l → LocalSound (read_char lib host settings env memory l)
    unfolding read_char
    read_char-LocalSound (ip, s, w) h = push_input-IpSound (host.get_char w).0 ip h

    pub read_int-LocalSound :
        (l : State) → LocalSound l → LocalSound (read_int lib host settings env memory l)
    unfolding read_int
    read_int-LocalSound (ip, s, w) h = push_input-IpSound (host.get_int w).0 ip h

    pub go_away-LocalSound :
        (l : State) → LocalSound l → LocalSound (go_away lib host settings env memory l)
    unfolding go_away go_north go_east go_south go_west
    go_away-LocalSound (ip, s, w) h =
        let rnd = (host.random_of_four w).0 in
        if_all IpSound (rnd == 0) h (
          if_all IpSound (rnd == 1) h (if_all IpSound (rnd == 2) h (if_all IpSound (rnd == 3) h h)))
