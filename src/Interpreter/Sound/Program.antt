-- ===== src/Interpreter/Sound/Program.antt =====
-- The interpreter with the modelled files keeps the order of the stacks.
use cfunge.Prelude.{◌≡◌, ◌≤◌, ℕ, false, ◌&&◌, Option, none, some, List, [], ◌∷◌, ◌++◌, ◌==◌}
use cfunge.Table.{HashLib}
use cfunge.Space.{Space, get}
use cfunge.Ip.{Ip}
use cfunge.Manager.{Env}
use cfunge.FileIo.{run_file_input, run_file_output, run_system_execute}
use cfunge.Fingerprints.Roma.{roma}
use cfunge.Fingerprints.Orth
use cfunge.Interpreter.Execute.{Settings, Host}
use cfunge.Interpreter.Run.{done_other, Machine}
use cfunge.IpList.{iplist_create}
use cfunge.Interpreter.Loop.{tick}
use cfunge.Interpreter.Sound.Loop.{ListSound, IndexIn}
use cfunge.Interpreter.Sound.Tick.{TickSound, tick-TickSound}
use cfunge.Interpreter.Sound.Run.{Reaches, Reaches-ListSound}
use cfunge.Interpreter.Program.{
  Outside, State, Step, Entry, with_state, shown, outer, of_roma, boolean_and_numbers,
  stacks_and_references, plane_and_calls, clocks, find, call_function, wrote_file, with_ip,
  system_instruction, program_host,
}
use cfunge.Interpreter.Sound.{IpSound, if_all, MoveKeeps}
use cfunge.Interpreter.Sound.Plane.{PlaneSound}
use cfunge.Interpreter.Sound.Execute.{KeepsStacks, ResultSound}
use cfunge.Interpreter.Sound.Functions
use cfunge.Interpreter.Sound.Functions.{IpKeeps, popped_n-IpSound}
use cfunge.Interpreter.Sound.Places
use cfunge.Interpreter.Sound.Files.{
  Of, output_string-Of, run_file_input-Of, run_file_output-Of, run_system_execute-Of,
  run_sys_info-IpSound,
}

infixr 5 ◌&◌
abbrev ◌&◌ : {A B : Type 0} → A → B → A × B
◌&◌ a b = (a, b)

module _ (lib : HashLib) (settings : Settings) (out : Outside lib settings) where
  open out use {
    rest, surroundings, memory, alloc, disk, file, system, clock, now, resolution, size, called,
  }

  abbrev S : Type 0
  S = State lib settings out

  abbrev Done : Option (Ip × Space lib × S) → Type 0
  Done o = Of (λ (r : Ip × Space lib × S). IpSound r.0) o

  abbrev StepKeeps : Step lib settings out → Type 0
  StepKeeps f = (ip : Ip) (s : Space lib) (w : S) → IpSound ip → Done (f ip s w)

  abbrev AllKeep : List (Entry lib settings out) → Type 0
  AllKeep [] = Unit {0}
  AllKeep ((fprint, letter, step) ∷ more) = StepKeeps step × AllKeep more

  -- What the host outside keeps.
  pub record KeepsOutside : Type 0 where
    pub call :
        (f : ℕ) (ip : Ip) (s : Space lib) (o : rest.World)
        → IpSound ip
        → Of (λ (r : Ip × Space lib × rest.World). IpSound r.0) (rest.call f ip s o)

  with_state-Done :
      (w : S) (o : Option (Ip × Space lib))
      → PlaneSound lib o
      → Done (with_state lib settings out w o)
  with_state-Done w none h = tt
  with_state-Done w (some (ip, s)) h = h

  of_roma-IpSound : (c : ℕ) → IpKeeps (of_roma lib settings out (roma c))
  of_roma-IpSound c ip h = of (roma c) (Functions.roma-MoveKeeps c)
    where
      of : (o : Option (Ip → Ip)) → MoveKeeps o → IpSound (of_roma lib settings out o ip)
      of none k = h
      of (some f) k = k ip h

  shown-Done :
      (s : Space lib) (w : S) (o : Option (List ℕ × Ip))
      → Of (λ (r : List ℕ × Ip). IpSound r.1) o
      → Done (shown lib settings out s w o)
  shown-Done s w none h = tt
  shown-Done s w (some (bytes, ip)) h = h

  boolean_and_numbers-AllKeep : AllKeep (boolean_and_numbers lib settings out)
  unfolding boolean_and_numbers cfunge.Fingerprints.Cpli.out
  boolean_and_numbers-AllKeep =
      (λ ip s w h. Functions.and-IpSound ip h)
      & (λ ip s w h. Functions.not-IpSound ip h)
      & (λ ip s w h. Functions.or-IpSound ip h)
      & (λ ip s w h. Functions.xor-IpSound ip h)
      & (λ ip s w h. Functions.cpli_add-IpSound ip h)
      & (λ ip s w h. Functions.cpli_div-IpSound ip h)
      & (λ ip s w h. Functions.cpli_mul-IpSound ip h)
      & (λ ip s w h. popped_n-IpSound 2 ip h)
      & (λ ip s w h. Functions.cpli_sub-IpSound ip h)
      & (λ ip s w h. Functions.cpli_abs-IpSound out.square_root ip h)
      & (λ ip s w h. Functions.signed_result-IpSound ip h)
      & (λ ip s w h. Functions.remainder-IpSound ip h)
      & (λ ip s w h. Functions.unsigned_result-IpSound ip h)
      & (λ ip s w h. of_roma-IpSound b'C' ip h)
      & (λ ip s w h. of_roma-IpSound b'D' ip h)
      & (λ ip s w h. of_roma-IpSound b'I' ip h)
      & (λ ip s w h. of_roma-IpSound b'L' ip h)
      & (λ ip s w h. of_roma-IpSound b'M' ip h)
      & (λ ip s w h. of_roma-IpSound b'V' ip h)
      & (λ ip s w h. of_roma-IpSound b'X' ip h)
      & tt

  stacks_and_references-AllKeep : AllKeep (stacks_and_references lib settings out)
  unfolding stacks_and_references
  stacks_and_references-AllKeep =
      (λ ip s w h. Functions.stack_size-IpSound ip h)
      & (λ ip s w h. Functions.forth_roll-IpSound alloc ip h)
      & (λ ip s w h. Functions.forth_over-IpSound ip h)
      & (λ ip s w h. Functions.forth_pick-IpSound ip h)
      & (λ ip s w h. Functions.forth_rot-IpSound ip h)
      & (λ ip s w h. Functions.reference-IpSound alloc w.references ip h)
      & (λ ip s w h. Functions.dereference-IpSound w.references ip h)
      & tt

  plane_and_calls-AllKeep : AllKeep (plane_and_calls lib settings out)
  unfolding plane_and_calls cfunge.Fingerprints.Subr.absolute cfunge.Fingerprints.Subr.relative
  plane_and_calls-AllKeep =
      (λ ip s w h. Places.get_num-IpSound lib ip s h)
      & (λ ip s w h. with_state-Done w _ (Places.put_num-PlaneSound lib ip s h))
      & (λ ip s w h. Places.get_vec-IpSound lib ip s h)
      & (λ ip s w h. with_state-Done w _ (Places.put_vec-PlaneSound lib ip s h))
      & (λ ip s w h. Functions.orth_and-IpSound ip h)
      & (λ ip s w h. Functions.orth_xor-IpSound ip h)
      & (λ ip s w h. Places.orth_get-IpSound lib ip s h)
      & (λ ip s w h. Functions.orth_or-IpSound ip h)
      & (λ ip s w h. with_state-Done w _ (Places.orth_put-PlaneSound lib ip s h))
      & (λ ip s w h. shown-Done s w (Orth.output_string alloc ip) (output_string-Of alloc ip h))
      & (λ ip s w h. Functions.change_dx-IpSound ip h)
      & (λ ip s w h. Functions.change_dy-IpSound ip h)
      & (λ ip s w h. Places.change_x-IpSound lib ip s h)
      & (λ ip s w h. Places.change_y-IpSound lib ip s h)
      & (λ ip s w h. Places.ramp_if_zero-IpSound lib ip s h)
      & (λ ip s w h. h)
      & (λ ip s w h. Places.call-IpSound lib memory ip s h)
      & (λ ip s w h. Places.jump-IpSound lib memory ip s h)
      & (λ ip s w h. h)
      & (λ ip s w h. Places.return-IpSound lib memory ip s h)
      & tt

  clocks-AllKeep : AllKeep (clocks lib settings out)
  unfolding clocks
  clocks-AllKeep =
      let time = λ (ip : Ip) (w : S) (h : IpSound ip).
        Places.time-IpSound (clock w.outside) w.use_utc ip h in
      (λ ip s w h. Places.erase_mark-IpSound (alloc 16) ip h)
      & (λ ip s w h. Places.granularity-IpSound (resolution w.outside) ip h)
      & (λ ip s w h. Places.mark-IpSound (alloc 16) (now w.outside) ip h)
      & (λ ip s w h. Places.timer-IpSound (now w.outside) ip h)
      & (λ ip s w h. Places.second-IpSound (now w.outside) ip h)
      & (λ ip s w h. (time ip w h).0)
      & (λ ip s w h. (time ip w h).1)
      & (λ ip s w h. h)
      & (λ ip s w h. (time ip w h).2)
      & (λ ip s w h. h)
      & (λ ip s w h. (time ip w h).3)
      & (λ ip s w h. (time ip w h).4)
      & (λ ip s w h. (time ip w h).5)
      & (λ ip s w h. (time ip w h).6)
      & (λ ip s w h. (time ip w h).7)
      & tt

  append-AllKeep : (a b : List (Entry lib settings out)) → AllKeep a → AllKeep b → AllKeep (a ++ b)
  append-AllKeep [] b ha hb = hb
  append-AllKeep ((fprint, letter, step) ∷ a) b (h, ha) hb = (h, append-AllKeep a b ha hb)

  find-StepKeeps :
      (table : List (Entry lib settings out)) (fprint letter : ℕ) (foreign : Step lib settings out)
      → AllKeep table
      → StepKeeps foreign
      → StepKeeps (find lib settings out table fprint letter foreign)
  find-StepKeeps [] fprint letter foreign h k = k
  find-StepKeeps ((f, c, step) ∷ more) fprint letter foreign (h, hs) k =
      if_all StepKeeps (f == fprint && c == letter) h
        (find-StepKeeps more fprint letter foreign hs k)

  outer-Done :
      (w : S) (o : Option (Ip × Space lib × rest.World))
      → Of (λ (r : Ip × Space lib × rest.World). IpSound r.0) o
      → Done (outer lib settings out w o)
  outer-Done w none h = tt
  outer-Done w (some (ip, s, o)) h = h

  module _ (keeps : KeepsOutside) where
    call_function-Done : (address : ℕ) → StepKeeps (call_function lib settings out address)
    unfolding call_function
    call_function-Done address =
        let a = boolean_and_numbers lib settings out in
        let b = stacks_and_references lib settings out in
        let c = plane_and_calls lib settings out in
        let d = clocks lib settings out in
        find-StepKeeps (a ++ (b ++ (c ++ d))) (called address).0 (called address).1 _
          (append-AllKeep a (b ++ (c ++ d)) boolean_and_numbers-AllKeep (
            append-AllKeep b (c ++ d) stacks_and_references-AllKeep
              (append-AllKeep c d plane_and_calls-AllKeep clocks-AllKeep)))
          (λ ip s w h.
            outer-Done w (rest.call address ip s w.outside) (keeps.call address ip s w.outside h))

    wrote_file-Done :
        (s : Space lib) (w : S) (o : Option (Ip × Option (List ℕ × List ℕ)))
        → Of (λ (r : Ip × Option (List ℕ × List ℕ)). IpSound r.0) o
        → Done (wrote_file lib settings out s w o)
    wrote_file-Done s w none h = tt
    wrote_file-Done s w (some (ip, saved)) h = h

    with_ip-Done :
        (s : Space lib) (w : S) (o : Option Ip)
        → Of IpSound o
        → Done (with_ip lib settings out s w o)
    with_ip-Done s w none h = tt
    with_ip-Done s w (some ip) h = h

    of_plane-Done :
        (w : S) (o : Option (Ip × Space lib))
        → Of (λ (r : Ip × Space lib). IpSound r.0) o
        → Done (with_state lib settings out w o)
    of_plane-Done w none h = tt
    of_plane-Done w (some (ip, s)) h = h

    system_instruction-Done : (opcode : ℕ) → StepKeeps (system_instruction lib settings out opcode)
    unfolding system_instruction
    system_instruction-Done opcode ip s w h =
        if_all Done (opcode == b'y')
          (run_sys_info-IpSound lib settings surroundings memory w.kept ip s h)
          (if_all Done (opcode == b'i')
            (of_plane-Done w (run_file_input lib settings.sandbox alloc (file w.outside) size ip s)
              (run_file_input-Of lib settings.sandbox alloc (file w.outside) size ip s h))
            (if_all Done (opcode == b'o')
              (wrote_file-Done s w (run_file_output lib settings.sandbox alloc disk ip s)
                (run_file_output-Of lib settings.sandbox alloc disk ip s h))
              (with_ip-Done s w (run_system_execute settings.sandbox alloc (system w.outside) ip)
                (run_system_execute-Of settings.sandbox alloc (system w.outside) ip h))))

    module _ (env : Env) (initial : ℕ → ℕ) where
      abbrev H : Host lib
      H = program_host lib settings out

      done_other-ResultSound :
          (o : Option (Ip × Space lib × S))
          → Done o
          → ResultSound lib H settings env initial (done_other lib H settings env initial o)
      done_other-ResultSound none h = tt
      done_other-ResultSound (some (ip, s, w)) h = h

      pub program_host-KeepsStacks : KeepsStacks lib H settings env initial
      program_host-KeepsStacks = record {
        call = λ f ip s w h.
            done_other-ResultSound (call_function lib settings out f ip s w)
              (call_function-Done f ip s w h);
        other = λ c ip s w h.
            done_other-ResultSound (system_instruction lib settings out c ip s w)
              (system_instruction-Done c ip s w h);
      }

      -- In a run of the program without k that begins with the list of one instruction pointer,
      -- between any two turns: the list is within its array, each of its instruction pointers has
      -- valid stacks within its own array, and the next index is one of the list; provided that the
      -- functions of the other fingerprints keep the stacks of an instruction pointer so.
      pub program_host-ListSound :
          (first m : Machine lib H settings env initial) (o : Option ℕ)
          → first.list ≡ iplist_create initial
          → Reaches lib H settings env initial first o m
          → ListSound m.list × IndexIn o m.list
      program_host-ListSound first m o created r =
          Reaches-ListSound lib H settings env initial first m o program_host-KeepsStacks created r

      -- A turn of the main loop of the program on an instruction other than k, at an index of a list
      -- that is within its array and whose instruction pointers have valid stacks within their own
      -- arrays, leaves such a list, and an index of it or none; provided that the functions of the
      -- other fingerprints keep the stacks of an instruction pointer so.
      pub program_host-TickSound :
          (fuel i : ℕ) (m : Machine lib H settings env initial)
          → i ≤ m.list.top
          → ListSound m.list
          → (get lib m.funge_space (m.list.ips i).position == b'k') ≡ false
          → TickSound lib H settings env initial program_host-KeepsStacks
              (tick lib H settings env initial fuel i m)
      program_host-TickSound = tick-TickSound lib H settings env initial program_host-KeepsStacks
