-- ===== src/Interpreter/Program.antt =====
-- The interpreter with the modelled files: src/instructions/sysinfo.c, io.c and execute.c for y i o =,
-- src/input.c for ~, and the functions in src/fingerprints of BOOL, CPLI, FRTH, HRTI, INDV, MODU,
-- ORTH, REFC, ROMA, SUBR and TIME. The other functions, and the system, are those of another host.
use cfunge.Prelude.{ℕ, Bool, ◌&&◌, Option, none, some, List, [], ◌∷◌, ◌++◌, ◌==◌, if◌then◌else◌}
use cfunge.Vector.{Vector}
use cfunge.Table.{HashLib}
use cfunge.Space.{Space}
use cfunge.Space.Save.{System}
use cfunge.Ip.{Ip, Timespec}
use cfunge.Input.{Input, input_getchar}
use cfunge.Sysinfo.{Surroundings, Kept, run_sys_info}
use cfunge.FileIo.{run_file_input, run_file_output, run_system_execute}
use cfunge.Fingerprints.Bool
use cfunge.Fingerprints.Cpli
use cfunge.Fingerprints.Frth
use cfunge.Fingerprints.Hrti
use cfunge.Fingerprints.Indv
use cfunge.Fingerprints.Modu
use cfunge.Fingerprints.Orth
use cfunge.Fingerprints.Refc
use cfunge.Fingerprints.Refc.{References}
use cfunge.Fingerprints.Roma.{roma}
use cfunge.Fingerprints.Subr
use cfunge.Fingerprints.Time
use cfunge.Fingerprints.Time.{CurTime}
use cfunge.Interpreter.Execute.{Settings, Host}

-- What the modelled files ask of the system and of the C library, in a state of the outside, and
-- which function of a fingerprint stands at an address: its number and its letter.
pub record Outside (lib : HashLib) (settings : Settings) : Type 1 where
  pub rest : Host lib
  pub surroundings : Surroundings
  pub memory : ℕ → ℕ
  pub alloc : ℕ → Bool
  pub disk : System
  pub file : rest.World → List ℕ → Option (List ℕ)
  pub wrote : Option (List ℕ × List ℕ) → rest.World → rest.World
  pub system : rest.World → List ℕ → ℕ
  pub printed : List ℕ → rest.World → rest.World
  pub print : ℕ → List ℕ
  pub square_root : ℕ → ℕ
  pub clock : rest.World → Bool → CurTime
  pub now : rest.World → Timespec
  pub resolution : rest.World → ℕ
  pub size : Vector
  pub called : ℕ → ℕ × ℕ

module _ (lib : HashLib) (settings : Settings) (out : Outside lib settings) where
  open out use {
    rest, surroundings, memory, alloc, disk, file, wrote, system, printed, print, square_root,
    clock, now, resolution, size, called,
  }

  -- The static variables of the modelled files, and what is outside of them.
  pub record State : Type 0 where
    pub outside : rest.World
    pub input : Input
    pub kept : Kept settings surroundings memory lib
    pub references : References
    pub use_utc : Bool

  abbrev pub Step : Type 0
  Step = Ip → Space lib → State → Option (Ip × Space lib × State)

  abbrev pub on_ip : (Ip → Ip) → Step
  on_ip f ip s w = some (f ip, s, w)

  abbrev pub on_plane : (Ip → Space lib → Ip × Space lib) → Step
  on_plane f ip s w = let (ip', t) = f ip s in some (ip', t, w)

  abbrev pub with_state : State → Option (Ip × Space lib) → Option (Ip × Space lib × State)
  with_state w none = none
  with_state w (some (ip, s)) = some (ip, s, w)

  abbrev pub on_write : (Ip → Space lib → Option (Ip × Space lib)) → Step
  on_write f ip s w = with_state w (f ip s)

  -- A function that prints bytes.
  abbrev pub shown : Space lib → State → Option (List ℕ × Ip) → Option (Ip × Space lib × State)
  shown s w none = none
  shown s w (some (bytes, ip)) = some (ip, s, record w { outside = printed bytes w.outside })

  abbrev pub outer : State → Option (Ip × Space lib × rest.World) → Option (Ip × Space lib × State)
  outer w none = none
  outer w (some (ip, s, o)) = some (ip, s, record w { outside = o })

  abbrev pub of_roma : Option (Ip → Ip) → Ip → Ip
  of_roma none ip = ip
  of_roma (some f) ip = f ip

  abbrev at_time : ((Bool → CurTime) → Bool → Ip → Ip) → Step
  at_time f ip s w = some (f (clock w.outside) w.use_utc ip, s, w)

  abbrev pub Entry : Type 0
  Entry = ℕ × ℕ × Step

  unfoldable pub boolean_and_numbers : List Entry
  boolean_and_numbers =
      (0x424f4f4c, b'A', on_ip Bool.and)
      ∷ (0x424f4f4c, b'N', on_ip Bool.not)
      ∷ (0x424f4f4c, b'O', on_ip Bool.or)
      ∷ (0x424f4f4c, b'X', on_ip Bool.xor)
      ∷ (0x43504c49, b'A', on_ip Cpli.cpli_add)
      ∷ (0x43504c49, b'D', on_ip Cpli.cpli_div)
      ∷ (0x43504c49, b'M', on_ip Cpli.cpli_mul)
      ∷ (0x43504c49, b'O', λ ip s w. shown s w (some (Cpli.out print ip)))
      ∷ (0x43504c49, b'S', on_ip Cpli.cpli_sub)
      ∷ (0x43504c49, b'V', on_ip (Cpli.cpli_abs square_root))
      ∷ (0x4d4f4455, b'M', on_ip Modu.signed_result)
      ∷ (0x4d4f4455, b'R', on_ip Modu.remainder)
      ∷ (0x4d4f4455, b'U', on_ip Modu.unsigned_result)
      ∷ (0x524f4d41, b'C', on_ip (of_roma (roma b'C')))
      ∷ (0x524f4d41, b'D', on_ip (of_roma (roma b'D')))
      ∷ (0x524f4d41, b'I', on_ip (of_roma (roma b'I')))
      ∷ (0x524f4d41, b'L', on_ip (of_roma (roma b'L')))
      ∷ (0x524f4d41, b'M', on_ip (of_roma (roma b'M')))
      ∷ (0x524f4d41, b'V', on_ip (of_roma (roma b'V')))
      ∷ (0x524f4d41, b'X', on_ip (of_roma (roma b'X')))
      ∷ []

  unfoldable pub stacks_and_references : List Entry
  stacks_and_references =
      (0x46525448, b'D', on_ip Frth.stack_size)
      ∷ (0x46525448, b'L', on_ip (Frth.forth_roll alloc))
      ∷ (0x46525448, b'O', on_ip Frth.forth_over)
      ∷ (0x46525448, b'P', on_ip Frth.forth_pick)
      ∷ (0x46525448, b'R', on_ip Frth.forth_rot)
      ∷ (
        0x52454643,
        b'R',
        λ ip s w.
            let (ip', r) = Refc.reference alloc ip w.references in
            some (ip', s, record w { references = r }),
      )
      ∷ (0x52454643, b'D', λ ip s w. some (Refc.dereference w.references ip, s, w))
      ∷ []

  unfoldable pub plane_and_calls : List Entry
  plane_and_calls =
      (0x494e4456, b'G', on_plane (Indv.get_num lib))
      ∷ (0x494e4456, b'P', on_write (Indv.put_num lib))
      ∷ (0x494e4456, b'V', on_plane (Indv.get_vec lib))
      ∷ (0x494e4456, b'W', on_write (Indv.put_vec lib))
      ∷ (0x4f525448, b'A', on_ip Orth.orth_and)
      ∷ (0x4f525448, b'E', on_ip Orth.orth_xor)
      ∷ (0x4f525448, b'G', on_plane (Orth.orth_get lib))
      ∷ (0x4f525448, b'O', on_ip Orth.orth_or)
      ∷ (0x4f525448, b'P', on_write (Orth.orth_put lib))
      ∷ (0x4f525448, b'S', λ ip s w. shown s w (Orth.output_string alloc ip))
      ∷ (0x4f525448, b'V', on_ip Orth.change_dx)
      ∷ (0x4f525448, b'W', on_ip Orth.change_dy)
      ∷ (0x4f525448, b'X', on_plane (Orth.change_x lib))
      ∷ (0x4f525448, b'Y', on_plane (Orth.change_y lib))
      ∷ (0x4f525448, b'Z', on_plane (Orth.ramp_if_zero lib))
      ∷ (0x53554252, b'A', on_ip Subr.absolute)
      ∷ (0x53554252, b'C', on_plane (Subr.call memory lib))
      ∷ (0x53554252, b'J', on_plane (Subr.jump memory lib))
      ∷ (0x53554252, b'O', on_ip Subr.relative)
      ∷ (0x53554252, b'R', on_plane (Subr.return memory lib))
      ∷ []

  unfoldable pub clocks : List Entry
  clocks =
      (0x48525449, b'E', on_ip (Hrti.erase_mark (alloc 16)))
      ∷ (0x48525449, b'G', λ ip s w. some (Hrti.granularity (resolution w.outside) ip, s, w))
      ∷ (0x48525449, b'M', λ ip s w. some (Hrti.mark (alloc 16) (now w.outside) ip, s, w))
      ∷ (0x48525449, b'T', λ ip s w. some (Hrti.timer (now w.outside) ip, s, w))
      ∷ (0x48525449, b'S', λ ip s w. some (Hrti.second (now w.outside) ip, s, w))
      ∷ (0x54494d45, b'D', at_time Time.day)
      ∷ (0x54494d45, b'F', at_time Time.day_of_year)
      ∷ (0x54494d45, b'G', λ ip s w. some (ip, s, record w { use_utc = Time.use_gmt w.use_utc }))
      ∷ (0x54494d45, b'H', at_time Time.hour)
      ∷ (0x54494d45, b'L', λ ip s w. some (ip, s, record w { use_utc = Time.use_local w.use_utc }))
      ∷ (0x54494d45, b'M', at_time Time.minute)
      ∷ (0x54494d45, b'O', at_time Time.month)
      ∷ (0x54494d45, b'S', at_time Time.second)
      ∷ (0x54494d45, b'W', at_time Time.day_of_week)
      ∷ (0x54494d45, b'Y', at_time Time.year)
      ∷ []

  abbrev pub find : List Entry → ℕ → ℕ → Step → Step
  find [] fprint letter foreign = foreign
  find ((f, c, step) ∷ more) fprint letter foreign =
      if f == fprint && c == letter then step else find more fprint letter foreign

  -- The function at an address.
  unfoldable pub call_function : ℕ → Step
  unfolding boolean_and_numbers stacks_and_references plane_and_calls clocks
  call_function address ip s w =
      let (fprint, letter) = called address in
      let foreign : Step = λ ip s w. outer w (rest.call address ip s w.outside) in
      let table = boolean_and_numbers ++ (stacks_and_references ++ (plane_and_calls ++ clocks)) in
      find table fprint letter foreign ip s w

  abbrev pub wrote_file :
      Space lib → State → Option (Ip × Option (List ℕ × List ℕ)) → Option (Ip × Space lib × State)
  wrote_file s w none = none
  wrote_file s w (some (ip, saved)) = some (ip, s, record w { outside = wrote saved w.outside })

  abbrev pub with_ip : Space lib → State → Option Ip → Option (Ip × Space lib × State)
  with_ip s w none = none
  with_ip s w (some ip) = some (ip, s, w)

  -- y, i, o and =
  unfoldable pub system_instruction : ℕ → Step
  system_instruction opcode ip s w =
      let (ip', kept, t) = run_sys_info settings surroundings memory lib w.kept ip s in
      if opcode == b'y'
      then some (ip', t, record w { kept = kept })
      else if opcode == b'i'
      then with_state w (run_file_input lib settings.sandbox alloc (file w.outside) size ip s)
      else if opcode == b'o'
      then wrote_file s w (run_file_output lib settings.sandbox alloc disk ip s)
      else with_ip s w (run_system_execute settings.sandbox alloc (system w.outside) ip)

  abbrev out_there {ℓ} : {A : Type ℓ} → (rest.World → A × rest.World) → State → A × State
  out_there f w = let (a, o) = f w.outside in (a, record w { outside = o })

  abbrev pub program_host : Host lib
  program_host = record {
    World = State;
    put_char = λ c w. out_there (rest.put_char c) w;
    put_int = λ c w. out_there (rest.put_int c) w;
    get_char = λ w. let (c, i) = input_getchar w.input in (c, record w { input = i });
    get_int = λ w. out_there rest.get_int w;
    random_of_four = λ w. out_there rest.random_of_four w;
    call = call_function;
    other = system_instruction;
  }
