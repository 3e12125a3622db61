-- ===== src/Interpreter/Sound/Tests.antt =====
-- The theorems on the order of the machine at concrete states.
use cfunge.Prelude.{refl, arith, true, false, Option, none, some, []}
use cfunge.Table.Instance.{assoc_lib}
use cfunge.Space.{create, get}
use cfunge.Ip.{ip_create}
use cfunge.IpList.{iplist_create}
use cfunge.Interpreter.Run.{Machine, execute_other, switch}
use cfunge.Interpreter.Moves.{move_instruction}
use cfunge.Interpreter.Loop.{Ticked, next, stopped, after, execute_instruction, tick}
use cfunge.Interpreter.Samples.{plain, host, settings, env, memory}
use cfunge.Interpreter.Execute.{Host}
use cfunge.Interpreter.Program.{Outside, program_host}
use cfunge.Interpreter.Sound.Program.{
  KeepsOutside, program_host-KeepsStacks, program_host-TickSound, program_host-ListSound,
}
use cfunge.Interpreter.Sound.Loop.{ListSound, IndexIn}
use cfunge.Interpreter.Sound.Tick.{TickSound}
use cfunge.Interpreter.Sound.Run.{iplist_create-ListSound, Reaches, begin, round, turn}

-- Nothing happens outside, and no function is modelled at address 0.
abbrev outside : Outside assoc_lib settings
outside = record {
  rest = host;
  surroundings = record {
    environ = [];
    fungeargv = [];
    check_env_is_safe = λ e. false;
    now = record { tm_year = 126; tm_mon = 0; tm_mday = 1; tm_hour = 12; tm_min = 0; tm_sec = 0 };
  };
  memory = memory;
  alloc = λ n. true;
  disk = record {
    opens = true;
    reserves = true;
    alloc = λ n. true;
    writes = true;
    outside = memory;
  };
  file = λ w name. none;
  wrote = λ saved w. w;
  system = λ w command. 0;
  printed = λ bytes w. w;
  print = λ c. [];
  square_root = λ c. c;
  clock = λ w utc. record {
    tm_year = 126;
    tm_mon = 0;
    tm_mday = 1;
    tm_hour = 12;
    tm_min = 0;
    tm_sec = 0;
    tm_wday = 4;
    tm_yday = 0;
  };
  now = λ w. record { tv_sec = 1; tv_nsec = 0 };
  resolution = λ w. 1;
  size = record { x = 0; y = 0 };
  called = λ address. (0x424f4f4c, address);
}

keeps : KeepsOutside assoc_lib settings outside
keeps = record { call = λ f ip s w h. h }

abbrev program : Host assoc_lib
program = program_host assoc_lib settings outside

abbrev M : Type 0
M = Machine assoc_lib program settings env memory

-- One instruction pointer on a plane of z.
abbrev first : M
first = record {
  list = iplist_create memory;
  funge_space = plain b'z';
  world = record {
    outside = tt;
    input = record { line = []; current = none; stdin = [] };
    kept = record { tmp = none; cache = none };
    references = record { references = λ i. record { x = 0; y = 0 }; top = 0; size = 5 };
    use_utc = false;
  };
}

program_host-TickSound_example :
    TickSound assoc_lib program settings env memory
      (program_host-KeepsStacks assoc_lib settings outside keeps env memory)
      (tick assoc_lib program settings env memory 1 0 first)
unfolding iplist_create get plain create ip_create
program_host-TickSound_example =
    program_host-TickSound assoc_lib settings outside keeps env memory 1 0 first (omega arith)
      (iplist_create-ListSound memory) refl

abbrev machine_of : Option (Ticked assoc_lib program settings env memory) → M
machine_of none = first
machine_of (some (stopped status)) = first
machine_of (some (next o m)) = m

abbrev second : M
second = machine_of (tick assoc_lib program settings env memory 1 0 first)

reached : Reaches assoc_lib program settings env memory first none second
unfolding iplist_create get plain create ip_create tick execute_instruction execute_other switch
    move_instruction after
reached = turn 1 (round begin) refl refl

program_host-ListSound_example : ListSound second.list × IndexIn none second.list
program_host-ListSound_example =
    program_host-ListSound assoc_lib settings outside keeps env memory first second none refl
      reached
