-- ===== src/Sysinfo/Tests.antt =====
-- The theorem on y where the fifth cell of the list is asked for.
use cfunge.Prelude.{ℕ, ◌-◌, ◌≡◌, refl, arith, true, false, Option, none, List, [], ◌∷◌, get_or}
use cfunge.Table.Instance.{assoc_lib}
use cfunge.Space.{create}
use cfunge.Stack.{Stack, pop}
use cfunge.Stack.Contents.{contents}
use cfunge.Ip.{Ip, ip_create, toss, set_toss}
use cfunge.Interpreter.Execute.{Settings}
use cfunge.Sysinfo.{Surroundings, Kept, or_create, push_all, run_sys_info}
use cfunge.Sysinfo.Laws.{run_sys_info_lem}

abbrev settings : Settings
settings = record {
  disable_fingerprints = false;
  sandbox = false;
  befunge93 = false;
  funge109 = false;
}

abbrev sys : Surroundings
sys = record {
  environ = [];
  fungeargv = (b'f' ∷ []) ∷ [];
  check_env_is_safe = λ e. false;
  now = record { tm_year = 126; tm_mon = 0; tm_mday = 1; tm_hour = 12; tm_min = 0; tm_sec = 0 };
}

abbrev memory : ℕ → ℕ
memory i = 0

abbrev kept : Kept settings sys memory assoc_lib
kept = record { tmp = none; cache = none }

abbrev two : Stack
two = record { entries = λ i. get_or (9 ∷ 5 ∷ []) i 0; size = 16; top = 2 }

abbrev ip : Ip
ip = set_toss two (ip_create memory)

abbrev rest : Stack
rest = (pop (toss ip)).1

abbrev all : Stack
all =
    (push_all settings sys memory assoc_lib kept.cache rest.top (set_toss rest ip)
      (create assoc_lib) (or_create settings sys memory kept.tmp)).0

run_sys_info_example :
    contents (toss (run_sys_info settings sys memory assoc_lib kept ip (create assoc_lib)).0)
    ≡ get_or (contents all) (5 - 1) 0 ∷ contents rest
unfolding pop cfunge.Prelude.update ip_create cfunge.Ip.stackstack_create cfunge.Stack.create
    push_all cfunge.Stack.push
run_sys_info_example =
    run_sys_info_lem settings sys memory assoc_lib kept ip (create assoc_lib) 5 rest all refl refl
      (record { fits = omega arith }) (record { fits = omega arith }) (omega arith) (omega arith)
      (omega arith)
