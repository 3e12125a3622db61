-- ===== src/Interpreter/Samples.antt =====
-- States for the tests of the interpreter.
use cfunge.Prelude.{ℕ, ◌+◌, true, false, none, some, update}
use cfunge.Table.Instance.{assoc_lib}
use cfunge.Space.{Space, create}
use cfunge.Stack.{Stack}
use cfunge.Manager.{Env}
use cfunge.Ip.{Ip, ip_create, stackstack_create, set_toss}
use cfunge.Interpreter.Execute.{Settings, Host}

abbrev pub three : Stack
three = record { entries = λ i. i + 7; size = 3; top = 3 }

unfoldable pub start : Ip
unfolding ip_create stackstack_create update
start = set_toss three (ip_create λ _. 0)

-- A space of one repeated cell.
unfoldable pub plain : ℕ → Space assoc_lib
unfolding create
plain c = record (create assoc_lib) { cells = λ _. c }

abbrev pub host : Host assoc_lib
host = record {
  World = Unit {0};
  put_char = λ _ w. (true, w);
  put_int = λ _ w. (true, w);
  get_char = λ w. (none, w);
  get_int = λ w. (none, w);
  random_of_four = λ w. (0, w);
  call = λ _ ip s w. some (ip, s, w);
  other = λ _ ip s w. some (ip, s, w);
}

abbrev pub settings : Settings
settings = record {
  disable_fingerprints = false;
  sandbox = false;
  befunge93 = false;
  funge109 = false;
}

abbrev pub env : Env
env = record { alloc = λ _. true; setup = λ _. true; address = λ f c. f + c }

abbrev pub memory : ℕ → ℕ
memory _ = 0
