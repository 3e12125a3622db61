-- ===== src/Interpreter/Loop.antt =====
-- One turn of the main loop.
use cfunge.Prelude.{ℕ, zero, suc, true, Option, none, some, ◌>>=◌, ◌==◌, if◌then◌else◌, update}
use cfunge.Table.{HashLib}
use cfunge.Space.{Space, get}
use cfunge.Manager.{Env}
use cfunge.Ip.{Ip, code_mode, string_mode, forward}
use cfunge.Interpreter.Execute.{Settings, Host}
use cfunge.Interpreter.Run.{Machine, Outcome, went, exited, execute_other}
use cfunge.Interpreter.Iterate.{run_iterate}

module _ (lib : HashLib) (host : Host lib) (settings : Settings) (env : Env) (memory : ℕ → ℕ) where
  open host use {World}

  abbrev M : Type 0
  M = Machine lib host settings env memory

  -- `execute_instruction`; `none` when the fuel for a loop over cells or for k is used up
  unfoldable pub execute_instruction : ℕ → ℕ → ℕ → M → Option (Outcome lib host settings env memory)
  execute_instruction fuel opcode index m =
      let other = execute_other lib host settings env memory fuel opcode index index m in
      elim (m.list.ips index).mode [
        | string_mode ↦ other
        | code_mode ↦
            if opcode == b'k' then run_iterate lib host settings env memory fuel index m else other
      ]

  -- `thread_forward`
  unfoldable pub thread_forward : Ip → Space lib → Ip × Space lib
  thread_forward ip s =
      if ip.need_move then forward lib ip s else (record ip { need_move = true }, s)

  -- What follows an instruction in the main loop: the next index, or `none` below 0.
  pub data Ticked : Type 0 where
    next : Option ℕ → M → Ticked
    stopped : ℕ → Ticked

  abbrev pub below : ℕ → Option ℕ
  below zero = none
  below (suc i) = some i

  unfoldable pub after : Outcome lib host settings env memory → Ticked
  unfolding thread_forward
  after (exited status) = stopped status
  after (went no_tick i m) =
      let (ip, s) = thread_forward (m.list.ips i) m.funge_space in
      let m' = record m {
        list = record m.list { ips = update m.list.ips i ip };
        funge_space = s;
      } in
      next (if no_tick then some i else below i) m'

  -- One turn of the inner loop of `interpreter_main_loop`, at the index i. Traces are left out.
  unfoldable pub tick : ℕ → ℕ → M → Option Ticked
  unfolding after
  tick fuel i m = do
    let opcode = get lib m.funge_space (m.list.ips i).position
    outcome ← execute_instruction fuel opcode i m
    some (after outcome)
