-- ===== src/Interpreter/Iterate/Tests.antt =====
-- The theorem on k at a k in front of a plane of +.
use cfunge.Prelude.{update, ◌≡◌, refl, arith, false, some}
use cfunge.Cell.{add}
use cfunge.Vector.{is_cardinal}
use cfunge.Table.Instance.{assoc_lib}
use cfunge.Space.{create, get}
use cfunge.Space.Bounds.{in_range}
use cfunge.Space.Wrap.{fungespace_wrap, wrap_bounds, wrap_edge, wrap_in}
use cfunge.Stack.{pop}
use cfunge.Ip.{Ip, ip_create, stackstack_create, toss, set_toss, forward, forward_no_wrap}
use cfunge.Interpreter.Stacks.{binary, stack_instruction, operator, digit}
use cfunge.Interpreter.Run.{Machine, went}
use cfunge.Interpreter.Samples.{start, plain, host, settings, env, memory}
use cfunge.Interpreter.Iterate.{fetch_next, run_iterate}
use cfunge.Interpreter.Iterate.Operand.{times, with_ip'}
use cfunge.Interpreter.Iterate.Laws.{left_at, run_iterate_lem}

abbrev machine : Machine assoc_lib host settings env memory
machine = record {
  list = record { size = 256; top = 0; highest_id = 0; ips = λ _. start };
  funge_space = plain b'+';
  world = tt;
}

abbrev past : Ip
past = (forward assoc_lib (set_toss (pop (toss start)).1 start) (plain b'+')).0

-- The top of the stack is 9, and 9 additions follow.
run_iterate_lem_example :
    run_iterate assoc_lib host settings env memory 2 0 machine
    ≡ some (
        went false 0 (
          with_ip' assoc_lib host settings env memory 0
            (record (set_toss
              (times (pop (toss start)).0 (binary add) (pop (toss start)).1)
              start) {
                position = left_at assoc_lib host settings env memory start.position past.position;
              })
            (plain b'+')
            machine))
unfolding start ip_create stackstack_create update pop fetch_next plain create get forward
    fungespace_wrap forward_no_wrap in_range wrap_bounds wrap_in is_cardinal wrap_edge
    stack_instruction operator digit
run_iterate_lem_example =
    run_iterate_lem assoc_lib host settings env memory 1 0 b'+' (binary add) past (plain b'+')
      machine (omega arith) refl refl refl refl
