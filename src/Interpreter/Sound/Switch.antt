-- ===== src/Interpreter/Sound/Switch.antt =====
-- The order of the stacks under the cases of the switch.
use cfunge.Prelude.{ℕ, true, false, not, ◌||◌, Option, none, some, ◌>>=◌, ◌==◌}
use cfunge.Cell.{space}
use cfunge.Table.{HashLib}
use cfunge.Space.{Space}
use cfunge.Stack.{Stack}
use cfunge.Manager.{Env}
use cfunge.Ip.{Ip, toss}
use cfunge.Interpreter.Stacks.{stack_instruction}
use cfunge.Interpreter.Moves.{move_instruction}
use cfunge.Interpreter.Plane.{skip_until, put_cell, store_next}
use cfunge.Interpreter.Execute.{Settings, Host, Local}
use cfunge.Interpreter.Run.{
  Result, try_move, try_stack, done_plane, skip_blanks, skip_comment, switch,
}
use cfunge.Interpreter.Sound.{
  IpSound, if_all, toss-IsValid, set_toss-IpSound, reverse-IpSound, Keeps, MoveKeeps,
  stack_instruction-Keeps, move_instruction-MoveKeeps,
}
use cfunge.Interpreter.Sound.Blocks.{end_block-IpSound, transfer_cells-IpSound}
use cfunge.Interpreter.Sound.Plane.{
  PlaneSound, forward-IpSound, skip_until-PlaneSound, jump-IpSound, get_cell-IpSound,
  put_cell-PlaneSound, fetch-IpSound, store_next-PlaneSound, begin_block-IpSound,
}
use cfunge.Interpreter.Sound.Execute.{
  KeepsStacks, ResultSound, fingerprint_instruction-IpSound, print_char-LocalSound,
  print_int-LocalSound, read_char-LocalSound, read_int-LocalSound, go_away-LocalSound,
}

module _ (lib : HashLib) (host : Host lib) (settings : Settings) (env : Env) (memory : ℕ → ℕ) where
  open host use {World}

  abbrev State : Type 0
  State = Local lib host settings env memory

  abbrev R : Type 0
  R = Result lib host settings env memory

  abbrev Kept : R → Type 0
  Kept = ResultSound lib host settings env memory

  module _ (keeps : KeepsStacks lib host settings env memory) where
    try_move-ResultSound :
        (o : Option (Ip → Ip)) (l : State) (rest : R)
        → MoveKeeps o
        → IpSound l.0
        → Kept rest
        → Kept (try_move lib host settings env memory o l rest)
    try_move-ResultSound none l rest k h hr = hr
    try_move-ResultSound (some f) (ip, s, w) rest k h hr = k ip h

    try_stack-ResultSound :
        (o : Option (Stack → Stack)) (l : State) (rest : R)
        → Keeps o
        → IpSound l.0
        → Kept rest
        → Kept (try_stack lib host settings env memory o l rest)
    try_stack-ResultSound none l rest k h hr = hr
    try_stack-ResultSound (some f) (ip, s, w) rest k h hr =
        set_toss-IpSound (f (toss ip)) ip (k (toss ip) (toss-IsValid ip h)) h

    done_plane-ResultSound :
        (w : World) (o : Option (Ip × Space lib))
        → PlaneSound lib o
        → Kept (done_plane lib host settings env memory w o)
    done_plane-ResultSound w none h = tt
    done_plane-ResultSound w (some (ip, s)) h = h

    bind-ResultSound :
        (o : Option (Ip × Space lib)) (f : Ip × Space lib → R)
        → PlaneSound lib o
        → ((r : Ip × Space lib) → IpSound r.0 → Kept (f r))
        → Kept (o >>= f)
    bind-ResultSound none f h k = tt
    bind-ResultSound (some r) f h k = k r h

    skip_blanks-ResultSound :
        (fuel : ℕ) (l : State)
        → IpSound l.0
        → Kept (skip_blanks lib host settings env memory fuel l)
    unfolding skip_blanks
    skip_blanks-ResultSound fuel (ip, s, w) h =
        bind-ResultSound (skip_until lib (λ c. not (c == space)) fuel ip s) _
          (skip_until-PlaneSound lib (λ c. not (c == space)) fuel ip s h) (λ r k. k)

    skip_comment-ResultSound :
        (fuel : ℕ) (l : State)
        → IpSound l.0
        → Kept (skip_comment lib host settings env memory fuel l)
    unfolding skip_comment
    skip_comment-ResultSound fuel (ip, s, w) h =
        bind-ResultSound (skip_until lib (λ c. c == b';') fuel ip s) _
          (skip_until-PlaneSound lib (λ c. c == b';') fuel ip s h) (λ r k. k)

    pub switch-ResultSound :
        (fuel c : ℕ) (l : State) → IpSound l.0 → Kept (switch lib host settings env memory fuel c l)
    unfolding switch
    switch-ResultSound fuel c (ip, s, w) h =
        let l : State = (ip, s, w) in
        try_move-ResultSound (move_instruction c) l _ (move_instruction-MoveKeeps c) h (
          try_stack-ResultSound (stack_instruction c) l _ (stack_instruction-Keeps c) h (
            if_all Kept (c == space) (skip_blanks-ResultSound fuel l h) (
              if_all Kept (c == b';') (skip_comment-ResultSound fuel l h) (
                if_all Kept (c == b'j') (jump-IpSound lib ip s h) (
                  if_all Kept (c == b'?')
                    (go_away-LocalSound lib host settings env memory keeps l h)
                    (if_all Kept (c == b'#') (forward-IpSound lib ip s h) (
                      if_all Kept (c == b'g') (get_cell-IpSound lib ip s h) (
                        if_all Kept (c == b'p')
                          (done_plane-ResultSound w (put_cell lib ip s)
                            (put_cell-PlaneSound lib ip s h))
                          (if_all Kept (c == b'\'') (fetch-IpSound lib ip s h) (
                            if_all Kept (c == b's')
                              (done_plane-ResultSound w (store_next lib ip s)
                                (store_next-PlaneSound lib ip s h))
                              (if_all Kept (c == b',')
                                (print_char-LocalSound lib host settings env memory keeps l h)
                                (if_all Kept (c == b'.')
                                  (print_int-LocalSound lib host settings env memory keeps l h)
                                  (if_all Kept (c == b'~')
                                    (read_char-LocalSound lib host settings env memory keeps l h)
                                    (if_all Kept (c == b'&')
                                      (read_int-LocalSound lib host settings env memory keeps l h)
                                      (if_all Kept (c == b'{')
                                        (begin_block-IpSound lib env.alloc memory ip s h)
                                        (if_all Kept (c == b'}') (end_block-IpSound lib ip h) (
                                          if_all Kept (c == b'u') (transfer_cells-IpSound ip h) (
                                            if_all Kept (c == b'(')
                                              (fingerprint_instruction-IpSound lib host settings env
                                                memory keeps true ip h)
                                              (if_all Kept (c == b')')
                                                (fingerprint_instruction-IpSound lib host settings
                                                  env memory keeps false ip h)
                                                (if_all Kept
                                                  (c == b'y' || c == b'i' || c == b'o' || c == b'=')
                                                  (keeps.other c ip s w h)
                                                  (reverse-IpSound ip h)))))))))))))))))))))
