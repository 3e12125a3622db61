-- ===== src/Interpreter/Sound/Tick.antt =====
-- The order of the list of instruction pointers and their stacks under a turn of the main loop.
use cfunge.Prelude.{
  ℕ, zero, suc, ◌≤◌, ◌≡◌, arith, false, ◌&&◌, Option, none, some, ◌>>=◌, leb, ◌==◌, update,
  Bool-cases, inl, inr,
}
use cfunge.Table.{HashLib}
use cfunge.Space.{Space, get}
use cfunge.Manager.{Env}
use cfunge.Ip.{Ip, reverse}
use cfunge.IpList.{IpList, iplist_duplicate_ip, iplist_terminate_ip}
use cfunge.Interpreter.Execute.{Settings, Host, Local, handle_string_mode, handle_fprint}
use cfunge.Interpreter.Run.{
  done_other, Result, Machine, Outcome, went, exited, put_back, put_result, split, terminate,
  switch, execute_other,
}
use cfunge.Interpreter.Sound.{IpSound, if_all, reverse-IpSound}
use cfunge.Interpreter.Sound.Execute.{
  handle_string_mode-IpSound, KeepsStacks, ResultSound, handle_fprint-ResultSound,
}
use cfunge.Interpreter.Sound.Switch.{switch-ResultSound}
use cfunge.Interpreter.Loop.{
  execute_instruction, thread_forward, Ticked, next, stopped, below, after, tick,
}
use cfunge.Interpreter.Sound.Plane.{forward-IpSound}
use cfunge.Interpreter.Sound.Loop.{
  ListSound, IndexIn, update-ListSound, terminate-ListSound, mode_all, Duplicated,
  iplist_duplicate_ip-Duplicated,
}

module _ (lib : HashLib) (host : Host lib) (settings : Settings) (env : Env) (memory : ℕ → ℕ) where
  open host use {World}

  abbrev M : Type 0
  M = Machine lib host settings env memory

  abbrev O : Type 0
  O = Outcome lib host settings env memory

  -- The list and the thread index after an instruction, if the program goes on.
  abbrev OutcomeSound : Option O → Type 0
  OutcomeSound none = Unit {0}
  OutcomeSound (some (exited status)) = Unit {0}
  OutcomeSound (some (went no_tick i m)) = ListSound m.list × (i ≤ m.list.top)

  put_result-OutcomeSound :
      (i : ℕ) (m : M) (r : Result lib host settings env memory)
      → i ≤ m.list.top
      → ListSound m.list
      → ResultSound lib host settings env memory r
      → OutcomeSound (put_result lib host settings env memory i i m r)
  put_result-OutcomeSound i m none h hl hr = tt
  put_result-OutcomeSound i m (some (no_tick, (ip, s, w))) h hl hr =
      (update-ListSound i ip m.list hr hl, h)

  split_by :
      (i : ℕ) (m : M) (r : Option ℕ × IpList × Space lib)
      → Duplicated lib settings.disable_fingerprints memory env.alloc i r
      → OutcomeSound (
          some (elim r.0 [
            | none ↦
                put_back lib host settings env memory i i
                  (record m { list = r.1; funge_space = r.2 })
                  (false, (reverse (r.1.ips i), r.2, m.world))
            | some k ↦ went false k (record m { list = r.1; funge_space = r.2 })
          ]))
  split_by i m (none, list, s) (hl, h, hi) = (
    update-ListSound i (reverse (list.ips i)) list (reverse-IpSound (list.ips i) (hl.sound i h)) hl,
    h,
  )
  split_by i m (some k, list, s) (hl, h, hi) = (hl, hi)

  split-OutcomeSound :
      (i : ℕ) (m : M)
      → i ≤ m.list.top
      → ListSound m.list
      → OutcomeSound (some (split lib host settings env memory i i m))
  unfolding split
  split-OutcomeSound i m h hl =
      let r =
        iplist_duplicate_ip lib settings.disable_fingerprints memory env.alloc i m.list
          m.funge_space in
      split_by i m r (
        iplist_duplicate_ip-Duplicated lib settings.disable_fingerprints memory env.alloc i m.list
          m.funge_space h hl)

  terminate-OutcomeSound :
      (i : ℕ) (m : M)
      → i ≤ m.list.top
      → ListSound m.list
      → OutcomeSound (some (terminate lib host settings env memory i m))
  unfolding terminate
  terminate-OutcomeSound i m h hl = elim (Bool-cases (m.list.top == 0)) [
    | inl last ↦ rw last tt
    | inr more ↦
        let (k, list) = iplist_terminate_ip i m.list in
        let (kept, low) = terminate-ListSound i m.list h more hl in
        rw more (
          update-ListSound k (record (list.ips k) { need_move = false }) list (kept.sound k low)
              kept,
          low,
        )
  ]

  module _ (keeps : KeepsStacks lib host settings env memory) where
    -- Every instruction but k.
    pub execute_other-OutcomeSound :
        (fuel c i : ℕ) (m : M)
        → i ≤ m.list.top
        → ListSound m.list
        → OutcomeSound (execute_other lib host settings env memory fuel c i i m)
    unfolding execute_other
    execute_other-OutcomeSound fuel c i m h hl =
        let ip = m.list.ips i in
        let hi = hl.sound i h in
        let l : Local lib host settings env memory = (ip, m.funge_space, m.world) in
        mode_all OutcomeSound ip.mode
          (
            update-ListSound i (handle_string_mode settings.befunge93 c ip).1 m.list
                (handle_string_mode-IpSound settings.befunge93 c ip hi) hl,
            h,
          )
          (if_all OutcomeSound (leb b'A' c && leb c b'Z')
            (put_result-OutcomeSound i m
              (done_other lib host settings env memory
                (handle_fprint lib host settings env memory c l))
              h hl (handle_fprint-ResultSound lib host settings env memory keeps c l hi))
            (if_all OutcomeSound (c == b't') (split-OutcomeSound i m h hl) (
              if_all OutcomeSound (c == b'@') (terminate-OutcomeSound i m h hl) (
                if_all OutcomeSound (c == b'q') tt (
                  put_result-OutcomeSound i m (switch lib host settings env memory fuel c l) h hl
                    (switch-ResultSound lib host settings env memory keeps fuel c l hi))))))

    execute_instruction-OutcomeSound :
        (fuel c i : ℕ) (m : M)
        → i ≤ m.list.top
        → ListSound m.list
        → (c == b'k') ≡ false
        → OutcomeSound (execute_instruction lib host settings env memory fuel c i m)
    unfolding execute_instruction
    execute_instruction-OutcomeSound fuel c i m h hl other =
        let kept = execute_other-OutcomeSound fuel c i m h hl in
        mode_all OutcomeSound (m.list.ips i).mode kept (rw other kept)

    -- The list and the next index after a turn, if the program goes on.
    abbrev pub TickSound : Option (Ticked lib host settings env memory) → Type 0
    TickSound none = Unit {0}
    TickSound (some (stopped status)) = Unit {0}
    TickSound (some (next o m)) = ListSound m.list × IndexIn o m.list

    below-IndexIn :
        (i : ℕ) (list : IpList) → i ≤ list.top → IndexIn (below lib host settings env memory i) list
    below-IndexIn zero list h = tt
    below-IndexIn (suc i) list h = omega arith

    thread_forward-IpSound :
        (ip : Ip) (s : Space lib)
        → IpSound ip
        → IpSound (thread_forward lib host settings env memory ip s).0
    unfolding thread_forward
    thread_forward-IpSound ip s h =
        if_all (λ (r : Ip × Space lib). IpSound r.0) ip.need_move (forward-IpSound lib ip s h) h

    after-TickSound :
        (o : Option O)
        → OutcomeSound o
        → TickSound (o >>= λ (u : O). some (after lib host settings env memory u))
    unfolding after
    after-TickSound none h = tt
    after-TickSound (some (exited status)) h = tt
    after-TickSound (some (went no_tick i m)) (hl, h) =
        let r = thread_forward lib host settings env memory (m.list.ips i) m.funge_space in
        let list : IpList = record m.list { ips = update m.list.ips i r.0 } in
        (
          update-ListSound i r.0 m.list
              (thread_forward-IpSound (m.list.ips i) m.funge_space (hl.sound i h)) hl,
          if_all (λ o. IndexIn o list) no_tick h (below-IndexIn i list h),
        )

    -- A turn of the main loop at the index of an IP, on another instruction than k, leaves a list
    -- within its array, each of whose instruction pointers has valid stacks within its own array, and
    -- goes on at the index of an IP of the list, or with the next round, or ends; provided that the list was
    -- so before, and that the functions of fingerprints and y i o = keep stacks so.
    pub tick-TickSound :
        (fuel i : ℕ) (m : M)
        → i ≤ m.list.top
        → ListSound m.list
        → (get lib m.funge_space (m.list.ips i).position == b'k') ≡ false
        → TickSound (tick lib host settings env memory fuel i m)
    unfolding tick
    tick-TickSound fuel i m h hl other =
        let c = get lib m.funge_space (m.list.ips i).position in
        after-TickSound (execute_instruction lib host settings env memory fuel c i m)
          (execute_instruction-OutcomeSound fuel c i m h hl other)
