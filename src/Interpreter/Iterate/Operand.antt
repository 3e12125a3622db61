-- ===== src/Interpreter/Iterate/Operand.antt =====
-- k over an instruction that works on the stack alone.
use cfunge.Prelude.{
  ℕ, zero, suc, ◌≡◌, refl, sym, ap, ◌∙◌, arith, Bool, true, false, not, ◌&&◌, ◌||◌, Option, none,
  some, ◌==◌, leb, if◌then◌else◌, update_self, update-update, Bool-cases, inl, inr, ◌≢◌,
}
use cfunge.Cell.{space}
use cfunge.Vector.{Vector, same_vector}
use cfunge.Table.{HashLib}
use cfunge.Space.{Space, get}
use cfunge.Stack.{Stack}
use cfunge.Manager.{Env}
use cfunge.Ip.{Ip, code_mode, toss, set_toss, forward, forward_no_wrap}
use cfunge.Interpreter.Stacks.{stack_instruction, digit, operator}
use cfunge.Interpreter.Moves.{move_instruction}
use cfunge.Interpreter.Execute.{Settings, Host}
use cfunge.Interpreter.Run.{Machine, Outcome, went, execute_other, switch, put_result}
use cfunge.Interpreter.Iterate.{
  next_instr, find_next_instr, fetch_next, with_ip, repeat, run_once, run_iterate_implement,
}

-- A function applied n times.
abbrev pub times : ℕ → (Stack → Stack) → Stack → Stack
times zero f s = s
times (suc n) f s = times n f (f s)

some_not_none : (f : Stack → Stack) → some f ≢ none
some_not_none f e = cc

stack_instruction_ne :
    (c d : ℕ) (f : Stack → Stack)
    → stack_instruction c ≡ some f
    → stack_instruction d ≡ none
    → (c == d) ≡ false
stack_instruction_ne c d f e none_of = elim (Bool-cases (c == d)) [
  | inl same ↦
      let eq : c ≡ d = ground arith in
      absurd (some_not_none f (sym e ∙ ap stack_instruction eq ∙ none_of))
  | inr other ↦ other
]

-- The instructions that `execute_instruction` and k treat on their own.
pub record IsPlain (c : ℕ) : Type 0 where
  pub split : (c == b't') ≡ false
  pub end : (c == b'@') ≡ false
  pub quit : (c == b'q') ≡ false
  pub iterate : (c == b'k') ≡ false
  pub nothing : (c == b'z') ≡ false

pub stack_instruction-IsPlain :
    (c : ℕ) (f : Stack → Stack) → stack_instruction c ≡ some f → IsPlain c
unfolding stack_instruction digit operator
stack_instruction-IsPlain c f e = record {
  split = stack_instruction_ne c b't' f e refl;
  end = stack_instruction_ne c b'@' f e refl;
  quit = stack_instruction_ne c b'q' f e refl;
  iterate = stack_instruction_ne c b'k' f e refl;
  nothing = stack_instruction_ne c b'z' f e refl;
}

stack_instruction_letter :
    (c : ℕ) (f : Stack → Stack) → stack_instruction c ≡ some f → (leb b'A' c && leb c b'Z') ≡ false
unfolding stack_instruction digit operator
stack_instruction_letter c f e = ground arith

stack_instruction_move :
    (c : ℕ) (f : Stack → Stack) → stack_instruction c ≡ some f → move_instruction c ≡ none
unfolding stack_instruction digit operator move_instruction
stack_instruction_move c f e = ground arith

pub same_vector_refl : (v : Vector) → same_vector v v ≡ true
unfolding same_vector
same_vector_refl v = ground arith

module _ (lib : HashLib) where
  -- A result of a search, with an IP that differs from another one in its position alone.
  abbrev pub Found : Ip → Option (ℕ × Ip × Space lib) → Type 0
  Found ip none = Unit {0}
  Found ip (some (instr, found, s)) = found ≡ record ip { position = found.position }

  if-Found :
      (b : Bool) (ip : Ip) (r r' : Option (ℕ × Ip × Space lib))
      → Found ip r
      → Found ip r'
      → Found ip (if b then r else r')
  if-Found true ip r r' h h' = h
  if-Found false ip r r' h h' = h'

  from-Found :
      (ip : Ip) (p : Vector) (r : Option (ℕ × Ip × Space lib))
      → Found (record ip { position = p }) r
      → Found ip r
  from-Found ip p none h = tt
  from-Found ip p (some (instr, found, s)) h = h

  next_instr-Found :
      (fuel : ℕ) (in_jump : Bool) (ip : Ip) (s : Space lib)
      → Found ip (next_instr lib in_jump fuel ip s)
  unfolding next_instr forward forward_no_wrap
  next_instr-Found zero in_jump ip s = tt
  next_instr-Found (suc fuel) in_jump ip s =
      let (ip', s') = forward lib ip s in
      let c = get lib s' ip'.position in
      let in_jump' = if c == b';' then not in_jump else in_jump in
      if-Found (c == b';' || c == space || in_jump) ip (next_instr lib in_jump' fuel ip' s')
        (some (c, ip', s'))
        (from-Found ip ip'.position (next_instr lib in_jump' fuel ip' s')
          (next_instr-Found fuel in_jump' ip' s'))
        refl

  pub fetch_next-Found : (fuel : ℕ) (ip : Ip) (s : Space lib) → Found ip (fetch_next lib fuel ip s)
  unfolding fetch_next find_next_instr forward forward_no_wrap
  fetch_next-Found fuel ip s =
      let (ip', s') = forward lib ip s in
      let c = get lib s' ip'.position in
      if-Found (c == space || c == b';') ip (next_instr lib (c == b';') fuel ip' s')
        (some (c, ip', s'))
        (from-Found ip ip'.position (next_instr lib (c == b';') fuel ip' s')
          (next_instr-Found fuel (c == b';') ip' s'))
        refl

module _ (lib : HashLib) (host : Host lib) (settings : Settings) (env : Env) (memory : ℕ → ℕ) where
  open host use {World}

  abbrev M : Type 0
  M = Machine lib host settings env memory

  abbrev O : Type 0
  O = Outcome lib host settings env memory

  abbrev pub with_ip' : ℕ → Ip → Space lib → M → M
  with_ip' = with_ip lib host settings env memory

  abbrev put : ℕ → Ip → M → M
  put at ip m = with_ip' at ip m.funge_space m

  switch-stack_instruction :
      (fuel instr : ℕ) (f : Stack → Stack) (ip : Ip) (s : Space lib) (w : World)
      → stack_instruction instr ≡ some f
      → switch lib host settings env memory fuel instr (ip, s, w)
        ≡ some (false, (set_toss (f (toss ip)) ip, s, w))
  unfolding switch
  switch-stack_instruction fuel instr f ip s w e =
      rw (stack_instruction_move instr f e, e, switch) refl

  execute_other-switch :
      (fuel instr at index : ℕ) (f : Stack → Stack) (m : M)
      → stack_instruction instr ≡ some f
      → (m.list.ips at).mode ≡ code_mode
      → execute_other lib host settings env memory fuel instr at index m
        ≡ put_result lib host settings env memory at index m
            (switch lib host settings env memory fuel instr (m.list.ips at, m.funge_space, m.world))
  unfolding execute_other
  execute_other-switch fuel instr at index f m e code =
      let plain = stack_instruction-IsPlain instr f e in
      simp (
        code,
        execute_other,
        stack_instruction_letter instr f e,
        plain.split,
        plain.end,
        plain.quit,
      )

  -- The instruction on an IP in code mode.
  execute_other-stack_instruction :
      (fuel instr at index : ℕ) (f : Stack → Stack) (m : M)
      → stack_instruction instr ≡ some f
      → (m.list.ips at).mode ≡ code_mode
      → execute_other lib host settings env memory fuel instr at index m
        ≡ some (went false index (put at (set_toss (f (toss (m.list.ips at))) (m.list.ips at)) m))
  execute_other-stack_instruction fuel instr at index f m e code =
      execute_other-switch fuel instr at index f m e code
      ∙ ap (put_result lib host settings env memory at index m)
          (switch-stack_instruction fuel instr f (m.list.ips at) m.funge_space m.world e)

  -- Facts about an IP that is put in its place.
  pub at_put : (at : ℕ) (ip : Ip) (s : Space lib) (m : M) → (with_ip' at ip s m).list.ips at ≡ ip
  at_put at ip s m = update_self m.list.ips at ip

  pub put_twice :
      (at : ℕ) (a b : Ip) (s t : Space lib) (m : M)
      → with_ip' at b t (with_ip' at a s m) ≡ with_ip' at b t m
  put_twice at a b s t m =
      ap (λ (ips : ℕ → Ip). record m { list = record m.list { ips = ips }; funge_space = t })
        (update-update m.list.ips at a b)

  pub set_toss_twice : (a b : Stack) (ip : Ip) → set_toss b (set_toss a ip) ≡ set_toss b ip
  set_toss_twice a b ip =
      ap
        (λ (stacks : ℕ → Stack). record ip {
          stackstack = record ip.stackstack { stacks = stacks };
        })
        (update-update ip.stackstack.stacks ip.stackstack.current a b)

  abbrev pub stack_at : ℕ → M → Stack
  stack_at at m = toss (m.list.ips at)

  abbrev pub put_stack : ℕ → Stack → M → M
  put_stack at st m = with_ip' at (set_toss st (m.list.ips at)) m.funge_space m

  pub stack_at_put :
      (at : ℕ) (st : Stack) (ip : Ip) (s : Space lib) (m : M)
      → stack_at at (with_ip' at (set_toss st ip) s m) ≡ st
  stack_at_put at st ip s m =
      ap toss (at_put at (set_toss st ip) s m)
      ∙ update_self ip.stackstack.stacks ip.stackstack.current st

  pub put_stack_put :
      (at : ℕ) (a b : Stack) (ip : Ip) (s : Space lib) (m : M)
      → put_stack at b (with_ip' at (set_toss a ip) s m) ≡ with_ip' at (set_toss b ip) s m
  put_stack_put at a b ip s m =
      let m₁ = with_ip' at (set_toss a ip) s m in
      ap (λ i. with_ip' at (set_toss b i) s m₁) (at_put at (set_toss a ip) s m)
      ∙ ap (λ i. with_ip' at i s m₁) (set_toss_twice a b ip)
      ∙ put_twice at (set_toss a ip) (set_toss b ip) s s m

  module _ (instr : ℕ) (f : Stack → Stack) (e : stack_instruction instr ≡ some f) (fuel : ℕ)
      (old past : Vector) where
    -- One round of the loop of k at an index.
    abbrev pub round : ℕ → ℕ → ℕ → M → Option O
    round begun =
        run_once lib host settings env memory
          (run_iterate_implement lib host settings env memory fuel true) fuel instr begun old past

    round_lem :
        (at : ℕ) (m : M)
        → (m.list.ips at).mode ≡ code_mode
        → round at at at m ≡ some (went false at (put_stack at (f (stack_at at m)) m))
    unfolding run_once
    round_lem at m code =
        let plain = stack_instruction-IsPlain instr f e in
        rw (plain.split, plain.iterate, run_once)
          (execute_other-stack_instruction fuel instr at at f m e code)

    pub repeat-round :
        (n at : ℕ) (m : M)
        → (m.list.ips at).mode ≡ code_mode
        → repeat lib host settings env memory (round at) at (suc n) at at m
          ≡ some (went false at (put_stack at (times (suc n) f (stack_at at m)) m))
    unfolding repeat
    repeat-round zero at m code = rw (round_lem at m code, repeat) refl
    repeat-round (suc n) at m code =
        let st = f (stack_at at m) in
        let m₁ = put_stack at st m in
        let ih = repeat-round n at m₁ (
          ap (λ (i : Ip). i.mode) (at_put at (set_toss st (m.list.ips at)) m.funge_space m)
          ∙ code) in
        rw (round_lem at m code, repeat)
          (ih
            ∙ ap (λ t. some (went false at (put_stack at (times (suc n) f t) m₁)))
                (stack_at_put at st (m.list.ips at) m.funge_space m)
            ∙ ap (λ k. some (went false at k))
                (put_stack_put at st (times (suc n) f st) (m.list.ips at) m.funge_space m))
