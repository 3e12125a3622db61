-- ===== src/Interpreter/Iterate/Laws.antt =====
-- What k does with an instruction that works on the stack alone.
use cfunge.Prelude.{
  ℕ, zero, suc, ◌≡◌, ◌≢◌, refl, ap, ◌∙◌, arith, Bool, true, false, ◌&&◌, not, some, ◌==◌,
  if◌then◌else◌, update_self,
}
use mathlib.Core.Path.{subst}
use cfunge.Cell.{slt}
use cfunge.Vector.{Vector, same_vector}
use cfunge.Table.{HashLib}
use cfunge.Space.{Space}
use cfunge.Stack.{Stack, pop}
use cfunge.Manager.{Env}
use cfunge.Ip.{Ip, code_mode, toss, set_toss}
use cfunge.Interpreter.Stacks.{stack_instruction}
use cfunge.Interpreter.Execute.{Settings, Host}
use cfunge.Interpreter.Run.{Machine, Outcome, went}
use cfunge.Interpreter.Iterate.{
  fetch_next, on_went, repeat, run_instr, move_past, run_iterate_implement, run_iterate,
}
use cfunge.Interpreter.Iterate.Operand.{
  times, same_vector_refl, Found, fetch_next-Found, with_ip', at_put, put_twice, set_toss_twice,
  round, repeat-round, stack_instruction-IsPlain,
}

module _ (lib : HashLib) (host : Host lib) (settings : Settings) (env : Env) (memory : ℕ → ℕ) where
  abbrev M : Type 0
  M = Machine lib host settings env memory

  abbrev O : Type 0
  O = Outcome lib host settings env memory

  abbrev put : ℕ → Ip → Space lib → M → M
  put = with_ip' lib host settings env memory

  -- Where the IP is left: in Funge-109 at the instruction, else where it was.
  abbrev pub left_at : Vector → Vector → Vector
  left_at old past = if settings.funge109 then past else old

  move_by :
      (g a b : Bool) (at : ℕ) (ip : Ip) (old past : Vector) (s : Space lib) (m : M)
      → a ≡ true
      → b ≡ true
      → ip.position ≡ old
      → (if g && not false && a && b
          then put at (record ip { position = past }) s (put at ip s m)
          else put at ip s m)
        ≡ put at (record ip { position = if g then past else old }) s m
  move_by true a b at ip old past s m ha hb hp =
      rw (ha, hb)
        (put_twice lib host settings env memory at ip (record ip { position = past }) s s m)
  move_by false a b at ip old past s m ha hb hp =
      ap (λ (p : Vector). put at (record ip { position = p }) s m) hp

  move_past_lem :
      (at : ℕ) (old ip : Ip) (past : Vector) (s : Space lib) (m : M)
      → ip.delta ≡ old.delta
      → ip.position ≡ old.position
      → move_past lib host settings env memory false at old past (put at ip s m)
        ≡ put at (record ip { position = left_at old.position past }) s m
  move_past_lem at old ip past s m hd hp =
      let m₁ = put at ip s m in
      ap
        (λ (i : Ip).
          if settings.funge109
            && not false
            && same_vector old.delta i.delta
            && same_vector old.position i.position
          then put at (record i { position = past }) s m₁
          else m₁)
        (at_put lib host settings env memory at ip s m)
      ∙ move_by settings.funge109 (same_vector old.delta ip.delta)
          (same_vector old.position ip.position) at ip old.position past s m
          (ap (same_vector old.delta) hd ∙ same_vector_refl old.delta)
          (ap (same_vector old.position) hp ∙ same_vector_refl old.position) hp

  -- The loop from an IP that has just been put in its place.
  loop_lem :
      (fuel n i instr : ℕ) (f : Stack → Stack) (ip : Ip) (past : Vector) (s : Space lib) (m : M)
      → (e : stack_instruction instr ≡ some f) → ip.mode ≡ code_mode
      → repeat lib host settings env memory
          (round lib host settings env memory instr f e fuel ip.position past i)
          i
          (suc n)
          i
          i
          (put i ip s m)
        ≡ some (went false i (put i (set_toss (times (suc n) f (toss ip)) ip) s m))
  loop_lem fuel n i instr f ip past s m e code =
      let m₀ = put i ip s m in
      let here = at_put lib host settings env memory i ip s m in
      let st = times (suc n) f (toss ip) in
      repeat-round lib host settings env memory instr f e fuel ip.position past n i m₀
        (ap (λ (p : Ip). p.mode) here ∙ code)
      ∙ ap (λ (p : Ip). some (went false i (put i (set_toss (times (suc n) f (toss p)) p) s m₀)))
          here
      ∙ ap (λ k. some (went false i k))
          (put_twice lib host settings env memory i ip (set_toss st ip) s s m)

  run_instr_lem :
      (fuel n i instr : ℕ) (f : Stack → Stack) (ip : Ip) (p : Vector) (s : Space lib) (m : M)
      → n ≢ 0
      → stack_instruction instr ≡ some f
      → ip.mode ≡ code_mode
      → run_instr lib host settings env memory
          (run_iterate_implement lib host settings env memory fuel true)
          fuel
          false
          n
          i
          i
          ip
          m
          (some (instr, record ip { position = p }, s))
        ≡ some (
            went false i (
              put i
                (record (set_toss (times n f (toss ip)) ip) { position = left_at ip.position p })
                s
                m))
  unfolding run_instr
  run_instr_lem fuel zero i instr f ip p s m ne e code = absurd (ne refl)
  run_instr_lem fuel (suc n) i instr f ip p s m ne e code =
      let plain = stack_instruction-IsPlain instr f e in
      simp (plain.nothing, plain.end, plain.iterate, plain.split, run_instr)
        (ap
            (on_went lib host settings env memory
              (λ j k. went false j (move_past lib host settings env memory false i ip p k)))
            (loop_lem fuel n i instr f ip p s m e code)
          ∙ ap (λ k. some (went false i k))
              (move_past_lem i ip (set_toss (times (suc n) f (toss ip)) ip) p s m refl refl))

  -- On an IP in code mode, k pops a number n, 0 < n < 2 ^ 63, and the next instruction, past blanks
  -- and comments, is found by a search with the given fuel and works on the stack alone: then, with
  -- one more fuel, it is executed n times, and nothing else of the machine changes but what the
  -- search did to Funge-Space, and that in Funge-109 the IP is left at the instruction.
  pub run_iterate_lem :
      (fuel i instr : ℕ) (f : Stack → Stack) (found : Ip) (s : Space lib) (m : M)
      → let ip = m.list.ips i in
        let (n, st) = pop (toss ip) in
        n ≢ 0
        → slt n 0 ≡ false
        → ip.mode ≡ code_mode
        → fetch_next lib fuel (set_toss st ip) m.funge_space ≡ some (instr, found, s)
        → stack_instruction instr ≡ some f
        → run_iterate lib host settings env memory (suc fuel) i m
          ≡ some (
              went false i (
                put i
                  (record (set_toss (times n f st) ip) {
                    position = left_at ip.position found.position;
                  })
                  s
                  m))
  unfolding run_iterate run_iterate_implement
  run_iterate_lem fuel i instr f found s m ne pos code fetched e =
      let (n, st) = pop (toss (m.list.ips i)) in
      let ip = set_toss st (m.list.ips i) in
      let moved : found ≡ record ip { position = found.position } =
        subst (Found lib ip) fetched (fetch_next-Found lib fuel ip m.funge_space) in
      let nonzero : (n == 0) ≡ false = ground arith in
      let run =
        run_instr lib host settings env memory
          (run_iterate_implement lib host settings env memory fuel true) fuel false n i i ip m in
      let toss_of : toss ip ≡ st =
        update_self (m.list.ips i).stackstack.stacks (m.list.ips i).stackstack.current st in
      let left : Ip → Ip = λ (p : Ip). record p { position = left_at ip.position found.position } in
      simp (nonzero, pos, run_iterate, run_iterate_implement)
        (ap run fetched
          ∙ ap (λ (g : Ip). run (some (instr, g, s))) moved
          ∙ run_instr_lem fuel n i instr f ip found.position s m ne e code
          ∙ ap (λ (t : Stack). some (went false i (put i (left (set_toss (times n f t) ip)) s m)))
              toss_of
          ∙ ap (λ (p : Ip). some (went false i (put i (left p) s m)))
              (set_toss_twice lib host settings env memory st (times n f st) (m.list.ips i)))
