-- ===== src/Interpreter/Order.antt =====
-- Which instruction pointer runs after one has ended.
use cfunge.Prelude.{
  ℕ, suc, ◌≤◌, ◌≡◌, refl, sym, ap, ◌∙◌, arith, true, false, some, ◌==◌, update, update_self, ltb,
}
use cfunge.Table.{HashLib}
use cfunge.Space.{get}
use cfunge.Manager.{Env}
use cfunge.Ip.{Ip, code_mode}
use cfunge.IpList.{IpList, iplist_terminate_ip}
use cfunge.IpList.Order.{iplist_terminate_ip_lem}
use cfunge.Interpreter.Execute.{Settings, Host}
use cfunge.Interpreter.Run.{Machine, went, terminate, execute_other}
use cfunge.Interpreter.Loop.{execute_instruction, thread_forward, after, below, tick, next}

returned : (k : ℕ) (list : IpList) → (iplist_terminate_ip (suc k) list).0 ≡ k
unfolding iplist_terminate_ip
returned k list = ground arith

kept_below :
    (k : ℕ) (list : IpList)
    → suc k ≤ list.top
    → (iplist_terminate_ip (suc k) list).1.ips k ≡ list.ips k
kept_below k list h =
    let low : ltb k (suc k) ≡ true = ground arith in
    iplist_terminate_ip_lem (suc k) k list h (omega arith) ∙ rw low refl

module _ (lib : HashLib) (host : Host lib) (settings : Settings) (env : Env) (memory : ℕ → ℕ) where
  abbrev opcode : ℕ → Machine lib host settings env memory → ℕ
  opcode i m = get lib m.funge_space (m.list.ips i).position

  execute_other-end :
      (fuel i : ℕ) (m : Machine lib host settings env memory)
      → (m.list.ips i).mode ≡ code_mode
      → execute_other lib host settings env memory fuel b'@' i i m
        ≡ some (terminate lib host settings env memory i m)
  unfolding execute_other
  execute_other-end fuel i m code = rw (code, execute_other) refl

  execute_instruction-end :
      (fuel i : ℕ) (m : Machine lib host settings env memory)
      → (m.list.ips i).mode ≡ code_mode
      → execute_instruction lib host settings env memory fuel b'@' i m
        ≡ some (terminate lib host settings env memory i m)
  unfolding execute_instruction
  execute_instruction-end fuel i m code =
      rw (code, execute_instruction) (execute_other-end fuel i m code)

  abbrev terminated :
      ℕ → Machine lib host settings env memory → Machine lib host settings env memory
  terminated k m = record m {
    list = record (iplist_terminate_ip (suc k) m.list).1 {
      ips =
          update (iplist_terminate_ip (suc k) m.list).1.ips k
            (record ((iplist_terminate_ip (suc k) m.list).1.ips k) { need_move = false });
    };
  }

  terminate_lem :
      (k : ℕ) (m : Machine lib host settings env memory)
      → suc k ≤ m.list.top
      → terminate lib host settings env memory (suc k) m ≡ went false k (terminated k m)
  unfolding terminate
  terminate_lem k m h =
      let live : (m.list.top == 0) ≡ false = ground arith in
      rw (live, returned k m.list, terminate) refl

  abbrev moved : ℕ → Machine lib host settings env memory → Machine lib host settings env memory
  moved k m = record m {
    list = record m.list { ips = update m.list.ips k (record (m.list.ips k) { need_move = true }) };
  }

  after_lem :
      (k : ℕ) (m : Machine lib host settings env memory)
      → (m.list.ips k).need_move ≡ false
      → after lib host settings env memory (went false k m)
        ≡ next (below lib host settings env memory k) (moved k m)
  unfolding after thread_forward
  after_lem k m h = rw (h, after, thread_forward) refl

  -- When the instruction pointer at index k + 1 ends, the one at index k, whose turn is next in the
  -- loop, stays as it is, and the loop goes on below it: it has no turn in this round.
  pub tick_end :
      (fuel k : ℕ) (m : Machine lib host settings env memory)
      → suc k ≤ m.list.top
      → (m.list.ips (suc k)).mode ≡ code_mode
      → get lib m.funge_space (m.list.ips (suc k)).position ≡ b'@'
      → (m.list.ips k).need_move ≡ true
      → (m' : Machine lib host settings env memory) × (tick lib host settings env memory fuel
            (suc k)
            m
          ≡ some (next (below lib host settings env memory k) m'))
        × (m'.list.ips k ≡ m.list.ips k)
  unfolding tick
  tick_end fuel k m h code at moves =
      let ended : execute_instruction lib host settings env memory fuel (opcode (suc k) m) (suc k) m
          ≡ some (went false k (terminated k m)) =
        ap (λ o. execute_instruction lib host settings env memory fuel o (suc k) m) at
        ∙ execute_instruction-end fuel (suc k) m code
        ∙ ap some (terminate_lem k m h) in
      let list₁ = (iplist_terminate_ip (suc k) m.list).1 in
      let here = update_self list₁.ips k (record (list₁.ips k) { need_move = false }) in
      let kept : list₁.ips k ≡ m.list.ips k = kept_below k m.list h in
      (
        moved k (terminated k m),
        rw (ended, tick)
            (ap some (after_lem k (terminated k m) (ap (λ (i : Ip). i.need_move) here))),
        update_self (terminated k m).list.ips k
              (record ((terminated k m).list.ips k) { need_move = true })
            ∙ ap (λ (i : Ip). record i { need_move = true })
                (here ∙ ap (λ (i : Ip). record i { need_move = false }) kept)
            ∙ (λ j. record (m.list.ips k) { need_move = sym moves j }),
      )
