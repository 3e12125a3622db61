-- ===== src/Interpreter/Iterate.antt =====
-- src/instructions/iterate.c: the instruction k.
pub mod Operand
pub mod Laws
mod Tests
use cfunge.Prelude.{
  ℕ, zero, suc, Bool, true, false, not, ◌&&◌, ◌||◌, Option, none, some, ◌==◌, if◌then◌else◌, update,
}
use cfunge.Cell.{slt, space}
use cfunge.Vector.{Vector, same_vector}
use cfunge.Table.{HashLib}
use cfunge.Space.{Space, get}
use cfunge.Stack.{pop}
use cfunge.Manager.{Env}
use cfunge.Ip.{Ip, toss, set_toss, forward, reverse}
use cfunge.Interpreter.Execute.{Settings, Host}
use cfunge.Interpreter.Run.{Machine, Outcome, went, exited, split, execute_other}

module _ (lib : HashLib) where
  -- The loop of `find_next_instr`, with the instruction it ends at. Without one on the line it runs
  -- for ever, and any fuel is used up.
  unfoldable pub next_instr : Bool → ℕ → Ip → Space lib → Option (ℕ × Ip × Space lib)
  next_instr in_jump zero ip s = none
  next_instr in_jump (suc fuel) ip s =
      let (ip', s') = forward lib ip s in
      let c = get lib s' ip'.position in
      let rest = next_instr (if c == b';' then not in_jump else in_jump) fuel ip' s' in
      if c == b';' || c == space || in_jump then rest else some (c, ip', s')

  -- `find_next_instr`
  unfoldable pub find_next_instr : ℕ → ℕ → Ip → Space lib → Option (ℕ × Ip × Space lib)
  find_next_instr fuel instr ip s = next_instr (instr == b';') fuel ip s

  -- The next cell, or the next instruction where that is a space or a ';'.
  unfoldable pub fetch_next : ℕ → Ip → Space lib → Option (ℕ × Ip × Space lib)
  fetch_next fuel ip s =
      let (ip', s') = forward lib ip s in
      let instr = get lib s' ip'.position in
      if instr == space || instr == b';'
      then find_next_instr fuel instr ip' s'
      else some (instr, ip', s')

module _ (lib : HashLib) (host : Host lib) (settings : Settings) (env : Env) (memory : ℕ → ℕ) where
  open host use {World}

  abbrev M : Type 0
  M = Machine lib host settings env memory

  abbrev O : Type 0
  O = Outcome lib host settings env memory

  abbrev pub with_ip : ℕ → Ip → Space lib → M → M
  with_ip at ip s m = record m {
    list = record m.list { ips = update m.list.ips at ip };
    funge_space = s;
  }

  abbrev pub on_position : ℕ → (Vector → Vector) → M → M
  on_position at f m =
      let ip = m.list.ips at in with_ip at (record ip { position = f ip.position }) m.funge_space m

  abbrev pub on_went : (ℕ → M → O) → Option O → Option O
  on_went f none = none
  on_went f (some (exited status)) = some (exited status)
  on_went f (some (went no_tick index m)) = some (f index m)

  abbrev then_went : (ℕ → M → Option O) → Option O → Option O
  then_went f none = none
  then_went f (some (exited status)) = some (exited status)
  then_went f (some (went no_tick index m)) = f index m

  -- `while (iters--)` around one execution, with the indexes of the IP, which is `again` from the
  -- second round on, and of the thread
  unfoldable pub repeat : (ℕ → ℕ → M → Option O) → ℕ → ℕ → ℕ → ℕ → M → Option O
  repeat once again zero at index m = some (went false index m)
  repeat once again (suc iters) at index m =
      then_went (repeat once again iters again) (once at index m)

  -- The end of the loop: in Funge-109 the IP moves past the instruction, if it has not moved and
  -- this k is not the operand of another one.
  abbrev pub move_past : Bool → ℕ → Ip → Vector → M → M
  move_past recursive at old past m =
      let ip = m.list.ips at in
      if settings.funge109
        && not recursive
        && same_vector old.delta ip.delta
        && same_vector old.position ip.position
      then with_ip at (record ip { position = past }) m.funge_space m
      else m

  -- The switch of the loop, with the run of an inner k. The instruction stands at `past`, and it is
  -- executed at `old`. After an inner k the IP is the one at `begun`.
  unfoldable pub run_once :
      (ℕ → ℕ → M → Option O) → ℕ → ℕ → ℕ → Vector → Vector → ℕ → ℕ → M → Option O
  unfolding split
  run_once inner fuel instr begun old past at index m =
      if instr == b't'
      then some (split lib host settings env memory at index m)
      else if instr == b'k'
      then on_went
          (λ i m'. went false i (on_position begun (λ p. if same_vector past p then old else p) m'))
          (inner at index (on_position at (λ _. past) m))
      else execute_other lib host settings env memory fuel instr at index m

  -- What is done with the instruction that was fetched, after the IP is back at the k. The old
  -- state of the IP is `ip`, and `found` stands at the instruction.
  unfoldable pub run_instr :
      (ℕ → ℕ → M → Option O)
      → ℕ
      → Bool
      → ℕ
      → ℕ
      → ℕ
      → Ip
      → M
      → Option (ℕ × Ip × Space lib)
      → Option O
  run_instr inner fuel recursive iters at index ip m none = none
  run_instr inner fuel recursive iters at index ip m (some (instr, found, s)) =
      let back = with_ip at (record found { position = ip.position }) s m in
      if instr == b'z'
      then some (went false index back)
      else if instr == b'@'
      then execute_other lib host settings env memory fuel instr at index back
      else let again = if instr == b'k' then index else at in
        let last = if instr == b'k' || instr == b't' then index else at in
        on_went (λ i m'. went false i (move_past recursive last ip found.position m'))
          (repeat (run_once inner fuel instr index ip.position found.position) again iters at index
            back)

  abbrev skipped : ℕ → ℕ → M → Option (ℕ × Ip × Space lib) → Option O
  skipped at index m none = none
  skipped at index m (some (instr, found, s)) = some (went false index (with_ip at found s m))

  -- `run_iterate_implement`, with the index of the IP and the thread index. The fuel bounds the
  -- depth of a k that is the operand of another one, as well as the loops over cells.
  unfoldable pub run_iterate_implement : ℕ → Bool → ℕ → ℕ → M → Option O
  run_iterate_implement zero recursive at index m = none
  run_iterate_implement (suc fuel) recursive at index m =
      let inner = run_iterate_implement fuel true in
      let (iters, st) = pop (toss (m.list.ips at)) in
      let ip = set_toss st (m.list.ips at) in
      let s = m.funge_space in
      if iters == 0
      then skipped at index m (fetch_next lib fuel ip s)
      else if slt iters 0
      then some (went false index (with_ip at (reverse ip) s m))
      else run_instr inner fuel recursive iters at index ip m (fetch_next lib fuel ip s)

  -- `run_iterate`
  unfoldable pub run_iterate : ℕ → ℕ → M → Option O
  run_iterate fuel index m = run_iterate_implement fuel false index index m
