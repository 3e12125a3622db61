-- ===== src/Interpreter/Sound/Run.antt =====
-- The states that the main loop reaches.
use cfunge.Prelude.{ℕ, ◌≡◌, arith, false, Option, none, some, ◌==◌}
use mathlib.Core.Path.{subst, subst⁻¹}
use cfunge.Table.{HashLib}
use cfunge.Space.{get}
use cfunge.Stack.{create}
use cfunge.Manager.{Env}
use cfunge.Ip.{ip_create, stackstack_create}
use cfunge.IpList.{iplist_create}
use cfunge.Interpreter.Execute.{Settings, Host}
use cfunge.Interpreter.Run.{Machine}
use cfunge.Interpreter.Loop.{next, tick}
use cfunge.Interpreter.Sound.Execute.{KeepsStacks}
use cfunge.Interpreter.Sound.Loop.{ListSound, IndexIn}
use cfunge.Interpreter.Sound.Tick.{TickSound, tick-TickSound}

pub iplist_create-ListSound : (memory : ℕ → ℕ) → ListSound (iplist_create memory)
unfolding iplist_create ip_create stackstack_create create
iplist_create-ListSound memory = record {
  room = omega arith;
  sound = λ j q. record { room = omega arith; valid = λ k p. record { fits = omega arith } };
}

module _ (lib : HashLib) (host : Host lib) (settings : Settings) (env : Env) (memory : ℕ → ℕ) where
  abbrev M : Type 0
  M = Machine lib host settings env memory

  -- The states of the main loop, between two turns, of a run without k: the next index, or `none`
  -- at the end of a round, and the machine.
  pub data Reaches (first : M) : Option ℕ → M → Type 0 where
    begin : Reaches first none first
    round : {m : M} → Reaches first none m → Reaches first (some m.list.top) m
    turn :
        {i : ℕ} {o : Option ℕ} {m m' : M} (fuel : ℕ)
        → Reaches first (some i) m
        → (get lib m.funge_space (m.list.ips i).position == b'k') ≡ false
        → tick lib host settings env memory fuel i m ≡ some (next o m')
        → Reaches first o m'

  sound_from :
      (keeps : KeepsStacks lib host settings env memory) (first m : M) (o : Option ℕ)
      → ListSound first.list
      → Reaches first o m
      → ListSound m.list × IndexIn o m.list
  sound_from keeps first m o h begin = (h, tt)
  sound_from keeps first m o h (round r) =
      let (kept, _) = sound_from keeps first m none h r in (kept, omega arith)
  sound_from keeps first m' o h (turn {i = i} {m = m} fuel r other e) =
      let (kept, low) = sound_from keeps first m (some i) h r in
      subst (TickSound lib host settings env memory keeps) e
        (tick-TickSound lib host settings env memory keeps fuel i m low kept other)

  -- In a run without k that begins with the list of one instruction pointer, between any two turns:
  -- the list is within its array, each of its instruction pointers has valid stacks within its own
  -- array, and the next index is one of the list; provided that the functions of fingerprints and
  -- y i o = keep the stacks so.
  pub Reaches-ListSound :
      (first m : M) (o : Option ℕ)
      → KeepsStacks lib host settings env memory
      → first.list ≡ iplist_create memory
      → Reaches first o m
      → ListSound m.list × IndexIn o m.list
  Reaches-ListSound first m o keeps created r =
      sound_from keeps first m o (subst⁻¹ ListSound created (iplist_create-ListSound memory)) r
