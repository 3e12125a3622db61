-- ===== src/Fingerprints/Orth.antt =====
-- src/fingerprints/ORTH/ORTH.c: functions of the Orthogonal language. What S prints is a list of
-- bytes.
use Prim.Native.Nat.{bit_and, bit_or, bit_xor}
use cfunge.Prelude.{ℕ, Bool, Option, none, some, [], ◌>>=◌, List, ◌==◌, if◌then◌else◌}
use cfunge.Vector.{Vector}
use cfunge.Table.{HashLib}
use cfunge.Space.{Space}
use cfunge.Space.Set.{set}
use cfunge.Stack.{push, pop, pop_vector}
use cfunge.Stack.Text.{pop_string}
use cfunge.Input.{before_zero}
use cfunge.Ip.{Ip, toss, set_toss, reverse, forward, set_position}

abbrev on_two : (ℕ → ℕ → ℕ) → Ip → Ip
on_two f ip = let (x, s₁) = pop (toss ip) in let (y, s₂) = pop s₁ in set_toss (push (f x y) s₂) ip

-- A
unfoldable pub orth_and : Ip → Ip
orth_and ip = on_two bit_and ip

-- O
unfoldable pub orth_or : Ip → Ip
orth_or ip = on_two bit_or ip

-- E
unfoldable pub orth_xor : Ip → Ip
orth_xor ip = on_two bit_xor ip

-- S: the bytes that it prints, where there is memory for them; fputs stops at a 0, to which the cast
-- to a byte may take a cell. `none` is only for a loop that runs out of fuel.
unfoldable pub output_string : (ℕ → Bool) → Ip → Option (List ℕ × Ip)
output_string alloc ip = do
  (str, st) ← pop_string alloc (toss ip)
  some (elim str [
    | none ↦ ([], reverse (set_toss st ip))
    | some s ↦ (before_zero s, set_toss st ip)
  ])

-- V
unfoldable pub change_dx : Ip → Ip
change_dx ip =
    let (x, st) = pop (toss ip) in
    record (set_toss st ip) { delta = record { x = x; y = ip.delta.y } }

-- W
unfoldable pub change_dy : Ip → Ip
change_dy ip =
    let (y, st) = pop (toss ip) in
    record (set_toss st ip) { delta = record { x = ip.delta.x; y = y } }

abbrev transposed : Vector → Vector
transposed v = record { x = v.y; y = v.x }

module _ (lib : HashLib) where
  -- G
  unfoldable pub orth_get : Ip → Space lib → Ip × Space lib
  orth_get ip s =
      let (v, st) = pop_vector (toss ip) in
      (set_toss (push (cfunge.Space.get lib s (transposed v)) st) ip, s)

  -- P
  unfoldable pub orth_put : Ip → Space lib → Option (Ip × Space lib)
  orth_put ip s = do
    let (v, s₁) = pop_vector (toss ip)
    let (c, s₂) = pop s₁
    t ← set lib c (transposed v) s
    some (set_toss s₂ ip, t)

  -- X
  unfoldable pub change_x : Ip → Space lib → Ip × Space lib
  change_x ip s =
      let (x, st) = pop (toss ip) in
      set_position lib (record { x = x; y = ip.position.y }) (set_toss st ip) s

  -- Y
  unfoldable pub change_y : Ip → Space lib → Ip × Space lib
  change_y ip s =
      let (y, st) = pop (toss ip) in
      set_position lib (record { x = ip.position.x; y = y }) (set_toss st ip) s

  -- Z
  unfoldable pub ramp_if_zero : Ip → Space lib → Ip × Space lib
  ramp_if_zero ip s =
      let (a, st) = pop (toss ip) in
      if a == 0 then forward lib (set_toss st ip) s else (set_toss st ip, s)
