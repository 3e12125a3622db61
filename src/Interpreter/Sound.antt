-- ===== src/Interpreter/Sound.antt =====
-- The order of the stacks of an instruction pointer, under the instructions on the current stack
-- and on the instruction pointer alone.
pub mod Blocks
pub mod Plane
pub mod Execute
pub mod Switch
pub mod Loop
pub mod Tick
pub mod Run
pub mod Functions
pub mod Places
pub mod Files
pub mod Program
mod Tests
use cfunge.Prelude.{
  ℕ, zero, suc, ◌+◌, ◌<◌, ◌≤◌, ◌≡◌, refl, arith, Bool, true, false, Option, none, some, ◌==◌,
  if◌then◌else◌, update,
}
use cfunge.Cell.{slt}
use cfunge.Vector.{Vector}
use cfunge.Stack.{Stack, push, pop, push_vector, pop_vector, clear}
use cfunge.Stack.Contents.{IsValid, push-IsValid, pop-IsValid, discard-IsValid}
use cfunge.Stack.Refine.{dup_top-IsValid, swap_top-IsValid}
use cfunge.StackStack.{StackStack}
use cfunge.Ip.{
  Ip, toss, set_toss, turn_left, turn_right, reverse, go_west, go_east, go_north, go_south,
}
use cfunge.Interpreter.Stacks.{
  binary, not_top, operator, digit, with_operator, with_digit, stack_instruction, read_fingerprint,
}
use cfunge.Interpreter.Moves.{
  if_east_west, if_north_south, compare_turn, set_delta, begin_string, move_instruction,
}

-- The stacks that are in use, and the array of them, are in order.
pub record IsSound (s : StackStack) : Type 0 where
  pub room : s.current < s.size
  pub valid : (j : ℕ) → j ≤ s.current → IsValid (s.stacks j)

abbrev pub IpSound : Ip → Type 0
IpSound ip = IsSound ip.stackstack

pub if_all {ℓ} :
    {A : Type ℓ} (P : A → Type 0) (b : Bool) {x y : A} → P x → P y → P (if b then x else y)
if_all P true h k = h
if_all P false h k = k

-- Of a value that an option picks.
pub option_all {ℓ κ} :
    {A : Type ℓ} {B : Type κ} (P : B → Type 0) (o : Option A) {x : B} (f : A → B)
    → P x
    → ((a : A) → P (f a))
    → P (elim o as (λ y. B) [ none ↦ x | some a ↦ f a ])
option_all P none f h k = h
option_all P (some a) f h k = k a

pub update_all {ℓ} :
    {A : Type ℓ} (P : A → Type 0) (f : ℕ → A) (i j : ℕ) (v : A) → P v → P (f j) → P (update f i v j)
unfolding update
update_all P f i j v h k = if_all P (j == i) h k

pub toss-IsValid : (ip : Ip) → IpSound ip → IsValid (toss ip)
toss-IsValid ip h = h.valid ip.stackstack.current (omega arith)

pub set_toss-IpSound : (st : Stack) (ip : Ip) → IsValid st → IpSound ip → IpSound (set_toss st ip)
set_toss-IpSound st ip hs h = record {
  room = h.room;
  valid =
      λ j p. update_all IsValid ip.stackstack.stacks ip.stackstack.current j st hs (h.valid j p);
}

-- What is shown of an instruction that works on the stack alone.
abbrev pub Keeps : Option (Stack → Stack) → Type 0
Keeps none = Unit {0}
Keeps (some f) = (s : Stack) → IsValid s → IsValid (f s)

pub binary-IsValid : (f : ℕ → ℕ → ℕ) (s : Stack) → IsValid s → IsValid (binary f s)
unfolding binary
binary-IsValid f s h = push-IsValid _ (pop (pop s).1).1 (pop-IsValid (pop s).1 (pop-IsValid s h))

not_top-IsValid : (s : Stack) → IsValid s → IsValid (not_top s)
unfolding not_top
not_top-IsValid s h = push-IsValid _ (pop s).1 (pop-IsValid s h)

clear-IsValid : (s : Stack) → IsValid (clear s)
unfolding clear
clear-IsValid s = record { fits = omega arith }

with_operator-Keeps :
    (o : Option (ℕ → ℕ → ℕ)) (rest : Option (Stack → Stack))
    → Keeps rest
    → Keeps (with_operator o rest)
with_operator-Keeps none rest h = h
with_operator-Keeps (some f) rest h = binary-IsValid f

with_digit-Keeps :
    (o : Option ℕ) (rest : Option (Stack → Stack)) → Keeps rest → Keeps (with_digit o rest)
with_digit-Keeps none rest h = h
with_digit-Keeps (some n) rest h = push-IsValid n

pub stack_instruction-Keeps : (c : ℕ) → Keeps (stack_instruction c)
unfolding stack_instruction
stack_instruction-Keeps c = with_digit-Keeps (digit c) _ (
    with_operator-Keeps (operator c) _ (
      if_all Keeps (c == b'!') not_top-IsValid (
        if_all Keeps (c == b':') dup_top-IsValid (
          if_all Keeps (c == b'$') (discard-IsValid 1) (
            if_all Keeps (c == b'\\') swap_top-IsValid
              (if_all Keeps (c == b'n') (λ s h. clear-IsValid s) tt))))))

-- What is shown of an instruction that works on the IP alone.
abbrev pub MoveKeeps : Option (Ip → Ip) → Type 0
MoveKeeps none = Unit {0}
MoveKeeps (some f) = (ip : Ip) → IpSound ip → IpSound (f ip)

abbrev popped : Ip → Ip
popped ip = set_toss (pop (toss ip)).1 ip

pub popped-IpSound : (ip : Ip) → IpSound ip → IpSound (popped ip)
popped-IpSound ip h =
    set_toss-IpSound (pop (toss ip)).1 ip (pop-IsValid (toss ip) (toss-IsValid ip h)) h

pub pop_vector-IsValid : (s : Stack) → IsValid s → IsValid (pop_vector s).1
unfolding pop_vector
pop_vector-IsValid s h = pop-IsValid (pop s).1 (pop-IsValid s h)

pub push_vector-IsValid : (v : Vector) (s : Stack) → IsValid s → IsValid (push_vector v s)
unfolding push_vector
push_vector-IsValid v s h = push-IsValid v.y (push v.x s) (push-IsValid v.x s h)

if_east_west-IpSound : (ip : Ip) → IpSound ip → IpSound (if_east_west ip)
unfolding if_east_west go_east go_west
if_east_west-IpSound ip h =
    if_all IpSound ((pop (toss ip)).0 == 0) (popped-IpSound ip h) (popped-IpSound ip h)

if_north_south-IpSound : (ip : Ip) → IpSound ip → IpSound (if_north_south ip)
unfolding if_north_south go_north go_south
if_north_south-IpSound ip h =
    if_all IpSound ((pop (toss ip)).0 == 0) (popped-IpSound ip h) (popped-IpSound ip h)

compare_turn-IpSound : (ip : Ip) → IpSound ip → IpSound (compare_turn ip)
unfolding compare_turn turn_left turn_right
compare_turn-IpSound ip h =
    let (b, s₁) = pop (toss ip) in
    let (a, s₂) = pop s₁ in
    let rest =
      set_toss-IpSound s₂ ip (pop-IsValid s₁ (pop-IsValid (toss ip) (toss-IsValid ip h))) h in
    if_all IpSound (slt a b) rest (if_all IpSound (slt b a) rest rest)

set_delta-IpSound : (ip : Ip) → IpSound ip → IpSound (set_delta ip)
unfolding set_delta
set_delta-IpSound ip h =
    set_toss-IpSound (pop_vector (toss ip)).1 ip (pop_vector-IsValid (toss ip) (toss-IsValid ip h))
      h

pub reverse-IpSound : (ip : Ip) → IpSound ip → IpSound (reverse ip)
unfolding reverse
reverse-IpSound ip h = h

pub move_instruction-MoveKeeps : (c : ℕ) → MoveKeeps (move_instruction c)
unfolding move_instruction go_north go_east go_south go_west turn_left turn_right begin_string
move_instruction-MoveKeeps c =
    if_all MoveKeeps (c == b'z') (λ ip h. h)
      (if_all MoveKeeps (c == b'^') (λ ip h. h)
        (if_all MoveKeeps (c == b'>') (λ ip h. h)
          (if_all MoveKeeps (c == b'v') (λ ip h. h)
            (if_all MoveKeeps (c == b'<') (λ ip h. h)
              (if_all MoveKeeps (c == b'r') reverse-IpSound (
                if_all MoveKeeps (c == b'[') (λ ip h. h)
                  (if_all MoveKeeps (c == b']') (λ ip h. h)
                    (if_all MoveKeeps (c == b'x') set_delta-IpSound (
                      if_all MoveKeeps (c == b'"') (λ ip h. h)
                        (if_all MoveKeeps (c == b'_') if_east_west-IpSound (
                          if_all MoveKeeps (c == b'|') if_north_south-IpSound
                            (if_all MoveKeeps (c == b'w') compare_turn-IpSound tt))))))))))))

pub read_fingerprint-IsValid :
    (n fprint : ℕ) (s : Stack) → IsValid s → IsValid (read_fingerprint n fprint s).1
unfolding read_fingerprint
read_fingerprint-IsValid zero fprint s h = h
read_fingerprint-IsValid (suc n) fprint s h =
    read_fingerprint-IsValid n _ (pop s).1 (pop-IsValid s h)
