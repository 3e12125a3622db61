-- ===== src/Interpreter/Sound/Functions.antt =====
-- The order of the stacks under functions of fingerprints that work on the stack.
use Prim.Native.Nat.{bit_and, bit_or, bit_xor}
use cfunge.Prelude.{
  ℕ, zero, suc, ◌+◌, ◌-◌, ◌*◌, ◌%◌, ◌^◌, Bool, ◌||◌, Option, none, some, ltb, leb, ◌==◌,
}
use cfunge.Cell.{add, is_neg, sle}
use cfunge.Vector.{Vector}
use cfunge.Stack.{Stack, push, pop, discard, get_index, push_vector}
use cfunge.Stack.Contents.{IsValid, push-IsValid, pop-IsValid, discard-IsValid}
use cfunge.Ip.{Ip, toss, set_toss, reverse}
use cfunge.Fingerprints.Bool
use cfunge.Fingerprints.Cpli
use cfunge.Fingerprints.Frth
use cfunge.Fingerprints.Modu
use cfunge.Fingerprints.Orth
use cfunge.Fingerprints.Refc
use cfunge.Fingerprints.Refc.{References}
use cfunge.Fingerprints.Roma.{roma}
use cfunge.Interpreter.Sound.{
  IpSound, if_all, toss-IsValid, set_toss-IpSound, binary-IsValid, MoveKeeps, push_vector-IsValid,
}

abbrev pub IpKeeps : (Ip → Ip) → Type 0
IpKeeps f = (ip : Ip) → IpSound ip → IpSound (f ip)

-- The stack after one, two and more pops.
abbrev pub pops : ℕ → Stack → Stack
pops zero s = s
pops (suc n) s = pops n (pop s).1

pops-IsValid : (n : ℕ) (s : Stack) → IsValid s → IsValid (pops n s)
pops-IsValid zero s h = h
pops-IsValid (suc n) s h = pops-IsValid n (pop s).1 (pop-IsValid s h)

pub without : (n : ℕ) (ip : Ip) → IpSound ip → IsValid (pops n (toss ip))
without n ip h = pops-IsValid n (toss ip) (toss-IsValid ip h)

pub popped_n-IpSound : (n : ℕ) (ip : Ip) → IpSound ip → IpSound (set_toss (pops n (toss ip)) ip)
popped_n-IpSound n ip h = set_toss-IpSound (pops n (toss ip)) ip (without n ip h) h

-- A push after some pops.
pub replaced-IpSound :
    (n a : ℕ) (ip : Ip) → IpSound ip → IpSound (set_toss (push a (pops n (toss ip))) ip)
replaced-IpSound n a ip h =
    set_toss-IpSound (push a (pops n (toss ip))) ip
      (push-IsValid a (pops n (toss ip)) (without n ip h)) h

binary-IpSound :
    (f : ℕ → ℕ → ℕ) (ip : Ip)
    → IpSound ip
    → IpSound (set_toss (cfunge.Interpreter.Stacks.binary f (toss ip)) ip)
binary-IpSound f ip h =
    set_toss-IpSound (cfunge.Interpreter.Stacks.binary f (toss ip)) ip
      (binary-IsValid f (toss ip) (toss-IsValid ip h)) h

pub and-IpSound : IpKeeps Bool.and
unfolding Bool.and
and-IpSound ip h = binary-IpSound bit_and ip h

pub or-IpSound : IpKeeps Bool.or
unfolding Bool.or
or-IpSound ip h = binary-IpSound bit_or ip h

pub xor-IpSound : IpKeeps Bool.xor
unfolding Bool.xor
xor-IpSound ip h = binary-IpSound bit_xor ip h

pub not-IpSound : IpKeeps Bool.not
unfolding Bool.not
not-IpSound ip h = replaced-IpSound 1 (2 ^ 64 - 1 - (pop (toss ip)).0) ip h

pub signed_result-IpSound : IpKeeps Modu.signed_result
unfolding Modu.signed_result
signed_result-IpSound ip h = binary-IpSound _ ip h

pub unsigned_result-IpSound : IpKeeps Modu.unsigned_result
unfolding Modu.unsigned_result
unsigned_result-IpSound ip h = binary-IpSound _ ip h

pub remainder-IpSound : IpKeeps Modu.remainder
unfolding Modu.remainder
remainder-IpSound ip h = binary-IpSound _ ip h

-- Two pushes on what some pops leave.
two_pushed-IpSound :
    (n a b : ℕ) (ip : Ip) → IpSound ip → IpSound (set_toss (push b (push a (pops n (toss ip)))) ip)
two_pushed-IpSound n a b ip h =
    let st = push a (pops n (toss ip)) in
    set_toss-IpSound (push b st) ip
      (push-IsValid b st (push-IsValid a (pops n (toss ip)) (without n ip h))) h

pub cpli_add-IpSound : IpKeeps Cpli.cpli_add
unfolding Cpli.cpli_add
cpli_add-IpSound ip h = two_pushed-IpSound 4 _ _ ip h

pub cpli_sub-IpSound : IpKeeps Cpli.cpli_sub
unfolding Cpli.cpli_sub
cpli_sub-IpSound ip h = two_pushed-IpSound 4 _ _ ip h

pub cpli_mul-IpSound : IpKeeps Cpli.cpli_mul
unfolding Cpli.cpli_mul
cpli_mul-IpSound ip h = two_pushed-IpSound 4 _ _ ip h

pub cpli_div-IpSound : IpKeeps Cpli.cpli_div
unfolding Cpli.cpli_div
cpli_div-IpSound ip h = two_pushed-IpSound 4 _ _ ip h

pub cpli_abs-IpSound : (f : ℕ → ℕ) → IpKeeps (Cpli.cpli_abs f)
unfolding Cpli.cpli_abs
cpli_abs-IpSound f ip h = replaced-IpSound 2 _ ip h

pub roma-MoveKeeps : (c : ℕ) → MoveKeeps (roma c)
unfolding roma
roma-MoveKeeps c = if_all MoveKeeps (c == b'I') (replaced-IpSound 0 1) (
    if_all MoveKeeps (c == b'V') (replaced-IpSound 0 5) (
      if_all MoveKeeps (c == b'X') (replaced-IpSound 0 10) (
        if_all MoveKeeps (c == b'L') (replaced-IpSound 0 50) (
          if_all MoveKeeps (c == b'C') (replaced-IpSound 0 100) (
            if_all MoveKeeps (c == b'D') (replaced-IpSound 0 500)
              (if_all MoveKeeps (c == b'M') (replaced-IpSound 0 1000) tt))))))

pub stack_size-IpSound : IpKeeps Frth.stack_size
unfolding Frth.stack_size
stack_size-IpSound ip h = replaced-IpSound 0 _ ip h

push_from-IsValid :
    (n : ℕ) (elems : ℕ → ℕ) (from : ℕ) (s : Stack)
    → IsValid s
    → IsValid (Frth.push_from n elems from s)
unfolding Frth.push_from
push_from-IsValid zero elems from s h = h
push_from-IsValid (suc n) elems from s h =
    push_from-IsValid n elems (from + 1) (push (elems from) s) (push-IsValid (elems from) s h)

roll_cells-IsValid : (u : ℕ) (s : Stack) → IsValid s → IsValid (Frth.roll_cells u s)
unfolding Frth.roll_cells
roll_cells-IsValid u s h = push-IsValid _ _ (
    push_from-IsValid u s.entries (s.top - u) (discard (add u 1) s) (discard-IsValid (add u 1) s h))

pub forth_roll-IpSound : (alloc : ℕ → Bool) → IpKeeps (Frth.forth_roll alloc)
unfolding Frth.forth_roll reverse
forth_roll-IpSound alloc ip h =
    let (u, st) = pop (toss ip) in
    let kept = popped_n-IpSound 1 ip h in
    if_all IpSound (is_neg u) kept (
      if_all IpSound (sle (st.top % 2 ^ 64) u) (replaced-IpSound 1 0 ip h) (
        if_all IpSound (alloc (8 * st.top))
          (set_toss-IpSound (Frth.roll_cells u st) ip (roll_cells-IsValid u st (without 1 ip h)) h)
          kept))

pub forth_over-IpSound : IpKeeps Frth.forth_over
unfolding Frth.forth_over
forth_over-IpSound ip h =
    let (b, s₁) = pop (toss ip) in
    let (a, s₂) = pop s₁ in
    let below = push b (push a s₂) in
    set_toss-IpSound (push a below) ip
      (push-IsValid a below (push-IsValid b (push a s₂) (push-IsValid a s₂ (without 2 ip h)))) h

pub forth_pick-IpSound : IpKeeps Frth.forth_pick
unfolding Frth.forth_pick reverse
forth_pick-IpSound ip h =
    let (u, st) = pop (toss ip) in
    if_all IpSound (is_neg u) (popped_n-IpSound 1 ip h) (
      if_all IpSound (leb st.top u) (replaced-IpSound 1 0 ip h)
        (replaced-IpSound 1 (get_index st (st.top - u)) ip h))

pub forth_rot-IpSound : IpKeeps Frth.forth_rot
unfolding Frth.forth_rot
forth_rot-IpSound ip h =
    let (c, s₁) = pop (toss ip) in
    let (b, s₂) = pop s₁ in
    let (a, s₃) = pop s₂ in
    let below = push c (push b s₃) in
    set_toss-IpSound (push a below) ip
      (push-IsValid a below (push-IsValid c (push b s₃) (push-IsValid b s₃ (without 3 ip h)))) h

pub reference-IpSound :
    (alloc : ℕ → Bool) (r : References) (ip : Ip)
    → IpSound ip
    → IpSound (Refc.reference alloc ip r).0
unfolding Refc.reference reverse
reference-IpSound alloc r ip h = with_grown (Refc.grow alloc r)
  where
    v : Vector
    v = record { x = (pop (pop (toss ip)).1).0; y = (pop (toss ip)).0 }

    ip' : Ip
    ip' = set_toss (pops 2 (toss ip)) ip

    with_grown : (o : Option References) → IpSound (Refc.reference_with v ip' r o).0
    with_grown none = popped_n-IpSound 2 ip h
    with_grown (some grown) =
        replaced-IpSound 0 ((r.top + 1) % 2 ^ 64) ip' (popped_n-IpSound 2 ip h)

pub dereference-IpSound : (r : References) → IpKeeps (Refc.dereference r)
unfolding Refc.dereference reverse
dereference-IpSound r ip h =
    let (ref, st) = pop (toss ip) in
    let v = r.references ref in
    if_all IpSound (sle ref 0 || ltb r.top ref) (popped_n-IpSound 1 ip h)
      (set_toss-IpSound (push_vector v st) ip (push_vector-IsValid v st (without 1 ip h)) h)

pub orth_and-IpSound : IpKeeps Orth.orth_and
unfolding Orth.orth_and
orth_and-IpSound ip h = replaced-IpSound 2 _ ip h

pub orth_or-IpSound : IpKeeps Orth.orth_or
unfolding Orth.orth_or
orth_or-IpSound ip h = replaced-IpSound 2 _ ip h

pub orth_xor-IpSound : IpKeeps Orth.orth_xor
unfolding Orth.orth_xor
orth_xor-IpSound ip h = replaced-IpSound 2 _ ip h

pub change_dx-IpSound : IpKeeps Orth.change_dx
unfolding Orth.change_dx
change_dx-IpSound ip h = popped_n-IpSound 1 ip h

pub change_dy-IpSound : IpKeeps Orth.change_dy
unfolding Orth.change_dy
change_dy-IpSound ip h = popped_n-IpSound 1 ip h
