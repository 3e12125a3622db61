-- ===== src/Fingerprints/Frth.antt =====
-- src/fingerprints/FRTH/FRTH.c: stack operations of Forth.
pub mod Roll
mod Tests
use cfunge.Prelude.{ℕ, zero, suc, ◌+◌, ◌-◌, ◌*◌, ◌%◌, ◌^◌, Bool, leb, if◌then◌else◌}
use cfunge.Cell.{add, sle, is_neg}
use cfunge.Stack.{Stack, push, pop, discard, get_index}
use cfunge.Ip.{Ip, toss, set_toss, reverse}

unfoldable pub stack_size : Ip → Ip
stack_size ip = set_toss (push ((toss ip).top % 2 ^ 64) (toss ip)) ip

-- `for (i = from; i < from + n; i++) stack_push(elems[i])`
unfoldable pub push_from : ℕ → (ℕ → ℕ) → ℕ → Stack → Stack
push_from zero elems from s = s
push_from (suc n) elems from s = push_from n elems (from + 1) (push (elems from) s)

-- The end of `finger_FRTH_forth_roll`, on the stack without the count.
unfoldable pub roll_cells : ℕ → Stack → Stack
roll_cells u st =
    let s = st.top in
    let xu = st.entries (s - (u + 1)) in
    push xu (push_from u st.entries (s - u) (discard (add u 1) st))

-- `alloc` says whether the system gives so many bytes.
unfoldable pub forth_roll : (ℕ → Bool) → Ip → Ip
forth_roll alloc ip =
    let (u, st) = pop (toss ip) in
    let ip' = set_toss st ip in
    if is_neg u
    then reverse ip'
    else if sle (st.top % 2 ^ 64) u
    then set_toss (push 0 st) ip
    else if alloc (8 * st.top)
    then set_toss (roll_cells u st) ip
    else reverse ip'

unfoldable pub forth_over : Ip → Ip
forth_over ip =
    let (b, s₁) = pop (toss ip) in let (a, s₂) = pop s₁ in set_toss (push a (push b (push a s₂))) ip

unfoldable pub forth_pick : Ip → Ip
forth_pick ip =
    let (u, st) = pop (toss ip) in
    if is_neg u
    then reverse (set_toss st ip)
    else if leb st.top u
    then set_toss (push 0 st) ip
    else set_toss (push (get_index st (st.top - u)) st) ip

unfoldable pub forth_rot : Ip → Ip
forth_rot ip =
    let (c, s₁) = pop (toss ip) in
    let (b, s₂) = pop s₁ in let (a, s₃) = pop s₂ in set_toss (push a (push c (push b s₃))) ip
