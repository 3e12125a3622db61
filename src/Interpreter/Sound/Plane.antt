-- ===== src/Interpreter/Sound/Plane.antt =====
-- The order of the stacks under the instructions that read, write or cross Funge-Space.
use cfunge.Prelude.{ℕ, zero, suc, Bool, Option, none, some, ◌>>=◌, ◌==◌}
use cfunge.Table.{HashLib}
use cfunge.Space.{Space, get, get_offset}
use cfunge.Space.Set.{set, set_offset}
use cfunge.Stack.{push, pop, pop_vector}
use cfunge.Stack.Contents.{push-IsValid, pop-IsValid}
use cfunge.Ip.{Ip, toss, set_toss, forward, forward_no_wrap, backward, backward_no_wrap}
use cfunge.Ip.Blocks.{stackstack_begin}
use cfunge.Interpreter.Plane.{skip_until, jump, get_cell, put_cell, fetch, store_next, begin_block}
use cfunge.Interpreter.Sound.{
  IpSound, if_all, toss-IsValid, set_toss-IpSound, pop_vector-IsValid, reverse-IpSound,
  popped-IpSound,
}
use cfunge.Interpreter.Sound.Blocks.{stackstack_begin-IpSound}

module _ (lib : HashLib) where
  -- A result with an IP and the space.
  abbrev pub PlaneSound : Option (Ip × Space lib) → Type 0
  PlaneSound none = Unit {0}
  PlaneSound (some (ip, s)) = IpSound ip

  pub bind-PlaneSound :
      (o : Option (Space lib)) (ip : Ip)
      → IpSound ip
      → PlaneSound (o >>= λ (s : Space lib). some (ip, s))
  bind-PlaneSound none ip h = tt
  bind-PlaneSound (some s) ip h = h

  pub forward-IpSound : (ip : Ip) (s : Space lib) → IpSound ip → IpSound (forward lib ip s).0
  unfolding forward forward_no_wrap
  forward-IpSound ip s h = h

  pub skip_until-PlaneSound :
      (stop : ℕ → Bool) (fuel : ℕ) (ip : Ip) (s : Space lib)
      → IpSound ip
      → PlaneSound (skip_until lib stop fuel ip s)
  unfolding skip_until
  skip_until-PlaneSound stop zero ip s h = tt
  skip_until-PlaneSound stop (suc fuel) ip s h =
      let (ip', s') = forward lib ip s in
      let h' = forward-IpSound ip s h in
      if_all PlaneSound (stop (get lib s' ip'.position)) h'
        (skip_until-PlaneSound stop fuel ip' s' h')

  pub jump-IpSound : (ip : Ip) (s : Space lib) → IpSound ip → IpSound (jump lib ip s).0
  unfolding jump forward forward_no_wrap
  jump-IpSound ip s h =
      if_all (λ (r : Ip × Space lib). IpSound r.0) ((pop (toss ip)).0 == 0) (popped-IpSound ip h)
        (popped-IpSound ip h)

  pub get_cell-IpSound : (ip : Ip) (s : Space lib) → IpSound ip → IpSound (get_cell lib ip s).0
  unfolding get_cell
  get_cell-IpSound ip s h =
      let (p, st) = pop_vector (toss ip) in
      let v = get_offset lib s p ip.storage_offset in
      set_toss-IpSound (push v st) ip
        (push-IsValid v st (pop_vector-IsValid (toss ip) (toss-IsValid ip h))) h

  pub put_cell-PlaneSound : (ip : Ip) (s : Space lib) → IpSound ip → PlaneSound (put_cell lib ip s)
  unfolding put_cell
  put_cell-PlaneSound ip s h =
      let (p, st) = pop_vector (toss ip) in
      let (value, st') = pop st in
      bind-PlaneSound (set_offset lib value p ip.storage_offset s) (set_toss st' ip) (
        set_toss-IpSound st' ip (pop-IsValid st (pop_vector-IsValid (toss ip) (toss-IsValid ip h)))
          h)

  pub fetch-IpSound : (ip : Ip) (s : Space lib) → IpSound ip → IpSound (fetch lib ip s).0
  unfolding fetch
  fetch-IpSound ip s h =
      let (ip', s') = forward lib ip s in
      let h' = forward-IpSound ip s h in
      let v = get lib s' ip'.position in
      set_toss-IpSound (push v (toss ip')) ip' (push-IsValid v (toss ip') (toss-IsValid ip' h')) h'

  pub store_next-PlaneSound :
      (ip : Ip) (s : Space lib) → IpSound ip → PlaneSound (store_next lib ip s)
  unfolding store_next forward_no_wrap
  store_next-PlaneSound ip s h =
      let ip' = forward_no_wrap ip in
      let (value, st) = pop (toss ip') in
      bind-PlaneSound (set lib value ip'.position s) (set_toss st ip') (popped-IpSound ip' h)

  pub begin_block-IpSound :
      (alloc : ℕ → Bool) (memory : ℕ → ℕ) (ip : Ip) (s : Space lib)
      → IpSound ip
      → IpSound (begin_block lib alloc memory ip s).0
  unfolding begin_block forward forward_no_wrap backward backward_no_wrap
  begin_block-IpSound alloc memory ip s h =
      let (count, st) = pop (toss ip) in
      let (ip₁, s₁) = forward lib (set_toss st ip) s in
      let (ip₂, s₂) = backward lib ip₁ s₁ in
      let r = stackstack_begin alloc memory count ip₁.position ip₂ in
      let begun =
        stackstack_begin-IpSound alloc memory count ip₁.position ip₂ (popped-IpSound ip h) in
      if_all IpSound r.0 begun (reverse-IpSound r.1 begun)
