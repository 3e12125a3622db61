-- ===== src/Interpreter/Sound/Places.antt =====
-- The order of the stacks under functions of fingerprints that use Funge-Space, call subroutines or
-- read a clock.
use cfunge.Prelude.{arith, ℕ, Bool, Option, none, some, ◌>>=◌, ◌==◌}
use cfunge.Cell.{is_neg}
use cfunge.Vector.{Vector}
use cfunge.Table.{HashLib}
use cfunge.Space.{Space}
use cfunge.Space.Set.{set}
use cfunge.Stack.{Stack, create, pop, push_vector, pop_vector}
use cfunge.Stack.Contents.{IsValid}
use cfunge.StackStack.{move_cells}
use cfunge.StackStack.Transfer.{move_cells-IsValid}
use cfunge.Ip.{Ip, Timespec, toss, set_toss, reverse, forward, forward_no_wrap, set_position}
use cfunge.Fingerprints.Hrti
use cfunge.Fingerprints.Indv
use cfunge.Fingerprints.Orth
use cfunge.Fingerprints.Subr
use cfunge.Fingerprints.Time
use cfunge.Fingerprints.Time.{CurTime}
use cfunge.Interpreter.Sound.{
  IpSound, if_all, option_all, toss-IsValid, set_toss-IpSound, push_vector-IsValid,
  pop_vector-IsValid,
}
use cfunge.Interpreter.Sound.Plane.{PlaneSound, bind-PlaneSound}
use cfunge.Interpreter.Sound.Functions.{IpKeeps, pops, without, popped_n-IpSound, replaced-IpSound}

create-IsValid : (memory : ℕ → ℕ) → IsValid (create memory)
unfolding create
create-IsValid memory = record { fits = omega arith }

module _ (lib : HashLib) where
  abbrev pub PlaneKeeps : (Ip → Space lib → Ip × Space lib) → Type 0
  PlaneKeeps f = (ip : Ip) (s : Space lib) → IpSound ip → IpSound (f ip s).0

  abbrev pub WriteKeeps : (Ip → Space lib → Option (Ip × Space lib)) → Type 0
  WriteKeeps f = (ip : Ip) (s : Space lib) → IpSound ip → PlaneSound lib (f ip s)

  pub get_num-IpSound : PlaneKeeps (Indv.get_num lib)
  unfolding Indv.get_num Indv.get_second_vector pop_vector
  get_num-IpSound ip s h = replaced-IpSound 2 _ ip h

  pub get_vec-IpSound : PlaneKeeps (Indv.get_vec lib)
  unfolding Indv.get_vec Indv.get_second_vector pop_vector
  get_vec-IpSound ip s h =
      set_toss-IpSound (push_vector _ (pops 2 (toss ip))) ip
        (push_vector-IsValid _ (pops 2 (toss ip)) (without 2 ip h)) h

  pub put_num-PlaneSound : WriteKeeps (Indv.put_num lib)
  unfolding Indv.put_num Indv.get_second_vector pop_vector
  put_num-PlaneSound ip s h =
      bind-PlaneSound lib _ (set_toss (pops 3 (toss ip)) ip) (popped_n-IpSound 3 ip h)

  twice-PlaneSound :
      (o : Option (Space lib)) (f : Space lib → Option (Space lib)) (ip : Ip)
      → IpSound ip
      → PlaneSound lib (o >>= λ (t : Space lib). f t >>= λ (u : Space lib). some (ip, u))
  twice-PlaneSound none f ip h = tt
  twice-PlaneSound (some t) f ip h = bind-PlaneSound lib (f t) ip h

  pub put_vec-PlaneSound : WriteKeeps (Indv.put_vec lib)
  unfolding Indv.put_vec Indv.get_second_vector pop_vector
  put_vec-PlaneSound ip s h =
      let (v, st) = Indv.get_second_vector lib ip s in
      let b = (pop_vector st).0 in
      twice-PlaneSound (set lib b.y v s) (λ t. set lib b.x (Indv.right_of v) t)
        (set_toss (pops 4 (toss ip)) ip) (popped_n-IpSound 4 ip h)

  pub orth_get-IpSound : PlaneKeeps (Orth.orth_get lib)
  unfolding Orth.orth_get pop_vector
  orth_get-IpSound ip s h = replaced-IpSound 2 _ ip h

  pub orth_put-PlaneSound : WriteKeeps (Orth.orth_put lib)
  unfolding Orth.orth_put pop_vector
  orth_put-PlaneSound ip s h =
      bind-PlaneSound lib _ (set_toss (pops 3 (toss ip)) ip) (popped_n-IpSound 3 ip h)

  pub change_x-IpSound : PlaneKeeps (Orth.change_x lib)
  unfolding Orth.change_x set_position
  change_x-IpSound ip s h = popped_n-IpSound 1 ip h

  pub change_y-IpSound : PlaneKeeps (Orth.change_y lib)
  unfolding Orth.change_y set_position
  change_y-IpSound ip s h = popped_n-IpSound 1 ip h

  pub ramp_if_zero-IpSound : PlaneKeeps (Orth.ramp_if_zero lib)
  unfolding Orth.ramp_if_zero forward forward_no_wrap
  ramp_if_zero-IpSound ip s h =
      if_all (λ (r : Ip × Space lib). IpSound r.0) ((pop (toss ip)).0 == 0)
        (popped_n-IpSound 1 ip h) (popped_n-IpSound 1 ip h)

  save-IsValid :
      (memory : ℕ → ℕ) (n : ℕ) (p d : Vector) (s : Stack)
      → IsValid s
      → IsValid (Subr.save memory n p d s)
  unfolding Subr.save
  save-IsValid memory n p d s h =
      let (rest, tmp) = move_cells n s (create memory) in
      let (hr, ht) = move_cells-IsValid n s (create memory) h (create-IsValid memory) in
      let below = push_vector d (push_vector p rest) in
      (move_cells-IsValid n tmp below ht
        (push_vector-IsValid d (push_vector p rest) (push_vector-IsValid p rest hr))).1

  restore-IsValid :
      (memory : ℕ → ℕ) (n : ℕ) (s : Stack) → IsValid s → IsValid (Subr.restore memory n s).2
  unfolding Subr.restore
  restore-IsValid memory n s h =
      let (rest, tmp) = move_cells n s (create memory) in
      let (hr, ht) = move_cells-IsValid n s (create memory) h (create-IsValid memory) in
      let below = (pop_vector (pop_vector rest).1).1 in
      (move_cells-IsValid n tmp below ht
        (pop_vector-IsValid (pop_vector rest).1 (pop_vector-IsValid rest hr))).1

  pub call-IpSound : (memory : ℕ → ℕ) → PlaneKeeps (Subr.call memory lib)
  unfolding Subr.call set_position reverse
  call-IpSound memory ip s h =
      let (n, s₁) = pop (toss ip) in
      let s₂ = (pop_vector s₁).1 in
      let s₃ = Subr.save memory n ip.position ip.delta s₂ in
      if_all (λ (r : Ip × Space lib). IpSound r.0) (is_neg n) (popped_n-IpSound 1 ip h)
        (set_toss-IpSound s₃ ip
          (save-IsValid memory n ip.position ip.delta s₂ (pop_vector-IsValid s₁ (without 1 ip h)))
          h)

  pub jump-IpSound : (memory : ℕ → ℕ) → PlaneKeeps (Subr.jump memory lib)
  unfolding Subr.jump set_position
  jump-IpSound memory ip s h =
      set_toss-IpSound (pop_vector (toss ip)).1 ip
        (pop_vector-IsValid (toss ip) (toss-IsValid ip h)) h

  pub return-IpSound : (memory : ℕ → ℕ) → PlaneKeeps (Subr.return memory lib)
  unfolding Subr.return set_position reverse
  return-IpSound memory ip s h =
      let (n, s₁) = pop (toss ip) in
      let s₂ = (Subr.restore memory n s₁).2 in
      if_all (λ (r : Ip × Space lib). IpSound r.0) (is_neg n) (popped_n-IpSound 1 ip h)
        (set_toss-IpSound s₂ ip (restore-IsValid memory n s₁ (without 1 ip h)) h)

abbrev Found : Option Ip → Type 0
Found none = Unit {0}
Found (some ip) = IpSound ip

check_ip_have_hrti-Found :
    (alloc : Bool) (ip : Ip) → IpSound ip → Found (Hrti.check_ip_have_hrti alloc ip)
unfolding Hrti.check_ip_have_hrti
check_ip_have_hrti-Found alloc ip h =
    option_all Found ip.finger_hrti_timestamp (λ t. some ip) (if_all Found alloc h tt) (λ t. h)

stamped :
    (o : Option Ip) (t : Timespec) (ip : Ip)
    → Found o
    → IpSound ip
    → IpSound
        (elim o [ none ↦ reverse ip | some ip' ↦ record ip' { finger_hrti_timestamp = some t } ])
unfolding reverse
stamped none t ip f h = h
stamped (some ip') t ip f h = f

pub erase_mark-IpSound : (alloc : Bool) → IpKeeps (Hrti.erase_mark alloc)
unfolding Hrti.erase_mark
erase_mark-IpSound alloc ip h =
    stamped (Hrti.check_ip_have_hrti alloc ip) _ ip (check_ip_have_hrti-Found alloc ip h) h

pub mark-IpSound : (alloc : Bool) (now : Timespec) → IpKeeps (Hrti.mark alloc now)
unfolding Hrti.mark
mark-IpSound alloc now ip h =
    stamped (Hrti.check_ip_have_hrti alloc ip) now ip (check_ip_have_hrti-Found alloc ip h) h

pub timer-IpSound : (now : Timespec) → IpKeeps (Hrti.timer now)
unfolding Hrti.timer reverse
timer-IpSound now ip h =
    option_all IpSound ip.finger_hrti_timestamp _ h
      (λ t. if_all IpSound (t.tv_sec == 0) h (replaced-IpSound 0 (Hrti.get_difference t now) ip h))

pub second-IpSound : (now : Timespec) → IpKeeps (Hrti.second now)
unfolding Hrti.second
second-IpSound now ip h = replaced-IpSound 0 _ ip h

pub granularity-IpSound : (r : ℕ) → IpKeeps (Hrti.granularity r)
unfolding Hrti.granularity
granularity-IpSound r ip h = replaced-IpSound 0 r ip h

-- All that TIME pushes.
pub time-IpSound :
    (clock : Bool → CurTime) (utc : Bool) (ip : Ip)
    → IpSound ip
    → IpSound (Time.day clock utc ip)
      × IpSound (Time.day_of_year clock utc ip)
      × IpSound (Time.hour clock utc ip)
      × IpSound (Time.minute clock utc ip)
      × IpSound (Time.month clock utc ip)
      × IpSound (Time.second clock utc ip)
      × IpSound (Time.day_of_week clock utc ip)
      × IpSound (Time.year clock utc ip)
unfolding Time.day Time.day_of_year Time.hour Time.minute Time.month Time.second Time.day_of_week
    Time.year
time-IpSound clock utc ip h =
    let pushed = λ (a : ℕ). replaced-IpSound 0 a ip h in
    (pushed _, pushed _, pushed _, pushed _, pushed _, pushed _, pushed _, pushed _)
