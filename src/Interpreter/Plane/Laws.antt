-- ===== src/Interpreter/Plane/Laws.antt =====
-- The loops over blanks and comments stop at the first cell that ends them, steps of the delta away.
use mathlib.Core.Path.{subst⁻¹}
use cfunge.Cell.{space}
use cfunge.Vector.{Vector}
use cfunge.Space.Wrap.{wrap_bounds, wrap_in, fungespace_wrap}
use cfunge.Space.Wrap.Cardinal.{step}
use cfunge.Space.Bounds.Covers.{Inside, in_range_iff}
use cfunge.Manager.{Env}
use cfunge.Interpreter.Execute.{Settings, Host}
use cfunge.Interpreter.Run.{skip_blanks, skip_comment}
use cfunge.Prelude.{
  ap, ◌∙◌, ◌≢◌, not, ◌==◌, ℕ, zero, suc, ◌<◌, arith, ◌≡◌, refl, Bool, true, false, some,
}
use cfunge.Table.{HashLib}
use cfunge.Space.{Space, get}
use cfunge.Ip.{Ip, forward, forward_no_wrap}
use cfunge.Interpreter.Plane.{skip_until}

module _ (lib : HashLib) (stop : ℕ → Bool) where
  -- The position and the space after some steps.
  abbrev pub steps : ℕ → Ip × Space lib → Ip × Space lib
  steps zero at = at
  steps (suc n) (ip, s) = steps n (forward lib ip s)

  abbrev pub stops : Ip × Space lib → Bool
  stops (ip, s) = stop (get lib s ip.position)

  skip_until_lem :
      (n fuel : ℕ) (ip : Ip) (s : Space lib)
      → n < fuel
      → stops (steps (suc n) (ip, s)) ≡ true
      → ((k : ℕ) → k < n → stops (steps (suc k) (ip, s)) ≡ false)
      → skip_until lib stop fuel ip s ≡ some (steps (suc n) (ip, s))
  unfolding skip_until
  skip_until_lem n zero ip s enough here before = absurd (omega arith)
  skip_until_lem zero (suc fuel) ip s enough here before = rw here refl
  skip_until_lem (suc n) (suc fuel) ip s enough here before = rw (before 0 (omega arith)) (
      skip_until_lem n fuel (forward lib ip s).0 (forward lib ip s).1 (omega arith) here
        (λ k h. before (suc k) (omega arith)))

-- The position some steps of a delta away, without wrapping.
abbrev pub walk : ℕ → Vector → Vector → Vector
walk zero p d = p
walk (suc n) p d = walk n (step p d) d

module _ (lib : HashLib) (s : Space lib) (same : wrap_bounds lib s ≡ s) where
  forward_within :
      (ip : Ip)
      → Inside s.top_left s.bottom_right (step ip.position ip.delta)
      → forward lib ip s ≡ (record ip { position = step ip.position ip.delta }, s)
  unfolding forward forward_no_wrap fungespace_wrap wrap_in
  forward_within ip inside =
      rw (same, (in_range_iff s.top_left s.bottom_right (step ip.position ip.delta)).1 inside) refl

  abbrev at : Ip → Vector → Ip
  at ip p = record ip { position = p }

  steps_within :
      (stop : ℕ → Bool) (n : ℕ) (ip : Ip) (p : Vector)
      → ((k : ℕ) → k < n → Inside s.top_left s.bottom_right (walk (suc k) p ip.delta))
      → steps lib stop n (at ip p, s) ≡ (at ip (walk n p ip.delta), s)
  steps_within stop zero ip p h = refl
  steps_within stop (suc n) ip p h =
      ap (steps lib stop n) (forward_within (at ip p) (h 0 (omega arith)))
      ∙ steps_within stop n ip (step p ip.delta) (λ k q. h (suc k) (omega arith))

  skip_within :
      (stop : ℕ → Bool) (n fuel : ℕ) (ip : Ip)
      → n < fuel
      → ((k : ℕ) → k < suc n → Inside s.top_left s.bottom_right (walk (suc k) ip.position ip.delta))
      → stop (get lib s (walk (suc n) ip.position ip.delta)) ≡ true
      → ((k : ℕ) → k < n → stop (get lib s (walk (suc k) ip.position ip.delta)) ≡ false)
      → skip_until lib stop fuel ip s ≡ some (at ip (walk (suc n) ip.position ip.delta), s)
  skip_within stop n fuel ip enough inside here before =
      let reached = λ (k : ℕ) (q : k < suc n).
        steps_within stop (suc k) ip ip.position (λ j r. inside j (omega arith)) in
      skip_until_lem lib stop n fuel ip s enough
        (subst⁻¹ (λ at. stops lib stop at ≡ true) (reached n (omega arith)) here)
        (λ k q. subst⁻¹ (λ at. stops lib stop at ≡ false) (reached k (omega arith)) (before k q))
      ∙ ap some (reached n (omega arith))

  module _ (host : Host lib) (settings : Settings) (env : Env) (memory : ℕ → ℕ) where
    -- A blank on a plane whose bounds a wrap leaves alone, with fuel above n: if the cells that are
    -- 1 to n + 1 steps of the delta away are within the bounds, the first n of them are spaces and
    -- the last is none, it takes no tick and leaves the instruction pointer on the last of them, not
    -- to be moved; nothing else changes.
    pub skip_blanks_lem :
        (n fuel : ℕ) (ip : Ip) (w : host.World)
        → n < fuel
        → ((k : ℕ)
            → k < suc n
            → Inside s.top_left s.bottom_right (walk (suc k) ip.position ip.delta))
        → ((k : ℕ) → k < n → get lib s (walk (suc k) ip.position ip.delta) ≡ space)
        → get lib s (walk (suc n) ip.position ip.delta) ≢ space
        → skip_blanks lib host settings env memory fuel (ip, s, w)
          ≡ some (
            true,
            (record ip { position = walk (suc n) ip.position ip.delta; need_move = false }, s, w),
          )
    unfolding skip_blanks
    skip_blanks_lem n fuel ip w enough inside blank end =
        rw
          (skip_within (λ c. not (c == space)) n fuel ip enough inside (ground (arith, end))
            (λ k q. ground (arith, blank k q)))
          refl

    -- The same of a semicolon and the next one, from which the instruction pointer may be moved.
    skip_comment_lem :
        (n fuel : ℕ) (ip : Ip) (w : host.World)
        → n < fuel
        → ((k : ℕ)
            → k < suc n
            → Inside s.top_left s.bottom_right (walk (suc k) ip.position ip.delta))
        → ((k : ℕ) → k < n → get lib s (walk (suc k) ip.position ip.delta) ≢ b';')
        → get lib s (walk (suc n) ip.position ip.delta) ≡ b';'
        → skip_comment lib host settings env memory fuel (ip, s, w)
          ≡ some (true, (record ip { position = walk (suc n) ip.position ip.delta }, s, w))
    unfolding skip_comment
    skip_comment_lem n fuel ip w enough inside other end =
        rw
          (skip_within (λ c. c == b';') n fuel ip enough inside (ground (arith, end))
            (λ k q. ground (arith, other k q)))
          refl
