-- ===== src/Interpreter/Moves/Laws.antt =====
-- Turns are rotations by a quarter.
use cfunge.Prelude.{ℕ, ◌≡◌, sym, ap, ◌∙◌, arith}
use cfunge.Cell.{neg, mul, minus_one, IsCell}
use cfunge.Vector.{IsVector}
use cfunge.Ip.{Ip, reverse, turn_left, turn_right}

neg-neg : (a : ℕ) → IsCell a → neg (neg a) ≡ a
neg-neg a h = omega arith

mul-minus_one : (a : ℕ) → IsCell a → mul a minus_one ≡ neg a
unfolding mul
mul-minus_one a h = omega arith

mul-IsCell : (a : ℕ) → IsCell a → IsCell (mul a minus_one)
unfolding mul
mul-IsCell a h = omega arith

mul_twice : (a : ℕ) → IsCell a → mul (mul a minus_one) minus_one ≡ a
mul_twice a h =
    mul-minus_one (mul a minus_one) (mul-IsCell a h) ∙ ap neg (mul-minus_one a h) ∙ neg-neg a h

-- For a delta of two cells: left and right undo one another, two turns to the same side are
-- the reversal that r makes, and two reversals change nothing.
pub turns :
    (ip : Ip)
    → IsVector ip.delta
    → (turn_right (turn_left ip) ≡ ip)
      × (turn_left (turn_right ip) ≡ ip)
      × (turn_left (turn_left ip) ≡ reverse ip)
      × (turn_right (turn_right ip) ≡ reverse ip)
      × (reverse (reverse ip) ≡ ip)
unfolding turn_left turn_right reverse
turns ip h =
    let x_cell = h.x_cell in
    let y_cell = h.y_cell in
    (
      λ i. record ip { delta = record { x = neg-neg ip.delta.x x_cell i; y = ip.delta.y } },
      λ i. record ip { delta = record { x = ip.delta.x; y = neg-neg ip.delta.y y_cell i } },
      λ i. record ip {
        delta = record {
          x = sym (mul-minus_one ip.delta.x x_cell) i;
          y = sym (mul-minus_one ip.delta.y y_cell) i;
        };
      },
      λ i. record ip {
        delta = record {
          x = sym (mul-minus_one ip.delta.x x_cell) i;
          y = sym (mul-minus_one ip.delta.y y_cell) i;
        };
      },
      λ i. record ip {
        delta = record { x = mul_twice ip.delta.x x_cell i; y = mul_twice ip.delta.y y_cell i };
      },
    )
