-- ===== src/Fingerprints/Base/Tests.antt =====
-- Numbers that N prints, and what I reads of them.
use cfunge.Prelude.{◌^◌, ◌-◌, ◌≡◌, refl, arith, some, [], ◌∷◌}
use cfunge.Input.Number.{rgi_success, input_getint}
use cfunge.Fingerprints.Base.{binary_digits, printed_in}
use cfunge.Fingerprints.Base.Laws.{input_getint-printed_in}

hexadecimal : printed_in 16 0x2af ≡ b'2' ∷ b'a' ∷ b'f' ∷ b' ' ∷ []
unfolding printed_in
hexadecimal = refl

-- The digit of a 0 comes without the space that follows every other number, and B prints no digit.
zero_in_base : printed_in 10 0 ≡ b'0' ∷ []
unfolding printed_in
zero_in_base = refl

zero_in_binary : binary_digits 65 0 ≡ []
unfolding binary_digits
zero_in_binary = refl

input_getint-printed_in_example :
    (input_getint 36 (record { line = printed_in 36 (2 ^ 63 - 1); current = some 0; stdin = [] })).0
    ≡ rgi_success (2 ^ 63 - 1)
input_getint-printed_in_example =
    input_getint-printed_in 36 (2 ^ 63 - 1) [] (omega arith) (omega arith) (omega arith)
