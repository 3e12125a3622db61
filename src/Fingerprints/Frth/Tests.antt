-- ===== src/Fingerprints/Frth/Tests.antt =====
-- The theorem on L at a stack of four cells, the number 2 on top.
use cfunge.Prelude.{◌+◌, ◌≡◌, refl, arith, true, [], ◌∷◌, update}
use cfunge.Stack.{Stack}
use cfunge.Stack.Contents.{contents}
use cfunge.Ip.{Ip, ip_create, stackstack_create, toss, set_toss}
use cfunge.Fingerprints.Frth.{forth_roll}
use cfunge.Fingerprints.Frth.Roll.{forth_roll_lem}

abbrev four : Stack
four = record { entries = update (λ i. i + 5) 3 2; size = 16; top = 4 }

abbrev ip : Ip
ip = set_toss four (ip_create (λ _. 0))

forth_roll_lem_example : contents (toss (forth_roll (λ _. true) ip)) ≡ 5 ∷ 7 ∷ 6 ∷ []
unfolding ip_create stackstack_create update
forth_roll_lem_example =
    forth_roll_lem (λ _. true) 2 (7 ∷ 6 ∷ 5 ∷ []) ip (record { fits = omega arith }) refl
      (omega arith) (omega arith) refl
