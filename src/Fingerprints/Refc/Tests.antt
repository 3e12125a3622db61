-- ===== src/Fingerprints/Refc/Tests.antt =====
-- The theorem on references at a full array, with two numbers on the stack.
use cfunge.Prelude.{◌+◌, ◌≡◌, refl, arith, true, [], ◌∷◌, update}
use cfunge.Stack.{Stack}
use cfunge.Stack.Contents.{contents}
use cfunge.Ip.{Ip, ip_create, stackstack_create, toss, set_toss}
use cfunge.Fingerprints.Refc.{References, reference, dereference}
use cfunge.Fingerprints.Refc.Laws.{Added, dereference-reference}

abbrev two : Stack
two = record { entries = λ i. i + 7; size = 16; top = 2 }

abbrev ip : Ip
ip = set_toss two (ip_create (λ _. 0))

abbrev full : References
full = record { references = λ i. record { x = i; y = i }; top = 4; size = 5 }

dereference-reference_example :
    (contents
        (toss (dereference (reference (λ _. true) ip full).1 (reference (λ _. true) ip full).0))
      ≡ 8 ∷ 7 ∷ [])
    × ((dereference (reference (λ _. true) ip full).1 (reference (λ _. true) ip full).0).delta
        ≡ ip.delta)
    × Added (record { x = 7; y = 8 }) full (reference (λ _. true) ip full).1
unfolding ip_create stackstack_create update
dereference-reference_example =
    dereference-reference (λ _. true) 7 8 [] ip full (record { fits = omega arith }) refl
      (record { room = omega arith }) (omega arith) refl
