-- ===== src/Fingerprints/Toys/Tests.antt =====
-- Runs of functions of TOYS, and the theorem on C where a row moves one cell to the left.
use cfunge.Prelude.{
  ℕ, ◌+◌, ◌-◌, ◌^◌, ◌<◌, ◌≡◌, ◌⊎◌, inl, inr, refl, false, some, List, [], ◌∷◌, get_or, length,
  arith,
}
use cfunge.Vector.{Vector, IsVector, same_vector}
use cfunge.Table.Instance.{assoc_lib}
use cfunge.Space.{Space, create, get}
use cfunge.Space.Bounds.Covers.{Covers, create-Covers}
use cfunge.Stack.{Stack, pop, pop_vector}
use cfunge.Ip.{Ip, ip_create, toss, set_toss}
use cfunge.Fingerprints.Toys.{pair_of_stilts, pitchfork_head, gable}
use cfunge.Fingerprints.Toys.Walk.{television_antenna}
use cfunge.Fingerprints.Toys.Blocks.{bracelet}
use cfunge.Fingerprints.Toys.Copy.{cell_at, bracelet_lem}

abbrev stack_of : List ℕ → ℕ → Stack
stack_of cells n = record { entries = λ i. get_or cells i 0; size = 16; top = n }

abbrev ip_with : List ℕ → Ip
ip_with cells = set_toss (stack_of cells (length cells)) (ip_create (λ _. 0))

sum_of_all : (pop (toss (pitchfork_head (ip_with (2 ∷ 3 ∷ 4 ∷ []))))).0 ≡ 9
unfolding pitchfork_head pop cfunge.Prelude.update ip_create cfunge.Ip.stackstack_create
    cfunge.Stack.push cfunge.Stack.clear cfunge.Stack.store cfunge.Fingerprints.Toys.accumulate
sum_of_all = refl

shifted_right : (pop (toss (pair_of_stilts (λ _ a _. a) (ip_with (13 ∷ (2 ^ 64 - 2) ∷ []))))).0 ≡ 3
unfolding pair_of_stilts pop cfunge.Prelude.update ip_create cfunge.Ip.stackstack_create
    cfunge.Stack.push cfunge.Stack.store
shifted_right = refl

copies : (toss (gable (ip_with (7 ∷ 3 ∷ [])))).top ≡ 3
unfolding gable pop cfunge.Prelude.update ip_create cfunge.Ip.stackstack_create
    cfunge.Fingerprints.Toys.push_times cfunge.Stack.push
copies = refl

-- W goes on with the vector less the storage offset, though it looked at the vector itself.
abbrev waiting : Ip
waiting = record (ip_with (33 ∷ 5 ∷ 0 ∷ [])) { storage_offset = record { x = 2; y = 0 } }

looks_elsewhere :
    (pop_vector (toss (television_antenna assoc_lib waiting (create assoc_lib)).0)).0
    ≡ record { x = 3; y = 0 }
unfolding television_antenna pop_vector pop get cfunge.Prelude.update ip_create
    cfunge.Ip.stackstack_create create cfunge.Ip.backward cfunge.Ip.backward_no_wrap
    cfunge.Stack.push_vector cfunge.Stack.push cfunge.Stack.store
looks_elsewhere = refl

abbrev ip : Ip
ip = ip_with (1 ∷ 0 ∷ 2 ∷ 1 ∷ 0 ∷ 0 ∷ [])

abbrev to : Vector
to = record { x = 0; y = 0 }

abbrev block : Vector
block = record { x = 2; y = 1 }

abbrev from : Vector
from = record { x = 1; y = 0 }

to_the_left :
    (a b x y : ℕ)
    → a < block.x
    → b < block.y
    → x < block.x
    → (y < b) ⊎ ((y ≡ b) × (x < a))
    → same_vector (cell_at to x y) (cell_at from a b) ≡ false
unfolding same_vector
to_the_left a b x y ha hb hx (inl h) = ground arith
to_the_left a b x y ha hb hx (inr h) = ground arith

bracelet_example :
    (u : Space assoc_lib) × (bracelet assoc_lib ip (create assoc_lib)
      ≡ some (set_toss (pop_vector (pop_vector (pop_vector (toss ip)).1).1).1 ip, u))
    × ((x y : ℕ)
        → x < block.x
        → y < block.y
        → get assoc_lib u (cell_at to x y) ≡ get assoc_lib (create assoc_lib) (cell_at from x y))
    × ((q : Vector)
        → IsVector q
        → ((x y : ℕ) → x < block.x → y < block.y → same_vector (cell_at to x y) q ≡ false)
        → get assoc_lib u q ≡ get assoc_lib (create assoc_lib) q)
    × Covers assoc_lib u
unfolding pop_vector pop cfunge.Prelude.update ip_create cfunge.Ip.stackstack_create
bracelet_example =
    bracelet_lem assoc_lib ip (create assoc_lib) to block from (pop_vector (toss ip)).1
      (pop_vector (pop_vector (toss ip)).1).1 (pop_vector (pop_vector (pop_vector (toss ip)).1).1).1
      refl refl refl (omega arith) (omega arith) (omega arith) (omega arith) to_the_left
      (create-Covers assoc_lib)
