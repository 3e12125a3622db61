-- ===== src/Ip/Tests.antt =====
-- A block on a stack of two cells.
use cfunge.Prelude.{◌+◌, ◌≡◌, refl, arith, true, [], ◌∷◌, update}
use cfunge.Cell.{abs}
use cfunge.Vector.{Vector}
use cfunge.Stack.{Stack, create}
use cfunge.Stack.Contents.{contents}
use cfunge.StackStack.{prealloc_space_non_fatal}
use cfunge.Ip.{Ip, ip_create, stackstack_create, set_toss, toss}
use cfunge.Ip.Blocks.{stackstack_begin, stackstack_end, begin_alloc, extend}
use cfunge.Ip.Blocks.Laws.{HasStacks, stackstack_end-stackstack_begin}

abbrev two : Stack
two = record { entries = λ i. i + 7; size = 3; top = 2 }

abbrev start : Ip
unfolding ip_create stackstack_create update
start = set_toss two (ip_create λ _. 0)

start-HasStacks : HasStacks start
unfolding ip_create stackstack_create update
start-HasStacks = record { room = omega arith; valid = omega arith }

abbrev home : Vector
home = record { x = 5; y = 6 }

stackstack_end-stackstack_begin_example :
    let ip' = (stackstack_end 2 (stackstack_begin (λ _. true) (λ _. 0) 2 home start).1).1 in
    (contents (toss ip') ≡ 8 ∷ 7 ∷ [])
    × (ip'.storage_offset ≡ record { x = 0; y = 0 })
    × (ip'.stackstack.current ≡ 0)
unfolding ip_create stackstack_create update stackstack_begin begin_alloc prealloc_space_non_fatal
    extend create abs
stackstack_end-stackstack_begin_example =
    stackstack_end-stackstack_begin (λ _. true) (λ _. 0) 2 home start (omega arith) start-HasStacks
      (λ _. omega arith) refl
