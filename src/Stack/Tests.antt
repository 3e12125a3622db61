-- ===== src/Stack/Tests.antt =====
-- Runs of the stack's operations, and the theorems at inputs that meet their hypotheses.
use cfunge.Prelude.{true, update, ◌+◌, ◌≡◌, refl, arith, some, List, [], ◌∷◌}
use cfunge.Stack.{
  Stack, push, pop, dup_top, swap_top, push_no_check, peek, prealloc_space, store, discard,
}
use cfunge.Stack.Contents.{contents, IsValid}
use cfunge.Stack.Refine.{
  put, take_top, look, duplicate, exchange, drop_many, Op, run, run_list, run_refines,
}
use cfunge.Stack.Text.{push_string, pop_string, pop_bytes, to_byte}
use cfunge.Stack.Text.Laws.{Popped, pop_bytes-Popped, pop_string-push_string}

-- An array of four cells whose first three are in use; the cells above hold rubbish.
abbrev three : Stack
three = record { entries = λ i. i + 7; size = 4; top = 3 }

abbrev full : Stack
full = record { entries = λ i. i + 7; size = 3; top = 3 }

contents-three : contents three ≡ 9 ∷ 8 ∷ 7 ∷ []
contents-three = refl

full-IsValid : IsValid full
full-IsValid = omega arith

abbrev script : List Op
script = put 5 ∷ exchange ∷ take_top ∷ drop_many 9 ∷ duplicate ∷ look ∷ take_top ∷ []

run-full : (run script full).0 ≡ 9 ∷ 0 ∷ 0 ∷ []
unfolding run push pop dup_top swap_top push_no_check peek prealloc_space store update discard
run-full = refl

run_refines_example :
    ((run script full).0, contents (run script full).1) ≡ run_list script (9 ∷ 8 ∷ 7 ∷ [])
run_refines_example = run_refines script full full-IsValid

pop_bytes-Popped_example : Popped to_byte full (pop_bytes full)
pop_bytes-Popped_example = pop_bytes-Popped full full-IsValid

pop_string-push_string_example :
    (t : Stack) × (pop_string (λ _. true) (push_string (104 ∷ 105 ∷ []) full)
      ≡ some (some (104 ∷ 105 ∷ []), t))
    × (contents t ≡ 9 ∷ 8 ∷ 7 ∷ [])
pop_string-push_string_example =
    pop_string-push_string (λ _. true) (104 ∷ 105 ∷ []) full full-IsValid (ground arith) refl
