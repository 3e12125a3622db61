-- ===== src/StackStack/Tests.antt =====
-- Runs of the copies between two stacks, and the theorems at inputs that meet their hypotheses.
use cfunge.Prelude.{◌+◌, ◌≡◌, arith, [], ◌∷◌}
use cfunge.Cell.{neg}
use cfunge.Stack.{Stack}
use cfunge.Stack.Contents.{contents, IsValid}
use cfunge.StackStack.{bulk_copy, transfer}
use cfunge.StackStack.Copy.{contents-bulk_copy}
use cfunge.StackStack.Transfer.{transfer_back}

abbrev toss : Stack
toss = record { entries = λ i. i + 7; size = 3; top = 3 }

abbrev soss : Stack
soss = record { entries = λ i. i + 20; size = 8; top = 2 }

toss-IsValid : IsValid toss
toss-IsValid = omega arith

soss-IsValid : IsValid soss
soss-IsValid = omega arith

contents-bulk_copy_example : contents (bulk_copy toss soss 3) ≡ 21 ∷ 20 ∷ 0 ∷ 9 ∷ 8 ∷ 7 ∷ []
contents-bulk_copy_example = contents-bulk_copy toss soss 3 toss-IsValid

transfer_back_example :
    let (t₁, s₁) = transfer 2 toss soss in
    let (t₂, s₂) = transfer (neg 2) t₁ s₁ in
    (contents t₂ ≡ 9 ∷ 8 ∷ 7 ∷ []) × (contents s₂ ≡ 21 ∷ 20 ∷ [])
transfer_back_example =
    transfer_back 2 toss soss toss-IsValid soss-IsValid (omega arith) (omega arith) (omega arith)
