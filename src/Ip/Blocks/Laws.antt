-- ===== src/Ip/Blocks/Laws.antt =====
-- What a block leaves behind.
use cfunge.Prelude.{
  ◌>>=◌, ℕ, ◌+◌, ◌-◌, ◌≤◌, ◌<◌, ◌≡◌, ◌≢◌, refl, sym, ap, ap₂, ◌∙◌, arith, Bool, true, Option, none,
  some, ◌&&◌, ◌*◌, if◌then◌else◌, Option-cases, inl, inr, update,
}
use cfunge.Cell.{add, abs, slt, IsCell}
use cfunge.Vector.{Vector}
use cfunge.Stack.{Stack, alloc_size, create, push_vector, pop_vector}
use cfunge.Stack.Contents.{contents, IsValid}
use cfunge.StackStack.{StackStack, prealloc_space_non_fatal}
use cfunge.Ip.Blocks.Cells.{end_cells-begin_cells}
use cfunge.Ip.{Ip, toss}
use cfunge.Ip.Blocks.{
  begin_cells, end_cells, extend, set_stack, begin_alloc, stackstack_begin, stackstack_end,
}

prealloc-top :
    (alloc : ℕ → Bool) (n : ℕ) (t t' : Stack)
    → prealloc_space_non_fatal alloc n t ≡ some t'
    → t'.top ≡ t.top
unfolding prealloc_space_non_fatal
prealloc-top alloc n t t' h = ground arith

extend_lem :
    (alloc : ℕ → Bool) (s s' : StackStack)
    → extend alloc s ≡ some s'
    → s.current < s.size
    → (s'.current ≡ s.current) × (s'.stacks ≡ s.stacks) × (s.current + 1 < s'.size)
unfolding extend
extend_lem alloc s s' h room = ground arith

bind_some :
    {A : Type 0}
    → {B : Type 0} → (o : Option A) (f : A → Option B) (b : B) → (o >>= f) ≡ some b
    → (a : A) × (o ≡ some a) × (f a ≡ some b)
bind_some none f b h = ground arith
bind_some (some a) f b h = (a, refl, h)

pair_injective :
    (t₀ t : Stack) (s₀ s : StackStack)
    → ◌≡◌ {A = Option (Stack × StackStack)} (some (t₀, s₀)) (some (t, s))
    → (t₀ ≡ t) × (s₀ ≡ s)
pair_injective t₀ t s₀ s h = ground arith

pub begin_alloc_lem :
    (alloc : ℕ → Bool) (memory : ℕ → ℕ) (count : ℕ) (s s' : StackStack) (t : Stack)
    → begin_alloc alloc memory count s ≡ some (t, s')
    → s.current < s.size
    → (t.top ≡ 0) × (s'.current ≡ s.current) × (s'.stacks ≡ s.stacks) × (s.current + 1 < s'.size)
unfolding begin_alloc create
begin_alloc_lem alloc memory count s s' t h room =
    let created : Option Stack =
      if alloc 24 && alloc (alloc_size * 8) then some (create memory) else none in
    let last : Stack → StackStack → Option (Stack × StackStack) = λ x y. some (x, y) in
    let then_extend : Stack → Option (Stack × StackStack) = λ x. extend alloc s >>= last x in
    let (c, hc, h₁) =
      bind_some created (λ x. prealloc_space_non_fatal alloc (add (abs count) 2) x >>= then_extend)
        (t, s') h in
    let (t₀, ht, h₂) =
      bind_some (prealloc_space_non_fatal alloc (add (abs count) 2) c) then_extend (t, s') h₁ in
    let (s₀, hs, h₃) = bind_some (extend alloc s) (last t₀) (t, s') h₂ in
    let empty : c.top ≡ 0 = ground arith in
    let same = pair_injective t₀ t s₀ s' h₃ in
    let (current, stacks, more) = extend_lem alloc s s₀ hs room in
    (
      ap (λ (x : Stack). x.top) (sym same.0)
          ∙ prealloc-top alloc (add (abs count) 2) c t₀ ht
          ∙ empty,
      ap (λ (x : StackStack). x.current) (sym same.1) ∙ current,
      ap (λ (x : StackStack). x.stacks) (sym same.1) ∙ stacks,
      rw (sym same.1) more,
    )

-- An instruction pointer whose stacks are in order.
pub record HasStacks (ip : Ip) : Type 0 where
  pub room : ip.stackstack.current < ip.stackstack.size
  pub valid : IsValid (toss ip)

pub set_stack_self :
    (i : ℕ) (v : Stack) (s : StackStack) → i < s.size → (set_stack i v s).stacks i ≡ v
unfolding set_stack update
set_stack_self i v s h = ground arith

pub set_stack-other :
    (i j : ℕ) (v : Stack) (s : StackStack) → j ≢ i → (set_stack i v s).stacks j ≡ s.stacks j
unfolding set_stack update
set_stack-other i j v s h = ground arith

pub set_stack-size : (i : ℕ) (v : Stack) (s : StackStack) → (set_stack i v s).size ≡ s.size
unfolding set_stack
set_stack-size i v s = refl

-- What a successful begin leaves, with the new stack that the system gave.
begun :
    (alloc : ℕ → Bool) (memory : ℕ → ℕ) (count : ℕ) (offset : Vector) (ip : Ip) (t : Stack)
    (s : StackStack)
    → begin_alloc alloc memory count ip.stackstack ≡ some (t, s)
    → HasStacks ip
    → let b = (stackstack_begin alloc memory count offset ip).1.stackstack in
      let c = ip.stackstack.current in
      (t.top ≡ 0)
      × (b.current ≡ c + 1)
      × (c < b.size)
      × (b.stacks c ≡ push_vector ip.storage_offset (begin_cells count (toss ip) t).0)
      × (b.stacks (c + 1) ≡ (begin_cells count (toss ip) t).1)
unfolding stackstack_begin
begun alloc memory count offset ip t s p h =
    let c = ip.stackstack.current in
    let (empty, current, stacks, room) =
      begin_alloc_lem alloc memory count ip.stackstack s t p h.room in
    let s₀ : StackStack = record ip.stackstack { size = s.size } in
    let offset₁ = ip.storage_offset in
    let (soss', t') = begin_cells count (toss ip) t in
    let s₁ = set_stack c (push_vector offset₁ soss') s₀ in
    let wide : c + 1 < s₁.size = omega (arith, set_stack-size c (push_vector offset₁ soss') s₀) in
    let wide₂ : c < (set_stack (c + 1) t' s₁).size = omega (arith, set_stack-size (c + 1) t' s₁) in
    rw (p, current, stacks)
      (
        empty,
        refl,
        wide₂,
        set_stack-other (c + 1) c t' s₁ (omega arith)
            ∙ set_stack_self c (push_vector offset₁ soss') s₀ (omega arith),
        set_stack_self (c + 1) t' s₁ wide,
      )

-- What an end leaves.
ended :
    (count c : ℕ) (ip : Ip)
    → ip.stackstack.current ≡ c + 1
    → c < ip.stackstack.size
    → let e = (stackstack_end count ip).1 in
      let popped = pop_vector (ip.stackstack.stacks c) in
      (toss e ≡ end_cells count popped.1 (ip.stackstack.stacks (c + 1)))
      × (e.storage_offset ≡ popped.0)
      × (e.stackstack.current ≡ c)
unfolding stackstack_end
ended count c ip at room =
    let below : c + 1 - 1 ≡ c = omega arith in
    let popped = pop_vector (ip.stackstack.stacks c) in
    rw (at, below)
      (
        set_stack_self c (end_cells count popped.1 (ip.stackstack.stacks (c + 1)))
            (record ip.stackstack { current = c + 1 }) room,
        refl,
        refl,
      )

-- A block that begins with success and ends with the same count, nothing else happening, leaves
-- the stack, the storage offset and the number of stacks as they were, if the stack holds as many
-- cells as a positive count asks for.
pub stackstack_end-stackstack_begin :
    (alloc : ℕ → Bool) (memory : ℕ → ℕ) (count : ℕ) (offset : Vector) (ip : Ip)
    → IsCell count
    → HasStacks ip
    → (slt 0 count ≡ true → count ≤ (toss ip).top)
    → (stackstack_begin alloc memory count offset ip).0 ≡ true
    → let ip' = (stackstack_end count (stackstack_begin alloc memory count offset ip).1).1 in
      (contents (toss ip') ≡ contents (toss ip))
      × (ip'.storage_offset ≡ ip.storage_offset)
      × (ip'.stackstack.current ≡ ip.stackstack.current)
unfolding stackstack_begin
stackstack_end-stackstack_begin alloc memory count offset ip hc h enough done =
    elim (Option-cases (begin_alloc alloc memory count ip.stackstack)) [
      | inl p ↦ ground arith
      | inr ((t, s), p) ↦
          let b = (stackstack_begin alloc memory count offset ip).1 in
          let (empty, current, room, soss, top) = begun alloc memory count offset ip t s p h in
          let (cells, saved, back) = ended count ip.stackstack.current b current room in
          let (same_offset, same_cells) =
            end_cells-begin_cells count ip.storage_offset (toss ip) t hc h.valid empty enough in
          (
            ap contents cells
                ∙ ap₂ (λ u v. contents (end_cells count (pop_vector u).1 v)) soss top
                ∙ same_cells,
            saved ∙ ap (λ u. (pop_vector u).0) soss ∙ same_offset,
            back,
          )
    ]
