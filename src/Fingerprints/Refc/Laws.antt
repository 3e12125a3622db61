-- ===== src/Fingerprints/Refc/Laws.antt =====
-- What a reference stands for.
use cfunge.Prelude.{
  ℕ, ◌+◌, ◌*◌, ◌%◌, ◌^◌, ◌≤◌, ◌<◌, ◌≡◌, refl, ap, ◌∙◌, arith, Bool, true, false, ◌||◌, some, List,
  ◌∷◌, drop, ltb, ◌==◌, update_self, update_ne, Bool-cases, inl, inr,
}
use mathlib.Core.Path.{subst⁻¹}
use cfunge.Cell.{sle}
use cfunge.Vector.{Vector}
use cfunge.Stack.{Stack, push, pop, push_vector}
use cfunge.Stack.Contents.{
  contents, IsValid, push-IsValid, pop-IsValid, contents-push, contents-pop, pop_value,
  head_or_zero,
}
use cfunge.Ip.{Ip, toss, set_toss}
use cfunge.Fingerprints.Refc.{References, chunk, grow, add_reference, reference, dereference}

-- The array has a place that is not used.
pub record HasRoom (r : References) : Type 0 where
  pub room : r.top < r.size

-- What the array is after a reference more.
pub record Added (v : Vector) (r r' : References) : Type 0 where
  pub next : r'.top ≡ r.top + 1
  pub room : HasRoom r'
  pub here : r'.references (r.top + 1) ≡ v
  pub others : (j : ℕ) → j ≤ r.top → r'.references j ≡ r.references j

grow_lem :
    (alloc : ℕ → Bool) (r grown : References)
    → grow alloc r ≡ some grown
    → r.top < r.size
    → (grown.top ≡ r.top) × (grown.references ≡ r.references) × (r.top + 1 < grown.size)
unfolding grow
grow_lem alloc r grown e h = ground arith

add_reference-Added :
    (alloc : ℕ → Bool) (v : Vector) (r grown : References)
    → HasRoom r
    → grow alloc r ≡ some grown
    → Added v r (add_reference v grown)
unfolding add_reference
add_reference-Added alloc v r grown h e =
    let (top, same, room) = grow_lem alloc r grown e h.room in
    let fits : ltb (r.top + 1) grown.size ≡ true = ground arith in
    rw (top, same, fits)
      (record {
        next = refl;
        room = record { room = room };
        here = update_self r.references (r.top + 1) v;
        others = λ j p. update_ne r.references (r.top + 1) j v (omega arith);
      })

grow-some :
    (alloc : ℕ → Bool) (r : References)
    → alloc ((r.size + chunk) * 16) ≡ true
    → (g : References) × (grow alloc r ≡ some g)
unfolding grow
grow-some alloc r memory = elim (Bool-cases (r.size == r.top + 1)) [
  | inl full ↦ (record r { size = r.size + chunk }, rw (full, memory) refl)
  | inr free ↦ (r, rw free refl)
]

contents-push_vector :
    (v : Vector) (s : Stack) → IsValid s → contents (push_vector v s) ≡ v.y ∷ v.x ∷ contents s
unfolding push_vector
contents-push_vector v s h =
    contents-push v.y (push v.x s) (push-IsValid v.x s h) ∙ ap (◌∷◌ v.y) (contents-push v.x s h)

-- D of a number that stands for a vector.
dereference_lem :
    (r : References) (ref : ℕ) (l : List ℕ) (ip : Ip)
    → IsValid (toss ip)
    → contents (toss ip) ≡ ref ∷ l
    → 0 < ref
    → ref < 2 ^ 63
    → ref ≤ r.top
    → let v = r.references ref in
      (contents (toss (dereference r ip)) ≡ v.y ∷ v.x ∷ l) × ((dereference r ip).delta ≡ ip.delta)
unfolding dereference
dereference_lem r ref l ip h cells pos small known =
    let st = (pop (toss ip)).1 in
    let v = r.references ref in
    let value : (pop (toss ip)).0 ≡ ref = pop_value (toss ip) ∙ ap head_or_zero cells in
    let ok : (sle ref 0 || ltb r.top ref) ≡ false = ground arith in
    rw (value, ok)
      (
        ap contents (update_self ip.stackstack.stacks ip.stackstack.current (push_vector v st))
            ∙ contents-push_vector v st (pop-IsValid (toss ip) h)
            ∙ ap (λ c. v.y ∷ v.x ∷ c) (contents-pop (toss ip) ∙ ap (drop 1) cells),
        refl,
      )

-- R on a valid stack of at least two cells, and then D, leave a stack of the same cells, the vector
-- on top, and the same delta, if the array has room for one and fewer than 2 ^ 63 - 1 references, and the system has the
-- memory; and every number that stood for a vector still stands for it.
pub dereference-reference :
    (alloc : ℕ → Bool) (x y : ℕ) (l : List ℕ) (ip : Ip) (r : References)
    → IsValid (toss ip)
    → contents (toss ip) ≡ y ∷ x ∷ l
    → HasRoom r
    → r.top + 1 < 2 ^ 63
    → alloc ((r.size + chunk) * 16) ≡ true
    → let (ip', r') = reference alloc ip r in
      (contents (toss (dereference r' ip')) ≡ y ∷ x ∷ l)
      × ((dereference r' ip').delta ≡ ip.delta)
      × Added (record { x = x; y = y }) r r'
unfolding reference
dereference-reference alloc x y l ip r h cells room fits memory =
    let (y', s₁) = pop (toss ip) in
    let (x', s₂) = pop s₁ in
    let hs : IsValid s₂ = pop-IsValid s₁ (pop-IsValid (toss ip) h) in
    let below : contents s₁ ≡ x ∷ l = contents-pop (toss ip) ∙ ap (drop 1) cells in
    let first : y' ≡ y = pop_value (toss ip) ∙ ap head_or_zero cells in
    let second : x' ≡ x = pop_value s₁ ∙ ap head_or_zero below in
    let v : Vector = record { x = x; y = y } in
    let (g, grown) = grow-some alloc r memory in
    let k = (r.top + 1) % 2 ^ 64 in
    let number : k ≡ r.top + 1 = omega arith in
    let ip₁ = set_toss s₂ ip in
    let t₁ : toss ip₁ ≡ s₂ = update_self ip.stackstack.stacks ip.stackstack.current s₂ in
    let ip' = set_toss (push k (toss ip₁)) ip₁ in
    let t' : toss ip' ≡ push k (toss ip₁) =
      update_self ip₁.stackstack.stacks ip₁.stackstack.current (push k (toss ip₁)) in
    let r' = add_reference v g in
    let added = add_reference-Added alloc v r g room grown in
    let valid : IsValid (toss ip₁) = subst⁻¹ IsValid t₁ hs in
    let d =
      dereference_lem r' k l ip' (subst⁻¹ IsValid t' (push-IsValid k (toss ip₁) valid))
        (ap contents t'
          ∙ contents-push k (toss ip₁) valid
          ∙ ap (◌∷◌ k) (ap contents t₁ ∙ contents-pop s₁ ∙ ap (drop 1) below))
        (omega arith) (omega arith) (omega (arith, added.next)) in
    let w : r'.references k ≡ v = ap r'.references number ∙ added.here in
    rw (grown, first, second) (d.0 ∙ ap (λ (z : Vector). z.y ∷ z.x ∷ l) w, d.1, added)
