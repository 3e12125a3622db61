-- ===== src/FileIo/Laws.antt =====
-- What the instruction i does with a file that it can read.
use cfunge.Prelude.{
  ℕ, ◌+◌, ◌*◌, ◌%◌, ◌^◌, ◌<◌, ◌≡◌, refl, ap, ◌∙◌, arith, Bool, true, false, Option, some, List, [],
  ◌∷◌, ◌++◌, map, drop, length, ◌==◌,
}
use cfunge.Vector.{Vector, IsVector}
use cfunge.Table.{HashLib}
use cfunge.Space.{Space, get}
use cfunge.Space.Bounds.Covers.{Covers}
use cfunge.Space.Load.Layout.{unix}
use cfunge.Space.Load.Text.{or_old}
use cfunge.Space.Load.Lines.{cell_of, unless_space}
use cfunge.Space.Load.Program.{relative, load_at_offset_lem}
use cfunge.Stack.{Stack, push, pop, push_vector, pop_vector}
use cfunge.Stack.Contents.{
  contents, IsValid, push-IsValid, pop-IsValid, contents-push, contents-pop, pop_value,
  head_or_zero,
}
use cfunge.Stack.Text.{to_byte, pop_string}
use cfunge.Stack.Text.Laws.{AllText, pop_bytes-Popped, text_of, after_text, text_of-append}
use cfunge.Ip.{Ip, toss, set_toss}
use cfunge.Ip.Toss.{toss-set_toss, set_toss-set_toss}
use cfunge.Input.{before_zero}
use cfunge.FileIo.{pop_c_string, from_storage, run_file_input}

before_zero_lem : (str : List ℕ) → AllText str → before_zero str ≡ str
unfolding before_zero
before_zero_lem [] h = refl
before_zero_lem (c ∷ cs) h = ground (arith, before_zero_lem cs h.2)

-- A stack that holds a string, a flag and a vector, after each of the three is popped.
record Pops (alloc : ℕ → Bool) (s : Stack) (str : List ℕ) (flag : ℕ) (v : Vector) (l : List ℕ)
    : Type 0 where
  below : Stack
  name : pop_c_string alloc s ≡ some (some str, below)
  value : (pop below).0 ≡ flag
  vector : (pop_vector (pop below).1).0 ≡ v
  left : contents (pop_vector (pop below).1).1 ≡ l
  valid : IsValid (pop_vector (pop below).1).1

pops :
    (alloc : ℕ → Bool) (s : Stack) (str : List ℕ) (flag : ℕ) (v : Vector) (l : List ℕ)
    → ((n : ℕ) → alloc n ≡ true)
    → AllText str
    → IsValid s
    → contents s ≡ str ++ (0 ∷ flag ∷ v.y ∷ v.x ∷ l)
    → Pops alloc s str flag v l
unfolding pop_vector pop_string
pops alloc s str flag v l memory text h cells =
    let p = pop_bytes-Popped s h in
    let split = text_of-append str (flag ∷ v.y ∷ v.x ∷ l) text in
    let named : map to_byte (text_of (contents s)) ≡ str =
      ap (λ k. map to_byte (text_of k)) cells ∙ split.0 in
    let c₀ : contents p.rest ≡ flag ∷ v.y ∷ v.x ∷ l = p.below ∙ ap after_text cells ∙ split.1 in
    let s₁ = (pop p.rest).1 in
    let s₂ = (pop s₁).1 in
    let c₁ : contents s₁ ≡ v.y ∷ v.x ∷ l = contents-pop p.rest ∙ ap (drop 1) c₀ in
    let c₂ : contents s₂ ≡ v.x ∷ l = contents-pop s₁ ∙ ap (drop 1) c₁ in
    record {
      below = p.rest;
      name =
          rw (memory ((s.top + 1) * 1), p.returns, named)
            (ap (λ k. some (some k, p.rest)) (before_zero_lem str text));
      value = pop_value p.rest ∙ ap head_or_zero c₀;
      vector = λ i. record {
        x = (pop_value s₂ ∙ ap head_or_zero c₂) i;
        y = (pop_value s₁ ∙ ap head_or_zero c₁) i;
      };
      left = contents-pop s₂ ∙ ap (drop 1) c₂;
      valid = pop-IsValid s₂ (pop-IsValid s₁ (pop-IsValid p.rest p.valid));
    }

push_vector_lem :
    (v : Vector) (s : Stack)
    → IsValid s
    → (contents (push_vector v s) ≡ v.y ∷ v.x ∷ contents s) × IsValid (push_vector v s)
unfolding push_vector
push_vector_lem v s h = (
  contents-push v.y (push v.x s) (push-IsValid v.x s h) ∙ ap (◌∷◌ v.y) (contents-push v.x s h),
  push-IsValid v.y (push v.x s) (push-IsValid v.x s h),
)

module _ (lib : HashLib) where
  -- i outside the sandbox, for text, on a valid stack with a name of bytes that are not 0, at least
  -- one, its 0, an even flag and a vector, where memory can be had and the file of that name can be
  -- read and has less than 2 ^ 64 bytes, and with a covered space: it leaves the rest of the stack
  -- with a size and on it the vector, and keeps the delta. A cell reads the byte in its column and
  -- row from the vector plus the storage offset, if there is one and it is no space, and else what
  -- it was; the box again holds every cell that is not a space.
  pub run_file_input_lem :
      (alloc : ℕ → Bool) (file : List ℕ → Option (List ℕ)) (c : ℕ) (cs bytes : List ℕ) (flag : ℕ)
      (offset size : Vector) (l : List ℕ) (ip : Ip) (s : Space lib)
      → ((n : ℕ) → alloc n ≡ true)
      → AllText (c ∷ cs)
      → file (c ∷ cs) ≡ some bytes
      → length bytes < 2 ^ 64
      → flag % 2 ≡ 0
      → IsValid (toss ip)
      → contents (toss ip) ≡ c ∷ cs ++ (0 ∷ flag ∷ offset.y ∷ offset.x ∷ l)
      → Covers lib s
      → (ip' : Ip) × (t : Space lib) × (read : Vector) × (run_file_input lib false alloc file size
            ip s
          ≡ some (ip', t))
        × (contents (toss ip') ≡ offset.y ∷ offset.x ∷ read.y ∷ read.x ∷ l)
        × (ip'.delta ≡ ip.delta)
        × ((q : Vector)
            → IsVector q
            → let k = relative (from_storage offset ip) q in
              get lib t q
              ≡ or_old (unless_space (cell_of (unix false bytes) k.x k.y)) (get lib s q))
        × Covers lib t
  unfolding run_file_input
  run_file_input_lem alloc file c cs bytes flag offset size l ip s memory text found short even h
        cells covers =
      let p = pops alloc (toss ip) (c ∷ cs) flag offset l memory text h cells in
      let at = from_storage offset ip in
      let (read, t, loads, reads, covers') =
        load_at_offset_lem lib at (record { x_cell = omega arith; y_cell = omega arith }) bytes size
          s short covers in
      let u = (pop_vector (pop p.below).1).1 in
      let (c₁, h₁) = push_vector_lem read u p.valid in
      let (c₂, h₂) = push_vector_lem offset (push_vector read u) h₁ in
      let text_mode : ((flag % 2) == 1) ≡ false = ground arith in
      (
        set_toss (push_vector offset (push_vector read u)) ip,
        t,
        read,
        rw (p.name, p.value, p.vector, text_mode, found, loads, toss-set_toss u ip)
            (ap (λ x. some (x, t))
              (set_toss-set_toss u (push_vector offset (push_vector read u)) ip)),
        ap contents (toss-set_toss (push_vector offset (push_vector read u)) ip)
            ∙ c₂
            ∙ ap (λ k. offset.y ∷ offset.x ∷ k) (c₁ ∙ ap (λ k. read.y ∷ read.x ∷ k) p.left),
        refl,
        reads,
        covers',
      )
