-- ===== src/Stack/Text/Laws.antt =====
-- What `stack_push_string` and `stack_pop_string` do to the cells of the stack.
use native.Mathlib.Nat.{sub-zero}
use mathlib.Core.Option
use mathlib.Core.Path.{subst⁻¹}
use cfunge.Prelude.{
  ℕ, zero, suc, ◌+◌, ◌-◌, ◌^◌, ◌≤◌, ◌<◌, ◌≡◌, ◌≢◌, refl, sym, ap, ap₂, ◌∙◌, ◌*◌, Bool, Option, some,
  List, [], ◌∷◌, ◌++◌, map, ◌==◌, ==_iff, if◌then◌else◌, get_or, length, drop, arith, update,
  Bool-cases, inl, inr, true, false,
}
use cfunge.Stack.{Stack, store, prealloc_space, pop, strlen_from, strlen}
use cfunge.Stack.Contents.{
  contents, IsValid, down, down-update_top, prealloc_space_room, contents-prealloc_space,
  head_or_zero, pop_value, contents-pop, pop-IsValid, length-contents,
}
use cfunge.Stack.Text.{fill, push_string, pop_until_zero, to_byte, pop_bytes, pop_cells, pop_string}

-- The bytes below `n`, in front of a list.
spread : (ℕ → ℕ) → ℕ → List ℕ → List ℕ
spread g zero rest = rest
spread g (suc n) rest = spread g n (g n ∷ rest)

spread-suc :
    (g : ℕ → ℕ) (n : ℕ) (rest : List ℕ)
    → spread g (suc n) rest ≡ g 0 ∷ spread (λ i. g (suc i)) n rest
unfolding spread
spread-suc g zero rest = refl
spread-suc g (suc n) rest = spread-suc g n (g (suc n) ∷ rest)

spread-get_or : (str rest : List ℕ) → spread (λ i. get_or str i 0) (length str) rest ≡ str ++ rest
spread-get_or [] rest = unfold spread in refl
spread-get_or (x ∷ str) rest =
    spread-suc (λ i. get_or (x ∷ str) i 0) (length str) rest
    ∙ ap (λ l. x ∷ l) (spread-get_or str rest)

get_or-length : (str : List ℕ) → get_or str (length str) 0 ≡ 0
get_or-length [] = refl
get_or-length (x ∷ str) = get_or-length str

sub_suc : (n k : ℕ) → n - k ≡ suc n - suc k
sub_suc n k = omega arith

top_eq : (n l : ℕ) → n + (l + 1) ≡ suc (n + l)
top_eq n l = omega arith

spread_end : (str l : List ℕ) → spread (λ i. get_or str i 0) (suc (length str)) l ≡ str ++ (0 ∷ l)
unfolding spread
spread_end str l =
    ap (λ v. spread (λ i. get_or str i 0) (length str) (v ∷ l)) (get_or-length str)
    ∙ spread-get_or str (0 ∷ l)

-- One round writes just below what the rounds before it wrote.
down-store :
    (i v m : ℕ) (s : Stack)
    → i < s.size
    → m ≡ suc i
    → down (store i v s).entries m ≡ v ∷ down s.entries i
down-store i v m s h e =
    ap (λ t. down t.entries m) stored
    ∙ ap (down (update s.entries i v)) e
    ∙ down-update_top s.entries v i
  where
    stored : store i v s ≡ record s { entries = update s.entries i v }
    stored = unfold store in ground arith

size-store : (i v : ℕ) (s : Stack) → (store i v s).size ≡ s.size
unfolding store
size-store i v s = ground arith

down-fill :
    (n top : ℕ) (g : ℕ → ℕ) (s : Stack)
    → n ≤ suc top
    → top < s.size
    → down (fill n top g s).entries (suc top) ≡ spread g n (down s.entries (suc top - n))
unfolding fill spread
down-fill zero top g s fits room = rw sub-zero
down-fill (suc n) top g s fits room =
    down-fill n top g (store (top - n) (g n) s) (omega arith) (rw size-store room)
    ∙ ap (spread g n) (
        down-store (top - n) (g n) (suc top - n) s (omega arith) (omega arith)
        ∙ ap (λ k. g n ∷ down s.entries k) (sub_suc top n))

sub_self : (n l : ℕ) → suc (n + l) - suc l ≡ n
sub_self n l = omega arith

-- `stack_push_string` leaves the string on top of the old cells, its first byte highest, and the
-- 0 that ends it below it.
pub contents-push_string :
    (str : List ℕ) (s : Stack) → IsValid s → contents (push_string str s) ≡ str ++ (0 ∷ contents s)
unfolding push_string
contents-push_string str s h =
    let len = length str in
    let t = prealloc_space (len + 1) s in
    let room = prealloc_space_room (len + 1) s h in
    ap (down (fill (suc len) (t.top + len) (λ i. get_or str i 0) t).entries) (top_eq t.top len)
    ∙ down-fill (suc len) (t.top + len) (λ i. get_or str i 0) t (omega arith) (omega arith)
    ∙ ap (λ k. spread (λ i. get_or str i 0) (suc len) (down t.entries k)) (sub_self t.top len)
    ∙ spread_end str (contents t)
    ∙ ap (λ l. str ++ (0 ∷ l)) (contents-prealloc_space (len + 1) s)

size-fill : (n top : ℕ) (g : ℕ → ℕ) (s : Stack) → (fill n top g s).size ≡ s.size
unfolding fill
size-fill zero top g s = refl
size-fill (suc n) top g s =
    size-fill n top g (store (top - n) (g n) s) ∙ size-store (top - n) (g n) s

pub push_string-IsValid : (str : List ℕ) (s : Stack) → IsValid s → IsValid (push_string str s)
unfolding push_string
push_string-IsValid str s h =
    let len = length str in
    let t = prealloc_space (len + 1) s in
    ground (
      arith,
      prealloc_space_room (len + 1) s h,
      size-fill (suc len) (t.top + len) (λ i. get_or str i 0) t,
    )

-- The cells above the first 0, and those below it.
abbrev pub text_of : List ℕ → List ℕ
text_of [] = []
text_of (x ∷ l) = if x == 0 then [] else x ∷ text_of l

abbrev pub after_text : List ℕ → List ℕ
after_text [] = []
after_text (x ∷ l) = if x == 0 then l else after_text l

text_zero : (l : List ℕ) → head_or_zero l ≡ 0 → (text_of l ≡ []) × (after_text l ≡ drop 1 l)
text_zero [] h = (refl, refl)
text_zero (x ∷ l) h = ground arith

text_next :
    (l : List ℕ)
    → head_or_zero l ≢ 0
    → (text_of l ≡ head_or_zero l ∷ text_of (drop 1 l))
      × (after_text l ≡ after_text (drop 1 l))
      × (length l ≡ suc (length (drop 1 l)))
text_next [] h = absurd (h refl)
text_next (x ∷ l) h = ground arith

-- What a loop that pops a string returns.
pub record Popped (convert : ℕ → ℕ) (s : Stack) (result : Option (List ℕ × Stack)) : Type 0 where
  pub rest : Stack
  pub returns : result ≡ some (map convert (text_of (contents s)), rest)
  pub below : contents rest ≡ after_text (contents s)
  pub valid : IsValid rest

ends_at_zero :
    (convert : ℕ → ℕ) (s : Stack)
    → IsValid s
    → ((pop s).0 == 0) ≡ true
    → Popped convert s (some ([], (pop s).1))
ends_at_zero convert s v e =
    let z = text_zero (contents s) (sym (pop_value s) ∙ (==_iff _ _).0 e) in
    record {
      rest = (pop s).1;
      returns = ap (λ l. some (map convert l, (pop s).1)) (sym z.0);
      below = contents-pop s ∙ sym z.1;
      valid = pop-IsValid s v;
    }

goes_on_below :
    (convert : ℕ → ℕ) (fuel : ℕ) (s : Stack)
    → ((pop s).0 == 0) ≡ false
    → Popped convert (pop s).1 (pop_until_zero convert fuel (pop s).1)
    → Popped convert s (
        Option.map (λ (cs, u). (convert (pop s).0 ∷ cs, u)) (pop_until_zero convert fuel (pop s).1))
goes_on_below convert fuel s e p =
    let n = text_next (contents s) (ground (arith, pop_value s)) in
    let shorter = ap text_of (contents-pop s) in
    record {
      rest = p.rest;
      returns =
          ap (Option.map (λ (cs, u). (convert (pop s).0 ∷ cs, u))) p.returns
          ∙ ap (λ l. some (map convert l, p.rest)) (ap₂ ◌∷◌ (pop_value s) shorter ∙ sym n.0);
      below = p.below ∙ ap after_text (contents-pop s) ∙ sym n.1;
      valid = p.valid;
    }

pop_until_zero-Popped :
    (convert : ℕ → ℕ) (fuel : ℕ) (s : Stack)
    → IsValid s
    → length (contents s) < fuel
    → Popped convert s (pop_until_zero convert fuel s)
unfolding pop_until_zero
pop_until_zero-Popped convert zero s v h = absurd (omega arith)
pop_until_zero-Popped convert (suc fuel) s v h = elim (Bool-cases ((pop s).0 == 0)) [
  | inl e ↦ rw e (ends_at_zero convert s v e)
  | inr e ↦ rw e (
      goes_on_below convert fuel s e (
        pop_until_zero-Popped convert fuel (pop s).1 (pop-IsValid s v)
          (ground (arith, text_next (contents s), pop_value s, ap length (contents-pop s)))))
]

-- The loop of `stack_pop_string` ends, and returns the cells above the first 0, cut to bytes; that 0 goes too,
-- and an empty stack counts as one of zeros.
pub pop_bytes-Popped : (s : Stack) → IsValid s → Popped to_byte s (pop_bytes s)
unfolding pop_bytes
pop_bytes-Popped s v =
    pop_until_zero-Popped to_byte (s.top + 1) s v (omega (arith, length-contents s))

pub pop_cells-Popped : (s : Stack) → IsValid s → Popped (λ c. c) s (pop_cells s)
unfolding pop_cells
pop_cells-Popped s v =
    pop_until_zero-Popped (λ c. c) (s.top + 1) s v (omega (arith, length-contents s))

abbrev pub AllText : List ℕ → Type 0
AllText [] = Unit {0}
AllText (x ∷ l) = (x ≢ 0) × (x < 2 ^ 8) × AllText l

pub text_of-append :
    (str l : List ℕ)
    → AllText str
    → (map to_byte (text_of (str ++ (0 ∷ l))) ≡ str) × (after_text (str ++ (0 ∷ l)) ≡ l)
text_of-append [] l h = (refl, refl)
text_of-append (x ∷ str) l h = ground (arith, text_of-append str l h.2)

-- A string of bytes without 0 comes back from the stack as it was pushed, where memory for it can
-- be had, and leaves the stack with the cells that it had.
pub pop_string-push_string :
    (alloc : ℕ → Bool) (str : List ℕ) (s : Stack)
    → IsValid s
    → AllText str
    → alloc ((push_string str s).top + 1) ≡ true
    → (t : Stack) × (pop_string alloc (push_string str s) ≡ some (some str, t))
      × (contents t ≡ contents s)
unfolding pop_string
pop_string-push_string alloc str s v h memory =
    let p = pop_bytes-Popped (push_string str s) (push_string-IsValid str s v) in
    let pushed = contents-push_string str s v in
    let r = text_of-append str (contents s) h in
    let same = ap (λ l. map to_byte (text_of l)) pushed ∙ r.0 in
    let enough : alloc (((push_string str s).top + 1) * 1) ≡ true =
      subst⁻¹ (λ n. alloc n ≡ true) (omega arith) memory in
    (p.rest, rw (enough, p.returns, same) refl, p.below ∙ ap after_text pushed ∙ r.1)

strlen_from_lem :
    (entries : ℕ → ℕ) (top i : ℕ)
    → i ≤ top
    → strlen_from entries top i ≡ top - i + length (text_of (down entries i))
unfolding strlen_from
strlen_from_lem entries top zero h = omega arith
strlen_from_lem entries top (suc i) h = ground (arith, strlen_from_lem entries top i)

-- `stack_strlen` is the length of the string that `stack_pop_string` would return.
pub strlen_lem : (s : Stack) → strlen s ≡ length (text_of (contents s))
unfolding strlen
strlen_lem s = omega (arith, strlen_from_lem s.entries s.top s.top)
