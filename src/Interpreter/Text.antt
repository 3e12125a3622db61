-- ===== src/Interpreter/Text.antt =====
-- String mode: the cells that `handle_string_mode` pushes for a text.
use cfunge.Prelude.{
  ℕ, ◌≡◌, ◌≢◌, refl, sym, ap, ◌∙◌, arith, Bool, true, false, ◌&&◌, List, [], ◌∷◌, ◌==◌,
  if◌then◌else◌, Bool-cases, inl, inr,
}
use cfunge.Cell.{space}
use cfunge.Stack.{push}
use cfunge.Stack.Contents.{contents, IsValid, contents-push, push-IsValid}
use cfunge.Ip.Toss.{toss-set_toss}
use cfunge.Ip.{Ip, string_mode, toss, set_toss}
use cfunge.Interpreter.Moves.{begin_string}
use cfunge.Interpreter.Execute.{handle_string_mode}

-- The text of one line in string mode, cell by cell.
abbrev pub read_text : Bool → List ℕ → Ip → Ip
read_text befunge93 [] ip = ip
read_text befunge93 (c ∷ cs) ip = read_text befunge93 cs (handle_string_mode befunge93 c ip).1

-- A text without each space that follows a space; `prev` is what stands before it.
abbrev pub unrepeated : ℕ → List ℕ → List ℕ
unrepeated prev [] = []
unrepeated prev (c ∷ cs) =
    if c == space && prev == space then unrepeated c cs else c ∷ unrepeated c cs

-- The cells of a list put on another one by one.
abbrev pub onto : List ℕ → List ℕ → List ℕ
onto [] l = l
onto (c ∷ cs) l = onto cs (c ∷ l)

abbrev pub NoQuote : List ℕ → Type 0
NoQuote [] = Unit {0}
NoQuote (c ∷ cs) = (c ≢ b'"') × NoQuote cs

-- The state of string mode after `prev`, with some cells on the stack.
record Reading (ip : Ip) (prev : ℕ) (l : List ℕ) : Type 0 where
  mode : ip.mode ≡ string_mode
  last : ip.string_last_was_space ≡ (prev == space)
  cells : contents (toss ip) ≡ l
  valid : IsValid (toss ip)

pushed :
    (c prev : ℕ) (flag : Bool) (ip : Ip) (l : List ℕ)
    → flag ≡ (c == space)
    → Reading ip prev l
    → Reading (record (set_toss (push c (toss ip)) ip) { string_last_was_space = flag }) c (c ∷ l)
pushed c prev flag ip l f r =
    let new = toss-set_toss (push c (toss ip)) ip in
    record {
      mode = r.mode;
      last = f;
      cells = ap contents new ∙ contents-push c (toss ip) r.valid ∙ ap (λ k. c ∷ k) r.cells;
      valid = rw new (push-IsValid c (toss ip) r.valid);
    }

one_cell :
    (c prev : ℕ) (ip : Ip) (l : List ℕ)
    → c ≢ b'"'
    → Reading ip prev l
    → Reading (handle_string_mode false c ip).1 c (if c == space && prev == space then l else c ∷ l)
unfolding handle_string_mode
one_cell c prev ip l ne r =
    let text : (c == b'"') ≡ false = ground arith in
    elim (Bool-cases (c == space)) [
      | inr other ↦ rw (text, other) (pushed c prev false ip l (sym other) r)
      | inl blank ↦ elim (Bool-cases (prev == space)) [
        | inl again ↦
            let last : ip.string_last_was_space ≡ true = r.last ∙ again in
            rw (text, blank, again, last)
              (record { mode = r.mode; last = sym blank; cells = r.cells; valid = r.valid })
        | inr first ↦
            let last : ip.string_last_was_space ≡ false = r.last ∙ first in
            rw (text, blank, first, last) (pushed c prev true ip l (sym blank) r)
      ]
    ]

onto_if :
    (b : Bool) (c : ℕ) (cs l : List ℕ)
    → onto cs (if b then l else c ∷ l) ≡ onto (if b then cs else c ∷ cs) l
onto_if true c cs l = refl
onto_if false c cs l = refl

read_text_lem :
    (cs : List ℕ) (prev : ℕ) (ip : Ip) (l : List ℕ)
    → NoQuote cs
    → Reading ip prev l
    → contents (toss (read_text false cs ip)) ≡ onto (unrepeated prev cs) l
read_text_lem [] prev ip l h r = r.cells
read_text_lem (c ∷ cs) prev ip l h r =
    let m = if c == space && prev == space then l else c ∷ l in
    read_text_lem cs c (handle_string_mode false c ip).1 m h.1 (one_cell c prev ip l h.0 r)
    ∙ onto_if (c == space && prev == space) c (unrepeated c cs) l

-- From the instruction that begins string mode on, a text without quotes leaves its cells on the
-- stack, with one space for each run of spaces.
pub contents-read_text :
    (cs : List ℕ) (ip : Ip)
    → NoQuote cs
    → IsValid (toss ip)
    → contents (toss (read_text false cs (begin_string ip)))
      ≡ onto (unrepeated b'"' cs) (contents (toss ip))
unfolding begin_string
contents-read_text cs ip h v =
    read_text_lem cs b'"' (begin_string ip) (contents (toss ip)) h
      (record { mode = refl; last = refl; cells = refl; valid = v })
