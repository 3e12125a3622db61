-- ===== src/Space/Load/Lines.antt =====
-- The layout of a text, read by lines.
use cfunge.Prelude.{
  ℕ, zero, suc, ◌+◌, ◌-◌, ◌^◌, ◌<◌, ◌≡◌, ◌≢◌, refl, sym, ap, ap₂, ◌∙◌, arith, Bool, true, not, ◌&&◌,
  Option, none, some, List, [], ◌∷◌, ◌==◌, ltb, if◌then◌else◌, length, get_or, Bool-cases, inl, inr,
}
use cfunge.Cell.{add, space}
use cfunge.Vector.{Vector, same_vector}
use cfunge.Space.Load.{line_feed, next_line, next_column}
use cfunge.Space.Load.Layout.{or_else, placed}

-- A byte put in front of the first line.
abbrev pub on_first : ℕ → List (List ℕ) → List (List ℕ)
on_first c [] = (c ∷ []) ∷ []
on_first c (l ∷ ls) = (c ∷ l) ∷ ls

abbrev pub lines : List ℕ → List (List ℕ)
lines [] = [] ∷ []
lines (c ∷ cs) = if c == line_feed then [] ∷ lines cs else on_first c (lines cs)

-- The cell in a column and a row of a text; beyond the end of a line or of the text it is a space.
abbrev pub cell_of : List ℕ → ℕ → ℕ → ℕ
cell_of text x y = get_or (get_or (lines text) y []) x space

-- The same for lines of which the first one begins in a column and a row.
abbrev cell_from : List (List ℕ) → ℕ → ℕ → ℕ → ℕ → ℕ
cell_from ls x₀ y₀ x y =
    if ltb y y₀
    then space
    else if y == y₀
    then (if ltb x x₀ then space else get_or (get_or ls 0 []) (x - x₀) space)
    else get_or (get_or ls (y - y₀) []) x space

abbrev pub unless_space : ℕ → Option ℕ
unless_space c = if c == space then none else some c

get_or-drop_one {ℓ} :
    {A : Type ℓ} → (a d : A) (l : List A) (n : ℕ) → n ≢ 0 → get_or (a ∷ l) n d ≡ get_or l (n - 1) d
get_or-drop_one a d l zero h = absurd (h refl)
get_or-drop_one a d l (suc n) h = ap (λ k. get_or l k d) (omega arith)

break_cell :
    (ls : List (List ℕ)) (x₀ y₀ x y : ℕ)
    → cell_from ls 0 (y₀ + 1) x y ≡ cell_from ([] ∷ ls) x₀ y₀ x y
break_cell ls x₀ y₀ x y = ground (
  arith,
  get_or-drop_one {A = List ℕ} [] [] ls (y - y₀),
  ap (λ (k : ℕ). get_or (get_or ls k []) x space),
  ap (λ (k : ℕ). get_or (get_or ls 0 []) k space),
)

next_cell :
    (c : ℕ) (ls : List (List ℕ)) (x₀ y₀ x y : ℕ)
    → cell_from (on_first c ls) x₀ y₀ x y
      ≡ (if x == x₀ && y == y₀ then c else cell_from ls (x₀ + 1) y₀ x y)
next_cell c [] x₀ y₀ x y = ground (
  arith,
  get_or-drop_one c space [] (x - x₀),
  get_or-drop_one {A = List ℕ} (c ∷ []) [] [] (y - y₀),
)
next_cell c (l ∷ ls) x₀ y₀ x y = ground (
  arith,
  get_or-drop_one c space l (x - x₀),
  get_or-drop_one {A = List ℕ} (c ∷ l) [] ls (y - y₀),
  get_or-drop_one {A = List ℕ} l [] ls (y - y₀),
  ap (λ (k : ℕ). get_or l k space),
)

or_else-none : (r : Option ℕ) → or_else r none ≡ r
or_else-none none = refl
or_else-none (some v) = refl

-- A cell before the first one of some lines is a space to them.
before_first : (ls : List (List ℕ)) (x₀ y₀ : ℕ) → cell_from ls (x₀ + 1) y₀ x₀ y₀ ≡ space
before_first ls x₀ y₀ = ground arith

choose :
    (here : Bool) (c d : ℕ)
    → (here ≡ true → d ≡ space)
    → or_else (unless_space d) (if not (c == space) && here then some c else none)
      ≡ unless_space (if here then c else d)
choose here c d h = ground arith

same_iff : (p q : Vector) → same_vector p q ≡ (q.x == p.x && q.y == p.y)
unfolding same_vector
same_iff p q = ground arith

at_first :
    (ls : List (List ℕ)) (p q : Vector)
    → (q.x == p.x && q.y == p.y) ≡ true
    → cell_from ls (p.x + 1) p.y q.x q.y ≡ space
at_first ls p q h =
    let same : (q.x ≡ p.x) × (q.y ≡ p.y) = ground arith in
    ap (λ k. cell_from ls (p.x + 1) p.y k q.y) same.0
    ∙ ap (λ k. cell_from ls (p.x + 1) p.y p.x k) same.1
    ∙ before_first ls p.x p.y

-- What the layout puts at a cell, if no coordinate wraps.
placed_lem :
    (cs : List ℕ) (p q : Vector)
    → p.x + length cs < 2 ^ 64
    → p.y + length cs < 2 ^ 64
    → placed (λ v. v) cs p q ≡ unless_space (cell_from (lines cs) p.x p.y q.x q.y)
placed_lem [] p q hx hy = ground arith
placed_lem (c ∷ cs) p q hx hy = elim (Bool-cases (c == line_feed)) [
  | inl e ↦
      let row : add p.y 1 ≡ p.y + 1 = omega arith in
      rw e (
        or_else-none (placed (λ v. v) cs (next_line p) q)
        ∙ placed_lem cs (next_line p) q (omega arith) (omega arith)
        ∙ ap (λ k. unless_space (cell_from (lines cs) 0 k q.x q.y)) row
        ∙ ap unless_space (break_cell (lines cs) p.x p.y q.x q.y))
  | inr e ↦
      let column : add p.x 1 ≡ p.x + 1 = omega arith in
      let here = q.x == p.x && q.y == p.y in
      rw e (
        ap₂ (λ r b. or_else r (if not (c == space) && b then some c else none))
          (placed_lem cs (next_column p) q (omega arith) (omega arith)
            ∙ ap (λ k. unless_space (cell_from (lines cs) k p.y q.x q.y)) column)
          (same_iff p q)
        ∙ choose here c (cell_from (lines cs) (p.x + 1) p.y q.x q.y) (at_first (lines cs) p q)
        ∙ ap unless_space (sym (next_cell c (lines cs) p.x p.y q.x q.y)))
]

cell_from_origin :
    (ls : List (List ℕ)) (x y : ℕ) → cell_from ls 0 0 x y ≡ get_or (get_or ls y []) x space
cell_from_origin ls x y = ground (
  arith,
  ap (λ (k : ℕ). get_or (get_or ls 0 []) k space),
  ap (λ (k : ℕ). get_or (get_or ls k []) x space),
)

abbrev pub origin : Vector
origin = record { x = 0; y = 0 }

-- A text of less than 2 ^ 64 bytes from the origin puts its lines in the rows.
pub placed-cell_of :
    (cs : List ℕ) (q : Vector)
    → length cs < 2 ^ 64
    → placed (λ v. v) cs origin q ≡ unless_space (cell_of cs q.x q.y)
placed-cell_of cs q h =
    placed_lem cs origin q (omega arith) (omega arith)
    ∙ ap unless_space (cell_from_origin (lines cs) q.x q.y)
