-- ===== src/Space/Save/Text.antt =====
-- The cells of a text, byte by byte and without the line feeds at its end.
use cfunge.Prelude.{
  ℕ, zero, suc, ◌≡◌, refl, sym, ap, ◌∙◌, Bool, true, false, List, [], ◌∷◌, ◌==◌, get_or, Bool-cases,
  inl, inr,
}
use cfunge.Cell.{space}
use cfunge.Space.Load.{line_feed}
use cfunge.Space.Load.Lines.{on_first, lines, cell_of}
use cfunge.Space.Save.{cut, trim}

-- The cell of a text with a byte more in front.
abbrev pub front : Bool → ℕ → (ℕ → ℕ → ℕ) → ℕ → ℕ → ℕ
front true c f x zero = space
front true c f x (suc y) = f x y
front false c f zero zero = c
front false c f (suc x) zero = f x 0
front false c f x (suc y) = f x (suc y)

on_first-front :
    (c : ℕ) (ls : List (List ℕ)) (x y : ℕ)
    → get_or (get_or (on_first c ls) y []) x space
      ≡ front false c (λ i j. get_or (get_or ls j []) i space) x y
on_first-front c [] zero zero = refl
on_first-front c [] (suc x) zero = refl
on_first-front c [] zero (suc y) = refl
on_first-front c [] (suc x) (suc y) = refl
on_first-front c (l ∷ ls) zero zero = refl
on_first-front c (l ∷ ls) (suc x) zero = refl
on_first-front c (l ∷ ls) zero (suc y) = refl
on_first-front c (l ∷ ls) (suc x) (suc y) = refl

pub cell_of-front :
    (c : ℕ) (cs : List ℕ) (x y : ℕ)
    → cell_of (c ∷ cs) x y ≡ front (c == line_feed) c (cell_of cs) x y
cell_of-front c cs x y = elim (Bool-cases (c == line_feed)) [
  | inl e ↦ rw e (ends_line x y)
  | inr e ↦ rw e (on_first-front c (lines cs) x y)
]
  where
    ends_line :
        (i j : ℕ) → get_or (get_or ([] ∷ lines cs) j []) i space ≡ front true c (cell_of cs) i j
    ends_line i zero = refl
    ends_line i (suc j) = refl

front-ext :
    (b : Bool) (c : ℕ) (f g : ℕ → ℕ → ℕ) (x y : ℕ)
    → ((i j : ℕ) → f i j ≡ g i j)
    → front b c f x y ≡ front b c g x y
front-ext true c f g x zero h = refl
front-ext true c f g x (suc y) h = h x y
front-ext false c f g zero zero h = refl
front-ext false c f g (suc x) zero h = h x 0
front-ext false c f g zero (suc y) h = h zero (suc y)
front-ext false c f g (suc x) (suc y) h = h (suc x) (suc y)

pub no_text : (x y : ℕ) → cell_of [] x y ≡ space
no_text x zero = refl
no_text x (suc y) = refl

front-space : (c x y : ℕ) → space ≡ front true c (λ i j. space) x y
front-space c x zero = refl
front-space c x (suc y) = refl

cell_of-cut :
    (b : Bool) (c : ℕ) (cs rest : List ℕ) (x y : ℕ)
    → (c == line_feed) ≡ b
    → ((i j : ℕ) → cell_of rest i j ≡ cell_of cs i j)
    → cell_of (cut b c rest) x y ≡ cell_of (c ∷ cs) x y
cell_of-cut true c cs [] x y e h =
    no_text x y
    ∙ front-space c x y
    ∙ front-ext true c (λ i j. space) (cell_of cs) x y (λ i j. sym (no_text i j) ∙ h i j)
    ∙ ap (λ b. front b c (cell_of cs) x y) (sym e)
    ∙ sym (cell_of-front c cs x y)
cell_of-cut true c cs (d ∷ ds) x y e h =
    cell_of-front c (d ∷ ds) x y
    ∙ front-ext (c == line_feed) c (cell_of (d ∷ ds)) (cell_of cs) x y h
    ∙ sym (cell_of-front c cs x y)
cell_of-cut false c cs rest x y e h =
    cell_of-front c rest x y
    ∙ front-ext (c == line_feed) c (cell_of rest) (cell_of cs) x y h
    ∙ sym (cell_of-front c cs x y)

-- Line feeds at the end of a text put nothing anywhere.
pub cell_of-trim :
    (cs : List ℕ) (x y : ℕ) → cell_of (trim (λ c. c == line_feed) cs) x y ≡ cell_of cs x y
unfolding trim
cell_of-trim [] x y = refl
cell_of-trim (c ∷ cs) x y =
    cell_of-cut (c == line_feed) c cs (trim (λ d. d == line_feed) cs) x y refl (cell_of-trim cs)
