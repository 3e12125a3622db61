-- ===== src/Space/Save/Rows.antt =====
-- The lines of a text that was saved, and the rows of the area.
use cfunge.Prelude.{
  ℕ, zero, suc, ◌<◌, ◌≡◌, refl, sym, ap, ap₂, ◌∙◌, arith, Bool, true, false, List, [], ◌∷◌, ◌++◌,
  map, ◌==◌, get_or, inl, inr, ◌⊎◌,
}
use mathlib.Core.Path.{subst⁻¹}
use cfunge.Cell.{space}
use cfunge.Space.Load.{ends, other, kind, line_feed}
use cfunge.Space.Load.Layout.{unix}
use cfunge.Space.Load.Lines.{cell_of}
use cfunge.Space.Save.{cut, trim, to_byte, write_rows, text_of}
use cfunge.Space.Save.Text.{front, cell_of-front, no_text, cell_of-trim}

-- A cell that a text can hold: a byte that is no line end and no form feed.
pub record IsText (c : ℕ) : Type 0 where
  pub byte : c < 256
  pub plain : kind c ≡ other

pub data Each (P : ℕ → Type 0) : List ℕ → Type 0 where
  none_left : Each P []
  more : {c : ℕ} {cs : List ℕ} → P c → Each P cs → Each P (c ∷ cs)

abbrev pub AllText : List ℕ → Type 0
AllText cs = Each IsText cs

IsText-line_feed : (c : ℕ) → IsText c → (c == line_feed) ≡ false
unfolding kind
IsText-line_feed c h = ground (arith, h.plain)

to_byte_text : (c : ℕ) → IsText c → to_byte c ≡ c
to_byte_text c h = omega (arith, h.byte)

map-to_byte : (cs : List ℕ) → AllText cs → map to_byte cs ≡ cs
map-to_byte [] none_left = refl
map-to_byte (c ∷ cs) (more h hs) = ap₂ ◌∷◌ (to_byte_text c h) (map-to_byte cs hs)

first_line :
    (c : ℕ) (row : List ℕ) (f : ℕ → ℕ → ℕ) (x : ℕ)
    → ((i : ℕ) → f i 0 ≡ get_or row i space)
    → front false c f x 0 ≡ get_or (c ∷ row) x space
first_line c row f zero h = refl
first_line c row f (suc x) h = h x

later_line :
    (c y : ℕ) (f g : ℕ → ℕ → ℕ) (x : ℕ)
    → ((i : ℕ) → f i (suc y) ≡ g i y)
    → front false c f x (suc y) ≡ g x y
later_line c y f g zero h = h zero
later_line c y f g (suc x) h = h (suc x)

-- A line and the text behind it.
cell_of_line :
    (row rest : List ℕ) (x y : ℕ)
    → AllText row
    → cell_of (row ++ (line_feed ∷ rest)) x y
      ≡ elim y [ zero ↦ get_or row x space | suc k ↦ cell_of rest x k ]
cell_of_line [] rest x zero none_left = refl
cell_of_line [] rest x (suc y) none_left = refl
cell_of_line (c ∷ row) rest x zero (more h hs) =
    cell_of-front c (row ++ (line_feed ∷ rest)) x 0
    ∙ ap (λ b. front b c (cell_of (row ++ (line_feed ∷ rest))) x 0) (IsText-line_feed c h)
    ∙ first_line c row (cell_of (row ++ (line_feed ∷ rest))) x
        (λ i. cell_of_line row rest i zero hs)
cell_of_line (c ∷ row) rest x (suc y) (more h hs) =
    cell_of-front c (row ++ (line_feed ∷ rest)) x (suc y)
    ∙ ap (λ b. front b c (cell_of (row ++ (line_feed ∷ rest))) x (suc y)) (IsText-line_feed c h)
    ∙ later_line c y (cell_of (row ++ (line_feed ∷ rest))) (cell_of rest) x
        (λ i. cell_of_line row rest i (suc y) hs)

-- Spaces at the end of a row put nothing anywhere.
get_or-cut :
    (b : Bool) (c : ℕ) (cs rest : List ℕ) (x : ℕ)
    → (c == space) ≡ b
    → ((i : ℕ) → get_or rest i space ≡ get_or cs i space)
    → get_or (cut b c rest) x space ≡ get_or (c ∷ cs) x space
get_or-cut true c cs [] zero e h = ground arith
get_or-cut true c cs [] (suc x) e h = h x
get_or-cut true c cs (d ∷ ds) zero e h = refl
get_or-cut true c cs (d ∷ ds) (suc x) e h = h x
get_or-cut false c cs rest zero e h = refl
get_or-cut false c cs rest (suc x) e h = h x

get_or-trim : (cs : List ℕ) (x : ℕ) → get_or (trim (λ c. c == space) cs) x space ≡ get_or cs x space
unfolding trim
get_or-trim [] x = refl
get_or-trim (c ∷ cs) x =
    get_or-cut (c == space) c cs (trim (λ d. d == space) cs) x refl (get_or-trim cs)

cut-Each :
    (P : ℕ → Type 0) (b : Bool) (c : ℕ) (rest : List ℕ) → P c → Each P rest → Each P (cut b c rest)
cut-Each P true c [] h hs = none_left
cut-Each P true c (d ∷ ds) h hs = more h hs
cut-Each P false c rest h hs = more h hs

trim-Each : (P : ℕ → Type 0) (p : ℕ → Bool) (cs : List ℕ) → Each P cs → Each P (trim p cs)
unfolding trim
trim-Each P p [] none_left = none_left
trim-Each P p (c ∷ cs) (more h hs) = cut-Each P (p c) c (trim p cs) h (trim-Each P p cs hs)

pub data AllRows : List (List ℕ) → Type 0 where
  no_row : AllRows []
  row_more : {r : List ℕ} {rs : List (List ℕ)} → AllText r → AllRows rs → AllRows (r ∷ rs)

row_by_row :
    (r : List ℕ) (rs : List (List ℕ)) (f : ℕ → ℕ) (x y : ℕ)
    → ((j : ℕ) → f j ≡ get_or (get_or rs j []) x space)
    → elim y [ zero ↦ get_or (trim (λ c. c == space) r) x space | suc k ↦ f k ]
      ≡ get_or (get_or (r ∷ rs) y []) x space
row_by_row r rs f x zero h = get_or-trim r x
row_by_row r rs f x (suc y) h = h y

-- The text of some rows has their cells.
cell_of-write_rows :
    (rows : List (List ℕ)) (x y : ℕ)
    → AllRows rows
    → cell_of (write_rows (trim λ c. c == space) rows) x y ≡ get_or (get_or rows y []) x space
unfolding write_rows
cell_of-write_rows [] x y no_row = no_text x y
cell_of-write_rows (r ∷ rs) x y (row_more h hs) =
    let line = trim (λ c. c == space) r in
    let rest = write_rows (trim λ c. c == space) rs in
    let ok = trim-Each IsText (λ c. c == space) r h in
    ap (λ l. cell_of (l ++ (line_feed ∷ rest)) x y) (map-to_byte line ok)
    ∙ cell_of_line line rest x y ok
    ∙ row_by_row r rs (λ k. cell_of rest x k) x y (λ j. cell_of-write_rows rs x j hs)

pub cell_of-text_of :
    (rows : List (List ℕ)) (x y : ℕ)
    → AllRows rows
    → cell_of (text_of rows) x y ≡ get_or (get_or rows y []) x space
unfolding text_of
cell_of-text_of rows x y h =
    cell_of-trim (write_rows (trim λ c. c == space) rows) x y ∙ cell_of-write_rows rows x y h

-- What a load does not change: bytes that are no carriage return and no form feed.
abbrev IsUnix : ℕ → Type 0
IsUnix c = (kind c ≡ other) ⊎ (c ≡ line_feed)

append-Each : (P : ℕ → Type 0) (cs ds : List ℕ) → Each P cs → Each P ds → Each P (cs ++ ds)
append-Each P [] ds none_left k = k
append-Each P (c ∷ cs) ds (more h hs) k = more h (append-Each P cs ds hs k)

AllText-Each : (cs : List ℕ) → AllText cs → Each IsUnix cs
AllText-Each [] none_left = none_left
AllText-Each (c ∷ cs) (more h hs) = more (inl h.plain) (AllText-Each cs hs)

write_rows-Each :
    (rows : List (List ℕ)) → AllRows rows → Each IsUnix (write_rows (trim λ c. c == space) rows)
unfolding write_rows
write_rows-Each [] no_row = none_left
write_rows-Each (r ∷ rs) (row_more h hs) =
    let line = trim (λ c. c == space) r in
    let rest = write_rows (trim λ c. c == space) rs in
    let ok = trim-Each IsText (λ c. c == space) r h in
    subst⁻¹ (λ l. Each IsUnix (l ++ (line_feed ∷ rest))) (map-to_byte line ok)
      (append-Each IsUnix line (line_feed ∷ rest) (AllText-Each line ok)
        (more (inr refl) (write_rows-Each rs hs)))

kind-line_feed : (c : ℕ) → c ≡ line_feed → kind c ≡ ends
unfolding kind
kind-line_feed c h = ground arith

unix_same : (cs : List ℕ) → Each IsUnix cs → unix false cs ≡ cs
unix_same [] none_left = refl
unix_same (c ∷ cs) (more (inl h) hs) = rw (h, unix) (ap (◌∷◌ c) (unix_same cs hs))
unix_same (c ∷ cs) (more (inr h) hs) =
    rw (kind-line_feed c h, unix) (ap₂ ◌∷◌ (sym h) (unix_same cs hs))

pub unix-text_of : (rows : List (List ℕ)) → AllRows rows → unix false (text_of rows) ≡ text_of rows
unfolding text_of
unix-text_of rows h = unix_same (text_of rows) (
    trim-Each IsUnix (λ c. c == line_feed) (write_rows (trim λ c. c == space) rows)
      (write_rows-Each rows h))
