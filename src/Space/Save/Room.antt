-- ===== src/Space/Save/Room.antt =====
-- The buffers of fungespace_save_to_file, where they have room for the area.
use cfunge.Prelude.{
  ℕ, zero, suc, ◌+◌, ◌*◌, ◌≤◌, ◌≡◌, refl, ap, ap₂, arith, Bool, true, false, List, [], ◌∷◌, map,
  ltb, length, length-append,
}
use cfunge.Cell.{add}
use cfunge.Table.{HashLib}
use cfunge.Space.{Space}
use cfunge.Space.Save.{to_byte, cut, trim, row_cells, area_rows, write_rows, held}

pub held_room :
    (room : ℕ) (outside : ℕ → ℕ) (i : ℕ) (l : List ℕ)
    → i + length l ≤ room
    → held room outside i l ≡ l
unfolding held
held_room room outside i [] h = refl
held_room room outside i (c ∷ cs) h =
    let inside : ltb i room ≡ true = ground arith in
    rw inside (ap (λ l. c ∷ l) (held_room room outside (suc i) cs (omega arith)))

length-cut : (b : Bool) (c : ℕ) (l : List ℕ) → length (cut b c l) ≤ suc (length l)
length-cut true c [] = omega arith
length-cut true c (d ∷ l) = omega arith
length-cut false c l = omega arith

length-trim : (p : ℕ → Bool) (l : List ℕ) → length (trim p l) ≤ length l
unfolding trim
length-trim p [] = omega arith
length-trim p (c ∷ l) = omega (arith, length-cut (p c) c (trim p l), length-trim p l)

length-map : (f : ℕ → ℕ) (l : List ℕ) → length (map f l) ≡ length l
length-map f [] = refl
length-map f (c ∷ l) = ap suc (length-map f l)

module _ (lib : HashLib) (s : Space lib) where
  length-row_cells : (n x y : ℕ) → length (row_cells lib n x y s) ≡ n
  unfolding row_cells
  length-row_cells zero x y = refl
  length-row_cells (suc n) x y = ap suc (length-row_cells n (add x 1) y)

  pub map-held :
      (room : ℕ) (outside : ℕ → ℕ) (n w x y : ℕ)
      → w ≤ room
      → map (held room outside 0) (area_rows lib n w x y s) ≡ area_rows lib n w x y s
  unfolding area_rows
  map-held room outside zero w x y h = refl
  map-held room outside (suc n) w x y h =
      ap₂ ◌∷◌
        (held_room room outside 0 (row_cells lib w x y s) (omega (arith, length-row_cells w x y)))
        (map-held room outside n w x (add y 1) h)

  pub length-write_rows :
      (p : ℕ → Bool) (n w x y : ℕ)
      → length (write_rows (trim p) (area_rows lib n w x y s)) ≤ w * n + n
  unfolding write_rows area_rows
  length-write_rows p zero w x y = omega arith
  length-write_rows p (suc n) w x y =
      let row = row_cells lib w x y s in
      let rest = write_rows (trim p) (area_rows lib n w x (add y 1) s) in
      let product : w * suc n ≡ w + w * n = ground arith in
      omega (
        arith,
        product,
        length-append (map to_byte (trim p row)) (10 ∷ rest),
        length-map to_byte (trim p row),
        length-trim p row,
        length-row_cells w x y,
        length-write_rows p n w x (add y 1),
      )
