-- ===== src/Space/Load/Program.antt =====
-- What the loads of a text leave in Funge-Space.
use cfunge.Prelude.{
  ℕ, suc, ◌^◌, ◌≤◌, ◌<◌, ◌≡◌, ◌≢◌, refl, ap, ap₂, ◌∙◌, arith, Bool, true, false, not, ◌&&◌, Option,
  none, some, List, [], ◌∷◌, ◌==◌, if◌then◌else◌, length,
}
use cfunge.Cell.{add, sub, space}
use cfunge.Vector.{Vector, same_vector, IsVector}
use cfunge.Table.{HashLib}
use cfunge.Space.{Space, create, get}
use cfunge.Space.Set.{set_initial, set_offset}
use cfunge.Space.Bounds.Covers.{
  Covers, IsInitial, create-IsInitial, set_initial_lem, set_lem, get-create,
}
use cfunge.Space.Load.{
  line_feed, Kind, feeds, returns, ends, other, kind, next_line, next_column, start, wider,
  load_string, load_at_offset,
}
use cfunge.Space.Load.Layout.{unix, placed, or_else}
use cfunge.Space.Load.Text.{Writes, or_old, load_bytes-Loaded}
use cfunge.Space.Load.Lines.{unless_space, cell_of, placed-cell_of, origin}

length-unix_by :
    (c : ℕ) (cs : List ℕ) (d : Kind) (b : Bool)
    → kind c ≡ d
    → ((b' : Bool) → length (unix b' cs) ≤ length cs)
    → length (unix b (c ∷ cs)) ≤ suc (length cs)
length-unix_by c cs feeds b e h = rw (e, unix) (omega (arith, h b))
length-unix_by c cs returns b e h = rw (e, unix) (omega (arith, h true))
length-unix_by c cs ends true e h = rw (e, unix) (omega (arith, h false))
length-unix_by c cs ends false e h = rw (e, unix) (omega (arith, h false))
length-unix_by c cs other b e h = rw (e, unix) (omega (arith, h false))

length-unix : (cs : List ℕ) (b : Bool) → length (unix b cs) ≤ length cs
length-unix [] b = omega arith
length-unix (c ∷ cs) b = length-unix_by c cs (kind c) b refl (length-unix cs)

or_old-unless_space : (c : ℕ) → or_old (unless_space c) space ≡ c
or_old-unless_space c = ground arith

module _ (lib : HashLib) where
  IsInitial-Writes :
      (c : ℕ) (p : Vector) (s : Space lib)
      → c ≢ space
      → IsVector p
      → IsInitial lib s
      → Writes lib (set_initial lib) (λ v. v) (IsInitial lib) c p s
  IsInitial-Writes c p s ne hp g =
      let (t, returned, reads, good) = set_initial_lem lib c p s hp g in
      record { out = t; returned = returned; good = good; reads = reads }

  -- A program of less than 2 ^ 64 bytes that is loaded into the space a run begins with is there:
  -- the cell in column x and row y is the byte in column x of line y, and a space where the text has
  -- none; the box holds every cell that is not a space once it is valid.
  pub load_string_lem :
      (program : List ℕ)
      → length program < 2 ^ 64
      → (t : Space lib) × (load_string lib program (create lib) ≡ some t)
        × ((q : Vector) → IsVector q → get lib t q ≡ cell_of (unix false program) q.x q.y)
        × IsInitial lib t
  unfolding load_string
  load_string_lem program h =
      let l =
        load_bytes-Loaded lib (set_initial lib) (λ v. v) (IsInitial lib) IsInitial-Writes program
          false start.pos 0 (create lib) (record { x_cell = omega arith; y_cell = omega arith })
          (create-IsInitial lib) in
      let short = length-unix program false in
      (
        l.out,
        rw l.returned,
        (λ q hq.
            l.reads q hq
            ∙ ap₂ or_old (placed-cell_of (unix false program) q (omega arith)) (get-create lib q)
            ∙ or_old-unless_space (cell_of (unix false program) q.x q.y)),
        l.good,
      )

abbrev pub moved : Vector → Vector → Vector
moved offset p = record { x = add p.x offset.x; y = add p.y offset.y }

-- Where a cell of Funge-Space stands as seen from an offset.
abbrev pub relative : Vector → Vector → Vector
relative offset q = record { x = sub q.x offset.x; y = sub q.y offset.y }

same_moved :
    (offset p q : Vector)
    → IsVector offset
    → IsVector p
    → IsVector q
    → same_vector (moved offset p) q ≡ same_vector p (relative offset q)
unfolding same_vector
same_moved offset p q ho hp hq = ground arith

placed-moved :
    (offset : Vector) (cs : List ℕ) (p q : Vector)
    → IsVector offset
    → IsVector p
    → IsVector q
    → placed (moved offset) cs p q ≡ placed (λ v. v) cs p (relative offset q)
placed-moved offset [] p q ho hp hq = refl
placed-moved offset (c ∷ cs) p q ho hp hq =
    let p' = if c == line_feed then next_line p else next_column p in
    let hp' : IsVector p' = ground arith in
    ap₂ (λ r b. or_else r (if not (c == line_feed) && not (c == space) && b then some c else none))
      (placed-moved offset cs p' q ho hp' hq) (same_moved offset p q ho hp hq)

module _ (lib : HashLib) (offset : Vector) (ho : IsVector offset) where
  abbrev write_moved : ℕ → Vector → Space lib → Option (Space lib)
  write_moved c p = set_offset lib c p offset

  offset-Writes :
      (c : ℕ) (p : Vector) (s : Space lib)
      → c ≢ space
      → IsVector p
      → Covers lib s
      → Writes lib write_moved (moved offset) (Covers lib) c p s
  unfolding set_offset
  offset-Writes c p s ne hp g =
      let hm : IsVector (moved offset p) = record { x_cell = omega arith; y_cell = omega arith } in
      let (t, returned, reads, good) = set_lem lib c (moved offset p) s hm g in
      record { out = t; returned = returned; good = good; reads = reads }

  -- A text of less than 2 ^ 64 bytes that is loaded at an offset into a covered space: a cell reads
  -- the byte in its column and row from the offset, if there is one and it is no space, and else
  -- what it was; the box again holds every cell that is not a space.
  pub load_at_offset_lem :
      (bytes : List ℕ) (size : Vector) (s : Space lib)
      → length bytes < 2 ^ 64
      → Covers lib s
      → (new_size : Vector) × (t : Space lib) × (load_at_offset lib (some bytes) offset false size s
          ≡ some (true, new_size, t))
        × ((q : Vector)
            → IsVector q
            → get lib t q
              ≡ or_old
                  (unless_space
                    (cell_of (unix false bytes) (relative offset q).x (relative offset q).y))
                  (get lib s q))
        × Covers lib t
  unfolding load_at_offset
  load_at_offset_lem [] size s h g = (
    record { x = 0; y = 0 },
    s,
    refl,
    (λ q hq.
        ap (λ r. or_old r (get lib s q)) (placed-cell_of [] (relative offset q) (omega arith))),
    g,
  )
  load_at_offset_lem (b ∷ bs) size s h g =
      let bytes : List ℕ = b ∷ bs in
      let l =
        load_bytes-Loaded lib write_moved (moved offset) (Covers lib) offset-Writes bytes false
          origin 0 s (record { x_cell = omega arith; y_cell = omega arith }) g in
      let short = length-unix bytes false in
      (
        record {
          x = wider l.cursor.width l.cursor.pos.x;
          y = wider 0 (if l.cursor.last_was_cr then add l.cursor.pos.y 1 else l.cursor.pos.y);
        },
        l.out,
        rw l.returned,
        (λ q hq.
            l.reads q hq
            ∙ ap (λ r. or_old r (get lib s q))
                (placed-moved offset (unix false bytes) origin q ho
                    (record { x_cell = omega arith; y_cell = omega arith }) hq
                  ∙ placed-cell_of (unix false bytes) (relative offset q) (omega arith))),
        l.good,
      )
