-- ===== src/Space/Load/Text.antt =====
-- The loop over the bytes of a text, against the layout.
use cfunge.Prelude.{
  ℕ, ◌≡◌, ◌≢◌, refl, ap, ◌∙◌, arith, Bool, true, false, Option, none, some, ◌>>=◌, List, [], ◌∷◌,
  ◌==◌, if◌then◌else◌, Bool-cases, inl, inr,
}
use cfunge.Cell.{space}
use cfunge.Vector.{Vector, same_vector, IsVector}
use cfunge.Table.{HashLib}
use cfunge.Space.{Space, get}
use cfunge.Space.Load.{
  line_feed, Kind, feeds, returns, ends, other, kind, next_line, next_column, Cursor, newline,
  end_line, place, wider, load_byte, load_bytes,
}
use cfunge.Space.Load.Layout.{unix, or_else, placed}

-- Where the next byte goes.
abbrev pub next_place : Cursor → Vector
next_place k = if k.last_was_cr then next_line k.pos else k.pos

abbrev pub or_old : Option ℕ → ℕ → ℕ
or_old none old = old
or_old (some v) old = v

next_column-IsVector : (p : Vector) → IsVector p → IsVector (next_column p)
next_column-IsVector p h = record { x_cell = omega arith; y_cell = h.y_cell }

next_line-IsVector : (p : Vector) → IsVector (next_line p)
next_line-IsVector p = record { x_cell = omega arith; y_cell = omega arith }

or_old-or_else : (a b : Option ℕ) (old : ℕ) → or_old a (or_old b old) ≡ or_old (or_else a b) old
or_old-or_else none b old = refl
or_old-or_else (some v) b old = refl

kind_other : (c : ℕ) → kind c ≡ other → (c == line_feed) ≡ false
unfolding kind
kind_other c e = ground arith

or_old-none : (a : Option ℕ) (old : ℕ) → or_old a old ≡ or_old (or_else a none) old
or_old-none none old = refl
or_old-none (some v) old = refl

or_old_if :
    (b : Bool) (a : Option ℕ) (c old : ℕ)
    → or_old a (if b then c else old) ≡ or_old (or_else a (if b then some c else none)) old
or_old_if true none c old = refl
or_old_if false none c old = refl
or_old_if true (some v) c old = refl
or_old_if false (some v) c old = refl

module _ (lib : HashLib) (write : ℕ → Vector → Space lib → Option (Space lib))
    (at : Vector → Vector) (Good : Space lib → Type 0) where
  -- A write of a byte that is no space, and what is needed of it.
  pub record Writes (c : ℕ) (p : Vector) (s : Space lib) : Type 0 where
    pub out : Space lib
    pub returned : write c p s ≡ some out
    pub good : Good out
    pub reads :
        (q : Vector)
        → IsVector q
        → get lib out q ≡ (if same_vector (at p) q then c else get lib s q)

  -- What a part of the loop leaves, with the rest of the text laid out from its cursor.
  pub record Loaded (rest : List ℕ) (from : Vector) (s : Space lib)
      (result : Option (Cursor × Space lib)) : Type 0 where
    pub cursor : Cursor
    pub out : Space lib
    pub returned : result ≡ some (cursor, out)
    pub good : Good out
    pub reads :
        (q : Vector) → IsVector q → get lib out q ≡ or_old (placed at rest from q) (get lib s q)

  module _
      (writes : (c : ℕ) (p : Vector) (s : Space lib)
        → c ≢ space
        → IsVector p
        → Good s
        → Writes c p s) where
    -- A line end in front of a text that is laid out from the next line.
    break_line :
        (rest : List ℕ) (p : Vector) (s : Space lib) (r : Option (Cursor × Space lib))
        → Loaded rest (next_line p) s r
        → Loaded (line_feed ∷ rest) p s r
    break_line rest p s r l = record {
      cursor = l.cursor;
      out = l.out;
      returned = l.returned;
      good = l.good;
      reads = λ q hq. l.reads q hq ∙ or_old-none (placed at rest (next_line p) q) (get lib s q);
    }

    -- A byte at its place, and the rest of the loop behind it.
    place_byte :
        (c : ℕ) (rest cs : List ℕ) (k : Cursor) (s : Space lib)
        → (c == line_feed) ≡ false
        → IsVector k.pos
        → Good s
        → ((t : Space lib)
            → Good t
            → Loaded rest
                (next_column k.pos)
                t
                (load_bytes lib write cs (record k { pos = next_column k.pos }) t))
        → Loaded
            (c ∷ rest)
            k.pos
            s
            (place lib write c k s >>= λ (r : Cursor × Space lib). load_bytes lib write cs r.0 r.1)
    unfolding place
    place_byte c rest cs k s text h g next = elim (Bool-cases (c == space)) [
      | inl blank ↦
          let l = next s g in
          record {
            cursor = l.cursor;
            out = l.out;
            returned = rw blank l.returned;
            good = l.good;
            reads = λ q hq.
                rw (text, blank)
                  (l.reads q hq ∙ or_old-none (placed at rest (next_column k.pos) q) (get lib s q));
          }
      | inr mark ↦
          let w = writes c k.pos s (ground arith) h g in
          let l = next w.out w.good in
          record {
            cursor = l.cursor;
            out = l.out;
            returned = rw (mark, w.returned) l.returned;
            good = l.good;
            reads = λ q hq.
                rw (text, mark)
                  (l.reads q hq
                    ∙ ap (or_old (placed at rest (next_column k.pos) q)) (w.reads q hq)
                    ∙ or_old_if (same_vector (at k.pos) q) (placed at rest (next_column k.pos) q) c
                        (get lib s q));
          }
    ]

    abbrev cursor : Bool → Vector → ℕ → Cursor
    cursor b p w = record { last_was_cr = b; pos = p; width = w }

    -- What is shown of the loop on the rest of a text, from any cursor.
    abbrev OnRest : List ℕ → Type 0
    OnRest cs =
        (b : Bool) (p : Vector) (w : ℕ) (s : Space lib)
        → IsVector p
        → Good s
        → Loaded (unix b cs) (next_place (cursor b p w)) s
            (load_bytes lib write cs (cursor b p w) s)

    by_kind :
        (c : ℕ) (cs : List ℕ) (d : Kind) (b : Bool) (p : Vector) (w : ℕ) (s : Space lib)
        → kind c ≡ d
        → IsVector p
        → Good s
        → OnRest cs
        → Loaded
            (unix b (c ∷ cs))
            (next_place (cursor b p w))
            s
            (load_bytes lib write (c ∷ cs) (cursor b p w) s)
    unfolding load_bytes load_byte newline end_line
    by_kind c cs feeds b p w s e h g on = rw (e, unix, load_byte) (on b p w s h g)
    by_kind c cs returns true p w s e h g on =
        rw (e, unix, load_byte)
          (break_line (unix true cs) (next_line p) s _
            (on true (next_line p) (wider w p.x) s (next_line-IsVector p) g))
    by_kind c cs returns false p w s e h g on =
        rw (e, unix, load_byte) (break_line (unix true cs) p s _ (on true p w s h g))
    by_kind c cs ends true p w s e h g on =
        rw (e, unix, load_byte) (on false (next_line p) (wider w p.x) s (next_line-IsVector p) g)
    by_kind c cs ends false p w s e h g on =
        rw (e, unix, load_byte)
          (break_line (unix false cs) p s _
            (on false (next_line p) (wider w p.x) s (next_line-IsVector p) g))
    by_kind c cs other true p w s e h g on =
        rw (e, unix, load_byte)
          (place_byte c (unix false cs) cs (cursor false (next_line p) (wider w p.x)) s
            (kind_other c e) (next_line-IsVector p) g
            (λ t gt.
              on false (next_column (next_line p)) (wider w p.x) t
                (next_column-IsVector (next_line p) (next_line-IsVector p)) gt))
    by_kind c cs other false p w s e h g on =
        rw (e, unix, load_byte)
          (place_byte c (unix false cs) cs (cursor false p w) s (kind_other c e) h g
            (λ t gt. on false (next_column p) w t (next_column-IsVector p h) gt))

    -- From any cursor the loop returns, and what it writes is the layout of the text that is left.
    pub load_bytes-Loaded : (cs : List ℕ) → OnRest cs
    unfolding load_bytes
    load_bytes-Loaded [] b p w s h g = record {
      cursor = cursor b p w;
      out = s;
      returned = refl;
      good = g;
      reads = λ q hq. refl;
    }
    load_bytes-Loaded (c ∷ cs) b p w s h g =
        by_kind c cs (kind c) b p w s refl h g (load_bytes-Loaded cs)
