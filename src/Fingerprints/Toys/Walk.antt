-- ===== src/Fingerprints/Toys/Walk.antt =====
-- src/fingerprints/TOYS/TOYS.c: the functions that look at or write the cells next to the
-- instruction pointer, and W. `none` is the exit by DIAG_FATAL_LOC in a write.
use cfunge.Prelude.{ℕ, Option, some, ◌>>=◌, ◌==◌, if◌then◌else◌}
use cfunge.Cell.{sub, slt}
use cfunge.Vector.{Vector}
use cfunge.Table.{HashLib}
use cfunge.Space.{Space, get}
use cfunge.Space.Set.{set}
use cfunge.Stack.{push, pop, push_vector, pop_vector}
use cfunge.Ip.{
  Ip, toss, set_toss, forward, backward, reverse, turn_left, turn_right, go_west, go_east, go_north,
  go_south,
}

module _ (lib : HashLib) where
  -- One step, a push of the cell there, and a step back.
  abbrev look_ahead : Ip → Space lib → Ip × Space lib
  look_ahead ip s =
      let (there, t) = forward lib ip s in
      backward lib (set_toss (push (get lib t there.position) (toss there)) there) t

  -- L
  unfoldable pub corner : Ip → Space lib → Ip × Space lib
  corner ip s = let (back, t) = look_ahead (turn_left ip) s in (turn_right back, t)

  -- R
  unfoldable pub can_opener : Ip → Space lib → Ip × Space lib
  can_opener ip s = let (back, t) = look_ahead (turn_right ip) s in (turn_left back, t)

  -- Q
  unfoldable pub necklace : Ip → Space lib → Option (Ip × Space lib)
  necklace ip s = do
    let (v, st) = pop (toss ip)
    let (behind, t) = backward lib (set_toss st ip) s
    u ← set lib v behind.position t
    some (forward lib behind u)

  abbrev signpost : ℕ → (Ip → Ip) → Ip → Space lib → Option (Ip × Space lib)
  signpost arrow go ip s = do t ← set lib arrow ip.position s; some (go ip, t)

  -- U; `random_of_four` is `prng_generate_unsigned(4)`.
  unfoldable pub tumbler : ℕ → Ip → Space lib → Option (Ip × Space lib)
  tumbler random_of_four ip s =
      if random_of_four == 0
      then signpost b'^' go_north ip s
      else if random_of_four == 1
      then signpost b'>' go_east ip s
      else if random_of_four == 2
      then signpost b'v' go_south ip s
      else if random_of_four == 3
      then signpost b'<' go_west ip s
      else some (ip, s)

  -- W
  unfoldable pub television_antenna : Ip → Space lib → Ip × Space lib
  television_antenna ip s =
      let (p, s₁) = pop_vector (toss ip) in
      let (v, s₂) = pop s₁ in
      let c = get lib s p in
      let away : Vector = record {
        x = sub p.x ip.storage_offset.x;
        y = sub p.y ip.storage_offset.y;
      } in
      if slt c v
      then backward lib (set_toss (push_vector away (push v s₂)) ip) s
      else if slt v c
      then (reverse (set_toss s₂ ip), s)
      else (set_toss s₂ ip, s)
