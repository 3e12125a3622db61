-- ===== src/Fingerprints/Indv.antt =====
-- src/fingerprints/INDV/INDV.c: reads and writes by way of a vector that Funge-Space holds.
pub mod Laws
mod Tests
use cfunge.Prelude.{ℕ, Option, none, some, ◌>>=◌}
use cfunge.Cell.{add}
use cfunge.Vector.{Vector}
use cfunge.Table.{HashLib}
use cfunge.Space.{Space, get}
use cfunge.Space.Set.{set}
use cfunge.Stack.{Stack, push, pop, push_vector, pop_vector}
use cfunge.Ip.{Ip, toss, set_toss}

abbrev pub right_of : Vector → Vector
right_of v = record { x = add v.x 1; y = v.y }

abbrev pub plus : Vector → Vector → Vector
plus v w = record { x = add v.x w.x; y = add v.y w.y }

module _ (lib : HashLib) where
  -- The vector that two cells hold.
  unfoldable pub vector_at : Space lib → Vector → Vector
  vector_at s v = record { x = get lib s (right_of v); y = get lib s v }

  -- `get_second_vector`, on the stack
  unfoldable pub get_second_vector : Ip → Space lib → Vector × Stack
  get_second_vector ip s =
      let (a, st) = pop_vector (toss ip) in
      (plus (vector_at s (plus a ip.storage_offset)) ip.storage_offset, st)

  -- G
  unfoldable pub get_num : Ip → Space lib → Ip × Space lib
  get_num ip s = let (v, st) = get_second_vector ip s in (set_toss (push (get lib s v) st) ip, s)

  -- P
  unfoldable pub put_num : Ip → Space lib → Option (Ip × Space lib)
  put_num ip s = do
    let (v, st) = get_second_vector ip s
    let (value, st') = pop st
    t ← set lib value v s
    some (set_toss st' ip, t)

  -- V
  unfoldable pub get_vec : Ip → Space lib → Ip × Space lib
  get_vec ip s =
      let (v, st) = get_second_vector ip s in (set_toss (push_vector (vector_at s v) st) ip, s)

  -- W
  unfoldable pub put_vec : Ip → Space lib → Option (Ip × Space lib)
  put_vec ip s = do
    let (a, st) = get_second_vector ip s
    let (b, st') = pop_vector st
    t ← set lib b.y a s
    u ← set lib b.x (right_of a) t
    some (set_toss st' ip, u)
