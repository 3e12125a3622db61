-- ===== src/Fingerprints/Strn/Plane.antt =====
-- src/fingerprints/STRN/STRN.c: strings in Funge-Space.
use cfunge.Prelude.{
  ℕ, zero, suc, ◌+◌, ◌||◌, Bool, Option, none, some, ◌>>=◌, List, [], ◌∷◌, ◌==◌, if◌then◌else◌,
}
use mathlib.Core.Option
use cfunge.Cell.{add, slt}
use cfunge.Vector.{Vector}
use cfunge.Table.{HashLib}
use cfunge.Space.{Space, get}
use cfunge.Space.Set.{set}
use cfunge.Space.Bounds.{get_bounds_rect}
use cfunge.Stack.{Stack, pop, pop_vector}
use cfunge.Stack.Text.{push_string_multibyte}
use cfunge.Ip.{Ip, toss, set_toss, reverse}
use cfunge.Fingerprints.Indv.{plus, right_of}

module _ (lib : HashLib) where
  -- The loop of G, between the columns `low` and `high`; `none` is where it leaves them. A round for
  -- each column and two more are enough, unless the columns are all that there are.
  unfoldable pub read_string : Space lib → ℕ → ℕ → ℕ → Vector → Option (List ℕ)
  read_string s low high zero pos = none
  read_string s low high (suc fuel) pos =
      let val = get lib s pos in
      let rest = read_string s low high fuel (right_of pos) in
      if val == 0
      then some []
      else if slt pos.x low || slt high pos.x
      then none
      else Option.map (λ str. val ∷ str) rest

  -- G; `buffer` and `finished` say whether there is memory for the string buffer and its result.
  unfoldable pub strn_get : Bool → Bool → Ip → Space lib → Ip × Space lib
  unfolding read_string
  strn_get buffer finished ip s =
      let (bounds, t) = get_bounds_rect lib s in
      let (v, st) = pop_vector (toss ip) in
      let pos = plus v ip.storage_offset in
      let ip' = set_toss st ip in
      let high = add bounds.x bounds.w in
      if slt pos.y bounds.y || slt (add bounds.y bounds.h) pos.y
      then (reverse ip', t)
      else if buffer
      then elim (read_string t bounds.x high (bounds.w + 2) pos) [
        | none ↦ (reverse ip', t)
        | some str ↦
            if finished then (set_toss (push_string_multibyte str st) ip, t) else (reverse ip', t)
      ]
      else (reverse ip', t)

  -- The loop of P. It ends with the first 0, and an empty stack gives one.
  unfoldable pub write_string : ℕ → Vector → Stack → Space lib → Option (Stack × Space lib)
  write_string zero pos st s = none
  write_string (suc fuel) pos st s =
      let (value, st') = pop st in
      set lib value pos s >>= λ t.
      if value == 0 then some (st', t) else write_string fuel (right_of pos) st' t

  -- P; `none` is also the exit by DIAG_FATAL_LOC.
  unfoldable pub strn_put : Ip → Space lib → Option (Ip × Space lib)
  unfolding write_string
  strn_put ip s = do
    let (v, st) = pop_vector (toss ip)
    (st', t) ← write_string (st.top + 1) (plus v ip.storage_offset) st s
    some (set_toss st' ip, t)
