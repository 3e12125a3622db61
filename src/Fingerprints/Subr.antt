-- ===== src/Fingerprints/Subr.antt =====
-- src/fingerprints/SUBR/SUBR.c: calls of subroutines.
pub mod Laws
pub mod Return
mod Tests
use cfunge.Prelude.{ℕ, Bool, true, false, if◌then◌else◌}
use cfunge.Cell.{add, is_neg}
use cfunge.Vector.{Vector}
use cfunge.Table.{HashLib}
use cfunge.Space.{Space}
use cfunge.Stack.{Stack, create, pop, push_vector, pop_vector}
use cfunge.StackStack.{move_cells}
use cfunge.Ip.{Ip, toss, set_toss, reverse, set_position}

abbrev pub new_delta : Vector
new_delta = record { x = 1; y = 0 }

-- A
unfoldable pub absolute : Ip → Ip
absolute ip = record ip { finger_subr_is_relative = false }

-- O
unfoldable pub relative : Ip → Ip
relative ip = record ip { finger_subr_is_relative = true }

abbrev pub target : Ip → Vector → Vector
target ip pos =
    if ip.finger_subr_is_relative
    then record { x = add pos.x ip.storage_offset.x; y = add pos.y ip.storage_offset.y }
    else pos

module _ (memory : ℕ → ℕ) where
  -- The top n cells, by way of the temporary stack, above two vectors.
  unfoldable pub save : ℕ → Vector → Vector → Stack → Stack
  save n position delta s =
      let (rest, tmp) = move_cells n s (create memory) in
      (move_cells n tmp (push_vector delta (push_vector position rest))).1

  -- The two vectors that are below the top n cells, and the stack without them.
  unfoldable pub restore : ℕ → Stack → Vector × Vector × Stack
  restore n s =
      let (rest, tmp) = move_cells n s (create memory) in
      let (vec, s₁) = pop_vector rest in
      let (pos, s₂) = pop_vector s₁ in (pos, vec, (move_cells n tmp s₂).1)

  module _ (lib : HashLib) where
    -- C
    unfoldable pub call : Ip → Space lib → Ip × Space lib
    call ip s =
        let (n, s₁) = pop (toss ip) in
        let (pos, s₂) = pop_vector s₁ in
        let s₃ = save n ip.position ip.delta s₂ in
        let (ip', t) = set_position lib (target ip pos) (set_toss s₃ ip) s in
        if is_neg n
        then (reverse (set_toss s₁ ip), s)
        else (record ip' { delta = new_delta; need_move = false }, t)

    -- J
    unfoldable pub jump : Ip → Space lib → Ip × Space lib
    jump ip s =
        let (pos, s₁) = pop_vector (toss ip) in
        let (ip', t) = set_position lib (target ip pos) (set_toss s₁ ip) s in
        (record ip' { delta = new_delta }, t)

    -- R
    unfoldable pub return : Ip → Space lib → Ip × Space lib
    return ip s =
        let (n, s₁) = pop (toss ip) in
        let (pos, vec, s₂) = restore n s₁ in
        let (ip', t) = set_position lib pos (set_toss s₂ ip) s in
        if is_neg n then (reverse (set_toss s₁ ip), s) else (record ip' { delta = vec }, t)
