-- ===== src/Interpreter/Plane.antt =====
-- The instructions of `execute_instruction` that read, write or cross Funge-Space.
pub mod Laws
use cfunge.Prelude.{
  ℕ, zero, suc, ◌-◌, Bool, true, false, not, Option, none, some, ◌>>=◌, ◌==◌, if◌then◌else◌, update,
}
use cfunge.Cell.{mul, space}
use cfunge.Vector.{Vector}
use cfunge.Table.{HashLib}
use cfunge.Space.{Space, get, get_offset}
use cfunge.Space.Set.{set, set_offset}
use cfunge.Stack.{Stack, push, pop, pop_vector}
use cfunge.Ip.{Ip, toss, set_toss, forward, forward_no_wrap, backward, reverse}
use cfunge.Ip.Blocks.{stackstack_begin, stackstack_end}
use cfunge.StackStack.{transfer}

module _ (lib : HashLib) where
  -- `do ip_forward(ip); while (...)`, until a cell passes a test. The loops of the source have no
  -- bound: without such a cell on the line they run for ever, and any fuel is used up.
  unfoldable pub skip_until : (ℕ → Bool) → ℕ → Ip → Space lib → Option (Ip × Space lib)
  skip_until stop zero ip s = none
  skip_until stop (suc fuel) ip s =
      let (ip', s') = forward lib ip s in
      let rest = skip_until stop fuel ip' s' in
      if stop (get lib s' ip'.position) then some (ip', s') else rest

  -- The case 'j'.
  unfoldable pub jump : Ip → Space lib → Ip × Space lib
  jump ip s =
      let (jumps, st) = pop (toss ip) in
      let (ip₁, s₁) = forward lib (set_toss st ip) s in
      let far = record ip₁ {
        delta = record { x = mul ip₁.delta.x jumps; y = mul ip₁.delta.y jumps };
      } in
      let (ip₂, s₂) = forward lib far s₁ in
      if jumps == 0
      then (record ip₁ { need_move = false }, s₁)
      else (record ip₂ { delta = ip₁.delta; need_move = false }, s₂)

  -- The case 'g'.
  unfoldable pub get_cell : Ip → Space lib → Ip × Space lib
  get_cell ip s =
      let (p, st) = pop_vector (toss ip) in
      (set_toss (push (get_offset lib s p ip.storage_offset) st) ip, s)

  -- The case 'p'; a write that the hash table refuses ends the run.
  unfoldable pub put_cell : Ip → Space lib → Option (Ip × Space lib)
  put_cell ip s = do
    let (p, st) = pop_vector (toss ip)
    let (value, st') = pop st
    s' ← set_offset lib value p ip.storage_offset s
    some (set_toss st' ip, s')

  -- The case '\''.
  unfoldable pub fetch : Ip → Space lib → Ip × Space lib
  fetch ip s =
      let (ip', s') = forward lib ip s in
      (set_toss (push (get lib s' ip'.position) (toss ip')) ip', s')

  -- The case 's', which does not wrap.
  unfoldable pub store_next : Ip → Space lib → Option (Ip × Space lib)
  store_next ip s = do
    let ip' = forward_no_wrap ip
    let (value, st) = pop (toss ip')
    s' ← set lib value ip'.position s
    some (set_toss st ip', s')

  -- The case '{'.
  unfoldable pub begin_block : (ℕ → Bool) → (ℕ → ℕ) → Ip → Space lib → Ip × Space lib
  begin_block alloc memory ip s =
      let (count, st) = pop (toss ip) in
      let (ip₁, s₁) = forward lib (set_toss st ip) s in
      let (ip₂, s₂) = backward lib ip₁ s₁ in
      let (done, ip₃) = stackstack_begin alloc memory count ip₁.position ip₂ in
      (if done then ip₃ else reverse ip₃, s₂)

  -- The case '}'.
  unfoldable pub end_block : Ip → Ip
  end_block ip =
      let (count, st) = pop (toss ip) in
      let (done, ip') = stackstack_end count (set_toss st ip) in
      if ip.stackstack.current == 0 then reverse ip else if done then ip' else reverse ip'

-- The case 'u'.
unfoldable pub transfer_cells : Ip → Ip
transfer_cells ip =
    let (count, st) = pop (toss ip) in
    let c = ip.stackstack.current in
    let (toss', soss') = transfer count st (ip.stackstack.stacks (c - 1)) in
    if c == 0 then reverse ip else record ip {
      stackstack = record ip.stackstack {
        stacks = update (update ip.stackstack.stacks c toss') (c - 1) soss';
      };
    }
