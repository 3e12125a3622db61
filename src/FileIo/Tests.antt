-- ===== src/FileIo/Tests.antt =====
-- The instructions i, o and = on small stacks, and the theorem on i at a file of two bytes.
use cfunge.Prelude.{
  ℕ, arith, ◌-◌, ◌^◌, ◌≡◌, refl, true, false, Option, none, some, List, [], ◌∷◌, get_or,
}
use mathlib.Core.Option
use cfunge.Table.Instance.{assoc_lib}
use cfunge.Vector.{Vector, IsVector}
use cfunge.Space.{Space, create, get}
use cfunge.Space.Bounds.Covers.{Covers, create-Covers}
use cfunge.Space.Load.Layout.{unix}
use cfunge.Space.Load.Text.{or_old}
use cfunge.Space.Load.Lines.{cell_of, unless_space}
use cfunge.Space.Load.Program.{relative}
use cfunge.Space.Save.{System}
use cfunge.Stack.{Stack}
use cfunge.Stack.Contents.{contents, IsValid}
use cfunge.Ip.{Ip, ip_create, toss, set_toss}
use cfunge.FileIo.{no_command, from_storage, run_file_input, run_file_output, run_system_execute}
use cfunge.FileIo.Laws.{run_file_input_lem}

-- An IP whose stack holds these cells, the topmost last.
abbrev ip_on : List ℕ → ℕ → Ip
ip_on cells top =
    set_toss (record { entries = λ i. get_or cells i 0; size = 16; top = top }) (ip_create (λ _. 0))

-- "ls" returns 3.
execute_ls :
    Option.map
      (λ ip. contents (toss ip))
      (run_system_execute false (λ _. true) (λ _. 3) (ip_on (7 ∷ 0 ∷ b's' ∷ b'l' ∷ []) 4))
    ≡ some (3 ∷ 7 ∷ [])
unfolding run_system_execute cfunge.Stack.Text.pop_string cfunge.Stack.Text.pop_bytes
    cfunge.Prelude.update ip_create cfunge.Ip.stackstack_create cfunge.Stack.pop cfunge.Stack.push
    cfunge.Stack.store cfunge.Input.before_zero
execute_ls = refl

execute_nothing :
    Option.map
      (λ ip. contents (toss ip))
      (run_system_execute false (λ _. true) (λ _. 3) (ip_on [] 0))
    ≡ some (no_command ∷ [])
unfolding run_system_execute cfunge.Stack.Text.pop_string cfunge.Stack.Text.pop_bytes
    cfunge.Prelude.update ip_create cfunge.Ip.stackstack_create cfunge.Stack.pop cfunge.Stack.push
    cfunge.Stack.store cfunge.Input.before_zero
execute_nothing = refl

-- The file "f" is missing: the name, the flag and the vector are popped.
input_missing :
    Option.map
      (λ r. contents (toss r.0))
      (run_file_input assoc_lib false
        (λ _. true)
        (λ _. none)
        (record { x = 0; y = 0 })
        (ip_on (9 ∷ 2 ∷ 1 ∷ 0 ∷ 0 ∷ b'f' ∷ []) 6)
        (create assoc_lib))
    ≡ some (9 ∷ [])
unfolding run_file_input cfunge.Stack.Text.pop_string cfunge.Stack.Text.pop_bytes
    cfunge.Prelude.update ip_create cfunge.Ip.stackstack_create cfunge.Stack.pop
    cfunge.Input.before_zero cfunge.Space.Load.load_at_offset cfunge.Ip.reverse
    cfunge.Stack.pop_vector
input_missing = refl

-- An empty file, read at 2, 1.
input_empty :
    Option.map
      (λ r. contents (toss r.0))
      (run_file_input assoc_lib false
        (λ _. true)
        (λ _. some [])
        (record { x = 5; y = 5 })
        (ip_on (9 ∷ 2 ∷ 1 ∷ 0 ∷ 0 ∷ b'f' ∷ []) 6)
        (create assoc_lib))
    ≡ some (1 ∷ 2 ∷ 0 ∷ 0 ∷ 9 ∷ [])
unfolding run_file_input cfunge.Stack.Text.pop_string cfunge.Stack.Text.pop_bytes
    cfunge.Prelude.update ip_create cfunge.Ip.stackstack_create cfunge.Stack.pop
    cfunge.Input.before_zero cfunge.Space.Load.load_at_offset cfunge.Stack.push_vector
    cfunge.Stack.push cfunge.Stack.pop_vector cfunge.Stack.store
input_empty = refl

abbrev sys : System
sys = record { opens = true; reserves = true; alloc = λ _. true; writes = true; outside = λ _. 0 }

-- A width of 0 is refused, with everything popped.
output_refused :
    Option.map
      (λ r. contents (toss r.0))
      (run_file_output assoc_lib false
        (λ _. true)
        sys
        (ip_on (9 ∷ 0 ∷ 1 ∷ 2 ∷ 1 ∷ 0 ∷ 0 ∷ b'f' ∷ []) 8)
        (create assoc_lib))
    ≡ some (9 ∷ [])
unfolding run_file_output cfunge.Stack.Text.pop_string cfunge.Stack.Text.pop_bytes
    cfunge.Prelude.update ip_create cfunge.Ip.stackstack_create cfunge.Stack.pop
    cfunge.Input.before_zero cfunge.Stack.pop_vector cfunge.Ip.reverse
output_refused = refl

-- One cell of the empty space at 2, 1 goes to "f".
output_cell :
    Option.map
      (λ r. r.1)
      (run_file_output assoc_lib false
        (λ _. true)
        sys
        (ip_on (9 ∷ 1 ∷ 1 ∷ 2 ∷ 1 ∷ 0 ∷ 0 ∷ b'f' ∷ []) 8)
        (create assoc_lib))
    ≡ some (some (b'f' ∷ [], b' ' ∷ 10 ∷ []))
unfolding run_file_output cfunge.Stack.Text.pop_string cfunge.Stack.Text.pop_bytes
    cfunge.Prelude.update ip_create cfunge.Ip.stackstack_create cfunge.Stack.pop
    cfunge.Input.before_zero cfunge.Stack.pop_vector cfunge.Space.Save.save_to_file
    cfunge.Space.Save.held cfunge.Space.Save.write_rows cfunge.Space.Save.area_rows
    cfunge.Space.Save.row_cells cfunge.Space.get create
output_cell = refl

-- Below the name "f" the stack has an even flag, 1 and 2.
abbrev loader : Ip
loader = ip_on (9 ∷ 2 ∷ 1 ∷ 0 ∷ 0 ∷ b'f' ∷ []) 6

abbrev offset : Vector
offset = record { x = 2; y = 1 }

abbrev two_bytes : List ℕ
two_bytes = b'a' ∷ b'b' ∷ []

loader-IsValid : IsValid (toss loader)
unfolding cfunge.Prelude.update ip_create cfunge.Ip.stackstack_create
loader-IsValid = record { fits = omega arith }

run_file_input_lem_example :
    (ip' : Ip) × (t : Space assoc_lib) × (read : Vector) × (run_file_input assoc_lib false
        (λ _. true)
        (λ _. some two_bytes)
        offset
        loader
        (create assoc_lib)
      ≡ some (ip', t))
    × (contents (toss ip') ≡ 1 ∷ 2 ∷ read.y ∷ read.x ∷ 9 ∷ [])
    × (ip'.delta ≡ loader.delta)
    × ((q : Vector)
        → IsVector q
        → let k = relative (from_storage offset loader) q in
          get assoc_lib t q
          ≡ or_old
              (unless_space (cell_of (unix false two_bytes) k.x k.y))
              (get assoc_lib (create assoc_lib) q))
    × Covers assoc_lib t
unfolding cfunge.Prelude.update ip_create cfunge.Ip.stackstack_create
run_file_input_lem_example =
    run_file_input_lem assoc_lib (λ _. true) (λ _. some two_bytes) b'f' [] two_bytes 0 offset offset
      (9 ∷ []) loader (create assoc_lib) (λ n. refl) (ground arith) refl (omega arith) refl
      loader-IsValid refl (create-Covers assoc_lib)
