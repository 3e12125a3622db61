-- ===== src/FileIo.antt =====
-- src/instructions/io.c and src/instructions/execute.c: the instructions i, o and =. The system is
-- an argument: what a file holds, which writes it takes, and what a command returns.
pub mod Laws
mod Tests
use cfunge.Prelude.{
  ℕ, ◌+◌, ◌-◌, ◌%◌, ◌^◌, Bool, true, false, ◌||◌, Option, none, some, ◌>>=◌, List, [], ◌∷◌, ◌==◌,
  if◌then◌else◌,
}
use mathlib.Core.Option
use cfunge.Cell.{add, slt}
use cfunge.Vector.{Vector}
use cfunge.Table.{HashLib}
use cfunge.Space.{Space}
use cfunge.Space.Load.{load_at_offset}
use cfunge.Space.Save.{System, save_to_file}
use cfunge.Stack.{Stack, push, pop, push_vector, pop_vector}
use cfunge.Stack.Text.{pop_string}
use cfunge.Ip.{Ip, toss, set_toss, reverse}
use cfunge.Input.{before_zero}

-- FUNGE_NOCOMMAND
abbrev pub no_command : ℕ
no_command = 2 ^ 64 - 2

-- What `stack_pop_string` returns, as a C string.
abbrev pub pop_c_string : (ℕ → Bool) → Stack → Option (Option (List ℕ) × Stack)
pop_c_string alloc s = Option.map (λ (str, t). (Option.map before_zero str, t)) (pop_string alloc s)

-- `!filename || *filename == '\0'`
abbrev pub missing : Option (List ℕ) → Bool
missing none = true
missing (some []) = true
missing (some (c ∷ cs)) = false

abbrev pub name_of : Option (List ℕ) → List ℕ
name_of none = []
name_of (some str) = str

abbrev pub from_storage : Vector → Ip → Vector
from_storage v ip = record { x = add v.x ip.storage_offset.x; y = add v.y ip.storage_offset.y }

module _ (lib : HashLib) where
  -- What `run_file_input` does with the outcome of the load.
  abbrev pub loaded : Vector → Ip → Bool × Vector × Space lib → Ip × Space lib
  loaded offset ip (done, size, s) =
      if done
      then (set_toss (push_vector offset (push_vector size (toss ip))) ip, s)
      else (reverse ip, s)

  -- `run_file_input`; `size` is what the variable of that name holds at first, and `none` also the
  -- exit by DIAG_FATAL_LOC.
  unfoldable pub run_file_input :
      Bool
      → (ℕ → Bool)
      → (List ℕ → Option (List ℕ))
      → Vector
      → Ip
      → Space lib
      → Option (Ip × Space lib)
  run_file_input sandbox alloc file size ip s = if sandbox then some (reverse ip, s) else do
    (name, s₁) ← pop_c_string alloc (toss ip)
    let (flag, s₂) = pop s₁
    let (offset, s₃) = pop_vector s₂
    let binary = flag % 2 == 1
    let ip' = set_toss s₃ ip
    let load = load_at_offset lib (file (name_of name)) (from_storage offset ip) binary size s
    (if missing name
        then some (reverse (set_toss s₁ ip), s)
        else Option.map (loaded offset ip') load)

  -- `run_file_output`, with the bytes of the file that it writes, by its name
  unfoldable pub run_file_output :
      Bool → (ℕ → Bool) → System → Ip → Space lib → Option (Ip × Option (List ℕ × List ℕ))
  run_file_output sandbox alloc sys ip s = if sandbox then some (reverse ip, none) else do
    (name, s₁) ← pop_c_string alloc (toss ip)
    let (flag, s₂) = pop s₁
    let (offset, s₃) = pop_vector s₂
    let (size, s₄) = pop_vector s₃
    let textfile = flag % 2 == 1
    let ip' = set_toss s₄ ip
    let saved = save_to_file lib sys (from_storage offset ip) size textfile s
    let refused = missing name || slt size.x 1 || slt size.y 1
    some (
        if refused then (reverse ip', none) else elim saved [
          | none ↦ (reverse ip', none)
          | some bytes ↦ (ip', some (name_of name, bytes))
        ])

-- `run_system_execute`; `system` gives the exit status of a command, or what `system` returned.
unfoldable pub run_system_execute : Bool → (ℕ → Bool) → (List ℕ → ℕ) → Ip → Option Ip
run_system_execute sandbox alloc system ip = if sandbox then some (reverse ip) else do
  (command, st) ← pop_c_string alloc (toss ip)
  let value = if missing command then no_command else system (name_of command)
  some (set_toss (push value st) ip)
