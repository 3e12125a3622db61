-- ===== src/Interpreter/Tests.antt =====
-- The theorems on the interpreter at concrete states.
use cfunge.Prelude.{
  ℕ, zero, suc, ◌<◌, true, if◌then◌else◌, ◌+◌, ◌*◌, ◌≡◌, refl, arith, false, some, [], ◌∷◌, ◌==◌,
  update,
}
use cfunge.Vector.{IsVector}
use cfunge.Table.Instance.{assoc_lib}
use cfunge.Space.{Space, create, get, static_index}
use cfunge.Cell.{space}
use cfunge.Space.Bounds.Covers.{Inside}
use cfunge.Space.Wrap.{wrap_bounds}
use cfunge.Stack.Contents.{contents}
use cfunge.Ip.{ip_create, stackstack_create, toss}
use cfunge.Interpreter.Stacks.{read_fingerprint}
use cfunge.Interpreter.Stacks.Laws.{read_fingerprint_lem}
use cfunge.Interpreter.Moves.{begin_string}
use cfunge.Interpreter.Plane.Laws.{walk, skip_blanks_lem}
use cfunge.Interpreter.Run.{Machine, skip_blanks}
use cfunge.Interpreter.Loop.{tick, next}
use cfunge.Interpreter.Samples.{three, start, plain, host, settings, env, memory}
use cfunge.Interpreter.Text.{read_text, contents-read_text}
use cfunge.Interpreter.Order.{tick_end}

read_fingerprint_lem_example :
    ((read_fingerprint 2 0 three).0 ≡ 9 * 256 + 8)
    × (contents (read_fingerprint 2 0 three).1 ≡ 7 ∷ [])
read_fingerprint_lem_example = read_fingerprint_lem 2 0 three

start_delta : IsVector start.delta
unfolding ip_create start
start_delta = record { x_cell = omega arith; y_cell = omega arith }

-- "a  b "
contents-read_text_example :
    contents (toss (read_text false (97 ∷ 32 ∷ 32 ∷ 98 ∷ 32 ∷ []) (begin_string start)))
    ≡ 32 ∷ 98 ∷ 32 ∷ 97 ∷ 9 ∷ 8 ∷ 7 ∷ []
unfolding ip_create stackstack_create update start
contents-read_text_example =
    contents-read_text (97 ∷ 32 ∷ 32 ∷ 98 ∷ 32 ∷ []) start (ground arith) (omega arith)

-- A plane with a z three cells to the right of the origin.
abbrev spaced : Space assoc_lib
unfolding create
spaced = record (create assoc_lib) {
  cells = λ i. if i == static_index (record { x = 3; y = 0 }) then b'z' else b' ';
  bottom_right = record { x = 10; y = 10 };
}

within :
    (k : ℕ)
    → k < 3
    → Inside spaced.top_left spaced.bottom_right (walk (suc k) start.position start.delta)
unfolding start ip_create create spaced
within zero h = record { right = refl; left = refl; below = refl; above = refl }
within (suc zero) h = record { right = refl; left = refl; below = refl; above = refl }
within (suc (suc zero)) h = record { right = refl; left = refl; below = refl; above = refl }
within (suc (suc (suc k))) h = absurd (omega arith)

blanks : (k : ℕ) → k < 2 → get assoc_lib spaced (walk (suc k) start.position start.delta) ≡ space
unfolding start ip_create create get spaced
blanks zero h = refl
blanks (suc zero) h = refl
blanks (suc (suc k)) h = absurd (omega arith)

skip_blanks_lem_example :
    skip_blanks assoc_lib host settings env memory 3 (start, spaced, tt)
    ≡ some (
      true,
      (
        record start { position = walk 3 start.position start.delta; need_move = false },
        spaced,
        tt,
      ),
    )
unfolding start ip_create create get wrap_bounds spaced
skip_blanks_lem_example =
    skip_blanks_lem assoc_lib spaced refl host settings env memory 2 3 start tt (omega arith) within
      blanks (λ e. omega arith)

-- Three instruction pointers, each at an end instruction.
abbrev ends : Machine assoc_lib host settings env memory
ends = record {
  list = record {
    size = 256;
    top = 2;
    highest_id = 2;
    ips = λ i. record (ip_create memory) { id = i };
  };
  funge_space = plain b'@';
  world = tt;
}

tick_end_example :
    (m' : Machine assoc_lib host settings env memory) × (tick assoc_lib host settings env memory 0 2
        ends
      ≡ some (next (some 0) m'))
    × (m'.list.ips 1 ≡ record (ip_create memory) { id = 1 })
unfolding ip_create get plain
tick_end_example = tick_end assoc_lib host settings env memory 0 1 ends (omega arith) refl refl refl
