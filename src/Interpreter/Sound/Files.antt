-- ===== src/Interpreter/Sound/Files.antt =====
-- The order of the stacks under the instructions y i o =, and under a string that is printed.
use mathlib.Core.Option
use mathlib.Core.Path.{subst⁻¹}
use cfunge.Prelude.{ℕ, ◌%◌, Bool, ◌||◌, Option, none, some, ◌>>=◌, List, ◌==◌, if◌then◌else◌}
use cfunge.Cell.{sle, slt}
use cfunge.Vector.{Vector}
use cfunge.Table.{HashLib}
use cfunge.Space.{Space}
use cfunge.Space.Load.{load_at_offset}
use cfunge.Space.Save.{System, save_to_file}
use cfunge.Stack.{Stack, push, pop, push_vector, pop_vector}
use cfunge.Stack.Contents.{IsValid, push-IsValid, pop-IsValid}
use cfunge.Stack.Text.{pop_string, pop_bytes}
use cfunge.Stack.Text.Laws.{pop_bytes-Popped}
use cfunge.Ip.{Ip, toss, set_toss, reverse}
use cfunge.Interpreter.Execute.{Settings}
use cfunge.Sysinfo.{Surroundings, Kept, push_all, yval, run_sys_info, push_found}
use cfunge.Sysinfo.Laws.{push_all-IsValid}
use cfunge.FileIo.{
  pop_c_string, missing, name_of, from_storage, loaded, run_file_input, run_file_output,
  run_system_execute, no_command,
}
use cfunge.Fingerprints.Orth
use cfunge.Interpreter.Sound.{
  IpSound, if_all, option_all, toss-IsValid, set_toss-IpSound, push_vector-IsValid,
  pop_vector-IsValid,
}
use cfunge.Interpreter.Sound.Functions.{without, popped_n-IpSound}

-- What holds of the value of a result, if there is one.
abbrev pub Of {ℓ} : {A : Type ℓ} → (A → Type 0) → Option A → Type 0
Of P none = Unit {0}
Of P (some a) = P a

pub bind-Of {ℓ κ} :
    {A : Type ℓ} {B : Type κ} (P : A → Type 0) (Q : B → Type 0) (o : Option A) (f : A → Option B)
    → Of P o
    → ((a : A) → P a → Of Q (f a))
    → Of Q (o >>= f)
bind-Of P Q none f h k = tt
bind-Of P Q (some a) f h k = k a h

map-Of {ℓ κ} :
    {A : Type ℓ} {B : Type κ} (P : A → Type 0) (Q : B → Type 0) (o : Option A) (f : A → B)
    → Of P o
    → ((a : A) → P a → Q (f a))
    → Of Q (Option.map f o)
map-Of P Q none f h k = tt
map-Of P Q (some a) f h k = k a h

abbrev Left : {A : Type 0} → A × Stack → Type 0
Left (a, s) = IsValid s

pop_bytes-Left : (s : Stack) → IsValid s → Of (Left {A = List ℕ}) (pop_bytes s)
pop_bytes-Left s h = let p = pop_bytes-Popped s h in subst⁻¹ (Of Left) p.returns p.valid

pop_string-Left :
    (alloc : ℕ → Bool) (s : Stack)
    → IsValid s
    → Of (Left {A = Option (List ℕ)}) (pop_string alloc s)
unfolding pop_string
pop_string-Left alloc s h =
    if_all (Of Left) (alloc _)
      (map-Of Left Left (pop_bytes s) (λ (str, t). (some str, t)) (pop_bytes-Left s h) (λ a k. k)) h

pop_c_string-Left :
    (alloc : ℕ → Bool) (s : Stack)
    → IsValid s
    → Of (Left {A = Option (List ℕ)}) (pop_c_string alloc s)
pop_c_string-Left alloc s h =
    map-Of Left Left (pop_string alloc s) _ (pop_string-Left alloc s h) (λ a k. k)

pub output_string-Of :
    (alloc : ℕ → Bool) (ip : Ip)
    → IpSound ip
    → Of (λ (r : List ℕ × Ip). IpSound r.1) (Orth.output_string alloc ip)
unfolding Orth.output_string reverse
output_string-Of alloc ip h =
    bind-Of Left (λ (r : List ℕ × Ip). IpSound r.1) (pop_string alloc (toss ip)) _
      (pop_string-Left alloc (toss ip) (toss-IsValid ip h))
      (λ (str, st) v.
        option_all (λ (r : List ℕ × Ip). IpSound r.1) str _ (set_toss-IpSound st ip v h)
          (λ s. set_toss-IpSound st ip v h))

pub run_system_execute-Of :
    (sandbox : Bool) (alloc : ℕ → Bool) (system : List ℕ → ℕ) (ip : Ip)
    → IpSound ip
    → Of IpSound (run_system_execute sandbox alloc system ip)
unfolding run_system_execute reverse
run_system_execute-Of sandbox alloc system ip h = if_all (Of IpSound) sandbox h (
    bind-Of Left IpSound (pop_c_string alloc (toss ip)) _
      (pop_c_string-Left alloc (toss ip) (toss-IsValid ip h))
      (λ (command, st) v.
        let value = if missing command then no_command else system (name_of command) in
        set_toss-IpSound (push value st) ip (push-IsValid value st v) h))

module _ (lib : HashLib) where
  loaded-IpSound :
      (offset : Vector) (ip : Ip) (r : Bool × Vector × Space lib)
      → IpSound ip
      → IpSound (loaded lib offset ip r).0
  unfolding reverse
  loaded-IpSound offset ip (done, size, s) h =
      let st = push_vector size (toss ip) in
      if_all (λ (r : Ip × Space lib). IpSound r.0) done
        (set_toss-IpSound (push_vector offset st) ip
          (push_vector-IsValid offset st (push_vector-IsValid size (toss ip) (toss-IsValid ip h)))
          h)
        h

  pub run_file_input-Of :
      (sandbox : Bool) (alloc : ℕ → Bool) (file : List ℕ → Option (List ℕ)) (size : Vector)
      (ip : Ip) (s : Space lib)
      → IpSound ip
      → Of (λ (r : Ip × Space lib). IpSound r.0) (run_file_input lib sandbox alloc file size ip s)
  unfolding run_file_input reverse
  run_file_input-Of sandbox alloc file size ip s h =
      let Kept : Ip × Space lib → Type 0 = λ r. IpSound r.0 in
      if_all (Of Kept) sandbox h (
        bind-Of Left Kept (pop_c_string alloc (toss ip)) _
          (pop_c_string-Left alloc (toss ip) (toss-IsValid ip h))
          (λ (name, s₁) v.
            let (flag, s₂) = pop s₁ in
            let (offset, s₃) = pop_vector s₂ in
            let ip' = set_toss s₃ ip in
            let h' = set_toss-IpSound s₃ ip (pop_vector-IsValid s₂ (pop-IsValid s₁ v)) h in
            let load =
              load_at_offset lib (file (name_of name)) (from_storage offset ip) (flag % 2 == 1) size
                s in
            if_all (Of Kept) (missing name) (set_toss-IpSound s₁ ip v h) (
              map-Of (λ r. Unit {0}) Kept load (loaded lib offset ip') (any load)
                (λ r k. loaded-IpSound offset ip' r h'))))
    where
      any : (o : Option (Bool × Vector × Space lib)) → Of (λ r. Unit {0}) o
      any none = tt
      any (some r) = tt

  pub run_file_output-Of :
      (sandbox : Bool) (alloc : ℕ → Bool) (sys : System) (ip : Ip) (s : Space lib)
      → IpSound ip
      → Of
          (λ (r : Ip × Option (List ℕ × List ℕ)). IpSound r.0)
          (run_file_output lib sandbox alloc sys ip s)
  unfolding run_file_output reverse
  run_file_output-Of sandbox alloc sys ip s h =
      let Kept : Ip × Option (List ℕ × List ℕ) → Type 0 = λ r. IpSound r.0 in
      if_all (Of Kept) sandbox h (
        bind-Of Left Kept (pop_c_string alloc (toss ip)) _
          (pop_c_string-Left alloc (toss ip) (toss-IsValid ip h))
          (λ (name, s₁) v.
            let (flag, s₂) = pop s₁ in
            let (offset, s₃) = pop_vector s₂ in
            let (size, s₄) = pop_vector s₃ in
            let ip' = set_toss s₄ ip in
            let h' =
              set_toss-IpSound s₄ ip
                (pop_vector-IsValid s₃ (pop_vector-IsValid s₂ (pop-IsValid s₁ v))) h in
            if_all Kept (missing name || slt size.x 1 || slt size.y 1) h' (
              option_all Kept (save_to_file lib sys (from_storage offset ip) size (flag % 2 == 1) s)
                _ h' (λ bytes. h'))))

  module _ (settings : Settings) (sys : Surroundings) (memory : ℕ → ℕ) where
    push_found-IpSound :
        (st : Stack) (ip : Ip) (kept : Kept settings sys memory lib) (o : Option (ℕ × Space lib))
        (s : Space lib)
        → IsValid st
        → IpSound ip
        → IpSound (push_found settings sys memory lib st ip kept o s).0
    push_found-IpSound st ip kept none s v h = h
    push_found-IpSound st ip kept (some (a, t)) s v h =
        set_toss-IpSound (push a st) ip (push-IsValid a st v) h

    pub run_sys_info-IpSound :
        (kept : Kept settings sys memory lib) (ip : Ip) (s : Space lib)
        → IpSound ip
        → IpSound (run_sys_info settings sys memory lib kept ip s).0
    unfolding run_sys_info
    run_sys_info-IpSound kept ip s h =
        let (request, st) = pop (toss ip) in
        let v = without 1 ip h in
        let ip' = set_toss st ip in
        let h' = popped_n-IpSound 1 ip h in
        let all = (push_all settings sys memory lib kept.cache st.top ip' s st).0 in
        let Good : Ip × Kept settings sys memory lib × Space lib → Type 0 = λ r. IpSound r.0 in
        if_all Good (sle request 0)
          (set_toss-IpSound all ip'
            (push_all-IsValid settings sys memory lib kept.cache st.top ip' s st v) h')
          (if_all Good (slt request 24)
            (push_found-IpSound st ip' kept (yval settings sys memory lib st.top request ip' s) s v
              h')
            (set_toss-IpSound (push _ st) ip' (push-IsValid _ st v) h'))
