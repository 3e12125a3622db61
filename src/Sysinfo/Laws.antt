-- ===== src/Sysinfo/Laws.antt =====
-- src/instructions/sysinfo.c: a single cell of y, and the cells of the whole list.
use mathlib.Core.Path.{subst}
use mathlib.Core.Path.{subst⁻¹}
use cfunge.Prelude.{
  ℕ, zero, suc, ◌+◌, ◌-◌, ◌^◌, ◌≤◌, ◌<◌, ◌≡◌, inl, inr, refl, sym, ap, ◌∙◌, arith, true, false,
  Option, some, List, [], ◌∷◌, ◌++◌, leb, length, get_or, Bool-cases,
}
use cfunge.Cell.{slt, sle}
use cfunge.Table.{HashLib}
use cfunge.Space.{Space}
use cfunge.Space.Bounds.{FungeRect, get_bounds_rect}
use cfunge.Stack.{Stack, push, pop, push_vector}
use cfunge.Stack.Contents.{contents, IsValid, down, contents-push, push-IsValid}
use cfunge.StackStack.{bulk_copy}
use cfunge.StackStack.Copy.{bulk_copy-IsValid}
use cfunge.Ip.{Ip, toss, set_toss}
use cfunge.Ip.Toss.{toss-set_toss}
use cfunge.Interpreter.Execute.{Settings}
use cfunge.Sysinfo.{
  Surroundings, old_handprint, version_y, cell_size, flags, paradigm, date_cell, time_cell,
  push_tops, or_create, or_cache, push_values, push_all, yval, Kept, run_sys_info,
}

-- Cells pushed one after the other, the first of the list last.
push_cells_of : List ℕ → Stack → Stack
push_cells_of [] s = s
push_cells_of (v ∷ vs) s = push v (push_cells_of vs s)

push_cells_of-IsValid : (vs : List ℕ) (s : Stack) → IsValid s → IsValid (push_cells_of vs s)
unfolding push_cells_of
push_cells_of-IsValid [] s h = h
push_cells_of-IsValid (v ∷ vs) s h =
    push-IsValid v (push_cells_of vs s) (push_cells_of-IsValid vs s h)

contents-push_cells_of :
    (vs : List ℕ) (s : Stack) → IsValid s → contents (push_cells_of vs s) ≡ vs ++ contents s
unfolding push_cells_of
contents-push_cells_of [] s h = refl
contents-push_cells_of (v ∷ vs) s h =
    contents-push v (push_cells_of vs s) (push_cells_of-IsValid vs s h)
    ∙ ap (λ l. v ∷ l) (contents-push_cells_of vs s h)

push_tops-IsValid :
    (n : ℕ) (stacks : ℕ → Stack) (s : Stack) → IsValid s → IsValid (push_tops n stacks s)
unfolding push_tops
push_tops-IsValid zero stacks s h = h
push_tops-IsValid (suc n) stacks s h =
    push-IsValid (stacks n).top (push_tops n stacks s) (push_tops-IsValid n stacks s h)

-- Something for each of the first n numbers.
Each : ℕ → (ℕ → Type 0) → Type 0
Each zero P = Unit {0}
Each (suc n) P = P 0 × Each n (λ i. P (suc i))

each : (n : ℕ) (P : ℕ → Type 0) → Each n P → (i : ℕ) → i < n → P i
unfolding Each
each zero P h i less = absurd (omega arith)
each (suc n) P h zero less = h.0
each (suc n) P h (suc i) less = each n (λ i. P (suc i)) h.1 i (omega arith)

module _ (settings : Settings) (sys : Surroundings) (memory : ℕ → ℕ) where
  -- The first cells of the list, from the top.
  leading : FungeRect → ℕ → Ip → List ℕ
  leading rect toss_size ip =
      flags settings
      ∷ cell_size
      ∷ old_handprint
      ∷ version_y
      ∷ paradigm settings
      ∷ b'/'
      ∷ 2
      ∷ ip.id
      ∷ 0
      ∷ ip.position.y
      ∷ ip.position.x
      ∷ ip.delta.y
      ∷ ip.delta.x
      ∷ ip.storage_offset.y
      ∷ ip.storage_offset.x
      ∷ rect.y
      ∷ rect.x
      ∷ rect.h
      ∷ rect.w
      ∷ date_cell sys.now
      ∷ time_cell sys.now
      ∷ (ip.stackstack.current + 1)
      ∷ toss_size
      ∷ []

  push_values_lem :
      (rect : FungeRect) (n : ℕ) (ip : Ip) (s : Stack)
      → push_values settings sys memory rect n ip s
        ≡ push_cells_of (leading rect n ip) (push_tops ip.stackstack.current ip.stackstack.stacks s)
  unfolding push_values push_cells_of leading push_vector
  push_values_lem rect n ip s = refl

  get_or-append : (xs ys : List ℕ) (i : ℕ) → i < length xs → get_or (xs ++ ys) i 0 ≡ get_or xs i 0
  get_or-append [] ys i h = absurd (omega arith)
  get_or-append (x ∷ xs) ys zero h = refl
  get_or-append (x ∷ xs) ys (suc i) h = get_or-append xs ys i (omega arith)

  get_or-down : (f : ℕ → ℕ) (n i : ℕ) → i < n → get_or (down f n) i 0 ≡ f (n - suc i)
  get_or-down f zero i h = absurd (omega arith)
  get_or-down f (suc n) zero h = ap f (omega arith)
  get_or-down f (suc n) (suc i) h = get_or-down f n i (omega arith) ∙ ap f (omega arith)

  module _ (lib : HashLib) where
    Listed : ℕ → Ip → Space lib → ℕ → Type 0
    Listed n ip space i =
        (t : Space lib) × (yval settings sys memory lib n (suc i) ip space
          ≡ some (get_or (leading (get_bounds_rect lib space).0 n ip) i 0, t))

    listed : (n : ℕ) (ip : Ip) (space : Space lib) → Each 23 (Listed n ip space)
    unfolding Each Listed yval leading
    listed n ip space = (
      (_, refl),
      (
        (_, refl),
        (
          (_, refl),
          (
            (_, refl),
            (
              (_, refl),
              (
                (_, refl),
                (
                  (_, refl),
                  (
                    (_, refl),
                    (
                      (_, refl),
                      (
                        (_, refl),
                        (
                          (_, refl),
                          (
                            (_, refl),
                            (
                              (_, refl),
                              (
                                (_, refl),
                                (
                                  (_, refl),
                                  (
                                    (_, refl),
                                    (
                                      (_, refl),
                                      (
                                        (_, refl),
                                        (
                                          (_, refl),
                                          ((_, refl), ((_, refl), ((_, refl), ((_, refl), tt)))),
                                        ),
                                      ),
                                    ),
                                  ),
                                ),
                              ),
                            ),
                          ),
                        ),
                      ),
                    ),
                  ),
                ),
              ),
            ),
          ),
        ),
      ),
    )

    contents-push_all :
        (cached : Option Stack) (n : ℕ) (ip : Ip) (space : Space lib) (s : Stack)
        → IsValid s
        → (rest : List ℕ) × (contents (push_all settings sys memory lib cached n ip space s).0
            ≡ leading (get_bounds_rect lib space).0 n ip ++ rest)
    unfolding push_all
    contents-push_all cached n ip space s h =
        let cache = or_cache settings sys memory cached in
        let below = bulk_copy s cache cache.top in
        let tops = push_tops ip.stackstack.current ip.stackstack.stacks below in
        let valid =
          push_tops-IsValid ip.stackstack.current ip.stackstack.stacks below
            (bulk_copy-IsValid s cache cache.top h) in
        (
          contents tops,
          ap contents (push_values_lem (get_bounds_rect lib space).0 n ip below)
              ∙ contents-push_cells_of (leading (get_bounds_rect lib space).0 n ip) tops valid,
        )

    pub push_all-IsValid :
        (cached : Option Stack) (n : ℕ) (ip : Ip) (space : Space lib) (s : Stack)
        → IsValid s
        → IsValid (push_all settings sys memory lib cached n ip space s).0
    unfolding push_all
    push_all-IsValid cached n ip space s h =
        let cache = or_cache settings sys memory cached in
        let below = bulk_copy s cache cache.top in
        let rect = (get_bounds_rect lib space).0 in
        subst⁻¹ IsValid (push_values_lem rect n ip below) (
          push_cells_of-IsValid (leading rect n ip)
            (push_tops ip.stackstack.current ip.stackstack.stacks below)
            (push_tops-IsValid ip.stackstack.current ip.stackstack.stacks below
              (bulk_copy-IsValid s cache cache.top h)))

    one_cell :
        (kept : Kept settings sys memory lib) (ip : Ip) (space t : Space lib) (r v : ℕ) (st : Stack)
        → pop (toss ip) ≡ (r, st)
        → sle r 0 ≡ false
        → slt r 24 ≡ true
        → yval settings sys memory lib st.top r (set_toss st ip) space ≡ some (v, t)
        → (run_sys_info settings sys memory lib kept ip space).0
          ≡ set_toss (push v st) (set_toss st ip)
    unfolding run_sys_info
    one_cell kept ip space t r v st e positive small found =
        rw (run_sys_info, e, positive, small, found) refl

    listed_cell :
        (kept : Kept settings sys memory lib) (ip : Ip) (space : Space lib) (r : ℕ) (st : Stack)
        → pop (toss ip) ≡ (r, st)
        → sle r 0 ≡ false
        → slt r 24 ≡ false
        → (let u =
              (push_all settings sys memory lib kept.cache st.top
                (set_toss st ip)
                space
                (or_create settings sys memory kept.tmp)).0 in
            leb r u.top ≡ true
            → (run_sys_info settings sys memory lib kept ip space).0
              ≡ set_toss (push (u.entries (u.top - r)) st) (set_toss st ip))
    unfolding run_sys_info
    listed_cell kept ip space r st e positive large enough =
        rw (run_sys_info, e, positive, large, enough) refl

    of_23 : (rect : FungeRect) (n : ℕ) (ip : Ip) (i : ℕ) → i < 23 → i < length (leading rect n ip)
    unfolding leading
    of_23 rect n ip i h = h

    -- The cells of the stack after y, by the cell that it pushes.
    pushed :
        (ip : Ip) (v w : ℕ) (st : Stack) (result : Ip)
        → result ≡ set_toss (push v st) (set_toss st ip)
        → IsValid st
        → v ≡ w
        → contents (toss result) ≡ w ∷ contents st
    pushed ip v w st result e valid same =
        ap (λ p. contents (toss p)) e
        ∙ ap contents (toss-set_toss (push v st) (set_toss st ip))
        ∙ contents-push v st valid
        ∙ ap (λ x. x ∷ contents st) same

    -- y with a request r, 0 < r < 2 ^ 63, that is at most the number of cells of the whole list,
    -- pushed on a valid temporary stack: it puts the r-th cell of that list from the top on the
    -- stack, be it one of the 23 that are worked out alone or not; with a valid stack, the other
    -- cells are as before.
    pub run_sys_info_lem :
        (kept : Kept settings sys memory lib) (ip : Ip) (space : Space lib) (r : ℕ) (st u : Stack)
        → pop (toss ip) ≡ (r, st)
        → u
          ≡ (push_all settings sys memory lib kept.cache st.top
              (set_toss st ip)
              space
              (or_create settings sys memory kept.tmp)).0
        → IsValid st
        → IsValid (or_create settings sys memory kept.tmp)
        → 0 < r
        → r < 2 ^ 63
        → r ≤ u.top
        → contents (toss (run_sys_info settings sys memory lib kept ip space).0)
          ≡ get_or (contents u) (r - 1) 0 ∷ contents st
    unfolding Listed
    run_sys_info_lem kept ip space zero st u e eu hs hu pos small enough = absurd (omega arith)
    run_sys_info_lem kept ip space (suc i) st u e eu hs hu pos small enough =
        elim (Bool-cases (slt (suc i) 24)) [
          | inl one ↦
              let below : i < 23 = ground (arith, one) in
              let ip' = set_toss st ip in
              let rect = (get_bounds_rect lib space).0 in
              let (t, found) =
                each 23 (Listed st.top ip' space) (listed st.top ip' space) i below in
              let (rest, all) =
                contents-push_all kept.cache st.top ip' space
                  (or_create settings sys memory kept.tmp) hu in
              pushed ip (get_or (leading rect st.top ip') i 0) (get_or (contents u) (suc i - 1) 0)
                st _ (one_cell kept ip space t (suc i) _ st e positive one found) hs
                (sym (
                  ap (λ l. get_or l (suc i - 1) 0) (ap contents eu ∙ all)
                  ∙ ap (λ k. get_or (leading rect st.top ip' ++ rest) k 0) (omega arith)
                  ∙ get_or-append (leading rect st.top ip') rest i (of_23 rect st.top ip' i below)))
          | inr more ↦
              pushed ip (u.entries (u.top - suc i)) (get_or (contents u) (suc i - 1) 0) st _
                (subst
                  (λ w.
                    leb (suc i) w.top ≡ true
                    → (run_sys_info settings sys memory lib kept ip space).0
                      ≡ set_toss (push (w.entries (w.top - suc i)) st) (set_toss st ip))
                  (sym eu) (listed_cell kept ip space (suc i) st e positive more) (ground arith))
                hs
                (sym (
                  ap (λ k. get_or (contents u) k 0) (omega arith)
                  ∙ get_or-down u.entries u.top i (omega arith)))
        ]
      where
        positive : sle (suc i) 0 ≡ false
        positive = ground arith
