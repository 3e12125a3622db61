-- ===== src/Fingerprints/Subr/Tests.antt =====
-- The theorem on calls at a call with one argument, whose subroutine leaves two cells.
use cfunge.Prelude.{◌+◌, ◌≡◌, refl, sym, ap, arith, [], ◌∷◌, update, drop}
use cfunge.Table.Instance.{assoc_lib}
use cfunge.Space.{create}
use cfunge.Space.Wrap.{fungespace_wrap}
use cfunge.Stack.{Stack}
use cfunge.Stack.Contents.{contents}
use cfunge.Ip.{Ip, ip_create, stackstack_create, toss, set_toss}
use cfunge.Fingerprints.Subr.{return}
use cfunge.Fingerprints.Subr.Return.{contents-call, return-call}

-- 10 11 12 13 1 from the bottom
abbrev before : Stack
before = record { entries = update (λ i. i + 10) 4 1; size = 16; top = 5 }

abbrev caller : Ip
caller = set_toss before (ip_create (λ _. 0))

-- 10 0 0 1 0 6 5 2 from the bottom
abbrev after : Stack
after = record {
  entries = update (update (update (update (update (λ _. 0) 0 10) 3 1) 5 6) 6 5) 7 2;
  size = 16;
  top = 8;
}

abbrev callee : Ip
callee = set_toss after (ip_create (λ _. 0))

return-call_example :
    let back = (return (λ _. 0) assoc_lib callee (create assoc_lib)).0 in
    (contents (toss back) ≡ 5 ∷ 6 ∷ 10 ∷ [])
    × (back.delta ≡ caller.delta)
    × (back.position
        ≡ (fungespace_wrap assoc_lib caller.position callee.delta (create assoc_lib)).0)
unfolding ip_create stackstack_create update
return-call_example =
    return-call (λ _. 0) assoc_lib 1 (record { x = 12; y = 13 }) (11 ∷ 10 ∷ []) (5 ∷ 6 ∷ []) caller
      callee (create assoc_lib) (create assoc_lib) (record { fits = omega arith }) refl
      (omega arith) (omega arith) (record { fits = omega arith })
      (ap (λ l. 2 ∷ 5 ∷ 6 ∷ drop 1 l)
        (sym (
          contents-call (λ _. 0) assoc_lib 1 (record { x = 12; y = 13 }) (11 ∷ 10 ∷ []) caller
            (create assoc_lib) (record { fits = omega arith }) refl (omega arith) (omega arith))))
      (omega arith)
