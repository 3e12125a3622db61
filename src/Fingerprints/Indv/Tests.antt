-- ===== src/Fingerprints/Indv/Tests.antt =====
-- The theorem on W at the space that a run begins with.
use cfunge.Prelude.{◌≡◌, refl, false, some, List, [], ◌∷◌}
use cfunge.Vector.{Vector, IsVector, same_vector}
use cfunge.Table.Instance.{assoc_lib}
use cfunge.Space.{Space, create, get}
use cfunge.Space.Bounds.Covers.{Covers, create-Covers}
use cfunge.Cell.{add}
use cfunge.Stack.{Stack}
use cfunge.Stack.Contents.{contents}
use cfunge.Ip.{Ip, ip_create, toss, set_toss}
use cfunge.Fingerprints.Indv.{put_vec}
use cfunge.Fingerprints.Indv.Laws.{pointed, put_vec_lem}

abbrev four : Stack
four = record { entries = λ i. i; size = 16; top = 4 }

abbrev ip : Ip
ip = record (set_toss four (ip_create (λ _. 0))) { storage_offset = record { x = 5; y = 7 } }

cells : contents (toss ip) ≡ 3 ∷ 2 ∷ 1 ∷ 0 ∷ []
unfolding cfunge.Prelude.update ip_create cfunge.Ip.stackstack_create
cells = refl

put_vec_lem_example :
    let offset = ip.storage_offset in
    let v = pointed assoc_lib (create assoc_lib) (add 2 offset.x) (add 3 offset.y) offset in
    let right : Vector = record { x = add v.x 1; y = v.y } in
    (st : Stack) × (t : Space assoc_lib) × (put_vec assoc_lib ip (create assoc_lib)
      ≡ some (set_toss st ip, t))
    × (contents st ≡ [])
    × (get assoc_lib t v ≡ 1)
    × (get assoc_lib t right ≡ 0)
    × ((q : Vector)
        → IsVector q
        → same_vector v q ≡ false
        → same_vector right q ≡ false
        → get assoc_lib t q ≡ get assoc_lib (create assoc_lib) q)
    × Covers assoc_lib t
put_vec_lem_example =
    put_vec_lem assoc_lib ip (create assoc_lib) (record { x = 2; y = 3 }) (record { x = 0; y = 1 })
      [] (create-Covers assoc_lib) cells
