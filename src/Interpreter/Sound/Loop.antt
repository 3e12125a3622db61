-- ===== src/Interpreter/Sound/Loop.antt =====
-- The order of the list of instruction pointers and their stacks under splitting and ending.
use cfunge.Prelude.{
  ℕ, ◌+◌, ◌-◌, ◌≤◌, ◌<◌, ◌≡◌, arith, Bool, false, Option, none, some, ltb, leb, ◌==◌, update,
  Bool-cases, Option-cases, inl, inr,
}
use mathlib.Core.Path.{subst⁻¹}
use cfunge.Table.{HashLib}
use cfunge.Space.{Space}
use cfunge.Ip.{Ip, Mode, code_mode, string_mode, reverse, forward, forward_no_wrap}
use cfunge.IpList.{IpList, ip_duplicate, child, grow, iplist_duplicate_ip, iplist_terminate_ip}
use cfunge.IpList.Order.{
  Split, iplist_duplicate_ip-Split, iplist_duplicate_ip-child, iplist_terminate_ip_lem,
}
use cfunge.Interpreter.Sound.{IpSound, if_all, update_all}
use cfunge.Interpreter.Sound.Blocks.{stackstack_duplicate-IsSound}

-- The list is within its array, and its instruction pointers have their stacks in order.
pub record ListSound (list : IpList) : Type 0 where
  pub room : list.top < list.size
  pub sound : (j : ℕ) → j ≤ list.top → IpSound (list.ips j)

abbrev pub IndexIn : Option ℕ → IpList → Type 0
IndexIn none list = Unit {0}
IndexIn (some i) list = i ≤ list.top

-- An instruction pointer of the list is changed.
pub update-ListSound :
    (i : ℕ) (ip : Ip) (list : IpList)
    → IpSound ip
    → ListSound list
    → ListSound (record list { ips = update list.ips i ip })
update-ListSound i ip list h hl = record {
  room = hl.room;
  sound = λ j q. update_all IpSound list.ips i j ip h (hl.sound j q);
}

pub terminate-ListSound :
    (index : ℕ) (list : IpList)
    → index ≤ list.top
    → (list.top == 0) ≡ false
    → ListSound list
    → ListSound (iplist_terminate_ip index list).1
      × ((iplist_terminate_ip index list).0 ≤ (iplist_terminate_ip index list).1.top)
unfolding iplist_terminate_ip
terminate-ListSound index list h more hl = (
  record {
    room = omega (arith, hl.room);
    sound = λ j q. subst⁻¹ IpSound (iplist_terminate_ip_lem index j list h (ground arith)) (
        if_all IpSound (ltb j index) (hl.sound j (ground arith)) (hl.sound (j + 1) (ground arith)));
  },
  ground arith,
)

pub mode_all {ℓ} :
    {A : Type ℓ} (P : A → Type 0) (mode : Mode) {x y : A}
    → P x
    → P y
    → P (elim mode [ string_mode ↦ x | code_mode ↦ y ])
mode_all P string_mode h k = h
mode_all P code_mode h k = k

module _ (lib : HashLib) (disable : Bool) (memory : ℕ → ℕ) (alloc : ℕ → Bool) where
  child-IpSound : (ip : Ip) (s : Space lib) → IpSound ip → IpSound (child lib disable memory ip s).0
  unfolding child ip_duplicate reverse forward forward_no_wrap
  child-IpSound ip s h = stackstack_duplicate-IsSound memory ip.stackstack h

  Split-ListSound :
      (index : ℕ) (list list' : IpList) (s : Space lib)
      → index ≤ list.top
      → Split lib s index list list'
      → IpSound (list'.ips (index + 1))
      → ListSound list
      → ListSound list'
  Split-ListSound index list list' s h sp hn hl = record {
    room = sp.room;
    sound = λ j q. elim (Bool-cases (leb j index)) [
      | inl low ↦ subst⁻¹ IpSound (sp.before j (ground arith)) (hl.sound j (ground arith))
      | inr high ↦ elim (Bool-cases (j == index + 1)) [
        | inl here ↦
            let same : j ≡ index + 1 = ground arith in subst⁻¹ (λ k. IpSound (list'.ips k)) same hn
        | inr up ↦
            let k = j - 1 in
            let same : j ≡ k + 1 = ground arith in
            subst⁻¹ (λ i. IpSound (list'.ips i)) same
              (subst⁻¹ IpSound (sp.after k (ground arith) (omega (arith, sp.one_more)))
                (hl.sound k (omega (arith, sp.one_more))))
      ]
    ];
  }

  -- What a split leaves, whether it succeeds or not.
  abbrev pub Duplicated : ℕ → Option ℕ × IpList × Space lib → Type 0
  Duplicated index (o, list, s) = ListSound list × (index ≤ list.top) × IndexIn o list

  pub iplist_duplicate_ip-Duplicated :
      (index : ℕ) (list : IpList) (s : Space lib)
      → index ≤ list.top
      → ListSound list
      → Duplicated index (iplist_duplicate_ip lib disable memory alloc index list s)
  unfolding iplist_duplicate_ip
  iplist_duplicate_ip-Duplicated index list s h hl = elim (Option-cases (grow alloc list)) [
    | inl p ↦ rw p (hl, h, tt)
    | inr (grown, p) ↦
        let done : (iplist_duplicate_ip lib disable memory alloc index list s).0 ≡ some index =
          rw p in
        let sp = iplist_duplicate_ip-Split lib disable memory alloc index list s h hl.room done in
        let list' = (iplist_duplicate_ip lib disable memory alloc index list s).1 in
        let kept =
          Split-ListSound index list list' s h sp
            (subst⁻¹ IpSound
              (iplist_duplicate_ip-child lib disable memory alloc index list s h done)
              (child-IpSound (list.ips index) s (hl.sound index h)))
            hl in
        (
          kept,
          omega (arith, sp.one_more),
          subst⁻¹ (λ o. IndexIn o list') done (omega (arith, sp.one_more)),
        )
  ]
