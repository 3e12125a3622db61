-- ===== src/IpList/Order.antt =====
-- Splitting and ending keep the other instruction pointers, and their order.
use cfunge.Prelude.{
  ℕ, zero, suc, ◌+◌, ◌-◌, ◌≤◌, ◌<◌, ◌≡◌, refl, ap, ◌∙◌, arith, Bool, not, some, ltb, leb, ◌==◌,
  if◌then◌else◌, update, update_self, update_ne, memcpy, Bool-cases, Option-cases, inl, inr,
}
use mathlib.Core.Path.{subst⁻¹}
use cfunge.Cell.{add, mul, minus_one}
use cfunge.Table.{HashLib}
use cfunge.Space.{Space}
use cfunge.Space.Wrap.{fungespace_wrap}
use cfunge.Space.Wrap.Cardinal.{step}
use cfunge.Stack.{Stack}
use cfunge.Stack.Contents.{contents}
use cfunge.StackStack.Copy.{down-eq}
use cfunge.Ip.{Ip, reverse, forward, forward_no_wrap}
use cfunge.IpList.{
  stack_duplicate, stackstack_duplicate, ip_duplicate, IpList, move_up, move_down, grow, child,
  iplist_duplicate_ip, iplist_terminate_ip,
}

move_up_lem :
    (n index j : ℕ) (ips : ℕ → Ip)
    → move_up n index ips j
      ≡ (if ltb index j then (if leb j (index + n) then ips (j - 1) else ips j) else ips j)
unfolding move_up update
move_up_lem zero index j ips = ground (arith, ap ips)
move_up_lem (suc n) index j ips =
    ground (arith, move_up_lem n index j (update ips (index + suc n) (ips (index + n))), ap ips)

move_down_lem :
    (n index j : ℕ) (ips : ℕ → Ip)
    → move_down n index ips j
      ≡ (if leb index j then (if ltb j (index + n) then ips (j + 1) else ips j) else ips j)
unfolding move_down update
move_down_lem zero index j ips = ground (arith, ap ips)
move_down_lem (suc n) index j ips =
    ground (arith, move_down_lem n (index + 1) j (update ips index (ips (index + 1))), ap ips)

abbrev pub shifted : ℕ → IpList → ℕ → Ip
shifted index list =
    if not (index == list.top) then move_up (list.top + 1 - index) index list.ips else list.ips

shifted_low :
    (index j : ℕ) (list : IpList) → index ≤ list.top → j ≤ index → shifted index list j ≡ list.ips j
shifted_low index j list h p = ground (arith, move_up_lem (list.top + 1 - index) index j list.ips)

shifted_high :
    (index j : ℕ) (list : IpList)
    → index < j
    → j ≤ list.top
    → shifted index list (j + 1) ≡ list.ips j
shifted_high index j list p q =
    ground (arith, move_up_lem (list.top + 1 - index) index (j + 1) list.ips, ap list.ips)

pub grow-top :
    (alloc : ℕ → Bool) (list list' : IpList)
    → grow alloc list ≡ some list'
    → list.top < list.size
    → list.top + 1 < list'.size
unfolding grow
grow-top alloc list list' h room = ground arith

-- An IP with the negative delta of another, one step on from it, and with the cells of its stacks.
pub record IsChild (lib : HashLib) (s : Space lib) (parent new : Ip) : Type 0 where
  pub reversed_x : add new.delta.x parent.delta.x ≡ 0
  pub reversed_y : add new.delta.y parent.delta.y ≡ 0
  pub moved : new.position ≡ (fungespace_wrap lib (step parent.position new.delta) new.delta s).0
  pub storage_offset : new.storage_offset ≡ parent.storage_offset
  pub mode : new.mode ≡ parent.mode
  pub current : new.stackstack.current ≡ parent.stackstack.current
  pub cells : (j : ℕ) → contents (new.stackstack.stacks j) ≡ contents (parent.stackstack.stacks j)

reversed_sum : (a : ℕ) → add (mul a minus_one) a ≡ 0
unfolding mul
reversed_sum a = omega arith

contents-stack_duplicate :
    (memory : ℕ → ℕ) (s : Stack) → contents (stack_duplicate memory s) ≡ contents s
unfolding stack_duplicate
contents-stack_duplicate memory s =
    down-eq (stack_duplicate memory s).entries s.entries s.top
      (λ j p. unfold memcpy in ground arith)

child-IsChild :
    (lib : HashLib) (disable : Bool) (memory : ℕ → ℕ) (parent : Ip) (s : Space lib)
    → IsChild lib s parent (child lib disable memory parent s).0
unfolding child reverse forward forward_no_wrap ip_duplicate stackstack_duplicate
child-IsChild lib disable memory parent s = record {
  reversed_x = reversed_sum parent.delta.x;
  reversed_y = reversed_sum parent.delta.y;
  moved = refl;
  storage_offset = refl;
  mode = refl;
  current = refl;
  cells = λ j. contents-stack_duplicate memory (parent.stackstack.stacks j);
}

abbrev pub numbered : ℕ → Ip → Ip
numbered n ip = record ip { id = n }

numbered-IsChild :
    (lib : HashLib) (s : Space lib) (n : ℕ) (parent new : Ip)
    → IsChild lib s parent new
    → IsChild lib s parent (numbered n new)
numbered-IsChild lib s n parent new h = record {
  reversed_x = h.reversed_x;
  reversed_y = h.reversed_y;
  moved = h.moved;
  storage_offset = h.storage_offset;
  mode = h.mode;
  current = h.current;
  cells = h.cells;
}

-- What a split at an index leaves: the child behind its parent, and the others in their order.
pub record Split (lib : HashLib) (s : Space lib) (index : ℕ) (list list' : IpList) : Type 0 where
  pub one_more : list'.top ≡ list.top + 1
  pub room : list'.top < list'.size
  pub before : (j : ℕ) → j ≤ index → list'.ips j ≡ list.ips j
  pub inserted : IsChild lib s (list.ips index) (list'.ips (index + 1))
  pub number : (list'.ips (index + 1)).id ≡ list.highest_id + 1
  pub highest : list'.highest_id ≡ list.highest_id + 1
  pub after : (j : ℕ) → index < j → j ≤ list.top → list'.ips (j + 1) ≡ list.ips j

module _ (lib : HashLib) (disable : Bool) (memory : ℕ → ℕ) (alloc : ℕ → Bool) (index : ℕ)
    (list : IpList) (s : Space lib) where
  child_placed :
      index ≤ list.top
      → update
          (shifted index list)
          (index + 1)
          (numbered (list.highest_id + 1) (child lib disable memory (shifted index list index) s).0)
          (index + 1)
        ≡ numbered (list.highest_id + 1) (child lib disable memory (list.ips index) s).0
  child_placed h =
      update_self (shifted index list) (index + 1) _
      ∙ ap (λ ip. numbered (list.highest_id + 1) (child lib disable memory ip s).0)
          (shifted_low index index list h (omega arith))

  pub iplist_duplicate_ip-child :
      index ≤ list.top
      → (iplist_duplicate_ip lib disable memory alloc index list s).0 ≡ some index
      → (iplist_duplicate_ip lib disable memory alloc index list s).1.ips (index + 1)
        ≡ numbered (list.highest_id + 1) (child lib disable memory (list.ips index) s).0
  unfolding iplist_duplicate_ip
  iplist_duplicate_ip-child h done = elim (Option-cases (grow alloc list)) [
    | inl p ↦ ground arith
    | inr (grown, p) ↦ rw p (child_placed h)
  ]

  -- A split of an instruction pointer in the list that does not fail puts a child behind it and
  -- keeps all others in their order. The delta of the child is the negative of its parent's, its
  -- position is one step with that delta from its parent's, wrapped, and its stacks hold the same
  -- cells; its number is the next after the highest, and is the highest now.
  pub iplist_duplicate_ip-Split :
      index ≤ list.top
      → list.top < list.size
      → (iplist_duplicate_ip lib disable memory alloc index list s).0 ≡ some index
      → Split lib s index list (iplist_duplicate_ip lib disable memory alloc index list s).1
  unfolding iplist_duplicate_ip
  iplist_duplicate_ip-Split h room done = elim (Option-cases (grow alloc list)) [
    | inl p ↦ ground arith
    | inr (grown, p) ↦
        let placed = child_placed h in
        rw p (record {
          one_more = refl;
          room = grow-top alloc list grown p room;
          before = λ j q.
              update_ne (shifted index list) (index + 1) j _ (omega arith)
              ∙ shifted_low index j list h q;
          inserted = subst⁻¹ (IsChild lib s (list.ips index)) placed (
              numbered-IsChild lib s (list.highest_id + 1) (list.ips index) _
                (child-IsChild lib disable memory (list.ips index) s));
          number = ap (λ ip. ip.id) placed;
          highest = refl;
          after = λ j q r.
              update_ne (shifted index list) (index + 1) (j + 1) _ (omega arith)
              ∙ shifted_high index j list q r;
        })
  ]

-- The end of an instruction pointer closes the gap that it leaves.
pub iplist_terminate_ip_lem :
    (index j : ℕ) (list : IpList)
    → index ≤ list.top
    → j < list.top
    → (iplist_terminate_ip index list).1.ips j
      ≡ (if ltb j index then list.ips j else list.ips (j + 1))
unfolding iplist_terminate_ip
iplist_terminate_ip_lem index j list h p =
    ground (arith, move_down_lem (list.top - index) index j list.ips)

-- If an instruction pointer splits and its child ends, the list has the same instruction pointers
-- at the same places as before.
pub iplist_terminate_ip-iplist_duplicate_ip :
    (lib : HashLib) (disable : Bool) (memory : ℕ → ℕ) (alloc : ℕ → Bool) (index : ℕ) (list : IpList)
    (s : Space lib)
    → index ≤ list.top
    → list.top < list.size
    → (iplist_duplicate_ip lib disable memory alloc index list s).0 ≡ some index
    → let list' =
        (iplist_terminate_ip
          (index + 1)
          (iplist_duplicate_ip lib disable memory alloc index list s).1).1 in
      (list'.top ≡ list.top) × ((j : ℕ) → j ≤ list.top → list'.ips j ≡ list.ips j)
unfolding iplist_terminate_ip
iplist_terminate_ip-iplist_duplicate_ip lib disable memory alloc index list s h room done =
    let split = iplist_duplicate_ip-Split lib disable memory alloc index list s h room done in
    let list₁ = (iplist_duplicate_ip lib disable memory alloc index list s).1 in
    let one_more = split.one_more in
    (
      omega arith,
      λ j q.
          iplist_terminate_ip_lem (index + 1) j list₁ (omega arith) (omega arith)
          ∙ elim (Bool-cases (ltb j (index + 1))) [
            | inl low ↦ rw low (split.before j (ground arith))
            | inr high ↦ rw high (split.after j (ground arith) q)
          ],
    )
