-- ===== src/IpList/Tests.antt =====
-- A split of the first instruction pointer, and the end of one of two.
use cfunge.Prelude.{ℕ, ◌≡◌, ◌≤◌, refl, arith, true, false}
use cfunge.Table.Instance.{assoc_lib}
use cfunge.Space.{create}
use cfunge.Ip.{ip_create}
use cfunge.IpList.{IpList, chunk, grow, iplist_duplicate_ip, iplist_terminate_ip}
use cfunge.IpList.Order.{Split, iplist_duplicate_ip-Split, iplist_terminate_ip-iplist_duplicate_ip}

abbrev memory : ℕ → ℕ
memory _ = 0

abbrev one : IpList
one = record { size = chunk; top = 0; highest_id = 4; ips = λ _. ip_create memory }

abbrev two : IpList
two = record {
  size = chunk;
  top = 1;
  highest_id = 4;
  ips = λ i. record (ip_create memory) { id = i };
}

iplist_duplicate_ip-Split_example :
    Split assoc_lib
      (create assoc_lib)
      0
      one
      (iplist_duplicate_ip assoc_lib false memory (λ _. true) 0 one (create assoc_lib)).1
unfolding iplist_duplicate_ip grow
iplist_duplicate_ip-Split_example =
    iplist_duplicate_ip-Split assoc_lib false memory (λ _. true) 0 one (create assoc_lib)
      (omega arith) (omega arith) refl

iplist_terminate_ip-iplist_duplicate_ip_example :
    let list =
      (iplist_terminate_ip 1
        (iplist_duplicate_ip assoc_lib false memory (λ _. true) 0 one (create assoc_lib)).1).1 in
    (list.top ≡ 0) × ((j : ℕ) → j ≤ 0 → list.ips j ≡ one.ips j)
unfolding iplist_duplicate_ip grow
iplist_terminate_ip-iplist_duplicate_ip_example =
    iplist_terminate_ip-iplist_duplicate_ip assoc_lib false memory (λ _. true) 0 one
      (create assoc_lib) (omega arith) (omega arith) refl
