-- ===== src/Fingerprints/Cpli/Tests.antt =====
-- What O prints where the imaginary part is 0.
use cfunge.Prelude.{ℕ, ◌+◌, ◌≡◌, refl, List, [], ◌∷◌}
use cfunge.Stack.{push}
use cfunge.Ip.{Ip, ip_create, toss, set_toss}
use cfunge.Fingerprints.Cpli.{out}

abbrev three : Ip
three = let ip = ip_create (λ _. 0) in set_toss (push 0 (push 3 (toss ip))) ip

no_sign : (out (λ a. (b'0' + a) ∷ []) three).0 ≡ b'3' ∷ b'0' ∷ b'i' ∷ b' ' ∷ []
unfolding out cfunge.Stack.pop cfunge.Prelude.update ip_create cfunge.Ip.stackstack_create push
    cfunge.Stack.create cfunge.Stack.store
no_sign = refl
