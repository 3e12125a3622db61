-- ===== src/Ip/Toss.antt =====
-- src/ip.h: the stack of an instruction pointer, read and replaced.
use cfunge.Prelude.{◌≡◌, ap, update_self, update-update}
use cfunge.Stack.{Stack}
use cfunge.Ip.{Ip, toss, set_toss}

pub toss-set_toss : (s : Stack) (ip : Ip) → toss (set_toss s ip) ≡ s
toss-set_toss s ip = update_self ip.stackstack.stacks ip.stackstack.current s

pub set_toss-set_toss : (s t : Stack) (ip : Ip) → set_toss t (set_toss s ip) ≡ set_toss t ip
set_toss-set_toss s t ip =
    ap (λ stacks. record ip { stackstack = record ip.stackstack { stacks = stacks } })
      (update-update ip.stackstack.stacks ip.stackstack.current s t)
