-- ===== src/Fingerprints/Bool.antt =====
-- src/fingerprints/BOOL/BOOL.c: logic on the bits of cells.
use Prim.Native.Nat.{bit_and, bit_or, bit_xor}
use cfunge.Prelude.{◌-◌, ◌^◌}
use cfunge.Stack.{push, pop}
use cfunge.Ip.{Ip, toss, set_toss}
use cfunge.Interpreter.Stacks.{binary}

-- A
unfoldable pub and : Ip → Ip
and ip = set_toss (binary bit_and (toss ip)) ip

-- N
unfoldable pub not : Ip → Ip
not ip = let (a, s) = pop (toss ip) in set_toss (push (2 ^ 64 - 1 - a) s) ip

-- O
unfoldable pub or : Ip → Ip
or ip = set_toss (binary bit_or (toss ip)) ip

-- X
unfoldable pub xor : Ip → Ip
xor ip = set_toss (binary bit_xor (toss ip)) ip
