-- ===== src/Fingerprints/Roma.antt =====
-- src/fingerprints/ROMA/ROMA.c: Roman numerals.
use cfunge.Prelude.{ℕ, Option, none, some, ◌==◌, if◌then◌else◌}
use cfunge.Stack.{push}
use cfunge.Ip.{Ip, toss, set_toss}

-- ROMAPUSH
abbrev push_numeral : ℕ → Ip → Ip
push_numeral n ip = set_toss (push n (toss ip)) ip

-- The function of a letter.
unfoldable pub roma : ℕ → Option (Ip → Ip)
roma c =
    if c == b'I'
    then some (push_numeral 1)
    else if c == b'V'
    then some (push_numeral 5)
    else if c == b'X'
    then some (push_numeral 10)
    else if c == b'L'
    then some (push_numeral 50)
    else if c == b'C'
    then some (push_numeral 100)
    else if c == b'D'
    then some (push_numeral 500)
    else if c == b'M'
    then some (push_numeral 1000)
    else none
