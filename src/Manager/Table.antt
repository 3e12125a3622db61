-- ===== src/Manager/Table.antt =====
-- src/fingerprints/fingerprints.h: the fingerprints of a build with floating point and ncurses, and
-- the opcodes that each one's load function adds, in its order.
use Prim.Native.String.{String}
use Prim.Native.Char.{code}
use cfunge.Prelude.{ℕ, Bool, true, false, List, [], ◌∷◌}

-- The characters of a string of the source.
abbrev pub codes : String → List ℕ
codes String.[] = []
codes (String.◌∷◌ c s) = code c ∷ codes s

pub record ImplementedFingerprint : Type 0 where
  pub fprint : ℕ
  pub opcodes : List ℕ  -- what an unload drops
  pub loaded : List ℕ  -- what the load function adds
  pub safe : Bool

abbrev entry : ℕ → String → String → Bool → ImplementedFingerprint
entry fprint opcodes loaded safe = record {
  fprint = fprint;
  opcodes = codes opcodes;
  loaded = codes loaded;
  safe = safe;
}

abbrev pub implemented_fingerprints : List ImplementedFingerprint
implemented_fingerprints =
    entry 0x33445350 "ABCDLMNPRSTUVXYZ" "ABCDLMNPRSTUVXYZ" true
    ∷ entry 0x42415345 "BHINO" "BHINO" true
    ∷ entry 0x424f4f4c "ANOX" "ANOX" true
    ∷ entry 0x43504c49 "ADMOSV" "ADMOSV" true
    ∷ entry 0x44415445 "ACDJTWY" "ACDJTWY" true
    ∷ entry 0x44495246 "CMR" "CMR" false
    ∷ entry 0x46494c45 "CDGLOPRSW" "CDGLOPRSW" false
    ∷ entry 0x46494e47 "XYZ" "XYZ" true
    ∷ entry 0x46495850 "ABCDIJNOPQRSTUVX" "ABCDIJNOPQRSTUVX" true
    ∷ entry 0x46504450 "ABCDEFGHIKLMNPQRSTVXY" "ABCDEFGHIKLMNPQRSTVXY" true
    ∷ entry 0x46505350 "ABCDEFGHIKLMNPQRSTVXY" "ABCDEFGHIKLMNPQRSTVXY" true
    ∷ entry 0x46525448 "DLOPR" "DLOPR" true
    ∷ entry 0x48525449 "EGMST" "EGMTS" true
    ∷ entry 0x494e4456 "GPVW" "GPVW" true
    ∷ entry 0x4a535452 "GP" "GP" true
    ∷ entry 0x4d4f4455 "MRU" "MRU" true
    ∷ entry 0x4e435253 "BCEGIKMNPRSU" "BCEGIKMNPRSU" true
    ∷ entry 0x4e554c4c "ABCDEFGHIJKLMNOPQRSTUVWXYZ" "ABCDEFGHIJKLMNOPQRSTUVWXY" true
    ∷ entry 0x4f525448 "AEGOPSVWXYZ" "AOEGPSVWXYZ" true
    ∷ entry 0x5045524c "EIS" "EIS" false
    ∷ entry 0x52454643 "DR" "DR" true
    ∷ entry 0x52455850 "CEF" "CEF" true
    ∷ entry 0x524f4d41 "CDILMVX" "CDILMVX" true
    ∷ entry 0x53434b45 "HP" "HP" false
    ∷ entry 0x534f434b "ABCIKLORSW" "ABCIKLORSW" false
    ∷ entry 0x5354524e "ACDFGILMNPRSV" "ACDFGILMNPRSV" true
    ∷ entry 0x53554252 "ACJOR" "ACJOR" true
    ∷ entry 0x5445524d "CDGHLSU" "CDGHLSU" true
    ∷ entry 0x54494d45 "DFGHLMOSWY" "DFGHLMOSWY" true
    ∷ entry 0x544f5953 "ABCDEFGHIJKLMNOPQRSTUVWXYZ" "ABCDEFGHIJKLMNOPQRSTUVWXYZ" true
    ∷ entry 0x54555254 "ABCDEFHILNPQRTU" "ABCDEFHILNPQRTU" true
    ∷ []
