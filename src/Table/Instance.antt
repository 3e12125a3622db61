-- ===== src/Table/Instance.antt =====
-- The hash tables by association lists, for examples to run on.
use cfunge.Prelude.{Bool, [], ◌==◌, ==_iff, refl, ◌≡◌, true, ◌↔◌}
use cfunge.Vector.{same_vector, same_vector_iff}
use cfunge.Table.{Table, HashLib}
use cfunge.Table.Assoc
use cfunge.Table.Assoc.{get-insert, insert_present, get-assign, get-remove}

abbrev assoc_table :
    {K : Type 0} (same : K → K → Bool) → ((a b : K) → (same a b ≡ true) ↔ (a ≡ b)) → Table K same
assoc_table same same_iff = record {
  Carrier = Assoc.Entries same;
  empty = [];
  get = Assoc.get same;
  insert = Assoc.insert same;
  assign = Assoc.assign same;
  replace = Assoc.assign same;
  remove = Assoc.remove same;
  keys = Assoc.keys same;
  get-empty = λ k. refl;
  get-insert = get-insert same same_iff;
  insert_present = insert_present same same_iff;
  get-assign = get-assign same same_iff;
  get-remove = get-remove same same_iff;
}

abbrev pub assoc_lib : HashLib
assoc_lib = record {
  fspace = assoc_table same_vector same_vector_iff;
  fspacecount = assoc_table ◌==◌ ==_iff;
}
