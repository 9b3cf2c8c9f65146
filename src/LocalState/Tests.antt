-- ===== src/LocalState/Tests.antt =====
-- A walk over a small tree of local state.
use kapsaro.Base.{ℕ, zero, suc, List, [], ◌∷◌, ◌≡◌, ◌≤◌, ◌+◌, ◌*◌, refl, Text, true, some, length}
use kapsaro.Errors.{Result, ok}
use kapsaro.Text.{codes, text_eq, text_leb}
use kapsaro.LocalState.Scan.{
  directory, regular_file, EntryIdentity, EntryFacts, FileSystem, Stat, found,
  scan_child_entries_at,
}
use kapsaro.LocalState.Permission.{
  IsOwnerOnly, inspect_entry_facts, is_private, violation, insecure_mode,
}
use kapsaro.LocalState.Walk.{max_local_state_tree_entries, collect_local_state_tree_violations}
use kapsaro.LocalState.Walk.Bounds.{length-collect_local_state_tree_violations}
use kapsaro.LocalState.Walk.SafeEntries.{IsSafeDir}
use kapsaro.LocalState.Walk.Safety.{collect_local_state_tree_violations-IsSafeDir}
use kapsaro.Base.{All}
use kapsaro.LocalState.Permission.{insecure_ancestor}
use kapsaro.LocalState.Ancestry.{
  DirPath, Machine, resolved, resolve_existing_ancestor_bases,
  collect_local_state_ancestor_violations,
}
use kapsaro.LocalState.Ancestry.Exact.{AreSafeUpwards, collect_local_state_ancestor_violations_iff}

abbrev identity_of : ℕ → EntryIdentity
identity_of inode = record { device = 1; inode = inode }

-- the root, which holds one directory, which holds one file with the given mode
abbrev listing : ℕ → List (Result Text)
listing zero = ok (codes ".") ∷ ok (codes "keys") ∷ []
listing (suc dir) = ok (codes "key") ∷ []

abbrev stat : ℕ → ℕ → Stat
stat mode zero = found directory 448 7 (identity_of 1)
stat mode (suc dir) = found regular_file mode 7 (identity_of 2)

abbrev tree : ℕ → FileSystem
tree mode = record {
  Dir = ℕ;
  path = λ dir. codes "state";
  path_under = λ dir name. name;
  read_from = λ dir. ok (listing dir);
  statat = λ dir name. stat mode dir;
  decodes = λ name. true;
  metadata = λ dir. ok (record { owner = 7; mode = 448; is_dir = true });
  open_scanned_child_dir = λ dir name. ok (some 1);
  open_dir_identity = λ dir. ok (identity_of 1);
}

private_tree : collect_local_state_tree_violations (tree 384) 7 0 ≡ []
unfolding collect_local_state_tree_violations text_eq text_leb inspect_entry_facts is_private
    scan_child_entries_at
private_tree = refl

shared_file :
    collect_local_state_tree_violations (tree 420) 7 0 ≡ violation (codes "key") insecure_mode ∷ []
unfolding collect_local_state_tree_violations text_eq text_leb inspect_entry_facts is_private
    scan_child_entries_at
shared_file = refl

collect_local_state_tree_violations-IsSafeDir_example :
    (facts : EntryFacts) × (ok (record { owner = 7; mode = 448; is_dir = true }) ≡ ok facts)
    × IsOwnerOnly 7 facts.owner facts.mode
    × IsSafeDir (tree 384) 7 5 0
collect_local_state_tree_violations-IsSafeDir_example =
    collect_local_state_tree_violations-IsSafeDir (tree 384) 7 0 private_tree

length-collect_local_state_tree_violations_example :
    length (collect_local_state_tree_violations (tree 420) 7 0)
    ≤ 3 * max_local_state_tree_entries + 3
length-collect_local_state_tree_violations_example =
    length-collect_local_state_tree_violations (tree 420) 7 0

-- a machine on which every directory has the given mode and belongs to its administrator
abbrev machine : ℕ → Machine
machine mode = record {
  canonicalize = λ p. resolved p;
  metadata = λ p. ok (record { owner = 0; mode = mode; is_dir = true });
  display = λ p. codes "p";
}

abbrev home_state : DirPath
home_state = record { absolute = true; names = codes "state" ∷ codes "home" ∷ [] }

closed_above : collect_local_state_ancestor_violations (machine 493) 7 home_state ≡ []
unfolding collect_local_state_ancestor_violations text_eq
closed_above = refl

open_above :
    collect_local_state_ancestor_violations (machine 511) 7 home_state
    ≡ violation (codes "p") insecure_ancestor ∷ violation (codes "p") insecure_ancestor ∷ []
unfolding collect_local_state_ancestor_violations text_eq
open_above = refl

collect_local_state_ancestor_violations_iff_example :
    (bases : List DirPath) × (resolve_existing_ancestor_bases (machine 493) home_state ≡ ok bases)
    × All (λ b. AreSafeUpwards (machine 493) 7 b.absolute b.names) bases
collect_local_state_ancestor_violations_iff_example =
    (collect_local_state_ancestor_violations_iff (machine 493) 7 home_state).0 closed_above
