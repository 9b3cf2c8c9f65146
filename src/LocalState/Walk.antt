-- ===== src/LocalState/Walk.antt =====
-- crates/kapsaro-core/src/support/fs/permission.rs: the walk over the tree of local state. The walk changes
-- its record in place; here a step answers the new one. The levels that are left below a directory,
-- `MAX_LOCAL_STATE_TREE_DEPTH - depth` in the code, are counted down.
pub mod Steps
pub mod Bounds
pub mod SafeEntries
pub mod Safety
use kapsaro.Base.{
  ℕ, zero, suc, ◌-◌, Bool, true, false, not, ◌&&◌, List, [], ◌∷◌, ◌++◌, Option, none, some, ◌==◌,
  ltb, if◌then◌else◌, Text, is_empty,
}
use kapsaro.Errors.{Result, ok, err}
use kapsaro.LocalState.Scan.{
  ChildType, directory, regular_file, symlink, other, EntryIdentity, EntryFacts, FileSystem,
  ScannedChild, inspected, unreadable, ScannedChildren, at_most, scan_child_entries_at, child_name,
}
use kapsaro.LocalState.Permission.{
  PermissionViolation, violation, unreadable_entry, undecodable_name, unexpected_entry_type,
  foreign_owner, replaced_entry, incomplete_scan, inspect_entry_facts,
}

pub data ScanLimit : Type 0 where
  entries_limit depth_limit : ScanLimit

abbrev pub max_local_state_tree_depth : ℕ
max_local_state_tree_depth = 6

abbrev pub max_local_state_tree_entries : ℕ
max_local_state_tree_entries = 1024

pub record LocalStateTreeWalk : Type 0 where
  pub violations : List PermissionViolation
  pub remaining_entries : ℕ
  pub reached_limit : Option ScanLimit
  pub effective_uid : ℕ

-- `LocalStateTreeWalk::new`
unfoldable pub new_walk : ℕ → LocalStateTreeWalk
new_walk uid = record {
  violations = [];
  remaining_entries = max_local_state_tree_entries;
  reached_limit = none;
  effective_uid = uid;
}

abbrev pub option_list : Option PermissionViolation → List PermissionViolation
option_list none = []
option_list (some v) = v ∷ []

unfoldable pub record_ : Option PermissionViolation → LocalStateTreeWalk → LocalStateTreeWalk
record_ v w = record w { violations = w.violations ++ option_list v }

-- `get_or_insert`
unfoldable pub mark_limit : ScanLimit → LocalStateTreeWalk → LocalStateTreeWalk
mark_limit limit w = elim w.reached_limit [
  | none ↦ record w { reached_limit = some limit }
  | some reached ↦ w
]

unfoldable pub spend_entry : LocalStateTreeWalk → LocalStateTreeWalk
spend_entry w = record w { remaining_entries = w.remaining_entries - 1 }

abbrev pub is_directory : ChildType → Bool
is_directory directory = true
is_directory _ = false

abbrev pub is_unexpected : ChildType → Bool
is_unexpected symlink = true
is_unexpected other = true
is_unexpected _ = false

pub record PendingDir : Type 0 where
  pub name : Text
  pub identity : EntryIdentity

unfoldable pub record_unexpected_entry : ℕ → Text → LocalStateTreeWalk → LocalStateTreeWalk
unfolding record_
record_unexpected_entry owner at w =
    let first = record_ (some (violation at unexpected_entry_type)) w in
    if owner == w.effective_uid then first else record_ (some (violation at foreign_owner)) first

-- the walk after the entry, and the directory to go into
unfoldable pub judge_child :
    Text
    → ChildType
    → ℕ
    → ℕ
    → EntryIdentity
    → Text
    → LocalStateTreeWalk
    → LocalStateTreeWalk × List PendingDir
unfolding record_unexpected_entry record_ inspect_entry_facts
judge_child name child_type mode owner identity at w =
    if is_unexpected child_type then (record_unexpected_entry owner at w, []) else (
      record_
          (inspect_entry_facts
            (record { owner = owner; mode = mode; is_dir = is_directory child_type })
            w.effective_uid at)
          w,
      if is_directory child_type then record { name = name; identity = identity } ∷ [] else [],
    )

abbrev pub same_identity : EntryIdentity → EntryIdentity → Bool
same_identity a b = a.device == b.device && a.inode == b.inode

module _ (fs : FileSystem) where
  open fs use {Dir, path, path_under, decodes, metadata, open_scanned_child_dir, open_dir_identity}

  unfoldable pub inspect_child :
      Dir → ScannedChild → LocalStateTreeWalk → LocalStateTreeWalk × List PendingDir
  unfolding judge_child record_
  inspect_child dir (unreadable name error) w =
      (record_ (some (violation (path_under dir name) unreadable_entry)) w, [])
  inspect_child dir (inspected name child_type mode owner identity) w =
      judge_child name child_type mode owner identity (path_under dir name) (
        if decodes name
        then w
        else record_ (some (violation (path_under dir name) undecodable_name)) w)

  -- the loop of `inspect_subtree` over the listing
  unfoldable pub inspect_children :
      Dir → List ScannedChild → LocalStateTreeWalk → LocalStateTreeWalk × List PendingDir
  unfolding inspect_child spend_entry
  inspect_children dir [] w = (w, [])
  inspect_children dir (child ∷ children) w =
      let first = inspect_child dir child (spend_entry w) in
      let rest = inspect_children dir children first.0 in (rest.0, first.1 ++ rest.1)

  -- `walk_verified_child`, `descend` and the loop of `descend_into_all`, where `inspect` inspects a
  -- directory one level further down
  module _ (inspect : Dir → LocalStateTreeWalk → LocalStateTreeWalk) where
    unfoldable pub walk_verified_child :
        Dir → EntryIdentity → LocalStateTreeWalk → LocalStateTreeWalk
    unfolding record_
    walk_verified_child child scanned_identity w = elim (open_dir_identity child) [
      | ok opened ↦
          let inside = inspect child w in
          if same_identity opened scanned_identity
          then inside
          else record_ (some (violation (path child) replaced_entry)) w
      | err e ↦ record_ (some (violation (path child) unreadable_entry)) w
    ]

    unfoldable pub descend : Dir → PendingDir → LocalStateTreeWalk → LocalStateTreeWalk
    unfolding walk_verified_child record_
    descend dir pending w = elim (open_scanned_child_dir dir pending.name) [
      | ok (some child) ↦ walk_verified_child child pending.identity w
      | ok none ↦ w
      | err e ↦ record_ (some (violation (path_under dir pending.name) unreadable_entry)) w
    ]

    unfoldable pub descend_all : Dir → List PendingDir → LocalStateTreeWalk → LocalStateTreeWalk
    unfolding descend mark_limit
    descend_all dir [] w = w
    descend_all dir (pending ∷ rest) w =
        if not (ltb 0 w.remaining_entries)
        then mark_limit entries_limit w
        else descend_all dir rest (descend dir pending w)

  unfoldable pub list_children :
      Dir → ScannedChildren → LocalStateTreeWalk → LocalStateTreeWalk × List PendingDir
  unfolding inspect_children mark_limit
  list_children dir scanned w =
      inspect_children dir scanned.entries
        (if scanned.truncated then mark_limit entries_limit w else w)

  -- `inspect_subtree` with the levels that are left
  unfoldable pub inspect_subtree : ℕ → Dir → LocalStateTreeWalk → LocalStateTreeWalk
  unfolding scan_child_entries_at list_children descend_all mark_limit record_
  inspect_subtree zero dir w = elim (scan_child_entries_at fs dir (at_most w.remaining_entries)) [
    | err e ↦ record_ (some (violation (path dir) unreadable_entry)) w
    | ok scanned ↦
        let judged = list_children dir scanned w in
        if is_empty judged.1 then judged.0 else mark_limit depth_limit judged.0
  ]
  inspect_subtree (suc levels) dir w =
      elim (scan_child_entries_at fs dir (at_most w.remaining_entries)) [
        | err e ↦ record_ (some (violation (path dir) unreadable_entry)) w
        | ok scanned ↦
            let judged = list_children dir scanned w in
            descend_all (λ child v. inspect_subtree levels child v) dir judged.1 judged.0
      ]

  unfoldable pub inspect_open_permission : ℕ → Dir → Option PermissionViolation
  inspect_open_permission uid dir = elim (metadata dir) [
    | ok facts ↦ inspect_entry_facts facts uid (path dir)
    | err e ↦ some (violation (path dir) unreadable_entry)
  ]

  -- `inspect_root` starts at depth 1.
  unfoldable pub inspect_root : Dir → LocalStateTreeWalk → LocalStateTreeWalk
  unfolding inspect_open_permission record_ inspect_subtree
  inspect_root root w =
      inspect_subtree (max_local_state_tree_depth - 1) root
        (record_ (inspect_open_permission w.effective_uid root) w)

  unfoldable pub finish : LocalStateTreeWalk → Text → List PermissionViolation
  finish w root_path = elim w.reached_limit [
    | none ↦ w.violations
    | some limit ↦ w.violations ++ violation root_path incomplete_scan ∷ []
  ]

  unfoldable pub collect_local_state_tree_violations : ℕ → Dir → List PermissionViolation
  unfolding finish inspect_root new_walk
  collect_local_state_tree_violations uid root =
      finish (inspect_root root (new_walk uid)) (path root)
