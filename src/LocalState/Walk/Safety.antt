-- ===== src/LocalState/Walk/Safety.antt =====
-- What a walk over local state (support/fs/permission.rs) without a finding says of the tree.
use kapsaro.Base.{
  ℕ, zero, suc, true, false, ap, List, [], ◌∷◌, none, some, ◌≡◌, ◌∙◌, sym, inl, inr, arith, ltb,
  Text, All, is_empty, Bool-cases, Option-cases, length, ◌≤◌,
}
use kapsaro.Errors.{ok, Result-cases}
use kapsaro.LocalState.Scan.{
  directory, regular_file, symlink, other, EntryIdentity, EntryFacts, FileSystem, ScannedChild,
  inspected, unreadable, ScannedChildren, at_most, scan_child_entries_at,
  length-scan_child_entries_at,
}
use kapsaro.LocalState.Permission.{
  violation, inspect_entry_facts, inspect_entry_facts_iff, IsOwnerOnly, incomplete_scan,
}
use kapsaro.LocalState.Walk.{
  entries_limit, depth_limit, LocalStateTreeWalk, PendingDir, new_walk, record_, mark_limit,
  walk_verified_child, descend, descend_all, list_children, inspect_subtree,
  inspect_open_permission, inspect_root, finish, collect_local_state_tree_violations, is_directory,
  same_identity,
}
use kapsaro.LocalState.Walk.Steps.{
  IsClean, Goes, record-Goes, children-Goes, list-Goes, descend-Goes, descend_all-Goes,
  subtree-Goes, mark-remaining,
}
use kapsaro.LocalState.Walk.SafeEntries.{
  IsEnteredSafely, snoc_nil, none_found, none_marked, found_none, is_empty_nil, IsSafeEntry,
  IsSafeBelow, IsLeaf, IsSafeDir, pending_of_all, children-safe,
}

module _ (fs : FileSystem) (uid : ℕ) where
  open fs use {Dir, decodes, path_under, path, open_scanned_child_dir, open_dir_identity}

  module _ (inspect : Dir → LocalStateTreeWalk → LocalStateTreeWalk)
      (goes : (d : Dir) (w : LocalStateTreeWalk) → Goes 0 1 w (inspect d w)) (safe : Dir → Type 0)
      (sound : (d : Dir) (w : LocalStateTreeWalk)
        → w.effective_uid ≡ uid
        → IsClean (inspect d w)
        → safe d) where
    abbrev OpensSafe : Dir → PendingDir → Type 0
    OpensSafe dir p = IsEnteredSafely fs uid safe dir p.name p.identity

    verified-safe :
        (child : Dir) (identity : EntryIdentity) (w : LocalStateTreeWalk)
        → w.effective_uid ≡ uid
        → IsClean (walk_verified_child fs inspect child identity w)
        → (opened : EntryIdentity) × (open_dir_identity child ≡ ok opened)
          × (same_identity opened identity ≡ true)
          × safe child
    unfolding walk_verified_child
    verified-safe child identity w u c = elim (Result-cases (open_dir_identity child)) [
      | inr (e, unknown) ↦ absurd (none_found _ w (rw (unknown, walk_verified_child) at c))
      | inl (opened, known) ↦ elim (Bool-cases (same_identity opened identity)) [
        | inl same ↦
            (opened, known, same, sound child w u (rw (known, walk_verified_child, same) at c))
        | inr replaced ↦ absurd (none_found _ w (rw (known, walk_verified_child, replaced) at c))
      ]
    ]

    -- A directory that cannot be opened is a finding.
    descend-safe :
        (dir : Dir) (p : PendingDir) (w : LocalStateTreeWalk)
        → w.effective_uid ≡ uid
        → IsClean (descend fs inspect dir p w)
        → OpensSafe dir p
    unfolding descend
    descend-safe dir p w u c = elim (Result-cases (open_scanned_child_dir dir p.name)) [
      | inr (e, unopened) ↦ absurd (none_found _ w (rw (unopened, descend) at c))
      | inl (found, answered) ↦ elim (Option-cases found) [
        | inr gone ↦ inl (answered ∙ ap ok gone)
        | inl (child, there) ↦
            let e : open_scanned_child_dir dir p.name ≡ ok (some child) = answered ∙ ap ok there in
            let (opened, known, same, safely) =
              verified-safe child p.identity w u (rw (e, descend) at c) in
            inr (child, opened, e, known, same, safely)
      ]
    ]

    descend_all-safe :
        (dir : Dir) (pending : List PendingDir) (w : LocalStateTreeWalk)
        → w.effective_uid ≡ uid
        → IsClean (descend_all fs inspect dir pending w)
        → All (OpensSafe dir) pending
    unfolding descend_all
    descend_all-safe dir [] w u c = tt
    descend_all-safe dir (p ∷ rest) w u c = elim (Bool-cases (ltb 0 w.remaining_entries)) [
      | inr spent ↦ absurd (none_marked entries_limit w (rw spent at c))
      | inl left ↦
          let next = descend fs inspect dir p w in
          let c' : IsClean (descend_all fs inspect dir rest next) = rw left at c in
          let mid = (descend_all-Goes fs inspect goes dir rest next).clean c' in
          (
            descend-safe dir p w u mid,
            descend_all-safe dir rest next ((descend-Goes fs inspect goes dir p w).uid ∙ u) c',
          )
    ]

    below :
        (dir : Dir) (children : List ScannedChild)
        → All (IsSafeEntry fs uid) children
        → All (OpensSafe dir) (pending_of_all fs uid children)
        → All (IsSafeBelow fs uid safe dir) children
    below dir [] e a = tt
    below dir (unreadable name error ∷ cs) e a = absurd e.0
    below dir (inspected name directory mode owner identity ∷ cs) e a = (a.0, below dir cs e.1 a.1)
    below dir (inspected name regular_file mode owner identity ∷ cs) e a = (tt, below dir cs e.1 a)
    below dir (inspected name symlink mode owner identity ∷ cs) e a = (tt, below dir cs e.1 a)
    below dir (inspected name other mode owner identity ∷ cs) e a = (tt, below dir cs e.1 a)

  leaves :
      (children : List ScannedChild)
      → All (IsSafeEntry fs uid) children
      → pending_of_all fs uid children ≡ []
      → All (IsLeaf fs uid) children
  leaves [] e h = tt
  leaves (unreadable name error ∷ cs) e h = absurd e.0
  leaves (inspected name ty mode owner identity ∷ cs) e h = elim (Bool-cases (is_directory ty)) [
    | inl is_dir ↦ absurd (cc (rw is_dir at h))
    | inr plain ↦ (plain, leaves cs e.1 (rw plain at h))
  ]

  list-safe :
      (dir : Dir) (scanned : ScannedChildren) (w : LocalStateTreeWalk)
      → length scanned.entries ≤ w.remaining_entries
      → w.effective_uid ≡ uid
      → IsClean (list_children fs dir scanned w).0
      → (scanned.truncated ≡ false)
        × All (IsSafeEntry fs uid) scanned.entries
        × ((list_children fs dir scanned w).1 ≡ pending_of_all fs uid scanned.entries)
  unfolding list_children
  list-safe dir scanned w le u c = elim (Bool-cases scanned.truncated) [
    | inr whole ↦
        let (safe, here) = children-safe fs uid dir scanned.entries w le u (rw whole at c) in
        (whole, safe, rw whole here)
    | inl cut ↦
        let marked = mark_limit entries_limit w in
        absurd (
          none_marked entries_limit w (
            (children-Goes fs dir scanned.entries marked (mark-remaining w le)).clean
              (rw cut at c)))
  ]

  subtree-safe :
      (levels : ℕ) (dir : Dir) (w : LocalStateTreeWalk)
      → w.effective_uid ≡ uid
      → IsClean (inspect_subtree fs levels dir w)
      → (IsSafeDir fs uid) levels dir
  unfolding inspect_subtree
  subtree-safe zero dir w u c =
      elim (Result-cases (scan_child_entries_at fs dir (at_most w.remaining_entries))) [
        | inr (e, failed) ↦ absurd (none_found _ w (rw (failed, inspect_subtree) at c))
        | inl (scanned, listed) ↦
            let judged = list_children fs dir scanned w in
            let le = length-scan_child_entries_at fs dir _ scanned listed in
            elim (Bool-cases (is_empty judged.1)) [
              | inr deep ↦
                  absurd
                    (none_marked depth_limit judged.0 (rw (listed, inspect_subtree, deep) at c))
              | inl leaf ↦
                  let (whole, safe, here) =
                    list-safe dir scanned w le u (rw (listed, inspect_subtree, leaf) at c) in
                  (
                    w.remaining_entries,
                    scanned,
                    listed,
                    whole,
                    safe,
                    leaves scanned.entries safe (sym here ∙ is_empty_nil judged.1 leaf),
                  )
            ]
      ]
  subtree-safe (suc levels) dir w u c =
      elim (Result-cases (scan_child_entries_at fs dir (at_most w.remaining_entries))) [
        | inr (e, failed) ↦ absurd (none_found _ w (rw (failed, inspect_subtree) at c))
        | inl (scanned, listed) ↦
            let judged = list_children fs dir scanned w in
            let le = length-scan_child_entries_at fs dir _ scanned listed in
            let inside : Dir → LocalStateTreeWalk → LocalStateTreeWalk =
              λ child v. inspect_subtree fs levels child v in
            let deeper = λ (d : Dir) (v : LocalStateTreeWalk). subtree-Goes fs levels d v in
            let c' : IsClean (descend_all fs inside dir judged.1 judged.0) =
              rw (listed, inspect_subtree) at c in
            let mid = (descend_all-Goes fs inside deeper dir judged.1 judged.0).clean c' in
            let (whole, safe, here) = list-safe dir scanned w le u mid in
            let opened =
              descend_all-safe inside deeper ((IsSafeDir fs uid) levels)
                (λ d v. subtree-safe levels d v) dir judged.1 judged.0
                ((list-Goes fs dir scanned w le).uid ∙ u) c' in
            (
              w.remaining_entries,
              scanned,
              listed,
              whole,
              safe,
              below inside deeper ((IsSafeDir fs uid) levels) (λ d v. subtree-safe levels d v) dir
                  scanned.entries safe (rw here at opened),
            )
      ]

  finish-IsClean : (w : LocalStateTreeWalk) (at : Text) → finish fs w at ≡ [] → IsClean w
  unfolding finish
  finish-IsClean w at h = elim (Option-cases w.reached_limit) [
    | inr e ↦ (ground arith, e)
    | inl (limit, e) ↦ absurd (snoc_nil w.violations (violation at incomplete_scan) (ground arith))
  ]

  -- When a walk over local state makes no finding, the root is the user's and private, every listing
  -- that the walk read is complete, and every entry of a listing is a file or a directory of the user
  -- that nobody else can use, with a name that is text. Each directory in a listing is gone when it
  -- is opened, or opens as the directory that was listed, and the same holds inside it, down to the
  -- last level, which has no directories; one that cannot be opened is a finding.
  pub collect_local_state_tree_violations-IsSafeDir :
      (root : Dir)
      → collect_local_state_tree_violations fs uid root ≡ []
      → (facts : EntryFacts) × (fs.metadata root ≡ ok facts)
        × IsOwnerOnly uid facts.owner facts.mode
        × IsSafeDir fs uid 5 root
  unfolding collect_local_state_tree_violations finish inspect_root new_walk inspect_open_permission
  collect_local_state_tree_violations-IsSafeDir root h =
      let start = new_walk uid in
      let judged = record_ (inspect_open_permission fs uid root) start in
      let last = inspect_subtree fs 5 root judged in
      let clean : IsClean last = finish-IsClean last (path root) h in
      let mid = (subtree-Goes fs 5 root judged).clean clean in
      let found = found_none (inspect_open_permission fs uid root) start mid in
      elim (Result-cases (fs.metadata root)) [
        | inr (e, failed) ↦ absurd (ground arith)
        | inl (facts, read) ↦
            let clear : inspect_entry_facts facts uid (path root) ≡ none = ground arith in
            (
              facts,
              read,
              (inspect_entry_facts_iff facts uid (path root)).0 clear,
              subtree-safe 5 root judged
                  ((record-Goes (inspect_open_permission fs uid root) start).uid) clean,
            )
      ]
