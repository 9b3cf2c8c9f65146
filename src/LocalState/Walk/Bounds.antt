-- ===== src/LocalState/Walk/Bounds.antt =====
-- How many findings the walk over local state (support/fs/permission.rs) can make.
use kapsaro.Base.{ℕ, suc, ◌+◌, ◌*◌, ◌≤◌, [], ◌∷◌, arith, Text, length, length-append}
use kapsaro.LocalState.Scan.{FileSystem}
use kapsaro.LocalState.Permission.{violation, incomplete_scan}
use kapsaro.LocalState.Walk.{
  LocalStateTreeWalk, new_walk, inspect_open_permission, inspect_root, finish,
  collect_local_state_tree_violations, max_local_state_tree_entries,
}
use kapsaro.LocalState.Walk.Steps.{Goes, Goes-trans, record-Goes, subtree-Goes}

module _ (fs : FileSystem) where
  pub root-Goes : (root : fs.Dir) (w : LocalStateTreeWalk) → Goes 0 2 w (inspect_root fs root w)
  unfolding inspect_root
  root-Goes root w =
      Goes-trans 0 1 0 1 w _ _ (record-Goes (inspect_open_permission fs w.effective_uid root) w)
        (subtree-Goes fs 5 root _)

  length-finish :
      (w : LocalStateTreeWalk) (at : Text) → length (finish fs w at) ≤ suc (length w.violations)
  unfolding finish
  length-finish w at =
      ground (arith, length-append w.violations (violation at incomplete_scan ∷ []))

  -- Whatever the file system answers, and however large or deep the tree is, a walk makes at most
  -- three findings for each of the entries that it may read, and three more.
  pub length-collect_local_state_tree_violations :
      (uid : ℕ) (root : fs.Dir)
      → length (collect_local_state_tree_violations fs uid root)
        ≤ 3 * max_local_state_tree_entries + 3
  unfolding collect_local_state_tree_violations new_walk
  length-collect_local_state_tree_violations uid root = omega (
    arith,
    (root-Goes root (new_walk uid)).spent,
    length-finish (inspect_root fs root (new_walk uid)) (fs.path root),
  )
