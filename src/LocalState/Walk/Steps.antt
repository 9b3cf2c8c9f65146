-- ===== src/LocalState/Walk/Steps.antt =====
-- What every step of the walk over local state (support/fs/permission.rs) keeps: the user it judges
-- for, the findings it has, and how many findings an entry costs.
use kapsaro.Base.{
  ℕ, zero, suc, ◌+◌, ◌*◌, ◌≤◌, ◌<◌, List, [], ◌∷◌, ◌++◌, Option, none, some, ◌≡◌, ◌∙◌, refl, ap,
  inl, inr, arith, ltb, Text, length, length-append, is_empty, Bool-cases, Option-cases, ◌==◌,
}
use kapsaro.Errors.{ok, Result-cases}
use kapsaro.LocalState.Scan.{
  ChildType, EntryIdentity, FileSystem, ScannedChild, inspected, unreadable, ScannedChildren,
  at_most, scan_child_entries_at, length-scan_child_entries_at,
}
use kapsaro.LocalState.Permission.{
  PermissionViolation, violation, foreign_owner, unexpected_entry_type, unreadable_entry,
  replaced_entry, undecodable_name,
}
use kapsaro.LocalState.Walk.{
  ScanLimit, entries_limit, depth_limit, LocalStateTreeWalk, PendingDir, record_, mark_limit,
  spend_entry, option_list, record_unexpected_entry, judge_child, inspect_child, inspect_children,
  walk_verified_child, descend, descend_all, list_children, inspect_subtree, is_unexpected,
  same_identity,
}

-- Nothing has been found, and no limit has been reached.
abbrev pub IsClean : LocalStateTreeWalk → Type 0
IsClean w = (w.violations ≡ []) × (w.reached_limit ≡ none)

-- A step that leaves `p` directories to go into: findings never go away, and the findings and three
-- for every entry that may still be read grow by `k` at most.
pub record Goes (p k : ℕ) (w v : LocalStateTreeWalk) : Type 0 where
  pub uid : v.effective_uid ≡ w.effective_uid
  pub clean : IsClean v → IsClean w
  pub spent :
      length v.violations + 3 * v.remaining_entries + p
      ≤ length w.violations + 3 * w.remaining_entries + k

pub Goes-refl : (w : LocalStateTreeWalk) → Goes 0 0 w w
Goes-refl w = record { uid = refl; clean = λ h. h; spent = omega arith }

pub Goes-trans :
    (p k q l : ℕ) (u v w : LocalStateTreeWalk)
    → Goes p k u v
    → Goes q l v w
    → Goes (p + q) (k + l) u w
Goes-trans p k q l u v w g h = record {
  uid = h.uid ∙ g.uid;
  clean = λ c. g.clean (h.clean c);
  spent = omega (arith, g.spent, h.spent);
}

pub Goes-weaken :
    (p k q l : ℕ) (u v : LocalStateTreeWalk) → q + k ≤ p + l → Goes p k u v → Goes q l u v
Goes-weaken p k q l u v le g = record {
  uid = g.uid;
  clean = g.clean;
  spent = omega (arith, g.spent);
}

append_nil_back : (vs us : List PermissionViolation) → vs ++ us ≡ [] → vs ≡ []
append_nil_back [] us h = refl
append_nil_back (v ∷ vs) us h = absurd cc

pub record-Goes :
    (v : Option PermissionViolation) (w : LocalStateTreeWalk) → Goes 0 1 w (record_ v w)
unfolding record_
record-Goes v w = record {
  uid = refl;
  clean = λ c. (append_nil_back w.violations (option_list v) c.0, c.1);
  spent = ground (arith, length-append w.violations (option_list v));
}

pub mark-Goes : (limit : ScanLimit) (w : LocalStateTreeWalk) → Goes 0 0 w (mark_limit limit w)
unfolding mark_limit
mark-Goes limit w = record { uid = ground arith; clean = λ c. ground arith; spent = ground arith }

unexpected-Goes :
    (owner : ℕ) (at : Text) (w : LocalStateTreeWalk)
    → Goes 0 2 w (record_unexpected_entry owner at w)
unfolding record_unexpected_entry
unexpected-Goes owner at w =
    let first = record-Goes (some (violation at unexpected_entry_type)) w in
    elim (Bool-cases (owner == w.effective_uid)) [
      | inl own ↦ rw own (Goes-weaken 0 1 0 2 w _ (omega arith) first)
      | inr foreign ↦
          rw foreign
            (Goes-trans 0 1 0 1 w _ _ first (record-Goes (some (violation at foreign_owner)) _))
    ]

pub mark-remaining :
    {n : ℕ} (w : LocalStateTreeWalk)
    → n ≤ w.remaining_entries
    → n ≤ (mark_limit entries_limit w).remaining_entries
unfolding mark_limit
mark-remaining w le = ground arith

pub judge-Goes :
    (name : Text) (ty : ChildType) (mode owner : ℕ) (identity : EntryIdentity) (at : Text)
    (w : LocalStateTreeWalk)
    → let out = judge_child name ty mode owner identity at w in Goes (length out.1) 2 w out.0
unfolding judge_child
judge-Goes name ty mode owner identity at w = elim (Bool-cases (is_unexpected ty)) [
  | inl odd ↦ rw odd (unexpected-Goes owner at w)
  | inr fine ↦ rw fine (Goes-weaken 0 1 _ 2 w _ (ground arith) (record-Goes _ w))
]

pub spend-Goes : (w : LocalStateTreeWalk) → 0 < w.remaining_entries → Goes 3 0 w (spend_entry w)
unfolding spend_entry
spend-Goes w some_left = record { uid = refl; clean = λ c. c; spent = omega arith }

module _ (fs : FileSystem) where
  open fs use {Dir, decodes, path_under, path, open_scanned_child_dir, open_dir_identity}

  pub child-Goes :
      (dir : Dir) (child : ScannedChild) (w : LocalStateTreeWalk)
      → let out = inspect_child fs dir child w in Goes (length out.1) 3 w out.0
  unfolding inspect_child
  child-Goes dir (unreadable name error) w =
      Goes-weaken 0 1 0 3 w _ (omega arith)
        (record-Goes (some (violation (path_under dir name) unreadable_entry)) w)
  child-Goes dir (inspected name ty mode owner identity) w = elim (Bool-cases (decodes name)) [
    | inl fine ↦
        rw fine (Goes-weaken _ 2 _ 3 w _ (omega arith) (judge-Goes name ty mode owner identity _ w))
    | inr odd ↦
        let odd_name = violation (path_under dir name) undecodable_name in
        rw odd (
          Goes-weaken _ 3 _ 3 w _ (omega arith) (
            Goes-trans 0 1 _ 2 w _ _ (record-Goes (some odd_name) w)
              (judge-Goes name ty mode owner identity _ (record_ (some odd_name) w))))
  ]

  pub child-remaining :
      (dir : Dir) (child : ScannedChild) (w : LocalStateTreeWalk)
      → (inspect_child fs dir child w).0.remaining_entries ≡ w.remaining_entries
  unfolding inspect_child judge_child record_unexpected_entry record_
  child-remaining dir (unreadable name error) w = refl
  child-remaining dir (inspected name ty mode owner identity) w = ground arith

  pub children-Goes :
      (dir : Dir) (children : List ScannedChild) (w : LocalStateTreeWalk)
      → length children ≤ w.remaining_entries
      → let out = inspect_children fs dir children w in Goes (length out.1) 0 w out.0
  unfolding inspect_children spend_entry
  children-Goes dir [] w le = Goes-refl w
  children-Goes dir (child ∷ children) w le =
      let first = inspect_child fs dir child (spend_entry w) in
      let rest = inspect_children fs dir children first.0 in
      let one =
        Goes-trans 3 0 _ 3 w _ _ (spend-Goes w (omega arith))
          (child-Goes dir child (spend_entry w)) in
      let all =
        children-Goes dir children first.0
          (omega (arith, child-remaining dir child (spend_entry w))) in
      Goes-weaken _ _ _ 0 w rest.0 (omega (arith, length-append first.1 rest.1))
        (Goes-trans (3 + length first.1) 3 _ 0 w _ _ one all)

  pub list-Goes :
      (dir : Dir) (scanned : ScannedChildren) (w : LocalStateTreeWalk)
      → length scanned.entries ≤ w.remaining_entries
      → let out = list_children fs dir scanned w in Goes (length out.1) 0 w out.0
  unfolding list_children
  list-Goes dir scanned w le = elim (Bool-cases scanned.truncated) [
    | inr whole ↦ rw whole (children-Goes dir scanned.entries w le)
    | inl cut ↦
        let marked = mark_limit entries_limit w in
        let all = children-Goes dir scanned.entries marked (mark-remaining w le) in
        rw cut (
          Goes-weaken _ 0 _ 0 w _ (omega arith)
            (Goes-trans 0 0 _ 0 w _ _ (mark-Goes entries_limit w) all))
  ]

  module _ (inspect : Dir → LocalStateTreeWalk → LocalStateTreeWalk)
      (goes : (d : Dir) (w : LocalStateTreeWalk) → Goes 0 1 w (inspect d w)) where
    verified-Goes :
        (child : Dir) (scanned_identity : EntryIdentity) (w : LocalStateTreeWalk)
        → Goes 0 1 w (walk_verified_child fs inspect child scanned_identity w)
    unfolding walk_verified_child
    verified-Goes child scanned_identity w = elim (Result-cases (open_dir_identity child)) [
      | inr (e, unknown) ↦
          rw (unknown, walk_verified_child)
            (record-Goes (some (violation (path child) unreadable_entry)) w)
      | inl (identity, known) ↦ elim (Bool-cases (same_identity identity scanned_identity)) [
        | inl same ↦ rw (known, walk_verified_child, same) (goes child w)
        | inr replaced ↦
            rw (known, walk_verified_child, replaced)
              (record-Goes (some (violation (path child) replaced_entry)) w)
      ]
    ]

    pub descend-Goes :
        (dir : Dir) (pending : PendingDir) (w : LocalStateTreeWalk)
        → Goes 0 1 w (descend fs inspect dir pending w)
    unfolding descend
    descend-Goes dir pending w = elim (Result-cases (open_scanned_child_dir dir pending.name)) [
      | inr (e, failed) ↦
          rw (failed, descend)
            (record-Goes (some (violation (path_under dir pending.name) unreadable_entry)) w)
      | inl (o, opened) ↦ elim (Option-cases o) [
        | inr gone ↦
            let none_there = opened ∙ ap ok gone in
            rw (none_there, descend) (Goes-weaken 0 0 0 1 w w (omega arith) (Goes-refl w))
        | inl (child, there) ↦
            let one_there = opened ∙ ap ok there in
            rw (one_there, descend) (verified-Goes child pending.identity w)
      ]
    ]

    pub descend_all-Goes :
        (dir : Dir) (pending : List PendingDir) (w : LocalStateTreeWalk)
        → Goes 0 (length pending) w (descend_all fs inspect dir pending w)
    unfolding descend_all
    descend_all-Goes dir [] w = Goes-refl w
    descend_all-Goes dir (p ∷ rest) w = elim (Bool-cases (ltb 0 w.remaining_entries)) [
      | inr spent ↦ rw spent (Goes-weaken 0 0 0 _ w _ (omega arith) (mark-Goes entries_limit w))
      | inl left ↦ rw left (
          Goes-weaken 0 (1 + length rest) 0 _ w _ (omega arith) (
            Goes-trans 0 1 0 (length rest) w _ _ (descend-Goes dir p w)
              (descend_all-Goes dir rest (descend fs inspect dir p w))))
    ]

  pub subtree-Goes :
      (levels : ℕ) (dir : Dir) (w : LocalStateTreeWalk)
      → Goes 0 1 w (inspect_subtree fs levels dir w)
  unfolding inspect_subtree
  subtree-Goes zero dir w =
      elim (Result-cases (scan_child_entries_at fs dir (at_most w.remaining_entries))) [
        | inr (e, failed) ↦
            rw (failed, inspect_subtree)
              (record-Goes (some (violation (path dir) unreadable_entry)) w)
        | inl (scanned, listed) ↦
            let judged = list_children fs dir scanned w in
            let here =
              list-Goes dir scanned w (length-scan_child_entries_at fs dir _ scanned listed) in
            elim (Bool-cases (is_empty judged.1)) [
              | inl leaf ↦
                  rw (listed, inspect_subtree, leaf) (Goes-weaken _ 0 0 1 w _ (omega arith) here)
              | inr deep ↦
                  rw (listed, inspect_subtree, deep)
                    (Goes-weaken _ 0 0 1 w _ (omega arith)
                      (Goes-trans _ 0 0 0 w _ _ here (mark-Goes depth_limit judged.0)))
            ]
      ]
  subtree-Goes (suc levels) dir w =
      elim (Result-cases (scan_child_entries_at fs dir (at_most w.remaining_entries))) [
        | inr (e, failed) ↦
            rw (failed, inspect_subtree)
              (record-Goes (some (violation (path dir) unreadable_entry)) w)
        | inl (scanned, listed) ↦
            let judged = list_children fs dir scanned w in
            let here =
              list-Goes dir scanned w (length-scan_child_entries_at fs dir _ scanned listed) in
            rw (listed, inspect_subtree)
              (Goes-weaken _ _ 0 1 w _ (omega arith) (
                Goes-trans (length judged.1) 0 0 (length judged.1) w _ _ here (
                  descend_all-Goes (λ child v. inspect_subtree fs levels child v)
                    (λ d v. subtree-Goes levels d v) dir judged.1 judged.0)))
      ]
