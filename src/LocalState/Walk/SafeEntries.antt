-- ===== src/LocalState/Walk/SafeEntries.antt =====
-- What a walk over local state (support/fs/permission.rs) asks of an entry.
use kapsaro.Base.{
  ℕ, zero, suc, true, false, List, [], ◌∷◌, ◌++◌, Option, none, some, ◌⊎◌, ◌≡◌, ◌∙◌, refl, inl, inr,
  arith, if◌then◌else◌, Text, All, is_empty, Bool-cases, Option-cases, ◌==◌, length, ◌≤◌,
}
use kapsaro.Errors.{ok}
use kapsaro.LocalState.Scan.{
  directory, ChildType, EntryIdentity, EntryFacts, FileSystem, ScannedChild, inspected, unreadable,
  ScannedChildren, at_most, scan_child_entries_at,
}
use kapsaro.LocalState.Permission.{
  PermissionViolation, violation, inspect_entry_facts, inspect_entry_facts_iff, IsOwnerOnly,
  undecodable_name, unexpected_entry_type,
}
use kapsaro.LocalState.Walk.{
  same_identity, ScanLimit, LocalStateTreeWalk, PendingDir, record_, mark_limit, spend_entry,
  record_unexpected_entry, judge_child, inspect_child, inspect_children, is_directory,
  is_unexpected,
}
use kapsaro.LocalState.Walk.Steps.{IsClean, judge-Goes, child-Goes, child-remaining, children-Goes}

pub snoc_nil : (vs : List PermissionViolation) (v : PermissionViolation) → vs ++ v ∷ [] ≡ [] → ⊥
snoc_nil [] v h = cc
snoc_nil (x ∷ vs) v h = cc

pub none_found :
    (v : PermissionViolation) (w : LocalStateTreeWalk) → IsClean (record_ (some v) w) → ⊥
unfolding record_
none_found v w c = snoc_nil w.violations v c.0

pub none_marked : (limit : ScanLimit) (w : LocalStateTreeWalk) → IsClean (mark_limit limit w) → ⊥
unfolding mark_limit
none_marked limit w c = elim (Option-cases w.reached_limit) [
  | inl (r, e) ↦ ground arith
  | inr e ↦ ground arith
]

pub found_none :
    (v : Option PermissionViolation) (w : LocalStateTreeWalk) → IsClean (record_ v w) → v ≡ none
found_none none w c = refl
found_none (some v) w c = absurd (none_found v w c)

pub is_empty_nil : (ps : List PendingDir) → is_empty ps ≡ true → ps ≡ []
is_empty_nil [] h = refl
is_empty_nil (p ∷ ps) h = absurd cc

module _ (fs : FileSystem) (uid : ℕ) where
  open fs use {Dir, decodes, path_under, path, open_scanned_child_dir, open_dir_identity}

  -- An entry of local state: it was read, its name is text, it is a file or a directory of the user,
  -- and nobody else can do anything with it.
  abbrev pub IsSafeEntry : ScannedChild → Type 0
  IsSafeEntry (unreadable name error) = ⊥
  IsSafeEntry (inspected name ty mode owner identity) =
      (decodes name ≡ true) × (is_unexpected ty ≡ false) × IsOwnerOnly uid owner mode

  -- A directory that is opened under the name of a listed one: it is gone, or it is the one that was
  -- listed and is safe inside.
  abbrev pub IsEnteredSafely : (Dir → Type 0) → Dir → Text → EntryIdentity → Type 0
  IsEnteredSafely safe dir name identity =
      (open_scanned_child_dir dir name ≡ ok none)
      ⊎ ((child : Dir) × (opened : EntryIdentity) × (open_scanned_child_dir dir name
            ≡ ok (some child))
          × (open_dir_identity child ≡ ok opened)
          × (same_identity opened identity ≡ true)
          × safe child)

  -- What is below an entry is safe: nothing, unless the entry is a directory.
  abbrev pub IsSafeBelow : (Dir → Type 0) → Dir → ScannedChild → Type 0
  IsSafeBelow safe dir (inspected name directory mode owner identity) =
      IsEnteredSafely safe dir name identity
  IsSafeBelow safe dir _ = Unit

  abbrev pub IsLeaf : ScannedChild → Type 0
  IsLeaf (unreadable name error) = ⊥
  IsLeaf (inspected name ty mode owner identity) = is_directory ty ≡ false

  -- A listing of the directory is complete, its entries are safe, and each directory among them is
  -- entered safely, down to the last level, which has no directories.
  abbrev pub IsSafeDir : ℕ → Dir → Type 0
  IsSafeDir zero dir =
      (budget : ℕ) × (scanned : ScannedChildren) × (scan_child_entries_at fs dir (at_most budget)
        ≡ ok scanned)
      × (scanned.truncated ≡ false)
      × All IsSafeEntry scanned.entries
      × All IsLeaf scanned.entries
  IsSafeDir (suc levels) dir =
      (budget : ℕ) × (scanned : ScannedChildren) × (scan_child_entries_at fs dir (at_most budget)
        ≡ ok scanned)
      × (scanned.truncated ≡ false)
      × All IsSafeEntry scanned.entries
      × All (IsSafeBelow (IsSafeDir levels) dir) scanned.entries

  abbrev pub pending_of : ScannedChild → List PendingDir
  pending_of (unreadable name error) = []
  pending_of (inspected name ty mode owner identity) =
      if is_directory ty then record { name = name; identity = identity } ∷ [] else []

  abbrev pub pending_of_all : List ScannedChild → List PendingDir
  pending_of_all [] = []
  pending_of_all (c ∷ cs) = pending_of c ++ pending_of_all cs

  judge-safe :
      (name : Text) (ty : ChildType) (mode owner : ℕ) (identity : EntryIdentity) (at : Text)
      (w : LocalStateTreeWalk)
      → w.effective_uid ≡ uid
      → IsClean (judge_child name ty mode owner identity at w).0
      → (is_unexpected ty ≡ false)
        × IsOwnerOnly uid owner mode
        × ((judge_child name ty mode owner identity at w).1
            ≡ (if is_directory ty then record { name = name; identity = identity } ∷ [] else []))
  unfolding judge_child record_unexpected_entry
  judge-safe name ty mode owner identity at w u c = elim (Bool-cases (is_unexpected ty)) [
    | inl odd ↦
        let first = record_ (some (violation at unexpected_entry_type)) w in
        elim (Bool-cases (owner == w.effective_uid)) [
          | inl own ↦ absurd (none_found _ w (rw (odd, own) at c))
          | inr foreign ↦ absurd (none_found _ first (rw (odd, foreign) at c))
        ]
    | inr fine ↦
        let facts : EntryFacts = record { owner = owner; mode = mode; is_dir = is_directory ty } in
        let clear = found_none (inspect_entry_facts facts w.effective_uid at) w (rw fine at c) in
        let (own, private_) = (inspect_entry_facts_iff facts w.effective_uid at).0 clear in
        (fine, (own ∙ u, private_), rw fine refl)
  ]

  odd_name :
      (name : Text) (ty : ChildType) (mode owner : ℕ) (identity : EntryIdentity) (dir : Dir)
      (w : LocalStateTreeWalk)
      → decodes name ≡ false
      → IsClean (inspect_child fs dir (inspected name ty mode owner identity) w).0
      → ⊥
  unfolding inspect_child
  odd_name name ty mode owner identity dir w odd c =
      let v = violation (path_under dir name) undecodable_name in
      none_found v w (
        (judge-Goes name ty mode owner identity (path_under dir name) (record_ (some v) w)).clean
          (rw odd at c))

  child-safe :
      (dir : Dir) (child : ScannedChild) (w : LocalStateTreeWalk)
      → w.effective_uid ≡ uid
      → IsClean (inspect_child fs dir child w).0
      → IsSafeEntry child × ((inspect_child fs dir child w).1 ≡ pending_of child)
  unfolding inspect_child
  child-safe dir (unreadable name error) w u c = absurd (none_found _ w c)
  child-safe dir (inspected name ty mode owner identity) w u c = elim (Bool-cases (decodes name)) [
    | inl fine ↦
        let (a, b, e) =
          judge-safe name ty mode owner identity (path_under dir name) w u (rw fine at c) in
        rw fine ((refl, a, b), e)
    | inr odd ↦ absurd (odd_name name ty mode owner identity dir w odd c)
  ]

  pub children-safe :
      (dir : Dir) (children : List ScannedChild) (w : LocalStateTreeWalk)
      → length children ≤ w.remaining_entries
      → w.effective_uid ≡ uid
      → IsClean (inspect_children fs dir children w).0
      → All IsSafeEntry children
        × ((inspect_children fs dir children w).1 ≡ pending_of_all children)
  unfolding inspect_children spend_entry
  children-safe dir [] w le u c = (tt, refl)
  children-safe dir (child ∷ children) w le u c =
      let first = inspect_child fs dir child (spend_entry w) in
      let le' : length children ≤ first.0.remaining_entries =
        omega (arith, child-remaining fs dir child (spend_entry w)) in
      let mid : IsClean first.0 = (children-Goes fs dir children first.0 le').clean c in
      let (safe, here) = child-safe dir child (spend_entry w) u mid in
      let (rest, later) =
        children-safe dir children first.0 le' ((child-Goes fs dir child (spend_entry w)).uid ∙ u)
          c in
      ((safe, rest), rw (here, later) refl)
