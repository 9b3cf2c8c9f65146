-- ===== src/LocalState/Ancestry.antt =====
-- crates/kapsaro-core/src/support/fs/permission.rs: the scan of the directories above local state. A path
-- has its names from the innermost out; with none left it is the root, or the empty path. Messages
-- are left out, and the reason for a failure is its error.
pub mod Exact
use kapsaro.Base.{
  ℕ, ◌/◌, ◌%◌, ◌==◌, Bool, true, false, not, ◌&&◌, ◌||◌, List, [], ◌∷◌, ◌++◌, Option, none, some,
  if◌then◌else◌, Text, any,
}
use kapsaro.Errors.{Error, Result, ok, err, ◌>>=◌}
use kapsaro.Text.{codes, text_eq}
use kapsaro.LocalState.Scan.{EntryFacts}
use kapsaro.LocalState.Permission.{
  PermissionViolation, violation, insecure_ancestor, unreadable_ancestor, unresolvable_ancestry,
}

pub record DirPath : Type 0 where
  pub absolute : Bool
  pub names : List Text

abbrev pub names_eq : List Text → List Text → Bool
names_eq [] [] = true
names_eq (a ∷ p) (b ∷ q) = text_eq a b && names_eq p q
names_eq _ _ = false

abbrev pub path_eq : DirPath → DirPath → Bool
path_eq p q = (if p.absolute then q.absolute else not q.absolute) && names_eq p.names q.names

abbrev pub contains_path : List DirPath → DirPath → Bool
contains_path paths p = any (λ q. path_eq q p) paths

-- `Path::parent`
abbrev pub parent : DirPath → Option DirPath
parent p = elim p.names [ [] ↦ none | name ∷ rest ↦ some (record p { names = rest }) ]

-- `Path::ancestors`, from the outermost on
abbrev pub ancestors_from_outermost : Bool → List Text → List DirPath
ancestors_from_outermost absolute [] = record { absolute = absolute; names = [] } ∷ []
ancestors_from_outermost absolute (name ∷ rest) =
    ancestors_from_outermost absolute rest
    ++ record { absolute = absolute; names = name ∷ rest } ∷ []

-- an answer of `fs::canonicalize`
pub data Canonical : Type 0 where
  resolved : DirPath → Canonical
  not_found : Canonical
  failed : Error → Canonical

-- `fs::canonicalize` and `fs::metadata`, while one scan runs, and the text of a path
pub record Machine : Type 0 where
  pub canonicalize : DirPath → Canonical
  pub metadata : DirPath → Result EntryFacts
  pub display : DirPath → Text

pub record AncestorOwnerFinding : Type 0 where
  pub path : DirPath
  pub owner : ℕ

pub record LocalStateAncestryScan : Type 0 where
  pub violations : List PermissionViolation
  pub owners : List AncestorOwnerFinding
  pub unreadable : Option Error

abbrev pub empty_scan : LocalStateAncestryScan
empty_scan = record { violations = []; owners = []; unreadable = none }

-- support/path.rs
abbrev pub path_or_current_dir : DirPath → DirPath
path_or_current_dir p = elim p.names [
  | [] ↦ if p.absolute then p else record p { names = codes "." ∷ [] }
  | name ∷ rest ↦ p
]

unfoldable pub is_administrative_owner : ℕ → ℕ → Bool
is_administrative_owner owner effective_uid = owner == 0 || owner == effective_uid

-- `mode & 0o022 == 0`: the bits 1 and 4 are clear
abbrev pub is_closed : ℕ → Bool
is_closed mode = mode / 2 % 2 == 0 && mode / 16 % 2 == 0

-- `mode & 0o1000 != 0`: the bit 9 is set
abbrev pub is_sticky : ℕ → Bool
is_sticky mode = not (mode / 512 % 2 == 0)

-- `for_each_ancestor` over one chain: the directories that were seen, which grow at their front, and
-- what the visits make of the scan
module _ {A : Type 0} (visit : DirPath → A → A) where
  unfoldable pub visit_chain : List DirPath → List DirPath → A → List DirPath × A
  visit_chain [] seen scan = (seen, scan)
  visit_chain (ancestor ∷ chain) seen scan =
      let skipped = visit_chain chain seen scan in
      let visited = visit_chain chain (ancestor ∷ seen) (visit ancestor scan) in
      if contains_path seen ancestor then skipped else visited

  unfoldable pub visit_bases : List DirPath → List DirPath → A → List DirPath × A
  unfolding visit_chain
  visit_bases [] seen scan = (seen, scan)
  visit_bases (base ∷ bases) seen scan =
      let chain = visit_chain (ancestors_from_outermost base.absolute base.names) seen scan in
      visit_bases bases chain.0 chain.1

module _ (m : Machine) where
  open m use {canonicalize, metadata, display}

  unfoldable pub inspect_ancestor_owner : EntryFacts → DirPath → ℕ → List AncestorOwnerFinding
  unfolding is_administrative_owner
  inspect_ancestor_owner facts p effective_uid =
      if is_administrative_owner facts.owner effective_uid
      then []
      else record { path = p; owner = facts.owner } ∷ []

  unfoldable pub inspect_ancestor_mode : EntryFacts → DirPath → List PermissionViolation
  inspect_ancestor_mode facts p =
      if is_closed facts.mode
      then []
      else if is_sticky facts.mode
      then []
      else violation (display p) insecure_ancestor ∷ []

  unfoldable pub record_unreadable :
      DirPath → Error → LocalStateAncestryScan → LocalStateAncestryScan
  record_unreadable p reason scan = record scan {
    violations = scan.violations ++ violation (display p) unreadable_ancestor ∷ [];
    unreadable = elim scan.unreadable [ some first ↦ some first | none ↦ some reason ];
  }

  unfoldable pub read_ancestor : ℕ → DirPath → LocalStateAncestryScan → LocalStateAncestryScan
  unfolding inspect_ancestor_mode inspect_ancestor_owner record_unreadable
  read_ancestor effective_uid p scan = elim (metadata p) [
    | err error ↦ record_unreadable p error scan
    | ok facts ↦ record scan {
      violations = scan.violations ++ inspect_ancestor_mode facts p;
      owners = scan.owners ++ inspect_ancestor_owner facts p effective_uid;
    }
  ]

  -- the loop of `resolve_existing_parent`, from the innermost ancestor on
  unfoldable pub resolve_deepest : Bool → List Text → Result (Option DirPath)
  resolve_deepest absolute [] =
      elim (canonicalize (path_or_current_dir (record { absolute = absolute; names = [] }))) [
        | resolved p ↦ ok (some p)
        | not_found ↦ ok none
        | failed error ↦ err error
      ]
  resolve_deepest absolute (name ∷ rest) =
      let outer = resolve_deepest absolute rest in
      elim (canonicalize (record { absolute = absolute; names = name ∷ rest })) [
        | resolved p ↦ ok (some p)
        | not_found ↦ outer
        | failed error ↦ err error
      ]

  unfoldable pub resolve_existing_parent : DirPath → Result (Option DirPath)
  unfolding resolve_deepest
  resolve_existing_parent p = elim (parent p) [
    | none ↦ ok none
    | some above ↦ resolve_deepest above.absolute above.names
  ]

  unfoldable pub resolve_root_parent : DirPath → Result (Option DirPath)
  resolve_root_parent p = elim (canonicalize p) [
    | resolved real ↦ ok (parent real)
    | not_found ↦ ok none
    | failed error ↦ err error
  ]

  abbrev add_base : List DirPath → Option DirPath → List DirPath
  add_base bases none = bases
  add_base bases (some p) = if contains_path bases p then bases else bases ++ p ∷ []

  unfoldable pub resolve_existing_ancestor_bases : DirPath → Result (List DirPath)
  unfolding resolve_existing_parent resolve_root_parent
  resolve_existing_ancestor_bases p = do
    holding ← resolve_existing_parent p
    real ← resolve_root_parent p
    ok (add_base (add_base [] holding) real)

  unfoldable pub walk_local_state_ancestry : ℕ → DirPath → Result LocalStateAncestryScan
  unfolding resolve_existing_ancestor_bases visit_bases read_ancestor
  walk_local_state_ancestry effective_uid p = do
    bases ← resolve_existing_ancestor_bases p
    ok ((visit_bases (read_ancestor effective_uid) bases [] empty_scan).1)

  unfoldable pub collect_local_state_ancestor_violations : ℕ → DirPath → List PermissionViolation
  unfolding walk_local_state_ancestry
  collect_local_state_ancestor_violations effective_uid p =
      elim (walk_local_state_ancestry effective_uid p) [
        | ok scan ↦ scan.violations
        | err reason ↦ violation (display p) unresolvable_ancestry ∷ []
      ]
