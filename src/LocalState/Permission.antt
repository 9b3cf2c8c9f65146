-- ===== src/LocalState/Permission.antt =====
-- crates/kapsaro-core/src/support/fs/permission.rs: what the owner and the mode of one entry make it.
-- The message of a finding is left out; its kind and path are kept.
use kapsaro.Base.{ℕ, ◌%◌, Bool, not, Option, none, some, ◌≡◌, ◌↔◌, arith, ◌==◌, if◌then◌else◌, Text}
use kapsaro.LocalState.Scan.{EntryFacts}

pub data PermissionViolationKind : Type 0 where
  insecure_mode foreign_owner unreadable_entry undecodable_name : PermissionViolationKind
  unexpected_entry_type replaced_entry incomplete_scan : PermissionViolationKind
  insecure_ancestor unreadable_ancestor unresolvable_ancestry : PermissionViolationKind

pub record PermissionViolation : Type 0 where
  pub path : Text
  pub kind : PermissionViolationKind

abbrev pub violation : Text → PermissionViolationKind → PermissionViolation
violation at kind_ = record { path = at; kind = kind_ }

-- `mode & 0o077 == 0`: the six low bits are clear
unfoldable pub is_private : ℕ → Bool
is_private mode = mode % 64 == 0

unfoldable pub inspect_entry_facts : EntryFacts → ℕ → Text → Option PermissionViolation
unfolding is_private
inspect_entry_facts facts effective_uid display_path =
    if not (facts.owner == effective_uid)
    then some (violation display_path foreign_owner)
    else if is_private facts.mode
    then none
    else some (violation display_path insecure_mode)

-- The entry belongs to the user, and nobody else can do anything with it.
abbrev pub IsOwnerOnly : ℕ → ℕ → ℕ → Type 0
IsOwnerOnly effective_uid owner mode = (owner ≡ effective_uid) × (mode % 64 ≡ 0)

pub inspect_entry_facts_iff :
    (facts : EntryFacts) (uid : ℕ) (at : Text)
    → (inspect_entry_facts facts uid at ≡ none) ↔ IsOwnerOnly uid facts.owner facts.mode
unfolding inspect_entry_facts is_private
inspect_entry_facts_iff facts uid at = ground arith
