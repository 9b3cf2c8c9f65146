-- ===== src/LocalState/Scan.antt =====
-- crates/kapsaro-core/src/support/fs/relative.rs: the listing of a directory within a budget.
-- A name is its bytes. The file system is a parameter: what it answers while one walk runs.
use kapsaro.Base.{
  ℕ, suc, ◌+◌, ◌≤◌, length-append, Bool, true, false, not, ◌||◌, List, [], ◌∷◌, ◌++◌, ◌≡◌, refl,
  arith, inl, inr, ltb, if◌then◌else◌, length, Text, Option, Bool-cases,
}
use kapsaro.Errors.{Error, Result, ok, err, ◌>>=◌, >>=-eq-ok}
use kapsaro.Text.{codes, text_eq, text_leb}

pub data ChildType : Type 0 where
  directory regular_file symlink other : ChildType

pub record EntryIdentity : Type 0 where
  pub device : ℕ
  pub inode : ℕ

pub record EntryFacts : Type 0 where
  pub owner : ℕ
  pub mode : ℕ
  pub is_dir : Bool

-- an answer of `statat`: a type, a mode, an owner and an identity, or that nothing has the name
pub data Stat : Type 0 where
  found : ChildType → ℕ → ℕ → EntryIdentity → Stat
  vanished : Stat
  failed : Error → Stat

pub record FileSystem : Type 1 where
  pub Dir : Type 0
  pub path : Dir → Text
  pub path_under : Dir → Text → Text
  pub read_from : Dir → Result (List (Result Text))
  pub statat : Dir → Text → Stat
  pub decodes : Text → Bool
  pub metadata : Dir → Result EntryFacts
  pub open_scanned_child_dir : Dir → Text → Result (Option Dir)
  pub open_dir_identity : Dir → Result EntryIdentity

pub data ScannedChild : Type 0 where
  inspected : Text → ChildType → ℕ → ℕ → EntryIdentity → ScannedChild
  unreadable : Text → Error → ScannedChild

abbrev pub child_name : ScannedChild → Text
child_name (inspected name child_type mode owner identity) = name
child_name (unreadable name error) = name

pub record ScannedChildren : Type 0 where
  pub entries : List ScannedChild
  pub truncated : Bool

pub data ScanBudget : Type 0 where
  unlimited : ScanBudget
  at_most : ℕ → ScanBudget

unfoldable pub allows : ScanBudget → ℕ → Bool
allows unlimited count = true
allows (at_most limit) count = ltb count limit

-- `entries.sort_by` on the raw names
unfoldable pub insert_child : ScannedChild → List ScannedChild → List ScannedChild
insert_child c [] = c ∷ []
insert_child c (d ∷ rest) =
    let later = insert_child c rest in
    if text_leb (child_name c) (child_name d) then c ∷ d ∷ rest else d ∷ later

unfoldable pub sort_children : List ScannedChild → List ScannedChild
unfolding insert_child
sort_children [] = []
sort_children (c ∷ rest) = insert_child c (sort_children rest)

length-insert_child :
    (c : ScannedChild) (cs : List ScannedChild) → length (insert_child c cs) ≡ suc (length cs)
unfolding insert_child
length-insert_child c [] = refl
length-insert_child c (d ∷ cs) = ground (arith, length-insert_child c cs)

length-sort_children : (cs : List ScannedChild) → length (sort_children cs) ≡ length cs
unfolding sort_children
length-sort_children [] = refl
length-sort_children (c ∷ cs) =
    omega (arith, length-insert_child c (sort_children cs), length-sort_children cs)

module _ (fs : FileSystem) where
  open fs use {Dir, read_from, statat}

  unfoldable pub scan_one_child : Dir → Text → List ScannedChild
  scan_one_child dir name = elim (statat dir name) [
    | found child_type mode owner identity ↦ inspected name child_type mode owner identity ∷ []
    | vanished ↦ []
    | failed error ↦ unreadable name error ∷ []
  ]

  -- the loop over the stream; the entries come in the order of the stream
  unfoldable pub scan_stream : Dir → ScanBudget → ℕ → List (Result Text) → Result ScannedChildren
  unfolding scan_one_child allows
  scan_stream dir budget count [] = ok (record { entries = []; truncated = false })
  scan_stream dir budget count (err error ∷ stream) = err error
  scan_stream dir budget count (ok raw ∷ stream) =
      let skipped = scan_stream dir budget count stream in
      let counted = scan_stream dir budget (suc count) stream in
      if text_eq raw (codes ".") || text_eq raw (codes "..")
      then skipped
      else if not (allows budget count)
      then ok (record { entries = []; truncated = true })
      else counted >>= λ rest.
          ok (record {
            entries = scan_one_child dir raw ++ rest.entries;
            truncated = rest.truncated;
          })

  unfoldable pub scan_child_entries_at : Dir → ScanBudget → Result ScannedChildren
  unfolding scan_stream sort_children
  scan_child_entries_at dir budget = do
    stream ← read_from dir
    scanned ← scan_stream dir budget 0 stream
    ok (record scanned { entries = sort_children scanned.entries })

  length-scan_one_child : (dir : Dir) (name : Text) → length (scan_one_child dir name) ≤ 1
  unfolding scan_one_child
  length-scan_one_child dir name = ground arith

  length-scan_stream :
      (dir : Dir) (limit count : ℕ) (stream : List (Result Text)) (out : ScannedChildren)
      → count ≤ limit
      → scan_stream dir (at_most limit) count stream ≡ ok out
      → length out.entries + count ≤ limit
  unfolding scan_stream allows
  length-scan_stream dir limit count [] out le h = ground arith
  length-scan_stream dir limit count (err error ∷ stream) out le h = absurd cc
  length-scan_stream dir limit count (ok raw ∷ stream) out le h =
      elim (Bool-cases (text_eq raw (codes ".") || text_eq raw (codes ".."))) [
        | inl dots ↦ length-scan_stream dir limit count stream out le (rw dots at h)
        | inr named ↦ elim (Bool-cases (ltb count limit)) [
          | inr full ↦ ground arith
          | inl room ↦
              let (rest, counted, r) =
                >>=-eq-ok (scan_stream dir (at_most limit) (suc count) stream) _
                  (rw (named, room) at h) in
              let e : scan_one_child dir raw ++ rest.entries ≡ out.entries = ground arith in
              rw (← e) (
                omega (
                  arith,
                  length-scan_stream dir limit (suc count) stream rest (ground arith) counted,
                  length-scan_one_child dir raw,
                  length-append (scan_one_child dir raw) rest.entries,
                ))
        ]
      ]

  -- A listing never has more entries than its budget.
  pub length-scan_child_entries_at :
      (dir : Dir) (limit : ℕ) (out : ScannedChildren)
      → scan_child_entries_at dir (at_most limit) ≡ ok out
      → length out.entries ≤ limit
  unfolding scan_child_entries_at
  length-scan_child_entries_at dir limit out h =
      let (stream, _, h1) = >>=-eq-ok (read_from dir) _ h in
      let (scanned, made, h2) = >>=-eq-ok (scan_stream dir (at_most limit) 0 stream) _ h1 in
      let e : sort_children scanned.entries ≡ out.entries = ground arith in
      rw (← e) (
        omega (
          arith,
          length-sort_children scanned.entries,
          length-scan_stream dir limit 0 stream scanned (omega arith) made,
        ))
