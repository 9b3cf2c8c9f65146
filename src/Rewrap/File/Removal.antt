-- ===== src/Rewrap/File/Removal.antt =====
-- The wrapped keys that are taken out of an encrypted file (feature/rewrap/file_op/recipients.rs).
use kapsaro.Base.{
  true, false, not, ◌&&◌, ◌||◌, List, [], ◌∷◌, some, ◌≡◌, refl, ap, inl, inr, arith, Text, map,
  filter, find, All, All_imp, All-filter, Bool-cases,
}
use kapsaro.Errors.{ok, >>=-eq-ok}
use kapsaro.Text.{text_eq, text_eq_iff, text_eq_refl, text_eq_sym, contains}
use kapsaro.Model.PublicKey.{PublicKey}
use kapsaro.Model.FileEnc.{FileEncDocumentProtected, handles}
use kapsaro.Document.WrapSet.{WrapItem}
use kapsaro.Rewrap.Recipient.{validate_not_empty_recipients}
use kapsaro.Rewrap.Recipient.Changes.{handles-filter}
use kapsaro.Rewrap.Plan.Laws.{Rewrites}
use kapsaro.Rewrap.File.{
  FileCrypto, find_removals, retain_others, record_removals, remove_file_recipients,
}

abbrev removed_handles : List (Text × Text) → List Text
removed_handles = map (λ (r : Text × Text). r.0)

retain-handles :
    (tr : List (Text × Text)) (ws : List WrapItem) (j : Text)
    → contains (handles (retain_others ws tr)) j
      ≡ (contains (handles ws) j && not (contains (removed_handles tr) j))
unfolding retain_others
retain-handles [] ws j = ground arith
retain-handles (r ∷ tr) ws j = ground (
  arith,
  retain-handles tr (filter (λ w. not (text_eq w.recipient_handle r.0)) ws) j,
  handles-filter (λ t. not (text_eq t r.0)) ws j,
  text_eq_sym j r.0,
)

retain-All :
    (P : WrapItem → Type 0) (tr : List (Text × Text)) (ws : List WrapItem)
    → All (λ w. contains (removed_handles tr) w.recipient_handle ≡ false → P w) ws
    → All P (retain_others ws tr)
unfolding retain_others
retain-All P [] ws h = All_imp ws (λ w f. f refl) h
retain-All P (r ∷ tr) ws h =
    retain-All P tr (filter (λ w. not (text_eq w.recipient_handle r.0)) ws) (
      All-filter _ _ ws
        (All_imp ws (λ w f n m. f (ground (arith, text_eq_sym w.recipient_handle r.0))) h))

find-some :
    (ws : List WrapItem) (handle : Text)
    → contains (handles ws) handle ≡ true
    → (w : WrapItem) × (find (λ w. text_eq w.recipient_handle handle) ws ≡ some w)
find-some [] handle h = absurd cc
find-some (x ∷ ws) handle h = elim (Bool-cases (text_eq x.recipient_handle handle)) [
  | inl hit ↦ (x, rw hit refl)
  | inr miss ↦ let (w, e) = find-some ws handle (rw miss at h) in (w, rw miss e)
]

removals-add :
    (ws : List WrapItem) (r : Text) (rs : List Text) (j : Text)
    → contains (removed_handles (find_removals ws (r ∷ rs))) j ≡ (
        (text_eq r j && contains (handles ws) r)
        || contains (removed_handles (find_removals ws rs)) j)
unfolding find_removals
removals-add ws r rs j = elim (Bool-cases (contains (handles ws) r)) [
  | inr absent ↦ rw absent (ground arith)
  | inl present ↦ let (w, e) = find-some ws r present in rw (present, e) (ground arith)
]

-- What is taken out is what was asked for and is there.
removals-handles :
    (ws : List WrapItem) (rs : List Text) (j : Text)
    → contains (removed_handles (find_removals ws rs)) j
      ≡ (contains rs j && contains (handles ws) j)
unfolding find_removals
removals-handles ws [] j = refl
removals-handles ws (r ∷ rs) j = elim (Bool-cases (text_eq r j)) [
  | inl same ↦
      let e = ap (contains (handles ws)) ((text_eq_iff r j).0 same) in
      ground (arith, removals-add ws r rs j, removals-handles ws rs j)
  | inr other ↦ ground (arith, removals-add ws r rs j, removals-handles ws rs j)
]

own-handles : (ws : List WrapItem) → All (λ w. contains (handles ws) w.recipient_handle ≡ true) ws
own-handles [] = tt
own-handles (w ∷ ws) = (rw text_eq_refl refl, All_imp ws (λ u h. ground arith) (own-handles ws))

not_removed :
    (P : WrapItem → Type 0) (all ws : List WrapItem) (rs : List Text)
    → All (λ w. contains (handles all) w.recipient_handle ≡ true) ws
    → All (λ w. contains rs w.recipient_handle ≡ false → P w) ws
    → All
        (λ w. contains (removed_handles (find_removals all rs)) w.recipient_handle ≡ false → P w)
        ws
not_removed P all [] rs own h = tt
not_removed P all (w ∷ ws) rs own h = (
  λ n. h.0 (ground (arith, removals-handles all rs w.recipient_handle, own.0)),
  not_removed P all ws rs own.1 h.1,
)

pub remove-Rewrites :
    (c : FileCrypto) (targets : List PublicKey) (old new : FileEncDocumentProtected)
    (rs : List Text)
    → remove_file_recipients c old rs ≡ ok new
    → Rewrites targets rs [] old.wrap new.wrap
unfolding remove_file_recipients
remove-Rewrites c targets old new rs h =
    let tr = find_removals old.wrap rs in
    let (history, _, h') = >>=-eq-ok (record_removals c old.removed_recipients tr) _ h in
    let (_, _, h'') =
      >>=-eq-ok (validate_not_empty_recipients (handles (retain_others old.wrap tr))) _ h' in
    let e : retain_others old.wrap tr ≡ new.wrap = ground arith in
    rw (← e) (record {
      handles_of =
          λ j. ground (arith, retain-handles tr old.wrap j, removals-handles old.wrap rs j);
      items_of = λ P stays fresh.
          retain-All P tr old.wrap
            (not_removed P old.wrap old.wrap rs (own-handles old.wrap) stays);
    })

-- What holds of every wrapped key still holds after a removal.
pub remove-All :
    (c : FileCrypto) (P : WrapItem → Type 0) (old new : FileEncDocumentProtected) (rs : List Text)
    → remove_file_recipients c old rs ≡ ok new
    → All P old.wrap
    → (new.sid ≡ old.sid) × All P new.wrap
unfolding remove_file_recipients
remove-All c P old new rs h p =
    let tr = find_removals old.wrap rs in
    let (history, _, h') = >>=-eq-ok (record_removals c old.removed_recipients tr) _ h in
    let (_, _, h'') =
      >>=-eq-ok (validate_not_empty_recipients (handles (retain_others old.wrap tr))) _ h' in
    let e : retain_others old.wrap tr ≡ new.wrap = ground arith in
    (ground arith, rw (← e) (retain-All P tr old.wrap (All_imp old.wrap (λ w q _. q) p)))
