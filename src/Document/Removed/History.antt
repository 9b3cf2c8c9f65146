-- ===== src/Document/Removed/History.antt =====
-- The entries of a history of removed recipients (feature/disclosure.rs), by kid.
use kapsaro.Base.{
  true, false, List, [], ◌∷◌, ◌++◌, Option, none, some, ◌≡◌, ◌↔◌, ◌∙◌, inl, inr, refl, ap, arith,
  if◌then◌else◌, Text, find, Bool-cases,
}
use kapsaro.Text.{text_eq, text_eq_iff, text_eq_sym}
use kapsaro.Document.Removed.{
  RemovedRecipient, has_kid, push_missing, build_unique_removed_recipients, replace_first,
  upsert_removed_recipient, merge_removed_history,
}

abbrev pub HasUniqueKids : List RemovedRecipient → Type 0
HasUniqueKids [] = Unit
HasUniqueKids (r ∷ list) = (has_kid list r.kid ≡ false) × HasUniqueKids list

-- The entry of a kid.
abbrev pub entry : List RemovedRecipient → Text → Option RemovedRecipient
entry list kid = find (λ r. text_eq r.kid kid) list

abbrev pub or_entry : Option RemovedRecipient → Option RemovedRecipient → Option RemovedRecipient
or_entry (some r) other = some r
or_entry none other = other

entry-snoc :
    (list : List RemovedRecipient) (r : RemovedRecipient) (kid : Text)
    → entry (list ++ r ∷ []) kid ≡ or_entry (entry list kid) (entry (r ∷ []) kid)
entry-snoc [] r kid = ground arith
entry-snoc (x ∷ list) r kid = ground (arith, entry-snoc list r kid)

entry-has_kid :
    (list : List RemovedRecipient) (kid : Text)
    → (has_kid list kid ≡ false) ↔ (entry list kid ≡ none)
entry-has_kid [] kid = (λ h. refl, λ h. refl)
entry-has_kid (x ∷ list) kid = ground (arith, entry-has_kid list kid)

push-entry :
    (list source : List RemovedRecipient) (kid : Text)
    → entry (push_missing list source) kid ≡ or_entry (entry list kid) (entry source kid)
unfolding push_missing
push-entry list [] kid = ground arith
push-entry list (r ∷ source) kid = elim (Bool-cases (has_kid list r.kid)) [
  | inl held ↦
      rw held (
        ground (arith, push-entry list source kid, entry-has_kid list r.kid, text_eq_iff r.kid kid))
  | inr new ↦ rw new (ground (arith, push-entry (list ++ r ∷ []) source kid, entry-snoc list r kid))
]

has_kid-snoc :
    (list : List RemovedRecipient) (r : RemovedRecipient) (kid : Text)
    → has_kid list kid ≡ false
    → text_eq r.kid kid ≡ false
    → has_kid (list ++ r ∷ []) kid ≡ false
has_kid-snoc [] r kid h n = ground arith
has_kid-snoc (x ∷ list) r kid h n = ground (arith, has_kid-snoc list r kid)

unique-snoc :
    (list : List RemovedRecipient) (r : RemovedRecipient)
    → HasUniqueKids list
    → has_kid list r.kid ≡ false
    → HasUniqueKids (list ++ r ∷ [])
unique-snoc [] r u h = (refl, tt)
unique-snoc (x ∷ list) r u h = (
  has_kid-snoc list r x.kid u.0 (ground (arith, text_eq_sym x.kid r.kid)),
  unique-snoc list r u.1 (ground arith),
)

push_unique :
    (list source : List RemovedRecipient)
    → HasUniqueKids list
    → HasUniqueKids (push_missing list source)
unfolding push_missing
push_unique list [] u = u
push_unique list (r ∷ source) u = elim (Bool-cases (has_kid list r.kid)) [
  | inl held ↦ rw held (push_unique list source u)
  | inr new ↦ rw new (push_unique (list ++ r ∷ []) source (unique-snoc list r u new))
]

unique-all :
    (source : List RemovedRecipient) → HasUniqueKids (build_unique_removed_recipients source)
unfolding build_unique_removed_recipients
unique-all source = push_unique [] source tt

entry-all :
    (source : List RemovedRecipient) (kid : Text)
    → entry (build_unique_removed_recipients source) kid ≡ entry source kid
unfolding build_unique_removed_recipients
entry-all source kid = push-entry [] source kid

abbrev pub entries : Option (List RemovedRecipient) → List RemovedRecipient
entries none = []
entries (some list) = list

-- A merge of two histories that are not both absent names each key once. A key's entry is the one the
-- target had first for it, or else the one the source had first.
pub merge_removed_history-entry :
    (target : Option (List RemovedRecipient)) (source : List RemovedRecipient)
    → HasUniqueKids (entries (merge_removed_history target (some source)))
      × ((kid : Text)
          → entry (entries (merge_removed_history target (some source))) kid
            ≡ or_entry (entry (entries target) kid) (entry source kid))
unfolding merge_removed_history
merge_removed_history-entry (some list) source = (
  push_unique (build_unique_removed_recipients list) source (unique-all list),
  λ kid.
      push-entry (build_unique_removed_recipients list) source kid
      ∙ ap (λ e. or_entry e (entry source kid)) (entry-all list kid),
)
merge_removed_history-entry none source = (unique-all source, λ kid. entry-all source kid)

entry-replace :
    (list : List RemovedRecipient) (r : RemovedRecipient) (kid : Text)
    → has_kid list r.kid ≡ true
    → entry (replace_first r list) kid ≡ (if text_eq r.kid kid then some r else entry list kid)
unfolding replace_first
entry-replace [] r kid h = absurd cc
entry-replace (x ∷ list) r kid h = ground (
  arith,
  entry-replace list r kid,
  text_eq_iff x.kid r.kid,
  text_eq_iff x.kid kid,
  text_eq_iff r.kid kid,
)

-- Recording a removal in a history of different keys keeps them different; the key's entry is then the
-- new one, and every other key's entry is the one it had.
pub upsert_removed_recipient-entry :
    (list : List RemovedRecipient) (r : RemovedRecipient)
    → HasUniqueKids list
    → HasUniqueKids (upsert_removed_recipient list r)
      × ((kid : Text)
          → entry (upsert_removed_recipient list r) kid
            ≡ (if text_eq r.kid kid then some r else entry list kid))
unfolding upsert_removed_recipient
upsert_removed_recipient-entry list r u = elim (Bool-cases (has_kid list r.kid)) [
  | inl held ↦ rw held (
    unique-all (replace_first r list),
    λ kid. entry-all (replace_first r list) kid ∙ entry-replace list r kid held,
  )
  | inr new ↦ rw new (
    unique-snoc list r u new,
    λ kid. ground (arith, entry-snoc list r kid, entry-has_kid list r.kid, text_eq_iff r.kid kid),
  )
]
