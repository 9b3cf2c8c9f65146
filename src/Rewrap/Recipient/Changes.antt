-- ===== src/Rewrap/Recipient/Changes.antt =====
-- What the two changes of feature/recipient.rs make of the wrapped keys of a document.
use kapsaro.Base.{
  ℕ, ◌+◌, Bool, not, ◌&&◌, ◌||◌, List, [], ◌∷◌, ◌++◌, ◌≡◌, refl, ap, inl, inr, arith, Text, map,
  filter, All, All_imp, All-filter, All-append, length, Bool-cases,
}
use kapsaro.Errors.{Result, ok, >>=-eq-ok, collect}
use kapsaro.Text.{text_eq, text_eq_iff, contains}
use kapsaro.Model.PublicKey.{PublicKey}
use kapsaro.Model.FileEnc.{handles}
use kapsaro.Document.WrapSet.{WrapItem, validate_wrap_count}
use kapsaro.Rewrap.Recipient.{
  subject, resolve_snapshot_verified_recipients, resolve_new_snapshot_recipients,
  filter_existing_recipients, build_new_wrap_items, replace_recipient_wrap_items,
}
use kapsaro.Rewrap.Recipient.Built.{IsTarget, resolve_sound, build_sound, resolve-build}
use kapsaro.Rewrap.Plan.Laws.{Rewrites}

pub handles-append :
    (ws us : List WrapItem) (j : Text)
    → contains (handles (ws ++ us)) j ≡ (contains (handles ws) j || contains (handles us) j)
handles-append [] us j = refl
handles-append (w ∷ ws) us j = ground (arith, handles-append ws us j)

-- A filter by the handle filters the handles.
pub handles-filter :
    (f : Text → Bool) (ws : List WrapItem) (j : Text)
    → contains (handles (filter (λ w. f w.recipient_handle) ws)) j
      ≡ (contains (handles ws) j && f j)
handles-filter f [] j = refl
handles-filter f (w ∷ ws) j = elim (Bool-cases (text_eq w.recipient_handle j)) [
  | inl same ↦
      let e = ap f ((text_eq_iff w.recipient_handle j).0 same) in
      ground (arith, handles-filter f ws j)
  | inr other ↦ ground (arith, handles-filter f ws j)
]

subjects-filter :
    (f : Text → Bool) (ms : List PublicKey) (j : Text)
    → contains (map subject (filter (λ m. f (subject m)) ms)) j
      ≡ (contains (map subject ms) j && f j)
subjects-filter f [] j = refl
subjects-filter f (m ∷ ms) j = elim (Bool-cases (text_eq (subject m) j)) [
  | inl same ↦
      let e = ap f ((text_eq_iff (subject m) j).0 same) in ground (arith, subjects-filter f ms j)
  | inr other ↦ ground (arith, subjects-filter f ms j)
]

module _ (build : PublicKey → Result WrapItem)
    (addressed : (m : PublicKey) (w : WrapItem)
      → build m ≡ ok w
      → (w.recipient_handle ≡ subject m) × (w.kid ≡ m.protected.kid)) where
  pub replace-Rewrites :
      (targets : List PublicKey) (rs : List Text) (old new : List WrapItem)
      → replace_recipient_wrap_items build old rs targets ≡ ok new
      → Rewrites targets rs rs old new
  unfolding replace_recipient_wrap_items
  replace-Rewrites targets rs old new h =
      let (ms, found, h') = >>=-eq-ok (resolve_snapshot_verified_recipients targets rs) _ h in
      let (ws, built, h'') = >>=-eq-ok (collect build ms) _ h' in
      let kept = filter (λ w. not (contains rs w.recipient_handle)) old in
      let e : kept ++ ws ≡ new = ground arith in
      let (named, current) = resolve-build build addressed targets rs ms ws found built in
      rw (← e) (record {
        handles_of = λ j. ground (
          arith,
          handles-append kept ws j,
          handles-filter (λ t. not (contains rs t)) old j,
          ap (λ l. contains l j) named,
        );
        items_of = λ P stays fresh.
            All-append P kept ws
              (All-filter _ P old (All_imp old (λ w f n. f (ground arith)) stays))
              (All_imp ws fresh current);
      })

  pub new-Rewrites :
      (targets : List PublicKey) (rs : List Text) (old items : List WrapItem) (count : ℕ)
      → build_new_wrap_items build (handles old) count rs targets ≡ ok items
      → Rewrites targets [] rs old (old ++ items)
  unfolding build_new_wrap_items resolve_new_snapshot_recipients
  new-Rewrites targets rs old items count h =
      let (attested, found, h') =
        >>=-eq-ok (resolve_new_snapshot_recipients targets rs (handles old)) _ h in
      let (ms, resolved, same) =
        >>=-eq-ok (resolve_snapshot_verified_recipients targets rs) _ found in
      let (_, _, built) = >>=-eq-ok (validate_wrap_count (count + length attested)) _ h' in
      let e : filter_existing_recipients ms (handles old) ≡ attested = ground arith in
      let (names, targeted) = resolve_sound targets rs ms resolved in
      let kept : All (IsTarget targets) attested =
        rw (← e) (All-filter _ (IsTarget targets) ms (All_imp ms (λ m t _. t) targeted)) in
      let (named, current) = build_sound build addressed targets attested items built kept in
      record {
        handles_of = λ j. ground (
          arith,
          handles-append old items j,
          ap (λ l. contains l j) named,
          ap (λ l. contains (map subject l) j) e,
          subjects-filter (λ t. not (contains (handles old) t)) ms j,
          ap (λ l. contains l j) names,
        );
        items_of = λ P stays fresh.
            All-append P old items (All_imp old (λ w f. f refl) stays)
              (All_imp items fresh current);
      }
