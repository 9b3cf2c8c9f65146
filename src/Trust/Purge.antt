-- ===== src/Trust/Purge.antt =====
-- crates/kapsaro-core/src/feature/trust/purge.rs: the approvals that a cut-off date selects.
-- An `OffsetDateTime` is its distance from a fixed instant, and parsing RFC 3339 is the `time` crate's.
use kapsaro.Base.{
  ℕ, Option, Bool, true, false, List, [], ◌∷◌, ◌++◌, ◌≡◌, inl, inr, ◌∙◌, refl, arith, ltb,
  if◌then◌else◌, Text,
}
use mathlib.Core.List.{append-nil, append_assoc}
use kapsaro.Errors.{Result, ok, err, ◌>>=◌, Result-cases, ok_or, bad_timestamp, build_parse_error}

-- `OffsetDateTime::parse` with the RFC 3339 format
abbrev pub ParseTime : Type 0
ParseTime = Text → Option ℕ

unfoldable pub parse_approved_at : ParseTime → Text → Result ℕ
parse_approved_at parse text = ok_or (parse text) (build_parse_error (bad_timestamp text))

module _ {R : Type 0} (approved_at : R → Text) (parse : ParseTime) where
  unfoldable pub collect_purge_candidates : List R → ℕ → Result (List R)
  collect_purge_candidates [] older_than = ok []
  collect_purge_candidates (r ∷ rest) older_than = do
    at ← parse_approved_at parse (approved_at r)
    later ← collect_purge_candidates rest older_than
    ok (if ltb at older_than then r ∷ later else later)

  -- The loop over `drain(..)`; `removed` and `retained` grow at their ends.
  unfoldable pub purge_loop : List R → ℕ → List R → List R → Result (List R × List R)
  purge_loop [] older_than removed retained = ok (removed, retained)
  purge_loop (r ∷ rest) older_than removed retained = do
    at ← parse_approved_at parse (approved_at r)
    let old = ltb at older_than
    purge_loop rest older_than (if old then removed ++ r ∷ [] else removed)
        (if old then retained else retained ++ r ∷ [])

  -- The records that the call leaves, and its result. The drain empties the list before a timestamp
  -- that cannot be parsed ends the call.
  unfoldable pub purge_records : List R → ℕ → List R × Result (List R)
  purge_records records older_than = elim (purge_loop records older_than [] []) [
    | ok (removed, retained) ↦ (retained, ok removed)
    | err e ↦ ([], err e)
  ]

  -- The same in one pass with no accumulator.
  purge_split : List R → ℕ → Result (List R × List R)
  purge_split [] older_than = ok ([], [])
  purge_split (r ∷ rest) older_than = do
    at ← parse_approved_at parse (approved_at r)
    s ← purge_split rest older_than
    ok (if ltb at older_than then (r ∷ s.0, s.1) else (s.0, r ∷ s.1))

  abbrev joined : List R → List R → Result (List R × List R) → Result (List R × List R)
  joined removed retained s = s >>= λ p. ok (removed ++ p.0, retained ++ p.1)

  joined-step :
      (b : Bool) (r : R) (removed retained : List R) (s : Result (List R × List R))
      → joined
          (if b then removed ++ r ∷ [] else removed)
          (if b then retained else retained ++ r ∷ [])
          s
        ≡ joined removed retained (s >>= λ p. ok (if b then (r ∷ p.0, p.1) else (p.0, r ∷ p.1)))
  joined-step true r removed retained (ok p) = simp append_assoc
  joined-step false r removed retained (ok p) = simp append_assoc
  joined-step true r removed retained (err e) = refl
  joined-step false r removed retained (err e) = refl

  purge_loop-split :
      (rs : List R) (t : ℕ) (removed retained : List R)
      → purge_loop rs t removed retained ≡ joined removed retained (purge_split rs t)
  unfolding purge_loop purge_split
  purge_loop-split [] t removed retained = simp append-nil
  purge_loop-split (r ∷ rs) t removed retained =
      elim (Result-cases (parse_approved_at parse (approved_at r))) [
        | inr (e, failed) ↦ rw failed refl
        | inl (at, found) ↦ rw found (
            purge_loop-split rs t (if ltb at t then removed ++ r ∷ [] else removed)
              (if ltb at t then retained else retained ++ r ∷ [])
            ∙ joined-step (ltb at t) r removed retained (purge_split rs t))
      ]

  candidates-split :
      (rs : List R) (t : ℕ) → collect_purge_candidates rs t ≡ (purge_split rs t >>= λ p. ok p.0)
  unfolding collect_purge_candidates purge_split
  candidates-split [] t = refl
  candidates-split (r ∷ rs) t = ground (arith, candidates-split rs t)

  purge_records-split :
      (rs : List R) (t : ℕ)
      → purge_records rs t
        ≡ (elim (purge_split rs t) [ ok p ↦ (p.1, ok p.0) | err e ↦ ([], err e) ])
  unfolding purge_records
  purge_records-split rs t = ground (arith, purge_loop-split rs t [] [])

  -- Removal takes away exactly the records that the listing shows, in the same order, and fails where
  -- the listing fails.
  pub purge_records-candidates :
      (rs : List R) (t : ℕ) → (purge_records rs t).1 ≡ collect_purge_candidates rs t
  purge_records-candidates rs t =
      rw (purge_records-split rs t) (ground (arith, candidates-split rs t))
