-- ===== src/Kv/Draft/Sorted.antt =====
-- The new pairs that `set_entries` of format/kv/document/draft.rs appends, in order of their keys.
use kapsaro.Base.{
  Bool, false, ◌||◌, List, [], ◌∷◌, none, some, ◌≡◌, ◌∙◌, refl, ap, inl, inr, arith, Text, map,
  filter, All, Bool-cases, if◌then◌else◌,
}
use kapsaro.Text.{text_eq, text_eq_iff, text_eq_sym, contains, lookup, text_leb, text_leb_refl}
use kapsaro.Kv.Draft.{sort_insert_pair, sort_pairs}

abbrev pub keys : List (Text × Text) → List Text
keys = map (λ (p : Text × Text). p.0)

abbrev pub HasDistinctKeys : List (Text × Text) → Type 0
HasDistinctKeys [] = Unit
HasDistinctKeys (p ∷ ps) = (contains (keys ps) p.0 ≡ false) × HasDistinctKeys ps

lookup-insert_pair :
    (p : Text × Text) (ps : List (Text × Text)) (k : Text)
    → lookup k (sort_insert_pair p ps) ≡ (if text_eq p.0 k then some p.1 else lookup k ps)
unfolding lookup sort_insert_pair
lookup-insert_pair p [] k = refl
lookup-insert_pair p (q ∷ ps) k =
    ground (arith, lookup-insert_pair p ps k, text_eq_iff p.0 k, text_eq_iff q.0 k, text_leb_refl k)

-- Sorting by the key keeps what is looked up.
pub lookup-sort_pairs :
    (ps : List (Text × Text)) (k : Text) → lookup k (sort_pairs ps) ≡ lookup k ps
unfolding lookup sort_pairs
lookup-sort_pairs [] k = refl
lookup-sort_pairs (p ∷ ps) k =
    lookup-insert_pair p (sort_pairs ps) k
    ∙ ap (λ r. if text_eq p.0 k then some p.1 else r) (lookup-sort_pairs ps k)

keys-insert_pair :
    (p : Text × Text) (ps : List (Text × Text)) (k : Text)
    → contains (keys (sort_insert_pair p ps)) k ≡ (text_eq p.0 k || contains (keys ps) k)
unfolding sort_insert_pair
keys-insert_pair p [] k = refl
keys-insert_pair p (q ∷ ps) k = ground (arith, keys-insert_pair p ps k)

pub keys-sort_pairs :
    (ps : List (Text × Text)) (k : Text) → contains (keys (sort_pairs ps)) k ≡ contains (keys ps) k
unfolding sort_pairs
keys-sort_pairs [] k = refl
keys-sort_pairs (p ∷ ps) k =
    keys-insert_pair p (sort_pairs ps) k ∙ ap (λ b. text_eq p.0 k || b) (keys-sort_pairs ps k)

distinct-insert_pair :
    (p : Text × Text) (ps : List (Text × Text))
    → contains (keys ps) p.0 ≡ false
    → HasDistinctKeys ps
    → HasDistinctKeys (sort_insert_pair p ps)
unfolding sort_insert_pair
distinct-insert_pair p [] n d = (refl, tt)
distinct-insert_pair p (q ∷ ps) n d = elim (Bool-cases (text_leb p.0 q.0)) [
  | inl before ↦ rw before (n, d)
  | inr after ↦ rw after (
    ground (arith, keys-insert_pair p ps q.0, text_eq_sym p.0 q.0),
    distinct-insert_pair p ps (ground arith) d.1,
  )
]

pub distinct-sort_pairs :
    (ps : List (Text × Text)) → HasDistinctKeys ps → HasDistinctKeys (sort_pairs ps)
unfolding sort_pairs
distinct-sort_pairs [] d = tt
distinct-sort_pairs (p ∷ ps) d =
    distinct-insert_pair p (sort_pairs ps) (keys-sort_pairs ps p.0 ∙ d.0)
      (distinct-sort_pairs ps d.1)

All-insert_pair :
    (P : Text × Text → Type 0) (p : Text × Text) (ps : List (Text × Text))
    → P p
    → All P ps
    → All P (sort_insert_pair p ps)
unfolding sort_insert_pair
All-insert_pair P p [] h a = (h, tt)
All-insert_pair P p (q ∷ ps) h a = elim (Bool-cases (text_leb p.0 q.0)) [
  | inl before ↦ rw before (h, a)
  | inr after ↦ rw after (a.0, All-insert_pair P p ps h a.1)
]

pub All-sort_pairs :
    (P : Text × Text → Type 0) (ps : List (Text × Text)) → All P ps → All P (sort_pairs ps)
unfolding sort_pairs
All-sort_pairs P [] a = tt
All-sort_pairs P (p ∷ ps) a = All-insert_pair P p (sort_pairs ps) a.0 (All-sort_pairs P ps a.1)

-- A filter by the key.
pub lookup-filter :
    (f : Text → Bool) (ps : List (Text × Text)) (k : Text)
    → lookup k (filter (λ p. f p.0) ps) ≡ (if f k then lookup k ps else none)
unfolding lookup
lookup-filter f [] k = ground arith
lookup-filter f (p ∷ ps) k = elim (Bool-cases (text_eq p.0 k)) [
  | inl same ↦ let e = ap f ((text_eq_iff p.0 k).0 same) in ground (arith, lookup-filter f ps k)
  | inr other ↦ ground (arith, lookup-filter f ps k)
]

keys-filter :
    (f : Text → Bool) (ps : List (Text × Text)) (k : Text)
    → contains (keys ps) k ≡ false
    → contains (keys (filter (λ p. f p.0) ps)) k ≡ false
keys-filter f [] k n = refl
keys-filter f (p ∷ ps) k n = ground (arith, keys-filter f ps k)

pub distinct-filter :
    (f : Text → Bool) (ps : List (Text × Text))
    → HasDistinctKeys ps
    → HasDistinctKeys (filter (λ p. f p.0) ps)
distinct-filter f [] d = tt
distinct-filter f (p ∷ ps) d = elim (Bool-cases (f p.0)) [
  | inl keep ↦ rw keep (keys-filter f ps p.0 d.0, distinct-filter f ps d.1)
  | inr drop ↦ rw drop (distinct-filter f ps d.1)
]
