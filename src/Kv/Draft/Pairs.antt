-- ===== src/Kv/Draft/Pairs.antt =====
-- The keys and tokens of a draft (format/kv/document/draft.rs), against a map from keys to tokens.
use kapsaro.Base.{
  Bool, true, false, not, ◌&&◌, List, [], ◌∷◌, ◌++◌, Option, none, some, ◌≡◌, ◌∙◌, refl, ap, inl,
  inr, arith, Text, map, filter, Bool-cases, if◌then◌else◌,
}
use kapsaro.Text.{text_eq, text_eq_iff, contains, Map, lookup}
use kapsaro.Kv.Draft.{
  KvDocumentEntry, encoded, entry_key, entry_token, KvDocumentDraft, replace_tokens, found_keys,
  sort_pairs, set_entries, unset_entry,
}
use kapsaro.Kv.Draft.Sorted.{lookup-sort_pairs, lookup-filter}

-- The pairs that are written, in order.
abbrev pub pairs : List KvDocumentEntry → List (Text × Text)
pairs = map (λ e. (entry_key e, entry_token e))

-- The token of a key.
abbrev pub token_of : KvDocumentDraft → Text → Option Text
token_of draft key = lookup key (pairs draft.entries)

-- A map overridden by another.
abbrev pub override : Option Text → Option Text → Option Text
override (some token) old = some token
override none old = old

abbrev pub new_pairs : Map Text → List KvDocumentEntry → List (Text × Text)
new_pairs m es = sort_pairs (filter (λ p. not (contains (found_keys m es) p.0)) m)

lookup-append :
    (ps qs : List (Text × Text)) (k : Text)
    → lookup k (ps ++ qs) ≡ override (lookup k ps) (lookup k qs)
unfolding lookup
lookup-append [] qs k = refl
lookup-append (p ∷ ps) qs k = ground (arith, lookup-append ps qs k)

pub pairs-set :
    (es : List KvDocumentEntry) (ps : List (Text × Text))
    → pairs (es ++ map (λ (p : Text × Text). encoded p.0 p.1) ps) ≡ pairs es ++ ps
pairs-set [] [] = refl
pairs-set [] (p ∷ ps) = ap (λ r. p ∷ r) (pairs-set [] ps)
pairs-set (e ∷ es) ps = ap (λ r. (entry_key e, entry_token e) ∷ r) (pairs-set es ps)

abbrev replaced : Option Text → Option Text → Option Text
replaced none new = none
replaced (some old) new = override new (some old)

abbrev pub is_some : Option Text → Bool
is_some none = false
is_some (some token) = true

replace-lookup :
    (m : Map Text) (es : List KvDocumentEntry) (k : Text)
    → lookup k (pairs (replace_tokens m es)) ≡ replaced (lookup k (pairs es)) (lookup k m)
unfolding lookup replace_tokens
replace-lookup m [] k = refl
replace-lookup m (e ∷ es) k = elim (Bool-cases (text_eq (entry_key e) k)) [
  | inl same ↦
      let at = ap (λ t. lookup t m) ((text_eq_iff (entry_key e) k).0 same) in
      ground (arith, replace-lookup m es k)
  | inr other ↦ ground (arith, replace-lookup m es k)
]

pub found-contains :
    (m : Map Text) (es : List KvDocumentEntry) (k : Text)
    → contains (found_keys m es) k ≡ (is_some (lookup k m) && is_some (lookup k (pairs es)))
unfolding lookup found_keys
found-contains m [] k = ground arith
found-contains m (e ∷ es) k = elim (Bool-cases (text_eq (entry_key e) k)) [
  | inl same ↦
      let at = ap (λ t. lookup t m) ((text_eq_iff (entry_key e) k).0 same) in
      ground (arith, found-contains m es k)
  | inr other ↦ ground (arith, found-contains m es k)
]

pub set-pairs :
    (m : Map Text) (d : KvDocumentDraft)
    → pairs (set_entries m d).entries ≡ pairs (replace_tokens m d.entries) ++ new_pairs m d.entries
unfolding set_entries
set-pairs m d = pairs-set (replace_tokens m d.entries) (new_pairs m d.entries)

-- Setting entries overrides the map of the draft by the map that is given.
pub set_entries-token_of :
    (m : Map Text) (d : KvDocumentDraft) (k : Text)
    → token_of (set_entries m d) k ≡ override (lookup k m) (token_of d k)
set_entries-token_of m d k =
    ap (lookup k) (set-pairs m d)
    ∙ (lookup-append (pairs (replace_tokens m d.entries)) (new_pairs m d.entries) k
        ∙ ground (
          arith,
          replace-lookup m d.entries k,
          lookup-sort_pairs (filter (λ p. not (contains (found_keys m d.entries) p.0)) m) k,
          lookup-filter (λ t. not (contains (found_keys m d.entries) t)) m k,
          found-contains m d.entries k,
        ))

unset-lookup :
    (key : Text) (es : List KvDocumentEntry) (k : Text)
    → lookup k (pairs (filter (λ e. not (text_eq (entry_key e) key)) es))
      ≡ (if text_eq key k then none else lookup k (pairs es))
unfolding lookup
unset-lookup key [] k = ground arith
unset-lookup key (e ∷ es) k = ground (
  arith,
  unset-lookup key es k,
  text_eq_iff key k,
  text_eq_iff (entry_key e) k,
  text_eq_iff (entry_key e) key,
)

-- Unsetting a key takes it, and nothing else, out of the map of the draft.
pub unset_entry-token_of :
    (key : Text) (d : KvDocumentDraft) (k : Text)
    → token_of (unset_entry key d) k ≡ (if text_eq key k then none else token_of d k)
unfolding unset_entry
unset_entry-token_of key d k = unset-lookup key d.entries k
