-- ===== src/Kv/Draft/Edits.antt =====
-- The changes of a draft (format/kv/document/draft.rs), one after the other, and its keys.
use kapsaro.Base.{
  Bool, true, false, not, ◌||◌, List, [], ◌∷◌, ◌++◌, ◌≡◌, refl, sym, arith, Text, filter, All,
  All_imp, All-filter, All-append,
}
use kapsaro.Errors.{ok, >>=-eq-ok}
use kapsaro.Text.{text_eq, text_eq_refl, contains, Map, lookup}
use kapsaro.Kv.Dotenv.{is_valid_key_name}
use kapsaro.Model.KvEnc.{KvWrap}
use kapsaro.Kv.Draft.{
  Codec, TokenCodec, KvDocumentEntry, preserved, encoded, entry_key, KvDocumentDraft,
  replace_tokens, found_keys, set_entries, unset_entry, set_updated_at, set_wrap, wrap_mut,
  clear_entry, clear_entries, clear_disclosed_flags,
}
use kapsaro.Kv.Draft.Sorted.{
  keys, HasDistinctKeys, lookup-filter, lookup-sort_pairs, distinct-sort_pairs, All-sort_pairs,
  distinct-filter,
}
use kapsaro.Kv.Draft.Pairs.{pairs, new_pairs, set-pairs, is_some, found-contains}

-- Distinct valid keys.
abbrev pub AreEntries : List (Text × Text) → Type 0
AreEntries ps = HasDistinctKeys ps × All (λ p. is_valid_key_name p.0 ≡ true) ps

-- One change of a draft.
pub data Edit (c : Codec) : KvDocumentDraft → KvDocumentDraft → Type 0 where
  set : {d : KvDocumentDraft} (m : Map Text) → Edit c d (set_entries m d)
  unset : {d : KvDocumentDraft} (key : Text) → Edit c d (unset_entry key d)
  stamp : {d : KvDocumentDraft} (at : Text) → Edit c d (set_updated_at at d)
  replace_wrap : {d : KvDocumentDraft} (data_ : KvWrap) → Edit c d (set_wrap data_ d)
  change_wrap : {d : KvDocumentDraft} (f : KvWrap → KvWrap) → Edit c d (wrap_mut f d)
  clear : {d e : KvDocumentDraft} → clear_disclosed_flags c d ≡ ok e → Edit c d e

-- Any number of changes, one after the other.
pub data Edits (c : Codec) : KvDocumentDraft → KvDocumentDraft → Type 0 where
  here : {d : KvDocumentDraft} → Edits c d d
  next : {d e f : KvDocumentDraft} → Edit c d e → Edits c e f → Edits c d f

-- The maps that the changes set have distinct valid keys.
abbrev pub SetsEntries : {c : Codec} {d e : KvDocumentDraft} → Edit c d e → Type 0
SetsEntries (set m) = AreEntries m
SetsEntries (unset key) = Unit
SetsEntries (stamp at) = Unit
SetsEntries (replace_wrap data_) = Unit
SetsEntries (change_wrap f) = Unit
SetsEntries (clear h) = Unit

abbrev pub AllSetEntries : {c : Codec} {d e : KvDocumentDraft} → Edits c d e → Type 0
AllSetEntries here = Unit
AllSetEntries (next s r) = SetsEntries s × AllSetEntries r

abbrev HasValidKey : Text × Text → Type 0
HasValidKey p = is_valid_key_name p.0 ≡ true

-- Replacing tokens keeps the keys, and so does clearing flags.
keys-replace :
    (m : Map Text) (es : List KvDocumentEntry)
    → keys (pairs (replace_tokens m es)) ≡ keys (pairs es)
unfolding replace_tokens
keys-replace m [] = refl
keys-replace m (e ∷ es) = ground (arith, keys-replace m es)

distinct-keys :
    (ps qs : List (Text × Text)) → keys ps ≡ keys qs → HasDistinctKeys ps → HasDistinctKeys qs
distinct-keys [] [] h d = tt
distinct-keys [] (q ∷ qs) h d = absurd cc
distinct-keys (p ∷ ps) [] h d = absurd cc
distinct-keys (p ∷ ps) (q ∷ qs) h d = (ground arith, distinct-keys ps qs (ground arith) d.1)

HasValidKey-keys :
    (ps qs : List (Text × Text)) → keys ps ≡ keys qs → All HasValidKey ps → All HasValidKey qs
HasValidKey-keys [] [] h d = tt
HasValidKey-keys [] (q ∷ qs) h d = absurd cc
HasValidKey-keys (p ∷ ps) [] h d = absurd cc
HasValidKey-keys (p ∷ ps) (q ∷ qs) h d = (ground arith, HasValidKey-keys ps qs (ground arith) d.1)

keys-append :
    (ps qs : List (Text × Text)) (k : Text)
    → contains (keys (ps ++ qs)) k ≡ (contains (keys ps) k || contains (keys qs) k)
keys-append [] qs k = refl
keys-append (p ∷ ps) qs k = ground (arith, keys-append ps qs k)

distinct-append :
    (ps qs : List (Text × Text))
    → HasDistinctKeys ps
    → HasDistinctKeys qs
    → ((k : Text) → contains (keys ps) k ≡ true → contains (keys qs) k ≡ false)
    → HasDistinctKeys (ps ++ qs)
distinct-append [] qs d e apart = e
distinct-append (p ∷ ps) qs d e apart = (
  ground (arith, keys-append ps qs p.0, apart p.0, text_eq_refl p.0),
  distinct-append ps qs d.1 e (λ k h. apart k (ground arith)),
)

some-keys : (ps : List (Text × Text)) (k : Text) → is_some (lookup k ps) ≡ contains (keys ps) k
unfolding lookup
some-keys [] k = refl
some-keys (p ∷ ps) k = ground (arith, some-keys ps k)

-- A new key is not one of the keys that are there.
new-apart :
    (m : Map Text) (es : List KvDocumentEntry) (k : Text)
    → contains (keys (pairs es)) k ≡ true
    → contains (keys (new_pairs m es)) k ≡ false
new-apart m es k h = ground (
  arith,
  some-keys (new_pairs m es) k,
  some-keys (pairs es) k,
  found-contains m es k,
  lookup-sort_pairs (filter (λ p. not (contains (found_keys m es) p.0)) m) k,
  lookup-filter (λ t. not (contains (found_keys m es) t)) m k,
)

set-AreEntries :
    (m : Map Text) (d : KvDocumentDraft)
    → AreEntries m
    → AreEntries (pairs d.entries)
    → AreEntries (pairs (set_entries m d).entries)
set-AreEntries m d a b =
    let same = sym (keys-replace m d.entries) in
    let kept = filter (λ p. not (contains (found_keys m d.entries) p.0)) m in
    rw (set-pairs m d) (
      distinct-append (pairs (replace_tokens m d.entries)) (new_pairs m d.entries)
          (distinct-keys (pairs d.entries) _ same b.0)
          (distinct-sort_pairs kept
            (distinct-filter (λ t. not (contains (found_keys m d.entries) t)) m a.0))
          (λ k h. new-apart m d.entries k (rw (keys-replace m d.entries) at h)),
      All-append HasValidKey (pairs (replace_tokens m d.entries)) (new_pairs m d.entries)
          (HasValidKey-keys (pairs d.entries) _ same b.1)
          (All-sort_pairs HasValidKey kept
            (All-filter _ HasValidKey m (All_imp m (λ p v _. v) a.1))),
    )

pairs-filter :
    (f : Text → Bool) (es : List KvDocumentEntry)
    → pairs (filter (λ e. f (entry_key e)) es) ≡ filter (λ p. f p.0) (pairs es)
pairs-filter f [] = refl
pairs-filter f (e ∷ es) = ground (arith, pairs-filter f es)

unset-AreEntries :
    (key : Text) (d : KvDocumentDraft)
    → AreEntries (pairs d.entries)
    → AreEntries (pairs (unset_entry key d).entries)
unfolding unset_entry
unset-AreEntries key d b =
    let f : Text → Bool = λ t. not (text_eq t key) in
    rw (pairs-filter f d.entries) (
      distinct-filter f (pairs d.entries) b.0,
      All-filter _ HasValidKey (pairs d.entries) (All_imp (pairs d.entries) (λ p v _. v) b.1),
    )

module _ (c : Codec) where
  key-clear_entry :
      (codec : TokenCodec) (x y : KvDocumentEntry)
      → clear_entry c codec x ≡ ok y
      → entry_key y ≡ entry_key x
  unfolding clear_entry
  key-clear_entry codec (preserved key token value) y h = ground arith
  key-clear_entry codec (encoded key token) y h = ground arith

  keys-cleared :
      (codec : TokenCodec) (es fs : List KvDocumentEntry)
      → clear_entries c codec es ≡ ok fs
      → keys (pairs fs) ≡ keys (pairs es)
  unfolding clear_entries clear_entry
  keys-cleared codec [] fs h = let e : fs ≡ [] = ground arith in rw e refl
  keys-cleared codec (x ∷ es) fs h =
      let (y, first, h1) = >>=-eq-ok (clear_entry c codec x) _ h in
      let (rest, later, h2) = >>=-eq-ok (clear_entries c codec es) _ h1 in
      let e : fs ≡ y ∷ rest = ground arith in
      let k : entry_key y ≡ entry_key x = key-clear_entry codec x y first in
      rw e (ground (arith, keys-cleared codec es rest later))

  keys-clear :
      (d e : KvDocumentDraft)
      → clear_disclosed_flags c d ≡ ok e
      → keys (pairs e.entries) ≡ keys (pairs d.entries)
  unfolding clear_disclosed_flags
  keys-clear d e h =
      let (es, cleared, h1) = >>=-eq-ok (clear_entries c d.token_codec d.entries) _ h in
      let same : es ≡ e.entries = ground arith in
      rw (← same) (keys-cleared d.token_codec d.entries es cleared)

  Edit-AreEntries :
      (d e : KvDocumentDraft) (s : Edit c d e)
      → SetsEntries s
      → AreEntries (pairs d.entries)
      → AreEntries (pairs e.entries)
  Edit-AreEntries d _ (set m) a b = set-AreEntries m d a b
  Edit-AreEntries d _ (unset key) a b = unset-AreEntries key d b
  Edit-AreEntries d _ (stamp at) a b = b
  Edit-AreEntries d _ (replace_wrap data_) a b = b
  Edit-AreEntries d _ (change_wrap f) a b = b
  Edit-AreEntries d e (clear h) a b =
      let same = sym (keys-clear d e h) in
      (distinct-keys (pairs d.entries) _ same b.0, HasValidKey-keys (pairs d.entries) _ same b.1)

  -- A draft with valid and distinct keys still has valid and distinct keys after any number of
  -- changes, if the keys of every map that they set are valid and distinct. The other changes need
  -- no condition.
  pub Edits-AreEntries :
      (d e : KvDocumentDraft) (changes : Edits c d e)
      → AllSetEntries changes
      → AreEntries (pairs d.entries)
      → AreEntries (pairs e.entries)
  Edits-AreEntries d _ here a b = b
  Edits-AreEntries d f (next {e = e} s r) a b =
      Edits-AreEntries e f r a.1 (Edit-AreEntries d e s a.0 b)
