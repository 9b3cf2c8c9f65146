-- ===== src/Kv/Draft/Disclosure.antt =====
-- The disclosure flags of a draft (format/kv/document/draft.rs).
use kapsaro.Base.{true, false, List, [], ◌∷◌, ◌≡◌, ◌⊎◌, inl, inr, arith, Text, Bool-cases}
use kapsaro.Errors.{ok, >>=-eq-ok}
use kapsaro.Kv.Draft.{
  Codec, TokenCodec, KvDocumentEntry, preserved, encoded, KvDocumentDraft, clear_entry,
  clear_entries, clear_disclosed_flags,
}

abbrev pub IsClear : KvDocumentEntry → Type 0
IsClear (preserved key token value) = value.disclosed ≡ false
IsClear (encoded key token) = Unit

-- What the flags of an entry become: nothing where none was set, else the token of the value with
-- the flag taken off.
abbrev pub IsCleared : Codec → TokenCodec → KvDocumentEntry → KvDocumentEntry → Type 0
IsCleared c codec (encoded key token) new = new ≡ encoded key token
IsCleared c codec (preserved key token value) new =
    ((value.disclosed ≡ false) × (new ≡ preserved key token value))
    ⊎ ((value.disclosed ≡ true)
        × (new_token : Text) × (c.encode_value codec (record value { disclosed = false })
            ≡ ok new_token)
        × (new ≡ encoded key new_token))

abbrev pub AreCleared : Codec → TokenCodec → List KvDocumentEntry → List KvDocumentEntry → Type 0
AreCleared c codec [] [] = Unit
AreCleared c codec (e ∷ es) (f ∷ fs) = IsCleared c codec e f × IsClear f × AreCleared c codec es fs
AreCleared c codec _ _ = ⊥

module _ (c : Codec) where
  entry-IsCleared :
      (codec : TokenCodec) (e f : KvDocumentEntry)
      → clear_entry c codec e ≡ ok f
      → IsCleared c codec e f × IsClear f
  unfolding clear_entry
  entry-IsCleared codec (encoded key token) f h =
      let same : f ≡ encoded key token = ground arith in (same, rw same tt)
  entry-IsCleared codec (preserved key token value) f h = elim (Bool-cases value.disclosed) [
    | inr off ↦
        let same : f ≡ preserved key token value = ground arith in (inl (off, same), rw same off)
    | inl on ↦
        let (t, made, r) =
          >>=-eq-ok (c.encode_value codec (record value { disclosed = false })) _ (rw on at h) in
        let same : f ≡ encoded key t = ground arith in (inr (on, t, made, same), rw same tt)
  ]

  entries-cleared :
      (codec : TokenCodec) (es fs : List KvDocumentEntry)
      → clear_entries c codec es ≡ ok fs
      → AreCleared c codec es fs
  unfolding clear_entries
  entries-cleared codec [] fs h = let e : fs ≡ [] = ground arith in rw e tt
  entries-cleared codec (x ∷ es) fs h =
      let (y, first, h1) = >>=-eq-ok (clear_entry c codec x) _ h in
      let (rest, later, h2) = >>=-eq-ok (clear_entries c codec es) _ h1 in
      let e : fs ≡ y ∷ rest = ground arith in
      let (was, now) = entry-IsCleared codec x y first in
      rw e (was, now, entries-cleared codec es rest later)

  -- Clearing the flags leaves no decoded entry disclosed: entry by entry, one whose flag is off stays
  -- as it is, and one whose flag is on gets the token of its value with the flag taken off.
  pub clear_disclosed_flags-AreCleared :
      (d e : KvDocumentDraft)
      → clear_disclosed_flags c d ≡ ok e
      → AreCleared c d.token_codec d.entries e.entries
  unfolding clear_disclosed_flags
  clear_disclosed_flags-AreCleared d e h =
      let (es, cleared, h1) = >>=-eq-ok (clear_entries c d.token_codec d.entries) _ h in
      let same : es ≡ e.entries = ground arith in
      rw (← same) (entries-cleared d.token_codec d.entries es cleared)
