-- ===== src/Kv/Draft.antt =====
-- crates/kapsaro-core/src/format/kv/document/draft.rs and builder.rs: a kv-enc document before it is
-- signed. A method that changes the draft answers the new one.
pub mod Pairs
pub mod Sorted
pub mod Edits
pub mod Disclosure
use kapsaro.Base.{
  Bool, true, false, not, List, [], ◌∷◌, ◌++◌, Option, none, some, if◌then◌else◌, Text, map, filter,
}
use kapsaro.Errors.{Result, ok, err, ◌>>=◌, build_parse_error, wrap_line_not_found}
use kapsaro.Text.{text_eq, contains, Map, lookup, text_leb}
use kapsaro.Model.KvEnc.{KvHeader, KvWrap, KvEntryValue, KvEncEntry, KvEncDocument}
use kapsaro.Kv.Line.{KvEncLine}
use kapsaro.Kv.Enc.{build_unsigned_kv_document}

pub data TokenCodec : Type 0 where
  json_jcs : TokenCodec

-- `TokenCodec::encode` of the three structs, and `parse_kv_wrap_token`, which call `serde_json`
pub record Codec : Type 0 where
  pub encode_header : TokenCodec → KvHeader → Result Text
  pub encode_wrap : TokenCodec → KvWrap → Result Text
  pub encode_value : TokenCodec → KvEntryValue → Result Text
  pub parse_kv_wrap_token : Text → Result KvWrap

pub data KvDocumentEntry : Type 0 where
  preserved : Text → Text → KvEntryValue → KvDocumentEntry
  encoded : Text → Text → KvDocumentEntry

abbrev pub entry_key : KvDocumentEntry → Text
entry_key (preserved key token value) = key
entry_key (encoded key token) = key

abbrev pub entry_token : KvDocumentEntry → Text
entry_token (preserved key token value) = token
entry_token (encoded key token) = token

pub record WrapSource : Type 0 where
  pub data_ : KvWrap
  pub token : Option Text

abbrev pub decoded : KvWrap → WrapSource
decoded wrap = record { data_ = wrap; token = none }

abbrev pub raw : KvWrap → Text → WrapSource
raw wrap token = record { data_ = wrap; token = some token }

-- a change through `data_mut`
abbrev pub data_mut : (KvWrap → KvWrap) → WrapSource → WrapSource
data_mut change source = record { data_ = change source.data_; token = none }

pub record KvDocumentDraft : Type 0 where
  pub head : KvHeader
  pub wrap : WrapSource
  pub entries : List KvDocumentEntry
  pub token_codec : TokenCodec

-- the loop of `set_entries` over the entries of the draft, and the keys that it has found
unfoldable pub replace_tokens : Map Text → List KvDocumentEntry → List KvDocumentEntry
replace_tokens entries [] = []
replace_tokens entries (e ∷ rest) =
    let later = replace_tokens entries rest in
    elim (lookup (entry_key e) entries) [
      | some new_token ↦ encoded (entry_key e) new_token ∷ later
      | none ↦ e ∷ later
    ]

unfoldable pub found_keys : Map Text → List KvDocumentEntry → List Text
found_keys entries [] = []
found_keys entries (e ∷ rest) =
    let later = found_keys entries rest in
    elim (lookup (entry_key e) entries) [ some new_token ↦ entry_key e ∷ later | none ↦ later ]

-- `sort_by_key`
unfoldable pub sort_insert_pair : Text × Text → List (Text × Text) → List (Text × Text)
sort_insert_pair p [] = p ∷ []
sort_insert_pair p (q ∷ rest) =
    let later = sort_insert_pair p rest in if text_leb p.0 q.0 then p ∷ q ∷ rest else q ∷ later

unfoldable pub sort_pairs : List (Text × Text) → List (Text × Text)
unfolding sort_insert_pair
sort_pairs [] = []
sort_pairs (p ∷ rest) = sort_insert_pair p (sort_pairs rest)

unfoldable pub set_entries : Map Text → KvDocumentDraft → KvDocumentDraft
unfolding replace_tokens found_keys sort_pairs
set_entries entries draft =
    let found = found_keys entries draft.entries in
    let new_keys = sort_pairs (filter (λ p. not (contains found p.0)) entries) in
    record draft {
      entries =
          replace_tokens entries draft.entries
          ++ map (λ (p : Text × Text). encoded p.0 p.1) new_keys;
    }

unfoldable pub unset_entry : Text → KvDocumentDraft → KvDocumentDraft
unset_entry key draft = record draft {
  entries = filter (λ e. not (text_eq (entry_key e) key)) draft.entries;
}

abbrev pub set_updated_at : Text → KvDocumentDraft → KvDocumentDraft
set_updated_at updated_at draft = record draft {
  head = record draft.head { updated_at = updated_at };
}

abbrev pub set_wrap : KvWrap → KvDocumentDraft → KvDocumentDraft
set_wrap wrap draft = record draft { wrap = decoded wrap }

abbrev pub wrap_mut : (KvWrap → KvWrap) → KvDocumentDraft → KvDocumentDraft
wrap_mut change draft = record draft { wrap = data_mut change draft.wrap }

module _ (c : Codec) where
  open c use {encode_header, encode_wrap, encode_value, parse_kv_wrap_token}

  unfoldable pub clear_entry : TokenCodec → KvDocumentEntry → Result KvDocumentEntry
  clear_entry codec (preserved key token value) =
      if not value.disclosed
      then ok (preserved key token value)
      else encode_value codec (record value { disclosed = false }) >>= λ new_token.
          ok (encoded key new_token)
  clear_entry codec (encoded key token) = ok (encoded key token)

  unfoldable pub clear_entries : TokenCodec → List KvDocumentEntry → Result (List KvDocumentEntry)
  unfolding clear_entry
  clear_entries codec [] = ok []
  clear_entries codec (e ∷ rest) = do
    first ← clear_entry codec e
    later ← clear_entries codec rest
    ok (first ∷ later)

  unfoldable pub clear_disclosed_flags : KvDocumentDraft → Result KvDocumentDraft
  unfolding clear_entries
  clear_disclosed_flags draft = do
    entries ← clear_entries draft.token_codec draft.entries
    ok (record draft { entries = entries })

  unfoldable pub resolve_wrap_token : KvDocumentDraft → Result Text
  resolve_wrap_token draft = elim draft.wrap.token [
    | some token ↦ ok token
    | none ↦ encode_wrap draft.token_codec draft.wrap.data_
  ]

  unfoldable pub serialize_unsigned : KvDocumentDraft → Result Text
  unfolding resolve_wrap_token
  serialize_unsigned draft = do
    head_token ← encode_header draft.token_codec draft.head
    wrap_token ← resolve_wrap_token draft
    ok (
        build_unsigned_kv_document head_token wrap_token
          (map (λ e. (entry_key e, entry_token e)) draft.entries))

  unfoldable pub resolve_wrap_source : Option KvWrap → Text → Result WrapSource
  resolve_wrap_source (some data_) token = ok (decoded data_)
  resolve_wrap_source none token = do data_ ← parse_kv_wrap_token token; ok (raw data_ token)

  unfoldable pub wrap_source_from_lines : Option KvWrap → List KvEncLine → Result WrapSource
  unfolding resolve_wrap_source
  wrap_source_from_lines data_ [] = err (build_parse_error wrap_line_not_found)
  wrap_source_from_lines data_ (KvEncLine.wrap token ∷ lines) = resolve_wrap_source data_ token
  wrap_source_from_lines data_ (_ ∷ lines) = wrap_source_from_lines data_ lines

  -- `KvDocumentBuilder::from_document`, then `build`
  unfoldable pub from_document :
      {Signature : Type 0}
      → KvHeader
      → Option KvWrap
      → KvEncDocument Signature
      → TokenCodec
      → Result KvDocumentDraft
  unfolding wrap_source_from_lines
  from_document head data_ doc token_codec = do
    wrap_source ← wrap_source_from_lines data_ doc.lines
    ok (record {
      head = head;
      wrap = wrap_source;
      entries = map (λ (e : KvEncEntry). preserved e.key e.token e.value) doc.entries;
      token_codec = token_codec;
    })

-- `KvDocumentBuilder::new`, then `with_entries` and `build`
unfoldable pub new_draft : KvHeader → KvWrap → TokenCodec → List (Text × Text) → KvDocumentDraft
new_draft head data_ token_codec entries = record {
  head = head;
  wrap = decoded data_;
  entries = map (λ (p : Text × Text). encoded p.0 p.1) entries;
  token_codec = token_codec;
}
