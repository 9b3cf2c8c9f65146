-- ===== src/Kv/Document/RoundTrip.antt =====
-- A draft (format/kv/document/draft.rs) that is written, signed and parsed again (parse.rs).
use kapsaro.Base.{
  ◌≤◌, List, [], ◌∷◌, ◌++◌, Option, none, some, ◌≡◌, ◌∙◌, refl, ap, inl, inr, Option-cases, arith,
  length, Text, All, All_imp,
}
use kapsaro.Errors.{ok, >>=-eq-ok}
use kapsaro.Text.{len, codes}
use kapsaro.Model.KvEnc.{KvWrap, KvEntryValue, KvEncEntry, KvEncDocument}
use kapsaro.Kv.Line.{header, head, wrap, sig, v1}
use kapsaro.Kv.Enc.{
  append_sig_line, build_unsigned_kv_document, max_kv_enc_file_size, max_kv_key_lines,
  extract_kv_header_tokens,
}
use kapsaro.Kv.Enc.RoundTrip.{IsToken, IsEntry, unsigned_lines, parse_all-signed}
use kapsaro.Kv.Structure.{validate_kv_file_structure}
use kapsaro.Kv.Structure.Exact.{validate_kv_file_structure_iff}
use kapsaro.Kv.Structure.Shape.{entry_lines}
use kapsaro.Kv.Draft.{Codec, KvDocumentDraft, resolve_wrap_token, serialize_unsigned}
use kapsaro.Kv.Draft.Pairs.{pairs}
use kapsaro.Kv.Draft.Edits.{AreEntries}
use kapsaro.Kv.Draft.Sorted.{HasDistinctKeys}
use kapsaro.Kv.Document.{
  TokenParsers, token_source, validate_entry_token, validate_tokens_from, validate_kv_tokens,
  parse_kv_document,
}
use kapsaro.Kv.Document.Entries.{
  entry_pairs, kv_pairs-entry_lines, entries_fresh, Unseen-nil, logical-entry_lines,
  parse_kv_document-entries,
}

-- What the codec makes of a draft's header and wrap is a token that the parser turns back.
pub record HasCodec (c : Codec) (p : TokenParsers) (d : KvDocumentDraft) : Type 0 where
  pub header_token :
      (t : Text)
      → c.encode_header d.token_codec d.head ≡ ok t
      → IsToken t × ((source : Text) → p.parse_kv_head_token t source ≡ ok d.head)
  pub wrap_token :
      (t : Text)
      → c.encode_wrap d.token_codec d.wrap.data_ ≡ ok t
      → IsToken t × ((source : Text) → p.parse_kv_wrap_token t source ≡ ok d.wrap.data_)

lines-structure :
    (head_token wrap_token sig_token : Text) (ps : List (Text × Text))
    → AreEntries ps
    → validate_kv_file_structure (unsigned_lines head_token wrap_token ps ++ sig sig_token ∷ [])
      ≡ ok tt
lines-structure ht wt st ps a = (validate_kv_file_structure_iff _).1 (record {
  version = v1;
  head_token = ht;
  wrap_token = wt;
  sig_token = st;
  entries = ps;
  shape = ap (λ l. header v1 ∷ head ht ∷ wrap wt ∷ l) (logical-entry_lines ps st);
  keys = entries_fresh [] ps a (Unseen-nil ps);
})

module _ (p : TokenParsers) where
  -- A wrap that keeps its token keeps one that the parser turns into it.
  abbrev pub IsReadableWrap : Option Text → KvWrap → Type 0
  IsReadableWrap none w = Unit
  IsReadableWrap (some t) w = IsToken t × ((source : Text) → p.parse_kv_wrap_token t source ≡ ok w)

  -- A valid key, and a token on one line that the parser accepts.
  abbrev pub IsReadableEntry : Text × Text → Type 0
  IsReadableEntry e =
      IsEntry e × (v : KvEntryValue) × ((source : Text) → p.parse_kv_entry_token e.1 source ≡ ok v)

  abbrev pub IsReadableSig : Text → Type 0
  IsReadableSig t =
      IsToken t × (s : p.Signature) × ((source : Text) → p.parse_kv_signature_token t source ≡ ok s)

  resolve_wrap_token_sound :
      (c : Codec) (d : KvDocumentDraft) (t : Text)
      → HasCodec c p d
      → IsReadableWrap d.wrap.token d.wrap.data_
      → resolve_wrap_token c d ≡ ok t
      → IsToken t × ((source : Text) → p.parse_kv_wrap_token t source ≡ ok d.wrap.data_)
  unfolding resolve_wrap_token
  resolve_wrap_token_sound c d t inverse r h = elim (Option-cases d.wrap.token) [
    | inl (kept, e) ↦
        let r' : IsReadableWrap (some kept) d.wrap.data_ = rw e at r in
        let same : kept ≡ t = ground arith in rw (← same) r'
    | inr e ↦ inverse.wrap_token t (rw (e, resolve_wrap_token) at h)
  ]

  tokens-read :
      (source : Text) (es : List KvEncEntry) (ps : List (Text × Text)) (t : Text)
      (s : Option p.Signature)
      → All IsReadableEntry ps
      → IsReadableSig t
      → (out : List KvEncEntry × Option p.Signature) × (found : p.Signature) × (validate_tokens_from
            p source es s
            (entry_lines ps ++ sig t ∷ [])
          ≡ ok out)
        × (out.1 ≡ some found)
  unfolding validate_tokens_from validate_entry_token
  tokens-read source es [] t s a g =
      let (line, found, accepts) = g in
      (
        (es, some found),
        found,
        ground (arith, accepts (token_source source (codes "SIG token"))),
        refl,
      )
  tokens-read source es (e ∷ ps) t s a g =
      let (written, v, accepts) = a.0 in
      let entry : KvEncEntry = record { key = e.0; token = e.1; value = v } in
      let first : validate_entry_token p e.0 e.1 source ≡ ok entry =
        ground (arith, accepts (token_source source (codes "KV entry token"))) in
      let (out, found, read, last) = tokens-read source (es ++ entry ∷ []) ps t s a.1 g in
      (out, found, rw first read, last)

  -- A draft that is written and signed is parsed again, into a document with the draft's header, its
  -- wrap, and its keys and tokens in their order, under these conditions: the parsers turn back the
  -- tokens that the codec makes of its header and wrap; a wrap that keeps its token keeps one that
  -- the parser turns into it; its keys are valid and distinct; each token of an entry and the signature
  -- token are one line and accepted by their parsers; and the text and the number of entries are
  -- within the limits.
  pub parse_kv_document-serialize_unsigned :
      (c : Codec) (d : KvDocumentDraft) (text sig_token source : Text)
      → HasCodec c p d
      → IsReadableWrap d.wrap.token d.wrap.data_
      → HasDistinctKeys (pairs d.entries)
      → All IsReadableEntry (pairs d.entries)
      → IsReadableSig sig_token
      → serialize_unsigned c d ≡ ok text
      → len (append_sig_line text sig_token) ≤ max_kv_enc_file_size
      → length (pairs d.entries) ≤ max_kv_key_lines
      → (doc : KvEncDocument p.Signature) × (parse_kv_document p
            (append_sig_line text sig_token)
            source
          ≡ ok doc)
        × (doc.head ≡ d.head)
        × (doc.wrap ≡ d.wrap.data_)
        × (entry_pairs doc.entries ≡ pairs d.entries)
  unfolding parse_kv_document validate_kv_tokens serialize_unsigned extract_kv_header_tokens
  parse_kv_document-serialize_unsigned c d text sig_token source inverse kept distinct readable s h
        small few =
      let ps = pairs d.entries in
      let (ht, encoded_head, h1) = >>=-eq-ok (c.encode_header d.token_codec d.head) _ h in
      let (wt, resolved, h2) = >>=-eq-ok (resolve_wrap_token c d) _ h1 in
      let e : build_unsigned_kv_document ht wt ps ≡ text = ground arith in
      let (head_line, head_back) = inverse.header_token ht encoded_head in
      let (wrap_line, wrap_back) = resolve_wrap_token_sound c d wt inverse kept resolved in
      let written : All IsEntry ps = All_imp ps (λ x r. r.0) readable in
      let (parsed, _) =
        parse_all-signed ht wt sig_token ps head_line wrap_line s.0 written (rw e small) few in
      let ls = unsigned_lines ht wt ps ++ sig sig_token ∷ [] in
      let valid = lines-structure ht wt sig_token ps (distinct, All_imp ps (λ x r. r.0) written) in
      let (out, found, read, last) = tokens-read source [] ps sig_token none readable s in
      let here : validate_tokens_from p source [] none ls ≡ ok out =
        ground (arith, wrap_back (token_source source (codes "WRAP token")), read) in
      let doc : KvEncDocument p.Signature = record {
        lines = ls;
        head = d.head;
        wrap = d.wrap.data_;
        wrap_token = wt;
        entries = out.0;
        signature = found;
      } in
      let done : parse_kv_document p (append_sig_line text sig_token) source ≡ ok doc =
        rw
          (
            ← e,
            parsed,
            valid,
            here,
            last,
            head_back (token_source source (codes "HEAD token")),
            wrap_back (token_source source (codes "WRAP token")),
          )
          refl in
      let (_, _, same, _) =
        parse_kv_document-entries p (append_sig_line text sig_token) source doc done in
      (doc, done, refl, refl, same ∙ kv_pairs-entry_lines ps sig_token)
