-- ===== src/Kv/Mutate/Effect.antt =====
-- What a change of a kv-enc document (feature/kv/mutate.rs) writes.
use kapsaro.Base.{
  ◌∙◌, sym, some, true, List, [], ◌∷◌, Option, none, ◌≡◌, refl, ap, inl, inr, arith, Text, map,
  Bool-cases, if◌then◌else◌,
}
use kapsaro.Errors.{Result, ok, >>=-eq-ok}
use kapsaro.Text.{text_eq, lookup}
use kapsaro.Model.PublicKey.{PublicKey}
use kapsaro.Model.KvEnc.{KvEncEntry, KvHeader, KvWrap, KvEncDocument}
use kapsaro.Kv.Draft.{
  serialize_unsigned, TokenCodec, KvDocumentDraft, preserved, wrap_source_from_lines, from_document,
  set_entries, unset_entry, set_wrap,
}
use kapsaro.Kv.Draft.Pairs.{pairs, token_of, override, set_entries-token_of, unset_entry-token_of}
use kapsaro.Kv.Document.Entries.{entry_pairs}
use kapsaro.Rewrap.Wrap.{Bytes, build_wraps_for_recipients}
use kapsaro.Kv.Mutate.Tokens.{
  last_value, IsSetTo, AreSealedTo, build_wraps-AreSealedTo, build_entry_tokens_sound,
}
use kapsaro.Kv.Mutate.{
  KvCrypto, KvInputEntry, contains_key, detect_token_codec, build_updated_header,
  build_entry_tokens, build_current_wrap, sign_unsigned, rewrite_existing_kv_content, mutate_set,
  mutate_unset, set_kv_existing_file, unset_kv_entry_with_recipients,
}

pairs-preserved :
    (es : List KvEncEntry) → pairs (map (λ e. preserved e.key e.token e.value) es) ≡ entry_pairs es
pairs-preserved [] = refl
pairs-preserved (e ∷ es) = ap (λ r. (e.key, e.token) ∷ r) (pairs-preserved es)

module _ (c : KvCrypto) (override_codec : Option TokenCodec) where
  -- A loaded draft has the entries of its document.
  from_document-pairs :
      (head : KvHeader) (doc : KvEncDocument c.Signature) (codec : TokenCodec) (d : KvDocumentDraft)
      → from_document c.codec head none doc codec ≡ ok d
      → (pairs d.entries ≡ entry_pairs doc.entries) × (d.head ≡ head) × (d.token_codec ≡ codec)
  unfolding from_document
  from_document-pairs head doc codec d h =
      let (source, _, h1) = >>=-eq-ok (wrap_source_from_lines c.codec none doc.lines) _ h in
      let e : map (λ e. preserved e.key e.token e.value) doc.entries ≡ d.entries = ground arith in
      (rw (← e) (pairs-preserved doc.entries), ground arith, ground arith)

  updated-sid :
      (doc : KvEncDocument c.Signature) (hd : KvHeader)
      → build_updated_header c doc ≡ ok hd
      → hd.sid ≡ doc.head.sid
  unfolding build_updated_header
  updated-sid doc hd h = let (at, _, h1) = >>=-eq-ok c.now _ h in ground arith

  -- A rewrite signs the draft that the change leaves, with a fresh set of wrapped keys.
  rewrite-effect :
      (content text : Text) (members : List PublicKey) (doc : KvEncDocument c.Signature)
      (f : KvDocumentDraft → KvEncDocument c.Signature → Bytes → Result KvDocumentDraft)
      → c.verify_kv_content content ≡ ok doc
      → rewrite_existing_kv_content c override_codec content members f ≡ ok text
      → (master_key : Bytes) × (loaded changed : KvDocumentDraft) × (wrap : KvWrap)
        × (c.unwrap_master_key doc ≡ ok master_key)
        × (pairs loaded.entries ≡ entry_pairs doc.entries)
        × (loaded.head.sid ≡ doc.head.sid)
        × (loaded.token_codec ≡ detect_token_codec doc.wrap_token override_codec)
        × (f loaded doc master_key ≡ ok changed)
        × (build_current_wrap c doc.head.sid members master_key doc.wrap.removed_recipients
            ≡ ok wrap)
        × (sign_unsigned c (set_wrap wrap changed) master_key ≡ ok text)
  unfolding rewrite_existing_kv_content
  rewrite-effect content text members doc f v h =
      let (hd, headed, h1) = >>=-eq-ok (build_updated_header c doc) _ (rw v at h) in
      let (key, unwrapped, h2) = >>=-eq-ok (c.unwrap_master_key doc) _ h1 in
      let codec = detect_token_codec doc.wrap_token override_codec in
      let (loaded, built, h3) = >>=-eq-ok (from_document c.codec hd none doc codec) _ h2 in
      let (changed, made, h4) = >>=-eq-ok (f loaded doc key) _ h3 in
      let (wrap, wrapped, h5) =
        >>=-eq-ok (build_current_wrap c doc.head.sid members key doc.wrap.removed_recipients) _
          h4 in
      let (same, head_kept, codec_kept) = from_document-pairs hd doc codec loaded built in
      (
        key,
        loaded,
        changed,
        wrap,
        unwrapped,
        same,
        ap (λ x. x.sid) head_kept ∙ updated-sid doc hd headed,
        codec_kept,
        made,
        wrapped,
        h5,
      )

  -- What is signed when keys are set: the document's master key has opened it; each key that is given
  -- a value has a new token, the value encrypted under the schedule of that master key, and every
  -- other key keeps its token; the master key is sealed to each member in turn, the removal history is
  -- kept, and the unsigned text is signed with the MAC key of the same schedule.
  pub record IsRewritten (doc : KvEncDocument c.Signature) (input : List KvInputEntry)
      (members : List PublicKey) (text : Text) : Type 0 where
    pub master_key : Bytes
    pub schedule : c.Schedule
    pub written : KvDocumentDraft
    pub mac_key : Bytes
    pub signing : c.SigningContext
    pub content : Text
    pub unwrapped : c.unwrap_master_key doc ≡ ok master_key
    pub extracted : c.extract_schedule master_key doc.head.sid ≡ ok schedule
    pub tokens :
        (k : Text)
        → IsSetTo c schedule doc.head.sid
            (detect_token_codec doc.wrap_token override_codec)
            k
            (last_value k input)
            (lookup k (entry_pairs doc.entries))
            (token_of written k)
    pub sealed : AreSealedTo c.sealing doc.head.sid master_key members written.wrap.data_.wrap
    pub history : written.wrap.data_.removed_recipients ≡ doc.wrap.removed_recipients
    pub derived : c.derive_mac_key schedule ≡ ok mac_key
    pub context : c.build_signing_context ≡ ok signing
    pub serialized : serialize_unsigned c.codec written ≡ ok content
    pub signed :
        c.sign_kv_document content mac_key signing
          (detect_token_codec doc.wrap_token override_codec)
        ≡ ok text

  IsSetTo-override :
      (schedule : c.Schedule) (sid : Text) (codec : TokenCodec) (k : Text)
      (given old new : Option Text)
      → IsSetTo c schedule sid codec k given none new
      → IsSetTo c schedule sid codec k given old (override new old)
  IsSetTo-override schedule sid codec k (some value) old new h =
      let (encrypted, token, hidden, made, e) = h in
      (encrypted, token, hidden, made, ap (λ n. override n old) e)
  IsSetTo-override schedule sid codec k none old new h = ap (λ n. override n old) h

  sign_unsigned_sound :
      (d : KvDocumentDraft) (master_key : Bytes) (text : Text)
      → sign_unsigned c d master_key ≡ ok text
      → (schedule : c.Schedule) × (mac_key : Bytes) × (signing : c.SigningContext)
        × (content : Text) × (c.extract_schedule master_key d.head.sid ≡ ok schedule)
        × (c.derive_mac_key schedule ≡ ok mac_key)
        × (c.build_signing_context ≡ ok signing)
        × (serialize_unsigned c.codec d ≡ ok content)
        × (c.sign_kv_document content mac_key signing d.token_codec ≡ ok text)
  unfolding sign_unsigned
  sign_unsigned_sound d master_key text h =
      let (signing, context, h1) = >>=-eq-ok c.build_signing_context _ h in
      let (schedule, extracted, h2) = >>=-eq-ok (c.extract_schedule master_key d.head.sid) _ h1 in
      let (mac, derived, h3) = >>=-eq-ok (c.derive_mac_key schedule) _ h2 in
      let (content, serialized, h4) = >>=-eq-ok (serialize_unsigned c.codec d) _ h3 in
      (schedule, mac, signing, content, extracted, derived, context, serialized, h4)

  -- Setting keys of a verified document, when it answers, gives the signed text of a draft in which
  -- every key that is set has as its token the last value given for it, encrypted under the key
  -- schedule of the document's master key, and every other key has the document's token. The master
  -- key is sealed to each of the members, the removal history is kept, and the signature uses the MAC
  -- key of the same schedule.
  pub set_kv_existing_file-IsRewritten :
      (content text : Text) (entries : List KvInputEntry) (members : List PublicKey)
      (doc : KvEncDocument c.Signature)
      → c.verify_kv_content content ≡ ok doc
      → set_kv_existing_file c override_codec content entries members ≡ ok text
      → IsRewritten doc entries members text
  unfolding set_kv_existing_file mutate_set build_current_wrap set_entries
  set_kv_existing_file-IsRewritten content text entries members doc v h =
      let codec = detect_token_codec doc.wrap_token override_codec in
      let (key, loaded, changed, wrap, unwrapped, same, sid, kept, made, wrapped, signed) =
        rewrite-effect content text members doc (mutate_set c override_codec entries) v h in
      let (tokens, built, r) =
        >>=-eq-ok (build_entry_tokens c entries key doc.head.sid codec) _ made in
      let (ws, w, r2) =
        >>=-eq-ok (build_wraps_for_recipients c.sealing members doc.head.sid key) _ wrapped in
      let (schedule, extracted, encrypted) =
        build_entry_tokens_sound c entries key doc.head.sid codec tokens built in
      let (schedule', mac, signing, body, again, derived, context, serialized, done) =
        sign_unsigned_sound (set_wrap wrap changed) key text signed in
      let e : set_entries tokens loaded ≡ changed = ground arith in
      let ew : ws ≡ wrap.wrap = ground arith in
      let sid' : changed.head.sid ≡ doc.head.sid =
        ap (λ (d : KvDocumentDraft). d.head.sid) (sym e) ∙ sid in
      let codec' : changed.token_codec ≡ codec =
        ap (λ (d : KvDocumentDraft). d.token_codec) (sym e) ∙ kept in
      let both : Result.ok schedule' ≡ ok schedule =
        sym again ∙ (ap (c.extract_schedule key) sid' ∙ extracted) in
      let one : schedule' ≡ schedule = cc in
      record {
        master_key = key;
        schedule = schedule;
        written = set_wrap wrap changed;
        mac_key = mac;
        signing = signing;
        content = body;
        unwrapped = unwrapped;
        extracted = extracted;
        tokens = λ k.
            rw (← e, set_entries-token_of tokens loaded k, same)
              (IsSetTo-override schedule doc.head.sid codec k (last_value k entries)
                (lookup k (entry_pairs doc.entries)) (lookup k tokens) (encrypted k));
        sealed = rw (← ew) (build_wraps-AreSealedTo c.sealing doc.head.sid key members ws w);
        history = ground arith;
        derived = rw (← one) derived;
        context = context;
        serialized = serialized;
        signed = rw (← codec') done;
      }

  -- Unsetting a key of a verified document, when it answers, has found a line with the key, and signs
  -- a draft that has the map of the document without that key.
  pub unset_kv_entry-token_of :
      (content text key : Text) (members : List PublicKey) (doc : KvEncDocument c.Signature)
      → c.verify_kv_content content ≡ ok doc
      → unset_kv_entry_with_recipients c override_codec content key members ≡ ok text
      → (contains_key doc.lines key ≡ true)
        × (master_key : Bytes) × (written : KvDocumentDraft) × ((k : Text)
            → token_of written k
              ≡ (if text_eq key k then none else lookup k (entry_pairs doc.entries)))
        × (sign_unsigned c written master_key ≡ ok text)
  unfolding unset_kv_entry_with_recipients mutate_unset
  unset_kv_entry-token_of content text key members doc v h =
      let (master, loaded, changed, wrap, _, same, _, _, made, _, signed) =
        rewrite-effect content text members doc (mutate_unset c override_codec key) v h in
      elim (Bool-cases (contains_key doc.lines key)) [
        | inr absent ↦ absurd (ground arith)
        | inl present ↦
            let e : unset_entry key loaded ≡ changed = ground arith in
            (
              present,
              master,
              set_wrap wrap changed,
              λ k. rw (← e, ← same) (unset_entry-token_of key loaded k),
              signed,
            )
      ]
