-- ===== src/Kv/Mutate/Tokens.antt =====
-- The tokens and wrapped keys that a change of a kv-enc document (feature/kv/mutate.rs) makes.
use kapsaro.Base.{
  false, List, [], ◌∷◌, Option, none, some, ◌≡◌, ◌∙◌, sym, ap, subst, inl, inr, arith, Text,
  Bool-cases, Option-cases, if◌then◌else◌, length,
}
use kapsaro.Errors.{ok, >>=-eq-ok, collect}
use kapsaro.Text.{text_eq, text_eq_iff, Map, lookup, insert, lookup-insert}
use kapsaro.Model.PublicKey.{PublicKey}
use kapsaro.Model.KvEnc.{KvEntryValue}
use kapsaro.Document.WrapSet.{WrapItem, hpke_algorithm, validate_wrap_count}
use kapsaro.Kv.Draft.{TokenCodec}
use kapsaro.Rewrap.Wrap.{Bytes, Sealing, build_wrap_item, build_wraps_for_recipients}
use kapsaro.Kv.Mutate.{
  KvCrypto, KvInputEntry, encode_encrypted_entry, insert_tokens, build_entry_tokens,
}

-- The last value that the input gives a key.
abbrev pub last_value : Text → List KvInputEntry → Option Text
last_value k [] = none
last_value k (e ∷ es) = elim (last_value k es) [
  | some value ↦ some value
  | none ↦ if text_eq e.key k then some e.value else none
]

module _ (c : KvCrypto) (schedule : c.Schedule) (sid : Text) (codec : TokenCodec) where
  -- A key's new token is the encryption of the value that it is given, or else the old token.
  abbrev pub IsSetTo : Text → Option Text → Option Text → Option Text → Type 0
  IsSetTo k (some value) old new =
      (encrypted : KvEntryValue) × (token : Text) × (c.encrypt_entry k value schedule sid false
        ≡ ok encrypted)
      × (c.codec.encode_value codec encrypted ≡ ok token)
      × (new ≡ some token)
  IsSetTo k none old new = new ≡ old

  insert_tokens_sound :
      (tokens out : Map Text) (entries : List KvInputEntry) (k : Text)
      → insert_tokens c tokens entries schedule sid codec ≡ ok out
      → IsSetTo k (last_value k entries) (lookup k tokens) (lookup k out)
  unfolding insert_tokens encode_encrypted_entry
  insert_tokens_sound tokens out [] k h =
      let e : tokens ≡ out = ground arith in ap (lookup k) (sym e)
  insert_tokens_sound tokens out (e ∷ es) k h =
      let (token, made, h1) =
        >>=-eq-ok (encode_encrypted_entry c e.key e.value schedule sid codec) _ h in
      let (encrypted, hidden, h2) =
        >>=-eq-ok (c.encrypt_entry e.key e.value schedule sid false) _ made in
      let rest = insert_tokens_sound (insert e.key token tokens) out es k h1 in
      elim (Option-cases (last_value k es)) [
        | inl (value, later) ↦ rw later (rw later at rest)
        | inr later ↦
            let new : lookup k out ≡ (if text_eq e.key k then some token else lookup k tokens) =
              (rw later at rest) ∙ lookup-insert e.key k token tokens in
            elim (Bool-cases (text_eq e.key k)) [
              | inr other ↦ rw (later, other) (rw other at new)
              | inl same ↦
                  let at_key : e.key ≡ k = (text_eq_iff e.key k).0 same in
                  rw (later, same)
                    (
                      encrypted,
                      token,
                      subst (λ t. c.encrypt_entry t e.value schedule sid false ≡ ok encrypted)
                          at_key hidden,
                      h2,
                      rw same at new,
                    )
            ]
      ]

-- The wrapped key of a member: the content key, sealed to the member's key for this document.
module _ (s : Sealing) (sid : Text) (master_key : Bytes) where
  abbrev pub IsSealedTo : PublicKey → WrapItem → Type 0
  IsSealedTo m w =
      (info kem_pk : Bytes) × (sealed : Bytes × Bytes) × (s.info_builder sid m.protected.kid
        ≡ ok info)
      × (s.decode_kem_key m.protected.keys.kem.x ≡ ok kem_pk)
      × (s.seal_base kem_pk info info master_key ≡ ok sealed)
      × (w.recipient_handle ≡ m.protected.subject_handle)
      × (w.kid ≡ m.protected.kid)
      × (w.alg ≡ hpke_algorithm)
      × (w.enc ≡ s.encode sealed.0)
      × (w.ct ≡ s.encode sealed.1)

  abbrev pub AreSealedTo : List PublicKey → List WrapItem → Type 0
  AreSealedTo [] [] = Unit
  AreSealedTo (m ∷ ms) (w ∷ ws) = IsSealedTo m w × AreSealedTo ms ws
  AreSealedTo _ _ = ⊥

  build_wrap_item_sound :
      (m : PublicKey) (w : WrapItem) → build_wrap_item s m sid master_key ≡ ok w → IsSealedTo m w
  unfolding build_wrap_item
  build_wrap_item_sound m w h =
      let (info, bound, h1) = >>=-eq-ok (s.info_builder sid m.protected.kid) _ h in
      let (pk, decoded, h2) = >>=-eq-ok (s.decode_kem_key m.protected.keys.kem.x) _ h1 in
      let (sealed, made, h3) = >>=-eq-ok (s.seal_base pk info info master_key) _ h2 in
      (
        info,
        pk,
        sealed,
        bound,
        decoded,
        made,
        ground arith,
        ground arith,
        ground arith,
        ground arith,
        ground arith,
      )

  collect-AreSealedTo :
      (ms : List PublicKey) (ws : List WrapItem)
      → collect (λ m. build_wrap_item s m sid master_key) ms ≡ ok ws
      → AreSealedTo ms ws
  unfolding collect
  collect-AreSealedTo [] ws h = let e : ws ≡ [] = ground arith in rw e tt
  collect-AreSealedTo (m ∷ ms) ws h =
      let (w, built, h1) = >>=-eq-ok (build_wrap_item s m sid master_key) _ h in
      let (rest, later, h2) =
        >>=-eq-ok (collect (λ x. build_wrap_item s x sid master_key) ms) _ h1 in
      let e : ws ≡ w ∷ rest = ground arith in
      rw e (build_wrap_item_sound m w built, collect-AreSealedTo ms rest later)

  pub build_wraps-AreSealedTo :
      (ms : List PublicKey) (ws : List WrapItem)
      → build_wraps_for_recipients s ms sid master_key ≡ ok ws
      → AreSealedTo ms ws
  unfolding build_wraps_for_recipients
  build_wraps-AreSealedTo ms ws h =
      let (_, _, h1) = >>=-eq-ok (validate_wrap_count (length ms)) _ h in
      collect-AreSealedTo ms ws h1

module _ (c : KvCrypto) where
  pub build_entry_tokens_sound :
      (entries : List KvInputEntry) (master_key : Bytes) (sid : Text) (codec : TokenCodec)
      (tokens : Map Text)
      → build_entry_tokens c entries master_key sid codec ≡ ok tokens
      → (schedule : c.Schedule) × (c.extract_schedule master_key sid ≡ ok schedule)
        × ((k : Text)
            → IsSetTo c schedule sid codec k (last_value k entries) none (lookup k tokens))
  unfolding build_entry_tokens lookup
  build_entry_tokens_sound entries master_key sid codec tokens h =
      let (schedule, extracted, h1) = >>=-eq-ok (c.extract_schedule master_key sid) _ h in
      (schedule, extracted, λ k. insert_tokens_sound c schedule sid codec [] tokens entries k h1)
