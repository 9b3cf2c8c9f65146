-- ===== src/Trust/Verification/Sound.antt =====
-- What a trust store that was taken over (feature/trust/verification.rs) is.
use kapsaro.Base.{
  ℕ, Bool, true, false, not, List, [], ◌∷◌, Option, none, some, ◌≡◌, ◌∙◌, refl, sym, ap, subst, inl,
  inr, arith, Text, map, All, Bool-cases, Option-cases,
}
use kapsaro.Errors.{
  Error, Result, ok, err, >>=-eq-ok, guard, ok_or, build_crypto_error, unsupported_algorithm,
}
use kapsaro.Text.{text_eq, text_eq_iff, contains, ends_with}
use kapsaro.Model.PublicKey.{PublicKey}
use kapsaro.Model.TrustStore.{KnownKey, RecipientSetRecord, TrustStoreDocument}
use kapsaro.Identity.Kid.{from_canonical}
use kapsaro.Identity.Kid.Canonical.{from_canonical_iff}
use kapsaro.Identity.Handle.{member_handle, member_handle_iff, IsHandle}
use kapsaro.Trust.RecipientSets.{validate_recipient_set_record}
use kapsaro.Trust.KnownKeys.Binding.{HasUniqueKids}
use kapsaro.Trust.Verification.{
  Verifier, signature_ed25519, SignerKeySnapshot, VerifiedTrustStore, replace_error, find_signer,
  validate_format, resolve_signer_public_key, validate_kid_match, validate_owner_match,
  unique_kids_from, verify_trust_store_bytes, verify_trust_store_signature, recipient_sets_from,
  validate_utc_timestamp, validate_each, validate_timestamps, validate_signer_independent_content,
  verify_trust_store,
}

guard-true : (b : Bool) (e : Error) (r : Unit {0}) → guard b e ≡ ok r → b ≡ true
guard-true true e r h = refl
guard-true false e r h = absurd cc

replace_ok : {A : Type 0} (e : Error) (m : Result A) (a : A) → replace_error e m ≡ ok a → m ≡ ok a
replace_ok e (ok value) a h = h
replace_ok e (err cause) a h = absurd cc

ok_or-some : {A : Type 0} (o : Option A) (e : Error) (a : A) → ok_or o e ≡ ok a → o ≡ some a
ok_or-some none e a h = absurd cc
ok_or-some (some x) e a h = ground arith

unseen_kids :
    (seen : List Text) (kid : Text) (ks : List KnownKey)
    → unique_kids_from seen ks ≡ ok tt
    → contains seen kid ≡ true
    → contains (map (λ (k : KnownKey). k.kid) ks) kid ≡ false
unfolding unique_kids_from
unseen_kids seen kid [] h c = refl
unseen_kids seen kid (k ∷ ks) h c =
    let (_, g, rest) = >>=-eq-ok (guard (not (contains seen k.kid)) _) _ h in
    let fresh = guard-true (not (contains seen k.kid)) _ _ g in
    elim (Bool-cases (text_eq k.kid kid)) [
      | inl same ↦
          let e = ap (contains seen) ((text_eq_iff k.kid kid).0 same) in absurd (ground arith)
      | inr other ↦ rw other (unseen_kids (k.kid ∷ seen) kid ks rest (ground arith))
    ]

unique_kids_sound :
    (seen : List Text) (ks : List KnownKey) → unique_kids_from seen ks ≡ ok tt → HasUniqueKids ks
unfolding unique_kids_from
unique_kids_sound seen [] h = tt
unique_kids_sound seen (k ∷ ks) h =
    let (_, _, rest) = >>=-eq-ok (guard (not (contains seen k.kid)) _) _ h in
    (
      unseen_kids (k.kid ∷ seen) k.kid ks rest (ground (arith, text_eq_iff k.kid k.kid)),
      unique_kids_sound (k.kid ∷ seen) ks rest,
    )

-- No two records are about one artifact.
abbrev pub HasUniqueSids : List RecipientSetRecord → Type 0
HasUniqueSids [] = Unit
HasUniqueSids (r ∷ rs) =
    (contains (map (λ (q : RecipientSetRecord). q.sid) rs) r.sid ≡ false) × HasUniqueSids rs

module _ (v : Verifier) where
  abbrev pub IsValidRecord : RecipientSetRecord → Type 0
  IsValidRecord r = validate_recipient_set_record v.parse_sid v.hash v.parse_time r ≡ ok tt

  -- A time of day in UTC.
  abbrev pub IsUtc : Text → Type 0
  IsUtc ts = (ends_with b'Z' ts ≡ true) × (at : ℕ) × (v.parse_time ts ≡ some at)

  unseen_sids :
      (seen : List Text) (sid : Text) (rs : List RecipientSetRecord)
      → recipient_sets_from v seen rs ≡ ok tt
      → contains seen sid ≡ true
      → contains (map (λ (q : RecipientSetRecord). q.sid) rs) sid ≡ false
  unfolding recipient_sets_from
  unseen_sids seen sid [] h c = refl
  unseen_sids seen sid (r ∷ rs) h c =
      let (_, g, h1) = >>=-eq-ok (guard (not (contains seen r.sid)) _) _ h in
      let (_, _, rest) =
        >>=-eq-ok (validate_recipient_set_record v.parse_sid v.hash v.parse_time r) _ h1 in
      let fresh = guard-true (not (contains seen r.sid)) _ _ g in
      elim (Bool-cases (text_eq r.sid sid)) [
        | inl same ↦
            let e = ap (contains seen) ((text_eq_iff r.sid sid).0 same) in absurd (ground arith)
        | inr other ↦ rw other (unseen_sids (r.sid ∷ seen) sid rs rest (ground arith))
      ]

  recipient_sets_sound :
      (seen : List Text) (rs : List RecipientSetRecord)
      → recipient_sets_from v seen rs ≡ ok tt
      → HasUniqueSids rs × All IsValidRecord rs
  unfolding recipient_sets_from
  recipient_sets_sound seen [] h = (tt, tt)
  recipient_sets_sound seen (r ∷ rs) h =
      let (_, _, h1) = >>=-eq-ok (guard (not (contains seen r.sid)) _) _ h in
      let (_, valid, rest) =
        >>=-eq-ok (validate_recipient_set_record v.parse_sid v.hash v.parse_time r) _ h1 in
      let (unique, all) = recipient_sets_sound (r.sid ∷ seen) rs rest in
      (
        (
          unseen_sids (r.sid ∷ seen) r.sid rs rest (ground (arith, text_eq_iff r.sid r.sid)),
          unique,
        ),
        (valid, all),
      )

  IsUtc-sound : (ts : Text) → validate_utc_timestamp v ts ≡ ok tt → IsUtc ts
  unfolding validate_utc_timestamp
  IsUtc-sound ts h = elim (Option-cases (v.parse_time ts)) [
    | inl (at, e) ↦ (ground arith, at, e)
    | inr e ↦ absurd (ground arith)
  ]

  each_sound : (ts : List Text) → validate_each v ts ≡ ok tt → All IsUtc ts
  unfolding validate_each
  each_sound [] h = tt
  each_sound (t ∷ ts) h =
      let (_, first, rest) = >>=-eq-ok (validate_utc_timestamp v t) _ h in
      (IsUtc-sound t first, each_sound ts rest)

  -- A document that the given key has signed, for its owner, with checked contents.
  pub record IsSigned (doc : TrustStoreDocument) (s : SignerKeySnapshot) : Type 0 where
    pub signer : PublicKey
    pub verifying_key : v.VerifyingKey
    pub canonical : List ℕ
    pub signature_bytes : List ℕ
    pub owner : doc.protected.owner_handle ≡ s.owner
    pub handle : IsHandle s.owner
    pub held : find_signer s doc.signature.kid ≡ some signer
    pub genuine : v.verify_public_key signer ≡ ok verifying_key
    pub signer_kid : signer.protected.kid ≡ doc.signature.kid
    pub signer_owner : signer.protected.subject_handle ≡ s.owner
    pub signed_text : v.build_trust_store_signature_bytes doc.protected ≡ ok canonical
    pub decoded : v.decode_ed25519_signature doc.signature.sig ≡ ok signature_bytes
    pub verified : v.verify_detached_bytes canonical verifying_key signature_bytes ≡ ok tt
    pub kids : HasUniqueKids doc.protected.known_keys
    pub sids : HasUniqueSids doc.protected.recipient_sets
    pub records : All IsValidRecord doc.protected.recipient_sets
    pub created : IsUtc doc.protected.created_at
    pub updated : IsUtc doc.protected.updated_at
    pub approved : All IsUtc (map (λ (k : KnownKey). k.approved_at) doc.protected.known_keys)

  resolve_sound :
      (doc : TrustStoreDocument) (s : SignerKeySnapshot) (signer : PublicKey)
      → resolve_signer_public_key doc s ≡ ok signer
      → (doc.protected.owner_handle ≡ s.owner)
        × IsHandle s.owner
        × (find_signer s doc.signature.kid ≡ some signer)
  unfolding resolve_signer_public_key
  resolve_sound doc s signer h =
      let (owner, named, h1) = >>=-eq-ok (member_handle doc.protected.owner_handle) _ h in
      let (_, g, h2) = >>=-eq-ok (guard (text_eq owner s.owner) _) _ h1 in
      let (kid, canonical, h3) = >>=-eq-ok (from_canonical doc.signature.kid) _ h2 in
      let (same, handle) = (member_handle_iff doc.protected.owner_handle owner).0 named in
      let mine : owner ≡ s.owner = (text_eq_iff owner s.owner).0 (guard-true _ _ _ g) in
      let (k, _) = (from_canonical_iff doc.signature.kid kid).0 canonical in
      (
        sym same ∙ mine,
        subst IsHandle (sym same ∙ mine) handle,
        subst (λ t. find_signer s t ≡ some signer) k (ok_or-some (find_signer s kid) _ signer h3),
      )

  -- A trust store that is taken over is the given document, for its owner. The snapshot holds a key
  -- with the kid that the signature names, the key is a verified one of this kid and this owner, and
  -- it has signed the protected part of the document. The approved kids differ, the approved artifacts
  -- differ, every record of one passes its checks, and the creation, update and key approval times are
  -- UTC times.
  pub verify_trust_store-IsSigned :
      (doc : TrustStoreDocument) (s : SignerKeySnapshot) (store : VerifiedTrustStore)
      → verify_trust_store v doc s ≡ ok store
      → (store.document ≡ doc) × (store.owner_handle ≡ s.owner) × IsSigned doc s
  unfolding verify_trust_store verify_trust_store_signature verify_trust_store_bytes
      validate_signer_independent_content validate_timestamps validate_kid_match
      validate_owner_match
  verify_trust_store-IsSigned doc s store h =
      let (_, _, h1) = >>=-eq-ok (v.validate_schema doc) _ h in
      let (_, _, h2) = >>=-eq-ok (validate_format doc) _ h1 in
      let (signer, resolved, h3) = >>=-eq-ok (resolve_signer_public_key doc s) _ h2 in
      let (vk, good, h4) = >>=-eq-ok (replace_error _ (v.verify_public_key signer)) _ h3 in
      let (_, checked, h5) = >>=-eq-ok (verify_trust_store_signature v doc vk) _ h4 in
      let (_, kid, h6) = >>=-eq-ok (validate_kid_match doc signer) _ h5 in
      let (_, mine, h7) = >>=-eq-ok (validate_owner_match doc signer) _ h6 in
      let (_, content, h8) = >>=-eq-ok (validate_signer_independent_content v doc) _ h7 in
      let (text, made, c1) =
        >>=-eq-ok (v.build_trust_store_signature_bytes doc.protected) _ checked in
      let bytes = replace_ok _ (verify_trust_store_bytes v text vk doc.signature) tt c1 in
      let (_, _, c2) =
        >>=-eq-ok
          (guard (text_eq doc.signature.alg signature_ed25519)
            (build_crypto_error (unsupported_algorithm doc.signature.alg)))
          _ bytes in
      let (sig, dec, c3) = >>=-eq-ok (v.decode_ed25519_signature doc.signature.sig) _ c2 in
      let (_, u, d1) = >>=-eq-ok (unique_kids_from [] doc.protected.known_keys) _ content in
      let (_, r, d2) = >>=-eq-ok (recipient_sets_from v [] doc.protected.recipient_sets) _ d1 in
      let (_, t1, d3) = >>=-eq-ok (validate_utc_timestamp v doc.protected.created_at) _ d2 in
      let (_, t2, d4) = >>=-eq-ok (validate_utc_timestamp v doc.protected.updated_at) _ d3 in
      let (_, t3, d5) =
        >>=-eq-ok (validate_each v (map (λ (k : KnownKey). k.approved_at) doc.protected.known_keys))
          _ d4 in
      let (owner, handle, held) = resolve_sound doc s signer resolved in
      let (sids, records) = recipient_sets_sound [] doc.protected.recipient_sets r in
      (
        ground arith,
        ground arith,
        record {
          signer = signer;
          verifying_key = vk;
          canonical = text;
          signature_bytes = sig;
          owner = owner;
          handle = handle;
          held = held;
          genuine = replace_ok _ (v.verify_public_key signer) vk good;
          signer_kid = sym ((text_eq_iff _ _).0 (guard-true _ _ _ kid));
          signer_owner = (text_eq_iff _ _).0 (guard-true _ _ _ mine) ∙ owner;
          signed_text = made;
          decoded = dec;
          verified = c3;
          kids = unique_kids_sound [] doc.protected.known_keys u;
          sids = sids;
          records = records;
          created = IsUtc-sound doc.protected.created_at t1;
          updated = IsUtc-sound doc.protected.updated_at t2;
          approved = each_sound (map (λ (k : KnownKey). k.approved_at) doc.protected.known_keys) t3;
        },
      )
