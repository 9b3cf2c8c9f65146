-- ===== src/Trust/Judgment/SelfTrust/Keys.antt =====
-- Which keys count as the operator's own (feature/trust/judgment/self_trust.rs).
use kapsaro.Base.{
  ℕ, true, ◌||◌, ◌&&◌, List, [], ◌∷◌, ◌++◌, none, some, ◌≡◌, ◌≢◌, ◌↔◌, ◌⊎◌, inl, inr, ◌∙◌, refl,
  sym, ap, arith, Text, subst,
}
use kapsaro.Errors.{Error, ok, err, >>=-eq-ok, Result-cases}
use kapsaro.Text.{text_eq, text_eq_iff, contains}
use kapsaro.Identity.Handle.{member_handle, member_handle_iff}
use kapsaro.Identity.Kid.{from_canonical}
use kapsaro.Model.PublicKey.{PublicKey}
use kapsaro.Trust.Judgment.Identity.{TrustIdentity, DecodeKey}
use kapsaro.Trust.Judgment.SelfTrust.{
  SelfTrustSet, contains_sig_x, insert_sig_x, extend_sig_xs, try_new, Keystore, check_public_key,
  read_match, judge_loaded, load_keystore_identity, contains_identity,
}

contains-snoc :
    (xs : List (List ℕ)) (x y : List ℕ) → contains (xs ++ x ∷ []) y ≡ (contains xs y || text_eq x y)
contains-snoc [] x y = ground arith
contains-snoc (z ∷ xs) x y = ground (arith, contains-snoc xs x y)

insert_sig_x-contains :
    (s : SelfTrustSet) (x y : List ℕ)
    → contains_sig_x (insert_sig_x s x).sig_xs y ≡ (contains_sig_x s.sig_xs y || text_eq x y)
unfolding insert_sig_x contains_sig_x
insert_sig_x-contains s x y = ground (arith, contains-snoc s.sig_xs x y, text_eq_iff x y)

insert_sig_x-handle :
    (s : SelfTrustSet) (x : List ℕ) → (insert_sig_x s x).member_handle ≡ s.member_handle
unfolding insert_sig_x
insert_sig_x-handle s x = ground arith

extend-handle :
    (s : SelfTrustSet) (xs : List (List ℕ)) → (extend_sig_xs s xs).member_handle ≡ s.member_handle
unfolding extend_sig_xs
extend-handle s [] = refl
extend-handle s (x ∷ xs) = extend-handle (insert_sig_x s x) xs ∙ insert_sig_x-handle s x

extend-contains :
    (s : SelfTrustSet) (xs : List (List ℕ)) (y : List ℕ)
    → contains_sig_x (extend_sig_xs s xs).sig_xs y ≡ (contains_sig_x s.sig_xs y || contains xs y)
unfolding extend_sig_xs
extend-contains s [] y = ground arith
extend-contains s (x ∷ xs) y =
    ground (arith, extend-contains (insert_sig_x s x) xs y, insert_sig_x-contains s x y)

no_keystore : (s : SelfTrustSet) (xs : List (List ℕ)) → (extend_sig_xs s xs).keystore ≡ s.keystore
unfolding extend_sig_xs insert_sig_x
no_keystore s [] = refl
no_keystore s (x ∷ xs) = no_keystore (insert_sig_x s x) xs ∙ ground arith

-- The set that is built from a handle and keys, with no keystore, contains exactly the identities of
-- that handle with one of those keys, and asking it never fails.
pub try_new-contains_identity :
    (decode : DecodeKey) (handle : Text) (xs : List (List ℕ)) (s : SelfTrustSet) (i : TrustIdentity)
    → try_new handle xs ≡ ok s
    → contains_identity decode s i ≡ ok (text_eq i.member_handle handle && contains xs i.sig_x)
unfolding try_new contains_identity load_keystore_identity contains_sig_x
try_new-contains_identity decode handle xs s i h =
    let (checked, e, r) = >>=-eq-ok (member_handle handle) _ h in
    let same : checked ≡ handle = ((member_handle_iff handle checked).0 e).0 in
    let start : SelfTrustSet = record {
      member_handle = some checked;
      sig_xs = [];
      keystore = none;
    } in
    let built : extend_sig_xs start xs ≡ s = ground arith in
    let owner : s.member_handle ≡ some handle =
      ap (λ (x : SelfTrustSet). x.member_handle) (sym built)
      ∙ extend-handle start xs
      ∙ ap some same in
    let stored : s.keystore ≡ none =
      ap (λ (x : SelfTrustSet). x.keystore) (sym built) ∙ no_keystore start xs in
    let held : contains s.sig_xs i.sig_x ≡ contains xs i.sig_x =
      ap (λ (x : SelfTrustSet). contains x.sig_xs i.sig_x) (sym built)
      ∙ extend-contains start xs i.sig_x in
    ground (arith, owner, stored, held)

-- The document that the keystore has under the own handle and the kid states the identity.
abbrev pub IsStored : DecodeKey → Keystore → Text → TrustIdentity → Type 0
IsStored decode load own i =
    (pk : PublicKey) × (load own i.kid ≡ ok pk)
    × (pk.protected.subject_handle ≡ own)
    × (pk.protected.kid ≡ i.kid)
    × (decode pk.protected.keys.sig.x ≡ ok i.sig_x)

loaded-true :
    (decode : DecodeKey) (own : Text) (i : TrustIdentity) (pk : PublicKey)
    → (judge_loaded decode own i.kid i (ok pk) ≡ ok true) ↔ (
        (pk.protected.subject_handle ≡ own)
        × (pk.protected.kid ≡ i.kid)
        × (decode pk.protected.keys.sig.x ≡ ok i.sig_x))
unfolding judge_loaded check_public_key read_match
loaded-true decode own i pk = elim (Result-cases (decode pk.protected.keys.sig.x)) [
  | inl (x, e) ↦ ground (
    arith,
    text_eq_iff pk.protected.subject_handle own,
    text_eq_iff pk.protected.kid i.kid,
    text_eq_iff x i.sig_x,
  )
  | inr (f, e) ↦ ground arith
]

missing-false :
    (decode : DecodeKey) (own : Text) (i : TrustIdentity) (e : Error)
    → judge_loaded decode own i.kid i (err e) ≢ ok true
unfolding judge_loaded
missing-false decode own i e h = ground arith

stored-same :
    (decode : DecodeKey) (load : Keystore) (own : Text) (i : TrustIdentity) (pk : PublicKey)
    → load own i.kid ≡ ok pk
    → IsStored decode load own i
    → (pk.protected.subject_handle ≡ own)
      × (pk.protected.kid ≡ i.kid)
      × (decode pk.protected.keys.sig.x ≡ ok i.sig_x)
stored-same decode load own i pk e (other, found, handle, kid, key) =
    let same : other ≡ pk = cc in
    subst
      (λ (p : PublicKey).
        (p.protected.subject_handle ≡ own)
        × (p.protected.kid ≡ i.kid)
        × (decode p.protected.keys.sig.x ≡ ok i.sig_x))
      same (handle, kid, key)

keystore-true :
    (decode : DecodeKey) (own : Text) (i : TrustIdentity) (load : Keystore)
    → (judge_loaded decode own i.kid i (load own i.kid) ≡ ok true) ↔ IsStored decode load own i
keystore-true decode own i load = elim (Result-cases (load own i.kid)) [
  | inl (pk, e) ↦ (
    λ h.
        let (handle, kid, key) = (loaded-true decode own i pk).0 (rw e at h) in
        (pk, e, handle, kid, key),
    λ h. rw e ((loaded-true decode own i pk).1 (stored-same decode load own i pk e h)),
  )
  | inr (f, e) ↦ (λ h. absurd (missing-false decode own i f (rw e at h)), λ h. absurd (cc (e, h.1)))
]

-- With a keystore, an identity with a canonical kid is the operator's own exactly where it has the
-- operator's handle and its key is one that the set holds or the keystore has the document that
-- states it.
pub contains_identity-true :
    (decode : DecodeKey) (s : SelfTrustSet) (i : TrustIdentity) (own : Text) (load : Keystore)
    → s.member_handle ≡ some own
    → s.keystore ≡ some load
    → from_canonical i.kid ≡ ok i.kid
    → (contains_identity decode s i ≡ ok true) ↔ (
        (i.member_handle ≡ own)
        × ((contains_sig_x s.sig_xs i.sig_x ≡ true) ⊎ IsStored decode load own i))
unfolding contains_identity load_keystore_identity
contains_identity-true decode s i own load h k c =
    ground (arith, keystore-true decode own i load, text_eq_iff i.member_handle own)
