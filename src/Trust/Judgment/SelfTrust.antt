-- ===== src/Trust/Judgment/SelfTrust.antt =====
-- feature/trust/judgment/self_trust.rs and `check_public_key` of feature/context/crypto.rs: the
-- operator's own keys. The local keystore is a function from a handle and a kid; the constant-time
-- comparison of keys answers as `==` on their bytes.
pub mod Keys
use kapsaro.Base.{
  ℕ, Bool, true, false, not, ◌||◌, List, [], ◌∷◌, ◌++◌, Option, none, some, ◌≡◌, Text,
  if◌then◌else◌,
}
use kapsaro.Errors.{
  Error, Result, ok, err, ◌>>=◌, kind, ErrorKind, build_config_error, self_key_handle_mismatch,
  self_key_kid_mismatch, is_not_found,
}
use kapsaro.Text.{text_eq, contains}
use kapsaro.Identity.Handle.{member_handle}
use kapsaro.Identity.Kid.{from_canonical}
use kapsaro.Model.PublicKey.{PublicKey}
use kapsaro.Trust.Judgment.Identity.{TrustIdentity, DecodeKey}

-- `KeystoreAccess::load_public_key`
abbrev pub Keystore : Type 0
Keystore = Text → Text → Result PublicKey

pub record SelfTrustSet : Type 0 where
  pub member_handle : Option Text
  pub sig_xs : List (List ℕ)
  pub keystore : Option Keystore

pub data PublicKeyMatch : Type 0 where
  matches member_handle_mismatch kid_mismatch signature_public_key_mismatch : PublicKeyMatch

pub record LocalKeyIdentity : Type 0 where
  pub member_handle : Text
  pub kid : Text
  pub sig_x : List ℕ

unfoldable pub check_public_key : DecodeKey → LocalKeyIdentity → PublicKey → Result PublicKeyMatch
check_public_key decode self public_key =
    if not (text_eq public_key.protected.subject_handle self.member_handle)
    then ok PublicKeyMatch.member_handle_mismatch
    else if not (text_eq public_key.protected.kid self.kid)
    then ok PublicKeyMatch.kid_mismatch
    else decode public_key.protected.keys.sig.x >>= λ public_sig_x.
        if not (text_eq public_sig_x self.sig_x)
        then ok PublicKeyMatch.signature_public_key_mismatch
        else ok PublicKeyMatch.matches

unfoldable pub contains_sig_x : List (List ℕ) → List ℕ → Bool
contains_sig_x sig_xs sig_x = contains sig_xs sig_x

unfoldable pub insert_sig_x : SelfTrustSet → List ℕ → SelfTrustSet
insert_sig_x self sig_x =
    if not (contains_sig_x self.sig_xs sig_x)
    then record self { sig_xs = self.sig_xs ++ sig_x ∷ [] }
    else self

unfoldable pub extend_sig_xs : SelfTrustSet → List (List ℕ) → SelfTrustSet
extend_sig_xs self [] = self
extend_sig_xs self (sig_x ∷ sig_xs) = extend_sig_xs (insert_sig_x self sig_x) sig_xs

unfoldable pub try_new : Text → List (List ℕ) → Result SelfTrustSet
try_new handle sig_xs = do
  checked ← member_handle handle
  ok (extend_sig_xs (record { member_handle = some checked; sig_xs = []; keystore = none }) sig_xs)

unfoldable pub try_new_with_keystore : Text → List (List ℕ) → Keystore → Result SelfTrustSet
try_new_with_keystore handle sig_xs keystore = do
  set ← try_new handle sig_xs
  ok (record set { keystore = some keystore })

-- What the match of a loaded document says.
unfoldable pub read_match : Text → TrustIdentity → PublicKey → PublicKeyMatch → Result Bool
read_match own identity public_key PublicKeyMatch.matches = ok true
read_match own identity public_key PublicKeyMatch.signature_public_key_mismatch = ok false
read_match own identity public_key PublicKeyMatch.member_handle_mismatch =
    err (
      build_config_error
        (self_key_handle_mismatch identity.kid public_key.protected.subject_handle))
read_match own identity public_key PublicKeyMatch.kid_mismatch =
    err (build_config_error (self_key_kid_mismatch identity.kid public_key.protected.kid))

-- What loading the document named by the handle and the kid says.
unfoldable pub judge_loaded :
    DecodeKey → Text → Text → TrustIdentity → Result PublicKey → Result Bool
judge_loaded decode own kid identity (err e) = elim (is_not_found (kind e)) [
  | true ↦ ok false
  | false ↦ err e
]
judge_loaded decode own kid identity (ok public_key) =
    check_public_key decode (record { member_handle = own; kid = kid; sig_x = identity.sig_x })
      public_key
    >>= read_match own identity public_key

unfoldable pub load_keystore_identity : DecodeKey → SelfTrustSet → TrustIdentity → Result Bool
load_keystore_identity decode self identity = elim self.member_handle [
  | none ↦ ok false
  | some own ↦ elim self.keystore [
    | none ↦ ok false
    | some load ↦
        from_canonical identity.kid >>= λ kid. judge_loaded decode own kid identity (load own kid)
  ]
]

unfoldable pub contains_identity : DecodeKey → SelfTrustSet → TrustIdentity → Result Bool
contains_identity decode self identity = elim self.member_handle [
  | none ↦ ok false
  | some own ↦
      if not (text_eq identity.member_handle own)
      then ok false
      else if contains_sig_x self.sig_xs identity.sig_x
      then ok true
      else load_keystore_identity decode self identity
]
