-- ===== src/Trust/Tests.antt =====
-- Runs of feature/trust/{known_keys,judgment}, and the theorems on concrete inputs.
mod Sets
mod Signed
use kapsaro.Base.{
  ℕ, List, [], ◌∷◌, ◌++◌, ◌≡◌, ◌≢◌, ◌↔◌, ◌⊎◌, refl, inl, inr, Text, Bool, true, false, not, ◌&&◌,
  All, arith, ◌≤◌, Option, none, some, map, if◌then◌else◌, find,
}
use kapsaro.Errors.{Error, Result, ok, err, ◌>>=◌, build_not_found_error, sid_not_found, kind}
use kapsaro.Text.{codes, text_eq, lookup, insert, contains, set_of, set_insert, text_leb, ends_with}
use kapsaro.Model.PublicKey.{PublicKey}
use kapsaro.Model.TrustStore.{KnownKey, ApprovalVia, RecipientSetRecord}
use kapsaro.Identity.Handle
use kapsaro.Identity.Kid.{
  resolve_unique_kid, normalize_all, normalize_kid, normalize_kid_query, undashed,
  is_crockford_base32_byte, from_canonical,
}
use kapsaro.Identity.Kid.Canonical.{IsCanonical, from_canonical_iff}
use kapsaro.Identity.Tests.{
  kid_a, kid_b, alice, bob, kid_a-IsCanonical, kid_b-IsCanonical, alice-IsHandle, bob-IsHandle,
}
use kapsaro.Trust.Purge.{
  purge_records, collect_purge_candidates, purge_records-candidates, parse_approved_at, purge_loop,
}
use kapsaro.Trust.KnownKeys.{
  KnownKeyJudgment, find_known_key, add_known_key, remove_known_key, judge_known_key,
  enforce_kid_integrity, build_kid_integrity_anomaly_error, take_key,
}
use kapsaro.Trust.KnownKeys.Binding.Removal.{remove_known_key_sound}
use kapsaro.Trust.KnownKeys.Binding.{
  HasUniqueKids, bound_handle, add_known_key-bound_handle, add_known_key-HasUniqueKids,
  judge_known_key-add,
}
use kapsaro.Trust.Judgment.Identity.{TrustIdentity, DecodeKey}
use kapsaro.Trust.Judgment.ActiveMember.{
  Members, CurrentMemberMatch, KidSetMatch, judge_handle_match, build_active_members_by_kid,
  add_members, judge_kid_set_match, text_list_eq, collect_owned_difference,
}
use kapsaro.Trust.Judgment.ActiveMember.Index.{
  build_active_members_by_kid_iff, judge_kid_set_match-cases,
}
use kapsaro.Trust.Judgment.KnownKeyMatch.{
  judge_known_identity_match, find_known_member_handle, expect,
}
use kapsaro.Trust.Judgment.SelfTrust.{
  SelfTrustSet, contains_identity, try_new, contains_sig_x, Keystore, load_keystore_identity,
  extend_sig_xs, insert_sig_x,
}
use kapsaro.Trust.Judgment.SelfTrust.Keys.{
  IsStored, contains_identity-true, try_new-contains_identity,
}
use kapsaro.Trust.Judgment.Signer.{
  TrustJudgment, judge_signer_trust, judge_signer_trust_with_match, judge_matched_member,
  enforce_signer_judgment, build_known_key_judgment,
}
use kapsaro.Trust.Judgment.Signer.Approval.{add_known_key-judge, add_known_key-anomaly}
use kapsaro.Trust.Judgment.Signer.Outcome.{HasValidHandles, HasMember, judge_signer_trust-trusted}
use kapsaro.Trust.Judgment.Recipient.{judge_recipients_trust}
use kapsaro.Trust.Judgment.Recipient.Pending.{judge_recipients_trust-IsSettled}
use kapsaro.Trust.RecipientSets.{
  ArtifactRecipientSet, RecipientSetJudgment, judge_recipient_set, upsert_recipient_set,
  into_record, find_record, normalize_recipient_kids, new_recipient_set,
  validate_recipient_set_record, HashKids, collect_kids,
}
use kapsaro.Trust.RecipientSets.Approval.{
  upsert_recipient_set-find_record, judge_recipient_set-upsert,
}
use kapsaro.Trust.RecipientSets.Checks.{
  AreDistinct, normalize_recipient_kids_iff, validate_recipient_set_record-into_record,
}
use kapsaro.Trust.Store.{TrustStoreWrite, judge_trust_store_write, judge_trust_store_write-cases}

-- a decoder that gives the characters
decode : DecodeKey
decode x = ok x

abbrev known : Text → Text → KnownKey
known kid handle = record {
  kid = kid;
  subject_handle = handle;
  approved_at = codes "2026-01-01T00:00:00Z";
  approved_via = ApprovalVia.manual_review;
  evidence = none;
  extra = [];
}

abbrev public_key : Text → Text → Text → PublicKey
public_key kid handle x = record {
  protected = record {
    format = codes "kapsaro:format:public-key@1";
    subject_handle = handle;
    kid = kid;
    keys = record {
      kem = record { kty = codes "OKP"; crv = codes "X25519"; x = codes "k" };
      sig = record { kty = codes "OKP"; crv = codes "Ed25519"; x = x };
    };
    binding_claims = none;
    attestation = record { method = codes "ssh-sign"; pub_ = codes "p"; sig = codes "s" };
    expires_at = codes "2027-01-01T00:00:00Z";
    created_at = none;
  };
  signature = codes "g";
}

abbrev alice_identity : TrustIdentity
alice_identity = record { member_handle = alice; kid = kid_a; sig_x = codes "xa" }

abbrev members : Members
members =
    (kid_a, public_key kid_a alice (codes "xa")) ∷ (kid_b, public_key kid_b bob (codes "xb")) ∷ []

-- the operator is bob
abbrev bob_self : SelfTrustSet
bob_self = record { member_handle = some bob; sig_xs = codes "xb" ∷ []; keystore = none }

abbrev bob_known : List KnownKey
bob_known = known kid_b bob ∷ []

abbrev both_known : List KnownKey
both_known = known kid_a alice ∷ known kid_b bob ∷ []

both-HasValidHandles : HasValidHandles both_known
both-HasValidHandles = (alice-IsHandle, (bob-IsHandle, tt))

bob-HasValidHandles : HasValidHandles bob_known
bob-HasValidHandles = (bob-IsHandle, tt)

alice_member : HasMember (lookup kid_a members) alice
unfolding lookup text_eq
alice_member = refl

alice_not_self : contains_identity decode bob_self alice_identity ≡ ok false
unfolding contains_identity text_eq
alice_not_self = refl

alice_bound : bound_handle both_known kid_a ≡ some alice
unfolding bound_handle find_known_key text_eq
alice_bound = refl

judge_signer_trust-trusted_example :
    judge_signer_trust decode alice_identity members both_known bob_self
    ≡ some (ok TrustJudgment.trusted)
judge_signer_trust-trusted_example =
    (judge_signer_trust-trusted decode alice_identity members both_known bob_self
        both-HasValidHandles).1.1
      (inr (alice_member, alice_not_self, alice_bound))

alice_asked :
    judge_signer_trust decode alice_identity members bob_known bob_self
    ≡ some (ok (TrustJudgment.needs_approval alice kid_a))
unfolding judge_signer_trust judge_signer_trust_with_match judge_handle_match lookup text_eq
    judge_matched_member contains_identity judge_known_identity_match find_known_member_handle
    build_known_key_judgment
alice_asked = refl

add_known_key-judge_example :
    ((add_known_key bob_known (known kid_a alice)).1 ≡ ok true)
    × (judge_signer_trust decode alice_identity members
          (add_known_key bob_known (known kid_a alice)).0
          bob_self
        ≡ some (ok TrustJudgment.trusted))
add_known_key-judge_example =
    add_known_key-judge decode alice_identity members bob_known bob_self (known kid_a alice)
      bob-HasValidHandles alice-IsHandle alice_asked

abbrev stolen : List KnownKey
stolen = known kid_a bob ∷ []

stolen-HasValidHandles : HasValidHandles stolen
stolen-HasValidHandles = (bob-IsHandle, tt)

alice_refused :
    judge_signer_trust decode alice_identity members stolen bob_self
    ≡ some (ok (TrustJudgment.known_key_integrity_anomaly alice kid_a bob))
unfolding judge_signer_trust judge_signer_trust_with_match judge_handle_match lookup text_eq
    judge_matched_member contains_identity judge_known_identity_match find_known_member_handle
    build_known_key_judgment expect Handle.member_handle Handle.validate_member_handle
alice_refused = refl

add_known_key-bound_handle_example :
    ((h : Text) × (bound_handle bob_known kid_a ≡ some h)
      × (text_eq h alice ≡ false)
      × (add_known_key bob_known (known kid_a alice)
          ≡ (bob_known, err (build_kid_integrity_anomaly_error kid_a h alice))))
    ⊎ ((flag : Bool) × ((add_known_key bob_known (known kid_a alice)).1 ≡ ok flag)
        × ((flag ≡ true) ↔ (bound_handle bob_known kid_a ≡ none))
        × ((kid : Text)
            → bound_handle (add_known_key bob_known (known kid_a alice)).0 kid
              ≡ (if text_eq kid_a kid then some alice else bound_handle bob_known kid)))
add_known_key-bound_handle_example = add_known_key-bound_handle bob_known (known kid_a alice)

both-HasUniqueKids : HasUniqueKids both_known
unfolding text_eq
both-HasUniqueKids = (refl, (refl, tt))

bob-HasUniqueKids : HasUniqueKids bob_known
bob-HasUniqueKids = (refl, tt)

add_known_key-HasUniqueKids_example : HasUniqueKids (add_known_key bob_known (known kid_a alice)).0
add_known_key-HasUniqueKids_example =
    add_known_key-HasUniqueKids bob_known (known kid_a alice) bob-HasUniqueKids

removed : (remove_known_key both_known (codes "9")).1 ≡ ok (known kid_b bob)
unfolding remove_known_key resolve_unique_kid normalize_all normalize_kid normalize_kid_query
    undashed is_crockford_base32_byte take_key text_eq
removed = refl

remove_known_key_sound_example :
    (kid : Text) × (resolve_unique_kid (kid_a ∷ kid_b ∷ []) (codes "9") ≡ ok kid)
    × (find_known_key both_known kid ≡ some (known kid_b bob))
    × ((other : Text)
        → find_known_key (remove_known_key both_known (codes "9")).0 other
          ≡ (if text_eq kid other then none else find_known_key both_known other))
    × HasUniqueKids (remove_known_key both_known (codes "9")).0
remove_known_key_sound_example =
    remove_known_key_sound both_known (codes "9") (known kid_b bob) both-HasUniqueKids removed

judge_recipients_trust-IsSettled_example :
    judge_recipients_trust decode (alice_identity ∷ []) both_known bob_self ≡ some (ok [])
judge_recipients_trust-IsSettled_example =
    (judge_recipients_trust-IsSettled decode both_known bob_self (alice_identity ∷ [])
        both-HasValidHandles).1
      (inr (alice_not_self, alice_bound), tt)

abbrev two_members : List PublicKey
two_members = public_key kid_a alice (codes "xa") ∷ public_key kid_b bob (codes "xb") ∷ []

two_members-HasUniqueKids : kapsaro.Trust.Judgment.ActiveMember.Index.HasUniqueKids two_members
unfolding text_eq
two_members-HasUniqueKids = (refl, (refl, tt))

build_active_members_by_kid_iff_example :
    (m : Members) × (build_active_members_by_kid two_members ≡ ok m)
build_active_members_by_kid_iff_example =
    (build_active_members_by_kid_iff two_members).0.1 two_members-HasUniqueKids

kids_differ : judge_kid_set_match members (kid_b ∷ []) ≡ KidSetMatch.differs (kid_a ∷ []) []
unfolding judge_kid_set_match set_of set_insert text_leb text_eq text_list_eq
    collect_owned_difference
kids_differ = refl

-- a keystore that has alice's document under every name
keystore : Keystore
keystore handle kid = ok (public_key kid_a alice (codes "xa"))

abbrev alice_self : SelfTrustSet
alice_self = record { member_handle = some alice; sig_xs = []; keystore = some keystore }

kid_a_stored : from_canonical kid_a ≡ ok kid_a
kid_a_stored = (from_canonical_iff kid_a kid_a).1 (refl, kid_a-IsCanonical)

contains_identity-true_example : contains_identity decode alice_self alice_identity ≡ ok true
unfolding keystore decode
contains_identity-true_example =
    (contains_identity-true decode alice_self alice_identity alice keystore refl refl
        kid_a_stored).1
      (refl, inr (public_key kid_a alice (codes "xa"), refl, refl, refl, refl))

bob_set : try_new bob (codes "xb" ∷ []) ≡ ok bob_self
unfolding try_new extend_sig_xs insert_sig_x Handle.member_handle Handle.validate_member_handle
    contains_sig_x
bob_set = refl
