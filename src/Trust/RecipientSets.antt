-- ===== src/Trust/RecipientSets.antt =====
-- crates/kapsaro-core/src/feature/trust/recipient_sets/{record,mutation}.rs: the approved recipients of
-- each artifact. A `Uuid` is its text in the form that `to_string` gives; `Uuid::parse_str`, the hash
-- of a list of kids (JCS, SHA-256 and base64url) and RFC 3339 parsing are functions that are given.
pub mod Approval
pub mod Checks
use kapsaro.Base.{
  ℕ, Bool, true, false, not, ◌&&◌, ◌||◌, List, [], ◌∷◌, ◌++◌, Option, none, some, ◌≡◌, Text,
  if◌then◌else◌, find, any, map, is_empty,
}
use kapsaro.Errors.{
  Error, Result, ok, err, ◌>>=◌, ◌>>◌, guard, Rule, build_verification_error, build_not_found_error,
  build_invalid_argument_error, repeated_kid, bad_sid, kids_not_canonical, hash_mismatch,
  sid_not_found, hint_not_unique, bad_timestamp,
}
use kapsaro.Text.{text_eq, text_leb, contains, set_insert, ends_with, Map, lookup}
use kapsaro.Identity.Kid.{from_canonical}
use kapsaro.Identity.Handle.{member_handle}
use kapsaro.Model.PublicKey.{PublicKey}
use kapsaro.Model.TrustStore.{
  RecipientHandleHint, RecipientSetRecord, RecipientSetRecord-discrete, ApprovalVia,
}
use kapsaro.Trust.Purge.{ParseTime, purge_records}
use kapsaro.Trust.Judgment.ActiveMember.{Members, text_list_eq}

-- the texts of `Uuid::parse_str(..)?.to_string()`
abbrev pub ParseSid : Type 0
ParseSid = Text → Option Text

-- `compute_recipient_set_hash`
abbrev pub HashKids : Type 0
HashKids = List Text → Result Text

pub record ArtifactRecipientSet : Type 0 where
  pub sid : Text
  pub recipient_kids : List Text
  pub recipient_set_hash : Text
  pub recipient_handle_hints : List RecipientHandleHint

pub data RecipientSetJudgment : Type 0 where
  accepted missing : RecipientSetJudgment
  changed : RecipientSetRecord → RecipientSetJudgment

pub record RecipientHandleMismatch : Type 0 where
  pub kid : Text
  pub artifact_recipient_handle : Text
  pub active_member_handle : Text

-- the loop over the kids; `seen` is the `BTreeSet`
unfoldable pub collect_kids : List Text → List Text → Result (List Text)
collect_kids seen [] = ok seen
collect_kids seen (kid ∷ kids) = do
  checked ← from_canonical kid
  let later = collect_kids (set_insert checked seen) kids
  if contains seen checked
      then err (build_verification_error Rule.recipient_set_duplicate_kid (repeated_kid checked))
      else later

unfoldable pub normalize_recipient_kids : List Text → Result (List Text)
normalize_recipient_kids kids = collect_kids [] kids

unfoldable pub new_recipient_set : HashKids → Text → List Text → Result ArtifactRecipientSet
new_recipient_set hash sid kids = do
  sorted ← normalize_recipient_kids kids
  digest ← hash sorted
  ok (record {
    sid = sid;
    recipient_kids = sorted;
    recipient_set_hash = digest;
    recipient_handle_hints = [];
  })

-- `sort_by` the kid, which keeps the order of equal ones
unfoldable pub insert_hint :
    RecipientHandleHint → List RecipientHandleHint → List RecipientHandleHint
insert_hint h [] = h ∷ []
insert_hint h (j ∷ hints) =
    let rest = insert_hint h hints in if text_leb h.kid j.kid then h ∷ j ∷ hints else j ∷ rest

unfoldable pub sort_hints : List RecipientHandleHint → List RecipientHandleHint
sort_hints [] = []
sort_hints (h ∷ hints) = insert_hint h (sort_hints hints)

unfoldable pub from_public_keys : HashKids → Text → List PublicKey → Result ArtifactRecipientSet
from_public_keys hash sid keys = do
  set ← new_recipient_set hash sid (map (λ k. k.protected.kid) keys)
  ok (record set {
    recipient_handle_hints = sort_hints (
        map (λ k. record { kid = k.protected.kid; recipient_handle = k.protected.subject_handle })
          keys);
  })

-- the loop over the hints; `seen` holds the kids before
unfoldable pub check_hints : List Text → List Text → List RecipientHandleHint → Result (Unit {0})
check_hints kids seen [] = ok tt
check_hints kids seen (hint ∷ hints) = do
  kid ← from_canonical hint.kid
  handle ← member_handle hint.recipient_handle
  let later = check_hints kids (kid ∷ seen) hints
  if not (contains kids kid) || contains seen kid
      then err (build_invalid_argument_error (hint_not_unique kid))
      else later

unfoldable pub validate_recipient_handle_hints :
    List Text → List RecipientHandleHint → Result (Unit {0})
validate_recipient_handle_hints kids hints = check_hints kids [] hints

unfoldable pub from_parts :
    HashKids → Text → List Text → List RecipientHandleHint → Result ArtifactRecipientSet
from_parts hash sid kids hints = do
  set ← new_recipient_set hash sid kids
  _ ← validate_recipient_handle_hints set.recipient_kids hints
  ok (record set { recipient_handle_hints = sort_hints hints })

unfoldable pub non_empty_hints : List RecipientHandleHint → Option (List RecipientHandleHint)
non_empty_hints hints = if is_empty hints then none else some hints

unfoldable pub into_record : ArtifactRecipientSet → Text → RecipientSetRecord
into_record set approved_at = record {
  sid = set.sid;
  recipient_kids = set.recipient_kids;
  recipient_set_hash = set.recipient_set_hash;
  approved_at = approved_at;
  approved_via = ApprovalVia.manual_review;
  recipient_handle_hints = non_empty_hints set.recipient_handle_hints;
}

unfoldable pub validate_approved_at : ParseTime → Text → Result (Unit {0})
validate_approved_at parse approved_at =
    if not (ends_with b'Z' approved_at)
    then err (build_verification_error Rule.trust_timestamp_not_utc (bad_timestamp approved_at))
    else elim (parse approved_at) [
      | none ↦
          err (build_verification_error Rule.trust_timestamp_invalid (bad_timestamp approved_at))
      | some _ ↦ ok tt
    ]

unfoldable pub validate_recipient_set_record :
    ParseSid → HashKids → ParseTime → RecipientSetRecord → Result (Unit {0})
validate_recipient_set_record parse_sid hash parse r = elim (parse_sid r.sid) [
  | none ↦ err (build_verification_error Rule.recipient_set_invalid_sid (bad_sid r.sid))
  | some _ ↦ normalize_recipient_kids r.recipient_kids >>= λ normalized.
      if not (text_list_eq normalized r.recipient_kids)
      then err (
          build_verification_error Rule.recipient_set_kids_not_canonical (kids_not_canonical r.sid))
      else hash r.recipient_kids >>= λ expected.
          if not (text_eq expected r.recipient_set_hash)
          then err (build_verification_error Rule.recipient_set_hash_mismatch (hash_mismatch r.sid))
          else validate_approved_at parse r.approved_at
]

unfoldable pub find_record : List RecipientSetRecord → Text → Option RecipientSetRecord
find_record records sid = find (λ r. text_eq r.sid sid) records

unfoldable pub judge_recipient_set :
    List RecipientSetRecord → ArtifactRecipientSet → RecipientSetJudgment
judge_recipient_set records current = elim (find_record records current.sid) [
  | none ↦ RecipientSetJudgment.missing
  | some r ↦
      if text_list_eq r.recipient_kids current.recipient_kids
      then RecipientSetJudgment.accepted
      else RecipientSetJudgment.changed r
]

-- `*record = candidate` on the first record that has the sid
unfoldable pub replace_first :
    RecipientSetRecord → List RecipientSetRecord → List RecipientSetRecord
replace_first candidate [] = []
replace_first candidate (r ∷ rs) =
    let rest = replace_first candidate rs in
    if text_eq r.sid candidate.sid then candidate ∷ rs else r ∷ rest

-- The records that the call leaves, and whether they moved.
unfoldable pub upsert_recipient_set :
    List RecipientSetRecord → ArtifactRecipientSet → Text → List RecipientSetRecord × Bool
upsert_recipient_set records current approved_at =
    let candidate = into_record current approved_at in
    elim (find_record records current.sid) [
      | none ↦ (records ++ candidate ∷ [], true)
      | some r ↦ elim (RecipientSetRecord-discrete r candidate) [
        | yes _ ↦ (records, false)
        | no _ ↦ (replace_first candidate records, true)
      ]
    ]

-- `position` and `remove`
unfoldable pub take_record :
    Text → List RecipientSetRecord → Option (RecipientSetRecord × List RecipientSetRecord)
take_record sid [] = none
take_record sid (r ∷ rs) =
    let rest = take_record sid rs in
    if text_eq r.sid sid
    then some (r, rs)
    else elim rest [ some t ↦ some (t.0, r ∷ t.1) | none ↦ none ]

unfoldable pub remove_recipient_set :
    ParseSid → List RecipientSetRecord → Text → List RecipientSetRecord × Result RecipientSetRecord
remove_recipient_set parse_sid records given = elim (parse_sid given) [
  | none ↦ (records, err (build_invalid_argument_error (bad_sid given)))
  | some sid ↦ elim (take_record sid records) [
    | none ↦ (records, err (build_not_found_error (sid_not_found sid)))
    | some t ↦ (t.1, ok t.0)
  ]
]

unfoldable pub purge_recipient_sets :
    ParseTime
    → List RecipientSetRecord
    → ℕ
    → List RecipientSetRecord × Result (List RecipientSetRecord)
purge_recipient_sets parse records older_than =
    purge_records (λ r. r.approved_at) parse records older_than

-- what one hint says of the active members
unfoldable pub mismatch_of : Members → RecipientHandleHint → Option RecipientHandleMismatch
mismatch_of members hint = elim (lookup hint.kid members) [
  | none ↦ none
  | some m ↦
      if text_eq m.protected.subject_handle hint.recipient_handle
      then none
      else some (record {
        kid = hint.kid;
        artifact_recipient_handle = hint.recipient_handle;
        active_member_handle = m.protected.subject_handle;
      })
]

unfoldable pub first_mismatch : Members → List RecipientHandleHint → Option RecipientHandleMismatch
first_mismatch members [] = none
first_mismatch members (hint ∷ hints) =
    let rest = first_mismatch members hints in
    elim (mismatch_of members hint) [ some x ↦ some x | none ↦ rest ]

unfoldable pub find_recipient_handle_mismatch :
    ArtifactRecipientSet → Members → Option RecipientHandleMismatch
find_recipient_handle_mismatch current members =
    first_mismatch members current.recipient_handle_hints

unfoldable pub has_no_member : Members → Text → Bool
has_no_member members kid = elim (lookup kid members) [ none ↦ true | some _ ↦ false ]

unfoldable pub find_inactive_recipient_kid : ArtifactRecipientSet → Members → Option Text
find_inactive_recipient_kid current members = find (has_no_member members) current.recipient_kids
