-- ===== src/Trust/Tests/Sets.antt =====
-- Runs of feature/trust/{recipient_sets,purge,store_mutation}, and the theorems on concrete inputs.
use kapsaro.Base.{[], ◌∷◌, ◌≡◌, ◌↔◌, refl, Text, false, some, if◌then◌else◌}
use kapsaro.Errors.{ok}
use kapsaro.Text.{codes, text_eq, set_of, set_insert}
use kapsaro.Identity.Kid.{
  normalize_kid, normalize_kid_query, undashed, is_crockford_base32_byte, from_canonical,
}
use kapsaro.Identity.Tests.{kid_a, kid_b, kid_a-IsCanonical, kid_b-IsCanonical}
use kapsaro.Trust.RecipientSets.{
  ArtifactRecipientSet, RecipientSetJudgment, judge_recipient_set, upsert_recipient_set,
  into_record, find_record, normalize_recipient_kids, new_recipient_set,
  validate_recipient_set_record, HashKids, collect_kids,
}
use kapsaro.Trust.RecipientSets.Approval.{
  upsert_recipient_set-find_record, judge_recipient_set-upsert,
}
use kapsaro.Trust.RecipientSets.Checks.{
  normalize_recipient_kids_iff, validate_recipient_set_record-into_record,
}

normalize_recipient_kids_iff_example :
    normalize_recipient_kids (kid_b ∷ kid_a ∷ []) ≡ ok (set_of (kid_b ∷ kid_a ∷ []))
unfolding text_eq
normalize_recipient_kids_iff_example =
    (normalize_recipient_kids_iff (kid_b ∷ kid_a ∷ []) (set_of (kid_b ∷ kid_a ∷ []))).1
      (refl, (kid_b-IsCanonical, (kid_a-IsCanonical, tt)), (refl, (refl, tt)))

-- a hash that answers the first kid
hash : HashKids
hash [] = ok []
hash (k ∷ ks) = ok k

abbrev sid_one : Text
sid_one = codes "0190aaaa-0000-7000-8000-000000000001"

abbrev sid_two : Text
sid_two = codes "0190aaaa-0000-7000-8000-000000000002"

abbrev set_one : ArtifactRecipientSet
set_one = record {
  sid = sid_one;
  recipient_kids = kid_a ∷ [];
  recipient_set_hash = kid_a;
  recipient_handle_hints = [];
}

abbrev set_two : ArtifactRecipientSet
set_two = record set_one { sid = sid_two }

abbrev noon : Text
noon = codes "2026-01-01T12:00:00Z"

upsert_recipient_set-find_record_example :
    ((sid : Text)
      → find_record (upsert_recipient_set [] set_one noon).0 sid
        ≡ (if text_eq sid_one sid then some (into_record set_one noon) else find_record [] sid))
    × (((upsert_recipient_set [] set_one noon).1 ≡ false)
        ↔ (find_record [] sid_one ≡ some (into_record set_one noon)))
upsert_recipient_set-find_record_example = upsert_recipient_set-find_record [] set_one noon

sids_differ : text_eq sid_two sid_one ≡ false
unfolding text_eq
sids_differ = refl

judge_recipient_set-upsert_example :
    (judge_recipient_set (upsert_recipient_set [] set_one noon).0 set_one
      ≡ RecipientSetJudgment.accepted)
    × (judge_recipient_set
          (upsert_recipient_set (upsert_recipient_set [] set_one noon).0 set_two noon).0
          set_one
        ≡ RecipientSetJudgment.accepted)
judge_recipient_set-upsert_example =
    judge_recipient_set-upsert [] set_one set_two noon noon sids_differ

built : new_recipient_set hash sid_one (kid_a ∷ []) ≡ ok set_one
unfolding new_recipient_set normalize_recipient_kids collect_kids from_canonical normalize_kid
    normalize_kid_query undashed is_crockford_base32_byte text_eq set_insert hash
built = refl

validate_recipient_set_record-into_record_example :
    validate_recipient_set_record (λ s. some s) hash (λ t. some 5) (into_record set_one noon)
    ≡ ok tt
validate_recipient_set_record-into_record_example =
    validate_recipient_set_record-into_record (λ s. some s) hash (λ t. some 5) sid_one sid_one noon
      (kid_a ∷ []) set_one 5 built refl refl refl
