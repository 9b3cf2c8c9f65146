-- ===== src/Trust/Judgment/ActiveMember.antt =====
-- feature/trust/judgment/active_member.rs: the members that the workspace has now, by kid.
pub mod Index
use kapsaro.Base.{
  ℕ, Bool, true, false, not, ◌&&◌, List, [], ◌∷◌, Option, none, some, ◌≡◌, Text, if◌then◌else◌, map,
  filter,
}
use kapsaro.Errors.{Error, Result, ok, err, ◌>>=◌, build_config_error, ambiguous_kid}
use kapsaro.Text.{text_eq, contains, set_of, Map, lookup, insert}
use kapsaro.Model.PublicKey.{PublicKey, PublicKey-discrete}
use kapsaro.Trust.Judgment.Identity.{TrustIdentity}

abbrev pub Members : Type 0
Members = Map PublicKey

pub data CurrentMemberMatch : Type 0 where
  missing matched : CurrentMemberMatch
  member_handle_mismatch : Text → CurrentMemberMatch

pub data KidSetMatch : Type 0 where
  exact : KidSetMatch
  differs : (missing_active_kids stale_kids : List Text) → KidSetMatch

pub data CurrentKeyMatch : Type 0 where
  missing matched document_mismatch : CurrentKeyMatch

unfoldable pub add_members : Members → List PublicKey → Result Members
add_members by_kid [] = ok by_kid
add_members by_kid (member ∷ members) =
    let kid = member.protected.kid in
    let rest = add_members (insert kid member by_kid) members in
    elim (lookup kid by_kid) [ some _ ↦ err (build_config_error (ambiguous_kid kid)) | none ↦ rest ]

unfoldable pub build_active_members_by_kid : List PublicKey → Result Members
build_active_members_by_kid active_members = add_members [] active_members

unfoldable pub judge_handle_match : Members → Text → Text → CurrentMemberMatch
judge_handle_match members_by_kid kid member_handle = elim (lookup kid members_by_kid) [
  | none ↦ CurrentMemberMatch.missing
  | some member ↦
      if text_eq member.protected.subject_handle member_handle
      then CurrentMemberMatch.matched
      else CurrentMemberMatch.member_handle_mismatch member.protected.subject_handle
]

-- `collect_owned_difference` of ordered sets
unfoldable pub collect_owned_difference : List Text → List Text → List Text
collect_owned_difference left right = filter (λ kid. not (contains right kid)) left

unfoldable pub text_list_eq : List Text → List Text → Bool
text_list_eq [] [] = true
text_list_eq (a ∷ s) (b ∷ t) = text_eq a b && text_list_eq s t
text_list_eq _ _ = false

unfoldable pub judge_kid_set_match : Members → List Text → KidSetMatch
judge_kid_set_match members_by_kid kids =
    let given = set_of kids in
    let current = set_of (map (λ m. m.0) members_by_kid) in
    if text_list_eq given current
    then KidSetMatch.exact
    else KidSetMatch.differs (collect_owned_difference current given)
        (collect_owned_difference given current)

unfoldable pub judge_public_key_match : Members → PublicKey → CurrentKeyMatch
judge_public_key_match members_by_kid key = elim (lookup key.protected.kid members_by_kid) [
  | none ↦ CurrentKeyMatch.missing
  | some current ↦ elim (PublicKey-discrete current key) [
    | yes _ ↦ CurrentKeyMatch.matched
    | no _ ↦ CurrentKeyMatch.document_mismatch
  ]
]
