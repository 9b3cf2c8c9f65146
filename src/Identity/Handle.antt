-- ===== src/Identity/Handle.antt =====
-- `validate_member_handle` of crates/kapsaro-core/src/support/validation.rs, and `MemberHandle::new`
-- of model/identity.rs. A `MemberHandle` is its text.
use kapsaro.Base.{
  ℕ, ◌≤◌, Bool, true, false, not, ◌||◌, [], ◌∷◌, ◌≡◌, ◌↔◌, refl, arith, ◌==◌, ltb, if◌then◌else◌,
  all, length, is_empty, Text,
}
use kapsaro.Errors.{
  Result, ok, err, ◌>>◌, build_invalid_argument_error, handle_empty, handle_too_long, handle_first,
  handle_character,
}
use kapsaro.Text.{is_ascii_alphanumeric, len, starts_with}

-- `MAX_MEMBER_HANDLE_LENGTH`
abbrev pub max_member_handle_length : ℕ
max_member_handle_length = 128

abbrev pub is_handle_char : ℕ → Bool
is_handle_char c =
    is_ascii_alphanumeric c || c == b'.' || c == b'@' || c == b'_' || c == b'+' || c == b'-'

unfoldable pub ensure_member_handle_length : Text → Result (Unit {0})
ensure_member_handle_length id =
    if is_empty id
    then err (build_invalid_argument_error handle_empty)
    else if ltb max_member_handle_length (len id)
    then err (build_invalid_argument_error handle_too_long)
    else ok tt

unfoldable pub ensure_member_handle_starts_alphanumeric : Text → Result (Unit {0})
ensure_member_handle_starts_alphanumeric [] = err (build_invalid_argument_error handle_empty)
ensure_member_handle_starts_alphanumeric (first ∷ rest) =
    if is_ascii_alphanumeric first then ok tt else err (build_invalid_argument_error handle_first)

-- `find` of a character outside the class answers none exactly when all are in it
unfoldable pub ensure_member_handle_characters : Text → Result (Unit {0})
ensure_member_handle_characters id =
    if all is_handle_char id then ok tt else err (build_invalid_argument_error handle_character)

unfoldable pub validate_member_handle : Text → Result (Unit {0})
unfolding ensure_member_handle_length ensure_member_handle_starts_alphanumeric
    ensure_member_handle_characters
validate_member_handle id = do
  ensure_member_handle_length id
  ensure_member_handle_starts_alphanumeric id
  ensure_member_handle_characters id

-- `MemberHandle::new` and `try_from`
unfoldable pub member_handle : Text → Result Text
member_handle value = do validate_member_handle value; ok value

abbrev pub starts_alphanumeric : Text → Bool
starts_alphanumeric [] = false
starts_alphanumeric (c ∷ s) = is_ascii_alphanumeric c

-- A letter or digit, then up to 127 letters, digits and `.@_+-`.
pub record IsHandle (id : Text) : Type 0 where
  pub size : length id ≤ max_member_handle_length
  pub start : starts_alphanumeric id ≡ true
  pub letters : all is_handle_char id ≡ true

len-handle : (id : Text) → all is_handle_char id ≡ true → len id ≡ length id
len-handle [] h = refl
len-handle (c ∷ id) h = ground (arith, len-handle id)

validate_sound : (id : Text) → validate_member_handle id ≡ ok tt → IsHandle id
unfolding validate_member_handle
validate_sound [] h = cc
validate_sound (c ∷ id) h =
    let letters : all is_handle_char (c ∷ id) ≡ true = ground arith in
    record {
      size = ground (arith, len-handle (c ∷ id) letters);
      start = ground arith;
      letters = letters;
    }

validate_complete : (id : Text) → IsHandle id → validate_member_handle id ≡ ok tt
unfolding validate_member_handle
validate_complete [] h = cc h.start
validate_complete (c ∷ id) h = ground (arith, len-handle (c ∷ id) h.letters)

-- A handle is accepted exactly when it is 1 to 128 characters long, starts with a letter or digit
-- and has letters, digits and `.@_+-` only; it is then kept as it is.
pub member_handle_iff : (v id : Text) → (member_handle v ≡ ok id) ↔ ((id ≡ v) × IsHandle v)
unfolding member_handle
member_handle_iff v id = (
  λ h. (ground arith, validate_sound v (ground arith)),
  λ h. ground (arith, validate_complete v h.1),
)

not_hidden : (id : Text) → starts_alphanumeric id ≡ true → starts_with b'.' id ≡ false
not_hidden [] h = refl
not_hidden (c ∷ id) h = ground arith

no_separator : (id : Text) → all is_handle_char id ≡ true → all (λ c. not (c == b'/')) id ≡ true
no_separator [] h = refl
no_separator (c ∷ id) h = ground (arith, no_separator id)

-- An accepted handle has no path separator and does not start with a dot, so it names an entry of
-- the directory that it is joined to.
pub member_handle-path_safe :
    (v id : Text)
    → member_handle v ≡ ok id
    → (all (λ c. not (c == b'/')) id ≡ true) × (starts_with b'.' id ≡ false)
member_handle-path_safe v id h =
    let (e, f) = (member_handle_iff v id).0 h in
    rw e (no_separator v f.letters, not_hidden v f.start)
