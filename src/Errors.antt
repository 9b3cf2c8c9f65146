-- ===== src/Errors.antt =====
-- crates/kapsaro-core/src/error.rs: the error value, its category, rule and recovery code.
-- A message is the name of its template in the source with values that the source puts in.
pub mod Axes
mod Tests
use kapsaro.Base.{
  ℕ, ◌≡◌, refl, ◌⊎◌, inl, inr, Bool, true, false, Option, none, some, Text, List, [], ◌∷◌,
}

pub data ErrorKind : Type 0 where
  schema crypto ssh verify io parse config : ErrorKind
  not_found invalid_argument invalid_operation : ErrorKind

unfoldable pub is_content_failure : ErrorKind → Bool
is_content_failure ErrorKind.schema = true
is_content_failure ErrorKind.crypto = true
is_content_failure ErrorKind.verify = true
is_content_failure ErrorKind.parse = true
is_content_failure ErrorKind.invalid_argument = true
is_content_failure _ = false

-- The rule codes, `E_SCHEMA_INVALID` and so on.
pub data Rule : Type 0 where
  schema_invalid duplicate_key wrap_line_missing wrap_line_position sig_line_missing : Rule
  duplicate_recipient_handle trust_kid_integrity_anomaly trust_non_member : Rule
  trust_active_member_mismatch recipient_set_duplicate_kid recipient_set_invalid_sid : Rule
  recipient_set_kids_not_canonical recipient_set_hash_mismatch : Rule
  trust_timestamp_not_utc trust_timestamp_invalid : Rule
  trust_format_mismatch trust_owner_mismatch trust_kid_mismatch trust_duplicate_kid : Rule
  recipient_set_duplicate_sid : Rule

pub data Recovery : Type 0 where
  kv_key_not_found trust_signer_key_missing local_state_path_unsafe : Recovery

pub data Message : Type 0 where
  no_valid_entries missing_separator_in_file : Message
  missing_separator : ℕ → Message
  invalid_key_name : ℕ → Text → Message
  unknown_control_tag unsupported_kv_version empty_control_token comment_line : Text → Message
  invalid_line invalid_key_format repeated_key : Text → Message
  file_too_large too_many_keys : ℕ → Message
  empty_file head_not_found wrap_not_found no_signature data_after_signature : Message
  missing_line misplaced_line : Text → Message
  repeated_line : Text → ℕ → Message
  kid_length kid_query_length kid_not_ascii kid_alphabet kid_not_canonical : Message
  kid_not_found kid_ambiguous : Text → Message
  handle_empty handle_too_long handle_first handle_character : Message
  login_empty login_too_long login_first login_last login_hyphens login_character : Message
  name_empty name_hidden name_byte name_too_long : Message
  json_depth json_elements wrap_count : ℕ → Message
  ambiguous_kid key_not_found sid_not_found kid_not_known : Text → Message
  repeated_handle unsupported_algorithm bad_base64 : Text → Message
  bad_duration non_positive_duration duration_out_of_range : Text → Message
  no_wrap_for_kid : Text → Text → Message
  wrap_handle_mismatch : Text → Text → Text → Message
  conflicting_handle : Text → Text → Text → Message
  non_member : Text → Text → Message
  active_member_mismatch : Text → Text → Text → Message
  self_key_handle_mismatch self_key_kid_mismatch : Text → Text → Message
  bad_timestamp repeated_kid bad_sid kids_not_canonical hash_mismatch : Text → Message
  hint_not_unique member_not_in_snapshot : Text → Message
  no_recipients store_not_found unreachable_state wrap_line_not_found : Message
  invalid_entry_token repeated_sid : Text → Message
  format_mismatch owner_mismatch signer_kid_mismatch signer_key_missing : Text → Text → Message
  signer_key_unverified store_signature_unverified : Message
  duration_syntax duration_not_positive duration_too_large : Text → Message
  outside : ℕ → Message

pub data ErrorRepr : Type 0 where
  schema crypto ssh io parse not_found invalid_argument invalid_operation : Message → ErrorRepr
  verify : Rule → Message → ErrorRepr
  config : Option Rule → Message → ErrorRepr

pub record Error : Type 0 where
  pub repr : ErrorRepr
  pub recovery : Option Recovery

pub data Result {ℓ} (A : Type ℓ) : Type ℓ where
  ok : A → Result A
  err : Error → Result A

abbrev from_repr : ErrorRepr → Error
from_repr r = record { repr = r; recovery = none }

repr_kind : ErrorRepr → ErrorKind
repr_kind (ErrorRepr.schema m) = ErrorKind.schema
repr_kind (ErrorRepr.crypto m) = ErrorKind.crypto
repr_kind (ErrorRepr.ssh m) = ErrorKind.ssh
repr_kind (ErrorRepr.io m) = ErrorKind.io
repr_kind (ErrorRepr.parse m) = ErrorKind.parse
repr_kind (ErrorRepr.not_found m) = ErrorKind.not_found
repr_kind (ErrorRepr.invalid_argument m) = ErrorKind.invalid_argument
repr_kind (ErrorRepr.invalid_operation m) = ErrorKind.invalid_operation
repr_kind (ErrorRepr.verify r m) = ErrorKind.verify
repr_kind (ErrorRepr.config r m) = ErrorKind.config

-- `Error::kind`
unfoldable pub kind : Error → ErrorKind
unfolding repr_kind
kind e = repr_kind e.repr

repr_rule : ErrorRepr → Option Rule
repr_rule (ErrorRepr.verify r m) = some r
repr_rule (ErrorRepr.config r m) = r
repr_rule _ = none

-- `Error::rule`
unfoldable pub rule : Error → Option Rule
unfolding repr_rule
rule e = repr_rule e.repr

unfoldable pub with_recovery : Error → Recovery → Error
with_recovery e code = record e { recovery = some code }

restate : ErrorRepr → Message → ErrorRepr
restate (ErrorRepr.schema m) n = ErrorRepr.schema n
restate (ErrorRepr.crypto m) n = ErrorRepr.crypto n
restate (ErrorRepr.ssh m) n = ErrorRepr.ssh n
restate (ErrorRepr.io m) n = ErrorRepr.io n
restate (ErrorRepr.parse m) n = ErrorRepr.parse n
restate (ErrorRepr.not_found m) n = ErrorRepr.not_found n
restate (ErrorRepr.invalid_argument m) n = ErrorRepr.invalid_argument n
restate (ErrorRepr.invalid_operation m) n = ErrorRepr.invalid_operation n
restate (ErrorRepr.verify r m) n = ErrorRepr.verify r n
restate (ErrorRepr.config r m) n = ErrorRepr.config r n

unfoldable pub with_message : Error → Message → Error
unfolding restate
with_message e m = record e { repr = restate e.repr m }

abbrev pub build_parse_error : Message → Error
build_parse_error m = from_repr (ErrorRepr.parse m)

abbrev pub build_verification_error : Rule → Message → Error
build_verification_error r m = from_repr (ErrorRepr.verify r m)

abbrev pub build_config_error : Message → Error
build_config_error m = from_repr (ErrorRepr.config none m)

abbrev pub build_crypto_error : Message → Error
build_crypto_error m = from_repr (ErrorRepr.crypto m)

abbrev pub build_not_found_error : Message → Error
build_not_found_error m = from_repr (ErrorRepr.not_found m)

abbrev pub build_invalid_argument_error : Message → Error
build_invalid_argument_error m = from_repr (ErrorRepr.invalid_argument m)

abbrev pub build_invalid_operation_error : Message → Error
build_invalid_operation_error m = from_repr (ErrorRepr.invalid_operation m)

unfoldable pub is_not_found : ErrorKind → Bool
is_not_found ErrorKind.not_found = true
is_not_found _ = false

unfoldable pub absent_as_none {ℓ} : {A : Type ℓ} → Result A → Result (Option A)
unfolding is_not_found kind
absent_as_none (ok value) = ok (some value)
absent_as_none (err e) = elim (is_not_found (kind e)) [ true ↦ ok none | false ↦ err e ]

infixl 5 ◌>>=◌
-- The `?` of the source.
abbrev pub ◌>>=◌ {ℓ κ} : {T : Type ℓ} {U : Type κ} → Result T → (T → Result U) → Result U
err failure >>= next = err failure
ok value >>= next = next value

-- `ok_or_else`
abbrev pub ok_or {ℓ} : {T : Type ℓ} → Option T → Error → Result T
ok_or none failure = err failure
ok_or (some value) failure = ok value

-- A check whose answer is only that it passed.
infixl 5 ◌>>◌
abbrev pub ◌>>◌ {κ} : {U : Type κ} → Result (Unit {0}) → Result U → Result U
check >> rest = check >>= λ _. rest

-- `if !test { return Err(e) }`
abbrev pub guard : Bool → Error → Result (Unit {0})
guard false failure = err failure
guard true failure = ok tt

-- `map(..).collect::<Result<Vec<_>>>()`
unfoldable pub collect {ℓ κ} : {A : Type ℓ} {B : Type κ} → (A → Result B) → List A → Result (List B)
collect f [] = ok []
collect f (x ∷ xs) = f x >>= λ first. collect f xs >>= λ rest. ok (first ∷ rest)

pub >>=-eq-ok {ℓ κ} :
    {T : Type ℓ} {U : Type κ} (m : Result T) (next : T → Result U) {out : U}
    → (m >>= next) ≡ ok out
    → (value : T) × (m ≡ ok value) × (next value ≡ ok out)
>>=-eq-ok (err failure) next h = cc
>>=-eq-ok (ok value) next h = (value, refl, h)

pub Result-cases {ℓ} :
    {A : Type ℓ} (r : Result A) → ((a : A) × (r ≡ ok a)) ⊎ ((e : Error) × (r ≡ err e))
Result-cases (ok a) = inl (a, refl)
Result-cases (err e) = inr (e, refl)
