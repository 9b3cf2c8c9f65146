-- ===== src/Identity/Names.antt =====
-- GitHub logins and kv file names: crates/kapsaro-core/src/support/validation.rs.
use kapsaro.Base.{
  ℕ, ◌+◌, ◌-◌, ◌≤◌, Bool, true, false, not, ◌&&◌, ◌||◌, [], ◌∷◌, ◌≡◌, ◌≢◌, ◌↔◌, refl, arith, ◌==◌,
  ltb, if◌then◌else◌, all, length, is_empty, Text,
}
use kapsaro.Errors.{
  Result, ok, err, ◌>>◌, guard, build_invalid_argument_error, login_empty, login_too_long,
  login_first, login_last, login_hyphens, login_character, name_empty, name_hidden, name_byte,
  name_too_long,
}
use kapsaro.Text.{is_ascii_alphanumeric, len, starts_with, within}

abbrev pub max_github_login_length : ℕ
max_github_login_length = 39

unfoldable pub ensure_github_login_length : Text → Result (Unit {0})
ensure_github_login_length login =
    if is_empty login
    then err (build_invalid_argument_error login_empty)
    else if ltb max_github_login_length (len login)
    then err (build_invalid_argument_error login_too_long)
    else ok tt

-- `bytes[0]`; a character that is not ASCII has no alphanumeric byte
abbrev pub first_alphanumeric : Text → Bool
first_alphanumeric [] = false
first_alphanumeric (c ∷ s) = is_ascii_alphanumeric c

-- `bytes[bytes.len() - 1]`
abbrev pub last_alphanumeric : Text → Bool
last_alphanumeric [] = false
last_alphanumeric (c ∷ []) = is_ascii_alphanumeric c
last_alphanumeric (c ∷ d ∷ s) = last_alphanumeric (d ∷ s)

unfoldable pub ensure_github_login_boundaries : Text → Result (Unit {0})
ensure_github_login_boundaries login = do
  guard (first_alphanumeric login) (build_invalid_argument_error login_first)
  guard (last_alphanumeric login) (build_invalid_argument_error login_last)

-- the loop, with `previous_hyphen`
unfoldable pub login_characters : Bool → Text → Result (Unit {0})
login_characters previous_hyphen [] = ok tt
login_characters previous_hyphen (byte ∷ rest) =
    if byte == b'-'
    then elim previous_hyphen [
      | true ↦ err (build_invalid_argument_error login_hyphens)
      | false ↦ login_characters true rest
    ]
    else elim (is_ascii_alphanumeric byte) [
      | false ↦ err (build_invalid_argument_error login_character)
      | true ↦ login_characters false rest
    ]

unfoldable pub validate_github_login : Text → Result (Unit {0})
validate_github_login login = do
  ensure_github_login_length login
  ensure_github_login_boundaries login
  login_characters false login

-- no hyphen stands behind a hyphen
abbrev pub hyphens_apart : Bool → Text → Bool
hyphens_apart previous [] = true
hyphens_apart previous (c ∷ s) = not (previous && c == b'-') && hyphens_apart (c == b'-') s

abbrev pub is_login_char : ℕ → Bool
is_login_char c = is_ascii_alphanumeric c || c == b'-'

pub record IsLogin (login : Text) : Type 0 where
  pub size : length login ≤ max_github_login_length
  pub first : first_alphanumeric login ≡ true
  pub last : last_alphanumeric login ≡ true
  pub letters : all is_login_char login ≡ true
  pub apart : hyphens_apart false login ≡ true

characters_sound :
    (b : Bool) (s : Text)
    → login_characters b s ≡ ok tt
    → (all is_login_char s ≡ true) × (hyphens_apart b s ≡ true)
unfolding login_characters
characters_sound b [] h = (refl, refl)
characters_sound b (c ∷ s) h = ground (arith, characters_sound true s, characters_sound false s)

characters_complete :
    (b : Bool) (s : Text)
    → all is_login_char s ≡ true
    → hyphens_apart b s ≡ true
    → login_characters b s ≡ ok tt
unfolding login_characters
characters_complete b [] h k = refl
characters_complete b (c ∷ s) h k =
    ground (arith, characters_complete true s, characters_complete false s)

len-login : (s : Text) → all is_login_char s ≡ true → len s ≡ length s
len-login [] h = refl
len-login (c ∷ s) h = ground (arith, len-login s)

IsLogin-sound : (login : Text) → validate_github_login login ≡ ok tt → IsLogin login
unfolding validate_github_login ensure_github_login_length ensure_github_login_boundaries
IsLogin-sound login h =
    let chars : login_characters false login ≡ ok tt = ground arith in
    let (letters, apart) = characters_sound false login chars in
    record {
      size = ground (arith, len-login login letters);
      first = ground arith;
      last = ground arith;
      letters = letters;
      apart = apart;
    }

login_complete : (login : Text) → IsLogin login → validate_github_login login ≡ ok tt
unfolding validate_github_login ensure_github_login_length ensure_github_login_boundaries
login_complete [] l = cc l.first
login_complete (c ∷ s) l =
    ground (arith, len-login (c ∷ s) l.letters, characters_complete false (c ∷ s) l.letters l.apart)

-- A login is accepted exactly when it is 1 to 39 letters, digits and hyphens, starts and ends with a
-- letter or digit, and has no two hyphens in a row.
pub validate_github_login_iff :
    (login : Text) → (validate_github_login login ≡ ok tt) ↔ IsLogin login
validate_github_login_iff login = (IsLogin-sound login, login_complete login)

-- `MAX_FILE_NAME_LENGTH`, `ATOMIC_WRITE_TEMP_NAME_OVERHEAD` and `KV_ENC_EXTENSION_LENGTH`
abbrev pub max_file_name_length : ℕ
max_file_name_length = 255

abbrev pub atomic_write_temp_name_overhead : ℕ
atomic_write_temp_name_overhead = 1 + 5 + 36

abbrev pub max_atomic_write_target_name_length : ℕ
max_atomic_write_target_name_length = max_file_name_length - atomic_write_temp_name_overhead

abbrev pub kv_enc_extension_length : ℕ
kv_enc_extension_length = 6

unfoldable pub ensure_kv_basename_is_a_plain_name : Text → Result (Unit {0})
ensure_kv_basename_is_a_plain_name name =
    if is_empty name
    then err (build_invalid_argument_error name_empty)
    else if starts_with b'.' name
    then err (build_invalid_argument_error name_hidden)
    else ok tt

-- A character that is not ASCII has only bytes above 0x7E.
abbrev pub is_refused_byte : ℕ → Bool
is_refused_byte b = b == b'/' || b == b'\\' || b == 0 || not (within 0x20 0x7E b)

unfoldable pub ensure_kv_basename_bytes : Text → Result (Unit {0})
ensure_kv_basename_bytes name =
    if all (λ b. not (is_refused_byte b)) name
    then ok tt
    else err (build_invalid_argument_error name_byte)

unfoldable pub ensure_kv_basename_length : Text → Result (Unit {0})
ensure_kv_basename_length name =
    if ltb (max_atomic_write_target_name_length - kv_enc_extension_length) (len name)
    then err (build_invalid_argument_error name_too_long)
    else ok tt

unfoldable pub validate_kv_file_basename : Text → Result (Unit {0})
unfolding ensure_kv_basename_is_a_plain_name ensure_kv_basename_bytes ensure_kv_basename_length
validate_kv_file_basename name = do
  ensure_kv_basename_is_a_plain_name name
  ensure_kv_basename_bytes name
  ensure_kv_basename_length name

pub record IsBasename (name : Text) : Type 0 where
  pub nonempty : name ≢ []
  pub not_hidden : starts_with b'.' name ≡ false
  pub one_entry : all (λ c. not (c == b'/') && not (c == b'\\')) name ≡ true
  pub staged_fits : 1 + (len name + kv_enc_extension_length) + 5 + 36 ≤ max_file_name_length

no_slash :
    (name : Text)
    → all (λ b. not (is_refused_byte b)) name ≡ true
    → all (λ c. not (c == b'/') && not (c == b'\\')) name ≡ true
no_slash [] h = refl
no_slash (c ∷ s) h = ground (arith, no_slash s)

-- An accepted file name is not empty or hidden, holds no path separator, and the staging name
-- `.{name}.kvenc.tmp.{uuid}` of its atomic write fits a directory entry of 255 bytes.
pub validate_kv_file_basename-IsBasename :
    (name : Text) → validate_kv_file_basename name ≡ ok tt → IsBasename name
unfolding validate_kv_file_basename
validate_kv_file_basename-IsBasename name h = record {
  nonempty = ground arith;
  not_hidden = ground arith;
  one_entry = no_slash name (ground arith);
  staged_fits = ground arith;
}
