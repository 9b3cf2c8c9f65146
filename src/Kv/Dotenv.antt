-- ===== src/Kv/Dotenv.antt =====
-- crates/kapsaro-core/src/format/kv/dotenv.rs: reading and strictly checking `KEY=VALUE` text.
-- A `SecretString` is its text, and the `HashMap` an association list.
pub mod Unescape
pub mod Strict
use kapsaro.Base.{
  ℕ, zero, suc, ◌+◌, ◌-◌, ◌≤◌, Bool, true, false, ◌&&◌, ◌||◌, not, List, [], ◌∷◌, ◌++◌, Option,
  none, some, ◌==◌, leb, if◌then◌else◌, length, all, is_empty, Text,
}
use kapsaro.Errors.{
  Error, Result, ok, err, ◌>>=◌, ◌>>◌, guard, build_parse_error, missing_separator,
  invalid_key_name, no_valid_entries, ok_or,
}
use kapsaro.Text.{
  codes, is_ascii_alphabetic, is_ascii_alphanumeric, text_eq, lines, strip_prefix, starts_with,
  ends_with, split_once, trim, replace, len, drop_last, Map, insert,
}

unfoldable pub is_valid_key_name : Text → Bool
is_valid_key_name [] = false
is_valid_key_name (first ∷ rest) =
    (is_ascii_alphabetic first || first == b'_')
    && all (λ c. is_ascii_alphanumeric c || c == b'_') rest

-- `value.starts_with(q) && value.ends_with(q) && value.len() >= 2`
abbrev pub is_quoted : ℕ → Text → Bool
is_quoted q value = starts_with q value && ends_with q value && leb 2 (len value)

-- `value[1..value.len() - 1]`
abbrev pub inner : Text → Text
inner [] = []
inner (c ∷ s) = drop_last s

-- The six replacements, in the order of the source; `\0` stands for a backslash in between.
unfoldable pub unescape_by_replacing : Text → Text
unescape_by_replacing s =
    let s1 = replace (b'\\' ∷ b'\\' ∷ []) (0 ∷ []) s in
    let s2 = replace (b'\\' ∷ b'n' ∷ []) (b'\n' ∷ []) s1 in
    let s3 = replace (b'\\' ∷ b'r' ∷ []) (b'\r' ∷ []) s2 in
    let s4 = replace (b'\\' ∷ b't' ∷ []) (b'\t' ∷ []) s3 in
    let s5 = replace (b'\\' ∷ b'"' ∷ []) (b'"' ∷ []) s4 in replace (0 ∷ []) (b'\\' ∷ []) s5

unfoldable pub parse_dotenv_value : Text → Text
unfolding unescape_by_replacing
parse_dotenv_value value =
    if is_quoted b'"' value
    then unescape_by_replacing (inner value)
    else if is_quoted b'\'' value
    then inner value
    else value

-- An empty line or a comment.
abbrev pub is_skipped : Text → Bool
is_skipped line = is_empty line || starts_with b'#' line

abbrev or_else : Option Text → Text → Text
or_else (some s) d = s
or_else none d = d

-- `line.strip_prefix("export ").unwrap_or(line).trim()`
unfoldable pub entry_text : Text → Text
entry_text line = trim (or_else (strip_prefix (codes "export ") line) line)

unfoldable pub insert_entry : Text × Text → Map Text → Map Text
insert_entry (before, after) map =
    let key = trim before in
    if is_valid_key_name key then insert key (parse_dotenv_value (trim after)) map else map

-- the body of the loop of `parse_dotenv`, on the trimmed line
unfoldable pub parse_dotenv_line : Text → Map Text → Map Text
parse_dotenv_line line map =
    if is_skipped line
    then map
    else elim (split_once b'=' (entry_text line)) [ none ↦ map | some e ↦ insert_entry e map ]

unfoldable pub parse_dotenv_lines : List Text → Map Text → Map Text
parse_dotenv_lines [] map = map
parse_dotenv_lines (line ∷ rest) map = parse_dotenv_lines rest (parse_dotenv_line (trim line) map)

unfoldable pub parse_dotenv : Text → Result (Map Text)
parse_dotenv content = ok (parse_dotenv_lines (lines content) [])

unfoldable pub validate_dotenv_line : Text → ℕ → Result Bool
validate_dotenv_line line line_number = if is_skipped line then ok false else do
  entry ←
      ok_or (split_once b'=' (entry_text line)) (build_parse_error (missing_separator line_number))
  let key = trim entry.0
  guard (is_valid_key_name key) (build_parse_error (invalid_key_name line_number key))
  ok true

unfoldable pub validate_dotenv_lines : List Text → ℕ → ℕ → Result ℕ
validate_dotenv_lines [] line_num entry_count = ok entry_count
validate_dotenv_lines (line ∷ rest) line_num entry_count = do
  entry ← validate_dotenv_line (trim line) (line_num + 1)
  validate_dotenv_lines rest (line_num + 1) (if entry then entry_count + 1 else entry_count)

unfoldable pub validate_dotenv_strict : Text → Result (Unit {0})
validate_dotenv_strict content = do
  entry_count ← validate_dotenv_lines (lines content) 0 0
  if entry_count == 0 then err (build_parse_error no_valid_entries) else ok tt
