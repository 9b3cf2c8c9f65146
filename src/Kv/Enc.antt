-- ===== src/Kv/Enc.antt =====
-- crates/kapsaro-core/src/format/kv/enc: the line parser, the signed (canonical) text, and the writer.
-- The `&str` content is its code points; `len` counts its UTF-8 bytes.
pub mod RoundTrip
use kapsaro.Base.{
  ℕ, zero, suc, ◌+◌, ◌*◌, Bool, true, false, List, [], ◌∷◌, ◌++◌, Option, none, some, ◌==◌, ltb,
  if◌then◌else◌, length, filter, is_empty, Text, map,
}
use kapsaro.Errors.{
  Error, Result, ok, err, ◌>>=◌, ◌>>◌, guard, ok_or, build_parse_error, unknown_control_tag,
  unsupported_kv_version, empty_control_token, comment_line, invalid_line, file_too_large,
  too_many_keys, head_not_found, wrap_not_found,
}
use kapsaro.Text.{codes, lines, strip_prefix, starts_with, split_once, len}
use kapsaro.Kv.Line.{
  KvEncVersion, v1, parse_version, format_version, KvEncLine, header, head, wrap, kv, sig, empty,
  is_kv,
}

-- `HEADER_LINE_PREFIX` and `HEADER_LINE_V1`
abbrev pub header_line_prefix : Text
header_line_prefix = codes ":KAPSARO_KV "

abbrev pub header_line_v1 : Text
header_line_v1 = codes ":KAPSARO_KV 1"

-- `MAX_KV_ENC_FILE_SIZE` and `MAX_KV_KEY_LINES`
abbrev pub max_kv_enc_file_size : ℕ
max_kv_enc_file_size = 16 * 1024 * 1024

abbrev pub max_kv_key_lines : ℕ
max_kv_key_lines = 10_000

-- `TOKEN_CONTROL_LINES`
abbrev pub token_control_lines : List (Text × (Text → KvEncLine))
token_control_lines = (codes ":HEAD ", head) ∷ (codes ":WRAP ", wrap) ∷ (codes ":SIG ", sig) ∷ []

unfoldable pub parse_header_line : Text → Result KvEncLine
parse_header_line version_text = do
  version ←
      ok_or (parse_version version_text) (build_parse_error (unsupported_kv_version version_text))
  ok (header version)

unfoldable pub parse_token_control_line : Text → Text → (Text → KvEncLine) → Result KvEncLine
parse_token_control_line token line build_line =
    if is_empty token
    then err (build_parse_error (empty_control_token line))
    else ok (build_line token)

-- the loop over the table
unfoldable pub parse_token_lines : List (Text × (Text → KvEncLine)) → Text → Result KvEncLine
parse_token_lines [] line = err (build_parse_error (unknown_control_tag line))
parse_token_lines ((prefix, build_line) ∷ table) line = elim (strip_prefix prefix line) [
  | some token ↦ parse_token_control_line token line build_line
  | none ↦ parse_token_lines table line
]

unfoldable pub parse_control_line : Text → Result KvEncLine
parse_control_line line = elim (strip_prefix header_line_prefix line) [
  | some version_text ↦ parse_header_line version_text
  | none ↦ parse_token_lines token_control_lines line
]

unfoldable pub parse_line : Text → Result KvEncLine
parse_line line =
    if is_empty line
    then ok empty
    else if starts_with b'#' line
    then err (build_parse_error (comment_line line))
    else if starts_with b':' line
    then parse_control_line line
    else elim (split_once b' ' line) [
      | some e ↦ ok (kv e.0 e.1)
      | none ↦ err (build_parse_error (invalid_line line))
    ]

unfoldable pub parse_lines : List Text → Result (List KvEncLine)
parse_lines [] = ok []
parse_lines (line ∷ rest) = do first ← parse_line line; later ← parse_lines rest; ok (first ∷ later)

unfoldable pub parse_all : Text → Result (List KvEncLine)
parse_all content =
    if ltb max_kv_enc_file_size (len content)
    then err (build_parse_error (file_too_large (len content)))
    else do
      parsed ← parse_lines (lines content)
      let key_count = length (filter is_kv parsed)
      if ltb max_kv_key_lines key_count
          then err (build_parse_error (too_many_keys key_count))
          else ok parsed

-- one line of `build_canonical_bytes`
unfoldable pub canonical_line : KvEncLine → Text
canonical_line (header version) = header_line_prefix ++ (format_version version ++ b'\n' ∷ [])
canonical_line (head token) = codes ":HEAD " ++ (token ++ b'\n' ∷ [])
canonical_line (wrap token) = codes ":WRAP " ++ (token ++ b'\n' ∷ [])
canonical_line (kv key token) = key ++ (b' ' ∷ (token ++ b'\n' ∷ []))
canonical_line (sig token) = []
canonical_line empty = []

unfoldable pub build_canonical_bytes : List KvEncLine → Text
unfolding canonical_line
build_canonical_bytes [] = []
build_canonical_bytes (line ∷ rest) = canonical_line line ++ build_canonical_bytes rest

unfoldable pub find_head : List KvEncLine → Option Text
find_head [] = none
find_head (head token ∷ rest) = some token
find_head (_ ∷ rest) = find_head rest

unfoldable pub find_wrap : List KvEncLine → Option Text
find_wrap [] = none
find_wrap (wrap token ∷ rest) = some token
find_wrap (_ ∷ rest) = find_wrap rest

unfoldable pub extract_kv_header_tokens : List KvEncLine → Result (Text × Text)
unfolding find_head find_wrap
extract_kv_header_tokens ls = do
  head_token ← ok_or (find_head ls) (build_parse_error head_not_found)
  wrap_token ← ok_or (find_wrap ls) (build_parse_error wrap_not_found)
  ok (head_token, wrap_token)

unfoldable pub write_entries : List (Text × Text) → Text
write_entries [] = []
write_entries ((key, token) ∷ rest) = key ++ (b' ' ∷ (token ++ (b'\n' ∷ write_entries rest)))

-- enc/writer.rs
unfoldable pub build_unsigned_kv_document : Text → Text → List (Text × Text) → Text
unfolding write_entries
build_unsigned_kv_document head_token wrap_token entries =
    header_line_v1
    ++ (b'\n'
        ∷ (codes ":HEAD "
            ++ (head_token
                ++ (b'\n' ∷ (codes ":WRAP " ++ (wrap_token ++ (b'\n' ∷ write_entries entries)))))))

-- The text that `append_kv_signature` (feature/envelope/signature.rs) returns for an encoded
-- signature token.
unfoldable pub append_sig_line : Text → Text → Text
append_sig_line unsigned sig_token = unsigned ++ (codes ":SIG " ++ (sig_token ++ b'\n' ∷ []))
