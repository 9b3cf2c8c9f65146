-- ===== src/Kv/Structure.antt =====
-- crates/kapsaro-core/src/format/kv/document/structure.rs: the order and number of the lines of a
-- kv-enc file, and its keys. The position that `enumerate` adds to a line is read by nothing.
pub mod Shape
pub mod Exact
use kapsaro.Base.{
  ℕ, zero, suc, ◌+◌, ◌-◌, Bool, true, false, not, List, [], ◌∷◌, Option, none, some, ◌==◌, ltb,
  if◌then◌else◌, length, filter, get_elem?, is_empty, Text, any,
}
use kapsaro.Errors.{
  Error, Result, ok, err, ◌>>=◌, ◌>>◌, guard, build_parse_error, build_verification_error, Rule,
  schema_invalid, duplicate_key, wrap_line_missing, wrap_line_position, sig_line_missing,
  empty_file, data_after_signature, missing_line, repeated_line, misplaced_line, invalid_key_format,
  repeated_key,
}
use kapsaro.Text.{codes, contains}
use kapsaro.Kv.Line.{
  KvEncLine, header, head, wrap, kv, sig, empty, is_header, is_head, is_wrap, is_sig, is_empty_line,
}
use kapsaro.Kv.Dotenv.{is_valid_key_name}

pub record RequiredLine : Type 0 where
  pub matcher : KvEncLine → Bool
  pub label : Text
  pub missing_rule : Rule
  pub position_rule : Rule

-- `leading_required_lines` and `required_sig_line`
abbrev pub required_header : RequiredLine
required_header = record {
  matcher = is_header;
  label = codes ":KAPSARO_KV";
  missing_rule = schema_invalid;
  position_rule = schema_invalid;
}

abbrev pub required_head : RequiredLine
required_head = record {
  matcher = is_head;
  label = codes ":HEAD";
  missing_rule = schema_invalid;
  position_rule = schema_invalid;
}

abbrev pub required_wrap : RequiredLine
required_wrap = record {
  matcher = is_wrap;
  label = codes ":WRAP";
  missing_rule = wrap_line_missing;
  position_rule = wrap_line_position;
}

abbrev pub required_sig : RequiredLine
required_sig = record {
  matcher = is_sig;
  label = codes ":SIG";
  missing_rule = sig_line_missing;
  position_rule = schema_invalid;
}

unfoldable pub validate_required_line_count : List KvEncLine → RequiredLine → Result (Unit {0})
validate_required_line_count logical required =
    let count = length (filter required.matcher logical) in
    if count == 0
    then err (build_verification_error required.missing_rule (missing_line required.label))
    else if ltb 1 count
    then err (build_verification_error schema_invalid (repeated_line required.label count))
    else ok tt

-- is the line at a position the required one?
unfoldable pub matches_at : List KvEncLine → RequiredLine → ℕ → Bool
matches_at logical required position = elim (get_elem? logical position) [
  | none ↦ false
  | some line ↦ required.matcher line
]

unfoldable pub validate_required_line : List KvEncLine → RequiredLine → ℕ → Result (Unit {0})
validate_required_line logical required position = do
  validate_required_line_count logical required
  guard (matches_at logical required position)
      (build_verification_error required.position_rule (misplaced_line required.label))

unfoldable pub validate_kv_header_lines : List KvEncLine → Result (Unit {0})
validate_kv_header_lines logical = do
  validate_required_line logical required_header 0
  validate_required_line logical required_head 1
  validate_required_line logical required_wrap 2
  validate_required_line logical required_sig (length logical - 1)

-- the loop of `validate_no_data_after_sig`
unfoldable pub no_data_after_sig : Bool → List KvEncLine → Result (Unit {0})
no_data_after_sig found_sig [] = ok tt
no_data_after_sig found_sig (sig token ∷ rest) = no_data_after_sig true rest
no_data_after_sig found_sig (empty ∷ rest) = no_data_after_sig found_sig rest
no_data_after_sig found_sig (_ ∷ rest) =
    let later = no_data_after_sig found_sig rest in
    if found_sig then err (build_verification_error schema_invalid data_after_signature) else later

unfoldable pub validate_no_data_after_sig : List KvEncLine → Result (Unit {0})
unfolding no_data_after_sig
validate_no_data_after_sig = no_data_after_sig false

-- the loop of `validate_kv_keys`
unfoldable pub validate_keys_from : List Text → List KvEncLine → Result (Unit {0})
validate_keys_from seen_keys [] = ok tt
validate_keys_from seen_keys (kv key token ∷ rest) = do
  guard (is_valid_key_name key) (build_verification_error schema_invalid (invalid_key_format key))
  guard (not (contains seen_keys key)) (build_verification_error duplicate_key (repeated_key key))
  validate_keys_from (key ∷ seen_keys) rest
validate_keys_from seen_keys (_ ∷ rest) = validate_keys_from seen_keys rest

unfoldable pub validate_kv_keys : List KvEncLine → Result (Unit {0})
unfolding validate_keys_from
validate_kv_keys = validate_keys_from []

abbrev pub logical_lines : List KvEncLine → List KvEncLine
logical_lines = filter (λ line. not (is_empty_line line))

unfoldable pub validate_kv_file_structure : List KvEncLine → Result (Unit {0})
validate_kv_file_structure ls =
    let logical = logical_lines ls in
    if is_empty logical
    then err (build_parse_error empty_file)
    else do validate_kv_header_lines logical; validate_no_data_after_sig ls; validate_kv_keys ls
