-- ===== src/Document/JsonLimits.antt =====
-- crates/kapsaro-core/src/support/json_limits.rs: the scan of JSON bytes before they are parsed. A
-- `usize` count cannot overflow, since it grows by at most one for each byte of the input.
pub mod Scan
use kapsaro.Base.{
  ℕ, suc, ◌+◌, ◌-◌, ◌*◌, Bool, true, false, ◌||◌, List, [], ◌∷◌, ◌==◌, ltb, if◌then◌else◌, Text,
}
use kapsaro.Errors.{Error, Result, ok, err, ◌>>=◌, build_parse_error, json_depth, json_elements}

abbrev pub max_json_depth : ℕ
max_json_depth = 32

-- `MAX_WRAP_ITEMS * JSON_ELEMENTS_PER_WRAP_ITEM + JSON_ELEMENTS_DOCUMENT_OVERHEAD`
abbrev pub max_json_elements : ℕ
max_json_elements = 1000 * 11 + 2000

pub record JsonScanState : Type 0 where
  pub depth : ℕ
  pub max_depth : ℕ
  pub elements : ℕ
  pub in_string : Bool
  pub escape : Bool

abbrev pub initial : JsonScanState
initial = record { depth = 0; max_depth = 0; elements = 0; in_string = false; escape = false }

unfoldable pub enforce_element_limit : JsonScanState → Result JsonScanState
enforce_element_limit st =
    if ltb max_json_elements st.elements
    then err (build_parse_error (json_elements st.elements))
    else ok st

unfoldable pub open_container : JsonScanState → Result JsonScanState
open_container st =
    let depth = suc st.depth in
    let deepest = if ltb st.max_depth depth then depth else st.max_depth in
    if ltb max_json_depth deepest
    then err (build_parse_error (json_depth deepest))
    else ok (record st { depth = depth; max_depth = deepest; elements = suc st.elements })

unfoldable pub consume_in_string : JsonScanState → ℕ → JsonScanState
consume_in_string st byte =
    if byte == b'\\'
    then record st { escape = true }
    else if byte == b'"'
    then record st { in_string = false }
    else st

-- The state that a byte leaves; the result is an error where the source returns one.
unfoldable pub consume : JsonScanState → ℕ → Result JsonScanState
consume st byte =
    if st.escape
    then ok (record st { escape = false })
    else if st.in_string
    then ok (consume_in_string st byte)
    else if byte == b'"'
    then enforce_element_limit (record st { in_string = true })
    else if byte == b'{' || byte == b'['
    then open_container st >>= enforce_element_limit
    else if byte == b'}' || byte == b']'
    then enforce_element_limit (record st { depth = st.depth - 1 })
    else if byte == b':' || byte == b','
    then enforce_element_limit (record st { elements = suc st.elements })
    else enforce_element_limit st

unfoldable pub consume_all : JsonScanState → Text → Result (Unit {0})
consume_all st [] = ok tt
consume_all st (byte ∷ input) = consume st byte >>= λ next. consume_all next input

unfoldable pub validate_json_limits : Text → Result (Unit {0})
validate_json_limits input = consume_all initial input
