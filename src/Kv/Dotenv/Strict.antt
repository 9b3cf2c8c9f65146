-- ===== src/Kv/Dotenv/Strict.antt =====
-- Strict validation of format/kv/dotenv.rs beside its lenient parser.
use kapsaro.Base.{
  ℕ, ◌+◌, Bool, true, false, List, [], ◌∷◌, ◌≡◌, ◌≢◌, ◌⊎◌, inl, inr, refl, arith, none, some, Text,
  All, Bool-cases, Option-cases, if◌then◌else◌,
}
use kapsaro.Errors.{ok, >>=-eq-ok}
use kapsaro.Text.{Map, lookup, lookup-insert, text_eq_refl, split_once, trim, lines}
use kapsaro.Kv.Dotenv.{
  is_valid_key_name, is_skipped, entry_text, insert_entry, parse_dotenv_line, parse_dotenv_lines,
  parse_dotenv, parse_dotenv_value, validate_dotenv_line, validate_dotenv_lines,
  validate_dotenv_strict,
}

-- `map` holds a value for the valid key that the line declares.
pub record Declares (map : Map Text) (line : Text) : Type 0 where
  before : Text
  after : Text
  splits : split_once b'=' (entry_text line) ≡ some (before, after)
  valid : is_valid_key_name (trim before) ≡ true
  held : lookup (trim before) map ≢ none

-- The line is blank or a comment, or its entry is in `map`.
abbrev pub IsRead : Map Text → Text → Type 0
IsRead map line = (is_skipped (trim line) ≡ true) ⊎ Declares map (trim line)

insert_entry-keeps :
    (k : Text) (e : Text × Text) (map : Map Text)
    → lookup k map ≢ none
    → lookup k (insert_entry e map) ≢ none
unfolding insert_entry
insert_entry-keeps k e map h =
    ground (arith, lookup-insert (trim e.0) k (parse_dotenv_value (trim e.1)) map)

line-keeps :
    (k line : Text) (map : Map Text)
    → lookup k map ≢ none
    → lookup k (parse_dotenv_line line map) ≢ none
unfolding parse_dotenv_line
line-keeps k line map h = elim (Bool-cases (is_skipped line)) [
  | inl skip ↦ rw skip h
  | inr keep ↦ rw keep (elim (Option-cases (split_once b'=' (entry_text line))) [
    | inl (e, found) ↦ rw found (insert_entry-keeps k e map h)
    | inr absent ↦ rw absent h
  ])
]

lines-keeps :
    (k : Text) (ls : List Text) (map : Map Text)
    → lookup k map ≢ none
    → lookup k (parse_dotenv_lines ls map) ≢ none
unfolding parse_dotenv_lines
lines-keeps k [] map h = h
lines-keeps k (line ∷ ls) map h =
    lines-keeps k ls (parse_dotenv_line (trim line) map) (line-keeps k (trim line) map h)

-- A line with a separator passes only with a valid key, and the parser then holds that key.
module _ (line : Text) (e : Text × Text) (keep : is_skipped line ≡ false)
    (found : split_once b'=' (entry_text line) ≡ some e) where
  passes-valid :
      (n : ℕ) {counted : Bool}
      → validate_dotenv_line line n ≡ ok counted
      → is_valid_key_name (trim e.0) ≡ true
  unfolding validate_dotenv_line
  passes-valid n h = ground arith

  parse-insert_entry : (map : Map Text) → parse_dotenv_line line map ≡ insert_entry e map
  unfolding parse_dotenv_line
  parse-insert_entry map = rw keep (rw found)

  entry-held :
      (map : Map Text)
      → is_valid_key_name (trim e.0) ≡ true
      → lookup (trim e.0) (insert_entry e map) ≢ none
  unfolding insert_entry
  entry-held map v = ground (
    arith,
    lookup-insert (trim e.0) (trim e.0) (parse_dotenv_value (trim e.1)) map,
    text_eq_refl (trim e.0),
  )

-- A line without a separator does not pass.
not-passes :
    (line : Text) (n : ℕ) {counted : Bool}
    → is_skipped line ≡ false
    → split_once b'=' (entry_text line) ≡ none
    → validate_dotenv_line line n ≢ ok counted
unfolding validate_dotenv_line
not-passes line n keep absent h = ground arith

line-IsRead :
    (line : Text) (n : ℕ) (map : Map Text) {counted : Bool}
    → validate_dotenv_line line n ≡ ok counted
    → (is_skipped line ≡ true) ⊎ Declares (parse_dotenv_line line map) line
line-IsRead line n map h = elim (Bool-cases (is_skipped line)) [
  | inl skip ↦ inl skip
  | inr keep ↦ elim (Option-cases (split_once b'=' (entry_text line))) [
    | inl (e, found) ↦
        let v = passes-valid line e keep found n h in
        inr (record {
          before = e.0;
          after = e.1;
          splits = found;
          valid = v;
          held = rw (parse-insert_entry line e keep found map) (entry-held line e keep found map v);
        })
    | inr absent ↦ absurd (not-passes line n keep absent h)
  ]
]

Declares-lines :
    (ls : List Text) {map : Map Text} {line : Text}
    → Declares map line
    → Declares (parse_dotenv_lines ls map) line
Declares-lines ls {map} d = record {
  before = d.before;
  after = d.after;
  splits = d.splits;
  valid = d.valid;
  held = lines-keeps (trim d.before) ls map d.held;
}

lines-IsRead :
    (ls : List Text) (n c : ℕ) (map : Map Text) {count : ℕ}
    → validate_dotenv_lines ls n c ≡ ok count
    → All (IsRead (parse_dotenv_lines ls map)) ls
unfolding validate_dotenv_lines parse_dotenv_lines
lines-IsRead [] n c map h = tt
lines-IsRead (line ∷ ls) n c map h =
    let (counted, first, later) = >>=-eq-ok (validate_dotenv_line (trim line) (n + 1)) _ h in
    (
      elim (line-IsRead (trim line) (n + 1) map first) [
        | inl skip ↦ inl skip
        | inr d ↦ inr (Declares-lines ls d)
      ],
      lines-IsRead ls (n + 1) (if counted then c + 1 else c) (parse_dotenv_line (trim line) map)
          later,
    )

-- If strict validation accepts a text, then each of its lines is blank, a comment, or declares a
-- valid key that the lenient parser's map holds.
pub validate_dotenv_strict-IsRead :
    (content : Text)
    → validate_dotenv_strict content ≡ ok tt
    → (map : Map Text) × (parse_dotenv content ≡ ok map) × All (IsRead map) (lines content)
unfolding validate_dotenv_strict parse_dotenv
validate_dotenv_strict-IsRead content h =
    let (count, counted, _) = >>=-eq-ok (validate_dotenv_lines (lines content) 0 0) _ h in
    (parse_dotenv_lines (lines content) [], refl, lines-IsRead (lines content) 0 0 [] counted)
