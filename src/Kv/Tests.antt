-- ===== src/Kv/Tests.antt =====
-- Runs of format/kv, and the theorems on concrete inputs.
mod Drafts
use kapsaro.Base.{List, [], ◌∷◌, ◌++◌, ◌≡◌, refl, Text, All, arith, ◌≤◌}
use kapsaro.Errors.{ok}
use kapsaro.Text.{
  codes, Map, lines, lines_from, strip_cr, strip_prefix, split_once, trim, text_eq, len, replace,
  replace_from, drop_last,
}
use kapsaro.Kv.Line.{KvEncLine, header, head, wrap, kv, sig, empty, v1}
use kapsaro.Kv.Dotenv.{
  parse_dotenv_value, unescape_by_replacing, parse_dotenv, validate_dotenv_strict, entry_text,
  validate_dotenv_lines, validate_dotenv_line, is_valid_key_name,
}
use kapsaro.Kv.Dotenv.Unescape.{
  quoted, escape, unescape, parse_dotenv_value-double, parse_dotenv_value-escape,
  parse_dotenv_value-single,
}
use kapsaro.Kv.Dotenv.Strict.{IsRead, validate_dotenv_strict-IsRead}
use kapsaro.Kv.Enc.{
  parse_all, build_canonical_bytes, build_unsigned_kv_document, append_sig_line,
  max_kv_enc_file_size, write_entries,
}
use kapsaro.Kv.Enc.RoundTrip.{
  IsToken, IsEntry, unsigned_lines, unsigned-eq-canonical, parse_all-signed,
}
use kapsaro.Kv.Structure.{validate_kv_file_structure}
use kapsaro.Kv.Structure.Exact.{IsKvFile, validate_kv_file_structure_iff}

abbrev file : List KvEncLine
file =
    header v1
    ∷ empty
    ∷ head (codes "h")
    ∷ wrap (codes "w")
    ∷ kv (codes "KEY") (codes "t1")
    ∷ kv (codes "OTHER") (codes "t2")
    ∷ sig (codes "s")
    ∷ []

file-IsKvFile : IsKvFile file
unfolding is_valid_key_name text_eq
file-IsKvFile = record {
  version = v1;
  head_token = codes "h";
  wrap_token = codes "w";
  sig_token = codes "s";
  entries = (codes "KEY", codes "t1") ∷ (codes "OTHER", codes "t2") ∷ [];
  shape = refl;
  keys = (refl, refl, (refl, refl, tt));
}

validate_kv_file_structure_iff_example : validate_kv_file_structure file ≡ ok tt
validate_kv_file_structure_iff_example = (validate_kv_file_structure_iff file).1 file-IsKvFile

abbrev entries : List (Text × Text)
entries = (codes "KEY", codes "t1") ∷ (codes "OTHER", codes "t2") ∷ []

h-IsToken : IsToken (codes "h")
h-IsToken = (refl, λ e. cc)

entries-AreEntries : All IsEntry entries
unfolding is_valid_key_name
entries-AreEntries = ((refl, refl), ((refl, refl), tt))

signed_small :
    len (append_sig_line (build_unsigned_kv_document (codes "h") (codes "h") entries) (codes "h"))
    ≤ max_kv_enc_file_size
unfolding append_sig_line build_unsigned_kv_document write_entries
signed_small = omega arith

parse_all-signed_example :
    (parse_all
        (append_sig_line (build_unsigned_kv_document (codes "h") (codes "h") entries) (codes "h"))
      ≡ ok (unsigned_lines (codes "h") (codes "h") entries ++ sig (codes "h") ∷ []))
    × (build_canonical_bytes
          (unsigned_lines (codes "h") (codes "h") entries ++ sig (codes "h") ∷ [])
        ≡ build_unsigned_kv_document (codes "h") (codes "h") entries)
parse_all-signed_example =
    parse_all-signed (codes "h") (codes "h") (codes "h") entries h-IsToken h-IsToken h-IsToken
      entries-AreEntries signed_small (omega arith)

-- `"\n` as written in a file: a backslash and an n, not a newline
abbrev slash_n : Text
slash_n = b'\\' ∷ b'\\' ∷ b'n' ∷ []

slash_n_value : unescape slash_n ≡ b'\\' ∷ b'n' ∷ []
unfolding unescape
slash_n_value = refl

parse_dotenv_value-escape_example :
    parse_dotenv_value (quoted b'"' (escape (codes "a\nb\"c"))) ≡ codes "a\nb\"c"
parse_dotenv_value-escape_example = parse_dotenv_value-escape (codes "a\nb\"c") refl

-- A literal NUL in a double-quoted value becomes a backslash.
nul_value : parse_dotenv_value (quoted b'"' (0 ∷ [])) ≡ b'\\' ∷ []
unfolding parse_dotenv_value unescape_by_replacing replace replace_from drop_last
nul_value = refl

parse_dotenv_value-single_example : parse_dotenv_value (quoted b'\'' (codes "a\"b")) ≡ codes "a\"b"
parse_dotenv_value-single_example = parse_dotenv_value-single (codes "a\"b")

abbrev dotenv_text : Text
dotenv_text = codes "# note\nexport KEY=1\n\nOTHER = \"a b\"\n"

strict : validate_dotenv_strict dotenv_text ≡ ok tt
unfolding validate_dotenv_strict validate_dotenv_lines validate_dotenv_line lines lines_from
    strip_cr entry_text strip_prefix split_once is_valid_key_name trim
strict = refl

validate_dotenv_strict-IsRead_example :
    (map : Map Text) × (parse_dotenv dotenv_text ≡ ok map) × All (IsRead map) (lines dotenv_text)
validate_dotenv_strict-IsRead_example = validate_dotenv_strict-IsRead dotenv_text strict
