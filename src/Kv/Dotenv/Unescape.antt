-- ===== src/Kv/Dotenv/Unescape.antt =====
-- The replacements in `parse_dotenv_value` (format/kv/dotenv.rs) beside one pass over the text.
use kapsaro.Base.{
  ℕ, true, false, not, [], ◌∷◌, ◌++◌, ◌≡◌, ◌≢◌, ◌∙◌, ap, refl, arith, ◌==◌, if◌then◌else◌, Text,
  all,
}
use kapsaro.Text.{replace, drop_last-append, ends_with-append, len-append}
use kapsaro.Kv.Dotenv.{unescape_by_replacing, parse_dotenv_value, is_quoted}

-- What an escape sequence `\c` stands for; any other pair is left as it is.
abbrev pub escape_of : ℕ → Text
escape_of c =
    if c == b'\\'
    then b'\\' ∷ []
    else if c == b'n'
    then b'\n' ∷ []
    else if c == b'r'
    then b'\r' ∷ []
    else if c == b't'
    then b'\t' ∷ []
    else if c == b'"'
    then b'"' ∷ []
    else b'\\' ∷ c ∷ []

-- One pass from left to right.
unfoldable pub unescape : Text → Text
unescape [] = []
unescape (c ∷ []) = c ∷ []
unescape (c ∷ d ∷ s) = elim (c == b'\\') [
  | true ↦ escape_of d ++ unescape s
  | false ↦ c ∷ unescape (d ∷ s)
]

-- no `\0` in the text
abbrev pub NoNul : Text → Type 0
NoNul s = all (λ c. not (c == 0)) s ≡ true

by_replacing-cons :
    (c : ℕ) (s : Text)
    → c ≢ b'\\'
    → c ≢ 0
    → unescape_by_replacing (c ∷ s) ≡ c ∷ unescape_by_replacing s
unfolding unescape_by_replacing replace
by_replacing-cons c s h k = ground arith

by_replacing-other :
    (c : ℕ) (s : Text)
    → c ≢ 0
    → unescape_by_replacing (b'\\' ∷ c ∷ s) ≡ escape_of c ++ unescape_by_replacing s
unfolding unescape_by_replacing replace
by_replacing-other c s k = ground arith

-- Without a `\0`, the chain of replacements is the one pass.
by_replacing-eq-unescape : (s : Text) → NoNul s → unescape_by_replacing s ≡ unescape s
unfolding unescape
by_replacing-eq-unescape [] h = unfold unescape_by_replacing replace in refl
by_replacing-eq-unescape (c ∷ []) h = unfold unescape_by_replacing replace in ground arith
by_replacing-eq-unescape (c ∷ d ∷ s) h = ground (
  arith,
  by_replacing-cons c (d ∷ s),
  by_replacing-other d s,
  by_replacing-eq-unescape s,
  by_replacing-eq-unescape (d ∷ s),
)

abbrev pub quoted : ℕ → Text → Text
quoted q s = q ∷ (s ++ q ∷ [])

quoted-is_quoted : (q : ℕ) (s : Text) → is_quoted q (quoted q s) ≡ true
quoted-is_quoted q s = ground (arith, ends_with-append q q s, len-append s (q ∷ []))

-- A double-quoted value without a `\0` is read as the text between its quotes, with the escape
-- sequences for a backslash, a newline, a return, a tab and a quote replaced in one pass from left
-- to right, and every other character kept.
pub parse_dotenv_value-double :
    (body : Text) → NoNul body → parse_dotenv_value (quoted b'"' body) ≡ unescape body
unfolding parse_dotenv_value
parse_dotenv_value-double body h =
    rw quoted-is_quoted (rw drop_last-append (by_replacing-eq-unescape body h))

-- An escaper for double quotes.
abbrev pub escape_char : ℕ → Text
escape_char c =
    if c == b'\\'
    then b'\\' ∷ b'\\' ∷ []
    else if c == b'\n'
    then b'\\' ∷ b'n' ∷ []
    else if c == b'\r'
    then b'\\' ∷ b'r' ∷ []
    else if c == b'\t'
    then b'\\' ∷ b't' ∷ []
    else if c == b'"'
    then b'\\' ∷ b'"' ∷ []
    else c ∷ []

unfoldable pub escape : Text → Text
escape [] = []
escape (c ∷ s) = escape_char c ++ escape s

NoNul-escape : (s : Text) → NoNul s → NoNul (escape s)
unfolding escape
NoNul-escape [] h = refl
NoNul-escape (c ∷ s) h = ground (arith, NoNul-escape s)

unescape-plain : (c : ℕ) (s : Text) → c ≢ b'\\' → unescape (c ∷ s) ≡ c ∷ unescape s
unfolding unescape
unescape-plain c [] h = refl
unescape-plain c (d ∷ s) h = ground arith

unescape-escape_char : (c : ℕ) (s : Text) → unescape (escape_char c ++ s) ≡ c ∷ unescape s
unfolding unescape
unescape-escape_char c s = ground (arith, unescape-plain c s)

unescape-escape : (s : Text) → unescape (escape s) ≡ s
unfolding escape
unescape-escape [] = unfold unescape in refl
unescape-escape (c ∷ s) = unescape-escape_char c (escape s) ∙ ap (λ t. c ∷ t) (unescape-escape s)

-- Every text without a `\0` comes back from its escaped and double-quoted form.
pub parse_dotenv_value-escape :
    (s : Text) → NoNul s → parse_dotenv_value (quoted b'"' (escape s)) ≡ s
parse_dotenv_value-escape s h =
    parse_dotenv_value-double (escape s) (NoNul-escape s h) ∙ unescape-escape s

-- A single-quoted value is read as the text between its quotes, whatever it holds.
pub parse_dotenv_value-single : (body : Text) → parse_dotenv_value (quoted b'\'' body) ≡ body
unfolding parse_dotenv_value
parse_dotenv_value-single body = rw quoted-is_quoted (rw drop_last-append refl)
