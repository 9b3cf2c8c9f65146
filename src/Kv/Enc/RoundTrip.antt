-- ===== src/Kv/Enc/RoundTrip.antt =====
-- The writer, the parser and the signed text of format/kv/enc together.
use kapsaro.Base.{
  ℕ, ◌≤◌, Bool, true, false, ◌||◌, not, List, [], ◌∷◌, ◌++◌, ◌≡◌, ◌≢◌, ◌∙◌, refl, ap, sym, arith,
  ◌==◌, length, filter, all, Text, All, All-append,
}
use mathlib.Core.List.{append_assoc}
use kapsaro.Errors.{ok}
use kapsaro.Text.{
  codes, lines, IsLine, lines-append, split_once-append, strip_prefix, len, text_eq,
  is_ascii_alphanumeric,
}
use kapsaro.Kv.Line.{
  v1, parse_version, KvEncLine, header, head, wrap, kv, sig, empty, is_kv, is_sig,
}
use kapsaro.Kv.Enc.{
  header_line_v1, parse_line, parse_lines, parse_all, parse_control_line, build_canonical_bytes,
  canonical_line, build_unsigned_kv_document, write_entries, max_kv_enc_file_size, max_kv_key_lines,
  parse_token_lines, parse_token_control_line, parse_header_line, append_sig_line,
}
use kapsaro.Kv.Dotenv.{is_valid_key_name}

abbrev key_char : ℕ → Bool
key_char c = is_ascii_alphanumeric c || c == b'_'

-- A token of a control line: one line of text, and not empty.
abbrev pub IsToken : Text → Type 0
IsToken t = IsLine t × (t ≢ [])

abbrev pub IsEntry : Text × Text → Type 0
IsEntry (key, token) = (is_valid_key_name key ≡ true) × IsLine token

-- The lines of an unsigned document.
abbrev pub entry_lines : List (Text × Text) → List KvEncLine
entry_lines [] = []
entry_lines ((key, token) ∷ rest) = kv key token ∷ entry_lines rest

abbrev pub unsigned_lines : Text → Text → List (Text × Text) → List KvEncLine
unsigned_lines head_token wrap_token entries =
    header v1 ∷ head head_token ∷ wrap wrap_token ∷ entry_lines entries

write_entries-eq :
    (es : List (Text × Text)) → write_entries es ≡ build_canonical_bytes (entry_lines es)
unfolding write_entries build_canonical_bytes
write_entries-eq [] = refl
write_entries-eq ((k, t) ∷ es) = simp (append_assoc) (ground (arith, write_entries-eq es))

-- The writer's text is the canonical text of the lines that it writes.
pub unsigned-eq-canonical :
    (head_token wrap_token : Text) (entries : List (Text × Text))
    → build_unsigned_kv_document head_token wrap_token entries
      ≡ build_canonical_bytes (unsigned_lines head_token wrap_token entries)
unfolding build_unsigned_kv_document build_canonical_bytes
unsigned-eq-canonical h w es = simp (append_assoc, write_entries-eq)

-- A line that can be printed on one line of text.
abbrev pub IsWritten : KvEncLine → Type 0
IsWritten (header v) = Unit
IsWritten (head t) = IsToken t
IsWritten (wrap t) = IsToken t
IsWritten (kv k t) = IsEntry (k, t)
IsWritten (sig t) = IsToken t
IsWritten empty = ⊥

line_text : KvEncLine → Text
line_text (header v) = header_line_v1
line_text (head t) = codes ":HEAD " ++ t
line_text (wrap t) = codes ":WRAP " ++ t
line_text (kv k t) = k ++ (b' ' ∷ t)
line_text (sig t) = codes ":SIG " ++ t
line_text empty = []

render : List KvEncLine → Text
render [] = []
render (l ∷ ls) = line_text l ++ (b'\n' ∷ render ls)

IsLine-append : (s t : Text) → IsLine s → IsLine t → IsLine (s ++ t)
IsLine-append [] t h k = k
IsLine-append (c ∷ s) t h k = ground (arith, IsLine-append s t)

key-IsLine : (k : Text) → all key_char k ≡ true → IsLine k
key-IsLine [] h = refl
key-IsLine (c ∷ k) h = ground (arith, key-IsLine k)

key-no_space : (k : Text) → all key_char k ≡ true → all (λ c. not (c == b' ')) k ≡ true
key-no_space [] h = refl
key-no_space (c ∷ k) h = ground (arith, key-no_space k)

valid-key_char : (k : Text) → is_valid_key_name k ≡ true → all key_char k ≡ true
unfolding is_valid_key_name
valid-key_char [] h = refl
valid-key_char (c ∷ k) h = ground arith

line_text-IsLine : (l : KvEncLine) → IsWritten l → IsLine (line_text l)
unfolding line_text
line_text-IsLine (header v) w = refl
line_text-IsLine (head t) w = w.0
line_text-IsLine (wrap t) w = w.0
line_text-IsLine (sig t) w = w.0
line_text-IsLine (kv k t) w = IsLine-append k (b' ' ∷ t) (key-IsLine k (valid-key_char k w.0)) w.1
line_text-IsLine empty w = refl

parse_token :
    (build_line : Text → KvEncLine) (t line : Text)
    → t ≢ []
    → parse_token_control_line t line build_line ≡ ok (build_line t)
unfolding parse_token_control_line
parse_token b t line h = ground arith

-- a key is neither empty nor a comment nor a control line
parse_line-kv :
    (k t : Text) → is_valid_key_name k ≡ true → parse_line (k ++ (b' ' ∷ t)) ≡ ok (kv k t)
unfolding parse_line is_valid_key_name
parse_line-kv [] t h = cc
parse_line-kv (c ∷ k) t h =
    ground
      (arith, split_once-append b' ' (c ∷ k) t (key-no_space (c ∷ k) (valid-key_char (c ∷ k) h)))

parse_line-line_text : (l : KvEncLine) → IsWritten l → parse_line (line_text l) ≡ ok l
unfolding line_text parse_line parse_control_line parse_token_lines strip_prefix
parse_line-line_text (header v1) w = unfold parse_header_line parse_version text_eq in refl
parse_line-line_text (head t) w = parse_token head t _ w.1
parse_line-line_text (wrap t) w = parse_token wrap t _ w.1
parse_line-line_text (sig t) w = parse_token sig t _ w.1
parse_line-line_text (kv k t) w = parse_line-kv k t w.0
parse_line-line_text empty w = refl

parse_lines-render :
    (ls : List KvEncLine) → All IsWritten ls → parse_lines (lines (render ls)) ≡ ok ls
unfolding render parse_lines
parse_lines-render [] w = unfold lines in refl
parse_lines-render (l ∷ ls) w =
    rw (lines-append (line_text l) (render ls) (line_text-IsLine l w.0))
      (ground (arith, parse_line-line_text l w.0, parse_lines-render ls w.1))

canonical_line-line_text :
    (l : KvEncLine) → IsWritten l → is_sig l ≡ false → canonical_line l ≡ line_text l ++ b'\n' ∷ []
unfolding canonical_line line_text
canonical_line-line_text (header v1) w n = refl
canonical_line-line_text (head t) w n = refl
canonical_line-line_text (wrap t) w n = refl
canonical_line-line_text (kv k t) w n = simp append_assoc
canonical_line-line_text (sig t) w n = cc
canonical_line-line_text empty w n = absurd w

render-append-sig :
    (ls : List KvEncLine) (t : Text)
    → All (λ l. is_sig l ≡ false) ls
    → All IsWritten ls
    → render (ls ++ sig t ∷ []) ≡ append_sig_line (build_canonical_bytes ls) t
unfolding render append_sig_line build_canonical_bytes
render-append-sig [] t n w = unfold line_text in refl
render-append-sig (l ∷ ls) t n w =
    rw (canonical_line-line_text l w.0 n.0)
      (rw (render-append-sig ls t n.1 w.1) (simp append_assoc))

entry_lines-IsWritten : (es : List (Text × Text)) → All IsEntry es → All IsWritten (entry_lines es)
entry_lines-IsWritten [] h = tt
entry_lines-IsWritten ((k, t) ∷ es) h = (h.0, entry_lines-IsWritten es h.1)

entry_lines-not_sig : (es : List (Text × Text)) → All (λ l. is_sig l ≡ false) (entry_lines es)
entry_lines-not_sig [] = tt
entry_lines-not_sig ((k, t) ∷ es) = (refl, entry_lines-not_sig es)

count-entry_lines :
    (es : List (Text × Text)) (t : Text)
    → length (filter is_kv (entry_lines es ++ sig t ∷ [])) ≡ length es
count-entry_lines [] t = refl
count-entry_lines ((k, v) ∷ es) t = omega (arith, count-entry_lines es t)

canonical-append-sig :
    (ls : List KvEncLine) (t : Text)
    → build_canonical_bytes (ls ++ sig t ∷ []) ≡ build_canonical_bytes ls
unfolding build_canonical_bytes
canonical-append-sig [] t = refl
canonical-append-sig (l ∷ ls) t = ap (λ b. canonical_line l ++ b) (canonical-append-sig ls t)

parse_all-eq :
    (content : Text) (ls : List KvEncLine)
    → len content ≤ max_kv_enc_file_size
    → parse_lines (lines content) ≡ ok ls
    → length (filter is_kv ls) ≤ max_kv_key_lines
    → parse_all content ≡ ok ls
unfolding parse_all
parse_all-eq content ls small parsed few = ground arith

module _ (head_token wrap_token sig_token : Text) (entries : List (Text × Text))
    (head_ok : IsToken head_token) (wrap_ok : IsToken wrap_token) (sig_ok : IsToken sig_token)
    (entries_ok : All IsEntry entries) where
  abbrev pub signed : Text
  signed = append_sig_line (build_unsigned_kv_document head_token wrap_token entries) sig_token

  signed-render :
      signed ≡ render (unsigned_lines head_token wrap_token entries ++ sig sig_token ∷ [])
  signed-render = rw unsigned-eq-canonical (
      sym (
        render-append-sig _ sig_token (refl, (refl, (refl, entry_lines-not_sig entries)))
          (tt, (head_ok, (wrap_ok, entry_lines-IsWritten entries entries_ok)))))

  -- A signed document of encoded tokens, with valid key names and within the size and key limits,
  -- is parsed into its header, HEAD, WRAP, entry and SIG lines in that order, and the text that the
  -- verifier rebuilds from those lines is the text that was signed.
  pub parse_all-signed :
      len signed ≤ max_kv_enc_file_size
      → length entries ≤ max_kv_key_lines
      → (parse_all signed ≡ ok (unsigned_lines head_token wrap_token entries ++ sig sig_token ∷ []))
        × (build_canonical_bytes
              (unsigned_lines head_token wrap_token entries ++ sig sig_token ∷ [])
            ≡ build_unsigned_kv_document head_token wrap_token entries)
  parse_all-signed small few = (
    parse_all-eq signed _ small
        (rw signed-render (
          parse_lines-render (unsigned_lines head_token wrap_token entries ++ sig sig_token ∷ []) (
            tt,
            (
              head_ok,
              (
                wrap_ok,
                All-append IsWritten (entry_lines entries) (sig sig_token ∷ [])
                    (entry_lines-IsWritten entries entries_ok) (sig_ok, tt),
              ),
            ),
          )))
        (omega (arith, count-entry_lines entries sig_token)),
    canonical-append-sig (unsigned_lines head_token wrap_token entries) sig_token
        ∙ sym (unsigned-eq-canonical head_token wrap_token entries),
  )
