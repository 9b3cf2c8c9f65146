-- ===== src/Kv/Document/Entries.antt =====
-- The entries of a parsed kv-enc document (format/kv/document/parse.rs).
use kapsaro.Base.{
  true, false, List, [], ◌∷◌, ◌++◌, Option, none, some, ◌≡◌, ◌∙◌, refl, sym, ap, inl, inr, arith,
  Text, map, All, Bool-cases,
}
use mathlib.Core.List.{append_assoc, append-nil}
use kapsaro.Errors.{ok, >>=-eq-ok, ok_or}
use kapsaro.Text.{text_eq, text_eq_iff, text_eq_sym, contains}
use kapsaro.Model.KvEnc.{KvEncEntry, KvEncDocument}
use kapsaro.Kv.Line.{KvEncLine, header, head, wrap, kv, sig, empty}
use kapsaro.Kv.Enc.{parse_all, extract_kv_header_tokens}
use kapsaro.Kv.Structure.{validate_kv_file_structure, logical_lines}
use kapsaro.Kv.Structure.Shape.{entry_lines}
use kapsaro.Kv.Structure.Exact.{AreFresh, IsKvFile, validate_kv_file_structure_iff}
use kapsaro.Kv.Draft.Sorted.{keys}
use kapsaro.Kv.Draft.Edits.{AreEntries}
use kapsaro.Kv.Document.{
  TokenParsers, validate_entry_token, validate_tokens_from, validate_kv_tokens, parse_kv_document,
}

-- The keys and tokens of entries, in order.
abbrev pub entry_pairs : List KvEncEntry → List (Text × Text)
entry_pairs = map (λ (e : KvEncEntry). (e.key, e.token))

-- The keys and tokens of the KV lines of a file, in order.
abbrev pub kv_pairs : List KvEncLine → List (Text × Text)
kv_pairs [] = []
kv_pairs (kv key token ∷ ls) = (key, token) ∷ kv_pairs ls
kv_pairs (_ ∷ ls) = kv_pairs ls

fresh_unseen :
    (seen : List Text) (k : Text) (ps : List (Text × Text))
    → AreFresh seen ps
    → contains seen k ≡ true
    → contains (keys ps) k ≡ false
fresh_unseen seen k [] f h = refl
fresh_unseen seen k (p ∷ ps) f h = elim (Bool-cases (text_eq p.0 k)) [
  | inl same ↦
      let e = ap (contains seen) ((text_eq_iff p.0 k).0 same) in absurd (cc (sym f.1 ∙ (e ∙ h)))
  | inr other ↦ rw other (fresh_unseen (p.0 ∷ seen) k ps f.2 (ground arith))
]

fresh_entries : (seen : List Text) (ps : List (Text × Text)) → AreFresh seen ps → AreEntries ps
fresh_entries seen [] f = (tt, tt)
fresh_entries seen (p ∷ ps) f =
    let (d, v) = fresh_entries (p.0 ∷ seen) ps f.2 in
    ((fresh_unseen (p.0 ∷ seen) p.0 ps f.2 (ground (arith, text_eq_iff p.0 p.0)), d), (f.0, v))

abbrev pub Unseen : List Text → List (Text × Text) → Type 0
Unseen seen = All (λ p. contains seen p.0 ≡ false)

Unseen-add :
    (seen : List Text) (k : Text) (ps : List (Text × Text))
    → contains (keys ps) k ≡ false
    → Unseen seen ps
    → Unseen (k ∷ seen) ps
Unseen-add seen k [] n u = tt
Unseen-add seen k (p ∷ ps) n u =
    (ground (arith, text_eq_sym p.0 k), Unseen-add seen k ps (ground arith) u.1)

pub entries_fresh :
    (seen : List Text) (ps : List (Text × Text)) → AreEntries ps → Unseen seen ps → AreFresh seen ps
entries_fresh seen [] a u = tt
entries_fresh seen (p ∷ ps) a u =
    (a.1.0, u.0, entries_fresh (p.0 ∷ seen) ps (a.0.1, a.1.1) (Unseen-add seen p.0 ps a.0.0 u.1))

pub Unseen-nil : (ps : List (Text × Text)) → Unseen [] ps
Unseen-nil [] = tt
Unseen-nil (p ∷ ps) = (refl, Unseen-nil ps)

kv_pairs-logical : (ls : List KvEncLine) → kv_pairs (logical_lines ls) ≡ kv_pairs ls
kv_pairs-logical [] = refl
kv_pairs-logical (kv key token ∷ ls) = ap (λ r. (key, token) ∷ r) (kv_pairs-logical ls)
kv_pairs-logical (header v ∷ ls) = kv_pairs-logical ls
kv_pairs-logical (head t ∷ ls) = kv_pairs-logical ls
kv_pairs-logical (wrap t ∷ ls) = kv_pairs-logical ls
kv_pairs-logical (sig t ∷ ls) = kv_pairs-logical ls
kv_pairs-logical (empty ∷ ls) = kv_pairs-logical ls

pub kv_pairs-entry_lines :
    (ps : List (Text × Text)) (t : Text) → kv_pairs (entry_lines ps ++ sig t ∷ []) ≡ ps
kv_pairs-entry_lines [] t = refl
kv_pairs-entry_lines (p ∷ ps) t = ap (λ r. p ∷ r) (kv_pairs-entry_lines ps t)

pub logical-entry_lines :
    (ps : List (Text × Text)) (t : Text)
    → logical_lines (entry_lines ps ++ sig t ∷ []) ≡ entry_lines ps ++ sig t ∷ []
logical-entry_lines [] t = refl
logical-entry_lines (p ∷ ps) t = ap (λ r. kv p.0 p.1 ∷ r) (logical-entry_lines ps t)

module _ (p : TokenParsers) where
  entry_sound :
      (key token source : Text) (e : KvEncEntry)
      → validate_entry_token p key token source ≡ ok e
      → (e.key ≡ key) × (e.token ≡ token)
  unfolding validate_entry_token
  entry_sound key token source e h = ground arith

  pairs-append :
      (es fs : List KvEncEntry) → entry_pairs (es ++ fs) ≡ entry_pairs es ++ entry_pairs fs
  pairs-append [] fs = refl
  pairs-append (e ∷ es) fs = ap (λ r. (e.key, e.token) ∷ r) (pairs-append es fs)

  -- The collected entries are those of the KV lines, in order.
  tokens-pairs :
      (source : Text) (es : List KvEncEntry) (s : Option p.Signature) (ls : List KvEncLine)
      (out : List KvEncEntry × Option p.Signature)
      → validate_tokens_from p source es s ls ≡ ok out
      → entry_pairs out.0 ≡ entry_pairs es ++ kv_pairs ls
  unfolding validate_tokens_from
  tokens-pairs source es s [] out h =
      let e : es ≡ out.0 = ground arith in rw (← e) (sym (append-nil (entry_pairs es)))
  tokens-pairs source es s (wrap t ∷ ls) out h =
      let (_, _, r) = >>=-eq-ok (p.parse_kv_wrap_token t _) _ h in tokens-pairs source es s ls out r
  tokens-pairs source es s (kv k t ∷ ls) out h =
      let (e, made, r) = >>=-eq-ok (validate_entry_token p k t source) _ h in
      let (key, token) = entry_sound k t source e made in
      tokens-pairs source (es ++ e ∷ []) s ls out r
      ∙ (ap (λ l. l ++ kv_pairs ls) (pairs-append es (e ∷ []))
          ∙ (append_assoc (entry_pairs es) ((e.key, e.token) ∷ []) (kv_pairs ls)
              ∙ rw (key, token) refl))
  tokens-pairs source es s (sig t ∷ ls) out h =
      let (found, _, r) = >>=-eq-ok (p.parse_kv_signature_token t _) _ h in
      tokens-pairs source es (some found) ls out r
  tokens-pairs source es s (header v ∷ ls) out h = tokens-pairs source es s ls out h
  tokens-pairs source es s (head t ∷ ls) out h = tokens-pairs source es s ls out h
  tokens-pairs source es s (empty ∷ ls) out h = tokens-pairs source es s ls out h

  -- A parsed document holds the lines of its text, which are those of a kv-enc file, and its entries
  -- have the keys and tokens of the KV lines, in their order; the keys are valid and distinct.
  pub parse_kv_document-entries :
      (content source : Text) (doc : KvEncDocument p.Signature)
      → parse_kv_document p content source ≡ ok doc
      → (parse_all content ≡ ok doc.lines)
        × IsKvFile doc.lines
        × (entry_pairs doc.entries ≡ kv_pairs doc.lines)
        × AreEntries (entry_pairs doc.entries)
  unfolding parse_kv_document validate_kv_tokens
  parse_kv_document-entries content source doc h =
      let (ls, parsed, h1) = >>=-eq-ok (parse_all content) _ h in
      let (_, valid, h2) = >>=-eq-ok (validate_kv_file_structure ls) _ h1 in
      let (set, made, h3) = >>=-eq-ok (validate_kv_tokens p ls source) _ h2 in
      let (tokens, _, h4) = >>=-eq-ok (extract_kv_header_tokens ls) _ h3 in
      let (hd, _, h5) = >>=-eq-ok (p.parse_kv_head_token tokens.0 _) _ h4 in
      let (wr, _, h6) = >>=-eq-ok (p.parse_kv_wrap_token tokens.1 _) _ h5 in
      let (out, collected, k1) = >>=-eq-ok (validate_tokens_from p source [] none ls) _ made in
      let (s, _, k2) = >>=-eq-ok (ok_or out.1 _) _ k1 in
      let lines : ls ≡ doc.lines = ground arith in
      let entries : out.0 ≡ doc.entries = ground arith in
      let file : IsKvFile ls = (validate_kv_file_structure_iff ls).0 (rw valid refl) in
      let same : entry_pairs out.0 ≡ kv_pairs ls = tokens-pairs source [] none ls out collected in
      let listed : kv_pairs ls ≡ file.entries =
        sym (kv_pairs-logical ls)
        ∙ (ap kv_pairs file.shape ∙ kv_pairs-entry_lines file.entries file.sig_token) in
      rw (← lines, ← entries)
        (parsed, file, same, rw (same ∙ listed) (fresh_entries [] file.entries file.keys))
