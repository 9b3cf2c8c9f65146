-- ===== src/Kv/Tests/Drafts.antt =====
-- Runs of format/kv/document and feature/kv/mutate.rs, with ciphers that hide nothing.
use kapsaro.Base.{List, [], ◌∷◌, ◌++◌, ◌≡◌, refl, Text, true, false, none, if◌then◌else◌}
use kapsaro.Errors.{ok, collect}
use kapsaro.Text.{
  codes, text_eq, text_leb, Map, lookup, insert, lines, lines_from, strip_cr, strip_prefix,
  split_once, trim,
}
use kapsaro.Model.KvEnc.{KvHeader, KvWrap, KvEntryValue, KvEncDocument}
use kapsaro.Document.WrapSet.{validate_wrap_count}
use kapsaro.Rewrap.Wrap.{Bytes, build_wraps_for_recipients}
use kapsaro.Rewrap.Tests.{sealing, alice, member}
use kapsaro.Kv.Line.{KvEncLine, parse_version, header, head, wrap, kv, sig, v1}
use kapsaro.Kv.Dotenv.{is_valid_key_name}
use kapsaro.Kv.Structure.{
  validate_kv_file_structure, validate_kv_header_lines, validate_required_line,
  validate_required_line_count, matches_at, validate_no_data_after_sig, validate_kv_keys,
}
use kapsaro.Kv.Structure.Exact.{IsKvFile}
use kapsaro.Kv.Enc.{
  parse_all, parse_lines, parse_line, parse_control_line, parse_header_line, parse_token_lines,
  parse_token_control_line, extract_kv_header_tokens, build_unsigned_kv_document,
}
use kapsaro.Kv.Draft.{
  Codec, json_jcs, KvDocumentDraft, new_draft, set_entries, unset_entry, serialize_unsigned,
  from_document,
}
use kapsaro.Kv.Draft.Pairs.{pairs, token_of, override, set_entries-token_of, unset_entry-token_of}
use kapsaro.Kv.Draft.Edits.{AreEntries, Edits, Edits-AreEntries}
use kapsaro.Kv.Draft.Edits.Edit.{set, unset}
use kapsaro.Kv.Document.{TokenParsers, parse_kv_document}
use kapsaro.Kv.Document.Entries.{entry_pairs, kv_pairs, parse_kv_document-entries}
use kapsaro.Base.{arith, ◌≤◌, length, All}
use kapsaro.Text.{len, IsLine}
use kapsaro.Kv.Enc.{append_sig_line, max_kv_enc_file_size, max_kv_key_lines}
use kapsaro.Kv.Draft.Sorted.{HasDistinctKeys}
use kapsaro.Kv.Document.RoundTrip.{
  HasCodec, IsReadableEntry, IsReadableWrap, parse_kv_document-serialize_unsigned,
}
use kapsaro.Kv.Mutate.{
  KvCrypto, KvInputEntry, contains_key, build_entry_tokens, sign_unsigned, set_kv_existing_file,
  unset_kv_entry_with_recipients,
}
use kapsaro.Kv.Mutate.Effect.{
  set_kv_existing_file-IsRewritten, IsRewritten, unset_kv_entry-token_of,
}

abbrev head_data : KvHeader
head_data = record {
  sid = codes "s";
  alg = record { aead = codes "a" };
  created_at = codes "1";
  updated_at = codes "1";
}

abbrev wrap_data : KvWrap
wrap_data = record { wrap = []; removed_recipients = none }

abbrev value_data : Text → KvEntryValue
value_data ct = record { nonce = []; ct = ct; disclosed = false }

abbrev codec_ : Codec
codec_ = record {
  encode_header = λ codec h. ok (codes "h");
  encode_wrap = λ codec w. ok (codes "w");
  encode_value = λ codec v. ok v.ct;
  parse_kv_wrap_token = λ token. ok wrap_data;
}

-- A: t1, B: t2
abbrev draft : KvDocumentDraft
draft =
    new_draft head_data wrap_data json_jcs ((codes "A", codes "t1") ∷ (codes "B", codes "t2") ∷ [])

abbrev changes : Map Text
changes = (codes "B", codes "n2") ∷ (codes "C", codes "n3") ∷ []

changed :
    pairs (set_entries changes draft).entries
    ≡ (codes "A", codes "t1") ∷ (codes "B", codes "n2") ∷ (codes "C", codes "n3") ∷ []
unfolding set_entries text_eq lookup text_leb new_draft
changed = refl

set_entries-token_of_example :
    token_of (set_entries changes draft) (codes "B")
    ≡ override (lookup (codes "B") changes) (token_of draft (codes "B"))
set_entries-token_of_example = set_entries-token_of changes draft (codes "B")

unset_entry-token_of_example :
    token_of (unset_entry (codes "A") draft) (codes "A")
    ≡ (if text_eq (codes "A") (codes "A") then none else token_of draft (codes "A"))
unset_entry-token_of_example = unset_entry-token_of (codes "A") draft (codes "A")

changes-AreEntries : AreEntries changes
unfolding text_eq is_valid_key_name
changes-AreEntries = ((refl, (refl, tt)), (refl, (refl, tt)))

draft-AreEntries : AreEntries (pairs draft.entries)
unfolding text_eq is_valid_key_name new_draft
draft-AreEntries = ((refl, (refl, tt)), (refl, (refl, tt)))

Edits-AreEntries_example :
    AreEntries (pairs (unset_entry (codes "A") (set_entries changes draft)).entries)
Edits-AreEntries_example =
    Edits-AreEntries codec_ draft (unset_entry (codes "A") (set_entries changes draft))
      (Edits.next (set changes) (Edits.next (unset (codes "A")) Edits.here))
      (changes-AreEntries, (tt, tt)) draft-AreEntries

abbrev parsers : TokenParsers
parsers = record {
  Signature = Text;
  parse_kv_head_token = λ token source. ok head_data;
  parse_kv_wrap_token = λ token source. ok wrap_data;
  parse_kv_entry_token = λ token source. ok (value_data token);
  parse_kv_signature_token = λ token source. ok token;
}

abbrev stored_lines : List KvEncLine
stored_lines =
    header v1
    ∷ head (codes "h")
    ∷ wrap (codes "w")
    ∷ kv (codes "A") (codes "t1")
    ∷ kv (codes "B") (codes "t2")
    ∷ sig (codes "x")
    ∷ []

abbrev stored_document : KvEncDocument Text
stored_document = record {
  lines = stored_lines;
  head = head_data;
  wrap = wrap_data;
  wrap_token = codes "w";
  entries =
      record { key = codes "A"; token = codes "t1"; value = value_data (codes "t1") }
      ∷ record { key = codes "B"; token = codes "t2"; value = value_data (codes "t2") }
      ∷ [];
  signature = codes "x";
}

abbrev crypto : KvCrypto
crypto = record {
  Signature = Text;
  Schedule = Text;
  SigningContext = Unit {0};
  codec = codec_;
  sealing = sealing;
  verify_kv_content = λ text. ok stored_document;
  unwrap_master_key = λ doc. ok (codes "m");
  extract_schedule = λ key sid. ok key;
  encrypt_entry = λ key value schedule sid disclosed. ok (value_data (value ++ schedule));
  derive_mac_key = λ schedule. ok schedule;
  build_signing_context = ok tt;
  sign_kv_document = λ content key signing codec. ok content;
  now = ok (codes "2");
}

abbrev input : List KvInputEntry
input = record { key = codes "C"; value = codes "v" } ∷ []

abbrev set_text : Text
set_text =
    build_unsigned_kv_document (codes "h") (codes "w")
      ((codes "A", codes "t1") ∷ (codes "B", codes "t2") ∷ (codes "C", codes "vm") ∷ [])

set_run :
    set_kv_existing_file crypto none (codes "f") input (member alice (codes "1") ∷ []) ≡ ok set_text
unfolding set_kv_existing_file build_entry_tokens insert text_eq lookup text_leb
    build_wraps_for_recipients validate_wrap_count from_document set_entries serialize_unsigned
    collect
set_run = refl

set_kv_existing_file-IsRewritten_example :
    IsRewritten crypto none stored_document input (member alice (codes "1") ∷ []) set_text
set_kv_existing_file-IsRewritten_example =
    set_kv_existing_file-IsRewritten crypto none (codes "f") set_text input
      (member alice (codes "1") ∷ []) stored_document refl set_run

abbrev unset_text : Text
unset_text = build_unsigned_kv_document (codes "h") (codes "w") ((codes "B", codes "t2") ∷ [])

unset_run :
    unset_kv_entry_with_recipients crypto none
      (codes "f")
      (codes "A")
      (member alice (codes "1") ∷ [])
    ≡ ok unset_text
unfolding unset_kv_entry_with_recipients text_eq build_wraps_for_recipients validate_wrap_count
    from_document unset_entry serialize_unsigned collect
unset_run = refl

unset_kv_entry-token_of_example :
    (contains_key stored_lines (codes "A") ≡ true)
    × (master_key : Bytes) × (written : KvDocumentDraft) × ((k : Text)
        → token_of written k ≡ (
            if text_eq (codes "A") k then none else lookup k (entry_pairs stored_document.entries)))
    × (sign_unsigned crypto written master_key ≡ ok unset_text)
unset_kv_entry-token_of_example =
    unset_kv_entry-token_of crypto none (codes "f") unset_text (codes "A")
      (member alice (codes "1") ∷ []) stored_document refl unset_run

abbrev stored_text : Text
stored_text = codes ":KAPSARO_KV 1\n:HEAD h\n:WRAP w\nA t1\nB t2\n:SIG x\n"

stored_text-parse : parse_kv_document parsers stored_text (codes "f") ≡ ok stored_document
unfolding parse_kv_document parse_all lines lines_from strip_cr strip_prefix split_once trim text_eq
    validate_kv_file_structure is_valid_key_name parse_lines parse_line parse_control_line
    parse_header_line parse_version parse_token_lines parse_token_control_line
    validate_kv_header_lines validate_required_line validate_required_line_count matches_at
    validate_no_data_after_sig validate_kv_keys extract_kv_header_tokens
stored_text-parse = refl

parse_kv_document-entries_example :
    (parse_all stored_text ≡ ok stored_lines)
    × IsKvFile stored_lines
    × (entry_pairs stored_document.entries ≡ kv_pairs stored_lines)
    × AreEntries (entry_pairs stored_document.entries)
parse_kv_document-entries_example =
    parse_kv_document-entries parsers stored_text (codes "f") stored_document stored_text-parse

abbrev changed_draft : KvDocumentDraft
changed_draft = set_entries changes draft

changed_text :
    serialize_unsigned codec_ changed_draft
    ≡ ok (build_unsigned_kv_document (codes "h") (codes "w") (pairs changed_draft.entries))
unfolding serialize_unsigned new_draft set_entries
changed_text = refl

changed_draft-HasCodec : HasCodec codec_ parsers changed_draft
unfolding set_entries new_draft
changed_draft-HasCodec = record {
  header_token =
      λ t h. let e : codes "h" ≡ t = cc in rw (← e) ((refl, λ n. absurd cc), λ source. refl);
  wrap_token =
      λ t h. let e : codes "w" ≡ t = cc in rw (← e) ((refl, λ n. absurd cc), λ source. refl);
}

changed_draft-HasDistinctKeys : HasDistinctKeys (pairs changed_draft.entries)
unfolding set_entries text_eq lookup text_leb new_draft
changed_draft-HasDistinctKeys = (refl, (refl, (refl, tt)))

readable :
    (key token : Text)
    → is_valid_key_name key ≡ true
    → IsLine token
    → IsReadableEntry parsers (key, token)
readable key token k l = ((k, l), value_data token, λ source. refl)

changed_draft-readable : All (IsReadableEntry parsers) (pairs changed_draft.entries)
unfolding set_entries text_eq lookup text_leb new_draft is_valid_key_name
changed_draft-readable = (
  readable (codes "A") (codes "t1") refl refl,
  (readable (codes "B") (codes "n2") refl refl, (readable (codes "C") (codes "n3") refl refl, tt)),
)

abbrev written_text : Text
written_text = build_unsigned_kv_document (codes "h") (codes "w") (pairs changed_draft.entries)

written_size : len (append_sig_line written_text (codes "x")) ≤ max_kv_enc_file_size
unfolding build_unsigned_kv_document append_sig_line set_entries text_eq lookup text_leb new_draft
written_size = omega arith

written_entries : length (pairs changed_draft.entries) ≤ max_kv_key_lines
unfolding set_entries text_eq lookup text_leb new_draft
written_entries = omega arith

kept_wrap : IsReadableWrap parsers changed_draft.wrap.token changed_draft.wrap.data_
unfolding set_entries new_draft
kept_wrap = tt

parse_kv_document-serialize_unsigned_example :
    (doc : KvEncDocument Text) × (parse_kv_document parsers
        (append_sig_line written_text (codes "x"))
        (codes "f")
      ≡ ok doc)
    × (doc.head ≡ changed_draft.head)
    × (doc.wrap ≡ changed_draft.wrap.data_)
    × (entry_pairs doc.entries ≡ pairs changed_draft.entries)
parse_kv_document-serialize_unsigned_example =
    parse_kv_document-serialize_unsigned parsers codec_ changed_draft written_text (codes "x")
      (codes "f") changed_draft-HasCodec kept_wrap changed_draft-HasDistinctKeys
      changed_draft-readable ((refl, λ n. absurd cc), codes "x", λ source. refl) changed_text
      written_size written_entries
