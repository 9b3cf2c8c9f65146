-- ===== src/Kv/Structure/Exact.antt =====
-- The files that pass format/kv/document/structure.rs.
use kapsaro.Base.{
  ℕ, suc, ◌-◌, Bool, true, false, List, [], ◌∷◌, ◌++◌, some, length, get_elem?, is_empty, Text, ◌≡◌,
  ◌↔◌, ◌∙◌, refl, ap, arith, length-append,
}
use kapsaro.Errors.{ok, >>=-eq-ok}
use kapsaro.Text.{contains}
use kapsaro.Kv.Line.{
  KvEncVersion, KvEncLine, header, head, wrap, kv, sig, empty, is_header, is_head, is_wrap, is_sig,
  is_empty_line,
}
use kapsaro.Kv.Dotenv.{is_valid_key_name}
use kapsaro.Kv.Structure.{
  RequiredLine, required_header, required_head, required_wrap, required_sig, matches_at,
  validate_required_line, validate_kv_header_lines, no_data_after_sig, validate_no_data_after_sig,
  validate_keys_from, validate_kv_keys, logical_lines, validate_kv_file_structure,
}
use kapsaro.Kv.Structure.Shape.{
  entry_lines, count, required_sound, required_complete, IsPlaced, IsShaped, IsPlaced-shape,
}

-- The keys are valid, and none of them is in `seen` or repeated.
abbrev pub AreFresh : List Text → List (Text × Text) → Type 0
AreFresh seen [] = Unit
AreFresh seen ((key, token) ∷ rest) =
    (is_valid_key_name key ≡ true) × (contains seen key ≡ false) × AreFresh (key ∷ seen) rest

-- A kv-enc file: header, HEAD, WRAP, entries, SIG, with blank lines anywhere.
pub record IsKvFile (ls : List KvEncLine) : Type 0 where
  pub version : KvEncVersion
  pub head_token : Text
  pub wrap_token : Text
  pub sig_token : Text
  pub entries : List (Text × Text)
  pub shape :
      logical_lines ls
      ≡ header version
        ∷ head head_token
        ∷ wrap wrap_token
        ∷ (entry_lines entries ++ sig sig_token ∷ [])
  pub keys : AreFresh [] entries

headers_sound :
    (ls : List KvEncLine)
    → count is_empty_line ls ≡ 0
    → validate_kv_header_lines ls ≡ ok tt
    → IsPlaced ls
unfolding validate_kv_header_lines
headers_sound ls blank h =
    let (_, h1, r1) = >>=-eq-ok (validate_required_line ls required_header 0) _ h in
    let (_, h2, r2) = >>=-eq-ok (validate_required_line ls required_head 1) _ r1 in
    let (_, h3, h4) = >>=-eq-ok (validate_required_line ls required_wrap 2) _ r2 in
    let f1 = required_sound ls required_header 0 h1 in
    let f2 = required_sound ls required_head 1 h2 in
    let f3 = required_sound ls required_wrap 2 h3 in
    let f4 = required_sound ls required_sig (length ls - 1) h4 in
    record {
      no_blank = blank;
      one_header = f1.0;
      one_head = f2.0;
      one_wrap = f3.0;
      one_sig = f4.0;
      header_first = f1.1;
      head_second = f2.1;
      wrap_third = f3.1;
      sig_last = f4.1;
    }

headers_complete : (ls : List KvEncLine) → IsPlaced ls → validate_kv_header_lines ls ≡ ok tt
unfolding validate_kv_header_lines
headers_complete ls p = rw (required_complete ls required_header 0 p.one_header p.header_first) (
    rw (required_complete ls required_head 1 p.one_head p.head_second) (
      rw (required_complete ls required_wrap 2 p.one_wrap p.wrap_third)
        (required_complete ls required_sig (length ls - 1) p.one_sig p.sig_last)))

no_blank-logical_lines : (ls : List KvEncLine) → count is_empty_line (logical_lines ls) ≡ 0
no_blank-logical_lines [] = refl
no_blank-logical_lines (empty ∷ ls) = no_blank-logical_lines ls
no_blank-logical_lines (_ ∷ ls) = no_blank-logical_lines ls

-- Blank lines matter to neither loop.
no_data-logical_lines :
    (found : Bool) (ls : List KvEncLine)
    → no_data_after_sig found ls ≡ no_data_after_sig found (logical_lines ls)
unfolding no_data_after_sig
no_data-logical_lines found [] = refl
no_data-logical_lines found (sig t ∷ ls) = no_data-logical_lines true ls
no_data-logical_lines found (empty ∷ ls) = no_data-logical_lines found ls
no_data-logical_lines found (_ ∷ ls) = ground (arith, no_data-logical_lines found ls)

keys-logical_lines :
    (seen : List Text) (ls : List KvEncLine)
    → validate_keys_from seen ls ≡ validate_keys_from seen (logical_lines ls)
unfolding validate_keys_from
keys-logical_lines seen [] = refl
keys-logical_lines seen (kv k t ∷ ls) = ground (arith, keys-logical_lines (k ∷ seen) ls)
keys-logical_lines seen (empty ∷ ls) = keys-logical_lines seen ls
keys-logical_lines seen (_ ∷ ls) = keys-logical_lines seen ls

no_data-entry_lines :
    (es : List (Text × Text)) (t : Text)
    → no_data_after_sig false (entry_lines es ++ sig t ∷ []) ≡ ok tt
unfolding no_data_after_sig
no_data-entry_lines [] t = refl
no_data-entry_lines ((k, v) ∷ es) t = no_data-entry_lines es t

keys_sound :
    (seen : List Text) (es : List (Text × Text)) (t : Text)
    → validate_keys_from seen (entry_lines es ++ sig t ∷ []) ≡ ok tt
    → AreFresh seen es
unfolding validate_keys_from
keys_sound seen [] t h = tt
keys_sound seen ((k, v) ∷ es) t h =
    (ground arith, ground arith, keys_sound (k ∷ seen) es t (ground arith))

keys_complete :
    (seen : List Text) (es : List (Text × Text)) (t : Text)
    → AreFresh seen es
    → validate_keys_from seen (entry_lines es ++ sig t ∷ []) ≡ ok tt
unfolding validate_keys_from
keys_complete seen [] t h = refl
keys_complete seen ((k, v) ∷ es) t h = ground (arith, keys_complete (k ∷ seen) es t h.2)

count-entry_lines :
    (p : KvEncLine → Bool) (es : List (Text × Text)) (t : Text)
    → ((k v : Text) → p (kv k v) ≡ false)
    → count p (entry_lines es ++ sig t ∷ []) ≡ count p (sig t ∷ [])
count-entry_lines p [] t n = refl
count-entry_lines p ((k, v) ∷ es) t n = rw n (count-entry_lines p es t n)

last-elem : (ls : List KvEncLine) (x : KvEncLine) → get_elem? (ls ++ x ∷ []) (length ls) ≡ some x
last-elem [] x = refl
last-elem (y ∷ ls) x = last-elem ls x

matches_at-elem :
    (ls : List KvEncLine) (r : RequiredLine) (n : ℕ) (x : KvEncLine)
    → get_elem? ls n ≡ some x
    → matches_at ls r n ≡ r.matcher x
unfolding matches_at
matches_at-elem ls r n x e = rw (e, matches_at)

sig-last :
    (a b c : KvEncLine) (es : List (Text × Text)) (t : Text)
    → let ls = a ∷ b ∷ c ∷ (entry_lines es ++ sig t ∷ []) in
      matches_at ls required_sig (length ls - 1) ≡ true
sig-last a b c es t =
    let pre : List KvEncLine = a ∷ b ∷ c ∷ entry_lines es in
    let at : length (pre ++ sig t ∷ []) - 1 ≡ length pre =
      omega (arith, length-append pre (sig t ∷ [])) in
    matches_at-elem _ required_sig _ (sig t)
      (ap (λ n. get_elem? (pre ++ sig t ∷ []) n) at ∙ last-elem pre (sig t))

shape-IsPlaced : (ls : List KvEncLine) → IsShaped ls → IsPlaced ls
shape-IsPlaced ls (v, h, w, t, es, e) = rw e (record {
  no_blank = count-entry_lines is_empty_line es t (λ k v. refl);
  one_header = ap suc (count-entry_lines is_header es t (λ k v. refl));
  one_head = ap suc (count-entry_lines is_head es t (λ k v. refl));
  one_wrap = ap suc (count-entry_lines is_wrap es t (λ k v. refl));
  one_sig = count-entry_lines is_sig es t (λ k v. refl);
  header_first = unfold matches_at in refl;
  head_second = unfold matches_at in refl;
  wrap_third = unfold matches_at in refl;
  sig_last = sig-last (header v) (head h) (wrap w) es t;
})

structure-parts :
    (ls : List KvEncLine)
    → validate_kv_file_structure ls ≡ ok tt
    → (validate_kv_header_lines (logical_lines ls) ≡ ok tt)
      × (validate_no_data_after_sig ls ≡ ok tt)
      × (validate_kv_keys ls ≡ ok tt)
unfolding validate_kv_file_structure
structure-parts ls h = ground arith

structure_sound : (ls : List KvEncLine) → validate_kv_file_structure ls ≡ ok tt → IsKvFile ls
structure_sound ls h =
    let (headers, _, keyed) = structure-parts ls h in
    let (v, hd, w, t, es, e) =
      IsPlaced-shape _ (headers_sound _ (no_blank-logical_lines ls) headers) in
    record {
      version = v;
      head_token = hd;
      wrap_token = w;
      sig_token = t;
      entries = es;
      shape = e;
      keys = keys_sound [] es t (
          unfold validate_kv_keys validate_keys_from in
          (rw (keys-logical_lines [] ls, e) at keyed));
    }

structure-join :
    (ls : List KvEncLine)
    → is_empty (logical_lines ls) ≡ false
    → validate_kv_header_lines (logical_lines ls) ≡ ok tt
    → validate_no_data_after_sig ls ≡ ok tt
    → validate_kv_keys ls ≡ ok tt
    → validate_kv_file_structure ls ≡ ok tt
unfolding validate_kv_file_structure
structure-join ls a b c d = ground arith

no_data-kept : (ls : List KvEncLine) → IsKvFile ls → validate_no_data_after_sig ls ≡ ok tt
unfolding validate_no_data_after_sig no_data_after_sig
no_data-kept ls f =
    no_data-logical_lines false ls
    ∙ ap (no_data_after_sig false) f.shape
    ∙ no_data-entry_lines f.entries f.sig_token

keys-kept : (ls : List KvEncLine) → IsKvFile ls → validate_kv_keys ls ≡ ok tt
unfolding validate_kv_keys validate_keys_from
keys-kept ls f =
    keys-logical_lines [] ls
    ∙ ap (validate_keys_from []) f.shape
    ∙ keys_complete [] f.entries f.sig_token f.keys

structure_complete : (ls : List KvEncLine) → IsKvFile ls → validate_kv_file_structure ls ≡ ok tt
structure_complete ls f =
    structure-join ls (ap is_empty f.shape)
      (headers_complete (logical_lines ls)
        (shape-IsPlaced _ (f.version, f.head_token, f.wrap_token, f.sig_token, f.entries, f.shape)))
      (no_data-kept ls f) (keys-kept ls f)

-- The structure checks accept exactly the files whose lines, blank ones aside, are one header, HEAD,
-- WRAP, any number of entries and SIG, in this order, with valid keys that are all different.
pub validate_kv_file_structure_iff :
    (ls : List KvEncLine) → (validate_kv_file_structure ls ≡ ok tt) ↔ IsKvFile ls
validate_kv_file_structure_iff ls = (structure_sound ls, structure_complete ls)
