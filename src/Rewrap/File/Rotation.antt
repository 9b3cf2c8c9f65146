-- ===== src/Rewrap/File/Rotation.antt =====
-- The content key of a rewrapped file (feature/rewrap/file.rs): once it is a new one, every wrapped key
-- holds it.
use kapsaro.Base.{
  not, ◌+◌, none, List, [], ◌∷◌, ◌++◌, ◌≡◌, ◌∙◌, ap, inl, inr, arith, Text, filter, All, All_imp,
  All-filter, All-append, Bool-cases, length,
}
use kapsaro.Errors.{Result, ok, >>=-eq-ok, collect}
use kapsaro.Text.{contains}
use kapsaro.Model.PublicKey.{PublicKey}
use kapsaro.Model.FileEnc.{FileEncDocumentProtected, recipients}
use kapsaro.Document.WrapSet.{WrapItem, validate_wrap_count}
use kapsaro.Rewrap.Wrap.{Bytes, build_wrap_item}
use kapsaro.Rewrap.Recipient.{
  resolve_snapshot_verified_recipients, resolve_new_snapshot_recipients, build_new_wrap_items,
  replace_recipient_wrap_items,
}
use kapsaro.Rewrap.File.{
  FileCrypto, FileRewrapExecutor, FileContentKeyState, rotated, as_ref, is_rotated,
  ensure_content_key, add_file_recipients, rewrite_file_recipient_wraps, rotate_file_key,
  remove_file_recipients, add_recipients, rewrite_recipient_wraps, remove_recipients, rotate_key,
  clear_disclosure_history,
}
use kapsaro.Rewrap.File.Removal.{remove-All}
use kapsaro.Rewrap.File.Laws.{rotate_file_key_sound}

collect_All {ℓ κ} :
    {A : Type ℓ} {B : Type κ} (f : A → Result B) (xs : List A) (ys : List B)
    → collect f xs ≡ ok ys
    → All (λ y. (x : A) × (f x ≡ ok y)) ys
unfolding collect
collect_All f [] ys h = let e : ys ≡ [] = ground arith in rw e tt
collect_All f (x ∷ xs) ys h =
    let (y, first, h') = >>=-eq-ok (f x) _ h in
    let (rest, later, h'') = >>=-eq-ok (collect f xs) _ h' in
    let e : ys ≡ y ∷ rest = ground arith in rw e ((x, first), collect_All f xs rest later)

module _ (c : FileCrypto) (member_handle : Text) (members : List PublicKey) where
  -- The wrapped key was built for some member from this content key.
  abbrev pub IsSealed : Text → Bytes → WrapItem → Type 0
  IsSealed sid key w = (m : PublicKey) × (build_wrap_item c.sealing m sid key ≡ ok w)

  add_file-IsSealed :
      (old new : FileEncDocumentProtected) (key : Bytes) (rs : List Text)
      → add_file_recipients c old key rs members ≡ ok new
      → (new.sid ≡ old.sid)
        × (All (IsSealed old.sid key) old.wrap → All (IsSealed old.sid key) new.wrap)
  unfolding add_file_recipients build_new_wrap_items
  add_file-IsSealed old new key rs h =
      let build : PublicKey → Result WrapItem = λ m. build_wrap_item c.sealing m old.sid key in
      let (items, built, h1) =
        >>=-eq-ok (build_new_wrap_items build (recipients old) (length old.wrap) rs members) _ h in
      let (attested, _, h2) =
        >>=-eq-ok (resolve_new_snapshot_recipients members rs (recipients old)) _ built in
      let (_, _, h3) = >>=-eq-ok (validate_wrap_count (length old.wrap + length attested)) _ h2 in
      let wrap : old.wrap ++ items ≡ new.wrap = ground arith in
      (
        ground arith,
        λ held. rw (← wrap) (
            All-append (IsSealed old.sid key) old.wrap items held
              (collect_All build attested items h3)),
      )

  rewrite_file-IsSealed :
      (old new : FileEncDocumentProtected) (key : Bytes) (rs : List Text)
      → rewrite_file_recipient_wraps c old key rs members ≡ ok new
      → (new.sid ≡ old.sid)
        × (All (IsSealed old.sid key) old.wrap → All (IsSealed old.sid key) new.wrap)
  unfolding rewrite_file_recipient_wraps replace_recipient_wrap_items
  rewrite_file-IsSealed old new key rs h =
      let build : PublicKey → Result WrapItem = λ m. build_wrap_item c.sealing m old.sid key in
      let (ws, replaced, h1) =
        >>=-eq-ok (replace_recipient_wrap_items build old.wrap rs members) _ h in
      let (ms, _, h2) = >>=-eq-ok (resolve_snapshot_verified_recipients members rs) _ replaced in
      let (pushed, built, h3) = >>=-eq-ok (collect build ms) _ h2 in
      let kept = filter (λ w. not (contains rs w.recipient_handle)) old.wrap in
      let wrap : kept ++ pushed ≡ new.wrap = ground arith in
      (
        ground arith,
        λ held. rw (← wrap) (
            All-append (IsSealed old.sid key) kept pushed
              (All-filter _ (IsSealed old.sid key) old.wrap (All_imp old.wrap (λ w p _. p) held))
              (collect_All build ms pushed built)),
      )

  -- A new content key is the one that was generated, and all wrapped keys hold it.
  abbrev pub HoldsNewKey : FileRewrapExecutor c → Type 0
  HoldsNewKey e =
      (key : Bytes)
      → e.content_key ≡ rotated key
      → (c.generate_key ≡ ok key) × All (IsSealed e.protected.sid key) e.protected.wrap

  ensure_rotated :
      (e loaded : FileRewrapExecutor c) (key : Bytes)
      → ensure_content_key c member_handle members e ≡ ok loaded
      → loaded.content_key ≡ rotated key
      → e ≡ loaded
  unfolding ensure_content_key
  ensure_rotated e loaded key h r = ground arith

  as_ref_rotated :
      (s : FileContentKeyState) (k key : Bytes) → as_ref s ≡ ok k → s ≡ rotated key → k ≡ key
  unfolding as_ref
  as_ref_rotated s k key h r = ground arith

  sealed_step :
      (e loaded next : FileRewrapExecutor c) (k : Bytes) (p : FileEncDocumentProtected)
      → ensure_content_key c member_handle members e ≡ ok loaded
      → as_ref loaded.content_key ≡ ok k
      → record loaded { protected = p } ≡ next
      → (p.sid ≡ loaded.protected.sid)
        × (All (IsSealed loaded.protected.sid k) loaded.protected.wrap
            → All (IsSealed loaded.protected.sid k) p.wrap)
      → HoldsNewKey e
      → HoldsNewKey next
  sealed_step e loaded next k p l a n keep inv key r =
      let at : loaded.content_key ≡ rotated key = ap (λ x. x.content_key) n ∙ r in
      let same : e ≡ loaded = ensure_rotated e loaded key l at in
      let one : k ≡ key = as_ref_rotated loaded.content_key k key a at in
      let inv' : HoldsNewKey loaded = rw (← same) inv in
      let (made, held) = inv' key at in
      let kept = keep.1 (rw one held) in (made, rw (← n, keep.0, ← one) kept)

  pub add-HoldsNewKey :
      (e next : FileRewrapExecutor c) (rs : List Text)
      → add_recipients c member_handle members e rs ≡ ok next
      → HoldsNewKey e
      → HoldsNewKey next
  unfolding add_recipients
  add-HoldsNewKey e next rs h inv =
      let (loaded, l, h1) = >>=-eq-ok (ensure_content_key c member_handle members e) _ h in
      let (k, a, h2) = >>=-eq-ok (as_ref loaded.content_key) _ h1 in
      let (p, changed, h3) = >>=-eq-ok (add_file_recipients c loaded.protected k rs members) _ h2 in
      sealed_step e loaded next k p l a (ground arith)
        (add_file-IsSealed loaded.protected p k rs changed) inv

  pub rewrite-HoldsNewKey :
      (e next : FileRewrapExecutor c) (rs : List Text)
      → rewrite_recipient_wraps c member_handle members e rs ≡ ok next
      → HoldsNewKey e
      → HoldsNewKey next
  unfolding rewrite_recipient_wraps
  rewrite-HoldsNewKey e next rs h inv =
      let (loaded, l, h1) = >>=-eq-ok (ensure_content_key c member_handle members e) _ h in
      let (k, a, h2) = >>=-eq-ok (as_ref loaded.content_key) _ h1 in
      let (p, changed, h3) =
        >>=-eq-ok (rewrite_file_recipient_wraps c loaded.protected k rs members) _ h2 in
      sealed_step e loaded next k p l a (ground arith)
        (rewrite_file-IsSealed loaded.protected p k rs changed) inv

  pub rotate-HoldsNewKey :
      (e next : FileRewrapExecutor c)
      → rotate_key c member_handle members e ≡ ok next
      → HoldsNewKey e
      → HoldsNewKey next
  unfolding rotate_key
  rotate-HoldsNewKey e next h inv = elim (Bool-cases (is_rotated e.content_key)) [
    | inl done ↦ let same : e ≡ next = ground arith in rw (← same) inv
    | inr todo ↦
        let (loaded, l, h1) =
          >>=-eq-ok (ensure_content_key c member_handle members e) _ (rw todo at h) in
        let (k, _, h2) = >>=-eq-ok (as_ref loaded.content_key) _ h1 in
        let (changed, r, h3) =
          >>=-eq-ok (rotate_file_key c loaded.protected loaded.verified k members) _ h2 in
        let (ms, _, built, sid, made) =
          rotate_file_key_sound c member_handle members loaded.protected changed.0 loaded.verified k
            changed.1 r in
        let n : record loaded { protected = changed.0; content_key = rotated changed.1 } ≡ next =
          ground arith in
        rw (← n) (λ key at.
          let one : changed.1 ≡ key = ground arith in
          rw (← one) (made, rw sid (collect_All _ ms changed.0.wrap built)))
  ]

  pub remove-HoldsNewKey :
      (e next : FileRewrapExecutor c) (rs : List Text)
      → remove_recipients c member_handle members e rs ≡ ok next
      → HoldsNewKey e
      → HoldsNewKey next
  unfolding remove_recipients
  remove-HoldsNewKey e next rs h inv =
      let (p, removed, h1) = >>=-eq-ok (remove_file_recipients c e.protected rs) _ h in
      rotate-HoldsNewKey (record e { protected = p }) next h1
        λ key at.
          let (made, held) = inv key at in
          let (sid, kept) =
            remove-All c (IsSealed e.protected.sid key) e.protected p rs removed held in
          (made, rw sid kept)

  pub clear-HoldsNewKey :
      (e next : FileRewrapExecutor c)
      → clear_disclosure_history c member_handle members e ≡ ok next
      → HoldsNewKey e
      → HoldsNewKey next
  clear-HoldsNewKey e next h inv =
      let n : record e { protected = record e.protected { removed_recipients = none } } ≡ next =
        ground arith in
      rw (← n) inv
