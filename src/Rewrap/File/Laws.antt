-- ===== src/Rewrap/File/Laws.antt =====
-- The executor for encrypted files (feature/rewrap/file.rs) keeps the promises of an executor.
use kapsaro.Base.{
  List, [], ◌++◌, ◌≡◌, ◌∙◌, refl, ap, inl, inr, arith, Text, All_imp, Bool-cases, length,
}
use kapsaro.Errors.{Result, ok, >>=-eq-ok, collect}
use kapsaro.Text.{contains}
use kapsaro.Model.PublicKey.{PublicKey}
use kapsaro.Model.FileEnc.{FileEncDocument, FileEncDocumentProtected, handles, recipients}
use kapsaro.Document.WrapSet.{WrapItem, validate_wrap_count}
use kapsaro.Rewrap.Wrap.{Bytes, Sealing, build_wrap_item, build_wraps_for_recipients}
use kapsaro.Rewrap.Recipient.{
  subject, resolve_snapshot_verified_recipients, build_new_wrap_items, replace_recipient_wrap_items,
}
use kapsaro.Rewrap.Recipient.Built.{resolve-build}
use kapsaro.Rewrap.Recipient.Changes.{replace-Rewrites, new-Rewrites}
use kapsaro.Rewrap.Plan.Laws.{Rewrites, Rewrites-refl, ExecutorLaws}
use kapsaro.Rewrap.File.{
  FileCrypto, FileRewrapExecutor, as_ref, is_rotated, ensure_content_key, add_file_recipients,
  rewrite_file_recipient_wraps, rotate_file_key, remove_file_recipients, add_recipients,
  rewrite_recipient_wraps, remove_recipients, rotate_key, clear_disclosure_history, file_executor,
}
use kapsaro.Rewrap.File.Removal.{remove-Rewrites}

-- A wrapped key names the member that it is built for, and its key.
pub wrap_addressed :
    (s : Sealing) (sid : Text) (key : Bytes) (m : PublicKey) (w : WrapItem)
    → build_wrap_item s m sid key ≡ ok w
    → (w.recipient_handle ≡ subject m) × (w.kid ≡ m.protected.kid)
unfolding build_wrap_item
wrap_addressed s sid key m w h =
    let (info, _, h') = >>=-eq-ok (s.info_builder sid m.protected.kid) _ h in
    let (pk, _, h'') = >>=-eq-ok (s.decode_kem_key m.protected.keys.kem.x) _ h' in
    let (sealed, _, h''') = >>=-eq-ok (s.seal_base pk info info key) _ h'' in ground arith

pub Rewrites-same :
    (targets : List PublicKey) (rs : List Text) (a b d : List WrapItem)
    → Rewrites targets rs [] a b
    → Rewrites targets [] [] b d
    → Rewrites targets rs [] a d
Rewrites-same targets rs a b d r s = record {
  handles_of = λ j. ground (arith, r.handles_of j, s.handles_of j);
  items_of =
      λ P stays fresh. s.items_of P (All_imp b (λ w p _. p) (r.items_of P stays fresh)) fresh;
}

module _ (c : FileCrypto) (member_handle : Text) (members : List PublicKey) where
  -- Loading the key leaves the document as it is.
  pub ensure_unchanged :
      (e loaded : FileRewrapExecutor c)
      → ensure_content_key c member_handle members e ≡ ok loaded
      → (loaded.protected ≡ e.protected) × (loaded.verified ≡ e.verified)
  unfolding ensure_content_key
  ensure_unchanged e loaded h = ground arith

  -- The parts of a rotation that the wrapped keys depend on.
  pub rotate_file_key_sound :
      (p q : FileEncDocumentProtected) (verified : FileEncDocument c.Signature) (old new : Bytes)
      → rotate_file_key c p verified old members ≡ ok (q, new)
      → (ms : List PublicKey) × (resolve_snapshot_verified_recipients members (recipients p)
          ≡ ok ms)
        × (collect (λ m. build_wrap_item c.sealing m p.sid new) ms ≡ ok q.wrap)
        × (q.sid ≡ p.sid)
        × (c.generate_key ≡ ok new)
  unfolding rotate_file_key build_wraps_for_recipients
  rotate_file_key_sound p q verified old new h =
      let (k1, _, h1) = >>=-eq-ok (c.derive_content_key old p.sid) _ h in
      let (text, _, h2) = >>=-eq-ok (c.decrypt_file_payload verified k1) _ h1 in
      let (k2, made, h3) = >>=-eq-ok c.generate_key _ h2 in
      let (k3, _, h4) = >>=-eq-ok (c.derive_content_key k2 p.sid) _ h3 in
      let (ct, _, h5) = >>=-eq-ok (c.encrypt_file_payload text k3 p.payload.protected) _ h4 in
      let (ms, found, h6) =
        >>=-eq-ok (resolve_snapshot_verified_recipients members (recipients p)) _ h5 in
      let (ws, built, h7) = >>=-eq-ok (build_wraps_for_recipients c.sealing ms p.sid k2) _ h6 in
      let (_, _, collected) = >>=-eq-ok (validate_wrap_count (length ms)) _ built in
      let key : k2 ≡ new = ground arith in
      let wrap : ws ≡ q.wrap = ground arith in
      let sid : q.sid ≡ p.sid = ground arith in rw (← key, ← wrap) (ms, found, collected, sid, made)

  pub rotate-Rewrites :
      (e next : FileRewrapExecutor c)
      → rotate_key c member_handle members e ≡ ok next
      → Rewrites members [] [] e.protected.wrap next.protected.wrap
  unfolding rotate_key
  rotate-Rewrites e next h = elim (Bool-cases (is_rotated e.content_key)) [
    | inl done ↦
        let same : e ≡ next = ground arith in rw (← same) (Rewrites-refl members e.protected.wrap)
    | inr todo ↦
        let h0 = rw todo at h in
        let (loaded, l, h1) = >>=-eq-ok (ensure_content_key c member_handle members e) _ h0 in
        let (key, _, h2) = >>=-eq-ok (as_ref loaded.content_key) _ h1 in
        let (changed, r, h3) =
          >>=-eq-ok (rotate_file_key c loaded.protected loaded.verified key members) _ h2 in
        let (ms, found, built, _, _) =
          rotate_file_key_sound loaded.protected changed.0 loaded.verified key changed.1 r in
        let (named, current) =
          resolve-build (λ m. build_wrap_item c.sealing m loaded.protected.sid changed.1)
            (wrap_addressed c.sealing loaded.protected.sid changed.1) members
            (recipients loaded.protected) ms changed.0.wrap found built in
        let e1 : next.protected.wrap ≡ changed.0.wrap = ground arith in
        let e2 = ap (λ p. handles p.wrap) (ensure_unchanged e loaded l).0 in
        rw e1 (record {
          handles_of = λ j. ground (arith, ap (λ l. contains l j) (named ∙ e2));
          items_of = λ P stays fresh. All_imp changed.0.wrap fresh current;
        })
  ]

  pub remove_recipients-Rewrites :
      (e next : FileRewrapExecutor c) (rs : List Text)
      → remove_recipients c member_handle members e rs ≡ ok next
      → Rewrites members rs [] e.protected.wrap next.protected.wrap
  unfolding remove_recipients
  remove_recipients-Rewrites e next rs h =
      let (p, removed, h1) = >>=-eq-ok (remove_file_recipients c e.protected rs) _ h in
      Rewrites-same members rs e.protected.wrap p.wrap next.protected.wrap
        (remove-Rewrites c members e.protected p rs removed)
        (rotate-Rewrites (record e { protected = p }) next h1)

  pub rewrite-Rewrites :
      (e next : FileRewrapExecutor c) (rs : List Text)
      → rewrite_recipient_wraps c member_handle members e rs ≡ ok next
      → Rewrites members rs rs e.protected.wrap next.protected.wrap
  unfolding rewrite_recipient_wraps rewrite_file_recipient_wraps
  rewrite-Rewrites e next rs h =
      let (loaded, l, h1) = >>=-eq-ok (ensure_content_key c member_handle members e) _ h in
      let (key, _, h2) = >>=-eq-ok (as_ref loaded.content_key) _ h1 in
      let build : PublicKey → Result WrapItem =
        λ m. build_wrap_item c.sealing m loaded.protected.sid key in
      let (p, changed, h3) =
        >>=-eq-ok (rewrite_file_recipient_wraps c loaded.protected key rs members) _ h2 in
      let (wrap, replaced, h4) =
        >>=-eq-ok (replace_recipient_wrap_items build loaded.protected.wrap rs members) _ changed in
      let e1 : next.protected.wrap ≡ wrap = ground arith in
      rw (e1, ← (ensure_unchanged e loaded l).0)
        (replace-Rewrites build (wrap_addressed c.sealing loaded.protected.sid key) members rs
          loaded.protected.wrap wrap replaced)

  pub add-Rewrites :
      (e next : FileRewrapExecutor c) (rs : List Text)
      → add_recipients c member_handle members e rs ≡ ok next
      → Rewrites members [] rs e.protected.wrap next.protected.wrap
  unfolding add_recipients add_file_recipients
  add-Rewrites e next rs h =
      let (loaded, l, h1) = >>=-eq-ok (ensure_content_key c member_handle members e) _ h in
      let (key, _, h2) = >>=-eq-ok (as_ref loaded.content_key) _ h1 in
      let build : PublicKey → Result WrapItem =
        λ m. build_wrap_item c.sealing m loaded.protected.sid key in
      let (p, changed, h3) =
        >>=-eq-ok (add_file_recipients c loaded.protected key rs members) _ h2 in
      let (items, built, h4) =
        >>=-eq-ok
          (build_new_wrap_items build (recipients loaded.protected) (length loaded.protected.wrap)
            rs members)
          _ changed in
      let e1 : next.protected.wrap ≡ loaded.protected.wrap ++ items = ground arith in
      rw (e1, ← (ensure_unchanged e loaded l).0)
        (new-Rewrites build (wrap_addressed c.sealing loaded.protected.sid key) members rs
          loaded.protected.wrap items (length loaded.protected.wrap) built)

  pub clear-Rewrites :
      (e next : FileRewrapExecutor c)
      → clear_disclosure_history c member_handle members e ≡ ok next
      → Rewrites members [] [] e.protected.wrap next.protected.wrap
  clear-Rewrites e next h =
      let same : e.protected.wrap ≡ next.protected.wrap = ground arith in
      rw (← same) (Rewrites-refl members e.protected.wrap)

  unfoldable pub file_laws : ExecutorLaws (file_executor c member_handle members) members
  file_laws = record {
    wraps = λ e. e.protected.wrap;
    current_recipients_lem = λ e. refl;
    remove_recipients_lem = remove_recipients-Rewrites;
    rewrite_recipient_wraps_lem = rewrite-Rewrites;
    add_recipients_lem = add-Rewrites;
    rotate_key_lem = rotate-Rewrites;
    clear_disclosure_history_lem = clear-Rewrites;
  }
