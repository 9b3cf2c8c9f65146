-- ===== src/Rewrap/File/Refines.antt =====
-- The rewrap of an encrypted file (feature/rewrap/file.rs) against what it is for: a document for the
-- members, and for nobody else.
use kapsaro.Base.{List, ◌≡◌, ap, Text}
use kapsaro.Errors.{ok, >>=-eq-ok}
use kapsaro.Model.PublicKey.{PublicKey}
use kapsaro.Model.FileEnc.{FileEncDocument, FileEncDocumentProtected}
use kapsaro.Rewrap.Plan.{
  RewrapOptions, RewrapOperationPlan, apply_rewrap_operation_plan, build_rewrap_operation_plan,
  collect_stale_recipient_handles, collect_target_member_handles,
}
use kapsaro.Rewrap.Plan.Stale.{HasUniqueHandles}
use kapsaro.Rewrap.Plan.Target.{IsAddressedTo, apply_plan-IsAddressedTo}
use kapsaro.Rewrap.File.{
  FileCrypto, FileRewrapExecutor, as_ref, ensure_content_key, finalize, file_executor, new_executor,
  rewrap_file_document,
}
use kapsaro.Rewrap.File.Laws.{file_laws, ensure_unchanged}

module _ (c : FileCrypto) (member_handle : Text) (members : List PublicKey) where
  -- The plan that is built for a verified file.
  abbrev pub file_plan : RewrapOptions → FileEncDocument c.Signature → RewrapOperationPlan
  file_plan options verified =
      build_rewrap_operation_plan
        ((file_executor c member_handle members).current_recipients (new_executor c verified))
        (collect_target_member_handles members)
        (collect_stale_recipient_handles verified.protected.wrap members) options

  -- The document that is written is the one that the plan leaves, signed again.
  pub finalize_sound :
      (e : FileRewrapExecutor c) (text : Text)
      → finalize c member_handle members e ≡ ok text
      → (doc : FileEncDocument c.Signature) × (c.to_string_pretty doc ≡ ok text)
        × (doc.protected.wrap ≡ e.protected.wrap)
        × (doc.protected.sid ≡ e.protected.sid)
  unfolding finalize
  finalize_sound e text h =
      let (loaded, l, h1) = >>=-eq-ok (ensure_content_key c member_handle members e) _ h in
      let (at, _, h2) = >>=-eq-ok c.now _ h1 in
      let (signing, _, h3) = >>=-eq-ok c.build_signing_context _ h2 in
      let (key, _, h4) = >>=-eq-ok (as_ref loaded.content_key) _ h3 in
      let (mac, _, h5) = >>=-eq-ok (c.derive_mac_key key loaded.protected.sid) _ h4 in
      let p : FileEncDocumentProtected = record loaded.protected { updated_at = at } in
      let (signature, _, h6) = >>=-eq-ok (c.sign_file_document p mac signing) _ h5 in
      let same = (ensure_unchanged c member_handle members e loaded l).0 in
      (
        record { protected = p; signature = signature },
        h6,
        ap (λ q. q.wrap) same,
        ap (λ q. q.sid) same,
      )

  -- The run of a rewrap: the plan, applied to the verified file, and the document that it leaves.
  pub rewrap_sound :
      (options : RewrapOptions) (content text : Text) (verified : FileEncDocument c.Signature)
      → c.verify_file_content content ≡ ok verified
      → rewrap_file_document c member_handle members options content ≡ ok text
      → (applied : FileRewrapExecutor c) × (apply_rewrap_operation_plan
            (file_executor c member_handle members)
            (new_executor c verified)
            (file_plan options verified)
          ≡ ok applied)
        × (finalize c member_handle members applied ≡ ok text)
  unfolding rewrap_file_document
  rewrap_sound options content text verified v h =
      >>=-eq-ok
        (apply_rewrap_operation_plan (file_executor c member_handle members)
          (new_executor c verified) (file_plan options verified))
        _ (rw v at h)

  -- A rewrap of a verified file in which no two wrapped keys are addressed to one member, when it
  -- answers, answers the text of a document whose wrapped keys are addressed to the members and to
  -- nobody else, each to a key of its member.
  pub rewrap_file_document-IsAddressedTo :
      (options : RewrapOptions) (content text : Text) (verified : FileEncDocument c.Signature)
      → c.verify_file_content content ≡ ok verified
      → HasUniqueHandles verified.protected.wrap
      → rewrap_file_document c member_handle members options content ≡ ok text
      → (doc : FileEncDocument c.Signature) × (c.to_string_pretty doc ≡ ok text)
        × IsAddressedTo members doc.protected.wrap
  unfolding file_laws new_executor
  rewrap_file_document-IsAddressedTo options content text verified v unique h =
      let (applied, run, written) = rewrap_sound options content text verified v h in
      let (doc, shown, same, _) = finalize_sound applied text written in
      let addressed =
        apply_plan-IsAddressedTo (file_executor c member_handle members) members
          (file_laws c member_handle members) (new_executor c verified) applied options unique
          run in
      (doc, shown, rw same addressed)
