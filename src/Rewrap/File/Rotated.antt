-- ===== src/Rewrap/File/Rotated.antt =====
-- When the content key of a rewrapped file (feature/rewrap/file.rs) is a new one.
use kapsaro.Base.{
  Bool, true, false, not, ◌⊎◌, List, [], ◌∷◌, ◌≡◌, refl, inl, inr, arith, Text, map, All,
  Bool-cases,
}
use kapsaro.Errors.{Result, ok, >>=-eq-ok}
use kapsaro.Text.{contains}
use kapsaro.Model.PublicKey.{PublicKey}
use kapsaro.Model.FileEnc.{FileEncDocument, handles}
use kapsaro.Rewrap.Wrap.{Bytes}
use kapsaro.Rewrap.Recipient.{subject}
use kapsaro.Rewrap.Plan.{
  RewrapOptions, apply_recipient_step, apply_flag_step, apply_rewrap_operation_plan,
  build_rewrap_operation_plan, collect_target_member_handles,
}
use kapsaro.Rewrap.Plan.Laws.{contains-filter}
use kapsaro.Rewrap.Plan.Steps.{plan_steps, recipient_step_inv, flag_step_inv}
use kapsaro.Rewrap.Plan.Target.{contains-targets}
use kapsaro.Rewrap.File.{
  FileCrypto, FileRewrapExecutor, FileContentKeyState, unloaded, original, rotated, as_ref,
  is_rotated, ensure_content_key, add_file_recipients, rewrite_file_recipient_wraps,
  rotate_file_key, remove_file_recipients, add_recipients, rewrite_recipient_wraps,
  remove_recipients, rotate_key, clear_disclosure_history, file_executor, new_executor,
  rewrap_file_document,
}
use kapsaro.Rewrap.File.Refines.{file_plan, rewrap_sound, finalize_sound}
use kapsaro.Rewrap.File.Rotation.{
  IsSealed, HoldsNewKey, add-HoldsNewKey, rewrite-HoldsNewKey, rotate-HoldsNewKey,
  remove-HoldsNewKey, clear-HoldsNewKey,
}

-- A step whose list names someone is run.
step_run :
    {Executor : Type 0} (f : Executor → List Text → Result Executor) (e next : Executor)
    (rs : List Text) (handle : Text)
    → contains rs handle ≡ true
    → apply_recipient_step f e rs ≡ ok next
    → f e rs ≡ ok next
unfolding apply_recipient_step
step_run f e next [] handle n h = absurd cc
step_run f e next (r ∷ rs) handle n h = h

flag_run :
    {Executor : Type 0} (f : Executor → Result Executor) (e next : Executor) (enabled : Bool)
    → enabled ≡ true
    → apply_flag_step f e enabled ≡ ok next
    → f e ≡ ok next
unfolding apply_flag_step
flag_run f e next enabled n h = rw n at h

rotated_key : (s : FileContentKeyState) → is_rotated s ≡ true → (key : Bytes) × (s ≡ rotated key)
unfolding is_rotated
rotated_key unloaded h = absurd cc
rotated_key (original key) h = absurd cc
rotated_key (rotated key) h = (key, refl)

module _ (c : FileCrypto) (member_handle : Text) (members : List PublicKey) where
  abbrev IsRotated : FileRewrapExecutor c → Type 0
  IsRotated e = is_rotated e.content_key ≡ true

  ensure_keeps :
      (e loaded : FileRewrapExecutor c)
      → ensure_content_key c member_handle members e ≡ ok loaded
      → IsRotated e
      → IsRotated loaded
  unfolding ensure_content_key is_rotated
  ensure_keeps e loaded h r = ground arith

  add_keeps :
      (e next : FileRewrapExecutor c) (rs : List Text)
      → add_recipients c member_handle members e rs ≡ ok next
      → IsRotated e
      → IsRotated next
  unfolding add_recipients
  add_keeps e next rs h r =
      let (loaded, l, h1) = >>=-eq-ok (ensure_content_key c member_handle members e) _ h in
      let (key, _, h2) = >>=-eq-ok (as_ref loaded.content_key) _ h1 in
      let (p, _, h3) = >>=-eq-ok (add_file_recipients c loaded.protected key rs members) _ h2 in
      let same : loaded.content_key ≡ next.content_key = ground arith in
      rw (← same) (ensure_keeps e loaded l r)

  rewrite_keeps :
      (e next : FileRewrapExecutor c) (rs : List Text)
      → rewrite_recipient_wraps c member_handle members e rs ≡ ok next
      → IsRotated e
      → IsRotated next
  unfolding rewrite_recipient_wraps
  rewrite_keeps e next rs h r =
      let (loaded, l, h1) = >>=-eq-ok (ensure_content_key c member_handle members e) _ h in
      let (key, _, h2) = >>=-eq-ok (as_ref loaded.content_key) _ h1 in
      let (p, _, h3) =
        >>=-eq-ok (rewrite_file_recipient_wraps c loaded.protected key rs members) _ h2 in
      let same : loaded.content_key ≡ next.content_key = ground arith in
      rw (← same) (ensure_keeps e loaded l r)

  rotate_rotates :
      (e next : FileRewrapExecutor c)
      → rotate_key c member_handle members e ≡ ok next
      → IsRotated next
  unfolding rotate_key is_rotated
  rotate_rotates e next h = elim (Bool-cases (is_rotated e.content_key)) [
    | inl done ↦ let same : e ≡ next = ground arith in rw (← same) done
    | inr todo ↦
        let (loaded, l, h1) =
          >>=-eq-ok (ensure_content_key c member_handle members e) _ (rw todo at h) in
        let (key, _, h2) = >>=-eq-ok (as_ref loaded.content_key) _ h1 in
        let (changed, r, h3) =
          >>=-eq-ok (rotate_file_key c loaded.protected loaded.verified key members) _ h2 in
        let same : rotated changed.1 ≡ next.content_key = ground arith in rw (← same) refl
  ]

  remove_rotates :
      (e next : FileRewrapExecutor c) (rs : List Text)
      → remove_recipients c member_handle members e rs ≡ ok next
      → IsRotated next
  unfolding remove_recipients
  remove_rotates e next rs h =
      let (p, _, h1) = >>=-eq-ok (remove_file_recipients c e.protected rs) _ h in
      rotate_rotates (record e { protected = p }) next h1

  clear_keeps :
      (e next : FileRewrapExecutor c)
      → clear_disclosure_history c member_handle members e ≡ ok next
      → IsRotated e
      → IsRotated next
  clear_keeps e next h r =
      let same : e.content_key ≡ next.content_key = ground arith in rw (← same) r

  -- A removal is due, or the options ask for a new key.
  abbrev pub NeedsNewKey : RewrapOptions → FileEncDocument c.Signature → Type 0
  NeedsNewKey options verified =
      ((handle : Text) × (contains (handles verified.protected.wrap) handle ≡ true)
        × (contains (map subject members) handle ≡ false))
      ⊎ (options.rotate_key ≡ true)

  removal_due :
      (options : RewrapOptions) (verified : FileEncDocument c.Signature) (handle : Text)
      → contains (handles verified.protected.wrap) handle ≡ true
      → contains (map subject members) handle ≡ false
      → contains (file_plan c member_handle members options verified).remove_recipients handle
        ≡ true
  unfolding build_rewrap_operation_plan new_executor
  removal_due options verified handle here gone = ground (
    arith,
    contains-targets members handle,
    contains-filter (λ r. not (contains (collect_target_member_handles members) r))
        (handles verified.protected.wrap) handle,
  )

  flag_due :
      (options : RewrapOptions) (verified : FileEncDocument c.Signature)
      → options.rotate_key ≡ true
      → (file_plan c member_handle members options verified).rotate_key ≡ true
  unfolding build_rewrap_operation_plan
  flag_due options verified h = h

  new_holds :
      (verified : FileEncDocument c.Signature)
      → HoldsNewKey c member_handle members (new_executor c verified)
  unfolding new_executor
  new_holds verified key h = absurd cc

  apply_plan-HoldsNewKey :
      (options : RewrapOptions) (verified : FileEncDocument c.Signature)
      (next : FileRewrapExecutor c)
      → apply_rewrap_operation_plan
          (file_executor c member_handle members)
          (new_executor c verified)
          (file_plan c member_handle members options verified)
        ≡ ok next
      → HoldsNewKey c member_handle members next × (NeedsNewKey options verified → IsRotated next)
  apply_plan-HoldsNewKey options verified next h =
      let plan = file_plan c member_handle members options verified in
      let (e1, e2, e3, e4, h1, h2, h3, h4, h5) =
        plan_steps (file_executor c member_handle members) (new_executor c verified) next plan h in
      let inv0 : HoldsNewKey c member_handle members (new_executor c verified) =
        new_holds verified in
      let K = HoldsNewKey c member_handle members in
      let inv1 =
        recipient_step_inv K _ (remove-HoldsNewKey c member_handle members) _ e1 _ h1 inv0 in
      let inv2 =
        recipient_step_inv K _ (rewrite-HoldsNewKey c member_handle members) e1 e2 _ h2 inv1 in
      let inv3 = recipient_step_inv K _ (add-HoldsNewKey c member_handle members) e2 e3 _ h3 inv2 in
      let inv4 = flag_step_inv K _ (rotate-HoldsNewKey c member_handle members) e3 e4 _ h4 inv3 in
      let inv5 = flag_step_inv K _ (clear-HoldsNewKey c member_handle members) e4 next _ h5 inv4 in
      let last : IsRotated e4 → IsRotated next =
        flag_step_inv IsRotated _ clear_keeps e4 next _ h5 in
      (
        inv5,
        λ due. elim due [
          | inl (handle, here, gone) ↦
              let r1 =
                remove_rotates _ e1 _
                  (step_run _ _ e1 _ handle (removal_due options verified handle here gone) h1) in
              let r2 = recipient_step_inv IsRotated _ rewrite_keeps e1 e2 _ h2 r1 in
              let r3 = recipient_step_inv IsRotated _ add_keeps e2 e3 _ h3 r2 in
              last (flag_step_inv IsRotated _ (λ e n r _. rotate_rotates e n r) e3 e4 _ h4 r3)
          | inr asked ↦
              last (rotate_rotates e3 e4 (flag_run _ e3 e4 _ (flag_due options verified asked) h4))
        ],
      )

  -- Where someone is removed, or the options ask for a new key, a rewrap of a verified file that
  -- answers has generated a content key, and every wrapped key of the document that it writes was
  -- built from this key.
  pub rewrap_file_document-generate_key :
      (options : RewrapOptions) (content text : Text) (verified : FileEncDocument c.Signature)
      → c.verify_file_content content ≡ ok verified
      → NeedsNewKey options verified
      → rewrap_file_document c member_handle members options content ≡ ok text
      → (doc : FileEncDocument c.Signature) × (key : Bytes) × (c.to_string_pretty doc ≡ ok text)
        × (c.generate_key ≡ ok key)
        × All (IsSealed c member_handle members doc.protected.sid key) doc.protected.wrap
  rewrap_file_document-generate_key options content text verified v due h =
      let (applied, run, written) =
        rewrap_sound c member_handle members options content text verified v h in
      let (doc, shown, wrap, sid) = finalize_sound c member_handle members applied text written in
      let (inv, must) = apply_plan-HoldsNewKey options verified applied run in
      let (key, at) = rotated_key applied.content_key (must due) in
      let (made, held) = inv key at in (doc, key, shown, made, rw (wrap, sid) held)
