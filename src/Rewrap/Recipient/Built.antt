-- ===== src/Rewrap/Recipient/Built.antt =====
-- The wrapped keys that are built for recipients of a snapshot (feature/recipient.rs).
use kapsaro.Base.{
  true, ◌&&◌, List, [], ◌∷◌, some, ◌≡◌, ◌∙◌, refl, inl, inr, arith, Text, map, find, any, All,
  Bool-cases, Option-cases,
}
use kapsaro.Errors.{Result, ok, >>=-eq-ok, collect}
use kapsaro.Text.{text_eq, text_eq_iff, text_eq_refl}
use kapsaro.Model.PublicKey.{PublicKey}
use kapsaro.Model.FileEnc.{handles}
use kapsaro.Document.WrapSet.{WrapItem}
use kapsaro.Rewrap.Recipient.{subject, resolve_member, resolve_snapshot_verified_recipients}
use kapsaro.Rewrap.Plan.Stale.{IsCurrent}

abbrev pub IsTarget : List PublicKey → PublicKey → Type 0
IsTarget targets m =
    any (λ t. text_eq (subject t) (subject m) && text_eq t.protected.kid m.protected.kid) targets
    ≡ true

find-IsTarget :
    (targets : List PublicKey) (handle : Text) (m : PublicKey)
    → find (λ t. text_eq (subject t) handle) targets ≡ some m
    → (subject m ≡ handle) × IsTarget targets m
find-IsTarget [] handle m h = absurd cc
find-IsTarget (t ∷ targets) handle m h = elim (Bool-cases (text_eq (subject t) handle)) [
  | inl hit ↦
      let same : t ≡ m = ground arith in
      rw (← same) (
        (text_eq_iff (subject t) handle).0 hit,
        ground (arith, text_eq_refl (subject t), text_eq_refl t.protected.kid),
      )
  | inr miss ↦
      let rest = find-IsTarget targets handle m (rw miss at h) in (rest.0, ground (arith, rest.1))
]

resolve-IsTarget :
    (targets : List PublicKey) (handle : Text) (m : PublicKey)
    → resolve_member targets handle ≡ ok m
    → (subject m ≡ handle) × IsTarget targets m
unfolding resolve_member
resolve-IsTarget targets handle m h =
    find-IsTarget targets handle m
      (elim (Option-cases (find (λ t. text_eq (subject t) handle) targets)) [
        | inl (x, e) ↦ ground arith
        | inr e ↦ absurd (ground arith)
      ])

-- The members that a lookup answers have the handles it was given, in order, and are in the snapshot.
pub resolve_sound :
    (targets : List PublicKey) (hs : List Text) (ms : List PublicKey)
    → resolve_snapshot_verified_recipients targets hs ≡ ok ms
    → (map subject ms ≡ hs) × All (IsTarget targets) ms
unfolding resolve_snapshot_verified_recipients collect
resolve_sound targets [] ms h = let e : ms ≡ [] = ground arith in rw e (refl, tt)
resolve_sound targets (x ∷ hs) ms h =
    let (m, found, h') = >>=-eq-ok (resolve_member targets x) _ h in
    let (rest, later, h'') = >>=-eq-ok (collect (resolve_member targets) hs) _ h' in
    let e : ms ≡ m ∷ rest = ground arith in
    let (first, here) = resolve-IsTarget targets x m found in
    let (others, there) = resolve_sound targets hs rest later in rw e (cc, (here, there))

module _ (build : PublicKey → Result WrapItem)
    (addressed : (m : PublicKey) (w : WrapItem)
      → build m ≡ ok w
      → (w.recipient_handle ≡ subject m) × (w.kid ≡ m.protected.kid)) where
  pub build_sound :
      (targets ms : List PublicKey) (ws : List WrapItem)
      → collect build ms ≡ ok ws
      → All (IsTarget targets) ms
      → (handles ws ≡ map subject ms) × All (IsCurrent targets) ws
  unfolding collect
  build_sound targets [] ws h t = let e : ws ≡ [] = ground arith in rw e (refl, tt)
  build_sound targets (m ∷ ms) ws h t =
      let (w, built, h') = >>=-eq-ok (build m) _ h in
      let (rest, later, h'') = >>=-eq-ok (collect build ms) _ h' in
      let e : ws ≡ w ∷ rest = ground arith in
      let (handle, kid) = addressed m w built in
      let (others, there) = build_sound targets ms rest later t.1 in
      rw e (cc, (rw (handle, kid) t.0, there))

  pub resolve-build :
      (targets : List PublicKey) (hs : List Text) (ms : List PublicKey) (ws : List WrapItem)
      → resolve_snapshot_verified_recipients targets hs ≡ ok ms
      → collect build ms ≡ ok ws
      → (handles ws ≡ hs) × All (IsCurrent targets) ws
  resolve-build targets hs ms ws r b =
      let (same, t) = resolve_sound targets hs ms r in
      let (e, c) = build_sound targets ms ws b t in (e ∙ same, c)
