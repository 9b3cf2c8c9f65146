-- ===== src/LocalState/Ancestry/Exact.antt =====
-- What a scan of the directories above local state (support/fs/permission.rs) without a finding says.
use kapsaro.Base.{
  ℕ, Bool, true, ◌||◌, List, [], ◌∷◌, ◌++◌, ◌≡◌, ◌↔◌, refl, subst, inl, inr, arith, Text, All,
  All-append, Bool-cases,
}
use kapsaro.Errors.{ok, Result-cases}
use kapsaro.Text.{text_eq, text_eq_iff}
use kapsaro.LocalState.Scan.{EntryFacts}
use kapsaro.LocalState.Permission.{PermissionViolation}
use kapsaro.LocalState.Walk.SafeEntries.{snoc_nil}
use kapsaro.LocalState.Ancestry.{
  DirPath, names_eq, path_eq, contains_path, ancestors_from_outermost, Machine,
  LocalStateAncestryScan, empty_scan, is_closed, is_sticky, visit_chain, visit_bases,
  inspect_ancestor_mode, read_ancestor, record_unreadable, resolve_existing_ancestor_bases,
  walk_local_state_ancestry, collect_local_state_ancestor_violations,
}

names_eq_sound : (p q : List Text) → names_eq p q ≡ true → p ≡ q
names_eq_sound [] [] h = refl
names_eq_sound [] (b ∷ q) h = absurd cc
names_eq_sound (a ∷ p) [] h = absurd cc
names_eq_sound (a ∷ p) (b ∷ q) h =
    let first : text_eq a b ≡ true = ground arith in
    let e = (text_eq_iff a b).0 first in let rest = names_eq_sound p q (ground arith) in cc

path_eq_sound : (p q : DirPath) → path_eq p q ≡ true → p ≡ q
path_eq_sound p q h =
    let n : p.names ≡ q.names = names_eq_sound p.names q.names (ground arith) in
    let a : p.absolute ≡ q.absolute = ground arith in λ i. record { absolute = a i; names = n i }

append_nil : (vs ws : List PermissionViolation) → vs ++ ws ≡ [] → (vs ≡ []) × (ws ≡ [])
append_nil [] ws h = (refl, h)
append_nil (v ∷ vs) ws h = absurd cc

inspect_ancestor_mode_iff :
    (m : Machine) (facts : EntryFacts) (p : DirPath)
    → (inspect_ancestor_mode m facts p ≡ []) ↔ (is_closed facts.mode || is_sticky facts.mode ≡ true)
unfolding inspect_ancestor_mode
inspect_ancestor_mode_iff m facts p = elim (Bool-cases (is_closed facts.mode)) [
  | inl closed ↦ rw closed ((λ h. refl), λ h. refl)
  | inr open_ ↦ elim (Bool-cases (is_sticky facts.mode)) [
    | inl sticky ↦ rw (open_, sticky) ((λ h. refl), λ h. refl)
    | inr loose ↦ rw (open_, loose) ((λ h. absurd cc), λ h. absurd cc)
  ]
]

module _ (m : Machine) (uid : ℕ) where
  -- A directory whose facts can be read, and which others cannot write, or only with the sticky bit.
  abbrev pub IsSafeAncestor : DirPath → Type 0
  IsSafeAncestor p =
      (facts : EntryFacts) × (m.metadata p ≡ ok facts)
      × (is_closed facts.mode || is_sticky facts.mode ≡ true)

  -- The directory and all directories above it are such.
  abbrev pub AreSafeUpwards : Bool → List Text → Type 0
  AreSafeUpwards absolute [] = IsSafeAncestor (record { absolute = absolute; names = [] })
  AreSafeUpwards absolute (name ∷ rest) =
      IsSafeAncestor (record { absolute = absolute; names = name ∷ rest })
      × AreSafeUpwards absolute rest

  abbrev IsSpotless : LocalStateAncestryScan → Type 0
  IsSpotless scan = scan.violations ≡ []

  All-contains :
      (ps : List DirPath) (p : DirPath)
      → contains_path ps p ≡ true
      → All IsSafeAncestor ps
      → IsSafeAncestor p
  All-contains [] p h a = absurd cc
  All-contains (q ∷ ps) p h a = elim (Bool-cases (path_eq q p)) [
    | inl same ↦ subst IsSafeAncestor (path_eq_sound q p same) a.0
    | inr other ↦ All-contains ps p (rw other at h) a.1
  ]

  All-split :
      (ps qs : List DirPath)
      → All IsSafeAncestor (ps ++ qs)
      → All IsSafeAncestor ps × All IsSafeAncestor qs
  All-split [] qs a = (tt, a)
  All-split (p ∷ ps) qs a = let (l, r) = All-split ps qs a.1 in ((a.0, l), r)

  read_ancestor_iff :
      (p : DirPath) (scan : LocalStateAncestryScan)
      → IsSpotless (read_ancestor m uid p scan) ↔ (IsSafeAncestor p × IsSpotless scan)
  unfolding read_ancestor inspect_ancestor_mode record_unreadable
  read_ancestor_iff p scan = elim (Result-cases (m.metadata p)) [
    | inr (e, failed) ↦ (
      λ h. absurd (snoc_nil scan.violations _ (rw (failed, read_ancestor) at h)),
      λ t. let (facts, e', _) = t.0 in absurd cc,
    )
    | inl (facts, read) ↦ (
      λ h.
          let (before, here) =
            append_nil scan.violations (inspect_ancestor_mode m facts p)
              (rw (read, read_ancestor) at h) in
          ((facts, read, (inspect_ancestor_mode_iff m facts p).0 here), before),
      λ t.
          let (facts', read', safe) = t.0 in
          let e : facts' ≡ facts = cc in
          let none_here : inspect_ancestor_mode m facts p ≡ [] =
            (inspect_ancestor_mode_iff m facts p).1
              (subst (λ f. is_closed f.mode || is_sticky f.mode ≡ true) e safe) in
          rw (read, read_ancestor, none_here) (rw (t.1) refl),
    )
  ]

  visit_chain_iff :
      (chain seen : List DirPath) (scan : LocalStateAncestryScan)
      → (IsSpotless scan ↔ All IsSafeAncestor seen)
      → IsSpotless (visit_chain (read_ancestor m uid) chain seen scan).1
        ↔ All IsSafeAncestor (visit_chain (read_ancestor m uid) chain seen scan).0
  unfolding visit_chain
  visit_chain_iff [] seen scan j = j
  visit_chain_iff (p ∷ chain) seen scan j = elim (Bool-cases (contains_path seen p)) [
    | inl old ↦ rw old (visit_chain_iff chain seen scan j)
    | inr new ↦
        let r = read_ancestor_iff p scan in
        rw new (
          visit_chain_iff chain (p ∷ seen) (read_ancestor m uid p scan)
            ((λ h. let t = r.0 h in (t.0, j.0 t.1)), λ a. r.1 (a.0, j.1 a.1)))
  ]

  visit_chain-seen :
      (chain seen : List DirPath) (scan : LocalStateAncestryScan)
      → All IsSafeAncestor (visit_chain (read_ancestor m uid) chain seen scan).0
        ↔ (All IsSafeAncestor chain × All IsSafeAncestor seen)
  unfolding visit_chain
  visit_chain-seen [] seen scan = ((λ a. (tt, a)), λ t. t.1)
  visit_chain-seen (p ∷ chain) seen scan = elim (Bool-cases (contains_path seen p)) [
    | inl old ↦
        let r = visit_chain-seen chain seen scan in
        rw old
          ((λ a. let t = r.0 a in ((All-contains seen p old t.1, t.0), t.1)), λ t. r.1 (t.0.1, t.1))
    | inr new ↦
        let r = visit_chain-seen chain (p ∷ seen) (read_ancestor m uid p scan) in
        rw new ((λ a. let t = r.0 a in ((t.1.0, t.0), t.1.1)), λ t. r.1 (t.0.1, (t.0.0, t.1)))
  ]

  upwards_iff :
      (absolute : Bool) (names : List Text)
      → All IsSafeAncestor (ancestors_from_outermost absolute names) ↔ AreSafeUpwards absolute names
  upwards_iff absolute [] = ((λ a. a.0), λ s. (s, tt))
  upwards_iff absolute (name ∷ rest) =
      let r = upwards_iff absolute rest in
      let here : DirPath = record { absolute = absolute; names = name ∷ rest } in
      (
        λ a.
            let (outer, last) = All-split (ancestors_from_outermost absolute rest) (here ∷ []) a in
            (last.0, r.0 outer),
        λ s.
            All-append IsSafeAncestor (ancestors_from_outermost absolute rest) (here ∷ []) (r.1 s.1)
              (s.0, tt),
      )

  abbrev AreSafeBases : List DirPath → Type 0
  AreSafeBases = All (λ b. AreSafeUpwards b.absolute b.names)

  visit_bases_iff :
      (bases seen : List DirPath) (scan : LocalStateAncestryScan)
      → (IsSpotless scan ↔ All IsSafeAncestor seen)
      → IsSpotless (visit_bases (read_ancestor m uid) bases seen scan).1
        ↔ (AreSafeBases bases × All IsSafeAncestor seen)
  unfolding visit_bases
  visit_bases_iff [] seen scan j = ((λ h. (tt, j.0 h)), λ t. j.1 t.1)
  visit_bases_iff (b ∷ bases) seen scan j =
      let ps = ancestors_from_outermost b.absolute b.names in
      let after = visit_chain (read_ancestor m uid) ps seen scan in
      let up = upwards_iff b.absolute b.names in
      let added = visit_chain-seen ps seen scan in
      let r = visit_bases_iff bases after.0 after.1 (visit_chain_iff ps seen scan j) in
      (
        λ h. let t = r.0 h in let a = added.0 t.1 in ((up.0 a.0, t.0), a.1),
        λ t. r.1 (t.0.1, added.1 (up.1 t.0.0, t.1)),
      )

  -- A scan of the directories above local state makes no finding exactly where the places to start
  -- from can be resolved, and each of them and every directory above it can be read and cannot be
  -- written by others, or only with the sticky bit.
  pub collect_local_state_ancestor_violations_iff :
      (p : DirPath)
      → (collect_local_state_ancestor_violations m uid p ≡ []) ↔ (
          (bases : List DirPath) × (resolve_existing_ancestor_bases m p ≡ ok bases)
          × All (λ b. AreSafeUpwards b.absolute b.names) bases)
  unfolding collect_local_state_ancestor_violations walk_local_state_ancestry
  collect_local_state_ancestor_violations_iff p =
      elim (Result-cases (resolve_existing_ancestor_bases m p)) [
        | inr (e, failed) ↦ (
          λ h. absurd (
              cc (
                rw (failed, collect_local_state_ancestor_violations, walk_local_state_ancestry) at
                  h)),
          λ t. let (bases, found, _) = t in absurd cc,
        )
        | inl (bases, found) ↦
            let r = visit_bases_iff bases [] empty_scan ((λ h. tt), λ a. refl) in
            (
              λ h. (
                bases,
                found,
                (r.0 (
                    rw (found, collect_local_state_ancestor_violations, walk_local_state_ancestry)
                      at h)).0,
              ),
              λ t.
                  let (bases', found', safe) = t in
                  let e : bases' ≡ bases = cc in
                  rw (found, collect_local_state_ancestor_violations, walk_local_state_ancestry)
                    (r.1 (subst AreSafeBases e safe, tt)),
            )
      ]
