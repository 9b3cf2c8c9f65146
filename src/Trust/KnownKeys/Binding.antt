-- ===== src/Trust/KnownKeys/Binding.antt =====
-- The member handle that the trust store binds a kid to (feature/trust/known_keys.rs).
pub mod Removal
use kapsaro.Base.{
  Bool, true, false, List, [], ◌∷◌, ◌++◌, Option, none, some, ◌≡◌, ◌↔◌, ◌⊎◌, inl, inr, ◌∙◌, refl,
  sym, ap, arith, Text, if◌then◌else◌, map, Bool-cases, Option-cases, subst,
}
use kapsaro.Errors.{ok, err, ◌>>=◌, Result-cases}
use kapsaro.Text.{text_eq, text_eq_iff, text_eq_sym, contains}
use kapsaro.Model.TrustStore.{KnownKey}
use kapsaro.Identity.Kid.{resolve_unique_kid}
use kapsaro.Trust.KnownKeys.{
  KnownKeyJudgment, find_known_key, enforce_kid_integrity, judge_known_key, add_known_key, take_key,
  remove_known_key, build_kid_integrity_anomaly_error,
}

-- No two entries share a kid.
abbrev pub HasUniqueKids : List KnownKey → Type 0
HasUniqueKids [] = Unit
HasUniqueKids (k ∷ keys) = (contains (map (λ j. j.kid) keys) k.kid ≡ false) × HasUniqueKids keys

-- The handle that the store binds a kid to.
unfoldable pub bound_handle : List KnownKey → Text → Option Text
bound_handle keys kid = elim (find_known_key keys kid) [
  | some k ↦ some k.subject_handle
  | none ↦ none
]

find-snoc :
    (keys : List KnownKey) (k : KnownKey) (kid : Text)
    → find_known_key (keys ++ k ∷ []) kid ≡ (elim (find_known_key keys kid) [
      | some j ↦ some j
      | none ↦ if text_eq k.kid kid then some k else none
    ])
unfolding find_known_key
find-snoc [] k kid = refl
find-snoc (j ∷ keys) k kid = ground (arith, find-snoc keys k kid)

add-missing :
    (keys : List KnownKey) (k : KnownKey)
    → find_known_key keys k.kid ≡ none
    → add_known_key keys k ≡ (keys ++ k ∷ [], ok true)
unfolding add_known_key enforce_kid_integrity
add-missing keys k h = ground arith

add-same :
    (keys : List KnownKey) (k j : KnownKey)
    → find_known_key keys k.kid ≡ some j
    → text_eq j.subject_handle k.subject_handle ≡ true
    → add_known_key keys k ≡ (keys, ok false)
unfolding add_known_key enforce_kid_integrity
add-same keys k j h same = ground arith

add-other :
    (keys : List KnownKey) (k j : KnownKey)
    → find_known_key keys k.kid ≡ some j
    → text_eq j.subject_handle k.subject_handle ≡ false
    → add_known_key keys k
      ≡ (keys, err (build_kid_integrity_anomaly_error k.kid j.subject_handle k.subject_handle))
unfolding add_known_key enforce_kid_integrity
add-other keys k j h other = ground arith

-- Adding leaves the entries as they are, or puts the new one after them.
pub add_known_key-entries :
    (keys : List KnownKey) (k : KnownKey)
    → ((add_known_key keys k).0 ≡ keys) ⊎ ((add_known_key keys k).0 ≡ keys ++ k ∷ [])
add_known_key-entries keys k = elim (Option-cases (find_known_key keys k.kid)) [
  | inr missing ↦ inr (ap (λ r. r.0) (add-missing keys k missing))
  | inl (j, found) ↦ elim (Bool-cases (text_eq j.subject_handle k.subject_handle)) [
    | inl same ↦ inl (ap (λ r. r.0) (add-same keys k j found same))
    | inr other ↦ inl (ap (λ r. r.0) (add-other keys k j found other))
  ]
]

-- A key whose kid is bound to another handle is refused.
pub add_known_key-refused :
    (keys : List KnownKey) (k : KnownKey) (known : Text)
    → bound_handle keys k.kid ≡ some known
    → text_eq known k.subject_handle ≡ false
    → add_known_key keys k
      ≡ (keys, err (build_kid_integrity_anomaly_error k.kid known k.subject_handle))
unfolding add_known_key enforce_kid_integrity bound_handle
add_known_key-refused keys k known b n = ground arith

bound-snoc :
    (keys : List KnownKey) (k : KnownKey) (kid : Text)
    → find_known_key keys k.kid ≡ none
    → bound_handle (keys ++ k ∷ []) kid
      ≡ (if text_eq k.kid kid then some k.subject_handle else bound_handle keys kid)
unfolding bound_handle
bound-snoc keys k kid h = ground (arith, find-snoc keys k kid, text_eq_iff k.kid kid)

bound-same :
    (keys : List KnownKey) (k j : KnownKey) (kid : Text)
    → find_known_key keys k.kid ≡ some j
    → text_eq j.subject_handle k.subject_handle ≡ true
    → bound_handle keys kid
      ≡ (if text_eq k.kid kid then some k.subject_handle else bound_handle keys kid)
unfolding bound_handle
bound-same keys k j kid h same =
    ground (arith, text_eq_iff k.kid kid, text_eq_iff j.subject_handle k.subject_handle)

-- Adding a key fails where its kid is bound to another handle, and the store is then as it was.
-- Elsewhere it succeeds: the kid is then bound to the key's handle and every other kid to the handle
-- it was bound to before, and the flag says whether the kid was unbound before.
pub add_known_key-bound_handle :
    (keys : List KnownKey) (k : KnownKey)
    → ((h : Text) × (bound_handle keys k.kid ≡ some h)
        × (text_eq h k.subject_handle ≡ false)
        × (add_known_key keys k
            ≡ (keys, err (build_kid_integrity_anomaly_error k.kid h k.subject_handle))))
      ⊎ ((flag : Bool) × ((add_known_key keys k).1 ≡ ok flag)
          × ((flag ≡ true) ↔ (bound_handle keys k.kid ≡ none))
          × ((kid : Text)
              → bound_handle (add_known_key keys k).0 kid
                ≡ (if text_eq k.kid kid then some k.subject_handle else bound_handle keys kid)))
unfolding bound_handle
add_known_key-bound_handle keys k = elim (Option-cases (find_known_key keys k.kid)) [
  | inr missing ↦ inr (
      rw (add-missing keys k missing) (
        true,
        refl,
        (λ h. rw (missing, bound_handle) refl, λ h. refl),
        λ kid. bound-snoc keys k kid missing,
      ))
  | inl (j, found) ↦ elim (Bool-cases (text_eq j.subject_handle k.subject_handle)) [
    | inl same ↦ inr (
        rw (add-same keys k j found same)
          (false, refl, (λ h. cc, λ h. cc), λ kid. bound-same keys k j kid found same))
    | inr other ↦
        inl (j.subject_handle, rw (found, bound_handle) refl, other, add-other keys k j found other)
  ]
]

contains-snoc :
    (ks : List KnownKey) (k : KnownKey) (kid : Text)
    → contains (map (λ j. j.kid) ks) kid ≡ false
    → text_eq k.kid kid ≡ false
    → contains (map (λ j. j.kid) (ks ++ k ∷ [])) kid ≡ false
contains-snoc [] k kid h n = ground arith
contains-snoc (j ∷ ks) k kid h n = ground (arith, contains-snoc ks k kid)

unbound-contains :
    (keys : List KnownKey) (kid : Text)
    → (find_known_key keys kid ≡ none) ↔ (contains (map (λ j. j.kid) keys) kid ≡ false)
unfolding find_known_key
unbound-contains [] kid = (λ h. refl, λ h. refl)
unbound-contains (k ∷ keys) kid = ground (arith, unbound-contains keys kid)

HasUniqueKids-snoc :
    (keys : List KnownKey) (k : KnownKey)
    → HasUniqueKids keys
    → contains (map (λ j. j.kid) keys) k.kid ≡ false
    → HasUniqueKids (keys ++ k ∷ [])
HasUniqueKids-snoc [] k u h = (refl, tt)
HasUniqueKids-snoc (j ∷ keys) k u h = (
  contains-snoc keys k j.kid u.0 (ground (arith, text_eq_sym j.kid k.kid)),
  HasUniqueKids-snoc keys k u.1 (ground arith),
)

-- If the kids of the store are all different, then adding a key, whether it succeeds or not, keeps
-- them so.
pub add_known_key-HasUniqueKids :
    (keys : List KnownKey) (k : KnownKey)
    → HasUniqueKids keys
    → HasUniqueKids (add_known_key keys k).0
add_known_key-HasUniqueKids keys k u = elim (Option-cases (find_known_key keys k.kid)) [
  | inr missing ↦
      rw (add-missing keys k missing)
        (HasUniqueKids-snoc keys k u ((unbound-contains keys k.kid).0 missing))
  | inl (j, found) ↦ elim (Bool-cases (text_eq j.subject_handle k.subject_handle)) [
    | inl same ↦ rw (add-same keys k j found same) u
    | inr other ↦ rw (add-other keys k j found other) u
  ]
]

-- Judging a key foretells what adding it does: the same error, and `new` exactly where the key is
-- inserted.
pub judge_known_key-add :
    (keys : List KnownKey) (k : KnownKey)
    → (add_known_key keys k).1 ≡ (
        judge_known_key keys k.kid k.subject_handle >>= λ j.
        ok (elim j [ KnownKeyJudgment.new ↦ true | KnownKeyJudgment.existing ↦ false ]))
unfolding add_known_key judge_known_key
judge_known_key-add keys k = ground arith
