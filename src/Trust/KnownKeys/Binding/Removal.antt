-- ===== src/Trust/KnownKeys/Binding/Removal.antt =====
-- Removing a key of the trust store (feature/trust/known_keys.rs).
use kapsaro.Base.{
  true, false, List, [], ◌∷◌, none, some, ◌≡◌, ◌↔◌, ◌⊎◌, inl, inr, ◌∙◌, refl, sym, ap, arith, Text,
  if◌then◌else◌, map, Bool-cases, Option-cases, subst,
}
use kapsaro.Errors.{ok, Result-cases}
use kapsaro.Text.{text_eq, text_eq_iff, contains}
use kapsaro.Model.TrustStore.{KnownKey}
use kapsaro.Identity.Kid.{resolve_unique_kid}
use kapsaro.Trust.KnownKeys.{find_known_key, take_key, remove_known_key}
use kapsaro.Trust.KnownKeys.Binding.{HasUniqueKids, unbound-contains}

take-none :
    (kid : Text) (keys : List KnownKey)
    → (take_key kid keys ≡ none) ↔ (contains (map (λ j. j.kid) keys) kid ≡ false)
unfolding take_key
take-none kid [] = (λ h. refl, λ h. refl)
take-none kid (k ∷ keys) = ground (arith, take-none kid keys)

take-cons :
    (kid : Text) (j k : KnownKey) (keys rest : List KnownKey)
    → take_key kid (j ∷ keys) ≡ some (k, rest)
    → ((text_eq j.kid kid ≡ true) × (j ≡ k) × (keys ≡ rest))
      ⊎ ((text_eq j.kid kid ≡ false)
          × (r : List KnownKey) × (take_key kid keys ≡ some (k, r))
          × (j ∷ r ≡ rest))
unfolding take_key
take-cons kid j k keys rest h = elim (Bool-cases (text_eq j.kid kid)) [
  | inl hit ↦ inl (hit, ground arith, ground arith)
  | inr miss ↦ elim (Option-cases (take_key kid keys)) [
    | inl ((k', r), found) ↦ inr (miss, r, ground arith, ground arith)
    | inr missing ↦ absurd (ground arith)
  ]
]

-- What `take_key` finds has the kid; the entries that are left bind what they bound before, and
-- have no kid that was not there before.
take-bound :
    (kid : Text) (keys rest : List KnownKey) (k : KnownKey)
    → HasUniqueKids keys
    → take_key kid keys ≡ some (k, rest)
    → (find_known_key keys kid ≡ some k)
      × ((other : Text)
          → find_known_key rest other
            ≡ (if text_eq kid other then none else find_known_key keys other))
      × ((t : Text)
          → contains (map (λ j. j.kid) keys) t ≡ false
          → contains (map (λ j. j.kid) rest) t ≡ false)
      × HasUniqueKids rest
unfolding find_known_key
take-bound kid [] rest k u h = absurd (unfold take_key in cc)
take-bound kid (j ∷ keys) rest k u h = elim (take-cons kid j k keys rest h) [
  | inl (hit, same, left) ↦ (
    rw hit (ap some same),
    rw (← left) (λ other. ground (
      arith,
      text_eq_iff j.kid kid,
      text_eq_iff j.kid other,
      text_eq_iff kid other,
      unbound-contains keys j.kid,
    )),
    rw (← left) (λ t n. ground arith),
    rw (← left) u.1,
  )
  | inr (miss, r, found, left) ↦
      let (found', others, fewer, unique) = take-bound kid keys r k u.1 found in
      (
        rw miss found',
        rw (← left) (λ other. ground (
          arith,
          text_eq_iff j.kid kid,
          text_eq_iff j.kid other,
          text_eq_iff kid other,
          others other,
        )),
        rw (← left) (λ t n. ground (arith, fewer t)),
        rw (← left) (fewer j.kid u.0, unique),
      )
]

-- If the kids of the store are all different, then a removal that succeeds takes away the binding of
-- the one kid that the query names and no other, hands back the entry that the kid was bound by, and
-- keeps the kids all different.
pub remove_known_key_sound :
    (keys : List KnownKey) (query : Text) (k : KnownKey)
    → HasUniqueKids keys
    → (remove_known_key keys query).1 ≡ ok k
    → (kid : Text) × (resolve_unique_kid (map (λ j. j.kid) keys) query ≡ ok kid)
      × (find_known_key keys kid ≡ some k)
      × ((other : Text)
          → find_known_key (remove_known_key keys query).0 other
            ≡ (if text_eq kid other then none else find_known_key keys other))
      × HasUniqueKids (remove_known_key keys query).0
unfolding remove_known_key
remove_known_key_sound keys query k u h =
    elim (Result-cases (resolve_unique_kid (map (λ j. j.kid) keys) query)) [
      | inr (e, failed) ↦ absurd (ground arith)
      | inl (kid, named) ↦ elim (Option-cases (take_key kid keys)) [
        | inr missing ↦ absurd (ground arith)
        | inl ((j, rest), found) ↦
            let (bound, others, _, unique) = take-bound kid keys rest j u found in
            let same : j ≡ k = ground arith in
            let left : (remove_known_key keys query).0 ≡ rest = ground arith in
            (
              kid,
              named,
              bound ∙ ap some same,
              (λ other. ap (λ l. find_known_key l other) left ∙ others other),
              subst HasUniqueKids (sym left) unique,
            )
      ]
    ]
