-- ===== src/Identity/Kid/Canonical.antt =====
-- Canonical key ids (support/kid.rs and model/identity.rs).
use kapsaro.Base.{
  ◌≤◌, true, [], ◌∷◌, ◌≡◌, ◌↔◌, inl, inr, ◌≢◌, ◌∙◌, refl, sym, ap, arith, ◌==◌, Text, all, length,
  if◌then◌else◌, subst,
}
use kapsaro.Errors.{Error, ok, err, >>=-eq-ok, Result-cases}
use kapsaro.Text.{text_eq_iff, len, text_eq_refl}
use kapsaro.Identity.Kid.{
  is_crockford_base32_byte, undashed, normalize_kid_query, normalize_kid, from_canonical, kid_len,
}

abbrev pub AreCrockford : Text → Type 0
AreCrockford s = all is_crockford_base32_byte s ≡ true

-- 32 characters of the alphabet
pub record IsCanonical (kid : Text) : Type 0 where
  pub letters : AreCrockford kid
  pub size : length kid ≡ kid_len

pub undashed-AreCrockford : (s : Text) → AreCrockford s → undashed s ≡ s
unfolding undashed is_crockford_base32_byte
undashed-AreCrockford [] h = refl
undashed-AreCrockford (c ∷ s) h = ground (arith, undashed-AreCrockford s)

pub len-AreCrockford : (s : Text) → AreCrockford s → len s ≡ length s
unfolding is_crockford_base32_byte
len-AreCrockford [] h = refl
len-AreCrockford (c ∷ s) h = ground (arith, len-AreCrockford s)

pub query-ok :
    (s q : Text)
    → normalize_kid_query s ≡ ok q
    → (q ≡ undashed s) × AreCrockford q × (q ≢ []) × (len q ≤ kid_len)
unfolding normalize_kid_query
query-ok s q h = ground arith

sized :
    (q k : Text) (e : Error)
    → (if len q == kid_len then ok q else err e) ≡ ok k
    → (q ≡ k) × (len q ≡ kid_len)
sized q k e h = ground arith

-- What normalization returns is canonical, and is the input without its dashes, in upper case.
pub normalize_kid-ok : (s k : Text) → normalize_kid s ≡ ok k → (k ≡ undashed s) × IsCanonical k
unfolding normalize_kid
normalize_kid-ok s k h =
    let (q, e, r) = >>=-eq-ok (normalize_kid_query s) _ h in
    let (a, b, _, _) = query-ok s q e in
    let (same, size) = sized q k _ r in
    let letters : AreCrockford k = subst AreCrockford same b in
    (
      sym same ∙ a,
      record {
        letters = letters;
        size = sym (len-AreCrockford k letters) ∙ sym (ap len same) ∙ size;
      },
    )

pub normalize_kid-IsCanonical : (k : Text) → IsCanonical k → normalize_kid k ≡ ok k
unfolding normalize_kid normalize_kid_query
normalize_kid-IsCanonical [] c = absurd (omega (arith, c.size))
normalize_kid-IsCanonical (a ∷ k) c =
    rw (undashed-AreCrockford (a ∷ k) c.letters)
      (ground (arith, len-AreCrockford (a ∷ k) c.letters))

from_canonical-normalize :
    (v k : Text) → from_canonical v ≡ ok k → (normalize_kid v ≡ ok k) × (k ≡ v)
unfolding from_canonical
from_canonical-normalize v k h = elim (Result-cases (normalize_kid v)) [
  | inl (c, e) ↦ ground (arith, text_eq_iff c v)
  | inr (f, e) ↦ ground arith
]

from_canonical_self : (v : Text) → IsCanonical v → from_canonical v ≡ ok v
unfolding from_canonical
from_canonical_self v c = ground (arith, normalize_kid-IsCanonical v c, text_eq_refl v)

from_canonical_sound : (v k : Text) → from_canonical v ≡ ok k → (k ≡ v) × IsCanonical v
from_canonical_sound v k h =
    let (e, same) = from_canonical-normalize v k h in
    (same, subst IsCanonical same (normalize_kid-ok v k e).1)

-- A stored `kid` is accepted exactly when it is 32 characters of the alphabet, and is kept as it is.
pub from_canonical_iff : (v k : Text) → (from_canonical v ≡ ok k) ↔ ((k ≡ v) × IsCanonical v)
from_canonical_iff v k =
    (from_canonical_sound v k, λ h. from_canonical_self v h.1 ∙ ap ok (sym h.0))
