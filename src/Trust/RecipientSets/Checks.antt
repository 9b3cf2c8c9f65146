-- ===== src/Trust/RecipientSets/Checks.antt =====
-- The sorted kids of a recipient set, and the checks of a stored one (recipient_sets/record.rs).
use kapsaro.Base.{
  ℕ, true, false, ◌||◌, List, [], ◌∷◌, some, ◌≡◌, ◌↔◌, inl, inr, ◌∙◌, refl, sym, ap, arith, Text,
  Bool-cases, subst, All,
}
use kapsaro.Errors.{ok, >>=-eq-ok}
use kapsaro.Text.{
  text_eq, text_eq_iff, text_eq_refl, text_eq_sym, contains, set_insert, set_of,
  contains-set_insert, contains-set_of, IsAscending, set_insert-IsAscending, set_of-IsAscending,
  IsAscending-ext, ends_with, Below-not_contains,
}
use kapsaro.Identity.Kid.{from_canonical}
use kapsaro.Identity.Kid.Canonical.{IsCanonical, from_canonical_iff}
use kapsaro.Trust.Purge.{ParseTime}
use kapsaro.Trust.Judgment.ActiveMember.Index.{text_list_eq_iff}
use kapsaro.Trust.RecipientSets.{
  ParseSid, HashKids, ArtifactRecipientSet, collect_kids, normalize_recipient_kids,
  new_recipient_set, into_record, validate_approved_at, validate_recipient_set_record,
}

abbrev pub AreDistinct : List Text → Type 0
AreDistinct [] = Unit
AreDistinct (k ∷ ks) = (contains ks k ≡ false) × AreDistinct ks

abbrev AreFresh : List Text → List Text → Type 0
AreFresh seen ks = All (λ k. contains seen k ≡ false) ks

fresh-insert :
    (k : Text) (seen ks : List Text)
    → AreFresh (set_insert k seen) ks ↔ (AreFresh seen ks × (contains ks k ≡ false))
fresh-insert k seen [] = (λ h. (tt, refl), λ h. tt)
fresh-insert k seen (j ∷ ks) = (
  λ h. (
    (ground (arith, contains-set_insert k j seen), ((fresh-insert k seen ks).0 h.1).0),
    ground (arith, contains-set_insert k j seen, (fresh-insert k seen ks).0 h.1, text_eq_sym j k),
  ),
  λ h. (
    ground (arith, contains-set_insert k j seen, text_eq_sym j k),
    (fresh-insert k seen ks).1 (h.0.1, ground arith),
  ),
)

-- What a step of the loop has checked.
collect-step :
    (seen ks out : List Text) (k : Text)
    → collect_kids seen (k ∷ ks) ≡ ok out
    → IsCanonical k × (contains seen k ≡ false) × (collect_kids (set_insert k seen) ks ≡ ok out)
unfolding collect_kids
collect-step seen ks out k h =
    let (c, e, r) = >>=-eq-ok (from_canonical k) _ h in
    let (same, canonical) = (from_canonical_iff k c).0 e in (canonical, ground arith, ground arith)

collect-back :
    (seen ks : List Text) (k : Text)
    → IsCanonical k
    → contains seen k ≡ false
    → collect_kids seen (k ∷ ks) ≡ collect_kids (set_insert k seen) ks
unfolding collect_kids
collect-back seen ks k c n = rw ((from_canonical_iff k k).1 (refl, c)) (ground arith)

collect_sound :
    (seen ks out : List Text)
    → IsAscending seen
    → collect_kids seen ks ≡ ok out
    → All IsCanonical ks
      × AreFresh seen ks
      × AreDistinct ks
      × IsAscending out
      × ((t : Text) → contains out t ≡ (contains seen t || contains ks t))
collect_sound seen [] out a h =
    let same : seen ≡ out = unfold collect_kids in cc in
    (tt, tt, tt, subst IsAscending same a, λ t. ground arith)
collect_sound seen (k ∷ ks) out a h =
    let (canonical, fresh, rest) = collect-step seen ks out k h in
    let (cs, fs, ds, asc, same) =
      collect_sound (set_insert k seen) ks out (set_insert-IsAscending k seen a) rest in
    let (older, apart) = (fresh-insert k seen ks).0 fs in
    (
      (canonical, cs),
      (fresh, older),
      (apart, ds),
      asc,
      λ t. ground (arith, same t, contains-set_insert k t seen),
    )

collect-ok :
    (seen ks : List Text)
    → All IsCanonical ks
    → AreFresh seen ks
    → AreDistinct ks
    → (out : List Text) × (collect_kids seen ks ≡ ok out)
collect-ok seen [] c f d = (seen, unfold collect_kids in refl)
collect-ok seen (k ∷ ks) c f d =
    let (out, e) =
      collect-ok (set_insert k seen) ks c.1 ((fresh-insert k seen ks).1 (f.1, d.0)) d.1 in
    (out, collect-back seen ks k c.0 f.0 ∙ e)

all-fresh : (ks : List Text) → AreFresh [] ks
all-fresh [] = tt
all-fresh (k ∷ ks) = (refl, all-fresh ks)

normalize-set_of :
    (ks out : List Text)
    → normalize_recipient_kids ks ≡ ok out
    → (out ≡ set_of ks) × All IsCanonical ks × AreDistinct ks
unfolding normalize_recipient_kids
normalize-set_of ks out h =
    let (cs, _, ds, asc, same) = collect_sound [] ks out tt h in
    (
      IsAscending-ext out (set_of ks) asc (set_of-IsAscending ks)
          (λ t. same t ∙ sym (contains-set_of t ks)),
      cs,
      ds,
    )

-- The kids of a recipient set are accepted exactly where each is canonical and no two are the same.
-- The result is then the set of them in ascending order, whatever the order they were given in.
pub normalize_recipient_kids_iff :
    (ks out : List Text)
    → (normalize_recipient_kids ks ≡ ok out)
      ↔ ((out ≡ set_of ks) × All IsCanonical ks × AreDistinct ks)
normalize_recipient_kids_iff ks out = (
  normalize-set_of ks out,
  λ (e, cs, ds).
      (let (found, done) = collect-ok [] ks cs (all-fresh ks) ds in
        let normal : normalize_recipient_kids ks ≡ ok found =
          unfold normalize_recipient_kids in done in
        normal ∙ ap ok ((normalize-set_of ks found normal).0 ∙ sym e)),
)

All-of : (P : Text → Type 0) (ks : List Text) → ((t : Text) → contains ks t ≡ true → P t) → All P ks
All-of P [] h = tt
All-of P (k ∷ ks) h =
    (h k (ground (arith, text_eq_refl k)), All-of P ks (λ t c. h t (ground arith)))

All-at : (P : Text → Type 0) (ks : List Text) (t : Text) → All P ks → contains ks t ≡ true → P t
All-at P [] t a c = absurd cc
All-at P (k ∷ ks) t a c = elim (Bool-cases (text_eq k t)) [
  | inl hit ↦ subst P ((text_eq_iff k t).0 hit) a.0
  | inr miss ↦ All-at P ks t a.1 (rw miss at c)
]

AreDistinct-ascending : (ks : List Text) → IsAscending ks → AreDistinct ks
AreDistinct-ascending [] a = tt
AreDistinct-ascending (k ∷ ks) a = (Below-not_contains k ks a.0, AreDistinct-ascending ks a.1)

-- Sorting the kids again changes nothing.
normalize-again :
    (ks out : List Text)
    → normalize_recipient_kids ks ≡ ok out
    → normalize_recipient_kids out ≡ ok out
normalize-again ks out h =
    let (e, cs, _) = (normalize_recipient_kids_iff ks out).0 h in
    let asc : IsAscending out = subst IsAscending (sym e) (set_of-IsAscending ks) in
    (normalize_recipient_kids_iff out out).1 (
      IsAscending-ext out (set_of out) asc (set_of-IsAscending out)
          (λ t. sym (contains-set_of t out)),
      All-of IsCanonical out (λ t c.
          All-at IsCanonical ks t cs
            (sym (contains-set_of t ks) ∙ ap (λ l. contains l t) (sym e) ∙ c)),
      AreDistinct-ascending out asc,
    )

set-parts :
    (hash : HashKids) (sid : Text) (ks : List Text) (set : ArtifactRecipientSet)
    → new_recipient_set hash sid ks ≡ ok set
    → (normalize_recipient_kids ks ≡ ok set.recipient_kids)
      × (hash set.recipient_kids ≡ ok set.recipient_set_hash)
      × (set.sid ≡ sid)
unfolding new_recipient_set
set-parts hash sid ks set h =
    let (out, e, r) = >>=-eq-ok (normalize_recipient_kids ks) _ h in
    let (digest, d, built) = >>=-eq-ok (hash out) _ r in (ground arith, ground arith, ground arith)

-- The record of a recipient set, with a sid that is a UUID and a UTC time that can be parsed, passes
-- the checks of a stored record.
pub validate_recipient_set_record-into_record :
    (parse_sid : ParseSid) (hash : HashKids) (parse : ParseTime) (sid u at : Text) (ks : List Text)
    (set : ArtifactRecipientSet) (time : ℕ)
    → new_recipient_set hash sid ks ≡ ok set
    → parse_sid sid ≡ some u
    → ends_with b'Z' at ≡ true
    → parse at ≡ some time
    → validate_recipient_set_record parse_sid hash parse (into_record set at) ≡ ok tt
unfolding validate_recipient_set_record into_record validate_approved_at
validate_recipient_set_record-into_record parse_sid hash parse sid u at ks set time built known utc
      parsed =
    let (sorted, digest, same) = set-parts hash sid ks set built in
    ground (
      arith,
      normalize-again ks set.recipient_kids sorted,
      text_list_eq_iff set.recipient_kids set.recipient_kids,
      text_eq_refl set.recipient_set_hash,
    )
