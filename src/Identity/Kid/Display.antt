-- ===== src/Identity/Kid/Display.antt =====
-- The dashed display forms of support/kid.rs, and how they are read.
use kapsaro.Base.{ℕ, zero, suc, ◌≤◌, true, [], ◌∷◌, ◌++◌, ◌≡◌, ◌≢◌, ◌∙◌, refl, arith, Text, length}
use kapsaro.Errors.{ok}
use kapsaro.Text.{is_prefix}
use kapsaro.Identity.Kid.{
  undashed, normalize_kid_query, normalize_kid, kid_len, chunks, push_chunks, join_chunks,
  format_kid_display, format_kid_half_display, take,
}
use kapsaro.Identity.Kid.Canonical.{
  AreCrockford, IsCanonical, undashed-AreCrockford, normalize_kid-ok, len-AreCrockford,
  normalize_kid-IsCanonical,
}

undashed-append : (s t : Text) → undashed (s ++ t) ≡ undashed s ++ undashed t
unfolding undashed
undashed-append [] t = refl
undashed-append (c ∷ s) t = ground (arith, undashed-append s t)

undashed-push_chunks : (s : Text) → undashed (push_chunks (chunks s)) ≡ undashed s
unfolding undashed push_chunks chunks
undashed-push_chunks [] = refl
undashed-push_chunks (a ∷ []) = refl
undashed-push_chunks (a ∷ b ∷ []) = refl
undashed-push_chunks (a ∷ b ∷ c ∷ []) = refl
undashed-push_chunks (a ∷ b ∷ c ∷ d ∷ s) = ground (arith, undashed-push_chunks s)

-- Dashes between the groups change nothing for a reader who drops them.
undashed-join_chunks : (s : Text) → undashed (join_chunks (chunks s)) ≡ undashed s
unfolding undashed join_chunks chunks
undashed-join_chunks [] = refl
undashed-join_chunks (a ∷ []) = refl
undashed-join_chunks (a ∷ b ∷ []) = refl
undashed-join_chunks (a ∷ b ∷ c ∷ []) = refl
undashed-join_chunks (a ∷ b ∷ c ∷ d ∷ s) = ground (arith, undashed-push_chunks s)

normalize-undashed :
    (s t : Text) → undashed s ≡ undashed t → normalize_kid_query s ≡ normalize_kid_query t
unfolding normalize_kid_query
normalize-undashed s t e = rw e

display-eq : (k d : Text) → IsCanonical k → format_kid_display k ≡ ok d → d ≡ join_chunks (chunks k)
unfolding format_kid_display
display-eq k d c h = ground (arith, normalize_kid-IsCanonical k c)

display-total : (k : Text) → IsCanonical k → format_kid_display k ≡ ok (join_chunks (chunks k))
unfolding format_kid_display
display-total k c = rw (normalize_kid-IsCanonical k c)

normalize-display : (k : Text) → IsCanonical k → normalize_kid (join_chunks (chunks k)) ≡ ok k
normalize-display k c =
    unfold normalize_kid in
    rw (normalize-undashed (join_chunks (chunks k)) k (undashed-join_chunks k))
      (normalize_kid-IsCanonical k c)

-- The display form of a normalized id exists and is read back as that id.
pub format_kid_display-normalize :
    (s k : Text)
    → normalize_kid s ≡ ok k
    → (d : Text) × (format_kid_display k ≡ ok d) × (normalize_kid d ≡ ok k)
format_kid_display-normalize s k h =
    let c = (normalize_kid-ok s k h).1 in
    (join_chunks (chunks k), display-total k c, normalize-display k c)

take-AreCrockford : (n : ℕ) (k : Text) → AreCrockford k → AreCrockford (take n k)
unfolding take
take-AreCrockford zero k h = refl
take-AreCrockford (suc n) [] h = refl
take-AreCrockford (suc n) (c ∷ k) h = ground (arith, take-AreCrockford n k)

length-take_le : (n : ℕ) (k : Text) → length (take n k) ≤ n
unfolding take
length-take_le zero k = omega arith
length-take_le (suc n) [] = omega arith
length-take_le (suc n) (c ∷ k) = omega (arith, length-take_le n k)

take-is_prefix : (n : ℕ) (k : Text) → is_prefix (take n k) k ≡ true
unfolding take
take-is_prefix zero k = refl
take-is_prefix (suc n) [] = refl
take-is_prefix (suc n) (c ∷ k) = ground (arith, take-is_prefix n k)

query-AreCrockford :
    (q : Text) → AreCrockford q → q ≢ [] → length q ≤ kid_len → normalize_kid_query q ≡ ok q
unfolding normalize_kid_query
query-AreCrockford [] h ne l = absurd (ne refl)
query-AreCrockford (c ∷ q) h ne l =
    rw (undashed-AreCrockford (c ∷ q) h) (ground (arith, len-AreCrockford (c ∷ q) h))

half-ne-nil : (k : Text) → IsCanonical k → take 16 k ≢ []
unfolding take
half-ne-nil [] c h = absurd (omega (arith, c.size))
half-ne-nil (a ∷ k) c h = cc

-- The half display form of a normalized id exists, and as a query it stands for the first 16
-- characters of the id, a prefix of it.
pub format_kid_half_display-query :
    (s k : Text)
    → normalize_kid s ≡ ok k
    → (d : Text) × (format_kid_half_display k ≡ ok d)
      × (normalize_kid_query d ≡ ok (take 16 k))
      × (is_prefix (take 16 k) k ≡ true)
unfolding format_kid_half_display
format_kid_half_display-query s k h =
    let c = (normalize_kid-ok s k h).1 in
    (
      join_chunks (chunks (take 16 k)),
      rw (normalize_kid-IsCanonical k c),
      normalize-undashed (join_chunks (chunks (take 16 k))) (take 16 k)
            (undashed-join_chunks (take 16 k))
          ∙ query-AreCrockford (take 16 k) (take-AreCrockford 16 k c.letters) (half-ne-nil k c)
              (omega (arith, length-take_le 16 k)),
      take-is_prefix 16 k,
    )
