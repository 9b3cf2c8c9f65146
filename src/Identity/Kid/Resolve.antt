-- ===== src/Identity/Kid/Resolve.antt =====
-- What a query of support/kid.rs names.
use kapsaro.Base.{
  ℕ, ◌+◌, ◌<◌, true, List, [], ◌∷◌, ◌≡◌, ◌⊎◌, inl, inr, ◌∙◌, refl, sym, ap, arith, Text, length,
  filter, if◌then◌else◌, Bool-cases,
}
use kapsaro.Errors.{
  ok, err, >>=-eq-ok, build_not_found_error, kid_not_found, build_invalid_argument_error,
  kid_ambiguous,
}
use kapsaro.Text.{is_prefix}
use kapsaro.Identity.Kid.{
  normalize_kid_query, normalize_kid, normalize_all, pick_unique, resolve_unique_kid,
}

-- How many of the candidates have a normal form with the prefix `q`.
abbrev pub hits : Text → List Text → ℕ
hits q [] = 0
hits q (c ∷ cs) =
    (elim (normalize_kid c) [ ok k ↦ if is_prefix q k then 1 else 0 | err e ↦ 0 ]) + hits q cs

-- One of the candidates, an id `k` in normal form.
abbrev pub HasForm : Text → List Text → Type 0
HasForm k [] = ⊥
HasForm k (c ∷ cs) = (normalize_kid c ≡ ok k) ⊎ HasForm k cs

hits-length :
    (q : Text) (cs ks : List Text)
    → normalize_all cs ≡ ok ks
    → hits q cs ≡ length (filter (λ k. is_prefix q k) ks)
unfolding normalize_all
hits-length q [] ks h = ground arith
hits-length q (c ∷ cs) ks h =
    let (k, e, r) = >>=-eq-ok (normalize_kid c) _ h in
    let (later, e', r') = >>=-eq-ok (normalize_all cs) _ r in
    ground (arith, hits-length q cs later e')

pick-one : (query : Text) (ks : List Text) (k : Text) → pick_unique query ks ≡ ok k → ks ≡ k ∷ []
pick-one query [] k h = cc
pick-one query (x ∷ []) k h = cc
pick-one query (x ∷ y ∷ ks) k h = cc

-- the first candidate is the one, or it is among the others
head-one :
    (q x k : Text) (later : List Text)
    → filter (λ y. is_prefix q y) (x ∷ later) ≡ k ∷ []
    → ((x ≡ k) × (is_prefix q x ≡ true)) ⊎ (filter (λ y. is_prefix q y) later ≡ k ∷ [])
head-one q x k later f = elim (Bool-cases (is_prefix q x)) [
  | inl hit ↦ inl (ground arith, hit)
  | inr miss ↦ inr (ground arith)
]

filter-one :
    (q : Text) (cs ks : List Text) (k : Text)
    → normalize_all cs ≡ ok ks
    → filter (λ x. is_prefix q x) ks ≡ k ∷ []
    → HasForm k cs × (is_prefix q k ≡ true)
unfolding normalize_all
filter-one q [] ks k h f =
    let none_left : ks ≡ [] = cc in absurd (cc (ap (filter (λ x. is_prefix q x)) none_left))
filter-one q (c ∷ cs) ks k h f =
    let (x, e, r) = >>=-eq-ok (normalize_kid c) _ h in
    let (later, e', r') = >>=-eq-ok (normalize_all cs) _ r in
    let split : ks ≡ x ∷ later = cc in
    elim (head-one q x k later (ap (filter (λ y. is_prefix q y)) (sym split) ∙ f)) [
      | inl (same, hit) ↦ (inl (rw (← same) e), rw (← same) hit)
      | inr rest ↦ let (found, hit) = filter-one q cs later k e' rest in (inr found, hit)
    ]

-- A query that is resolved gives the normal form of one of the candidates; the normal query is a
-- prefix of it, and of no other candidate's normal form.
pub resolve_unique_kid_sound :
    (candidates : List Text) (query k : Text)
    → resolve_unique_kid candidates query ≡ ok k
    → (q : Text) × (normalize_kid_query query ≡ ok q)
      × HasForm k candidates
      × (is_prefix q k ≡ true)
      × (hits q candidates ≡ 1)
unfolding resolve_unique_kid
resolve_unique_kid_sound candidates query k h =
    let (q, e, r) = >>=-eq-ok (normalize_kid_query query) _ h in
    let (ks, e', r') = >>=-eq-ok (normalize_all candidates) _ r in
    let one = pick-one query _ k r' in
    let (found, hit) = filter-one q candidates ks k e' one in
    (q, e, found, hit, hits-length q candidates ks e' ∙ ap length one)

pick-missing :
    (query : Text) (ks : List Text)
    → length ks ≡ 0
    → pick_unique query ks ≡ err (build_not_found_error (kid_not_found query))
pick-missing query [] h = refl
pick-missing query (x ∷ ks) h = absurd (omega arith)

pick-many :
    (query : Text) (ks : List Text)
    → 1 < length ks
    → pick_unique query ks ≡ err (build_invalid_argument_error (kid_ambiguous query))
pick-many query [] h = absurd (omega arith)
pick-many query (x ∷ []) h = absurd (omega arith)
pick-many query (x ∷ y ∷ ks) h = refl

-- With a well-formed query and candidates, no hit is reported as not found, and more than one hit
-- as an ambiguous query.
pub resolve_unique_kid-errors :
    (candidates ks : List Text) (query q : Text)
    → normalize_kid_query query ≡ ok q
    → normalize_all candidates ≡ ok ks
    → (hits q candidates ≡ 0
        → resolve_unique_kid candidates query ≡ err (build_not_found_error (kid_not_found query)))
      × (1 < hits q candidates
          → resolve_unique_kid candidates query
            ≡ err (build_invalid_argument_error (kid_ambiguous query)))
unfolding resolve_unique_kid
resolve_unique_kid-errors candidates ks query q e e' = rw e (
    rw e' (
      λ none_hit. pick-missing query _ (sym (hits-length q candidates ks e') ∙ none_hit),
      λ many. pick-many query _ (omega (arith, hits-length q candidates ks e')),
    ))
