-- ===== src/Text/Sorted.antt =====
-- `BTreeSet<String>`: the texts in order, each once.
use kapsaro.Base.{
  true, false, ◌||◌, List, [], ◌∷◌, ◌≡◌, ◌∙◌, refl, sym, ap, subst, arith, Text, if◌then◌else◌,
  Bool-cases, inl, inr,
}
use kapsaro.Text.Equality.{text_eq, text_eq_iff, text_eq_refl, text_eq_sym, contains}
use kapsaro.Text.Order.{text_leb, text_leb_refl, text_leb_trans, text_leb_antisymm, text_leb_total}

-- `insert` on the ordered list
unfoldable pub set_insert : Text → List Text → List Text
set_insert k [] = k ∷ []
set_insert k (x ∷ xs) =
    if text_eq x k then x ∷ xs else if text_leb k x then k ∷ x ∷ xs else x ∷ set_insert k xs

unfoldable pub set_of : List Text → List Text
unfolding set_insert
set_of [] = []
set_of (k ∷ ks) = set_insert k (set_of ks)

-- `k` stands strictly below every element.
abbrev pub Below : Text → List Text → Type 0
Below k [] = Unit
Below k (x ∷ xs) = (text_leb k x ≡ true) × (text_eq k x ≡ false) × Below k xs

abbrev pub IsAscending : List Text → Type 0
IsAscending [] = Unit
IsAscending (x ∷ xs) = Below x xs × IsAscending xs

pub contains-set_insert :
    (k j : Text) (xs : List Text) → contains (set_insert k xs) j ≡ (text_eq k j || contains xs j)
unfolding set_insert
contains-set_insert k j [] = refl
contains-set_insert k j (x ∷ xs) =
    ground (arith, contains-set_insert k j xs, text_eq_iff x k, text_eq_iff x j, text_eq_iff k j)

pub contains-set_of : (j : Text) (ks : List Text) → contains (set_of ks) j ≡ contains ks j
unfolding set_of
contains-set_of j [] = refl
contains-set_of j (k ∷ ks) =
    contains-set_insert k j (set_of ks) ∙ ap (λ b. text_eq k j || b) (contains-set_of j ks)

Below-trans :
    (k x : Text) (xs : List Text)
    → text_leb k x ≡ true
    → text_eq k x ≡ false
    → Below x xs
    → Below k xs
Below-trans k x [] h n b = tt
Below-trans k x (y ∷ ys) h n b = (
  text_leb_trans k x y h b.0,
  ground (arith, text_eq_iff k y, text_eq_iff k x, text_eq_iff x y, text_leb_antisymm k x),
  Below-trans k x ys h n b.2,
)

Below-set_insert :
    (x k : Text) (xs : List Text)
    → text_leb x k ≡ true
    → text_eq x k ≡ false
    → Below x xs
    → Below x (set_insert k xs)
unfolding set_insert
Below-set_insert x k [] h n b = (h, n, tt)
Below-set_insert x k (y ∷ ys) h n b = ground (arith, Below-set_insert x k ys h n b.2)

pub set_insert-IsAscending :
    (k : Text) (xs : List Text) → IsAscending xs → IsAscending (set_insert k xs)
unfolding set_insert
set_insert-IsAscending k [] h = (tt, tt)
set_insert-IsAscending k (x ∷ xs) h = elim (Bool-cases (text_eq x k)) [
  | inl same ↦ rw same h
  | inr other ↦ rw other (elim (Bool-cases (text_leb k x)) [
    | inl before ↦ rw before (
      (before, text_eq_sym k x ∙ other, Below-trans k x xs before (text_eq_sym k x ∙ other) h.0),
      h,
    )
    | inr after ↦ rw after (
      Below-set_insert x k xs (text_leb_total k x after) other h.0,
      set_insert-IsAscending k xs h.1,
    )
  ])
]

pub set_of-IsAscending : (ks : List Text) → IsAscending (set_of ks)
unfolding set_of
set_of-IsAscending [] = tt
set_of-IsAscending (k ∷ ks) = set_insert-IsAscending k (set_of ks) (set_of-IsAscending ks)

-- An element is not strictly below itself, so it is not in the rest.
pub Below-not_contains : (k : Text) (xs : List Text) → Below k xs → contains xs k ≡ false
Below-not_contains k [] b = refl
Below-not_contains k (x ∷ xs) b = rw (text_eq_sym x k ∙ b.1) (Below-not_contains k xs b.2)

Below-leb : (k j : Text) (xs : List Text) → Below k xs → contains xs j ≡ true → text_leb k j ≡ true
Below-leb k j [] b h = cc
Below-leb k j (x ∷ xs) b h = elim (Bool-cases (text_eq x j)) [
  | inl same ↦ rw (← (text_eq_iff x j).0 same) b.0
  | inr other ↦ Below-leb k j xs b.2 (rw other at h)
]

-- The head of an ascending list is the least element.
head-least :
    (x j : Text) (xs : List Text) → Below x xs → contains (x ∷ xs) j ≡ true → text_leb x j ≡ true
head-least x j xs b h = elim (Bool-cases (text_eq x j)) [
  | inl same ↦ rw (← (text_eq_iff x j).0 same) (text_leb_refl x)
  | inr other ↦ Below-leb x j xs b (rw other at h)
]

tail-ext :
    (x : Text) (xs ys : List Text)
    → Below x xs
    → Below x ys
    → ((t : Text) → contains (x ∷ xs) t ≡ contains (x ∷ ys) t)
    → (t : Text) → contains xs t ≡ contains ys t
tail-ext x xs ys b c same t = elim (Bool-cases (text_eq x t)) [
  | inl hit ↦
      let e = (text_eq_iff x t).0 hit in
      subst (λ u. contains xs u ≡ contains ys u) e
        (Below-not_contains x xs b ∙ sym (Below-not_contains x ys c))
  | inr miss ↦ rw miss at (same t)
]

contains-head : (x : Text) (xs : List Text) → contains (x ∷ xs) x ≡ true
contains-head x xs = rw text_eq_refl

-- Two ascending lists with the same elements are one list.
pub IsAscending-ext :
    (xs ys : List Text)
    → IsAscending xs
    → IsAscending ys
    → ((t : Text) → contains xs t ≡ contains ys t)
    → xs ≡ ys
IsAscending-ext [] [] a b same = refl
IsAscending-ext [] (y ∷ ys) a b same = cc (same y, text_eq_refl y)
IsAscending-ext (x ∷ xs) [] a b same = cc (same x, text_eq_refl x)
IsAscending-ext (x ∷ xs) (y ∷ ys) a b same =
    let e : x ≡ y =
      text_leb_antisymm x y (head-least x y xs a.0 (same y ∙ contains-head y ys))
        (head-least y x ys b.0 (sym (same x) ∙ contains-head x xs)) in
    let rest : xs ≡ ys = IsAscending-ext xs ys a.1 b.1 (
      tail-ext x xs ys a.0 (subst (λ u. Below u ys) (sym e) b.0)
        (λ t. same t ∙ ap (λ u. contains (u ∷ ys) t) (sym e))) in
    cc

-- The set forgets the order and the repetitions of the list.
pub set_of-ext :
    (ks js : List Text) → ((t : Text) → contains ks t ≡ contains js t) → set_of ks ≡ set_of js
set_of-ext ks js same =
    IsAscending-ext (set_of ks) (set_of js) (set_of-IsAscending ks) (set_of-IsAscending js)
      (λ t. contains-set_of t ks ∙ same t ∙ sym (contains-set_of t js))
