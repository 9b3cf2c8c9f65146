-- ===== src/Text/Sort.antt =====
-- `sort` on a `Vec<String>`: a stable sort, which on texts is any sort.
use kapsaro.Base.{◌||◌, List, [], ◌∷◌, ◌≡◌, ◌∙◌, ap, arith, if◌then◌else◌, Text, refl}
use kapsaro.Text.Equality.{text_eq, contains}
use kapsaro.Text.Order.{text_leb}

unfoldable pub sort_insert : Text → List Text → List Text
sort_insert k [] = k ∷ []
sort_insert k (x ∷ xs) =
    let rest = sort_insert k xs in if text_leb k x then k ∷ x ∷ xs else x ∷ rest

unfoldable pub sort : List Text → List Text
unfolding sort_insert
sort [] = []
sort (k ∷ ks) = sort_insert k (sort ks)

contains-sort_insert :
    (k j : Text) (xs : List Text) → contains (sort_insert k xs) j ≡ (text_eq k j || contains xs j)
unfolding sort_insert
contains-sort_insert k j [] = refl
contains-sort_insert k j (x ∷ xs) = ground (arith, contains-sort_insert k j xs)

-- sorting keeps the elements
pub contains-sort : (ks : List Text) (j : Text) → contains (sort ks) j ≡ contains ks j
unfolding sort
contains-sort [] j = refl
contains-sort (k ∷ ks) j =
    contains-sort_insert k j (sort ks) ∙ ap (λ b. text_eq k j || b) (contains-sort ks j)
