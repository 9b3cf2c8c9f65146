-- ===== src/Text/Search.antt =====
-- Prefixes, splitting, trimming and replacing.
use kapsaro.Base.{
  ℕ, zero, suc, ◌-◌, Bool, true, false, ◌&&◌, not, [], ◌∷◌, ◌++◌, ◌≡◌, refl, ap, arith, ◌==◌, Text,
  all, if◌then◌else◌, is_empty, length, Option, none, some,
}
use kapsaro.Text.Chars.{is_whitespace}

-- `strip_prefix`
unfoldable pub strip_prefix : Text → Text → Option Text
strip_prefix [] s = some s
strip_prefix (p ∷ ps) [] = none
strip_prefix (p ∷ ps) (c ∷ s) = elim (p == c) [ true ↦ strip_prefix ps s | false ↦ none ]

-- `starts_with(char)`
abbrev pub starts_with : ℕ → Text → Bool
starts_with p [] = false
starts_with p (c ∷ s) = c == p

-- `ends_with(char)`
abbrev pub ends_with : ℕ → Text → Bool
ends_with p [] = false
ends_with p (c ∷ []) = c == p
ends_with p (c ∷ d ∷ s) = ends_with p (d ∷ s)

-- `find(c)` with the slices before and after the character that is found
unfoldable pub split_once : ℕ → Text → Option (Text × Text)
split_once p [] = none
split_once p (c ∷ s) = elim (c == p) [
  | true ↦ some ([], s)
  | false ↦ elim (split_once p s) [ none ↦ none | some (before, after) ↦ some (c ∷ before, after) ]
]

-- `s[..s.len() - 1]`, of a text that ends in a one-byte character
unfoldable pub drop_last : Text → Text
drop_last [] = []
drop_last (c ∷ []) = []
drop_last (c ∷ d ∷ s) = c ∷ drop_last (d ∷ s)

unfoldable pub trim_start : Text → Text
unfolding is_whitespace
trim_start [] = []
trim_start (c ∷ s) = elim (is_whitespace c) [ true ↦ trim_start s | false ↦ c ∷ s ]

unfoldable pub trim_end : Text → Text
unfolding is_whitespace
trim_end [] = []
trim_end (c ∷ s) =
    let rest = trim_end s in if is_empty rest && is_whitespace c then [] else c ∷ rest

unfoldable pub trim : Text → Text
unfolding trim_start trim_end
trim s = trim_end (trim_start s)

abbrev pub is_prefix : Text → Text → Bool
is_prefix [] s = true
is_prefix (p ∷ ps) [] = false
is_prefix (p ∷ ps) (c ∷ s) = p == c && is_prefix ps s

-- `skip` characters of a match are still to be passed over
unfoldable pub replace_from : Text → Text → ℕ → Text → Text
replace_from from to skip [] = []
replace_from from to (suc skip) (c ∷ s) = replace_from from to skip s
replace_from from to zero (c ∷ s) = elim (is_prefix from (c ∷ s)) [
  | true ↦ to ++ replace_from from to (length from - 1) s
  | false ↦ c ∷ replace_from from to zero s
]

-- `str::replace`, of a pattern that is not empty
unfoldable pub replace : Text → Text → Text → Text
unfolding replace_from
replace from to s = replace_from from to zero s

-- Text with no `p` in it, then `p`, splits there.
pub split_once-append :
    (p : ℕ) (s rest : Text)
    → all (λ c. not (c == p)) s ≡ true
    → split_once p (s ++ p ∷ rest) ≡ some (s, rest)
unfolding split_once
split_once-append p [] rest h = ground arith
split_once-append p (c ∷ s) rest h = ground (arith, split_once-append p s rest)

pub strip_prefix-append : (p s : Text) → strip_prefix p (p ++ s) ≡ some s
unfolding strip_prefix
strip_prefix-append [] s = refl
strip_prefix-append (c ∷ p) s = ground (arith, strip_prefix-append p s)

pub drop_last-append : (c : ℕ) (s : Text) → drop_last (s ++ c ∷ []) ≡ s
unfolding drop_last
drop_last-append c [] = refl
drop_last-append c (a ∷ []) = refl
drop_last-append c (a ∷ b ∷ s) = ap (λ t. a ∷ t) (drop_last-append c (b ∷ s))

pub ends_with-append : (p c : ℕ) (s : Text) → ends_with p (s ++ c ∷ []) ≡ (c == p)
ends_with-append p c [] = refl
ends_with-append p c (a ∷ []) = refl
ends_with-append p c (a ∷ b ∷ s) = ends_with-append p c (b ∷ s)
