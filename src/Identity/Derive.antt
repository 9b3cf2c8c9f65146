-- ===== src/Identity/Derive.antt =====
-- `encode_crockford_base32` of crates/kapsaro-core/src/format/kid.rs: the letters of a key id from the
-- first 20 bytes of a SHA-256 digest. `none` is the panic of an index out of range.
pub mod Letters
use kapsaro.Base.{
  ℕ, zero, suc, ◌+◌, ◌-◌, ◌*◌, ◌/◌, ◌%◌, List, [], ◌∷◌, Option, none, some, length, get_elem?, Text,
}
use kapsaro.Text.{codes}

abbrev pub crockford_base32_alphabet : Text
crockford_base32_alphabet = codes "0123456789ABCDEFGHJKMNPQRSTVWXYZ"

-- `byte >> n`
abbrev pub shift_right : ℕ → ℕ → ℕ
shift_right byte zero = byte
shift_right byte (suc n) = shift_right byte n / 2

-- `(bytes[i / 8] >> (7 - i % 8)) & 1`
unfoldable pub bit_at : List ℕ → ℕ → Option ℕ
bit_at bytes i = elim (get_elem? bytes (i / 8)) [
  | none ↦ none
  | some byte ↦ some (shift_right byte (7 - i % 8) % 2)
]

-- The inner loop: `n` more bits from bit `i` on; `value << 1` of a `u8` drops its top bit.
unfoldable pub collect_bits : List ℕ → ℕ → ℕ → ℕ → Option ℕ
collect_bits bytes i zero value = some value
collect_bits bytes i (suc n) value = elim (bit_at bytes i) [
  | none ↦ none
  | some bit ↦ collect_bits bytes (suc i) n (value * 2 % 256 + bit)
]

-- The outer loop: `n` more groups from group `g` on.
unfoldable pub encode_groups : List ℕ → ℕ → ℕ → Option Text
encode_groups bytes g zero = some []
encode_groups bytes g (suc n) = elim (collect_bits bytes (g * 5) 5 0) [
  | none ↦ none
  | some value ↦ elim (get_elem? crockford_base32_alphabet value) [
    | none ↦ none
    | some letter ↦ elim (encode_groups bytes (suc g) n) [
      | some rest ↦ some (letter ∷ rest)
      | none ↦ none
    ]
  ]
]

unfoldable pub encode_crockford_base32 : List ℕ → Option Text
encode_crockford_base32 bytes = encode_groups bytes 0 (length bytes * 8 / 5)
