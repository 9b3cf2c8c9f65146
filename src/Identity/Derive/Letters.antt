-- ===== src/Identity/Derive/Letters.antt =====
-- The letters of a derived key id (format/kid.rs).
use kapsaro.Base.{
  ℕ, zero, suc, ◌+◌, ◌-◌, ◌*◌, ◌/◌, ◌%◌, ◌<◌, ◌≤◌, ◌≡◌, refl, List, [], ◌∷◌, some, length,
  get_elem?, Text, Bool, true, all, arith, ◌∙◌,
}
use kapsaro.Identity.Kid.{is_crockford_base32_byte}
use kapsaro.Identity.Kid.Canonical.{IsCanonical}
use kapsaro.Identity.Derive.{
  crockford_base32_alphabet, bit_at, shift_right, collect_bits, encode_groups,
  encode_crockford_base32,
}

elem-all :
    (p : ℕ → Bool) (xs : List ℕ) (i : ℕ)
    → all p xs ≡ true
    → i < length xs
    → (c : ℕ) × (get_elem? xs i ≡ some c) × (p c ≡ true)
elem-all p [] i a h = absurd (omega arith)
elem-all p (x ∷ xs) zero a h = (x, refl, ground arith)
elem-all p (x ∷ xs) (suc i) a h = elem-all p xs i (ground arith) (omega arith)

elem-some : (xs : List ℕ) (i : ℕ) → i < length xs → (c : ℕ) × (get_elem? xs i ≡ some c)
elem-some [] i h = absurd (omega arith)
elem-some (x ∷ xs) zero h = (x, refl)
elem-some (x ∷ xs) (suc i) h = elem-some xs i (omega arith)

bit_at-byte :
    (bytes : List ℕ) (i byte : ℕ)
    → get_elem? bytes (i / 8) ≡ some byte
    → bit_at bytes i ≡ some (shift_right byte (7 - i % 8) % 2)
unfolding bit_at
bit_at-byte bytes i byte e = rw (e, bit_at) refl

bit_at-some :
    (bytes : List ℕ) (i : ℕ) → i < length bytes * 8 → (b : ℕ) × (bit_at bytes i ≡ some b) × (b < 2)
bit_at-some bytes i h =
    let (byte, e) = elem-some bytes (i / 8) (omega arith) in
    (shift_right byte (7 - i % 8) % 2, bit_at-byte bytes i byte e, omega arith)

-- One more bit at most doubles the bound of the value.
collect-step :
    (bytes : List ℕ) (i n v bound : ℕ)
    → i < length bytes * 8
    → v < bound
    → bound ≤ 128
    → (w : ℕ) × (collect_bits bytes i (suc n) v ≡ collect_bits bytes (suc i) n w) × (w < bound * 2)
unfolding collect_bits
collect-step bytes i n v bound h small top =
    let (b, e, bit) = bit_at-some bytes i h in (v * 2 % 256 + b, ground arith, omega arith)

collect_bits-some :
    (bytes : List ℕ) (i : ℕ)
    → i + 5 ≤ length bytes * 8
    → (w : ℕ) × (collect_bits bytes i 5 0 ≡ some w) × (w < 32)
collect_bits-some bytes i h =
    let (a, e1, l1) = collect-step bytes i 4 0 1 (omega arith) (omega arith) (omega arith) in
    let (b, e2, l2) = collect-step bytes (suc i) 3 a 2 (omega arith) (omega arith) (omega arith) in
    let (c, e3, l3) =
      collect-step bytes (suc (suc i)) 2 b 4 (omega arith) (omega arith) (omega arith) in
    let (d, e4, l4) =
      collect-step bytes (suc (suc (suc i))) 1 c 8 (omega arith) (omega arith) (omega arith) in
    let (w, e5, l5) =
      collect-step bytes (suc (suc (suc (suc i)))) 0 d 16 (omega arith) (omega arith)
        (omega arith) in
    (w, e1 ∙ e2 ∙ e3 ∙ e4 ∙ e5 ∙ unfold collect_bits in refl, omega arith)

alphabet-letters : all is_crockford_base32_byte crockford_base32_alphabet ≡ true
unfolding is_crockford_base32_byte
alphabet-letters = refl

groups-letters :
    (bytes : List ℕ) (g n : ℕ)
    → (g + n) * 5 ≤ length bytes * 8
    → (k : Text) × (encode_groups bytes g n ≡ some k)
      × (length k ≡ n)
      × (all is_crockford_base32_byte k ≡ true)
unfolding encode_groups
groups-letters bytes g zero h = ([], refl, refl, refl)
groups-letters bytes g (suc n) h =
    let (w, e, small) = collect_bits-some bytes (g * 5) (omega arith) in
    let (c, found, letter) =
      elem-all is_crockford_base32_byte crockford_base32_alphabet w alphabet-letters
        (omega (arith, small)) in
    let (k, rest, size, letters) = groups-letters bytes (suc g) n (omega arith) in
    (c ∷ k, ground arith, omega (arith, size), ground arith)

-- The first 20 bytes of a digest are always encoded, without an index out of range, and into a key id
-- in the form that a stored document must carry.
pub encode_crockford_base32-IsCanonical :
    (bytes : List ℕ)
    → length bytes ≡ 20
    → (kid : Text) × (encode_crockford_base32 bytes ≡ some kid) × IsCanonical kid
unfolding encode_crockford_base32
encode_crockford_base32-IsCanonical bytes h =
    let (k, e, size, letters) = groups-letters bytes 0 (length bytes * 8 / 5) (omega (arith, h)) in
    (k, e, record { letters = letters; size = omega (arith, size, h) })
