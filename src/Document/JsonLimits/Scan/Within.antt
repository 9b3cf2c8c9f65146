-- ===== src/Document/JsonLimits/Scan/Within.antt =====
-- Which inputs the scan of support/json_limits.rs accepts.
use kapsaro.Base.{
  ℕ, suc, ◌-◌, ◌≤◌, true, false, [], ◌∷◌, ◌≡◌, ◌↔◌, inl, inr, refl, arith, ◌==◌, ==_iff, leb, Text,
  Bool-cases,
}
use kapsaro.Errors.{ok}
use kapsaro.Document.JsonLimits.{
  JsonScanState, initial, max_json_depth, max_json_elements, consume_in_string, consume_all,
  validate_json_limits,
}
use kapsaro.Document.JsonLimits.Scan.{
  outside_strings, is_open, is_close, is_element, elements_in, deepest, IsRunning, Decides,
  in-escape, in-string, in-quote, opened, too_deep, too_many, in-open, in-close, in-element,
  in-other,
}

string-IsRunning : (st : JsonScanState) (b : ℕ) → IsRunning st → IsRunning (consume_in_string st b)
unfolding consume_in_string
string-IsRunning st b r = elim (Bool-cases (b == b'\\')) [
  | inl slash ↦ rw slash (record { below = r.below; shallow = r.shallow; few = r.few })
  | inr plain ↦ rw plain (elim (Bool-cases (b == b'"')) [
    | inl quote ↦ rw quote (record { below = r.below; shallow = r.shallow; few = r.few })
    | inr letter ↦ rw letter r
  ])
]

open-IsRunning :
    (st : JsonScanState) (b : ℕ) (bs : Text) (r : IsRunning st) (x : st.escape ≡ false)
    (q : st.in_string ≡ false) (plain : (b == b'"') ≡ false)
    → suc st.depth ≤ max_json_depth
    → suc st.elements ≤ max_json_elements
    → IsRunning (opened st b bs r x q plain)
open-IsRunning st b bs r x q plain shallow few = record {
  below = ground arith;
  shallow = ground (arith, r.shallow);
  few = few;
}

close-IsRunning :
    (st : JsonScanState) → IsRunning st → IsRunning (record st { depth = st.depth - 1 })
close-IsRunning st r = record { below = omega (arith, r.below); shallow = r.shallow; few = r.few }

-- The rest of the input is decided, from every state within the limits.
abbrev DecidesRest : Text → Type 0
DecidesRest bs = (st : JsonScanState) → IsRunning st → Decides st bs

module _ (st : JsonScanState) (b : ℕ) (bs : Text) (r : IsRunning st) (x : st.escape ≡ false)
    (q : st.in_string ≡ false) (plain : (b == b'"') ≡ false) (rest : DecidesRest bs) where
  bracket : is_open b ≡ true → Decides st (b ∷ bs)
  bracket o = elim (Bool-cases (leb (suc st.depth) max_json_depth)) [
    | inr deep ↦ too_deep st b bs r x q plain o (ground arith)
    | inl shallow ↦
        let s : suc st.depth ≤ max_json_depth = ground arith in
        elim (Bool-cases (leb (suc st.elements) max_json_elements)) [
          | inr many ↦ too_many st b bs r x q plain (ground arith) (λ _. s) (ground arith)
          | inl few ↦
              let f : suc st.elements ≤ max_json_elements = ground arith in
              in-open st b bs r x q plain o s f
                (rest (opened st b bs r x q plain) (open-IsRunning st b bs r x q plain s f))
        ]
  ]

  separator : is_open b ≡ false → is_close b ≡ false → Decides st (b ∷ bs)
  separator o c = elim (Bool-cases (is_element b)) [
    | inr e ↦ in-other st b bs r x q plain o c e (rest st r)
    | inl e ↦ elim (Bool-cases (leb (suc st.elements) max_json_elements)) [
      | inr many ↦ too_many st b bs r x q plain e (λ t. absurd cc) (ground arith)
      | inl few ↦
          let f : suc st.elements ≤ max_json_elements = ground arith in
          in-element st b bs r x q plain o c e f (
            rest (record st { elements = suc st.elements })
              (record { below = r.below; shallow = r.shallow; few = f }))
    ]
  ]

  structural : Decides st (b ∷ bs)
  structural = elim (Bool-cases (is_open b)) [
    | inl o ↦ bracket o
    | inr o ↦ elim (Bool-cases (is_close b)) [
      | inl c ↦
          in-close st b bs r x q plain o c
            (rest (record st { depth = st.depth - 1 }) (close-IsRunning st r))
      | inr c ↦ separator o c
    ]
  ]

scan-within : (st : JsonScanState) (bs : Text) → IsRunning st → Decides st bs
scan-within st [] r =
    unfold consume_all in
    (λ h. (omega (arith, r.few), omega (arith, r.below, r.shallow)), λ h. refl)
scan-within st (b ∷ bs) r = elim (Bool-cases st.escape) [
  | inl x ↦ in-escape st b bs x (
      scan-within (record st { escape = false }) bs
        (record { below = r.below; shallow = r.shallow; few = r.few }))
  | inr x ↦ elim (Bool-cases st.in_string) [
    | inl q ↦
        in-string st b bs x q (scan-within (consume_in_string st b) bs (string-IsRunning st b r))
    | inr q ↦ elim (Bool-cases (b == b'"')) [
      | inl quote ↦ rw ((==_iff b b'"').0 quote) (
          in-quote st bs r x q (
            scan-within (record st { in_string = true }) bs
              (record { below = r.below; shallow = r.shallow; few = r.few })))
      | inr plain ↦ structural st b bs r x q plain (λ next running. scan-within next bs running)
    ]
  ]
]

-- The scan accepts an input exactly where the bytes of `{[:,` outside its string literals are at most
-- 13000 and the nesting of its brackets outside them is at most 32 deep.
pub validate_json_limits_iff :
    (input : Text)
    → (validate_json_limits input ≡ ok tt) ↔ (
        (elements_in (outside_strings false false input) ≤ max_json_elements)
        × (deepest 0 (outside_strings false false input) ≤ max_json_depth))
unfolding validate_json_limits
validate_json_limits_iff input =
    let within =
      scan-within initial input
        (record { below = omega arith; shallow = omega arith; few = omega arith }) in
    (λ h. (omega (arith, (within.0 h).0), (within.0 h).1), λ h. within.1 (omega (arith, h.0), h.1))
