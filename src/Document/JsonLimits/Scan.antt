-- ===== src/Document/JsonLimits/Scan.antt =====
-- What the scan of json_limits.rs counts: the structural bytes outside string literals.
pub mod Within
use kapsaro.Base.{
  ℕ, zero, suc, ◌+◌, ◌-◌, ◌≤◌, Bool, true, false, not, ◌||◌, List, [], ◌∷◌, ◌≡◌, ◌↔◌, ◌∙◌, inl, inr,
  refl, arith, ◌==◌, ==_iff, leb, ltb, if◌then◌else◌, Text, filter, length, Bool-cases,
}
use kapsaro.Errors.{Error, Result, ok, err, ◌>>=◌, build_parse_error, json_depth, json_elements}
use kapsaro.Document.JsonLimits.{
  JsonScanState, initial, max_json_depth, max_json_elements, enforce_element_limit, open_container,
  consume_in_string, consume, consume_all, validate_json_limits,
}

-- The bytes outside string literals; the flags are a pending escape and an open string.
abbrev pub outside_strings : Bool → Bool → Text → Text
outside_strings escaped quoted [] = []
outside_strings true quoted (b ∷ bs) = outside_strings false quoted bs
outside_strings false true (b ∷ bs) = outside_strings (b == b'\\') (not (b == b'"')) bs
outside_strings false false (b ∷ bs) =
    let rest = outside_strings false (b == b'"') bs in if b == b'"' then rest else b ∷ rest

abbrev pub is_open : ℕ → Bool
is_open b = b == b'{' || b == b'['

abbrev pub is_close : ℕ → Bool
is_close b = b == b'}' || b == b']'

-- a byte that introduces one more element
abbrev pub is_element : ℕ → Bool
is_element b = is_open b || b == b':' || b == b','

abbrev pub elements_in : Text → ℕ
elements_in bs = length (filter is_element bs)

-- The nesting after a byte.
abbrev pub nested : ℕ → ℕ → ℕ
nested d b = if is_open b then suc d else if is_close b then d - 1 else d

-- The deepest nesting from nesting `d` on.
abbrev pub deepest : ℕ → Text → ℕ
deepest d [] = d
deepest d (b ∷ bs) = let rest = deepest (nested d b) bs in if ltb rest d then d else rest

deepest-start : (d : ℕ) (bs : Text) → d ≤ deepest d bs
deepest-start d [] = omega arith
deepest-start d (b ∷ bs) = ground arith

record IsRunning (st : JsonScanState) : Type 0 where
  pub below : st.depth ≤ st.max_depth
  pub shallow : st.max_depth ≤ max_json_depth
  pub few : st.elements ≤ max_json_elements

abbrev IsWithin : JsonScanState → Text → Type 0
IsWithin st bs =
    (st.elements + elements_in (outside_strings st.escape st.in_string bs) ≤ max_json_elements)
    × (deepest st.depth (outside_strings st.escape st.in_string bs) ≤ max_json_depth)

abbrev Decides : JsonScanState → Text → Type 0
Decides st bs = (consume_all st bs ≡ ok tt) ↔ IsWithin st bs

-- A byte that is consumed, where the limits for the rest are the limits for both.
Decides-step :
    (st next : JsonScanState) (b : ℕ) (bs : Text)
    → consume st b ≡ ok next
    → (IsWithin next bs ↔ IsWithin st (b ∷ bs))
    → Decides next bs
    → Decides st (b ∷ bs)
unfolding consume_all
Decides-step st next b bs e w d = rw e (λ h. w.0 (d.0 h), λ h. d.1 (w.1 h))

-- A byte that is refused, where a limit is passed.
Decides-fail :
    (st : JsonScanState) (b : ℕ) (bs : Text) (e : Error)
    → consume st b ≡ err e
    → ¬ IsWithin st (b ∷ bs)
    → Decides st (b ∷ bs)
unfolding consume_all
Decides-fail st b bs e f n = rw f (λ h. absurd cc, λ h. absurd (n h))

in-escape :
    (st : JsonScanState) (b : ℕ) (bs : Text)
    → st.escape ≡ true
    → Decides (record st { escape = false }) bs
    → Decides st (b ∷ bs)
unfolding consume
in-escape st b bs x d =
    Decides-step st (record st { escape = false }) b bs (ground arith) (rw x (λ h. h, λ h. h)) d

in-string :
    (st : JsonScanState) (b : ℕ) (bs : Text)
    → st.escape ≡ false
    → st.in_string ≡ true
    → Decides (consume_in_string st b) bs
    → Decides st (b ∷ bs)
unfolding consume consume_in_string
in-string st b bs x q d =
    Decides-step st (consume_in_string st b) b bs (ground arith) (ground arith) d

in-quote :
    (st : JsonScanState) (bs : Text)
    → IsRunning st
    → st.escape ≡ false
    → st.in_string ≡ false
    → Decides (record st { in_string = true }) bs
    → Decides st (b'"' ∷ bs)
unfolding consume enforce_element_limit
in-quote st bs r x q d =
    Decides-step st (record st { in_string = true }) b'"' bs (ground (arith, r.few)) (ground arith)
      d

module _ (st : JsonScanState) (b : ℕ) (bs : Text) (r : IsRunning st) (x : st.escape ≡ false)
    (q : st.in_string ≡ false) (plain : (b == b'"') ≡ false) where
  abbrev opened : JsonScanState
  opened = record st {
    depth = suc st.depth;
    max_depth = if ltb st.max_depth (suc st.depth) then suc st.depth else st.max_depth;
    elements = suc st.elements;
  }

  -- the limits, where the byte is structural
  outside-cons :
      outside_strings st.escape st.in_string (b ∷ bs) ≡ b ∷ outside_strings false false bs
  outside-cons = ground arith

  too_deep : is_open b ≡ true → max_json_depth ≤ st.depth → Decides st (b ∷ bs)
  unfolding consume enforce_element_limit open_container
  too_deep o deep =
      Decides-fail st b bs (build_parse_error (json_depth (suc st.depth)))
        (ground (arith, r.below, r.shallow))
        (λ w.
          ground (
            arith,
            outside-cons,
            deepest-start (suc st.depth) (outside_strings false false bs),
            w.1,
          ))

  too_many :
      is_element b ≡ true
      → (is_open b ≡ true → suc st.depth ≤ max_json_depth)
      → max_json_elements ≤ st.elements
      → Decides st (b ∷ bs)
  unfolding consume enforce_element_limit open_container
  too_many e shallow many =
      Decides-fail st b bs (build_parse_error (json_elements (suc st.elements)))
        (ground (arith, r.below, r.shallow)) (λ w. ground (arith, outside-cons, w.0))

  in-open :
      is_open b ≡ true
      → suc st.depth ≤ max_json_depth
      → suc st.elements ≤ max_json_elements
      → Decides opened bs
      → Decides st (b ∷ bs)
  unfolding consume enforce_element_limit open_container
  in-open o shallow few d =
      Decides-step st opened b bs (ground (arith, r.below, r.shallow))
        (ground
          (arith, outside-cons, deepest-start (suc st.depth) (outside_strings false false bs)))
        d

  in-close :
      is_open b ≡ false
      → is_close b ≡ true
      → Decides (record st { depth = st.depth - 1 }) bs
      → Decides st (b ∷ bs)
  unfolding consume enforce_element_limit
  in-close o c d =
      Decides-step st (record st { depth = st.depth - 1 }) b bs (ground (arith, r.few))
        (ground (arith, outside-cons, r.below, r.shallow)) d

  in-element :
      is_open b ≡ false
      → is_close b ≡ false
      → is_element b ≡ true
      → suc st.elements ≤ max_json_elements
      → Decides (record st { elements = suc st.elements }) bs
      → Decides st (b ∷ bs)
  unfolding consume enforce_element_limit
  in-element o c e few d =
      Decides-step st (record st { elements = suc st.elements }) b bs (ground arith)
        (ground (arith, outside-cons, r.below, r.shallow)) d

  in-other :
      is_open b ≡ false
      → is_close b ≡ false
      → is_element b ≡ false
      → Decides st bs
      → Decides st (b ∷ bs)
  unfolding consume enforce_element_limit
  in-other o c e d =
      Decides-step st st b bs (ground (arith, r.few))
        (ground (arith, outside-cons, r.below, r.shallow)) d
