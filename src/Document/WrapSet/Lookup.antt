-- ===== src/Document/WrapSet/Lookup.antt =====
-- The entry of a wrap set that a member opens (feature/envelope/wrap_set.rs).
use kapsaro.Base.{
  true, false, ◌&&◌, List, [], ◌∷◌, some, ◌≡◌, ◌≤◌, inl, inr, refl, arith, Text, find, length, map,
  Bool-cases, Option-cases,
}
use kapsaro.Errors.{ok, >>=-eq-ok}
use kapsaro.Text.{text_eq, text_eq_iff, contains}
use kapsaro.Identity.Kid.{from_canonical}
use kapsaro.Identity.Handle.{member_handle, member_handle_iff}
use kapsaro.Document.WrapSet.{
  WrapItem, RecipientWrap, DecodeArray, validate_items_from, validate_wrap_items, parse_wrap,
  parse_items, parse_wrap_set, find_by_kid_for_member, self_wrap_kid, validate_wrap_count,
  max_wrap_items,
}

abbrev pub handles : List RecipientWrap → List Text
handles ws = map (λ w. w.recipient_handle) ws

-- No two entries are addressed to one member.
abbrev pub HasUniqueHandles : List RecipientWrap → Type 0
HasUniqueHandles [] = Unit
HasUniqueHandles (w ∷ ws) = (contains (handles ws) w.recipient_handle ≡ false) × HasUniqueHandles ws

-- The first entry of a handle is the first one of the handle and its kid.
find-both :
    (ws : List RecipientWrap) (w : RecipientWrap) (handle : Text)
    → find (λ x. text_eq x.recipient_handle handle) ws ≡ some w
    → (find (λ x. text_eq x.kid w.kid && text_eq x.recipient_handle handle) ws ≡ some w)
      × (w.recipient_handle ≡ handle)
find-both [] w handle h = absurd cc
find-both (x ∷ ws) w handle h = elim (Bool-cases (text_eq x.recipient_handle handle)) [
  | inl hit ↦ (
    ground (arith, text_eq_iff x.kid w.kid),
    ground (arith, text_eq_iff x.recipient_handle handle),
  )
  | inr miss ↦ (ground (arith, find-both ws w handle), (find-both ws w handle (rw miss at h)).1)
]

-- A member for whom the set names a key can open an entry: the lookup by that key gives one, which
-- has the key's id and is addressed to the member.
pub find_by_kid_for_member-self_wrap_kid :
    (ws : List RecipientWrap) (handle kid : Text)
    → self_wrap_kid ws handle ≡ some kid
    → (w : RecipientWrap) × (find_by_kid_for_member ws kid handle ≡ ok w)
      × (w.kid ≡ kid)
      × (w.recipient_handle ≡ handle)
unfolding self_wrap_kid find_by_kid_for_member
find_by_kid_for_member-self_wrap_kid ws handle kid h =
    elim (Option-cases (find (λ w. text_eq w.recipient_handle handle) ws)) [
      | inr missing ↦ absurd (ground arith)
      | inl (w, found) ↦
          let same : w.kid ≡ kid = ground arith in
          let (both, addressed) = find-both ws w handle found in
          (w, rw (← same) (ground arith), same, addressed)
    ]

parse-step :
    (d32 d48 : DecodeArray) (item : WrapItem) (items : List WrapItem) (ws : List RecipientWrap)
    → parse_items d32 d48 (item ∷ items) ≡ ok ws
    → (w : RecipientWrap) × (rest : List RecipientWrap) × (parse_items d32 d48 items ≡ ok rest)
      × (w.recipient_handle ≡ item.recipient_handle)
      × (w ∷ rest ≡ ws)
unfolding parse_items parse_wrap
parse-step d32 d48 item items ws h =
    let (w, e, r) = >>=-eq-ok (parse_wrap d32 d48 item) _ h in
    let (rest, e', built) = >>=-eq-ok (parse_items d32 d48 items) _ r in
    let (handle, f, g) = >>=-eq-ok (member_handle item.recipient_handle) _ e in
    let (kid, f', g') = >>=-eq-ok (from_canonical item.kid) _ g in
    let (enc, f2, g2) = >>=-eq-ok (d32 item.enc) _ g' in
    let (ct, f3, g3) = >>=-eq-ok (d48 item.ct) _ g2 in
    let same : handle ≡ item.recipient_handle =
      ((member_handle_iff item.recipient_handle handle).0 f).0 in
    (w, rest, e', ground arith, ground arith)

items-step :
    (d32 d48 : DecodeArray) (seen : List Text) (item : WrapItem) (items : List WrapItem)
    → validate_items_from d32 d48 seen (item ∷ items) ≡ ok tt
    → (contains seen item.recipient_handle ≡ false)
      × (validate_items_from d32 d48 (item.recipient_handle ∷ seen) items ≡ ok tt)
unfolding validate_items_from
items-step d32 d48 seen item items h = ground arith

items_unique :
    (d32 d48 : DecodeArray) (seen : List Text) (items : List WrapItem) (ws : List RecipientWrap)
    → validate_items_from d32 d48 seen items ≡ ok tt
    → parse_items d32 d48 items ≡ ok ws
    → HasUniqueHandles ws × ((t : Text) → contains seen t ≡ true → contains (handles ws) t ≡ false)
items_unique d32 d48 seen [] ws v p =
    let same : ws ≡ [] = unfold parse_items in cc in rw same (tt, λ t c. refl)
items_unique d32 d48 seen (item ∷ items) ws v p =
    let (w, rest, p', handle, same) = parse-step d32 d48 item items ws p in
    let (fresh, v') = items-step d32 d48 seen item items v in
    let (unique, apart) = items_unique d32 d48 (item.recipient_handle ∷ seen) items rest v' p' in
    rw (← same) (
      (
        apart w.recipient_handle
            (ground (arith, text_eq_iff item.recipient_handle w.recipient_handle)),
        unique,
      ),
      λ t c. ground (arith, apart t, text_eq_iff w.recipient_handle t),
    )

-- A wrap set that is parsed has at most one entry for each member, and at most 1000 entries were given.
pub parse_wrap_set-HasUniqueHandles :
    (d32 d48 : DecodeArray) (items : List WrapItem) (ws : List RecipientWrap)
    → parse_wrap_set d32 d48 items ≡ ok ws
    → HasUniqueHandles ws × (length items ≤ max_wrap_items)
unfolding parse_wrap_set validate_wrap_items validate_wrap_count
parse_wrap_set-HasUniqueHandles d32 d48 items ws h =
    let (_, v, p) = >>=-eq-ok (validate_wrap_items d32 d48 items) _ h in
    let (_, counted, checked) = >>=-eq-ok (validate_wrap_count (length items)) _ v in
    ((items_unique d32 d48 [] items ws checked p).0, ground arith)
