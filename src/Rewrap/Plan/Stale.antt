-- ===== src/Rewrap/Plan/Stale.antt =====
-- The recipients whose wrapped key is addressed to a key that they no longer use (feature/rewrap.rs).
use kapsaro.Base.{
  true, false, ◌&&◌, List, [], ◌∷◌, Option, some, ◌≡◌, ◌∙◌, refl, ap, inl, inr, arith, Text, find,
  map, any, All, All_imp, Bool-cases,
}
use kapsaro.Text.{text_eq, text_eq_iff, text_eq_refl, text_eq_sym, contains}
use kapsaro.Model.PublicKey.{PublicKey}
use kapsaro.Model.FileEnc.{handles}
use kapsaro.Document.WrapSet.{WrapItem}
use kapsaro.Rewrap.Recipient.{subject}
use kapsaro.Rewrap.Plan.{collect_stale_recipient_handles}

-- No two items are addressed to one member.
abbrev pub HasUniqueHandles : List WrapItem → Type 0
HasUniqueHandles [] = Unit
HasUniqueHandles (w ∷ ws) = (contains (handles ws) w.recipient_handle ≡ false) × HasUniqueHandles ws

-- The item is addressed to a key of one of the members.
abbrev pub IsCurrent : List PublicKey → WrapItem → Type 0
IsCurrent members w =
    any (λ m. text_eq (subject m) w.recipient_handle && text_eq m.protected.kid w.kid) members
    ≡ true

abbrev find_handle : Text → List WrapItem → Option WrapItem
find_handle handle ws = find (λ w. text_eq w.recipient_handle handle) ws

find-skip :
    (x : WrapItem) (ws us : List WrapItem)
    → contains (handles us) x.recipient_handle ≡ false
    → All (λ w. find_handle w.recipient_handle ws ≡ some w) us
    → All (λ w. find_handle w.recipient_handle (x ∷ ws) ≡ some w) us
find-skip x ws [] n h = tt
find-skip x ws (u ∷ us) n h = (
  ground (arith, text_eq_sym x.recipient_handle u.recipient_handle),
  find-skip x ws us (ground arith) h.1,
)

-- each item is the first one of its handle
find_unique :
    (ws : List WrapItem)
    → HasUniqueHandles ws
    → All (λ w. find_handle w.recipient_handle ws ≡ some w) ws
find_unique [] u = tt
find_unique (w ∷ ws) u = (rw text_eq_refl refl, find-skip w ws ws u.0 (find_unique ws u.1))

find-contains :
    (ws : List WrapItem) (w : WrapItem) (handle : Text)
    → find_handle handle ws ≡ some w
    → contains (handles ws) handle ≡ true
find-contains [] w handle h = cc
find-contains (x ∷ ws) w handle h = ground (arith, find-contains ws w handle)

-- A stale recipient is a member.
pub stale-contains :
    (ws : List WrapItem) (members : List PublicKey) (handle : Text)
    → contains (collect_stale_recipient_handles ws members) handle ≡ true
    → contains (map subject members) handle ≡ true
unfolding collect_stale_recipient_handles
stale-contains ws [] handle h = h
stale-contains ws (m ∷ ms) handle h = ground (arith, stale-contains ws ms handle)

stale-current :
    (ws : List WrapItem) (members : List PublicKey) (w : WrapItem)
    → find_handle w.recipient_handle ws ≡ some w
    → contains (map subject members) w.recipient_handle ≡ true
    → contains (collect_stale_recipient_handles ws members) w.recipient_handle ≡ false
    → IsCurrent members w
unfolding collect_stale_recipient_handles
stale-current ws [] w f c s = cc
stale-current ws (m ∷ ms) w f c s = elim (Bool-cases (text_eq (subject m) w.recipient_handle)) [
  | inl same ↦
      let e = (text_eq_iff (subject m) w.recipient_handle).0 same in
      ground (arith, text_eq_sym m.protected.kid w.kid, ap (λ t. find_handle t ws) e ∙ f)
  | inr other ↦ ground (arith, stale-current ws ms w f)
]

-- An item of a member who is not stale is addressed to a key of the members.
pub All-stale :
    (ws : List WrapItem) (members : List PublicKey)
    → HasUniqueHandles ws
    → All
        (λ w.
          (contains (handles ws) w.recipient_handle ≡ true)
          × (contains (map subject members) w.recipient_handle ≡ true
              → contains (collect_stale_recipient_handles ws members) w.recipient_handle ≡ false
              → IsCurrent members w))
        ws
All-stale ws members u =
    All_imp ws (λ w f. (find-contains ws w w.recipient_handle f, stale-current ws members w f))
      (find_unique ws u)
