-- ===== src/Trust/Judgment/ActiveMember/Index.antt =====
-- The index of the active members by kid (feature/trust/judgment/active_member.rs).
use kapsaro.Base.{
  Bool, true, false, not, ◌&&◌, List, [], ◌∷◌, none, some, ◌≡◌, ◌↔◌, ◌∙◌, refl, sym, ap, arith,
  Text, All, map, find, filter,
}
use kapsaro.Errors.{ok}
use kapsaro.Text.{
  text_eq, text_eq_iff, text_eq_sym, contains, lookup, insert, lookup-insert, set_of,
  contains-set_of, set_of-ext,
}
use kapsaro.Model.PublicKey.{PublicKey}
use kapsaro.Trust.Judgment.ActiveMember.{
  Members, KidSetMatch, add_members, build_active_members_by_kid, collect_owned_difference,
  text_list_eq, judge_kid_set_match,
}

abbrev pub kids_of : List PublicKey → List Text
kids_of members = map (λ m. m.protected.kid) members

abbrev pub HasUniqueKids : List PublicKey → Type 0
HasUniqueKids [] = Unit
HasUniqueKids (m ∷ members) =
    (contains (kids_of members) m.protected.kid ≡ false) × HasUniqueKids members

-- No kid of the members is in the index yet.
abbrev AreNew : Members → List PublicKey → Type 0
AreNew by_kid members = All (λ m. lookup m.protected.kid by_kid ≡ none) members

new-insert :
    (m : PublicKey) (by_kid : Members) (members : List PublicKey)
    → AreNew (insert m.protected.kid m by_kid) members
      ↔ (AreNew by_kid members × (contains (kids_of members) m.protected.kid ≡ false))
new-insert m by_kid [] = (λ h. (tt, refl), λ h. tt)
new-insert m by_kid (p ∷ ps) = (
  λ h. (
    (
      ground (arith, lookup-insert m.protected.kid p.protected.kid m by_kid),
      ((new-insert m by_kid ps).0 h.1).0,
    ),
    ground (
      arith,
      lookup-insert m.protected.kid p.protected.kid m by_kid,
      (new-insert m by_kid ps).0 h.1,
      text_eq_sym m.protected.kid p.protected.kid,
    ),
  ),
  λ h. (
    ground (
      arith,
      lookup-insert m.protected.kid p.protected.kid m by_kid,
      text_eq_sym m.protected.kid p.protected.kid,
    ),
    (new-insert m by_kid ps).1 (h.0.1, ground arith),
  ),
)

add-back :
    (by_kid : Members) (p : PublicKey) (ps : List PublicKey)
    → lookup p.protected.kid by_kid ≡ none
    → add_members by_kid (p ∷ ps) ≡ add_members (insert p.protected.kid p by_kid) ps
unfolding add_members
add-back by_kid p ps absent = ground arith

add_members-ok :
    (by_kid : Members) (members : List PublicKey)
    → AreNew by_kid members
    → HasUniqueKids members
    → (m : Members) × (add_members by_kid members ≡ ok m)
add_members-ok by_kid [] n u = (by_kid, unfold add_members in refl)
add_members-ok by_kid (p ∷ ps) n u =
    let (m, e) =
      add_members-ok (insert p.protected.kid p by_kid) ps ((new-insert p by_kid ps).1 (n.1, u.0))
        u.1 in
    (m, add-back by_kid p ps n.0 ∙ e)

-- What a step of the loop has checked.
add-step :
    (by_kid : Members) (p : PublicKey) (ps : List PublicKey) (m : Members)
    → add_members by_kid (p ∷ ps) ≡ ok m
    → (lookup p.protected.kid by_kid ≡ none)
      × (add_members (insert p.protected.kid p by_kid) ps ≡ ok m)
unfolding add_members
add-step by_kid p ps m h = ground arith

add_members-new :
    (by_kid : Members) (members : List PublicKey) (m : Members)
    → add_members by_kid members ≡ ok m
    → AreNew by_kid members × HasUniqueKids members
add_members-new by_kid [] m h = (tt, tt)
add_members-new by_kid (p ∷ ps) m h =
    let (absent, rest) = add-step by_kid p ps m h in
    let (n, u) = add_members-new (insert p.protected.kid p by_kid) ps m rest in
    let (older, other) = (new-insert p by_kid ps).0 n in ((absent, older), (other, u))

add_members-lookup :
    (by_kid : Members) (members : List PublicKey) (m : Members) (kid : Text)
    → add_members by_kid members ≡ ok m
    → lookup kid m ≡ (elim (lookup kid by_kid) [
      | some p ↦ some p
      | none ↦ find (λ p. text_eq p.protected.kid kid) members
    ])
add_members-lookup by_kid [] m kid h = unfold add_members in (ground arith)
add_members-lookup by_kid (p ∷ ps) m kid h =
    let (absent, rest) = add-step by_kid p ps m h in
    ground (
      arith,
      add_members-lookup (insert p.protected.kid p by_kid) ps m kid rest,
      lookup-insert p.protected.kid kid p by_kid,
      text_eq_iff p.protected.kid kid,
    )

new-empty : (members : List PublicKey) → AreNew [] members
unfolding lookup
new-empty [] = tt
new-empty (p ∷ ps) = (refl, new-empty ps)

-- The index exists exactly where no two members share a kid, and then finds each kid's member.
pub build_active_members_by_kid_iff :
    (members : List PublicKey)
    → (((m : Members) × (build_active_members_by_kid members ≡ ok m)) ↔ HasUniqueKids members)
      × ((m : Members) (kid : Text)
          → build_active_members_by_kid members ≡ ok m
          → lookup kid m ≡ find (λ p. text_eq p.protected.kid kid) members)
unfolding build_active_members_by_kid lookup
build_active_members_by_kid_iff members = (
  (
    λ h. (add_members-new [] members h.0 h.1).1,
    λ u. add_members-ok [] members (new-empty members) u,
  ),
  λ m kid h. add_members-lookup [] members m kid h,
)

pub text_list_eq_iff : (s t : List Text) → (text_list_eq s t ≡ true) ↔ (s ≡ t)
unfolding text_list_eq
text_list_eq_iff (a ∷ s) (b ∷ t) = ground (arith, text_eq_iff a b, text_list_eq_iff s t)
text_list_eq_iff _ _ = ground arith

contains-filter :
    (p : Text → Bool) (k : Text) (xs : List Text)
    → contains (filter p xs) k ≡ (p k && contains xs k)
contains-filter p k [] = ground arith
contains-filter p k (x ∷ xs) = ground (arith, contains-filter p k xs, text_eq_iff x k)

contains-difference :
    (left right : List Text) (k : Text)
    → contains (collect_owned_difference (set_of left) (set_of right)) k
      ≡ (contains left k && not (contains right k))
unfolding collect_owned_difference
contains-difference left right k = ground (
  arith,
  contains-filter (λ j. not (contains (set_of right) j)) k (set_of left),
  contains-set_of k left,
  contains-set_of k right,
)

abbrev current : Members → List Text
current m = map (λ e. e.0) m

exact-same :
    (m : Members) (kids : List Text)
    → judge_kid_set_match m kids ≡ KidSetMatch.exact
    → set_of kids ≡ set_of (current m)
unfolding judge_kid_set_match
exact-same m kids h = ground (arith, text_list_eq_iff (set_of kids) (set_of (current m)))

same-exact :
    (m : Members) (kids : List Text)
    → set_of kids ≡ set_of (current m)
    → judge_kid_set_match m kids ≡ KidSetMatch.exact
unfolding judge_kid_set_match
same-exact m kids h = ground (arith, text_list_eq_iff (set_of kids) (set_of (current m)))

differs-lists :
    (m : Members) (kids lacking stale : List Text)
    → judge_kid_set_match m kids ≡ KidSetMatch.differs lacking stale
    → (lacking ≡ collect_owned_difference (set_of (current m)) (set_of kids))
      × (stale ≡ collect_owned_difference (set_of kids) (set_of (current m)))
unfolding judge_kid_set_match
differs-lists m kids lacking stale h = ground arith

-- A set of kids is exact exactly where it has the same kids as the active members, in any order and
-- with any repetition. Otherwise the first list names the members' kids that it lacks, and the second
-- its kids that no member has.
pub judge_kid_set_match-cases :
    (m : Members) (kids : List Text)
    → ((judge_kid_set_match m kids ≡ KidSetMatch.exact)
        ↔ ((k : Text) → contains kids k ≡ contains (current m) k))
      × ((lacking stale : List Text)
          → judge_kid_set_match m kids ≡ KidSetMatch.differs lacking stale
          → (k : Text)
          → (contains lacking k ≡ (contains (current m) k && not (contains kids k)))
            × (contains stale k ≡ (contains kids k && not (contains (current m) k))))
judge_kid_set_match-cases m kids = (
  (
    λ h k.
        sym (contains-set_of k kids)
        ∙ ap (λ l. contains l k) (exact-same m kids h)
        ∙ contains-set_of k (current m),
    λ same. same-exact m kids (set_of-ext kids (current m) same),
  ),
  λ lacking stale h k.
      (let (l, s) = differs-lists m kids lacking stale h in
        (
          ap (λ x. contains x k) l ∙ contains-difference (current m) kids k,
          ap (λ x. contains x k) s ∙ contains-difference kids (current m) k,
        )),
)
