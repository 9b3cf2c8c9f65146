-- ===== src/Kv/Structure/Shape.antt =====
-- The required lines of format/kv/document/structure.rs, by number and by place.
use kapsaro.Base.{
  ℕ, zero, suc, ◌-◌, ◌<◌, Bool, true, List, [], ◌∷◌, ◌++◌, length, filter, Text, ◌≡◌, ◌∙◌, refl, ap,
  sym, arith,
}
use kapsaro.Errors.{ok}
use kapsaro.Kv.Line.{
  KvEncVersion, KvEncLine, header, head, wrap, kv, sig, empty, is_header, is_head, is_wrap, is_sig,
  is_empty_line,
}
use kapsaro.Kv.Structure.{
  RequiredLine, required_header, required_head, required_wrap, required_sig,
  validate_required_line_count, matches_at, validate_required_line,
}

abbrev pub entry_lines : List (Text × Text) → List KvEncLine
entry_lines [] = []
entry_lines ((key, token) ∷ rest) = kv key token ∷ entry_lines rest

abbrev pub count : (KvEncLine → Bool) → List KvEncLine → ℕ
count p ls = length (filter p ls)

pub required_sound :
    (ls : List KvEncLine) (r : RequiredLine) (n : ℕ)
    → validate_required_line ls r n ≡ ok tt
    → (count r.matcher ls ≡ 1) × (matches_at ls r n ≡ true)
unfolding validate_required_line validate_required_line_count
required_sound ls r n h = ground arith

pub required_complete :
    (ls : List KvEncLine) (r : RequiredLine) (n : ℕ)
    → count r.matcher ls ≡ 1
    → matches_at ls r n ≡ true
    → validate_required_line ls r n ≡ ok tt
unfolding validate_required_line validate_required_line_count
required_complete ls r n h k = ground arith

count-pos :
    (ls : List KvEncLine) (r : RequiredLine) (n : ℕ)
    → matches_at ls r n ≡ true
    → 0 < count r.matcher ls
unfolding matches_at
count-pos [] r n h = cc
count-pos (x ∷ ls) r zero h = ground arith
count-pos (x ∷ ls) r (suc n) h = ground (arith, count-pos ls r n h)

matches_at-suc :
    (x : KvEncLine) (ls : List KvEncLine) (r : RequiredLine) (n : ℕ)
    → matches_at (x ∷ ls) r (suc n) ≡ matches_at ls r n
unfolding matches_at
matches_at-suc x ls r n = refl

matches_at-last :
    (x y : KvEncLine) (ls : List KvEncLine) (r : RequiredLine)
    → matches_at (x ∷ y ∷ ls) r (length (x ∷ y ∷ ls) - 1)
      ≡ matches_at (y ∷ ls) r (length (y ∷ ls) - 1)
matches_at-last x y ls r =
    ap (λ n. matches_at (x ∷ y ∷ ls) r n) (omega arith)
    ∙ matches_at-suc x (y ∷ ls) r (length (y ∷ ls) - 1)

matches_at-cons :
    (x : KvEncLine) (ls : List KvEncLine) (r : RequiredLine)
    → 0 < count r.matcher ls
    → matches_at (x ∷ ls) r (length (x ∷ ls) - 1) ≡ matches_at ls r (length ls - 1)
matches_at-cons x [] r h = absurd (omega arith)
matches_at-cons x (y ∷ ls) r h = matches_at-last x y ls r

-- What the counts leave for the lines behind WRAP.
abbrev HasCounts : List KvEncLine → Type 0
HasCounts ls =
    (count is_header ls ≡ 0)
    × (count is_head ls ≡ 0)
    × (count is_wrap ls ≡ 0)
    × (count is_empty_line ls ≡ 0)
    × (count is_sig ls ≡ 1)

abbrev EndsEntries : List KvEncLine → Type 0
EndsEntries ls =
    (entries : List (Text × Text)) × (token : Text) × (ls ≡ entry_lines entries ++ sig token ∷ [])

tail-shape :
    (ls : List KvEncLine)
    → HasCounts ls
    → matches_at ls required_sig (length ls - 1) ≡ true
    → EndsEntries ls
tail-shape [] c m = absurd (omega arith)
tail-shape (header v ∷ ls) c m = absurd (omega arith)
tail-shape (head t ∷ ls) c m = absurd (omega arith)
tail-shape (wrap t ∷ ls) c m = absurd (omega arith)
tail-shape (empty ∷ ls) c m = absurd (omega arith)
tail-shape (sig t ∷ []) c m = ([], t, refl)
tail-shape (sig t ∷ y ∷ ls) c m = absurd (
    omega (
      arith,
      count-pos (y ∷ ls) required_sig (length (y ∷ ls) - 1)
          (sym (matches_at-last (sig t) y ls required_sig) ∙ m),
    ))
tail-shape (kv k t ∷ ls) c m =
    let (es, token, e) =
      tail-shape ls c (sym (matches_at-cons (kv k t) ls required_sig (omega arith)) ∙ m) in
    ((k, t) ∷ es, token, ap (λ l. kv k t ∷ l) e)

starts_header :
    (ls : List KvEncLine)
    → matches_at ls required_header 0 ≡ true
    → (v : KvEncVersion) × (rest : List KvEncLine) × (ls ≡ header v ∷ rest)
unfolding matches_at
starts_header (header v ∷ ls) h = (v, ls, refl)
starts_header (empty ∷ ls) h = cc
starts_header _ h = cc

starts_head :
    (ls : List KvEncLine)
    → matches_at ls required_head 0 ≡ true
    → (t : Text) × (rest : List KvEncLine) × (ls ≡ head t ∷ rest)
unfolding matches_at
starts_head (head t ∷ ls) h = (t, ls, refl)
starts_head (empty ∷ ls) h = cc
starts_head _ h = cc

starts_wrap :
    (ls : List KvEncLine)
    → matches_at ls required_wrap 0 ≡ true
    → (t : Text) × (rest : List KvEncLine) × (ls ≡ wrap t ∷ rest)
unfolding matches_at
starts_wrap (wrap t ∷ ls) h = (t, ls, refl)
starts_wrap (empty ∷ ls) h = cc
starts_wrap _ h = cc

-- The line at a later position stands one place earlier behind the first line.
next_line :
    {ls : List KvEncLine} (x : KvEncLine) (rest : List KvEncLine) (r : RequiredLine) (n : ℕ)
    → ls ≡ x ∷ rest
    → matches_at ls r (suc n) ≡ true
    → matches_at rest r n ≡ true
next_line x rest r n e m = sym (ap (λ l. matches_at l r (suc n)) e ∙ matches_at-suc x rest r n) ∙ m

last_line :
    {ls : List KvEncLine} (x : KvEncLine) (rest : List KvEncLine)
    → ls ≡ x ∷ rest
    → 0 < count is_sig rest
    → matches_at ls required_sig (length ls - 1) ≡ true
    → matches_at rest required_sig (length rest - 1) ≡ true
last_line x rest e p m =
    sym
      (ap (λ l. matches_at l required_sig (length l - 1)) e ∙ matches_at-cons x rest required_sig p)
    ∙ m

abbrev pub IsShaped : List KvEncLine → Type 0
IsShaped ls =
    (version : KvEncVersion) × (head_token : Text) × (wrap_token : Text) × (sig_token : Text)
    × (entries : List (Text × Text)) × (ls
        ≡ header version
          ∷ head head_token
          ∷ wrap wrap_token
          ∷ (entry_lines entries ++ sig sig_token ∷ []))

-- each of the four lines once, in its place, and no blank line
pub record IsPlaced (ls : List KvEncLine) : Type 0 where
  pub no_blank : count is_empty_line ls ≡ 0
  pub one_header : count is_header ls ≡ 1
  pub one_head : count is_head ls ≡ 1
  pub one_wrap : count is_wrap ls ≡ 1
  pub one_sig : count is_sig ls ≡ 1
  pub header_first : matches_at ls required_header 0 ≡ true
  pub head_second : matches_at ls required_head 1 ≡ true
  pub wrap_third : matches_at ls required_wrap 2 ≡ true
  pub sig_last : matches_at ls required_sig (length ls - 1) ≡ true

pub IsPlaced-shape : (ls : List KvEncLine) → IsPlaced ls → IsShaped ls
IsPlaced-shape ls p =
    let (v, ls1, e1) = starts_header ls p.header_first in
    let (h, ls2, e2) =
      starts_head ls1 (next_line (header v) ls1 required_head 0 e1 p.head_second) in
    let (w, ls3, e3) = starts_wrap ls2 (
      next_line (head h) ls2 required_wrap 0 e2
        (next_line (header v) ls1 required_wrap 1 e1 p.wrap_third)) in
    let e = e1 ∙ ap (λ l. header v ∷ l) (e2 ∙ ap (λ l. head h ∷ l) e3) in
    let sigs : count is_sig ls3 ≡ 1 = omega (arith, ap (count is_sig) e, p.one_sig) in
    let (es, t, ends) =
      tail-shape ls3
        (
          omega (arith, ap (count is_header) e, p.one_header),
          omega (arith, ap (count is_head) e, p.one_head),
          omega (arith, ap (count is_wrap) e, p.one_wrap),
          omega (arith, ap (count is_empty_line) e, p.no_blank),
          sigs,
        )
        (last_line (wrap w) ls3 e3 (omega arith) (
          last_line (head h) ls2 e2 (omega (arith, ap (count is_sig) e3)) (
            last_line (header v) ls1 e1 (omega (arith, ap (count is_sig) e3, ap (count is_sig) e2))
              p.sig_last))) in
    (v, h, w, t, es, e ∙ ap (λ l. header v ∷ head h ∷ wrap w ∷ l) ends)
