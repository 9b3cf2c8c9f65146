-- ===== src/Rewrap/Plan/Laws.antt =====
-- What an executor promises of its wrapped keys (the comments of the trait in feature/rewrap.rs), and
-- what a plan then makes of them.
use kapsaro.Base.{
  Bool, false, not, ◌&&◌, ◌||◌, List, [], ◌∷◌, ◌≡◌, refl, ap, arith, inl, inr, Text, filter, All,
  All_imp, Bool-cases,
}
use kapsaro.Errors.{ok}
use kapsaro.Text.{text_eq, text_eq_iff, contains}
use kapsaro.Model.PublicKey.{PublicKey}
use kapsaro.Model.FileEnc.{handles}
use kapsaro.Document.WrapSet.{WrapItem}
use kapsaro.Rewrap.Plan.{RewrapExecutor}
use kapsaro.Rewrap.Plan.Stale.{IsCurrent}

-- From `old` to `new`: the items of the removed handles are gone, items are there for the added ones,
-- and every item of `new` is an old one that stays or is addressed to a key of the members.
pub record Rewrites (members : List PublicKey) (removed added : List Text) (old new : List WrapItem)
    : Type 1 where
  pub handles_of :
      (handle : Text)
      → contains (handles new) handle ≡ (
          (contains (handles old) handle && not (contains removed handle)) || contains added handle)
  pub items_of :
      (P : WrapItem → Type 0)
      → All (λ w. contains removed w.recipient_handle ≡ false → P w) old
      → ((w : WrapItem) → IsCurrent members w → P w)
      → All P new

pub record ExecutorLaws {Executor : Type 0} (x : RewrapExecutor Executor) (members : List PublicKey)
    : Type 1 where
  pub wraps : Executor → List WrapItem
  pub current_recipients_lem : (e : Executor) → x.current_recipients e ≡ handles (wraps e)
  pub remove_recipients_lem :
      (e next : Executor) (rs : List Text)
      → x.remove_recipients e rs ≡ ok next
      → Rewrites members rs [] (wraps e) (wraps next)
  pub rewrite_recipient_wraps_lem :
      (e next : Executor) (rs : List Text)
      → x.rewrite_recipient_wraps e rs ≡ ok next
      → Rewrites members rs rs (wraps e) (wraps next)
  pub add_recipients_lem :
      (e next : Executor) (rs : List Text)
      → x.add_recipients e rs ≡ ok next
      → Rewrites members [] rs (wraps e) (wraps next)
  pub rotate_key_lem :
      (e next : Executor) → x.rotate_key e ≡ ok next → Rewrites members [] [] (wraps e) (wraps next)
  pub clear_disclosure_history_lem :
      (e next : Executor)
      → x.clear_disclosure_history e ≡ ok next
      → Rewrites members [] [] (wraps e) (wraps next)

pub Rewrites-refl : (members : List PublicKey) (ws : List WrapItem) → Rewrites members [] [] ws ws
Rewrites-refl members ws = record {
  handles_of = λ handle. ground arith;
  items_of = λ P old fresh. All_imp ws (λ w f. f refl) old;
}

pub contains-filter :
    (f : Text → Bool) (xs : List Text) (j : Text)
    → contains (filter f xs) j ≡ (contains xs j && f j)
contains-filter f [] j = refl
contains-filter f (x ∷ xs) j = elim (Bool-cases (text_eq x j)) [
  | inl same ↦ let e = ap f ((text_eq_iff x j).0 same) in ground (arith, contains-filter f xs j)
  | inr other ↦ ground (arith, contains-filter f xs j)
]
