-- ===== src/Grading/Bank/Invariant.antt =====
-- The invariant of the bank: the accounts and the corrections sum up to the initial balance of every
-- account, and no balance is negative.
use cs453_2025_project.Prelude.{
  ℕ, ◌+◌, ◌*◌, ◌/◌, ◌%◌, ◌≡◌, ◌≢◌, ◌≤◌, ◌<◌, ◌⊎◌, inl, inr, refl, sym, ap, some, List, [], ◌∷◌,
  arith, update_other,
}
use cs453_2025_project.Machine.{Ptr}
use cs453_2025_project.Grading.Library.{Memory, store}
use cs453_2025_project.Grading.Bank.{WorkloadBank, word_mod, negative}
use cs453_2025_project.Grading.Bank.AccountSegment.{size}
use cs453_2025_project.Grading.Bank.Layout.{
  along, counted, held, corrected, NotIn, IsChain, Same, AllSame,
}

-- Segments do not overlap.
abbrev pub IsApart : Memory → Type 0
IsApart m =
    (p q a b : ℕ) → m.segment p ≡ some a → m.segment q ≡ some b → p ≢ q → (p + a ≤ q) ⊎ (q + b ≤ p)

pub record IsSetting (bank : WorkloadBank) : Type 0 where
  pub some_place : 1 ≤ bank.nbaccounts
  pub few_places : bank.nbaccounts < word_mod
  pub no_debt : bank.init_balance < negative
  pub somewhere : bank.start ≢ 0

pub record IsBank (bank : WorkloadBank) (m : Memory) (qs : List Ptr) : Type 0 where
  pub chain : IsChain bank.nbaccounts m bank.start qs
  pub apart : IsApart m
  pub balanced :
      (along (held m) bank.start qs + along (corrected m) bank.start qs) % word_mod
      ≡ (bank.init_balance * along (counted m) bank.start qs) % word_mod

module _ (nb : ℕ) (m : Memory) where
  -- A write into one segment leaves the others.
  pub store-Same :
      (p r x v : ℕ)
      → IsApart m
      → m.segment p ≡ some (size nb)
      → m.segment r ≡ some (size nb)
      → p ≢ r
      → r ≤ x
      → x < r + size nb
      → Same nb m (store m x v) p
  store-Same p r x v apart sp sr ne low high = record {
    same_words = λ q lo hi.
        update_other m.word x q v (elim (apart p r (size nb) (size nb) sp sr ne) [
          | inl before ↦ λ e. absurd (omega arith)
          | inr behind ↦ λ e. absurd (omega arith)
        ]);
    same_segment = refl;
  }

  pub store-AllSame :
      (r x v : ℕ)
      → IsApart m
      → m.segment r ≡ some (size nb)
      → r ≤ x
      → x < r + size nb
      → (p : Ptr) (qs : List Ptr) → NotIn r (p ∷ qs)
      → IsChain nb m p qs
      → AllSame nb m (store m x v) p qs
  store-AllSame r x v apart sr low high p [] out chain =
      store-Same p r x v apart chain.1.stands sr (λ e. out.0 (sym e)) low high
  store-AllSame r x v apart sr low high p (q ∷ qs) out (link, nonnull, seg, beyond, chain) = (
    store-Same p r x v apart seg.stands sr (λ e. out.0 (sym e)) low high,
    store-AllSame r x v apart sr low high q qs out.1 chain,
  )

-- A product of a pattern.
pub product-mod : (a b : ℕ) → (a * (b % word_mod)) % word_mod ≡ (a * b) % word_mod
product-mod a b =
    let e : b ≡ word_mod * (b / word_mod) + b % word_mod = omega arith in
    omega (arith, ap (λ (t : ℕ). a * t) e)
