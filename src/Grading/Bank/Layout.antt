-- ===== src/Grading/Bank/Layout.antt =====
-- Where the segments of the bank stand, what they hold together, and what leaves them as they are.
use cs453_2025_project.Prelude.{
  ℕ, zero, suc, ◌+◌, ◌≡◌, ◌≢◌, ◌≤◌, ◌<◌, refl, ◌∙◌, some, List, [], ◌∷◌, arith,
}
use cs453_2025_project.Machine.{Ptr}
use cs453_2025_project.Grading.Library.{Memory}
use cs453_2025_project.Grading.Bank.{negative}
use cs453_2025_project.Grading.Bank.AccountSegment.{count, next, parity, accounts, size}

-- The balances of the first accounts of a segment.
unfoldable pub balances : Memory → Ptr → ℕ → ℕ
balances m p zero = 0
balances m p (suc n) = balances m p n + m.word (accounts p n)

pub balances-add_one :
    (m : Memory) (p : Ptr) (i : ℕ) → balances m p (i + 1) ≡ balances m p i + m.word (accounts p i)
unfolding balances
balances-add_one m p i = rw (add_one i) refl
  where
    add_one : (i : ℕ) → i + 1 ≡ suc i
    add_one i = omega arith

-- A sum along the segments.
abbrev pub along : (Ptr → ℕ) → Ptr → List Ptr → ℕ
along f p [] = f p
along f p (q ∷ qs) = f p + along f q qs

abbrev pub counted : Memory → Ptr → ℕ
counted m p = m.word (count p)

abbrev pub held : Memory → Ptr → ℕ
held m p = balances m p (counted m p)

abbrev pub corrected : Memory → Ptr → ℕ
corrected m p = m.word (parity p)

abbrev pub NotIn : Ptr → List Ptr → Type 0
NotIn p [] = Unit {0}
NotIn p (q ∷ qs) = (p ≢ q) × NotIn p qs

module _ (nb : ℕ) where
  pub record IsSegment (m : Memory) (p : Ptr) : Type 0 where
    pub some_account : 1 ≤ counted m p
    pub few_accounts : counted m p ≤ nb
    pub stands : m.segment p ≡ some (size nb)
    pub not_negative : (i : ℕ) → i < counted m p → m.word (accounts p i) < negative

  -- The segments from `p` on, linked by `next`.
  abbrev pub IsChain : Memory → Ptr → List Ptr → Type 0
  IsChain m p [] = (m.word (next p) ≡ 0) × IsSegment m p
  IsChain m p (q ∷ qs) =
      (m.word (next p) ≡ q) × (q ≢ 0) × IsSegment m p × NotIn p (q ∷ qs) × IsChain m q qs

  pub IsChain-IsSegment : (m : Memory) (p : Ptr) (qs : List Ptr) → IsChain m p qs → IsSegment m p
  IsChain-IsSegment m p [] chain = chain.1
  IsChain-IsSegment m p (q ∷ qs) chain = chain.2

  -- What was in a segment is there still.
  pub record Same (m m' : Memory) (p : Ptr) : Type 0 where
    pub same_words : (q : Ptr) → p ≤ q → q < p + size nb → m'.word q ≡ m.word q
    pub same_segment : m'.segment p ≡ m.segment p

  abbrev pub AllSame : Memory → Memory → Ptr → List Ptr → Type 0
  AllSame m m' p [] = Same m m' p
  AllSame m m' p (q ∷ qs) = Same m m' p × AllSame m m' q qs

  module _ (m m' : Memory) where
    pub balances-Same : (p : Ptr) (n : ℕ) → n ≤ nb → Same m m' p → balances m' p n ≡ balances m p n
    unfolding balances
    balances-Same p zero le same = refl
    balances-Same p (suc n) le same = omega (
      arith,
      balances-Same p n (omega arith) same,
      same.same_words (accounts p n) (omega arith) (omega arith),
    )

    pub counted-Same : (p : Ptr) → Same m m' p → counted m' p ≡ counted m p
    counted-Same p same = same.same_words (count p) (omega arith) (omega arith)

    pub corrected-Same : (p : Ptr) → Same m m' p → corrected m' p ≡ corrected m p
    corrected-Same p same = same.same_words (parity p) (omega arith) (omega arith)

    pub next-Same : (p : Ptr) → Same m m' p → m'.word (next p) ≡ m.word (next p)
    next-Same p same = same.same_words (next p) (omega arith) (omega arith)

    pub held-Same : (p : Ptr) → IsSegment m p → Same m m' p → held m' p ≡ held m p
    held-Same p seg same =
        rw (counted-Same p same) (balances-Same p (counted m p) seg.few_accounts same)

    pub IsSegment-Same : (p : Ptr) → IsSegment m p → Same m m' p → IsSegment m' p
    IsSegment-Same p seg same = record {
      some_account = omega (arith, counted-Same p same, seg.some_account);
      few_accounts = omega (arith, counted-Same p same, seg.few_accounts);
      stands = same.same_segment ∙ seg.stands;
      not_negative = λ i lt.
          let low : i < counted m p = omega (arith, counted-Same p same) in
          omega (
            arith,
            seg.few_accounts,
            seg.not_negative i low,
            same.same_words (accounts p i) (omega arith) (omega (arith, seg.few_accounts)),
          );
    }

    pub IsChain-Same :
        (p : Ptr) (qs : List Ptr) → AllSame m m' p qs → IsChain m p qs → IsChain m' p qs
    IsChain-Same p [] same chain = (next-Same p same ∙ chain.0, IsSegment-Same p chain.1 same)
    IsChain-Same p (q ∷ qs) (same, rest) (link, nonnull, seg, out, chain) = (
      next-Same p same ∙ link,
      nonnull,
      IsSegment-Same p seg same,
      out,
      IsChain-Same q qs rest chain,
    )

    pub held-AllSame :
        (p : Ptr) (qs : List Ptr)
        → AllSame m m' p qs
        → IsChain m p qs
        → along (held m') p qs ≡ along (held m) p qs
    held-AllSame p [] same chain = held-Same p chain.1 same
    held-AllSame p (q ∷ qs) (same, rest) (link, nonnull, seg, out, chain) =
        omega (arith, held-Same p seg same, held-AllSame q qs rest chain)

    pub corrected-AllSame :
        (p : Ptr) (qs : List Ptr)
        → AllSame m m' p qs
        → along (corrected m') p qs ≡ along (corrected m) p qs
    corrected-AllSame p [] same = corrected-Same p same
    corrected-AllSame p (q ∷ qs) (same, rest) =
        omega (arith, corrected-Same p same, corrected-AllSame q qs rest)

    pub counted-AllSame :
        (p : Ptr) (qs : List Ptr)
        → AllSame m m' p qs
        → along (counted m') p qs ≡ along (counted m) p qs
    counted-AllSame p [] same = counted-Same p same
    counted-AllSame p (q ∷ qs) (same, rest) =
        omega (arith, counted-Same p same, counted-AllSame q qs rest)
