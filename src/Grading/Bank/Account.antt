-- ===== src/Grading/Bank/Account.antt =====
-- A write to one account of the bank.
use cs453_2025_project.Prelude.{
  ℕ, zero, suc, ◌+◌, ◌≡◌, ◌≢◌, ◌≤◌, ◌<◌, ◌⊎◌, inl, inr, refl, sym, ◌∙◌, subst, some, List, [], ◌∷◌,
  arith, update_other, update_self, ℕ_discrete,
}
use cs453_2025_project.Machine.{Ptr}
use cs453_2025_project.Grading.Library.{Memory, store}
use cs453_2025_project.Grading.Bank.{negative}
use cs453_2025_project.Grading.Bank.AccountSegment.{count, next, parity, accounts, size}
use cs453_2025_project.Grading.Bank.Layout.{
  balances, along, counted, held, corrected, NotIn, IsSegment, IsChain, Same, AllSame, held-Same,
  held-AllSame, corrected-AllSame, counted-AllSame, counted-Same, corrected-Same, next-Same,
  IsChain-Same, IsSegment-Same,
}
use cs453_2025_project.Grading.Bank.Invariant.{IsApart, store-Same, store-AllSame}

-- `x` is where an account of the chain stands.
abbrev pub AccountOf : Memory → Ptr → Ptr → Type 0
AccountOf m x p = (i : ℕ) × (i < counted m p) × (x ≡ accounts p i)

abbrev pub IsAccount : Memory → Ptr → Ptr → List Ptr → Type 0
IsAccount m x p [] = AccountOf m x p
IsAccount m x p (q ∷ qs) = AccountOf m x p ⊎ IsAccount m x q qs

-- What such a write does to the segments from `p` on.
pub record Paid (nb : ℕ) (m m' : Memory) (x v : ℕ) (p : Ptr) (qs : List Ptr) : Type 0 where
  pub paid_chain : IsChain nb m' p qs
  pub paid_held : along (held m') p qs + m.word x ≡ along (held m) p qs + v
  pub paid_corrected : along (corrected m') p qs ≡ along (corrected m) p qs
  pub paid_counted : along (counted m') p qs ≡ along (counted m) p qs
  pub paid_account : (y : ℕ) → IsAccount m y p qs → IsAccount m' y p qs

module _ (m : Memory) (p i v : ℕ) where
  abbrev written : Memory
  written = store m (accounts p i) v

  account_other : (q : ℕ) → q ≢ accounts p i → written.word q ≡ m.word q
  account_other q ne = update_other m.word (accounts p i) q v ne

  balances-before : (n : ℕ) → n ≤ i → balances written p n ≡ balances m p n
  unfolding balances
  balances-before zero le = refl
  balances-before (suc n) le = omega (
    arith,
    balances-before n (omega arith),
    account_other (accounts p n) (λ e. absurd (omega arith)),
  )

  balances-store :
      (n : ℕ) → i < n → balances written p n + m.word (accounts p i) ≡ balances m p n + v
  unfolding balances
  balances-store zero lt = absurd (omega arith)
  balances-store (suc n) lt = elim (ℕ_discrete n i) [
    | yes e ↦
        rw e (omega (arith, balances-before i (omega arith), update_self m.word (accounts p i) v))
    | no ne ↦ omega (
      arith,
      balances-store n (omega arith),
      account_other (accounts p n) (λ e. absurd (omega arith)),
    )
  ]

  module _ (nb : ℕ) (seg : IsSegment nb m p) (lt : i < counted m p) (sound : v < negative) where
    pub counted-written : counted written p ≡ counted m p
    counted-written = account_other (count p) (λ e. absurd (omega arith))

    pub corrected-written : corrected written p ≡ corrected m p
    corrected-written = account_other (parity p) (λ e. absurd (omega arith))

    pub next-written : written.word (next p) ≡ m.word (next p)
    next-written = account_other (next p) (λ e. absurd (omega arith))

    pub held-written : held written p + m.word (accounts p i) ≡ held m p + v
    held-written = rw counted-written (balances-store (counted m p) lt)

    pub IsSegment-written : IsSegment nb written p
    IsSegment-written = record {
      some_account = omega (arith, counted-written, seg.some_account);
      few_accounts = omega (arith, counted-written, seg.few_accounts);
      stands = seg.stands;
      not_negative = λ j low. elim (ℕ_discrete j i) [
        | yes e ↦ rw e (omega (arith, update_self m.word (accounts p i) v, sound))
        | no ne ↦ omega (
          arith,
          account_other (accounts p j) (λ e. absurd (omega arith)),
          seg.not_negative j (omega (arith, counted-written)),
        )
      ];
    }

IsAccount-Same :
    (nb : ℕ) (m m' : Memory) (x p : ℕ) (qs : List Ptr)
    → AllSame nb m m' p qs
    → IsAccount m x p qs
    → IsAccount m' x p qs
IsAccount-Same nb m m' x p [] same (i, lt, e) = (i, omega (arith, counted-Same nb m m' p same), e)
IsAccount-Same nb m m' x p (q ∷ qs) (same, rest) (inl (i, lt, e)) =
    inl (i, omega (arith, counted-Same nb m m' p same), e)
IsAccount-Same nb m m' x p (q ∷ qs) (same, rest) (inr later) =
    inr (IsAccount-Same nb m m' x q qs rest later)

module _ (nb : ℕ) (m : Memory) (apart : IsApart m) (v : ℕ) (sound : v < negative) where
  -- The write is into the first segment.
  Paid-first :
      (i : ℕ) (p : Ptr) (qs : List Ptr)
      → IsChain nb m p qs
      → i < counted m p
      → Paid nb m (store m (accounts p i) v) (accounts p i) v p qs
  Paid-first i p [] (last, seg) lt = record {
    paid_chain =
        (next-written m p i v nb seg lt sound ∙ last, IsSegment-written m p i v nb seg lt sound);
    paid_held = held-written m p i v nb seg lt sound;
    paid_corrected = corrected-written m p i v nb seg lt sound;
    paid_counted = counted-written m p i v nb seg lt sound;
    paid_account = λ y (j, low, e). (j, omega (arith, counted-written m p i v nb seg lt sound), e);
  }
  Paid-first i p (q ∷ qs) (link, nonnull, seg, out, chain) lt =
      let same =
        store-AllSame nb m p (accounts p i) v apart seg.stands (omega arith)
          (omega (arith, seg.few_accounts)) q qs out chain in
      let m' = store m (accounts p i) v in
      record {
        paid_chain = (
          next-written m p i v nb seg lt sound ∙ link,
          nonnull,
          IsSegment-written m p i v nb seg lt sound,
          out,
          IsChain-Same nb m m' q qs same chain,
        );
        paid_held =
            omega
              (arith, held-written m p i v nb seg lt sound, held-AllSame nb m m' q qs same chain);
        paid_corrected =
            omega (
              arith,
              corrected-written m p i v nb seg lt sound,
              corrected-AllSame nb m m' q qs same,
            );
        paid_counted =
            omega
              (arith, counted-written m p i v nb seg lt sound, counted-AllSame nb m m' q qs same);
        paid_account = λ y account. elim account [
          | inl (j, low, e) ↦ inl (j, omega (arith, counted-written m p i v nb seg lt sound), e)
          | inr later ↦ inr (IsAccount-Same nb m m' y q qs same later)
        ];
      }

  -- The write is into a segment behind `p`.
  behind-Same :
      (x p : ℕ)
      → m.segment p ≡ some (size nb)
      → (q : Ptr) (qs : List Ptr) → NotIn p (q ∷ qs)
      → IsChain nb m q qs
      → IsAccount m x q qs
      → Same nb m (store m x v) p
  behind-Same x p sp q [] out (last, seg) (i, lt, e) =
      store-Same nb m p q x v apart sp seg.stands out.0 (omega (arith, e))
        (omega (arith, e, seg.few_accounts))
  behind-Same x p sp q (r ∷ rs) out (link, nonnull, seg, beyond, chain) (inl (i, lt, e)) =
      store-Same nb m p q x v apart sp seg.stands out.0 (omega (arith, e))
        (omega (arith, e, seg.few_accounts))
  behind-Same x p sp q (r ∷ rs) out (link, nonnull, seg, beyond, chain) (inr later) =
      behind-Same x p sp r rs out.1 chain later

  at_account :
      (x p : ℕ) (qs : List Ptr)
      → IsChain nb m p qs
      → AccountOf m x p
      → Paid nb m (store m x v) x v p qs
  at_account x p qs chain (i, lt, e) =
      subst (λ y. Paid nb m (store m y v) y v p qs) (sym e) (Paid-first i p qs chain lt)

  pub store-Paid :
      (x p : ℕ) (qs : List Ptr)
      → IsChain nb m p qs
      → IsAccount m x p qs
      → Paid nb m (store m x v) x v p qs
  store-Paid x p [] chain account = at_account x p [] chain account
  store-Paid x p (q ∷ qs) chain (inl account) = at_account x p (q ∷ qs) chain account
  store-Paid x p (q ∷ qs) (link, nonnull, seg, out, chain) (inr account) =
      let d = store-Paid x q qs chain account in
      let same = behind-Same x p seg.stands q qs out chain account in
      let m' = store m x v in
      record {
        paid_chain = (
          next-Same nb m m' p same ∙ link,
          nonnull,
          IsSegment-Same nb m m' p seg same,
          out,
          d.paid_chain,
        );
        paid_held = omega (arith, d.paid_held, held-Same nb m m' p seg same);
        paid_corrected = omega (arith, d.paid_corrected, corrected-Same nb m m' p same);
        paid_counted = omega (arith, d.paid_counted, counted-Same nb m m' p same);
        paid_account = λ y mine. elim mine [
          | inl (j, low, e) ↦ inl (j, omega (arith, counted-Same nb m m' p same), e)
          | inr later ↦ inr (d.paid_account y later)
        ];
      }
