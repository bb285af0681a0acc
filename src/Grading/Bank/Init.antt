-- ===== src/Grading/Bank/Init.antt =====
-- The two transactions of `init` in grading/workload.hpp.
use cs453_2025_project.Prelude.{
  ℕ, zero, suc, ◌+◌, ◌*◌, ◌≡◌, ◌≢◌, ◌≤◌, ◌<◌, refl, ◌∙◌, ap, subst, sym, [], true, some, arith,
  update_other, update_self, ℕ_discrete, eq→==,
}
use cs453_2025_project.Machine.{Ptr}
use cs453_2025_project.Grading.Library.{Memory, store}
use cs453_2025_project.Grading.Ensures.{Ensures, Ensures-weaken}
use cs453_2025_project.Grading.Bank.{WorkloadBank, init_accounts, init_tx, visible_tx}
use cs453_2025_project.Grading.Bank.AccountSegment.{count, next, parity, accounts, size}
use cs453_2025_project.Grading.Bank.Layout.{balances, counted, held, corrected}
use cs453_2025_project.Grading.Bank.Invariant.{IsApart, IsSetting, IsBank}

-- What `tm_create` leaves: a first segment of zeroes, of the size that the workload asks for.
pub record IsCreated (bank : WorkloadBank) (m : Memory) : Type 0 where
  pub first_segment : m.segment bank.start ≡ some (size bank.nbaccounts)
  pub segments_apart : IsApart m
  pub zeroes : (q : Ptr) → bank.start ≤ q → q < bank.start + size bank.nbaccounts → m.word q ≡ 0

module _ (bank : WorkloadBank) where
  -- The accounts from `i` on, `n` of them, have the initial balance; nothing else is changed.
  record Filled (i n : ℕ) (m m' : Memory) : Type 0 where
    filled : (j : ℕ) → i ≤ j → j < i + n → m'.word (accounts bank.start j) ≡ bank.init_balance
    others :
        (q : Ptr) → ((j : ℕ) → i ≤ j → j < i + n → q ≢ accounts bank.start j) → m'.word q ≡ m.word q
    segments : m'.segment ≡ m.segment

  Filled-suc :
      (i n : ℕ) (m m' : Memory)
      → Filled (i + 1) n (store m (accounts bank.start i) bank.init_balance) m'
      → Filled i (suc n) m m'
  Filled-suc i n m m' d = record {
    filled = λ j low high. elim (ℕ_discrete j i) [
      | yes e ↦
          ap (λ k. m'.word (accounts bank.start k)) e
          ∙ d.others (accounts bank.start i) (λ k lo hi e. absurd (omega arith))
          ∙ update_self m.word (accounts bank.start i) bank.init_balance
      | no ne ↦ d.filled j (omega arith) (omega arith)
    ];
    others = λ q out.
        d.others q (λ j low high. out j (omega arith) (omega arith))
        ∙ update_other m.word (accounts bank.start i) q bank.init_balance
            (out i (omega arith) (omega arith));
    segments = d.segments;
  }

  init_accounts-Ensures :
      (Left : Memory → Type 0) (n i : ℕ) (m : Memory)
      → Ensures (λ a s m'. Filled i n m m') Left (init_accounts bank n i) tt m
  unfolding init_accounts
  init_accounts-Ensures Left zero i m = record {
    filled = λ j low high. absurd (omega arith);
    others = λ q out. refl;
    segments = refl;
  }
  init_accounts-Ensures Left (suc n) i m =
      let m1 = store m (accounts bank.start i) bank.init_balance in
      Ensures-weaken _ _ Left (λ a s m'. Filled-suc i n m m') (init_accounts bank n (i + 1)) tt m1
        (init_accounts-Ensures Left n (i + 1) m1)

  balances-filled :
      (m : Memory) (n : ℕ)
      → ((j : ℕ) → j < n → m.word (accounts bank.start j) ≡ bank.init_balance)
      → balances m bank.start n ≡ n * bank.init_balance
  unfolding balances
  balances-filled m zero full = omega arith
  balances-filled m (suc n) full =
      omega (arith, balances-filled m n (λ j lt. full j (omega arith)), full n (omega arith))

  -- The bank after `init`.
  pub record Initialised (m : Memory) : Type 0 where
    pub bank_first : IsBank bank m []
    pub held_first : held m bank.start ≡ bank.nbaccounts * bank.init_balance
    pub all_accounts :
        (j : ℕ) → j < bank.nbaccounts → m.word (accounts bank.start j) ≡ bank.init_balance

  module _ (setting : IsSetting bank) (m : Memory) (created : IsCreated bank m) where
    Filled-Initialised :
        (m' : Memory)
        → Filled 0 bank.nbaccounts (store m (count bank.start) bank.nbaccounts) m'
        → Initialised m'
    Filled-Initialised m' d =
        let m1 = store m (count bank.start) bank.nbaccounts in
        let counts : counted m' bank.start ≡ bank.nbaccounts =
          d.others (count bank.start) (λ j low high e. absurd (omega arith))
          ∙ update_self m.word (count bank.start) bank.nbaccounts in
        let last : m'.word (next bank.start) ≡ 0 =
          d.others (next bank.start) (λ j low high e. absurd (omega arith))
          ∙ update_other m.word (count bank.start) (next bank.start) bank.nbaccounts
              (λ e. absurd (omega arith))
          ∙ created.zeroes (next bank.start) (omega arith) (omega arith) in
        let correct : corrected m' bank.start ≡ 0 =
          d.others (parity bank.start) (λ j low high e. absurd (omega arith))
          ∙ update_other m.word (count bank.start) (parity bank.start) bank.nbaccounts
              (λ e. absurd (omega arith))
          ∙ created.zeroes (parity bank.start) (omega arith) (omega arith) in
        let sum : held m' bank.start ≡ bank.nbaccounts * bank.init_balance =
          ap (balances m' bank.start) counts
          ∙ balances-filled m' bank.nbaccounts (λ j lt. d.filled j (omega arith) (omega arith)) in
        let stand : m'.segment ≡ m.segment = d.segments in
        record {
          bank_first = record {
            chain = (
              last,
              record {
                some_account = omega (arith, counts, setting.some_place);
                few_accounts = omega (arith, counts);
                stands = ap (λ f. f bank.start) stand ∙ created.first_segment;
                not_negative = λ i lt.
                    omega
                      (arith, d.filled i (omega arith) (omega (arith, counts)), setting.no_debt);
              },
            );
            apart =
                subst (λ f. IsApart (record m { segment = f })) (sym stand) created.segments_apart;
            balanced = omega (arith, sum, correct, ap (λ (t : ℕ). bank.init_balance * t) counts);
          };
          held_first = sum;
          all_accounts = λ j lt. d.filled j (omega arith) (omega arith);
        }

    -- The first transaction of `init` puts the bank in order: every account has the initial balance.
    pub init_tx-Ensures :
        (Left : Memory → Type 0) → Ensures (λ a s m'. Initialised m') Left (init_tx bank tt) tt m
    init_tx-Ensures Left =
        Ensures-weaken _ _ Left (λ a s m'. Filled-Initialised m')
          (init_accounts bank bank.nbaccounts 0) tt (store m (count bank.start) bank.nbaccounts)
          (init_accounts-Ensures Left bank.nbaccounts 0
            (store m (count bank.start) bank.nbaccounts))

  -- The second one sees that, and changes nothing.
  pub visible_tx-Ensures :
      IsSetting bank
      → (m : Memory) → Initialised m
      → (Left : Memory → Type 0)
      → Ensures (λ ok s m'. (ok ≡ true) × (m' ≡ m)) Left (visible_tx bank tt) tt m
  visible_tx-Ensures setting m d Left = (
    eq→== (m.word (accounts bank.start 0)) bank.init_balance
        (d.all_accounts 0 (omega (arith, setting.some_place))),
    refl,
  )
