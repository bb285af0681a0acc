-- ===== src/Grading/Bank/Long.antt =====
-- `long_tx` of grading/workload.hpp sees every account once.
use cs453_2025_project.Prelude.{
  ℕ, zero, suc, ◌+◌, ◌*◌, ◌%◌, ◌≡◌, ◌≢◌, ◌≤◌, ◌<◌, refl, sym, ap, subst, List, [], ◌∷◌, length,
  Bool, false, ◌==◌, leb, arith,
}
use cs453_2025_project.Machine.{Ptr, null}
use cs453_2025_project.Grading.Library.{Memory}
use cs453_2025_project.Grading.Transaction.{Body, done}
use cs453_2025_project.Grading.Ensures.{Ensures, Ensures-if}
use cs453_2025_project.Grading.Bank.{WorkloadBank, word_mod, negative, sum_accounts, long_loop}
use cs453_2025_project.Grading.Bank.AccountSegment.{count, parity, accounts}
use cs453_2025_project.Grading.Bank.Layout.{
  balances, balances-add_one, along, counted, held, corrected, IsChain,
}

module _ (bank : WorkloadBank) (Post : Bool → ℕ → Memory → Type 0) (Left : Memory → Type 0) (s : ℕ)
    (m : Memory) where
  step : (i n : ℕ) → i + 1 + n ≡ i + suc n
  step i n = omega arith

  sum_accounts-Ensures :
      (n i : ℕ) (p : Ptr) (sum : ℕ) (then_do : ℕ → Body ℕ Bool)
      → ((j : ℕ) → j < i + n → m.word (accounts p j) < negative)
      → sum % word_mod ≡ sum
      → ((sum' : ℕ)
          → (sum' + balances m p i) % word_mod ≡ (sum + balances m p (i + n)) % word_mod
          → sum' % word_mod ≡ sum'
          → Ensures Post Left (then_do sum') s m)
      → Ensures Post Left (sum_accounts bank n i p sum then_do) s m
  unfolding sum_accounts balances
  sum_accounts-Ensures zero i p sum then_do low small rest =
      rest sum (ap (λ k. (sum + balances m p k) % word_mod) (omega arith)) small
  sum_accounts-Ensures (suc n) i p sum then_do low small rest =
      Ensures-if Post Left (leb negative (m.word (accounts p i))) (done false) _ s m
        (λ t. absurd (ground (arith, low i (omega arith))))
        (λ t.
          sum_accounts-Ensures n (i + 1) p ((sum + m.word (accounts p i)) % word_mod) then_do
            (λ j lt. low j (omega arith)) (omega arith)
            (λ sum' e lt.
              rest sum' (omega (arith, e, balances-add_one m p i, ap (balances m p) (step i n)))
                lt))

  -- The whole `for`.
  sum_all-Ensures :
      (n : ℕ) (p : Ptr) (sum : ℕ) (then_do : ℕ → Body ℕ Bool)
      → ((j : ℕ) → j < n → m.word (accounts p j) < negative)
      → sum % word_mod ≡ sum
      → ((sum' : ℕ)
          → sum' ≡ (sum + balances m p n) % word_mod
          → Ensures Post Left (then_do sum') s m)
      → Ensures Post Left (sum_accounts bank n 0 p sum then_do) s m
  unfolding balances
  sum_all-Ensures n p sum then_do low small rest =
      sum_accounts-Ensures n 0 p sum then_do (λ j lt. low j (omega arith)) small
        (λ sum' e small'. rest sum' (omega (arith, e, small', ap (balances m p) (zero_add n))))
    where
      zero_add : (n : ℕ) → 0 + n ≡ n
      zero_add n = omega arith

  pub long_loop-Ensures :
      (fuel : ℕ) (p : Ptr) (qs : List Ptr) (total sum : ℕ)
      → length qs + 2 ≤ fuel
      → p ≢ 0
      → IsChain bank.nbaccounts m p qs
      → total % word_mod ≡ total
      → sum % word_mod ≡ sum
      → ((total' sum' : ℕ)
          → total' ≡ (total + along (counted m) p qs) % word_mod
          → sum' ≡ (sum + (along (held m) p qs + along (corrected m) p qs)) % word_mod
          → Post (sum' == (bank.init_balance * total') % word_mod) total' m)
      → Ensures Post Left (long_loop bank fuel p total sum) s m
  unfolding long_loop
  long_loop-Ensures zero p qs total sum enough nonnull chain small_total small_sum post =
      absurd (omega arith)
  long_loop-Ensures (suc zero) p qs total sum enough nonnull chain small_total small_sum post =
      absurd (omega arith)
  long_loop-Ensures (suc (suc fuel)) p [] total sum enough nonnull (last, seg) small_total small_sum
        post =
      Ensures-if Post Left (p == null) _ _ s m (λ t. absurd (ground arith))
        (λ t.
          sum_all-Ensures (m.word (count p)) p ((sum + m.word (parity p)) % word_mod) _
            seg.not_negative (omega arith)
            (λ sum' e.
              subst
                (λ x.
                  Ensures Post Left
                    (long_loop bank (suc fuel) x ((total + m.word (count p)) % word_mod) sum') s m)
                (sym last)
                (post ((total + m.word (count p)) % word_mod) sum' refl (omega (arith, e)))))
  long_loop-Ensures (suc (suc fuel)) p (q ∷ qs) total sum enough nonnull
        (link, nonnull', seg, out, chain) small_total small_sum post =
      Ensures-if Post Left (p == null) _ _ s m (λ t. absurd (ground arith))
        (λ t.
          sum_all-Ensures (m.word (count p)) p ((sum + m.word (parity p)) % word_mod) _
            seg.not_negative (omega arith)
            (λ sum' e.
              subst
                (λ x.
                  Ensures Post Left
                    (long_loop bank (suc fuel) x ((total + m.word (count p)) % word_mod) sum') s m)
                (sym link)
                (long_loop-Ensures (suc fuel) q qs ((total + m.word (count p)) % word_mod) sum'
                  (omega arith) nonnull' chain (omega arith) (omega (arith, e))
                  (λ total' sum'' et es.
                    post total' sum'' (omega (arith, et)) (omega (arith, e, es))))))
