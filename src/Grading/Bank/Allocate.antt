-- ===== src/Grading/Bank/Allocate.antt =====
-- `alloc_tx` of grading/workload.hpp keeps the bank in order.
use cs453_2025_project.Prelude.{
  ℕ, zero, suc, ◌+◌, ◌-◌, ◌%◌, ◌≡◌, ◌≤◌, ◌<◌, sym, ap, subst, List, [], ◌∷◌, length, ◌==◌,
  if◌then◌else◌, arith, Bool, true, false, ℕ_discrete,
}
use cs453_2025_project.Machine.{Ptr, null}
use cs453_2025_project.Grading.Library.{Memory}
use cs453_2025_project.Grading.Ensures.{Ensures, Ensures-if, Ensures-weaken}
use cs453_2025_project.Grading.Bank.{
  WorkloadBank, word_mod, remove_account, add_account, alloc_loop, alloc_closure,
}
use cs453_2025_project.Grading.Bank.AccountSegment.{count, next}
use cs453_2025_project.Grading.Bank.Layout.{along, counted, held, IsChain}
use cs453_2025_project.Grading.Bank.Invariant.{IsApart, IsSetting, IsBank}
use cs453_2025_project.Grading.Bank.Alters.{
  shrinks, Alters, adds, Removes-last, Removes-segment, Alters-last, lifted,
}

module _ (bank : WorkloadBank) (setting : IsSetting bank) (m : Memory) (apart : IsApart m) where
  -- The rest of the `while`, behind the first segment.
  loop_behind :
      (trigger fuel prev p : ℕ) (qs : List Ptr) (total : ℕ)
      → length qs < fuel
      → IsChain bank.nbaccounts m prev (p ∷ qs)
      → Alters bank setting m apart
          (shrinks trigger ((total + along (counted m) p qs) % word_mod))
          prev
          (p ∷ qs)
          (alloc_loop bank trigger fuel prev p total)
  unfolding alloc_loop
  loop_behind trigger zero prev p qs total enough chain = absurd (omega arith)
  loop_behind trigger (suc fuel) prev p [] total enough chain =
      let (last, seg) = chain.4 in
      Ensures-if _ _ (m.word (next p) == null) _ _ tt m
        (λ t.
          Alters-last bank setting m apart trigger ((total + m.word (count p)) % word_mod) prev
            (p ∷ []) prev p
            (λ some. elim (ℕ_discrete (m.word (count p)) 1) [
              | yes one ↦ Removes-segment bank setting m apart prev p chain one
              | no more ↦
                  lifted bank setting m apart prev p [] chain true
                    (remove_account bank prev p ((m.word (count p) + (word_mod - 1)) % word_mod))
                    (Removes-last bank setting m apart p last seg (omega (arith, seg.some_account))
                      prev)
            ])
            (lifted bank setting m apart prev p [] chain false
              (add_account bank p (m.word (count p))) (adds bank setting m apart p last seg)))
        (λ t. absurd (ground arith))
  loop_behind trigger (suc fuel) prev p (q ∷ qs) total enough chain =
      let rest = chain.4 in
      Ensures-if _ _ (m.word (next p) == null) _ _ tt m
        (λ t. absurd (ground (arith, rest.1, rest.0)))
        (λ t.
          lifted bank setting m apart prev p (q ∷ qs) chain
            (shrinks trigger ((total + along (counted m) p (q ∷ qs)) % word_mod))
            (alloc_loop bank trigger fuel p (m.word (next p))
              ((total + m.word (count p)) % word_mod))
            (subst
              (λ x.
                Alters bank setting m apart
                  (shrinks trigger ((total + along (counted m) p (q ∷ qs)) % word_mod)) p (q ∷ qs)
                  (alloc_loop bank trigger fuel p x ((total + m.word (count p)) % word_mod)))
              (sym rest.0)
              (subst
                (λ less.
                  Alters bank setting m apart less p (q ∷ qs)
                    (alloc_loop bank trigger fuel p q ((total + m.word (count p)) % word_mod)))
                (ap (shrinks trigger) (omega arith))
                (loop_behind trigger fuel p q qs ((total + m.word (count p)) % word_mod)
                  (omega arith) rest))))

  loop_first :
      (trigger fuel p : ℕ) (qs : List Ptr)
      → length qs < fuel
      → IsChain bank.nbaccounts m p qs
      → Alters bank setting m apart
          (shrinks trigger ((0 + along (counted m) p qs) % word_mod))
          p
          qs
          (alloc_loop bank trigger fuel null p 0)
  unfolding alloc_loop
  loop_first trigger zero p qs enough chain = absurd (omega arith)
  loop_first trigger (suc fuel) p [] enough (last, seg) =
      Ensures-if _ _ (m.word (next p) == null) _ _ tt m
        (λ t.
          Alters-last bank setting m apart trigger ((0 + m.word (count p)) % word_mod) p [] null p
            (λ some.
              Removes-last bank setting m apart p last seg
                (omega (arith, seg.few_accounts, setting.few_places)) null)
            (adds bank setting m apart p last seg))
        (λ t. absurd (ground arith))
  loop_first trigger (suc fuel) p (q ∷ qs) enough chain =
      Ensures-if _ _ (m.word (next p) == null) _ _ tt m
        (λ t. absurd (ground (arith, chain.1, chain.0)))
        (λ t.
          subst
            (λ x.
              Alters bank setting m apart
                (shrinks trigger ((0 + along (counted m) p (q ∷ qs)) % word_mod)) p (q ∷ qs)
                (alloc_loop bank trigger fuel p x ((0 + m.word (count p)) % word_mod)))
            (sym chain.0)
            (subst
              (λ less.
                Alters bank setting m apart less p (q ∷ qs)
                  (alloc_loop bank trigger fuel p q ((0 + m.word (count p)) % word_mod)))
              (ap (shrinks trigger) (omega arith))
              (loop_behind trigger fuel p q qs ((0 + m.word (count p)) % word_mod) (omega arith)
                chain)))

-- The bank after an account has come, or gone.
pub record Altered (bank : WorkloadBank) (less : Bool) (m m' : Memory) (qs qs' : List Ptr)
    : Type 0 where
  pub bank_now : IsBank bank m' qs'
  pub held_most : along (held m') bank.start qs' ≤ along (held m) bank.start qs + bank.init_balance
  pub one_account :
      along (counted m') bank.start qs' + (if less then 1 else 0)
      ≡ along (counted m) bank.start qs + (if less then 0 else 1)
  pub few_more : length qs' ≤ length qs + 1

-- With fuel for the segments, the closure of `alloc_tx` leaves the bank in order, with one account less
-- where there were more than `trigger` and more than two, counted modulo 2 ^ 64, and otherwise with one more; the
-- balances sum up to at most one initial balance more, on at most one segment more. Where there is no
-- memory for a segment, it has changed nothing.
pub alloc_closure-Ensures :
    (bank : WorkloadBank)
    → IsSetting bank
    → (m : Memory) (qs : List Ptr) → IsBank bank m qs
    → length qs < bank.fuel
    → (trigger : ℕ)
    → Ensures
        (λ a s m'.
          (qs' : List Ptr) × Altered bank
            (shrinks trigger (along (counted m) bank.start qs % word_mod))
            m
            m'
            qs
            qs')
        (λ m'. m' ≡ m)
        (alloc_closure bank trigger tt)
        tt
        m
alloc_closure-Ensures bank setting m qs inv enough trigger =
    Ensures-weaken _ _ _
      (λ a s m' (qs', d). (
        qs',
        record {
          bank_now = record {
            chain = d.chain_now;
            apart = d.apart_now;
            balanced = omega (arith, d.sum_now, inv.balanced);
          };
          held_most = d.held_now;
          one_account = d.one_now;
          few_more = d.few_now;
        },
      ))
      (alloc_closure bank trigger tt) tt m
      (subst
        (λ k.
          Alters bank setting m inv.apart (shrinks trigger (k % word_mod)) bank.start qs
            (alloc_closure bank trigger tt))
        (zero_add (along (counted m) bank.start qs))
        (loop_first bank setting m inv.apart trigger bank.fuel bank.start qs enough inv.chain))
  where
    zero_add : (n : ℕ) → 0 + n ≡ n
    zero_add n = omega arith
