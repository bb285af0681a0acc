-- ===== src/Grading/Bank/Control.antt =====
-- `long_tx` of grading/workload.hpp finds nothing wrong with the bank.
use cs453_2025_project.Prelude.{
  ℕ, ◌+◌, ◌*◌, ◌%◌, ◌≡◌, ◌≤◌, refl, ap, List, length, true, arith, eq→==,
}
use cs453_2025_project.Grading.Library.{Memory}
use cs453_2025_project.Grading.Ensures.{Ensures}
use cs453_2025_project.Grading.Bank.{WorkloadBank, word_mod, long_closure}
use cs453_2025_project.Grading.Bank.Layout.{along, counted}
use cs453_2025_project.Grading.Bank.Long.{long_loop-Ensures}
use cs453_2025_project.Grading.Bank.Invariant.{IsSetting, IsBank, product-mod}

-- With fuel for the segments, the closure of `long_tx` on a bank in order answers that all is well, counts the accounts
-- modulo 2 ^ 64, and changes nothing.
pub long_closure-Ensures :
    (bank : WorkloadBank)
    → IsSetting bank
    → (m : Memory) (qs : List ℕ) → IsBank bank m qs
    → length qs + 2 ≤ bank.fuel
    → (Left : Memory → Type 0) (s n : ℕ)
    → Ensures
        (λ ok nbaccounts m'.
          (ok ≡ true) × (nbaccounts ≡ along (counted m) bank.start qs % word_mod) × (m' ≡ m))
        Left
        (long_closure bank n)
        s
        m
long_closure-Ensures bank setting m qs inv enough Left s n =
    long_loop-Ensures bank _ Left s m bank.fuel bank.start qs 0 0 enough setting.somewhere inv.chain
      (omega arith) (omega arith)
      (λ total' sum' et es.
        let counts : total' ≡ along (counted m) bank.start qs % word_mod = omega (arith, et) in
        (
          eq→== sum' ((bank.init_balance * total') % word_mod) (
              omega (
                arith,
                es,
                inv.balanced,
                product-mod bank.init_balance (along (counted m) bank.start qs),
                ap (λ (t : ℕ). (bank.init_balance * t) % word_mod) counts,
              )),
          counts,
          refl,
        ))
