-- ===== src/Grading/Workload/Run.antt =====
-- `run` of grading/workload.hpp finds no violation on a library that is right for one thread.
use cs453_2025_project.Prelude.{
  ℕ, zero, suc, ◌+◌, ◌*◌, ◌%◌, ◌≡◌, ◌≤◌, ◌<◌, subst, List, length, Bool, true, false, Option, none,
  some, arith,
}
use cs453_2025_project.Machine.{Ptr}
use cs453_2025_project.Grading.Library.{TransactionalLibrary, Memory, IsSerial}
use cs453_2025_project.Grading.Transaction.{
  Body, Result, value, begin_exception, alloc_exception, process_ended, out_of_rounds,
  transactional,
}
use cs453_2025_project.Grading.Ensures.{Ensures, Ended, transactional-Ended}
use cs453_2025_project.Grading.Bank.{
  WorkloadBank, word_mod, negative, long_closure, alloc_closure, short_closure,
}
use cs453_2025_project.Grading.Bank.Layout.{along, counted, held}
use cs453_2025_project.Grading.Bank.Invariant.{IsSetting, IsBank}
use cs453_2025_project.Grading.Bank.Control.{long_closure-Ensures}
use cs453_2025_project.Grading.Bank.Transfer.{Kept, short_closure-Ensures}
use cs453_2025_project.Grading.Bank.Alters.{shrinks}
use cs453_2025_project.Grading.Bank.Allocate.{Altered, alloc_closure-Ensures}
use cs453_2025_project.Grading.Workload.{
  Engine, Violation, then_with, short_until_done, run_transactions, run,
}

module _ (lib : TransactionalLibrary) (serial : IsSerial lib) (bank : WorkloadBank) where
  -- Some memory with the bank in order is the one that was committed last.
  abbrev pub InOrder : lib.World → Type 0
  InOrder w = (m : Memory) × (qs : List Ptr) × serial.Idle w m × IsBank bank m qs

  -- The bank is in order, unless the process has ended; and no violation was found.
  abbrev pub Sound : Result (Option Violation) × lib.World → Type 0
  Sound (value none, w) = InOrder w
  Sound (value (some violation), w) = ⊥
  Sound (begin_exception, w) = InOrder w
  Sound (alloc_exception, w) = InOrder w
  Sound (process_ended, w) = Unit {0}
  Sound (out_of_rounds, w) = InOrder w

  Sound-elim :
      (b : Bool) (x y : Result (Option Violation) × lib.World)
      → Sound x
      → Sound y
      → Sound (elim b [ true ↦ x | false ↦ y ])
  Sound-elim true x y then_case else_case = then_case
  Sound-elim false x y then_case else_case = else_case

  -- There is space for the balances and the segments of `n` new accounts.
  abbrev pub Room : ℕ → Memory → List Ptr → Type 0
  Room n m qs =
      (along (held m) bank.start qs + n * bank.init_balance < negative)
      × (length qs + n + 2 ≤ bank.fuel)

  module _ (setting : IsSetting bank) (rounds : ℕ) where
    then_with-Sound :
        {S A : Type 0} (Post : A → S → Memory → Type 0) (m : Memory) (qs : List Ptr)
        → IsBank bank m qs
        → (k : A → S → lib.World → Result (Option Violation) × lib.World)
        → ((a : A) (s : S) (w : lib.World) (v : Memory)
            → serial.Idle w v
            → Post a s v
            → Sound (k a s w))
        → (r : Result A × S × lib.World) → Ended lib serial Post (λ v. v ≡ m) m r
        → Sound (then_with lib bank rounds r k)
    then_with-Sound Post m qs inv k rest (value a, s, w) (v, idle, post) = rest a s w v idle post
    then_with-Sound Post m qs inv k rest (begin_exception, s, w) idle = (m, qs, idle, inv)
    then_with-Sound Post m qs inv k rest (alloc_exception, s, w) (v, idle, e) =
        (m, qs, subst (λ u. serial.Idle w u) e idle, inv)
    then_with-Sound Post m qs inv k rest (process_ended, s, w) d = tt
    then_with-Sound Post m qs inv k rest (out_of_rounds, s, w) idle = (m, qs, idle, inv)

    -- A transaction, and what follows it.
    transaction-Sound :
        {S A : Type 0} (Post : A → S → Memory → Type 0) (ro : Bool) (func : S → Body S A)
        (m : Memory) (qs : List Ptr)
        → IsBank bank m qs
        → ((s : S) → Ensures Post (λ v. v ≡ m) (func s) s m)
        → (s : S) (w : lib.World) → serial.Idle w m
        → (k : A → S → lib.World → Result (Option Violation) × lib.World)
        → ((a : A) (s : S) (w : lib.World) (v : Memory)
            → serial.Idle w v
            → Post a s v
            → Sound (k a s w))
        → Sound (then_with lib bank rounds (transactional lib ro func rounds s w) k)
    transaction-Sound Post ro func m qs inv ensures s w idle k rest =
        then_with-Sound Post m qs inv k rest (transactional lib ro func rounds s w)
          (transactional-Ended lib serial Post (λ v. v ≡ m) ro func m ensures rounds s w idle)

    -- A long transaction answers that all is well.
    control-Sound :
        (m : Memory) (qs : List Ptr)
        → IsBank bank m qs
        → length qs + 2 ≤ bank.fuel
        → (n : ℕ) (w : lib.World) → serial.Idle w m
        → (k : ℕ → lib.World → Result (Option Violation) × lib.World)
        → (wrong : Result (Option Violation))
        → ((n : ℕ) (w : lib.World) → serial.Idle w m → Sound (k n w))
        → Sound (
            then_with lib bank rounds
              (transactional lib true (long_closure bank) rounds n w)
              (λ ok n w. elim ok [ true ↦ k n w | false ↦ (wrong, w) ]))
    control-Sound m qs inv enough n w idle k wrong rest =
        transaction-Sound
          (λ ok n m'. (ok ≡ true) × (n ≡ along (counted m) bank.start qs % word_mod) × (m' ≡ m))
          true (long_closure bank) m qs inv
          (λ s. long_closure-Ensures bank setting m qs inv enough (λ v. v ≡ m) s s) n w idle
          (λ ok n w. elim ok [ true ↦ k n w | false ↦ (wrong, w) ])
          (λ ok n w v idle' (well, counts, same).
            rw well (rest n w (subst (λ u. serial.Idle w u) same idle')))

    module _ (engine : Engine) where
      short-Sound :
          (tries count : ℕ) (e : engine.State) (w : lib.World) (m : Memory) (qs : List Ptr)
          → IsBank bank m qs
          → serial.Idle w m
          → along (held m) bank.start qs < negative
          → length qs < bank.fuel
          → (then_do : engine.State → lib.World → Result (Option Violation) × lib.World)
          → ((e : engine.State) (w : lib.World) (v : Memory)
              → serial.Idle w v
              → IsBank bank v qs
              → along (held v) bank.start qs ≡ along (held m) bank.start qs
              → Sound (then_do e w))
          → Sound (short_until_done lib bank rounds engine tries count e w then_do)
      unfolding short_until_done
      short-Sound zero count e w m qs inv idle little enough then_do rest = (m, qs, idle, inv)
      short-Sound (suc tries) count e w m qs inv idle little enough then_do rest =
          let (send_id, e1) = engine.account count e in
          let (recv_id, e2) = engine.account count e1 in
          transaction-Sound (λ ok s v. Kept bank m qs inv v) false (short_closure bank) m qs inv
            (λ s. short_closure-Ensures bank m qs inv little (λ v. v ≡ m) enough s s)
            (send_id, recv_id) w idle
            (λ ok s w. elim ok [
              | true ↦ then_do e2 w
              | false ↦ short_until_done lib bank rounds engine tries count e2 w then_do
            ])
            (λ ok s w v idle' (inv', same, counts).
              Sound-elim ok _ _ (rest e2 w v idle' inv' same) (
                short-Sound tries count e2 w v qs inv' idle' (omega (arith, same)) enough then_do
                  (λ e w u idle'' inv'' same'.
                    rest e w u idle'' inv'' (omega (arith, same, same')))))

      one_more : (n : ℕ) → suc n * bank.init_balance ≡ n * bank.init_balance + bank.init_balance
      one_more n = omega arith

      run_transactions-Sound :
          (n count : ℕ) (e : engine.State) (w : lib.World) (m : Memory) (qs : List Ptr)
          → IsBank bank m qs
          → serial.Idle w m
          → Room n m qs
          → Sound (run_transactions lib bank rounds engine n count e w)
      unfolding run_transactions
      run_transactions-Sound zero count e w m qs inv idle (little, enough) =
          control-Sound m qs inv (omega arith) count w idle (λ n w. (value none, w)) _
            (λ n w idle'. (m, qs, idle', inv))
      run_transactions-Sound (suc n) count e w m qs inv idle (little, enough) =
          let (long, e1) = engine.long_dist e in
          let (allocates, e2) = engine.alloc_dist e1 in
          let (trigger, e3) = engine.alloc_trigger e2 in
          Sound-elim long _ _
            (control-Sound m qs inv (omega arith) count w idle
              (λ count w. run_transactions lib bank rounds engine n count e1 w) _
              (λ count w idle'.
                run_transactions-Sound n count e1 w m qs inv idle'
                  (omega (arith, one_more n), omega arith)))
            (Sound-elim allocates _ _
              (transaction-Sound
                (λ a s v.
                  (qs' : List Ptr) × Altered bank
                    (shrinks trigger (along (counted m) bank.start qs % word_mod)) m v qs qs')
                false (alloc_closure bank trigger) m qs inv
                (λ s. alloc_closure-Ensures bank setting m qs inv (omega arith) trigger) tt w idle
                (λ a s w. run_transactions lib bank rounds engine n count e3 w)
                (λ a s w v idle' (qs', d).
                  run_transactions-Sound n count e3 w v qs' d.bank_now idle'
                    (omega (arith, d.held_most, one_more n), omega (arith, d.few_more))))
              (short-Sound rounds count e2 w m qs inv idle (omega arith) (omega arith)
                (λ e w. run_transactions lib bank rounds engine n count e w)
                (λ e w v idle' inv' same.
                  run_transactions-Sound n count e w v qs inv' idle'
                    (omega (arith, same, one_more n), omega arith))))

      -- On a library that does what include/tm.h promises one thread, however its calls abort, `run` on
      -- a bank in order finds no violation, for every engine and any number of transactions with fuel
      -- for their segments and balances that stay below 2 ^ 63 together; and however it ends, but for
      -- the end of the process, the memory that is committed holds a bank in order.
      pub run-Sound :
          (nbtxperwrk : ℕ) (seeded : engine.State) (w : lib.World) (m : Memory) (qs : List Ptr)
          → IsBank bank m qs
          → serial.Idle w m
          → Room nbtxperwrk m qs
          → Sound (run lib bank rounds engine nbtxperwrk seeded w)
      run-Sound nbtxperwrk seeded w m qs inv idle room =
          run_transactions-Sound nbtxperwrk bank.nbaccounts seeded w m qs inv idle room
