-- ===== src/Grading/Workload.antt =====
-- grading/workload.hpp: `init` and `run` of `WorkloadBank`, which one worker calls.
pub mod Start
pub mod Short
pub mod Run
use cs453_2025_project.Prelude.{ℕ, zero, suc, Bool, true, false, Option, none, some, ◌+◌}
use cs453_2025_project.Grading.Library.{TransactionalLibrary}
use cs453_2025_project.Grading.Transaction.{
  Body, Result, value, begin_exception, alloc_exception, process_ended, out_of_rounds,
  transactional,
}
use cs453_2025_project.Grading.Bank.{
  WorkloadBank, long_closure, alloc_closure, short_closure, init_tx, visible_tx,
}

-- The random engine of a worker, with the distributions it draws from; an account is drawn below the
-- number of accounts.
pub record Engine : Type 1 where
  pub State : Type 0
  pub long_dist : State → Bool × State
  pub alloc_dist : State → Bool × State
  pub alloc_trigger : State → ℕ × State
  pub account : ℕ → State → ℕ × State

-- The messages of errors.
pub data Violation : Type 0 where
  violated_consistency : Violation
  violated_isolation_or_atomicity : Violation

module _ (lib : TransactionalLibrary) (bank : WorkloadBank) (rounds : ℕ) where
  -- What follows a transaction that has an answer; an exception goes to the caller.
  abbrev pub then_with :
      {S A B : Type 0}
      → Result A × S × lib.World
      → (A → S → lib.World → Result B × lib.World)
      → Result B × lib.World
  then_with (value a, s, w) k = k a s w
  then_with (begin_exception, s, w) k = (begin_exception, w)
  then_with (alloc_exception, s, w) k = (alloc_exception, w)
  then_with (process_ended, s, w) k = (process_ended, w)
  then_with (out_of_rounds, s, w) k = (out_of_rounds, w)

  -- With the variables that the closure captured by reference, as they are left.
  abbrev pub long_tx : ℕ → lib.World → Result Bool × ℕ × lib.World
  long_tx nbaccounts w = transactional lib true (long_closure bank) rounds nbaccounts w

  abbrev pub alloc_tx : ℕ → lib.World → Result (Unit {0}) × Unit {0} × lib.World
  alloc_tx trigger w = transactional lib false (alloc_closure bank trigger) rounds tt w

  abbrev pub short_tx : ℕ × ℕ → lib.World → Result Bool × (ℕ × ℕ) × lib.World
  short_tx ids w = transactional lib false (short_closure bank) rounds ids w

  abbrev pub init : lib.World → Result (Option Violation) × lib.World
  init w = then_with (transactional lib false (init_tx bank) rounds tt w) (λ a s w.
      then_with (transactional lib true (visible_tx bank) rounds tt w) (λ correct s w.
        elim correct [ true ↦ (value none, w) | false ↦ (value (some violated_consistency), w) ]))

  module _ (engine : Engine) where
    -- `while (unlikely(!short_tx(...)));`, for at most `tries` rounds. The first account is drawn first.
    unfoldable pub short_until_done :
        ℕ
        → ℕ
        → engine.State
        → lib.World
        → (engine.State → lib.World → Result (Option Violation) × lib.World)
        → Result (Option Violation) × lib.World
    short_until_done zero count e w then_do = (out_of_rounds, w)
    short_until_done (suc tries) count e w then_do =
        let (send_id, e1) = engine.account count e in
        let (recv_id, e2) = engine.account count e1 in
        then_with (short_tx (send_id, recv_id) w) (λ ok s w. elim ok [
          | true ↦ then_do e2 w
          | false ↦ short_until_done tries count e2 w then_do
        ])

    -- The `for` of `run`, with `n` transactions to go, and the last long transaction.
    unfoldable pub run_transactions :
        ℕ → ℕ → engine.State → lib.World → Result (Option Violation) × lib.World
    unfolding short_until_done
    run_transactions zero count e w = then_with (long_tx count w) (λ ok s w. elim ok [
      | true ↦ (value none, w)
      | false ↦ (value (some violated_isolation_or_atomicity), w)
    ])
    run_transactions (suc n) count e w =
        let (long, e1) = engine.long_dist e in
        let (allocates, e2) = engine.alloc_dist e1 in
        let (trigger, e3) = engine.alloc_trigger e2 in
        elim long [
          | true ↦ then_with (long_tx count w) (λ ok count' w. elim ok [
            | true ↦ run_transactions n count' e1 w
            | false ↦ (value (some violated_isolation_or_atomicity), w)
          ])
          | false ↦ elim allocates [
            | true ↦ then_with (alloc_tx trigger w) (λ a s w. run_transactions n count e3 w)
            | false ↦ short_until_done rounds count e2 w (λ e w. run_transactions n count e w)
          ]
        ]

    abbrev pub run : ℕ → engine.State → lib.World → Result (Option Violation) × lib.World
    run nbtxperwrk seeded w = run_transactions nbtxperwrk bank.nbaccounts seeded w
