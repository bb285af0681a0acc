-- ===== src/Grading/Workload/Start.antt =====
-- `init` of grading/workload.hpp puts the bank in order.
use cs453_2025_project.Prelude.{ℕ, suc, ◌≡◌, refl, subst, Bool, true, false, Option, none, some}
use cs453_2025_project.Grading.Library.{TransactionalLibrary, Memory, IsSerial, IsSteady}
use cs453_2025_project.Grading.Transaction.{
  Body, Result, value, begin_exception, alloc_exception, process_ended, out_of_rounds,
  transactional,
}
use cs453_2025_project.Grading.Ensures.{Ensures}
use cs453_2025_project.Grading.Steady.{Finished, transactional-Finished}
use cs453_2025_project.Grading.Bank.{WorkloadBank, init_tx, visible_tx}
use cs453_2025_project.Grading.Bank.Invariant.{IsSetting}
use cs453_2025_project.Grading.Bank.Init.{
  IsCreated, Initialised, init_tx-Ensures, visible_tx-Ensures,
}
use cs453_2025_project.Grading.Workload.{Violation, violated_consistency, then_with, init}

module _ (lib : TransactionalLibrary) (serial : IsSerial lib) (steady : IsSteady lib)
    (bank : WorkloadBank) (setting : IsSetting bank) (rounds : ℕ) where
  -- No violation was found, and what is committed is the bank that is new.
  pub record Started (answer : Result (Option Violation) × lib.World) : Type 0 where
    pub no_violation : answer.0 ≡ value none
    pub memory : Memory
    pub memory_now : serial.Idle answer.1 memory
    pub initialised : Initialised bank memory

  then_with-Started :
      {S A : Type 0} (Post : A → S → Memory → Type 0)
      (k : A → S → lib.World → Result (Option Violation) × lib.World)
      → ((a : A) (s : S) (w : lib.World) (v : Memory)
          → serial.Idle w v
          → Post a s v
          → Started (k a s w))
      → (r : Result A × S × lib.World) → Finished lib steady serial Post (λ v. ⊥) r
      → Started (then_with lib bank (suc rounds) r k)
  then_with-Started Post k rest (value a, s, w) (v, idle, post) = rest a s w v idle post
  then_with-Started Post k rest (begin_exception, s, w) d = absurd d
  then_with-Started Post k rest (alloc_exception, s, w) (v, idle, left) = absurd left
  then_with-Started Post k rest (process_ended, s, w) d = absurd d
  then_with-Started Post k rest (out_of_rounds, s, w) d = absurd d

  then_transaction :
      {S A : Type 0} (Post : A → S → Memory → Type 0) (ro : Bool) (func : S → Body S A) (m : Memory)
      → ((s : S) → Ensures Post (λ v. ⊥) (func s) s m)
      → (s : S) (w : lib.World) → serial.Idle w m
      → (k : A → S → lib.World → Result (Option Violation) × lib.World)
      → ((a : A) (s : S) (w : lib.World) (v : Memory)
          → serial.Idle w v
          → Post a s v
          → Started (k a s w))
      → Started (then_with lib bank (suc rounds) (transactional lib ro func (suc rounds) s w) k)
  then_transaction Post ro func m ensures s w idle k rest =
      then_with-Started Post k rest (transactional lib ro func (suc rounds) s w) (
        transactional-Finished lib steady serial Post (λ v. ⊥) ro func m rounds s w (ensures s)
          idle)

  -- On a library that does what include/tm.h promises one thread and whose calls do not abort, `init`
  -- of a new shared memory of zeroes finds no violation, and leaves a bank in order in which every
  -- account has the initial balance.
  pub init-Started :
      (m : Memory)
      → IsCreated bank m
      → (w : lib.World) → serial.Idle w m
      → Started (init lib bank (suc rounds) w)
  init-Started m created w idle =
      then_transaction (λ a s v. Initialised bank v) false (init_tx bank) m
        (λ s. init_tx-Ensures bank setting m created (λ v. ⊥)) tt w idle _
        (λ a s w v idle' d.
          then_transaction (λ ok s u. (ok ≡ true) × (u ≡ v)) true (visible_tx bank) v
            (λ s. visible_tx-Ensures bank setting v d (λ u. ⊥)) tt w idle'
            (λ correct s w. elim correct [
              | true ↦ (value none, w)
              | false ↦ (value (some violated_consistency), w)
            ])
            (λ ok s w u idle'' (well, same). rw well (record {
              no_violation = refl;
              memory = v;
              memory_now = subst (λ t. serial.Idle w t) same idle'';
              initialised = d;
            })))
