-- ===== src/Grading/Workload/Short.antt =====
-- `short_tx` of grading/workload.hpp, with the loop that repeats its transaction.
use cs453_2025_project.Prelude.{ℕ, suc, ◌<◌, List, length, false}
use cs453_2025_project.Machine.{Ptr}
use cs453_2025_project.Grading.Library.{TransactionalLibrary, Memory, IsSerial, IsSteady}
use cs453_2025_project.Grading.Ensures.{Ensures-weaken, Ended, transactional-Ended}
use cs453_2025_project.Grading.Steady.{Finished, transactional-Finished}
use cs453_2025_project.Grading.Bank.{WorkloadBank, short_closure}
use cs453_2025_project.Grading.Bank.Layout.{IsChain}
use cs453_2025_project.Grading.Bank.Chosen.{Moves, account_at, short_closure-Moves}
use cs453_2025_project.Grading.Workload.{short_tx}

module _ (lib : TransactionalLibrary) (serial : IsSerial lib) (bank : WorkloadBank) (rounds : ℕ)
    (m : Memory) (qs : List Ptr) (chain : IsChain bank.nbaccounts m bank.start qs)
    (enough : length qs < bank.fuel) (send_id recv_id : ℕ) (w : lib.World)
    (idle : serial.Idle w m) where
  -- On a library that does what include/tm.h promises one thread and whose calls do not abort, and
  -- with fuel for the segments, `short_tx` returns in its first round: it finds the accounts of the
  -- two numbers, counted along the segments, and moves one unit from the first to the second if the
  -- first holds one; and it answers `false`, and changes nothing, exactly if one of the accounts does
  -- not exist.
  pub short_tx-Moves :
      (steady : IsSteady lib)
      → Finished lib steady serial
          (λ ok s v.
            Moves m (account_at m bank.start qs send_id) (account_at m bank.start qs recv_id) ok v)
          (λ v. ⊥)
          (short_tx lib bank (suc rounds) (send_id, recv_id) w)
  short_tx-Moves steady =
      transactional-Finished lib steady serial _ (λ v. ⊥) false (short_closure bank) m rounds
        (send_id, recv_id) w
        (short_closure-Moves bank m qs chain enough (λ v. ⊥) (send_id, recv_id) send_id recv_id)
        idle

  -- On a library whose calls may abort, what `short_tx` commits is still a move between the accounts of
  -- some two numbers, or nothing where there is no such account; which numbers is left open, since
  -- an attempt that fails leaves the captured numbers less than they were.
  pub short_tx-MovesSome :
      Ended lib serial
        (λ ok s v.
          (i : ℕ) × (j : ℕ) × Moves m
            (account_at m bank.start qs i)
            (account_at m bank.start qs j)
            ok
            v)
        (λ v. ⊥)
        m
        (short_tx lib bank rounds (send_id, recv_id) w)
  short_tx-MovesSome =
      transactional-Ended lib serial _ (λ v. ⊥) false (short_closure bank) m
        (λ (i, j).
          Ensures-weaken
            (λ ok s v. Moves m (account_at m bank.start qs i) (account_at m bank.start qs j) ok v) _
            (λ v. ⊥) (λ ok s v moves. (i, j, moves)) (short_closure bank (i, j)) (i, j) m
            (short_closure-Moves bank m qs chain enough (λ v. ⊥) (i, j) i j))
        rounds (send_id, recv_id) w idle
