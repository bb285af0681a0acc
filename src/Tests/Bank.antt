-- ===== src/Tests/Bank.antt =====
-- The bank of grading/workload.hpp at concrete inputs: two segments, of two accounts and of one.
use cs453_2025_project.Prelude.{
  ℕ, suc, ◌+◌, ◌%◌, ◌≡◌, ◌≤◌, ◌<◌, refl, List, [], ◌∷◌, true, false, Option, none, some, ◌==◌,
  if◌then◌else◌, arith, update,
}
use cs453_2025_project.Machine.{Ptr}
use cs453_2025_project.Grading.Library.{Memory}
use cs453_2025_project.Grading.Transaction.{value, end_transaction, attempt, transactional}
use cs453_2025_project.Grading.Ensures.{Ensures, Ended, transactional-Ended}
use cs453_2025_project.Grading.Steady.{Finished, transactional-Finished}
use cs453_2025_project.Grading.Bank.{
  WorkloadBank, word_mod, negative, long_closure, alloc_closure, short_closure, short_loop,
  long_loop, sum_accounts, alloc_loop,
}
use cs453_2025_project.Grading.Bank.AccountSegment.{accounts}
use cs453_2025_project.Grading.Bank.Layout.{along, counted, held, balances, IsSegment}
use cs453_2025_project.Grading.Bank.Invariant.{IsApart, IsSetting, IsBank}
use cs453_2025_project.Grading.Bank.Control.{long_closure-Ensures}
use cs453_2025_project.Grading.Bank.Transfer.{Kept, short_closure-Ensures}
use cs453_2025_project.Grading.Bank.Chosen.{Moves, account_at, paid}
use cs453_2025_project.Grading.Bank.Allocate.{Altered, alloc_closure-Ensures}
use cs453_2025_project.Grading.Bank.Init.{IsCreated}
use cs453_2025_project.Grading.Workload.{
  short_tx, Engine, init, run, run_transactions, short_until_done,
}
use cs453_2025_project.Grading.Workload.Short.{short_tx-Moves, short_tx-MovesSome}
use cs453_2025_project.Grading.Workload.Start.{Started, init-Started}
use cs453_2025_project.Grading.Workload.Run.{Sound, run-Sound}
use cs453_2025_project.Tests.Libraries.{
  Shared, single, single-IsSerial, single-Idle, single-IsSteady,
}

abbrev bank : WorkloadBank
bank = record { start = 8; nbaccounts = 2; init_balance = 5; fuel = 10 }

setting : IsSetting bank
setting = record {
  some_place = omega arith;
  few_places = omega arith;
  no_debt = omega arith;
  somewhere = λ e. absurd (omega arith);
}

-- A new shared memory.
abbrev created : Memory
created = record { word = λ q. 0; segment = λ q. if q == 8 then some 40 else none }

created-IsCreated : IsCreated bank created
created-IsCreated = record {
  first_segment = refl;
  segments_apart = λ p q a b sp sq ne. absurd (ground (arith, ne));
  zeroes = λ q low high. refl;
}

-- Balances of 4, 5 and 6, and no correction.
abbrev words : ℕ → ℕ
words q =
    if q == 8
    then 2
    else if q == 16
    then 48
    else if q == 32
    then 4
    else if q == 40
    then 5
    else if q == 48
    then 1
    else if q == 72
    then 6
    else 0

words-lt : (q : ℕ) → words q < negative
words-lt q = ground arith

abbrev stands_at : ℕ → Option ℕ
stands_at q = if q == 8 then some 40 else if q == 48 then some 40 else none

abbrev opened : Memory
opened = record { word = words; segment = stands_at }

opened-IsApart : IsApart opened
opened-IsApart p q a b sp sq ne = ground (arith, ne)

opened-IsSegment :
    (p : ℕ) → 1 ≤ words p → words p ≤ 2 → stands_at p ≡ some 40 → IsSegment 2 opened p
opened-IsSegment p some_one few stands = record {
  some_account = some_one;
  few_accounts = few;
  stands = stands;
  not_negative = λ i lt. words-lt (accounts p i);
}

opened-IsBank : IsBank bank opened (48 ∷ [])
unfolding balances
opened-IsBank = record {
  chain = (
    refl,
    (λ e. absurd (omega arith)),
    opened-IsSegment 8 (omega arith) (omega arith) refl,
    ((λ e. absurd (omega arith)), tt),
    (refl, opened-IsSegment 48 (omega arith) (omega arith) refl),
  );
  apart = opened-IsApart;
  balanced = refl;
}

opened-little : along (held opened) 8 (48 ∷ []) ≡ 15
unfolding balances
opened-little = refl

abbrev world : ℕ → Shared
world n = record { committed = opened; seen = created; break = 88; spoil = n }

abbrev new_world : Shared
new_world = record { committed = created; seen = created; break = 48; spoil = 0 }

opened-bounded : (q k : ℕ) → opened.segment q ≡ some k → q + k ≤ 88
opened-bounded q k e = ground arith

created-bounded : (q k : ℕ) → created.segment q ≡ some k → q + k ≤ 48
created-bounded q k e = ground arith

-- The engine counts; every third transaction is long, and accounts are drawn in turn.
abbrev engine : Engine
engine = record {
  State = ℕ;
  long_dist = λ e. (e % 3 == 0, suc e);
  alloc_dist = λ e. (e % 2 == 0, suc e);
  alloc_trigger = λ e. (e % 5, suc e);
  account = λ count e. (e % (if count == 0 then 1 else count), suc e);
}

long_closure-Ensures_example :
    Ensures
      (λ ok nbaccounts m'.
        (ok ≡ true) × (nbaccounts ≡ along (counted opened) 8 (48 ∷ []) % word_mod) × (m' ≡ opened))
      (λ m'. ⊥)
      (long_closure bank 2)
      2
      opened
long_closure-Ensures_example =
    long_closure-Ensures bank setting opened (48 ∷ []) opened-IsBank (omega arith) (λ m'. ⊥) 2 2

short_closure-Ensures_example :
    Ensures
      (λ ok s m'. Kept bank opened (48 ∷ []) opened-IsBank m')
      (λ m'. ⊥)
      (short_closure bank (0, 2))
      (0, 2)
      opened
short_closure-Ensures_example =
    short_closure-Ensures bank opened (48 ∷ []) opened-IsBank (omega (arith, opened-little))
      (λ m'. ⊥) (omega arith) (0, 2) (0, 2)

alloc_closure-Ensures_example :
    Ensures
      (λ a s m'. (qs' : List Ptr) × Altered bank true opened m' (48 ∷ []) qs')
      (λ m'. m' ≡ opened)
      (alloc_closure bank 2 tt)
      tt
      opened
alloc_closure-Ensures_example =
    alloc_closure-Ensures bank setting opened (48 ∷ []) opened-IsBank (omega arith) 2

-- The second of three attempts commits.
transactional-Ended_example :
    Ended
      (single true)
      (single-IsSerial true)
      (λ ok s m'. Kept bank opened (48 ∷ []) opened-IsBank m')
      (λ m'. ⊥)
      opened
      (short_tx (single true) bank 3 (0, 2) (world 1))
transactional-Ended_example =
    transactional-Ended (single true) (single-IsSerial true)
      (λ ok s m'. Kept bank opened (48 ∷ []) opened-IsBank m') (λ m'. ⊥) false (short_closure bank)
      opened
      (λ s.
        short_closure-Ensures bank opened (48 ∷ []) opened-IsBank (omega (arith, opened-little))
          (λ m'. ⊥) (omega arith) s s)
      3 (0, 2) (world 1) (single-Idle true (world 1) opened-bounded (omega arith))

transactional-Finished_example :
    Finished
      (single false)
      single-IsSteady
      (single-IsSerial false)
      (λ a s m'. (qs' : List Ptr) × Altered bank true opened m' (48 ∷ []) qs')
      (λ m'. m' ≡ opened)
      (transactional (single false) false (alloc_closure bank 2) 1 tt (world 0))
transactional-Finished_example =
    transactional-Finished (single false) single-IsSteady (single-IsSerial false)
      (λ a s m'. (qs' : List Ptr) × Altered bank true opened m' (48 ∷ []) qs') (λ m'. m' ≡ opened)
      false (alloc_closure bank 2) opened 0 tt (world 0)
      (alloc_closure-Ensures bank setting opened (48 ∷ []) opened-IsBank (omega arith) 2)
      (single-Idle false (world 0) opened-bounded (omega arith))

init-Started_example :
    Started
      (single false)
      (single-IsSerial false)
      single-IsSteady
      bank
      setting
      0
      (init (single false) bank 1 new_world)
init-Started_example =
    init-Started (single false) (single-IsSerial false) single-IsSteady bank setting 0 created
      created-IsCreated new_world (single-Idle false new_world created-bounded (omega arith))

run-Sound_example :
    Sound (single true) (single-IsSerial true) bank (run (single true) bank 4 engine 6 0 (world 2))
run-Sound_example =
    run-Sound (single true) (single-IsSerial true) bank setting 4 engine 6 0 (world 2) opened
      (48 ∷ []) opened-IsBank (single-Idle true (world 2) opened-bounded (omega arith))
      (omega (arith, opened-little), omega arith)

-- The unit goes from the account at 32 to that at 72.
short_tx-Moves_example :
    Finished
      (single false)
      single-IsSteady
      (single-IsSerial false)
      (λ ok s v. (ok ≡ true) × (v ≡ paid opened 32 72))
      (λ v. ⊥)
      (short_tx (single false) bank 1 (0, 2) (world 0))
short_tx-Moves_example =
    short_tx-Moves (single false) (single-IsSerial false) bank 0 opened (48 ∷ [])
      opened-IsBank.chain (omega arith) 0 2 (world 0)
      (single-Idle false (world 0) opened-bounded (omega arith)) single-IsSteady

short_tx-MovesSome_example :
    Ended
      (single true)
      (single-IsSerial true)
      (λ ok s v.
        (i : ℕ) × (j : ℕ) × Moves opened
          (account_at opened 8 (48 ∷ []) i)
          (account_at opened 8 (48 ∷ []) j)
          ok
          v)
      (λ v. ⊥)
      opened
      (short_tx (single true) bank 3 (2, 1) (world 1))
short_tx-MovesSome_example =
    short_tx-MovesSome (single true) (single-IsSerial true) bank 3 opened (48 ∷ [])
      opened-IsBank.chain (omega arith) 2 1 (world 1)
      (single-Idle true (world 1) opened-bounded (omega arith))

-- There are three accounts.
short_absent : account_at opened 8 (48 ∷ []) 3 ≡ none
short_absent = refl

-- The balances of the three accounts in the memory that is committed.
abbrev balances_of : Shared → ℕ × ℕ × ℕ
balances_of w = (w.committed.word 32, w.committed.word 40, w.committed.word 72)

short_once : balances_of (short_tx (single false) bank 3 (2, 1) (world 0)).2 ≡ (4, 6, 5)
unfolding transactional attempt end_transaction short_loop update
short_once = refl

-- The numbers are captured by reference: after an end that failed, the attempt that commits starts
-- from numbers that are less, and takes the unit from the first account instead of the third.
short_again : balances_of (short_tx (single true) bank 3 (2, 1) (world 1)).2 ≡ (3, 6, 6)
unfolding transactional attempt end_transaction short_loop update
short_again = refl

run_well : (run (single false) bank 4 engine 6 0 (world 0)).0 ≡ value none
unfolding transactional attempt end_transaction short_loop long_loop sum_accounts alloc_loop update
    run_transactions short_until_done
run_well = refl
