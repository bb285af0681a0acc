-- ===== src/Grading/Bank.antt =====
-- grading/workload.hpp: the bank of `WorkloadBank`. A balance (`intptr_t`) and a `size_t` are their
-- patterns of 64 bits.
pub mod AccountSegment
pub mod Layout
pub mod Long
pub mod Invariant
pub mod Control
pub mod Account
pub mod Transfer
pub mod Chosen
pub mod Changed
pub mod Segments
pub mod Alters
pub mod Allocate
pub mod Init
use cs453_2025_project.Prelude.{
  ℕ, zero, suc, ◌+◌, ◌-◌, ◌*◌, ◌%◌, ◌^◌, Bool, true, false, not, Option, none, some, ◌&&◌, ◌==◌,
  ltb, leb, if◌then◌else◌,
}
use cs453_2025_project.Machine.{Ptr, null}
use cs453_2025_project.Grading.Library.{TransactionalLibrary}
use cs453_2025_project.Grading.Transaction.{
  Body, done, out_of_fuel, read, write, alloc, free, assign_captured, ◌>>=◌, ◌>>◌, Result, value,
  begin_exception, alloc_exception, process_ended, out_of_rounds, transactional,
}
use AccountSegment.{count, next, parity, accounts, size, size_of}

-- `2 ^ 64`, and the first pattern of a negative number.
abbrev pub word_mod : ℕ
word_mod = 2 ^ 64

abbrev pub negative : ℕ
negative = 2 ^ 63

-- The members of `WorkloadBank` that its transactions use, and the start of the region. Loops along
-- the segments run on `fuel`.
pub record WorkloadBank : Type 0 where
  pub start : Ptr
  pub nbaccounts : ℕ
  pub init_balance : ℕ
  pub fuel : ℕ

module _ (bank : WorkloadBank) where
  -- The `for` of `long_tx` from account `i` on, with `n` accounts to go, and what follows it.
  unfoldable pub sum_accounts : ℕ → ℕ → Ptr → ℕ → (ℕ → Body ℕ Bool) → Body ℕ Bool
  sum_accounts zero i segment sum then_do = then_do sum
  sum_accounts (suc n) i segment sum then_do = do
    local ← read (accounts segment i)
    let rest = sum_accounts n (i + 1) segment ((sum + local) % word_mod) then_do
    if leb negative local then done false else rest

  -- The `while` of `long_tx`.
  unfoldable pub long_loop : ℕ → Ptr → (total sum : ℕ) → Body ℕ Bool
  unfolding sum_accounts
  long_loop zero start total sum = out_of_fuel
  long_loop (suc fuel) start total sum =
      let rest = (do
        segment_count ← read (count start)
        correction ← read (parity start)
        sum_accounts segment_count 0 start ((sum + correction) % word_mod) (λ sum'. do
          start' ← read (next start)
          long_loop fuel start' ((total + segment_count) % word_mod) sum')) in
      if start == null
      then (do assign_captured total; done (sum == (bank.init_balance * total) % word_mod))
      else rest

  abbrev pub long_closure : ℕ → Body ℕ Bool
  long_closure nbaccounts = long_loop bank.fuel bank.start 0 0

  -- The last account of the last segment goes, and its segment where it was the only one.
  abbrev pub remove_account : (prev start : Ptr) → ℕ → Body (Unit {0}) (Unit {0})
  remove_account prev start segment_count = do
    correction ← read (parity start)
    balance ← read (accounts start segment_count)
    let new_parity = (correction + balance + (word_mod - bank.init_balance)) % word_mod
    if ltb 0 segment_count
        then (do write (count start) segment_count; write (parity start) new_parity)
        else (do
          free (next prev)
          prev_parity ← read (parity prev)
          write (parity prev) ((prev_parity + new_parity) % word_mod))

  -- One more account, in a new segment where the last one is full.
  abbrev pub add_account : Ptr → ℕ → Body (Unit {0}) (Unit {0})
  add_account start segment_count =
      if ltb segment_count bank.nbaccounts
      then (do
        write (accounts start segment_count) bank.init_balance
        write (count start) ((segment_count + 1) % word_mod))
      else (do
        next_segment ← alloc (next start) (size bank.nbaccounts) size_of
        write (count next_segment) 1
        write (accounts next_segment 0) bank.init_balance)

  -- The `while` of `alloc_tx`.
  unfoldable pub alloc_loop : ℕ → ℕ → (prev start : Ptr) → ℕ → Body (Unit {0}) (Unit {0})
  alloc_loop trigger zero prev start total = out_of_fuel
  alloc_loop trigger (suc fuel) prev start total = do
    segment_count ← read (count start)
    let total' = (total + segment_count) % word_mod
    segment_next ← read (next start)
    let rest = alloc_loop trigger fuel start segment_next total'
    if segment_next == null
        then (if ltb trigger total' && ltb 2 total'
            then remove_account prev start ((segment_count + (word_mod - 1)) % word_mod)
            else add_account start segment_count)
        else rest

  abbrev pub alloc_closure : ℕ → Unit {0} → Body (Unit {0}) (Unit {0})
  alloc_closure trigger captured = alloc_loop trigger bank.fuel null bank.start 0

  -- One unit goes from an account to another, if there is one.
  abbrev pub transfer : (send_ptr recv_ptr : Ptr) → Body (ℕ × ℕ) Bool
  transfer send_ptr recv_ptr = do
    send_val ← read send_ptr
    if ltb 0 send_val && ltb send_val negative
        then (do
          write send_ptr (send_val - 1)
          recv_val ← read recv_ptr
          write recv_ptr ((recv_val + 1) % word_mod)
          done true)
        else done true

  -- The `while` of `short_tx`. `send_id` and `recv_id` are captured by reference.
  unfoldable pub short_loop :
      ℕ → (start send_ptr recv_ptr : Ptr) → (send_id recv_id : ℕ) → Body (ℕ × ℕ) Bool
  short_loop zero start send_ptr recv_ptr send_id recv_id = out_of_fuel
  short_loop (suc fuel) start send_ptr recv_ptr send_id recv_id = do
    segment_count ← read (count start)
    let go_on = λ (send_ptr recv_ptr send_id recv_id : ℕ). (do
      start' ← read (next start)
      let rest = short_loop fuel start' send_ptr recv_ptr send_id recv_id
      if start' == null then done false else rest)
    let find_recver = λ (send_ptr send_id : ℕ).
        if recv_ptr == null
        then (if ltb recv_id segment_count
            then (if send_ptr == null
                then go_on send_ptr (accounts start recv_id) send_id recv_id
                else transfer send_ptr (accounts start recv_id))
            else (do
              assign_captured (send_id, recv_id - segment_count)
              go_on send_ptr null send_id (recv_id - segment_count)))
        else go_on send_ptr recv_ptr send_id recv_id
    if send_ptr == null
        then (if ltb send_id segment_count
            then (if recv_ptr == null
                then find_recver (accounts start send_id) send_id
                else transfer (accounts start send_id) recv_ptr)
            else (do
              assign_captured (send_id - segment_count, recv_id)
              find_recver null (send_id - segment_count)))
        else find_recver send_ptr send_id

  abbrev pub short_closure : ℕ × ℕ → Body (ℕ × ℕ) Bool
  short_closure (send_id, recv_id) = short_loop bank.fuel bank.start null null send_id recv_id

  -- The `for` of `init` from account `i` on, with `n` accounts to go.
  unfoldable pub init_accounts : ℕ → ℕ → Body (Unit {0}) (Unit {0})
  init_accounts zero i = done tt
  init_accounts (suc n) i = do
    write (accounts bank.start i) bank.init_balance
    init_accounts n (i + 1)

  -- The two transactions of `init`.
  abbrev pub init_tx : Unit {0} → Body (Unit {0}) (Unit {0})
  init_tx captured = do write (count bank.start) bank.nbaccounts; init_accounts bank.nbaccounts 0

  abbrev pub visible_tx : Unit {0} → Body (Unit {0}) Bool
  visible_tx captured = do
    balance ← read (accounts bank.start 0)
    done (balance == bank.init_balance)
