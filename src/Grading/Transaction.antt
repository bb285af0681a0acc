-- ===== src/Grading/Transaction.antt =====
-- grading/transactional.hpp: a transaction, the typed views of shared memory, and the loop that
-- repeats a transaction until it commits. `assert_mode` is false, so its tests are not there.
use cs453_2025_project.Prelude.{
  ℕ, zero, suc, ◌+◌, ◌*◌, ◌==◌, Bool, true, false, none, some, if◌then◌else◌,
}
use cs453_2025_project.Machine.{Ptr}
use cs453_2025_project.Grading.Library.{success, abort, nomem, TransactionalLibrary}

-- What the closure that is given to `transactional` does: it reads and writes words, and assigns
-- to the variables that it captured by reference, `S`. Loops of the closure run on fuel.
pub data Body (S A : Type 0) : Type 0 where
  done : A → Body S A
  assign : S → Body S A → Body S A
  tx_read : Ptr → (ℕ → Body S A) → Body S A
  tx_write : ℕ → Ptr → Body S A → Body S A
  tx_alloc : ℕ → (Ptr → Body S A) → Body S A
  tx_free : Ptr → Body S A → Body S A
  out_of_fuel : Body S A

infixl 5 ◌>>=◌ ◌>>◌
abbrev pub ◌>>=◌ : {S A B : Type 0} → Body S A → (A → Body S B) → Body S B
done a >>= f = f a
assign s k >>= f = assign s (k >>= f)
tx_read p k >>= f = tx_read p (λ x. k x >>= f)
tx_write x p k >>= f = tx_write x p (k >>= f)
tx_alloc n k >>= f = tx_alloc n (λ p. k p >>= f)
tx_free p k >>= f = tx_free p (k >>= f)
out_of_fuel >>= f = out_of_fuel

abbrev pub ◌>>◌ : {S A B : Type 0} → Body S A → Body S B → Body S B
m >> n = m >>= λ _. n

-- `Shared<Type>` over a word, and `Shared<Type*>`; the address is all that they hold.
module _ {S : Type 0} where
  abbrev pub read : Ptr → Body S ℕ
  read address = tx_read address (λ res. done res)

  abbrev pub write : Ptr → ℕ → Body S (Unit {0})
  write address source = tx_write source address (done tt)

  abbrev pub assign_captured : S → Body S (Unit {0})
  assign_captured s = assign s (done tt)

  -- `sizeof(Type)` where no size is given.
  abbrev pub alloc : Ptr → ℕ → ℕ → Body S Ptr
  alloc address size size_of =
      tx_alloc (if size == 0 then size_of else size) (λ addr. tx_write addr address (done addr))

  abbrev pub free : Ptr → Body S (Unit {0})
  free address = tx_read address (λ old. tx_free old (tx_write 0 address (done tt)))

-- The first byte after an entry, and a cell of an array.
abbrev pub after : Ptr → Ptr
after address = address + 8

abbrev pub at : Ptr → ℕ → Ptr
at address index = address + 8 * index

-- How an attempt ends: with the closure's answer, with `TransactionRetry`, with `TransactionAlloc`,
-- or with that exception met by a second one, in which C++ ends the process.
pub data Outcome (A : Type 0) : Type 0 where
  returned : A → Outcome A
  retry : Outcome A
  threw_alloc : Outcome A
  terminated : Outcome A
  ran_out : Outcome A

module _ (lib : TransactionalLibrary) {S A : Type 0} where
  -- The destructor of `Transaction`, for one that is not aborted.
  unfoldable pub end_transaction :
      Outcome A → Outcome A → lib.Tx → S → lib.World → Outcome A × S × lib.World
  end_transaction fine failed tx s w =
      let (ok, w') = lib.tm_end tx w in ((if ok then fine else failed), s, w')

  -- A closure, from the constructor of `Transaction` to its destructor. A call that fails marks the
  -- transaction aborted and throws.
  unfoldable pub attempt : lib.Tx → Body S A → S → lib.World → Outcome A × S × lib.World
  unfolding end_transaction
  attempt tx (done a) s w = end_transaction (returned a) retry tx s w
  attempt tx (assign s' k) s w = attempt tx k s' w
  attempt tx (tx_read p k) s w =
      let (res, w') = lib.tm_read tx p 8 w in
      elim res [ none ↦ (retry, s, w') | some x ↦ attempt tx (k x) s w' ]
  attempt tx (tx_write x p k) s w =
      let (ok, w') = lib.tm_write tx x 8 p w in
      elim ok [ false ↦ (retry, s, w') | true ↦ attempt tx k s w' ]
  attempt tx (tx_alloc n k) s w =
      let (res, w') = lib.tm_alloc tx n w in
      elim res [
        | success p ↦ attempt tx (k p) s w'
        | nomem ↦ end_transaction threw_alloc terminated tx s w'
        | abort ↦ (retry, s, w')
      ]
  attempt tx (tx_free p k) s w =
      let (ok, w') = lib.tm_free tx p w in
      elim ok [ false ↦ (retry, s, w') | true ↦ attempt tx k s w' ]
  attempt tx out_of_fuel s w = (ran_out, s, w)

-- How `transactional` ends: with an answer, with an exception of the constructor or of `alloc`, with
-- the end of the process, or not within its rounds.
pub data Result (A : Type 0) : Type 0 where
  value : A → Result A
  begin_exception : Result A
  alloc_exception : Result A
  process_ended : Result A
  out_of_rounds : Result A

module _ (lib : TransactionalLibrary) {S A : Type 0} (ro : Bool) (func : S → Body S A) where
  -- After one attempt; the variables are as it left them.
  abbrev pub next :
      (S → lib.World → Result A × S × lib.World)
      → Outcome A × S × lib.World
      → Result A × S × lib.World
  next again (returned a, s, w) = (value a, s, w)
  next again (retry, s, w) = again s w
  next again (threw_alloc, s, w) = (alloc_exception, s, w)
  next again (terminated, s, w) = (process_ended, s, w)
  next again (ran_out, s, w) = (out_of_rounds, s, w)

  unfoldable pub transactional : ℕ → S → lib.World → Result A × S × lib.World
  unfolding attempt
  transactional zero s w = (out_of_rounds, s, w)
  transactional (suc rounds) s w =
      let (res, w') = lib.tm_begin ro w in
      elim res [
        | none ↦ (begin_exception, s, w')
        | some tx ↦ next (transactional rounds) (attempt lib tx (func s) s w')
      ]
