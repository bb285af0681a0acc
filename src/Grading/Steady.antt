-- ===== src/Grading/Steady.antt =====
-- `transactional` of grading/transactional.hpp on a library whose calls do not abort.
use cs453_2025_project.Prelude.{
  ℕ, suc, ◌≡◌, ◌≢◌, refl, sym, ap, subst, Bool, true, false, Option, none, some,
}
use cs453_2025_project.Grading.Library.{
  Alloc, success, abort, nomem, TransactionalLibrary, Memory, IsSerial, IsSteady,
}
use cs453_2025_project.Grading.Transaction.{
  Body, done, assign, tx_read, tx_write, tx_alloc, tx_free, out_of_fuel, Outcome, returned, retry,
  threw_alloc, terminated, ran_out, end_transaction, attempt, Result, value, begin_exception,
  alloc_exception, process_ended, out_of_rounds, next, transactional,
}
use cs453_2025_project.Grading.Ensures.{Ensures, Settled, attempt-Settled}

module _ (lib : TransactionalLibrary) (steady : IsSteady lib) {S A : Type 0} where
  abbrev Unaborted : Outcome A × S × lib.World → Type 0
  Unaborted (returned a, s, w) = Unit {0}
  Unaborted (retry, s, w) = ⊥
  Unaborted (threw_alloc, s, w) = Unit {0}
  Unaborted (terminated, s, w) = ⊥
  Unaborted (ran_out, s, w) = Unit {0}

  end_transaction-Unaborted :
      (fine failed : Outcome A) (tx : lib.Tx) (s : S) (w : lib.World)
      → ((w' : lib.World) → Unaborted (fine, s, w'))
      → Unaborted (end_transaction lib fine failed tx s w)
  unfolding end_transaction
  end_transaction-Unaborted fine failed tx s w went =
      rw (steady.ends tx w) (went (lib.tm_end tx w).1)

  after_alloc :
      (tx : lib.Tx) (k : ℕ → Body S A) (s : S) (w : lib.World)
      → ((p : ℕ) → Unaborted (attempt lib tx (k p) s w))
      → (res : Alloc) → res ≢ abort
      → Unaborted (elim res [
        | success p ↦ attempt lib tx (k p) s w
        | nomem ↦ end_transaction lib threw_alloc terminated tx s w
        | abort ↦ (retry, s, w)
      ])
  after_alloc tx k s w rest (success p) went = rest p
  after_alloc tx k s w rest nomem went =
      end_transaction-Unaborted threw_alloc terminated tx s w (λ w'. tt)
  after_alloc tx k s w rest abort went = absurd (went refl)

  went_on :
      {ok : Bool} (o : Outcome A × S × lib.World) (s : S) (w : lib.World)
      → ok ≡ true
      → Unaborted o
      → Unaborted (elim ok [ false ↦ (retry, s, w) | true ↦ o ])
  went_on o s w e d = rw e d

  attempt-Unaborted :
      (tx : lib.Tx) (b : Body S A) (s : S) (w : lib.World) → Unaborted (attempt lib tx b s w)
  unfolding attempt
  attempt-Unaborted tx (done a) s w = end_transaction-Unaborted (returned a) retry tx s w (λ w'. tt)
  attempt-Unaborted tx (assign s' k) s w = attempt-Unaborted tx k s' w
  attempt-Unaborted tx (tx_read p k) s w =
      let (x, e) = steady.reads tx p w in
      let w' = (lib.tm_read tx p 8 w).1 in
      subst
        (λ res. Unaborted (elim res [ none ↦ (retry, s, w') | some x ↦ attempt lib tx (k x) s w' ]))
        (sym e) (attempt-Unaborted tx (k x) s w')
  attempt-Unaborted tx (tx_write x p k) s w =
      went_on _ _ _ (steady.writes tx x p w) (attempt-Unaborted tx k s (lib.tm_write tx x 8 p w).1)
  attempt-Unaborted tx (tx_alloc n k) s w =
      let w' = (lib.tm_alloc tx n w).1 in
      after_alloc tx k s w' (λ p. attempt-Unaborted tx (k p) s w') (lib.tm_alloc tx n w).0
        (steady.allocates tx n w)
  attempt-Unaborted tx (tx_free p k) s w =
      went_on _ _ _ (steady.frees tx p w) (attempt-Unaborted tx k s (lib.tm_free tx p w).1)
  attempt-Unaborted tx out_of_fuel s w = tt

  module _ (serial : IsSerial lib) (Post : A → S → Memory → Type 0) (Left : Memory → Type 0) where
    -- There is an answer, or there was no memory for a segment.
    abbrev pub Finished : Result A × S × lib.World → Type 0
    Finished (value a, s, w) = (v : Memory) × serial.Idle w v × Post a s v
    Finished (begin_exception, s, w) = ⊥
    Finished (alloc_exception, s, w) = (v : Memory) × serial.Idle w v × Left v
    Finished (process_ended, s, w) = ⊥
    Finished (out_of_rounds, s, w) = ⊥

    module _ (ro : Bool) (func : S → Body S A) (m : Memory) where
      after_attempt :
          (again : S → lib.World → Result A × S × lib.World) (o : Outcome A × S × lib.World)
          → Unaborted o
          → Settled lib serial Post Left m o
          → Finished (next lib ro func again o)
      after_attempt again (returned a, s, w) went d = d
      after_attempt again (retry, s, w) went d = absurd went
      after_attempt again (threw_alloc, s, w) went d = d
      after_attempt again (terminated, s, w) went d = absurd went
      after_attempt again (ran_out, s, w) went d = absurd d

      -- On a library that does what include/tm.h promises one thread and whose calls do not abort,
      -- `transactional` returns in its first round, with the answer and the memory of its closure, or
      -- with the exception that there is no memory for a segment.
      pub transactional-Finished :
          (rounds : ℕ) (s : S) (w : lib.World)
          → Ensures Post Left (func s) s m
          → serial.Idle w m
          → Finished (transactional lib ro func (suc rounds) s w)
      unfolding transactional
      transactional-Finished rounds s w ensures idle =
          let (tx, e) = steady.begins ro w in
          let w' = (lib.tm_begin ro w).1 in
          let busy = serial.begun ro w w' m tx idle (pair_eq e) in
          subst
            (λ res. Finished (elim res [
              | none ↦ (begin_exception, s, w')
              | some tx ↦
                  next lib ro func (transactional lib ro func rounds) (attempt lib tx (func s) s w')
            ]))
            (sym e)
            (after_attempt (transactional lib ro func rounds) (attempt lib tx (func s) s w')
              (attempt-Unaborted tx (func s) s w')
              (attempt-Settled lib serial Post Left tx m (func s) s m w' busy ensures))
        where
          pair_eq :
              {x : Option lib.Tx}
              → (lib.tm_begin ro w).0 ≡ x
              → lib.tm_begin ro w ≡ (x, (lib.tm_begin ro w).1)
          pair_eq e = ap (λ y. (y, (lib.tm_begin ro w).1)) e
