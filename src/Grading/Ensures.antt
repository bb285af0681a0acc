-- ===== src/Grading/Ensures.antt =====
-- What a closure does to the memory that its transaction sees, and that `transactional` does just
-- that, or nothing.
use cs453_2025_project.Prelude.{
  ℕ, zero, suc, ◌≡◌, ◌≢◌, refl, sym, subst, Bool, true, false, Option, none, some, if◌then◌else◌,
}
use cs453_2025_project.Machine.{Ptr}
use cs453_2025_project.Grading.Library.{
  Alloc, success, abort, nomem, TransactionalLibrary, Memory, store, grown, shrunk, Fresh, IsSerial,
}
use cs453_2025_project.Grading.Transaction.{
  Body, done, assign, tx_read, tx_write, tx_alloc, tx_free, out_of_fuel, Outcome, returned, retry,
  threw_alloc, terminated, ran_out, end_transaction, attempt, Result, value, begin_exception,
  alloc_exception, process_ended, out_of_rounds, next, transactional,
}

-- The closure comes to its end with an answer, the captured variables and a memory as `Post` says,
-- wherever segments are allocated; where there is no memory for one, the memory is as `Left` says.
abbrev pub Ensures :
    {S A : Type 0} → (A → S → Memory → Type 0) → (Memory → Type 0) → Body S A → S → Memory → Type 0
Ensures Post Left (done a) s m = Post a s m
Ensures Post Left (assign s' k) s m = Ensures Post Left k s' m
Ensures Post Left (tx_read p k) s m = Ensures Post Left (k (m.word p)) s m
Ensures Post Left (tx_write x p k) s m = Ensures Post Left k s (store m p x)
Ensures Post Left (tx_alloc n k) s m =
    Left m × ((p : Ptr) → Fresh m p n → Ensures Post Left (k p) s (grown m p n))
Ensures Post Left (tx_free p k) s m = (m.segment p ≢ none) × Ensures Post Left k s (shrunk m p)
Ensures Post Left out_of_fuel s m = ⊥

-- What follows from what a closure ensures.
pub Ensures-weaken :
    {S A : Type 0} (P Q : A → S → Memory → Type 0) (Left : Memory → Type 0)
    → ((a : A) (s : S) (m : Memory) → P a s m → Q a s m)
    → (b : Body S A) (s : S) (m : Memory) → Ensures P Left b s m
    → Ensures Q Left b s m
Ensures-weaken P Q Left h (done a) s m e = h a s m e
Ensures-weaken P Q Left h (assign s' k) s m e = Ensures-weaken P Q Left h k s' m e
Ensures-weaken P Q Left h (tx_read p k) s m e = Ensures-weaken P Q Left h (k (m.word p)) s m e
Ensures-weaken P Q Left h (tx_write x p k) s m e = Ensures-weaken P Q Left h k s (store m p x) e
Ensures-weaken P Q Left h (tx_alloc n k) s m (left, e) =
    (left, λ p fresh. Ensures-weaken P Q Left h (k p) s (grown m p n) (e p fresh))
Ensures-weaken P Q Left h (tx_free p k) s m (held, e) =
    (held, Ensures-weaken P Q Left h k s (shrunk m p) e)
Ensures-weaken P Q Left h out_of_fuel s m e = absurd e

pub Ensures-if :
    {S A : Type 0} (Post : A → S → Memory → Type 0) (Left : Memory → Type 0) (b : Bool)
    (x y : Body S A) (s : S) (m : Memory)
    → (b ≡ true → Ensures Post Left x s m)
    → (b ≡ false → Ensures Post Left y s m)
    → Ensures Post Left (if b then x else y) s m
Ensures-if Post Left true x y s m then_case else_case = then_case refl
Ensures-if Post Left false x y s m then_case else_case = else_case refl

module _ (lib : TransactionalLibrary) (serial : IsSerial lib) {S A : Type 0}
    (Post : A → S → Memory → Type 0) (Left : Memory → Type 0) where
  -- The memory that an attempt leaves behind.
  abbrev pub Settled : Memory → Outcome A × S × lib.World → Type 0
  Settled m (returned a, s, w) = (v : Memory) × serial.Idle w v × Post a s v
  Settled m (retry, s, w) = serial.Idle w m
  Settled m (threw_alloc, s, w) = (v : Memory) × serial.Idle w v × Left v
  Settled m (terminated, s, w) = Unit {0}
  Settled m (ran_out, s, w) = ⊥

  ends-returned :
      (tx : lib.Tx) (a : A) (s : S) (w w' : lib.World) (m v : Memory) (ok : Bool)
      → serial.Busy tx w m v
      → lib.tm_end tx w ≡ (ok, w')
      → Post a s v
      → Settled m ((if ok then returned a else retry), s, w')
  ends-returned tx a s w w' m v true busy e post = (v, serial.committed tx w w' m v busy e, post)
  ends-returned tx a s w w' m v false busy e post = serial.not_committed tx w w' m v busy e

  ends-threw :
      (tx : lib.Tx) (s : S) (w w' : lib.World) (m v : Memory) (ok : Bool)
      → serial.Busy tx w m v
      → lib.tm_end tx w ≡ (ok, w')
      → Left v
      → Settled m ((if ok then threw_alloc else terminated), s, w')
  ends-threw tx s w w' m v true busy e left = (v, serial.committed tx w w' m v busy e, left)
  ends-threw tx s w w' m v false busy e left = tt

  module _ (tx : lib.Tx) (m : Memory) where
    -- The rest of an attempt, from a memory that it sees.
    abbrev Rest : Body S A → S → Memory → Type 0
    Rest b s v =
        (w : lib.World)
        → serial.Busy tx w m v
        → Ensures Post Left b s v
        → Settled m (attempt lib tx b s w)

    after_read :
        (p : Ptr) (k : ℕ → Body S A) (s : S) (w w' : lib.World) (v : Memory)
        → ((x : ℕ) → Rest (k x) s v)
        → serial.Busy tx w m v
        → Ensures Post Left (k (v.word p)) s v
        → (res : Option ℕ) → lib.tm_read tx p 8 w ≡ (res, w')
        → Settled m (elim res [ none ↦ (retry, s, w') | some x ↦ attempt lib tx (k x) s w' ])
    after_read p k s w w' v rest busy e none r = serial.not_read tx p w w' m v busy r
    after_read p k s w w' v rest busy e (some x) r =
        let (same, busy') = serial.was_read tx p x w w' m v busy r in
        rest x w' busy' (subst (λ y. Ensures Post Left (k y) s v) (sym same) e)

    after_write :
        (x : ℕ) (p : Ptr) (k : Body S A) (s : S) (w w' : lib.World) (v : Memory)
        → Rest k s (store v p x)
        → serial.Busy tx w m v
        → Ensures Post Left k s (store v p x)
        → (ok : Bool) → lib.tm_write tx x 8 p w ≡ (ok, w')
        → Settled m (elim ok [ false ↦ (retry, s, w') | true ↦ attempt lib tx k s w' ])
    after_write x p k s w w' v rest busy e false r = serial.not_written tx p x w w' m v busy r
    after_write x p k s w w' v rest busy e true r =
        rest w' (serial.was_written tx p x w w' m v busy r) e

    after_alloc :
        (n : ℕ) (k : Ptr → Body S A) (s : S) (w w' : lib.World) (v : Memory)
        → ((p : Ptr) → Rest (k p) s (grown v p n))
        → serial.Busy tx w m v
        → Left v
        → ((p : Ptr) → Fresh v p n → Ensures Post Left (k p) s (grown v p n))
        → (res : Alloc) → lib.tm_alloc tx n w ≡ (res, w')
        → Settled m (elim res [
          | success p ↦ attempt lib tx (k p) s w'
          | nomem ↦ end_transaction lib threw_alloc terminated tx s w'
          | abort ↦ (retry, s, w')
        ])
    unfolding end_transaction
    after_alloc n k s w w' v rest busy left e (success p) r =
        let (fresh, busy') = serial.was_allocated tx n p w w' m v busy r in
        rest p w' busy' (e p fresh)
    after_alloc n k s w w' v rest busy left e nomem r =
        ends-threw tx s w' (lib.tm_end tx w').1 m v (lib.tm_end tx w').0
          (serial.no_memory tx n w w' m v busy r) refl left
    after_alloc n k s w w' v rest busy left e abort r = serial.not_allocated tx n w w' m v busy r

    after_free :
        (p : Ptr) (k : Body S A) (s : S) (w w' : lib.World) (v : Memory)
        → Rest k s (shrunk v p)
        → serial.Busy tx w m v
        → v.segment p ≢ none
        → Ensures Post Left k s (shrunk v p)
        → (ok : Bool) → lib.tm_free tx p w ≡ (ok, w')
        → Settled m (elim ok [ false ↦ (retry, s, w') | true ↦ attempt lib tx k s w' ])
    after_free p k s w w' v rest busy held e false r = serial.not_freed tx p w w' m v busy held r
    after_free p k s w w' v rest busy held e true r =
        rest w' (serial.was_freed tx p w w' m v busy held r) e

    pub attempt-Settled : (b : Body S A) (s : S) (v : Memory) → Rest b s v
    unfolding attempt end_transaction
    attempt-Settled (done a) s v w busy e =
        ends-returned tx a s w (lib.tm_end tx w).1 m v (lib.tm_end tx w).0 busy refl e
    attempt-Settled (assign s' k) s v w busy e = attempt-Settled k s' v w busy e
    attempt-Settled (tx_read p k) s v w busy e =
        after_read p k s w (lib.tm_read tx p 8 w).1 v (λ x. attempt-Settled (k x) s v) busy e
          (lib.tm_read tx p 8 w).0 refl
    attempt-Settled (tx_write x p k) s v w busy e =
        after_write x p k s w (lib.tm_write tx x 8 p w).1 v (attempt-Settled k s (store v p x)) busy
          e (lib.tm_write tx x 8 p w).0 refl
    attempt-Settled (tx_alloc n k) s v w busy (left, e) =
        after_alloc n k s w (lib.tm_alloc tx n w).1 v (λ p. attempt-Settled (k p) s (grown v p n))
          busy left e (lib.tm_alloc tx n w).0 refl
    attempt-Settled (tx_free p k) s v w busy (held, e) =
        after_free p k s w (lib.tm_free tx p w).1 v (attempt-Settled k s (shrunk v p)) busy held e
          (lib.tm_free tx p w).0 refl
    attempt-Settled out_of_fuel s v w busy e = absurd e

  -- The memory that `transactional` leaves behind.
  abbrev pub Ended : Memory → Result A × S × lib.World → Type 0
  Ended m (value a, s, w) = (v : Memory) × serial.Idle w v × Post a s v
  Ended m (begin_exception, s, w) = serial.Idle w m
  Ended m (alloc_exception, s, w) = (v : Memory) × serial.Idle w v × Left v
  Ended m (process_ended, s, w) = Unit {0}
  Ended m (out_of_rounds, s, w) = serial.Idle w m

  module _ (ro : Bool) (func : S → Body S A) (m : Memory) where
    after_attempt :
        (again : S → lib.World → Result A × S × lib.World)
        → ((s : S) (w : lib.World) → serial.Idle w m → Ended m (again s w))
        → (o : Outcome A × S × lib.World) → Settled m o
        → Ended m (next lib ro func again o)
    after_attempt again rest (returned a, s, w) d = d
    after_attempt again rest (retry, s, w) d = rest s w d
    after_attempt again rest (threw_alloc, s, w) d = d
    after_attempt again rest (terminated, s, w) d = tt
    after_attempt again rest (ran_out, s, w) d = absurd d

    after_begin :
        (again : S → lib.World → Result A × S × lib.World)
        → ((s : S) (w : lib.World) → serial.Idle w m → Ended m (again s w))
        → (s : S) → Ensures Post Left (func s) s m
        → (w w' : lib.World) → serial.Idle w m
        → (res : Option lib.Tx) → lib.tm_begin ro w ≡ (res, w')
        → Ended m (elim res [
          | none ↦ (begin_exception, s, w')
          | some tx ↦ next lib ro func again (attempt lib tx (func s) s w')
        ])
    after_begin again rest s e w w' idle none r = serial.refused ro w w' m idle r
    after_begin again rest s e w w' idle (some tx) r =
        after_attempt again rest (attempt lib tx (func s) s w')
          (attempt-Settled tx m (func s) s m w' (serial.begun ro w w' m tx idle r) e)

    -- On a library that does what include/tm.h promises one thread, `transactional` leaves a memory on
    -- which its closure has run as one step, however many attempts are aborted and whatever variables
    -- they leave; or, where it throws or has no round left, the memory as it was, or as the closure
    -- left it where there was no memory for a segment. Nothing is said of the memory where the end of
    -- a transaction fails while an exception is thrown, which ends the process.
    pub transactional-Ended :
        ((s : S) → Ensures Post Left (func s) s m)
        → (rounds : ℕ) (s : S) (w : lib.World) → serial.Idle w m
        → Ended m (transactional lib ro func rounds s w)
    unfolding transactional
    transactional-Ended e zero s w idle = idle
    transactional-Ended e (suc rounds) s w idle =
        after_begin (transactional lib ro func rounds) (transactional-Ended e rounds) s (e s) w
          (lib.tm_begin ro w).1 idle (lib.tm_begin ro w).0 refl
