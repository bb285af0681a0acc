-- ===== src/Grading/Library.antt =====
-- The library that grading/transactional.hpp loads, as the record of the functions it looks up, and
-- what include/tm.h promises of them to one thread.
use cs453_2025_project.Prelude.{
  ℕ, ◌+◌, ◌≡◌, ◌≢◌, ◌≤◌, ◌⊎◌, Bool, true, false, Option, none, some, ◌&&◌, leb, ltb, if◌then◌else◌,
  update,
}
use cs453_2025_project.Machine.{Ptr}

-- `STM::Alloc`
pub data Alloc : Type 0 where
  success : Ptr → Alloc
  abort nomem : Alloc

-- The functions on one shared memory region. A word that `tm_read` copies to private memory is its
-- answer, and `tm_write` is given the word; `none` is `invalid_tx`, or that the transaction has
-- aborted.
pub record TransactionalLibrary : Type 1 where
  pub World : Type 0
  pub Tx : Type 0
  pub tm_begin : Bool → World → Option Tx × World
  pub tm_end : Tx → World → Bool × World
  pub tm_read : Tx → Ptr → ℕ → World → Option ℕ × World
  pub tm_write : Tx → ℕ → ℕ → Ptr → World → Bool × World
  pub tm_alloc : Tx → ℕ → World → Alloc × World
  pub tm_free : Tx → Ptr → World → Bool × World

-- The content of a shared memory: its words of 8 bytes, and the sizes of the segments that stand at
-- an address.
pub record Memory : Type 0 where
  pub word : Ptr → ℕ
  pub segment : Ptr → Option ℕ

abbrev pub store : Memory → Ptr → ℕ → Memory
store m p v = record m { word = update m.word p v }

-- A new segment is filled with zeroes.
abbrev pub grown : Memory → Ptr → ℕ → Memory
grown m p n = record {
  word = λ q. if leb p q && ltb q (p + n) then 0 else m.word q;
  segment = update m.segment p (some n);
}

abbrev pub shrunk : Memory → Ptr → Memory
shrunk m p = record m { segment = update m.segment p none }

-- A new segment is not NULL and overlaps no other.
abbrev pub Fresh : Memory → Ptr → ℕ → Type 0
Fresh m p n = (p ≢ 0) × ((q k : ℕ) → m.segment q ≡ some k → (p + n ≤ q) ⊎ (q + k ≤ p))

-- What a transaction of one thread sees and leaves: it reads what it has written, over what was
-- committed; an end that succeeds commits all of that, and an abort nothing.
pub record IsSerial (lib : TransactionalLibrary) : Type 1 where
  pub Idle : lib.World → Memory → Type 0
  -- The memory as it was committed, and as the transaction sees it.
  pub Busy : lib.Tx → lib.World → Memory → Memory → Type 0
  pub begun :
      (ro : Bool) (w w' : lib.World) (m : Memory) (tx : lib.Tx)
      → Idle w m
      → lib.tm_begin ro w ≡ (some tx, w')
      → Busy tx w' m m
  pub refused :
      (ro : Bool) (w w' : lib.World) (m : Memory)
      → Idle w m
      → lib.tm_begin ro w ≡ (none, w')
      → Idle w' m
  pub committed :
      (tx : lib.Tx) (w w' : lib.World) (m v : Memory)
      → Busy tx w m v
      → lib.tm_end tx w ≡ (true, w')
      → Idle w' v
  pub not_committed :
      (tx : lib.Tx) (w w' : lib.World) (m v : Memory)
      → Busy tx w m v
      → lib.tm_end tx w ≡ (false, w')
      → Idle w' m
  pub was_read :
      (tx : lib.Tx) (p x : ℕ) (w w' : lib.World) (m v : Memory)
      → Busy tx w m v
      → lib.tm_read tx p 8 w ≡ (some x, w')
      → (x ≡ v.word p) × Busy tx w' m v
  pub not_read :
      (tx : lib.Tx) (p : ℕ) (w w' : lib.World) (m v : Memory)
      → Busy tx w m v
      → lib.tm_read tx p 8 w ≡ (none, w')
      → Idle w' m
  pub was_written :
      (tx : lib.Tx) (p x : ℕ) (w w' : lib.World) (m v : Memory)
      → Busy tx w m v
      → lib.tm_write tx x 8 p w ≡ (true, w')
      → Busy tx w' m (store v p x)
  pub not_written :
      (tx : lib.Tx) (p x : ℕ) (w w' : lib.World) (m v : Memory)
      → Busy tx w m v
      → lib.tm_write tx x 8 p w ≡ (false, w')
      → Idle w' m
  pub was_allocated :
      (tx : lib.Tx) (n p : ℕ) (w w' : lib.World) (m v : Memory)
      → Busy tx w m v
      → lib.tm_alloc tx n w ≡ (success p, w')
      → Fresh v p n × Busy tx w' m (grown v p n)
  pub no_memory :
      (tx : lib.Tx) (n : ℕ) (w w' : lib.World) (m v : Memory)
      → Busy tx w m v
      → lib.tm_alloc tx n w ≡ (nomem, w')
      → Busy tx w' m v
  pub not_allocated :
      (tx : lib.Tx) (n : ℕ) (w w' : lib.World) (m v : Memory)
      → Busy tx w m v
      → lib.tm_alloc tx n w ≡ (abort, w')
      → Idle w' m
  pub was_freed :
      (tx : lib.Tx) (p : ℕ) (w w' : lib.World) (m v : Memory)
      → Busy tx w m v
      → v.segment p ≢ none
      → lib.tm_free tx p w ≡ (true, w')
      → Busy tx w' m (shrunk v p)
  pub not_freed :
      (tx : lib.Tx) (p : ℕ) (w w' : lib.World) (m v : Memory)
      → Busy tx w m v
      → v.segment p ≢ none
      → lib.tm_free tx p w ≡ (false, w')
      → Idle w' m

-- A library whose calls do not abort, as long as there is memory.
pub record IsSteady (lib : TransactionalLibrary) : Type 0 where
  pub begins : (ro : Bool) (w : lib.World) → (tx : lib.Tx) × ((lib.tm_begin ro w).0 ≡ some tx)
  pub ends : (tx : lib.Tx) (w : lib.World) → (lib.tm_end tx w).0 ≡ true
  pub reads : (tx : lib.Tx) (p : ℕ) (w : lib.World) → (x : ℕ) × ((lib.tm_read tx p 8 w).0 ≡ some x)
  pub writes : (tx : lib.Tx) (x p : ℕ) (w : lib.World) → (lib.tm_write tx x 8 p w).0 ≡ true
  pub allocates : (tx : lib.Tx) (n : ℕ) (w : lib.World) → (lib.tm_alloc tx n w).0 ≢ abort
  pub frees : (tx : lib.Tx) (p : ℕ) (w : lib.World) → (lib.tm_free tx p w).0 ≡ true
