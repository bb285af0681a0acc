-- ===== src/Machine.antt =====
-- The machine under the C code: atomic integers, words of memory, list nodes and the allocator,
-- and programs as trees of single accesses, so that one definition of a function serves the run of
-- one thread (`run`) and the interleavings of several (`Machine/Threads.antt`).
pub mod Bind
pub mod Run
pub mod Threads
use cs453_2025_project.Prelude.{
  ℕ, suc, ◌+◌, ◌*◌, ◌%◌, ◌-◌, ◌^◌, Bool, true, false, ◌&&◌, ◌||◌, Option, none, some, List, [], ◌∷◌,
  ◌==◌, leb, ltb, if◌then◌else◌, update,
}

-- An address; 0 is NULL.
abbrev pub Ptr : Type 0
Ptr = ℕ

abbrev pub null : Ptr
null = 0

abbrev pub or_null : Option Ptr → Ptr
or_null none = null
or_null (some p) = p

-- `ll_node_t`
pub record Node : Type 0 where
  pub item : Ptr
  pub next : Ptr

abbrev pub node : Ptr → Ptr → Node
node x n = record { item = x; next = n }

-- `ll_t`, less its lock, which stands among the atomic integers
pub record Header : Type 0 where
  pub head : Ptr
  pub tail : Ptr
  pub size : ℕ

abbrev pub empty_header : Header
empty_header = record { head = null; tail = null; size = 0 }

-- Shared memory. An `_Atomic int` is its 32-bit pattern. `live` are the blocks that malloc gave and
-- that are not yet freed, `calls` counts the calls of the allocator.
pub record World : Type 0 where
  pub atom : Ptr → ℕ
  pub word : Ptr → ℕ
  pub cell : Ptr → Option Node
  pub list : Ptr → Header
  pub live : List Ptr
  pub calls : ℕ

-- The C library's allocator: its answer to a request of `size` bytes at an alignment, from the
-- number of earlier calls and the live blocks; `none` is NULL, or a code other than 0.
abbrev pub Allocator : Type 0
Allocator = ℕ → List Ptr → ℕ → ℕ → Option Ptr

-- One access. An aligned word is read and written as a whole.
pub data Action : Type 0 where
  atomic_load : Ptr → Action
  atomic_store : Ptr → ℕ → Action
  compare_exchange : Ptr → ℕ → ℕ → Action
  compare_exchange_weak : Ptr → ℕ → ℕ → Action
  fetch_add : Ptr → ℕ → Action
  fetch_sub : Ptr → ℕ → Action
  clear_atoms : Ptr → ℕ → Action
  read_word : Ptr → Action
  write_word : Ptr → ℕ → Action
  clear_words : Ptr → ℕ → Action
  read_node : Ptr → Action
  write_node : Ptr → Node → Action
  read_list : Ptr → Action
  write_list : Ptr → Header → Action
  malloc : ℕ → Action
  memalign : ℕ → ℕ → Action
  free : Ptr → Action

abbrev pub Reply : Action → Type 0
Reply (atomic_load _) = ℕ
Reply (compare_exchange _ _ _) = Bool
Reply (compare_exchange_weak _ _ _) = Bool
Reply (fetch_add _ _) = ℕ
Reply (fetch_sub _ _) = ℕ
Reply (read_word _) = ℕ
Reply (read_node _) = Node
Reply (read_list _) = Header
Reply (malloc _) = Option Ptr
Reply (memalign _ _) = Option Ptr
Reply _ = Unit {0}

abbrev pub int_mod : ℕ
int_mod = 2 ^ 32

-- `base` to `base + size`
abbrev pub within : Ptr → ℕ → Ptr → Bool
within base size a = leb base a && ltb a (base + size)

-- Whether an address is in a list.
abbrev pub holds : Ptr → List Ptr → Bool
holds p [] = false
holds p (q ∷ l) = (p == q) || holds p l

-- Taking an address out of a list; `none` if it is not there.
unfoldable pub remove : Ptr → List Ptr → Option (List Ptr)
remove p [] = none
remove p (q ∷ l) =
    let rest = remove p l in
    if p == q then some l else elim rest [ none ↦ none | some r ↦ some (q ∷ r) ]

-- `malloc` and `posix_memalign`
unfoldable pub allocate : Allocator → ℕ → ℕ → World → Option Ptr × World
allocate al align size w = elim (al w.calls w.live align size) [
  | none ↦ (none, record w { calls = w.calls + 1 })
  | some p ↦ (some p, record w { live = p ∷ w.live; calls = w.calls + 1 })
]

-- What an access does; `none` is undefined behaviour: a node that is not there, a double free.
-- `free (NULL)` does nothing. The weak exchange may fail without cause; that is a step of its own in
-- `Machine/Threads.antt`, and does not occur here.
unfoldable pub perform : Allocator → (a : Action) → World → Option (Reply a × World)
perform al (atomic_load p) w = some (w.atom p, w)
perform al (atomic_store p v) w = some (tt, record w { atom = update w.atom p v })
perform al (compare_exchange p e d) w =
    if w.atom p == e then some (true, record w { atom = update w.atom p d }) else some (false, w)
perform al (compare_exchange_weak p e d) w =
    if w.atom p == e then some (true, record w { atom = update w.atom p d }) else some (false, w)
perform al (fetch_add p n) w =
    some (w.atom p, record w { atom = update w.atom p ((w.atom p + n) % int_mod) })
perform al (fetch_sub p n) w =
    some (w.atom p, record w { atom = update w.atom p ((w.atom p + int_mod - n) % int_mod) })
perform al (clear_atoms p n) w =
    some (tt, record w { atom = λ a. if within p n a then 0 else w.atom a })
perform al (read_word p) w = some (w.word p, w)
perform al (write_word p v) w = some (tt, record w { word = update w.word p v })
perform al (clear_words p n) w =
    some (tt, record w { word = λ a. if within p n a then 0 else w.word a })
perform al (read_node p) w = elim (w.cell p) [ none ↦ none | some n ↦ some (n, w) ]
perform al (write_node p n) w = some (tt, record w { cell = update w.cell p (some n) })
perform al (read_list p) w = some (w.list p, w)
perform al (write_list p h) w = some (tt, record w { list = update w.list p h })
perform al (malloc size) w = some (allocate al 16 size w)
perform al (memalign align size) w = some (allocate al align size w)
perform al (free p) w = if p == null then some (tt, w) else elim (remove p w.live) [
  | none ↦ none
  | some l ↦ some (tt, record w { live = l; cell = update w.cell p none })
]

-- A program: a result, an access and what follows its reply, a fault (a NULL pointer is followed,
-- or an `int` overflows),
-- or a wait whose rounds have run out.
pub data Prog (A : Type 0) : Type 0 where
  ret : A → Prog A
  act : (a : Action) → (Reply a → Prog A) → Prog A
  fault : Prog A
  out_of_fuel : Prog A

-- The access alone.
abbrev pub do_action : (a : Action) → Prog (Reply a)
do_action a = act a (λ r. ret r)

infixl 5 ◌>>=◌ ◌>>◌
abbrev pub ◌>>=◌ : {A B : Type 0} → Prog A → (A → Prog B) → Prog B
ret a >>= f = f a
act a k >>= f = act a (λ r. k r >>= f)
fault >>= f = fault
out_of_fuel >>= f = out_of_fuel

abbrev pub ◌>>◌ : {A B : Type 0} → Prog A → Prog B → Prog B
m >> n = m >>= λ _. n
