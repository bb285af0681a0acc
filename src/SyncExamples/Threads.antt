-- ===== src/SyncExamples/Threads.antt =====
-- Threads over shared variables and one `lock_t`, an access or a call of pthread.h at a time. A loop
-- is a label, so a thread may wait for ever; a schedule is a list of moves.
use cs453_2025_project.Prelude.{ℕ, ◌≡◌, Bool, Option, none, some, List, [], ◌∷◌, update}

-- The shared variables of a program, and its accesses to them.
pub record Shared : Type 1 where
  pub State : Type 0
  pub Access : Type 0
  pub Reply : Access → Type 0
  pub perform : (a : Access) → State → Reply a × State

-- The calls on the lock. `pthread_cond_wait` is two: the caller gives up the mutex and sleeps, and
-- then it returns, with the mutex.
pub data Call : Type 0 where
  mutex_lock mutex_unlock cond_wait cond_return cond_broadcast : Call

-- pthread.h, for one mutex and one condition variable. A call by a thread answers its code and the
-- lock afterwards, or `none` where the caller has to wait. A sleeping thread may wake up for no reason.
pub record Pthread : Type 1 where
  pub Lock : Type 0
  pub mutex_init : ℕ
  pub cond_init : ℕ
  pub ready : Lock
  pub mutex_destroy : Lock → Lock
  pub cond_destroy : Lock → Lock
  pub call : Call → ℕ → Lock → Option (ℕ × Lock)
  pub spurious : ℕ → Lock → Lock
  pub holder : Lock → Option ℕ
  pub asleep : Lock → ℕ → Bool

pub data Prog (m : Shared) (L A : Type 0) : Type 0 where
  ret : A → Prog m L A
  goto : L → Prog m L A
  act : (a : m.Access) → (m.Reply a → Prog m L A) → Prog m L A
  sync : Call → (ℕ → Prog m L A) → Prog m L A

infixl 5 ◌>>=◌ ◌>>◌
abbrev pub ◌>>=◌ : {m : Shared} {L A B : Type 0} → Prog m L A → (A → Prog m L B) → Prog m L B
ret a >>= f = f a
goto l >>= f = goto l
act a k >>= f = act a (λ r. k r >>= f)
sync c k >>= f = sync c (λ r. k r >>= f)

abbrev pub ◌>>◌ : {m : Shared} {L A B : Type 0} → Prog m L A → Prog m L B → Prog m L B
m >> n = m >>= λ _. n

abbrev pub do_access : {m : Shared} {L : Type 0} → (a : m.Access) → Prog m L (m.Reply a)
do_access a = act a (λ r. ret r)

abbrev pub do_call : {m : Shared} {L : Type 0} → Call → Prog m L ℕ
do_call c = sync c (λ r. ret r)

-- A thread starts its function or returns to the head of a loop; `spurious` wakes a thread.
pub data Move : Type 0 where
  run : ℕ → Move
  spurious_wake : ℕ → Move

-- A thread runs a function that returns nothing.
abbrev pub Thread : Shared → Type 0 → Type 0
Thread m L = Prog m L (Unit {0})

module _ (m : Shared) (p : Pthread) (L : Type 0) where
  pub record System : Type 0 where
    pub state : m.State
    pub lock : p.Lock
    pub thread : ℕ → Thread m L

module _ {m : Shared} {p : Pthread} {L : Type 0} (code : L → Thread m L) where
  -- One step of thread `i`; `none` if it has ended or has to wait.
  abbrev pub turn : ℕ → System m p L → Thread m L → Option (System m p L)
  turn i s (ret a) = none
  turn i s (goto l) = some (record s { thread = update s.thread i (code l) })
  turn i s (act a k) = some (record {
    state = (m.perform a s.state).1;
    lock = s.lock;
    thread = update s.thread i (k (m.perform a s.state).0);
  })
  turn i s (sync c k) = elim (p.call c i s.lock) [
    | none ↦ none
    | some (code, lock) ↦ some (record s { lock = lock; thread = update s.thread i (k code) })
  ]

  abbrev pub step : Move → System m p L → Option (System m p L)
  step (run i) s = turn i s (s.thread i)
  step (spurious_wake i) s = some (record s { lock = p.spurious i s.lock })

  pub data Reach (s : System m p L) : System m p L → Type 0 where
    start : Reach s s
    later : {t u : System m p L} → Reach s t → (move : Move) → step move t ≡ some u → Reach s u

  -- A schedule, as far as it can be followed.
  unfoldable pub play : List Move → System m p L → System m p L
  play [] s = s
  play (move ∷ moves) s = elim (step move s) [ none ↦ play moves s | some t ↦ play moves t ]
