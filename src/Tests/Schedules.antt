-- ===== src/Tests/Schedules.antt =====
-- Schedules of the synchronisation examples, and pthread.h as a small concrete lock.
use cs453_2025_project.Prelude.{
  ℕ, zero, suc, ◌≡◌, ◌≤◌, refl, sym, ap, ◌∙◌, Bool, true, false, Option, none, some, List, [], ◌∷◌,
  ◌==◌, if◌then◌else◌, arith, update, update_other, ℕ_discrete,
}
use cs453_2025_project.SyncExamples.Threads.{
  Shared, Pthread, Call, mutex_lock, mutex_unlock, cond_wait, cond_return, cond_broadcast, ret,
  goto, act, sync, Move, run, spurious_wake, Thread, System, turn, step, Reach, later, play,
}
use cs453_2025_project.SyncExamples.Lock.{IsPosix, IsPrompt}

pub record PlainLock : Type 0 where
  pub holder : Option ℕ
  pub asleep : ℕ → Bool

abbrev answer : PlainLock → Option (ℕ × PlainLock)
answer l = some (0, l)

-- What takes the mutex waits while it is held.
abbrev take : Option ℕ → ℕ → (ℕ → Bool) → Option (ℕ × PlainLock)
take none i z = answer (record { holder = some i; asleep = z })
take (some j) i z = none

abbrev plain_call : Call → ℕ → PlainLock → Option (ℕ × PlainLock)
plain_call mutex_lock i l = take l.holder i l.asleep
plain_call mutex_unlock i l = answer (record { holder = none; asleep = l.asleep })
plain_call cond_wait i l =
    answer (record { holder = none; asleep = λ j. if j == i then true else l.asleep j })
plain_call cond_return i l = if l.asleep i then none else take l.holder i l.asleep
plain_call cond_broadcast i l = answer (record { holder = l.holder; asleep = λ j. false })

abbrev pub plain : Pthread
plain = record {
  Lock = PlainLock;
  mutex_init = 0;
  cond_init = 0;
  ready = record { holder = none; asleep = λ j. false };
  mutex_destroy = λ l. l;
  cond_destroy = λ l. l;
  call = plain_call;
  spurious =
      λ i l. record { holder = l.holder; asleep = λ j. if j == i then false else l.asleep j };
  holder = λ l. l.holder;
  asleep = λ l. l.asleep;
}

answered : (code : ℕ) (l l' : PlainLock) → answer l ≡ some (code, l') → l' ≡ l
answered code l l' e =
    sym (ap (λ (o : Option (ℕ × PlainLock)). elim o [ none ↦ l | some r ↦ r.1 ]) e)

-- What the lock shows after a call that answers.
shows :
    (code : ℕ) (l l' : PlainLock)
    → answer l ≡ some (code, l')
    → (l'.holder ≡ l.holder) × ((j : ℕ) → l'.asleep j ≡ l.asleep j)
shows code l l' e =
    let same = answered code l l' e in
    (ap (λ (x : PlainLock). x.holder) same, λ j. ap (λ (x : PlainLock). x.asleep j) same)

took :
    (i code : ℕ) (h : Option ℕ) (z : ℕ → Bool) (l' : PlainLock)
    → take h i z ≡ some (code, l')
    → (h ≡ none) × (l'.holder ≡ some i) × ((j : ℕ) → l'.asleep j ≡ z j)
took i code none z l' e = let (a, b) = shows code _ l' e in (refl, a, b)
took i code (some k) z l' e = absurd (cc)

woke :
    (i code : ℕ) (b : Bool) (h : Option ℕ) (z : ℕ → Bool) (l' : PlainLock)
    → (if b then none else take h i z) ≡ some (code, l')
    → (b ≡ false) × (h ≡ none) × (l'.holder ≡ some i) × ((j : ℕ) → l'.asleep j ≡ z j)
woke i code true h z l' e = absurd (cc)
woke i code false h z l' e = let (a, b, c) = took i code h z l' e in (refl, a, b, c)

pub plain-IsPosix : IsPosix plain
plain-IsPosix = record {
  ready_free = refl;
  ready_awake = λ j. refl;
  locked = λ i code l l' e. took i code l.holder l.asleep l' e;
  unlocked = λ i code l l' mine e. shows code _ l' e;
  slept = λ i code l l' mine e. shows code _ l' e;
  returned = λ i code l l' e. woke i code (l.asleep i) l.holder l.asleep l' e;
  woken = λ i code l l' e. shows code _ l' e;
  roused = λ i l. (refl, λ j. refl);
}

pub plain-IsPrompt : IsPrompt plain
plain-IsPrompt = record {
  lock_free = λ i l free. ((0, record { holder = some i; asleep = l.asleep }), rw free refl);
  return_free =
      λ i l free awake. ((0, record { holder = some i; asleep = l.asleep }), rw (awake, free) refl);
  unlock_free = λ i l mine. (_, refl);
  wait_free = λ i l mine. (_, refl);
  wake_free = λ i l. (_, refl);
}

-- A thread that has ended stays as it is when another one goes on.
stays :
    {m : Shared} {L : Type 0} (j : ℕ) (f : ℕ → Thread m L) (i : ℕ) (n x : Thread m L)
    → f j ≡ ret tt
    → f i ≡ n
    → (n ≡ ret tt → ⊥)
    → update f i x j ≡ ret tt
stays j f i n x ended now runs_on = elim (ℕ_discrete j i) [
  | yes same ↦ absurd (runs_on (cc))
  | no other ↦ update_other f i j x other ∙ ended
]

module _ {m : Shared} {p : Pthread} {L : Type 0} (code : L → Thread m L) where
  continue-Reach :
      (moves : List Move)
      → ((s t : System m p L) → Reach code s t → Reach code s (play code moves t))
      → (s t : System m p L) (move : Move) (o : Option (System m p L)) → step code move t ≡ o
      → Reach code s t
      → Reach code s (elim o [ none ↦ play code moves t | some u ↦ play code moves u ])
  continue-Reach moves rest s t move none e d = rest s t d
  continue-Reach moves rest s t move (some u) e d = rest s u (later d move e)

  pub play-Reach :
      (moves : List Move) (s t : System m p L) → Reach code s t → Reach code s (play code moves t)
  unfolding play
  play-Reach [] s t d = d
  play-Reach (move ∷ moves) s t d =
      continue-Reach moves (play-Reach moves) s t move (step code move t) refl d

  -- A thread that has ended takes no step.
  module _ (j : ℕ) where
    abbrev After : Option (System m p L) → Type 0
    After none = Unit {0}
    After (some t) = t.thread j ≡ ret tt

    called-ended :
        (i : ℕ) (s : System m p L) (c : Call) (k : ℕ → Thread m L)
        → s.thread j ≡ ret tt
        → s.thread i ≡ sync c k
        → (o : Option (ℕ × p.Lock))
        → After (elim o [
          | none ↦ none
          | some (code, lock) ↦ some (record s { lock = lock; thread = update s.thread i (k code) })
        ])
    called-ended i s c k ended now none = tt
    called-ended i s c k ended now (some (code, lock)) =
        stays j s.thread i (sync c k) _ ended now (λ e. cc)

    turn-ended :
        (i : ℕ) (s : System m p L) (n : Thread m L)
        → s.thread j ≡ ret tt
        → s.thread i ≡ n
        → After (turn code i s n)
    turn-ended i s (ret a) ended now = tt
    turn-ended i s (goto l) ended now = stays j s.thread i (goto l) _ ended now (λ e. cc)
    turn-ended i s (act a k) ended now = stays j s.thread i (act a k) _ ended now (λ e. cc)
    turn-ended i s (sync c k) ended now = called-ended i s c k ended now (p.call c i s.lock)

    step-ended : (move : Move) (s : System m p L) → s.thread j ≡ ret tt → After (step code move s)
    step-ended (run i) s ended = turn-ended i s (s.thread i) ended refl
    step-ended (spurious_wake i) s ended = ended

    continue-ended :
        (moves : List Move)
        → ((s : System m p L) → s.thread j ≡ ret tt → (play code moves s).thread j ≡ ret tt)
        → (s : System m p L) (o : Option (System m p L)) → After o
        → s.thread j ≡ ret tt
        → (λ (u : System m p L). u.thread j)
            (elim o [ none ↦ play code moves s | some u ↦ play code moves u ])
          ≡ ret tt
    continue-ended moves rest s none after ended = rest s ended
    continue-ended moves rest s (some u) after ended = rest u after

    pub play-ended :
        (moves : List Move) (s : System m p L)
        → s.thread j ≡ ret tt
        → (play code moves s).thread j ≡ ret tt
    unfolding play
    play-ended [] s ended = ended
    play-ended (move ∷ moves) s ended =
        continue-ended moves (play-ended moves) s (step code move s) (step-ended move s ended) ended

-- `n` turns of thread `i`, and then `moves`.
abbrev pub turns : ℕ → ℕ → List Move → List Move
turns zero i moves = moves
turns (suc n) i moves = run i ∷ turns n i moves

-- All threads have ended, if the first ones have.
pub all_two :
    {m : Shared} {L : Type 0} (f : ℕ → Thread m L)
    → f 0 ≡ ret tt
    → f 1 ≡ ret tt
    → ((i : ℕ) → 2 ≤ i → f i ≡ ret tt)
    → (i : ℕ) → f i ≡ ret tt
all_two f a b rest i = elim (ℕ_discrete i 0) [
  | yes e ↦ rw e a
  | no n0 ↦ elim (ℕ_discrete i 1) [ yes e ↦ rw e b | no n1 ↦ rest i (omega arith) ]
]

pub all_four :
    {m : Shared} {L : Type 0} (f : ℕ → Thread m L)
    → f 0 ≡ ret tt
    → f 1 ≡ ret tt
    → f 2 ≡ ret tt
    → f 3 ≡ ret tt
    → ((i : ℕ) → 4 ≤ i → f i ≡ ret tt)
    → (i : ℕ) → f i ≡ ret tt
all_four f a b c d rest = all_two f a b λ i low. elim (ℕ_discrete i 2) [
  | yes e ↦ rw e c
  | no n2 ↦ elim (ℕ_discrete i 3) [ yes e ↦ rw e d | no n3 ↦ rest i (omega arith) ]
]
