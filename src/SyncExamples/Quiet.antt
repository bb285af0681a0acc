-- ===== src/SyncExamples/Quiet.antt =====
-- Programs that only take and release the lock: nobody sleeps, and they do not get stuck.
use cs453_2025_project.Prelude.{
  ℕ, ◌≡◌, ◌≢◌, inl, inr, refl, ◌∙◌, Bool, true, false, Option, none, some, Option-cases, update,
  if◌then◌else◌, subst, arith,
}
use cs453_2025_project.SyncExamples.Threads.{
  Shared, Pthread, Call, mutex_lock, mutex_unlock, cond_wait, cond_return, cond_broadcast, ret,
  goto, act, sync, Thread, System, Move, run, spurious_wake, step, turn, Reach, start, later,
}
use cs453_2025_project.SyncExamples.Lock.{IsPosix, IsPrompt}
use cs453_2025_project.SyncExamples.Outline.{Outline, Sound, each-update}
use cs453_2025_project.SyncExamples.Status.{status}

-- It never waits on the condition variable.
abbrev pub IsQuiet : {m : Shared} {L : Type 0} → Thread m L → Type 0
IsQuiet (ret a) = Unit {0}
IsQuiet (goto l) = Unit {0}
IsQuiet {m} (act a k) = (x : m.Reply a) → IsQuiet (k x)
IsQuiet (sync cond_wait k) = ⊥
IsQuiet (sync cond_return k) = ⊥
IsQuiet (sync mutex_lock k) = (x : ℕ) → IsQuiet (k x)
IsQuiet (sync mutex_unlock k) = (x : ℕ) → IsQuiet (k x)
IsQuiet (sync cond_broadcast k) = (x : ℕ) → IsQuiet (k x)

pub IsQuiet-if :
    {m : Shared} {L : Type 0} (b : Bool) (n k : Thread m L)
    → IsQuiet n
    → IsQuiet k
    → IsQuiet (if b then n else k)
IsQuiet-if true n k x y = x
IsQuiet-if false n k x y = y

pub record AllQuiet {m : Shared} {p : Pthread} {L : Type 0} (s : System m p L) : Type 0 where
  pub quiet : (i : ℕ) → IsQuiet (s.thread i)
  pub awake : (i : ℕ) → p.asleep s.lock i ≡ false

module _ (m : Shared) {L G : Type 0} (Inv : m.State → Option ℕ → (ℕ → Bool) → (ℕ → G) → Type 0)
    (At : ℕ → L → G → Type 0) (Ends : ℕ → G → Type 0) (p : Pthread) (posix : IsPosix p)
    (code : L → Thread m L) (quiet_code : (l : L) → IsQuiet (code l)) where
  abbrev After : Option (System m p L) → Type 0
  After none = Unit {0}
  After (some t) = AllQuiet t

  module _ (s : System m p L) (d : Sound m Inv At Ends p s) (all : AllQuiet s) (i : ℕ) where
    goes_on : (n : Thread m L) → IsQuiet n → (j : ℕ) → IsQuiet (update s.thread i n j)
    goes_on n q = each-update (λ j. IsQuiet) (λ j. IsQuiet) s.thread i n all.quiet q (λ j ne x. x)

    -- A call that wakes nobody and lets nobody sleep.
    called :
        (c : Call) (k : ℕ → Thread m L)
        → ((x : ℕ) → IsQuiet (k x))
        → ((code : ℕ) (l : p.Lock)
            → p.call c i s.lock ≡ some (code, l)
            → (j : ℕ) → p.asleep l j ≡ false)
        → (o : Option (ℕ × p.Lock)) → p.call c i s.lock ≡ o
        → After (elim o [
          | none ↦ none
          | some (code, lock) ↦ some (record s { lock = lock; thread = update s.thread i (k code) })
        ])
    called c k q still none e = tt
    called c k q still (some (code, lock)) e = record {
      quiet = goes_on (k code) (q code);
      awake = still code lock e;
    }

    turn-After :
        (n : Thread m L)
        → IsQuiet n
        → Outline m Inv At Ends n i (d.knows i)
        → After (turn code i s n)
    turn-After (ret a) q o = tt
    turn-After (goto l) q o = record { quiet = goes_on (code l) (quiet_code l); awake = all.awake }
    turn-After (act a k) q o = record { quiet = goes_on (k _) (q _); awake = all.awake }
    turn-After (sync cond_wait k) q o = absurd q
    turn-After (sync cond_return k) q o = absurd q
    turn-After (sync mutex_lock k) q o =
        called mutex_lock k q (λ c l e j. (posix.locked i c s.lock l e).2 j ∙ all.awake j)
          (p.call mutex_lock i s.lock) refl
    turn-After (sync mutex_unlock k) q o =
        let (mine, _) = o s.state _ _ d.knows refl d.holds in
        called mutex_unlock k q (λ c l e j. (posix.unlocked i c s.lock l mine e).1 j ∙ all.awake j)
          (p.call mutex_unlock i s.lock) refl
    turn-After (sync cond_broadcast k) q o =
        called cond_broadcast k q (λ c l e j. (posix.woken i c s.lock l e).1 j)
          (p.call cond_broadcast i s.lock) refl

  step-After :
      (s : System m p L)
      → Sound m Inv At Ends p s
      → AllQuiet s
      → (move : Move) → After (step code move s)
  step-After s d all (run i) = turn-After s d all i (s.thread i) (all.quiet i) (d.outline i)
  step-After s d all (spurious_wake i) = record {
    quiet = all.quiet;
    awake = λ j. ground (arith, (posix.roused i s.lock).1 j, all.awake j);
  }

  module _ (s : System m p L)
      (sound : (u : System m p L) → Reach code s u → Sound m Inv At Ends p u) where
    pub Reach-AllQuiet : AllQuiet s → (u : System m p L) → Reach code s u → AllQuiet u
    Reach-AllQuiet all u start = all
    Reach-AllQuiet all u (later {t} reach move e) =
        subst After e (step-After t (sound t reach) (Reach-AllQuiet all t reach) move)

    -- Some thread can take a step, as long as one of them has not ended.
    pub quiet-goes :
        IsPrompt p
        → AllQuiet s
        → (u : System m p L) → Reach code s u
        → ((k : ℕ) → u.thread k ≡ ret tt → p.holder u.lock ≢ some k)
        → (i : ℕ) → u.thread i ≢ ret tt
        → (j : ℕ) × (v : System m p L) × (step code (run j) u ≡ some v)
    quiet-goes prompt all u reach ended_free i runs_on =
        let quiet = Reach-AllQuiet all u reach in
        let look = status m Inv At Ends p prompt code u (sound u reach) in
        elim (Option-cases (p.holder u.lock)) [
          | inl free ↦ elim (look i) [
            | inl e ↦ absurd (runs_on e)
            | inr (inl (v, e)) ↦ (i, v, e)
            | inr (inr (inl (held, not_mine))) ↦ absurd (held free)
            | inr (inr (inr (asleep, not_mine))) ↦ absurd (ground (arith, asleep, quiet.awake i))
          ]
          | inr (k, mine) ↦ elim (look k) [
            | inl e ↦ absurd (ended_free k e mine)
            | inr (inl (v, e)) ↦ (k, v, e)
            | inr (inr (inl (held, not_mine))) ↦ absurd (not_mine mine)
            | inr (inr (inr (asleep, not_mine))) ↦ absurd (not_mine mine)
          ]
        ]
