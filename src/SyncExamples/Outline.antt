-- ===== src/SyncExamples/Outline.antt =====
-- Proof outlines for threads: an invariant of the shared variables, the lock and what each thread
-- knows, and for each thread its program with an assertion at every label. A step of a thread may
-- change what that thread knows, and has to keep the invariant.
use cs453_2025_project.Prelude.{
  ℕ, ◌≡◌, ◌≢◌, refl, Bool, true, false, Option, none, some, if◌then◌else◌, update, update_self,
  update_other, update_lem, fun_ext, update_same, sym, ◌∙◌, subst, ℕ_discrete,
}
use mathlib.Core.Option.{some-injective}
use cs453_2025_project.SyncExamples.Threads.{
  Shared, Pthread, Call, mutex_lock, mutex_unlock, cond_wait, cond_return, cond_broadcast, Prog,
  ret, goto, act, sync, Thread, System, Move, run, spurious_wake, step, turn, Reach, start, later,
}
use cs453_2025_project.SyncExamples.Lock.{IsPosix}

-- A statement on every thread, after one of them has changed.
pub each-update :
    {G : Type 0} (P Q : ℕ → G → Type 0) (f : ℕ → G) (i : ℕ) (g : G)
    → ((j : ℕ) → P j (f j))
    → Q i g
    → ((j : ℕ) → j ≢ i → P j (f j) → Q j (f j))
    → (j : ℕ) → Q j (update f i g j)
each-update P Q f i g all new others j = elim (ℕ_discrete j i) [
  | yes same ↦ rw (same, update_self f i g) new
  | no other ↦ rw (update_other f i j g other) (others j other (all j))
]

module _ (m : Shared) {L G : Type 0} (Inv : m.State → Option ℕ → (ℕ → Bool) → (ℕ → G) → Type 0)
    (At : ℕ → L → G → Type 0) (Ends : ℕ → G → Type 0) where
  -- After a step of thread `i`: the invariant, and the rest of its outline, for what it knows then.
  abbrev pub Continues : (ℕ → G → Type 0) → ℕ → m.State → Option ℕ → (ℕ → Bool) → (ℕ → G) → Type 0
  Continues Next i w h z f = (g' : G) × Inv w h z (update f i g') × Next i g'

  abbrev pub Outline : {A : Type 0} → Prog m L A → ℕ → G → Type 0
  Outline (ret a) i g = Ends i g
  Outline (goto l) i g = At i l g
  Outline (act a k) i g =
      (w : m.State) (h : Option ℕ) (z : ℕ → Bool) (f : ℕ → G)
      → f i ≡ g
      → Inv w h z f
      → Continues (Outline (k (m.perform a w).0)) i (m.perform a w).1 h z f
  Outline (sync mutex_lock k) i g =
      (w : m.State) (h : Option ℕ) (z : ℕ → Bool) (f : ℕ → G)
      → f i ≡ g
      → Inv w h z f
      → (h ≢ some i) × (h ≡ none → (code : ℕ) → Continues (Outline (k code)) i w (some i) z f)
  Outline (sync mutex_unlock k) i g =
      (w : m.State) (h : Option ℕ) (z : ℕ → Bool) (f : ℕ → G)
      → f i ≡ g
      → Inv w h z f
      → (h ≡ some i) × ((code : ℕ) → Continues (Outline (k code)) i w none z f)
  Outline (sync cond_wait k) i g =
      (w : m.State) (h : Option ℕ) (z : ℕ → Bool) (f : ℕ → G)
      → f i ≡ g
      → Inv w h z f
      → (h ≡ some i) × ((code : ℕ) → Continues (Outline (k code)) i w none (update z i true) f)
  Outline (sync cond_return k) i g =
      (w : m.State) (h : Option ℕ) (z : ℕ → Bool) (f : ℕ → G)
      → f i ≡ g
      → Inv w h z f
      → (h ≢ some i)
        × (h ≡ none → z i ≡ false → (code : ℕ) → Continues (Outline (k code)) i w (some i) z f)
  Outline (sync cond_broadcast k) i g =
      (w : m.State) (h : Option ℕ) (z : ℕ → Bool) (f : ℕ → G)
      → f i ≡ g
      → Inv w h z f
      → (code : ℕ) → Continues (Outline (k code)) i w h (λ _. false) f

  -- The outline of a test, from those of its branches.
  pub Outline-if :
      {A : Type 0} (b : Bool) (yes_part no_part : Prog m L A) (i : ℕ) (g : G)
      → (b ≡ true → Outline yes_part i g)
      → (b ≡ false → Outline no_part i g)
      → Outline (if b then yes_part else no_part) i g
  Outline-if true yes_part no_part i g y n = y refl
  Outline-if false yes_part no_part i g y n = n refl

  module _ (p : Pthread) where
    -- What is known of a state: the invariant, and the outline of what each thread has left to run.
    pub record Sound (s : System m p L) : Type 0 where
      pub knows : ℕ → G
      pub holds : Inv s.state (p.holder s.lock) (p.asleep s.lock) knows
      pub outline : (i : ℕ) → Outline (s.thread i) i (knows i)

    pub ended-Ends :
        (s : System m p L) (d : Sound s) (i : ℕ) → s.thread i ≡ ret tt → Ends i (d.knows i)
    ended-Ends s d i e = subst (λ n. Outline n i (d.knows i)) e (d.outline i)

    module _ (posix : IsPosix p) (code : L → Thread m L)
        (labels : (i : ℕ) (l : L) (g : G) → At i l g → Outline (code l) i g)
        (wakes : (w : m.State) (h : Option ℕ) (z : ℕ → Bool) (f : ℕ → G) (i : ℕ)
          → Inv w h z f
          → Inv w h (update z i false) f) where
      -- The lock is seen as `h` and `z` after the step.
      continued :
          (s : System m p L) (d : Sound s) (i : ℕ) (n : Thread m L) (w : m.State) (l : p.Lock)
          (h : Option ℕ) (z : ℕ → Bool)
          → p.holder l ≡ h
          → ((j : ℕ) → p.asleep l j ≡ z j)
          → Continues (Outline n) i w h z d.knows
          → Sound (record { state = w; lock = l; thread = update s.thread i n })
      continued s d i n w l h z eh ez (g', inv, next) = record {
        knows = update d.knows i g';
        holds = rw (eh, fun_ext ez) inv;
        outline = λ j. elim (ℕ_discrete j i) [
          | yes same ↦ rw (same, update_self d.knows i g', update_self s.thread i n) next
          | no other ↦
              rw (update_other d.knows i j g' other, update_other s.thread i j n other)
                (d.outline j)
        ];
      }

      called :
          (s : System m p L) (d : Sound s) (i x : ℕ) (c : Call) (k : ℕ → Thread m L) (l : p.Lock)
          → Outline (sync c k) i (d.knows i)
          → p.call c i s.lock ≡ some (x, l)
          → Sound (record s { lock = l; thread = update s.thread i (k x) })
      called s d i x mutex_lock k l o got =
          let (free, mine, same) = posix.locked i x s.lock l got in
          continued s d i (k x) s.state l (some i) (p.asleep s.lock) mine same
            ((o s.state _ _ d.knows refl d.holds).1 free x)
      called s d i x mutex_unlock k l o got =
          let (mine, next) = o s.state _ _ d.knows refl d.holds in
          let (free, same) = posix.unlocked i x s.lock l mine got in
          continued s d i (k x) s.state l none (p.asleep s.lock) free same (next x)
      called s d i x cond_wait k l o got =
          let (mine, next) = o s.state _ _ d.knows refl d.holds in
          let (free, asleep) = posix.slept i x s.lock l mine got in
          continued s d i (k x) s.state l none (update (p.asleep s.lock) i true) free
            (λ j. asleep j ∙ sym (update_lem (p.asleep s.lock) i j true)) (next x)
      called s d i x cond_return k l o got =
          let (awake, free, mine, same) = posix.returned i x s.lock l got in
          continued s d i (k x) s.state l (some i) (p.asleep s.lock) mine same
            ((o s.state _ _ d.knows refl d.holds).1 free awake x)
      called s d i x cond_broadcast k l o got =
          let (kept, awake) = posix.woken i x s.lock l got in
          continued s d i (k x) s.state l (p.holder s.lock) (λ _. false) kept awake
            (o s.state _ _ d.knows refl d.holds x)

      answered :
          (s : System m p L) (d : Sound s) (i : ℕ) (c : Call) (k : ℕ → Thread m L)
          (u : System m p L) (r : Option (ℕ × p.Lock))
          → Outline (sync c k) i (d.knows i)
          → p.call c i s.lock ≡ r
          → elim r [
            | none ↦ none
            | some (x, l) ↦ some (record s { lock = l; thread = update s.thread i (k x) })
          ]
            ≡ some u
          → Sound u
      answered s d i c k u none o got e = absurd (cc)
      answered s d i c k u (some (x, l)) o got e =
          subst Sound (some-injective _ _ e) (called s d i x c k l o got)

      turn-Sound :
          (s : System m p L) (d : Sound s) (i : ℕ) (n : Thread m L) (u : System m p L)
          → Outline n i (d.knows i)
          → turn code i s n ≡ some u
          → Sound u
      turn-Sound s d i (ret a) u o e = absurd (cc)
      turn-Sound s d i (goto l) u o e = subst Sound (some-injective _ _ e) (
          continued s d i (code l) s.state s.lock _ _ refl (λ j. refl)
            (d.knows i, rw (update_same d.knows i) d.holds, labels i l (d.knows i) o))
      turn-Sound s d i (act a k) u o e = subst Sound (some-injective _ _ e) (
          continued s d i (k (m.perform a s.state).0) (m.perform a s.state).1 s.lock _ _ refl
            (λ j. refl) (o s.state _ _ d.knows refl d.holds))
      turn-Sound s d i (sync c k) u o e = answered s d i c k u (p.call c i s.lock) o refl e

      step-Sound :
          (move : Move) (s u : System m p L) → Sound s → step code move s ≡ some u → Sound u
      step-Sound (run i) s u d e = turn-Sound s d i (s.thread i) u (d.outline i) e
      step-Sound (spurious_wake i) s u d e =
          let (kept, asleep) = posix.roused i s.lock in
          subst Sound (some-injective _ _ e) (record {
            knows = d.knows;
            holds =
                rw (kept, fun_ext (λ j. asleep j ∙ sym (update_lem (p.asleep s.lock) i j false)))
                  (wakes s.state (p.holder s.lock) (p.asleep s.lock) d.knows i d.holds);
            outline = d.outline;
          })

      -- Every state that a schedule reaches is sound.
      pub Reach-Sound : {s u : System m p L} → Sound s → Reach code s u → Sound u
      Reach-Sound d start = d
      Reach-Sound d (later {t} {u} reach move e) = step-Sound move t u (Reach-Sound d reach) e
