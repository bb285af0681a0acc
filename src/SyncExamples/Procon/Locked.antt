-- ===== src/SyncExamples/Procon/Locked.antt =====
-- A producer and a consumer that take turns with a lock: what each knows is its phase, whether it holds
-- the lock, and whether it still has to wake the other. `Sleep` is the part of the invariant about
-- threads that sleep.
use cs453_2025_project.Prelude.{ℕ, ◌≡◌, inl, refl, subst, Bool, true, false, Option, update}
use cs453_2025_project.SyncExamples.Holding.{Switch, HasLock, Locks-update}
use cs453_2025_project.SyncExamples.Procon.{Setting, State}
use cs453_2025_project.SyncExamples.Procon.Flow.{Phase, active, Flow}
use cs453_2025_project.SyncExamples.Procon.Loops.{SameCounts}

pub record Local : Type 0 where
  pub held : Bool
  pub owes : Bool
  pub phase : Phase

-- Inside the lock, and outside it.
abbrev pub inside : Phase → Local
inside p = record { held = true; owes = false; phase = p }

abbrev pub outside : Phase → Local
outside p = record { held = false; owes = false; phase = p }

module _ (set : Setting) (size : ℕ) (Sleep : State → (ℕ → Bool) → Local → Local → Type 0) where
  pub record Locked (s : State) (h : Option ℕ) (z : ℕ → Bool) (f : ℕ → Local) : Type 0 where
    pub flow : Flow set size s (f 0).phase (f 1).phase
    pub locks : (i : ℕ) → HasLock (f i).held h i
    pub sleep : Sleep s z (f 0) (f 1)

  module _ (s t : State) (h h' : Option ℕ) (z z' : ℕ → Bool) (f : ℕ → Local) (g g' : Local) where
    -- The producer goes on, from what it knew to what it knows now.
    pub put_goes :
        f 0 ≡ g
        → Locked s h z f
        → Switch 0 h h'
        → HasLock g'.held h' 0
        → ((c : Phase) → Flow set size s g.phase c → Flow set size t g'.phase c)
        → ((c : Local) → HasLock g.held h 0 → HasLock c.held h 1 → Sleep s z g c → Sleep t z' g' c)
        → Locked t h' z' (update f 0 g')
    unfolding update
    put_goes k inv switch lock go rest = record {
      flow = go (f 1).phase (subst (λ x. Flow set size s x.phase (f 1).phase) k inv.flow);
      locks = Locks-update (λ x. x.held) f 0 g' h h' switch lock inv.locks;
      sleep =
          rest (f 1) (subst (λ x. HasLock x.held h 0) k (inv.locks 0)) (inv.locks 1)
            (subst (λ x. Sleep s z x (f 1)) k inv.sleep);
    }

    pub take_goes :
        f 1 ≡ g
        → Locked s h z f
        → Switch 1 h h'
        → HasLock g'.held h' 1
        → ((p : Phase) → Flow set size s p g.phase → Flow set size t p g'.phase)
        → ((p : Local) → HasLock g.held h 1 → HasLock p.held h 0 → Sleep s z p g → Sleep t z' p g')
        → Locked t h' z' (update f 1 g')
    unfolding update
    take_goes k inv switch lock go rest = record {
      flow = go (f 0).phase (subst (λ x. Flow set size s (f 0).phase x.phase) k inv.flow);
      locks = Locks-update (λ x. x.held) f 1 g' h h' switch lock inv.locks;
      sleep =
          rest (f 0) (subst (λ x. HasLock x.held h 1) k (inv.locks 1)) (inv.locks 0)
            (subst (λ x. Sleep s z (f 0) x) k inv.sleep);
    }

  -- At work, inside the lock.
  module _
      (put_works : (p q : Phase) (s t : State) (z : ℕ → Bool) (c : Local)
        → SameCounts s t
        → active p ≡ true
        → active q ≡ true
        → Sleep s z (inside p) c
        → Sleep t z (inside q) c)
      (take_works : (p q : Phase) (s t : State) (z : ℕ → Bool) (c : Local)
        → SameCounts s t
        → active p ≡ true
        → active q ≡ true
        → Sleep s z c (inside p)
        → Sleep t z c (inside q)) where
    pub puts_inside :
        (p q : Phase) (s t : State) (h : Option ℕ) (z : ℕ → Bool) (f : ℕ → Local)
        → SameCounts s t
        → active p ≡ true
        → active q ≡ true
        → ((c : Phase) → Flow set size s p c → Flow set size t q c)
        → f 0 ≡ inside p
        → Locked s h z f
        → Locked t h z (update f 0 (inside q))
    puts_inside p q s t h z f same tp tq go k inv =
        put_goes s t h h z z f (inside p) (inside q) k inv (inl refl)
          (subst (λ x. HasLock x.held h 0) k (inv.locks 0)) go
          (λ c l m. put_works p q s t z c same tp tq)

    pub takes_inside :
        (p q : Phase) (s t : State) (h : Option ℕ) (z : ℕ → Bool) (f : ℕ → Local)
        → SameCounts s t
        → active p ≡ true
        → active q ≡ true
        → ((c : Phase) → Flow set size s c p → Flow set size t c q)
        → f 1 ≡ inside p
        → Locked s h z f
        → Locked t h z (update f 1 (inside q))
    takes_inside p q s t h z f same tp tq go k inv =
        take_goes s t h h z z f (inside p) (inside q) k inv (inl refl)
          (subst (λ x. HasLock x.held h 1) k (inv.locks 1)) go
          (λ c l m. take_works p q s t z c same tp tq)
