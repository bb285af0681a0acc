-- ===== src/SyncExamples/Status.antt =====
-- What keeps a thread from its next step: its end, the lock in another thread's hands, or sleep.
use cs453_2025_project.Prelude.{
  ℕ, ◌≡◌, ◌≢◌, ◌⊎◌, inl, inr, refl, Bool, true, Option, none, some, Bool-cases, Option-cases,
  update,
}
use cs453_2025_project.SyncExamples.Threads.{
  Shared, Pthread, Call, mutex_lock, mutex_unlock, cond_wait, cond_return, cond_broadcast, ret,
  goto, act, sync, Thread, System, turn,
}
use cs453_2025_project.SyncExamples.Lock.{IsPrompt}
use cs453_2025_project.SyncExamples.Outline.{Outline, Sound}

module _ (m : Shared) {L G : Type 0} (Inv : m.State → Option ℕ → (ℕ → Bool) → (ℕ → G) → Type 0)
    (At : ℕ → L → G → Type 0) (Ends : ℕ → G → Type 0) (p : Pthread) (prompt : IsPrompt p)
    (code : L → Thread m L) (s : System m p L) (d : Sound m Inv At Ends p s) (i : ℕ) where
  -- It has ended, or can go on, or waits for another holder of the lock, or sleeps.
  abbrev pub Status : Thread m L → Type 0
  Status n =
      (n ≡ ret tt)
      ⊎ ((u : System m p L) × (turn code i s n ≡ some u))
      ⊎ ((p.holder s.lock ≢ none) × (p.holder s.lock ≢ some i))
      ⊎ ((p.asleep s.lock i ≡ true) × (p.holder s.lock ≢ some i))

  called :
      (c : Call) (k : ℕ → Thread m L) (r : ℕ × p.Lock)
      → p.call c i s.lock ≡ some r
      → (u : System m p L) × (turn code i s (sync c k) ≡ some u)
  called c k r e = (record s { lock = r.1; thread = update s.thread i (k r.0) }, rw (e, turn) refl)

  Outline-Status : (n : Thread m L) → Outline m Inv At Ends n i (d.knows i) → Status n
  Outline-Status (ret tt) o = inl refl
  Outline-Status (goto l) o = inr (inl (_, refl))
  Outline-Status (act a k) o = inr (inl (_, refl))
  Outline-Status (sync mutex_lock k) o =
      let (not_mine, _) = o s.state _ _ d.knows refl d.holds in
      elim (Option-cases (p.holder s.lock)) [
        | inl free ↦
            let (r, e) = prompt.lock_free i s.lock free in inr (inl (called mutex_lock k r e))
        | inr (j, held) ↦ inr (inr (inl ((λ e. cc), not_mine)))
      ]
  Outline-Status (sync mutex_unlock k) o =
      let (mine, _) = o s.state _ _ d.knows refl d.holds in
      let (r, e) = prompt.unlock_free i s.lock mine in inr (inl (called mutex_unlock k r e))
  Outline-Status (sync cond_wait k) o =
      let (mine, _) = o s.state _ _ d.knows refl d.holds in
      let (r, e) = prompt.wait_free i s.lock mine in inr (inl (called cond_wait k r e))
  Outline-Status (sync cond_return k) o =
      let (not_mine, _) = o s.state _ _ d.knows refl d.holds in
      elim (Bool-cases (p.asleep s.lock i)) [
        | inl asleep ↦ inr (inr (inr (asleep, not_mine)))
        | inr awake ↦ elim (Option-cases (p.holder s.lock)) [
          | inl free ↦
              let (r, e) = prompt.return_free i s.lock free awake in
              inr (inl (called cond_return k r e))
          | inr (j, held) ↦ inr (inr (inl ((λ e. cc), not_mine)))
        ]
      ]
  Outline-Status (sync cond_broadcast k) o =
      let (r, e) = prompt.wake_free i s.lock in inr (inl (called cond_broadcast k r e))

  pub status : Status (s.thread i)
  status = Outline-Status (s.thread i) (d.outline i)
