-- ===== src/Tm/RollBack.antt =====
-- The two loops of `tm_end` over its locks, run by one thread: the locks are taken up to the first
-- that is held, and given back up to there.
use cs453_2025_project.Prelude.{
  ℕ, ◌+◌, ◌-◌, ◌%◌, ◌≡◌, ◌≢◌, ◌<◌, refl, ◌∙◌, Bool, true, false, ◌||◌, [], ◌∷◌, ◌==◌, none,
  if◌then◌else◌, arith, update, ℕ_discrete,
}
use cs453_2025_project.Machine.{Ptr, null, World, Allocator, perform, int_mod, ◌>>=◌}
use cs453_2025_project.Machine.Run.{run, done, run-bind_done}
use cs453_2025_project.VersionLock.Laws.{with_atom, run-lock_try_acquire}
use cs453_2025_project.VersionLock.{lock_try_acquire, lock_release}
use cs453_2025_project.Dict.{Chain, Dictionary, find_in, for_chain, dic_for_each}
use cs453_2025_project.Dict.Chain.{Distinct}
use cs453_2025_project.Dict.Placed.{entries, IsPlaced, entries-Distinct}
use cs453_2025_project.Dict.Each.{user_of, dic_for_each_chain}
use cs453_2025_project.Transaction.{lock_unique_lock_set, unlock_unique_lock_set_until}
use cs453_2025_project.Discipline.Locks.{keyed, before, keyed-find_in, before-keyed, taken_other}

-- The first key that is a held lock, or NULL.
abbrev pub first_held : (Ptr → ℕ) → Chain → Ptr
first_held f [] = null
first_held f ((k, v) ∷ c) = if f k % 2 == 1 then k else first_held f c

first_held-update :
    (f : Ptr → ℕ) (k x : ℕ) (c : Chain)
    → find_in k c ≡ none
    → first_held (update f k x) c ≡ first_held f c
unfolding find_in update
first_held-update f k x [] h = refl
first_held-update f k x ((j, u) ∷ c) h = ground (arith, first_held-update f k x c)

first_held-keyed :
    (f : Ptr → ℕ) (c : Chain) → ((first_held f c == null) || keyed (first_held f c) c) ≡ true
first_held-keyed f [] = refl
first_held-keyed f ((k, v) ∷ c) = ground (arith, first_held-keyed f c)

-- One more lock taken, before those of the rest of the loop.
moved :
    (f : Ptr → ℕ) (x : ℕ) (k v : Ptr) (c : Chain) (p : Ptr)
    → k ≢ null
    → find_in k c ≡ none
    → f k % 2 ≢ 1
    → x
      ≡ (if before (first_held f c) c p then update f k (f k + 1) p + 1 else update f k (f k + 1) p)
    → x ≡ (if before (first_held f ((k, v) ∷ c)) ((k, v) ∷ c) p then f p + 1 else f p)
unfolding update
moved f x k v c p some_k fresh free e =
    let apart =
      taken_other (first_held f c) k c some_k (keyed-find_in k c fresh) (first_held-keyed f c) in
    ground (arith, apart, e, before-keyed (first_held f c) k c (keyed-find_in k c fresh))

-- One more lock given back, before those of the rest of the loop.
given :
    (f : Ptr → ℕ) (x : ℕ) (k v u : Ptr) (c : Chain) (p : Ptr)
    → u ≢ k
    → find_in k c ≡ none
    → x ≡ (
        if before u c p
        then (update f k ((f k + int_mod - 1) % int_mod) p + int_mod - 1) % int_mod
        else update f k ((f k + int_mod - 1) % int_mod) p)
    → x ≡ (if before u ((k, v) ∷ c) p then (f p + int_mod - 1) % int_mod else f p)
unfolding update
given f x k v u c p apart fresh e = ground (arith, e, before-keyed u k c (keyed-find_in k c fresh))

module _ (al : Allocator) where
  module _ (k v u : Ptr) (w : World) where
    run-lock_one_held : w.atom k % 2 ≡ 1 → run al (lock_unique_lock_set k v u) w ≡ done (false, k) w
    unfolding lock_unique_lock_set
    run-lock_one_held h =
        run-bind_done al (lock_try_acquire k) _ w {w' = w} {a = false}
          (ground (arith, run-lock_try_acquire al k w))

    run-lock_one_free :
        w.atom k % 2 ≢ 1
        → run al (lock_unique_lock_set k v u) w ≡ done (true, u) (with_atom w k (w.atom k + 1))
    unfolding lock_unique_lock_set
    run-lock_one_free h =
        run-bind_done al (lock_try_acquire k) _ w {w' = with_atom w k (w.atom k + 1)} {a = true}
          (ground (arith, run-lock_try_acquire al k w))

  -- The loop takes the locks before the first held one.
  run-lock_all :
      (c : Chain) (w : World)
      → Distinct c
      → find_in null c ≡ none
      → (b : Bool) × (w' : World) × (run al (for_chain lock_unique_lock_set c null) w
          ≡ done (b, first_held w.atom c) w')
        × ((p : Ptr)
            → w'.atom p ≡ (if before (first_held w.atom c) c p then w.atom p + 1 else w.atom p))
  unfolding for_chain find_in
  run-lock_all [] w distinct some_keys = (true, w, refl, λ p. refl)
  run-lock_all ((k, v) ∷ c) w distinct some_keys = elim (ℕ_discrete (w.atom k % 2) 1) [
    | yes held ↦ (
      false,
      w,
      run-bind_done al (lock_unique_lock_set k v null) _ w (run-lock_one_held k v null w held)
          ∙ ground arith,
      λ p. ground arith,
    )
    | no free ↦
        let w1 = with_atom w k (w.atom k + 1) in
        let (b, w', rest, atoms) = run-lock_all c w1 distinct.1 (ground arith) in
        (
          b,
          w',
          run-bind_done al (lock_unique_lock_set k v null) _ w (run-lock_one_free k v null w free)
              ∙ rest
              ∙ rw (first_held-update w.atom k (w.atom k + 1) c distinct.0) (ground arith),
          λ p.
              moved w.atom (w'.atom p) k v c p (ground arith) distinct.0 free
                (rw (← first_held-update w.atom k (w.atom k + 1) c distinct.0) (atoms p)),
        )
  ]

  run-unlock_one :
      (k v u : Ptr) (w : World)
      → run al (unlock_unique_lock_set_until k v u) w ≡ (
          if u == k
          then done (false, u) w
          else done (true, u) (with_atom w k ((w.atom k + int_mod - 1) % int_mod)))
  unfolding unlock_unique_lock_set_until lock_release perform
  run-unlock_one k v u w = ground arith

  -- The loop gives back the locks before `u`.
  run-unlock_all :
      (c : Chain) (u : Ptr) (w : World)
      → Distinct c
      → (b : Bool) × (w' : World) × (run al (for_chain unlock_unique_lock_set_until c u) w
          ≡ done (b, u) w')
        × ((p : Ptr)
            → w'.atom p ≡ (if before u c p then (w.atom p + int_mod - 1) % int_mod else w.atom p))
  unfolding for_chain
  run-unlock_all [] u w distinct = (true, w, refl, λ p. refl)
  run-unlock_all ((k, v) ∷ c) u w distinct = elim (ℕ_discrete u k) [
    | yes last ↦ (
      false,
      w,
      run-bind_done al (unlock_unique_lock_set_until k v u) _ w {w' = w} {a = (false, u)}
          (ground (arith, run-unlock_one k v u w)),
      λ p. ground arith,
    )
    | no further ↦
        let w1 = with_atom w k ((w.atom k + int_mod - 1) % int_mod) in
        let (b, w', rest, atoms) = run-unlock_all c u w1 distinct.1 in
        (
          b,
          w',
          run-bind_done al (unlock_unique_lock_set_until k v u) _ w {w' = w1} {a = (true, u)}
                (ground (arith, run-unlock_one k v u w))
              ∙ rest,
          λ p. given w.atom (w'.atom p) k v u c p further distinct.0 (atoms p),
        )
  ]

  -- In a well-formed dictionary of locks without NULL: the loop that takes the locks answers the first
  -- one that is held, or NULL, and giving back the locks up to that answer, as `tm_end` does when it
  -- aborts, leaves every lock as it was before, whether all were taken or not.
  pub unlock-lock :
      (ul : Dictionary) (w : World)
      → IsPlaced ul
      → find_in null (entries ul) ≡ none
      → ((p : Ptr) → w.atom p < int_mod)
      → (w' : World) × (run al
            (dic_for_each lock_unique_lock_set ul null >>= λ failed.
              dic_for_each unlock_unique_lock_set_until ul failed)
            w
          ≡ done (first_held w.atom (entries ul)) w')
        × ((p : Ptr) → w'.atom p ≡ w.atom p)
  unlock-lock ul w wf some_keys bound =
      let c = entries ul in
      let (b, w1, lock, taken) = run-lock_all c w (entries-Distinct ul wf) some_keys in
      let (b', w2, unlock, back) =
        run-unlock_all c (first_held w.atom c) w1 (entries-Distinct ul wf) in
      (
        w2,
        run-bind_done al (dic_for_each lock_unique_lock_set ul null) _ w {w' = w1}
              {a = first_held w.atom c}
              (rw (dic_for_each_chain lock_unique_lock_set ul null) (
                run-bind_done al (for_chain lock_unique_lock_set c null)
                  (user_of lock_unique_lock_set) w lock))
            ∙ rw (dic_for_each_chain unlock_unique_lock_set_until ul (first_held w.atom c)) (
                run-bind_done al (for_chain unlock_unique_lock_set_until c (first_held w.atom c))
                  (user_of unlock_unique_lock_set_until) w1 unlock),
        λ p. ground (arith, back p, taken p, bound p),
      )
