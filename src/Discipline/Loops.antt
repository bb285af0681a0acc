-- ===== src/Discipline/Loops.antt =====
-- `dic_forEach` with a loop invariant, and the loops of `tm_end` that write the words and publish the
-- new version.
use cs453_2025_project.Prelude.{
  ℕ, ◌%◌, ◌≡◌, ◌≤◌, refl, Bool, true, false, not, ◌&&◌, [], ◌∷◌, ◌==◌, if◌then◌else◌, arith, update,
  inl,
}
use cs453_2025_project.Machine.{Ptr, null, ret}
use cs453_2025_project.VersionLock.{lock_update_and_release}
use cs453_2025_project.Dict.{Chain, Dictionary, EnumFunc, for_chain, dic_for_each}
use cs453_2025_project.Dict.Chain.{Distinct}
use cs453_2025_project.Dict.Placed.{entries}
use cs453_2025_project.Dict.Each.{dic_for_each_chain, user_of}
use cs453_2025_project.Transaction.{
  lock_get_from_pointer, memcpy, write_writing_set, update_unique_lock_set,
}
use cs453_2025_project.Discipline.{Scope, Ghost, Keeps}
use cs453_2025_project.Discipline.Rules.{Keeps-bind, Keeps-mono, Keeps-if}
use cs453_2025_project.Discipline.Locks.{keyed, AllLocks, keyed-find_in, for_cons-Keeps}

module _ (s : Scope) where
  -- A loop over a dictionary is a loop over its entries.
  pub each-Keeps :
      {S : Type 0} (f : EnumFunc S) (Q : S → Ghost → Type 0) (g : Ghost) (d : Dictionary) (u : S)
      → Keeps s (λ r g'. Q r.1 g') g (for_chain f (entries d) u)
      → Keeps s Q g (dic_for_each f d u)
  each-Keeps f Q g d u h =
      rw (dic_for_each_chain f d u) (Keeps-bind s Q g (for_chain f (entries d) u) (user_of f) h)

  go_on :
      {S : Type 0} (f : EnumFunc S) (I : S → Ghost → Type 0) (c : Chain) (r : Bool × S) (g : Ghost)
      → I r.1 g
      → ((u : S) (g : Ghost) → I u g → Keeps s (λ r g'. I r.1 g') g (for_chain f c u))
      → Keeps s (λ r g'. I r.1 g') g (if r.0 then for_chain f c r.1 else ret (false, r.1))
  go_on f I c r g i rest = Keeps-if s (λ r g'. I r.1 g') g r.0 _ _ (λ e. rest r.1 g i) (λ e. i)

  -- What every round keeps, the loop keeps.
  pub loop-Keeps :
      {S : Type 0} (f : EnumFunc S) (I : S → Ghost → Type 0) (c : Chain)
      → ((k v : Ptr) (u : S) (g : Ghost)
          → keyed k c ≡ true
          → I u g
          → Keeps s (λ r g'. I r.1 g') g (f k v u))
      → (u : S) (g : Ghost) → I u g
      → Keeps s (λ r g'. I r.1 g') g (for_chain f c u)
  unfolding for_chain
  loop-Keeps f I [] round u g i = i
  loop-Keeps f I ((k, v) ∷ c) round u g i =
      for_cons-Keeps s f (λ r g'. I r.1 g') g k v c u
        (Keeps-mono s (λ r g'. I r.1 g') _ g (f k v u)
          (λ r g' j.
            go_on f I c r g' j (loop-Keeps f I c (λ p w x y e. round p w x y (ground arith))))
          (round k v u g (ground arith) i))

  -- The words of the write set are written by a thread that owns their locks.
  pub write_all-Keeps :
      (c : Chain) (g : Ghost)
      → ((k : Ptr) → keyed k c ≡ true → g.own (lock_get_from_pointer s.region k) ≡ true)
      → Keeps s (λ r g'. g' ≡ g) g (for_chain write_writing_set c tt)
  unfolding write_writing_set memcpy
  write_all-Keeps c g owned =
      loop-Keeps write_writing_set (λ u g'. g' ≡ g) c
        (λ k v u g' e same. Keeps-bind s _ g' (memcpy k v) _ (
          Keeps-if s _ g' (v == null) _ _ (λ n. tt)
            (λ n. (tt, λ w t. ((λ sh. rw same (owned k e)), λ x t'. same)))))
        tt g refl

  -- After the new version is published under every lock.
  pub record Published (c : Chain) (g : Ghost) (r : Bool × Unit {0}) (g' : Ghost) : Type 0 where
    pub owns : (a : Ptr) → g'.own a ≡ (g.own a && not (keyed a c))

  Published-cons :
      (k v : Ptr) (c : Chain) (g : Ghost) (r : Bool × Unit {0}) (x : Ghost)
      → Published c (record g { own = update g.own k false }) r x
      → Published ((k, v) ∷ c) g r x
  unfolding update
  Published-cons k v c g r x t = record { owns = λ a. ground (arith, t.owns a) }

  Published-owned :
      (k v : Ptr) (c : Chain) (g : Ghost) (a : Ptr)
      → keyed k c ≡ false
      → ((a : Ptr) → keyed a ((k, v) ∷ c) ≡ true → g.own a ≡ true)
      → keyed a c ≡ true
      → update g.own k false a ≡ true
  unfolding update
  Published-owned k v c g a fresh owned e = ground (arith, owned a)

  pub update_all-Keeps :
      (version : ℕ) (c : Chain) (g : Ghost)
      → AllLocks s c
      → Distinct c
      → version % 2 ≡ 0
      → version ≤ g.bound
      → ((a : Ptr) → keyed a c ≡ true → g.own a ≡ true)
      → Keeps s (Published c g) g (for_chain (update_unique_lock_set version) c tt)
  unfolding for_chain update_unique_lock_set lock_update_and_release
  update_all-Keeps version [] g locks distinct even low owned = record { owns = λ a. ground arith }
  update_all-Keeps version ((k, v) ∷ c) g locks distinct even low owned =
      let g' = record g { own = update g.own k false } in
      let fresh = keyed-find_in k c distinct.0 in
      (
        inl (locks.0, owned k (ground arith), even, low),
        λ x t. rw locks.0 (
            Keeps-mono s (Published c g') (Published ((k, v) ∷ c) g) g'
              (for_chain (update_unique_lock_set version) c tt) (λ r x. Published-cons k v c g r x)
              (update_all-Keeps version c g' locks.2 distinct.1 even low
                (λ a e. Published-owned k v c g a fresh owned e))),
      )
