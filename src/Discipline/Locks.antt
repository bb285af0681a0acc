-- ===== src/Discipline/Locks.antt =====
-- The two loops of `tm_end` over its locks: taking them until one is refused, and giving them back.
use cs453_2025_project.Prelude.{
  ℕ, ◌≡◌, ◌≢◌, refl, Bool, true, false, not, ◌||◌, ◌&&◌, [], ◌∷◌, ◌==◌, if◌then◌else◌, arith,
  update, bit_or, bit_or-one, bit_and-one, none, inl, ==→eq,
}
use cs453_2025_project.Machine.{Ptr, null, ret, compare_exchange}
use cs453_2025_project.VersionLock.{is_locked, lock_try_acquire, lock_release}
use cs453_2025_project.Dict.{Chain, EnumFunc, find_in, for_chain}
use cs453_2025_project.Dict.Chain.{Distinct}
use cs453_2025_project.Transaction.{lock_unique_lock_set, unlock_unique_lock_set_until}
use cs453_2025_project.Discipline.{Scope, Ghost, is_lock, Keeps, after}
use cs453_2025_project.Discipline.Rules.{Keeps-bind, Keeps-mono, Keeps-if}

-- The keys of a list of entries.
abbrev pub keyed : Ptr → Chain → Bool
keyed a [] = false
keyed a ((k, v) ∷ c) = (a == k) || keyed a c

-- The keys before `until`.
abbrev pub before : Ptr → Chain → Ptr → Bool
before until [] a = false
before until ((k, v) ∷ c) a = if until == k then false else (a == k) || before until c a

-- Each key is a lock.
abbrev pub AllLocks : Scope → Chain → Type 0
AllLocks s [] = Unit {0}
AllLocks s ((k, v) ∷ c) = (is_lock s k ≡ true) × (k ≢ null) × AllLocks s c

pub keyed-find_in : (a : Ptr) (c : Chain) → find_in a c ≡ none → keyed a c ≡ false
unfolding find_in
keyed-find_in a [] h = refl
keyed-find_in a ((k, v) ∷ c) h = ground (arith, keyed-find_in a c)

pub before-keyed : (u a : Ptr) (c : Chain) → keyed a c ≡ false → before u c a ≡ false
before-keyed u a [] h = refl
before-keyed u a ((k, v) ∷ c) h = ground (arith, before-keyed u a c)

-- Up to NULL all keys are taken.
pub before-null : (s : Scope) (a : Ptr) (c : Chain) → AllLocks s c → before null c a ≡ keyed a c
before-null s a [] l = refl
before-null s a ((k, v) ∷ c) l = ground (arith, before-null s a c l.2)

pub taken_other :
    (u k : Ptr) (c : Chain)
    → k ≢ null
    → keyed k c ≡ false
    → ((u == null) || keyed u c) ≡ true
    → u ≢ k
taken_other u k c some_k fresh refused e =
    let clash : ((k == null) || keyed k c) ≡ true = rw (← e) refused in ground arith

module _ (s : Scope) where
  module _ (Q : Bool → Ghost → Type 0) (g : Ghost) (p e d : ℕ) where
    by_answer :
        Q false g
        → Q true (record g { own = update g.own p true })
        → (r : Bool) → Keeps s Q (after s g (compare_exchange p e d) r) (ret r)
    by_answer lost won true = won
    by_answer lost won false = lost

  try-Keeps :
      (Q : Bool → Ghost → Type 0) (g : Ghost) (p : Ptr)
      → is_lock s p ≡ true
      → Q false g
      → Q true (record g { own = update g.own p true })
      → Keeps s Q g (lock_try_acquire p)
  unfolding lock_try_acquire
  try-Keeps Q g p lock lost won = (
    tt,
    λ v t.
        Keeps-if s Q g (is_locked v) _ _ (λ e. lost)
          (λ e. (
            (lock, ground (arith, bit_and-one v), ground (arith, bit_and-one v, bit_or-one v)),
            λ r t'. by_answer Q g p v (bit_or v 1) lost won r,
          )),
  )

  -- After the loop that takes locks: the thread owns those before the one that was refused, which is
  -- one of them; or all, and the result is NULL.
  pub record Taken (c : Chain) (g : Ghost) (r : Bool × Ptr) (g' : Ghost) : Type 0 where
    pub answer : r.0 ≡ (r.1 == null)
    pub refused : ((r.1 == null) || keyed r.1 c) ≡ true
    pub owns : (a : Ptr) → g'.own a ≡ (g.own a || before r.1 c a)

  Taken-cons :
      (k v : Ptr) (c : Chain) (g : Ghost) (r : Bool × Ptr) (x : Ghost)
      → k ≢ null
      → keyed k c ≡ false
      → Taken c (record g { own = update g.own k true }) r x
      → Taken ((k, v) ∷ c) g r x
  unfolding update
  Taken-cons k v c g r x some_k fresh t =
      let other : r.1 ≢ k = taken_other r.1 k c some_k fresh t.refused in
      record {
        answer = t.answer;
        refused = ground (arith, t.refused);
        owns = λ a. ground (arith, t.owns a);
      }

  pub for_cons-Keeps :
      {S : Type 0} (f : EnumFunc S) (Q : Bool × S → Ghost → Type 0) (g : Ghost) (k v : Ptr)
      (c : Chain) (u : S)
      → Keeps s
          (λ r g'. Keeps s Q g' (if r.0 then for_chain f c r.1 else ret (false, r.1)))
          g
          (f k v u)
      → Keeps s Q g (for_chain f ((k, v) ∷ c) u)
  unfolding for_chain
  for_cons-Keeps f Q g k v c u h =
      Keeps-bind s Q g (f k v u) (λ r. if r.0 then for_chain f c r.1 else ret (false, r.1)) h

  lock_one-Keeps :
      (R : Bool × Ptr → Ghost → Type 0) (g : Ghost) (k v u : Ptr)
      → is_lock s k ≡ true
      → R (false, k) g
      → R (true, u) (record g { own = update g.own k true })
      → Keeps s R g (lock_unique_lock_set k v u)
  unfolding lock_unique_lock_set
  lock_one-Keeps R g k v u lock lost won =
      Keeps-bind s R g (lock_try_acquire k) (λ b. if b then ret (true, u) else ret (false, k))
        (try-Keeps (λ b g'. Keeps s R g' (if b then ret (true, u) else ret (false, k))) g k lock
          lost won)

  pub lock_all-Keeps :
      (c : Chain) (g : Ghost)
      → AllLocks s c
      → Distinct c
      → Keeps s (Taken c g) g (for_chain lock_unique_lock_set c null)
  unfolding for_chain
  lock_all-Keeps [] g locks distinct = record { answer = refl; refused = refl; owns = ground arith }
  lock_all-Keeps ((k, v) ∷ c) g locks distinct =
      let g' = record g { own = update g.own k true } in
      let fresh = keyed-find_in k c distinct.0 in
      for_cons-Keeps lock_unique_lock_set (Taken ((k, v) ∷ c) g) g k v c null (
        lock_one-Keeps _ g k v null locks.0
          (record { answer = ground arith; refused = ground arith; owns = λ a. ground arith })
          (Keeps-mono s (Taken c g') (Taken ((k, v) ∷ c) g) g'
            (for_chain lock_unique_lock_set c null)
            (λ r x t. Taken-cons k v c g r x locks.1 fresh t)
            (lock_all-Keeps c g' locks.2 distinct.1)))

  -- After the loop that gives locks back up to `until`.
  pub record GivenUp (until : Ptr) (c : Chain) (g : Ghost) (r : Bool × Ptr) (g' : Ghost)
      : Type 0 where
    pub owns : (a : Ptr) → g'.own a ≡ (g.own a && not (before until c a))
    pub bound : g'.bound ≡ g.bound

  GivenUp-cons :
      (until k v : Ptr) (c : Chain) (g : Ghost) (r : Bool × Ptr) (x : Ghost)
      → until ≢ k
      → GivenUp until c (record g { own = update g.own k false }) r x
      → GivenUp until ((k, v) ∷ c) g r x
  unfolding update
  GivenUp-cons until k v c g r x ne t = record {
    owns = λ a. ground (arith, t.owns a);
    bound = t.bound;
  }

  GivenUp-owned :
      (until k v : Ptr) (c : Chain) (g : Ghost) (a : Ptr)
      → until ≢ k
      → keyed k c ≡ false
      → ((a : Ptr) → before until ((k, v) ∷ c) a ≡ true → g.own a ≡ true)
      → before until c a ≡ true
      → update g.own k false a ≡ true
  unfolding update
  GivenUp-owned until k v c g a ne fresh owned e =
      ground (arith, owned a, before-keyed until k c fresh)

  release_one-Keeps :
      (R : Bool × Ptr → Ghost → Type 0) (g : Ghost) (k v u : Ptr)
      → is_lock s k ≡ true
      → (u ≡ k → R (false, u) g)
      → (u ≢ k → (g.own k ≡ true) × R (true, u) (record g { own = update g.own k false }))
      → Keeps s R g (unlock_unique_lock_set_until k v u)
  unfolding unlock_unique_lock_set_until lock_release
  release_one-Keeps R g k v u lock stop go =
      Keeps-if s R g (u == k) (ret (false, u)) _ (λ e. stop (==→eq u k e))
        (λ e. let r = go (ground arith) in (inl (lock, r.0, refl), λ x t. rw lock r.1))

  pub unlock_all-Keeps :
      (until : Ptr) (c : Chain) (g : Ghost)
      → AllLocks s c
      → Distinct c
      → ((a : Ptr) → before until c a ≡ true → g.own a ≡ true)
      → Keeps s (GivenUp until c g) g (for_chain unlock_unique_lock_set_until c until)
  unfolding for_chain
  unlock_all-Keeps until [] g locks distinct owned = record {
    owns = λ a. ground arith;
    bound = refl;
  }
  unlock_all-Keeps until ((k, v) ∷ c) g locks distinct owned =
      let g' = record g { own = update g.own k false } in
      let fresh = keyed-find_in k c distinct.0 in
      for_cons-Keeps unlock_unique_lock_set_until (GivenUp until ((k, v) ∷ c) g) g k v c until (
        release_one-Keeps _ g k v until locks.0
          (λ e. record { owns = λ a. ground arith; bound = refl })
          (λ ne. (
            owned k (ground arith),
            Keeps-mono s (GivenUp until c g') (GivenUp until ((k, v) ∷ c) g) g'
                (for_chain unlock_unique_lock_set_until c until)
                (λ r x t. GivenUp-cons until k v c g r x ne t)
                (unlock_all-Keeps until c g' locks.2 distinct.1
                  (λ a e. GivenUp-owned until k v c g a ne fresh owned e)),
          )))
