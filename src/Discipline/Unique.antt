-- ===== src/Discipline/Unique.antt =====
-- `unique_lock_create`: the dictionary that it fills holds the lock of every word of the write set,
-- each once, and nothing but locks.
use cs453_2025_project.Prelude.{
  ℕ, ◌%◌, ◌≡◌, ◌≢◌, ◌<◌, refl, true, ◌||◌, [], ◌∷◌, ◌==◌, arith, ℕ_discrete,
}
use cs453_2025_project.Machine.{Ptr, null}
use cs453_2025_project.Dict.{
  Chain, Dictionary, hash_pointer, find_in, for_chain, dic_new, dic_for_each,
}
use cs453_2025_project.Dict.Chain.{Distinct}
use cs453_2025_project.Dict.Placed.{entries, IsDict, entries-Distinct}
use cs453_2025_project.Dict.Add.{Added, dic_new-IsDict, entries-dic_new, found}
use cs453_2025_project.Transaction.{lock_array_size, lock_get_from_pointer, unique_lock_create}
use cs453_2025_project.Discipline.{Scope, Ghost, Keeps, is_lock}
use cs453_2025_project.Discipline.Rules.{Keeps-mono}
use cs453_2025_project.Discipline.Loops.{each-Keeps}
use cs453_2025_project.Discipline.Adds.{Added-Keeps}
use cs453_2025_project.Discipline.Locks.{keyed, AllLocks, for_cons-Keeps}

keyed-found : (a : Ptr) (c : Chain) → keyed a c ≡ found (find_in a c)
unfolding find_in
keyed-found a [] = refl
keyed-found a ((k, v) ∷ c) = ground (arith, keyed-found a c)

-- `dic_add` adds its key to the keys, and no other.
keyed-Added :
    (d d' : Dictionary) (k res a : Ptr)
    → Added d k d' res
    → keyed a (entries d') ≡ (keyed a (entries d) || (a == k))
keyed-Added d d' k res a added =
    ground (arith, keyed-found a (entries d), keyed-found a (entries d'), added.reads a)

module _ (s : Scope) where
  pub lock-is_lock : (k : Ptr) → is_lock s (lock_get_from_pointer s.region k) ≡ true
  unfolding lock_get_from_pointer
  lock-is_lock k =
      let low : hash_pointer k % lock_array_size < lock_array_size = omega arith in ground arith

  -- A dictionary of locks.
  pub record LockDict (d : Dictionary) : Type 0 where
    pub wf : IsDict d
    pub locks : (a : Ptr) → keyed a (entries d) ≡ true → is_lock s a ≡ true

  Added-LockDict :
      (d d' : Dictionary) (k res : Ptr)
      → LockDict d
      → Added d (lock_get_from_pointer s.region k) d' res
      → LockDict d'
  Added-LockDict d d' k res h added = record {
    wf = added.wf;
    locks = λ a e. ground (
      arith,
      keyed-Added d d' (lock_get_from_pointer s.region k) res a added,
      h.locks a,
      lock-is_lock k,
    );
  }

  -- All locks of these words are in the dictionary, with what was there before.
  record Filled (c : Chain) (d d' : Dictionary) : Type 0 where
    filled : LockDict d'
    old : (a : Ptr) → keyed a (entries d) ≡ true → keyed a (entries d') ≡ true
    new :
        (k : Ptr) → keyed k c ≡ true → keyed (lock_get_from_pointer s.region k) (entries d') ≡ true

  Filled-cons :
      (p v : Ptr) (c : Chain) (d d1 d' : Dictionary) (res : ℕ)
      → Added d (lock_get_from_pointer s.region p) d1 res
      → Filled c d1 d'
      → Filled ((p, v) ∷ c) d d'
  Filled-cons p v c d d1 d' res added t =
      let lk = lock_get_from_pointer s.region p in
      record {
        filled = t.filled;
        old = λ a e. t.old a (ground (arith, keyed-Added d d1 lk res a added));
        new = λ k e. elim (ℕ_discrete k p) [
          | yes same ↦ rw same (t.old lk (ground (arith, keyed-Added d d1 lk res lk added)))
          | no other ↦ t.new k (ground arith)
        ];
      }

  unique_all-Keeps :
      (c : Chain) (d : Dictionary) (g : Ghost)
      → LockDict d
      → Keeps s (λ r g'. (g' ≡ g) × Filled c d r.1) g (for_chain (unique_lock_create s.region) c d)
  unfolding for_chain unique_lock_create
  unique_all-Keeps [] d g h = (refl, record { filled = h; old = λ a e. e; new = λ k e. cc })
  unique_all-Keeps ((p, v) ∷ c) d g h = for_cons-Keeps s (unique_lock_create s.region) _ g p v c d (
      Added-Keeps s _ g d (lock_get_from_pointer s.region p) _ h.wf (λ d1 res added.
        Keeps-mono s (λ r g'. (g' ≡ g) × Filled c d1 r.1) _ g _
          (λ r g' (same, t). (same, Filled-cons p v c d d1 r.1 res added t))
          (unique_all-Keeps c d1 g (Added-LockDict d d1 p res h added))))

  AllLocks-of :
      (c : Chain)
      → s.region.locks ≢ null
      → ((a : Ptr) → keyed a c ≡ true → is_lock s a ≡ true)
      → AllLocks s c
  AllLocks-of [] some_locks h = tt
  AllLocks-of ((k, v) ∷ c) some_locks h =
      let lock = h k (ground arith) in
      (lock, (λ e. ground arith), AllLocks-of c some_locks (λ a e. h a (ground arith)))

  -- The locks of a write set, ready for the loops over them.
  pub record UniqueLocks (ws d : Dictionary) : Type 0 where
    pub locks : AllLocks s (entries d)
    pub distinct : Distinct (entries d)
    pub covers :
        (k : Ptr)
        → keyed k (entries ws) ≡ true
        → keyed (lock_get_from_pointer s.region k) (entries d) ≡ true

  Filled-UniqueLocks :
      (ws d : Dictionary)
      → s.region.locks ≢ null
      → Filled (entries ws) (dic_new 0) d
      → UniqueLocks ws d
  Filled-UniqueLocks ws d some_locks t = record {
    locks = AllLocks-of (entries d) some_locks t.filled.locks;
    distinct = entries-Distinct d t.filled.wf.buckets;
    covers = t.new;
  }

  -- The loop of `unique_lock_create` makes no access to memory.
  pub unique_lock_create-Keeps :
      (ws : Dictionary) (g : Ghost)
      → s.region.locks ≢ null
      → Keeps s
          (λ d g'. (g' ≡ g) × UniqueLocks ws d)
          g
          (dic_for_each (unique_lock_create s.region) ws (dic_new 0))
  unique_lock_create-Keeps ws g some_locks =
      let empty : LockDict (dic_new 0) = record {
        wf = dic_new-IsDict 0;
        locks = λ a e. let e' : keyed a [] ≡ true = rw (entries-dic_new 0) at e in cc;
      } in
      each-Keeps s (unique_lock_create s.region) _ g ws (dic_new 0) (
        Keeps-mono s (λ r g'. (g' ≡ g) × Filled (entries ws) (dic_new 0) r.1) _ g _
          (λ r g' (same, t). (same, Filled-UniqueLocks ws r.1 some_locks t))
          (unique_all-Keeps (entries ws) (dic_new 0) g empty))
