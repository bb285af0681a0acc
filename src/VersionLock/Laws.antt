-- ===== src/VersionLock/Laws.antt =====
-- What each operation on a versioned lock does when one thread runs it (415640/version_types.c).
use cs453_2025_project.Prelude.{
  ℕ, ◌≡◌, refl, ◌+◌, ◌-◌, ◌/◌, ◌%◌, ◌^◌, ◌<◌, true, false, not, ◌&&◌, ◌==◌, leb, if◌then◌else◌,
  bit_and-one, bit_or-one, arith, update, update_self, ℕ_discrete,
}
use cs453_2025_project.Machine.{Ptr, ret, ◌>>=◌, World, Allocator, perform, int_mod}
use cs453_2025_project.Machine.Run.{run, done}
use cs453_2025_project.VersionLock.{
  is_locked, version_of, lock_try_acquire, lock_release, lock_check, lock_update_and_release,
  lock_check_version,
}

-- The world with one atomic integer changed.
abbrev pub with_atom : World → Ptr → ℕ → World
with_atom w p v = record w { atom = update w.atom p v }

-- The test of the lock bit is the parity.
pub is_locked_iff : (v : ℕ) → is_locked v ≡ (v % 2 == 1)
is_locked_iff v = ground (arith, bit_and-one v)

-- On a pattern below 2 ^ 31 the version is half of it, moved by a constant.
pub version_of_small : (v : ℕ) → v < 2 ^ 31 → version_of v ≡ 2 ^ 30 + v / 2
unfolding version_of
version_of_small v h = omega arith

update-restored : (f : Ptr → ℕ) (a : Ptr) (v : ℕ) (p : Ptr) → update (update f a v) a (f a) p ≡ f p
unfolding update
update-restored f a v p = ground arith

module _ (al : Allocator) (lk : Ptr) (w : World) where
  -- A free lock is taken, and nothing else changes; a held one is refused, and nothing changes.
  pub run-lock_try_acquire :
      run al (lock_try_acquire lk) w
      ≡ (if w.atom lk % 2 == 1 then done false w else done true (with_atom w lk (w.atom lk + 1)))
  unfolding lock_try_acquire perform
  run-lock_try_acquire = ground (arith, bit_and-one (w.atom lk), bit_or-one (w.atom lk))

  pub run-lock_release :
      run al (lock_release lk) w ≡ done tt (with_atom w lk ((w.atom lk + int_mod - 1) % int_mod))
  unfolding lock_release perform
  run-lock_release = refl

  -- What `lock_check` answers: the lock is free and its version is not above the caller's.
  pub run-lock_check :
      (own : ℕ)
      → run al (lock_check lk own) w
        ≡ done (not (w.atom lk % 2 == 1) && leb (version_of (w.atom lk)) (version_of own)) w
  unfolding lock_check perform
  run-lock_check own = ground (arith, bit_and-one (w.atom lk))

  pub run-lock_check_version :
      (own : ℕ)
      → run al (lock_check_version lk own) w
        ≡ done (leb (version_of (w.atom lk)) (version_of own)) w
  unfolding lock_check_version perform
  run-lock_check_version own = ground arith

  -- A thread that takes a lock if it is free, and gives it back if it took it, changes no lock and
  -- tells whether it was free, for every value of the lock.
  pub lock_release-lock_try_acquire :
      w.atom lk < int_mod
      → (u : World) × (run al
            (lock_try_acquire lk >>= λ won.
              if won then (lock_release lk >>= λ _. ret won) else ret won)
            w
          ≡ done (not (w.atom lk % 2 == 1)) u)
        × ((p : Ptr) → u.atom p ≡ w.atom p)
  unfolding lock_try_acquire lock_release perform
  lock_release-lock_try_acquire bound = elim (ℕ_discrete (w.atom lk % 2) 1) [
    | yes odd ↦ (w, ground (arith, bit_and-one (w.atom lk)), λ p. refl)
    | no free ↦ (
      with_atom (with_atom w lk (w.atom lk + 1)) lk (w.atom lk),
      ground (
        arith,
        bit_and-one (w.atom lk),
        bit_or-one (w.atom lk),
        update_self w.atom lk (w.atom lk + 1),
      ),
      update-restored w.atom lk (w.atom lk + 1),
    )
  ]

  -- After a commit stores the even version `v` and so releases the lock, `lock_check` accepts exactly
  -- the readers whose version is `v` or later. Both versions are below 2 ^ 31.
  pub lock_check-lock_update_and_release :
      (v own : ℕ)
      → v % 2 ≡ 0
      → v < 2 ^ 31
      → own < 2 ^ 31
      → run al (lock_update_and_release lk v >>= λ _. lock_check lk own) w
        ≡ done (leb (v / 2) (own / 2)) (with_atom w lk v)
  unfolding lock_update_and_release lock_check perform
  lock_check-lock_update_and_release v own even small below =
      rw (update_self w.atom lk v, version_of_small v small, version_of_small own below)
        (ground (arith, bit_and-one v))
