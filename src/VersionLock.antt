-- ===== src/VersionLock.antt =====
-- 415640/version_types.c: a versioned lock is one `_Atomic int`, bit 0 of which is the lock and the
-- rest the version.
pub mod Laws
use cs453_2025_project.Prelude.{
  ℕ, zero, suc, ◌+◌, ◌/◌, ◌%◌, ◌^◌, Bool, true, false, not, ◌||◌, ◌==◌, ltb, if◌then◌else◌, bit_and,
  bit_or,
}
use cs453_2025_project.Machine.{
  Ptr, Prog, ret, out_of_fuel, do_action, atomic_load, atomic_store, compare_exchange,
  compare_exchange_weak, fetch_sub, int_mod, ◌>>=◌, ◌>>◌,
}

-- `vl & 0x1`, as a test
abbrev pub is_locked : ℕ → Bool
is_locked vl = not (bit_and vl 0x1 == 0)

-- The order of `vl >> 1` for a signed `int` given as its pattern: half of the value moved up by
-- 2 ^ 31, which is even.
unfoldable pub version_of : ℕ → ℕ
version_of vl = (vl + 2 ^ 31) % int_mod / 2

unfoldable pub lock_try_acquire : Ptr → Prog Bool
lock_try_acquire lk = do
  vl ← do_action (atomic_load lk)
  if is_locked vl then ret false else do_action (compare_exchange lk vl (bit_or vl 0x1))

-- The waiting loop, for a number of rounds.
unfoldable pub lock_acquire : ℕ → Ptr → Prog (Unit {0})
lock_acquire zero lk = out_of_fuel
lock_acquire (suc rounds) lk = do
  let again = lock_acquire rounds lk
  won ← do_action (compare_exchange_weak lk 0 (bit_or 0 0x1))
  if won then ret tt else again

unfoldable pub lock_release : Ptr → Prog (Unit {0})
lock_release lk = do _ ← do_action (fetch_sub lk 1); ret tt

unfoldable pub lock_check : Ptr → ℕ → Prog Bool
unfolding version_of
lock_check lk own_vl = do
  vl ← do_action (atomic_load lk)
  ret (if is_locked vl || ltb (version_of own_vl) (version_of vl) then false else true)

unfoldable pub lock_check_version : Ptr → ℕ → Prog Bool
unfolding version_of
lock_check_version lk own_vl = do
  vl ← do_action (atomic_load lk)
  ret (if ltb (version_of own_vl) (version_of vl) then false else true)

unfoldable pub lock_update_and_release : Ptr → ℕ → Prog (Unit {0})
lock_update_and_release lk updated_version = do_action (atomic_store lk updated_version)
