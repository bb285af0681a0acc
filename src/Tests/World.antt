-- ===== src/Tests/World.antt =====
-- A small region, an allocator, and transactions that run in it.
use cs453_2025_project.Prelude.{
  ℕ, zero, suc, ◌+◌, ◌*◌, ◌≡◌, ◌≢◌, refl, Bool, true, false, Option, none, some, List, [], ◌∷◌,
  ◌==◌, if◌then◌else◌, arith, update, update_other, ◌∙◌,
}
use cs453_2025_project.Machine.{
  Ptr, World, Action, Allocator, Prog, ret, act, perform, empty_header, Reply, within,
}
use cs453_2025_project.Machine.Threads.{System, Reach, start, later, access}
use cs453_2025_project.Machine.{allocate, remove}
use cs453_2025_project.Prelude.{get_or, replicate}
use cs453_2025_project.VersionLock.{
  version_of, lock_try_acquire, lock_acquire, lock_release, lock_check, lock_check_version,
  lock_update_and_release,
}
use cs453_2025_project.Dict.{
  dic_new, dic_add, dic_find, add_rounds, dic_resize, reinsert_all, push_node, find_in, slot,
  hash_pointer, write_value, read_value, assign, dic_for_each, for_table, for_chain,
}
use cs453_2025_project.LinkedList.{
  ll_init, ll_concat_safe, splice, ll_destroy, ll_destroy_nested, free_nodes,
}
use cs453_2025_project.Transaction.{
  Region, memcpy, unique_lock_create, lock_get_from_pointer, lock_unique_lock_set,
  unlock_unique_lock_set_until, validate_reading_set, write_writing_set, update_unique_lock_set,
  tx_destroy, dic_nested_destroy, nested_free_value_dict,
}
use cs453_2025_project.Tm.{
  tm_begin, begin_at, tm_read, read_words, read_one, read_source, read_copy, abort_read, tm_write,
  write_words, write_one, tm_end, commit, validate_and_publish, publish, roll_back,
}
use cs453_2025_project.Discipline.{Scope, Elsewhere}
use cs453_2025_project.Discipline.Commit.{IsLaidOut}
use cs453_2025_project.Discipline.Session.{read, write, serve, session, IsClient}

-- Words from 1000 to 2000 are shared; the locks stand at 20,000,000, the region before them; private
-- words lie below 1000 and blocks of the allocator from 40,000,000 on.
abbrev pub small_region : Region
small_region = record {
  global_version = 10000000;
  start = 1000;
  size = 1000;
  align = 8;
  locks = 20000000;
  segments = 11000000;
}

abbrev pub small_scope : Scope
small_scope = record { region = small_region; shared = within 1000 1000 }

-- A block of its own for each call.
abbrev pub bump : Allocator
bump calls live align size = some (40000000 + 1024 * calls)

abbrev pub start_world : World
start_world = record {
  atom = λ p. 0;
  word = λ p. p;
  cell = λ p. none;
  list = λ p. empty_header;
  live = [];
  calls = 0;
}

-- Thread 0 copies the shared word at 1008 to private memory and the private word at 96 to the shared
-- word at 1000; thread 1 does so from 104.
abbrev pub copier : ℕ → Prog Bool
copier source = session 3 small_region false (read 1008 8 200 ∷ write source 8 1000 ∷ [])

abbrev pub two_copiers : System Bool
two_copiers = record {
  world = start_world;
  thread = λ i. if i == 0 then copier 96 else if i == 1 then copier 104 else ret true;
}

abbrev pub one_copier : System Bool
one_copier = record { world = start_world; thread = λ i. if i == 0 then copier 96 else ret true }

-- A state that threads reach, with the steps that lead there.
pub record Run (t : System Bool) : Type 0 where
  pub steps : ℕ
  pub last : System Bool
  pub reach : Reach bump t steps last

module _ {t : System Bool} (r : Run t) (i : ℕ) where
  performed :
      (a : Action) (k : Reply a → Prog Bool)
      → r.last.thread i ≡ act a k
      → (o : Option (Reply a × World)) → perform bump a r.last.world ≡ o
      → Run t
  performed a k e none h = r
  performed a k e (some (x, w)) h = record {
    steps = suc r.steps;
    last = record { world = w; thread = update r.last.thread i (k x) };
    reach = later r.reach (access i a k x w e h);
  }

  moved : (m : Prog Bool) → r.last.thread i ≡ m → Run t
  unfolding performed
  moved (act a k) e = performed a k e (perform bump a r.last.world) refl
  moved m e = r

-- One step of thread `i`, if it has one.
turn : {t : System Bool} → Run t → ℕ → Run t
unfolding moved
turn r i = moved r i (r.last.thread i) refl

-- All that a transaction calls; to unfold this is to unfold those.
unfoldable pub program : Prog Bool
unfolding perform allocate remove update session serve tm_begin begin_at ll_init tm_write
    write_words write_one memcpy dic_new dic_add add_rounds dic_resize reinsert_all push_node
    find_in slot hash_pointer get_or replicate write_value read_value assign tm_end commit
    unique_lock_create lock_get_from_pointer dic_for_each for_table for_chain lock_unique_lock_set
    unlock_unique_lock_set_until lock_try_acquire validate_and_publish validate_reading_set
    lock_check lock_check_version version_of publish roll_back write_writing_set
    update_unique_lock_set lock_update_and_release ll_concat_safe splice lock_acquire lock_release
    tx_destroy dic_nested_destroy nested_free_value_dict ll_destroy ll_destroy_nested free_nodes
    tm_read read_words read_one read_source read_copy abort_read dic_find
program = copier 96

-- `n` steps of thread `i`.
unfoldable pub turns : {t : System Bool} → ℕ → ℕ → Run t → Run t
unfolding turn
turns zero i r = r
turns (suc n) i r = turns n i (turn r i)

module _ {t : System Bool} (r : Run t) (i j : ℕ) (other : j ≢ i) where
  performed-other :
      (a : Action) (k : Reply a → Prog Bool) (e : r.last.thread i ≡ act a k)
      (o : Option (Reply a × World)) (h : perform bump a r.last.world ≡ o)
      → (performed r i a k e o h).last.thread j ≡ r.last.thread j
  unfolding performed
  performed-other a k e none h = refl
  performed-other a k e (some (x, w)) h = update_other r.last.thread i j (k x) other

  moved-other :
      (m : Prog Bool) (e : r.last.thread i ≡ m) → (moved r i m e).last.thread j ≡ r.last.thread j
  unfolding moved
  moved-other (act a k) e = performed-other a k e (perform bump a r.last.world) refl
  moved-other m e = refl

-- The steps of one thread leave the others where they are.
pub turns-other :
    {t : System Bool} (n i j : ℕ) (r : Run t)
    → j ≢ i
    → (turns n i r).last.thread j ≡ r.last.thread j
unfolding turns
turns-other zero i j r other = refl
turns-other (suc n) i j r other =
    turns-other n i j (turn r i) other ∙ moved-other r i j other (r.last.thread i) refl

abbrev pub begun : (t : System Bool) → Run t
begun t = record { steps = 0; last = t; reach = start }

pub small_private :
    (calls : ℕ) (live : List Ptr) (align size p a : ℕ)
    → bump calls live align size ≡ some p
    → within p size a ≡ true
    → Elsewhere small_scope a × (small_scope.shared a ≡ false)
small_private calls live align size p a got inside = ground arith

pub small_laid : IsLaidOut small_scope
small_laid = record { some_locks = omega arith; list_lock = (refl, omega arith) }

pub copier-IsClient :
    (source : ℕ) → IsClient small_scope (read 1008 8 200 ∷ write source 8 1000 ∷ [])
copier-IsClient source = ((λ i lt. ground arith), tt)
