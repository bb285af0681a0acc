-- ===== src/Tests/Lists.antt =====
-- Linked lists (415640/ll.c) and locks (415640/version_types.c) at concrete inputs.
use cs453_2025_project.Prelude.{
  ◌+◌, ◌≡◌, ◌<◌, refl, true, none, some, List, [], ◌∷◌, ◌++◌, ◌==◌, if◌then◌else◌, arith,
}
use cs453_2025_project.Machine.{Ptr, ret, ◌>>=◌, holds, null, node, World, Allocator}
use cs453_2025_project.Machine.Run.{run, done}
use cs453_2025_project.VersionLock.{
  lock_try_acquire, lock_release, lock_check, lock_update_and_release,
}
use cs453_2025_project.VersionLock.Laws.{
  with_atom, lock_release-lock_try_acquire, lock_check-lock_update_and_release,
}
use cs453_2025_project.LinkedList.{ll_append}
use cs453_2025_project.LinkedList.Links.{IsList}
use cs453_2025_project.LinkedList.Append.{IsFresh, ll_append-IsList}
use cs453_2025_project.Tests.World.{start_world}

-- An address above all that are in use.
above : List Ptr → Ptr
above [] = 1
above (q ∷ live) = q + above live

above-lt : (p : Ptr) (live : List Ptr) → (holds p live ≡ true → p < above live) × (0 < above live)
unfolding above
above-lt p [] = (λ e. cc, omega arith)
above-lt p (q ∷ live) = (λ e. ground (arith, above-lt p live), omega (arith, above-lt p live))

abbrev fresh_alloc : Allocator
fresh_alloc calls live align size = some (above live)

fresh_alloc-IsFresh : IsFresh fresh_alloc
fresh_alloc-IsFresh calls live align size p got = ground (arith, above-lt p live)

abbrev no_memory : Allocator
no_memory calls live align size = none

-- A list at 500 of one node at 600.
abbrev listed : World
listed = record start_world {
  cell = λ a. if a == 600 then some (node 7 null) else none;
  list = λ a. record { head = 600; tail = 600; size = 1 };
  live = 600 ∷ [];
}

listed-IsList : IsList listed 500 ((600, 7) ∷ [])
listed-IsList = record { header = refl; links = (omega arith, refl, refl, tt) }

ll_append-IsList_example :
    (w' : World) × (run fresh_alloc (ll_append 500 8) listed ≡ done true w')
    × IsList w' 500 (((600, 7) ∷ []) ++ (601, 8) ∷ [])
    × (w'.live ≡ 601 ∷ 600 ∷ [])
unfolding above
ll_append-IsList_example =
    ll_append-IsList fresh_alloc listed 500 ((600, 7) ∷ []) 8 (omega arith) 601 fresh_alloc-IsFresh
      listed-IsList (refl, tt) (omega arith) refl

lock_release-lock_try_acquire_example :
    (u : World) × (run no_memory
        (lock_try_acquire 24 >>= λ won. if won then (lock_release 24 >>= λ _. ret won) else ret won)
        start_world
      ≡ done true u)
    × ((p : Ptr) → u.atom p ≡ start_world.atom p)
lock_release-lock_try_acquire_example =
    lock_release-lock_try_acquire no_memory 24 start_world (omega arith)

lock_check-lock_update_and_release_example :
    run no_memory (lock_update_and_release 24 6 >>= λ _. lock_check 24 8) start_world
    ≡ done true (with_atom start_world 24 6)
lock_check-lock_update_and_release_example =
    lock_check-lock_update_and_release no_memory 24 start_world 6 8 refl (omega arith) (omega arith)
