-- ===== src/Tests/Segments.antt =====
-- The reference transactional memory (reference/tm.c) at concrete inputs.
use cs453_2025_project.Prelude.{◌≡◌, refl, if◌then◌else◌, ◌==◌, [], ◌∷◌, arith}
use cs453_2025_project.Machine.{World, ret}
use cs453_2025_project.Machine.Run.{run, done}
use cs453_2025_project.Reference.{Rwlock, Region, tm_destroy}
use cs453_2025_project.Reference.Destroy.{Segments, SameBlocks, times, tm_destroy-Segments}
use cs453_2025_project.Tests.World.{start_world, bump}

-- Every call succeeds.
abbrev willing : Rwlock
willing = record {
  init = λ lock. ret 0;
  destroy = λ lock. ret 0;
  wrlock = λ lock. ret 0;
  rdlock = λ lock. ret 0;
  unlock = λ lock. ret 0;
}

abbrev region : Region
region = record { address = 100; start = 1000; size = 64; align = 8 }

-- Two segments, at 3000 and 2000, the second allocated first.
abbrev chained : World
chained = record start_world {
  word = λ a. if a == 164 then 3000 else (if a == 3008 then 2000 else 0);
  live = 7 ∷ 2000 ∷ 100 ∷ 3000 ∷ 1000 ∷ [];
}

chained-Segments : Segments 100 chained.word 3000 (3000 ∷ 2000 ∷ [])
chained-Segments = (refl, omega arith, omega arith, (refl, omega arith, omega arith, refl))

chained-SameBlocks : SameBlocks chained.live (3000 ∷ 2000 ∷ 1000 ∷ 100 ∷ 7 ∷ [])
unfolding times
chained-SameBlocks q = omega arith

tm_destroy-Segments_example :
    (w' : World) × (run bump (tm_destroy willing 3 region) chained ≡ done tt w')
    × SameBlocks w'.live (7 ∷ [])
tm_destroy-Segments_example =
    tm_destroy-Segments bump willing (λ lock w. refl) region (7 ∷ []) (3000 ∷ 2000 ∷ []) chained
      (omega arith) (omega arith) chained-Segments chained-SameBlocks
