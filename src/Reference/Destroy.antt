-- ===== src/Reference/Destroy.antt =====
-- The loop of `tm_destroy` over the segments.
use cs453_2025_project.Prelude.{
  ℕ, suc, ◌+◌, ◌<◌, ◌==◌, if◌then◌else◌, ℕ_discrete, ◌≡◌, ◌≢◌, refl, ◌∙◌, List, [], ◌∷◌, ◌++◌, some,
  none, arith, length, update, update_self, update_other, ==_self,
}
use cs453_2025_project.Machine.{Ptr, ◌>>◌, null, World, Allocator, perform, remove}
use cs453_2025_project.Machine.Run.{run, done, run-bind_done}
use cs453_2025_project.Reference.{
  Region, Rwlock, free_block, shared_lock_cleanup, tm_destroy, allocs, next, free_allocs,
}

-- From `first` on, the `next` pointers lead through these nodes to NULL; no node's pointer is the
-- field `allocs` of the region.
abbrev pub Segments : Ptr → (Ptr → ℕ) → Ptr → List Ptr → Type 0
Segments region f first [] = first ≡ null
Segments region f first (sn ∷ sns) =
    (first ≡ sn) × (sn ≢ null) × (next sn ≢ allocs region) × Segments region f (f (next sn)) sns

Segments-update :
    (region : Ptr) (f : Ptr → ℕ) (first v : Ptr) (sns : List Ptr)
    → Segments region f first sns
    → Segments region (update f (allocs region) v) first sns
Segments-update region f first v [] h = h
Segments-update region f first v (sn ∷ sns) h = (
  h.0,
  h.1,
  h.2,
  rw (update_other f (allocs region) (next sn) v h.2)
      (Segments-update region f (f (next sn)) v sns h.3),
)

-- How often a block is in a list.
unfoldable pub times : Ptr → List Ptr → ℕ
times q [] = 0
times q (p ∷ l) = times q l + (if q == p then 1 else 0)

-- The same blocks, in any order.
abbrev pub SameBlocks : List Ptr → List Ptr → Type 0
SameBlocks l m = (q : Ptr) → times q l ≡ times q m

remove-times :
    (p : Ptr) (l : List Ptr)
    → 0 < times p l
    → (l' : List Ptr) × (remove p l ≡ some l')
      × ((q : Ptr) → times q l ≡ times q l' + (if q == p then 1 else 0))
unfolding remove times
remove-times p [] some_p = absurd (omega arith)
remove-times p (r ∷ l) some_p = elim (ℕ_discrete p r) [
  | yes same ↦ (l, rw (same, ==_self r) refl, λ q. rw same refl)
  | no other ↦
      let (l', e, counts) = remove-times p l (ground arith) in
      (r ∷ l', ground (arith, e), λ q. omega (arith, counts q))
]

-- A block that is live can be freed, and leaves the others.
remove-SameBlocks :
    (p : Ptr) (live ks : List Ptr)
    → SameBlocks live (p ∷ ks)
    → (l : List Ptr) × (remove p live ≡ some l) × SameBlocks l ks
unfolding times
remove-SameBlocks p live ks same =
    let (l, e, counts) = remove-times p live (omega (arith, same p, one p)) in
    (l, e, λ q. omega (arith, same q, counts q))
  where
    one : (p : Ptr) → ◌≡◌ {A = ℕ} (if p == p then 1 else 0) 1
    one p = rw (==_self p) refl

module _ (al : Allocator) (region : Ptr) (rest : List Ptr) where
  -- One round of the loop with segments left.
  abbrev round : World → Ptr → List Ptr → World
  round w sn live = record w {
    live = live;
    cell = update w.cell sn none;
    word = update w.word (allocs region) (w.word (next sn));
  }

  run-free_allocs_next :
      (w : World) (live : List Ptr) (rounds : ℕ)
      → w.word (allocs region) ≢ null
      → remove (w.word (allocs region)) w.live ≡ some live
      → run al (free_allocs (suc rounds) region) w
        ≡ run al (free_allocs rounds region) (round w (w.word (allocs region)) live)
  unfolding free_allocs perform
  run-free_allocs_next w live rounds some_sn freed = ground (arith, freed)

  -- With the segments among the live blocks, one round more than there are segments is enough; each is
  -- freed once, no other block is, and `allocs` is NULL.
  pub free_allocs-Segments :
      (sns : List Ptr) (w : World)
      → Segments region w.word (w.word (allocs region)) sns
      → SameBlocks w.live (sns ++ rest)
      → (w' : World) × (run al (free_allocs (suc (length sns)) region) w ≡ done tt w')
        × SameBlocks w'.live rest
        × (w'.word (allocs region) ≡ null)
  unfolding free_allocs perform
  free_allocs-Segments [] w h live = (w, rw h refl, live, h)
  free_allocs-Segments (sn ∷ sns) w h live =
      let first = w.word (allocs region) in
      let (l, freed, left) = remove-SameBlocks sn w.live (sns ++ rest) live in
      let w1 = round w first l in
      let tail : Segments region w.word (w.word (next first)) sns = rw h.0 h.3 in
      let here : Segments region w1.word (w1.word (allocs region)) sns =
        rw (update_self w.word (allocs region) (w.word (next first)))
          (Segments-update region w.word (w.word (next first)) (w.word (next first)) sns tail) in
      let (w', rest_run, others, empty) = free_allocs-Segments sns w1 here left in
      (
        w',
        run-free_allocs_next w l (suc (length sns)) (rw h.0 h.1) (rw h.0 freed) ∙ rest_run,
        others,
        empty,
      )

-- `pthread_rwlock_destroy` succeeds and touches nothing that the program uses.
abbrev pub Cleans : Allocator → Rwlock → Type 0
Cleans al rwlock = (lock : Ptr) (w : World) → run al (rwlock.destroy lock) w ≡ done 0 w

module _ (al : Allocator) (rwlock : Rwlock) (cleans : Cleans al rwlock) (r : Region)
    (rest : List Ptr) where
  run-tm_destroy_end :
      (w : World)
      → r.start ≢ null
      → r.address ≢ null
      → SameBlocks w.live (r.start ∷ r.address ∷ rest)
      → (w' : World) × (run al
            (free_block r.start >> (shared_lock_cleanup rwlock r.address >> free_block r.address))
            w
          ≡ done tt w')
        × SameBlocks w'.live rest
  unfolding perform shared_lock_cleanup
  run-tm_destroy_end w some_start some_address live =
      let (l1, e1, left1) = remove-SameBlocks r.start w.live (r.address ∷ rest) live in
      let (l2, e2, left2) = remove-SameBlocks r.address l1 rest left1 in
      let w1 = record w { live = l1; cell = update w.cell r.start none } in
      let w2 = record w { live = l2; cell = update w1.cell r.address none } in
      let freed : run al (free_block r.start) w ≡ done tt w1 = ground (arith, e1) in
      let cleaned : run al (shared_lock_cleanup rwlock r.address) w1 ≡ done tt w1 =
        run-bind_done al (rwlock.destroy r.address) _ w1 (cleans r.address w1) in
      let last : run al (free_block r.address) w1 ≡ done tt w2 = ground (arith, e2) in
      (
        w2,
        run-bind_done al (free_block r.start)
              (λ _. shared_lock_cleanup rwlock r.address >> free_block r.address) w freed
            ∙ run-bind_done al (shared_lock_cleanup rwlock r.address) (λ _. free_block r.address) w1
                cleaned
            ∙ last,
        left2,
      )

  -- `tm_destroy` of a region with no running transaction, whose segments, memory and struct are live,
  -- each once more than in `rest`, in whatever order they were allocated, ends within one round more
  -- than there are segments, and leaves the blocks of `rest`, so it frees each of them once and
  -- nothing else; `pthread_rwlock_destroy` is taken to change nothing.
  pub tm_destroy-Segments :
      (sns : List Ptr) (w : World)
      → r.start ≢ null
      → r.address ≢ null
      → Segments r.address w.word (w.word (allocs r.address)) sns
      → SameBlocks w.live (sns ++ (r.start ∷ r.address ∷ rest))
      → (w' : World) × (run al (tm_destroy rwlock (suc (length sns)) r) w ≡ done tt w')
        × SameBlocks w'.live rest
  unfolding tm_destroy
  tm_destroy-Segments sns w some_start some_address h live =
      let (w1, loop, left, empty) =
        free_allocs-Segments al r.address (r.start ∷ r.address ∷ rest) sns w h live in
      let (w2, end, freed) = run-tm_destroy_end w1 some_start some_address left in
      (w2, run-bind_done al (free_allocs (suc (length sns)) r.address) _ w loop ∙ end, freed)
