-- ===== src/Discipline/Safety.antt =====
-- What holds in every state that threads reach which keep the discipline, in any interleaving.
use cs453_2025_project.Prelude.{
  ℕ, ◌+◌, ◌*◌, ◌%◌, ◌^◌, ◌≡◌, ◌≤◌, ◌<◌, true, false, Option, List, some, arith, update, update_self,
  update_other, subst, ap, ◌∙◌, ℕ_discrete,
}
use cs453_2025_project.Machine.{
  Ptr, World, Allocator, perform, Action, atomic_store, compare_exchange, compare_exchange_weak,
  fetch_add, fetch_sub, clear_atoms, write_word, malloc, memalign, allocate, within, Reply, Prog,
  ret, act, int_mod,
}
use cs453_2025_project.Machine.Threads.{System, Step, access, spurious, Reach, start, later}
use cs453_2025_project.Transaction.{lock_get_from_pointer}
use cs453_2025_project.VersionLock.{version_of}
use cs453_2025_project.Discipline.{
  Scope, Ghost, Elsewhere, Outside, is_lock, Allowed, Told, after, Keeps,
}
use cs453_2025_project.Discipline.Invariant.{
  atoms_after, Answers, perform_atoms, Protocol, Allowed-Protocol,
}

-- Each thread keeps the discipline from here on, with what it knows, and the protocol holds.
pub record Disciplined {A : Type 0} (s : Scope) (Q : A → Ghost → Type 0) (t : System A)
    : Type 0 where
  pub ghost : ℕ → Ghost
  pub runs : (i : ℕ) → Keeps s Q (ghost i) (t.thread i)
  pub protocol : Protocol s t.world.atom ghost

module _ (s : Scope) (apart : is_lock s s.region.global_version ≡ false) where
  abbrev clock : (Ptr → ℕ) → ℕ
  clock atom = atom s.region.global_version

  -- The allocator's blocks overlap no live object: not the region, its locks or its words.
  abbrev pub IsPrivate : Allocator → Type 0
  IsPrivate al =
      (calls : ℕ) (live : List Ptr) (align size p a : ℕ)
      → al calls live align size ≡ some p
      → within p size a ≡ true
      → Elsewhere s a × (s.shared a ≡ false)

  block_told :
      (al : Allocator) (align size : ℕ) (r : Option Ptr) (w w' : World)
      → IsPrivate al
      → some (allocate al align size w) ≡ some (r, w')
      → Outside s size r
  unfolding allocate
  block_told al align size r w w' priv e p a got inside =
      priv w.calls w.live align size p a (ground arith) inside

  told :
      (al : Allocator) (g : Ghost) (a : Action) (r : Reply a) (w w' : World)
      → IsPrivate al
      → perform al a w ≡ some (r, w')
      → Allowed s g a
      → Answers a r w.atom
      → clock w.atom % 2 ≡ 0
      → clock w.atom + 2 < int_mod
      → Told s a r
  unfolding perform
  told al g (fetch_add p n) r w w' priv done ok e even small =
      let e' : r ≡ clock w.atom = e ∙ ap w.atom ok.0 in (omega arith, omega arith)
  told al g (malloc size) r w w' priv done ok e even small = block_told al 16 size r w w' priv done
  told al g (memalign align size) r w w' priv done ok e even small =
      block_told al align size r w w' priv done
  told al g a r w w' priv done ok e even small = tt

  clock_le :
      (g : Ghost) (a : Action) (r : Reply a) (atom : Ptr → ℕ)
      → Allowed s g a
      → clock atom + 2 < int_mod
      → clock (atoms_after a r atom) ≤ clock atom + 2
  unfolding update
  clock_le g (atomic_store p v) r atom ok small = ground arith
  clock_le g (compare_exchange p e d) true atom ok small = ground arith
  clock_le g (compare_exchange p e d) false atom ok small = omega arith
  clock_le g (compare_exchange_weak p e d) true atom ok small = ground arith
  clock_le g (compare_exchange_weak p e d) false atom ok small = omega arith
  clock_le g (fetch_add p n) r atom ok small = ground arith
  clock_le g (fetch_sub p n) r atom ok small = ground arith
  clock_le g (clear_atoms p n) r atom ok small = absurd ok
  clock_le g a r atom ok small = omega arith

  module _ {A : Type 0} (Q : A → Ghost → Type 0) (al : Allocator) (priv : IsPrivate al) where
    runs_after :
        (g : ℕ → Ghost) (thread : ℕ → Prog A) (i : ℕ) (x : Ghost) (m : Prog A)
        → ((j : ℕ) → Keeps s Q (g j) (thread j))
        → Keeps s Q x m
        → (j : ℕ) → Keeps s Q (update g i x j) (update thread i m j)
    runs_after g thread i x m runs new j = elim (ℕ_discrete j i) [
      | yes same ↦ rw (same, update_self g i x, update_self thread i m) new
      | no other ↦ rw (update_other g i j x other, update_other thread i j m other) (runs j)
    ]

    Step-Disciplined :
        (t u : System A)
        → Disciplined s Q t
        → Step al t u
        → clock t.world.atom + 2 < int_mod
        → Disciplined s Q u × (clock u.world.atom ≤ clock t.world.atom + 2)
    Step-Disciplined t u d (access i a k r w e p) small =
        let keeps : Keeps s Q (d.ghost i) (act a k) = subst (Keeps s Q (d.ghost i)) e (d.runs i) in
        let (atoms, answer) = perform_atoms al a r t.world w p in
        let heard = told al (d.ghost i) a r t.world w priv p keeps.0 answer d.protocol.even small in
        let inv =
          Allowed-Protocol s apart t.world.atom d.ghost i d.protocol a r keeps.0 answer heard in
        (
          record {
            ghost = update d.ghost i (after s (d.ghost i) a r);
            runs = runs_after d.ghost t.thread i _ (k r) d.runs (keeps.1 r heard);
            protocol = rw atoms inv;
          },
          rw atoms (clock_le (d.ghost i) a r t.world.atom keeps.0 small),
        )
    Step-Disciplined t u d (spurious i p e x k h) small =
        let keeps : Keeps s Q (d.ghost i) (act (compare_exchange_weak p e x) k) =
          subst (Keeps s Q (d.ghost i)) h (d.runs i) in
        let inv =
          Allowed-Protocol s apart t.world.atom d.ghost i d.protocol (compare_exchange_weak p e x)
            false keeps.0 tt tt in
        (
          record {
            ghost = update d.ghost i (d.ghost i);
            runs = runs_after d.ghost t.thread i _ (k false) d.runs (keeps.1 false tt);
            protocol = inv;
          },
          omega arith,
        )

    -- While the global version cannot have wrapped, every state reached is disciplined.
    pub Reach-Disciplined :
        {t : System A} {n : ℕ} {u : System A}
        → Disciplined s Q t
        → clock t.world.atom + 2 * n < int_mod
        → Reach al t n u
        → Disciplined s Q u × (clock u.world.atom ≤ clock t.world.atom + 2 * n)
    Reach-Disciplined d small start = (d, omega arith)
    Reach-Disciplined d small (later {n = m} {t = v} {u = u} reach step) =
        let (d', low) = Reach-Disciplined d (omega arith) reach in
        let (d'', next) = Step-Disciplined v u d' step (omega arith) in (d'', omega arith)

    module _ {n : ℕ} {t u : System A} (d : Disciplined s Q t)
        (small : clock t.world.atom + 2 * n < int_mod) (reach : Reach al t n u) where
      -- Where a thread is about to write a shared word, the word's lock is taken, and no other thread
      -- is about to write a word under the same lock.
      pub exclusive_write :
          (i j a b v x : ℕ) (k : Reply (write_word a v) → Prog A)
          (l : Reply (write_word b x) → Prog A)
          → u.thread i ≡ act (write_word a v) k
          → u.thread j ≡ act (write_word b x) l
          → s.shared a ≡ true
          → s.shared b ≡ true
          → lock_get_from_pointer s.region a ≡ lock_get_from_pointer s.region b
          → (i ≡ j) × (u.world.atom (lock_get_from_pointer s.region a) % 2 ≡ 1)
      exclusive_write i j a b v x k l ei ej sa sb same =
          let (d', _) = Reach-Disciplined d small reach in
          let ki : Keeps s Q (d'.ghost i) (act (write_word a v) k) =
            subst (Keeps s Q (d'.ghost i)) ei (d'.runs i) in
          let kj : Keeps s Q (d'.ghost j) (act (write_word b x) l) =
            subst (Keeps s Q (d'.ghost j)) ej (d'.runs j) in
          let oi = ki.0 sa in
          let oj : (d'.ghost j).own (lock_get_from_pointer s.region a) ≡ true = rw same (kj.0 sb) in
          (d'.protocol.alone i j _ oi oj, (d'.protocol.held i _ oi).1)

      -- In the order in which the code compares versions, as signed numbers.
      pub versions_in_order :
          clock t.world.atom + 2 * n < 2 ^ 31
          → (p : ℕ) → is_lock s p ≡ true
          → version_of (u.world.atom p) ≤ version_of (clock u.world.atom)
      unfolding version_of
      versions_in_order few p lock =
          let (d', low) = Reach-Disciplined d small reach in
          omega (arith, d'.protocol.behind p lock, low)

      -- When all threads have ended, and a result means that no lock is owned, every lock is free.
      pub all_released :
          ((a : A) (g : Ghost) → Q a g → (p : ℕ) → g.own p ≡ false)
          → ((i : ℕ) → (a : A) × (u.thread i ≡ ret a))
          → (p : ℕ) → is_lock s p ≡ true
          → u.world.atom p % 2 ≡ 0
      all_released none_owned ended p lock = elim (ℕ_discrete (u.world.atom p % 2) 1) [
        | no even ↦ omega arith
        | yes odd ↦
            let (d', _) = Reach-Disciplined d small reach in
            let (i, owned) = d'.protocol.owner p lock odd in
            let (a, e) = ended i in
            let q : Q a (d'.ghost i) = subst (Keeps s Q (d'.ghost i)) e (d'.runs i) in
            let free = none_owned a (d'.ghost i) q p in absurd (ground arith)
      ]
