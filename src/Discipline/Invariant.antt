-- ===== src/Discipline/Invariant.antt =====
-- What the locks, the global version and the knowledge of all threads satisfy together, and that an
-- allowed access keeps it.
use cs453_2025_project.Prelude.{
  ℕ, ◌+◌, ◌-◌, ◌*◌, ◌/◌, ◌%◌, ◌≡◌, ◌≤◌, ◌<◌, inl, inr, refl, true, false, if◌then◌else◌, some,
  arith, update, fun_ext, ap, ◌∙◌, ◌==◌, ℕ_discrete, ==→eq, Bool-cases,
}
use cs453_2025_project.Machine.{
  allocate, Ptr, World, Allocator, perform, Action, atomic_load, atomic_store, compare_exchange,
  compare_exchange_weak, fetch_add, fetch_sub, clear_atoms, free, Reply, int_mod, within,
}
use cs453_2025_project.Discipline.{Scope, Ghost, Elsewhere, is_lock, Allowed, Told, after}

-- The atomic integers after an access.
abbrev pub atoms_after : (a : Action) → Reply a → (Ptr → ℕ) → Ptr → ℕ
atoms_after (atomic_store p v) r atom = update atom p v
atoms_after (compare_exchange p e d) true atom = update atom p d
atoms_after (compare_exchange_weak p e d) true atom = update atom p d
atoms_after (fetch_add p n) r atom = update atom p ((atom p + n) % int_mod)
atoms_after (fetch_sub p n) r atom = update atom p ((atom p + int_mod - n) % int_mod)
atoms_after (clear_atoms p n) r atom = λ a. if within p n a then 0 else atom a
atoms_after _ r atom = atom

-- What the reply says of the atomic integers before.
abbrev pub Answers : (a : Action) → Reply a → (Ptr → ℕ) → Type 0
Answers (compare_exchange p e d) true atom = atom p ≡ e
Answers (fetch_add p n) r atom = r ≡ atom p
Answers _ r atom = Unit {0}

pub perform_atoms :
    (al : Allocator) (a : Action) (r : Reply a) (w w' : World)
    → perform al a w ≡ some (r, w')
    → (w'.atom ≡ atoms_after a r w.atom) × Answers a r w.atom
unfolding perform allocate
perform_atoms al (compare_exchange p e d) true w w' h = ground arith
perform_atoms al (compare_exchange p e d) false w w' h = ground arith
perform_atoms al (compare_exchange_weak p e d) true w w' h = ground arith
perform_atoms al (compare_exchange_weak p e d) false w w' h = ground arith
perform_atoms al (atomic_load p) r w w' h = ground arith
perform_atoms al (atomic_store p v) r w w' h = ground arith
perform_atoms al (fetch_add p n) r w w' h = ground arith
perform_atoms al (fetch_sub p n) r w w' h = ground arith
perform_atoms al (clear_atoms p n) r w w' h = ground arith
perform_atoms al (free p) r w w' h = ground arith
perform_atoms al a r w w' h = ground arith

-- The protocol: a lock has one owner at most, and is odd while it has one; no thread knows a value
-- that the global version has not reached; the global version is even, and no lock is ahead of it; a
-- lock that is odd has an owner.
pub record Protocol (s : Scope) (atom : Ptr → ℕ) (g : ℕ → Ghost) : Type 0 where
  pub alone : (i j p : ℕ) → (g i).own p ≡ true → (g j).own p ≡ true → i ≡ j
  pub held : (i p : ℕ) → (g i).own p ≡ true → (is_lock s p ≡ true) × (atom p % 2 ≡ 1)
  pub known : (i : ℕ) → (g i).bound ≤ atom s.region.global_version
  pub even : atom s.region.global_version % 2 ≡ 0
  pub owner : (p : ℕ) → is_lock s p ≡ true → atom p % 2 ≡ 1 → (i : ℕ) × ((g i).own p ≡ true)
  pub behind : (p : ℕ) → is_lock s p ≡ true → atom p / 2 * 2 ≤ atom s.region.global_version

update_same {ℓ} : {A : Type ℓ} (f : ℕ → A) (i : ℕ) → update f i (f i) ≡ f
unfolding update
update_same f i = fun_ext (λ j. elim (Bool-cases (j == i)) [
  | inl e ↦ rw (==→eq j i e) (ground arith)
  | inr e ↦ rw e refl
])

module _ (s : Scope) (apart : is_lock s s.region.global_version ≡ false) (atom : Ptr → ℕ)
    (g : ℕ → Ghost) (i : ℕ) (inv : Protocol s atom g) where
  open inv use {alone, held, known, even, owner, behind}

  -- A change of an integer that is neither a lock nor the global version.
  Elsewhere-Protocol : (p v : ℕ) → Elsewhere s p → Protocol s (update atom p v) g
  unfolding update
  Elsewhere-Protocol p v h = record {
    alone = alone;
    held = λ j q o. ground (arith, held j q);
    known = λ j. ground (arith, known j);
    even = ground arith;
    owner = λ q l odd. let (j, o) = owner q l (ground arith) in (j, o);
    behind = λ q l. ground (arith, behind q);
  }

  -- A lock that no thread owns is taken.
  taken-Protocol :
      (p e : ℕ)
      → is_lock s p ≡ true
      → e % 2 ≡ 0
      → atom p ≡ e
      → Protocol s
          (update atom p (e + 1))
          (update g i (record (g i) { own = update (g i).own p true }))
  unfolding update
  taken-Protocol p e lock even_e here = record {
    alone =
        λ j k q oj ok. ground (arith, alone j k q, alone i k q, alone j i q, held j q, held k q);
    held = λ j q o. ground (arith, held j q, held i q);
    known = λ j. ground (arith, known j, known i);
    even = ground arith;
    owner = λ q l odd. elim (ℕ_discrete q p) [
      | yes same ↦ (i, ground arith)
      | no other ↦ let (j, o) = owner q l (ground arith) in (j, ground arith)
    ];
    behind = λ q l. ground (arith, behind q);
  }

  -- An owned lock is written with an even value not ahead of the global version, and given up.
  released-Protocol :
      (p v : ℕ)
      → is_lock s p ≡ true
      → (g i).own p ≡ true
      → v % 2 ≡ 0
      → v / 2 * 2 ≤ atom s.region.global_version
      → Protocol s (update atom p v) (update g i (record (g i) { own = update (g i).own p false }))
  unfolding update
  released-Protocol p v lock owned even_v low = record {
    alone = λ j k q oj ok. ground (arith, alone j k q, alone i k q, alone j i q);
    held = λ j q o. ground (arith, held j q, held i q, alone i j p);
    known = λ j. ground (arith, known j, known i);
    even = ground arith;
    owner = λ q l odd. elim (ℕ_discrete q p) [
      | yes same ↦ absurd (ground arith)
      | no other ↦ let (j, o) = owner q l (ground arith) in (j, ground arith)
    ];
    behind = λ q l. ground (arith, behind q);
  }

  -- The global version goes up by two.
  counted-Protocol :
      (r : ℕ)
      → r ≡ atom s.region.global_version
      → r + 2 < int_mod
      → Protocol s
          (update atom s.region.global_version ((atom s.region.global_version + 2) % int_mod))
          (update g i (record (g i) { bound = r + 2 }))
  unfolding update
  counted-Protocol r e small = record {
    alone = λ j k q oj ok. ground (arith, alone j k q, alone i k q, alone j i q);
    held = λ j q o. ground (arith, held j q, held i q);
    known = λ j. ground (arith, known j, known i);
    even = ground arith;
    owner = λ q l odd. let (j, o) = owner q l (ground arith) in (j, ground arith);
    behind = λ q l. ground (arith, behind q);
  }

  -- An allowed access, with the reply that it gets, keeps the protocol.
  pub Allowed-Protocol :
      (a : Action) (r : Reply a)
      → Allowed s (g i) a
      → Answers a r atom
      → Told s a r
      → Protocol s (atoms_after a r atom) (update g i (after s (g i) a r))
  Allowed-Protocol (atomic_store p v) r (inl (lock, owned, even_v, low)) answer told =
      rw lock (released-Protocol p v lock owned even_v (omega (arith, known i)))
  Allowed-Protocol (atomic_store p v) r (inr out) answer told =
      rw (out.0, update_same g i) (Elsewhere-Protocol p v out)
  Allowed-Protocol (fetch_sub p n) r (inl (lock, owned, one)) answer told =
      rw (lock, one)
        (released-Protocol p _ lock owned (omega (arith, (held i p owned).1))
          (omega (arith, behind p lock, (held i p owned).1)))
  Allowed-Protocol (fetch_sub p n) r (inr out) answer told =
      rw (out.0, update_same g i) (Elsewhere-Protocol p _ out)
  Allowed-Protocol (compare_exchange p e d) true (lock, even_e, next) answer told =
      rw next (taken-Protocol p e lock even_e answer)
  Allowed-Protocol (compare_exchange p e d) false ok answer told = rw (update_same g i) inv
  Allowed-Protocol (compare_exchange_weak p e d) true out answer told =
      rw (update_same g i) (Elsewhere-Protocol p d out)
  Allowed-Protocol (compare_exchange_weak p e d) false out answer told = rw (update_same g i) inv
  Allowed-Protocol (fetch_add p n) r (clock, two) answer told =
      rw (clock, two) (counted-Protocol r (answer ∙ ap atom clock) told.1)
  Allowed-Protocol (clear_atoms p n) r ok answer told = absurd ok
  Allowed-Protocol a r ok answer told = rw (update_same g i) inv
