-- ===== src/Tests/Libraries.antt =====
-- A transactional library for one thread (grading/transactional.hpp), whose ends may fail.
use cs453_2025_project.Prelude.{
  ℕ, ◌+◌, ◌-◌, ◌≡◌, ◌≢◌, ◌≤◌, ◌<◌, inr, refl, ap, subst, Bool, true, false, some, ◌&&◌, ltb, arith,
  update,
}
use cs453_2025_project.Grading.Library.{
  Alloc, success, abort, nomem, TransactionalLibrary, Memory, store, grown, shrunk, Fresh, IsSerial,
  IsSteady,
}

-- What is committed and what the transaction sees, the first address behind all segments, and how
-- many ends are to fail.
pub record Shared : Type 0 where
  pub committed : Memory
  pub seen : Memory
  pub break : ℕ
  pub spoil : ℕ

abbrev limit : ℕ
limit = 400

abbrev ending : Bool → Shared → Bool × Shared
ending true w = (false, record w { seen = w.committed; spoil = w.spoil - 1 })
ending false w = (true, record w { committed = w.seen })

abbrev allocating : Bool → ℕ → Shared → Alloc × Shared
allocating true n w = (nomem, w)
allocating false n w =
    (success w.break, record w { seen = grown w.seen w.break n; break = w.break + n })

abbrev pub single : Bool → TransactionalLibrary
single flaky = record {
  World = Shared;
  Tx = Unit {0};
  tm_begin = λ ro w. (some tt, record w { seen = w.committed });
  tm_end = λ tx w. ending (flaky && ltb 0 w.spoil) w;
  tm_read = λ tx p n w. (some (w.seen.word p), w);
  tm_write = λ tx x n p w. (true, record w { seen = store w.seen p x });
  tm_alloc = λ tx n w. allocating (ltb limit (w.break + n)) n w;
  tm_free = λ tx p w. (true, record w { seen = shrunk w.seen p });
}

-- Every segment stands below the break.
abbrev Bounded : Memory → ℕ → Type 0
Bounded m b = (q k : ℕ) → m.segment q ≡ some k → q + k ≤ b

pub record Holds (w : Shared) (m v : Memory) : Type 0 where
  pub committed_is : w.committed ≡ m
  pub seen_is : w.seen ≡ v
  pub committed_bounded : Bounded m w.break
  pub seen_bounded : Bounded v w.break
  pub positive : 0 < w.break

abbrev pub At : Shared → Memory → Type 0
At w m = (w.committed ≡ m) × Bounded m w.break × (0 < w.break)

some_eq : (a b : ℕ) → some a ≡ some b → a ≡ b
some_eq a b e = cc

grown-Bounded : (v : Memory) (b n : ℕ) → Bounded v b → Bounded (grown v b n) (b + n)
unfolding update
grown-Bounded v b n bounded q k e = ground (arith, bounded q k)

shrunk-Bounded : (v : Memory) (b p : ℕ) → Bounded v b → Bounded (shrunk v p) b
unfolding update
shrunk-Bounded v b p bounded q k e = ground (arith, bounded q k)

ended_well :
    (fails : Bool) (w w' : Shared)
    → ending fails w ≡ (true, w')
    → record w { committed = w.seen } ≡ w'
ended_well true w w' e = absurd cc
ended_well false w w' e = ap (λ r. r.1) e

ended_badly :
    (fails : Bool) (w w' : Shared)
    → ending fails w ≡ (false, w')
    → record w { seen = w.committed; spoil = w.spoil - 1 } ≡ w'
ended_badly true w w' e = ap (λ r. r.1) e
ended_badly false w w' e = absurd cc

allocated :
    (full : Bool) (w w' : Shared) (n p : ℕ)
    → allocating full n w ≡ (success p, w')
    → (w.break ≡ p) × (record w { seen = grown w.seen w.break n; break = w.break + n } ≡ w')
allocated true w w' n p e = absurd cc
allocated false w w' n p e = (cc, ap (λ r. r.1) e)

not_allocated : (full : Bool) (w w' : Shared) (n : ℕ) → allocating full n w ≡ (nomem, w') → w ≡ w'
not_allocated true w w' n e = ap (λ r. r.1) e
not_allocated false w w' n e = absurd cc

not_aborted : (full : Bool) (w w' : Shared) (n : ℕ) → allocating full n w ≡ (abort, w') → ⊥
not_aborted true w w' n e = absurd cc
not_aborted false w w' n e = absurd cc

module _ (flaky : Bool) where
  fresh :
      (w : Shared) (m v : Memory) (n p : ℕ)
      → Holds w m v
      → w.break ≡ p
      → Fresh v p n
        × Holds (record w { seen = grown w.seen w.break n; break = w.break + n }) m (grown v p n)
  fresh w m v n p h e = (
    (
      λ z. absurd (omega (arith, e, z, h.positive)),
      λ q k stands. inr (omega (arith, e, h.seen_bounded q k stands)),
    ),
    record {
      committed_is = h.committed_is;
      seen_is = cc (h.seen_is, e);
      committed_bounded = λ q k stands. omega (arith, h.committed_bounded q k stands);
      seen_bounded =
          subst (λ b. Bounded (grown v b n) (w.break + n)) e
            (grown-Bounded v w.break n h.seen_bounded);
      positive = omega (arith, h.positive);
    },
  )

  pub single-IsSerial : IsSerial (single flaky)
  single-IsSerial = record {
    Idle = At;
    Busy = λ tx w m v. Holds w m v;
    begun = λ ro w w' m tx (is, bounded, positive) e.
        subst (λ u. Holds u m m) (ap (λ r. r.1) e)
          (record {
            committed_is = is;
            seen_is = is;
            committed_bounded = bounded;
            seen_bounded = bounded;
            positive = positive;
          });
    refused = λ ro w w' m idle e. absurd cc;
    committed = λ tx w w' m v h e.
        subst (λ u. At u v) (ended_well (flaky && ltb 0 w.spoil) w w' e)
          (h.seen_is, h.seen_bounded, h.positive);
    not_committed = λ tx w w' m v h e.
        subst (λ u. At u m) (ended_badly (flaky && ltb 0 w.spoil) w w' e)
          (h.committed_is, h.committed_bounded, h.positive);
    was_read =
        λ tx p x w w' m v h e. (cc (e, h.seen_is), subst (λ u. Holds u m v) (ap (λ r. r.1) e) h);
    not_read = λ tx p w w' m v h e. absurd cc;
    was_written = λ tx p x w w' m v h e.
        subst (λ u. Holds u m (store v p x)) (ap (λ r. r.1) e)
          (record {
            committed_is = h.committed_is;
            seen_is = ap (λ u. store u p x) h.seen_is;
            committed_bounded = h.committed_bounded;
            seen_bounded = h.seen_bounded;
            positive = h.positive;
          });
    not_written = λ tx p x w w' m v h e. absurd cc;
    was_allocated = λ tx n p w w' m v h e.
        let (at, now) = allocated (ltb limit (w.break + n)) w w' n p e in
        let (new, holds) = fresh w m v n p h at in
        (new, subst (λ u. Holds u m (grown v p n)) now holds);
    no_memory = λ tx n w w' m v h e.
        subst (λ u. Holds u m v) (not_allocated (ltb limit (w.break + n)) w w' n e) h;
    not_allocated = λ tx n w w' m v h e. absurd (not_aborted (ltb limit (w.break + n)) w w' n e);
    was_freed = λ tx p w w' m v h stands e.
        subst (λ u. Holds u m (shrunk v p)) (ap (λ r. r.1) e)
          (record {
            committed_is = h.committed_is;
            seen_is = ap (λ u. shrunk u p) h.seen_is;
            committed_bounded = h.committed_bounded;
            seen_bounded = shrunk-Bounded v w.break p h.seen_bounded;
            positive = h.positive;
          });
    not_freed = λ tx p w w' m v h stands e. absurd cc;
  }

pub single-Idle :
    (flaky : Bool) (w : Shared)
    → Bounded w.committed w.break
    → 0 < w.break
    → (single-IsSerial flaky).Idle w w.committed
unfolding single-IsSerial
single-Idle flaky w bounded positive = (refl, bounded, positive)

pub single-IsSteady : IsSteady (single false)
single-IsSteady = record {
  begins = λ ro w. (tt, refl);
  ends = λ tx w. refl;
  reads = λ tx p w. (w.seen.word p, refl);
  writes = λ tx x p w. refl;
  allocates = λ tx n w. allocates n w (ltb limit (w.break + n));
  frees = λ tx p w. refl;
}
  where
    allocates : (n : ℕ) (w : Shared) (full : Bool) → (allocating full n w).0 ≢ abort
    allocates n w true e = absurd cc
    allocates n w false e = absurd cc
