-- ===== src/SyncExamples/Election/Rounds.antt =====
-- An invariant for elections: where the rounds stand, whoever is about to act.
pub mod Steps
use cs453_2025_project.Prelude.{
  ℕ, zero, suc, ◌+◌, ◌%◌, ◌^◌, ◌≡◌, ◌≢◌, ◌<◌, ◌⊎◌, inl, inr, refl, sym, ◌∙◌, ap, subst, Bool,
  Option, some, arith, update, update_self, update_other, ℕ_discrete,
}
use cs453_2025_project.SyncExamples.Outline.{each-update}
use cs453_2025_project.SyncExamples.Holding.{Switch, HasLock, Locks-update}
use cs453_2025_project.SyncExamples.Election.{
  State, set_leader, count_leader, looks_correct, check_rounds,
}

-- A thread with `n` rounds behind it: outside the lock, inside, inside and knowing that the next
-- round has no leader, or leader of the next round and not yet counted.
pub data Local : Type 0 where
  out : ℕ → Local
  inside : ℕ → Local
  vacant : ℕ → Local
  won : ℕ → Local

abbrev pub past : Local → ℕ
past (out n) = n
past (inside n) = n
past (vacant n) = n
past (won n) = n

pub out-won : {n m : ℕ} → out n ≡ won m → ⊥
out-won e = cc

pub inside-won : {n m : ℕ} → inside n ≡ won m → ⊥
inside-won e = cc

pub vacant-won : {n m : ℕ} → vacant n ≡ won m → ⊥
vacant-won e = cc

abbrev pub Fits : State → Option ℕ → ℕ → Local → Type 0
Fits s h i (vacant n) = (h ≡ some i) × (s.leader n ≡ 0)
Fits s h i (won n) = (s.leader n ≡ i + 1) × (s.nb_leaders n ≡ 0)
Fits s h i _ = Unit {0}

abbrev pub IsWon : Local → ℕ → Type 0
IsWon g q = g ≡ won q

-- A round has no leader, or one that is counted, or one that is about to be counted.
abbrev pub Slot : State → (ℕ → Local) → ℕ → Type 0
Slot s f q =
    ((s.leader q ≡ 0) × (s.nb_leaders q ≡ 0))
    ⊎ ((s.leader q ≢ 0) × (s.nb_leaders q ≡ 1))
    ⊎ ((i : ℕ) × IsWon (f i) q)

-- `holds` tells where a thread has the lock.
pub record Rounds (holds : Local → Bool) (s : State) (h : Option ℕ) (f : ℕ → Local) : Type 0 where
  pub slot : (q : ℕ) → Slot s f q
  pub passed : (i q : ℕ) → q < past (f i) → s.leader q ≢ 0
  pub fits : (i : ℕ) → Fits s h i (f i)
  pub lock : (i : ℕ) → HasLock (holds (f i)) h i

-- `main` finds every round counted once.
pub check_rounds_lem :
    (n r : ℕ) (nb : ℕ → ℕ) → ((q : ℕ) → q < r + n → nb q ≡ 1) → check_rounds n r nb ≡ looks_correct
unfolding check_rounds
check_rounds_lem zero r nb once = refl
check_rounds_lem (suc n) r nb once =
    ground
      (arith, once r (omega arith), check_rounds_lem n (r + 1) nb (λ q lt. once q (omega arith)))

pub IsWon-past : (g : Local) (q : ℕ) → IsWon g q → past g ≡ q
IsWon-past g q e = ap past e

module _ (s : State) (f : ℕ → Local) (i : ℕ) (g : Local) where
  -- A thread goes on without a write, from where it has not won.
  pub Slot-kept : (q : ℕ) → ((n : ℕ) → f i ≢ won n) → Slot s f q → Slot s (update f i g) q
  Slot-kept q not_won (inl e) = inl e
  Slot-kept q not_won (inr (inl e)) = inr (inl e)
  Slot-kept q not_won (inr (inr (j, w))) =
      inr (inr (j, update_other f i j g (λ e. not_won q (subst (λ k. f k ≡ won q) e w)) ∙ w))

  -- It makes itself the leader of round `n`.
  pub Slot-led :
      (n q : ℕ)
      → g ≡ won n
      → ((m : ℕ) → f i ≢ won m)
      → Slot s f q
      → Slot (set_leader n (i + 1) s) (update f i g) q
  Slot-led n q e not_won slot = elim (ℕ_discrete q n) [
    | yes same ↦ inr (inr (i, update_self f i g ∙ e ∙ ap won (sym same)))
    | no other ↦ rw (update_other s.leader n q (i + 1) other) (Slot-kept q not_won slot)
  ]

  -- It counts itself for round `n`.
  pub Slot-counted :
      (n q : ℕ)
      → f i ≡ won n
      → s.leader n ≡ i + 1
      → s.nb_leaders n ≡ 0
      → Slot s f q
      → Slot (count_leader n s) (update f i g) q
  Slot-counted n q e mine none_yet slot = elim (ℕ_discrete q n) [
    | yes same ↦ inr (
        inl (
          rw same (omega arith),
          rw (same, update_self s.nb_leaders n ((s.nb_leaders n + 1) % 2 ^ 32)) (omega arith),
        ))
    | no other ↦
        rw (update_other s.nb_leaders n q ((s.nb_leaders n + 1) % 2 ^ 32) other) (elim slot [
          | inl free ↦ inl free
          | inr (inl counted) ↦ inr (inl counted)
          | inr (inr (j, w)) ↦ inr (
              inr (
                j,
                update_other f i j g
                      (λ same. other (sym (ap past (sym e ∙ subst (λ k. f k ≡ won q) same w))))
                    ∙ w,
              ))
        ])
  ]

pub Fits-Switch :
    (s : State) (h h' : Option ℕ) (i j : ℕ) (g : Local)
    → j ≢ i
    → Switch i h h'
    → Fits s h j g
    → Fits s h' j g
Fits-Switch s h h' i j (out n) ne t fits = tt
Fits-Switch s h h' i j (inside n) ne t fits = tt
Fits-Switch s h h' i j (won n) ne t fits = fits
Fits-Switch s h h' i j (vacant n) ne t fits = (
  elim t [
    | inl same ↦ sym same ∙ fits.0
    | inr (inl (free, taken)) ↦ absurd (ground (arith, fits.0))
    | inr (inr (mine, given)) ↦ absurd (ground (arith, fits.0))
  ],
  fits.1,
)

-- A write to round `n` by thread `i` leaves the knowledge of the others as it was.
pub Fits-led :
    (s : State) (h : Option ℕ) (i j n : ℕ) (g : Local)
    → s.leader n ≡ 0
    → h ≢ some j
    → Fits s h j g
    → Fits (set_leader n (i + 1) s) h j g
Fits-led s h i j n (out m) free idle fits = tt
Fits-led s h i j n (inside m) free idle fits = tt
Fits-led s h i j n (vacant m) free idle fits = absurd (idle fits.0)
Fits-led s h i j n (won m) free idle fits = (
  update_other s.leader n m (i + 1)
        (λ e. absurd (let here : s.leader m ≡ 0 = rw e free in omega (arith, fits.0)))
      ∙ fits.0,
  fits.1,
)

pub Fits-counted :
    (s : State) (h : Option ℕ) (i j n : ℕ) (g : Local)
    → j ≢ i
    → s.leader n ≡ i + 1
    → Fits s h j g
    → Fits (count_leader n s) h j g
Fits-counted s h i j n (out m) ne mine fits = tt
Fits-counted s h i j n (inside m) ne mine fits = tt
Fits-counted s h i j n (vacant m) ne mine fits = fits
Fits-counted s h i j n (won m) ne mine fits = (
  fits.0,
  update_other s.nb_leaders n m _
        (λ e. absurd (let here : s.leader m ≡ i + 1 = rw e mine in omega (arith, fits.0, ne)))
      ∙ fits.1,
)
