-- ===== src/SyncExamples/Holding.antt =====
-- Who holds the lock, when one thread takes it or gives it back.
use cs453_2025_project.Prelude.{
  ℕ, ◌≡◌, ◌≢◌, ◌⊎◌, inl, inr, subst, Bool, true, false, Option, none, some, if◌then◌else◌, arith,
  update,
}
use cs453_2025_project.SyncExamples.Outline.{each-update}

-- The lock stays as it is, or thread `i` takes it or gives it back.
abbrev pub Switch : ℕ → Option ℕ → Option ℕ → Type 0
Switch i h h' = (h ≡ h') ⊎ ((h ≡ none) × (h' ≡ some i)) ⊎ ((h ≡ some i) × (h' ≡ none))

-- What a thread knows of the lock: that it is the holder, or that it is not.
abbrev pub HasLock : Bool → Option ℕ → ℕ → Type 0
HasLock b h j = if b then h ≡ some j else h ≢ some j

pub HasLock-Switch :
    (b : Bool) (h h' : Option ℕ) (i j : ℕ) → j ≢ i → Switch i h h' → HasLock b h j → HasLock b h' j
HasLock-Switch b h h' i j ne (inl same) l = subst (λ x. if b then x ≡ some j else x ≢ some j) same l
HasLock-Switch true h h' i j ne (inr (inl (free, taken))) l = absurd (ground arith)
HasLock-Switch false h h' i j ne (inr (inl (free, taken))) l = λ e. absurd (ground arith)
HasLock-Switch true h h' i j ne (inr (inr (mine, given))) l = absurd (ground arith)
HasLock-Switch false h h' i j ne (inr (inr (mine, given))) l = λ e. absurd (ground arith)

pub Locks-update :
    {G : Type 0} (held : G → Bool) (f : ℕ → G) (i : ℕ) (g : G) (h h' : Option ℕ)
    → Switch i h h'
    → HasLock (held g) h' i
    → ((j : ℕ) → HasLock (held (f j)) h j)
    → (j : ℕ) → HasLock (held (update f i g j)) h' j
Locks-update held f i g h h' switch new all =
    each-update (λ j x. HasLock (held x) h j) (λ j x. HasLock (held x) h' j) f i g all new
      (λ j ne. HasLock-Switch (held (f j)) h h' i j ne switch)
