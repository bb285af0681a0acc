-- ===== src/SyncExamples/Procon/Flow.antt =====
-- An invariant for a producer and a consumer over a ring of `size` slots: what is in the ring, and how
-- far the two have got.
pub mod Put
pub mod Take
pub mod End
use cs453_2025_project.Prelude.{
  ℕ, zero, suc, ◌+◌, ◌%◌, ◌≡◌, ◌≢◌, ◌≤◌, ◌<◌, refl, sym, ◌∙◌, ap, Bool, true, false, arith, update,
  ℕ_discrete,
}
use cs453_2025_project.SyncExamples.Procon.{
  Setting, State, update_byte, are_same_from, looks_correct, check_rounds,
}

-- A thread with `n` rounds behind it: waiting, knowing under the lock that it is not its turn, asleep, with the first bytes of the next text copied,
-- with the next byte in a register, or with the counter in a register.
pub data Phase : Type 0 where
  idle : ℕ → Phase
  stuck : ℕ → Phase
  sleeping : ℕ → Phase
  copied : ℕ → ℕ → Phase
  loaded : ℕ → ℕ → ℕ → Phase
  counting : ℕ → ℕ → Phase

abbrev pub rounds : Phase → ℕ
rounds (idle n) = n
rounds (stuck n) = n
rounds (sleeping n) = n
rounds (copied n i) = n
rounds (loaded n i v) = n
rounds (counting n v) = n

-- Whether the thread has seen that it is its turn.
abbrev pub active : Phase → Bool
active (idle n) = false
active (stuck n) = false
active (sleeping n) = false
active _ = true

module _ (t : ℕ → ℕ → ℕ) (r i v : ℕ) where
  pub update_byte_self : update_byte t r i v r i ≡ v
  unfolding update
  update_byte_self = ground arith

  pub update_byte_text : (q j : ℕ) → q ≢ r → update_byte t r i v q j ≡ t q j
  unfolding update
  update_byte_text q j ne = ground arith

  pub update_byte_rest : (q j : ℕ) → j ≢ i → update_byte t r i v q j ≡ t q j
  unfolding update
  update_byte_rest q j ne = ground arith

module _ (set : Setting) where
  -- How many bytes of the next text are copied.
  abbrev pub upto : Phase → ℕ
  upto (idle n) = 0
  upto (stuck n) = 0
  upto (sleeping n) = 0
  upto (copied n i) = i
  upto (loaded n i v) = i
  upto (counting n v) = set.data_text_size

  -- What is in the register.
  abbrev pub Seen : Phase → (ℕ → ℕ) → ℕ → Type 0
  Seen (loaded n i v) text until = v ≡ text i
  Seen (counting n v) text until = v ≡ until
  Seen _ text until = Unit {0}

  pub record Flow (size : ℕ) (s : State) (p c : Phase) : Type 0 where
    pub put_count : s.produced_until ≡ rounds p
    pub take_count : s.consumed_until ≡ rounds c
    pub behind : rounds c ≤ rounds p
    pub ahead : rounds p ≤ rounds c + size
    pub room : active p ≡ true → rounds p < rounds c + size
    pub full : active c ≡ true → rounds c < rounds p
    pub waiting :
        (r i : ℕ)
        → rounds c ≤ r
        → r < rounds p
        → i < set.data_text_size
        → s.buffer (r % size) i ≡ s.produced r i
    pub handed : (r i : ℕ) → r < rounds c → i < set.data_text_size → s.consumed r i ≡ s.produced r i
    pub put_in : (i : ℕ) → i < upto p → s.buffer (rounds p % size) i ≡ s.produced (rounds p) i
    pub taken : (i : ℕ) → i < upto c → s.consumed (rounds c) i ≡ s.produced (rounds c) i
    pub put_seen : Seen p (s.produced (rounds p)) s.produced_until
    pub take_seen : Seen c (s.produced (rounds c)) s.consumed_until

  pub upto-active : (p : Phase) (i : ℕ) → i < upto p → active p ≡ true
  upto-active (idle n) i lt = absurd (omega arith)
  upto-active (stuck n) i lt = absurd (omega arith)
  upto-active (sleeping n) i lt = absurd (omega arith)
  upto-active (copied n j) i lt = refl
  upto-active (loaded n j v) i lt = refl
  upto-active (counting n v) i lt = refl

  pub Seen-text :
      (p : Phase) (text text' : ℕ → ℕ) (until : ℕ)
      → (active p ≡ true → (i : ℕ) → text i ≡ text' i)
      → Seen p text until
      → Seen p text' until
  Seen-text (idle n) text text' until same seen = tt
  Seen-text (stuck n) text text' until same seen = tt
  Seen-text (sleeping n) text text' until same seen = tt
  Seen-text (copied n i) text text' until same seen = tt
  Seen-text (loaded n i v) text text' until same seen = seen ∙ same refl i
  Seen-text (counting n v) text text' until same seen = seen
