-- ===== src/Machine/Run.antt =====
-- A program run by one thread alone, from its first access to its result.
use cs453_2025_project.Prelude.{
  ℕ, ◌+◌, ◌∷◌, ◌≡◌, refl, Bool, true, false, Option, none, some, if◌then◌else◌,
}
use cs453_2025_project.Machine.{
  Ptr, allocate, World, Allocator, perform, Prog, ret, act, fault, out_of_fuel, ◌>>=◌,
}

pub data Outcome (A : Type 0) : Type 0 where
  done : A → World → Outcome A
  crashed : Outcome A
  spinning : Outcome A

abbrev pub and_then : {A B : Type 0} → Outcome A → (A → World → Outcome B) → Outcome B
and_then (done a w) f = f a w
and_then crashed f = crashed
and_then spinning f = spinning

-- What follows the reply to an access.
abbrev pub answer : {R A : Type 0} → Option (R × World) → (R → World → Outcome A) → Outcome A
answer none f = crashed
answer (some (r, w)) f = f r w

answer-and_then :
    {R A B : Type 0} (o : Option (R × World)) (g : R → World → Outcome B)
    (h : R → World → Outcome A) (f : A → World → Outcome B)
    → ((r : R) (w : World) → g r w ≡ and_then (h r w) f)
    → answer o g ≡ and_then (answer o h) f
answer-and_then none g h f e = refl
answer-and_then (some (r, w)) g h f e = e r w

module _ (al : Allocator) where
  abbrev pub run : {A : Type 0} → Prog A → World → Outcome A
  run (ret a) w = done a w
  run (act a k) w = answer (perform al a w) (λ r w'. run (k r) w')
  run fault w = crashed
  run out_of_fuel w = spinning

  pub run-bind :
      {A B : Type 0} (m : Prog A) (f : A → Prog B) (w : World)
      → run (m >>= f) w ≡ and_then (run m w) (λ a w'. run (f a) w')
  run-bind (ret a) f w = refl
  run-bind (act a k) f w = answer-and_then (perform al a w) _ _ _ (λ r w'. run-bind (k r) f w')
  run-bind fault f w = refl
  run-bind out_of_fuel f w = refl

  -- The rule for a sequence whose first part is known to end.
  pub run-bind_done :
      {A B : Type 0} (m : Prog A) (f : A → Prog B) (w : World) {w' : World} {a : A}
      → run m w ≡ done a w'
      → run (m >>= f) w ≡ run (f a) w'
  run-bind_done m f w e = rw (run-bind m f w, e) refl

  -- A branch whose test is known, with what follows it.
  module _ {A B : Type 0} {b : Bool} (m n : Prog A) (f : A → Prog B) (w : World) where
    pub run-if_true : b ≡ true → run ((if b then m else n) >>= f) w ≡ run (m >>= f) w
    run-if_true e = rw e refl

    pub run-if_false : b ≡ false → run ((if b then m else n) >>= f) w ≡ run (n >>= f) w
    run-if_false e = rw e refl

  -- The answers of malloc and posix_memalign.
  module _ (align size : ℕ) (w : World) where
    pub allocate-some :
        (p : Ptr)
        → al w.calls w.live align size ≡ some p
        → allocate al align size w ≡ (some p, record w { live = p ∷ w.live; calls = w.calls + 1 })
    unfolding allocate
    allocate-some p h = rw (h, allocate) refl
