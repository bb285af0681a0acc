-- ===== src/SyncExamples/Procon/Flow/End.antt =====
-- The flow of texts before the first step and after the last.
use cs453_2025_project.Prelude.{ℕ, zero, suc, ◌+◌, ◌≡◌, ◌<◌, refl, ap, true, arith}
use cs453_2025_project.SyncExamples.Procon.{
  Setting, State, are_same_from, looks_correct, check_rounds,
}
use cs453_2025_project.SyncExamples.Procon.Flow.{Phase, idle, rounds, Flow}

module _ (set : Setting) where
  -- `main` finds every text handed over.
  are_same_lem :
      (n i : ℕ) (a b : ℕ → ℕ) → ((j : ℕ) → j < i + n → b j ≡ a j) → are_same_from n i a b ≡ true
  unfolding are_same_from
  are_same_lem zero i a b same = refl
  are_same_lem (suc n) i a b same =
      ground
        (arith, same i (omega arith), are_same_lem n (i + 1) a b (λ j lt. same j (omega arith)))

  pub check_rounds_lem :
      (n r : ℕ) (s : State)
      → ((q j : ℕ) → q < r + n → j < set.data_text_size → s.consumed q j ≡ s.produced q j)
      → check_rounds set n r s ≡ looks_correct
  unfolding check_rounds
  check_rounds_lem zero r s same = refl
  check_rounds_lem (suc n) r s same =
      rw
        (are_same_lem set.data_text_size 0 (s.produced r) (s.consumed r)
          (λ j lt. same r j (omega arith) (omega arith)))
        (check_rounds_lem n (r + 1) s (λ q j lt. same q j (omega arith)))

  -- When the consumer has all rounds behind it.
  pub Flow-end :
      (size : ℕ) (s : State) (p c : Phase)
      → c ≡ idle set.runs
      → Flow set size s p c
      → check_rounds set set.runs 0 s ≡ looks_correct
  Flow-end size s p c e d =
      check_rounds_lem set.runs 0 s (λ q j lt few. d.handed q j (omega (arith, ap rounds e)) few)

  -- Before the first step.
  pub Flow-start :
      (size : ℕ) (s : State)
      → s.produced_until ≡ 0
      → s.consumed_until ≡ 0
      → Flow set size s (idle 0) (idle 0)
  Flow-start size s put take = record {
    put_count = put;
    take_count = take;
    behind = omega arith;
    ahead = omega arith;
    room = λ t. absurd (cc);
    full = λ t. absurd (cc);
    waiting = λ r i low high lt. absurd (omega arith);
    handed = λ r i low lt. absurd (omega arith);
    put_in = λ i lt. absurd (omega arith);
    taken = λ i lt. absurd (omega arith);
    put_seen = tt;
    take_seen = tt;
  }
