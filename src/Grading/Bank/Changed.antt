-- ===== src/Grading/Bank/Changed.antt =====
-- What `alloc_tx` of grading/workload.hpp does to a chain of segments: one account more, or one less.
use cs453_2025_project.Prelude.{
  ℕ, zero, suc, ◌+◌, ◌-◌, ◌*◌, ◌%◌, ◌≡◌, ◌≢◌, ◌≤◌, ◌<◌, refl, ◌∙◌, ap, some, List, [], ◌∷◌, length,
  if◌then◌else◌, arith, update, update_self, Bool, true, false, ℕ_discrete,
}
use cs453_2025_project.Machine.{Ptr}
use cs453_2025_project.Grading.Library.{Memory, store}
use cs453_2025_project.Grading.Bank.{word_mod, negative}
use cs453_2025_project.Grading.Bank.AccountSegment.{count, next, parity, accounts, size}
use cs453_2025_project.Grading.Bank.Layout.{
  balances, balances-add_one, along, counted, held, corrected, NotIn, IsSegment, IsChain, Same,
  held-Same, corrected-Same, counted-Same, next-Same, IsSegment-Same,
}
use cs453_2025_project.Grading.Bank.Invariant.{IsApart, store-Same}

pub Same-trans :
    (nb : ℕ) (m m' m'' : Memory) (p : Ptr) → Same nb m m' p → Same nb m' m'' p → Same nb m m'' p
Same-trans nb m m' m'' p one two = record {
  same_words = λ q low high. two.same_words q low high ∙ one.same_words q low high;
  same_segment = two.same_segment ∙ one.same_segment;
}

pub balances-agree :
    (m m' : Memory) (p n : ℕ)
    → ((i : ℕ) → i < n → m'.word (accounts p i) ≡ m.word (accounts p i))
    → balances m' p n ≡ balances m p n
unfolding balances
balances-agree m m' p zero same = refl
balances-agree m m' p (suc n) same =
    omega (arith, balances-agree m m' p n (λ i lt. same i (omega arith)), same n (omega arith))

module _ (nb init : ℕ) where
  -- The segments from `p` on are in order again, with one account less or one more; the sum is off by
  -- as much as the number of accounts asks for, and all other segments are as they were.
  pub record Changed (less : Bool) (m m' : Memory) (p : Ptr) (qs qs' : List Ptr) : Type 0 where
    pub chain_now : IsChain nb m' p qs'
    pub apart_now : IsApart m'
    pub sum_now :
        (along (held m') p qs' + along (corrected m') p qs' + init * along (counted m) p qs)
          % word_mod
        ≡ (along (held m) p qs + along (corrected m) p qs + init * along (counted m') p qs')
          % word_mod
    pub held_now : along (held m') p qs' ≤ along (held m) p qs + init
    pub one_now :
        along (counted m') p qs' + (if less then 1 else 0)
        ≡ along (counted m) p qs + (if less then 0 else 1)
    pub few_now : length qs' ≤ length qs + 1
    pub others_now :
        (r : Ptr)
        → m.segment r ≡ some (size nb)
        → NotIn r (p ∷ qs)
        → Same nb m m' r × NotIn r (p ∷ qs')

  -- The same, seen from the segment before.
  pub cons-Changed :
      (less : Bool) (m m' : Memory) (p q : Ptr) (qs qs' : List Ptr)
      → IsChain nb m p (q ∷ qs)
      → Changed less m m' q qs qs'
      → Changed less m m' p (q ∷ qs) (q ∷ qs')
  cons-Changed less m m' p q qs qs' (link, nonnull, seg, out, chain) d =
      let (same, out') = d.others_now p seg.stands out in
      record {
        chain_now = (
          next-Same nb m m' p same ∙ link,
          nonnull,
          IsSegment-Same nb m m' p seg same,
          out',
          d.chain_now,
        );
        apart_now = d.apart_now;
        sum_now = omega (
          arith,
          d.sum_now,
          held-Same nb m m' p seg same,
          corrected-Same nb m m' p same,
          ap (λ (t : ℕ). init * t) (counted-Same nb m m' p same),
        );
        held_now = omega (arith, d.held_now, held-Same nb m m' p seg same);
        one_now = omega (arith, d.one_now, counted-Same nb m m' p same);
        few_now = omega (arith, d.few_now);
        others_now = λ r sr beyond.
            let (other, out'') = d.others_now r sr beyond.1 in (other, (beyond.0, out''));
      }

  -- Two writes into one segment.
  module _ (m : Memory) (p x v y u : ℕ) (apart : IsApart m)
      (sp : m.segment p ≡ some (size nb)) where
    pub stores-Same :
        p ≤ x
        → x < p + size nb
        → p ≤ y
        → y < p + size nb
        → (r : Ptr) → m.segment r ≡ some (size nb)
        → r ≢ p
        → Same nb m (store (store m x v) y u) r
    stores-Same xl xh yl yh r sr ne =
        Same-trans nb m (store m x v) (store (store m x v) y u) r
          (store-Same nb m r p x v apart sr sp ne xl xh)
          (store-Same nb (store m x v) r p y u apart sr sp ne yl yh)

  module _ (m : Memory) (p : Ptr) (last : m.word (next p) ≡ 0) (seg : IsSegment nb m p)
      (apart : IsApart m) where
    -- The last account of the segment goes.
    module _ (n balance : ℕ) (this : counted m p ≡ n + 1) (low : 0 < n)
        (is : balance ≡ m.word (accounts p n)) (small : init < negative) where
      abbrev corrected_sum : ℕ
      corrected_sum = (m.word (parity p) + balance + (word_mod - init)) % word_mod

      abbrev fewer : Memory
      fewer = store (store m (count p) n) (parity p) corrected_sum

      fewer-count : counted fewer p ≡ n
      unfolding update
      fewer-count = ground arith

      fewer-parity : corrected fewer p ≡ corrected_sum
      unfolding update
      fewer-parity = ground arith

      fewer-next : fewer.word (next p) ≡ 0
      unfolding update
      fewer-next = ground arith

      fewer-account : (i : ℕ) → fewer.word (accounts p i) ≡ m.word (accounts p i)
      unfolding update
      fewer-account i = ground arith

      fewer-held : held fewer p + balance ≡ held m p
      fewer-held = omega (
        arith,
        is,
        ap (balances fewer p) fewer-count,
        ap (balances m p) this,
        balances-add_one m p n,
        balances-agree m fewer p n (λ i lt. fewer-account i),
      )

      pub fewer-Changed : Changed true m fewer p [] []
      fewer-Changed = record {
        chain_now = (
          fewer-next,
          record {
            some_account = omega (arith, fewer-count);
            few_accounts = omega (arith, fewer-count, seg.few_accounts);
            stands = seg.stands;
            not_negative = λ i lt.
                omega (arith, fewer-account i, seg.not_negative i (omega (arith, fewer-count)));
          },
        );
        apart_now = apart;
        sum_now = omega (
          arith,
          fewer-held,
          fewer-parity,
          ap (λ (t : ℕ). init * t) this,
          ap (λ (t : ℕ). init * t) fewer-count,
        );
        held_now = omega (arith, fewer-held);
        one_now = omega (arith, fewer-count, this);
        few_now = omega arith;
        others_now = λ r sr out. (
          stores-Same m p (count p) n (parity p) corrected_sum apart seg.stands (omega arith)
              (omega arith) (omega arith) (omega arith) r sr out.0,
          out,
        );
      }

    -- One more account in the segment.
    module _ (n : ℕ) (this : counted m p ≡ n) (room : n < nb) (fits : nb < word_mod)
        (small : init < negative) where
      abbrev more : Memory
      more = store (store m (accounts p n) init) (count p) ((n + 1) % word_mod)

      more-count : counted more p ≡ n + 1
      more-count =
          omega
            (arith, update_self (update m.word (accounts p n) init) (count p) ((n + 1) % word_mod))

      more-parity : corrected more p ≡ corrected m p
      unfolding update
      more-parity = ground arith

      more-next : more.word (next p) ≡ 0
      unfolding update
      more-next = ground arith

      more-account : (i : ℕ) → i ≢ n → more.word (accounts p i) ≡ m.word (accounts p i)
      unfolding update
      more-account i ne = ground arith

      more-new : more.word (accounts p n) ≡ init
      unfolding update
      more-new = ground arith

      more-held : held more p ≡ held m p + init
      more-held = omega (
        arith,
        more-new,
        ap (balances more p) more-count,
        ap (balances m p) this,
        balances-add_one more p n,
        balances-agree m more p n (λ i lt. more-account i (λ e. absurd (omega arith))),
      )

      pub more-Changed : Changed false m more p [] []
      more-Changed = record {
        chain_now = (
          more-next,
          record {
            some_account = omega (arith, more-count);
            few_accounts = omega (arith, more-count);
            stands = seg.stands;
            not_negative = λ i lt. elim (ℕ_discrete i n) [
              | yes e ↦ rw e (omega (arith, more-new))
              | no ne ↦
                  omega (arith, more-account i ne, seg.not_negative i (omega (arith, more-count)))
            ];
          },
        );
        apart_now = apart;
        sum_now = omega (
          arith,
          more-held,
          more-parity,
          ap (λ (t : ℕ). init * t) this,
          ap (λ (t : ℕ). init * t) more-count,
        );
        held_now = omega (arith, more-held);
        one_now = omega (arith, more-count, this);
        few_now = omega arith;
        others_now = λ r sr out. (
          stores-Same m p (accounts p n) init (count p) ((n + 1) % word_mod) apart seg.stands
              (omega arith) (omega arith) (omega arith) (omega arith) r sr out.0,
          out,
        );
      }
