-- ===== src/Grading/Bank/Segments.antt =====
-- A segment more in the bank, or a segment less.
use cs453_2025_project.Prelude.{
  ℕ, ◌+◌, ◌-◌, ◌*◌, ◌%◌, ◌≡◌, ◌≢◌, ◌≤◌, ◌<◌, ◌⊎◌, inl, inr, sym, ◌∙◌, ap, subst, Option, none, some,
  [], ◌∷◌, arith, update, update_other, update_self, true, false, ℕ_discrete,
}
use cs453_2025_project.Grading.Library.{Memory, store, grown, shrunk, Fresh}
use cs453_2025_project.Grading.Bank.{word_mod, negative}
use cs453_2025_project.Grading.Bank.AccountSegment.{count, next, parity, accounts, size}
use cs453_2025_project.Grading.Bank.Layout.{
  balances, counted, held, corrected, IsSegment, IsChain, Same,
}
use cs453_2025_project.Grading.Bank.Invariant.{IsApart}
use cs453_2025_project.Grading.Bank.Changed.{Changed, balances-agree}

module _ (nb init : ℕ) (m : Memory) (apart : IsApart m) where
  -- A new last segment, with one account.
  module _ (p a : ℕ) (last : m.word (next p) ≡ 0) (seg : IsSegment nb m p) (some_place : 1 ≤ nb)
      (fresh : Fresh m a (size nb)) (small : init < negative) where
    abbrev longer : Memory
    longer = store (store (store (grown m a (size nb)) (next p) a) (count a) 1) (accounts a 0) init

    -- A segment that was there is not where the new one is.
    away : (r : ℕ) → m.segment r ≡ some (size nb) → (a + size nb ≤ r) ⊎ (r + size nb ≤ a)
    away r sr = fresh.1 r (size nb) sr

    longer-other : (q : ℕ) → (a + size nb ≤ q) ⊎ (q < a) → q ≢ next p → longer.word q ≡ m.word q
    unfolding update
    longer-other q (inl behind) ne = ground arith
    longer-other q (inr before) ne = ground arith

    outside :
        (r q : ℕ)
        → m.segment r ≡ some (size nb)
        → r ≤ q
        → q < r + size nb
        → (a + size nb ≤ q) ⊎ (q < a)
    outside r q sr low high = elim (away r sr) [
      | inl behind ↦ inl (omega arith)
      | inr before ↦ inr (omega arith)
    ]

    longer-here : (q : ℕ) → p ≤ q → q < p + size nb → q ≢ next p → longer.word q ≡ m.word q
    longer-here q low high ne = longer-other q (outside p q seg.stands low high) ne

    longer-next : longer.word (next p) ≡ a
    unfolding update
    longer-next = elim (away p seg.stands) [ inl behind ↦ ground arith | inr before ↦ ground arith ]

    new-count : longer.word (count a) ≡ 1
    unfolding update
    new-count = ground arith

    new-next : longer.word (next a) ≡ 0
    unfolding update
    new-next = elim (away p seg.stands) [ inl behind ↦ ground arith | inr before ↦ ground arith ]

    new-parity : longer.word (parity a) ≡ 0
    unfolding update
    new-parity = elim (away p seg.stands) [ inl behind ↦ ground arith | inr before ↦ ground arith ]

    new-account : longer.word (accounts a 0) ≡ init
    unfolding update
    new-account = ground arith

    new-size : (k : ℕ) → longer.segment a ≡ some k → size nb ≡ k
    new-size k e =
        ap (λ (o : Option ℕ). elim o [ none ↦ size nb | some n ↦ n ])
          (sym (update_self m.segment a (some (size nb))) ∙ e)

    old-segment : (x k : ℕ) → x ≢ a → longer.segment x ≡ some k → m.segment x ≡ some k
    old-segment x k ne e = sym (update_other m.segment a x (some (size nb)) ne) ∙ e

    longer-IsApart : IsApart longer
    longer-IsApart x y k l sx sy ne = elim (ℕ_discrete x a) [
      | yes ex ↦
          let kk = new-size k (subst (λ z. longer.segment z ≡ some k) ex sx) in
          elim (fresh.1 y l (old-segment y l (λ e. ne (ex ∙ sym e)) sy)) [
            | inl behind ↦ inl (omega arith)
            | inr before ↦ inr (omega arith)
          ]
      | no nx ↦ elim (ℕ_discrete y a) [
        | yes ey ↦
            let ll = new-size l (subst (λ z. longer.segment z ≡ some l) ey sy) in
            elim (fresh.1 x k (old-segment x k nx sx)) [
              | inl behind ↦ inr (omega arith)
              | inr before ↦ inl (omega arith)
            ]
        | no ny ↦ apart x y k l (old-segment x k nx sx) (old-segment y l ny sy) ne
      ]
    ]

    not-new : (r : ℕ) → m.segment r ≡ some (size nb) → r ≢ a
    not-new r sr e = elim (away r sr) [
      | inl behind ↦ absurd (omega arith)
      | inr before ↦ absurd (omega arith)
    ]

    other-Same : (r : ℕ) → m.segment r ≡ some (size nb) → r ≢ p → Same nb m longer r
    other-Same r sr ne = record {
      same_words = λ q low high. longer-other q (outside r q sr low high) (λ e.
          elim (apart r p (size nb) (size nb) sr seg.stands ne) [
            | inl before ↦ absurd (omega arith)
            | inr behind ↦ absurd (omega arith)
          ]);
      same_segment = update_other m.segment a r (some (size nb)) (not-new r sr);
    }

    longer-count : counted longer p ≡ counted m p
    longer-count = longer-here (count p) (omega arith) (omega arith) (λ e. absurd (omega arith))

    longer-parity : corrected longer p ≡ corrected m p
    longer-parity = longer-here (parity p) (omega arith) (omega arith) (λ e. absurd (omega arith))

    longer-account : (i : ℕ) → i < counted m p → longer.word (accounts p i) ≡ m.word (accounts p i)
    longer-account i lt =
        longer-here (accounts p i) (omega arith) (omega (arith, seg.few_accounts))
          (λ e. absurd (omega arith))

    longer-held : held longer p ≡ held m p
    longer-held =
        ap (balances longer p) longer-count ∙ balances-agree m longer p (counted m p) longer-account

    new-held : held longer a ≡ init
    unfolding balances
    new-held = ap (balances longer a) new-count ∙ omega (arith, new-account)

    pub longer-Changed : Changed nb init false m longer p [] (a ∷ [])
    longer-Changed = record {
      chain_now = (
        longer-next,
        fresh.0,
        record {
          some_account = omega (arith, longer-count, seg.some_account);
          few_accounts = omega (arith, longer-count, seg.few_accounts);
          stands = update_other m.segment a p (some (size nb)) (not-new p seg.stands) ∙ seg.stands;
          not_negative = λ i lt.
              let low : i < counted m p = omega (arith, longer-count) in
              omega (arith, longer-account i low, seg.not_negative i low);
        },
        (not-new p seg.stands, tt),
        (
          new-next,
          record {
            some_account = omega (arith, new-count);
            few_accounts = omega (arith, new-count);
            stands = update_self m.segment a (some (size nb));
            not_negative = λ i lt.
                let first : i ≡ 0 = omega (arith, new-count) in
                rw first (omega (arith, new-account));
          },
        ),
      );
      apart_now = longer-IsApart;
      sum_now = omega (
        arith,
        longer-held,
        new-held,
        longer-parity,
        new-parity,
        ap (λ (t : ℕ). init * t) longer-count,
        ap (λ (t : ℕ). init * t) new-count,
      );
      held_now = omega (arith, longer-held, new-held);
      one_now = omega (arith, longer-count, new-count);
      few_now = omega arith;
      others_now = λ r sr out. (other-Same r sr out.0, (out.0, (not-new r sr, tt)));
    }

  -- The last segment goes, and its account with it.
  module _ (prev p balance : ℕ) (chain : IsChain nb m prev (p ∷ [])) (this : counted m p ≡ 1)
      (is : balance ≡ m.word (accounts p 0)) (small : init < negative) where
    abbrev old_parity : ℕ
    old_parity = (m.word (parity p) + balance + (word_mod - init)) % word_mod

    -- The correction of the segment before, as it is read then.
    abbrev seen : ℕ
    seen = update m.word (next prev) 0 (parity prev)

    seen-parity : seen ≡ m.word (parity prev)
    unfolding update
    seen-parity = ground arith

    abbrev shorter : Memory
    shorter =
        store (store (shrunk m p) (next prev) 0) (parity prev) ((seen + old_parity) % word_mod)

    shorter-other : (q : ℕ) → q ≢ next prev → q ≢ parity prev → shorter.word q ≡ m.word q
    unfolding update
    shorter-other q n1 n2 = ground arith

    shorter-next : shorter.word (next prev) ≡ 0
    unfolding update
    shorter-next = ground arith

    shorter-parity : corrected shorter prev ≡ (m.word (parity prev) + old_parity) % word_mod
    shorter-parity = omega (
      arith,
      seen-parity,
      update_self (update m.word (next prev) 0) (parity prev) ((seen + old_parity) % word_mod),
    )

    shorter-count : counted shorter prev ≡ counted m prev
    shorter-count =
        shorter-other (count prev) (λ e. absurd (omega arith)) (λ e. absurd (omega arith))

    shorter-account : (i : ℕ) → shorter.word (accounts prev i) ≡ m.word (accounts prev i)
    shorter-account i =
        shorter-other (accounts prev i) (λ e. absurd (omega arith)) (λ e. absurd (omega arith))

    shorter-held : held shorter prev ≡ held m prev
    shorter-held =
        ap (balances shorter prev) shorter-count
        ∙ balances-agree m shorter prev (counted m prev) (λ i lt. shorter-account i)

    old-held : held m p ≡ balance
    unfolding balances
    old-held = ap (balances m p) this ∙ omega (arith, is)

    left-segment : (x k : ℕ) → shorter.segment x ≡ some k → m.segment x ≡ some k
    unfolding update
    left-segment x k e = elim (ℕ_discrete x p) [
      | yes same ↦ absurd (ground arith)
      | no other ↦ sym (update_other m.segment p x none other) ∙ e
    ]

    pub shorter-Changed : Changed nb init true m shorter prev (p ∷ []) []
    shorter-Changed =
        let (link, nonnull, seg, out, end) = chain in
        record {
          chain_now = (
            shorter-next,
            record {
              some_account = omega (arith, shorter-count, seg.some_account);
              few_accounts = omega (arith, shorter-count, seg.few_accounts);
              stands = update_other m.segment p prev none out.0 ∙ seg.stands;
              not_negative = λ i lt.
                  omega
                    (arith, shorter-account i, seg.not_negative i (omega (arith, shorter-count)));
            },
          );
          apart_now =
              λ x y k l sx sy ne. apart x y k l (left-segment x k sx) (left-segment y l sy) ne;
          sum_now = omega (
            arith,
            shorter-held,
            shorter-parity,
            old-held,
            ap (λ (t : ℕ). init * t) shorter-count,
            ap (λ (t : ℕ). init * t) this,
          );
          held_now = omega (arith, shorter-held);
          one_now = omega (arith, shorter-count, this);
          few_now = omega arith;
          others_now = λ r sr beyond. (
            record {
              same_words = λ q low high.
                  elim (apart r prev (size nb) (size nb) sr seg.stands beyond.0) [
                    | inl before ↦
                        shorter-other q (λ e. absurd (omega arith)) (λ e. absurd (omega arith))
                    | inr behind ↦
                        shorter-other q (λ e. absurd (omega arith)) (λ e. absurd (omega arith))
                  ];
              same_segment = update_other m.segment p r none beyond.1.0;
            },
            (beyond.0, tt),
          );
        }
