-- ===== src/Grading/Bank/Alters.antt =====
-- What `alloc_tx` of grading/workload.hpp does at the last segment.
use cs453_2025_project.Prelude.{
  ℕ, ◌+◌, ◌-◌, ◌%◌, ◌≡◌, ◌≢◌, ◌≤◌, ◌<◌, refl, sym, ap, subst, none, List, [], ◌∷◌, ◌==◌, ltb,
  ltb→lt, ◌&&◌, if◌then◌else◌, arith, Bool, true, false,
}
use cs453_2025_project.Machine.{Ptr}
use cs453_2025_project.Grading.Library.{Memory, grown, shrunk, Fresh}
use cs453_2025_project.Grading.Transaction.{Body, done, tx_write, read, write, ◌>>=◌}
use cs453_2025_project.Grading.Ensures.{Ensures, Ensures-if, Ensures-weaken}
use cs453_2025_project.Grading.Bank.{WorkloadBank, word_mod, remove_account, add_account}
use cs453_2025_project.Grading.Bank.AccountSegment.{count, next, parity, accounts, size, size_of}
use cs453_2025_project.Grading.Bank.Layout.{IsSegment, IsChain}
use cs453_2025_project.Grading.Bank.Invariant.{IsApart, IsSetting}
use cs453_2025_project.Grading.Bank.Changed.{Changed, cons-Changed, fewer-Changed, more-Changed}
use cs453_2025_project.Grading.Bank.Segments.{longer-Changed, shorter-Changed}

-- Whether an account goes, given the number of accounts.
abbrev pub shrinks : ℕ → ℕ → Bool
shrinks trigger total = ltb trigger total && ltb 2 total

module _ (bank : WorkloadBank) (setting : IsSetting bank) (m : Memory) (apart : IsApart m) where
  -- The segments from `p` on are changed by one account, or there was no memory for a segment.
  abbrev pub Alters : Bool → Ptr → List Ptr → Body (Unit {0}) (Unit {0}) → Type 0
  Alters less p qs body =
      Ensures
        (λ a s m'. (qs' : List Ptr) × Changed bank.nbaccounts bank.init_balance less m m' p qs qs')
        (λ m'. m' ≡ m) body tt m

  abbrev pub Removes : Ptr → List Ptr → Ptr → Ptr → Type 0
  Removes p qs prev start =
      Alters true p qs
        (remove_account bank prev start ((m.word (count start) + (word_mod - 1)) % word_mod))

  module _ (p : Ptr) (last : m.word (next p) ≡ 0) (seg : IsSegment bank.nbaccounts m p) where
    pub adds : Alters false p [] (add_account bank p (m.word (count p)))
    adds =
        Ensures-if _ _ (ltb (m.word (count p)) bank.nbaccounts) _ _ tt m
          (λ t. (
            [],
            more-Changed bank.nbaccounts bank.init_balance m p last seg apart (m.word (count p))
                refl (ltb→lt _ _ t) setting.few_places setting.no_debt,
          ))
          (λ t.
            subst
              (λ k.
                (m ≡ m)
                × ((a : Ptr)
                    → Fresh m a k
                    → Ensures
                        (λ x s m'.
                          (qs' : List Ptr) × Changed bank.nbaccounts bank.init_balance false m m' p
                            [] qs')
                        (λ m'. m' ≡ m)
                        (tx_write a (next p) (
                          tx_write 1 (count a)
                            (tx_write bank.init_balance (accounts a 0) (done tt))))
                        tt (grown m a k)))
              whole
              (
                refl,
                λ a fresh. (
                  a ∷ [],
                  longer-Changed bank.nbaccounts bank.init_balance m apart p a last seg
                      setting.some_place fresh setting.no_debt,
                ),
              ))
      where
        whole :
            size bank.nbaccounts
            ≡ (if size bank.nbaccounts == 0 then size_of else size bank.nbaccounts)
        whole = ground arith

    pub Removes-last : 2 ≤ m.word (count p) → (prev : Ptr) → Removes p [] prev p
    Removes-last many prev =
        let n = (m.word (count p) + (word_mod - 1)) % word_mod in
        Ensures-if _ _ (ltb 0 n) _ _ tt m
          (λ t. (
            [],
            fewer-Changed bank.nbaccounts bank.init_balance m p last seg apart n
                (m.word (accounts p n)) (omega (arith, seg.few_accounts, setting.few_places))
                (ltb→lt 0 n t) refl setting.no_debt,
          ))
          (λ t. absurd (ground (arith, seg.few_accounts, setting.few_places)))

  pub Removes-segment :
      (prev p : Ptr)
      → IsChain bank.nbaccounts m prev (p ∷ [])
      → m.word (count p) ≡ 1
      → Removes prev (p ∷ []) prev p
  Removes-segment prev p chain one =
      let n = (m.word (count p) + (word_mod - 1)) % word_mod in
      let none_left : n ≡ 0 = omega (arith, one) in
      let balance = m.word (accounts p n) in
      let new_parity = (m.word (parity p) + balance + (word_mod - bank.init_balance)) % word_mod in
      Ensures-if _ _ (ltb 0 n) _ _ tt m (λ t. absurd (ground arith))
        (λ t.
          subst
            (λ old.
              (m.segment old ≢ none)
              × Ensures
                  (λ x s m'.
                    (qs' : List Ptr) × Changed bank.nbaccounts bank.init_balance true m m' prev
                      (p ∷ []) qs')
                  (λ m'. m' ≡ m)
                  (tx_write 0 (next prev) (
                    read (parity prev) >>= λ prev_parity.
                    write (parity prev) ((prev_parity + new_parity) % word_mod)))
                  tt (shrunk m old))
            (sym chain.0)
            (
              (λ e. absurd (ground (arith, chain.4.1.stands))),
              (
                [],
                shorter-Changed bank.nbaccounts bank.init_balance m apart prev p balance chain one
                    (ap (λ (k : ℕ). m.word (accounts p k)) none_left) setting.no_debt,
              ),
            ))

  -- The last segment: one account less if there are more than `trigger`, and more than two in all.
  pub Alters-last :
      (trigger total : ℕ) (p : Ptr) (qs : List Ptr) (prev start : Ptr)
      → (2 < total → Removes p qs prev start)
      → Alters false p qs (add_account bank start (m.word (count start)))
      → Alters (shrinks trigger total) p qs (
          if ltb trigger total && ltb 2 total
          then remove_account bank prev start ((m.word (count start) + (word_mod - 1)) % word_mod)
          else add_account bank start (m.word (count start)))
  Alters-last trigger total p qs prev start removed added =
      Ensures-if _ _ (ltb trigger total && ltb 2 total) _ _ tt m
        (λ t.
          subst
            (λ less.
              Alters less p qs (
                remove_account bank prev start
                  ((m.word (count start) + (word_mod - 1)) % word_mod)))
            (sym t) (removed (ground arith)))
        (λ t.
          subst (λ less. Alters less p qs (add_account bank start (m.word (count start)))) (sym t)
            added)

  -- Seen from the segment before.
  pub lifted :
      (p q : Ptr) (qs : List Ptr)
      → IsChain bank.nbaccounts m p (q ∷ qs)
      → (less : Bool) (b : Body (Unit {0}) (Unit {0})) → Alters less q qs b
      → Alters less p (q ∷ qs) b
  lifted p q qs chain less b done_below =
      Ensures-weaken _ _ _
        (λ a s m' (qs', d).
          (q ∷ qs', cons-Changed bank.nbaccounts bank.init_balance less m m' p q qs qs' chain d))
        b tt m done_below
