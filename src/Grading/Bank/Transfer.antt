-- ===== src/Grading/Bank/Transfer.antt =====
-- The closure of `short_tx` of grading/workload.hpp keeps the bank in order.
use cs453_2025_project.Prelude.{
  ℕ, zero, suc, ◌+◌, ◌-◌, ◌*◌, ◌%◌, ◌≡◌, ◌≤◌, ◌<◌, inl, inr, refl, ◌∙◌, ap, List, [], ◌∷◌, length,
  Bool, true, false, Option, none, some, ◌&&◌, ltb, if◌then◌else◌, arith, ltb→lt, ℕ_discrete,
}
use cs453_2025_project.Machine.{Ptr}
use cs453_2025_project.Grading.Library.{Memory, store}
use cs453_2025_project.Grading.Ensures.{Ensures, Ensures-weaken}
use cs453_2025_project.Grading.Bank.{WorkloadBank, word_mod, negative, short_closure}
use cs453_2025_project.Grading.Bank.AccountSegment.{accounts}
use cs453_2025_project.Grading.Bank.Layout.{along, counted, held, balances}
use cs453_2025_project.Grading.Bank.Invariant.{IsBank}
use cs453_2025_project.Grading.Bank.Chosen.{account_at, Moves, short_closure-Moves}
use cs453_2025_project.Grading.Bank.Account.{AccountOf, IsAccount, Paid, store-Paid}

AccountOf-first :
    (m : Memory) (x p i : ℕ)
    → (if ltb i (counted m p) then some (accounts p i) else none) ≡ some x
    → AccountOf m x p
AccountOf-first m x p i e = (i, ground (arith, e), ground (arith, e))

IsAccount-later :
    (m : Memory) (x p i : ℕ) (q : Ptr) (qs : List Ptr) (b : Bool)
    → ltb i (counted m p) ≡ b
    → (account_at m q qs (i - counted m p) ≡ some x → IsAccount m x q qs)
    → (if b then some (accounts p i) else account_at m q qs (i - counted m p)) ≡ some x
    → IsAccount m x p (q ∷ qs)
IsAccount-later m x p i q qs true lt rest e = inl (i, ltb→lt i _ lt, cc)
IsAccount-later m x p i q qs false lt rest e = inr (rest e)

-- What is found is an account.
account_at-IsAccount :
    (m : Memory) (x p : ℕ) (qs : List Ptr) (i : ℕ)
    → account_at m p qs i ≡ some x
    → IsAccount m x p qs
account_at-IsAccount m x p [] i e = AccountOf-first m x p i e
account_at-IsAccount m x p (q ∷ qs) i e =
    IsAccount-later m x p i q qs (ltb i (counted m p)) refl
      (account_at-IsAccount m x q qs (i - counted m p)) e

balance-le : (m : Memory) (p i n : ℕ) → i < n → m.word (accounts p i) ≤ balances m p n
unfolding balances
balance-le m p i zero lt = absurd (omega arith)
balance-le m p i (suc n) lt = elim (ℕ_discrete i n) [
  | yes e ↦ rw e (omega arith)
  | no ne ↦ omega (arith, balance-le m p i n (omega arith))
]

-- No account holds more than all of them.
account-le :
    (m : Memory) (x p : ℕ) (qs : List Ptr) → IsAccount m x p qs → m.word x ≤ along (held m) p qs
account-le m x p [] (i, lt, e) = rw e (balance-le m p i (counted m p) lt)
account-le m x p (q ∷ qs) (inl (i, lt, e)) = rw e (omega (arith, balance-le m p i (counted m p) lt))
account-le m x p (q ∷ qs) (inr later) = omega (arith, account-le m x q qs later)

module _ (bank : WorkloadBank) (m : Memory) (qs : List Ptr) (inv : IsBank bank m qs) where
  abbrev pub Kept : Memory → Type 0
  Kept m' =
      IsBank bank m' qs
      × (along (held m') bank.start qs ≡ along (held m) bank.start qs)
      × (along (counted m') bank.start qs ≡ along (counted m) bank.start qs)

  module _ (little : along (held m) bank.start qs < negative) (Left : Memory → Type 0) where
    moved :
        (x y : ℕ)
        → IsAccount m x bank.start qs
        → IsAccount m y bank.start qs
        → 0 < m.word x
        → m.word x < negative
        → let m1 = store m x (m.word x - 1) in Kept (store m1 y ((m1.word y + 1) % word_mod))
    moved x y from to some_unit sound =
        let m1 = store m x (m.word x - 1) in
        let d1 : Paid bank.nbaccounts m m1 x (m.word x - 1) bank.start qs =
          store-Paid bank.nbaccounts m inv.apart (m.word x - 1) (omega arith) x bank.start qs
            inv.chain from in
        let small = account-le m1 y bank.start qs (d1.paid_account y to) in
        let v = (m1.word y + 1) % word_mod in
        let d2 : Paid bank.nbaccounts m1 (store m1 y v) y v bank.start qs =
          store-Paid bank.nbaccounts m1 inv.apart v (omega (arith, d1.paid_held)) y bank.start qs
            d1.paid_chain (d1.paid_account y to) in
        let kept : along (held (store m1 y v)) bank.start qs ≡ along (held m) bank.start qs =
          omega (arith, d1.paid_held, d2.paid_held) in
        let counts : along (counted (store m1 y v)) bank.start qs
            ≡ along (counted m) bank.start qs =
          d2.paid_counted ∙ d1.paid_counted in
        (
          record {
            chain = d2.paid_chain;
            apart = inv.apart;
            balanced = omega (
              arith,
              inv.balanced,
              kept,
              d1.paid_corrected,
              d2.paid_corrected,
              ap (λ (t : ℕ). (bank.init_balance * t) % word_mod) counts,
            );
          },
          kept,
          counts,
        )

    if-Kept :
        (b : Bool) (m1 m2 : Memory)
        → (b ≡ true → Kept m1)
        → (b ≡ false → Kept m2)
        → Kept (if b then m1 else m2)
    if-Kept true m1 m2 then_case else_case = then_case refl
    if-Kept false m1 m2 then_case else_case = else_case refl

    Moves-Kept :
        (from to : Option Ptr)
        → ((x : Ptr) → from ≡ some x → IsAccount m x bank.start qs)
        → ((y : Ptr) → to ≡ some y → IsAccount m y bank.start qs)
        → (ok : Bool) (m' : Memory) → Moves m from to ok m'
        → Kept m'
    Moves-Kept (some x) (some y) sends receives ok m' (well, is) = rw is (
        if-Kept (ltb 0 (m.word x) && ltb (m.word x) negative) _ m
          (λ t. moved x y (sends x refl) (receives y refl) (ground arith) (ground arith))
          (λ t. (inv, refl, refl)))
    Moves-Kept (some x) none sends receives ok m' (well, is) = rw is (inv, refl, refl)
    Moves-Kept none to sends receives ok m' (well, is) = rw is (inv, refl, refl)

    -- With fuel for the segments, and all balances together below 2 ^ 63, the closure of `short_tx` keeps the bank in
    -- order, the sum of the balances and the number of accounts, whatever accounts it is given.
    pub short_closure-Ensures :
        length qs < bank.fuel
        → (s ids : ℕ × ℕ) → Ensures (λ ok s m'. Kept m') Left (short_closure bank ids) s m
    short_closure-Ensures enough s (send_id, recv_id) =
        Ensures-weaken _ _ Left
          (λ ok s m' moves.
            Moves-Kept (account_at m bank.start qs send_id) (account_at m bank.start qs recv_id)
              (λ x e. account_at-IsAccount m x bank.start qs send_id e)
              (λ y e. account_at-IsAccount m y bank.start qs recv_id e) ok m' moves)
          (short_closure bank (send_id, recv_id)) s m
          (short_closure-Moves bank m qs inv.chain enough Left s send_id recv_id)
