-- ===== src/Grading/Bank/Chosen.antt =====
-- Which accounts `short_tx` of grading/workload.hpp is about, and what it does to them.
use cs453_2025_project.Prelude.{
  ℕ, zero, suc, ◌+◌, ◌-◌, ◌%◌, ◌≡◌, ◌<◌, ◌⊎◌, inl, inr, refl, sym, ◌∙◌, subst, Option, none, some,
  List, [], ◌∷◌, length, Bool, true, false, ◌&&◌, ◌==◌, ltb, if◌then◌else◌, arith, ==→eq,
}
use cs453_2025_project.Machine.{Ptr, null}
use cs453_2025_project.Grading.Library.{Memory, store}
use cs453_2025_project.Grading.Transaction.{Body, done, read, assign_captured, ◌>>=◌, ◌>>◌}
use cs453_2025_project.Grading.Ensures.{Ensures, Ensures-if}
use cs453_2025_project.Grading.Bank.{
  WorkloadBank, word_mod, negative, transfer, short_loop, short_closure,
}
use cs453_2025_project.Grading.Bank.AccountSegment.{count, next, accounts}
use cs453_2025_project.Grading.Bank.Layout.{counted, IsChain}

-- The account of a number, counted along the segments.
abbrev pub account_at : Memory → Ptr → List Ptr → ℕ → Option Ptr
account_at m p [] i = if ltb i (counted m p) then some (accounts p i) else none
account_at m p (q ∷ qs) i =
    if ltb i (counted m p) then some (accounts p i) else account_at m q qs (i - counted m p)

-- One unit less in an account, if it has one, and then one more in the other.
abbrev pub paid : Memory → (x y : Ptr) → Memory
paid m x y =
    let m1 = store m x (m.word x - 1) in
    if ltb 0 (m.word x) && ltb (m.word x) negative
    then store m1 y ((m1.word y + 1) % word_mod)
    else m

abbrev pub Moves : Memory → Option Ptr → Option Ptr → Bool → Memory → Type 0
Moves m (some x) (some y) ok m' = (ok ≡ true) × (m' ≡ paid m x y)
Moves m (some x) none ok m' = (ok ≡ false) × (m' ≡ m)
Moves m none to ok m' = (ok ≡ false) × (m' ≡ m)

module _ (bank : WorkloadBank) (Left : Memory → Type 0) (m : Memory) (from to : Option Ptr) where
  abbrev Does : Body (ℕ × ℕ) Bool → ℕ × ℕ → Type 0
  Does body s = Ensures (λ ok s m'. Moves m from to ok m') Left body s m

  refuses : (x y : Option Ptr) → (x ≡ none) ⊎ (y ≡ none) → Moves m x y false m
  refuses none y missing = (refl, refl)
  refuses (some x) none missing = (refl, refl)
  refuses (some x) (some y) (inl e) = absurd cc
  refuses (some x) (some y) (inr e) = absurd cc

  transfers_some :
      (x y : Ptr) (s : ℕ × ℕ)
      → Ensures (λ ok s m'. Moves m (some x) (some y) ok m') Left (transfer bank x y) s m
  transfers_some x y s =
      Ensures-if (λ ok s m'. Moves m (some x) (some y) ok m') Left
        (ltb 0 (m.word x) && ltb (m.word x) negative) _ _ s m (λ t. (refl, rw t refl))
        (λ t. (refl, rw t refl))

  transfers : (x y : Ptr) (s : ℕ × ℕ) → some x ≡ from → some y ≡ to → Does (transfer bank x y) s
  transfers x y s ex ey =
      subst (λ f. Ensures (λ ok s m'. Moves m f to ok m') Left (transfer bank x y) s m) ex
        (subst (λ t. Ensures (λ ok s m'. Moves m (some x) t ok m') Left (transfer bank x y) s m) ey
          (transfers_some x y s))

  -- What is found, where `beyond` is what is not yet looked at.
  abbrev aimed : (ℕ → Option Ptr) → Ptr → ℕ → Option Ptr
  aimed beyond ptr i = if ptr == null then beyond i else some ptr

  abbrev Goes : (ℕ → Option Ptr) → (Ptr → Ptr → ℕ → ℕ → Body (ℕ × ℕ) Bool) → Type 0
  Goes beyond body =
      (send_ptr recv_ptr send_id recv_id : ℕ) (s : ℕ × ℕ)
      → (send_ptr ≡ 0) ⊎ (recv_ptr ≡ 0)
      → aimed beyond send_ptr send_id ≡ from
      → aimed beyond recv_ptr recv_id ≡ to
      → Does (body send_ptr recv_ptr send_id recv_id) s

  abbrev go_on : ℕ → Ptr → Ptr → Ptr → ℕ → ℕ → Body (ℕ × ℕ) Bool
  go_on fuel start send_ptr recv_ptr send_id recv_id = do
    start' ← read (next start)
    let rest = short_loop bank fuel start' send_ptr recv_ptr send_id recv_id
    if start' == null then done false else rest

  module _ (fuel p : ℕ) (beyond : ℕ → Option Ptr) (goes : Goes beyond (go_on fuel p)) where
    abbrev here : ℕ → Option Ptr
    here i = if ltb i (m.word (count p)) then some (accounts p i) else beyond (i - m.word (count p))

    abbrev find_recver : Ptr → Ptr → ℕ → ℕ → Body (ℕ × ℕ) Bool
    find_recver recv_ptr send_ptr send_id recv_id =
        if recv_ptr == null
        then (if ltb recv_id (m.word (count p))
            then (if send_ptr == null
                then go_on fuel p send_ptr (accounts p recv_id) send_id recv_id
                else transfer bank send_ptr (accounts p recv_id))
            else (do
              assign_captured (send_id, recv_id - m.word (count p))
              go_on fuel p send_ptr null send_id (recv_id - m.word (count p))))
        else go_on fuel p send_ptr recv_ptr send_id recv_id

    find_recver-Does :
        (rp sp si ri : ℕ) (s : ℕ × ℕ)
        → (sp ≡ 0) ⊎ (rp ≡ 0)
        → aimed beyond sp si ≡ from
        → aimed here rp ri ≡ to
        → Does (find_recver rp sp si ri) s
    find_recver-Does rp sp si ri s one fs fr =
        Ensures-if _ Left (rp == null) _ _ s m
          (λ t.
            Ensures-if _ Left (ltb ri (m.word (count p))) _ _ s m
              (λ lt.
                Ensures-if _ Left (sp == null) _ _ s m
                  (λ e.
                    goes sp (accounts p ri) si ri s (inl (==→eq sp 0 e)) fs (ground (arith, fr)))
                  (λ e. transfers sp (accounts p ri) s (ground (arith, fs)) (ground (arith, fr))))
              (λ ge.
                goes sp null si (ri - m.word (count p)) (si, ri - m.word (count p)) (inr refl) fs
                  (ground (arith, fr))))
          (λ t. goes sp rp si ri s one fs (ground (arith, fr)))

    round-Does : Goes here (short_loop bank (suc fuel) p)
    unfolding short_loop
    round-Does sp rp si ri s one fs fr =
        Ensures-if _ Left (sp == null) _ _ s m
          (λ t.
            Ensures-if _ Left (ltb si (m.word (count p))) _ _ s m
              (λ lt.
                Ensures-if _ Left (rp == null) _ _ s m
                  (λ e.
                    find_recver-Does rp (accounts p si) si ri s (inr (==→eq rp 0 e))
                      (ground (arith, fs)) fr)
                  (λ e. transfers (accounts p si) rp s (ground (arith, fs)) (ground (arith, fr))))
              (λ ge.
                find_recver-Does rp null (si - m.word (count p)) ri (si - m.word (count p), ri)
                  (inl refl) (ground (arith, fs)) fr))
          (λ t. find_recver-Does rp sp si ri s one (ground (arith, fs)) fr)

  nothing_beyond : (ptr i : ℕ) → ptr ≡ 0 → aimed (λ i. none) ptr i ≡ none
  nothing_beyond ptr i e = ground arith

  short_loop-Does :
      (fuel : ℕ) (p : Ptr) (qs : List Ptr)
      → length qs < fuel
      → IsChain bank.nbaccounts m p qs
      → Goes (account_at m p qs) (short_loop bank fuel p)
  short_loop-Does zero p qs enough chain = absurd (omega arith)
  short_loop-Does (suc fuel) p [] enough (last, seg) =
      round-Does fuel p (λ i. none)
        (λ sp rp si ri s one fs fr.
          Ensures-if _ Left (m.word (next p) == null) _ _ s m
            (λ e. refuses from to (elim one [
              | inl z ↦ inl (sym fs ∙ nothing_beyond sp si z)
              | inr z ↦ inr (sym fr ∙ nothing_beyond rp ri z)
            ]))
            (λ e. absurd (ground arith)))
  short_loop-Does (suc fuel) p (q ∷ qs) enough (link, nonnull, seg, out, chain) =
      let goes = short_loop-Does fuel q qs (omega arith) chain in
      round-Does fuel p (account_at m q qs) (λ sp rp si ri s one fs fr.
        Ensures-if _ Left (m.word (next p) == null) _ _ s m
          (λ e. absurd (ground (arith, link, nonnull)))
          (λ e.
            subst (λ x. Does (short_loop bank fuel x sp rp si ri) s) (sym link)
              (goes sp rp si ri s one fs fr)))

-- With fuel for the segments, the closure of `short_tx` finds the accounts of the two numbers, counted along the
-- segments, and moves one unit from the first to the second if it holds one; and it answers `false`,
-- and changes nothing, exactly if there is no such account. What has become of the captured numbers
-- is left open.
pub short_closure-Moves :
    (bank : WorkloadBank) (m : Memory) (qs : List Ptr)
    → IsChain bank.nbaccounts m bank.start qs
    → length qs < bank.fuel
    → (Left : Memory → Type 0) (s : ℕ × ℕ) (send_id recv_id : ℕ)
    → Ensures
        (λ ok s m'.
          Moves m (account_at m bank.start qs send_id) (account_at m bank.start qs recv_id) ok m')
        Left
        (short_closure bank (send_id, recv_id))
        s
        m
short_closure-Moves bank m qs chain enough Left s send_id recv_id =
    short_loop-Does bank Left m (account_at m bank.start qs send_id)
      (account_at m bank.start qs recv_id) bank.fuel bank.start qs enough chain null null send_id
      recv_id s (inl refl) refl refl
