-- ===== src/Dict/Table.antt =====
-- The table as a whole: every chain holds keys of its own bucket, and so a search of the home chain
-- finds what a search of all entries would find.
use mathlib.Core.List.{flatten}
use cs453_2025_project.Prelude.{
  ℕ, zero, suc, ◌+◌, ◌≡◌, refl, ◌<◌, none, List, [], ◌∷◌, arith, length, get_or, set, length-append,
  replicate, subst, ℕ_discrete,
}
use cs453_2025_project.Machine.{Ptr}
use cs453_2025_project.Dict.{Chain, slot, find_in}
use cs453_2025_project.Dict.Chain.{
  IsChain, Distinct, find_in-append, find_in_elsewhere, IsChain-Distinct, Distinct-append,
}

-- All chains of a table of `n` buckets from the bucket `i` on.
abbrev pub IsTable : ℕ → ℕ → List Chain → Type 0
IsTable n i [] = Unit {0}
IsTable n i (c ∷ cs) = IsChain n i c × IsTable n (suc i) cs

pub get_or-IsChain :
    (n i j b : ℕ) (cs : List Chain) → i + j ≡ b → IsTable n i cs → IsChain n b (get_or cs j [])
unfolding get_or
get_or-IsChain n i j b [] e h = tt
get_or-IsChain n i zero b (c ∷ cs) e h =
    let e' : i ≡ b = omega arith in subst (λ t. IsChain n t c) e' h.0
get_or-IsChain n i (suc j) b (c ∷ cs) e h = get_or-IsChain n (suc i) j b cs (omega arith) h.1

pub set-IsTable :
    (n i j b : ℕ) (cs : List Chain) (c : Chain)
    → i + j ≡ b
    → IsTable n i cs
    → IsChain n b c
    → IsTable n i (set cs j c)
set-IsTable n i j b [] c e h hc = tt
set-IsTable n i zero b (x ∷ cs) c e h hc =
    let e' : b ≡ i = omega arith in (subst (λ t. IsChain n t c) e' hc, h.1)
set-IsTable n i (suc j) b (x ∷ cs) c e h hc =
    (h.0, set-IsTable n (suc i) j b cs c (omega arith) h.1 hc)

pub replicate-IsTable : (n i m : ℕ) → IsTable n i (replicate m [])
unfolding replicate
replicate-IsTable n i zero = tt
replicate-IsTable n i (suc m) = (tt, replicate-IsTable n (suc i) m)

-- A key of an earlier bucket is in none of these chains.
find_in_before :
    (n i : ℕ) (cs : List Chain) (q : Ptr)
    → IsTable n i cs
    → slot q n < i
    → find_in q (flatten cs) ≡ none
unfolding find_in flatten
find_in_before n i [] q h lt = refl
find_in_before n i (c ∷ cs) q h lt = ground (
  arith,
  find_in-append q c (flatten cs),
  find_in_elsewhere n i c q h.0,
  find_in_before n (suc i) cs q h.1,
)

-- All entries together answer as the home chain does.
pub find_in-flatten :
    (n i j : ℕ) (cs : List Chain) (q : Ptr)
    → IsTable n i cs
    → slot q n ≡ i + j
    → find_in q (flatten cs) ≡ find_in q (get_or cs j [])
unfolding find_in flatten get_or
find_in-flatten n i j [] q h e = refl
find_in-flatten n i zero (c ∷ cs) q h e =
    ground (arith, find_in-append q c (flatten cs), find_in_before n (suc i) cs q h.1)
find_in-flatten n i (suc j) (c ∷ cs) q h e = ground (
  arith,
  find_in-append q c (flatten cs),
  find_in_elsewhere n i c q h.0,
  find_in-flatten n (suc i) j cs q h.1,
)

pub flatten-Distinct : (n i : ℕ) (cs : List Chain) → IsTable n i cs → Distinct (flatten cs)
unfolding flatten
flatten-Distinct n i [] h = tt
flatten-Distinct n i (c ∷ cs) h =
    Distinct-append c (flatten cs) (IsChain-Distinct n i c h.0) (flatten-Distinct n (suc i) cs h.1)
      (λ q ne. elim (ℕ_discrete (slot q n) i) [
        | yes here ↦ find_in_before n (suc i) cs q h.1 (omega arith)
        | no away ↦ absurd (ne (find_in_elsewhere n i c q h.0 away))
      ])

pub length-flatten-set :
    (cs : List Chain) (j : ℕ) (c : Chain)
    → j < length cs
    → length (flatten (set cs j c)) + length (get_or cs j []) ≡ length (flatten cs) + length c
unfolding get_or flatten
length-flatten-set [] j c h = absurd (omega arith)
length-flatten-set (x ∷ cs) zero c h =
    omega (arith, length-append x (flatten cs), length-append c (flatten cs))
length-flatten-set (x ∷ cs) (suc j) c h = omega (
  arith,
  length-append x (flatten (set cs j c)),
  length-append x (flatten cs),
  length-flatten-set cs j c (omega arith),
)

pub flatten-replicate : (m : ℕ) → flatten {A = Ptr × Ptr} (replicate m []) ≡ []
unfolding flatten replicate
flatten-replicate zero = refl
flatten-replicate (suc m) = flatten-replicate m
