-- ===== src/Dict/Chain.antt =====
-- Chains of the table, and lists of entries in general: what a key finds in them.
use cs453_2025_project.Prelude.{
  ℕ, ◌≡◌, ◌≢◌, refl, Option, none, some, [], ◌∷◌, ◌++◌, ◌==◌, if◌then◌else◌, arith, length,
}
use cs453_2025_project.Machine.{Ptr}
use cs453_2025_project.Dict.{Chain, slot, find_in, assign}

abbrev pub first_of_two : Option Ptr → Option Ptr → Option Ptr
first_of_two none b = b
first_of_two (some v) b = some v

-- No key occurs twice.
abbrev pub Distinct : Chain → Type 0
Distinct [] = Unit {0}
Distinct ((k, v) ∷ c) = (find_in k c ≡ none) × Distinct c

-- A chain of the bucket `i` of `n`: distinct keys, each of which belongs there.
abbrev pub IsChain : ℕ → ℕ → Chain → Type 0
IsChain n i [] = Unit {0}
IsChain n i ((k, v) ∷ c) = (slot k n ≡ i) × (find_in k c ≡ none) × IsChain n i c

pub find_in-append :
    (q : Ptr) (a b : Chain) → find_in q (a ++ b) ≡ first_of_two (find_in q a) (find_in q b)
unfolding find_in
find_in-append q [] b = refl
find_in-append q ((k, v) ∷ a) b = ground (arith, find_in-append q a b)

pub find_in_elsewhere :
    (n i : ℕ) (c : Chain) (q : Ptr) → IsChain n i c → slot q n ≢ i → find_in q c ≡ none
unfolding find_in
find_in_elsewhere n i [] q h ne = refl
find_in_elsewhere n i ((k, v) ∷ c) q h ne = ground (arith, find_in_elsewhere n i c q)

pub IsChain-Distinct : (n i : ℕ) (c : Chain) → IsChain n i c → Distinct c
IsChain-Distinct n i [] h = tt
IsChain-Distinct n i ((k, v) ∷ c) h = (h.1, IsChain-Distinct n i c h.2)

pub find_in-assign :
    (q k : Ptr) (v : Ptr) (c : Chain) (old : Ptr)
    → find_in k c ≡ some old
    → find_in q (assign k v c) ≡ (if q == k then some v else find_in q c)
unfolding find_in assign
find_in-assign q k v [] old h = cc
find_in-assign q k v ((j, u) ∷ c) old h = ground (arith, find_in-assign q k v c old)

find_in-assign-none :
    (q k : Ptr) (v : Ptr) (c : Chain) → find_in q c ≡ none → find_in q (assign k v c) ≡ none
unfolding find_in assign
find_in-assign-none q k v [] h = refl
find_in-assign-none q k v ((j, u) ∷ c) h = ground (arith, find_in-assign-none q k v c)

pub assign-IsChain :
    (n i : ℕ) (k : Ptr) (v : Ptr) (c : Chain) → IsChain n i c → IsChain n i (assign k v c)
unfolding assign
assign-IsChain n i k v [] h = tt
assign-IsChain n i k v ((j, u) ∷ c) h =
    ground (arith, find_in-assign-none j k v c, assign-IsChain n i k v c h.2)

pub length-assign : (k : Ptr) (v : Ptr) (c : Chain) → length (assign k v c) ≡ length c
unfolding assign
length-assign k v [] = refl
length-assign k v ((j, u) ∷ c) = ground (arith, length-assign k v c)

-- Two parts without a common key.
pub Distinct-append :
    (a b : Chain)
    → Distinct a
    → Distinct b
    → ((q : Ptr) → find_in q a ≢ none → find_in q b ≡ none)
    → Distinct (a ++ b)
unfolding find_in
Distinct-append [] b da db apart = db
Distinct-append ((k, v) ∷ a) b da db apart = (
  ground (arith, find_in-append k a b, apart k),
  Distinct-append a b da.1 db (λ q ne. apart q (ground arith)),
)
