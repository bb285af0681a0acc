-- ===== src/Prelude/Bits.antt =====
-- The lowest bit of a word: testing it and setting it.
use Prim.Native.Nat.{
  ℕ, zero, suc, ◌+◌, ◌*◌, ◌/◌, ◌%◌, ◌≤◌, min, max, bit_and, bit_or, digits, bit_and-bitwise,
  bit_or-bitwise,
}
use mathlib.Core.Path.{◌≡◌, refl}
use native.Mathlib.Omega.{arith}

-- A mask without digits clears everything under `&` and nothing under `|`.
masked :
    (count word : ℕ)
    → word ≤ count
    → (digits (λ rest. zero) min count word 0 ≡ 0) × (digits (λ rest. rest) max count word 0 ≡ word)
masked zero zero h = (refl, refl)
masked (suc count) zero h = (refl, refl)
masked zero (suc word) h = absurd (omega arith)
masked (suc count) (suc word) h =
    let upper = masked count (suc word / 2) (omega arith) in
    (omega (arith, upper.0), omega (arith, upper.1))

-- Testing it.
pub bit_and-one : (word : ℕ) → bit_and word 1 ≡ word % 2
bit_and-one zero = bit_and-bitwise 0 1
bit_and-one (suc word) =
    omega (arith, bit_and-bitwise (suc word) 1, masked word (suc word / 2) (omega arith))

-- Setting it.
pub bit_or-one : (word : ℕ) → bit_or word 1 ≡ word / 2 * 2 + 1
bit_or-one zero = bit_or-bitwise 0 1
bit_or-one (suc word) =
    omega (arith, bit_or-bitwise (suc word) 1, masked word (suc word / 2) (omega arith))
