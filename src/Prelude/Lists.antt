-- ===== src/Prelude/Lists.antt =====
-- Lists with native lengths and indices.
use Prim.Native.Nat.{ℕ, zero, suc, ◌+◌, ◌<◌}
use mathlib.Core.Path.{◌≡◌, refl, ap, fun_ext}
use mathlib.Core.Logic.{◌≢◌}
use mathlib.Core.List.{List, [], ◌∷◌, ◌++◌}
use native.Mathlib.Omega.{arith}
use cs453_2025_project.Prelude.Tests.{◌==◌, if◌then◌else◌}

-- A map from addresses, changed at one address.
unfoldable pub update {ℓ} : {A : Type ℓ} → (ℕ → A) → ℕ → A → ℕ → A
update f p v a = if a == p then v else f a

module _ {ℓ} {A : Type ℓ} (f : ℕ → A) (p : ℕ) where
  pub update_self : (v : A) → update f p v p ≡ v
  unfolding update
  update_self v = ground arith

  pub update_other : (a : ℕ) (v : A) → a ≢ p → update f p v a ≡ f a
  unfolding update
  update_other a v h = ground arith

  pub update_lem : (a : ℕ) (v : A) → update f p v a ≡ (if a == p then v else f a)
  unfolding update
  update_lem a v = refl

  pub update-update : (u v : A) → update (update f p u) p v ≡ update f p v
  unfolding update
  update-update u v = fun_ext (λ a. ground arith)

pub map-update {ℓ} :
    {A B : Type ℓ} (k : A → B) (f : ℕ → A) (p : ℕ) (v : A) (a : ℕ)
    → k (update f p v a) ≡ (if a == p then k v else k (f a))
unfolding update
map-update k f p v a = ground arith

pub update_same {ℓ} : {A : Type ℓ} (f : ℕ → A) (p : ℕ) → update f p (f p) ≡ f
unfolding update
update_same f p = fun_ext (λ a. ground arith)

module _ {ℓ} {A : Type ℓ} where
  abbrev pub length : List A → ℕ
  length [] = 0
  length (x ∷ xs) = suc (length xs)

  unfoldable pub replicate : ℕ → A → List A
  replicate zero a = []
  replicate (suc n) a = a ∷ replicate n a

  unfoldable pub get_or : List A → ℕ → A → A
  get_or [] i d = d
  get_or (x ∷ xs) zero d = x
  get_or (x ∷ xs) (suc i) d = get_or xs i d

  -- A write out of bounds changes nothing.
  abbrev pub set : List A → ℕ → A → List A
  set [] i v = []
  set (x ∷ xs) zero v = v ∷ xs
  set (x ∷ xs) (suc i) v = x ∷ set xs i v

  pub length-append : (xs ys : List A) → length (xs ++ ys) ≡ length xs + length ys
  length-append [] ys = omega arith
  length-append (x ∷ xs) ys = omega (arith, length-append xs ys)

  pub length-set : (xs : List A) (i : ℕ) (v : A) → length (set xs i v) ≡ length xs
  length-set (x ∷ xs) (suc i) v = ap suc (length-set xs i v)
  length-set _ _ v = refl

  pub length-replicate : (n : ℕ) (a : A) → length (replicate n a) ≡ n
  unfolding replicate
  length-replicate zero a = refl
  length-replicate (suc n) a = ap suc (length-replicate n a)

  pub get_or-replicate : (n i : ℕ) (a : A) → get_or (replicate n a) i a ≡ a
  unfolding replicate get_or
  get_or-replicate (suc n) (suc i) a = get_or-replicate n i a
  get_or-replicate _ _ a = refl

  pub get_or-set :
      (xs : List A) (i j : ℕ) (v d : A)
      → i < length xs
      → get_or (set xs i v) j d ≡ (if i == j then v else get_or xs j d)
  unfolding get_or
  get_or-set [] i j v d h = absurd (omega arith)
  get_or-set (x ∷ xs) (suc i) (suc j) v d h = ground (arith, get_or-set xs i j v d)
  get_or-set (x ∷ xs) zero zero v d h = ground arith
  get_or-set (x ∷ xs) i j v d h = ground arith
