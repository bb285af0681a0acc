-- ===== src/Discipline/Rules.antt =====
-- The rules by which a program is seen to keep the discipline, part by part.
use cs453_2025_project.Prelude.{◌≡◌, refl, Bool, true, false, if◌then◌else◌, inr, subst, sym}
use cs453_2025_project.Machine.{
  Action, atomic_store, compare_exchange, compare_exchange_weak, fetch_add, fetch_sub, clear_atoms,
  write_word, clear_words, Reply, Prog, ret, act, fault, out_of_fuel, ◌>>=◌,
}
use cs453_2025_project.Discipline.{Scope, Ghost, Allowed, after, Keeps, Harmless, Quiet}

module _ (s : Scope) where
  pub Quiet-bind :
      {A B : Type 0} (m : Prog A) (f : A → Prog B)
      → Quiet s m
      → ((a : A) → Quiet s (f a))
      → Quiet s (m >>= f)
  Quiet-bind (ret a) f h k = k a
  Quiet-bind (act a c) f h k = (h.0, λ r. Quiet-bind (c r) f (h.1 r) k)
  Quiet-bind fault f h k = tt
  Quiet-bind out_of_fuel f h k = tt

  pub Quiet-if :
      {A : Type 0} (b : Bool) (m n : Prog A) → Quiet s m → Quiet s n → Quiet s (if b then m else n)
  Quiet-if true m n h k = h
  Quiet-if false m n h k = k

  pub Keeps-bind :
      {A B : Type 0} (Q : B → Ghost → Type 0) (g : Ghost) (m : Prog A) (f : A → Prog B)
      → Keeps s (λ a g'. Keeps s Q g' (f a)) g m
      → Keeps s Q g (m >>= f)
  Keeps-bind Q g (ret a) f h = h
  Keeps-bind Q g (act a c) f h = (h.0, λ r t. Keeps-bind Q (after s g a r) (c r) f (h.1 r t))
  Keeps-bind Q g fault f h = tt
  Keeps-bind Q g out_of_fuel f h = tt

  pub Keeps-mono :
      {A : Type 0} (Q R : A → Ghost → Type 0) (g : Ghost) (m : Prog A)
      → ((a : A) (g' : Ghost) → Q a g' → R a g')
      → Keeps s Q g m
      → Keeps s R g m
  Keeps-mono Q R g (ret a) up h = up a g h
  Keeps-mono Q R g (act a c) up h = (h.0, λ r t. Keeps-mono Q R (after s g a r) (c r) up (h.1 r t))
  Keeps-mono Q R g fault up h = tt
  Keeps-mono Q R g out_of_fuel up h = tt

  -- What is harmless is allowed, and leaves the thread's knowledge as it is.
  Harmless-Allowed : (g : Ghost) (a : Action) → Harmless s a → Allowed s g a
  Harmless-Allowed g (atomic_store p v) h = inr h
  Harmless-Allowed g (compare_exchange p e d) h = absurd h
  Harmless-Allowed g (compare_exchange_weak p e d) h = h
  Harmless-Allowed g (fetch_add p n) h = absurd h
  Harmless-Allowed g (fetch_sub p n) h = inr h
  Harmless-Allowed g (clear_atoms p n) h = h
  Harmless-Allowed g (write_word p v) h = λ e. cc
  Harmless-Allowed g (clear_words p n) h = h
  Harmless-Allowed g a h = tt

  Harmless-after : (g : Ghost) (a : Action) (r : Reply a) → Harmless s a → after s g a r ≡ g
  Harmless-after g (atomic_store p v) r h = rw h.0 refl
  Harmless-after g (compare_exchange p e d) r h = absurd h
  Harmless-after g (fetch_add p n) r h = absurd h
  Harmless-after g (fetch_sub p n) r h = rw h.0 refl
  Harmless-after g a r h = refl

  -- A quiet part, and then what follows it.
  pub Quiet-Keeps :
      {A B : Type 0} (Q : B → Ghost → Type 0) (g : Ghost) (m : Prog A) (f : A → Prog B)
      → Quiet s m
      → ((a : A) → Keeps s Q g (f a))
      → Keeps s Q g (m >>= f)
  Quiet-Keeps Q g (ret a) f h k = k a
  Quiet-Keeps Q g (act a c) f h k = (
    Harmless-Allowed g a h.0,
    λ r t.
        subst (λ g'. Keeps s Q g' (c r >>= f)) (sym (Harmless-after g a r h.0))
          (Quiet-Keeps Q g (c r) f (h.1 r) k),
  )
  Quiet-Keeps Q g fault f h k = tt
  Quiet-Keeps Q g out_of_fuel f h k = tt

  -- Both branches, each with what its test says.
  pub Keeps-if :
      {A : Type 0} (Q : A → Ghost → Type 0) (g : Ghost) (b : Bool) (m n : Prog A)
      → (b ≡ true → Keeps s Q g m)
      → (b ≡ false → Keeps s Q g n)
      → Keeps s Q g (if b then m else n)
  Keeps-if Q g true m n h k = h refl
  Keeps-if Q g false m n h k = k refl

  -- A part with its postcondition, and what follows it.
  pub Keeps-then :
      {A B : Type 0} (P : A → Ghost → Type 0) (Q : B → Ghost → Type 0) (g : Ghost) (m : Prog A)
      (f : A → Prog B)
      → Keeps s P g m
      → ((a : A) (g' : Ghost) → P a g' → Keeps s Q g' (f a))
      → Keeps s Q g (m >>= f)
  Keeps-then P Q g m f h rest =
      Keeps-bind Q g m f (Keeps-mono P (λ a g'. Keeps s Q g' (f a)) g m rest h)
