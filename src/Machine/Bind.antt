-- ===== src/Machine/Bind.antt =====
-- The monad laws of programs.
use cs453_2025_project.Prelude.{◌≡◌, refl, fun_ext, ap}
use cs453_2025_project.Machine.{Prog, ret, act, fault, out_of_fuel, ◌>>=◌}

pub bind-ret : {A : Type 0} (m : Prog A) → (m >>= λ a. ret a) ≡ m
bind-ret (ret a) = refl
bind-ret (act a k) = ap (act a) (fun_ext (λ r. bind-ret (k r)))
bind-ret fault = refl
bind-ret out_of_fuel = refl

pub bind_assoc :
    {A B C : Type 0} (m : Prog A) (f : A → Prog B) (g : B → Prog C)
    → ((m >>= f) >>= g) ≡ (m >>= λ a. f a >>= g)
bind_assoc (ret a) f g = refl
bind_assoc (act a k) f g = ap (act a) (fun_ext (λ r. bind_assoc (k r) f g))
bind_assoc fault f g = refl
bind_assoc out_of_fuel f g = refl

-- Two programs that go on alike.
pub bind_congr :
    {A B : Type 0} (m : Prog A) (f g : A → Prog B) → ((a : A) → f a ≡ g a) → (m >>= f) ≡ (m >>= g)
bind_congr m f g h = ap (λ k. m >>= k) (fun_ext h)
