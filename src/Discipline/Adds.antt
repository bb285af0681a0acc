-- ===== src/Discipline/Adds.antt =====
-- `dic_add` makes no access to memory; it returns, or it leaves the range of `int`.
use cs453_2025_project.Prelude.{ℕ, inl, inr, subst, sym, Option, none, some}
use cs453_2025_project.Machine.{Ptr, Prog, ◌>>=◌}
use cs453_2025_project.Dict.{Dictionary, or_fault, dic_add}
use cs453_2025_project.Dict.Placed.{IsDict}
use cs453_2025_project.Dict.Add.{Added, dic_add-cases}
use cs453_2025_project.Discipline.{Scope, Ghost, Keeps}

module _ (s : Scope) {A : Type 0} (Q : A → Ghost → Type 0) (g : Ghost) (d : Dictionary) (key : Ptr)
    (f : Dictionary × ℕ → Prog A) where
  or_fault-Keeps :
      (o : Option (Dictionary × ℕ))
      → ((r : Dictionary × ℕ) → Keeps s Q g (f r))
      → Keeps s Q g (or_fault o >>= f)
  or_fault-Keeps none rest = tt
  or_fault-Keeps (some r) rest = rest r

  pub dic_add-Keeps : ((r : Dictionary × ℕ) → Keeps s Q g (f r)) → Keeps s Q g (dic_add d key >>= f)
  unfolding dic_add
  dic_add-Keeps rest = or_fault-Keeps _ rest

  -- With what `dic_add` promises.
  pub Added-Keeps :
      IsDict d
      → ((d' : Dictionary) (res : ℕ) → Added d key d' res → Keeps s Q g (f (d', res)))
      → Keeps s Q g (dic_add d key >>= f)
  Added-Keeps wf rest = elim (dic_add-cases d key wf) [
    | inl e ↦ subst (λ m. Keeps s Q g (m >>= f)) (sym e) tt
    | inr (d', res, e, a) ↦ subst (λ m. Keeps s Q g (m >>= f)) (sym e) (rest d' res a)
  ]
