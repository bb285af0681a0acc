-- ===== src/Discipline/Commit.antt =====
-- `tm_end` keeps the discipline, whatever the other threads do meanwhile, and leaves the thread
-- without a lock on each of its branches; `tm_begin`, `tm_read` and `tm_write` are quiet.
use cs453_2025_project.Prelude.{
  ℕ, ◌+◌, ◌%◌, ◌≡◌, ◌≢◌, ◌≤◌, refl, Bool, true, false, Option, none, some, ◌==◌, if◌then◌else◌,
  arith, sym, ◌∙◌, subst, ==→eq,
}
use cs453_2025_project.Machine.{Ptr, null, ret, int_mod, ◌>>=◌}
use cs453_2025_project.VersionLock.{lock_check, lock_check_version}
use cs453_2025_project.Dict.{Dictionary, dic_new, dic_find, dic_for_each}
use cs453_2025_project.Dict.Placed.{entries, IsDict}
use cs453_2025_project.Dict.Add.{dic_find_lem}
use cs453_2025_project.LinkedList.{lock_field, ll_concat_safe}
use cs453_2025_project.Transaction.{
  Transaction, free_block, lock_unique_lock_set, unique_lock_create, unlock_unique_lock_set_until,
  validate_reading_set, write_writing_set, update_unique_lock_set, tx_destroy,
}
use cs453_2025_project.Tm.{publish, roll_back, validate_and_publish, commit, tm_end}
use cs453_2025_project.Discipline.{Scope, Ghost, Elsewhere, Keeps}
use cs453_2025_project.Discipline.Rules.{Quiet-if, Keeps-mono, Keeps-if, Quiet-Keeps, Keeps-then}
use cs453_2025_project.Discipline.Lists.{ll_concat_safe-Quiet, tx_destroy-Quiet}
use cs453_2025_project.Discipline.Locks.{
  keyed, before, before-null, Taken, lock_all-Keeps, GivenUp, unlock_all-Keeps,
}
use cs453_2025_project.Discipline.Loops.{
  each-Keeps, loop-Keeps, write_all-Keeps, Published, update_all-Keeps,
}
use cs453_2025_project.Discipline.Unique.{UniqueLocks, unique_lock_create-Keeps}

-- No lock is owned.
abbrev pub NoneOwned {ℓ} : {A : Type ℓ} → A → Ghost → Type 0
NoneOwned a g = (p : Ptr) → g.own p ≡ false

-- What the region's addresses satisfy: the lock array is not at NULL, and the lock of the list of
-- segments is neither in it nor at the global version.
pub record IsLaidOut (s : Scope) : Type 0 where
  pub some_locks : s.region.locks ≢ null
  pub list_lock : Elsewhere s (lock_field s.region.segments)

module _ (s : Scope) (laid : IsLaidOut s) (rounds : ℕ) where
  -- The thread owns exactly these locks.
  abbrev Owns : Dictionary → Ghost → Type 0
  Owns ul g = (p : Ptr) → g.own p ≡ keyed p (entries ul)

  ends :
      (b : Bool) (tx : Transaction) (committed : Bool) (ri : Ptr) (g : Ghost)
      → ((p : Ptr) → g.own p ≡ false)
      → Keeps s NoneOwned g (free_block ri >>= λ _. tx_destroy rounds tx committed >>= λ _. ret b)
  ends b tx committed ri g free = (
    tt,
    λ u t.
        Quiet-Keeps s NoneOwned g (tx_destroy rounds tx committed) (λ _. ret b)
          (tx_destroy-Quiet s rounds tx committed) (λ u. free),
  )

  publish-Keeps :
      (tx : Transaction) (ul : Dictionary) (ri version : ℕ) (g : Ghost)
      → UniqueLocks s tx.write_set ul
      → Owns ul g
      → version % 2 ≡ 0
      → version ≤ g.bound
      → Keeps s NoneOwned g (publish rounds s.region tx ul ri version)
  unfolding publish
  publish-Keeps tx ul ri version g u owns even low =
      Keeps-then s (λ _ g'. g' ≡ g) NoneOwned g (dic_for_each write_writing_set tx.write_set tt) _
        (each-Keeps s write_writing_set (λ _ g'. g' ≡ g) g tx.write_set tt
          (write_all-Keeps s (entries tx.write_set) g (λ k e. owns _ ∙ u.covers k e)))
        (λ _ g' same. rw same (
          Keeps-then s (λ _ g'. (p : Ptr) → g'.own p ≡ false) NoneOwned g
            (dic_for_each (update_unique_lock_set version) ul tt) _
            (each-Keeps s (update_unique_lock_set version) (λ _ g'. (p : Ptr) → g'.own p ≡ false) g
              ul tt
              (Keeps-mono s (Published s (entries ul) g) _ g _
                (λ r x t p. ground (arith, t.owns p, owns p))
                (update_all-Keeps s version (entries ul) g u.locks u.distinct even low
                  (λ a e. owns a ∙ e))))
            (λ _ x free.
              Quiet-Keeps s NoneOwned x (ll_concat_safe rounds s.region.segments tx.alloc_set) _
                (ll_concat_safe-Quiet s rounds s.region.segments tx.alloc_set laid.list_lock)
                (λ _. ends true tx true ri x free))))

  roll_back-Keeps :
      (tx : Transaction) (ul : Dictionary) (ri until : ℕ) (g : Ghost)
      → UniqueLocks s tx.write_set ul
      → ((p : Ptr) → g.own p ≡ before until (entries ul) p)
      → Keeps s NoneOwned g (roll_back rounds tx ul ri until)
  unfolding roll_back
  roll_back-Keeps tx ul ri until g u owns =
      Keeps-then s (λ _ g'. (p : Ptr) → g'.own p ≡ false) NoneOwned g
        (dic_for_each unlock_unique_lock_set_until ul until) _
        (each-Keeps s unlock_unique_lock_set_until (λ _ g'. (p : Ptr) → g'.own p ≡ false) g ul until
          (Keeps-mono s (GivenUp s until (entries ul) g) _ g _
            (λ r x t p. ground (arith, t.owns p, owns p))
            (unlock_all-Keeps s until (entries ul) g u.locks u.distinct (λ a e. owns a ∙ e))))
        (λ _ x free. ends false tx false ri x free)

  -- Validation looks at locks, and changes of the write set no more than its `value`.
  abbrev Checked : Dictionary → Ghost → Dictionary × Bool → Ghost → Type 0
  Checked ws g u g' = (entries u.0 ≡ entries ws) × IsDict u.0 × (g' ≡ g)

  validate-Keeps :
      (version k v : ℕ) (ws : Dictionary) (g : Ghost) (u : Dictionary × Bool) (g' : Ghost)
      → Checked ws g u g'
      → Keeps s (λ r x. Checked ws g r.1 x) g' (validate_reading_set s.region version k v u)
  unfolding validate_reading_set lock_check lock_check_version
  validate-Keeps version k v ws g (d, valid) g' (same, wf, e) =
      let (wf', kept, _, _) = dic_find_lem d k wf in
      Quiet-Keeps s _ g' (if (dic_find d k).1 then _ else _) _
        (Quiet-if s (dic_find d k).1 _ _ (tt, λ r. tt) (tt, λ r. tt))
        (λ res. Keeps-if s _ g' res _ _ (λ t. (kept ∙ same, wf', e)) (λ t. (kept ∙ same, wf', e)))

  same-UniqueLocks :
      (ws ws' ul : Dictionary)
      → entries ws' ≡ entries ws
      → UniqueLocks s ws ul
      → UniqueLocks s ws' ul
  same-UniqueLocks ws ws' ul same u = record {
    locks = u.locks;
    distinct = u.distinct;
    covers = λ k e. u.covers k (let e' : keyed k (entries ws) ≡ true = rw same at e in e');
  }

  validate_and_publish-Keeps :
      (tx : Transaction) (ul : Dictionary) (ri : ℕ) (g : Ghost)
      → UniqueLocks s tx.write_set ul
      → IsDict tx.write_set
      → Owns ul g
      → Keeps s NoneOwned g (validate_and_publish rounds s.region tx ul ri)
  unfolding validate_and_publish
  validate_and_publish-Keeps tx ul ri g u wf owns = (
    (refl, refl),
    λ r told.
        let g' = record g { bound = r + 2 } in
        let version = (r + 2) % int_mod in
        Keeps-if s NoneOwned g' (version == (tx.read_version + 2) % int_mod) _ _
          (λ t. publish-Keeps tx ul ri version g' u owns (omega arith) (omega arith))
          (λ t.
            Keeps-then s (Checked tx.write_set g') NoneOwned g'
              (dic_for_each (validate_reading_set s.region tx.read_version) tx.read_set
                (tx.write_set, true))
              _
              (each-Keeps s (validate_reading_set s.region tx.read_version)
                (Checked tx.write_set g') g' tx.read_set (tx.write_set, true)
                (loop-Keeps s (validate_reading_set s.region tx.read_version)
                  (Checked tx.write_set g') (entries tx.read_set)
                  (λ k v w x e i. validate-Keeps tx.read_version k v tx.write_set g' w x i)
                  (tx.write_set, true) g' (refl, wf, refl)))
              (λ w x i.
                let u' = same-UniqueLocks tx.write_set w.0 ul i.0 u in
                let checked = record tx { write_set = w.0 } in
                subst
                  (λ y. Keeps s NoneOwned y (
                    if w.1
                    then publish rounds s.region checked ul ri version
                    else roll_back rounds checked ul ri null))
                  (sym i.2)
                  (Keeps-if s NoneOwned g' w.1 _ _
                    (λ t.
                      publish-Keeps checked ul ri version g' u' owns (omega arith) (omega arith))
                    (λ t.
                      roll_back-Keeps checked ul ri null g' u'
                        (λ p. owns p ∙ sym (before-null s p (entries ul) u.locks)))))),
  )

  commit-Keeps :
      (tx : Transaction) (ri : ℕ) (g : Ghost)
      → IsDict tx.write_set
      → ((p : Ptr) → g.own p ≡ false)
      → Keeps s NoneOwned g (commit rounds s.region tx ri)
  unfolding commit
  commit-Keeps tx ri g wf free =
      Keeps-then s (λ ul x. (x ≡ g) × UniqueLocks s tx.write_set ul) NoneOwned g
        (dic_for_each (unique_lock_create s.region) tx.write_set (dic_new 0)) _
        (unique_lock_create-Keeps s tx.write_set g laid.some_locks)
        (λ ul g' (same, u). rw same (
          Keeps-then s (λ l x. (p : Ptr) → x.own p ≡ before l (entries ul) p) NoneOwned g
            (dic_for_each lock_unique_lock_set ul null) _
            (each-Keeps s lock_unique_lock_set
              (λ l x. (p : Ptr) → x.own p ≡ before l (entries ul) p) g ul null
              (Keeps-mono s (Taken s (entries ul) g) _ g _
                (λ r x t p. ground (arith, t.owns p, free p))
                (lock_all-Keeps s (entries ul) g u.locks u.distinct)))
            (λ l x owns.
              Keeps-if s NoneOwned x (l == null) _ _
                (λ t.
                  validate_and_publish-Keeps tx ul ri x u wf
                    (λ p. owns p ∙ (rw (==→eq l null t) (before-null s p (entries ul) u.locks))))
                (λ t. roll_back-Keeps tx ul ri l x u owns))))

  end_block :
      (tx : Transaction) (g : Ghost)
      → IsDict tx.write_set
      → ((p : Ptr) → g.own p ≡ false)
      → (block : Option Ptr)
      → Keeps s NoneOwned g (elim block [
        | none ↦ tx_destroy rounds tx false >>= λ _. ret false
        | some ri ↦ commit rounds s.region tx ri
      ])
  end_block tx g wf free none =
      Quiet-Keeps s NoneOwned g (tx_destroy rounds tx false) (λ _. ret false)
        (tx_destroy-Quiet s rounds tx false) (λ u. free)
  end_block tx g wf free (some ri) = commit-Keeps tx ri g wf free

  -- Whatever branch `tm_end` takes, it keeps the discipline and ends without a lock.
  pub tm_end-Keeps :
      (tx : Transaction) (g : Ghost)
      → IsDict tx.write_set
      → ((p : Ptr) → g.own p ≡ false)
      → Keeps s NoneOwned g (tm_end rounds s.region tx)
  unfolding tm_end
  tm_end-Keeps tx g wf free =
      Keeps-if s NoneOwned g tx.read_only _ _
        (λ t.
          Quiet-Keeps s NoneOwned g (tx_destroy rounds tx true) (λ _. ret true)
            (tx_destroy-Quiet s rounds tx true) (λ u. free))
        (λ t. (tt, λ block told. end_block tx g wf free block))
