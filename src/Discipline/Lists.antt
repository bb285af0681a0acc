-- ===== src/Discipline/Lists.antt =====
-- Loops over dictionaries and linked lists, and the end of a transaction, are quiet.
use cs453_2025_project.Prelude.{ℕ, zero, suc, Bool, true, some, List, [], ◌∷◌, ◌==◌, ◌||◌}
use cs453_2025_project.Machine.{Ptr, null, Prog, ret, ◌>>◌}
use cs453_2025_project.VersionLock.{lock_acquire, lock_release}
use cs453_2025_project.Dict.{Chain, Dictionary, EnumFunc, for_chain, for_table, dic_for_each}
use cs453_2025_project.LinkedList.{
  lock_field, set_head, set_tail, set_size, free_nodes, keep_item, ll_destroy, destroy_item,
  ll_destroy_nested, splice, ll_concat_safe,
}
use cs453_2025_project.Transaction.{
  Transaction, free_block, nested_free_value_dict, dic_nested_destroy, tx_destroy,
}
use cs453_2025_project.Discipline.{Scope, Elsewhere, Quiet}
use cs453_2025_project.Discipline.Rules.{Quiet-bind, Quiet-if}

module _ (s : Scope) where
  module _ {S : Type 0} (f : EnumFunc S) (quiet : (k v : Ptr) (u : S) → Quiet s (f k v u)) where
    for_chain-Quiet : (c : Chain) (u : S) → Quiet s (for_chain f c u)
    unfolding for_chain
    for_chain-Quiet [] u = tt
    for_chain-Quiet ((k, v) ∷ c) u =
        Quiet-bind s (f k v u) _ (quiet k v u) (λ r. Quiet-if s r.0 _ _ (for_chain-Quiet c r.1) tt)

    for_table-Quiet : (cs : List Chain) (u : S) → Quiet s (for_table f cs u)
    unfolding for_table
    for_table-Quiet [] u = tt
    for_table-Quiet (c ∷ cs) u =
        Quiet-bind s (for_chain f c u) _ (for_chain-Quiet c u)
          (λ r. Quiet-if s r.0 _ _ (for_table-Quiet cs r.1) tt)

    pub dic_for_each-Quiet : (d : Dictionary) (u : S) → Quiet s (dic_for_each f d u)
    unfolding dic_for_each
    dic_for_each-Quiet d u = for_table-Quiet d.table u

  lock_acquire-Quiet : (rounds lk : ℕ) → Elsewhere s lk → Quiet s (lock_acquire rounds lk)
  unfolding lock_acquire
  lock_acquire-Quiet zero lk out = tt
  lock_acquire-Quiet (suc rounds) lk out =
      (out, λ won. Quiet-if s won _ _ tt (lock_acquire-Quiet rounds lk out))

  lock_release-Quiet : (lk : ℕ) → Elsewhere s lk → Quiet s (lock_release lk)
  unfolding lock_release
  lock_release-Quiet lk out = (out, λ r. tt)

  release_true-Quiet : {lk : ℕ} → Elsewhere s lk → Quiet s (lock_release lk >> ret true)
  release_true-Quiet {lk} out =
      Quiet-bind s (lock_release lk) (λ _. ret true) (lock_release-Quiet lk out) (λ u. tt)

  -- `list->head`, `list->tail` and `list->size` written.
  header-Quiet :
      (list p q : Ptr) (n : ℕ) → Quiet s (set_head list p >> set_tail list q >> set_size list n)
  header-Quiet list p q n =
      (tt, λ h. (tt, λ u. (tt, λ h'. (tt, λ u'. (tt, λ h''. (tt, λ u''. tt))))))

  free_nodes-Quiet :
      (on_item : Ptr → Prog (Unit {0}))
      → ((x : Ptr) → Quiet s (on_item x))
      → (rounds : ℕ) (p : Ptr) → Quiet s (free_nodes on_item rounds p)
  unfolding free_nodes
  free_nodes-Quiet on_item q zero p = Quiet-if s (p == null) _ _ tt tt
  free_nodes-Quiet on_item q (suc rounds) p = Quiet-if s (p == null) _ _ tt (
    tt,
    λ n.
        Quiet-bind s (on_item n.item) _ (q n.item)
          (λ u. (tt, λ u'. free_nodes-Quiet on_item q rounds n.next)),
  )

  ll_destroy-Quiet : (rounds : ℕ) (list : Ptr) → Quiet s (ll_destroy rounds list)
  unfolding ll_destroy
  ll_destroy-Quiet rounds list = Quiet-if s (list == null) _ _ tt (
    tt,
    λ h.
        Quiet-bind s (free_nodes keep_item rounds h.head) _
          (free_nodes-Quiet keep_item (λ x. tt) rounds h.head) (λ u. header-Quiet list null null 0),
  )

  destroy_nested-Quiet :
      (rounds : ℕ) (list : Ptr) → Quiet s (ll_destroy_nested rounds list (some free_block))
  unfolding ll_destroy_nested
  destroy_nested-Quiet rounds list = Quiet-if s (list == null) _ _ tt (
    tt,
    λ h.
        Quiet-bind s (free_nodes (destroy_item free_block) rounds h.head) _
          (free_nodes-Quiet (destroy_item free_block)
            (λ x. Quiet-if s (x == null) _ _ tt (tt, λ u. tt)) rounds h.head)
          (λ u. header-Quiet list null null 0),
  )

  splice-Quiet : (l1 l2 : Ptr) → Quiet s (splice l1 l2)
  unfolding splice
  splice-Quiet l1 l2 = (
    tt,
    λ h1. (
      tt,
      λ h2.
          Quiet-bind s _ _
            (Quiet-if s (h1.head == null) _ _ (header-Quiet l1 h2.head h2.tail h2.size)
              (tt, λ n. (tt, λ u. (tt, λ h. (tt, λ u. (tt, λ h'. (tt, λ u'. tt)))))))
            (λ u. header-Quiet l2 null null 0),
    ),
  )

  pub ll_concat_safe-Quiet :
      (rounds : ℕ) (l1 l2 : Ptr)
      → Elsewhere s (lock_field l1)
      → Quiet s (ll_concat_safe rounds l1 l2)
  unfolding ll_concat_safe
  ll_concat_safe-Quiet rounds l1 l2 out = Quiet-if s (l1 == null || l2 == null) _ _ tt (
      Quiet-if s (l1 == l2) _ _ tt (
        Quiet-bind s (lock_acquire rounds (lock_field l1)) _ (lock_acquire-Quiet rounds _ out) (λ u.
          (
            tt,
            λ h2.
                Quiet-if s (h2.head == null) _ _ (release_true-Quiet out) (
                  Quiet-bind s (splice l1 l2) _ (splice-Quiet l1 l2) (λ u. release_true-Quiet out)),
          ))))

  pub tx_destroy-Quiet :
      (rounds : ℕ) (tx : Transaction) (committed : Bool) → Quiet s (tx_destroy rounds tx committed)
  unfolding tx_destroy dic_nested_destroy nested_free_value_dict
  tx_destroy-Quiet rounds tx committed =
      Quiet-bind s (dic_for_each nested_free_value_dict tx.write_set tt) _
        (dic_for_each-Quiet nested_free_value_dict
          (λ k v u. Quiet-if s (v == null) _ _ tt (tt, λ u. tt)) tx.write_set tt)
        (λ u.
          Quiet-bind s _ _
            (Quiet-if s committed _ _ (ll_destroy-Quiet rounds tx.alloc_set)
              (destroy_nested-Quiet rounds tx.alloc_set))
            (λ u. (tt, λ u'. tt)))
