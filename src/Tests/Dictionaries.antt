-- ===== src/Tests/Dictionaries.antt =====
-- The dictionary (415640/dict.c) at concrete inputs.
use cs453_2025_project.Prelude.{
  ℕ, suc, ◌+◌, ◌*◌, ◌<◌, true, subst, sym, ◌≡◌, refl, false, some, ◌==◌, ◌∷◌, [], if◌then◌else◌,
  arith,
}
use cs453_2025_project.Machine.{World, Prog, Ptr, null, ret, ◌>>=◌}
use cs453_2025_project.Dict.{
  int_end, hash_pointer, Dictionary, EnumFunc, dic_new, dic_add, dic_find, dic_resize, find_in,
  add_rounds, write_value, dic_for_each,
}
use cs453_2025_project.Dict.Placed.{entries, IsDict}
use cs453_2025_project.Dict.Resize.{Reinserted, emptied, dic_resize-Reinserted}
use cs453_2025_project.Dict.Add.{Added, found, dic_add-Added, dic_find_lem, dic_new-IsDict}
use cs453_2025_project.Dict.Put.{find-put}
use cs453_2025_project.Dict.Each.{dic_for_each-entries, each_entry}
use cs453_2025_project.Machine.Run.{run, done}
use cs453_2025_project.Transaction.{lock_unique_lock_set, unlock_unique_lock_set_until}
use cs453_2025_project.Tm.RollBack.{first_held, unlock-lock}
use cs453_2025_project.Tests.World.{start_world, bump, program}

-- The dictionary that a call of `dic_add` leaves.
abbrev left_by : Dictionary → Prog (Dictionary × ℕ) → Dictionary
left_by d (ret r) = r.0
left_by d m = d

abbrev with_key : Dictionary → Ptr → Dictionary
with_key d key = left_by d (dic_add d key)

with_key-IsDict :
    (d : Dictionary) (key : Ptr) → IsDict d → 40 * d.count < int_end → IsDict (with_key d key)
with_key-IsDict d key wf small =
    let (d', res, e, _, a) = dic_add-Added d key wf small in
    subst (λ m. IsDict (left_by d m)) (sym e) a.wf

-- Two keys in one of two buckets; the third key found the other bucket empty, and the table full.
abbrev crowded : Dictionary
crowded = with_key (with_key (dic_new 2) 8) 24

abbrev three_keys : Dictionary
three_keys = with_key crowded 16

few_keys : ((with_key (dic_new 2) 8).count ≡ 1) × (crowded.count ≡ 2) × (three_keys.count ≡ 3)
unfolding program
few_keys = (refl, refl, refl)

crowded-IsDict : IsDict crowded
crowded-IsDict =
    with_key-IsDict (with_key (dic_new 2) 8) 24
      (with_key-IsDict (dic_new 2) 8 (dic_new-IsDict 2) (unfold dic_new in omega arith))
      (omega (arith, few_keys.0))

three_keys-IsDict : IsDict three_keys
three_keys-IsDict = with_key-IsDict crowded 16 crowded-IsDict (omega (arith, few_keys.1))

-- The hash of a pointer, as the C code computes it.
hash_test : hash_pointer 1000 ≡ 1188308959
unfolding program
hash_test = refl

-- The table has grown to forty buckets and holds all three keys.
grown_test :
    (three_keys.width ≡ 40) × (entries three_keys ≡ (24, null) ∷ (16, null) ∷ (8, null) ∷ [])
unfolding program entries
grown_test = (refl, refl)

dic_add-Added_example :
    (d' : Dictionary) × (res : ℕ) × (dic_add crowded 16 ≡ ret (d', res))
    × (add_rounds (suc crowded.count) crowded 16 ≡ some (d', res))
    × Added crowded 16 d' res
dic_add-Added_example = dic_add-Added crowded 16 crowded-IsDict (omega (arith, few_keys.1))

find-put_example :
    (added d' : Dictionary) × (res : ℕ) × (dic_add three_keys 16 ≡ ret (added, res))
    × (write_value added 5 ≡ some d')
    × IsDict d'
    × ((q : Ptr)
        → find_in q (entries d') ≡ (if q == 16 then some 5 else find_in q (entries three_keys)))
find-put_example = find-put three_keys 16 5 three_keys-IsDict (omega (arith, few_keys.2))

dic_find_lem_example :
    (IsDict (dic_find three_keys 8).0)
    × (entries (dic_find three_keys 8).0 ≡ entries three_keys)
    × ((dic_find three_keys 8).1 ≡ found (find_in 8 (entries three_keys)))
    × ((dic_find three_keys 8).0.value
        ≡ (if found (find_in 8 (entries three_keys)) then some 8 else three_keys.value))
dic_find_lem_example = dic_find_lem three_keys 8 three_keys-IsDict

dic_resize-Reinserted_example :
    Reinserted (emptied three_keys 400) (entries three_keys) (dic_resize three_keys 400)
dic_resize-Reinserted_example =
    dic_resize-Reinserted three_keys 400 three_keys-IsDict.buckets (omega arith)

-- Counts the keys until it has seen one.
first_only : EnumFunc ℕ
first_only k v n = ret (false, n + 1)

dic_for_each-entries_example :
    dic_for_each first_only three_keys 0 ≡ each_entry first_only (entries three_keys) (true, 0)
dic_for_each-entries_example = dic_for_each-entries first_only three_keys 0

-- Two locks, of which the second to be tried is held.
abbrev one_held : World
one_held = record start_world { atom = λ a. if a == 8 then 5 else 4 }

unlock-lock_example :
    (w' : World) × (run bump
        (dic_for_each lock_unique_lock_set crowded null >>= λ failed.
          dic_for_each unlock_unique_lock_set_until crowded failed)
        one_held
      ≡ done (first_held one_held.atom (entries crowded)) w')
    × ((p : Ptr) → w'.atom p ≡ one_held.atom p)
unfolding program entries
unlock-lock_example =
    unlock-lock bump crowded one_held crowded-IsDict.buckets refl (λ p. ground arith)

held_test : first_held one_held.atom (entries crowded) ≡ 8
unfolding program entries
held_test = refl
