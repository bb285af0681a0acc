-- ===== src/Dict/Each.antt =====
-- `dic_forEach` is one loop over the entries, and stops where the callback says so.
use mathlib.Core.List.{flatten}
use cs453_2025_project.Prelude.{
  ◌≡◌, refl, Bool, true, false, List, [], ◌∷◌, ◌++◌, if◌then◌else◌, ◌∙◌, sym, ap,
}
use cs453_2025_project.Machine.{Prog, ret, ◌>>=◌}
use cs453_2025_project.Machine.Bind.{bind_assoc, bind_congr}
use cs453_2025_project.Dict.{Chain, Dictionary, EnumFunc, for_chain, for_table, dic_for_each}
use cs453_2025_project.Dict.Placed.{entries}

module _ {S : Type 0} (f : EnumFunc S) where
  -- After a part of the loop: the rest, unless the callback has stopped it.
  abbrev pub and_rest : Chain → Bool × S → Prog (Bool × S)
  and_rest c r = if r.0 then for_chain f c r.1 else ret (false, r.1)

  and_rest_bind :
      (b : Bool) (a c : Chain) (user : S)
      → ((user : S) → for_chain f (a ++ c) user ≡ (for_chain f a user >>= and_rest c))
      → (if b then for_chain f (a ++ c) user else ret (false, user))
        ≡ ((if b then for_chain f a user else ret (false, user)) >>= and_rest c)
  and_rest_bind true a c user ih = ih user
  and_rest_bind false a c user ih = refl

  pub for_chain-append :
      (a c : Chain) (user : S) → for_chain f (a ++ c) user ≡ (for_chain f a user >>= and_rest c)
  unfolding for_chain
  for_chain-append [] c user = refl
  for_chain-append ((k, v) ∷ a) c user =
      bind_congr (f k v user) _ _ (λ r. and_rest_bind r.0 a c r.1 (for_chain-append a c))
      ∙ sym (bind_assoc (f k v user) _ (and_rest c))

  -- The result of the loop, without the answer that ended it.
  abbrev pub user_of : Bool × S → Prog S
  user_of r = ret r.1

  for_table_rest :
      (b : Bool) (cs : List Chain) (user : S)
      → ((user : S) → for_table f cs user ≡ (for_chain f (flatten cs) user >>= user_of))
      → (if b then for_table f cs user else ret user)
        ≡ (and_rest (flatten cs) (b, user) >>= user_of)
  for_table_rest true cs user ih = ih user
  for_table_rest false cs user ih = refl

  for_table-flatten :
      (cs : List Chain) (user : S)
      → for_table f cs user ≡ (for_chain f (flatten cs) user >>= user_of)
  unfolding for_table flatten for_chain
  for_table-flatten [] user = refl
  for_table-flatten (c ∷ cs) user =
      bind_congr (for_chain f c user) _ _ (λ r. for_table_rest r.0 cs r.1 (for_table-flatten cs))
      ∙ sym (bind_assoc (for_chain f c user) (and_rest (flatten cs)) user_of)
      ∙ sym (ap (λ m. m >>= user_of) (for_chain-append c (flatten cs) user))

  -- The loops over buckets and chains are one loop over all the entries.
  pub dic_for_each_chain :
      (d : Dictionary) (user : S)
      → dic_for_each f d user ≡ (for_chain f (entries d) user >>= user_of)
  unfolding dic_for_each entries
  dic_for_each_chain d user = for_table-flatten d.table user

  -- One entry after another: once the callback has answered 0 it is not called again.
  unfoldable pub each_entry : Chain → Bool × S → Prog S
  each_entry [] (go, user) = ret user
  each_entry ((k, v) ∷ c) (true, user) = f k v user >>= each_entry c
  each_entry ((k, v) ∷ c) (false, user) = each_entry c (false, user)

  each_entry-stopped : (c : Chain) (user : S) → each_entry c (false, user) ≡ ret user
  unfolding each_entry
  each_entry-stopped [] user = refl
  each_entry-stopped ((k, v) ∷ c) user = each_entry-stopped c user

  go_or_stop :
      (go : Bool) (c : Chain) (user : S)
      → ((for_chain f c user >>= user_of) ≡ each_entry c (true, user))
      → ((if go then for_chain f c user else ret (false, user)) >>= user_of)
        ≡ each_entry c (go, user)
  go_or_stop true c user ih = ih
  go_or_stop false c user ih = sym (each_entry-stopped c user)

  for_chain-each_entry :
      (c : Chain) (user : S) → (for_chain f c user >>= user_of) ≡ each_entry c (true, user)
  unfolding for_chain each_entry
  for_chain-each_entry [] user = refl
  for_chain-each_entry ((k, v) ∷ c) user =
      bind_assoc (f k v user) _ user_of
      ∙ bind_congr (f k v user) _ _ (λ r. go_or_stop r.0 c r.1 (for_chain-each_entry c r.1))

  -- `dic_forEach` calls the callback on the entries of all buckets, one after another, each with the
  -- state that the one before has left; once it has answered 0 it is not called again, neither in
  -- this bucket nor in the next.
  pub dic_for_each-entries :
      (d : Dictionary) (user : S) → dic_for_each f d user ≡ each_entry (entries d) (true, user)
  dic_for_each-entries d user = dic_for_each_chain d user ∙ for_chain-each_entry (entries d) user
