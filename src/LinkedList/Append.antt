-- ===== src/LinkedList/Append.antt =====
-- `ll_init`, `ll_append` and `ll_append_safe`.
use cs453_2025_project.Prelude.{
  ℕ, suc, ◌+◌, ◌%◌, ◌≡◌, ◌≢◌, ◌<◌, refl, true, false, some, List, [], ◌∷◌, ◌++◌, ◌==◌, arith,
  length, length-append, update, ne→==, ◌∙◌, ==_self, updates, update_self, ℕ_discrete,
}
use cs453_2025_project.Machine.{
  Ptr, holds, null, node, Header, empty_header, World, Allocator, perform, ret, ◌>>=◌,
}
use cs453_2025_project.Machine.Run.{run, allocate-some, run-bind_done, done}
use cs453_2025_project.LinkedList.{
  ll_init, ll_append, set_next, set_tail, link_after, link_last, lock_field, size_mod, sizeof_node,
}
use cs453_2025_project.LinkedList.Links.{
  Cells, head_of, last_of, last_item, uses, Links, Apart, IsList, Links-update, cell_last,
  Links-append, last_of-append, last-Apart, run-set_next,
}

-- The list after its last node `p` is linked in.
abbrev pub appended : World → Ptr → Cells → Ptr → Ptr → World
appended w list [] p x = record w {
  list = update w.list list (record { head = p; tail = p; size = 1 });
}
appended w list (c ∷ xs) p x = record w {
  cell = update w.cell (last_of (c ∷ xs)) (some (node (last_item (c ∷ xs)) p));
  list =
      update w.list list (record { head = head_of (c ∷ xs); tail = p; size = length (c ∷ xs) + 1 });
}

module _ (al : Allocator) (w : World) (list : Ptr) where
  -- A new list is empty.
  pub run-ll_init :
      list ≢ null
      → (w' : World) × (run al (ll_init list) w ≡ done true w')
        × IsList w' list []
        × (w'.atom (lock_field list) ≡ 0)
  unfolding ll_init perform update
  run-ll_init h = (
    record w { list = update w.list list empty_header; atom = update w.atom (lock_field list) 0 },
    rw (ne→== list null h) refl,
    record { header = ground arith; links = tt },
    ground arith,
  )

  -- Before `list->size++`.
  abbrev linked : Header → Cells → Ptr → World
  linked h [] p = record w { list = update w.list list (record h { head = p; tail = p }) }
  linked h ((a, y) ∷ xs) p = record w {
    cell = update w.cell (last_of ((a, y) ∷ xs)) (some (node (last_item ((a, y) ∷ xs)) p));
    list = update w.list list (record h { tail = p });
  }

  run-link_after :
      (xs : Cells) (p : Ptr)
      → IsList w list xs
      → run al (link_after (w.list list) list p) w ≡ done tt (linked (w.list list) xs p)
  unfolding link_after perform
  run-link_after [] p l = simp l.header (simp (updates))
  run-link_after ((a, y) ∷ xs) p l =
      let some_head : (a == null) ≡ false = ne→== a null l.links.0 in
      let last = cell_last w.cell (a, y) xs l.links in
      rw l.header (
        rw some_head (
          run-bind_done al (set_next (last_of ((a, y) ∷ xs)) p) (λ _. set_tail list p) w
            (run-set_next al w (last_of ((a, y) ∷ xs)) p (last_item ((a, y) ∷ xs)) null last)
          ∙ simp l.header))

  run-link_last :
      (xs : Cells) (p x : Ptr)
      → IsList w list xs
      → length xs + 1 < size_mod
      → run al (link_last list p) w ≡ done tt (appended w list xs p x)
  unfolding link_last perform
  run-link_last [] p x l fits =
      run-bind_done al (link_after (w.list list) list p) _ w (run-link_after [] p l)
      ∙ simp (updates, l.header)
  run-link_last ((a, y) ∷ xs) p x l fits =
      let small : (suc (length xs) + 1) % size_mod ≡ suc (length xs) + 1 = omega arith in
      run-bind_done al (link_after (w.list list) list p) _ w (run-link_after ((a, y) ∷ xs) p l)
      ∙ simp (updates, l.header, small)

Apart-one : (p x : Ptr) (xs : Cells) → uses p xs ≡ false → Apart xs ((p, x) ∷ [])
Apart-one p x [] h = tt
Apart-one p x ((a, y) ∷ xs) h = (ground arith, Apart-one p x xs (ground arith))

appended-live :
    (w : World) (list : Ptr) (xs : Cells) (p x : Ptr) → (appended w list xs p x).live ≡ w.live
appended-live w list [] p x = refl
appended-live w list (c ∷ xs) p x = refl

-- The list has gained a node at its end, and its header the new length.
appended-IsList :
    (w : World) (list : Ptr) (xs : Cells) (p x : Ptr)
    → Links w.cell xs
    → uses p xs ≡ false
    → p ≢ null
    → w.cell p ≡ some (node x null)
    → IsList (appended w list xs p x) list (xs ++ (p, x) ∷ [])
unfolding update
appended-IsList w list [] p x l fresh some_p here = record {
  header = ground arith;
  links = (some_p, here, refl, tt);
}
appended-IsList w list ((a, y) ∷ xs) p x l fresh some_p here = record {
  header =
      rw
        (
          ==_self list,
          last_of-append ((a, y) ∷ xs) (p, x) [],
          length-append ((a, y) ∷ xs) ((p, x) ∷ []),
        )
        refl;
  links =
      Links-append w.cell (a, y) xs ((p, x) ∷ []) l (some_p, here, refl, tt)
        (Apart-one p x ((a, y) ∷ xs) fresh)
        (last-Apart (a, y) xs ((p, x) ∷ []) (Apart-one p x ((a, y) ∷ xs) fresh));
}

-- malloc answers with an address that is not NULL and that no live block has.
abbrev pub IsFresh : Allocator → Type 0
IsFresh al =
    (calls : ℕ) (live : List Ptr) (align size p : ℕ)
    → al calls live align size ≡ some p
    → (p ≢ null) × (holds p live ≡ false)

-- All nodes are live blocks.
abbrev pub AllLive : World → Cells → Type 0
AllLive w [] = Unit {0}
AllLive w ((a, x) ∷ xs) = (holds a w.live ≡ true) × AllLive w xs

uses_of_dead :
    (w : World) (p : Ptr) (xs : Cells) → AllLive w xs → holds p w.live ≡ false → uses p xs ≡ false
uses_of_dead w p [] l h = refl
uses_of_dead w p ((a, x) ∷ xs) l h = elim (ℕ_discrete p a) [
  | yes same ↦ let clash : holds p w.live ≡ true = rw same l.0 in cc
  | no other ↦ rw (ne→== p a other) (uses_of_dead w p xs l.1 h)
]

module _ (al : Allocator) (w : World) (list : Ptr) (xs : Cells) (x : Ptr)
    (some_list : list ≢ null) where
  -- The world in which the new node is written and not yet linked.
  abbrev noded : Ptr → World
  noded p = record w {
    live = p ∷ w.live;
    calls = w.calls + 1;
    cell = update w.cell p (some (node x null));
  }

  run-ll_append :
      (p : Ptr)
      → al w.calls w.live 16 sizeof_node ≡ some p
      → run al (ll_append list x) w ≡ run al (link_last list p >>= λ _. ret true) (noded p)
  unfolding ll_append perform
  run-ll_append p got =
      rw (ne→== list null some_list) (rw (allocate-some al 16 sizeof_node w p got) refl)

  -- With memory: the list has one more node, at its end, and nothing that it held is lost.
  pub ll_append-IsList :
      (p : Ptr)
      → IsFresh al
      → IsList w list xs
      → AllLive w xs
      → length xs + 1 < size_mod
      → al w.calls w.live 16 sizeof_node ≡ some p
      → (w' : World) × (run al (ll_append list x) w ≡ done true w')
        × IsList w' list (xs ++ (p, x) ∷ [])
        × (w'.live ≡ p ∷ w.live)
  ll_append-IsList p fresh l live fits got =
      let (some_p, dead) = fresh _ _ _ _ p got in
      let unused = uses_of_dead w p xs live dead in
      let v = noded p in
      let links = Links-update w.cell p (some (node x null)) xs unused l.links in
      let l' : IsList v list xs = record { header = l.header; links = links } in
      (
        appended v list xs p x,
        run-ll_append p got
            ∙ run-bind_done al (link_last list p) (λ _. ret true) v
                (run-link_last al v list xs p x l' fits),
        appended-IsList v list xs p x links unused some_p
            (update_self w.cell p (some (node x null))),
        appended-live v list xs p x,
      )
