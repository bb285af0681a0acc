-- ===== src/Dict/Resize.antt =====
-- `dic_resize` and `dic_reinsert_when_resizing`: all entries survive.
use mathlib.Core.List.{flatten}
use cs453_2025_project.Prelude.{
  ℕ, ◌+◌, ◌≡◌, ◌≢◌, refl, ◌<◌, none, List, [], ◌∷◌, ◌++◌, arith, length, length-replicate,
  replicate, ◌∙◌, sym,
}
use cs453_2025_project.Machine.{Ptr}
use cs453_2025_project.Dict.{
  Chain, Dictionary, find_in, push_node, reinsert_chain, reinsert_all, dic_reinsert_when_resizing,
  dic_resize,
}
use cs453_2025_project.Dict.Chain.{Distinct, first_of_two}
use cs453_2025_project.Dict.Table.{replicate-IsTable, flatten-replicate}
use cs453_2025_project.Dict.Placed.{entries, IsPlaced, entries-Distinct, push_node-Pushed}

-- What a loop of reinsertions does.
pub record Reinserted (d : Dictionary) (es : Chain) (d' : Dictionary) : Type 0 where
  pub placed : IsPlaced d'
  pub reads :
      (q : Ptr) → find_in q (entries d') ≡ first_of_two (find_in q es) (find_in q (entries d))
  pub longer : length (entries d') ≡ length (entries d) + length es
  pub width : d'.width ≡ d.width
  pub count : d'.count ≡ d.count

reinsert_chain-Reinserted :
    (d : Dictionary) (es : Chain)
    → IsPlaced d
    → Distinct es
    → ((q : Ptr) → find_in q es ≢ none → find_in q (entries d) ≡ none)
    → Reinserted d es (reinsert_chain d es)
unfolding reinsert_chain find_in
reinsert_chain-Reinserted d [] wf distinct apart = record {
  placed = wf;
  reads = λ q. refl;
  longer = omega arith;
  width = refl;
  count = refl;
}
reinsert_chain-Reinserted d ((k, v) ∷ es) wf distinct apart =
    let p = push_node-Pushed d k v wf (apart k (ground arith)) in
    let r =
      reinsert_chain-Reinserted (push_node d (k, v)) es p.placed distinct.1
        (λ q ne. ground (arith, p.reads q, apart q)) in
    record {
      placed = r.placed;
      reads = λ q. ground (arith, r.reads q, p.reads q);
      longer = omega (arith, r.longer, p.longer);
      width = r.width ∙ p.width;
      count = r.count ∙ p.count;
    }

-- The two nested loops are one loop over all the entries.
reinsert_chain-append :
    (d : Dictionary) (a b : Chain)
    → reinsert_chain d (a ++ b) ≡ reinsert_chain (reinsert_chain d a) b
unfolding reinsert_chain
reinsert_chain-append d [] b = refl
reinsert_chain-append d (e ∷ a) b = reinsert_chain-append (dic_reinsert_when_resizing d e) a b

reinsert_all-flatten :
    (d : Dictionary) (cs : List Chain) → reinsert_all d cs ≡ reinsert_chain d (flatten cs)
unfolding reinsert_all flatten reinsert_chain
reinsert_all-flatten d [] = refl
reinsert_all-flatten d (c ∷ cs) =
    reinsert_all-flatten (reinsert_chain d c) cs ∙ sym (reinsert_chain-append d c (flatten cs))

abbrev pub emptied : Dictionary → ℕ → Dictionary
emptied d n = record d { table = replicate n []; width = n }

pub emptied-entries : (d : Dictionary) (n : ℕ) → entries (emptied d n) ≡ []
unfolding entries
emptied-entries d n = flatten-replicate n

pub emptied-IsPlaced : (d : Dictionary) (n : ℕ) → 0 < n → IsPlaced (emptied d n)
emptied-IsPlaced d n h = record {
  wide = length-replicate n [];
  positive = h;
  placed = replicate-IsTable n 0 n;
}

-- Growing the table keeps every entry, at any new width.
pub dic_resize-Reinserted :
    (d : Dictionary) (n : ℕ)
    → IsPlaced d
    → 0 < n
    → Reinserted (emptied d n) (entries d) (dic_resize d n)
unfolding dic_resize entries find_in
dic_resize-Reinserted d n wf h = rw (reinsert_all-flatten) (
    reinsert_chain-Reinserted (emptied d n) (flatten d.table) (emptied-IsPlaced d n h)
      (entries-Distinct d wf) (λ q ne. rw (flatten-replicate n) refl))
