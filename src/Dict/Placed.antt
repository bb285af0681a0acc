-- ===== src/Dict/Placed.antt =====
-- Well-formed dictionaries, their entries, and a change of one chain (`dic->table[n] = ...`).
use mathlib.Core.List.{flatten}
use cs453_2025_project.Prelude.{
  ℕ, ◌+◌, ◌≡◌, refl, ◌<◌, none, some, [], ◌∷◌, ◌==◌, if◌then◌else◌, arith, length, set, length-set,
  ◌∙◌, sym, get_or-set,
}
use cs453_2025_project.Machine.{Ptr}
use cs453_2025_project.Dict.{Chain, Dictionary, slot, find_in, chain_of, push_node}
use cs453_2025_project.Dict.Chain.{IsChain, Distinct}
use cs453_2025_project.Dict.Table.{
  IsTable, get_or-IsChain, set-IsTable, find_in-flatten, flatten-Distinct, length-flatten-set,
}

-- All entries, in the order of `dic_forEach`.
unfoldable pub entries : Dictionary → Chain
unfolding flatten
entries d = flatten d.table

-- The table has its stated width and every key is in its bucket, once.
pub record IsPlaced (d : Dictionary) : Type 0 where
  pub wide : length d.table ≡ d.width
  pub positive : 0 < d.width
  pub placed : IsTable d.width 0 d.table

-- Well-formed: and `count` counts the entries.
pub record IsDict (d : Dictionary) : Type 0 where
  pub buckets : IsPlaced d
  pub counted : d.count ≡ length (entries d)

pub slot-lt : (q n : ℕ) → 0 < n → slot q n < n
unfolding slot
slot-lt q n h = omega arith

module _ (d : Dictionary) (wf : IsPlaced d) where
  pub chain_of-IsChain : (q : Ptr) → IsChain d.width (slot q d.width) (chain_of d q)
  chain_of-IsChain q =
      get_or-IsChain d.width 0 (slot q d.width) (slot q d.width) d.table (omega arith) wf.placed

  pub find_in-entries : (q : Ptr) → find_in q (entries d) ≡ find_in q (chain_of d q)
  unfolding entries
  find_in-entries q = find_in-flatten d.width 0 (slot q d.width) d.table q wf.placed (omega arith)

  -- A well-formed table has no key twice.
  pub entries-Distinct : Distinct (entries d)
  unfolding entries
  entries-Distinct = flatten-Distinct d.width 0 d.table wf.placed

module _ (d : Dictionary) (wf : IsPlaced d) where
  -- The table with another chain in the place of the home chain of `k`.
  abbrev pub with_chain : Ptr → Chain → Dictionary
  with_chain k c = record d { table = set d.table (slot k d.width) c }

  pub with_chain-IsPlaced :
      (k : Ptr) (c : Chain) → IsChain d.width (slot k d.width) c → IsPlaced (with_chain k c)
  with_chain-IsPlaced k c hc = record {
    wide = length-set d.table (slot k d.width) c ∙ wf.wide;
    positive = wf.positive;
    placed =
        set-IsTable d.width 0 (slot k d.width) (slot k d.width) d.table c (omega arith) wf.placed
          hc;
  }

  chain_of-with_chain :
      (k q : Ptr) (c : Chain)
      → chain_of (with_chain k c) q ≡ (if slot k d.width == slot q d.width then c else chain_of d q)
  chain_of-with_chain k q c =
      get_or-set d.table (slot k d.width) (slot q d.width) c []
        (omega (arith, wf.wide, slot-lt k d.width wf.positive))

  pub length-with_chain :
      (k : Ptr) (c : Chain)
      → length (entries (with_chain k c)) + length (chain_of d k) ≡ length (entries d) + length c
  unfolding entries
  length-with_chain k c =
      length-flatten-set d.table (slot k d.width) c
        (omega (arith, wf.wide, slot-lt k d.width wf.positive))

  -- What the keys find, if the new chain differs from the old one at `k` alone.
  pub find_in-with_chain :
      (k q : Ptr) (c : Chain) (v : Ptr)
      → IsChain d.width (slot k d.width) c
      → ((q : Ptr) → find_in q c ≡ (if q == k then some v else find_in q (chain_of d k)))
      → find_in q (entries (with_chain k c)) ≡ (if q == k then some v else find_in q (entries d))
  find_in-with_chain k q c v hc reads = ground (
    arith,
    find_in-entries (with_chain k c) (with_chain-IsPlaced k c hc) q,
    find_in-entries d wf q,
    chain_of-with_chain k q c,
    reads q,
  )

-- What a new node does to a well-formed table that does not hold its key.
pub record Pushed (d : Dictionary) (k v : Ptr) (d' : Dictionary) : Type 0 where
  pub placed : IsPlaced d'
  pub reads :
      (q : Ptr) → find_in q (entries d') ≡ (if q == k then some v else find_in q (entries d))
  pub longer : length (entries d') ≡ length (entries d) + 1
  pub width : d'.width ≡ d.width
  pub count : d'.count ≡ d.count

pub push_node-Pushed :
    (d : Dictionary) (k v : Ptr)
    → IsPlaced d
    → find_in k (entries d) ≡ none
    → Pushed d k v (push_node d (k, v))
unfolding push_node find_in entries
push_node-Pushed d k v wf absent =
    let fresh : find_in k (chain_of d k) ≡ none = sym (find_in-entries d wf k) ∙ absent in
    let c : Chain = (k, v) ∷ chain_of d k in
    let hc : IsChain d.width (slot k d.width) c = (refl, fresh, chain_of-IsChain d wf k) in
    let t = with_chain-IsPlaced d wf k c hc in
    record {
      placed = record { wide = t.wide; positive = t.positive; placed = t.placed };
      reads = λ q. find_in-with_chain d wf k q c v hc (λ p. ground arith);
      longer = omega (arith, length-with_chain d wf k c);
      width = refl;
      count = refl;
    }
