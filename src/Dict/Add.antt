-- ===== src/Dict/Add.antt =====
-- `dic_new`, `dic_add`, `dic_find` and writes through `dic->value`, against the entries.
use cs453_2025_project.Prelude.{
  ℕ, zero, suc, ◌+◌, ◌*◌, ◌≡◌, refl, ◌≤◌, ◌<◌, ltb, subst, Bool, true, false, Option, none, some,
  [], ◌∷◌, ◌==◌, if◌then◌else◌, arith, length, length-replicate, ◌∙◌, ap, sym, Option-cases, inl,
  inr, ◌⊎◌, Bool-cases,
}
use cs453_2025_project.Machine.{Ptr, null, ret, fault}
use cs453_2025_project.Dict.{
  Chain, Entry, Dictionary, slot, find_in, chain_of, push_node, dic_resize, overloaded,
  growth_factor, int_end, add_node, or_fault, add_rounds, dic_add, dic_find, dic_new, assign,
  write_value, read_value,
}
use cs453_2025_project.Dict.Chain.{first_of_two, find_in-assign, assign-IsChain, length-assign}
use cs453_2025_project.Dict.Table.{replicate-IsTable, flatten-replicate}
use cs453_2025_project.Dict.Placed.{
  entries, IsDict, chain_of-IsChain, find_in-entries, with_chain, with_chain-IsPlaced,
  length-with_chain, find_in-with_chain, push_node-Pushed,
}
use cs453_2025_project.Dict.Resize.{emptied, emptied-entries, dic_resize-Reinserted}

-- What `dic_add` promises: the key is there, with its old value or NULL, no other key has changed,
-- and the result says whether it was there.
pub record Added (d : Dictionary) (key : Ptr) (d' : Dictionary) (res : ℕ) : Type 0 where
  pub wf : IsDict d'
  pub reads :
      (q : Ptr)
      → find_in q (entries d')
        ≡ first_of_two (find_in q (entries d)) (if q == key then some null else none)
  pub code : res ≡ elim (find_in key (entries d)) [ none ↦ 0 | some _ ↦ 1 ]
  pub count : d'.count + res ≡ d.count + 1
  pub cursor : d'.value ≡ some key

pushed-Added :
    (d : Dictionary) (key : Ptr)
    → IsDict d
    → find_in key (entries d) ≡ none
    → Added d key (push_node (record d { count = d.count + 1 }) (key, null)) 0
unfolding entries
pushed-Added d key wf absent =
    let b = wf.buckets in
    let more = record d { count = d.count + 1 } in
    let p =
      push_node-Pushed more key null
        (record { wide = b.wide; positive = b.positive; placed = b.placed }) absent in
    record {
      wf = record { buckets = p.placed; counted = omega (arith, p.count, p.longer, wf.counted) };
      reads = λ q. ground (arith, p.reads q);
      code = rw absent refl;
      count = omega (arith, p.count);
      cursor = unfold push_node in refl;
    }

cursor-IsDict : (d : Dictionary) (c : Option Ptr) → IsDict d → IsDict (record d { value = c })
unfolding entries
cursor-IsDict d c wf = record {
  buckets = record {
    wide = wf.buckets.wide;
    positive = wf.buckets.positive;
    placed = wf.buckets.placed;
  };
  counted = wf.counted;
}

found-Added :
    (d : Dictionary) (key v : Ptr)
    → IsDict d
    → find_in key (entries d) ≡ some v
    → Added d key (record d { value = some key }) 1
unfolding entries
found-Added d key v wf present = record {
  wf = cursor-IsDict d (some key) wf;
  reads = λ q. ground arith;
  code = rw present refl;
  count = omega arith;
  cursor = refl;
}

-- The table after a resize holds what it held before.
grown-IsDict : (d : Dictionary) → IsDict d → IsDict (dic_resize d (d.width * growth_factor))
grown-IsDict d wf =
    let r =
      dic_resize-Reinserted d (d.width * growth_factor) wf.buckets
        (omega (arith, wf.buckets.positive)) in
    record {
      buckets = r.placed;
      counted = omega (
        arith,
        r.count,
        r.longer,
        wf.counted,
        ap length (emptied-entries d (d.width * growth_factor)),
      );
    }

grown-reads :
    (d : Dictionary) (q : Ptr)
    → IsDict d
    → find_in q (entries (dic_resize d (d.width * growth_factor))) ≡ find_in q (entries d)
unfolding find_in
grown-reads d q wf =
    let n = d.width * growth_factor in
    let r = dic_resize-Reinserted d n wf.buckets (omega (arith, wf.buckets.positive)) in
    let e : find_in q (entries (emptied d n)) ≡ none = rw (emptied-entries d n) refl in
    ground (arith, r.reads q, e)

grown-Added :
    (d d' : Dictionary) (key : Ptr) (res : ℕ)
    → IsDict d
    → Added (dic_resize d (d.width * growth_factor)) key d' res
    → Added d key d' res
grown-Added d d' key res wf a = record {
  wf = a.wf;
  reads = λ q. rw (← grown-reads d q wf) (a.reads q);
  code = rw (← grown-reads d key wf) a.code;
  count =
      let r =
        dic_resize-Reinserted d (d.width * growth_factor) wf.buckets
          (omega (arith, wf.buckets.positive)) in
      omega (arith, r.count, a.count);
  cursor = a.cursor;
}

Chain-cases : (c : Chain) → (c ≡ []) ⊎ ((e : Entry) × (r : Chain) × (c ≡ e ∷ r))
Chain-cases [] = inl refl
Chain-cases (e ∷ r) = inr (e, r, refl)

-- What `dic_add` promises if it returns.
abbrev Ends : Dictionary → Ptr → Option (Dictionary × ℕ) → Type 0
Ends d key none = Unit {0}
Ends d key (some (d', res)) = Added d key d' res

-- The three ways of a call.
abbrev Adds : Dictionary → Ptr → Type 0
Adds d key =
    (find_in key (entries d) ≡ none) × ((n : ℕ) → add_rounds (suc n) d key ≡ add_node d key)

abbrev Finds : Dictionary → Ptr → Type 0
Finds d key =
    (v : Ptr) × (find_in key (entries d) ≡ some v)
    × ((n : ℕ) → add_rounds (suc n) d key ≡ some (record d { value = some key }, 1))

abbrev Grows : Dictionary → Ptr → Type 0
Grows d key =
    (overloaded d ≡ true)
    × ((n : ℕ)
        → add_rounds (suc n) d key ≡ (
            if ltb (d.width * growth_factor) int_end
            then add_rounds n (dic_resize d (d.width * growth_factor)) key
            else none))

add_rounds-cases :
    (d : Dictionary) (key : Ptr) → IsDict d → Adds d key ⊎ (Finds d key ⊎ Grows d key)
unfolding add_rounds find_in
add_rounds-cases d key wf =
    let here = find_in-entries d wf.buckets key in
    elim (Chain-cases (chain_of d key)) [
      | inl e ↦ elim (Bool-cases (overloaded d)) [
        | inl big ↦ inr (inr (big, λ n. ground arith))
        | inr calm ↦ inl (here ∙ rw e refl, λ n. ground arith)
      ]
      | inr (x, r, e) ↦ elim (Option-cases (find_in key (chain_of d key))) [
        | inl absent ↦ inl (here ∙ absent, λ n. ground arith)
        | inr (v, present) ↦ inr (inl (v, here ∙ present, λ n. ground arith))
      ]
    ]

add_node-Ends :
    (d : Dictionary) (key : Ptr)
    → IsDict d
    → find_in key (entries d) ≡ none
    → Ends d key (add_node d key)
add_node-Ends d key wf absent = elim (Bool-cases (ltb (d.count + 1) int_end)) [
  | inl t ↦ rw t (pushed-Added d key wf absent)
  | inr t ↦ rw t tt
]

grown-Ends :
    (d : Dictionary) (key : Ptr) (o : Option (Dictionary × ℕ))
    → IsDict d
    → Ends (dic_resize d (d.width * growth_factor)) key o
    → Ends d key o
grown-Ends d key none wf a = tt
grown-Ends d key (some (d', res)) wf a = grown-Added d d' key res wf a

-- Whatever `dic_add` returns is as promised.
add_rounds-Ends :
    (rounds : ℕ) (d : Dictionary) (key : Ptr) → IsDict d → Ends d key (add_rounds rounds d key)
unfolding add_rounds
add_rounds-Ends zero d key wf = tt
add_rounds-Ends (suc rounds) d key wf = elim (add_rounds-cases d key wf) [
  | inl (absent, e) ↦ subst (Ends d key) (sym (e rounds)) (add_node-Ends d key wf absent)
  | inr (inl (v, present, e)) ↦ subst (Ends d key) (sym (e rounds)) (found-Added d key v wf present)
  | inr (inr (big, e)) ↦
      subst (Ends d key) (sym (e rounds))
        (elim (Bool-cases (ltb (d.width * growth_factor) int_end)) [
          | inl t ↦ rw t (
              grown-Ends d key _ wf (
                add_rounds-Ends rounds (dic_resize d (d.width * growth_factor)) key
                  (grown-IsDict d wf)))
          | inr t ↦ rw t tt
        ])
]

add_node-returns :
    (d : Dictionary) (key : Ptr)
    → 40 * d.count < int_end
    → add_node d key ≡ some (push_node (record d { count = d.count + 1 }) (key, null), 0)
add_node-returns d key small = ground arith

-- With rounds for the resizes that may be needed, and lengths and counts that are `int`s, `dic_add`
-- returns.
add_rounds-returns :
    (rounds : ℕ) (d : Dictionary) (key : Ptr)
    → IsDict d
    → 40 * d.count < int_end
    → 2 * d.count ≤ d.width + 2 * rounds
    → (r : Dictionary × ℕ) × (add_rounds (suc rounds) d key ≡ some r)
add_rounds-returns zero d key wf small enough = elim (add_rounds-cases d key wf) [
  | inl (absent, e) ↦ (_, e zero ∙ add_node-returns d key small)
  | inr (inl (v, present, e)) ↦ (_, e zero)
  | inr (inr (big, e)) ↦ absurd (ground arith)
]
add_rounds-returns (suc rounds) d key wf small enough = elim (add_rounds-cases d key wf) [
  | inl (absent, e) ↦ (_, e (suc rounds) ∙ add_node-returns d key small)
  | inr (inl (v, present, e)) ↦ (_, e (suc rounds))
  | inr (inr (big, e)) ↦
      let g =
        dic_resize-Reinserted d (d.width * growth_factor) wf.buckets
          (omega (arith, wf.buckets.positive)) in
      let (r, call) =
        add_rounds-returns rounds (dic_resize d (d.width * growth_factor)) key (grown-IsDict d wf)
          (omega (arith, g.count)) (omega (arith, g.count, g.width, wf.buckets.positive, enough)) in
      (r, e (suc rounds) ∙ ground (arith, call))
]

-- On a well-formed dictionary with fewer than 53,687,092 keys `dic_add` returns, with what it promises:
-- its table and count stay within an `int`, and it calls itself at most once more than there are keys.
pub dic_add-Added :
    (d : Dictionary) (key : Ptr)
    → IsDict d
    → 40 * d.count < int_end
    → (d' : Dictionary) × (res : ℕ) × (dic_add d key ≡ ret (d', res))
      × (add_rounds (suc d.count) d key ≡ some (d', res))
      × Added d key d' res
unfolding dic_add
dic_add-Added d key wf small =
    let ((d', res), call) = add_rounds-returns d.count d key wf small (omega arith) in
    (
      d',
      res,
      ap or_fault call,
      call,
      subst (Ends d key) call (add_rounds-Ends (suc d.count) d key wf),
    )

-- With any number of keys, `dic_add` returns what it promises, or it leaves the range of `int`.
pub dic_add-cases :
    (d : Dictionary) (key : Ptr)
    → IsDict d
    → (dic_add d key ≡ fault)
      ⊎ ((d' : Dictionary) × (res : ℕ) × (dic_add d key ≡ ret (d', res)) × Added d key d' res)
unfolding dic_add
dic_add-cases d key wf = elim (Option-cases (add_rounds (suc d.count) d key)) [
  | inl e ↦ inl (ap or_fault e)
  | inr ((d', res), e) ↦
      inr (d', res, ap or_fault e, subst (Ends d key) e (add_rounds-Ends (suc d.count) d key wf))
]

dic_find_absent :
    (d : Dictionary) (key : Ptr) → find_in key (chain_of d key) ≡ none → dic_find d key ≡ (d, false)
unfolding dic_find
dic_find_absent d key e = ground arith

dic_find_present :
    (d : Dictionary) (key v : Ptr)
    → find_in key (chain_of d key) ≡ some v
    → dic_find d key ≡ (record d { value = some key }, true)
unfolding dic_find
dic_find_present d key v e = ground arith

abbrev pub found : Option Ptr → Bool
found none = false
found (some _) = true

-- In a well-formed dictionary `dic_find` says whether the key is there, points `value` at it if so and
-- leaves `value` as it was if not, and changes no entry.
pub dic_find_lem :
    (d : Dictionary) (key : Ptr)
    → IsDict d
    → (IsDict (dic_find d key).0)
      × (entries (dic_find d key).0 ≡ entries d)
      × ((dic_find d key).1 ≡ found (find_in key (entries d)))
      × ((dic_find d key).0.value ≡ (if found (find_in key (entries d)) then some key else d.value))
unfolding entries
dic_find_lem d key wf = elim (Option-cases (find_in key (chain_of d key))) [
  | inl absent ↦
      let here : find_in key (entries d) ≡ none = find_in-entries d wf.buckets key ∙ absent in
      rw (dic_find_absent d key absent) (wf, refl, rw here refl, rw here refl)
  | inr (v, present) ↦
      let here : find_in key (entries d) ≡ some v = find_in-entries d wf.buckets key ∙ present in
      rw (dic_find_present d key v present)
        (cursor-IsDict d (some key) wf, refl, rw here refl, rw here refl)
]

pub entries-dic_new : (n : ℕ) → entries (dic_new n) ≡ []
unfolding dic_new entries
entries-dic_new n = flatten-replicate _

pub dic_new-IsDict : (n : ℕ) → IsDict (dic_new n)
unfolding dic_new
dic_new-IsDict n = record {
  buckets = record {
    wide = length-replicate _ [];
    positive = ground arith;
    placed = replicate-IsTable _ 0 _;
  };
  counted = rw (entries-dic_new n) refl;
}

-- A write through `dic->value` after `dic_add (key)`: the entry of `key` alone changes.
pub write_value_lem :
    (d : Dictionary) (key old v : Ptr)
    → IsDict d
    → d.value ≡ some key
    → find_in key (entries d) ≡ some old
    → (d' : Dictionary) × (write_value d v ≡ some d')
      × IsDict d'
      × ((q : Ptr) → find_in q (entries d') ≡ (if q == key then some v else find_in q (entries d)))
unfolding write_value
write_value_lem d key old v wf cursor present =
    let b = wf.buckets in
    let here : find_in key (chain_of d key) ≡ some old = sym (find_in-entries d b key) ∙ present in
    let c = assign key v (chain_of d key) in
    let hc =
      assign-IsChain d.width (slot key d.width) key v (chain_of d key) (chain_of-IsChain d b key) in
    (
      with_chain d b key c,
      rw cursor refl,
      record {
        buckets = with_chain-IsPlaced d b key c hc;
        counted =
            omega (
              arith,
              length-with_chain d b key c,
              length-assign key v (chain_of d key),
              wf.counted,
            );
      },
      λ q.
          find_in-with_chain d b key q c v hc
            (λ p. find_in-assign p key v (chain_of d key) old here),
    )

-- What `*dic->value` reads.
pub read_value_lem :
    (d : Dictionary) (key : Ptr)
    → IsDict d
    → d.value ≡ some key
    → read_value d ≡ find_in key (entries d)
unfolding read_value
read_value_lem d key wf cursor = ground (arith, find_in-entries d wf.buckets key)
