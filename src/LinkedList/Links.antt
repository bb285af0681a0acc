-- ===== src/LinkedList/Links.antt =====
-- What a chain of list nodes stands for: the address and the item of each node, in order.
use cs453_2025_project.Prelude.{
  ◌≡◌, ◌≢◌, refl, Bool, true, false, ◌||◌, Option, some, List, [], ◌∷◌, ◌++◌, ◌==◌, arith, length,
  update, ne→==,
}
use cs453_2025_project.Machine.{Ptr, null, Node, node, World, Allocator, perform}
use cs453_2025_project.Machine.Run.{run, done}
use cs453_2025_project.LinkedList.{set_next}

abbrev pub Cells : Type 0
Cells = List (Ptr × Ptr)

abbrev pub head_of : Cells → Ptr
head_of [] = null
head_of ((a, x) ∷ xs) = a

abbrev pub last_of : Cells → Ptr
last_of [] = null
last_of ((a, x) ∷ []) = a
last_of ((a, x) ∷ c ∷ xs) = last_of (c ∷ xs)

abbrev pub last_item : Cells → Ptr
last_item [] = null
last_item ((a, x) ∷ []) = x
last_item ((a, x) ∷ c ∷ xs) = last_item (c ∷ xs)

-- Whether an address is that of one of the nodes.
abbrev pub uses : Ptr → Cells → Bool
uses p [] = false
uses p ((a, x) ∷ xs) = (p == a) || uses p xs

-- Each node leads to the next, the last one to NULL, and none comes back.
abbrev pub Links : (Ptr → Option Node) → Cells → Type 0
Links cell [] = Unit {0}
Links cell ((a, x) ∷ xs) =
    (a ≢ null) × (cell a ≡ some (node x (head_of xs))) × (uses a xs ≡ false) × Links cell xs

abbrev pub Apart : Cells → Cells → Type 0
Apart [] ys = Unit {0}
Apart ((a, x) ∷ xs) ys = (uses a ys ≡ false) × Apart xs ys

-- `*list` is the list of these nodes.
pub record IsList (w : World) (list : Ptr) (xs : Cells) : Type 0 where
  pub header : w.list list ≡ record { head = head_of xs; tail = last_of xs; size = length xs }
  pub links : Links w.cell xs

pub Links-update :
    (cell : Ptr → Option Node) (p : Ptr) (c : Option Node) (xs : Cells)
    → uses p xs ≡ false
    → Links cell xs
    → Links (update cell p c) xs
unfolding update
Links-update cell p c [] h l = tt
Links-update cell p c ((a, x) ∷ xs) h l = ground (arith, Links-update cell p c xs)

pub uses_last : (c : Ptr × Ptr) (xs : Cells) → uses (last_of (c ∷ xs)) (c ∷ xs) ≡ true
uses_last (a, x) [] = ground arith
uses_last (a, x) (c ∷ xs) = ground (arith, uses_last c xs)

pub uses-append : (p : Ptr) (xs ys : Cells) → uses p (xs ++ ys) ≡ (uses p xs || uses p ys)
uses-append p [] ys = refl
uses-append p ((a, x) ∷ xs) ys = ground (arith, uses-append p xs ys)

-- The last node of a chain.
pub cell_last :
    (cell : Ptr → Option Node) (c : Ptr × Ptr) (xs : Cells)
    → Links cell (c ∷ xs)
    → cell (last_of (c ∷ xs)) ≡ some (node (last_item (c ∷ xs)) null)
cell_last cell (a, x) [] l = l.1
cell_last cell (a, x) (c ∷ xs) l = cell_last cell c xs l.3

ne_of_uses : (a p : Ptr) (xs : Cells) → uses a xs ≡ false → uses p xs ≡ true → a ≢ p
ne_of_uses a p xs h k e = let h' : uses p xs ≡ false = rw e at h in cc

-- The last node made to point at the head of another chain: the two chains are one.
pub Links-append :
    (cell : Ptr → Option Node) (c : Ptr × Ptr) (xs ys : Cells)
    → Links cell (c ∷ xs)
    → Links cell ys
    → Apart (c ∷ xs) ys
    → uses (last_of (c ∷ xs)) ys ≡ false
    → Links
        (update cell (last_of (c ∷ xs)) (some (node (last_item (c ∷ xs)) (head_of ys))))
        ((c ∷ xs) ++ ys)
unfolding update
Links-append cell (a, x) [] ys l m apart out =
    ground (arith, Links-update cell a (some (node x (head_of ys))) ys)
Links-append cell (a, x) ((b, y) ∷ xs) ys l m apart out =
    let other = ne_of_uses a (last_of ((b, y) ∷ xs)) ((b, y) ∷ xs) l.2 (uses_last (b, y) xs) in
    (
      l.0,
      rw (ne→== a (last_of ((b, y) ∷ xs)) other) l.1,
      rw (uses-append a ((b, y) ∷ xs) ys, l.2) apart.0,
      Links-append cell (b, y) xs ys l.3 m apart.1 out,
    )

pub last_of-append :
    (xs : Cells) (c : Ptr × Ptr) (ys : Cells) → last_of (xs ++ c ∷ ys) ≡ last_of (c ∷ ys)
last_of-append [] c ys = refl
last_of-append ((a, x) ∷ []) c ys = refl
last_of-append ((a, x) ∷ d ∷ xs) c ys = last_of-append (d ∷ xs) c ys

-- The last node is none of those of a chain apart.
pub last-Apart :
    (c : Ptr × Ptr) (xs ys : Cells) → Apart (c ∷ xs) ys → uses (last_of (c ∷ xs)) ys ≡ false
last-Apart (a, x) [] ys h = h.0
last-Apart (a, x) (c ∷ xs) ys h = last-Apart c xs ys h.1

pub head_of-append : (c : Ptr × Ptr) (xs ys : Cells) → head_of ((c ∷ xs) ++ ys) ≡ head_of (c ∷ xs)
head_of-append (a, x) xs ys = refl

-- `q->next = p` where `q` is a node.
pub run-set_next :
    (al : Allocator) (w : World) (q p x n : Ptr)
    → w.cell q ≡ some (node x n)
    → run al (set_next q p) w ≡ done tt (record w { cell = update w.cell q (some (node x p)) })
unfolding perform
run-set_next al w q p x n h = ground arith
