-- ===== src/Discipline/Session.antt =====
-- A whole transaction, from `tm_begin` over reads and writes to `tm_end`, keeps the
-- discipline. `session` is the code of a client as tm.h asks for it: after a call that answers false
-- the transaction is not used again.
use cs453_2025_project.Prelude.{
  ℕ, zero, suc, ◌+◌, ◌*◌, ◌/◌, ◌%◌, ◌≡◌, ◌<◌, refl, Bool, false, not, Option, none, some, List, [],
  ◌∷◌, ◌==◌, arith, sym, subst,
}
use cs453_2025_project.Machine.{Ptr, null, or_null, Prog, ret, fault, ◌>>=◌}
use cs453_2025_project.VersionLock.{lock_check}
use cs453_2025_project.Dict.{dic_add, dic_find, read_value}
use cs453_2025_project.Dict.Placed.{IsDict}
use cs453_2025_project.Dict.Put.{Added-write_value}
use cs453_2025_project.Discipline.Adds.{dic_add-Keeps, Added-Keeps}
use cs453_2025_project.Dict.Add.{dic_find_lem, dic_new-IsDict}
use cs453_2025_project.LinkedList.{lock_field, ll_init}
use cs453_2025_project.Transaction.{
  Region, Transaction, tx_destroy, memcpy, set_value, lock_get_from_pointer,
}
use cs453_2025_project.Tm.{
  tm_begin, begin_at, tm_read, tm_write, tm_end, read_source, read_one, read_copy, read_words,
  abort_read, write_one, write_words, sizeof_ll,
}
use cs453_2025_project.Discipline.{Scope, Ghost, Outside, Keeps, Quiet}
use cs453_2025_project.Discipline.Rules.{Quiet-if, Keeps-if, Quiet-Keeps, Keeps-then}
use cs453_2025_project.Discipline.Lists.{tx_destroy-Quiet}
use cs453_2025_project.Discipline.Commit.{NoneOwned, IsLaidOut, tm_end-Keeps}

-- One call of a client.
pub data Request : Type 0 where
  read : Ptr → ℕ → Ptr → Request
  write : Ptr → ℕ → Ptr → Request

unfoldable pub serve : ℕ → Region → List Request → Transaction → Prog Bool
serve rounds r [] tx = tm_end rounds r tx
serve rounds r (read source size target ∷ rest) tx = do
  o ← tm_read rounds r tx source size target
  elim o [ none ↦ ret false | some tx' ↦ serve rounds r rest tx' ]
serve rounds r (write source size target ∷ rest) tx = do
  o ← tm_write rounds r tx source size target
  elim o [ none ↦ ret false | some tx' ↦ serve rounds r rest tx' ]

unfoldable pub session : ℕ → Region → Bool → List Request → Prog Bool
unfolding serve
session rounds r is_ro requests = do
  o ← tm_begin r is_ro
  elim o [ none ↦ ret false | some tx ↦ serve rounds r requests tx ]

-- The words that are read go to private memory.
abbrev pub IsClient : Scope → List Request → Type 0
IsClient s [] = Unit {0}
IsClient s (read source size target ∷ rest) =
    ((i : ℕ) → i < size / s.region.align → s.shared (target + i * s.region.align) ≡ false)
    × IsClient s rest
IsClient s (write source size target ∷ rest) = IsClient s rest

module _ (s : Scope) (laid : IsLaidOut s) (rounds : ℕ) where
  abbrev Free : Ghost → Type 0
  Free g = (p : Ptr) → g.own p ≡ false

  -- A live transaction with a well-formed write set, or none, and no lock.
  abbrev Ready : Option Transaction → Ghost → Type 0
  Ready none g = Free g
  Ready (some tx) g = IsDict tx.write_set × Free g

  abort-Keeps : (tx : Transaction) (g : Ghost) → Free g → Keeps s Ready g (abort_read rounds tx)
  unfolding abort_read
  abort-Keeps tx g free = Quiet-Keeps s Ready g _ _ (tx_destroy-Quiet s rounds tx false) (λ u. free)

  copy-Keeps :
      (tx : Transaction) (g : Ghost) (dst src : Ptr)
      → s.shared dst ≡ false
      → IsDict tx.write_set
      → Free g
      → Keeps s Ready g (memcpy dst src >>= λ _. ret (some tx))
  unfolding memcpy
  copy-Keeps tx g dst src out wf free =
      Quiet-Keeps s Ready g (memcpy dst src) (λ _. ret (some tx))
        (Quiet-if s (src == null) _ _ tt (tt, λ v. (out, λ u. tt))) (λ u. (wf, free))

  -- A look at a lock.
  check-Keeps :
      {A : Type 0} (Q : A → Ghost → Type 0) (g : Ghost) (lk v : ℕ) (f : Bool → Prog A)
      → ((b : Bool) → Keeps s Q g (f b))
      → Keeps s Q g (lock_check lk v >>= f)
  unfolding lock_check
  check-Keeps Q g lk v f h = (tt, λ r t. h _)

  value-Keeps :
      {A : Type 0} (Q : A → Ghost → Type 0) (g : Ghost) (o : Option Ptr) (f : Ptr → Prog A)
      → ((p : Ptr) → Keeps s Q g (f p))
      → Keeps s Q g ((elim o [ none ↦ fault | some p ↦ ret p ]) >>= f)
  value-Keeps Q g none f h = tt
  value-Keeps Q g (some p) f h = h p

  -- The transaction that `read_source` hands on.
  abbrev Chosen : Transaction × Ptr → Ghost → Type 0
  Chosen r g = IsDict r.0.write_set × Free g

  source-Keeps :
      (tx : Transaction) (g : Ghost) (source : Ptr)
      → IsDict tx.write_set
      → Free g
      → Keeps s Chosen g (read_source tx source)
  unfolding read_source
  source-Keeps tx g source wf free =
      let (wf', _, _, _) = dic_find_lem tx.write_set source wf in
      Keeps-if s Chosen g tx.read_only _ _ (λ e. (wf, free))
        (λ e. dic_add-Keeps s Chosen g tx.read_set source _ (λ added.
          Keeps-if s Chosen g (dic_find tx.write_set source).1 _ _
            (λ t.
              value-Keeps Chosen g (read_value (dic_find tx.write_set source).0) _
                (λ p. (wf', free)))
            (λ t. (wf', free))))

  read_copy-Keeps :
      (g : Ghost) (lock target : Ptr) (r : Transaction × Ptr)
      → s.shared target ≡ false
      → Chosen r g
      → Keeps s Ready g (read_copy rounds lock target r)
  unfolding read_copy
  read_copy-Keeps g lock target (tx, from) out ok = check-Keeps Ready g lock tx.read_version _ (λ b.
      Keeps-if s Ready g (not b) _ _ (λ e. abort-Keeps tx g ok.1)
        (λ e. copy-Keeps tx g target from out ok.0 ok.1))

  read_one-Keeps :
      (tx : Transaction) (g : Ghost) (source target : Ptr)
      → s.shared target ≡ false
      → IsDict tx.write_set
      → Free g
      → Keeps s Ready g (read_one rounds s.region tx source target)
  unfolding read_one
  read_one-Keeps tx g source target out wf free =
      let lock = lock_get_from_pointer s.region source in
      check-Keeps Ready g lock tx.read_version _ (λ b.
        Keeps-if s Ready g (not b) _ _ (λ e. abort-Keeps tx g free)
          (λ e.
            Keeps-then s Chosen Ready g (read_source tx source) (read_copy rounds lock target)
              (source-Keeps tx g source wf free)
              (λ r g' ok. read_copy-Keeps g' lock target r out ok)))

  read_words-Keeps :
      (n i : ℕ) (tx : Transaction) (g : Ghost) (source target : Ptr)
      → ((j : ℕ) → j < i + n → s.shared (target + j * s.region.align) ≡ false)
      → IsDict tx.write_set
      → Free g
      → Keeps s Ready g (read_words rounds s.region n i tx source target)
  unfolding read_words
  read_words-Keeps zero i tx g source target out wf free = (wf, free)
  read_words-Keeps (suc n) i tx g source target out wf free =
      Keeps-then s Ready Ready g
        (read_one rounds s.region tx (source + i * s.region.align) (target + i * s.region.align)) _
        (read_one-Keeps tx g _ _ (out i (omega arith)) wf free)
        (λ o g' ok. next_word o g' ok (λ t wf' free'.
          read_words-Keeps n (i + 1) t g' source target (λ j lt. out j (omega arith)) wf' free'))
    where
      next_word :
          (o : Option Transaction) (g' : Ghost)
          → Ready o g'
          → ((t : Transaction)
              → IsDict t.write_set
              → Free g'
              → Keeps s Ready g' (read_words rounds s.region n (i + 1) t source target))
          → Keeps s Ready g' (elim o [
            | none ↦ ret none
            | some t ↦ read_words rounds s.region n (i + 1) t source target
          ])
      next_word none g' ok rest = ok
      next_word (some t) g' ok rest = rest t ok.0 ok.1

  -- A word of the write set: the copy is private, and the write set stays well-formed.
  abbrev Written : Transaction → Ghost → Type 0
  Written tx g = IsDict tx.write_set × Free g

  -- The entry of the word, and the write through `value`.
  abbrev record_copy : Transaction → Ptr → Ptr → Prog Transaction
  record_copy tx target p = do
    (added, res) ← dic_add tx.write_set target
    write_set ← set_value added p
    ret (record tx { write_set = write_set })

  record_copy-Keeps :
      (tx : Transaction) (g : Ghost) (target p : Ptr)
      → IsDict tx.write_set
      → Free g
      → Keeps s Written g (record_copy tx target p)
  record_copy-Keeps tx g target p wf free =
      Added-Keeps s Written g tx.write_set target _ wf (λ added res a.
        let (ws, stored, wf', _) = Added-write_value tx.write_set added target res p wf a in
        subst
          (λ o. Keeps s Written g (
            (elim o [ none ↦ fault | some d ↦ ret d ]) >>= λ ws.
            ret (record tx { write_set = ws })))
          (sym stored) (wf', free))

  buffered-Keeps :
      (tx : Transaction) (g : Ghost) (source target p : Ptr)
      → s.shared p ≡ false
      → IsDict tx.write_set
      → Free g
      → Keeps s Written g (memcpy p source >>= λ _. record_copy tx target p)
  unfolding memcpy
  buffered-Keeps tx g source target p out wf free =
      Quiet-Keeps s Written g (memcpy p source) _
        (Quiet-if s (source == null) _ _ tt (tt, λ v. (out, λ u. tt)))
        (λ u. record_copy-Keeps tx g target p wf free)

  write_one-Keeps :
      (tx : Transaction) (g : Ghost) (source target : Ptr)
      → 0 < s.region.align
      → IsDict tx.write_set
      → Free g
      → Keeps s Written g (write_one s.region tx source target)
  unfolding write_one
  write_one-Keeps tx g source target pos wf free = (tt, λ block told. copied block told)
    where
      copied :
          (block : Option Ptr)
          → Outside s s.region.align block
          → Keeps s Written g (elim block [
            | none ↦ fault
            | some p ↦ memcpy p source >>= λ _. record_copy tx target p
          ])
      copied none told = tt
      copied (some p) told =
          buffered-Keeps tx g source target p (told p p refl (ground arith)).1 wf free

  write_words-Keeps :
      (n i : ℕ) (tx : Transaction) (g : Ghost) (source target : Ptr)
      → 0 < s.region.align
      → IsDict tx.write_set
      → Free g
      → Keeps s Written g (write_words s.region n i tx source target)
  unfolding write_words
  write_words-Keeps zero i tx g source target pos wf free = (wf, free)
  write_words-Keeps (suc n) i tx g source target pos wf free =
      Keeps-then s Written Written g (write_one s.region tx (source + i) (target + i)) _
        (write_one-Keeps tx g (source + i) (target + i) pos wf free)
        (λ t g' ok. write_words-Keeps n (i + s.region.align) t g' source target pos ok.0 ok.1)

  tm_read-Keeps :
      (tx : Transaction) (g : Ghost) (source size target : Ptr)
      → ((j : ℕ) → j < size / s.region.align → s.shared (target + j * s.region.align) ≡ false)
      → IsDict tx.write_set
      → Free g
      → Keeps s Ready g (tm_read rounds s.region tx source size target)
  unfolding tm_read
  tm_read-Keeps tx g source size target out wf free =
      Keeps-if s Ready g (s.region.align == 0) _ _ (λ e. tt)
        (λ e.
          read_words-Keeps (size / s.region.align) 0 tx g source target
            (λ j lt. out j (omega arith)) wf free)

  tm_write-Keeps :
      (tx : Transaction) (g : Ghost) (source size target : Ptr)
      → IsDict tx.write_set
      → Free g
      → Keeps s Ready g (tm_write rounds s.region tx source size target)
  unfolding tm_write
  tm_write-Keeps tx g source size target wf free =
      Keeps-if s Ready g (s.region.align == 0) _ _ (λ e. tt)
        (λ e.
          Keeps-if s Ready g (size % s.region.align == 0) _ _
            (λ f.
              Keeps-then s Written Ready g
                (write_words s.region (size / s.region.align) 0 tx source target) _
                (write_words-Keeps (size / s.region.align) 0 tx g source target (ground arith) wf
                  free)
                (λ t g' ok. ok))
            (λ f.
              Quiet-Keeps s Ready g (tx_destroy rounds tx false) _
                (tx_destroy-Quiet s rounds tx false) (λ u. free)))

  -- What a client does with the answer of a call.
  go_on :
      (rest : List Request) (o : Option Transaction) (g : Ghost)
      → Ready o g
      → ((t : Transaction)
          → IsDict t.write_set
          → Free g
          → Keeps s NoneOwned g (serve rounds s.region rest t))
      → Keeps s NoneOwned g (elim o [ none ↦ ret false | some t ↦ serve rounds s.region rest t ])
  go_on rest none g ok k = ok
  go_on rest (some t) g ok k = k t ok.0 ok.1

  serve-Keeps :
      (requests : List Request) (tx : Transaction) (g : Ghost)
      → IsClient s requests
      → IsDict tx.write_set
      → Free g
      → Keeps s NoneOwned g (serve rounds s.region requests tx)
  unfolding serve
  serve-Keeps [] tx g client wf free = tm_end-Keeps s laid rounds tx g wf free
  serve-Keeps (read source size target ∷ rest) tx g client wf free =
      Keeps-then s Ready NoneOwned g (tm_read rounds s.region tx source size target) _
        (tm_read-Keeps tx g source size target client.0 wf free)
        (λ o g' ok. go_on rest o g' ok (λ t wf' free'. serve-Keeps rest t g' client.1 wf' free'))
  serve-Keeps (write source size target ∷ rest) tx g client wf free =
      Keeps-then s Ready NoneOwned g (tm_write rounds s.region tx source size target) _
        (tm_write-Keeps tx g source size target wf free)
        (λ o g' ok. go_on rest o g' ok (λ t wf' free'. serve-Keeps rest t g' client wf' free'))

  -- The list of allocations is made outside the locks, or is NULL and not touched.
  init-Quiet : (block : Option Ptr) → Outside s sizeof_ll block → Quiet s (ll_init (or_null block))
  unfolding ll_init
  init-Quiet none told = tt
  init-Quiet (some p) told =
      Quiet-if s (p == null) _ _ tt
        (tt, λ u. ((told p (lock_field p) refl (ground arith)).0, λ u'. tt))

  tm_begin-Keeps : (is_ro : Bool) (g : Ghost) → Free g → Keeps s Ready g (tm_begin s.region is_ro)
  unfolding tm_begin
  tm_begin-Keeps is_ro g free = (tt, λ block told. begun block)
    where
      begun :
          (block : Option Ptr)
          → Keeps s Ready g (elim block [ none ↦ ret none | some tx ↦ begin_at s.region is_ro tx ])
      begun none = free
      begun (some tx) =
          unfold begin_at in
          (
            tt,
            λ version t. (
              tt,
              λ block told.
                  Quiet-Keeps s Ready g (ll_init (or_null block)) _ (init-Quiet block told)
                    (λ u. (dic_new-IsDict 0, free)),
            ),
          )

  -- A transaction keeps the discipline, from its first access to its last.
  pub session-Keeps :
      (is_ro : Bool) (requests : List Request) (g : Ghost)
      → IsClient s requests
      → Free g
      → Keeps s NoneOwned g (session rounds s.region is_ro requests)
  unfolding session
  session-Keeps is_ro requests g client free =
      Keeps-then s Ready NoneOwned g (tm_begin s.region is_ro) _ (tm_begin-Keeps is_ro g free)
        (λ o g' ok.
          go_on requests o g' ok (λ t wf free'. serve-Keeps requests t g' client wf free'))
