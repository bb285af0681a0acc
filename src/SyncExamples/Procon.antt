-- ===== src/SyncExamples/Procon.antt =====
-- What the programs sync-examples/procon1.c to procon4.c share: a producer that fills texts and puts
-- them into a ring of slots, and a consumer that takes them out. A text is copied byte by byte.
-- `RUNS`, `DATA_TEXT_SIZE` and the answers of `rand` are parameters.
pub mod Flow
pub mod Loops
pub mod Locked
use cs453_2025_project.Prelude.{
  ℕ, zero, suc, ◌+◌, ◌*◌, ◌%◌, ◌^◌, Bool, true, false, not, ◌==◌, ltb, if◌then◌else◌, update,
}
use cs453_2025_project.SyncExamples.Threads.{
  Shared, Pthread, Prog, ret, goto, do_access, Thread, System, ◌>>=◌, ◌>>◌,
}

-- `RUNS`, `DATA_TEXT_SIZE`, and the answers of `rand`, one after the other.
pub record Setting : Type 0 where
  pub runs : ℕ
  pub data_text_size : ℕ
  pub rand : ℕ → ℕ

-- As in the source, where only the answers are open.
abbrev pub source_runs : ℕ
source_runs = 4096

abbrev pub source_setting : (ℕ → ℕ) → Setting
source_setting rand = record { runs = source_runs; data_text_size = 1024; rand = rand }

pub record State : Type 0 where
  pub buffer : ℕ → ℕ → ℕ
  pub produced : ℕ → ℕ → ℕ
  pub consumed : ℕ → ℕ → ℕ
  pub produced_until : ℕ
  pub consumed_until : ℕ
  pub rands : ℕ

pub data Access : Type 0 where
  call_rand : Access
  load_produced : ℕ → ℕ → Access
  store_produced : ℕ → ℕ → ℕ → Access
  load_buffer : ℕ → ℕ → Access
  store_buffer : ℕ → ℕ → ℕ → Access
  store_consumed : ℕ → ℕ → ℕ → Access
  load_produced_until : Access
  store_produced_until : ℕ → Access
  add_produced_until : ℕ → Access
  load_consumed_until : Access
  store_consumed_until : ℕ → Access
  add_consumed_until : ℕ → Access

abbrev pub Reply : Access → Type 0
Reply (store_produced r i v) = Unit {0}
Reply (store_buffer b i v) = Unit {0}
Reply (store_consumed r i v) = Unit {0}
Reply (store_produced_until v) = Unit {0}
Reply (add_produced_until n) = Unit {0}
Reply (store_consumed_until v) = Unit {0}
Reply (add_consumed_until n) = Unit {0}
Reply call_rand = ℕ
Reply (load_produced r i) = ℕ
Reply (load_buffer b i) = ℕ
Reply load_produced_until = ℕ
Reply load_consumed_until = ℕ

-- One byte of one text.
abbrev pub update_byte : (ℕ → ℕ → ℕ) → ℕ → ℕ → ℕ → ℕ → ℕ → ℕ
update_byte t r i v = update t r (update (t r) i v)

abbrev pub perform : Setting → (a : Access) → State → Reply a × State
perform set call_rand s = (set.rand s.rands, record s { rands = s.rands + 1 })
perform set (load_produced r i) s = (s.produced r i, s)
perform set (store_produced r i v) s = (tt, record s { produced = update_byte s.produced r i v })
perform set (load_buffer b i) s = (s.buffer b i, s)
perform set (store_buffer b i v) s = (tt, record s { buffer = update_byte s.buffer b i v })
perform set (store_consumed r i v) s = (tt, record s { consumed = update_byte s.consumed r i v })
perform set load_produced_until s = (s.produced_until, s)
perform set (store_produced_until v) s = (tt, record s { produced_until = v })
perform set (add_produced_until n) s =
    (tt, record s { produced_until = (s.produced_until + n) % 2 ^ 32 })
perform set load_consumed_until s = (s.consumed_until, s)
perform set (store_consumed_until v) s = (tt, record s { consumed_until = v })
perform set (add_consumed_until n) s =
    (tt, record s { consumed_until = (s.consumed_until + n) % 2 ^ 32 })

abbrev pub texts : Setting → Shared
texts set = record { State = State; Access = Access; Reply = Reply; perform = perform set }

-- The heads of the loops: `for` and `while` of `produce`, and those of `consume`.
pub data Label : Type 0 where
  produce_round produce_wait consume_round consume_wait : ℕ → Label

module _ (set : Setting) where
  -- `produced[r].text[i] = rand();` for `n` bytes from `i` on; a `char` is its pattern.
  unfoldable pub fill : ℕ → ℕ → ℕ → Thread (texts set) Label
  fill zero r i = ret tt
  fill (suc n) r i = do
    v ← do_access call_rand
    do_access (store_produced r i (v % 2 ^ 8))
    fill n r (i + 1)

  -- `buffer[b] = produced[r];`
  unfoldable pub copy_in : ℕ → ℕ → ℕ → ℕ → Thread (texts set) Label
  copy_in zero b r i = ret tt
  copy_in (suc n) b r i = do
    v ← do_access (load_produced r i)
    do_access (store_buffer b i v)
    copy_in n b r (i + 1)

  -- `consumed[r] = buffer[b];`
  unfoldable pub copy_out : ℕ → ℕ → ℕ → ℕ → Thread (texts set) Label
  copy_out zero b r i = ret tt
  copy_out (suc n) b r i = do
    v ← do_access (load_buffer b i)
    do_access (store_consumed r i v)
    copy_out n b r (i + 1)

-- The loop of `are_same` from byte `i` on, with `n` bytes to go.
unfoldable pub are_same_from : ℕ → ℕ → (ℕ → ℕ) → (ℕ → ℕ) → Bool
are_same_from zero i a b = true
are_same_from (suc n) i a b =
    let rest = are_same_from n (i + 1) a b in if not (a i == b i) then false else rest

abbrev pub are_same : Setting → (ℕ → ℕ) → (ℕ → ℕ) → Bool
are_same set a b = are_same_from set.data_text_size 0 a b

-- What is printed.
pub data Report : Type 0 where
  looks_correct : Report
  wrong_in_round : ℕ → Report

-- The loop of `main` from round `r` on, with `n` rounds to go.
unfoldable pub check_rounds : Setting → ℕ → ℕ → State → Report
check_rounds set zero r s = looks_correct
check_rounds set (suc n) r s =
    let rest = check_rounds set n (r + 1) s in
    if not (are_same set (s.produced r) (s.consumed r)) then wrong_in_round r else rest

-- `main`: the state once its two threads are created, and what it prints at the end.
pub record Main (set : Setting) (p : Pthread) : Type 0 where
  pub started : System (texts set) p Label
  pub report : State → Report

-- The producer is thread 0, the consumer thread 1.
abbrev pub start_threads : (set : Setting) (p : Pthread) → System (texts set) p Label
start_threads set p = record {
  state = record {
    buffer = λ b i. 0;
    produced = λ r i. 0;
    consumed = λ r i. 0;
    produced_until = 0;
    consumed_until = 0;
    rands = 0;
  };
  lock = p.ready;
  thread = λ i.
      if i == 0 then goto (produce_round 0) else if i == 1 then goto (consume_round 0) else ret tt;
}
