-- ===== src/SyncExamples/Counting.antt =====
-- What the programs sync-examples/counter1.c to counter4.c share: the counter, an `int` or an
-- `atomic_int` as its 32-bit pattern, and what `main` prints.
use cs453_2025_project.Prelude.{ℕ, ◌+◌, ◌*◌, ◌%◌, ◌^◌, ltb, if◌then◌else◌}
use cs453_2025_project.SyncExamples.Threads.{Shared, Pthread, ret, goto, System}

pub data Access : Type 0 where
  load : Access
  store : ℕ → Access
  fetch_add : ℕ → Access

abbrev pub Reply : Access → Type 0
Reply load = ℕ
Reply (store v) = Unit {0}
Reply (fetch_add n) = ℕ

abbrev pub perform : (a : Access) → ℕ → Reply a × ℕ
perform load c = (c, c)
perform (store v) c = (tt, v)
perform (fetch_add n) c = (c, (c + n) % 2 ^ 32)

abbrev pub counter : Shared
counter = record { State = ℕ; Access = Access; Reply = Reply; perform = perform }

-- `for (int r = 0; r < RUNS; r++)`, at its test
pub data Label : Type 0 where
  round : ℕ → Label

-- `RUNS`. The programs take it as an argument.
abbrev pub source_runs : ℕ
source_runs = 4096 * 256

abbrev pub threads : ℕ
threads = 4

-- What is printed.
pub data Report : Type 0 where
  counted_up_to : ℕ → Report
  not_so_well : ℕ → Report

-- `main`: the state once its threads are created, and what it prints from the counter at the end.
pub record Main (p : Pthread) : Type 0 where
  pub started : System counter p Label
  pub report : ℕ → Report

-- The threads that `main` creates all run `count`.
abbrev pub start_threads : (p : Pthread) → System counter p Label
start_threads p = record {
  state = 0;
  lock = p.ready;
  thread = λ i. if ltb i threads then goto (round 0) else ret tt;
}
