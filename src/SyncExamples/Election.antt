-- ===== src/SyncExamples/Election.antt =====
-- What the programs sync-examples/election1.c to election4.c share: an array of leaders, one for each
-- round, with the number of times that a thread made itself the leader of the round.
pub mod Rounds
use cs453_2025_project.Prelude.{
  ℕ, zero, suc, ◌+◌, ◌*◌, ◌%◌, ◌^◌, Bool, true, false, not, ◌==◌, ltb, if◌then◌else◌, update,
}
use cs453_2025_project.SyncExamples.Threads.{Shared, Pthread, Prog, ret, goto, Thread, System}

pub record State : Type 0 where
  pub leader : ℕ → ℕ
  pub nb_leaders : ℕ → ℕ

pub data Access : Type 0 where
  load_leader : ℕ → Access
  store_leader : ℕ → ℕ → Access
  compare_exchange_leader : ℕ → ℕ → ℕ → Access
  add_nb_leaders : ℕ → Access

abbrev pub Reply : Access → Type 0
Reply (load_leader r) = ℕ
Reply (store_leader r v) = Unit {0}
Reply (compare_exchange_leader r expected v) = Bool
Reply (add_nb_leaders r) = Unit {0}

abbrev pub set_leader : ℕ → ℕ → State → State
set_leader r v s = record s { leader = update s.leader r v }

abbrev pub count_leader : ℕ → State → State
count_leader r s = record s { nb_leaders = update s.nb_leaders r ((s.nb_leaders r + 1) % 2 ^ 32) }

abbrev pub perform : (a : Access) → State → Reply a × State
perform (load_leader r) s = (s.leader r, s)
perform (store_leader r v) s = (tt, set_leader r v s)
perform (compare_exchange_leader r expected v) s =
    (s.leader r == expected, (if s.leader r == expected then set_leader r v s else s))
perform (add_nb_leaders r) s = (tt, count_leader r s)

abbrev pub rounds_of_leaders : Shared
rounds_of_leaders = record { State = State; Access = Access; Reply = Reply; perform = perform }

-- `for (int r = 0; r < RUNS; r++)` of the thread `tid`, at its test
pub data Label : Type 0 where
  round : (tid r : ℕ) → Label

-- `RUNS`. The programs take it as an argument.
abbrev pub source_runs : ℕ
source_runs = 4096 * 256

abbrev pub threads : ℕ
threads = 4

-- What is printed.
pub data Report : Type 0 where
  looks_correct : Report
  failed_in_round : ℕ → Report

-- The loop of `main` from round `r` on, with `n` rounds to go.
unfoldable pub check_rounds : ℕ → ℕ → (ℕ → ℕ) → Report
check_rounds zero r nb_leaders = looks_correct
check_rounds (suc n) r nb_leaders =
    let rest = check_rounds n (r + 1) nb_leaders in
    if not (nb_leaders r == 1) then failed_in_round r else rest

-- `main`: the state once its threads are created, and what it prints at the end.
pub record Main (p : Pthread) : Type 0 where
  pub started : System rounds_of_leaders p Label
  pub report : State → Report

-- The threads that `main` creates run `elect`, with the numbers from 1 on.
abbrev pub start_threads : (p : Pthread) → System rounds_of_leaders p Label
start_threads p = record {
  state = record { leader = λ r. 0; nb_leaders = λ r. 0 };
  lock = p.ready;
  thread = λ i. if ltb i threads then goto (round (i + 1) 0) else ret tt;
}
