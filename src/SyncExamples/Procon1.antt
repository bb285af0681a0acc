-- ===== src/SyncExamples/Procon1.antt =====
-- sync-examples/procon1.c: no one waits.
use cs453_2025_project.Prelude.{ℕ, ◌+◌, ◌%◌, ltb, if◌then◌else◌}
use cs453_2025_project.SyncExamples.Threads.{Pthread, ret, goto, Thread, ◌>>◌}
use cs453_2025_project.SyncExamples.Procon.{
  Setting, texts, Label, produce_round, produce_wait, consume_round, consume_wait, fill, copy_in,
  copy_out, Main, check_rounds, start_threads,
}

abbrev pub buffer_size : ℕ
buffer_size = 1024

module _ (set : Setting) where
  -- One round of the producer.
  abbrev pub produce : ℕ → Thread (texts set) Label
  produce r = do
    fill set set.data_text_size r 0
    copy_in set set.data_text_size (r % buffer_size) r 0
    goto (produce_round (r + 1))

  -- One round of the consumer.
  abbrev pub consume : ℕ → Thread (texts set) Label
  consume r = do copy_out set set.data_text_size (r % buffer_size) r 0; goto (consume_round (r + 1))

  unfoldable pub code : Label → Thread (texts set) Label
  code (produce_round r) = if ltb r set.runs then produce r else ret tt
  code (produce_wait r) = produce r
  code (consume_round r) = if ltb r set.runs then consume r else ret tt
  code (consume_wait r) = consume r

abbrev pub main : (set : Setting) (p : Pthread) → Main set p
main set p = record { started = start_threads set p; report = check_rounds set set.runs 0 }
