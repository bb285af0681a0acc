-- ===== src/SyncExamples/Procon/Flow/Put.antt =====
-- What the steps of a producer do to the flow of texts.
use cs453_2025_project.Prelude.{
  ℕ, ◌+◌, ◌%◌, ◌≡◌, ◌≢◌, ◌<◌, refl, sym, ◌∙◌, true, false, arith, ℕ_discrete,
}
use cs453_2025_project.SyncExamples.Procon.{Setting, State, update_byte}
use cs453_2025_project.SyncExamples.Procon.Flow.{
  Phase, idle, copied, loaded, counting, rounds, active, upto, Seen, Flow, upto-active, Seen-text,
  update_byte_self, update_byte_text, update_byte_rest,
}

module _ (set : Setting) (size : ℕ) (apart : (q r : ℕ) → q < r → r < q + size → q % size ≢ r % size)
    (s : State) where
  -- A call of `rand`.
  pub rand_called :
      (x : ℕ) (p c : Phase) → Flow set size s p c → Flow set size (record s { rands = x }) p c
  rand_called x p c d = record {
    put_count = d.put_count;
    take_count = d.take_count;
    behind = d.behind;
    ahead = d.ahead;
    room = d.room;
    full = d.full;
    waiting = d.waiting;
    handed = d.handed;
    put_in = d.put_in;
    taken = d.taken;
    put_seen = d.put_seen;
    take_seen = d.take_seen;
  }

  -- A thread that is not at work goes on waiting, in another way.
  pub put_waits :
      (p q c : Phase)
      → rounds q ≡ rounds p
      → active q ≡ false
      → upto set q ≡ 0
      → ((text : ℕ → ℕ) (until : ℕ) → Seen set q text until)
      → Flow set size s p c
      → Flow set size s q c
  put_waits p q c e inactive none_yet seen d = record {
    put_count = d.put_count ∙ sym e;
    take_count = d.take_count;
    behind = omega (arith, d.behind);
    ahead = omega (arith, d.ahead);
    room = λ t. absurd (cc);
    full = λ t. omega (arith, d.full t);
    waiting = λ r i low high lt. d.waiting r i low (omega arith) lt;
    handed = d.handed;
    put_in = λ i lt. absurd (omega arith);
    taken = d.taken;
    put_seen = seen (s.produced (rounds q)) s.produced_until;
    take_seen = d.take_seen;
  }

  -- The producer sees that there is room.
  pub put_starts :
      (n : ℕ) (c : Phase)
      → n < s.consumed_until + size
      → Flow set size s (idle n) c
      → Flow set size s (copied n 0) c
  put_starts n c free d = record {
    put_count = d.put_count;
    take_count = d.take_count;
    behind = d.behind;
    ahead = d.ahead;
    room = λ t. omega (arith, d.take_count);
    full = d.full;
    waiting = d.waiting;
    handed = d.handed;
    put_in = λ i lt. absurd (omega arith);
    taken = d.taken;
    put_seen = tt;
    take_seen = d.take_seen;
  }

  -- It fills its text.
  pub put_fills :
      (n i v : ℕ) (c : Phase)
      → Flow set size s (copied n 0) c
      → Flow set size (record s { produced = update_byte s.produced n i v }) (copied n 0) c
  put_fills n i v c d = record {
    put_count = d.put_count;
    take_count = d.take_count;
    behind = d.behind;
    ahead = d.ahead;
    room = d.room;
    full = d.full;
    waiting = λ r j low high lt.
        d.waiting r j low high lt ∙ sym (update_byte_text s.produced n i v r j (omega arith));
    handed = λ r j low lt.
        d.handed r j low lt ∙ sym (update_byte_text s.produced n i v r j (omega (arith, d.behind)));
    put_in = λ j lt. absurd (omega arith);
    taken = λ j lt.
        d.taken j lt
        ∙ sym (
            update_byte_text s.produced n i v (rounds c) j
              (omega (arith, d.full (upto-active set c j lt))));
    put_seen = tt;
    take_seen =
        Seen-text set c (s.produced (rounds c)) (update_byte s.produced n i v (rounds c))
          s.consumed_until
          (λ t j. sym (update_byte_text s.produced n i v (rounds c) j (omega (arith, d.full t))))
          d.take_seen;
  }

  pub put_loads :
      (n i : ℕ) (c : Phase)
      → Flow set size s (copied n i) c
      → Flow set size s (loaded n i (s.produced n i)) c
  put_loads n i c d = record {
    put_count = d.put_count;
    take_count = d.take_count;
    behind = d.behind;
    ahead = d.ahead;
    room = d.room;
    full = d.full;
    waiting = d.waiting;
    handed = d.handed;
    put_in = d.put_in;
    taken = d.taken;
    put_seen = refl;
    take_seen = d.take_seen;
  }

  pub put_stores :
      (n i v : ℕ) (c : Phase)
      → Flow set size s (loaded n i v) c
      → Flow set size
          (record s { buffer = update_byte s.buffer (n % size) i v })
          (copied n (i + 1))
          c
  put_stores n i v c d = record {
    put_count = d.put_count;
    take_count = d.take_count;
    behind = d.behind;
    ahead = d.ahead;
    room = d.room;
    full = d.full;
    waiting = λ r j low high lt.
        update_byte_text s.buffer (n % size) i v (r % size) j
          (apart r n high (omega (arith, d.room refl)))
        ∙ d.waiting r j low high lt;
    handed = d.handed;
    put_in = λ j lt. elim (ℕ_discrete j i) [
      | yes same ↦ rw same (update_byte_self s.buffer (n % size) i v ∙ d.put_seen)
      | no other ↦
          update_byte_rest s.buffer (n % size) i v (n % size) j other ∙ d.put_in j (omega arith)
    ];
    taken = d.taken;
    put_seen = tt;
    take_seen = d.take_seen;
  }

  pub put_counts :
      (n : ℕ) (c : Phase)
      → Flow set size s (copied n set.data_text_size) c
      → Flow set size s (counting n s.produced_until) c
  put_counts n c d = record {
    put_count = d.put_count;
    take_count = d.take_count;
    behind = d.behind;
    ahead = d.ahead;
    room = d.room;
    full = d.full;
    waiting = d.waiting;
    handed = d.handed;
    put_in = d.put_in;
    taken = d.taken;
    put_seen = refl;
    take_seen = d.take_seen;
  }

  -- The text is in the ring.
  pub put_ends :
      (n : ℕ) (p c : Phase)
      → rounds p ≡ n
      → active p ≡ true
      → upto set p ≡ set.data_text_size
      → Flow set size s p c
      → Flow set size (record s { produced_until = n + 1 }) (idle (n + 1)) c
  put_ends n p c e t whole d = record {
    put_count = refl;
    take_count = d.take_count;
    behind = omega (arith, d.behind);
    ahead = omega (arith, d.room t);
    room = λ u. absurd (cc);
    full = λ u. omega (arith, d.full u);
    waiting = λ r j low high lt. elim (ℕ_discrete r (rounds p)) [
      | yes same ↦ rw same (d.put_in j (omega arith))
      | no other ↦ d.waiting r j low (omega arith) lt
    ];
    handed = d.handed;
    put_in = λ j lt. absurd (omega arith);
    taken = d.taken;
    put_seen = tt;
    take_seen = d.take_seen;
  }
