-- ===== src/SyncExamples/Procon/Flow/Take.antt =====
-- What the steps of a consumer do to the flow of texts.
use cs453_2025_project.Prelude.{
  ℕ, ◌+◌, ◌%◌, ◌≡◌, ◌≢◌, ◌<◌, refl, sym, ◌∙◌, true, false, arith, ℕ_discrete,
}
use cs453_2025_project.SyncExamples.Procon.{Setting, State, update_byte}
use cs453_2025_project.SyncExamples.Procon.Flow.{
  Phase, idle, copied, loaded, counting, rounds, active, upto, Seen, Flow, update_byte_self,
  update_byte_text, update_byte_rest,
}

module _ (set : Setting) (size : ℕ) (apart : (q r : ℕ) → q < r → r < q + size → q % size ≢ r % size)
    (s : State) where
  pub take_waits :
      (p c q : Phase)
      → rounds q ≡ rounds c
      → active q ≡ false
      → upto set q ≡ 0
      → ((text : ℕ → ℕ) (until : ℕ) → Seen set q text until)
      → Flow set size s p c
      → Flow set size s p q
  take_waits p c q e inactive none_yet seen d = record {
    put_count = d.put_count;
    take_count = d.take_count ∙ sym e;
    behind = omega (arith, d.behind);
    ahead = omega (arith, d.ahead);
    room = λ t. omega (arith, d.room t);
    full = λ t. absurd (cc);
    waiting = λ r i low high lt. d.waiting r i (omega arith) high lt;
    handed = λ r i low lt. d.handed r i (omega arith) lt;
    put_in = d.put_in;
    taken = λ i lt. absurd (omega arith);
    put_seen = d.put_seen;
    take_seen = seen (s.produced (rounds q)) s.consumed_until;
  }

  -- The consumer sees that there is a text.
  pub take_starts :
      (n : ℕ) (p : Phase)
      → n < s.produced_until
      → Flow set size s p (idle n)
      → Flow set size s p (copied n 0)
  take_starts n p ready d = record {
    put_count = d.put_count;
    take_count = d.take_count;
    behind = d.behind;
    ahead = d.ahead;
    room = d.room;
    full = λ t. omega (arith, d.put_count);
    waiting = d.waiting;
    handed = d.handed;
    put_in = d.put_in;
    taken = λ i lt. absurd (omega arith);
    put_seen = d.put_seen;
    take_seen = tt;
  }

  pub take_loads :
      (n i : ℕ) (p : Phase)
      → i < set.data_text_size
      → Flow set size s p (copied n i)
      → Flow set size s p (loaded n i (s.buffer (n % size) i))
  take_loads n i p lt d = record {
    put_count = d.put_count;
    take_count = d.take_count;
    behind = d.behind;
    ahead = d.ahead;
    room = d.room;
    full = d.full;
    waiting = d.waiting;
    handed = d.handed;
    put_in = d.put_in;
    taken = d.taken;
    put_seen = d.put_seen;
    take_seen = d.waiting n i (omega arith) (d.full refl) lt;
  }

  pub take_stores :
      (n i v : ℕ) (p : Phase)
      → Flow set size s p (loaded n i v)
      → Flow set size (record s { consumed = update_byte s.consumed n i v }) p (copied n (i + 1))
  take_stores n i v p d = record {
    put_count = d.put_count;
    take_count = d.take_count;
    behind = d.behind;
    ahead = d.ahead;
    room = d.room;
    full = d.full;
    waiting = d.waiting;
    handed =
        λ r j low lt. update_byte_text s.consumed n i v r j (omega arith) ∙ d.handed r j low lt;
    put_in = d.put_in;
    taken = λ j lt. elim (ℕ_discrete j i) [
      | yes same ↦ rw same (update_byte_self s.consumed n i v ∙ d.take_seen)
      | no other ↦ update_byte_rest s.consumed n i v n j other ∙ d.taken j (omega arith)
    ];
    put_seen = d.put_seen;
    take_seen = tt;
  }

  pub take_counts :
      (n : ℕ) (p : Phase)
      → Flow set size s p (copied n set.data_text_size)
      → Flow set size s p (counting n s.consumed_until)
  take_counts n p d = record {
    put_count = d.put_count;
    take_count = d.take_count;
    behind = d.behind;
    ahead = d.ahead;
    room = d.room;
    full = d.full;
    waiting = d.waiting;
    handed = d.handed;
    put_in = d.put_in;
    taken = d.taken;
    put_seen = d.put_seen;
    take_seen = refl;
  }

  -- The slot is free.
  pub take_ends :
      (n : ℕ) (p c : Phase)
      → rounds c ≡ n
      → active c ≡ true
      → upto set c ≡ set.data_text_size
      → Flow set size s p c
      → Flow set size (record s { consumed_until = n + 1 }) p (idle (n + 1))
  take_ends n p c e t whole d = record {
    put_count = d.put_count;
    take_count = refl;
    behind = omega (arith, d.full t);
    ahead = omega (arith, d.ahead);
    room = λ u. omega (arith, d.room u);
    full = λ u. absurd (cc);
    waiting = λ r j low high lt. d.waiting r j (omega arith) high lt;
    handed = λ r j low lt. elim (ℕ_discrete r (rounds c)) [
      | yes same ↦ rw same (d.taken j (omega arith))
      | no other ↦ d.handed r j (omega arith) lt
    ];
    put_in = d.put_in;
    taken = λ j lt. absurd (omega arith);
    put_seen = d.put_seen;
    take_seen = tt;
  }
