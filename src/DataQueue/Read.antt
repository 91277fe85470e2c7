-- ===== src/DataQueue/Read.antt =====
-- dataqueue_next_data and dataqueue_distill_data: what a reader sees, and what it takes away.
use evnet.Base.{
  min, ℕ, ◌+◌, ◌-◌, ◌≤◌, ◌<◌, ◌≡◌, refl, sym, ap, ap₂, ◌∙◌, inl, inr, ◌++◌, arith, ℕ_discrete,
  ==_refl, ==_false, take, drop, some, sub32, take-append_le, drop-append_le,
}
use evnet.Base.Block.{store, slice, read_at_lem, length-slice, slice-zero, take-slice, drop-slice}
use evnet.DataQueue.{DataQueue, Span, rewind, next_data, distill_data, read_span}
use evnet.DataQueue.Shape.{
  IsLinear, IsWrapped, IsPlaced, IsValid, contents, contents-linear, contents-wrapped, data_size-le,
}

-- `r` is `q` with its reader at the start of some bytes.
pub record Rewound (q r : DataQueue) : Type 0 where
  pub valid : IsValid r
  pub bytes : contents r ≡ contents q
  pub front : r.query_pos < r.terminal_pos
  pub size : r.data_size ≡ q.data_size
  pub block : r.buffer ≡ q.buffer
  pub block_size : r.buffer_size ≡ q.buffer_size

-- The reader at the front of the block, where the rest of the bytes stands.
abbrev at_front : DataQueue → DataQueue
at_front q = record q { query_pos = 0; terminal_pos = q.insert_pos }

at_front-Rewound :
    {q : DataQueue}
    → IsPlaced q
    → IsWrapped q
    → q.query_pos ≡ q.terminal_pos
    → 0 < q.data_size
    → Rewound q (at_front q)
at_front-Rewound {q} p w e h =
    let linear : IsLinear (at_front q) = omega arith in
    let minus : q.insert_pos - 0 ≡ q.insert_pos = omega arith in
    let none_left : q.terminal_pos - q.query_pos ≡ 0 = omega arith in
    record {
      valid = record { placed = omega arith; shape = inl linear };
      bytes =
          contents-linear linear
          ∙ ap (λ k. slice 0 k (store q.buffer)) minus
          ∙ sym (
              contents-wrapped w
              ∙ ap
                  (λ k.
                    slice q.query_pos k (store q.buffer) ++ slice 0 q.insert_pos (store q.buffer))
                  none_left
              ∙ ap (λ r. r ++ slice 0 q.insert_pos (store q.buffer))
                  (slice-zero (store q.buffer) q.query_pos));
      front = omega arith;
      size = refl;
      block = refl;
      block_size = refl;
    }

pub rewind-Rewound : {q : DataQueue} → IsValid q → 0 < q.data_size → Rewound q (rewind q)
unfolding rewind
rewind-Rewound {q} v h = elim (ℕ_discrete q.query_pos q.terminal_pos) [
  | yes e ↦
      let wrapped : IsWrapped q = elim v.shape [ inl l ↦ absurd (omega arith) | inr w ↦ w ] in
      rw (==_refl _ _ e) (at_front-Rewound v.placed wrapped e h)
  | no ne ↦ rw (==_false _ _ ne) (record {
    valid = v;
    bytes = refl;
    front = omega (arith, v.placed);
    size = refl;
    block = refl;
    block_size = refl;
  })
]

-- The first `n` bytes behind the reader are the oldest ones.
front-contents :
    {q : DataQueue} (n : ℕ)
    → IsValid q
    → n ≤ q.terminal_pos - q.query_pos
    → slice q.query_pos n (store q.buffer) ≡ take n (contents q)
unfolding contents
front-contents {q} n v h =
    let part_one = q.terminal_pos - q.query_pos in
    let bytes = store q.buffer in
    sym (
      take-append_le n (slice q.query_pos part_one bytes) (slice 0 (q.data_size - part_one) bytes)
        (omega (arith, length-slice bytes q.query_pos part_one, v.placed))
      ∙ take-slice bytes q.query_pos n part_one h)

-- What dataqueue_next_data promises of the queue and of the span that it returns to a caller who
-- wants at most `n` bytes.
pub record Offers (q : DataQueue) (n : ℕ) (out : DataQueue × Span) : Type 0 where
  pub rewound : Rewound q out.0
  pub some_bytes : 0 < out.1.count
  pub within : out.1.count ≤ q.data_size
  pub first :
      read_span out.0 out.1 (min out.1.count n) ≡ some (take (min out.1.count n) (contents q))

-- On a valid queue with bytes dataqueue_next_data hands out at least one byte and no more than wait;
-- a read of the first `n` of them, or of all where they are fewer, stays inside the block and yields as many
-- of the oldest bytes; the queue stays valid, with the same bytes.
pub next_data-Offers :
    {q : DataQueue} (n : ℕ) → IsValid q → 0 < q.data_size → Offers q n (next_data q)
unfolding next_data read_span
next_data-Offers {q} n v h =
    let r = rewind-Rewound v h in
    let w = r.valid in
    let count_lem : sub32 (rewind q).terminal_pos (rewind q).query_pos
        ≡ (rewind q).terminal_pos - (rewind q).query_pos =
      omega (arith, w.placed) in
    let k = min (sub32 (rewind q).terminal_pos (rewind q).query_pos) n in
    record {
      rewound = r;
      some_bytes = omega (arith, w.placed, r.front);
      within = ground (arith, w.placed, w.shape, r.size);
      first =
          read_at_lem (rewind q).buffer (rewind q).query_pos k (omega (arith, w.placed))
          ∙ ap some (front-contents k w (omega arith) ∙ ap (take k) r.bytes);
    }

-- The counters after `n` bytes were taken.
abbrev advanced : DataQueue → ℕ → DataQueue
advanced r n = record r { data_size = r.data_size - n; query_pos = r.query_pos + n }

-- `q'` holds the bytes of `q` but for the `n` oldest.
pub record Drops (q : DataQueue) (n : ℕ) (q' : DataQueue) : Type 0 where
  pub valid : IsValid q'
  pub bytes : contents q' ≡ drop n (contents q)
  pub size : q'.data_size ≡ q.data_size - n
  pub block_size : q'.buffer_size ≡ q.buffer_size

advanced-Drops :
    {r : DataQueue} (n : ℕ)
    → IsValid r
    → n ≤ r.terminal_pos - r.query_pos
    → Drops r n (advanced r n)
unfolding contents
advanced-Drops {r} n v h =
    let part_one = r.terminal_pos - r.query_pos in
    let bytes = store r.buffer in
    let rest = slice 0 (r.data_size - part_one) bytes in
    let left : r.terminal_pos - (r.query_pos + n) ≡ part_one - n = omega arith in
    let tail : r.data_size - n - (r.terminal_pos - (r.query_pos + n)) ≡ r.data_size - part_one =
      ground (arith, v.placed, v.shape) in
    record {
      valid = record {
        placed = omega (arith, v.placed);
        shape = ground (arith, v.placed, v.shape);
      };
      bytes =
          ap₂ (λ k l. slice (r.query_pos + n) k bytes ++ slice 0 l bytes) left tail
          ∙ ap (λ xs. xs ++ rest) (sym (drop-slice bytes r.query_pos n part_one))
          ∙ sym (
              drop-append_le n (slice r.query_pos part_one bytes) rest
                (omega (arith, length-slice bytes r.query_pos part_one, v.placed)));
      size = refl;
      block_size = refl;
    }

distill_data-advanced :
    {q : DataQueue} (n : ℕ)
    → IsValid q
    → 0 < q.data_size
    → n ≤ (rewind q).terminal_pos - (rewind q).query_pos
    → distill_data q n ≡ advanced (rewind q) n
unfolding distill_data
distill_data-advanced {q} n v h le = ground (arith, data_size-le v)

-- dataqueue_distill_data of `n` bytes, no more than dataqueue_next_data hands out, takes away exactly
-- the `n` oldest bytes and leaves a valid queue.
pub distill_data-Drops :
    {q : DataQueue} (n : ℕ)
    → IsValid q
    → 0 < q.data_size
    → n ≤ (next_data q).1.count
    → Drops q n (distill_data q n)
unfolding next_data
distill_data-Drops {q} n v h le =
    let r = rewind-Rewound v h in
    let w = r.valid in
    let fits : n ≤ (rewind q).terminal_pos - (rewind q).query_pos = omega (arith, w.placed) in
    let d = advanced-Drops n w fits in
    rw (distill_data-advanced n v h fits) (record {
      valid = d.valid;
      bytes = d.bytes ∙ ap (drop n) r.bytes;
      size = d.size ∙ ap (λ k. k - n) r.size;
      block_size = r.block_size;
    })

rewind_twice : {q : DataQueue} → IsValid q → 0 < q.data_size → rewind (rewind q) ≡ rewind q
unfolding rewind
rewind_twice {q} v h = rw (==_false _ _ moved)
  where
    moved : (rewind q).query_pos ≡ (rewind q).terminal_pos → ⊥
    moved e = omega (arith, (rewind-Rewound v h).front)

-- dataqueue_next_data and then dataqueue_distill_data of `n` bytes, as every reader in the program calls them:
-- on a valid queue with bytes, for no more than were handed out, the two calls take away exactly the `n`
-- oldest bytes, and leave a valid queue in the same block.
pub distill_after_next_data :
    {q : DataQueue} (n : ℕ)
    → IsValid q
    → 0 < q.data_size
    → n ≤ (next_data q).1.count
    → Drops q n (distill_data (next_data q).0 n)
unfolding next_data
distill_after_next_data {q} n v h le =
    let r = rewind-Rewound v h in
    let same : (next_data (rewind q)).1.count ≡ (next_data q).1.count =
      ap (λ (p : DataQueue). sub32 p.terminal_pos p.query_pos) (rewind_twice v h) in
    let d = distill_data-Drops n r.valid (omega (arith, r.size)) (omega arith) in
    record {
      valid = d.valid;
      bytes = d.bytes ∙ ap (drop n) r.bytes;
      size = d.size ∙ ap (λ k. k - n) r.size;
      block_size = d.block_size ∙ r.block_size;
    }
