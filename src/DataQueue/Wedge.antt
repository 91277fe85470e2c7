-- ===== src/DataQueue/Wedge.antt =====
-- Which insertions keep the order of the bytes, and which does not.
use evnet.Base.{
  ℕ, ◌+◌, ◌-◌, ◌/◌, ◌^◌, ◌≤◌, ◌<◌, max, ◌≡◌, refl, ap, ◌∙◌, inl, List, ◌++◌, [], arith, Bool, true,
  false, if◌then◌else◌, length, some, none,
}
use evnet.Base.Block.{
  Block, store, slice, read_at_lem, slice-zero, slice-splice_self, slice-splice_end, splice,
  length-splice,
}
use evnet.DataQueue.{DataQueue, remove_data, next_data, distill_data, read_span, insert_data, place}
use evnet.DataQueue.Shape.{IsValid, IsWedged, contents, cleared-IsValid, data_size-le}
use evnet.DataQueue.Insert.{Extends, insert_data-Extends, append-filled, filled}
use evnet.DataQueue.Read.{rewind-Rewound}

-- Bytes that come after a call of dataqueue_next_data always go behind those that wait: a queue
-- whose reader is at some bytes is not wedged.
pub insert_data_after_next_data :
    {q : DataQueue} (xs : List ℕ)
    → IsValid q
    → 0 < q.data_size
    → q.buffer_size + max (q.buffer_size / 2) (length xs) < 2 ^ 32
    → (q' : DataQueue) × (insert_data (next_data q).0 xs ≡ some q') × Extends q xs q'
unfolding next_data
insert_data_after_next_data {q} xs v h small =
    let r = rewind-Rewound v h in
    let (q', e, x) =
      insert_data-Extends xs r.valid (λ w. omega (arith, w.query, r.front))
        (rw r.block_size small) in
    (q', e, record { valid = x.valid; bytes = x.bytes ∙ ap (λ b. b ++ xs) r.bytes })

place_wedged :
    {q : DataQueue} (n : ℕ)
    → IsValid q
    → IsWedged q n
    → q.buffer_size + n < 2 ^ 32
    → place q n ≡ (q, false)
unfolding place
place_wedged n v w h = ground (arith, data_size-le v)

module _ {q : DataQueue} (n : ℕ) (v : IsValid q) (w : IsWedged q n) (pos : 0 < n) where
  next_data-filled :
      (b : Block)
      → next_data (filled q b n) ≡ (filled q b n, record { start = q.query_pos; count = n })
  unfolding next_data
  next_data-filled b = ground (arith, v.placed, w.query, w.insert, w.room, data_size-le v)

  next_data-distill-filled :
      (b : Block)
      → length (store b) ≡ q.buffer_size
      → (next_data (distill_data (filled q b n) n)).1.count ≡ q.data_size + n
  unfolding next_data distill_data
  next_data-distill-filled none e = absurd (omega (arith, w.room, w.waiting))
  next_data-distill-filled (some bytes) e =
      ground (arith, v.placed, v.shape, w.query, w.insert, w.room, w.waiting, data_size-le v)

module _ {q : DataQueue} (n : ℕ) (v : IsValid q) (w : IsWedged q n) (pos : 0 < n) where
  -- The read behind the first one starts at the front of the same block.
  reader_at_front :
      (b : Block)
      → length (store b) ≡ q.buffer_size
      → ((next_data (distill_data (filled q b n) n)).1.start ≡ 0)
        × ((next_data (distill_data (filled q b n) n)).0.buffer ≡ b)
  unfolding next_data distill_data
  reader_at_front none e = absurd (omega (arith, w.room, w.waiting))
  reader_at_front (some bytes) e = (
    ground (arith, v.placed, v.shape, w.query, w.insert, w.room, w.waiting, data_size-le v),
    ground (arith, v.placed, v.shape, w.query, w.insert, w.room, w.waiting, data_size-le v),
  )

contents_wedged :
    {q : DataQueue} (n : ℕ) → IsWedged q n → contents q ≡ slice 0 q.data_size (store q.buffer)
unfolding contents
contents_wedged {q} n w =
    let none_left : q.terminal_pos - q.query_pos ≡ 0 = omega (arith, w.query) in
    let minus : q.data_size - 0 ≡ q.data_size = omega arith in
    ap (λ k. slice q.query_pos k (store q.buffer) ++ slice 0 (q.data_size - k) (store q.buffer))
      none_left
    ∙ ap (λ k. slice q.query_pos 0 (store q.buffer) ++ slice 0 k (store q.buffer)) minus
    ∙ ap (λ r. r ++ slice 0 q.data_size (store q.buffer)) (slice-zero (store q.buffer) q.query_pos)

second_read :
    {q : DataQueue} (xs : List ℕ)
    → IsValid q
    → IsWedged q (length xs)
    → 0 < length xs
    → (b : Block) → store b ≡ splice q.insert_pos xs (store q.buffer)
    → read_span
        (next_data (distill_data (filled q b (length xs)) (length xs))).0
        (next_data (distill_data (filled q b (length xs)) (length xs))).1
        (q.data_size + length xs)
      ≡ some (contents q ++ xs)
unfolding read_span
second_read {q} xs v w pos b s =
    let n = length xs in
    let inside : q.insert_pos + n ≤ length (store q.buffer) =
      omega (arith, v.placed, w.room, w.insert, w.query, v.shape) in
    let sized : length (store b) ≡ q.buffer_size =
      rw s (length-splice q.insert_pos xs (store q.buffer) inside ∙ v.placed.sized) in
    let (start, block) = reader_at_front n v w pos b sized in
    let front : 0 + q.data_size ≡ q.insert_pos =
      omega (arith, v.placed, v.shape, w.query, w.insert) in
    rw (start, block, contents_wedged n w)
      (read_at_lem b 0 (q.data_size + n) (omega (arith, sized, w.room))
        ∙ ap (λ bs. some (slice 0 (q.data_size + n) bs)) s
        ∙ ap some (slice-splice_end q.insert_pos xs (store q.buffer) inside 0 q.data_size front))

-- dataqueue_insert_data on a valid wedged queue goes wrong, on every such queue and for every non-empty
-- piece: the next read hands out the new bytes and nothing else, though `data_size` older bytes wait;
-- and after they are taken away, the read behind it hands out the `data_size` older bytes and then the
-- new ones a second time.
pub insert_data_wedged :
    {q : DataQueue} (xs : List ℕ)
    → IsValid q
    → IsWedged q (length xs)
    → 0 < length xs
    → q.buffer_size + length xs < 2 ^ 32
    → (q' : DataQueue) × (insert_data q xs ≡ some q')
      × (q'.data_size ≡ q.data_size + length xs)
      × ((next_data q').1.count ≡ length xs)
      × (read_span (next_data q').0 (next_data q').1 (length xs) ≡ some xs)
      × ((next_data (distill_data q' (length xs))).1.count ≡ q.data_size + length xs)
      × (read_span
            (next_data (distill_data q' (length xs))).0
            (next_data (distill_data q' (length xs))).1
            (q.data_size + length xs)
          ≡ some (contents q ++ xs))
unfolding insert_data read_span
insert_data_wedged {q} xs v w pos small =
    let (b, e, s) = append-filled xs v.placed (omega arith) (omega arith) in
    let n = length xs in
    let seen = next_data-filled n v w pos b in
    let inside : q.insert_pos + n ≤ length (store q.buffer) =
      omega (arith, v.placed, w.room, w.insert) in
    let sized : length (store b) ≡ q.buffer_size =
      rw s (length-splice q.insert_pos xs (store q.buffer) inside ∙ v.placed.sized) in
    let here : q.query_pos ≡ q.insert_pos = omega (arith, w.query, w.insert) in
    let fresh : slice q.query_pos n (store b) ≡ xs =
      ap (λ k. slice k n (store b)) here
      ∙ ap (slice q.insert_pos n) s
      ∙ slice-splice_self q.insert_pos xs (store q.buffer) inside in
    (
      filled q b n,
      rw (place_wedged n v w small) e,
      refl,
      ap (λ o. o.1.count) seen,
      rw seen
          (read_at_lem b q.query_pos n (omega (arith, v.placed, w.room, w.insert)) ∙ ap some fresh),
      next_data-distill-filled n v w pos b sized,
      second_read xs v w pos b s,
    )

-- dataqueue_remove_data leaves a valid queue with no bytes, and drops the block if it is told to.
pub remove_data_empties :
    {q : DataQueue} (free : Bool)
    → IsValid q
    → let r = remove_data q free in
      IsValid r × (contents r ≡ []) × (r.buffer ≡ (if free then none else q.buffer))
unfolding remove_data contents
remove_data_empties {q} true v =
    (cleared-IsValid, ap (λ b. b ++ slice 0 0 []) (slice-zero [] 0) ∙ slice-zero [] 0, refl)
remove_data_empties {q} false v = (
  record { placed = omega (arith, v.placed); shape = inl (omega arith) },
  ap (λ b. b ++ slice 0 0 (store q.buffer)) (slice-zero (store q.buffer) 0)
      ∙ slice-zero (store q.buffer) 0,
  refl,
)
