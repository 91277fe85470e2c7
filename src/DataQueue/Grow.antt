-- ===== src/DataQueue/Grow.antt =====
-- The growth of the block inside dataqueue_insert_data: the waiting bytes move to its front.
use evnet.Base.{
  ℕ, ◌+◌, ◌-◌, ◌/◌, ◌^◌, ◌≤◌, ◌<◌, max, ◌≡◌, refl, sym, ap, ◌∙◌, ◌++◌, arith, length, some, ltb,
  if◌then◌else◌, sub32, append-nil, Bool, true, false, none, length-replicate, eq_nil_of_length,
  replicate, add32,
}
use evnet.Base.Block.{
  Block, store, slice, splice, read_at_lem, write_at_lem, length-splice, length-slice,
  slice-splice_end, slice-zero,
}
use evnet.DataQueue.{DataQueue, copy, move_parts, move, move_from, grow}
use evnet.DataQueue.Shape.{
  IsLinear, IsPlaced, IsValid, contents, data_size-le, contents-linear, length-contents,
}

-- memcpy between blocks, inside both.
copy_lem :
    (dst : Block) (to : ℕ) (src : Block) (from n : ℕ)
    → from + n ≤ length (store src)
    → to + n ≤ length (store dst)
    → (b : Block) × (copy dst to src from n ≡ some b)
      × (store b ≡ splice to (slice from n (store src)) (store dst))
unfolding copy
copy_lem dst to src from n hs hd =
    let e = length-slice (store src) from n hs in
    let (b, w, s) = write_at_lem dst to (slice from n (store src)) (omega arith) in
    (b, rw (read_at_lem src from n hs) w, s)

-- A copy behind the first `to` bytes of `dst` extends them.
copy_extends :
    (dst : Block) (to : ℕ) (src : Block) (from n : ℕ)
    → from + n ≤ length (store src)
    → to + n ≤ length (store dst)
    → (b : Block) × (copy dst to src from n ≡ some b)
      × (slice 0 (to + n) (store b) ≡ slice 0 to (store dst) ++ slice from n (store src))
      × (length (store b) ≡ length (store dst))
copy_extends dst to src from n hs hd =
    let (b, e, s) = copy_lem dst to src from n hs hd in
    let xs = slice from n (store src) in
    let count : length xs ≡ n = length-slice (store src) from n hs in
    let inside : to + length xs ≤ length (store dst) = omega arith in
    (
      b,
      e,
      rw s (
          ap (λ k. slice 0 (to + k) (splice to xs (store dst))) (sym count)
          ∙ slice-splice_end to xs (store dst) inside 0 to (omega arith)),
      rw s (length-splice to xs (store dst) inside),
    )

-- A guarded copy, where the guard is false only if there is nothing to copy.
guarded_copy_extends :
    (guard : Bool) (dst : Block) (to : ℕ) (src : Block) (from k n : ℕ)
    → (guard ≡ true → k ≡ n)
    → (guard ≡ false → n ≡ 0)
    → from + n ≤ length (store src)
    → to + n ≤ length (store dst)
    → (b : Block) × ((if guard then copy dst to src from k else some dst) ≡ some b)
      × (slice 0 (to + n) (store b) ≡ slice 0 to (store dst) ++ slice from n (store src))
      × (length (store b) ≡ length (store dst))
guarded_copy_extends true dst to src from k n hk _ hs hd =
    rw (hk refl) (copy_extends dst to src from n hs hd)
guarded_copy_extends false dst to src from k n _ hn hs hd =
    let e = hn refl in
    let sum : to + 0 ≡ to = omega arith in (dst, refl, rw (e, sum, slice-zero, append-nil), refl)

module _ {q : DataQueue} (v : IsValid q) where
  part_one : ℕ
  part_one = q.terminal_pos - q.query_pos

  -- The bytes behind the end of the block, counted where the code tests for them.
  rest_is_front : ltb part_one q.data_size ≡ true → q.insert_pos ≡ q.data_size - part_one
  unfolding part_one
  rest_is_front h = ground arith

  rest_bounds :
      (part_one ≤ q.data_size)
      × (q.data_size - part_one ≤ length (store q.buffer))
      × (q.query_pos + part_one ≤ length (store q.buffer))
      × (sub32 q.terminal_pos q.query_pos ≡ part_one)
  unfolding part_one
  rest_bounds = ground arith

  move_parts_lem :
      (fresh : Block)
      → q.data_size ≤ length (store fresh)
      → (b : Block) × (move_parts q fresh part_one ≡ some b)
        × (slice 0 q.data_size (store b) ≡ contents q)
        × (length (store b) ≡ length (store fresh))
  unfolding move_parts contents part_one
  move_parts_lem fresh h =
      let (le, rest, inside, _) = rest_bounds in
      let (first, e1, c1, l1) =
        guarded_copy_extends (ltb 0 part_one) fresh 0 q.buffer q.query_pos part_one part_one
          (λ _. refl) (λ t. ground arith) inside (omega arith) in
      let (b, e2, c2, l2) =
        guarded_copy_extends (ltb part_one q.data_size) first part_one q.buffer 0 q.insert_pos
          (q.data_size - part_one) rest_is_front (λ t. ground arith) (omega arith) (omega arith) in
      let sum : part_one + (q.data_size - part_one) ≡ q.data_size = omega arith in
      let zero_sum : 0 + part_one ≡ part_one = omega arith in
      let front : slice 0 part_one (store first) ≡ slice q.query_pos part_one (store q.buffer) =
        ap (λ k. slice 0 k (store first)) (sym zero_sum)
        ∙ c1
        ∙ ap (λ r. r ++ slice q.query_pos part_one (store q.buffer)) (slice-zero (store fresh) 0) in
      (
        b,
        rw e1 e2,
        ap (λ k. slice 0 k (store b)) (sym sum)
            ∙ c2
            ∙ ap (λ r. r ++ slice 0 (q.data_size - part_one) (store q.buffer)) front,
        l2 ∙ l1,
      )

  move_lem :
      (fresh : Block)
      → q.data_size ≤ length (store fresh)
      → (b : Block) × (move q fresh ≡ some b)
        × (slice 0 q.data_size (store b) ≡ contents q)
        × (length (store b) ≡ length (store fresh))
  unfolding move
  move_lem fresh h =
      let (b, e, c, l) = move_parts_lem fresh h in
      (b, ap (move_parts q fresh) rest_bounds.3 ∙ e, c, l)

  move_from_lem :
      (old : Block) (fresh : Block)
      → q.buffer ≡ old
      → q.data_size ≤ length (store fresh)
      → (b : Block) × (move_from old q fresh ≡ some b)
        × (slice 0 q.data_size (store b) ≡ contents q)
        × (length (store b) ≡ length (store fresh))
  unfolding move_from
  move_from_lem (some bytes) fresh e h = move_lem fresh h
  move_from_lem none fresh e h =
      let sized : 0 ≡ q.buffer_size = ap (λ b. length (store b)) (sym e) ∙ v.placed.sized in
      let size : q.data_size ≡ 0 = omega (arith, data_size-le v) in
      (
        fresh,
        refl,
        ap (λ k. slice 0 k (store fresh)) size
            ∙ slice-zero (store fresh) 0
            ∙ sym (eq_nil_of_length (contents q) (length-contents v ∙ size)),
        refl,
      )

abbrev grown_queue : DataQueue → Block → ℕ → DataQueue
grown_queue q b size = record {
  insert_pos = q.data_size;
  terminal_pos = q.data_size;
  query_pos = 0;
  data_size = q.data_size;
  buffer_size = size;
  buffer = b;
}

-- The queue `q'` holds the bytes of `q` in one piece at the front of a block with room for `n` more.
pub record Grown (q : DataQueue) (n : ℕ) (q' : DataQueue) : Type 0 where
  pub placed : IsPlaced q'
  pub linear : IsLinear q'
  pub bytes : contents q' ≡ contents q
  pub insert : q'.insert_pos ≡ q.data_size
  pub room : q.data_size + n ≤ q'.buffer_size

pub grow_lem :
    {q : DataQueue} (n : ℕ)
    → IsValid q
    → q.buffer_size + max (q.buffer_size / 2) n < 2 ^ 32
    → (q' : DataQueue) × (grow q n ≡ some q') × Grown q n q'
unfolding grow
grow_lem {q} n v h =
    let size = add32 q.buffer_size (max (q.buffer_size / 2) n) in
    let wide : size ≡ q.buffer_size + max (q.buffer_size / 2) n = omega arith in
    let fresh : Block = some (replicate size 0) in
    let zeros : length (store fresh) ≡ size = length-replicate size 0 in
    let (b, e, s, l) = move_from_lem v q.buffer fresh refl (omega (arith, data_size-le v)) in
    let linear : IsLinear (grown_queue q b size) = omega arith in
    let minus : q.data_size - 0 ≡ q.data_size = omega arith in
    (
      grown_queue q b size,
      rw e,
      record {
        placed = record {
          sized = l ∙ zeros;
          word = omega arith;
          query_le = omega arith;
          terminal_le = omega (arith, data_size-le v);
        };
        linear = linear;
        bytes = contents-linear linear ∙ ap (λ k. slice 0 k (store b)) minus ∙ s;
        insert = refl;
        room = omega (arith, data_size-le v);
      },
    )
