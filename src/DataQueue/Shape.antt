-- ===== src/DataQueue/Shape.antt =====
-- The states of a queue that dataqueue.c works with, and the bytes that each stands for.
use evnet.Base.{
  ℕ, ◌+◌, ◌-◌, ◌^◌, ◌≤◌, ◌<◌, ◌≡◌, ◌⊎◌, inl, List, ◌++◌, append-nil, arith, length, length-append,
}
use evnet.Base.Block.{store, slice, slice-zero, length-slice}
use evnet.DataQueue.{DataQueue, cleared}

-- The bytes lie in one piece that ends at the insertion position.
pub record IsLinear (q : DataQueue) : Type 0 where
  pub end : q.insert_pos ≡ q.terminal_pos
  pub size : q.data_size ≡ q.terminal_pos - q.query_pos

-- The bytes go on at the front of the block, up to the insertion position.
pub record IsWrapped (q : DataQueue) : Type 0 where
  pub end : q.insert_pos ≤ q.query_pos
  pub size : q.data_size ≡ q.terminal_pos - q.query_pos + q.insert_pos

-- The positions stand in order inside the block.
pub record IsPlaced (q : DataQueue) : Type 0 where
  pub sized : length (store q.buffer) ≡ q.buffer_size
  pub word : q.buffer_size < 2 ^ 32
  pub query_le : q.query_pos ≤ q.terminal_pos
  pub terminal_le : q.terminal_pos ≤ q.buffer_size

pub record IsValid (q : DataQueue) : Type 0 where
  pub placed : IsPlaced q
  pub shape : IsLinear q ⊎ IsWrapped q

-- The bytes that wait in the queue, oldest first.
unfoldable pub contents : DataQueue → List ℕ
contents q =
    let part_one = q.terminal_pos - q.query_pos in
    slice q.query_pos part_one (store q.buffer) ++ slice 0 (q.data_size - part_one) (store q.buffer)

-- All positions in one place although bytes wait, with room left for `n` bytes behind it: the
-- insertion takes such a queue for an empty one.
pub record IsWedged (q : DataQueue) (n : ℕ) : Type 0 where
  pub query : q.query_pos ≡ q.terminal_pos
  pub insert : q.insert_pos ≡ q.terminal_pos
  pub waiting : 0 < q.data_size
  pub room : q.data_size + n ≤ q.buffer_size

pub cleared-IsValid : IsValid cleared
cleared-IsValid = record { placed = omega arith; shape = inl (omega arith) }

-- What a valid queue counts never exceeds its block.
pub data_size-le : {q : DataQueue} → IsValid q → q.data_size ≤ q.buffer_size
data_size-le v = ground arith

pub length-contents : {q : DataQueue} → IsValid q → length (contents q) ≡ q.data_size
unfolding contents
length-contents {q} v = ground (
  arith,
  length-append (slice q.query_pos part_one bytes) (slice 0 (q.data_size - part_one) bytes),
  length-slice bytes q.query_pos part_one,
  length-slice bytes 0 (q.data_size - part_one),
)
  where
    part_one : ℕ
    part_one = q.terminal_pos - q.query_pos

    bytes : List ℕ
    bytes = store q.buffer

pub contents-linear :
    {q : DataQueue}
    → IsLinear q
    → contents q ≡ slice q.query_pos (q.terminal_pos - q.query_pos) (store q.buffer)
unfolding contents
contents-linear {q} l =
    let e : q.data_size - (q.terminal_pos - q.query_pos) ≡ 0 = omega arith in
    rw (e, slice-zero (store q.buffer) 0, append-nil)

pub contents-wrapped :
    {q : DataQueue}
    → IsWrapped q
    → contents q
      ≡ slice q.query_pos (q.terminal_pos - q.query_pos) (store q.buffer)
        ++ slice 0 q.insert_pos (store q.buffer)
unfolding contents
contents-wrapped {q} w =
    let e : q.data_size - (q.terminal_pos - q.query_pos) ≡ q.insert_pos = omega arith in rw e
