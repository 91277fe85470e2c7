-- ===== src/DataQueue.antt =====
-- dataqueue.c and dataqueue.h: the byte queue that each channel has for input and for output.
-- The bytes stand in one malloc'ed block and may go round its end once. All counters are unsigned
-- int. malloc is taken to succeed (the source does not check it); an access outside the block is
-- `none`.
pub mod Shape
pub mod Grow
pub mod Insert
pub mod Read
pub mod Wedge
mod Tests
use evnet.Base.{
  ℕ, ◌/◌, max, Bool, true, false, ◌&&◌, Option, none, some, List, ltb, leb, ◌==◌, if◌then◌else◌,
  length, replicate, add32, sub32, ◌>>=◌,
}
use evnet.Base.Block.{Block, read_at, write_at}

pub record DataQueue : Type 0 where
  pub insert_pos : ℕ
  pub terminal_pos : ℕ
  pub query_pos : ℕ
  pub data_size : ℕ
  pub buffer_size : ℕ
  pub buffer : Block

-- A queue in memory that memset has cleared.
abbrev pub cleared : DataQueue
cleared = record {
  insert_pos = 0;
  terminal_pos = 0;
  query_pos = 0;
  data_size = 0;
  buffer_size = 0;
  buffer = none;
}

pub remove_data : DataQueue → Bool → DataQueue
remove_data q free =
    let r = record q { data_size = 0; insert_pos = 0; terminal_pos = 0; query_pos = 0 } in
    if free then record r { buffer_size = 0; buffer = none } else r

-- The chain of tests before the insertion: the queue, with the position set back to the front where
-- the bytes go there, and whether the block has to grow.
pub place : DataQueue → ℕ → DataQueue × Bool
place q n =
    if ltb q.buffer_size (add32 q.data_size n)
    then (q, true)
    else if q.insert_pos == q.terminal_pos && ltb q.buffer_size (add32 q.insert_pos n)
    then (if leb n q.query_pos then (record q { insert_pos = 0 }, false) else (q, true))
    else (q, ltb q.insert_pos q.terminal_pos && ltb q.query_pos (add32 q.insert_pos n))

-- memcpy from one block into another.
pub copy : Block → ℕ → Block → ℕ → ℕ → Option Block
copy dst to src from n = do bytes ← read_at src from n; write_at dst to bytes

-- The old bytes into the new block: the part up to the terminal position, then the part at the front.
pub move_parts : DataQueue → Block → ℕ → Option Block
unfolding copy
move_parts q fresh part_one = do
  first ← if ltb 0 part_one then copy fresh 0 q.buffer q.query_pos part_one else some fresh
  if ltb part_one q.data_size then copy first part_one q.buffer 0 q.insert_pos else some first

pub move : DataQueue → Block → Option Block
unfolding move_parts
move q fresh = move_parts q fresh (sub32 q.terminal_pos q.query_pos)

-- Nothing moves where there was no block.
pub move_from : Block → DataQueue → Block → Option Block
unfolding move
move_from none q fresh = some fresh
move_from (some _) q fresh = move q fresh

pub grow : DataQueue → ℕ → Option DataQueue
unfolding move_from
grow q n =
    let size = add32 q.buffer_size (max (q.buffer_size / 2) n) in
    do
      block ← move_from q.buffer q (some (replicate size 0))
      some (record {
        insert_pos = q.data_size;
        terminal_pos = q.data_size;
        query_pos = 0;
        data_size = q.data_size;
        buffer_size = size;
        buffer = block;
      })

-- The copy of the new bytes and the counters behind it.
pub append : DataQueue → List ℕ → Option DataQueue
append q xs = do
  block ← write_at q.buffer q.insert_pos xs
  let pos = add32 q.insert_pos (length xs)
  some (record q {
    buffer = block;
    data_size = add32 q.data_size (length xs);
    insert_pos = pos;
    terminal_pos = max q.terminal_pos pos;
  })

pub insert_data : DataQueue → List ℕ → Option DataQueue
unfolding place grow append
insert_data q xs = do
  let (placed, full) = place q (length xs)
  room ← if full then grow placed (length xs) else some placed
  append room xs

-- At the end of the first part the reader goes on at the front.
pub rewind : DataQueue → DataQueue
rewind q =
    if q.query_pos == q.terminal_pos
    then record q { query_pos = 0; terminal_pos = q.insert_pos }
    else q

pub distill_data : DataQueue → ℕ → DataQueue
unfolding rewind
distill_data q n = elim q.buffer [
  | none ↦ q
  | some _ ↦
      let r = rewind q in
      if q.data_size == 0
      then q
      else record r { data_size = sub32 r.data_size n; query_pos = add32 r.query_pos n }
]

-- What `dataqueue_next_data` hands out: where the next bytes start in the block, and how many stand
-- there in one piece.
pub record Span : Type 0 where
  pub start : ℕ
  pub count : ℕ

pub next_data : DataQueue → DataQueue × Span
unfolding rewind
next_data q =
    let r = rewind q in
    (r, record { start = r.query_pos; count = sub32 r.terminal_pos r.query_pos })

-- A caller's read of the first `n` bytes behind the pointer that it was handed.
pub read_span : DataQueue → Span → ℕ → Option (List ℕ)
read_span q s n = read_at q.buffer s.start n
