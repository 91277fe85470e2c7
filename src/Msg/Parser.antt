-- ===== src/Msg/Parser.antt =====
-- msgparser.h and msgpraser.c: packets are cut out of a channel's input queue and handed to a
-- handler. The handler is a parameter: it takes and returns a state of the user, and does not touch
-- the queue that is being read.
pub mod Fill
pub mod Command
pub mod Body
pub mod Refine
pub mod Loop
use evnet.Base.{
  ℕ, zero, suc, ◌+◌, ◌-◌, ◌*◌, min, Bool, true, false, Option, some, none, ◌>>=◌, List, ltb, ◌==◌,
  if◌then◌else◌, add32,
}
use evnet.Base.Block.{Block, read_at, write_at}
use evnet.DataQueue.{DataQueue, Span, next_data, distill_data, read_span}
use evnet.Msg.Frame.{CmdHead, socket_ver, socket_packet, head_size, head_bytes, read_head}

-- msgparser_t
pub record MsgParser : Type 0 where
  pub recv_packet_count : ℕ
  pub send_packet_count : ℕ
  pub head : CmdHead
  pub is_head_gotten : Bool
  pub pos : ℕ

-- Where the copying stands: the bytes copied so far, the static buffer, the queue.
pub record Copying : Type 0 where
  pub pos : ℕ
  pub buffer : Block
  pub queue : DataQueue

-- One round of the loop that copies bytes of the queue into the static buffer.
pub fill_round : ℕ → Copying → Option Copying
fill_round limit c =
    let (r, span) = next_data c.queue in
    let size = min span.count (limit - c.pos) in
    do
      bytes ← read_span r span size
      buffer ← write_at c.buffer c.pos bytes
      some (record { pos = c.pos + size; buffer = buffer; queue = distill_data r size })

-- The loop, until `limit` bytes stand in the buffer. `none`: an access outside a block, or no fuel.
pub fill : ℕ → ℕ → Copying → Option Copying
fill zero limit c = none
fill (suc fuel) limit c =
    let rest = (do c' ← fill_round limit c; fill fuel limit c') in
    if ltb c.pos limit then rest else some c

-- The ways in which _command returns: false, true with no packet, true with a packet of a size.
pub data Outcome : Type 0 where
  failed incomplete : Outcome
  packet : ℕ → Outcome

pub record Result : Type 0 where
  pub parser : MsgParser
  pub buffer : Block
  pub queue : DataQueue
  pub outcome : Outcome

-- The branch of the loop in _command for a head that was read: a packet that is too large is refused,
-- one that is not complete waits, any other is put together in the static buffer.
pub command_body : MsgParser → Block → DataQueue → Option Result
command_body coder buffer q =
    if ltb socket_packet coder.head.packet_size
    then some (record { parser = coder; buffer = buffer; queue = q; outcome = failed })
    else if ltb (q.data_size + head_size) coder.head.packet_size
    then some (record { parser = coder; buffer = buffer; queue = q; outcome = incomplete })
    else (do
      headed ← write_at buffer 0 (head_bytes coder.head)
      c ←
          fill (suc coder.head.packet_size) coder.head.packet_size
            (record { pos = coder.pos; buffer = headed; queue = q })
      some (record {
        parser = record coder { is_head_gotten = false; pos = c.pos };
        buffer = c.buffer;
        queue = c.queue;
        outcome = packet coder.head.packet_size;
      }))

-- The branch for a head that is still to come, up to the next round of the loop.
pub command_head : MsgParser → Block → DataQueue → Option Result
command_head coder buffer q =
    if ltb q.data_size head_size
    then some (record { parser = coder; buffer = buffer; queue = q; outcome = incomplete })
    else (do
      c ← fill (suc head_size) head_size (record { pos = 0; buffer = buffer; queue = q })
      bytes ← read_at c.buffer 0 head_size
      let head = read_head bytes
      let coder' = record coder { pos = c.pos; head = head }
      if head.version == socket_ver
          then command_body (record coder' { is_head_gotten = true }) c.buffer c.queue
          else some
              (record { parser = coder'; buffer = c.buffer; queue = c.queue; outcome = failed }))

-- _command. Its loop makes two rounds at most: the one that reads a head goes on, the other returns.
pub command : MsgParser → Block → DataQueue → Option Result
unfolding command_head command_body
command coder buffer q =
    if coder.is_head_gotten then command_body coder buffer q else command_head coder buffer q

-- What msgparser_parser leaves: the parser, the static buffer, the queue, the user's state, and its
-- result.
pub record Parsed {ℓ} (U : Type ℓ) : Type ℓ where
  pub parser : MsgParser
  pub buffer : Block
  pub queue : DataQueue
  pub user : U
  pub ok : Bool

module _ {ℓ} {U : Type ℓ} (handler : U → ℕ → ℕ → List ℕ → U × Bool) where
  -- The handler is called with the data behind the head, and the packet is counted.
  pub deliver : ℕ → Result → U → Option (Parsed U)
  deliver size r user = do
    bytes ← read_at r.buffer 0 head_size
    payload ← read_at r.buffer head_size (size - head_size)
    let (user', ok) = handler user (read_head bytes).main_cmd (read_head bytes).sub_cmd payload
    some (record {
      parser = record (r.parser) { recv_packet_count = add32 r.parser.recv_packet_count 1 };
      buffer = r.buffer;
      queue = r.queue;
      user = user';
      ok = ok;
    })

  -- What msgparser_parser does with a result of _command; the flag says whether its loop goes on.
  pub on_outcome : Outcome → Result → U → Option (Parsed U × Bool)
  unfolding deliver
  on_outcome failed r user = some (
    record { parser = r.parser; buffer = r.buffer; queue = r.queue; user = user; ok = false },
    false,
  )
  on_outcome incomplete r user = some (
    record { parser = r.parser; buffer = r.buffer; queue = r.queue; user = user; ok = true },
    false,
  )
  on_outcome (packet size) r user =
      if ltb size head_size
      then some (
        record { parser = r.parser; buffer = r.buffer; queue = r.queue; user = user; ok = false },
        false,
      )
      else (do p ← deliver size r user; some (p, p.ok))

  pub parser_round : MsgParser → Block → DataQueue → U → Option (Parsed U × Bool)
  unfolding command on_outcome
  parser_round coder buffer q user = do r ← command coder buffer q; on_outcome r.outcome r user

  -- msgparser_parser, with fuel for its loop.
  pub parser_loop : ℕ → MsgParser → Block → DataQueue → U → Option (Parsed U)
  unfolding parser_round
  parser_loop zero coder buffer q user = none
  parser_loop (suc fuel) coder buffer q user =
      let rest = (do
        (p, on) ← parser_round coder buffer q user
        let more = parser_loop fuel p.parser p.buffer p.queue p.user
        if on then more else some p) in
      if q.data_size == 0
      then some (record { parser = coder; buffer = buffer; queue = q; user = user; ok = true })
      else rest

  -- Two rounds for each byte that waits are enough.
  unfoldable pub msgparser_parser : MsgParser → Block → DataQueue → U → Option (Parsed U)
  unfolding parser_loop
  msgparser_parser coder buffer q user = parser_loop (2 * q.data_size + 2) coder buffer q user
