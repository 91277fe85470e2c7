-- ===== src/Msg/Parser/Command.antt =====
-- One call of _command and what msgparser_parser does with its result, against one round on a stream.
use evnet.Base.{
  ℕ, suc, ◌+◌, ◌-◌, ◌≤◌, ◌≡◌, refl, ap, ap₂, ◌∙◌, ◌++◌, arith, false, length, take, drop, some,
  none, Option, le→ltb, if◌then◌else◌,
}
use evnet.Base.Block.{Block, store, slice, slice-split, write_at_front}
use evnet.DataQueue.{DataQueue}
use evnet.DataQueue.Shape.{IsValid, contents}
use evnet.Msg.Frame.{CmdHead, IsHead, head_size, socket_packet, head_bytes, length-head_bytes}
use evnet.Msg.Parser.{MsgParser, Copying, packet, Result, command_body}
use evnet.Msg.Parser.Fill.{Filled, fill-Filled}

-- The head that a parser has read and not used yet.
abbrev pub pending : MsgParser → Option CmdHead
pending coder = if coder.is_head_gotten then some coder.head else none

-- Between two calls: the queue is valid, the static buffer has its size, the head fits its fields, and
-- after a head the data goes behind it.
pub record Ready (coder : MsgParser) (buffer : Block) (q : DataQueue) : Type 0 where
  pub queue : IsValid q
  pub static : length (store buffer) ≡ socket_packet + head_size
  pub head : IsHead coder.head
  pub pos : coder.pos ≡ (if coder.is_head_gotten then head_size else coder.pos)

-- What the static buffer and the queue hold once a packet is put together.
pub record Assembled (coder : MsgParser) (q : DataQueue) (size : ℕ) (r : Result) : Type 0 where
  pub ready : Ready r.parser r.buffer r.queue
  pub outcome : r.outcome ≡ packet size
  pub cleared : r.parser.is_head_gotten ≡ false
  pub head : slice 0 head_size (store r.buffer) ≡ head_bytes coder.head
  pub payload :
      slice head_size (size - head_size) (store r.buffer) ≡ take (size - head_size) (contents q)
  pub rest : contents r.queue ≡ drop (size - head_size) (contents q)

-- The result of the branch that puts a packet together.
abbrev pub assembled : MsgParser → Copying → Result
assembled coder c = record {
  parser = record coder { is_head_gotten = false; pos = c.pos };
  buffer = c.buffer;
  queue = c.queue;
  outcome = packet coder.head.packet_size;
}

assembled-Assembled :
    {coder : MsgParser} {b : Block} {q : DataQueue} (c : Copying)
    → IsHead coder.head
    → coder.pos ≡ head_size
    → length (store b) ≡ socket_packet + head_size
    → slice 0 head_size (store b) ≡ head_bytes coder.head
    → Filled
        (record { pos = coder.pos; buffer = b; queue = q })
        (coder.head.packet_size - coder.pos)
        c
    → Assembled coder q coder.head.packet_size (assembled coder c)
assembled-Assembled {coder} {b} {q} c h at room front f =
    let k = coder.head.packet_size - head_size in
    let missing : coder.head.packet_size - coder.pos ≡ k = omega arith in
    let reach : head_size + k ≡ c.pos = omega (arith, f.pos) in
    let whole : slice 0 (head_size + k) (store c.buffer)
        ≡ head_bytes coder.head ++ take k (contents q) =
      ap (λ i. slice 0 i (store c.buffer)) reach
      ∙ f.front
      ∙ ap₂ (λ i j. slice 0 i (store b) ++ take j (contents q)) at missing
      ∙ ap (λ r. r ++ take k (contents q)) front in
    let parts =
      slice-split (store c.buffer) head_size k (head_bytes coder.head) (take k (contents q)) whole
        (length-head_bytes coder.head) in
    record {
      ready = record { queue = f.valid; static = f.room ∙ room; head = h; pos = refl };
      outcome = refl;
      cleared = refl;
      head = parts.0;
      payload = parts.1;
      rest = f.bytes ∙ ap (λ i. drop i (contents q)) missing;
    }

pub assemble :
    {coder : MsgParser} {buffer : Block} {q : DataQueue}
    → Ready coder buffer q
    → coder.pos ≡ head_size
    → coder.head.packet_size ≤ socket_packet
    → coder.head.packet_size ≤ q.data_size + head_size
    → (r : Result) × (command_body coder buffer q ≡ some r)
      × Assembled coder q coder.head.packet_size r
unfolding command_body
assemble {coder} {buffer} {q} v at small enough =
    let size = coder.head.packet_size in
    let (b, e, front, kept) =
      write_at_front buffer (head_bytes coder.head) head_size (length-head_bytes coder.head)
        (omega (arith, v.static)) in
    let room : length (store b) ≡ socket_packet + head_size = kept ∙ v.static in
    let (c, e', f) =
      fill-Filled (suc size) size (record { pos = coder.pos; buffer = b; queue = q }) v.queue
        (omega arith) (omega arith) (omega arith) in
    (
      assembled coder c,
      rw (le→ltb _ _ small, le→ltb _ _ enough, e, e') refl,
      assembled-Assembled c v.head at room front f,
    )
