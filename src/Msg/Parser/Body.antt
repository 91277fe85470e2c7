-- ===== src/Msg/Parser/Body.antt =====
-- What msgparser_parser does with one result of _command, against one round on a stream.
use evnet.Base.{
  ℕ, ◌+◌, ◌-◌, ◌≤◌, ◌<◌, ◌≡◌, sym, ap, ◌∙◌, List, [], arith, Bool, true, false, take, some, Option,
  lt→ltb, le→ltb, dec_lt, if◌then◌else◌, ◌>>=◌, append-nil, add32,
}
use evnet.Base.Block.{Block, read_at, read_at_lem}
use evnet.DataQueue.{DataQueue}
use evnet.DataQueue.Shape.{contents, length-contents}
use evnet.Msg.Frame.{IsHead, head_size, socket_packet, head_bytes, read_head, read_head-head_bytes}
use evnet.Msg.Parser.{MsgParser, packet, Result, command_body, Parsed, deliver, on_outcome}
use evnet.Msg.Stream.{Decoded, decode_packet, decode_body}
use evnet.Msg.Parser.Command.{pending, Ready, Assembled, assemble}

module _ {ℓ} {U : Type ℓ} (handler : U → ℕ → ℕ → List ℕ → U × Bool) where
  -- What a stream decoder would have left.
  abbrev pub view : Parsed U → Decoded U
  view p = record { pending = pending p.parser; rest = contents p.queue; user = p.user; ok = p.ok }

  abbrev pub run_body : MsgParser → Block → DataQueue → U → Option (Parsed U × Bool)
  run_body coder buffer q user = do
    r ← command_body coder buffer q
    on_outcome handler r.outcome r user

  -- A result of the parser beside the round on a stream that it stands for.
  pub record Refines (out : Option (Parsed U × Bool)) (spec : Decoded U × Bool) : Type ℓ where
    pub parsed : Parsed U
    pub on : Bool
    pub returns : out ≡ some (parsed, on)
    pub ready : Ready parsed.parser parsed.buffer parsed.queue
    pub agrees : (view parsed, on) ≡ spec

  -- The record of a result, as the code returns it.
  abbrev leave : Result → U → Bool → Parsed U
  leave r user ok = record {
    parser = r.parser;
    buffer = r.buffer;
    queue = r.queue;
    user = user;
    ok = ok;
  }

  abbrev delivered : Result → U × Bool → Parsed U
  delivered r out = record {
    parser = record (r.parser) { recv_packet_count = add32 r.parser.recv_packet_count 1 };
    buffer = r.buffer;
    queue = r.queue;
    user = out.0;
    ok = out.1;
  }

  deliver_lem :
      {coder : MsgParser} {q : DataQueue} {r : Result} (user : U)
      → IsHead coder.head
      → Assembled coder q coder.head.packet_size r
      → head_size ≤ coder.head.packet_size
      → coder.head.packet_size ≤ socket_packet
      → deliver handler coder.head.packet_size r user
        ≡ some (
            delivered r (
              handler user coder.head.main_cmd coder.head.sub_cmd
                (take (coder.head.packet_size - head_size) (contents q))))
  unfolding deliver
  deliver_lem {coder} {q} {r} user h a le small =
      let size = coder.head.packet_size in
      let first : read_at r.buffer 0 head_size ≡ some (head_bytes coder.head) =
        read_at_lem r.buffer 0 head_size (omega (arith, a.ready.static)) ∙ ap some a.head in
      let second : read_at r.buffer head_size (size - head_size)
          ≡ some (take (size - head_size) (contents q)) =
        read_at_lem r.buffer head_size (size - head_size) (omega (arith, a.ready.static))
        ∙ ap some a.payload in
      let back : read_head (head_bytes coder.head) ≡ coder.head =
        ap read_head (sym (append-nil (head_bytes coder.head))) ∙ read_head-head_bytes [] h in
      rw (first, second, back)

  packet-Refines :
      {coder : MsgParser} {q : DataQueue} {r : Result} (user : U)
      → IsHead coder.head
      → Assembled coder q coder.head.packet_size r
      → coder.head.packet_size ≤ socket_packet
      → Refines
          (on_outcome handler (packet coder.head.packet_size) r user)
          (decode_packet handler coder.head (contents q) user)
  unfolding on_outcome decode_packet
  packet-Refines {coder} {q} {r} user h a small = elim (dec_lt coder.head.packet_size head_size) [
    | yes lt ↦ record {
      parsed = leave r user false;
      on = false;
      returns = rw (lt→ltb _ _ lt);
      ready = a.ready;
      agrees = rw (lt→ltb _ _ lt, a.cleared, a.rest);
    }
    | no ge ↦
        let out =
          handler user coder.head.main_cmd coder.head.sub_cmd
            (take (coder.head.packet_size - head_size) (contents q)) in
        record {
          parsed = delivered r out;
          on = out.1;
          returns = rw (
            le→ltb coder.head.packet_size head_size (omega arith),
            deliver_lem user h a (omega arith) small,
          );
          ready = record {
            queue = a.ready.queue;
            static = a.ready.static;
            head = a.ready.head;
            pos = a.ready.pos;
          };
          agrees = rw (le→ltb coder.head.packet_size head_size (omega arith), a.cleared, a.rest);
        }
  ]

  body_failed :
      (coder : MsgParser) (buffer : Block) (q : DataQueue) (user : U)
      → Ready coder buffer q
      → coder.is_head_gotten ≡ true
      → socket_packet < coder.head.packet_size
      → Refines (run_body coder buffer q user) (decode_body handler coder.head (contents q) user)
  unfolding decode_body command_body on_outcome
  body_failed coder buffer q user v got large = record {
    parsed = record { parser = coder; buffer = buffer; queue = q; user = user; ok = false };
    on = false;
    returns = rw (lt→ltb _ _ large);
    ready = v;
    agrees = rw (lt→ltb _ _ large, got);
  }

  body_incomplete :
      (coder : MsgParser) (buffer : Block) (q : DataQueue) (user : U)
      → Ready coder buffer q
      → coder.is_head_gotten ≡ true
      → coder.head.packet_size ≤ socket_packet
      → q.data_size + head_size < coder.head.packet_size
      → Refines (run_body coder buffer q user) (decode_body handler coder.head (contents q) user)
  unfolding decode_body command_body on_outcome
  body_incomplete coder buffer q user v got fits short = record {
    parsed = record { parser = coder; buffer = buffer; queue = q; user = user; ok = true };
    on = false;
    returns = rw (le→ltb _ _ fits, lt→ltb _ _ short);
    ready = v;
    agrees = rw (le→ltb _ _ fits, length-contents v.queue, lt→ltb _ _ short, got);
  }

  body_complete :
      (coder : MsgParser) (buffer : Block) (q : DataQueue) (user : U)
      → Ready coder buffer q
      → coder.is_head_gotten ≡ true
      → coder.head.packet_size ≤ socket_packet
      → coder.head.packet_size ≤ q.data_size + head_size
      → Refines (run_body coder buffer q user) (decode_body handler coder.head (contents q) user)
  unfolding decode_body
  body_complete coder buffer q user v got fits enough =
      let (r, e, a) =
        assemble v (v.pos ∙ ap (λ g. if g then head_size else coder.pos) got) fits enough in
      let out = packet-Refines user v.head a fits in
      record {
        parsed = out.parsed;
        on = out.on;
        returns = rw (e, a.outcome) out.returns;
        ready = out.ready;
        agrees = rw (le→ltb _ _ fits, length-contents v.queue, le→ltb _ _ enough) out.agrees;
      }

  pub body-Refines :
      (coder : MsgParser) (buffer : Block) (q : DataQueue) (user : U)
      → Ready coder buffer q
      → coder.is_head_gotten ≡ true
      → Refines (run_body coder buffer q user) (decode_body handler coder.head (contents q) user)
  body-Refines coder buffer q user v got = elim (dec_lt socket_packet coder.head.packet_size) [
    | yes large ↦ body_failed coder buffer q user v got large
    | no fits ↦ elim (dec_lt (q.data_size + head_size) coder.head.packet_size) [
      | yes short ↦ body_incomplete coder buffer q user v got (omega arith) short
      | no enough ↦ body_complete coder buffer q user v got (omega arith) (omega arith)
    ]
  ]
