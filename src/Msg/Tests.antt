-- ===== src/Msg/Tests.antt =====
-- The theorems on packets, at messages of a few bytes.
use evnet.Base.{
  ℕ, ◌+◌, ◌≡◌, refl, inl, List, [], ◌∷◌, ◌++◌, arith, Bool, true, false, length, replicate,
  length-replicate, length-append, some, none, ap, sym, ◌∙◌,
}
use mathlib.Core.Option
use evnet.Base.Block.{Block, store, slice, slice_all, read_at}
use evnet.DataQueue.{DataQueue}
use evnet.DataQueue.Shape.{IsLinear, contents, contents-linear}
use evnet.DataQueue.Insert.{Extends}
use evnet.Msg.Frame.{head_size, head_bytes, length-head_bytes}
use evnet.Msg.Pack.{send_buffer_size, packet_head, make_msg_packet}
use evnet.Msg.Pack.Bytes.{packet_bytes, make_msg_packet_lem, make_msg_packet_overruns}
use evnet.Msg.Parser.{MsgParser, Parsed, msgparser_parser}
use evnet.Msg.Parser.Command.{Ready}
use evnet.Msg.Parser.Body.{view}
use evnet.Msg.Parser.Loop.{msgparser_parser-decodes}
use evnet.Msg.Stream.{decode_all}
use evnet.Msg.Stream.Wire.{Message, AllMessages, wire, serve}
use evnet.Msg.Exchange.{
  send_all, send_all-wire, parser_serves_sent, parser_chunks, parser_refuses_large,
}

-- A handler that keeps what it is given, and stops at an empty packet.
abbrev keep : List ℕ → ℕ → ℕ → List ℕ → List ℕ × Bool
keep user main sub [] = (user ++ (main ∷ sub ∷ []), false)
keep user main sub (x ∷ xs) = (user ++ (main ∷ sub ∷ x ∷ xs), true)

abbrev static_buffer : Block
static_buffer = some (replicate 32760 0)

length-static_buffer : length (store static_buffer) ≡ send_buffer_size
length-static_buffer = length-replicate {A = ℕ} 32760 0

-- A parser in memory that memset has cleared.
abbrev fresh : MsgParser
fresh = record {
  recv_packet_count = 0;
  send_packet_count = 0;
  head = record { version = 0; check_code = 0; packet_size = 0; main_cmd = 0; sub_cmd = 0 };
  is_head_gotten = false;
  pos = 0;
}

-- A queue whose bytes stand at the front of a block of their size.
abbrev holding : List ℕ → DataQueue
holding xs = record {
  insert_pos = length xs;
  terminal_pos = length xs;
  query_pos = 0;
  data_size = length xs;
  buffer_size = length xs;
  buffer = some xs;
}

-- Two messages, the second with no data, and their packets.
abbrev messages : List Message
messages =
    record { main = 1; sub = 2; bytes = 7 ∷ 9 ∷ [] }
    ∷ record { main = 300; sub = 4; bytes = [] }
    ∷ []

abbrev packets : List ℕ
packets = 0x66 ∷ 0 ∷ 10 ∷ 0 ∷ 1 ∷ 0 ∷ 2 ∷ 0 ∷ 7 ∷ 9 ∷ 0x66 ∷ 0 ∷ 8 ∷ 0 ∷ 44 ∷ 1 ∷ 4 ∷ 0 ∷ []

messages_fit : AllMessages messages
messages_fit = (omega arith, (omega arith, tt))

fresh-Ready : Ready fresh static_buffer (holding packets)
fresh-Ready = record {
  queue = record { placed = omega arith; shape = inl (omega arith) };
  static = length-static_buffer;
  head = omega arith;
  pos = refl;
}

msgparser_parser-decodes_example :
    (p : Parsed (List ℕ)) × (msgparser_parser keep fresh static_buffer (holding packets) []
      ≡ some p)
    × Ready p.parser p.buffer p.queue
    × (decode_all keep none (contents (holding packets)) [] ≡ some (view keep p))
msgparser_parser-decodes_example =
    msgparser_parser-decodes keep fresh static_buffer (holding packets) [] fresh-Ready

-- The first three bytes of a packet, and the rest of it behind them.
abbrev early : List ℕ
early = 0x66 ∷ 0 ∷ 10 ∷ []

abbrev late : List ℕ
late = 0 ∷ 1 ∷ 0 ∷ 2 ∷ 0 ∷ 7 ∷ 9 ∷ []

early-Ready : Ready fresh static_buffer (holding early)
early-Ready = record {
  queue = record { placed = omega arith; shape = inl (omega arith) };
  static = length-static_buffer;
  head = omega arith;
  pos = refl;
}

early-Extends : Extends (holding early) late (holding (early ++ late))
unfolding contents slice
early-Extends = record {
  valid = record { placed = omega arith; shape = inl (omega arith) };
  bytes = refl;
}

abbrev early_run : Parsed (List ℕ)
early_run = record {
  parser = fresh;
  buffer = static_buffer;
  queue = holding early;
  user = [];
  ok = true;
}

early_runs : msgparser_parser keep fresh static_buffer (holding early) [] ≡ some early_run
unfolding msgparser_parser
early_runs = refl

parser_chunks_example :
    (once : Parsed (List ℕ)) × (twice : Parsed (List ℕ)) × (msgparser_parser keep fresh
        static_buffer
        (holding (early ++ late))
        []
      ≡ some once)
    × (msgparser_parser keep fresh static_buffer (holding (early ++ late)) [] ≡ some twice)
    × (view keep once ≡ view keep twice)
parser_chunks_example =
    parser_chunks keep fresh static_buffer (holding early) (holding (early ++ late))
      (holding (early ++ late)) late [] early_run early-Ready early-Extends early_runs early-Extends

packets_sent :
    Option.map (λ o. o.1) (send_all static_buffer messages) ≡ some (contents (holding packets))
unfolding wire head_bytes contents slice
packets_sent =
    ap (Option.map (λ o. o.1))
      (send_all-wire static_buffer messages length-static_buffer messages_fit).1

parser_serves_sent_example :
    (p : Parsed (List ℕ)) × (msgparser_parser keep fresh static_buffer (holding packets) []
      ≡ some p)
    × Ready p.parser p.buffer p.queue
    × (view keep p ≡ serve keep messages [])
parser_serves_sent_example =
    parser_serves_sent keep static_buffer messages fresh static_buffer (holding packets) []
      length-static_buffer messages_fit fresh-Ready refl packets_sent

make_msg_packet_lem_example :
    (b : Block) × (make_msg_packet static_buffer 1 2 (some (7 ∷ 9 ∷ [])) 2 ≡ some (b, 10))
    × (read_at b 0 10 ≡ some (packet_bytes 1 2 (7 ∷ 9 ∷ [])))
    × (length (store b) ≡ send_buffer_size)
make_msg_packet_lem_example =
    make_msg_packet_lem static_buffer 1 2 (7 ∷ 9 ∷ []) length-static_buffer (omega arith)

-- One byte more than a packet can carry.
abbrev too_long : List ℕ
too_long = replicate 32753 0

length-too_long : length too_long ≡ 32753
length-too_long = length-replicate {A = ℕ} 32753 0

make_msg_packet_overruns_example :
    make_msg_packet static_buffer 1 2 (some too_long) (length too_long) ≡ none
make_msg_packet_overruns_example =
    make_msg_packet_overruns static_buffer 1 2 too_long length-static_buffer
      (omega (arith, length-too_long))

-- Data that the sender takes and the receiver refuses.
abbrev long : List ℕ
long = replicate 32750 0

length-long : length long ≡ 32750
length-long = length-replicate {A = ℕ} 32750 0

abbrev long_queue : DataQueue
long_queue = record {
  insert_pos = 32758;
  terminal_pos = 32758;
  query_pos = 0;
  data_size = 32758;
  buffer_size = 32758;
  buffer = some (packet_bytes 1 2 long ++ []);
}

length-long_packet : length (packet_bytes 1 2 long ++ []) ≡ 32758
length-long_packet =
    let h = head_bytes (packet_head 1 2 (head_size + length long)) in
    omega (
      arith,
      length-append (h ++ long) [],
      length-append h long,
      length-head_bytes (packet_head 1 2 (head_size + length long)),
      length-long,
    )

long-IsLinear : IsLinear long_queue
long-IsLinear = omega arith

long-Ready : Ready fresh static_buffer long_queue
long-Ready = record {
  queue = record { placed = omega (arith, length-long_packet); shape = inl long-IsLinear };
  static = length-static_buffer;
  head = omega arith;
  pos = refl;
}

long-contents : contents long_queue ≡ packet_bytes 1 2 long ++ []
long-contents =
    contents-linear long-IsLinear
    ∙ ap (λ n. slice 0 n (packet_bytes 1 2 long ++ [])) (sym length-long_packet)
    ∙ slice_all (packet_bytes 1 2 long ++ [])

parser_refuses_large_example :
    (p : Parsed (List ℕ)) × (msgparser_parser keep fresh static_buffer long_queue [] ≡ some p)
    × (view keep p ≡ record {
      pending = some (packet_head 1 2 (head_size + length long));
      rest = long ++ [];
      user = [];
      ok = false;
    })
parser_refuses_large_example =
    parser_refuses_large keep 1 2 long [] fresh static_buffer long_queue [] (omega arith)
      (omega arith) (omega (arith, length-long)) (omega (arith, length-long)) long-Ready refl
      long-contents
