-- ===== src/Msg/Exchange.antt =====
-- Both ends together: what one side sends by make_msg_packet, and what msgparser_parser makes of it on
-- the other, over queues of any shape and a stream that is cut anywhere.
use evnet.Base.{
  ℕ, ◌+◌, ◌≤◌, ◌<◌, ◌≡◌, refl, sym, ap, ◌∙◌, List, [], ◌∷◌, ◌++◌, arith, Bool, true, false, length,
  some, none, Option, if◌then◌else◌, ◌>>=◌, some_inj, subst,
}
use mathlib.Core.Option
use evnet.Base.Block.{Block, store, read_at}
use evnet.DataQueue.{DataQueue}
use evnet.DataQueue.Shape.{contents}
use evnet.DataQueue.Insert.{Extends}
use evnet.Msg.Frame.{head_size, socket_packet}
use evnet.Msg.Pack.{send_buffer_size, packet_head, make_msg_packet}
use evnet.Msg.Pack.Bytes.{packet_bytes, make_msg_packet_lem}
use evnet.Msg.Parser.{MsgParser, Parsed, msgparser_parser}
use evnet.Msg.Parser.Command.{pending, Ready}
use evnet.Msg.Parser.Body.{view}
use evnet.Msg.Parser.Loop.{msgparser_parser-decodes}
use evnet.Msg.Stream.{decode_all}
use evnet.Msg.Stream.Rounds.{with_more}
use evnet.Msg.Stream.Chunks.{continue_with, decode-append}
use evnet.Msg.Stream.Wire.{Message, AllMessages, wire, serve, decode-wire, decode_refuses_large}

-- A sender of messages in turn, as any caller of make_msg_packet may be: each is built in the one static buffer and
-- copied from there before the next.
pub send_all : Block → List Message → Option (Block × List ℕ)
send_all buffer [] = some (buffer, [])
send_all buffer (m ∷ ms) = do
  (b, size) ← make_msg_packet buffer m.main m.sub (some m.bytes) (length m.bytes)
  bytes ← read_at b 0 size
  (b', more) ← send_all b ms
  some (b', bytes ++ more)

-- For messages that fit the protocol, built by make_msg_packet in turn in the one static buffer, what goes
-- out is, message by message, the head and the data of each, whatever the ones before it left in the
-- buffer; and no access is outside the buffer.
pub send_all-wire :
    (buffer : Block) (ms : List Message)
    → length (store buffer) ≡ send_buffer_size
    → AllMessages ms
    → (b : Block) × (send_all buffer ms ≡ some (b, wire ms))
unfolding send_all wire
send_all-wire buffer [] static v = (buffer, refl)
send_all-wire buffer (m ∷ ms) static (v, vs) =
    let (b1, e, r, l) =
      make_msg_packet_lem buffer m.main m.sub m.bytes static (omega (arith, v.fits)) in
    let (b2, e2) = send_all-wire b1 ms l vs in (b2, rw (e, r, e2))

some-if {ℓ} :
    {A : Type ℓ} (b : Bool) (x y : A) → (if b then some x else some y) ≡ some (if b then x else y)
some-if true x y = refl
some-if false x y = refl

module _ {ℓ} {U : Type ℓ} (handler : U → ℕ → ℕ → List ℕ → U × Bool) where
  -- Messages that fit the protocol, sent in turn by make_msg_packet, reach the handler of the other end
  -- as they were sent and in order, up to the first that the handler answers by false, if their bytes
  -- wait in a valid queue of any shape and the parser waits for a head. msgparser_parser returns true
  -- if the handler always does, and then no byte is left; else it returns false and leaves the bytes of
  -- the messages behind that one.
  pub parser_serves_sent :
      (sending : Block) (ms : List Message) (coder : MsgParser) (buffer : Block) (q : DataQueue)
      (user : U)
      → length (store sending) ≡ send_buffer_size
      → AllMessages ms
      → Ready coder buffer q
      → coder.is_head_gotten ≡ false
      → Option.map (λ o. o.1) (send_all sending ms) ≡ some (contents q)
      → (p : Parsed U) × (msgparser_parser handler coder buffer q user ≡ some p)
        × Ready p.parser p.buffer p.queue
        × (view handler p ≡ serve handler ms user)
  parser_serves_sent sending ms coder buffer q user static fit v got sent =
      let (b, e) = send_all-wire sending ms static fit in
      let bytes : wire ms ≡ contents q = some_inj (sym (ap (Option.map (λ o. o.1)) e) ∙ sent) in
      let (p, runs, ready, d) = msgparser_parser-decodes handler coder buffer q user v in
      let none_held : pending coder ≡ none = ap (λ g. if g then some coder.head else none) got in
      (
        p,
        runs,
        ready,
        some_inj (
            sym d
            ∙ ap (λ h. decode_all handler h (contents q) user) none_held
            ∙ ap (λ xs. decode_all handler none xs user) (sym bytes)
            ∙ decode-wire handler ms user fit),
      )

  -- It makes no difference whether bytes arrive before or after a call of msgparser_parser. With `ys`
  -- behind the bytes of the queue, one call leaves the same head, bytes and user state and returns the
  -- same as a call without `ys` and, if that returns true, a second call with `ys` behind the bytes
  -- that it left; if the first returns false, the one call leaves what the first left, with `ys`
  -- behind it.
  pub parser_chunks :
      (coder : MsgParser) (buffer : Block) (q whole later : DataQueue) (ys : List ℕ) (user : U)
      (p : Parsed U)
      → Ready coder buffer q
      → Extends q ys whole
      → msgparser_parser handler coder buffer q user ≡ some p
      → Extends p.queue ys later
      → (once : Parsed U) × (twice : Parsed U) × (msgparser_parser handler coder buffer whole user
          ≡ some once)
        × (msgparser_parser handler p.parser p.buffer later p.user ≡ some twice)
        × (view handler once ≡ (if p.ok then view handler twice else with_more (view handler p) ys))
  parser_chunks coder buffer q whole later ys user p v x runs x' =
      let (p0, runs0, ready0, d0) = msgparser_parser-decodes handler coder buffer q user v in
      let same : p0 ≡ p = some_inj (sym runs0 ∙ runs) in
      let ready : Ready p.parser p.buffer p.queue =
        subst (λ p. Ready p.parser p.buffer p.queue) same ready0 in
      let first = d0 ∙ ap (λ p. some (view handler p)) same in
      let v1 : Ready coder buffer whole = record {
        queue = x.valid;
        static = v.static;
        head = v.head;
        pos = v.pos;
      } in
      let v2 : Ready p.parser p.buffer later = record {
        queue = x'.valid;
        static = ready.static;
        head = ready.head;
        pos = ready.pos;
      } in
      let (once, runs1, ready1, d1) = msgparser_parser-decodes handler coder buffer whole user v1 in
      let (twice, runs2, ready2, d2) =
        msgparser_parser-decodes handler p.parser p.buffer later p.user v2 in
      let whole_run : some (view handler once) ≡ continue_with handler ys (view handler p) =
        sym d1
        ∙ ap (λ xs. decode_all handler (pending coder) xs user) x.bytes
        ∙ decode-append handler (pending coder) (contents q) ys user
        ∙ ap (λ m. m >>= continue_with handler ys) first in
      let second = ap (λ xs. decode_all handler (pending p.parser) xs p.user) (sym x'.bytes) ∙ d2 in
      (
        once,
        twice,
        runs1,
        runs2,
        some_inj (
            whole_run
            ∙ ap (λ r. if p.ok then r else some (with_more (view handler p) ys)) second
            ∙ some-if p.ok (view handler twice) (with_more (view handler p) ys)),
      )

  -- A packet that make_msg_packet builds of data within SOCKET_PACKET, but of more than SOCKET_PACKET bytes
  -- in all, ends its stream: if its bytes wait in front of a valid queue of any shape and the parser waits for
  -- a head, msgparser_parser returns false, with no call of the handler, and leaves the head read, and in the
  -- queue the packet's data and all behind it.
  pub parser_refuses_large :
      (main sub : ℕ) (xs rest : List ℕ) (coder : MsgParser) (buffer : Block) (q : DataQueue)
      (user : U)
      → main < 65536
      → sub < 65536
      → length xs ≤ socket_packet
      → socket_packet < head_size + length xs
      → Ready coder buffer q
      → coder.is_head_gotten ≡ false
      → contents q ≡ packet_bytes main sub xs ++ rest
      → (p : Parsed U) × (msgparser_parser handler coder buffer q user ≡ some p)
        × (view handler p ≡ record {
          pending = some (packet_head main sub (head_size + length xs));
          rest = xs ++ rest;
          user = user;
          ok = false;
        })
  parser_refuses_large main sub xs rest coder buffer q user hm hs fits large v got bytes =
      let (p, runs, ready, d) = msgparser_parser-decodes handler coder buffer q user v in
      let none_held : pending coder ≡ none = ap (λ g. if g then some coder.head else none) got in
      (
        p,
        runs,
        some_inj (
            sym d
            ∙ ap (λ h. decode_all handler h (contents q) user) none_held
            ∙ ap (λ xs. decode_all handler none xs user) bytes
            ∙ decode_refuses_large handler main sub xs rest user hm hs fits large),
      )
