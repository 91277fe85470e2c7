-- ===== src/Msg/Parser/Refine.antt =====
-- msgparser_parser against the decoder of a stream: the queue, its two parts, the static buffer and
-- the positions make no difference.
use evnet.Base.{
  ℕ, suc, ◌+◌, ◌≤◌, ◌<◌, ◌≡◌, ◌≢◌, refl, sym, ap, ◌∙◌, subst, List, ◌++◌, arith, Bool, true, false,
  length, take, drop, some, none, lt→ltb, le→ltb, ==_refl, ==_false, dec_lt, ℕ_discrete,
  if◌then◌else◌, ◌>>=◌, Bool-cases, inl, inr,
}
use evnet.Base.Block.{Block, store, slice, slice-zero, read_at, read_at_lem}
use evnet.DataQueue.{DataQueue}
use evnet.DataQueue.Shape.{IsValid, contents, length-contents}
use evnet.Msg.Frame.{CmdHead, head_size, socket_ver, socket_packet, read_head, read_head-IsHead}
use evnet.Msg.Parser.{
  MsgParser, Copying, fill, command_body, command_head, on_outcome, parser_round,
}
use evnet.Msg.Stream.{decode_round}
use evnet.Msg.Parser.Fill.{fill-Filled}
use evnet.Msg.Parser.Command.{pending, Ready}
use evnet.Msg.Parser.Body.{Refines, body-Refines}

-- The eight bytes of a head, copied from the queue.
record HeadRead (buffer : Block) (q : DataQueue) (c : Copying) : Type 0 where
  copied : fill (suc head_size) head_size (record { pos = 0; buffer = buffer; queue = q }) ≡ some c
  pos : c.pos ≡ head_size
  queue : IsValid c.queue
  rest : contents c.queue ≡ drop head_size (contents q)
  read : read_at c.buffer 0 head_size ≡ some (take head_size (contents q))
  static : length (store c.buffer) ≡ socket_packet + head_size

head_read :
    {buffer : Block} {q : DataQueue}
    → IsValid q
    → length (store buffer) ≡ socket_packet + head_size
    → head_size ≤ q.data_size
    → (c : Copying) × HeadRead buffer q c
head_read {buffer} {q} v static enough =
    let (c, e, f) =
      fill-Filled (suc head_size) head_size (record { pos = 0; buffer = buffer; queue = q }) v
        (omega arith) (omega arith) (omega arith) in
    let whole : c.pos ≡ head_size = omega (arith, f.pos) in
    (
      c,
      record {
        copied = e;
        pos = whole;
        queue = f.valid;
        rest = f.bytes;
        read =
            read_at_lem c.buffer 0 head_size (omega (arith, f.room))
            ∙ ap some (
                ap (λ k. slice 0 k (store c.buffer)) (sym whole)
                ∙ f.front
                ∙ ap (λ r. r ++ take head_size (contents q)) (slice-zero (store buffer) 0));
        static = f.room ∙ static;
      },
    )

-- The parser once it holds the head of the next packet.
abbrev with_head : MsgParser → ℕ → CmdHead → MsgParser
with_head coder pos head = record coder { pos = pos; head = head; is_head_gotten = true }

module _ {ℓ} {U : Type ℓ} (handler : U → ℕ → ℕ → List ℕ → U × Bool) where
  head_incomplete :
      (coder : MsgParser) (buffer : Block) (q : DataQueue) (user : U)
      → Ready coder buffer q
      → coder.is_head_gotten ≡ false
      → q.data_size < head_size
      → Refines handler
          (parser_round handler coder buffer q user)
          (decode_round handler none (contents q) user)
  unfolding parser_round decode_round
  head_incomplete coder buffer q user v got short = record {
    parsed = record { parser = coder; buffer = buffer; queue = q; user = user; ok = true };
    on = false;
    returns = rw (got, lt→ltb _ _ short);
    ready = v;
    agrees = rw (length-contents v.queue, lt→ltb _ _ short, got);
  }

  head_refused :
      (coder : MsgParser) (buffer : Block) (q : DataQueue) (user : U) (c : Copying)
      → Ready coder buffer q
      → coder.is_head_gotten ≡ false
      → head_size ≤ q.data_size
      → HeadRead buffer q c
      → (read_head (take head_size (contents q))).version ≢ socket_ver
      → Refines handler
          (parser_round handler coder buffer q user)
          (decode_round handler none (contents q) user)
  unfolding parser_round decode_round
  head_refused coder buffer q user c v got enough h bad = record {
    parsed = record {
      parser = record coder { pos = c.pos; head = read_head (take head_size (contents q)) };
      buffer = c.buffer;
      queue = c.queue;
      user = user;
      ok = false;
    };
    on = false;
    returns = rw (got, le→ltb _ _ enough, h.copied, h.read, ==_false _ _ bad);
    ready = record {
      queue = h.queue;
      static = h.static;
      head = read_head-IsHead (take head_size (contents q));
      pos = sym (ap (λ g. if g then head_size else c.pos) got);
    };
    agrees = rw (length-contents v.queue, le→ltb _ _ enough, ==_false _ _ bad, got, h.rest);
  }

  head_accepted :
      (coder : MsgParser) (buffer : Block) (q : DataQueue) (user : U) (c : Copying)
      → Ready coder buffer q
      → coder.is_head_gotten ≡ false
      → head_size ≤ q.data_size
      → HeadRead buffer q c
      → (read_head (take head_size (contents q))).version ≡ socket_ver
      → Refines handler
          (parser_round handler coder buffer q user)
          (decode_round handler none (contents q) user)
  unfolding parser_round decode_round
  head_accepted coder buffer q user c v got enough h good =
      let coder' = with_head coder c.pos (read_head (take head_size (contents q))) in
      let ready : Ready coder' c.buffer c.queue = record {
        queue = h.queue;
        static = h.static;
        head = read_head-IsHead (take head_size (contents q));
        pos = h.pos;
      } in
      let out = body-Refines handler coder' c.buffer c.queue user ready refl in
      record {
        parsed = out.parsed;
        on = out.on;
        returns = rw (got, le→ltb _ _ enough, h.copied, h.read, ==_refl _ _ good) out.returns;
        ready = out.ready;
        agrees =
            out.agrees ∙ rw (length-contents v.queue, le→ltb _ _ enough, ==_refl _ _ good, h.rest);
      }

  -- A parser that holds a head.
  pending_round :
      (coder : MsgParser) (buffer : Block) (q : DataQueue) (user : U)
      → Ready coder buffer q
      → coder.is_head_gotten ≡ true
      → Refines handler
          (parser_round handler coder buffer q user)
          (decode_round handler (some coder.head) (contents q) user)
  unfolding parser_round decode_round
  pending_round coder buffer q user v got =
      let out = body-Refines handler coder buffer q user v got in
      record {
        parsed = out.parsed;
        on = out.on;
        returns =
            ap
              (λ g.
                (if g then command_body coder buffer q else command_head coder buffer q) >>= λ r.
                on_outcome handler r.outcome r user)
              got
            ∙ out.returns;
        ready = out.ready;
        agrees = out.agrees;
      }

  -- A parser that waits for one.
  fresh_round :
      (coder : MsgParser) (buffer : Block) (q : DataQueue) (user : U)
      → Ready coder buffer q
      → coder.is_head_gotten ≡ false
      → Refines handler
          (parser_round handler coder buffer q user)
          (decode_round handler none (contents q) user)
  fresh_round coder buffer q user v got = elim (dec_lt q.data_size head_size) [
    | yes short ↦ head_incomplete coder buffer q user v got short
    | no enough ↦
        let (c, h) = head_read v.queue v.static (omega arith) in
        elim (ℕ_discrete (read_head (take head_size (contents q))).version socket_ver) [
          | yes good ↦ head_accepted coder buffer q user c v got (omega arith) h good
          | no bad ↦ head_refused coder buffer q user c v got (omega arith) h bad
        ]
  ]

  pub round-Refines :
      (coder : MsgParser) (buffer : Block) (q : DataQueue) (user : U)
      → Ready coder buffer q
      → Refines handler
          (parser_round handler coder buffer q user)
          (decode_round handler (pending coder) (contents q) user)
  round-Refines coder buffer q user v = elim (Bool-cases coder.is_head_gotten) [
    | inl got ↦
        subst
          (λ p.
            Refines handler (parser_round handler coder buffer q user)
              (decode_round handler p (contents q) user))
          (sym (ap (λ g. if g then some coder.head else none) got))
          (pending_round coder buffer q user v got)
    | inr got ↦
        subst
          (λ p.
            Refines handler (parser_round handler coder buffer q user)
              (decode_round handler p (contents q) user))
          (sym (ap (λ g. if g then some coder.head else none) got))
          (fresh_round coder buffer q user v got)
  ]
