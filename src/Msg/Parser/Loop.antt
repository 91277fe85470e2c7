-- ===== src/Msg/Parser/Loop.antt =====
-- msgparser_parser as a whole.
use evnet.Base.{
  ℕ, zero, suc, ◌+◌, ◌*◌, ◌<◌, ◌≡◌, sym, ap, ◌∙◌, List, arith, Bool, true, length, some, ==_refl,
  ==_false, ℕ_discrete, Bool-cases, inl, inr,
}
use evnet.Base.Block.{Block}
use evnet.DataQueue.{DataQueue}
use evnet.DataQueue.Shape.{contents, length-contents}
use evnet.Msg.Parser.{MsgParser, Parsed, parser_round, parser_loop, msgparser_parser}
use evnet.Msg.Stream.{decode_round, decode, decode_all}
use evnet.Msg.Stream.Progress.{held, round_progress}
use evnet.Msg.Parser.Command.{pending, Ready}
use evnet.Msg.Parser.Body.{view, Refines}
use evnet.Msg.Parser.Refine.{round-Refines}

module _ {ℓ} {U : Type ℓ} (handler : U → ℕ → ℕ → List ℕ → U × Bool) where
  round_shrinks :
      {coder : MsgParser} {buffer : Block} {q : DataQueue} (user : U)
      → Ready coder buffer q
      → (r : Refines handler
          (parser_round handler coder buffer q user)
          (decode_round handler (pending coder) (contents q) user))
      → r.on ≡ true
      → 2 * r.parsed.queue.data_size + held (pending r.parsed.parser)
        < 2 * q.data_size + held (pending coder)
  round_shrinks {coder} {buffer} {q} user v r on =
      let (none_held, less) =
        round_progress handler (pending coder) (contents q) user
          (ap (λ o. o.1) (sym r.agrees) ∙ on) in
      let rest = ap (λ o. length o.0.rest) r.agrees in
      let here = ap (λ o. held o.0.pending) r.agrees ∙ ap held none_held in
      omega (arith, rest, here, length-contents v.queue, length-contents r.ready.queue)

  parser_loop-decodes :
      (fuel : ℕ) (coder : MsgParser) (buffer : Block) (q : DataQueue) (user : U)
      → Ready coder buffer q
      → 2 * q.data_size + held (pending coder) < fuel
      → (p : Parsed U) × (parser_loop handler fuel coder buffer q user ≡ some p)
        × Ready p.parser p.buffer p.queue
        × (decode handler fuel (pending coder) (contents q) user ≡ some (view handler p))
  unfolding parser_loop decode
  parser_loop-decodes zero coder buffer q user v h = absurd (omega arith)
  parser_loop-decodes (suc fuel) coder buffer q user v h = elim (ℕ_discrete q.data_size 0) [
    | yes e ↦ (
      record { parser = coder; buffer = buffer; queue = q; user = user; ok = true },
      rw (==_refl _ _ e),
      v,
      rw (length-contents v.queue, ==_refl _ _ e),
    )
    | no ne ↦
        let r = round-Refines handler coder buffer q user v in
        elim (Bool-cases r.on) [
          | inr off ↦ (
            r.parsed,
            rw (==_false _ _ ne, r.returns, off),
            r.ready,
            rw (length-contents v.queue, ==_false _ _ ne, ← r.agrees, off),
          )
          | inl on ↦
              let less = round_shrinks user v r on in
              let (p, e, ready, d) =
                parser_loop-decodes fuel r.parsed.parser r.parsed.buffer r.parsed.queue
                  r.parsed.user r.ready (omega arith) in
              (
                p,
                rw (==_false _ _ ne, r.returns, on) e,
                ready,
                rw (length-contents v.queue, ==_false _ _ ne, ← r.agrees, on) d,
              )
        ]
  ]

  -- On a parser, a static buffer and a valid queue as they are between two calls, msgparser_parser
  -- returns; it makes no access outside a block; and it leaves the same head, bytes and user state,
  -- and returns the same flag, as the decoder of the plain stream of the queue's bytes. What it leaves
  -- is ready for the next call.
  pub msgparser_parser-decodes :
      (coder : MsgParser) (buffer : Block) (q : DataQueue) (user : U)
      → Ready coder buffer q
      → (p : Parsed U) × (msgparser_parser handler coder buffer q user ≡ some p)
        × Ready p.parser p.buffer p.queue
        × (decode_all handler (pending coder) (contents q) user ≡ some (view handler p))
  unfolding msgparser_parser decode_all
  msgparser_parser-decodes coder buffer q user v =
      let (p, e, ready, d) =
        parser_loop-decodes (2 * q.data_size + 2) coder buffer q user v
          (ground (arith, v.static)) in
      let fuel : 2 * length (contents q) + 2 ≡ 2 * q.data_size + 2 =
        omega (arith, length-contents v.queue) in
      (p, e, ready, rw fuel d)
