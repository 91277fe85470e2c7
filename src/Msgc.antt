-- ===== src/Msgc.antt =====
-- msgc.c and msgc.h: the message client, which has one connection and hands its packets to the application.
pub mod Closed
mod Tests
use evnet.Base.{
  ℕ, Bool, true, false, Option, none, some, ◌>>=◌, List, ◌==◌, if◌then◌else◌, ℤ, pos, add32,
}
use evnet.Base.Block.{Block, read_at}
use evnet.Event.{Mask, CtlOp}
use evnet.Msg.Parser.{MsgParser, Parsed, msgparser_parser}
use evnet.Msg.Pack.{make_msg_packet}
use evnet.Channel.{
  ChannelMsg, evdata, evclosed, evsent, Net, load, store, upstream_channel, channel_close,
  channel_bind, channel_send,
}

-- struct msgc_s, beside it the static buffers of msg_pack.c and of msgpraser.c; `app` is the application's state, to
-- which usrdata points. `chan` is the member c; 0 is NULL.
pub record Msgc {ℓ} (A : Type ℓ) : Type ℓ where
  pub has_close : Bool
  pub parser : MsgParser
  pub chan : ℕ
  pub timeout : ℕ
  pub send_buffer : Block
  pub parse_buffer : Block
  pub app : A

-- The address of _channel_callback.
abbrev pub client_callback_proc : ℕ
client_callback_proc = 6

module _ {ℓ κ} {K : Type ℓ} {A : Type κ} where
  abbrev pub set_parser : Net K (Msgc A) → MsgParser → Net K (Msgc A)
  set_parser s parser = record s { user = record (s.user) { parser = parser } }

  module _ (epoll_ctl : K → CtlOp → ℕ → Mask → Option K)
      (handle : ℕ → ℕ → List ℕ → Net K (Msgc A) → Option (Bool × Net K (Msgc A)))
      (on_close : Net K (Msgc A) → Option (Net K (Msgc A))) where
    -- _channel_callback for _EVCLOSED.
    pub client_closed : Net K (Msgc A) → Option (Net K (Msgc A))
    client_closed s = if s.user.has_close then on_close s else some s

    -- _channel_callback as channel_close calls it.
    pub client_closed_callback : ℕ → ℕ → ChannelMsg → Net K (Msgc A) → Option (Net K (Msgc A))
    unfolding client_closed
    client_closed_callback handler usr (evdata c) s = some s
    client_closed_callback handler usr (evclosed c errcode) s = client_closed s
    client_closed_callback handler usr (evsent c size) s = some s

    -- msgc_continte: a state that was lost stays so, and the parser stops.
    pub msgc_continte : Option (Net K (Msgc A)) → ℕ → ℕ → List ℕ → Option (Net K (Msgc A)) × Bool
    msgc_continte none main sub bytes = (none, false)
    msgc_continte (some s) main sub bytes = elim (handle main sub bytes s) [
      | none ↦ (none, false)
      | some (ok, s') ↦ (some s', ok)
    ]

    -- The parser's struct and the queue, written back. The number of packets sent is what the handlers left.
    pub client_parsed : ℕ → Parsed (Option (Net K (Msgc A))) → Option (Net K (Msgc A))
    client_parsed c p = do
      s ← p.user
      ch ← load s c
      let s1 =
          set_parser s (record (p.parser) { send_packet_count = s.user.parser.send_packet_count })
      let s2 = store s1 c (some (record ch { in_queue = p.queue }))
      some (record s2 { user = record (s2.user) { parse_buffer = p.buffer } })

    -- _channel_callback for _EVDATA.
    pub client_data : ℕ → Net K (Msgc A) → Option (Net K (Msgc A))
    unfolding msgc_continte client_parsed client_closed_callback
    client_data c s = do
      ch ← load s c
      p ← msgparser_parser msgc_continte s.user.parser s.user.parse_buffer ch.in_queue (some s)
      s1 ← client_parsed c p
      if p.ok then some s1 else channel_close epoll_ctl client_closed_callback c (pos 0) s1

    -- _channel_callback
    pub client_callback : ℕ → ℕ → ChannelMsg → Net K (Msgc A) → Option (Net K (Msgc A))
    unfolding client_data client_closed
    client_callback handler usr (evdata c) s = client_data c s
    client_callback handler usr (evclosed c errcode) s = client_closed s
    client_callback handler usr (evsent c size) s = some s

    -- msgc_open, with the client's address, the descriptor that aesoccreate returned and whether aesocconnect
    -- succeeds. The parser stays as it is, and what evnet_channelbind returns is ignored.
    pub msgc_open :
        ℕ
        → Bool
        → ℕ
        → Option ℕ
        → List ℕ
        → ℕ
        → ℕ
        → Bool
        → ℕ
        → Net K (Msgc A)
        → Option (Bool × Net K (Msgc A))
    unfolding client_closed_callback
    msgc_open at has_close new fd ip_str port timeout connects now s = do
      let s1 = record s { user = record (s.user) { has_close = has_close; timeout = timeout } }
      (c, s2) ← upstream_channel new fd ip_str port s1
      let s3 = record s2 { user = record (s2.user) { chan = c } }
      if c == 0 then some (false, s3) else (do
        (_, s4) ←
            channel_bind epoll_ctl client_closed_callback c client_callback_proc timeout at connects
              now s3
        some (true, s4))

    -- msgc_send; `bytes` is the pointer pData.
    pub msgc_send : ℕ → ℕ → Block → ℕ → Net K (Msgc A) → Option (Bool × Net K (Msgc A))
    unfolding client_closed_callback
    msgc_send main sub bytes size s = if s.user.chan == 0 then some (false, s) else (do
      (filled, length) ← make_msg_packet s.user.send_buffer main sub bytes size
      packet ← read_at filled 0 length
      let s1 =
          set_parser s
            (record (s.user.parser) { send_packet_count = add32 s.user.parser.send_packet_count 1 })
      channel_send epoll_ctl client_closed_callback s.user.chan packet
          (record s1 { user = record (s1.user) { send_buffer = filled } }))

    pub msgc_close : ℤ → Net K (Msgc A) → Option (Net K (Msgc A))
    unfolding client_closed_callback
    msgc_close errcode s = channel_close epoll_ctl client_closed_callback s.user.chan errcode s
