-- ===== src/Msgd.antt =====
-- msgd.c and msgd.h: the message server. It keeps one user for each connection that it has accepted, up to a
-- limit, and hands the packets of each connection to the application.
pub mod Served
pub mod Accept
pub mod Closed
pub mod Arrive
mod Tests
use evnet.Base.{
  ℕ, zero, suc, Bool, true, false, Option, none, some, ◌>>=◌, List, ◌==◌, if◌then◌else◌, ℤ, pos,
  increment, decrement, int_leb, add32,
}
use evnet.Base.Block.{Block, read_at}
use evnet.Event.{Mask, CtlOp}
use evnet.DataQueue.{DataQueue, cleared}
use evnet.Msg.Frame.{CmdHead}
use evnet.Msg.Parser.{MsgParser, Parsed, msgparser_parser}
use evnet.Msg.Pack.{make_msg_packet}
use evnet.Acceptor.{
  Acceptor, AcceptorMsg, evaccepted, acceptor_create, acceptor_destroy, acceptor_start,
  acceptor_stop,
}
use evnet.Channel.{
  Channel, ChannelMsg, evdata, evclosed, evsent, Net, load, store, channel_close, channel_bind,
  channel_send,
}

-- struct _usr_s, without the two function pointers, which are always usr_send and usr_close, and without the
-- pointer to the one msgd_t. `chan` is the member c; 0 is NULL.
pub record Usr : Type 0 where
  pub status : ℕ
  pub parser : MsgParser
  pub gid : ℕ
  pub chan : ℕ

-- msgd_t, beside it the users in memory, g_ID, the static buffers of msg_pack.c and of msgpraser.c, and the
-- application's state.
pub record Msgd {ℓ} (A : Type ℓ) : Type ℓ where
  pub has_close : Bool
  pub timeout : ℕ
  pub max_con : ℤ
  pub cur_con : ℤ
  pub usrs : ℕ → Option Usr
  pub next_id : ℕ
  pub send_buffer : Block
  pub parse_buffer : Block
  pub app : A

-- The address of _channel_callback.
abbrev pub channel_callback_proc : ℕ
channel_callback_proc = 4

-- The address of _acceptor_callback.
abbrev pub acceptor_callback_proc : ℕ
acceptor_callback_proc = 5

-- A parser in memory that memset has cleared.
abbrev pub new_parser : MsgParser
new_parser = record {
  recv_packet_count = 0;
  send_packet_count = 0;
  head = record { version = 0; check_code = 0; packet_size = 0; main_cmd = 0; sub_cmd = 0 };
  is_head_gotten = false;
  pos = 0;
}

module _ {ℓ κ} {K : Type ℓ} {A : Type κ} where
  -- `*usr`, and `*usr = u` for malloc, an assignment, or free.
  abbrev pub load_usr : Net K (Msgd A) → ℕ → Option Usr
  load_usr s p = s.user.usrs p

  abbrev pub store_usr : Net K (Msgd A) → ℕ → Option Usr → Net K (Msgd A)
  store_usr s p u = record s {
    user = record (s.user) { usrs = λ a. if a == p then u else s.user.usrs a };
  }

  abbrev pub set_cur_con : Net K (Msgd A) → ℤ → Net K (Msgd A)
  set_cur_con s n = record s { user = record (s.user) { cur_con = n } }

  module _ (epoll_ctl : K → CtlOp → ℕ → Mask → Option K)
      (handle : ℕ → ℕ → ℕ → List ℕ → Net K (Msgd A) → Option (Bool × Net K (Msgd A)))
      (on_close : ℕ → Net K (Msgd A) → Option (Net K (Msgd A))) where
    -- _channel_callback for _EVCLOSED.
    pub usr_closed : ℕ → Net K (Msgd A) → Option (Net K (Msgd A))
    usr_closed usr s = do
      u ← load_usr s usr
      s1 ← if s.user.has_close then on_close usr s else some s
      some (store_usr (set_cur_con s1 (decrement s1.user.cur_con)) usr none)

    -- _channel_callback as channel_close calls it.
    pub closed_callback : ℕ → ℕ → ChannelMsg → Net K (Msgd A) → Option (Net K (Msgd A))
    unfolding usr_closed
    closed_callback handler usr (evdata c) s = some s
    closed_callback handler usr (evclosed c errcode) s = usr_closed usr s
    closed_callback handler usr (evsent c size) s = some s

    -- msgd_continte: a state that was lost stays so, and the parser stops.
    pub msgd_continte :
        ℕ → Option (Net K (Msgd A)) → ℕ → ℕ → List ℕ → Option (Net K (Msgd A)) × Bool
    msgd_continte usr none main sub bytes = (none, false)
    msgd_continte usr (some s) main sub bytes = elim (handle usr main sub bytes s) [
      | none ↦ (none, false)
      | some (ok, s') ↦ (some s', ok)
    ]

    -- The parser's struct and the queue, written back. The number of packets sent is what the handlers left.
    pub parsed : ℕ → ℕ → Parsed (Option (Net K (Msgd A))) → Option (Net K (Msgd A))
    parsed c usr p = do
      s ← p.user
      u ← load_usr s usr
      ch ← load s c
      let s1 = store_usr s usr (
          some (record u {
            parser = record (p.parser) { send_packet_count = u.parser.send_packet_count };
          }))
      let s2 = store s1 c (some (record ch { in_queue = p.queue }))
      some (record s2 { user = record (s2.user) { parse_buffer = p.buffer } })

    -- _channel_callback for _EVDATA.
    pub usr_data : ℕ → ℕ → Net K (Msgd A) → Option (Net K (Msgd A))
    unfolding msgd_continte parsed closed_callback
    usr_data c usr s = do
      u ← load_usr s usr
      ch ← load s c
      p ← msgparser_parser (msgd_continte usr) u.parser s.user.parse_buffer ch.in_queue (some s)
      s1 ← parsed c usr p
      if p.ok then some s1 else channel_close epoll_ctl closed_callback c (pos 0) s1

    -- _channel_callback
    pub channel_callback : ℕ → ℕ → ChannelMsg → Net K (Msgd A) → Option (Net K (Msgd A))
    unfolding usr_data usr_closed
    channel_callback handler usr (evdata c) s = usr_data c usr s
    channel_callback handler usr (evclosed c errcode) s = usr_closed usr s
    channel_callback handler usr (evsent c size) s = some s

    -- usr_send; `bytes` is the pointer pData.
    pub usr_send : ℕ → ℕ → ℕ → Block → ℕ → Net K (Msgd A) → Option (Bool × Net K (Msgd A))
    usr_send usr main sub bytes size s = do
      u ← load_usr s usr
      if u.chan == 0 then some (false, s) else (do
        (filled, length) ← make_msg_packet s.user.send_buffer main sub bytes size
        packet ← read_at filled 0 length
        let s1 = store_usr s usr (
            some (record u {
              parser = record (u.parser) { send_packet_count = add32 u.parser.send_packet_count 1 };
            }))
        channel_send epoll_ctl closed_callback u.chan packet
            (record s1 { user = record (s1.user) { send_buffer = filled } }))

    pub usr_close : ℕ → ℤ → Net K (Msgd A) → Option (Net K (Msgd A))
    unfolding closed_callback
    usr_close usr errcode s = do
      u ← load_usr s usr
      channel_close epoll_ctl closed_callback u.chan errcode s

    -- _acceptor_callback below the limit, with the address that malloc returned for the user. What
    -- evnet_channelbind returns is ignored.
    pub new_usr : ℕ → ℕ → ℕ → Net K (Msgd A) → Option (Net K (Msgd A))
    unfolding closed_callback
    new_usr c new now s =
        let u : Usr = record { status = 0; parser = new_parser; gid = s.user.next_id; chan = c } in
        let s1 = record s { user = record (s.user) { next_id = add32 s.user.next_id 1 } } in
        do
          (_, s2) ←
              channel_bind epoll_ctl closed_callback c channel_callback_proc s.user.timeout new true
                now (store_usr s1 new (some u))
          some (set_cur_con s2 (increment s2.user.cur_con))

    -- _acceptor_callback
    pub accepted : ℕ → ℕ → ℕ → Net K (Msgd A) → Option (Net K (Msgd A))
    unfolding closed_callback new_usr
    accepted c new now s =
        if int_leb s.user.max_con s.user.cur_con
        then channel_close epoll_ctl closed_callback c (pos 0) s
        else new_usr c new now s

    -- _acceptor_callback as the acceptor calls it.
    pub acceptor_callback : ℕ → ℕ → ℕ → ℕ → AcceptorMsg → Net K (Msgd A) → Option (Net K (Msgd A))
    unfolding accepted
    acceptor_callback new now handler usr (evaccepted c) s = accepted c new now s

    -- msgd_start, with the addresses of the server and of its acceptor and with the results of aesoccreate and
    -- aesoclisten. The result of acceptor_start is ignored.
    pub msgd_start :
        ℕ
        → ℕ
        → Option ℕ
        → (ℕ → Bool)
        → Bool
        → ℤ
        → ℕ
        → Net K (Msgd A)
        → Option (Option Acceptor × Net K (Msgd A))
    msgd_start at acceptor_at created listens has_close max_con timeout s =
        let s1 = record s {
          user = record (s.user) {
            has_close = has_close;
            max_con = max_con;
            timeout = timeout;
            cur_con = pos 0;
          };
        } in
        let (acceptor, s2) = acceptor_create created listens acceptor_callback_proc at s1 in
        elim acceptor [
          | none ↦ some (none, s2)
          | some a ↦ (do (_, s3) ← acceptor_start epoll_ctl a acceptor_at s2; some (some a, s3))
        ]

    pub msgd_stop : Acceptor → Net K (Msgd A) → Option (Net K (Msgd A))
    msgd_stop a s = do s1 ← acceptor_stop epoll_ctl a s; some (acceptor_destroy a s1)
