-- ===== src/Channel.antt =====
-- channel.c and channel.h, without the code under SSL_SUPPORT: the connections, which stand in a ring of
-- malloc'ed structs with two links each. A pointer is an address, and 0 is NULL; an access through NULL or to
-- an address that holds no channel is `none`. The results of malloc, of time and of the calls in aesocket.c
-- are arguments; the users' handlers are a parameter that may change the whole state. strcpy of an address
-- text that is longer than its array is `none`.
pub mod Ring
pub mod Relink
pub mod Links
pub mod Create
pub mod Fresh
pub mod Unlink
pub mod Valid
pub mod Touch
pub mod Detach
pub mod Close
pub mod Enable
pub mod Send
pub mod Flush
pub mod Write
pub mod Receive
pub mod Bind
pub mod Quiet
pub mod Sweep
pub mod Crond
pub mod Ended
mod Tests
use evnet.Base.{
  ℕ, zero, suc, ◌+◌, ◌%◌, ◌^◌, ◌-◌, Bool, true, false, ◌&&◌, not, Option, none, some, ◌>>=◌, List,
  [], ◌∷◌, ◌++◌, ltb, leb, ◌==◌, if◌then◌else◌, length, add32, ℤ, minus_one,
}
use evnet.DataQueue.{
  DataQueue, cleared, insert_data, next_data, read_span, distill_data, remove_data,
}
use evnet.Event.{Mask, CtlOp, EventLoop, create_file_event, delete_file_event}

-- channel_t. The two bits of `flg` are two flags.
pub record Channel : Type 0 where
  pub next : ℕ
  pub prev : ℕ
  pub handler : ℕ
  pub usr : ℕ
  pub in_queue : DataQueue
  pub out_queue : DataQueue
  pub last_interaction : ℕ
  pub timeouts : ℕ
  pub fd : ℕ
  pub ip_str : List ℕ
  pub port : ℕ
  pub recv_enabled : Bool
  pub send_enabled : Bool
  pub upstream : Bool
  pub connected : Bool

-- msgChannel_t
pub data ChannelMsg : Type 0 where
  evdata : ℕ → ChannelMsg
  evclosed : ℕ → ℤ → ChannelMsg
  evsent : ℕ → ℕ → ChannelMsg

-- g_libnet, the heap of channels, the descriptors closed so far, the bytes that the system has taken for each
-- descriptor, and the state `U` of the users.
pub record Net {ℓ κ} (K : Type ℓ) (U : Type κ) : Type (ℓ ⊔ κ) where
  pub heap : ℕ → Option Channel
  pub head : ℕ
  pub loop : EventLoop K
  pub closed : List ℕ
  pub written : ℕ → List ℕ
  pub user : U

abbrev pub ip_str_size : ℕ
ip_str_size = 128

abbrev pub max_connecting_secs : ℕ
max_connecting_secs = 3

-- (-1) as an unsigned int: no timeout.
abbrev pub no_timeout : ℕ
no_timeout = 2 ^ 32 - 1

abbrev pub ae_readable : Mask
ae_readable = record { readable = true; writable = false }

abbrev pub ae_writable : Mask
ae_writable = record { readable = false; writable = true }

-- The addresses of _read_callback and _write_callback.
abbrev pub read_proc : ℕ
read_proc = 1

abbrev pub write_proc : ℕ
write_proc = 2

-- A channel as channel_create leaves it behind memset, before it is linked.
abbrev pub blank : ℕ → List ℕ → ℕ → Bool → Channel
blank fd ip_str port upstream = record {
  next = 0;
  prev = 0;
  handler = 0;
  usr = 0;
  in_queue = cleared;
  out_queue = cleared;
  last_interaction = 0;
  timeouts = 0;
  fd = fd;
  ip_str = ip_str;
  port = port;
  recv_enabled = false;
  send_enabled = false;
  upstream = upstream;
  connected = false;
}

-- The two tests of _check_timeouts, in the arithmetic of unsigned int.
pub expired : Channel → ℕ → Bool
expired ch now =
    if ch.timeouts == no_timeout
    then not ch.connected && ltb (add32 ch.last_interaction max_connecting_secs) (now % 2 ^ 32)
    else ltb (add32 ch.last_interaction ch.timeouts) (now % 2 ^ 32)

module _ {ℓ κ} {K : Type ℓ} {U : Type κ} where
  -- `*p`, and `*p = c` for malloc, an assignment, or free.
  abbrev pub load : Net K U → ℕ → Option Channel
  load s p = s.heap p

  abbrev pub store : Net K U → ℕ → Option Channel → Net K U
  store s p c = record s { heap = λ a. if a == p then c else s.heap a }

  pub set_next : Net K U → ℕ → ℕ → Option (Net K U)
  set_next s p q = do c ← load s p; some (store s p (some (record c { next = q })))

  pub set_prev : Net K U → ℕ → ℕ → Option (Net K U)
  set_prev s p q = do c ← load s p; some (store s p (some (record c { prev = q })))

  -- A new channel in a ring of its own, and one in front of the head of a ring.
  pub link_first : ℕ → Net K U → Option (Net K U)
  unfolding set_next set_prev
  link_first new s = do s1 ← set_next s new new; set_prev s1 new new

  pub link_before : ℕ → ℕ → Net K U → Option (Net K U)
  unfolding set_next set_prev
  link_before head new s = do
    s1 ← set_next s new head
    h ← load s1 head
    s2 ← set_prev s1 new h.prev
    s3 ← set_next s2 h.prev new
    set_prev s3 head new

  -- channel_create, with the address that malloc returned; the result is that address.
  pub channel_create : ℕ → ℕ → List ℕ → ℕ → Bool → Net K U → Option (ℕ × Net K U)
  unfolding link_first link_before
  channel_create new fd ip_str port upstream s =
      let s0 = store s new (some (blank fd ip_str port upstream)) in
      if new == 0 then some (0, s) else if leb ip_str_size (length ip_str) then none else (do
        s1 ← if s.head == 0 then link_first new s0 else link_before s.head new s0
        some (new, record s1 { head = new }))

  -- upstream_channel, with the descriptor that aesoccreate returned.
  pub upstream_channel : ℕ → Option ℕ → List ℕ → ℕ → Net K U → Option (ℕ × Net K U)
  unfolding channel_create
  upstream_channel new none ip_str port s = some (0, s)
  upstream_channel new (some fd) ip_str port s = channel_create new fd ip_str port true s

  -- channel_close up to its message: the channel is taken out of the ring.
  pub unlink : ℕ → Net K U → Option (Net K U)
  unfolding set_next set_prev
  unlink c s = do
    ch ← load s c
    let s1 = record s { head = if c == s.head then ch.next else s.head }
    s2 ←
        if c == s1.head
        then some (record s1 { head = 0 })
        else (do s2 ← set_next s1 ch.prev ch.next; ch2 ← load s2 c; set_prev s2 ch2.next ch2.prev)
    s3 ← set_next s2 c 0
    set_prev s3 c 0

  -- The events of `mask` are deleted, and their flag cleared, if it is set: `ch` is the channel without it.
  pub disable :
      (K → CtlOp → ℕ → Mask → Option K) → Bool → Mask → Channel → ℕ → Net K U → Option (Net K U)
  disable epoll_ctl false mask ch c s = some s
  disable epoll_ctl true mask ch c s = do
    loop ← delete_file_event epoll_ctl s.loop ch.fd mask
    some (store (record s { loop = loop }) c (some ch))

  pub disable_read : (K → CtlOp → ℕ → Mask → Option K) → ℕ → Net K U → Option (Net K U)
  unfolding disable
  disable_read epoll_ctl c s = do
    ch ← load s c
    disable epoll_ctl ch.recv_enabled ae_readable (record ch { recv_enabled = false }) c s

  pub disable_write : (K → CtlOp → ℕ → Mask → Option K) → ℕ → Net K U → Option (Net K U)
  unfolding disable
  disable_write epoll_ctl c s = do
    ch ← load s c
    disable epoll_ctl ch.send_enabled ae_writable (record ch { send_enabled = false }) c s

  module _ (epoll_ctl : K → CtlOp → ℕ → Mask → Option K)
      (call : ℕ → ℕ → ChannelMsg → Net K U → Option (Net K U)) where
    -- channel_close behind its message. A channel always has a descriptor.
    pub release : ℕ → Net K U → Option (Net K U)
    unfolding disable_read disable_write
    release c s = do
      s1 ← disable_read epoll_ctl c s
      s2 ← disable_write epoll_ctl c s1
      ch ← load s2 c
      let s3 = store s2 c (
          some (record ch {
            in_queue = remove_data ch.in_queue true;
            out_queue = remove_data ch.out_queue true;
          }))
      some (record (store s3 c none) { closed = ch.fd ∷ s3.closed })

    -- A call through a pointer to a handler.
    pub invoke : ℕ → ℕ → ChannelMsg → Net K U → Option (Net K U)
    invoke handler usr msg s = if handler == 0 then none else call handler usr msg s

    pub channel_close : ℕ → ℤ → Net K U → Option (Net K U)
    unfolding unlink release invoke
    channel_close c errcode s = do
      ch ← load s c
      s1 ← unlink c s
      s2 ← if ch.handler == 0 then some s1 else invoke ch.handler ch.usr (evclosed c errcode) s1
      release c s2

    -- channel_handshake: false if the channel was closed.
    pub channel_handshake : ℕ → Net K U → Option (Bool × Net K U)
    unfolding channel_close
    channel_handshake c s = do
      ch ← load s c
      if ch.upstream && not ch.recv_enabled
          then (do
            (loop, ok) ← create_file_event epoll_ctl s.loop ch.fd ae_readable read_proc c
            if ok
                then some (
                  true,
                  store (record s { loop = loop }) c
                      (some (record ch { recv_enabled = true; connected = true })),
                )
                else (do
                  s' ← channel_close c minus_one (record s { loop = loop })
                  some (false, s')))
          else some (true, store s c (some (record ch { connected = true })))

    -- _read_callback behind the handshake, with the bytes that aesocread has put into the buffer: none where it
    -- returned 0 or less. `handler` and `usr` were read before.
    pub receive : ℕ → ℕ → ℕ → List ℕ → ℕ → Net K U → Option (Net K U)
    unfolding channel_close invoke
    receive c handler usr bytes now s =
        if length bytes == 0 then channel_close c minus_one s else (do
          ch ← load s c
          q ← insert_data ch.in_queue bytes
          invoke handler usr (evdata c)
              (store s c (some (record ch { last_interaction = now % 2 ^ 32; in_queue = q }))))

    pub read_callback : ℕ → List ℕ → ℕ → Net K U → Option (Net K U)
    unfolding channel_handshake receive
    read_callback c bytes now s = do
      ch ← load s c
      (ok, s1) ←
          if ch.connected
          then some (true, s)
          else if ch.upstream
          then some (false, s)
          else channel_handshake c s
      if ok then receive c ch.handler ch.usr bytes now s1 else some s1

    -- _write_callback behind the call of aesocwrite, which took the `size` bytes `sent`, 0 where it returned 0
    -- or less. The number in the result is that of the bytes sent; it is none if the channel was closed.
    pub wrote : ℕ → ℕ → List ℕ → ℕ → Net K U → Option (Option ℕ × Net K U)
    unfolding channel_close
    wrote c size sent now s = do
      ch ← load s c
      if size == 0
          then (do s' ← channel_close c minus_one s; some (none, s'))
          else some (
            some size,
            store
                (record s {
                  written = λ d. if d == ch.fd then s.written d ++ sent else s.written d;
                })
                c
                (some (record ch {
                  last_interaction = now % 2 ^ 32;
                  out_queue = distill_data ch.out_queue size;
                })),
          )

    -- _write_callback where bytes wait, up to the test whether more do. `take_bytes` says how many of the bytes
    -- that it is offered aesocwrite takes.
    pub flush : (List ℕ → ℕ) → ℕ → ℕ → Net K U → Option (Option ℕ × Net K U)
    unfolding wrote
    flush take_bytes c now s = do
      ch ← load s c
      let (q, span) = next_data ch.out_queue
      offered ← read_span q span span.count
      sent ← read_span q span (take_bytes offered)
      wrote c (take_bytes offered) sent now (store s c (some (record ch { out_queue = q })))

    -- The rest of _write_callback, behind a flush of `size` bytes, or of 0 where none waited.
    pub sent_out : ℕ → ℕ → ℕ → ℕ → Net K U → Option (Net K U)
    unfolding disable_write invoke
    sent_out c handler usr size s = do
      ch ← load s c
      s1 ← if ch.out_queue.data_size == 0 then disable_write epoll_ctl c s else some s
      if ltb 0 size then invoke handler usr (evsent c size) s1 else some s1

    -- _write_callback behind the handshake.
    pub write_out : (List ℕ → ℕ) → ℕ → ℕ → ℕ → ℕ → Net K U → Option (Net K U)
    unfolding flush sent_out
    write_out take_bytes c handler usr now s = do
      ch ← load s c
      if ltb 0 ch.out_queue.data_size
          then (do
            (size, s1) ← flush take_bytes c now s
            elim size [ none ↦ some s1 | some n ↦ sent_out c handler usr n s1 ])
          else sent_out c handler usr 0 s

    pub write_callback : (List ℕ → ℕ) → ℕ → ℕ → Net K U → Option (Net K U)
    unfolding channel_handshake write_out
    write_callback take_bytes c now s = do
      ch ← load s c
      (ok, s1) ←
          if ch.connected
          then some (true, s)
          else if ch.upstream
          then channel_handshake c s
          else some (false, s)
      if ok then write_out take_bytes c ch.handler ch.usr now s1 else some s1

    -- channel_bind; `connects` says whether aesocconnect returned 0.
    pub channel_bind : ℕ → ℕ → ℕ → ℕ → Bool → ℕ → Net K U → Option (Bool × Net K U)
    channel_bind c handler timeouts usr connects now s = do
      ch ← load s c
      let bound = record ch {
        handler = handler;
        timeouts = timeouts;
        usr = usr;
        last_interaction = now % 2 ^ 32;
      }
      if ch.upstream && not connects then some (false, s) else (do
        (loop, ok) ←
            create_file_event epoll_ctl s.loop ch.fd
              (if ch.upstream then ae_writable else ae_readable)
              (if ch.upstream then write_proc else read_proc) c
        some (
          ok,
          store (record s { loop = loop }) c
              (some (
                if ok
                then (if ch.upstream
                    then record bound { send_enabled = true }
                    else record bound { recv_enabled = true })
                else ch)),
        ))

    pub channel_send : ℕ → List ℕ → Net K U → Option (Bool × Net K U)
    channel_send c bytes s = do
      ch ← load s c
      q ← insert_data ch.out_queue bytes
      let s1 = store s c (some (record ch { out_queue = q }))
      if ch.send_enabled then some (true, s1) else (do
        (loop, ok) ← create_file_event epoll_ctl s1.loop ch.fd ae_writable write_proc c
        some (
          ok,
          store (record s1 { loop = loop }) c
              (some (record ch { out_queue = q; send_enabled = ok })),
        ))

    -- The loop of _check_timeouts, from `node` on, with fuel.
    pub check_from : ℕ → ℕ → ℕ → ℕ → Net K U → Option (Net K U)
    unfolding expired channel_close
    check_from zero node tail now s = none
    check_from (suc fuel) node tail now s = do
      ch ← load s node
      s1 ← if expired ch now then channel_close node minus_one s else some s
      let rest = check_from fuel ch.next tail now s1
      if ch.next == tail then some s1 else rest

    pub check_timeouts : ℕ → ℕ → ℕ → Net K U → Option (Net K U)
    unfolding check_from
    check_timeouts fuel head now s = do h ← load s head; check_from fuel head h.prev now s

    pub channel_crond : ℕ → ℕ → Net K U → Option (Net K U)
    unfolding check_timeouts
    channel_crond fuel now s = if s.head == 0 then some s else check_timeouts fuel s.head now s
