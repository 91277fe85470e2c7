-- ===== src/Libnet.antt =====
-- libnet.c and libnet.h: initialisation, the turns of the main loop, and shutdown. What epoll_wait gives and what the
-- procedures of the event loop do are parameters; the functions that only pass their arguments on to other
-- parts have no definition of their own.
pub mod Start
mod Tests
use evnet.Base.{
  ℕ, ◌+◌, Bool, true, false, Option, none, some, ◌>>=◌, List, ltb, ◌==◌, if◌then◌else◌,
}
use evnet.Event.{
  Mask, CtlOp, FileEvent, EpollEvent, EventLoop, Running, create_event_loop, create_file_event,
  process_events,
}
use evnet.Channel.{ChannelMsg, Net, ae_readable, channel_crond}

-- g_libnet: evLoop is NULL where `running` is false, and both ends of the pipe are -1 where `pipe` is none. The last
-- field is the static variable of evnet_loop.
pub record Libnet {ℓ κ} (K : Type ℓ) (U : Type κ) : Type (ℓ ⊔ κ) where
  pub net : Net K U
  pub running : Bool
  pub pipe : Option (ℕ × ℕ)
  pub last_crond : ℕ

-- The address of evpipe_dummy.
abbrev pub dummy_proc : ℕ
dummy_proc = 7

abbrev pub crond_interval : ℕ
crond_interval = 1

-- The ends of the pipe behind ev_pipe, which leaves them as they were where it fails.
pub pipe_ends : Option (ℕ × ℕ) → Option (ℕ × ℕ) → Option (ℕ × ℕ)
pipe_ends (some ends) old = some ends
pipe_ends none old = old

module _ {ℓ κ} {K : Type ℓ} {U : Type κ} where
  -- evnet_uint
  pub evnet_uint : Libnet K U → Libnet K U
  evnet_uint f = if f.running then record f { running = false } else f

  pub evnet_size : Libnet K U → ℕ
  evnet_size f = if f.running then f.net.loop.set_size else 0

  module _ (epoll_ctl : K → CtlOp → ℕ → Mask → Option K) where
    -- aeCreateFileEvent for the first end of the pipe. What it returns is ignored. The descriptor -1 is below the size
    -- of the set, and the access to its entry in front of the array is `none`.
    pub watch_ends : Option (ℕ × ℕ) → Libnet K U → Option (Libnet K U)
    watch_ends none f = none
    watch_ends (some ends) f = do
      (loop, _) ← create_file_event epoll_ctl f.net.loop ends.0 ae_readable dummy_proc 0
      some (record f { net = record (f.net) { loop = loop }; pipe = some ends })

    -- evnet_init behind aeCreateEventLoop, with what ev_pipe wrote.
    pub watch_pipe : Bool → Option (ℕ × ℕ) → Libnet K U → Option (Libnet K U)
    unfolding pipe_ends watch_ends
    watch_pipe false piped f = some (record f { pipe = none })
    watch_pipe true piped f = watch_ends (pipe_ends piped f.pipe) f

    -- evnet_init behind aeCreateEventLoop, which returned NULL or a loop.
    pub begun :
        Bool → Option (ℕ × ℕ) → Libnet K U → Option (EventLoop K) → Option (Bool × Libnet K U)
    unfolding evnet_uint watch_pipe
    begun use_pipe piped f none =
        some (false, evnet_uint (record f { net = record (f.net) { head = 0 }; running = false }))
    begun use_pipe piped f (some loop) = do
      f' ←
          watch_pipe use_pipe piped
            (record f { net = record (f.net) { head = 0; loop = loop }; running = true })
      some (true, f')

    -- evnet_init, with what epoll_create and malloc returned for the loop and what ev_pipe wrote, if it succeeded.
    -- `piped` is asked for where flg is 0. The result is whether it returned 0.
    pub evnet_init :
        Option K
        → List FileEvent
        → ℕ
        → Bool
        → Option (ℕ × ℕ)
        → Libnet K U
        → Option (Bool × Libnet K U)
    unfolding begun
    evnet_init api memory cycle use_pipe piped f =
        begun use_pipe piped f (create_event_loop api memory cycle)

    module _ (call : ℕ → ℕ → ChannelMsg → Net K U → Option (Net K U))
        (epoll_wait : K → ℕ → ℕ → List EpollEvent)
        (proc : ℕ → ℕ → ℕ → Mask → Running K (Net K U) → Running K (Net K U)) where
      -- aeProcessEvents on the library's loop. The procedures work on the loop and on the channels.
      pub process_net : Net K U → Option (Net K U)
      process_net net = do
        (_, running) ← process_events epoll_wait proc (net.loop, net)
        some (record (running.1) { loop = running.0 })

      -- evnet_loop. `fuel` is for the sweep.
      pub evnet_loop : ℕ → ℕ → Libnet K U → Option (Libnet K U)
      unfolding process_net
      evnet_loop fuel now f = do
        net ← if f.running then process_net f.net else some f.net
        if ltb (f.last_crond + crond_interval) now
            then (do
              swept ← channel_crond epoll_ctl call fuel now net
              some (record f { net = swept; last_crond = now }))
            else some (record f { net = net })
