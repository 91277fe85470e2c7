-- ===== src/Acceptor.antt =====
-- acceptor.c and acceptor.h, without the code under SSL_SUPPORT. The results of aesoccreate, aesoclisten and
-- aesocaccept, and the address that malloc returns for a channel, are arguments; the handler of the acceptor's
-- user is a parameter that may change the whole state.
pub mod Accept
use evnet.Base.{ℕ, Bool, false, Option, none, some, ◌>>=◌, List, ◌∷◌, ◌==◌, if◌then◌else◌}
use evnet.Event.{Mask, CtlOp, create_file_event, delete_file_event}
use evnet.Channel.{Net, channel_create, ae_readable}

-- acceptor_t. An acceptor always has a descriptor.
pub record Acceptor : Type 0 where
  pub handler : ℕ
  pub fd : ℕ
  pub usr : ℕ

-- msgAcceptor_t
pub data AcceptorMsg : Type 0 where
  evaccepted : ℕ → AcceptorMsg

-- The address of _accept_handler.
abbrev pub accept_proc : ℕ
accept_proc = 3

module _ {ℓ κ} {K : Type ℓ} {U : Type κ} where
  -- aesocclose
  pub close_fd : ℕ → Net K U → Net K U
  close_fd fd s = record s { closed = fd ∷ s.closed }

  -- _listen_sock, with the descriptor that aesoccreate returned, and whether aesoclisten succeeds on it.
  pub listen_sock : Option ℕ → (ℕ → Bool) → Net K U → Option ℕ × Net K U
  unfolding close_fd
  listen_sock none listens s = (none, s)
  listen_sock (some fd) listens s = if listens fd then (some fd, s) else (none, close_fd fd s)

  -- acceptor_create behind _listen_sock: the memory is freed if there is no socket.
  pub made : ℕ → ℕ → Option ℕ × Net K U → Option Acceptor × Net K U
  made handler usr (none, s) = (none, s)
  made handler usr (some fd, s) = (some (record { handler = handler; fd = fd; usr = usr }), s)

  pub acceptor_create : Option ℕ → (ℕ → Bool) → ℕ → ℕ → Net K U → Option Acceptor × Net K U
  unfolding made listen_sock
  acceptor_create created listens handler usr s = made handler usr (listen_sock created listens s)

  pub acceptor_destroy : Acceptor → Net K U → Net K U
  unfolding close_fd
  acceptor_destroy a s = close_fd a.fd s

  module _ (call : ℕ → ℕ → AcceptorMsg → Net K U → Option (Net K U)) where
    pub notify_channel : Acceptor → ℕ → Net K U → Option (Net K U)
    notify_channel a c s = if a.handler == 0 then none else call a.handler a.usr (evaccepted c) s

    -- _accept_handler, with the descriptor, the address text and the port that aesocaccept left.
    pub accept_handler : Acceptor → Option (ℕ × List ℕ × ℕ) → ℕ → Net K U → Option (Net K U)
    unfolding close_fd notify_channel
    accept_handler a none new s = some s
    accept_handler a (some (fd, ip_str, port)) new s = do
      (c, s1) ← channel_create new fd ip_str port false s
      if c == 0 then some (close_fd fd s1) else notify_channel a c s1

  module _ (epoll_ctl : K → CtlOp → ℕ → Mask → Option K) where
    -- acceptor_start, with the acceptor's address: whether it returned 0.
    pub acceptor_start : Acceptor → ℕ → Net K U → Option (Bool × Net K U)
    acceptor_start a at s = do
      (loop, ok) ← create_file_event epoll_ctl s.loop a.fd ae_readable accept_proc at
      some (ok, record s { loop = loop })

    pub acceptor_stop : Acceptor → Net K U → Option (Net K U)
    acceptor_stop a s = do
      loop ← delete_file_event epoll_ctl s.loop a.fd ae_readable
      some (record s { loop = loop })
