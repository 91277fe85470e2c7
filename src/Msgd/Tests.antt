-- ===== src/Msgd/Tests.antt =====
-- The theorems on the message server, with one connection that it serves and one that is new.
use evnet.Base.{
  ℕ, suc, ◌<◌, ◌≤◌, ◌≡◌, ◌≢◌, refl, Bool, true, false, Option, none, some, List, [], ◌∷◌, arith,
  if◌then◌else◌, ◌⊎◌, ◌==◌, pos, minus_one,
}
use evnet.Event.{ae_none, EventLoop, create_file_event}
use evnet.Event.Table.{mask_at}
use evnet.Event.Tests.{Kernel, ctl, ctl_laws, loop, loop-IsValid}
use evnet.Channel.{Channel, Net, blank, load, channel_close, ae_readable, read_proc}
use evnet.Channel.Links.{bare}
use evnet.Channel.Valid.{IsNet}
use evnet.Msgd.{
  Msgd, Usr, new_parser, closed_callback, acceptor_callback, acceptor_callback_proc,
  channel_callback_proc,
}
use evnet.Msgd.Served.{served, IsServer}
use evnet.Msgd.Arrive.{accept_handler-IsServer}
use evnet.Acceptor.{Acceptor, accept_handler}
use evnet.Msgd.Closed.{IsLocal, UsrFreed, channel_close-IsServer}

-- The channel at 10 has the user at 70; the one at 20 has just been accepted.
abbrev served_one : Channel
served_one = record (blank 3 [] 80 false) {
  next = 20;
  prev = 20;
  handler = channel_callback_proc;
  usr = 70;
  recv_enabled = true;
  connected = true;
}

abbrev new_one : Channel
new_one = record (blank 2 [] 81 false) { next = 10; prev = 10 }

abbrev first_usr : Usr
first_usr = record { status = 0; parser = new_parser; gid = 0; chan = 10 }

-- The application counts the connections that have ended.
abbrev server : Net Kernel (Msgd ℕ)
server = record {
  heap = λ i. if i == 10 then some served_one else if i == 20 then some new_one else none;
  head = 10;
  loop = loop;
  closed = [];
  written = λ fd. [];
  user = record {
    has_close = true;
    timeout = 30;
    max_con = pos 2;
    cur_con = pos 1;
    usrs = λ i. if i == 70 then some first_usr else none;
    next_id = 1;
    send_buffer = none;
    parse_buffer = none;
    app = 0;
  };
}

abbrev ignore : ℕ → ℕ → ℕ → List ℕ → Net Kernel (Msgd ℕ) → Option (Bool × Net Kernel (Msgd ℕ))
ignore usr main sub bytes s = some (true, s)

abbrev count_close : ℕ → Net Kernel (Msgd ℕ) → Option (Net Kernel (Msgd ℕ))
count_close usr s = some (record s { user = record (s.user) { app = suc s.user.app } })

count_close-IsLocal : IsLocal count_close
count_close-IsLocal = record { returns = λ usr s. (suc s.user.app, refl) }

server-IsServer : IsServer ctl_laws server (10 ∷ (20 ∷ []))
unfolding mask_at
server-IsServer = record {
  net = record {
    ring = record {
      ring = (refl, (refl, refl, (refl, refl)));
      distinct = (((λ e. omega arith), tt), (tt, tt));
      cells = ((λ e. omega arith), (served_one, refl), ((λ e. omega arith), (new_one, refl), tt));
    };
    loop = loop-IsValid;
    mirror = (refl, (refl, tt));
    fds = (((λ e. omega arith), tt), (tt, tt));
  };
  count = refl;
}

abbrev acceptor : Acceptor
acceptor = record { handler = acceptor_callback_proc; fd = 0; usr = 50 }

unwatched : mask_at loop.events 1 ≡ ae_none
unfolding mask_at
unwatched = refl

accept_handler-IsServer_example :
    ((2 ≤ served server.heap (10 ∷ (20 ∷ [])))
      × (s' : Net Kernel (Msgd ℕ)) × (accept_handler
            (acceptor_callback ctl ignore count_close 71 100)
            acceptor
            (some (1, [], 82))
            30
            server
          ≡ some s')
      × IsServer ctl_laws s' (10 ∷ (20 ∷ []))
      × (s'.user ≡ server.user)
      × (load s' 30 ≡ none)
      × (s'.closed ≡ 1 ∷ [])
      × ((i : ℕ) → 30 ≢ i → bare (s'.heap i) ≡ bare (server.heap i)))
    ⊎ ((served server.heap (10 ∷ (20 ∷ [])) < 2)
        × (s' : Net Kernel (Msgd ℕ)) × (ok : Bool) × (l : EventLoop Kernel) × (accept_handler
              (acceptor_callback ctl ignore count_close 71 100)
              acceptor
              (some (1, [], 82))
              30
              server
            ≡ some s')
        × (create_file_event ctl loop 1 ae_readable read_proc 30 ≡ some (l, ok))
        × IsNet ctl_laws s' (30 ∷ (10 ∷ (20 ∷ [])))
        × (s'.user.cur_con ≡ pos (suc (served server.heap (10 ∷ (20 ∷ [])))))
        × (served s'.heap (30 ∷ (10 ∷ (20 ∷ []))) ≡ (
            if ok
            then suc (served server.heap (10 ∷ (20 ∷ [])))
            else served server.heap (10 ∷ (20 ∷ []))))
        × (s'.user.usrs 71 ≡ some (record { status = 0; parser = new_parser; gid = 1; chan = 30 })))
accept_handler-IsServer_example =
    accept_handler-IsServer ctl_laws ignore count_close server (10 ∷ (20 ∷ [])) acceptor 1 82 30 71
      100 2 [] server-IsServer refl refl (λ e. omega arith)
      ((λ e. omega arith), ((λ e. omega arith), tt)) (omega arith)
      ((λ e. omega arith), ((λ e. omega arith), tt)) unwatched

channel_close-IsServer_example :
    (s' : Net Kernel (Msgd ℕ)) × (channel_close ctl
        (closed_callback ctl ignore count_close)
        10
        minus_one
        server
      ≡ some s')
    × IsServer ctl_laws s' (20 ∷ [])
    × (load s' 10 ≡ none)
    × (s'.closed ≡ 3 ∷ [])
    × UsrFreed ctl_laws ignore count_close count_close-IsLocal server.user 70 s'.user
    × (suc (served s'.heap (20 ∷ [])) ≡ served server.heap (10 ∷ (20 ∷ [])))
channel_close-IsServer_example =
    channel_close-IsServer ctl_laws ignore count_close count_close-IsLocal server [] 10 (20 ∷ [])
      served_one first_usr minus_one server-IsServer refl (λ e. omega arith) refl
