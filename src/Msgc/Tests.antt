-- ===== src/Msgc/Tests.antt =====
-- The theorem on the message client, with a client on the one channel of the ring.
use evnet.Base.{
  ℕ, suc, ◌≡◌, refl, Bool, true, false, Option, none, some, List, [], ◌∷◌, arith, replicate,
  if◌then◌else◌, ◌==◌, minus_one,
}
use evnet.Event.Table.{mask_at}
use evnet.Event.Tests.{Kernel, ctl, ctl_laws, loop, loop-IsValid}
use evnet.Channel.{Channel, Net, blank}
use evnet.Channel.Valid.{IsNet}
use evnet.Msgc.{Msgc, client_callback_proc, msgc_send, msgc_close}
use evnet.Msgc.Closed.{IsLocal, msgc_send_after_close}

abbrev connection : Channel
connection = record (blank 3 [] 80 true) {
  next = 10;
  prev = 10;
  handler = client_callback_proc;
  usr = 60;
  recv_enabled = true;
  connected = true;
}

-- The application counts the connections that have ended.
abbrev client : Net Kernel (Msgc ℕ)
client = record {
  heap = λ i. if i == 10 then some connection else none;
  head = 10;
  loop = loop;
  closed = [];
  written = λ fd. [];
  user = record {
    has_close = true;
    parser = record {
      recv_packet_count = 0;
      send_packet_count = 0;
      head = record { version = 0; check_code = 0; packet_size = 0; main_cmd = 0; sub_cmd = 0 };
      is_head_gotten = false;
      pos = 0;
    };
    chan = 10;
    timeout = 30;
    send_buffer = some (replicate 16 0);
    parse_buffer = none;
    app = 0;
  };
}

abbrev ignore : ℕ → ℕ → List ℕ → Net Kernel (Msgc ℕ) → Option (Bool × Net Kernel (Msgc ℕ))
ignore main sub bytes s = some (true, s)

abbrev count_close : Net Kernel (Msgc ℕ) → Option (Net Kernel (Msgc ℕ))
count_close s = some (record s { user = record (s.user) { app = suc s.user.app } })

count_close-IsLocal : IsLocal count_close
count_close-IsLocal = record { returns = λ s. (suc s.user.app, refl) }

client-IsNet : IsNet ctl_laws client (10 ∷ [])
unfolding mask_at
client-IsNet = record {
  ring = record {
    ring = (refl, (refl, refl));
    distinct = (tt, tt);
    cells = ((λ e. omega arith), (connection, refl), tt);
  };
  loop = loop-IsValid;
  mirror = (refl, tt);
  fds = (tt, tt);
}

msgc_send_after_close_example :
    (s' : Net Kernel (Msgc ℕ)) × (msgc_close ctl ignore count_close minus_one client ≡ some s')
    × IsNet ctl_laws s' []
    × (s'.user.chan ≡ 10)
    × (msgc_send ctl ignore count_close 1 2 none 0 s' ≡ none)
msgc_send_after_close_example =
    msgc_send_after_close ctl_laws ignore count_close count_close-IsLocal client [] [] connection
      minus_one 1 2 none 0 client-IsNet refl (λ e. omega arith) (λ e. omega arith)
