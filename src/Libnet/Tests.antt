-- ===== src/Libnet/Tests.antt =====
-- The theorems on the library's front, with an empty kernel and no channels.
use evnet.Base.{ℕ, true, none, some, []}
use evnet.Event.{ae_none, FileEvent}
use evnet.Event.Tests.{Kernel, loop}
use evnet.Libnet.{Libnet}

abbrev nothing : Kernel
nothing i = ae_none

abbrev fresh : FileEvent
fresh = record { mask = ae_none; rfile_proc = 0; wfile_proc = 0; client_data = 0 }

abbrev front : Libnet Kernel ℕ
front = record {
  net = record {
    heap = λ i. none;
    head = 0;
    loop = loop;
    closed = [];
    written = λ fd. [];
    user = 0;
  };
  running = true;
  pipe = some (0, 0);
  last_crond = 5;
}
