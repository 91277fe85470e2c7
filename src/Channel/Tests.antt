-- ===== src/Channel/Tests.antt =====
-- The theorems on channels, with two connections and handlers that count the messages.
use evnet.Base.{
  ℕ, suc, ◌<◌, ◌≤◌, ◌≡◌, ◌≢◌, refl, ◌^◌, ◌%◌, Bool, true, false, Option, none, some, List, [], ◌∷◌,
  length, min, arith, if◌then◌else◌, inl, ◌⊎◌, ◌==◌, ℤ, minus_one,
}
use evnet.DataQueue.{DataQueue, cleared}
use evnet.DataQueue.Shape.{IsValid, cleared-IsValid}
use evnet.DataQueue.Insert.{Extends}
use evnet.Event.{ae_none, EventLoop, create_file_event}
use evnet.Event.Table.{mask_at}
use evnet.Event.Tests.{Kernel, ctl, ctl_laws, loop, loop-IsValid}
use evnet.Channel.{
  ae_readable, read_proc, Channel, ChannelMsg, evdata, evsent, Net, blank, load, channel_create,
  channel_close, channel_send, channel_bind, read_callback, write_callback, channel_crond,
  no_timeout, expired,
}
use evnet.Channel.Links.{bare, SameBut}
use evnet.Channel.Valid.{IsNet}
use evnet.Channel.Fresh.{channel_create-IsNet}
use evnet.Channel.Close.{Gone, Told, SparesClosed, channel_close-Gone}
use evnet.Channel.Send.{channel_send-IsNet}
use evnet.Channel.Flush.{handed, offered}
use evnet.Channel.Write.{Written, write_callback-Written}
use evnet.Channel.Receive.{read_callback-IsNet}
use evnet.Channel.Bind.{bound, channel_bind-IsNet}
use evnet.Channel.Quiet.{AreQuiet, user-Detached}
use evnet.Channel.Ended.{gone, ended, AllFreed}
use evnet.Channel.Sweep.{swept, expired_at}
use evnet.Channel.Crond.{channel_crond-IsNet}

abbrev count_messages : ℕ → ℕ → ChannelMsg → Net Kernel ℕ → Option (Net Kernel ℕ)
count_messages handler usr msg s = some (record s { user = suc s.user })

abbrev count_end : ℕ → ℕ → ℕ → ℤ → ℕ → ℕ
count_end handler usr c errcode u = suc u

counts_quietly : AreQuiet count_messages count_end
counts_quietly = record { quiet = λ s handler usr c errcode. refl }

counts_sparing : SparesClosed ctl_laws count_messages
counts_sparing = record {
  spares = λ s c handler usr errcode zs d. (
    record s { user = suc s.user },
    zs,
    refl,
    user-Detached ctl_laws count_messages s (suc s.user) c zs d,
    refl,
  );
}

-- Three bytes in a block of four.
abbrev three_bytes : DataQueue
three_bytes = record {
  insert_pos = 3;
  terminal_pos = 3;
  query_pos = 0;
  data_size = 3;
  buffer_size = 4;
  buffer = some (5 ∷ 6 ∷ 7 ∷ 0 ∷ []);
}

three_bytes-IsValid : IsValid three_bytes
three_bytes-IsValid = record {
  placed = record {
    sized = refl;
    word = omega arith;
    query_le = omega arith;
    terminal_le = omega arith;
  };
  shape = inl (record { end = refl; size = refl });
}

-- The channel at 10 is watched for input; the one at 20 has bytes to send and is not watched.
abbrev reader : Channel
reader = record (blank 3 [] 80 false) {
  next = 20;
  prev = 20;
  handler = 7;
  usr = 5;
  timeouts = no_timeout;
  recv_enabled = true;
  connected = true;
}

abbrev writer : Channel
writer = record (blank 2 [] 81 false) {
  next = 10;
  prev = 10;
  handler = 7;
  usr = 6;
  timeouts = 30;
  connected = true;
  out_queue = three_bytes;
}

abbrev two_channels : Net Kernel ℕ
two_channels = record {
  heap = λ i. if i == 10 then some reader else if i == 20 then some writer else none;
  head = 10;
  loop = loop;
  closed = [];
  written = λ fd. [];
  user = 0;
}

two_channels-IsNet : IsNet ctl_laws two_channels (10 ∷ (20 ∷ []))
unfolding mask_at
two_channels-IsNet = record {
  ring = record {
    ring = (refl, (refl, refl, (refl, refl)));
    distinct = (((λ e. omega arith), tt), (tt, tt));
    cells = ((λ e. omega arith), (reader, refl), ((λ e. omega arith), (writer, refl), tt));
  };
  loop = loop-IsValid;
  mirror = (refl, (refl, tt));
  fds = (((λ e. omega arith), tt), (tt, tt));
}

unwatched : mask_at loop.events 1 ≡ ae_none
unfolding mask_at
unwatched = refl

channel_create-IsNet_example :
    (s' : Net Kernel ℕ) × (channel_create 30 1 (49 ∷ []) 82 true two_channels ≡ some (30, s'))
    × IsNet ctl_laws s' (30 ∷ (10 ∷ (20 ∷ [])))
    × (bare (s'.heap 30) ≡ some (blank 1 (49 ∷ []) 82 true))
    × ((i : ℕ) → 30 ≢ i → bare (s'.heap i) ≡ bare (two_channels.heap i))
    × (s'.loop ≡ loop)
    × (s'.closed ≡ [])
    × (s'.user ≡ 0)
channel_create-IsNet_example =
    channel_create-IsNet ctl_laws two_channels (10 ∷ (20 ∷ [])) 30 1 (49 ∷ []) 82 true
      two_channels-IsNet (λ e. omega arith) ((λ e. omega arith), ((λ e. omega arith), tt))
      (omega arith) ((λ e. omega arith), ((λ e. omega arith), tt)) unwatched

channel_close-Gone_example :
    (s1 : Net Kernel ℕ) × (zs : List ℕ) × (left : Net Kernel ℕ) × (s' : Net Kernel ℕ) × IsNet
      ctl_laws s1
      (20 ∷ [])
    × SameBut two_channels s1
    × Told ctl_laws count_messages s1 10 reader.handler reader.usr minus_one (20 ∷ []) left zs
    × IsNet ctl_laws left zs
    × (channel_close ctl count_messages 10 minus_one two_channels ≡ some s')
    × Gone ctl_laws count_messages left 10 3 zs s'
channel_close-Gone_example =
    channel_close-Gone ctl_laws count_messages two_channels [] 10 (20 ∷ []) reader minus_one
      counts_sparing two_channels-IsNet refl

channel_send-IsNet_example :
    (s' : Net Kernel ℕ) × (ok : Bool) × (ch' : Channel) × (channel_send ctl count_messages 20
        (8 ∷ 9 ∷ [])
        two_channels
      ≡ some (ok, s'))
    × IsNet ctl_laws s' (10 ∷ (20 ∷ []))
    × (load s' 20 ≡ some ch')
    × Extends three_bytes (8 ∷ 9 ∷ []) ch'.out_queue
    × (ch'.send_enabled ≡ ok)
channel_send-IsNet_example =
    channel_send-IsNet ctl_laws count_messages two_channels (10 ∷ []) 20 [] writer (8 ∷ 9 ∷ [])
      two_channels-IsNet refl three_bytes-IsValid (λ w. omega (arith, w.query)) (omega arith)

-- A system that takes two bytes at a time.
abbrev take_two : List ℕ → ℕ
take_two bytes = min 2 (length bytes)

take_two_fits : (bytes : List ℕ) → take_two bytes ≤ length bytes
take_two_fits bytes = omega arith

write_callback-Written_example :
    ((take_two (offered three_bytes) ≡ 0)
      × (write_callback ctl count_messages take_two 20 100 two_channels
          ≡ channel_close ctl count_messages 20 minus_one (handed two_channels 20 writer))
      × IsNet ctl_laws (handed two_channels 20 writer) (10 ∷ (20 ∷ [])))
    ⊎ ((0 < take_two (offered three_bytes))
        × (s' : Net Kernel ℕ) × (ch' : Channel) × (write_callback ctl count_messages take_two 20 100
              two_channels
            ≡ count_messages 7 6 (evsent 20 (take_two (offered three_bytes))) s')
        × Written ctl_laws count_messages take_two two_channels
            (10 ∷ (20 ∷ []))
            20
            writer
            (take_two (offered three_bytes))
            s'
            ch')
write_callback-Written_example =
    write_callback-Written ctl_laws count_messages take_two two_channels (10 ∷ []) 20 [] writer 100
      two_channels-IsNet refl refl three_bytes-IsValid (omega arith) (λ e. omega arith)
      take_two_fits

abbrev two_bytes : List ℕ
two_bytes = 1 ∷ 2 ∷ []

read_callback-IsNet_example :
    ((length two_bytes ≡ 0)
      × (read_callback ctl count_messages 10 two_bytes 100 two_channels
          ≡ channel_close ctl count_messages 10 minus_one two_channels))
    ⊎ ((0 < length two_bytes)
        × (s' : Net Kernel ℕ) × (q : DataQueue) × (read_callback ctl count_messages 10 two_bytes 100
              two_channels
            ≡ count_messages 7 5 (evdata 10) s')
        × IsNet ctl_laws s' (10 ∷ (20 ∷ []))
        × (load s' 10 ≡ some (record reader { last_interaction = 100 % 2 ^ 32; in_queue = q }))
        × Extends cleared two_bytes q
        × (s'.written ≡ two_channels.written)
        × (s'.closed ≡ two_channels.closed))
read_callback-IsNet_example =
    read_callback-IsNet ctl_laws count_messages two_channels [] 10 (20 ∷ []) reader two_bytes 100
      two_channels-IsNet refl refl (λ e. omega arith) cleared-IsValid
      (λ w. omega (arith, w.waiting)) (omega arith)

channel_bind-IsNet_example :
    (s' : Net Kernel ℕ) × (ok : Bool) × (channel_bind ctl count_messages 20 9 no_timeout 4 false 100
        two_channels
      ≡ some (ok, s'))
    × (((false ≡ true) × (ok ≡ false))
        ⊎ ((false ≡ false)
            × (l : EventLoop Kernel) × (create_file_event ctl loop 2 ae_readable read_proc 20
                ≡ some (l, ok))))
    × IsNet ctl_laws s' (10 ∷ (20 ∷ []))
    × (load s' 20 ≡ some (bound writer 9 no_timeout 4 100 ok))
    × ((i : ℕ) → 20 ≢ i → s'.heap i ≡ two_channels.heap i)
    × (s'.user ≡ 0)
channel_bind-IsNet_example =
    channel_bind-IsNet ctl_laws count_messages two_channels (10 ∷ []) 20 [] writer 9 no_timeout 4
      false 100 two_channels-IsNet refl

-- The ring begins with the idle writer.
abbrev idle_first : Net Kernel ℕ
idle_first = record two_channels { head = 20 }

idle_first-IsNet : IsNet ctl_laws idle_first (20 ∷ (10 ∷ []))
unfolding mask_at
idle_first-IsNet = record {
  ring = record {
    ring = (refl, (refl, refl, (refl, refl)));
    distinct = (((λ e. omega arith), tt), (tt, tt));
    cells = ((λ e. omega arith), (writer, refl), ((λ e. omega arith), (reader, refl), tt));
  };
  loop = loop-IsValid;
  mirror = (refl, (refl, tt));
  fds = (((λ e. omega arith), tt), (tt, tt));
}

channel_crond-IsNet_example :
    (s' : Net Kernel ℕ) × (channel_crond ctl count_messages 2 100 idle_first ≡ some s')
    × IsNet ctl_laws s' (swept (λ i. expired_at 100 (idle_first.heap i)) (20 ∷ (10 ∷ [])))
    × AllFreed s' (gone (λ i. expired_at 100 (idle_first.heap i)) (20 ∷ (10 ∷ [])))
    × ((s'.closed, s'.user)
        ≡ ended count_end idle_first.heap
            (gone (λ i. expired_at 100 (idle_first.heap i)) (20 ∷ (10 ∷ [])))
            ([], 0))
    × ((i : ℕ)
        → expired_at 100 (idle_first.heap i) ≡ false
        → bare (s'.heap i) ≡ bare (idle_first.heap i))
channel_crond-IsNet_example =
    channel_crond-IsNet ctl_laws count_messages count_end counts_quietly 2 100 idle_first
      (20 ∷ (10 ∷ [])) idle_first-IsNet (omega arith)

-- It goes, and its end is told.
first_goes : gone (λ i. expired_at 100 (idle_first.heap i)) (20 ∷ (10 ∷ [])) ≡ 20 ∷ []
unfolding expired
first_goes = refl

-- The writer is idle for 100 seconds, with a timeout of 30, and stays, since it is the last.
last_stays : swept (λ i. expired_at 100 (two_channels.heap i)) (10 ∷ (20 ∷ [])) ≡ 10 ∷ (20 ∷ [])
unfolding expired
last_stays = refl
