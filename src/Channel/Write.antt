-- ===== src/Channel/Write.antt =====
-- _write_callback of a channel that is connected, as a whole.
use evnet.Base.{
  ℕ, ◌≡◌, ◌≢◌, refl, ap, ◌∙◌, ◌<◌, ◌≤◌, length, length-take, Bool, true, false, ◌&&◌, Option, some,
  none, ◌>>=◌, if◌then◌else◌, List, ◌∷◌, ◌++◌, ◌⊎◌, inl, inr, arith, ==_refl, ==_false, ◌==◌, ltb,
  lt→ltb, minus_one, ℕ_discrete,
}
use evnet.DataQueue.{next_data}
use evnet.DataQueue.Shape.{IsValid, contents}
use evnet.Event.{Mask, CtlOp}
use evnet.Event.Watch.{EpollLaws}
use evnet.Channel.{
  Channel, ChannelMsg, evsent, Net, load, channel_close, flush, invoke, disable_write,
  channel_handshake, sent_out, write_out, write_callback,
}
use evnet.Channel.Valid.{IsNet}
use evnet.Channel.Touch.{Leaves, Touches-refl, disable_write-Leaves}
use evnet.Channel.Enable.{at_member, member-IsNet}
use evnet.Channel.Flush.{offered, handed, Sent, handed-Leaves, flush-Sent, flush_failed}

closed_ends {ℓ} :
    {A : Type ℓ} (next : Option ℕ × A → Option A)
    → ((a : A) → next (none, a) ≡ some a)
    → (o : Option A) → ((o >>= λ a. some (none, a)) >>= next) ≡ o
closed_ends next h none = refl
closed_ends next h (some a) = h a

module _ {ℓ κ} {K : Type ℓ} {U : Type κ} {epoll_ctl : K → CtlOp → ℕ → Mask → Option K}
    {interest : K → ℕ → Mask} (laws : EpollLaws epoll_ctl interest)
    (call : ℕ → ℕ → ChannelMsg → Net K U → Option (Net K U)) (take_bytes : List ℕ → ℕ) where
  -- Watched for output just where it was before, and bytes are left.
  watched_lem :
      (s : Net K U) (c handler usr n : ℕ) (ch : Channel)
      → load s c ≡ some ch
      → handler ≢ 0
      → 0 < n
      → (s1 : Net K U)
      → ((if ch.out_queue.data_size == 0 then disable_write epoll_ctl c s else some s) ≡ some s1)
      → sent_out epoll_ctl call c handler usr n s ≡ call handler usr (evsent c n) s1
  unfolding sent_out invoke
  watched_lem s c handler usr n ch e some_handler positive s1 run =
      let told = λ (s1 : Net K U).
        if ltb 0 n then invoke epoll_ctl call handler usr (evsent c n) s1 else some s1 in
      ap
        (λ o. o >>= λ ch.
          (if ch.out_queue.data_size == 0 then disable_write epoll_ctl c s else some s) >>= told)
        e
      ∙ ap (λ o. o >>= told) run
      ∙ ap (λ b. if b then invoke epoll_ctl call handler usr (evsent c n) s1 else some s1)
          (lt→ltb 0 n positive)
      ∙ ap (λ b. if b then none else call handler usr (evsent c n) s1)
          (==_false handler 0 some_handler)

  -- The channel is watched for output no longer once no byte waits.
  settled_lem :
      (s : Net K U) (xs : List ℕ) (c : ℕ) (ys : List ℕ) (ch : Channel)
      → IsNet laws s (xs ++ (c ∷ ys))
      → load s c ≡ some ch
      → (s1 : Net K U) × (b : Bool) × ((if ch.out_queue.data_size == 0
            then disable_write epoll_ctl c s
            else some s)
          ≡ some s1)
        × Leaves laws s c (record ch { send_enabled = b }) s1
        × (b ≡ ch.send_enabled && ltb 0 ch.out_queue.data_size)
  settled_lem s xs c ys ch v e =
      let (mirror, _) = at_member laws s xs c ys v in
      let n = ch.out_queue.data_size in
      elim (ℕ_discrete n 0) [
        | yes z ↦
            let (s1, run, l) = disable_write-Leaves laws s c ch e v.loop mirror in
            (
              s1,
              false,
              ap (λ b. if b then disable_write epoll_ctl c s else some s) (==_refl n 0 z) ∙ run,
              l,
              ground arith,
            )
        | no m ↦ (
          s,
          ch.send_enabled,
          ap (λ b. if b then disable_write epoll_ctl c s else some s) (==_false n 0 m),
          record {
            touches = Touches-refl laws s c v.loop (ch, e) mirror;
            cell = e;
            closed = refl;
            written = refl;
            user = refl;
          },
          ground arith,
        )
      ]

  -- The state in which the handler is told of `n` sent bytes.
  pub record Written (s : Net K U) (zs : List ℕ) (c : ℕ) (ch : Channel) (n : ℕ) (s' : Net K U)
      (ch' : Channel) : Type (ℓ ⊔ κ) where
    pub net : IsNet laws s' zs
    pub cell : load s' c ≡ some ch'
    pub sent : Sent laws call take_bytes s ch n s' ch'
    pub watched : ch'.send_enabled ≡ ch.send_enabled && ltb 0 ch'.out_queue.data_size

  module _ (s : Net K U) (xs : List ℕ) (c : ℕ) (ys : List ℕ) (ch : Channel) (now : ℕ)
      (v : IsNet laws s (xs ++ (c ∷ ys))) (e : load s c ≡ some ch) (connected : ch.connected ≡ true)
      (vq : IsValid ch.out_queue) (waiting : 0 < ch.out_queue.data_size) where
    out_lem : write_callback epoll_ctl call take_bytes c now s ≡ (
        flush epoll_ctl call take_bytes c now s >>= λ p. elim p.0 [
          | none ↦ some p.1
          | some n ↦ sent_out epoll_ctl call c ch.handler ch.usr n p.1
        ])
    unfolding write_callback write_out
    out_lem =
        let sent : Option ℕ × Net K U → Option (Net K U) = λ p. elim p.0 [
          | none ↦ some p.1
          | some n ↦ sent_out epoll_ctl call c ch.handler ch.usr n p.1
        ] in
        let out = λ (d : Channel).
          if ltb 0 d.out_queue.data_size
          then flush epoll_ctl call take_bytes c now s >>= sent
          else sent_out epoll_ctl call c ch.handler ch.usr 0 s in
        let ready = λ (p : Bool × Net K U).
          if p.0
          then write_out epoll_ctl call take_bytes c ch.handler ch.usr now p.1
          else some p.1 in
        let start = λ (ch : Channel).
          if ch.connected
          then some (true, s)
          else if ch.upstream
          then channel_handshake epoll_ctl call c s
          else some (false, s) in
        ap
          (λ o. o >>= λ ch. start ch >>= λ p.
            if p.0
            then write_out epoll_ctl call take_bytes c ch.handler ch.usr now p.1
            else some p.1)
          e
        ∙ ap
            (λ b.
              (if b
                then some (true, s)
                else if ch.upstream
                then channel_handshake epoll_ctl call c s
                else some (false, s))
              >>= ready)
            connected
        ∙ ap (λ o. o >>= out) e
        ∙ ap
            (λ b.
              if b
              then flush epoll_ctl call take_bytes c now s >>= sent
              else sent_out epoll_ctl call c ch.handler ch.usr 0 s)
            (lt→ltb 0 ch.out_queue.data_size waiting)

    write_failed :
        take_bytes (offered ch.out_queue) ≡ 0
        → write_callback epoll_ctl call take_bytes c now s
          ≡ channel_close epoll_ctl call c minus_one (handed s c ch)
    write_failed z =
        let sent : Option ℕ × Net K U → Option (Net K U) = λ p. elim p.0 [
          | none ↦ some p.1
          | some n ↦ sent_out epoll_ctl call c ch.handler ch.usr n p.1
        ] in
        out_lem
        ∙ ap (λ o. o >>= sent) (flush_failed laws call take_bytes s xs c ys ch now v e vq waiting z)
        ∙ closed_ends sent (λ s'. refl) (channel_close epoll_ctl call c minus_one (handed s c ch))

    write_sent :
        ch.handler ≢ 0
        → 0 < take_bytes (offered ch.out_queue)
        → take_bytes (offered ch.out_queue) ≤ (next_data ch.out_queue).1.count
        → (s' : Net K U) × (ch' : Channel) × (write_callback epoll_ctl call take_bytes c now s
            ≡ call ch.handler ch.usr (evsent c (take_bytes (offered ch.out_queue))) s')
          × Written s (xs ++ (c ∷ ys)) c ch (take_bytes (offered ch.out_queue)) s' ch'
    write_sent some_handler positive le =
        let n = take_bytes (offered ch.out_queue) in
        let (s1, ch1, run, t, cell, sent, on) =
          flush-Sent laws call take_bytes s xs c ys ch now v e vq waiting positive le in
        let v1 = member-IsNet laws s s1 xs c ys v t in
        let (s', b, run', l, off) = settled_lem s1 xs c ys ch1 v1 cell in
        let next : Option ℕ × Net K U → Option (Net K U) = λ p. elim p.0 [
          | none ↦ some p.1
          | some n ↦ sent_out epoll_ctl call c ch.handler ch.usr n p.1
        ] in
        (
          s',
          record ch1 { send_enabled = b },
          out_lem
              ∙ ap (λ o. o >>= next) run
              ∙ watched_lem s1 c ch.handler ch.usr n ch1 cell some_handler positive s' run',
          record {
            net = member-IsNet laws s1 s' xs c ys v1 l.touches;
            cell = l.cell;
            sent = record {
              wire = ap (λ w. w ch.fd ++ contents ch1.out_queue) l.written ∙ sent.wire;
              others = λ fd m. ap (λ w. w fd) l.written ∙ sent.others fd m;
              valid = sent.valid;
              size = sent.size;
              handler = sent.handler;
              usr = sent.usr;
              user = l.user ∙ sent.user;
            };
            watched = off ∙ ap (λ b. b && ltb 0 ch1.out_queue.data_size) on;
          },
        )

    -- _write_callback of a connected channel with bytes to send, for a system that takes no more than it is offered.
    -- If it takes none, the channel is closed, and that happens in a valid state. Else the handler is called
    -- once, with the number of bytes taken, in a valid state in which these bytes, the oldest of the queue,
    -- stand behind all that was sent before, in their order, and in which the channel is watched for output
    -- only if bytes are left.
    pub write_callback-Written :
        ch.handler ≢ 0
        → ((bytes : List ℕ) → take_bytes bytes ≤ length bytes)
        → ((take_bytes (offered ch.out_queue) ≡ 0)
            × (write_callback epoll_ctl call take_bytes c now s
                ≡ channel_close epoll_ctl call c minus_one (handed s c ch))
            × IsNet laws (handed s c ch) (xs ++ (c ∷ ys)))
          ⊎ ((0 < take_bytes (offered ch.out_queue))
              × (s' : Net K U) × (ch' : Channel) × (write_callback epoll_ctl call take_bytes c now s
                  ≡ call ch.handler ch.usr (evsent c (take_bytes (offered ch.out_queue))) s')
              × Written s (xs ++ (c ∷ ys)) c ch (take_bytes (offered ch.out_queue)) s' ch')
    write_callback-Written some_handler fits =
        let n = take_bytes (offered ch.out_queue) in
        let le : n ≤ (next_data ch.out_queue).1.count = omega (
          arith,
          fits (offered ch.out_queue),
          length-take (next_data ch.out_queue).1.count (contents ch.out_queue),
        ) in
        elim (ℕ_discrete n 0) [
          | yes z ↦ inl (
            z,
            write_failed z,
            member-IsNet laws s (handed s c ch) xs c ys v
                (handed-Leaves laws call take_bytes s xs c ys ch now v e vq waiting).touches,
          )
          | no m ↦
              let positive : 0 < n = omega arith in
              let (s', ch', run, w) = write_sent some_handler positive le in
              inr (positive, s', ch', run, w)
        ]
