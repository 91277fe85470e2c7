-- ===== src/Channel/Receive.antt =====
-- _read_callback of a channel that is connected, as a whole.
use evnet.Base.{
  ℕ, ◌≡◌, ◌≢◌, refl, ap, ◌∙◌, ◌+◌, ◌/◌, ◌^◌, ◌%◌, ◌<◌, max, length, Bool, true, false, Option, some,
  none, ◌>>=◌, if◌then◌else◌, List, ◌∷◌, ◌++◌, ◌⊎◌, inl, inr, arith, ==_refl, ==_false, minus_one,
  ℕ_discrete,
}
use evnet.DataQueue.{DataQueue, insert_data}
use evnet.DataQueue.Shape.{IsValid, IsWedged}
use evnet.DataQueue.Insert.{Extends, insert_data-Extends}
use evnet.Event.{Mask, CtlOp}
use evnet.Event.Watch.{EpollLaws}
use evnet.Channel.{
  Channel, ChannelMsg, evdata, Net, load, store, channel_close, channel_handshake, invoke, receive,
  read_callback,
}
use evnet.Channel.Valid.{IsNet}
use evnet.Channel.Touch.{assign-Leaves}
use evnet.Channel.Enable.{at_member, member-IsNet}

module _ {ℓ κ} {K : Type ℓ} {U : Type κ} {epoll_ctl : K → CtlOp → ℕ → Mask → Option K}
    {interest : K → ℕ → Mask} (laws : EpollLaws epoll_ctl interest)
    (call : ℕ → ℕ → ChannelMsg → Net K U → Option (Net K U)) where
  read_lem :
      (s : Net K U) (c : ℕ) (ch : Channel) (bytes : List ℕ) (now : ℕ)
      → load s c ≡ some ch
      → ch.connected ≡ true
      → read_callback epoll_ctl call c bytes now s
        ≡ receive epoll_ctl call c ch.handler ch.usr bytes now s
  unfolding read_callback
  read_lem s c ch bytes now e connected =
      let ready = λ (p : Bool × Net K U).
        if p.0 then receive epoll_ctl call c ch.handler ch.usr bytes now p.1 else some p.1 in
      let start = λ (ch : Channel).
        if ch.connected
        then some (true, s)
        else if ch.upstream
        then some (false, s)
        else channel_handshake epoll_ctl call c s in
      ap
        (λ o. o >>= λ ch. start ch >>= λ p.
          if p.0 then receive epoll_ctl call c ch.handler ch.usr bytes now p.1 else some p.1)
        e
      ∙ ap
          (λ b.
            (if b
              then some (true, s)
              else if ch.upstream
              then some (false, s)
              else channel_handshake epoll_ctl call c s)
            >>= ready)
          connected

  -- _read_callback of a connected channel with a valid input queue that is not wedged, where the sizes stay below
  -- 2 ^ 32. Where the system has no bytes, the channel is closed, in the state as it was. Else the handler is
  -- called once, in a valid state in which the bytes stand behind those that waited, and nothing that is
  -- sent or closed has changed.
  pub read_callback-IsNet :
      (s : Net K U) (xs : List ℕ) (c : ℕ) (ys : List ℕ) (ch : Channel) (bytes : List ℕ) (now : ℕ)
      → IsNet laws s (xs ++ (c ∷ ys))
      → load s c ≡ some ch
      → ch.connected ≡ true
      → ch.handler ≢ 0
      → IsValid ch.in_queue
      → ¬ IsWedged ch.in_queue (length bytes)
      → ch.in_queue.buffer_size + max (ch.in_queue.buffer_size / 2) (length bytes) < 2 ^ 32
      → ((length bytes ≡ 0)
          × (read_callback epoll_ctl call c bytes now s
              ≡ channel_close epoll_ctl call c minus_one s))
        ⊎ ((0 < length bytes)
            × (s' : Net K U) × (q : DataQueue) × (read_callback epoll_ctl call c bytes now s
                ≡ call ch.handler ch.usr (evdata c) s')
            × IsNet laws s' (xs ++ (c ∷ ys))
            × (load s' c ≡ some (record ch { last_interaction = now % 2 ^ 32; in_queue = q }))
            × Extends ch.in_queue bytes q
            × (s'.written ≡ s.written)
            × (s'.closed ≡ s.closed))
  unfolding receive invoke
  read_callback-IsNet s xs c ys ch bytes now v e connected some_handler vq free word =
      let (mirror, _) = at_member laws s xs c ys v in
      let (q, run, x) = insert_data-Extends bytes vq free word in
      let ch' : Channel = record ch { last_interaction = now % 2 ^ 32; in_queue = q } in
      let s' = store s c (some ch') in
      let l =
        assign-Leaves laws s c ch e v.loop mirror s ch' (record { heap = λ i. refl; head = refl })
          refl refl refl refl refl in
      let finish = λ (ch : Channel) (q : DataQueue).
        invoke epoll_ctl call ch'.handler ch'.usr (evdata c)
          (store s c (some (record ch { last_interaction = now % 2 ^ 32; in_queue = q }))) in
      let told = load s c >>= λ d. insert_data d.in_queue bytes >>= λ q. finish d q in
      let started = read_lem s c ch bytes now e connected in
      elim (ℕ_discrete (length bytes) 0) [
        | yes z ↦ inl (
          z,
          started
              ∙ ap (λ b. if b then channel_close epoll_ctl call c minus_one s else told)
                  (==_refl (length bytes) 0 z),
        )
        | no m ↦ inr (
          omega arith,
          s',
          q,
          started
              ∙ ap (λ b. if b then channel_close epoll_ctl call c minus_one s else told)
                  (==_false (length bytes) 0 m)
              ∙ ap (λ o. o >>= λ d. insert_data d.in_queue bytes >>= λ q. finish d q) e
              ∙ ap (λ o. o >>= λ q. finish ch q) run
              ∙ ap (λ b. if b then none else call ch.handler ch.usr (evdata c) s')
                  (==_false ch.handler 0 some_handler),
          member-IsNet laws s s' xs c ys v l,
          ap (λ b. if b then some ch' else s.heap c) (==_refl c c refl),
          x,
          refl,
          refl,
        )
      ]
