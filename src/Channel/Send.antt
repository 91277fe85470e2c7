-- ===== src/Channel/Send.antt =====
-- channel_send.
use evnet.Base.{
  ℕ, ◌≡◌, refl, sym, ap, ◌∙◌, ◌+◌, ◌/◌, ◌^◌, ◌<◌, max, length, Bool, true, Bool-cases, Option, none,
  some, ◌>>=◌, if◌then◌else◌, List, ◌∷◌, ◌++◌, inl, inr, arith, ==_refl,
}
use evnet.DataQueue.{DataQueue, insert_data}
use evnet.DataQueue.Shape.{IsValid, IsWedged}
use evnet.DataQueue.Insert.{Extends, insert_data-Extends}
use evnet.Event.{Mask, CtlOp, EventLoop, merge, create_file_event}
use evnet.Event.Watch.{EpollLaws}
use evnet.Channel.{Channel, ChannelMsg, Net, load, store, channel_send, ae_writable, write_proc}
use evnet.Channel.Valid.{flags_field, IsNet, Touches-trans}
use evnet.Channel.Touch.{assign-Leaves}
use evnet.Channel.Enable.{at_member, member-IsNet, enable_lem}

merge_writable :
    (m : Mask) → merge m ae_writable ≡ record { readable = m.readable; writable = true }
merge_writable m = ground arith

-- channel_send on a channel that was freed.
pub channel_send_freed {ℓ κ} :
    {K : Type ℓ} {U : Type κ} (epoll_ctl : K → CtlOp → ℕ → Mask → Option K)
    (call : ℕ → ℕ → ChannelMsg → Net K U → Option (Net K U)) (s : Net K U) (c : ℕ) (bytes : List ℕ)
    → load s c ≡ none
    → channel_send epoll_ctl call c bytes s ≡ none
unfolding channel_send
channel_send_freed epoll_ctl call s c bytes freed = rw freed refl

module _ {ℓ κ} {K : Type ℓ} {U : Type κ} {epoll_ctl : K → CtlOp → ℕ → Mask → Option K}
    {interest : K → ℕ → Mask} (laws : EpollLaws epoll_ctl interest)
    (call : ℕ → ℕ → ChannelMsg → Net K U → Option (Net K U)) where
  -- channel_send on a channel of the ring whose output queue is valid and not wedged, where the sizes stay below
  -- 2 ^ 32, returns and keeps the state of all channels valid; the queue holds the old bytes and, behind them, the
  -- new ones, also where the result is false; and the result says whether the channel is now watched for
  -- output.
  pub channel_send-IsNet :
      (s : Net K U) (xs : List ℕ) (c : ℕ) (ys : List ℕ) (ch : Channel) (bytes : List ℕ)
      → IsNet laws s (xs ++ (c ∷ ys))
      → load s c ≡ some ch
      → IsValid ch.out_queue
      → ¬ IsWedged ch.out_queue (length bytes)
      → ch.out_queue.buffer_size + max (ch.out_queue.buffer_size / 2) (length bytes) < 2 ^ 32
      → (s' : Net K U) × (ok : Bool) × (ch' : Channel) × (channel_send epoll_ctl call c bytes s
          ≡ some (ok, s'))
        × IsNet laws s' (xs ++ (c ∷ ys))
        × (load s' c ≡ some ch')
        × Extends ch.out_queue bytes ch'.out_queue
        × (ch'.send_enabled ≡ ok)
  unfolding channel_send
  channel_send-IsNet s xs c ys ch bytes v e vq free word =
      let (mirror, _) = at_member laws s xs c ys v in
      let (q, run, x) = insert_data-Extends bytes vq free word in
      let ch1 : Channel = record ch { out_queue = q } in
      let s1 = store s c (some ch1) in
      let finish = λ (p : EventLoop K × Bool).
        some (p.1, store (record s1 { loop = p.0 }) c (some (record ch1 { send_enabled = p.1 }))) in
      let attempt = create_file_event epoll_ctl s1.loop ch.fd ae_writable write_proc c >>= finish in
      let rest = λ (ch : Channel) (q : DataQueue).
        if ch.send_enabled
        then some (true, store s c (some (record ch { out_queue = q })))
        else (create_file_event epoll_ctl s.loop ch.fd ae_writable write_proc c >>= λ p. some (
          p.1,
          store (record (store s c (some (record ch { out_queue = q }))) { loop = p.0 }) c
              (some (record ch { out_queue = q; send_enabled = p.1 })),
        )) in
      let start =
        ap (λ o. o >>= λ ch. insert_data ch.out_queue bytes >>= λ q. rest ch q) e
        ∙ ap (λ o. o >>= λ q. rest ch q) run in
      let l =
        assign-Leaves laws s c ch e v.loop mirror s ch1 (record { heap = λ i. refl; head = refl })
          refl refl refl refl refl in
      let here = ap (λ b. if b then some ch1 else s.heap c) (==_refl c c refl) in
      elim (Bool-cases ch.send_enabled) [
        | inl on ↦ (
          s1,
          true,
          ch1,
          start ∙ ap (λ b. if b then some (true, s1) else attempt) on,
          member-IsNet laws s s1 xs c ys v l,
          here,
          x,
          on,
        )
        | inr off ↦
            let ch' = λ (b : Bool). record ch1 { send_enabled = b } in
            let (loop, ok, made, t) =
              enable_lem laws s1 c ch1 ae_writable write_proc ch' here l.loop l.mirror refl
                (λ b. (refl, refl, refl))
                (ap (λ b. flags_field (some (record ch1 { send_enabled = b }))) (sym off))
                (sym (merge_writable (flags_field (some ch1)))) in
            let s' = store (record s1 { loop = loop }) c (some (ch' ok)) in
            (
              s',
              ok,
              ch' ok,
              start
                  ∙ ap (λ b. if b then some (true, s1) else attempt) off
                  ∙ ap (λ o. o >>= finish) made,
              member-IsNet laws s s' xs c ys v (Touches-trans laws s s1 s' c l t),
              ap (λ b. if b then some (ch' ok) else s1.heap c) (==_refl c c refl),
              x,
              refl,
            )
      ]
