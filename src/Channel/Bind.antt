-- ===== src/Channel/Bind.antt =====
-- channel_bind.
use evnet.Base.{
  ℕ, ◌≡◌, ◌≢◌, refl, sym, ap, ap₂, ◌∙◌, ◌^◌, ◌%◌, Bool, true, false, ◌&&◌, ◌||◌, not, Bool-cases,
  Option, some, ◌>>=◌, if◌then◌else◌, List, ◌∷◌, ◌++◌, ◌⊎◌, inl, inr, ==_refl,
}
use evnet.Event.{Mask, CtlOp, EventLoop, merge, is_none, create_file_event}
use evnet.Event.Watch.{EpollLaws}
use evnet.Channel.{
  Channel, ChannelMsg, Net, load, store, channel_bind, ae_readable, ae_writable, read_proc,
  write_proc,
}
use evnet.Channel.Valid.{IsNet}
use evnet.Channel.Enable.{at_member, member-IsNet, enable_lem}

-- What a bound channel keeps beside its handler: `ok` says whether its file event was created.
abbrev pub bound : Channel → ℕ → ℕ → ℕ → ℕ → Bool → Channel
bound ch handler timeouts usr now false = ch
bound ch handler timeouts usr now true = record ch {
  handler = handler;
  timeouts = timeouts;
  usr = usr;
  last_interaction = now % 2 ^ 32;
  send_enabled = ch.send_enabled || ch.upstream;
  recv_enabled = ch.recv_enabled || not ch.upstream;
}

-- As channel_bind leaves the channel.
abbrev assigned : Channel → ℕ → ℕ → ℕ → ℕ → Bool → Channel
assigned ch handler timeouts usr now ok =
    let b = record ch {
      handler = handler;
      timeouts = timeouts;
      usr = usr;
      last_interaction = now % 2 ^ 32;
    } in
    if ok
    then (if ch.upstream
        then record b { send_enabled = true }
        else record b { recv_enabled = true })
    else ch

or_true : (b : Bool) → (b || true) ≡ true
or_true true = refl
or_true false = refl

or_false : (b : Bool) → (b || false) ≡ b
or_false true = refl
or_false false = refl

-- The channel's flags and links on the way.
assigned_lem :
    (ch : Channel) (handler timeouts usr now : ℕ) (ok : Bool)
    → assigned ch handler timeouts usr now ok ≡ bound ch handler timeouts usr now ok
assigned_lem ch handler timeouts usr now false = refl
assigned_lem ch handler timeouts usr now true =
    let b : Channel = record ch {
      handler = handler;
      timeouts = timeouts;
      usr = usr;
      last_interaction = now % 2 ^ 32;
    } in
    let flags = λ (p q : Bool). record b { send_enabled = p; recv_enabled = q } in
    elim (Bool-cases ch.upstream) [
      | inl up ↦
          ap (λ u. if u then record b { send_enabled = true } else record b { recv_enabled = true })
            up
          ∙ ap₂ flags (sym (ap (λ u. ch.send_enabled || u) up ∙ or_true ch.send_enabled))
              (sym (ap (λ u. ch.recv_enabled || not u) up ∙ or_false ch.recv_enabled))
      | inr down ↦
          ap (λ u. if u then record b { send_enabled = true } else record b { recv_enabled = true })
            down
          ∙ ap₂ flags (sym (ap (λ u. ch.send_enabled || u) down ∙ or_false ch.send_enabled))
              (sym (ap (λ u. ch.recv_enabled || not u) down ∙ or_true ch.recv_enabled))
    ]

bound_links :
    (ch : Channel) (handler timeouts usr now : ℕ) (ok : Bool)
    → ((bound ch handler timeouts usr now ok).next ≡ ch.next)
      × ((bound ch handler timeouts usr now ok).prev ≡ ch.prev)
      × ((bound ch handler timeouts usr now ok).fd ≡ ch.fd)
bound_links ch handler timeouts usr now true = (refl, refl, refl)
bound_links ch handler timeouts usr now false = (refl, refl, refl)

direction_some : (up : Bool) → is_none (if up then ae_writable else ae_readable) ≡ false
direction_some true = refl
direction_some false = refl

direction_merge :
    (r w up : Bool)
    → record { readable = r || not up; writable = w || up }
      ≡ merge (record { readable = r; writable = w }) (if up then ae_writable else ae_readable)
direction_merge r w true = refl
direction_merge r w false = refl

module _ {ℓ κ} {K : Type ℓ} {U : Type κ} {epoll_ctl : K → CtlOp → ℕ → Mask → Option K}
    {interest : K → ℕ → Mask} (laws : EpollLaws epoll_ctl interest)
    (call : ℕ → ℕ → ChannelMsg → Net K U → Option (Net K U)) where
  -- channel_bind of a channel of the ring returns and keeps the state of all channels valid. The result is false
  -- for an upstream channel whose connection could not be started; else it is that of aeCreateFileEvent, which is
  -- called for output if the channel is an upstream one, and else for input. Where the result is false the channel
  -- is as it was, else it has its handler and is watched. All other channels are as they were.
  pub channel_bind-IsNet :
      (s : Net K U) (xs : List ℕ) (c : ℕ) (ys : List ℕ) (ch : Channel) (handler timeouts usr : ℕ)
      (connects : Bool) (now : ℕ)
      → IsNet laws s (xs ++ (c ∷ ys))
      → load s c ≡ some ch
      → (s' : Net K U) × (ok : Bool) × (channel_bind epoll_ctl call c handler timeouts usr connects
            now s
          ≡ some (ok, s'))
        × (((ch.upstream && not connects ≡ true) × (ok ≡ false))
            ⊎ ((ch.upstream && not connects ≡ false)
                × (loop : EventLoop K) × (create_file_event epoll_ctl s.loop ch.fd
                      (if ch.upstream then ae_writable else ae_readable)
                      (if ch.upstream then write_proc else read_proc)
                      c
                    ≡ some (loop, ok))))
        × IsNet laws s' (xs ++ (c ∷ ys))
        × (load s' c ≡ some (bound ch handler timeouts usr now ok))
        × ((i : ℕ) → c ≢ i → s'.heap i ≡ s.heap i)
        × (s'.user ≡ s.user)
  unfolding channel_bind
  channel_bind-IsNet s xs c ys ch handler timeouts usr connects now v e =
      let (mirror, _) = at_member laws s xs c ys v in
      let up = ch.upstream in
      let mask = if up then ae_writable else ae_readable in
      let proc = if up then write_proc else read_proc in
      let finish = λ (ch : Channel) (p : EventLoop K × Bool). some (
        p.1,
        store (record s { loop = p.0 }) c (some (assigned ch handler timeouts usr now p.1)),
      ) in
      let attempt = λ (ch : Channel).
        create_file_event epoll_ctl s.loop ch.fd (if ch.upstream then ae_writable else ae_readable)
          (if ch.upstream then write_proc else read_proc) c
        >>= finish ch in
      let start =
        ap (λ o. o >>= λ ch. if ch.upstream && not connects then some (false, s) else attempt ch)
          e in
      elim (Bool-cases (up && not connects)) [
        | inl refused ↦ (
          s,
          false,
          start ∙ ap (λ b. if b then some (false, s) else attempt ch) refused,
          inl (refused, refl),
          v,
          e,
          (λ i n. refl),
          refl,
        )
        | inr free ↦
            let (loop, ok, run, t) =
              enable_lem laws s c ch mask proc (bound ch handler timeouts usr now) e v.loop mirror
                (direction_some up) (bound_links ch handler timeouts usr now) refl
                (direction_merge ch.recv_enabled ch.send_enabled up) in
            let s' =
              store (record s { loop = loop }) c (some (bound ch handler timeouts usr now ok)) in
            (
              s',
              ok,
              start
                  ∙ ap (λ b. if b then some (false, s) else attempt ch) free
                  ∙ ap (λ o. o >>= finish ch) run
                  ∙ ap (λ d. some (ok, store (record s { loop = loop }) c (some d)))
                      (assigned_lem ch handler timeouts usr now ok),
              inr (free, loop, run),
              member-IsNet laws s s' xs c ys v t,
              ap (λ b. if b then some (bound ch handler timeouts usr now ok) else s.heap c)
                  (==_refl c c refl),
              t.others,
              refl,
            )
      ]
