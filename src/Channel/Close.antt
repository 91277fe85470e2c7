-- ===== src/Channel/Close.antt =====
-- channel_close as a whole.
use evnet.Base.{
  ℕ, ◌≡◌, ◌≢◌, refl, sym, ap, ◌∙◌, subst, true, false, Option, some, none, if◌then◌else◌, ◌==◌,
  ==_refl, ==_false, ◌>>=◌, List, ◌∷◌, ◌⊎◌, inl, inr, ◌++◌, ℤ, ℕ_discrete,
}
use evnet.Event.{Mask, ae_none, CtlOp}
use evnet.Event.Table.{mask_at}
use evnet.Event.Watch.{EpollLaws}
use evnet.DataQueue.{remove_data}
use evnet.Channel.{
  Channel, ChannelMsg, evclosed, Net, load, store, unlink, release, disable_write, invoke,
  channel_close,
}
use evnet.Channel.Links.{bare, SameBut}
use evnet.Channel.Valid.{fd_field, flags_field, fd_of, IsNet, Touches-IsNet}
use evnet.Channel.Touch.{Leaves-trans, disable_read-Leaves, disable_write-Leaves}
use evnet.Channel.Detach.{
  Detached, unlink-Detached, bare-fd, others-Cells, others-DistinctFds, others-AllMirror,
  others-RingOf,
}

module _ {ℓ κ} {K : Type ℓ} {U : Type κ} {epoll_ctl : K → CtlOp → ℕ → Mask → Option K}
    {interest : K → ℕ → Mask} (laws : EpollLaws epoll_ctl interest)
    (call : ℕ → ℕ → ChannelMsg → Net K U → Option (Net K U)) where
  -- What channel_close leaves of the channel `c` with the descriptor `fd`: its memory is freed, its descriptor is
  -- unwatched and closed, the others are as they were, and the channels are `zs`, with the same head of the ring.
  pub record Gone (s : Net K U) (c fd : ℕ) (zs : List ℕ) (s' : Net K U) : Type (ℓ ⊔ κ) where
    pub net : IsNet laws s' zs
    pub others : (i : ℕ) → c ≢ i → s'.heap i ≡ s.heap i
    pub freed : load s' c ≡ none
    pub unwatched : mask_at s'.loop.events fd ≡ ae_none
    pub closed : s'.closed ≡ fd ∷ s.closed
    pub user : s'.user ≡ s.user
    pub head : s'.head ≡ s.head

  release-Gone :
      (s : Net K U) (c : ℕ) (zs : List ℕ)
      → Detached laws s c zs
      → (s' : Net K U) × (release epoll_ctl call c s ≡ some s') × Gone s c (fd_of s c) zs s'
  unfolding release
  release-Gone s c zs d =
      let (ch, e) = d.cell in
      let (s1, e1, l1) = disable_read-Leaves laws s c ch e d.net.loop d.mirror in
      let (s2, e2, l2) =
        disable_write-Leaves laws s1 c (record ch { recv_enabled = false }) l1.cell l1.touches.loop
          l1.touches.mirror in
      let l = Leaves-trans laws s s1 s2 c _ _ l1 l2 in
      let ch2 : Channel = record ch { recv_enabled = false; send_enabled = false } in
      let ch3 : Channel = record ch2 {
        in_queue = remove_data ch2.in_queue true;
        out_queue = remove_data ch2.out_queue true;
      } in
      let s3 = store s2 c (some ch3) in
      let s' : Net K U = record (store s3 c none) { closed = ch2.fd ∷ s2.closed } in
      let (v, _) = Touches-IsNet s s2 c zs d.net d.elsewhere l.touches in
      let away = λ (i : ℕ) (n : c ≢ i).
        ap (λ b. if b then none else s3.heap i) (==_false i c (λ q. n (sym q)))
        ∙ ap (λ b. if b then some ch3 else s2.heap i) (==_false i c (λ q. n (sym q))) in
      let finish = λ (t : Net K U). load t c >>= λ ch.
      some
        (record (store
          (store t c (
            some (record ch {
              in_queue = remove_data ch.in_queue true;
              out_queue = remove_data ch.out_queue true;
            })))
          c none) { closed = ch.fd ∷ t.closed }) in
      let fd : fd_of s c ≡ ch.fd = ap fd_field e in
      (
        s',
        ap (λ o. o >>= λ s1. disable_write epoll_ctl c s1 >>= finish) e1
            ∙ ap (λ o. o >>= finish) e2
            ∙ ap
                (λ o. o >>= λ ch.
                  some
                    (record (store
                      (store s2 c (
                        some (record ch {
                          in_queue = remove_data ch.in_queue true;
                          out_queue = remove_data ch.out_queue true;
                        })))
                      c none) { closed = ch.fd ∷ s2.closed }))
                l.cell,
        record {
          net = record {
            ring = record {
              ring = others-RingOf s2 s' c zs away refl d.apart v.ring.ring;
              distinct = v.ring.distinct;
              cells = others-Cells s2 s' c zs away d.apart v.ring.cells;
            };
            loop = v.loop;
            mirror = others-AllMirror s2 s' c zs away refl d.apart v.mirror;
            fds = others-DistinctFds s2 s' c zs away d.apart v.fds;
          };
          others = λ i n. away i n ∙ l.touches.others i n;
          freed = ap (λ b. if b then none else s3.heap c) (==_refl c c refl);
          unwatched =
              ap (mask_at s2.loop.events) (sym l.touches.fd)
              ∙ l.touches.mirror
              ∙ ap flags_field l.cell;
          closed = ap (λ f. f ∷ s2.closed) (sym fd) ∙ ap (λ r. fd_of s c ∷ r) l.closed;
          user = l.user;
          head = l.touches.head;
        },
      )

  -- What is asked of the handler that channel_close calls: it returns, and it may create, close and use other
  -- channels, but it does not free or change the channel that is being closed.
  pub record SparesClosed : Type (ℓ ⊔ κ) where
    pub spares :
        (s : Net K U) (c handler usr : ℕ) (errcode : ℤ) (zs : List ℕ)
        → Detached laws s c zs
        → (s' : Net K U) × (zs' : List ℕ) × (call handler usr (evclosed c errcode) s ≡ some s')
          × Detached laws s' c zs'
          × (bare (s'.heap c) ≡ bare (s.heap c))

  -- A channel with a handler tells it.
  pub told_some :
      (s : Net K U) (c handler usr : ℕ) (errcode : ℤ) (out : Option (Net K U))
      → handler ≢ 0
      → call handler usr (evclosed c errcode) s ≡ out
      → (if handler == 0 then some s else invoke epoll_ctl call handler usr (evclosed c errcode) s)
        ≡ out
  unfolding invoke
  told_some s c handler usr errcode out n run =
      ap (λ b. if b then some s else (if b then none else call handler usr (evclosed c errcode) s))
        (==_false handler 0 n)
      ∙ run

  -- What becomes of the channels `zs` while the handler of a closed channel is called: it is called once, if there
  -- is one, with the message of the end, and leaves the channels `zs'`; without one nothing changes.
  pub Told : Net K U → ℕ → ℕ → ℕ → ℤ → List ℕ → Net K U → List ℕ → Type (ℓ ⊔ κ)
  Told s c handler usr errcode zs s' zs' =
      ((handler ≡ 0) × (s' ≡ s) × (zs' ≡ zs))
      ⊎ ((handler ≢ 0) × (call handler usr (evclosed c errcode) s ≡ some s'))

  Told-spared :
      (spared : SparesClosed) (s : Net K U) (c handler usr : ℕ) (errcode : ℤ) (zs : List ℕ)
      → Detached laws s c zs
      → (s' : Net K U) × (zs' : List ℕ) × ((if handler == 0
            then some s
            else invoke epoll_ctl call handler usr (evclosed c errcode) s)
          ≡ some s')
        × Detached laws s' c zs'
        × (bare (s'.heap c) ≡ bare (s.heap c))
        × Told s c handler usr errcode zs s' zs'
  unfolding invoke Told
  Told-spared spared s c handler usr errcode zs d = elim (ℕ_discrete handler 0) [
    | yes q ↦ (
      s,
      zs,
      ap (λ b. if b then some s else (if b then none else call handler usr (evclosed c errcode) s))
          (==_refl handler 0 q),
      d,
      refl,
      inl (q, refl, refl),
    )
    | no n ↦
        let (s', zs', run, d', same) = spared.spares s c handler usr errcode zs d in
        (s', zs', told_some s c handler usr errcode (some s') n run, d', same, inr (n, run))
  ]

  -- channel_close, once the handler has returned.
  pub close_lem :
      (s s1 s2 : Net K U) (c : ℕ) (ch : Channel) (errcode : ℤ) (zs : List ℕ)
      → load s c ≡ some ch
      → unlink c s ≡ some s1
      → ((if ch.handler == 0
            then some s1
            else invoke epoll_ctl call ch.handler ch.usr (evclosed c errcode) s1)
          ≡ some s2)
      → Detached laws s2 c zs
      → fd_of s2 c ≡ ch.fd
      → (s' : Net K U) × (channel_close epoll_ctl call c errcode s ≡ some s')
        × Gone s2 c ch.fd zs s'
  unfolding channel_close
  close_lem s s1 s2 c ch errcode zs e e1 e2 d fd =
      let (s3, e3, g) = release-Gone s2 c zs d in
      let rest = λ (s1 : Net K U).
        (if ch.handler == 0
          then some s1
          else invoke epoll_ctl call ch.handler ch.usr (evclosed c errcode) s1)
        >>= λ s2. release epoll_ctl call c s2 in
      (
        s3,
        ap
              (λ o. o >>= λ ch. unlink c s >>= λ s1.
                (if ch.handler == 0
                  then some s1
                  else invoke epoll_ctl call ch.handler ch.usr (evclosed c errcode) s1)
                >>= λ s2. release epoll_ctl call c s2)
              e
            ∙ ap (λ o. o >>= rest) e1
            ∙ ap (λ o. o >>= λ s2. release epoll_ctl call c s2) e2
            ∙ e3,
        subst (λ f. Gone s2 c f zs s3) fd g,
      )

  -- channel_close of a channel of the ring, for a handler that spares the closed channel, returns; no access goes
  -- astray. First the channel is taken out of the ring, which leaves a valid state of the others and changes nothing
  -- but links; in that state the handler, if there is one, is called once, and else nothing changes. What it left is
  -- valid; then the channel is freed, its descriptor is unwatched and closed, as the last one, all other
  -- cells, the users' state and the head are as the handler left them, and the state is valid.
  pub channel_close-Gone :
      (s : Net K U) (xs : List ℕ) (c : ℕ) (ys : List ℕ) (ch : Channel) (errcode : ℤ)
      → SparesClosed
      → IsNet laws s (xs ++ (c ∷ ys))
      → load s c ≡ some ch
      → (s1 : Net K U) × (zs : List ℕ) × (left : Net K U) × (s' : Net K U) × IsNet laws s1
          (xs ++ ys)
        × SameBut s s1
        × Told s1 c ch.handler ch.usr errcode (xs ++ ys) left zs
        × IsNet laws left zs
        × (channel_close epoll_ctl call c errcode s ≡ some s')
        × Gone left c ch.fd zs s'
  channel_close-Gone s xs c ys ch errcode spared v e =
      let (s1, e1, d1, same1) = unlink-Detached laws s xs c ys v in
      let (s2, zs, e2, d2, same2, told) =
        Told-spared spared s1 c ch.handler ch.usr errcode (xs ++ ys) d1 in
      let (s3, run, gone) =
        close_lem s s1 s2 c ch errcode zs e e1 e2 d2
          (bare-fd s s2 c (same2 ∙ same1.cells c) ∙ ap fd_field e) in
      (s1, zs, s2, s3, d1.net, same1, told, d2.net, run, gone)
