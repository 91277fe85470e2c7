-- ===== src/Msgd/Arrive.antt =====
-- A connection arrives: _accept_handler, channel_create and _acceptor_callback of the message server together.
use evnet.Base.{
  ℕ, suc, ◌≤◌, ◌<◌, ◌≡◌, ◌≢◌, refl, sym, ap, ap₂, ◌∙◌, Bool, false, List, [], ◌∷◌, length, Option,
  none, some, if◌then◌else◌, ◌⊎◌, inl, inr, arith, pos,
}
use evnet.Event.{Mask, ae_none, CtlOp, EventLoop, create_file_event}
use evnet.Event.Table.{mask_at}
use evnet.Event.Watch.{EpollLaws}
use evnet.Channel.{Channel, Net, load, blank, ip_str_size, ae_readable, read_proc}
use evnet.Channel.Ring.{AllNe}
use evnet.Channel.Links.{bare}
use evnet.Channel.Valid.{OtherFds, IsNet}
use evnet.Channel.Fresh.{channel_create-IsNet}
use evnet.Acceptor.{Acceptor, accept_handler}
use evnet.Acceptor.Accept.{accept_handler_lem}
use evnet.Msgd.{Msgd, new_parser, acceptor_callback, acceptor_callback_proc, accepted}
use evnet.Msgd.Served.{served, served_others, served_unbound, IsServer}
use evnet.Msgd.Accept.{accepted-IsServer}

unbound :
    (o : Option Channel) (fd : ℕ) (ip_str : List ℕ) (port : ℕ)
    → bare o ≡ some (blank fd ip_str port false)
    → (ch : Channel) × (o ≡ some ch) × (ch.handler ≡ 0) × (ch.upstream ≡ false) × (ch.fd ≡ fd)
unbound none fd ip_str port e = cc
unbound (some ch) fd ip_str port e =
    (ch, refl, ap handler_field e, ap upstream_field e, ap its_fd e)
  where
    handler_field : Option Channel → ℕ
    handler_field none = 0
    handler_field (some ch) = ch.handler

    upstream_field : Option Channel → Bool
    upstream_field none = false
    upstream_field (some ch) = ch.upstream

    its_fd : Option Channel → ℕ
    its_fd none = 0
    its_fd (some ch) = ch.fd

module _ {ℓ κ} {K : Type ℓ} {A : Type κ} {epoll_ctl : K → CtlOp → ℕ → Mask → Option K}
    {interest : K → ℕ → Mask} (laws : EpollLaws epoll_ctl interest)
    (handle : ℕ → ℕ → ℕ → List ℕ → Net K (Msgd A) → Option (Bool × Net K (Msgd A)))
    (on_close : ℕ → Net K (Msgd A) → Option (Net K (Msgd A))) where
  -- The server is told of the new channel, which it does not serve yet.
  told-IsServer :
      (s : Net K (Msgd A)) (xs : List ℕ) (a : Acceptor) (fd port new usr now : ℕ) (ip_str : List ℕ)
      → IsServer laws s xs
      → a.handler ≡ acceptor_callback_proc
      → new ≢ 0
      → AllNe new xs
      → length ip_str < ip_str_size
      → OtherFds s fd xs
      → mask_at s.loop.events fd ≡ ae_none
      → (s1 : Net K (Msgd A)) × (ch : Channel) × (accept_handler
            (acceptor_callback epoll_ctl handle on_close usr now)
            a
            (some (fd, ip_str, port))
            new
            s
          ≡ accepted epoll_ctl handle on_close new usr now s1)
        × IsServer laws s1 (new ∷ xs)
        × (load s1 new ≡ some ch)
        × (ch.handler ≡ 0)
        × (ch.upstream ≡ false)
        × (ch.fd ≡ fd)
        × (served s1.heap (new ∷ xs) ≡ served s.heap xs)
        × (s1.user ≡ s.user)
        × (s1.loop ≡ s.loop)
        × (s1.closed ≡ s.closed)
        × ((i : ℕ) → new ≢ i → bare (s1.heap i) ≡ bare (s.heap i))
  unfolding acceptor_callback
  told-IsServer s xs a fd port new usr now ip_str v proc nz fresh fits others unwatched =
      let (s1, run, v1, made, same, loop, closed, user) =
        channel_create-IsNet laws s xs new fd ip_str port false v.net nz fresh fits others
          unwatched in
      let (ch, e, z, down, its_fd) = unbound (s1.heap new) fd ip_str port made in
      let kept = served_others s.heap s1.heap new xs same fresh in
      let count : served s1.heap (new ∷ xs) ≡ served s.heap xs =
        omega (arith, kept, served_unbound (s1.heap new) ch e z) in
      (
        s1,
        ch,
        accept_handler_lem (acceptor_callback epoll_ctl handle on_close usr now) s s1 a fd new
            ip_str port (λ q. omega (arith, proc, q)) nz run,
        record { net = v1; count = ap (λ u. u.cur_con) user ∙ v.count ∙ ap pos (sym count) },
        e,
        z,
        down,
        its_fd,
        count,
        user,
        loop,
        closed,
        same,
      )

  -- _accept_handler of a server's acceptor, for a connection whose descriptor no channel has and is not watched, and
  -- memory at a new address, on a valid state of the server. Where as many channels are served as the limit allows,
  -- the new channel is closed again: its cell is freed, its descriptor and no other is closed, the ring has the channels
  -- that it had, which are as they were but for their links, and nothing of the server changes.
  -- Else the new channel is in front of the others and has a user in memory; the counter goes up by one; the
  -- number of channels that are served goes up too if aeCreateFileEvent could watch the new descriptor for
  -- reading, and stays if not.
  pub accept_handler-IsServer :
      (s : Net K (Msgd A)) (xs : List ℕ) (a : Acceptor) (fd port new usr now max_con : ℕ)
      (ip_str : List ℕ)
      → IsServer laws s xs
      → a.handler ≡ acceptor_callback_proc
      → s.user.max_con ≡ pos max_con
      → new ≢ 0
      → AllNe new xs
      → length ip_str < ip_str_size
      → OtherFds s fd xs
      → mask_at s.loop.events fd ≡ ae_none
      → ((max_con ≤ served s.heap xs)
          × (s' : Net K (Msgd A)) × (accept_handler
                (acceptor_callback epoll_ctl handle on_close usr now)
                a
                (some (fd, ip_str, port))
                new
                s
              ≡ some s')
          × IsServer laws s' xs
          × (s'.user ≡ s.user)
          × (load s' new ≡ none)
          × (s'.closed ≡ fd ∷ s.closed)
          × ((i : ℕ) → new ≢ i → bare (s'.heap i) ≡ bare (s.heap i)))
        ⊎ ((served s.heap xs < max_con)
            × (s' : Net K (Msgd A)) × (ok : Bool) × (loop : EventLoop K) × (accept_handler
                  (acceptor_callback epoll_ctl handle on_close usr now)
                  a
                  (some (fd, ip_str, port))
                  new
                  s
                ≡ some s')
            × (create_file_event epoll_ctl s.loop fd ae_readable read_proc new ≡ some (loop, ok))
            × IsNet laws s' (new ∷ xs)
            × (s'.user.cur_con ≡ pos (suc (served s.heap xs)))
            × (served s'.heap (new ∷ xs)
                ≡ (if ok then suc (served s.heap xs) else served s.heap xs))
            × (s'.user.usrs usr
                ≡ some
                    (record { status = 0; parser = new_parser; gid = s.user.next_id; chan = new })))
  accept_handler-IsServer s xs a fd port new usr now max_con ip_str v proc limit nz fresh fits
        others unwatched =
      let (s1, ch, run, v1, e, z, down, its_fd, count, user, loop_same, closed, same) =
        told-IsServer s xs a fd port new usr now ip_str v proc nz fresh fits others unwatched in
      elim (accepted-IsServer laws handle on_close s1 [] new xs ch usr now max_con v1 e z down
        (ap (λ u. u.max_con) user ∙ limit)) [
          | inl (full, s', run', v', same', _, gone, closed', kept) ↦ inl (
            omega (arith, full, count),
            s',
            run ∙ run',
            v',
            same' ∙ user,
            gone,
            closed' ∙ ap₂ (λ x xs. x ∷ xs) its_fd closed,
            λ i n. kept i n ∙ same i n,
          )
          | inr (room, s', ok, loop, run', watched, v', cur, total, made) ↦ inr (
            omega (arith, room, count),
            s',
            ok,
            loop,
            run ∙ run',
            sym (
                  ap₂ (λ l f. create_file_event epoll_ctl l f ae_readable read_proc new) loop_same
                    its_fd)
                ∙ watched,
            v',
            cur ∙ ap (λ n. pos (suc n)) count,
            total ∙ ap (λ n. if ok then suc n else n) count,
            made
                ∙ ap
                    (λ u.
                      some
                        (record { status = 0; parser = new_parser; gid = u.next_id; chan = new }))
                    user,
          )
        ]
