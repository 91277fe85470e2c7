-- ===== src/Channel/Quiet.antt =====
-- channel_close where the handlers leave the channels alone: they do no more than change the users' state.
use evnet.Base.{
  ℕ, ◌≡◌, ◌≢◌, sym, ap, ◌∙◌, subst, Option, some, none, if◌then◌else◌, ◌==◌, ==_refl, ==_false,
  List, ◌∷◌, ◌++◌, ℤ, ℕ_discrete,
}
use evnet.Event.{Mask, CtlOp}
use evnet.Event.Watch.{EpollLaws}
use evnet.Channel.{Channel, ChannelMsg, evclosed, Net, load, invoke, channel_close}
use evnet.Channel.Links.{bare}
use evnet.Channel.Valid.{fd_field, IsNet}
use evnet.Channel.Detach.{Detached, unlink-Detached, bare-fd}
use evnet.Channel.Close.{close_lem, told_some}

-- What is asked of the handlers: the message of the end changes the users' state, as `tell` says, and no more.
pub record AreQuiet {ℓ κ} {K : Type ℓ} {U : Type κ}
    (call : ℕ → ℕ → ChannelMsg → Net K U → Option (Net K U)) (tell : ℕ → ℕ → ℕ → ℤ → U → U)
    : Type (ℓ ⊔ κ) where
  pub quiet :
      (s : Net K U) (handler usr c : ℕ) (errcode : ℤ)
      → call handler usr (evclosed c errcode) s
        ≡ some (record s { user = tell handler usr c errcode s.user })

-- The users' state behind the message of the end, if the channel has a handler.
abbrev pub tell_closed {κ} : {U : Type κ} → (ℕ → ℕ → ℕ → ℤ → U → U) → ℕ → ℕ → ℕ → ℤ → U → U
tell_closed tell handler usr c errcode u = if handler == 0 then u else tell handler usr c errcode u

module _ {ℓ κ} {K : Type ℓ} {U : Type κ} {epoll_ctl : K → CtlOp → ℕ → Mask → Option K}
    {interest : K → ℕ → Mask} (laws : EpollLaws epoll_ctl interest)
    (call : ℕ → ℕ → ChannelMsg → Net K U → Option (Net K U)) where
  pub user-IsNet :
      (s : Net K U) (u : U) (zs : List ℕ) → IsNet laws s zs → IsNet laws (record s { user = u }) zs
  user-IsNet s u zs v = record {
    ring = record { ring = v.ring.ring; distinct = v.ring.distinct; cells = v.ring.cells };
    loop = v.loop;
    mirror = v.mirror;
    fds = v.fds;
  }

  pub user-Detached :
      (s : Net K U) (u : U) (c : ℕ) (zs : List ℕ)
      → Detached laws s c zs
      → Detached laws (record s { user = u }) c zs
  user-Detached s u c zs d = record {
    net = user-IsNet s u zs d.net;
    elsewhere = d.elsewhere;
    apart = d.apart;
    cell = d.cell;
    mirror = d.mirror;
  }

  told_quietly :
      (tell : ℕ → ℕ → ℕ → ℤ → U → U)
      → AreQuiet call tell
      → (s : Net K U) (c handler usr : ℕ) (errcode : ℤ)
      → (if handler == 0 then some s else invoke epoll_ctl call handler usr (evclosed c errcode) s)
        ≡ some (record s { user = tell_closed tell handler usr c errcode s.user })
  unfolding invoke
  told_quietly tell q s c handler usr errcode = elim (ℕ_discrete handler 0) [
    | yes z ↦
        let e = ==_refl handler 0 z in
        ap
          (λ b. if b then some s else (if b then none else call handler usr (evclosed c errcode) s))
          e
        ∙ ap
            (λ b.
              some (record s { user = if b then s.user else tell handler usr c errcode s.user }))
            (sym e)
    | no n ↦
        told_some laws call s c handler usr errcode _ n (q.quiet s handler usr c errcode)
        ∙ ap
            (λ b.
              some (record s { user = if b then s.user else tell handler usr c errcode s.user }))
            (sym (==_false handler 0 n))
  ]

  -- channel_close of a channel whose handler only changes the users' state, to one of which `Q` holds, takes
  -- just that channel out of the ring and leaves the others, but for their links, as they were; one descriptor
  -- is closed.
  pub close_told {μ} :
      (s : Net K U) (xs : List ℕ) (c : ℕ) (ys : List ℕ) (ch : Channel) (errcode : ℤ)
      (Q : U → Type μ)
      → IsNet laws s (xs ++ (c ∷ ys))
      → load s c ≡ some ch
      → ((s1 : Net K U)
          → s1.user ≡ s.user
          → (u : U) × ((if ch.handler == 0
                then some s1
                else invoke epoll_ctl call ch.handler ch.usr (evclosed c errcode) s1)
              ≡ some (record s1 { user = u }))
            × Q u)
      → (s' : Net K U) × (channel_close epoll_ctl call c errcode s ≡ some s')
        × IsNet laws s' (xs ++ ys)
        × ((i : ℕ) → c ≢ i → bare (s'.heap i) ≡ bare (s.heap i))
        × (load s' c ≡ none)
        × (s'.closed ≡ ch.fd ∷ s.closed)
        × Q (s'.user)
  close_told s xs c ys ch errcode Q v e tells =
      let (s1, e1, d1, same) = unlink-Detached laws s xs c ys v in
      let (u, e2, holds) = tells s1 same.user in
      let s2 = record s1 { user = u } in
      let (s', run, g) =
        close_lem laws call s s1 s2 c ch errcode (xs ++ ys) e e1 e2
          (user-Detached s1 u c (xs ++ ys) d1) (bare-fd s s1 c (same.cells c) ∙ ap fd_field e) in
      (
        s',
        run,
        g.net,
        (λ i n. ap bare (g.others i n) ∙ same.cells i),
        g.freed,
        g.closed ∙ ap (λ cs. ch.fd ∷ cs) same.closed,
        subst Q (sym g.user) holds,
      )

  pub close_quiet :
      (tell : ℕ → ℕ → ℕ → ℤ → U → U)
      → AreQuiet call tell
      → (s : Net K U) (xs : List ℕ) (c : ℕ) (ys : List ℕ) (ch : Channel) (errcode : ℤ)
      → IsNet laws s (xs ++ (c ∷ ys))
      → load s c ≡ some ch
      → (s' : Net K U) × (channel_close epoll_ctl call c errcode s ≡ some s')
        × IsNet laws s' (xs ++ ys)
        × ((i : ℕ) → c ≢ i → bare (s'.heap i) ≡ bare (s.heap i))
        × (load s' c ≡ none)
        × (s'.closed ≡ ch.fd ∷ s.closed)
        × (s'.user ≡ tell_closed tell ch.handler ch.usr c errcode s.user)
  close_quiet tell q s xs c ys ch errcode v e =
      let after = tell_closed tell ch.handler ch.usr c errcode in
      close_told s xs c ys ch errcode (λ u. u ≡ after s.user) v e
        (λ s1 same.
          (after s1.user, told_quietly tell q s1 c ch.handler ch.usr errcode, ap after same))
