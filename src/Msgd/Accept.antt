-- ===== src/Msgd/Accept.antt =====
-- _acceptor_callback of the message server.
use evnet.Base.{
  ℕ, suc, ◌+◌, ◌≤◌, ◌<◌, ◌≡◌, refl, sym, ap, ◌∙◌, Bool, true, false, List, ◌∷◌, ◌++◌, Option, some,
  none, ◌&&◌, ◌≢◌, ◌>>=◌, ==_refl, if◌then◌else◌, ◌⊎◌, inl, inr, arith, pos, increment, int_leb,
  leb, le→leb, gt→leb, dec_lt, add32,
}
use evnet.Event.{Mask, CtlOp, EventLoop, create_file_event}
use evnet.Event.Watch.{EpollLaws}
use evnet.Channel.{
  Channel, Net, evclosed, load, invoke, channel_close, ae_readable, ae_writable, read_proc,
  write_proc,
}
use evnet.Channel.Links.{bare}
use evnet.Channel.Ring.{Distinct-Apart, append-AllNe}
use evnet.Channel.Valid.{IsNet}
use evnet.Channel.Bind.{bound, channel_bind-IsNet}
use evnet.Channel.Quiet.{close_told, user-IsNet}
use evnet.Msgd.{
  Msgd, Usr, new_parser, store_usr, set_cur_con, closed_callback, new_usr, accepted,
  channel_callback_proc,
}
use evnet.Msgd.Served.{is_served, served, served-append, served_others, served_unbound, IsServer}

bound_served :
    (ch : Channel) (timeout usr now : ℕ) (ok : Bool)
    → ch.handler ≡ 0
    → is_served (some (bound ch channel_callback_proc timeout usr now ok)) ≡ (if ok then 1 else 0)
bound_served ch timeout usr now true z = refl
bound_served ch timeout usr now false z = ap (λ b. if b then 0 else 1) (==_refl ch.handler 0 z)

if_suc :
    (ok : Bool) (total total' here here' rest rest' : ℕ)
    → total' ≡ here' + rest'
    → here' ≡ (if ok then 1 else 0)
    → rest' ≡ rest
    → total ≡ here + rest
    → here ≡ 0
    → total' ≡ (if ok then suc total else total)
if_suc true total total' here here' rest rest' p q r p' q' = omega (arith, p, q, r, p', q')
if_suc false total total' here here' rest rest' p q r p' q' = omega (arith, p, q, r, p', q')

down_lem : (up : Bool) → up ≡ false → up && false ≡ true → ⊥
down_lem true e f = cc
down_lem false e f = cc

module _ {ℓ κ} {K : Type ℓ} {A : Type κ} {epoll_ctl : K → CtlOp → ℕ → Mask → Option K}
    {interest : K → ℕ → Mask} (laws : EpollLaws epoll_ctl interest)
    (handle : ℕ → ℕ → ℕ → List ℕ → Net K (Msgd A) → Option (Bool × Net K (Msgd A)))
    (on_close : ℕ → Net K (Msgd A) → Option (Net K (Msgd A))) where
  -- One channel among others.
  pub served_at :
      (h : ℕ → Option Channel) (xs : List ℕ) (c : ℕ) (ys : List ℕ)
      → served h (xs ++ (c ∷ ys)) ≡ is_served (h c) + served h (xs ++ ys)
  served_at h xs c ys = omega (arith, served-append h xs (c ∷ ys), served-append h xs ys)

  refused_lem :
      (s : Net K (Msgd A)) (xs : List ℕ) (c : ℕ) (ys : List ℕ) (ch : Channel)
      → IsServer laws s (xs ++ (c ∷ ys))
      → load s c ≡ some ch
      → ch.handler ≡ 0
      → (s' : Net K (Msgd A)) × (channel_close epoll_ctl
            (closed_callback epoll_ctl handle on_close)
            c
            (pos 0)
            s
          ≡ some s')
        × IsServer laws s' (xs ++ ys)
        × (s'.user ≡ s.user)
        × (served s'.heap (xs ++ ys) ≡ served s.heap (xs ++ (c ∷ ys)))
        × (load s' c ≡ none)
        × (s'.closed ≡ ch.fd ∷ s.closed)
        × ((i : ℕ) → c ≢ i → bare (s'.heap i) ≡ bare (s.heap i))
  refused_lem s xs c ys ch v e z =
      let call = closed_callback epoll_ctl handle on_close in
      let (s', run, v', same, gone, closed, user) =
        close_told laws call s xs c ys ch (pos 0) (λ u. u ≡ s.user) v.net e
          (λ s1 q. (
            s1.user,
            ap
                (λ b.
                  if b
                  then some s1
                  else invoke epoll_ctl call ch.handler ch.usr (evclosed c (pos 0)) s1)
                (==_refl ch.handler 0 z),
            q,
          )) in
      let a = Distinct-Apart xs c ys v.net.ring.distinct in
      let kept =
        served_others s.heap s'.heap c (xs ++ ys) same (append-AllNe c xs ys a.before a.behind) in
      let count : served s'.heap (xs ++ ys) ≡ served s.heap (xs ++ (c ∷ ys)) =
        omega (arith, kept, served_at s.heap xs c ys, served_unbound (s.heap c) ch e z) in
      (
        s',
        run,
        record { net = v'; count = ap (λ u. u.cur_con) user ∙ v.count ∙ ap pos (sym count) },
        user,
        count,
        gone,
        closed,
        same,
      )

  -- The user is made, the channel is bound, and the count goes up.
  taken_lem :
      (s : Net K (Msgd A)) (xs : List ℕ) (c : ℕ) (ys : List ℕ) (ch : Channel) (new now : ℕ)
      → IsServer laws s (xs ++ (c ∷ ys))
      → load s c ≡ some ch
      → ch.handler ≡ 0
      → ch.upstream ≡ false
      → (s' : Net K (Msgd A)) × (ok : Bool) × (loop : EventLoop K) × (new_usr epoll_ctl handle
            on_close c new now s
          ≡ some s')
        × (create_file_event epoll_ctl s.loop ch.fd ae_readable read_proc c ≡ some (loop, ok))
        × IsNet laws s' (xs ++ (c ∷ ys))
        × (s'.user.cur_con ≡ pos (suc (served s.heap (xs ++ (c ∷ ys)))))
        × (served s'.heap (xs ++ (c ∷ ys))
            ≡ (if ok then suc (served s.heap (xs ++ (c ∷ ys))) else served s.heap (xs ++ (c ∷ ys))))
        × (s'.user.usrs new
            ≡ some (record { status = 0; parser = new_parser; gid = s.user.next_id; chan = c }))
  unfolding new_usr
  taken_lem s xs c ys ch new now v e z down =
      let call = closed_callback epoll_ctl handle on_close in
      let user = s.user in
      let u : Usr = record { status = 0; parser = new_parser; gid = user.next_id; chan = c } in
      let s0 : Net K (Msgd A) = record s {
        user = record user { next_id = add32 user.next_id 1 };
      } in
      let s1 = store_usr s0 new (some u) in
      let v1 = user-IsNet laws call s s1.user (xs ++ (c ∷ ys)) v.net in
      let (s2, ok, run, why, v2, cell, others, same) =
        channel_bind-IsNet laws call s1 xs c ys ch channel_callback_proc user.timeout new true now
          v1 e in
      let count = ap (λ u. u.cur_con) same ∙ v.count in
      let n' = increment s2.user.cur_con in
      let s' = set_cur_con s2 n' in
      let finish =
        λ (p : Bool × Net K (Msgd A)). some (set_cur_con p.1 (increment p.1.user.cur_con)) in
      let a = Distinct-Apart xs c ys v.net.ring.distinct in
      let kept =
        served_others s.heap s2.heap c (xs ++ ys) (λ i n. ap bare (others i n))
          (append-AllNe c xs ys a.before a.behind) in
      let here = ap is_served cell ∙ bound_served ch user.timeout new now ok z in
      let before = served_unbound (s.heap c) ch e z in
      let (loop, made) : (loop : EventLoop K) × (create_file_event epoll_ctl s.loop ch.fd
              ae_readable read_proc c
            ≡ some (loop, ok)) =
        elim why [
          | inl (up, _) ↦ absurd (down_lem ch.upstream down up)
          | inr (_, loop, made) ↦ (
            loop,
            sym (
                  ap
                    (λ b.
                      create_file_event epoll_ctl s.loop ch.fd
                        (if b then ae_writable else ae_readable)
                        (if b then write_proc else read_proc) c)
                    down)
                ∙ made,
          )
        ] in
      (
        s',
        ok,
        loop,
        ap (λ o. o >>= finish) run,
        made,
        user-IsNet laws call s2 (s'.user) (xs ++ (c ∷ ys)) v2,
        ap increment count,
        if_suc ok _ _ _ _ _ _ (served_at s2.heap xs c ys) here kept (served_at s.heap xs c ys)
            before,
        ap (λ u. u.usrs new) same
            ∙ ap (λ b. if b then some u else user.usrs new) (==_refl new new refl),
      )

  -- _acceptor_callback for a new channel, which has no handler yet, of a server with a valid state. Where as many
  -- channels are served as the limit allows, the channel is closed and nothing else of the server changes. Else
  -- it gets a user in memory; the counter goes up by one; the number of channels that are served goes up too
  -- if its file event could be created, and stays if not, so that the counter is too large by one from then on.
  pub accepted-IsServer :
      (s : Net K (Msgd A)) (xs : List ℕ) (c : ℕ) (ys : List ℕ) (ch : Channel) (new now max_con : ℕ)
      → IsServer laws s (xs ++ (c ∷ ys))
      → load s c ≡ some ch
      → ch.handler ≡ 0
      → ch.upstream ≡ false
      → s.user.max_con ≡ pos max_con
      → ((max_con ≤ served s.heap (xs ++ (c ∷ ys)))
          × (s' : Net K (Msgd A)) × (accepted epoll_ctl handle on_close c new now s ≡ some s')
          × IsServer laws s' (xs ++ ys)
          × (s'.user ≡ s.user)
          × (served s'.heap (xs ++ ys) ≡ served s.heap (xs ++ (c ∷ ys)))
          × (load s' c ≡ none)
          × (s'.closed ≡ ch.fd ∷ s.closed)
          × ((i : ℕ) → c ≢ i → bare (s'.heap i) ≡ bare (s.heap i)))
        ⊎ ((served s.heap (xs ++ (c ∷ ys)) < max_con)
            × (s' : Net K (Msgd A)) × (ok : Bool) × (loop : EventLoop K) × (accepted epoll_ctl
                  handle on_close c new now s
                ≡ some s')
            × (create_file_event epoll_ctl s.loop ch.fd ae_readable read_proc c ≡ some (loop, ok))
            × IsNet laws s' (xs ++ (c ∷ ys))
            × (s'.user.cur_con ≡ pos (suc (served s.heap (xs ++ (c ∷ ys)))))
            × (served s'.heap (xs ++ (c ∷ ys)) ≡ (
                if ok
                then suc (served s.heap (xs ++ (c ∷ ys)))
                else served s.heap (xs ++ (c ∷ ys))))
            × (s'.user.usrs new
                ≡ some
                    (record { status = 0; parser = new_parser; gid = s.user.next_id; chan = c })))
  unfolding accepted
  accepted-IsServer s xs c ys ch new now max_con v e z down limit =
      let total = served s.heap (xs ++ (c ∷ ys)) in
      let full : int_leb s.user.max_con s.user.cur_con ≡ leb max_con total =
        ap (λ n. int_leb n s.user.cur_con) limit ∙ ap (int_leb (pos max_con)) v.count in
      let test : (b : Bool)
          → int_leb s.user.max_con s.user.cur_con ≡ b
          → accepted epoll_ctl handle on_close c new now s ≡ (
              if b
              then channel_close epoll_ctl (closed_callback epoll_ctl handle on_close) c (pos 0) s
              else new_usr epoll_ctl handle on_close c new now s) =
        λ b q.
          ap
            (λ b.
              if b
              then channel_close epoll_ctl (closed_callback epoll_ctl handle on_close) c (pos 0) s
              else new_usr epoll_ctl handle on_close c new now s)
            q in
      elim (dec_lt total max_con) [
        | no out ↦
            let le : max_con ≤ total = omega arith in
            let (s', run, v', same, count, gone, closed, kept) = refused_lem s xs c ys ch v e z in
            inl (
              le,
              s',
              test true (full ∙ le→leb max_con total le) ∙ run,
              v',
              same,
              count,
              gone,
              closed,
              kept,
            )
        | yes room ↦
            let (s', ok, loop, run, watched, v', count, bound, made) =
              taken_lem s xs c ys ch new now v e z down in
            inr (
              room,
              s',
              ok,
              loop,
              test false (full ∙ gt→leb max_con total room) ∙ run,
              watched,
              v',
              count,
              bound,
              made,
            )
      ]
