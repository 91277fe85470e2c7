-- ===== src/Channel/Enable.antt =====
-- aeCreateFileEvent for a channel, with the flag that goes with it: channel_bind, channel_handshake and
-- channel_send.
use evnet.Base.{
  ℕ, ◌≡◌, refl, sym, ap, ◌∙◌, Bool, true, false, Option, some, List, ◌∷◌, ◌++◌, inl, inr,
}
use evnet.Event.{Mask, CtlOp, EventLoop, merge, create_file_event, is_none}
use evnet.Event.Table.{mask_at}
use evnet.Event.Watch.{EpollLaws, IsValid, create_file_event-IsValid}
use evnet.Channel.{Channel, Net, load, store}
use evnet.Channel.Valid.{flags_field, Mirrors, Elsewhere, IsNet, Touches, Touches-IsNet}
use evnet.Channel.Touch.{store-Touches, flags_lem}
use evnet.Channel.Detach.{AllMirror-without, DistinctFds-Elsewhere}

module _ {ℓ κ} {K : Type ℓ} {U : Type κ} {epoll_ctl : K → CtlOp → ℕ → Mask → Option K}
    {interest : K → ℕ → Mask} (laws : EpollLaws epoll_ctl interest) where
  pub at_member :
      (s : Net K U) (xs : List ℕ) (c : ℕ) (ys : List ℕ)
      → IsNet laws s (xs ++ (c ∷ ys))
      → Mirrors s c × Elsewhere s c (xs ++ (c ∷ ys))
  at_member s xs c ys v =
      let (_, m) = AllMirror-without s xs c ys v.mirror in
      let (e, _) = DistinctFds-Elsewhere s xs c ys v.fds in (m, e)

  -- An operation on one channel of the ring keeps the whole state valid.
  pub member-IsNet :
      (s s' : Net K U) (xs : List ℕ) (c : ℕ) (ys : List ℕ)
      → IsNet laws s (xs ++ (c ∷ ys))
      → Touches laws s c s'
      → IsNet laws s' (xs ++ (c ∷ ys))
  member-IsNet s s' xs c ys v t =
      let (_, e) = at_member s xs c ys v in
      let (w, _) = Touches-IsNet s s' c (xs ++ (c ∷ ys)) v e t in w

  -- The channel becomes `ch' true` where the event was created, and `ch' false` where it was not.
  pub enable_lem :
      (s : Net K U) (c : ℕ) (ch : Channel) (mask : Mask) (proc : ℕ) (ch' : Bool → Channel)
      → load s c ≡ some ch
      → IsValid laws s.loop
      → Mirrors s c
      → is_none mask ≡ false
      → ((b : Bool) → ((ch' b).next ≡ ch.next) × ((ch' b).prev ≡ ch.prev) × ((ch' b).fd ≡ ch.fd))
      → flags_field (some (ch' false)) ≡ flags_field (some ch)
      → flags_field (some (ch' true)) ≡ merge (flags_field (some ch)) mask
      → (loop : EventLoop K) × (ok : Bool) × (create_file_event epoll_ctl s.loop ch.fd mask proc c
          ≡ some (loop, ok))
        × Touches laws s c (store (record s { loop = loop }) c (some (ch' ok)))
  enable_lem s c ch mask proc ch' e v mirror some_mask same off on =
      let (loop, ok, run, vl, cases) =
        create_file_event-IsValid laws s.loop ch.fd mask proc c v some_mask in
      let (en, ep, ef) = same ok in
      let flags = flags_lem laws s c ch e v mirror in
      (
        loop,
        ok,
        run,
        store-Touches laws s (record s { loop = loop }) c ch (ch' ok) e
            (record { heap = λ i. refl; head = refl }) en ep ef vl
            (λ i n. elim cases [
              | inl (_, l) ↦ ap (λ l. mask_at l.events i) l
              | inr (_, _, d) ↦ d.others i n
            ])
            (elim cases [
              | inl (b, l) ↦
                  ap (λ l. mask_at l.events ch.fd) l
                  ∙ flags
                  ∙ sym off
                  ∙ ap (λ b. flags_field (some (ch' b))) (sym b)
              | inr (b, _, d) ↦
                  d.here
                  ∙ ap (λ m. merge m mask) flags
                  ∙ sym on
                  ∙ ap (λ b. flags_field (some (ch' b))) (sym b)
            ]),
      )
