-- ===== src/Channel/Crond.antt =====
-- channel_crond as a whole.
use evnet.Base.{
  ℕ, suc, zero, ◌≡◌, ◌≢◌, refl, sym, ap, ◌∙◌, subst, ◌≤◌, length, length-append, false, Option,
  some, ◌>>=◌, if◌then◌else◌, ◌==◌, ==_refl, ==_false, List, [], ◌∷◌, ◌++◌, inl, arith, ℤ,
}
use evnet.Event.{Mask, CtlOp}
use evnet.Event.Watch.{EpollLaws}
use evnet.Channel.{Channel, ChannelMsg, Net, load, check_from, check_timeouts, channel_crond}
use evnet.Channel.Links.{bare, next_of, prev_of, next_field, prev_field}
use evnet.Channel.Valid.{IsNet}
use evnet.Channel.Quiet.{AreQuiet}
use evnet.Channel.Ended.{gone, gone_but_last, ended, AllFreed, AllFreed-with_dead, ended-with_dead}
use evnet.Channel.Sweep.{
  swept, swept_but_last, expired_at, prev_head, Agrees, turn_lem, turned, sweep_lem,
}

snoc_cases : (y : ℕ) (ys : List ℕ) → (zs : List ℕ) × (t : ℕ) × (y ∷ ys ≡ zs ++ (t ∷ []))
snoc_cases y [] = ([], y, refl)
snoc_cases y (x ∷ xs) = let (zs, t, e) = snoc_cases x xs in (y ∷ zs, t, ap (λ l. y ∷ l) e)

module _ {ℓ κ} {K : Type ℓ} {U : Type κ} {epoll_ctl : K → CtlOp → ℕ → Mask → Option K}
    {interest : K → ℕ → Mask} (laws : EpollLaws epoll_ctl interest)
    (call : ℕ → ℕ → ChannelMsg → Net K U → Option (Net K U)) (tell : ℕ → ℕ → ℕ → ℤ → U → U)
    (quiet : AreQuiet call tell) where
  self-Agrees :
      (now : ℕ) (s : Net K U) (xs : List ℕ)
      → Agrees laws call tell quiet now (λ i. expired_at now (s.heap i)) s xs
  unfolding Agrees
  self-Agrees now s [] = tt
  self-Agrees now s (x ∷ xs) = (refl, self-Agrees now s xs)

  -- The sweep starts at the head, and the channel before it is the last.
  started :
      (fuel now : ℕ) (s : Net K U) (x : ℕ) (ch : Channel) (t : ℕ)
      → s.head ≡ x
      → x ≢ 0
      → load s x ≡ some ch
      → ch.prev ≡ t
      → channel_crond epoll_ctl call fuel now s ≡ check_from epoll_ctl call fuel x t now s
  unfolding channel_crond check_timeouts
  started fuel now s x ch t h nz e p =
      ap (λ x. if x == 0 then some s else check_timeouts epoll_ctl call fuel x now s) h
      ∙ ap (λ b. if b then some s else check_timeouts epoll_ctl call fuel x now s) (==_false x 0 nz)
      ∙ ap (λ o. o >>= λ h. check_from epoll_ctl call fuel x h.prev now s) e
      ∙ ap (λ t. check_from epoll_ctl call fuel x t now s) p

  -- channel_crond on a valid state, with as much fuel as there are channels and with handlers that leave the
  -- channels alone, returns and leaves a valid state: of two or more channels, the last of the ring stays,
  -- however long it was idle, and of the others just those that are not expired; of a single channel nothing
  -- stays if it is expired. Each channel that goes is freed; the descriptors of these and no others are closed, and
  -- their handlers, where they have one, are told of the end with the error -1, in the order of the ring and of
  -- nothing else. The channels that are not expired are, but for their links, as they were.
  pub channel_crond-IsNet :
      (fuel now : ℕ) (s : Net K U) (xs : List ℕ)
      → IsNet laws s xs
      → length xs ≤ fuel
      → (s' : Net K U) × (channel_crond epoll_ctl call fuel now s ≡ some s')
        × IsNet laws s' (swept (λ i. expired_at now (s.heap i)) xs)
        × AllFreed s' (gone (λ i. expired_at now (s.heap i)) xs)
        × ((s'.closed, s'.user)
            ≡ ended tell s.heap (gone (λ i. expired_at now (s.heap i)) xs) (s.closed, s.user))
        × ((i : ℕ) → expired_at now (s.heap i) ≡ false → bare (s'.heap i) ≡ bare (s.heap i))
  unfolding channel_crond AllFreed ended
  channel_crond-IsNet fuel now s [] v le = (
    s,
    ap (λ b. if b then some s else check_timeouts epoll_ctl call fuel s.head now s)
        (==_refl s.head 0 v.ring.ring),
    v,
    tt,
    refl,
    λ i alive. refl,
  )
  channel_crond-IsNet zero now s (x ∷ xs) v le = absurd (omega (arith, le))
  channel_crond-IsNet (suc fuel) now s (x ∷ []) v le =
      let dead = λ (i : ℕ). expired_at now (s.heap i) in
      let (head, (en, ep)) = v.ring.ring in
      let (nz, (ch, e), _) = v.ring.cells in
      let (s', run, v', _, same, freed, told) =
        turn_lem laws call tell quiet now dead s [] x [] ch v e refl in
      (
        s',
        started (suc fuel) now s x ch x head nz e (sym (ap prev_field e) ∙ ep)
            ∙ turned laws call tell quiet now dead fuel s x x ch s' e run
            ∙ ap (λ b. if b then some s' else check_from epoll_ctl call fuel ch.next x now s')
                (==_refl ch.next x (sym (ap next_field e) ∙ en)),
        v',
        AllFreed-with_dead dead s' x [] freed tt,
        told ∙ sym (ended-with_dead tell dead s.heap x [] (s.closed, s.user)),
        λ i alive. same i (inl alive),
      )
  channel_crond-IsNet (suc fuel) now s (x ∷ (y ∷ ys)) v le =
      let dead = λ (i : ℕ). expired_at now (s.heap i) in
      let (zs, t, split) = snoc_cases y ys in
      let w = subst (λ l. IsNet laws s (x ∷ l)) split v in
      let (head, _) = w.ring.ring in
      let (nz, (ch, e), _) = w.ring.cells in
      let last : ch.prev ≡ t =
        sym (ap prev_field e) ∙ prev_head (next_of s) (prev_of s) s.head x zs t w.ring.ring in
      let enough : length (x ∷ zs) ≤ suc fuel =
        omega (arith, le, ap length split, length-append zs (t ∷ [])) in
      let (s', run, v', same, freed, told) =
        sweep_lem laws call tell quiet now dead (suc fuel) s [] x zs t w
          (self-Agrees now s (x ∷ zs)) enough in
      (
        s',
        started (suc fuel) now s x ch t head nz e last ∙ run,
        subst (λ l. IsNet laws s' (swept_but_last dead (x ∷ l))) (sym split) v',
        subst (λ l. AllFreed s' (gone_but_last dead (x ∷ l))) (sym split) freed,
        told
            ∙ ap (λ l. ended tell s.heap (gone_but_last dead (x ∷ l)) (s.closed, s.user))
                (sym split),
        λ i alive. same i (inl alive),
      )
