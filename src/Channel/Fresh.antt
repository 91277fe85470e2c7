-- ===== src/Channel/Fresh.antt =====
-- channel_create and the state of all channels.
use evnet.Base.{ℕ, ◌≡◌, ◌≢◌, sym, ap, ◌∙◌, subst, ◌<◌, length, Bool, List, [], ◌∷◌, Option, some}
use evnet.Event.{Mask, ae_none, CtlOp}
use evnet.Event.Table.{mask_at}
use evnet.Event.Watch.{EpollLaws, IsValid}
use evnet.Channel.{Net, blank, channel_create, ip_str_size}
use evnet.Channel.Ring.{AllNe}
use evnet.Channel.Links.{bare}
use evnet.Channel.Valid.{
  fd_field, flags_field, fd_of, flags_of, OtherFds, DistinctFds, AllMirror, IsNet,
}
use evnet.Channel.Create.{channel_create-IsRing}
use evnet.Channel.Detach.{bare-fd, bare-flags, fd_bare, flags_bare}

module _ {ℓ κ} {K : Type ℓ} {U : Type κ} where
  module _ (s s' : Net K U) (new : ℕ)
      (same : (i : ℕ) → new ≢ i → bare (s'.heap i) ≡ bare (s.heap i)) where
    kept-OtherFds : (fd : ℕ) (xs : List ℕ) → AllNe new xs → OtherFds s fd xs → OtherFds s' fd xs
    kept-OtherFds fd [] n fs = tt
    kept-OtherFds fd (x ∷ xs) (n, ns) (f, fs) =
        ((λ e. f (e ∙ bare-fd s s' x (same x n))), kept-OtherFds fd xs ns fs)

    kept-DistinctFds : (xs : List ℕ) → AllNe new xs → DistinctFds s xs → DistinctFds s' xs
    kept-DistinctFds [] n fs = tt
    kept-DistinctFds (x ∷ xs) (n, ns) (f, fs) = (
      subst (λ fd. OtherFds s' fd xs) (sym (bare-fd s s' x (same x n)))
          (kept-OtherFds (fd_of s x) xs ns f),
      kept-DistinctFds xs ns fs,
    )

    kept-AllMirror :
        (xs : List ℕ) → s'.loop ≡ s.loop → AllNe new xs → AllMirror s xs → AllMirror s' xs
    kept-AllMirror [] loop n a = tt
    kept-AllMirror (x ∷ xs) loop (n, ns) (a, rest) = (
      ap (mask_at s'.loop.events) (bare-fd s s' x (same x n))
          ∙ ap (λ l. mask_at l.events (fd_of s x)) loop
          ∙ a
          ∙ sym (bare-flags s s' x (same x n)),
      kept-AllMirror xs loop ns rest,
    )

  module _ {epoll_ctl : K → CtlOp → ℕ → Mask → Option K} {interest : K → ℕ → Mask}
      (laws : EpollLaws epoll_ctl interest) where
    -- channel_create, with memory at a new address, an address text that fits and a descriptor that no channel has
    -- and that is not watched, keeps the state of all channels valid, with the new channel in front; the other
    -- channels are, but for their links, as they were, and nothing is closed.
    pub channel_create-IsNet :
        (s : Net K U) (xs : List ℕ) (new fd : ℕ) (ip_str : List ℕ) (port : ℕ) (upstream : Bool)
        → IsNet laws s xs
        → new ≢ 0
        → AllNe new xs
        → length ip_str < ip_str_size
        → OtherFds s fd xs
        → mask_at s.loop.events fd ≡ ae_none
        → (s' : Net K U) × (channel_create new fd ip_str port upstream s ≡ some (new, s'))
          × IsNet laws s' (new ∷ xs)
          × (bare (s'.heap new) ≡ some (blank fd ip_str port upstream))
          × ((i : ℕ) → new ≢ i → bare (s'.heap i) ≡ bare (s.heap i))
          × (s'.loop ≡ s.loop)
          × (s'.closed ≡ s.closed)
          × (s'.user ≡ s.user)
    channel_create-IsNet s xs new fd ip_str port upstream v nz fresh fits others unwatched =
        let (s', run, ring, made, same, loop, closed, user) =
          channel_create-IsRing s xs new fd ip_str port upstream v.ring nz fresh fits in
        let its_fd : fd_of s' new ≡ fd = sym (fd_bare (s'.heap new)) ∙ ap fd_field made in
        let its_flags : flags_of s' new ≡ ae_none =
          sym (flags_bare (s'.heap new)) ∙ ap flags_field made in
        (
          s',
          run,
          record {
            ring = ring;
            loop = subst (IsValid laws) (sym loop) v.loop;
            mirror = (
              ap (mask_at s'.loop.events) its_fd
                  ∙ ap (λ l. mask_at l.events fd) loop
                  ∙ unwatched
                  ∙ sym its_flags,
              kept-AllMirror s s' new same xs loop fresh v.mirror,
            );
            fds = (
              subst (λ f. OtherFds s' f xs) (sym its_fd)
                  (kept-OtherFds s s' new same fd xs fresh others),
              kept-DistinctFds s s' new same xs fresh v.fds,
            );
          },
          made,
          same,
          loop,
          closed,
          user,
        )
