-- ===== src/Channel/Touch.antt =====
-- Operations on one channel: assignments to its fields, and its file events with the flags that go with them.
use evnet.Base.{
  ℕ, ◌≡◌, ◌≢◌, refl, sym, ap, ◌∙◌, Bool, true, false, Option, some, if◌then◌else◌, ==_refl,
  ==_false, ℕ_discrete, ◌>>=◌, arith, subst,
}
use evnet.Event.{Mask, CtlOp, without}
use evnet.Event.Table.{mask_at}
use evnet.Event.Watch.{EpollLaws, IsValid}
use evnet.Event.Unwatch.{delete_file_event-IsValid}
use evnet.Channel.{
  Channel, Net, load, store, disable, disable_read, disable_write, ae_readable, ae_writable,
}
use evnet.Channel.Links.{next_of, prev_of, next_field, prev_field, Cell}
use evnet.Channel.Valid.{fd_field, flags_field, fd_of, Mirrors, Touches, Touches-trans}

without_readable :
    (m : Mask) → without m ae_readable ≡ record { readable = false; writable = m.writable }
without_readable m = ground arith

without_writable :
    (m : Mask) → without m ae_writable ≡ record { readable = m.readable; writable = false }
without_writable m = ground arith

module _ {ℓ κ} {K : Type ℓ} {U : Type κ} {epoll_ctl : K → CtlOp → ℕ → Mask → Option K}
    {interest : K → ℕ → Mask} (laws : EpollLaws epoll_ctl interest) where
  -- The two states have the same channels and the same head.
  pub record SameHeap (s t : Net K U) : Type (ℓ ⊔ κ) where
    pub heap : (i : ℕ) → t.heap i ≡ s.heap i
    pub head : t.head ≡ s.head

  pub store-Touches :
      (s t : Net K U) (c : ℕ) (ch ch' : Channel)
      → load s c ≡ some ch
      → SameHeap s t
      → ch'.next ≡ ch.next
      → ch'.prev ≡ ch.prev
      → ch'.fd ≡ ch.fd
      → IsValid laws t.loop
      → ((i : ℕ) → ch.fd ≢ i → mask_at t.loop.events i ≡ mask_at s.loop.events i)
      → mask_at t.loop.events ch.fd ≡ flags_field (some ch')
      → Touches laws s c (store t c (some ch'))
  store-Touches s t c ch ch' e h en ep ef v m mirror =
      let here : (store t c (some ch')).heap c ≡ some ch' =
        ap (λ b. if b then some ch' else t.heap c) (==_refl c c refl) in
      let away = λ (i : ℕ) (n : c ≢ i).
        ap (λ b. if b then some ch' else t.heap i) (==_false i c (λ q. n (sym q))) ∙ h.heap i in
      let fd : fd_of s c ≡ ch.fd = ap fd_field e in
      let fd' : fd_of (store t c (some ch')) c ≡ ch'.fd = ap fd_field here in
      record {
        next = λ i. elim (ℕ_discrete c i) [
          | yes q ↦
              subst (λ i. next_of (store t c (some ch')) i ≡ next_of s i) q
                (ap next_field here ∙ en ∙ sym (ap next_field e))
          | no n ↦ ap next_field (away i n)
        ];
        prev = λ i. elim (ℕ_discrete c i) [
          | yes q ↦
              subst (λ i. prev_of (store t c (some ch')) i ≡ prev_of s i) q
                (ap prev_field here ∙ ep ∙ sym (ap prev_field e))
          | no n ↦ ap prev_field (away i n)
        ];
        head = h.head;
        others = away;
        cell = (ch', here);
        fd = fd' ∙ ef ∙ sym fd;
        loop = v;
        masks = λ i n. m i (λ q. n (fd ∙ q));
        mirror = ap (mask_at t.loop.events) (fd' ∙ ef) ∙ mirror ∙ sym (ap flags_field here);
      }

  pub Touches-refl :
      (s : Net K U) (c : ℕ) → IsValid laws s.loop → Cell s c → Mirrors s c → Touches laws s c s
  Touches-refl s c v cell mirror = record {
    next = λ i. refl;
    prev = λ i. refl;
    head = refl;
    others = λ i n. refl;
    cell = cell;
    fd = refl;
    loop = v;
    masks = λ i n. refl;
    mirror = mirror;
  }

  -- What one operation on the channel `c` leaves: its cell, and all that does not belong to it.
  pub record Leaves (s : Net K U) (c : ℕ) (ch : Channel) (s' : Net K U) : Type (ℓ ⊔ κ) where
    pub touches : Touches laws s c s'
    pub cell : load s' c ≡ some ch
    pub closed : s'.closed ≡ s.closed
    pub written : s'.written ≡ s.written
    pub user : s'.user ≡ s.user

  pub Leaves-trans :
      (a b d : Net K U) (c : ℕ) (ch ch' : Channel)
      → Leaves a c ch b
      → Leaves b c ch' d
      → Leaves a c ch' d
  Leaves-trans a b d c ch ch' p q = record {
    touches = Touches-trans laws a b d c p.touches q.touches;
    cell = q.cell;
    closed = q.closed ∙ p.closed;
    written = q.written ∙ p.written;
    user = q.user ∙ p.user;
  }

  module _ (s : Net K U) (c : ℕ) (ch : Channel) (e : load s c ≡ some ch) (v : IsValid laws s.loop)
      (mirror : Mirrors s c) where
    pub flags_lem : mask_at s.loop.events ch.fd ≡ flags_field (some ch)
    flags_lem = sym (ap (mask_at s.loop.events) (ap fd_field e)) ∙ mirror ∙ ap flags_field e

    -- Nothing but the cell, with fields that are not links, descriptor or flags.
    pub assign-Leaves :
        (t : Net K U) (ch' : Channel)
        → SameHeap s t
        → t.loop ≡ s.loop
        → ch'.next ≡ ch.next
        → ch'.prev ≡ ch.prev
        → ch'.fd ≡ ch.fd
        → flags_field (some ch') ≡ flags_field (some ch)
        → Touches laws s c (store t c (some ch'))
    assign-Leaves t ch' h el en ep ef eflags =
        store-Touches s t c ch ch' e h en ep ef (subst (IsValid laws) (sym el) v)
          (λ i n. ap (λ l. mask_at l.events i) el)
          (ap (λ l. mask_at l.events ch.fd) el ∙ flags_lem ∙ sym eflags)

    disable-Leaves :
        (b : Bool) (mask : Mask) (ch' : Channel)
        → ch'.next ≡ ch.next
        → ch'.prev ≡ ch.prev
        → ch'.fd ≡ ch.fd
        → flags_field (some ch') ≡ without (flags_field (some ch)) mask
        → (b ≡ false → ch' ≡ ch)
        → (s' : Net K U) × (disable epoll_ctl b mask ch' c s ≡ some s') × Leaves s c ch' s'
    unfolding disable
    disable-Leaves false mask ch' en ep ef eflags same = (
      s,
      refl,
      record {
        touches = Touches-refl s c v (ch, e) mirror;
        cell = e ∙ ap some (sym (same refl));
        closed = refl;
        written = refl;
        user = refl;
      },
    )
    disable-Leaves true mask ch' en ep ef eflags same =
        let (l, run, vl, d) = delete_file_event-IsValid laws s.loop ch'.fd mask v in
        let t : Net K U = record s { loop = l } in
        (
          store t c (some ch'),
          ap (λ o. o >>= λ l. some (store (record s { loop = l }) c (some ch'))) run,
          record {
            touches =
                store-Touches s t c ch ch' e (record { heap = λ i. refl; head = refl }) en ep ef vl
                  (λ i n. d.others i (λ q. n (sym ef ∙ q)))
                  (ap (mask_at l.events) (sym ef)
                    ∙ d.here
                    ∙ ap (λ m. without m mask) (ap (mask_at s.loop.events) ef ∙ flags_lem)
                    ∙ sym eflags);
            cell = ap (λ b. if b then some ch' else s.heap c) (==_refl c c refl);
            closed = refl;
            written = refl;
            user = refl;
          },
        )

    pub disable_read-Leaves :
        (s' : Net K U) × (disable_read epoll_ctl c s ≡ some s')
        × Leaves s c (record ch { recv_enabled = false }) s'
    unfolding disable_read
    disable_read-Leaves =
        let (s', run, l) =
          disable-Leaves ch.recv_enabled ae_readable (record ch { recv_enabled = false }) refl refl
            refl (sym (without_readable (flags_field (some ch))))
            (λ off. ap (λ b. record ch { recv_enabled = b }) (sym off)) in
        (
          s',
          ap
                (λ o. o >>= λ ch.
                  disable epoll_ctl ch.recv_enabled ae_readable (record ch { recv_enabled = false })
                    c s)
                e
              ∙ run,
          l,
        )

    pub disable_write-Leaves :
        (s' : Net K U) × (disable_write epoll_ctl c s ≡ some s')
        × Leaves s c (record ch { send_enabled = false }) s'
    unfolding disable_write
    disable_write-Leaves =
        let (s', run, l) =
          disable-Leaves ch.send_enabled ae_writable (record ch { send_enabled = false }) refl refl
            refl (sym (without_writable (flags_field (some ch))))
            (λ off. ap (λ b. record ch { send_enabled = b }) (sym off)) in
        (
          s',
          ap
                (λ o. o >>= λ ch.
                  disable epoll_ctl ch.send_enabled ae_writable (record ch { send_enabled = false })
                    c s)
                e
              ∙ run,
          l,
        )
