-- ===== src/Event/Watch.antt =====
-- aeCreateFileEvent and aeDeleteFileEvent: the array, `maxfd` and the interest list of the kernel agree.
use evnet.Base.{
  ℕ, suc, max, ◌≤◌, ◌<◌, ◌≡◌, ◌≢◌, refl, sym, ap, ◌∙◌, subst, Bool, true, false, Option, some, List,
  length, arith, if◌then◌else◌, inl, inr, ◌⊎◌, ltb, le→leb, gt→leb, Option-cases, dec_lt,
  ℕ_discrete,
}
use evnet.Event.{
  Mask, ae_none, is_none, merge, FileEvent, EventLoop, CtlOp, ctl_add, ctl_mod, ctl_del, get_elem?,
  set, register, api_add_event, created, create_file_event, create_event_loop,
}
use evnet.Event.Table.{
  length-set, get_elem?_lem, mask_at, mask_at-cleared, length-cleared, mask_at-get_elem?,
  mask_at-set_same, mask_at-set_other, highest, highest-set_watched, highest-cleared,
}

merge_watched : (m n : Mask) → is_none n ≡ false → is_none (merge m n) ≡ false
merge_watched m n h = ground (arith, h)

-- What a successful epoll_ctl leaves for its descriptor.
abbrev pub listed : CtlOp → Mask → Mask
listed ctl_add m = m
listed ctl_mod m = m
listed ctl_del m = ae_none

-- What the manual of epoll_ctl promises, with `interest` the events that the kernel watches a descriptor
-- for. An addition can fail for want of memory or for a file that cannot be watched. A change or a removal
-- of a descriptor that is open and listed succeeds.
pub record EpollLaws {ℓ} {K : Type ℓ} (epoll_ctl : K → CtlOp → ℕ → Mask → Option K)
    (interest : K → ℕ → Mask) : Type ℓ where
  pub stored :
      (k k' : K) (op : CtlOp) (fd : ℕ) (m : Mask)
      → epoll_ctl k op fd m ≡ some k'
      → interest k' fd ≡ listed op m
  pub others :
      (k k' : K) (op : CtlOp) (fd i : ℕ) (m : Mask)
      → epoll_ctl k op fd m ≡ some k'
      → fd ≢ i
      → interest k' i ≡ interest k i
  pub listed_succeeds :
      (k : K) (fd : ℕ) (m : Mask) (removal : Bool)
      → is_none (interest k fd) ≡ false
      → (k' : K) × (epoll_ctl k (if removal then ctl_del else ctl_mod) fd m ≡ some k')

listed_kept : (new : Bool) (m : Mask) → listed (if new then ctl_add else ctl_mod) m ≡ m
listed_kept true m = refl
listed_kept false m = refl

raised : (fd top : ℕ) → (if ltb fd top then top else suc fd) ≡ max top (suc fd)
raised fd top = ground arith

module _ {ℓ} {K : Type ℓ} {epoll_ctl : K → CtlOp → ℕ → Mask → Option K} {interest : K → ℕ → Mask}
    (laws : EpollLaws epoll_ctl interest) where
  -- The array has its size, `maxfd` is the highest descriptor that is watched, and the kernel watches each
  -- descriptor for what the array says.
  pub record IsValid (loop : EventLoop K) : Type ℓ where
    pub sized : length loop.events ≡ loop.set_size
    pub top : loop.top ≡ highest loop.events
    pub watched : (fd : ℕ) → interest loop.api fd ≡ mask_at loop.events fd

  -- The mask of one descriptor is now `m`, and all others are as they were.
  pub record Changes (loop : EventLoop K) (fd : ℕ) (m : Mask) (loop' : EventLoop K) : Type ℓ where
    pub here : mask_at loop'.events fd ≡ m
    pub others : (i : ℕ) → fd ≢ i → mask_at loop'.events i ≡ mask_at loop.events i
    pub size : loop'.set_size ≡ loop.set_size

  -- An entry and the kernel change together.
  pub watched_after :
      (loop : EventLoop K) (fd : ℕ) (e : FileEvent) (api : K)
      → IsValid loop
      → fd < loop.set_size
      → interest api fd ≡ e.mask
      → ((i : ℕ) → fd ≢ i → interest api i ≡ interest loop.api i)
      → (i : ℕ) → interest api i ≡ mask_at (set loop.events fd e) i
  watched_after loop fd e api v h same rest i = elim (ℕ_discrete fd i) [
    | yes p ↦
        subst (λ j. interest api j ≡ mask_at (set loop.events fd e) j) p
          (same ∙ sym (mask_at-set_same loop.events fd e (omega (arith, v.sized, h))))
    | no n ↦ rest i n ∙ v.watched i ∙ sym (mask_at-set_other loop.events fd i e n)
  ]

  pub set-Changes :
      (loop loop' : EventLoop K) (fd : ℕ) (e : FileEvent) (m : Mask)
      → IsValid loop
      → fd < loop.set_size
      → e.mask ≡ m
      → loop'.events ≡ set loop.events fd e
      → loop'.set_size ≡ loop.set_size
      → Changes loop fd m loop'
  set-Changes loop loop' fd e m v h same es size = record {
    here =
        ap (λ es. mask_at es fd) es
        ∙ mask_at-set_same loop.events fd e (omega (arith, v.sized, h))
        ∙ same;
    others = λ i n. ap (λ es. mask_at es i) es ∙ mask_at-set_other loop.events fd i e n;
    size = size;
  }

  created-IsValid :
      (loop : EventLoop K) (fd : ℕ) (e : FileEvent) (mask : Mask) (proc data_ : ℕ) (api : K)
      → IsValid loop
      → fd < loop.set_size
      → get_elem? loop.events fd ≡ some e
      → is_none mask ≡ false
      → api_add_event epoll_ctl loop.api fd e.mask mask ≡ some api
      → let loop' = (created epoll_ctl loop fd e mask proc data_ (some api)).0 in
        IsValid loop' × Changes loop fd (merge (mask_at loop.events fd) mask) loop'
  unfolding created api_add_event
  created-IsValid loop fd e mask proc data_ api v h at some_mask added =
      let old = mask_at-get_elem? loop.events fd at in
      let e' = register e mask proc data_ in
      let loop' = (created epoll_ctl loop fd e mask proc data_ (some api)).0 in
      let same : interest api fd ≡ e'.mask =
        laws.stored loop.api api _ fd (merge e.mask mask) added
        ∙ listed_kept (is_none e.mask) (merge e.mask mask) in
      (
        record {
          sized = length-set loop.events fd e' ∙ v.sized;
          top =
              raised fd loop.top
              ∙ ap (λ n. max n (suc fd)) v.top
              ∙ sym (
                  highest-set_watched loop.events fd e' (omega (arith, v.sized, h))
                    (merge_watched e.mask mask some_mask));
          watched =
              watched_after loop fd e' api v h same
                (λ i n. laws.others loop.api api _ fd i (merge e.mask mask) added n);
        },
        set-Changes loop loop' fd e' (merge (mask_at loop.events fd) mask) v h
            (ap (λ m. merge m mask) (sym old)) refl refl,
      )

  -- aeCreateFileEvent, for a mask that is not AE_NONE, on a valid loop: no access is outside the array; the
  -- loop stays valid; it returns -1 and changes nothing, or it returns 0, the descriptor is below the
  -- size of the set, and the mask is merged into what it is watched for, and all others are as they were.
  pub create_file_event-IsValid :
      (loop : EventLoop K) (fd : ℕ) (mask : Mask) (proc data_ : ℕ)
      → IsValid loop
      → is_none mask ≡ false
      → (loop' : EventLoop K) × (ok : Bool) × (create_file_event epoll_ctl loop fd mask proc data_
          ≡ some (loop', ok))
        × IsValid loop'
        × (((ok ≡ false) × (loop' ≡ loop))
            ⊎ ((ok ≡ true)
                × (fd < loop.set_size)
                × Changes loop fd (merge (mask_at loop.events fd) mask) loop'))
  unfolding create_file_event
  create_file_event-IsValid loop fd mask proc data_ v some_mask = elim (dec_lt fd loop.set_size) [
    | no out ↦
        let outside : loop.set_size ≤ fd = omega arith in
        (loop, false, rw (le→leb loop.set_size fd outside), v, inl (refl, refl))
    | yes h ↦
        let (e, at) = get_elem?_lem loop.events fd (omega (arith, v.sized, h)) in
        let inside = gt→leb loop.set_size fd h in
        elim (Option-cases (api_add_event epoll_ctl loop.api fd e.mask mask)) [
          | inl failed ↦ (loop, false, rw (inside, at, failed), v, inl (refl, refl))
          | inr (api, added) ↦
              let (v', c) = created-IsValid loop fd e mask proc data_ api v h at some_mask added in
              (
                (created epoll_ctl loop fd e mask proc data_ (some api)).0,
                true,
                rw (inside, at, added),
                v',
                inr (refl, h, c),
              )
        ]
  ]

  -- If epoll_create succeeds and the kernel's new interest list is empty, aeCreateEventLoop returns a valid
  -- loop in which no descriptor is watched, of the size that was asked for, whatever the memory held
  -- that malloc returned.
  pub create_event_loop-IsValid :
      (memory : List FileEvent) (cycle : ℕ) (api : K)
      → ((fd : ℕ) → interest api fd ≡ ae_none)
      → (loop : EventLoop K) × (create_event_loop (some api) memory cycle ≡ some loop)
        × IsValid loop
        × (loop.set_size ≡ length memory)
        × ((fd : ℕ) → mask_at loop.events fd ≡ ae_none)
  unfolding create_event_loop
  create_event_loop-IsValid memory cycle api empty = (
    _,
    refl,
    record {
      sized = length-cleared memory;
      top = sym (highest-cleared memory);
      watched = λ fd. empty fd ∙ sym (mask_at-cleared memory fd);
    },
    refl,
    mask_at-cleared memory,
  )
