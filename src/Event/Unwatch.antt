-- ===== src/Event/Unwatch.antt =====
-- aeDeleteFileEvent: the array, `maxfd` and the interest list of the kernel still agree.
use evnet.Base.{
  ℕ, suc, ◌≤◌, ◌<◌, ◌≡◌, refl, sym, ap, ◌∙◌, true, false, ◌&&◌, Option, some, arith, if◌then◌else◌,
  Bool-cases, inl, inr, ◌==◌, le→leb, gt→leb, dec_lt, ℕ_discrete, ==_refl, ==_false,
}
use evnet.Event.{
  Mask, ae_none, is_none, without, FileEvent, EventLoop, kept, CtlOp, ctl_mod, ctl_del, get_elem?,
  set, search, api_del_event, deleted, delete_file_event,
}
use evnet.Event.Table.{
  length-set, get_elem?_lem, mask_at, mask_at-get_elem?, highest, highest-set_watched,
  mask_at_outside, highest-set_below, highest-set_cleared, highest-watched, search-highest,
}
use evnet.Event.Watch.{EpollLaws, listed, IsValid, Changes, watched_after, set-Changes}

without_none : (m n : Mask) → is_none m ≡ true → without m n ≡ m
without_none m n h = ground (arith, h)

without_twice : (m n : Mask) → without (without m n) n ≡ without m n
without_twice m n = ground arith

is_none_lem : (m : Mask) → is_none m ≡ true → m ≡ ae_none
is_none_lem m h = ground (arith, h)

listed_left : (m : Mask) → listed (if is_none m then ctl_del else ctl_mod) m ≡ m
listed_left m = elim (Bool-cases (is_none m)) [
  | inl e ↦ ap (λ b. listed (if b then ctl_del else ctl_mod) m) e ∙ sym (is_none_lem m e)
  | inr e ↦ ap (λ b. listed (if b then ctl_del else ctl_mod) m) e
]

module _ {ℓ} {K : Type ℓ} {epoll_ctl : K → CtlOp → ℕ → Mask → Option K} {interest : K → ℕ → Mask}
    (laws : EpollLaws epoll_ctl interest) where
  unchanged :
      (loop : EventLoop K) (fd : ℕ) (mask : Mask)
      → is_none (mask_at loop.events fd) ≡ true
      → Changes laws loop fd (without (mask_at loop.events fd) mask) loop
  unchanged loop fd mask free = record {
    here = sym (without_none (mask_at loop.events fd) mask free);
    others = λ i n. refl;
    size = refl;
  }

  -- `maxfd` after the entry of a watched descriptor got the mask `left`.
  deleted_top :
      (loop : EventLoop K) (fd : ℕ) (e : FileEvent) (left : Mask)
      → IsValid laws loop
      → fd < loop.set_size
      → get_elem? loop.events fd ≡ some e
      → is_none e.mask ≡ false
      → let es = set loop.events fd (record e { mask = left }) in
        (if suc fd == loop.top && is_none left then search es fd else some loop.top)
        ≡ some (highest es)
  deleted_top loop fd e left v h at some_mask =
      let old = mask_at-get_elem? loop.events fd at in
      let e' = record e { mask = left } in
      let es = set loop.events fd e' in
      let up = highest-watched loop.events fd (ap is_none old ∙ some_mask) in
      elim (ℕ_discrete (suc fd) loop.top) [
        | yes at_top ↦ elim (Bool-cases (is_none left)) [
          | inl gone ↦
              let below : highest loop.events ≤ suc fd = omega (arith, at_top, v.top) in
              rw (==_refl (suc fd) loop.top at_top, gone)
                (search-highest es fd (highest-set_cleared loop.events fd e' below gone)
                  (omega (arith, h, v.sized, length-set loop.events fd e')))
          | inr stays ↦
              let same : loop.top ≡ highest es = omega (
                arith,
                highest-set_watched loop.events fd e' (omega (arith, v.sized, h)) stays,
                v.top,
                at_top,
              ) in
              rw (==_refl (suc fd) loop.top at_top, stays) (ap some same)
        ]
        | no n ↦
            let below : suc fd < highest loop.events = omega (arith, up, v.top) in
            rw (==_false (suc fd) loop.top n)
              (ap some (v.top ∙ sym (highest-set_below loop.events fd e' below)))
      ]

  api_del_event-listed :
      (api : K) (fd : ℕ) (m mask : Mask)
      → is_none (interest api fd) ≡ false
      → let left = without m mask in
        (api' : K) × (epoll_ctl api (if is_none left then ctl_del else ctl_mod) fd left ≡ some api')
        × (api_del_event epoll_ctl api fd left mask ≡ api')
  unfolding api_del_event
  api_del_event-listed api fd m mask seen =
      let left = without m mask in
      let (api', done) = laws.listed_succeeds api fd left (is_none left) seen in
      (
        api',
        done,
        ap (λ l. kept api (epoll_ctl api (if is_none l then ctl_del else ctl_mod) fd l))
              (without_twice m mask)
            ∙ ap (kept api) done,
      )

  deleted-IsValid :
      (loop : EventLoop K) (fd : ℕ) (e : FileEvent) (mask : Mask)
      → IsValid laws loop
      → fd < loop.set_size
      → get_elem? loop.events fd ≡ some e
      → is_none e.mask ≡ false
      → (loop' : EventLoop K) × (deleted epoll_ctl loop fd e mask ≡ some loop')
        × IsValid laws loop'
        × Changes laws loop fd (without (mask_at loop.events fd) mask) loop'
  unfolding deleted
  deleted-IsValid loop fd e mask v h at some_mask =
      let old = mask_at-get_elem? loop.events fd at in
      let left = without e.mask mask in
      let e' = record e { mask = left } in
      let es = set loop.events fd e' in
      let seen : is_none (interest loop.api fd) ≡ false =
        ap is_none (v.watched fd ∙ old) ∙ some_mask in
      let (api, done, kept_lem) = api_del_event-listed loop.api fd e.mask mask seen in
      let loop' : EventLoop K = record loop { events = es; top = highest es; api = api } in
      let same : interest api fd ≡ left =
        laws.stored loop.api api _ fd left done ∙ listed_left left in
      (
        loop',
        rw (deleted_top loop fd e left v h at some_mask, kept_lem) refl,
        record {
          sized = length-set loop.events fd e' ∙ v.sized;
          top = refl;
          watched =
              watched_after laws loop fd e' api v h same
                (λ i n. laws.others loop.api api _ fd i left done n);
        },
        set-Changes laws loop loop' fd e' _ v h (ap (λ m. without m mask) (sym old)) refl refl,
      )

  -- aeDeleteFileEvent on a valid loop: no access is outside the array; the loop stays valid; the mask is taken
  -- out of what the descriptor is watched for, and all others are as they were. A descriptor that is
  -- not watched, or outside the set, is no exception.
  pub delete_file_event-IsValid :
      (loop : EventLoop K) (fd : ℕ) (mask : Mask)
      → IsValid laws loop
      → (loop' : EventLoop K) × (delete_file_event epoll_ctl loop fd mask ≡ some loop')
        × IsValid laws loop'
        × Changes laws loop fd (without (mask_at loop.events fd) mask) loop'
  unfolding delete_file_event
  delete_file_event-IsValid loop fd mask v = elim (dec_lt fd loop.set_size) [
    | no out ↦
        let outside : loop.set_size ≤ fd = omega arith in
        let free = mask_at_outside loop.events fd (omega (arith, v.sized)) in
        (loop, rw (le→leb loop.set_size fd outside), v, unchanged loop fd mask (ap is_none free))
    | yes h ↦
        let (e, at) = get_elem?_lem loop.events fd (omega (arith, v.sized, h)) in
        let old = mask_at-get_elem? loop.events fd at in
        let inside = gt→leb loop.set_size fd h in
        elim (Bool-cases (is_none e.mask)) [
          | inl free ↦
              (loop, rw (inside, at, free), v, unchanged loop fd mask (ap is_none old ∙ free))
          | inr some_mask ↦
              let (loop', run, v', c) = deleted-IsValid loop fd e mask v h at some_mask in
              (loop', rw (inside, at, some_mask) run, v', c)
        ]
  ]
