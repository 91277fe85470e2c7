-- ===== src/Event/Process.antt =====
-- aeProcessEvents, with procedures that may watch and unwatch any descriptors while events are handed out.
use evnet.Base.{
  ℕ, suc, ◌≤◌, ◌<◌, ◌≡◌, refl, sym, ap, ◌∙◌, Bool, true, false, ◌&&◌, ◌||◌, not, Option, some, List,
  [], ◌∷◌, length, map, arith, if◌then◌else◌, Bool-cases, inl, inr, ◌⊎◌, ◌==◌, le→ltb, dec_lt,
  some_inj, ◌*◌, ◌/◌, subst,
}
use evnet.Event.{
  Mask, is_none, FileEvent, FiredEvent, EpollEvent, fired_of, EventLoop, Running, CtlOp,
  create_file_event, delete_file_event, api_poll, fire_readable, fire_writable, fire, fire_all,
  process_events,
}
use evnet.Event.Table.{get_elem?_lem, mask_at_outside, highest}
use evnet.Event.Watch.{EpollLaws, IsValid, Changes, create_file_event-IsValid}
use evnet.Event.Unwatch.{delete_file_event-IsValid}

-- Calls of aeCreateFileEvent, with masks that are not AE_NONE, and of aeDeleteFileEvent, in any order.
pub data Steps {ℓ} {K : Type ℓ} (epoll_ctl : K → CtlOp → ℕ → Mask → Option K)
    : EventLoop K → EventLoop K → Type ℓ where
  stay : {l : EventLoop K} → Steps epoll_ctl l l
  creates :
      {l l' l2 : EventLoop K} (fd : ℕ) (mask : Mask) (proc data_ : ℕ) (ok : Bool)
      → is_none mask ≡ false
      → create_file_event epoll_ctl l fd mask proc data_ ≡ some (l', ok)
      → Steps epoll_ctl l' l2
      → Steps epoll_ctl l l2
  deletes :
      {l l' l2 : EventLoop K} (fd : ℕ) (mask : Mask)
      → delete_file_event epoll_ctl l fd mask ≡ some l'
      → Steps epoll_ctl l' l2
      → Steps epoll_ctl l l2

module _ {ℓ} {K : Type ℓ} {epoll_ctl : K → CtlOp → ℕ → Mask → Option K} {interest : K → ℕ → Mask}
    (laws : EpollLaws epoll_ctl interest) where
  Steps-trans :
      {a b c : EventLoop K} → Steps epoll_ctl a b → Steps epoll_ctl b c → Steps epoll_ctl a c
  Steps-trans stay t = t
  Steps-trans (creates fd mask proc data_ ok m e s) t =
      creates fd mask proc data_ ok m e (Steps-trans s t)
  Steps-trans (deletes fd mask e s) t = deletes fd mask e (Steps-trans s t)

  created-size :
      {l l' : EventLoop K} {fd : ℕ} {m : Mask} {ok : Bool}
      → (((ok ≡ false) × (l' ≡ l)) ⊎ ((ok ≡ true) × (fd < l.set_size) × Changes laws l fd m l'))
      → l'.set_size ≡ l.set_size
  created-size (inl (_, same)) = ap EventLoop.set_size same
  created-size (inr (_, _, c)) = c.size

  -- Whatever calls of aeCreateFileEvent and aeDeleteFileEvent are made, with whatever results, a valid
  -- loop stays valid and keeps the size of its set.
  pub Steps-IsValid :
      {l l2 : EventLoop K}
      → IsValid laws l
      → Steps epoll_ctl l l2
      → IsValid laws l2 × (l2.set_size ≡ l.set_size)
  Steps-IsValid v stay = (v, refl)
  Steps-IsValid {l} v (creates fd mask proc data_ ok m e s) =
      let (l1, ok1, e1, v1, c) = create_file_event-IsValid laws l fd mask proc data_ v m in
      let same = ap (λ r. r.0) (some_inj (sym e1 ∙ e)) in
      let (v2, size) = Steps-IsValid (subst (IsValid laws) same v1) s in
      (v2, size ∙ ap EventLoop.set_size (sym same) ∙ created-size c)
  Steps-IsValid {l} v (deletes fd mask e s) =
      let (l1, e1, v1, c) = delete_file_event-IsValid laws l fd mask v in
      let same = some_inj (sym e1 ∙ e) in
      let (v2, size) = Steps-IsValid (subst (IsValid laws) same v1) s in
      (v2, size ∙ ap EventLoop.set_size (sym same) ∙ c.size)

length-fired : (es : List EpollEvent) → length (map fired_of es) ≡ length es
length-fired [] = refl
length-fired (e ∷ es) = ap suc (length-fired es)

-- Each descriptor of a list of events is watched.
abbrev pub AllWatched : (ℕ → Mask) → List EpollEvent → Type 0
AllWatched watch [] = Unit {0}
AllWatched watch (e ∷ es) = (is_none (watch e.fd) ≡ false) × AllWatched watch es

-- Each descriptor of a list of events is below a bound.
abbrev AllBelow : ℕ → List FiredEvent → Type 0
AllBelow n [] = Unit {0}
AllBelow n (f ∷ fs) = (f.fd < n) × AllBelow n fs

-- What the manual of epoll_wait promises: no more events than there is room for, each for a descriptor on
-- the interest list.
pub record WaitLaws {ℓ} {K : Type ℓ} (epoll_wait : K → ℕ → ℕ → List EpollEvent)
    (interest : K → ℕ → Mask) : Type ℓ where
  pub fits : (k : K) (n timeout : ℕ) → length (epoll_wait k n timeout) ≤ n
  pub watched : (k : K) (n timeout : ℕ) → AllWatched (interest k) (epoll_wait k n timeout)

module _ {ℓ κ} {K : Type ℓ} {U : Type κ} {epoll_ctl : K → CtlOp → ℕ → Mask → Option K}
    {interest : K → ℕ → Mask} {epoll_wait : K → ℕ → ℕ → List EpollEvent}
    (laws : EpollLaws epoll_ctl interest) (waits : WaitLaws epoll_wait interest)
    (proc : ℕ → ℕ → ℕ → Mask → Running K U → Running K U)
    (moves : (p fd d : ℕ) (m : Mask) (s : Running K U)
      → Steps epoll_ctl s.0 (proc p fd d m s).0) where
  below_of_watched :
      (loop : EventLoop K) (es : List EpollEvent)
      → IsValid laws loop
      → AllWatched (interest loop.api) es
      → AllBelow loop.set_size (map fired_of es)
  below_of_watched loop [] v w = tt
  below_of_watched loop (e ∷ es) v (w, ws) = elim (dec_lt e.fd loop.set_size) [
    | yes h ↦ (h, below_of_watched loop es v ws)
    | no out ↦
        let free = mask_at_outside loop.events e.fd (omega (arith, v.sized)) in
        absurd (ground (arith, sym w ∙ ap is_none (v.watched e.fd ∙ free)))
  ]

  fire_readable-Steps :
      (f : FiredEvent) (fe : FileEvent) (s : Running K U)
      → Steps epoll_ctl s.0 (fire_readable epoll_wait proc f fe s).0.0
  unfolding fire_readable
  fire_readable-Steps f fe s = elim (Bool-cases (fe.mask.readable && f.mask.readable)) [
    | inl e ↦ rw e (moves fe.rfile_proc f.fd fe.client_data f.mask s)
    | inr e ↦ rw e stay
  ]

  fire_writable-Steps :
      (f : FiredEvent) (fe : FileEvent) (r : Running K U × Bool)
      → Steps epoll_ctl r.0.0 (fire_writable epoll_wait proc f fe r).0
  unfolding fire_writable
  fire_writable-Steps f fe (s, rfired) =
      elim (Bool-cases (
        (fe.mask.writable && f.mask.writable)
        && (not rfired || not (fe.wfile_proc == fe.rfile_proc)))) [
          | inl e ↦ rw e (moves fe.wfile_proc f.fd fe.client_data f.mask s)
          | inr e ↦ rw e stay
        ]

  fire-Steps :
      (f : FiredEvent) (s : Running K U)
      → IsValid laws s.0
      → f.fd < s.0.set_size
      → (s' : Running K U) × (fire epoll_wait proc f s ≡ some s') × Steps epoll_ctl s.0 s'.0
  unfolding fire
  fire-Steps f s v h =
      let (fe, at) = get_elem?_lem s.0.events f.fd (omega (arith, v.sized)) in
      let r = fire_readable epoll_wait proc f fe s in
      let first = fire_readable-Steps f fe s in
      let (v1, size) = Steps-IsValid laws v first in
      let (fe', at') = get_elem?_lem r.0.0.events f.fd (omega (arith, v1.sized, size, h)) in
      (
        fire_writable epoll_wait proc f fe' r,
        rw (at, at') refl,
        Steps-trans laws first (fire_writable-Steps f fe' r),
      )

  fire_all-Steps :
      (fs : List FiredEvent) (s : Running K U)
      → IsValid laws s.0
      → AllBelow s.0.set_size fs
      → (s' : Running K U) × (fire_all epoll_wait proc fs s ≡ some s') × Steps epoll_ctl s.0 s'.0
  unfolding fire_all
  fire_all-Steps [] s v b = (s, refl, stay)
  fire_all-Steps (f ∷ fs) s v (h, b) =
      let (s1, e1, t1) = fire-Steps f s v h in
      let (v1, size) = Steps-IsValid laws v t1 in
      let (s2, e2, t2) = fire_all-Steps fs s1 v1 (subst (λ n. AllBelow n fs) (sym size) b) in
      (s2, rw e1 e2, Steps-trans laws t1 t2)

  -- aeProcessEvents on a valid loop, if epoll_wait keeps its promise and the procedures change the loop only
  -- by calls of aeCreateFileEvent and aeDeleteFileEvent: no access is outside the two arrays, though
  -- procedures watch and unwatch descriptors while events are handed out; what it leaves is reached by such
  -- calls and valid; and it returns the number of events that epoll_wait gave, or 0, with no call and
  -- no change, if no descriptor is watched.
  pub process_events-IsValid :
      (s : Running K U)
      → IsValid laws s.0
      → (n : ℕ) × (s' : Running K U) × (process_events epoll_wait proc s ≡ some (n, s'))
        × Steps epoll_ctl s.0 s'.0
        × IsValid laws s'.0
        × (n ≡ (
            if highest s.0.events == 0
            then 0
            else length (epoll_wait s.0.api s.0.set_size (s.0.cycle * 1000 / 1000))))
  unfolding process_events api_poll
  process_events-IsValid (loop, u) v =
      let ready = epoll_wait loop.api loop.set_size (loop.cycle * 1000 / 1000) in
      let fits =
        le→ltb loop.set_size (length ready)
          (waits.fits loop.api loop.set_size (loop.cycle * 1000 / 1000)) in
      elim (Bool-cases (loop.top == 0)) [
        | inl idle ↦ (0, (loop, u), rw idle refl, stay, v, rw (← v.top, idle) refl)
        | inr busy ↦
            let below =
              below_of_watched loop ready v
                (waits.watched loop.api loop.set_size (loop.cycle * 1000 / 1000)) in
            let (s', e, t) = fire_all-Steps (map fired_of ready) (loop, u) v below in
            (
              length (map fired_of ready),
              s',
              rw (busy, fits, e) refl,
              t,
              (Steps-IsValid laws v t).0,
              rw (← v.top, busy) (length-fired ready),
            )
      ]
