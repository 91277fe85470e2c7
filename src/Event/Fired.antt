-- ===== src/Event/Fired.antt =====
-- Events that a procedure has taken back before aeProcessEvents comes to them.
use evnet.Base.{
  ℕ, ◌<◌, ◌≡◌, refl, sym, ap, ◌∙◌, true, false, ◌&&◌, Option, some, List, arith, some_inj, subst,
}
use evnet.Event.{
  Mask, is_none, without, FiredEvent, EpollEvent, EventLoop, Running, CtlOp, delete_file_event,
  fire_readable, fire_writable, fire,
}
use evnet.Event.Table.{get_elem?_lem, mask_at, mask_at-get_elem?}
use evnet.Event.Watch.{EpollLaws, IsValid}
use evnet.Event.Unwatch.{delete_file_event-IsValid}

-- AE_READABLE|AE_WRITABLE
abbrev pub both : Mask
both = record { readable = true; writable = true }

-- The conditions of which an event tells that are still asked for.
abbrev pub asked : Mask → Mask → Mask
asked m n = record { readable = m.readable && n.readable; writable = m.writable && n.writable }

module _ {ℓ κ} {K : Type ℓ} {U : Type κ} {epoll_ctl : K → CtlOp → ℕ → Mask → Option K}
    {interest : K → ℕ → Mask} (laws : EpollLaws epoll_ctl interest)
    (epoll_wait : K → ℕ → ℕ → List EpollEvent)
    (proc : ℕ → ℕ → ℕ → Mask → Running K U → Running K U) where
  fire_quiet :
      (f : FiredEvent) (s : Running K U)
      → IsValid laws s.0
      → f.fd < s.0.set_size
      → is_none (asked (mask_at s.0.events f.fd) f.mask) ≡ true
      → fire epoll_wait proc f s ≡ some s
  unfolding fire fire_readable fire_writable
  fire_quiet f s v h quiet =
      let (e, at) = get_elem?_lem s.0.events f.fd (omega (arith, v.sized)) in
      let old = mask_at-get_elem? s.0.events f.fd at in
      let still : is_none (asked e.mask f.mask) ≡ true =
        ap (λ m. is_none (asked m f.mask)) (sym old) ∙ quiet in
      let r : (e.mask.readable && f.mask.readable) ≡ false = ground (arith, still) in
      let w : (e.mask.writable && f.mask.writable) ≡ false = ground (arith, still) in
      rw (at, r, at, w) refl

  -- On a valid loop, after aeDeleteFileEvent of some conditions of a descriptor of the set, an event that was
  -- already fired and tells only of those conditions calls no procedure and changes nothing when
  -- aeProcessEvents comes to it.
  pub fire_after_delete :
      (f : FiredEvent) (loop loop' : EventLoop K) (mask : Mask) (u : U)
      → IsValid laws loop
      → f.fd < loop.set_size
      → is_none (without f.mask mask) ≡ true
      → delete_file_event epoll_ctl loop f.fd mask ≡ some loop'
      → fire epoll_wait proc f (loop', u) ≡ some (loop', u)
  fire_after_delete f loop loop' mask u v h told run =
      let (l1, e1, v1, c) = delete_file_event-IsValid laws loop f.fd mask v in
      let same : l1 ≡ loop' = some_inj (sym e1 ∙ run) in
      let old = mask_at loop.events f.fd in
      let gone : is_none (asked (without old mask) f.mask) ≡ true = ground (arith, told) in
      subst (λ l. fire epoll_wait proc f (l, u) ≡ some (l, u)) same
        (fire_quiet f (l1, u) v1 (omega (arith, c.size, h))
          (ap (λ m. is_none (asked m f.mask)) c.here ∙ gone))
