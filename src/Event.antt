-- ===== src/Event.antt =====
-- event.c and event.h, with the epoll of Linux: which descriptors are watched, and for what. An `int`
-- mask of AE_READABLE and AE_WRITABLE is a pair of flags. Descriptors are not negative. `maxfd` starts at -1
-- and is kept as `top`, one above it. An access outside an array is `none`.
pub mod Table
pub mod Watch
pub mod Unwatch
pub mod Process
pub mod Fired
pub mod Tests
use evnet.Base.{
  ℕ, zero, suc, ◌*◌, ◌/◌, Bool, true, false, ◌&&◌, ◌||◌, not, Option, none, some, ◌>>=◌, List, [],
  ◌∷◌, ltb, leb, ◌==◌, if◌then◌else◌, length, replicate, map,
}

pub record Mask : Type 0 where
  pub readable : Bool
  pub writable : Bool

abbrev pub ae_none : Mask
ae_none = record { readable = false; writable = false }

abbrev pub is_none : Mask → Bool
is_none m = not (m.readable || m.writable)

-- The operators `|`, `& ~` and `&` on masks.
abbrev pub merge : Mask → Mask → Mask
merge m n = record { readable = m.readable || n.readable; writable = m.writable || n.writable }

abbrev pub without : Mask → Mask → Mask
without m n = record {
  readable = m.readable && not n.readable;
  writable = m.writable && not n.writable;
}

-- aeFileEvent. The two procedures and the client data are addresses.
pub record FileEvent : Type 0 where
  pub mask : Mask
  pub rfile_proc : ℕ
  pub wfile_proc : ℕ
  pub client_data : ℕ

-- aeFiredEvent
pub record FiredEvent : Type 0 where
  pub fd : ℕ
  pub mask : Mask

-- The operations of epoll_ctl.
pub data CtlOp : Type 0 where
  ctl_add ctl_mod ctl_del : CtlOp

-- An entry that epoll_wait has written: the descriptor and its conditions EPOLLIN, EPOLLOUT, EPOLLERR and
-- EPOLLHUP.
pub record EpollEvent : Type 0 where
  pub fd : ℕ
  pub in_set : Bool
  pub out_set : Bool
  pub err_set : Bool
  pub hup_set : Bool

-- aeEventLoop, over a state `K` of the kernel behind `apidata`.
pub record EventLoop {ℓ} (K : Type ℓ) : Type ℓ where
  pub top : ℕ
  pub set_size : ℕ
  pub cycle : ℕ
  pub events : List FileEvent
  pub api : K

-- An entry of an array, and the array with an entry replaced.
pub get_elem? {ℓ} : {A : Type ℓ} → List A → ℕ → Option A
get_elem? [] i = none
get_elem? (x ∷ xs) zero = some x
get_elem? (x ∷ xs) (suc i) = get_elem? xs i

pub set {ℓ} : {A : Type ℓ} → List A → ℕ → A → List A
set [] i a = []
set (x ∷ xs) zero a = a ∷ xs
set (x ∷ xs) (suc i) a = x ∷ set xs i a

-- What aeCreateFileEvent writes into the entry.
abbrev pub register : FileEvent → Mask → ℕ → ℕ → FileEvent
register fe mask proc data_ = record {
  mask = merge fe.mask mask;
  rfile_proc = if mask.readable then proc else fe.rfile_proc;
  wfile_proc = if mask.writable then proc else fe.wfile_proc;
  client_data = data_;
}

-- The search for the highest descriptor that is watched, downwards from below `n`.
pub search : List FileEvent → ℕ → Option ℕ
unfolding get_elem?
search es zero = some 0
search es (suc n) =
    let rest = search es n in do fe ← get_elem? es n; if is_none fe.mask then rest else some (suc n)

-- The array that malloc returns is filled with entries of any content; the loop then sets each mask.
abbrev pub cleared_mask : FileEvent → FileEvent
cleared_mask fe = record fe { mask = ae_none }

-- aeCreateEventLoop, with `memory` what malloc returned for the events, and `api` what epoll_create did.
pub create_event_loop {ℓ} : {K : Type ℓ} → Option K → List FileEvent → ℕ → Option (EventLoop K)
create_event_loop none memory cycle = none
create_event_loop (some api) memory cycle = some (record {
  top = 0;
  set_size = length memory;
  cycle = cycle;
  events = map cleared_mask memory;
  api = api;
})

-- The kernel after a call whose failure is ignored.
abbrev pub kept {ℓ} : {K : Type ℓ} → K → Option K → K
kept api none = api
kept api (some api') = api'

module _ {ℓ} {K : Type ℓ} (epoll_ctl : K → CtlOp → ℕ → Mask → Option K) where
  -- aeApiAddEvent, on a descriptor with the mask `old`.
  pub api_add_event : K → ℕ → Mask → Mask → Option K
  api_add_event api fd old mask =
      epoll_ctl api (if is_none old then ctl_add else ctl_mod) fd (merge old mask)

  -- aeApiDelEvent. A failure of epoll_ctl is ignored.
  pub api_del_event : K → ℕ → Mask → Mask → K
  api_del_event api fd old mask =
      let left = without old mask in
      kept api (epoll_ctl api (if is_none left then ctl_del else ctl_mod) fd left)

  -- aeCreateFileEvent behind aeApiAddEvent. The flag is true for 0 and false for -1.
  pub created : EventLoop K → ℕ → FileEvent → Mask → ℕ → ℕ → Option K → EventLoop K × Bool
  created loop fd fe mask proc data_ none = (loop, false)
  created loop fd fe mask proc data_ (some api) = (
    record loop {
      events = set loop.events fd (register fe mask proc data_);
      top = if ltb fd loop.top then loop.top else suc fd;
      api = api;
    },
    true,
  )

  pub create_file_event : EventLoop K → ℕ → Mask → ℕ → ℕ → Option (EventLoop K × Bool)
  unfolding get_elem? created api_add_event
  create_file_event loop fd mask proc data_ =
      if leb loop.set_size fd then some (loop, false) else (do
        fe ← get_elem? loop.events fd
        some (created loop fd fe mask proc data_ (api_add_event loop.api fd fe.mask mask)))

  -- The tail of aeDeleteFileEvent, for a descriptor whose entry is `fe` and is watched.
  pub deleted : EventLoop K → ℕ → FileEvent → Mask → Option (EventLoop K)
  unfolding search set api_del_event
  deleted loop fd fe mask =
      let left = without fe.mask mask in
      let es = set loop.events fd (record fe { mask = left }) in
      do
        top ← if suc fd == loop.top && is_none left then search es fd else some loop.top
        some (record loop { events = es; top = top; api = api_del_event loop.api fd left mask })

  pub delete_file_event : EventLoop K → ℕ → Mask → Option (EventLoop K)
  unfolding deleted get_elem?
  delete_file_event loop fd mask = if leb loop.set_size fd then some loop else (do
    fe ← get_elem? loop.events fd
    if is_none fe.mask then some loop else deleted loop fd fe mask)

-- What aeApiPoll makes of an entry of epoll_wait.
abbrev pub fired_of : EpollEvent → FiredEvent
fired_of e = record {
  fd = e.fd;
  mask = record { readable = e.in_set; writable = e.out_set || e.err_set || e.hup_set };
}

-- The state of a running loop: the loop, and the state of all that the procedures work on.
abbrev pub Running {ℓ κ} : Type ℓ → Type κ → Type (ℓ ⊔ κ)
Running K U = EventLoop K × U

module _ {ℓ κ} {K : Type ℓ} {U : Type κ} (epoll_wait : K → ℕ → ℕ → List EpollEvent)
    (proc : ℕ → ℕ → ℕ → Mask → Running K U → Running K U) where
  -- aeApiPoll, with the timeout of aeProcessEvents in milliseconds. `fired` has room for `set_size` entries.
  pub api_poll : EventLoop K → Option (List FiredEvent)
  api_poll loop =
      let ready = epoll_wait loop.api loop.set_size (loop.cycle * 1000 / 1000) in
      if ltb loop.set_size (length ready) then none else some (map fired_of ready)

  -- The call for AE_READABLE. The flag is `rfired`.
  pub fire_readable : FiredEvent → FileEvent → Running K U → Running K U × Bool
  fire_readable f fe s =
      if fe.mask.readable && f.mask.readable
      then (proc fe.rfile_proc f.fd fe.client_data f.mask s, true)
      else (s, false)

  -- The call for AE_WRITABLE, on the entry as it is by then.
  pub fire_writable : FiredEvent → FileEvent → Running K U × Bool → Running K U
  fire_writable f fe (s, rfired) =
      if (fe.mask.writable && f.mask.writable)
        && (not rfired || not (fe.wfile_proc == fe.rfile_proc))
      then proc fe.wfile_proc f.fd fe.client_data f.mask s
      else s

  -- One round of the loop of aeProcessEvents.
  pub fire : FiredEvent → Running K U → Option (Running K U)
  unfolding get_elem? fire_readable fire_writable
  fire f s = do
    fe ← get_elem? s.0.events f.fd
    let r = fire_readable f fe s
    fe' ← get_elem? r.0.0.events f.fd
    some (fire_writable f fe' r)

  pub fire_all : List FiredEvent → Running K U → Option (Running K U)
  unfolding fire
  fire_all [] s = some s
  fire_all (f ∷ fs) s = do s' ← fire f s; fire_all fs s'

  -- aeProcessEvents: the number of events, and the state behind them.
  pub process_events : Running K U → Option (ℕ × Running K U)
  unfolding api_poll fire_all
  process_events s =
      let (loop, u) = s in
      if loop.top == 0
      then some (0, s)
      else (do fired ← api_poll loop; s' ← fire_all fired s; some (length fired, s'))
