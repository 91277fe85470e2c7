-- ===== src/Event/Tests.antt =====
-- The theorems on the event loop, with a kernel that keeps its interest list as a function.
use evnet.Base.{
  ℕ, zero, suc, ◌<◌, ◌≤◌, ◌≡◌, refl, sym, ap, ◌∙◌, Bool, true, false, Option, none, some, List, [],
  ◌∷◌, length, replicate, arith, if◌then◌else◌, Bool-cases, inl, inr, ◌⊎◌, ◌==◌, ==_refl, ==_false,
  some_inj, Option-cases,
}
use evnet.Event.{
  Mask, ae_none, is_none, merge, without, FileEvent, EpollEvent, EventLoop, Running, CtlOp,
  create_event_loop, create_file_event, delete_file_event, fire, process_events,
}
use evnet.Event.Table.{mask_at, highest}
use evnet.Event.Watch.{
  EpollLaws, listed, IsValid, Changes, create_event_loop-IsValid, create_file_event-IsValid,
}
use evnet.Event.Unwatch.{delete_file_event-IsValid}
use evnet.Event.Process.{
  Steps, stay, deletes, Steps-IsValid, AllWatched, WaitLaws, process_events-IsValid,
}
use evnet.Event.Fired.{both, fire_after_delete}

abbrev pub Kernel : Type 0
Kernel = ℕ → Mask

abbrev pub ctl : Kernel → CtlOp → ℕ → Mask → Option Kernel
ctl k op fd m = some (λ i. if fd == i then listed op m else k i)

abbrev pub watched_for : Kernel → ℕ → Mask
watched_for k i = k i

pub ctl_laws : EpollLaws ctl watched_for
ctl_laws = record {
  stored = λ k k' op fd m e.
      ap (λ f. f fd) (sym (some_inj e))
      ∙ ap (λ b. if b then listed op m else k fd) (==_refl fd fd refl);
  others = λ k k' op fd i m e n.
      ap (λ f. f i) (sym (some_inj e)) ∙ ap (λ b. if b then listed op m else k i) (==_false fd i n);
  listed_succeeds = λ k fd m removal e. (_, refl);
}

-- Descriptor 3 is ready for reading whenever it is watched.
abbrev ready_for : Bool → List EpollEvent
ready_for true = []
ready_for false =
    record { fd = 3; in_set = true; out_set = false; err_set = false; hup_set = false } ∷ []

abbrev wait : Kernel → ℕ → ℕ → List EpollEvent
wait k zero timeout = []
wait k (suc n) timeout = ready_for (is_none (k 3))

wait_laws : WaitLaws wait watched_for
wait_laws = record { fits = fits; watched = watched }
  where
    fits : (k : Kernel) (n timeout : ℕ) → length (wait k n timeout) ≤ n
    fits k zero timeout = omega arith
    fits k (suc n) timeout = elim (Bool-cases (is_none (k 3))) [
      | inl e ↦ rw e (omega arith)
      | inr e ↦ rw e (omega arith)
    ]

    watched : (k : Kernel) (n timeout : ℕ) → AllWatched k (wait k n timeout)
    watched k zero timeout = tt
    watched k (suc n) timeout = elim (Bool-cases (is_none (k 3))) [
      | inl e ↦ rw e tt
      | inr e ↦ rw e (e, tt)
    ]

-- A procedure that counts its calls and unwatches its descriptor.
abbrev after_call : Running Kernel ℕ → Option (EventLoop Kernel) → Running Kernel ℕ
after_call s none = s
after_call s (some loop) = (loop, suc s.1)

abbrev once : ℕ → ℕ → ℕ → Mask → Running Kernel ℕ → Running Kernel ℕ
once p fd d m s = after_call s (delete_file_event ctl s.0 fd both)

once_moves : (p fd d : ℕ) (m : Mask) (s : Running Kernel ℕ) → Steps ctl s.0 (once p fd d m s).0
once_moves p fd d m s = elim (Option-cases (delete_file_event ctl s.0 fd both)) [
  | inl e ↦ rw e stay
  | inr (l, e) ↦ rw e (deletes fd both e stay)
]

-- Memory that malloc has returned.
abbrev memory : List FileEvent
memory = replicate 4 (record { mask = both; rfile_proc = 9; wfile_proc = 9; client_data = 9 })

abbrev nothing : Kernel
nothing i = ae_none

abbrev readable : Mask
readable = record { readable = true; writable = false }

abbrev quiet : FileEvent
quiet = record { mask = ae_none; rfile_proc = 9; wfile_proc = 9; client_data = 9 }

-- A loop of four descriptors, of which 3 is watched for reading by procedure 1.
abbrev pub loop : EventLoop Kernel
loop = record {
  top = 4;
  set_size = 4;
  cycle = 10;
  events =
      quiet
      ∷ quiet
      ∷ quiet
      ∷ record { mask = readable; rfile_proc = 1; wfile_proc = 9; client_data = 5 }
      ∷ [];
  api = λ i. if 3 == i then readable else ae_none;
}

pub loop-IsValid : IsValid ctl_laws loop
unfolding highest mask_at
loop-IsValid = record { sized = refl; top = refl; watched = watched }
  where
    watched : (fd : ℕ) → (if 3 == fd then readable else ae_none) ≡ mask_at loop.events fd
    watched zero = refl
    watched (suc zero) = refl
    watched (suc (suc zero)) = refl
    watched (suc (suc (suc zero))) = refl
    watched (suc (suc (suc (suc n)))) =
        ap (λ b. if b then readable else ae_none)
          (==_false 3 (suc (suc (suc (suc n)))) (λ e. omega arith))

create_event_loop-IsValid_example :
    (l : EventLoop Kernel) × (create_event_loop (some nothing) memory 10 ≡ some l)
    × IsValid ctl_laws l
    × (l.set_size ≡ 4)
    × ((fd : ℕ) → mask_at l.events fd ≡ ae_none)
create_event_loop-IsValid_example =
    create_event_loop-IsValid ctl_laws memory 10 nothing (λ fd. refl)

create_file_event-IsValid_example :
    (loop' : EventLoop Kernel) × (ok : Bool) × (create_file_event ctl loop 1 readable 2 6
      ≡ some (loop', ok))
    × IsValid ctl_laws loop'
    × (((ok ≡ false) × (loop' ≡ loop))
        ⊎ ((ok ≡ true)
            × (1 < 4)
            × Changes ctl_laws loop 1 (merge (mask_at loop.events 1) readable) loop'))
create_file_event-IsValid_example =
    create_file_event-IsValid ctl_laws loop 1 readable 2 6 loop-IsValid refl

delete_file_event-IsValid_example :
    (loop' : EventLoop Kernel) × (delete_file_event ctl loop 3 both ≡ some loop')
    × IsValid ctl_laws loop'
    × Changes ctl_laws loop 3 (without (mask_at loop.events 3) both) loop'
delete_file_event-IsValid_example = delete_file_event-IsValid ctl_laws loop 3 both loop-IsValid

process_events-IsValid_example :
    (n : ℕ) × (s' : Running Kernel ℕ) × (process_events wait once (loop, 0) ≡ some (n, s'))
    × Steps ctl loop s'.0
    × IsValid ctl_laws s'.0
    × (n ≡ (if highest loop.events == 0 then 0 else 1))
process_events-IsValid_example =
    process_events-IsValid ctl_laws wait_laws once once_moves (loop, 0) loop-IsValid

-- The loop once 3 is unwatched.
abbrev emptied : EventLoop Kernel
emptied = record loop {
  top = 0;
  events =
      quiet
      ∷ quiet
      ∷ quiet
      ∷ record { mask = ae_none; rfile_proc = 1; wfile_proc = 9; client_data = 5 }
      ∷ [];
  api = λ i. if 3 == i then ae_none else loop.api i;
}

emptied_lem : delete_file_event ctl loop 3 both ≡ some emptied
unfolding delete_file_event
emptied_lem = refl

fire_after_delete_example :
    fire wait once (record { fd = 3; mask = readable }) (emptied, 0) ≡ some (emptied, 0)
fire_after_delete_example =
    fire_after_delete ctl_laws wait once (record { fd = 3; mask = readable }) loop emptied both 0
      loop-IsValid (omega arith) refl emptied_lem

Steps-IsValid_example : IsValid ctl_laws emptied × (emptied.set_size ≡ loop.set_size)
Steps-IsValid_example = Steps-IsValid ctl_laws loop-IsValid (deletes 3 both emptied_lem stay)
