-- ===== src/Actor/Turns.antt =====
-- Worker threads and the main thread in any order: each of a worker's two actions, and each part of evactor_loop that
-- takes or leaves the mutex, is a turn of its own.
pub mod Woken
use evnet.Base.{
  ℕ, zero, ◌-◌, ◌<◌, ◌≡◌, sym, ap, Option, none, some, List, [], ◌∷◌, ◌++◌, if◌then◌else◌, leb,
  length, suc, gt→leb,
}
use evnet.Actor.{
  Actor, Actors, collect, Action, enqueue, wake, act, run_actor, finish, evactor_loop,
}

-- Where the main thread is, which calls evactor_loop after each wait for events: about to wait; behind that, at the test of evactor_loop; behind the test; or
-- with the actors that it has taken out of the list, and no mutex.
pub data Phase : Type 0 where
  polling entered collecting : Phase
  telling : List Actor → Phase

-- The actors, what each worker has still to do, the main thread, and all actors that were appended so far, in order.
pub record System {ℓ} (U : Type ℓ) : Type ℓ where
  pub shared : Actors U
  pub threads : List (List Action)
  pub phase : Phase
  pub appended : List Actor

-- A worker comes to the end of an actor's handler; a worker does the next that it has to do; or the main thread goes on,
-- and if it waits for events, reads so many wake-ups.
pub data Turn : Type 0 where
  ends : Actor → Turn
  works : ℕ → Turn
  main_thread : ℕ → Turn

-- The next action of one of the threads, and what is then left to do.
pub pick : ℕ → List (List Action) → Option Action × List (List Action)
pick n [] = (none, [])
pick zero ([] ∷ ts) = (none, [] ∷ ts)
pick zero ((a ∷ later) ∷ ts) = (some a, later ∷ ts)
pick (suc n) (t ∷ ts) = let (o, ts') = pick n ts in (o, t ∷ ts')

pub appended_by : Action → List Actor
appended_by (enqueue a) = a ∷ []
appended_by wake = []

module _ {ℓ} {U : Type ℓ} where
  pub worked : Option Action × List (List Action) → System U → System U
  unfolding act appended_by
  worked (none, ts) s = s
  worked (some a, ts) s = record s {
    shared = act a s.shared;
    threads = ts;
    appended = s.appended ++ appended_by a;
  }

  -- Nothing runs, and nothing was appended.
  abbrev pub start : U → System U
  start u = record {
    shared = record { finished = []; wake_ups = 0; user = u };
    threads = [];
    phase = polling;
    appended = [];
  }

module _ {ℓ} {U : Type ℓ} (done : ℕ → ℕ → U → U) where
  -- The main thread goes on: it reads wake-ups; it tests whether the list is empty; it takes actors under the mutex; or
  -- it tells them and, if they are many, wakes itself.
  pub goes_on : ℕ → Phase → System U → System U
  unfolding collect finish
  goes_on k polling s = record s {
    shared = record (s.shared) { wake_ups = s.shared.wake_ups - k };
    phase = entered;
  }
  goes_on k entered s = record s {
    phase = if leb (length s.shared.finished) 0 then polling else collecting;
  }
  goes_on k collecting s =
      let (taken, left) = collect 0 s.shared.finished in
      record s { shared = record (s.shared) { finished = left }; phase = telling taken }
  goes_on k (telling taken) s = record s {
    shared = finish done (taken, s.shared.finished) s.shared;
    phase = polling;
  }

  pub turn : Turn → System U → System U
  unfolding run_actor pick worked goes_on
  turn (ends a) s = record s { threads = run_actor a ∷ s.threads }
  turn (works n) s = worked (pick n s.threads) s
  turn (main_thread k) s = goes_on k s.phase s

  unfoldable pub play : List Turn → System U → System U
  unfolding turn
  play [] s = s
  play (t ∷ ts) s = play ts (turn t s)

  -- Where no other thread comes between them, the parts behind the test make up evactor_loop.
  parts-evactor_loop :
      (s : System U)
      → 0 < length s.shared.finished
      → (goes_on 0 (goes_on 0 collecting s).phase (goes_on 0 collecting s)).shared
        ≡ evactor_loop done s.shared
  unfolding goes_on finish evactor_loop
  parts-evactor_loop s some_left =
      ap (λ b. if b then s.shared else finish done (collect 0 s.shared.finished) s.shared)
        (sym (gt→leb (length s.shared.finished) 0 some_left))
