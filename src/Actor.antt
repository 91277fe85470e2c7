-- ===== src/Actor.antt =====
-- evactor.c: actors that worker threads have run wait in a list until the main thread tells their handlers,
-- at most MAX_TCB in one call. The thread pool is left out: `run_actor` is what a worker does once the
-- handler has returned from EVACTOR_THREADRUN. A byte in the pipe of evnet_async is a wake-up.
pub mod Batch
pub mod Turns
mod Tests
use evnet.Base.{
  ℕ, zero, suc, ◌+◌, Bool, true, false, List, [], ◌∷◌, ◌++◌, if◌then◌else◌, leb, length,
}

-- actor_t
pub record Actor : Type 0 where
  pub handler : ℕ
  pub id : ℕ
  pub usr : ℕ

abbrev pub max_tcb : ℕ
max_tcb = 128

-- gactorFinished, the bytes in the pipe, and the state `U` that the handlers work on.
pub record Actors {ℓ} (U : Type ℓ) : Type ℓ where
  pub finished : List Actor
  pub wake_ups : ℕ
  pub user : U

-- The loop under the mutex, with `n` actors taken so far: those that it takes, and those that it leaves.
pub collect : ℕ → List Actor → List Actor × List Actor
collect n [] = ([], [])
collect n (a ∷ later) =
    let (taken, left) = collect (suc n) later in
    if leb max_tcb (suc n) then (a ∷ [], later) else (a ∷ taken, left)

-- evnet_async, with the pipe that evnet_init makes, and with room in it.
pub async {ℓ} : {U : Type ℓ} → Actors U → Actors U
async s = record s { wake_ups = suc s.wake_ups }

-- What a worker does in one go: the append to gactorFinished under the mutex, and evnet_async.
pub data Action : Type 0 where
  enqueue : Actor → Action
  wake : Action

pub act {ℓ} : {U : Type ℓ} → Action → Actors U → Actors U
unfolding async
act (enqueue a) s = record s { finished = s.finished ++ (a ∷ []) }
act wake s = async s

-- actor_run, behind the handler's call, in order. Other threads may go on between the two.
pub run_actor : Actor → List Action
run_actor a = enqueue a ∷ (wake ∷ [])

module _ {ℓ} {U : Type ℓ} (done : ℕ → ℕ → U → U) where
  -- The handlers are called with EVACTOR_DONE.
  pub tell : List Actor → U → U
  tell [] u = u
  tell (a ∷ later) u = tell later (done a.handler a.usr u)

  -- evactor_loop behind its test for an empty list, with what `collect` took and left.
  pub finish : List Actor × List Actor → Actors U → Actors U
  unfolding tell async
  finish (taken, left) s =
      let s' = record s { finished = left; user = tell taken s.user } in
      if leb max_tcb (length taken) then async s' else s'

  pub evactor_loop : Actors U → Actors U
  unfolding collect finish
  evactor_loop s = if leb (length s.finished) 0 then s else finish (collect 0 s.finished) s
