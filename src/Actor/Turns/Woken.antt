-- ===== src/Actor/Turns/Woken.antt =====
-- The order of the actors, and that none waits without a wake-up, for workers and the main thread in any order.
use evnet.Base.{
  ℕ, zero, suc, ◌≤◌, ◌<◌, ◌≡◌, refl, sym, ap, ◌∙◌, Option, none, some, List, [], ◌∷◌, ◌++◌,
  append_assoc, append-nil, take-append-drop, length, ◌⊎◌, inl, inr, arith, dec_lt, le→leb, gt→leb,
  length-take, length-drop,
}
use evnet.Actor.{Actor, max_tcb, async, Action, enqueue, wake, act, run_actor, tell, finish}
use evnet.Actor.Batch.{collect_lem}
use evnet.Actor.Turns.{
  Phase, polling, entered, collecting, telling, System, Turn, ends, works, main_thread, pick,
  appended_by, worked, start, goes_on, turn, play,
}

-- A thread has still to wake the main thread; and a thread wakes it after each actor that it appends.
pub HasWake : List Action → Type 0
HasWake [] = ⊥
HasWake (wake ∷ later) = Unit {0}
HasWake (enqueue a ∷ later) = HasWake later

pub WakesAfter : List Action → Type 0
WakesAfter [] = Unit {0}
WakesAfter (wake ∷ later) = WakesAfter later
WakesAfter (enqueue a ∷ later) = HasWake later × WakesAfter later

pub AnyOwes : List (List Action) → Type 0
AnyOwes [] = ⊥
AnyOwes (t ∷ ts) = HasWake t ⊎ AnyOwes ts

pub AllWake : List (List Action) → Type 0
AllWake [] = Unit {0}
AllWake (t ∷ ts) = WakesAfter t × AllWake ts

-- After an append some thread owes a wake-up.
Owed : Option Action → List (List Action) → Type 0
Owed none ts = Unit {0}
Owed (some wake) ts = Unit {0}
Owed (some (enqueue a)) ts = AnyOwes ts

Owed-cons :
    (o : Option Action) (t : List Action) (ts : List (List Action)) → Owed o ts → Owed o (t ∷ ts)
unfolding Owed AnyOwes
Owed-cons none t ts p = tt
Owed-cons (some wake) t ts p = tt
Owed-cons (some (enqueue a)) t ts p = inr p

pick-AllWake :
    (n : ℕ) (ts : List (List Action))
    → AllWake ts
    → AllWake (pick n ts).1 × Owed (pick n ts).0 (pick n ts).1
unfolding pick AllWake WakesAfter Owed AnyOwes
pick-AllWake n [] a = (tt, tt)
pick-AllWake zero ([] ∷ ts) a = (a, tt)
pick-AllWake zero ((wake ∷ later) ∷ ts) (w, a) = ((w, a), tt)
pick-AllWake zero ((enqueue x ∷ later) ∷ ts) ((h, w), a) = ((w, a), inl h)
pick-AllWake (suc n) (t ∷ ts) (w, a) =
    let (a', o) = pick-AllWake n ts a in ((w, a'), Owed-cons (pick n ts).0 t (pick n ts).1 o)

-- The actors that the main thread has taken and not told yet.
pub in_hand : Phase → List Actor
in_hand polling = []
in_hand entered = []
in_hand collecting = []
in_hand (telling taken) = taken

module _ {ℓ} {U : Type ℓ} where
  -- No finished actor waits, or a wake-up is in the pipe, or a worker has still to send one.
  pub IsWoken : System U → Type 0
  IsWoken s = (length s.shared.finished ≡ 0) ⊎ (0 < s.shared.wake_ups) ⊎ AnyOwes s.threads

  -- The same where the main thread is about to wait; where it has still to look at the list nothing is asked, and
  -- where it tells of as many actors as it can take it will wake itself.
  pub IsAwake : Phase → System U → Type 0
  IsAwake polling s = IsWoken s
  IsAwake entered s = Unit {0}
  IsAwake collecting s = Unit {0}
  IsAwake (telling taken) s = IsWoken s ⊎ (max_tcb ≤ length taken)

  IsAwake-woken : (p : Phase) (s : System U) → IsWoken s → IsAwake p s
  unfolding IsAwake
  IsAwake-woken polling s w = w
  IsAwake-woken entered s w = tt
  IsAwake-woken collecting s w = tt
  IsAwake-woken (telling taken) s w = inl w

  -- A worker that has come to the end of a handler changes nothing of it.
  IsAwake-grow :
      (p : Phase) (s : System U) (t : List Action)
      → IsAwake p s
      → IsAwake p (record s { threads = t ∷ s.threads })
  unfolding IsAwake IsWoken AnyOwes
  IsAwake-grow polling s t (inl e) = inl e
  IsAwake-grow polling s t (inr (inl w)) = inr (inl w)
  IsAwake-grow polling s t (inr (inr o)) = inr (inr (inr o))
  IsAwake-grow entered s t a = tt
  IsAwake-grow collecting s t a = tt
  IsAwake-grow (telling taken) s t (inl (inl e)) = inl (inl e)
  IsAwake-grow (telling taken) s t (inl (inr (inl w))) = inl (inr (inl w))
  IsAwake-grow (telling taken) s t (inl (inr (inr o))) = inl (inr (inr (inr o)))
  IsAwake-grow (telling taken) s t (inr many) = inr many

module _ {ℓ} {U : Type ℓ} (done : ℕ → ℕ → U → U) (u : U) where
  tell-append :
      (xs ys : List Actor) (v : U) → tell done (xs ++ ys) v ≡ tell done ys (tell done xs v)
  unfolding tell
  tell-append [] ys v = refl
  tell-append (x ∷ xs) ys v = tell-append xs ys (done x.handler x.usr v)

  -- From the users' state `u` on, the handlers were told of the actors `told`, of each once and in this order; these,
  -- then those that the main thread has taken, then those in the list, are all that were appended, in order; workers
  -- wake the main thread after each that they append; and none waits without a wake-up.
  pub record IsSound (s : System U) : Type ℓ where
    pub told : List Actor
    pub order : told ++ (in_hand s.phase ++ s.shared.finished) ≡ s.appended
    pub user : s.shared.user ≡ tell done told u
    pub workers : AllWake s.threads
    pub awake : IsAwake s.phase s

  worked-IsSound :
      (o : Option Action) (ts : List (List Action)) (s : System U)
      → AllWake ts
      → Owed o ts
      → IsSound s
      → IsSound (worked (o, ts) s)
  unfolding worked act async appended_by Owed IsWoken
  worked-IsSound none ts s a o v = v
  worked-IsSound (some wake) ts s a o v =
      let s' = worked (some wake, ts) s in
      record {
        told = v.told;
        order = v.order ∙ sym (append-nil s.appended);
        user = v.user;
        workers = a;
        awake = IsAwake-woken s.phase s' (inr (inl (omega arith)));
      }
  worked-IsSound (some (enqueue x)) ts s a o v =
      let s' = worked (some (enqueue x), ts) s in
      let hand = in_hand s.phase in
      record {
        told = v.told;
        order =
            ap (◌++◌ v.told) (sym (append_assoc hand s.shared.finished (x ∷ [])))
            ∙ sym (append_assoc v.told (hand ++ s.shared.finished) (x ∷ []))
            ∙ ap (λ xs. xs ++ (x ∷ [])) v.order;
        user = v.user;
        workers = a;
        awake = IsAwake-woken s.phase s' (inr (inr o));
      }

  entered-IsSound :
      (s : System U) → s.phase ≡ entered → IsSound s → IsSound (goes_on done 0 entered s)
  unfolding goes_on IsAwake IsWoken in_hand
  entered-IsSound s e v =
      let order = ap (λ p. v.told ++ (in_hand p ++ s.shared.finished)) (sym e) ∙ v.order in
      elim (dec_lt 0 (length s.shared.finished)) [
        | no empty ↦ rw (le→leb (length s.shared.finished) 0 (omega arith)) (record {
          told = v.told;
          order = order;
          user = v.user;
          workers = v.workers;
          awake = inl (omega arith);
        })
        | yes some_left ↦ rw (gt→leb (length s.shared.finished) 0 some_left) (record {
          told = v.told;
          order = order;
          user = v.user;
          workers = v.workers;
          awake = tt;
        })
      ]

  collecting-IsSound :
      (s : System U) → s.phase ≡ collecting → IsSound s → IsSound (goes_on done 0 collecting s)
  unfolding goes_on IsAwake IsWoken in_hand
  collecting-IsSound s e v =
      let xs = s.shared.finished in
      rw (collect_lem 0 xs (omega arith)) (record {
        told = v.told;
        order =
            ap (◌++◌ v.told) (take-append-drop max_tcb xs)
            ∙ ap (λ p. v.told ++ (in_hand p ++ xs)) (sym e)
            ∙ v.order;
        user = v.user;
        workers = v.workers;
        awake = elim (dec_lt (length xs) max_tcb) [
          | yes less ↦ inl (inl (omega (arith, length-drop max_tcb xs)))
          | no more ↦ inr (omega (arith, length-take max_tcb xs))
        ];
      })

  telling-IsSound :
      (taken : List Actor) (s : System U)
      → s.phase ≡ telling taken
      → IsAwake (telling taken) s
      → IsSound s
      → IsSound (goes_on done 0 (telling taken) s)
  unfolding goes_on finish async IsAwake IsWoken in_hand
  telling-IsSound taken s e a v =
      let told = v.told ++ taken in
      let order : told ++ s.shared.finished ≡ s.appended =
        append_assoc v.told taken s.shared.finished
        ∙ ap (λ p. v.told ++ (in_hand p ++ s.shared.finished)) (sym e)
        ∙ v.order in
      let user : tell done taken s.shared.user ≡ tell done told u =
        ap (tell done taken) v.user ∙ sym (tell-append v.told taken u) in
      elim (dec_lt (length taken) max_tcb) [
        | yes less ↦ rw (gt→leb max_tcb (length taken) less) (record {
          told = told;
          order = order;
          user = user;
          workers = v.workers;
          awake = elim a [ inl woken ↦ woken | inr many ↦ absurd (omega arith) ];
        })
        | no more ↦ rw (le→leb max_tcb (length taken) (omega arith)) (record {
          told = told;
          order = order;
          user = user;
          workers = v.workers;
          awake = inr (inl (omega arith));
        })
      ]

  goes_on-IsSound :
      (k : ℕ) (p : Phase) (s : System U)
      → s.phase ≡ p
      → IsAwake p s
      → IsSound s
      → IsSound (goes_on done k p s)
  unfolding goes_on IsAwake in_hand
  goes_on-IsSound k polling s e a v = record {
    told = v.told;
    order = ap (λ p. v.told ++ (in_hand p ++ s.shared.finished)) (sym e) ∙ v.order;
    user = v.user;
    workers = v.workers;
    awake = tt;
  }
  goes_on-IsSound k entered s e a v = entered-IsSound s e v
  goes_on-IsSound k collecting s e a v = collecting-IsSound s e v
  goes_on-IsSound k (telling taken) s e a v = telling-IsSound taken s e a v

  turn-IsSound : (t : Turn) (s : System U) → IsSound s → IsSound (turn done t s)
  unfolding turn run_actor AllWake WakesAfter HasWake
  turn-IsSound (ends x) s v = record {
    told = v.told;
    order = v.order;
    user = v.user;
    workers = ((tt, tt), v.workers);
    awake = IsAwake-grow s.phase s (enqueue x ∷ (wake ∷ [])) v.awake;
  }
  turn-IsSound (works n) s v =
      let (a, o) = pick-AllWake n s.threads v.workers in
      worked-IsSound (pick n s.threads).0 (pick n s.threads).1 s a o v
  turn-IsSound (main_thread k) s v = goes_on-IsSound k s.phase s refl v.awake v

  played-IsSound : (ts : List Turn) (s : System U) → IsSound s → IsSound (play done ts s)
  unfolding play
  played-IsSound [] s v = v
  played-IsSound (t ∷ ts) s v = played-IsSound ts (turn done t s) (turn-IsSound t s v)

  -- In whatever order workers append actors and wake the main thread, and the main thread reads wake-ups, tests,
  -- takes and tells, from the start on: the handlers are told of the actors in the order in which they were
  -- appended, of each once; those not told of yet are taken or wait in that order; and whenever the main
  -- thread is about to wait for events and an actor is in the list, a wake-up is in the pipe, or a worker that
  -- has appended has still to send one.
  pub play-IsSound : (ts : List Turn) → IsSound (play done ts (start u))
  unfolding tell in_hand AllWake IsAwake IsWoken
  play-IsSound ts =
      played-IsSound ts (start u)
        (record { told = []; order = refl; user = refl; workers = tt; awake = inl refl })
