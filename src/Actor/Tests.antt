-- ===== src/Actor/Tests.antt =====
-- The theorems on actors, with handlers that keep the data that they are called with.
use evnet.Base.{ℕ, ◌≡◌, refl, List, [], ◌∷◌, ◌++◌}
use evnet.Actor.{Actor, Actors, evactor_loop}
use evnet.Actor.Batch.{Batch, evactor_loop-Batch}
use evnet.Actor.Turns.{Turn, ends, works, main_thread, start, play}
use evnet.Actor.Turns.Woken.{IsSound, play-IsSound}

abbrev keep : ℕ → ℕ → List ℕ → List ℕ
keep handler usr u = u ++ (usr ∷ [])

abbrev actor : ℕ → Actor
actor n = record { handler = 1; id = n; usr = n }

abbrev two_left : Actors (List ℕ)
two_left = record { finished = actor 5 ∷ actor 6 ∷ []; wake_ups = 2; user = [] }

-- Two workers append, one wakes the main thread, which reads that and goes through evactor_loop; while it is at it, the
-- other worker wakes it once more.
abbrev turns : List Turn
turns =
    ends (actor 1)
    ∷ ends (actor 2)
    ∷ works 1
    ∷ works 0
    ∷ works 1
    ∷ main_thread 1
    ∷ main_thread 0
    ∷ main_thread 0
    ∷ works 0
    ∷ main_thread 0
    ∷ []

evactor_loop-Batch_example : Batch keep two_left (evactor_loop keep two_left)
evactor_loop-Batch_example = evactor_loop-Batch keep two_left

play-IsSound_example : IsSound keep [] (play keep turns (start []))
play-IsSound_example = play-IsSound keep [] turns

two_told : (play keep turns (start [])).shared.user ≡ 1 ∷ 2 ∷ []
unfolding play evactor_loop
two_told = refl

woken_again : (play keep turns (start [])).shared.wake_ups ≡ 1
unfolding play evactor_loop
woken_again = refl
