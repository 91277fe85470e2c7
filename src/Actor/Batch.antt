-- ===== src/Actor/Batch.antt =====
-- One call of evactor_loop: which actors are told, and that none is left without a wake-up.
use evnet.Base.{
  ℕ, suc, ◌+◌, ◌-◌, ◌<◌, ◌≡◌, refl, sym, ap, ap₂, ◌∙◌, List, [], ◌∷◌, if◌then◌else◌, leb, length,
  ◌⊎◌, inl, inr, arith, dec_lt, le→leb, gt→leb, take, drop, length-take, length-drop,
  eq_nil_of_length, drop_of_length_le, take_of_length_le,
}
use evnet.Actor.{Actor, max_tcb, Actors, collect, async, tell, finish, evactor_loop}

pub collect_lem :
    (n : ℕ) (xs : List Actor)
    → n < max_tcb
    → collect n xs ≡ (take (max_tcb - n) xs, drop (max_tcb - n) xs)
unfolding collect
collect_lem n [] h =
    ap₂ (λ a b. (a, b)) (sym (take_of_length_le (max_tcb - n) [] (omega arith)))
      (sym (drop_of_length_le (max_tcb - n) [] (omega arith)))
collect_lem n (a ∷ later) h =
    let k : max_tcb - n ≡ suc (max_tcb - suc n) = omega arith in
    elim (dec_lt (suc n) max_tcb) [
      | yes more ↦ rw (gt→leb max_tcb (suc n) more, collect_lem (suc n) later more, k) refl
      | no full ↦
          let last : max_tcb - suc n ≡ 0 = omega arith in
          rw (le→leb max_tcb (suc n) (omega arith), k, last) refl
    ]

-- No finished actor waits without a wake-up in the pipe.
abbrev pub IsAwake {ℓ} : {U : Type ℓ} → Actors U → Type 0
IsAwake s = (length s.finished ≡ 0) ⊎ (0 < s.wake_ups)

module _ {ℓ} {U : Type ℓ} (done : ℕ → ℕ → U → U) where
  -- What evactor_loop should do with the list `xs`, said without its counting.
  pub record Batch (s s' : Actors U) : Type ℓ where
    pub left : s'.finished ≡ drop max_tcb s.finished
    pub told : s'.user ≡ tell done (take max_tcb s.finished) s.user
    pub wake_ups : s'.wake_ups ≡ s.wake_ups + (if leb max_tcb (length s.finished) then 1 else 0)
    pub awake : IsAwake s'

  finish-Batch :
      (s : Actors U) → Batch s (finish done (take max_tcb s.finished, drop max_tcb s.finished) s)
  unfolding finish async
  finish-Batch s =
      let xs = s.finished in
      elim (dec_lt (length xs) max_tcb) [
        | yes less ↦
            let few =
              gt→leb max_tcb (length (take max_tcb xs)) (omega (arith, length-take max_tcb xs)) in
            let few' = gt→leb max_tcb (length xs) less in
            rw few (record {
              left = refl;
              told = refl;
              wake_ups = rw few' (omega arith);
              awake = inl (omega (arith, length-drop max_tcb xs));
            })
        | no more ↦
            let many =
              le→leb max_tcb (length (take max_tcb xs)) (omega (arith, length-take max_tcb xs)) in
            let many' = le→leb max_tcb (length xs) (omega arith) in
            rw many (record {
              left = refl;
              told = refl;
              wake_ups = rw many' (omega arith);
              awake = inr (omega arith);
            })
      ]

  -- evactor_loop tells the handlers of the 128 oldest finished actors, or of all where they are fewer, each
  -- once and in the order of finishing, and leaves all others in order; it wakes the main thread again
  -- exactly if there were 128 or more; so even where all wake-ups were used up before, no finished actor
  -- is left without one.
  pub evactor_loop-Batch : (s : Actors U) → Batch s (evactor_loop done s)
  unfolding evactor_loop tell
  evactor_loop-Batch s = elim (dec_lt 0 (length s.finished)) [
    | no empty ↦
        let e : s.finished ≡ [] = eq_nil_of_length s.finished (omega arith) in
        let few = gt→leb max_tcb (length s.finished) (omega arith) in
        rw (le→leb (length s.finished) 0 (omega arith)) (record {
          left = e ∙ sym (ap (drop max_tcb) e);
          told = ap (λ xs. tell done (take max_tcb xs) s.user) (sym e);
          wake_ups = rw few (omega arith);
          awake = inl (omega arith);
        })
    | yes some_left ↦
        rw (gt→leb (length s.finished) 0 some_left, collect_lem 0 s.finished (omega arith))
          (finish-Batch s)
  ]
