-- ===== src/Channel/Sweep.antt =====
-- channel_crond: the sweep of _check_timeouts over the ring.
use evnet.Base.{
  ℕ, suc, zero, ◌≡◌, ◌≢◌, refl, sym, ap, ap₂, ◌∙◌, subst, ◌≤◌, length, Bool, true, false,
  Bool-cases, Option, some, none, ◌>>=◌, if◌then◌else◌, ◌==◌, ==_refl, ==_false, List, [], ◌∷◌,
  ◌++◌, append_assoc, ◌⊎◌, inl, inr, arith, ℤ, minus_one,
}
use evnet.Event.{Mask, CtlOp}
use evnet.Event.Watch.{EpollLaws}
use evnet.Channel.{Channel, ChannelMsg, Net, load, expired, channel_close, check_from}
use evnet.Channel.Ring.{RingOf, Links-split, AllNe, Distinct-Apart, AllNe-append}
use evnet.Channel.Links.{bare, next_of, prev_of, next_field}
use evnet.Channel.Unlink.{Cells-split}
use evnet.Channel.Valid.{IsNet}
use evnet.Channel.Quiet.{AreQuiet, close_quiet}
use evnet.Channel.Ended.{
  gone_but_last, end_one, ended, AllFreed, gone-AllNe, kept-ended, ended-with_dead,
  AllFreed-with_dead, bare-none,
}

-- The channels that the sweep leaves: it looks at all but the last, or at the only one.
abbrev pub keep : (ℕ → Bool) → ℕ → List ℕ → List ℕ
keep dead x xs = if dead x then xs else x ∷ xs

abbrev pub swept_but_last : (ℕ → Bool) → List ℕ → List ℕ
swept_but_last dead [] = []
swept_but_last dead (x ∷ []) = x ∷ []
swept_but_last dead (x ∷ (y ∷ ys)) = keep dead x (swept_but_last dead (y ∷ ys))

abbrev pub swept : (ℕ → Bool) → List ℕ → List ℕ
swept dead [] = []
swept dead (x ∷ []) = keep dead x []
swept dead (x ∷ (y ∷ ys)) = swept_but_last dead (x ∷ (y ∷ ys))

true_ne_false : true ≢ false
true_ne_false e = cc

keep_lem : (dead : ℕ → Bool) (x : ℕ) (xs : List ℕ) → keep dead x xs ≡ keep dead x [] ++ xs
keep_lem dead x xs = elim (Bool-cases (dead x)) [
  | inl e ↦
      ap (λ b. if b then xs else x ∷ xs) e ∙ sym (ap (λ b. (if b then [] else x ∷ []) ++ xs) e)
  | inr e ↦
      ap (λ b. if b then xs else x ∷ xs) e ∙ sym (ap (λ b. (if b then [] else x ∷ []) ++ xs) e)
]

append_keep :
    (dead : ℕ → Bool) (x : ℕ) (xs ys : List ℕ) → xs ++ keep dead x ys ≡ (xs ++ keep dead x []) ++ ys
append_keep dead x xs ys =
    ap (λ l. xs ++ l) (keep_lem dead x ys) ∙ sym (append_assoc xs (keep dead x []) ys)

next_inside :
    (n p : ℕ → ℕ) (head : ℕ) (xs : List ℕ) (c d : ℕ) (ys : List ℕ)
    → RingOf n p head (xs ++ (c ∷ (d ∷ ys)))
    → n c ≡ d
next_inside n p head [] c d ys (_, (e, _, _)) = e
next_inside n p head (x ∷ xs) c d ys (_, l) =
    let (_, (e, _, _)) = Links-split n p x xs c (d ∷ ys) x l in e

pub prev_head :
    (n p : ℕ → ℕ) (head x : ℕ) (xs : List ℕ) (t : ℕ)
    → RingOf n p head (x ∷ (xs ++ (t ∷ [])))
    → p x ≡ t
prev_head n p head x xs t (_, l) = let (_, (_, e)) = Links-split n p x xs t [] x l in e

abbrev pub expired_at : ℕ → Option Channel → Bool
expired_at now none = false
expired_at now (some ch) = expired ch now

expired_bare : (now : ℕ) (o : Option Channel) → expired_at now (bare o) ≡ expired_at now o
unfolding expired
expired_bare now none = refl
expired_bare now (some ch) = refl

module _ {ℓ κ} {K : Type ℓ} {U : Type κ} {epoll_ctl : K → CtlOp → ℕ → Mask → Option K}
    {interest : K → ℕ → Mask} (laws : EpollLaws epoll_ctl interest)
    (call : ℕ → ℕ → ChannelMsg → Net K U → Option (Net K U)) (tell : ℕ → ℕ → ℕ → ℤ → U → U)
    (quiet : AreQuiet call tell) (now : ℕ) (dead : ℕ → Bool) where
  -- The state says of each channel of the list whether it is dead.
  unfoldable pub Agrees : Net K U → List ℕ → Type 0
  Agrees s [] = Unit {0}
  Agrees s (x ∷ xs) = (expired_at now (s.heap x) ≡ dead x) × Agrees s xs

  kept-Agrees :
      (s s' : Net K U) (c : ℕ) (xs : List ℕ)
      → ((i : ℕ) → c ≢ i → bare (s'.heap i) ≡ bare (s.heap i))
      → AllNe c xs
      → Agrees s xs
      → Agrees s' xs
  unfolding Agrees
  kept-Agrees s s' c [] same n a = tt
  kept-Agrees s s' c (x ∷ xs) same (n, ns) (a, rest) = (
    sym (expired_bare now (s'.heap x))
        ∙ ap (expired_at now) (same x n)
        ∙ expired_bare now (s.heap x)
        ∙ a,
    kept-Agrees s s' c xs same ns rest,
  )

  -- One turn: the channel is closed if it is dead.
  pub turn_lem :
      (s : Net K U) (xs : List ℕ) (c : ℕ) (ys : List ℕ) (ch : Channel)
      → IsNet laws s (xs ++ (c ∷ ys))
      → load s c ≡ some ch
      → expired_at now (s.heap c) ≡ dead c
      → (s' : Net K U) × ((if expired ch now
            then channel_close epoll_ctl call c minus_one s
            else some s)
          ≡ some s')
        × IsNet laws s' (xs ++ keep dead c ys)
        × ((i : ℕ) → c ≢ i → bare (s'.heap i) ≡ bare (s.heap i))
        × ((i : ℕ) → (dead i ≡ false) ⊎ (c ≢ i) → bare (s'.heap i) ≡ bare (s.heap i))
        × (dead c ≡ true → load s' c ≡ none)
        × ((s'.closed, s'.user)
            ≡ (if dead c then end_one tell (s.heap c) c (s.closed, s.user) else (s.closed, s.user)))
  turn_lem s xs c ys ch v e d =
      let old : expired ch now ≡ dead c = sym (ap (expired_at now) e) ∙ d in
      let p : List ℕ × U = (s.closed, s.user) in
      let done = λ (o : Option Channel) (b : Bool). if b then end_one tell o c p else p in
      elim (Bool-cases (dead c)) [
        | inl yes_dead ↦
            let (s', run, v', same, freed, closed, user) =
              close_quiet laws call tell quiet s xs c ys ch minus_one v e in
            (
              s',
              ap (λ b. if b then channel_close epoll_ctl call c minus_one s else some s)
                    (old ∙ yes_dead)
                  ∙ run,
              subst (λ l. IsNet laws s' (xs ++ l))
                  (sym (ap (λ b. if b then ys else c ∷ ys) yes_dead)) v',
              same,
              (λ i h. same i (elim h [
                | inl alive ↦ (λ q. true_ne_false (sym yes_dead ∙ ap dead q ∙ alive))
                | inr n ↦ n
              ])),
              (λ e. freed),
              ap₂ (λ cs u. (cs, u)) closed user
                  ∙ sym (ap (λ o. done o true) e)
                  ∙ sym (ap (done (s.heap c)) yes_dead),
            )
        | inr alive ↦ (
          s,
          ap (λ b. if b then channel_close epoll_ctl call c minus_one s else some s) (old ∙ alive),
          subst (λ l. IsNet laws s (xs ++ l)) (sym (ap (λ b. if b then ys else c ∷ ys) alive)) v,
          (λ i n. refl),
          (λ i h. refl),
          (λ e. absurd (true_ne_false (sym e ∙ alive))),
          sym (ap (done (s.heap c)) alive),
        )
      ]

  -- The loop up to its test.
  pub turned :
      (fuel : ℕ) (s : Net K U) (c t : ℕ) (ch : Channel) (s1 : Net K U)
      → load s c ≡ some ch
      → ((if expired ch now then channel_close epoll_ctl call c minus_one s else some s) ≡ some s1)
      → check_from epoll_ctl call (suc fuel) c t now s
        ≡ (if ch.next == t then some s1 else check_from epoll_ctl call fuel ch.next t now s1)
  unfolding check_from
  turned fuel s c t ch s1 e run =
      let more = λ (ch : Channel) (s1 : Net K U).
        if ch.next == t then some s1 else check_from epoll_ctl call fuel ch.next t now s1 in
      ap
        (λ o. o >>= λ ch.
          (if expired ch now then channel_close epoll_ctl call c minus_one s else some s)
          >>= more ch)
        e
      ∙ ap (λ o. o >>= more ch) run

  pub sweep_lem :
      (fuel : ℕ) (s : Net K U) (xs : List ℕ) (c : ℕ) (ys : List ℕ) (t : ℕ)
      → IsNet laws s (xs ++ (c ∷ (ys ++ (t ∷ []))))
      → Agrees s (c ∷ ys)
      → length (c ∷ ys) ≤ fuel
      → (s' : Net K U) × (check_from epoll_ctl call fuel c t now s ≡ some s')
        × IsNet laws s' (xs ++ swept_but_last dead (c ∷ (ys ++ (t ∷ []))))
        × ((i : ℕ) → (dead i ≡ false) ⊎ AllNe i (c ∷ ys) → bare (s'.heap i) ≡ bare (s.heap i))
        × AllFreed s' (gone_but_last dead (c ∷ (ys ++ (t ∷ []))))
        × ((s'.closed, s'.user)
            ≡ ended tell s.heap (gone_but_last dead (c ∷ (ys ++ (t ∷ [])))) (s.closed, s.user))
  unfolding Agrees AllFreed ended
  sweep_lem zero s xs c ys t v a le = absurd (omega (arith, le))
  sweep_lem (suc fuel) s xs c [] t v (a, as') le =
      let (_, (ch, e), _) = Cells-split s xs c (t ∷ []) v.ring.cells in
      let (s', run, v', _, same, freed, told) = turn_lem s xs c (t ∷ []) ch v e a in
      let next : ch.next ≡ t =
        sym (ap next_field e) ∙ next_inside (next_of s) (prev_of s) s.head xs c t [] v.ring.ring in
      (
        s',
        turned fuel s c t ch s' e run
            ∙ ap (λ b. if b then some s' else check_from epoll_ctl call fuel ch.next t now s')
                (==_refl ch.next t next),
        v',
        (λ i h. same i (elim h [ inl alive ↦ inl alive | inr (n, _) ↦ inr (λ q. n (sym q)) ])),
        AllFreed-with_dead dead s' c [] freed tt,
        told ∙ sym (ended-with_dead tell dead s.heap c [] (s.closed, s.user)),
      )
  sweep_lem (suc fuel) s xs c (d ∷ ys) t v (a, as') le =
      let zs = ys ++ (t ∷ []) in
      let (_, (ch, e), _) = Cells-split s xs c (d ∷ zs) v.ring.cells in
      let (s1, run, v1, other, same, freed, told) = turn_lem s xs c (d ∷ zs) ch v e a in
      let apart = Distinct-Apart xs c (d ∷ zs) v.ring.distinct in
      let (front, _) = AllNe-append c (d ∷ ys) (t ∷ []) apart.behind in
      let (fresh, _) = apart.back in
      let (_, (d_ne_t, _)) = AllNe-append d ys (t ∷ []) fresh in
      let next : ch.next ≡ d =
        sym (ap next_field e) ∙ next_inside (next_of s) (prev_of s) s.head xs c d zs v.ring.ring in
      let (s', rest, v', same', freed', told') =
        sweep_lem fuel s1 (xs ++ keep dead c []) d ys t
          (subst (IsNet laws s1) (append_keep dead c xs (d ∷ zs)) v1)
          (kept-Agrees s s1 c (d ∷ ys) other front as') (omega (arith, le)) in
      (
        s',
        turned fuel s c t ch s1 e run
            ∙ ap (λ b. if b then some s1 else check_from epoll_ctl call fuel ch.next t now s1)
                (==_false ch.next t (λ q. d_ne_t (sym next ∙ q)))
            ∙ ap (λ n. check_from epoll_ctl call fuel n t now s1) next
            ∙ rest,
        subst (IsNet laws s') (sym (append_keep dead c xs (swept_but_last dead (d ∷ zs)))) v',
        (λ i h.
            same' i (elim h [ inl alive ↦ inl alive | inr (_, ns) ↦ inr ns ])
            ∙ same i (elim h [ inl alive ↦ inl alive | inr (n, _) ↦ inr (λ q. n (sym q)) ])),
        AllFreed-with_dead dead s' c (gone_but_last dead (d ∷ zs))
            (λ yes_dead. bare-none (s'.heap c) (same' c (inr front) ∙ ap bare (freed yes_dead)))
            freed',
        told'
            ∙ kept-ended tell s.heap s1.heap c (gone_but_last dead (d ∷ zs)) (s1.closed, s1.user)
                other (gone-AllNe dead c (d ∷ zs) apart.behind)
            ∙ ap (ended tell s.heap (gone_but_last dead (d ∷ zs))) told
            ∙ sym (
                ended-with_dead tell dead s.heap c (gone_but_last dead (d ∷ zs))
                  (s.closed, s.user)),
      )
