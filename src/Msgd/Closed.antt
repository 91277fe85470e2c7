-- ===== src/Msgd/Closed.antt =====
-- _EVCLOSED in the message server: a connection ends.
use evnet.Base.{
  ℕ, suc, ◌≡◌, ◌≢◌, refl, sym, ap, ◌∙◌, Bool, List, ◌∷◌, ◌++◌, Option, none, some, ◌>>=◌, ◌==◌,
  ==_refl, ==_false, if◌then◌else◌, arith, ℤ, pos, decrement, Bool-cases, inl, inr,
}
use evnet.Event.{Mask, CtlOp}
use evnet.Event.Watch.{EpollLaws}
use evnet.Channel.{Channel, Net, load, channel_close}
use evnet.Channel.Ring.{Distinct-Apart, append-AllNe}
use evnet.Channel.Close.{told_some}
use evnet.Channel.Quiet.{close_told}
use evnet.Msgd.{Msgd, Usr, load_usr, store_usr, set_cur_con, usr_closed, closed_callback}
use evnet.Msgd.Served.{served, served_others, served_bound, IsServer}
use evnet.Msgd.Accept.{served_at}

-- What is asked of the application's function for a connection that ends: it returns, and it changes no more than
-- the application's state.
pub record IsLocal {ℓ κ} {K : Type ℓ} {A : Type κ}
    (on_close : ℕ → Net K (Msgd A) → Option (Net K (Msgd A))) : Type (ℓ ⊔ κ) where
  pub returns :
      (usr : ℕ) (s : Net K (Msgd A))
      → (a : A) × (on_close usr s ≡ some (record s { user = record (s.user) { app = a } }))

module _ {ℓ κ} {K : Type ℓ} {A : Type κ} {epoll_ctl : K → CtlOp → ℕ → Mask → Option K}
    {interest : K → ℕ → Mask} (laws : EpollLaws epoll_ctl interest)
    (handle : ℕ → ℕ → ℕ → List ℕ → Net K (Msgd A) → Option (Bool × Net K (Msgd A)))
    (on_close : ℕ → Net K (Msgd A) → Option (Net K (Msgd A))) (local : IsLocal on_close) where
  -- The users in memory and the count after one user is freed.
  abbrev pub UsrFreed : Msgd A → ℕ → Msgd A → Type 0
  UsrFreed m usr m' =
      (m'.cur_con ≡ decrement m.cur_con)
      × (m'.usrs usr ≡ none)
      × ((i : ℕ) → i ≢ usr → m'.usrs i ≡ m.usrs i)

  usr_closed-UsrFreed :
      (m : Msgd A) (s : Net K (Msgd A)) (usr : ℕ) (u : Usr)
      → s.user ≡ m
      → m.usrs usr ≡ some u
      → (m' : Msgd A) × (usr_closed epoll_ctl handle on_close usr s ≡ some (record s { user = m' }))
        × UsrFreed m usr m'
  unfolding usr_closed
  usr_closed-UsrFreed m s usr u same e =
      let finish = λ (t : Net K (Msgd A)).
        some (store_usr (set_cur_con t (decrement t.user.cur_con)) usr none) in
      let start =
        ap
          (λ o. o >>= λ (u : Usr). (if s.user.has_close then on_close usr s else some s) >>= finish)
          (ap (λ m. m.usrs usr) same ∙ e) in
      let freed = λ (a : A). record (s.user) {
        app = a;
        cur_con = decrement s.user.cur_con;
        usrs = λ i. if i == usr then none else s.user.usrs i;
      } in
      let freed-UsrFreed : (a : A) → UsrFreed m usr (freed a) = λ a. (
        ap (λ m. decrement m.cur_con) same,
        ap (λ b. if b then none else s.user.usrs usr) (==_refl usr usr refl),
        λ i n.
            ap (λ b. if b then none else s.user.usrs i) (==_false i usr n)
            ∙ ap (λ m. m.usrs i) same,
      ) in
      elim (Bool-cases s.user.has_close) [
        | inl told ↦
            let (a, run) = local.returns usr s in
            (
              freed a,
              start
                  ∙ ap (λ b. (if b then on_close usr s else some s) >>= finish) told
                  ∙ ap (λ o. o >>= finish) run,
              freed-UsrFreed a,
            )
        | inr untold ↦ (
          freed s.user.app,
          start ∙ ap (λ b. (if b then on_close usr s else some s) >>= finish) untold,
          freed-UsrFreed s.user.app,
        )
      ]

  -- channel_close of a channel with a handler, whose user is in memory, on a valid state of a server whose
  -- application keeps to its own state: the channel and its user are freed, the other users stay, and the counter
  -- goes down by one and is again the number of channels that are served.
  pub channel_close-IsServer :
      (s : Net K (Msgd A)) (xs : List ℕ) (c : ℕ) (ys : List ℕ) (ch : Channel) (u : Usr)
      (errcode : ℤ)
      → IsServer laws s (xs ++ (c ∷ ys))
      → load s c ≡ some ch
      → ch.handler ≢ 0
      → load_usr s ch.usr ≡ some u
      → (s' : Net K (Msgd A)) × (channel_close epoll_ctl
            (closed_callback epoll_ctl handle on_close)
            c
            errcode
            s
          ≡ some s')
        × IsServer laws s' (xs ++ ys)
        × (load s' c ≡ none)
        × (s'.closed ≡ ch.fd ∷ s.closed)
        × UsrFreed s.user ch.usr s'.user
        × (suc (served s'.heap (xs ++ ys)) ≡ served s.heap (xs ++ (c ∷ ys)))
  unfolding closed_callback
  channel_close-IsServer s xs c ys ch u errcode v e some_handler eu =
      let call = closed_callback epoll_ctl handle on_close in
      let (s', run, v', same, gone, closed, freed) =
        close_told laws call s xs c ys ch errcode (UsrFreed s.user ch.usr) v.net e (λ s1 q.
          let (m', run, f) = usr_closed-UsrFreed s.user s1 ch.usr u q eu in
          (
            m',
            told_some laws call s1 c ch.handler ch.usr errcode (some (record s1 { user = m' }))
                some_handler run,
            f,
          )) in
      let a = Distinct-Apart xs c ys v.net.ring.distinct in
      let kept =
        served_others s.heap s'.heap c (xs ++ ys) same (append-AllNe c xs ys a.before a.behind) in
      let one = served_bound (s.heap c) ch e some_handler in
      let count : suc (served s'.heap (xs ++ ys)) ≡ served s.heap (xs ++ (c ∷ ys)) =
        omega (arith, kept, served_at laws handle on_close s.heap xs c ys, one) in
      let (less, _, _) = freed in
      (
        s',
        run,
        record { net = v'; count = less ∙ ap decrement (v.count ∙ ap pos (sym count)) },
        gone,
        closed,
        freed,
        count,
      )
