-- ===== src/Msgc/Closed.antt =====
-- The message client once its connection has ended.
use evnet.Base.{
  ℕ, ◌≡◌, ◌≢◌, refl, sym, ap, ◌∙◌, Bool, false, Bool-cases, inl, inr, List, ◌∷◌, ◌++◌, Option, none,
  some, ◌>>=◌, ==_false, if◌then◌else◌, ℤ, add32,
}
use evnet.Base.Block.{Block, read_at}
use evnet.Msg.Pack.{make_msg_packet}
use evnet.Event.{Mask, CtlOp}
use evnet.Event.Watch.{EpollLaws}
use evnet.Channel.{Channel, Net, load, channel_send}
use evnet.Channel.Valid.{IsNet}
use evnet.Channel.Send.{channel_send_freed}
use evnet.Channel.Close.{told_some}
use evnet.Channel.Quiet.{close_told}
use evnet.Msgc.{Msgc, client_closed, client_closed_callback, msgc_send, msgc_close}

-- What is asked of the application's function for a connection that ends: it returns, and it changes no more than
-- the application's state.
pub record IsLocal {ℓ κ} {K : Type ℓ} {A : Type κ}
    (on_close : Net K (Msgc A) → Option (Net K (Msgc A))) : Type (ℓ ⊔ κ) where
  pub returns :
      (s : Net K (Msgc A))
      → (a : A) × (on_close s ≡ some (record s { user = record (s.user) { app = a } }))

bind_none {ℓ κ} :
    {A : Type ℓ} {B : Type κ} (o : Option A) (f : A → Option B)
    → ((a : A) → f a ≡ none)
    → (o >>= f) ≡ none
bind_none none f h = refl
bind_none (some a) f h = h a

module _ {ℓ κ} {K : Type ℓ} {A : Type κ} {epoll_ctl : K → CtlOp → ℕ → Mask → Option K}
    {interest : K → ℕ → Mask} (laws : EpollLaws epoll_ctl interest)
    (handle : ℕ → ℕ → List ℕ → Net K (Msgc A) → Option (Bool × Net K (Msgc A)))
    (on_close : Net K (Msgc A) → Option (Net K (Msgc A))) (local : IsLocal on_close) where
  client_closed_lem :
      (s : Net K (Msgc A))
      → (a : A) × (client_closed epoll_ctl handle on_close s
          ≡ some (record s { user = record (s.user) { app = a } }))
  unfolding client_closed
  client_closed_lem s = elim (Bool-cases s.user.has_close) [
    | inl told ↦
        let (a, run) = local.returns s in (a, ap (λ b. if b then on_close s else some s) told ∙ run)
    | inr untold ↦ (s.user.app, ap (λ b. if b then on_close s else some s) untold)
  ]

  freed_lem :
      (s : Net K (Msgc A)) (main sub : ℕ) (bytes : Block) (size : ℕ)
      → s.user.chan ≢ 0
      → load s s.user.chan ≡ none
      → msgc_send epoll_ctl handle on_close main sub bytes size s ≡ none
  unfolding msgc_send
  freed_lem s main sub bytes size nz freed =
      let call = client_closed_callback epoll_ctl handle on_close in
      let sent = λ (filled : Block). record s {
        user = record (s.user) {
          parser = record (s.user.parser) {
            send_packet_count = add32 s.user.parser.send_packet_count 1;
          };
          send_buffer = filled;
        };
      } in
      let finish = λ (p : Block × ℕ).
        read_at p.0 0 p.1 >>= λ packet. channel_send epoll_ctl call s.user.chan packet (sent p.0) in
      let packets = make_msg_packet s.user.send_buffer main sub bytes size in
      ap (λ b. if b then some (false, s) else (packets >>= finish)) (==_false s.user.chan 0 nz)
      ∙ bind_none packets finish (λ p.
        bind_none (read_at p.0 0 p.1)
          (λ packet. channel_send epoll_ctl call s.user.chan packet (sent p.0))
          (λ packet. channel_send_freed epoll_ctl call (sent p.0) s.user.chan packet freed))

  -- msgc_close of a client that is connected and bound, for an application that keeps to its own state: the channel is
  -- freed, and the client still points to it, so that any call of msgc_send from then on uses freed memory.
  pub msgc_send_after_close :
      (s : Net K (Msgc A)) (xs ys : List ℕ) (ch : Channel) (errcode : ℤ) (main sub : ℕ)
      (bytes : Block) (size : ℕ)
      → IsNet laws s (xs ++ (s.user.chan ∷ ys))
      → load s s.user.chan ≡ some ch
      → ch.handler ≢ 0
      → s.user.chan ≢ 0
      → (s' : Net K (Msgc A)) × (msgc_close epoll_ctl handle on_close errcode s ≡ some s')
        × IsNet laws s' (xs ++ ys)
        × (s'.user.chan ≡ s.user.chan)
        × (msgc_send epoll_ctl handle on_close main sub bytes size s' ≡ none)
  unfolding msgc_close client_closed_callback
  msgc_send_after_close s xs ys ch errcode main sub bytes size v e some_handler nz =
      let call = client_closed_callback epoll_ctl handle on_close in
      let (s', run, v', _, freed, _, same) =
        close_told laws call s xs s.user.chan ys ch errcode (λ u. u.chan ≡ s.user.chan) v e
          (λ s1 q.
            let (a, run) = client_closed_lem s1 in
            (
              record (s1.user) { app = a },
              told_some laws call s1 s.user.chan ch.handler ch.usr errcode
                  (some (record s1 { user = record (s1.user) { app = a } })) some_handler run,
              ap (λ u. u.chan) q,
            )) in
      (
        s',
        run,
        v',
        same,
        freed_lem s' main sub bytes size (λ z. nz (sym same ∙ z)) (ap s'.heap same ∙ freed),
      )
