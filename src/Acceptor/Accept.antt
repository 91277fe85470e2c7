-- ===== src/Acceptor/Accept.antt =====
-- _accept_handler where a channel could be made.
use evnet.Base.{
  ℕ, ◌≡◌, ◌≢◌, ap, ◌∙◌, Option, none, some, ◌>>=◌, List, ◌==◌, ==_false, false, if◌then◌else◌,
}
use evnet.Channel.{Net, channel_create}
use evnet.Acceptor.{Acceptor, AcceptorMsg, evaccepted, close_fd, notify_channel, accept_handler}

pub accept_handler_lem {ℓ κ} :
    {K : Type ℓ} {U : Type κ} (call : ℕ → ℕ → AcceptorMsg → Net K U → Option (Net K U))
    (s s1 : Net K U) (a : Acceptor) (fd new : ℕ) (ip_str : List ℕ) (port : ℕ)
    → a.handler ≢ 0
    → new ≢ 0
    → channel_create new fd ip_str port false s ≡ some (new, s1)
    → accept_handler call a (some (fd, ip_str, port)) new s
      ≡ call a.handler a.usr (evaccepted new) s1
unfolding accept_handler notify_channel
accept_handler_lem call s s1 a fd new ip_str port some_handler nz made =
    let tell = λ (p : ℕ × Net _ _).
      if p.0 == 0 then some (close_fd fd p.1) else notify_channel call a p.0 p.1 in
    ap (λ o. o >>= tell) made
    ∙ ap (λ b. if b then some (close_fd fd s1) else notify_channel call a new s1)
        (==_false new 0 nz)
    ∙ ap (λ b. if b then none else call a.handler a.usr (evaccepted new) s1)
        (==_false a.handler 0 some_handler)
