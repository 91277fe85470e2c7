-- ===== src/Msgd/Served.antt =====
-- The message server's count of its connections.
use evnet.Base.{
  ℕ, ◌+◌, ◌≡◌, ◌≢◌, refl, sym, ap, ap₂, ◌∙◌, List, [], ◌∷◌, ◌++◌, Option, none, some, ◌==◌, ==_refl,
  ==_false, if◌then◌else◌, arith, pos,
}
use evnet.Event.{Mask, CtlOp}
use evnet.Event.Watch.{EpollLaws}
use evnet.Channel.{Channel, Net}
use evnet.Channel.Links.{bare}
use evnet.Channel.Ring.{AllNe}
use evnet.Channel.Valid.{IsNet}
use evnet.Msgd.{Msgd}

-- The channels of the list that have a handler.
abbrev pub is_served : Option Channel → ℕ
is_served none = 0
is_served (some ch) = if ch.handler == 0 then 0 else 1

abbrev pub served : (ℕ → Option Channel) → List ℕ → ℕ
served h [] = 0
served h (x ∷ xs) = is_served (h x) + served h xs

served_bare : (o : Option Channel) → is_served (bare o) ≡ is_served o
served_bare none = refl
served_bare (some ch) = refl

pub served-append :
    (h : ℕ → Option Channel) (xs ys : List ℕ) → served h (xs ++ ys) ≡ served h xs + served h ys
served-append h [] ys = omega arith
served-append h (x ∷ xs) ys = omega (arith, served-append h xs ys)

-- The count of a list without the channel that was changed.
pub served_others :
    (h h' : ℕ → Option Channel) (c : ℕ) (xs : List ℕ)
    → ((i : ℕ) → c ≢ i → bare (h' i) ≡ bare (h i))
    → AllNe c xs
    → served h' xs ≡ served h xs
served_others h h' c [] same n = refl
served_others h h' c (x ∷ xs) same (n, ns) =
    ap₂ (λ (a b : ℕ). a + b)
      (sym (served_bare (h' x)) ∙ ap is_served (same x n) ∙ served_bare (h x))
      (served_others h h' c xs same ns)

pub served_bound :
    (o : Option Channel) (ch : Channel) → o ≡ some ch → ch.handler ≢ 0 → is_served o ≡ 1
served_bound o ch e n = ap is_served e ∙ ap (λ b. if b then 0 else 1) (==_false ch.handler 0 n)

pub served_unbound :
    (o : Option Channel) (ch : Channel) → o ≡ some ch → ch.handler ≡ 0 → is_served o ≡ 0
served_unbound o ch e z = ap is_served e ∙ ap (λ b. if b then 0 else 1) (==_refl ch.handler 0 z)

module _ {ℓ κ} {K : Type ℓ} {A : Type κ} {epoll_ctl : K → CtlOp → ℕ → Mask → Option K}
    {interest : K → ℕ → Mask} (laws : EpollLaws epoll_ctl interest) where
  -- A valid state in which the server's counter is the number of channels that have a handler.
  pub record IsServer (s : Net K (Msgd A)) (xs : List ℕ) : Type (ℓ ⊔ κ) where
    pub net : IsNet laws s xs
    pub count : s.user.cur_con ≡ pos (served s.heap xs)
