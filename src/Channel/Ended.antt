-- ===== src/Channel/Ended.antt =====
-- The channels that _check_timeouts closes: which they are, what is closed and told, and that they are freed.
use evnet.Base.{
  ℕ, ◌≡◌, ◌≢◌, refl, sym, ap, ◌∙◌, Bool, true, Bool-cases, Option, some, none, if◌then◌else◌, List,
  [], ◌∷◌, inl, inr, ℤ, minus_one,
}
use evnet.Channel.{Channel, Net, load}
use evnet.Channel.Ring.{AllNe}
use evnet.Channel.Links.{bare}
use evnet.Channel.Quiet.{tell_closed}

-- The channels that go, in the order of the ring: of two or more all that are dead but for the last.
abbrev pub with_dead : (ℕ → Bool) → ℕ → List ℕ → List ℕ
with_dead dead x xs = if dead x then x ∷ xs else xs

abbrev pub gone_but_last : (ℕ → Bool) → List ℕ → List ℕ
gone_but_last dead [] = []
gone_but_last dead (x ∷ []) = []
gone_but_last dead (x ∷ (y ∷ ys)) = with_dead dead x (gone_but_last dead (y ∷ ys))

abbrev pub gone : (ℕ → Bool) → List ℕ → List ℕ
gone dead [] = []
gone dead (x ∷ []) = with_dead dead x []
gone dead (x ∷ (y ∷ ys)) = gone_but_last dead (x ∷ (y ∷ ys))

with_dead-AllNe :
    (dead : ℕ → Bool) (c x : ℕ) (xs : List ℕ) → c ≢ x → AllNe c xs → AllNe c (with_dead dead x xs)
with_dead-AllNe dead c x xs n a = elim (Bool-cases (dead x)) [
  | inl e ↦ rw e (n, a)
  | inr e ↦ rw e a
]

pub gone-AllNe :
    (dead : ℕ → Bool) (c : ℕ) (xs : List ℕ) → AllNe c xs → AllNe c (gone_but_last dead xs)
gone-AllNe dead c [] a = tt
gone-AllNe dead c (x ∷ []) a = tt
gone-AllNe dead c (x ∷ (y ∷ ys)) (n, a) =
    with_dead-AllNe dead c x (gone_but_last dead (y ∷ ys)) n (gone-AllNe dead c (y ∷ ys) a)

module _ {κ} {U : Type κ} (tell : ℕ → ℕ → ℕ → ℤ → U → U) where
  -- The closed descriptors and the users' state, after the end of one channel and of those of a list in turn: the
  -- descriptor is closed, and the handler, if there is one, is told of the end with the error -1.
  abbrev pub end_one : Option Channel → ℕ → List ℕ × U → List ℕ × U
  end_one none x p = p
  end_one (some ch) x (cs, u) = (ch.fd ∷ cs, tell_closed tell ch.handler ch.usr x minus_one u)

  unfoldable pub ended : (ℕ → Option Channel) → List ℕ → List ℕ × U → List ℕ × U
  ended h [] p = p
  ended h (x ∷ xs) p = ended h xs (end_one (h x) x p)

  end_bare : (o : Option Channel) (x : ℕ) (p : List ℕ × U) → end_one (bare o) x p ≡ end_one o x p
  end_bare none x p = refl
  end_bare (some ch) x p = refl

  pub kept-ended :
      (h h' : ℕ → Option Channel) (c : ℕ) (xs : List ℕ) (p : List ℕ × U)
      → ((i : ℕ) → c ≢ i → bare (h' i) ≡ bare (h i))
      → AllNe c xs
      → ended h' xs p ≡ ended h xs p
  unfolding ended
  kept-ended h h' c [] p same a = refl
  kept-ended h h' c (x ∷ xs) p same (n, a) =
      let one : end_one (h' x) x p ≡ end_one (h x) x p =
        sym (end_bare (h' x) x p) ∙ ap (λ o. end_one o x p) (same x n) ∙ end_bare (h x) x p in
      kept-ended h h' c xs (end_one (h' x) x p) same a ∙ ap (ended h xs) one

  pub ended-with_dead :
      (dead : ℕ → Bool) (h : ℕ → Option Channel) (x : ℕ) (xs : List ℕ) (p : List ℕ × U)
      → ended h (with_dead dead x xs) p ≡ ended h xs (if dead x then end_one (h x) x p else p)
  unfolding ended
  ended-with_dead dead h x xs p = elim (Bool-cases (dead x)) [
    | inl e ↦ rw e refl
    | inr e ↦ rw e refl
  ]

module _ {ℓ κ} {K : Type ℓ} {U : Type κ} where
  -- The memory of each channel of the list is freed.
  unfoldable pub AllFreed : Net K U → List ℕ → Type 0
  AllFreed s [] = Unit {0}
  AllFreed s (x ∷ xs) = (load s x ≡ none) × AllFreed s xs

  pub AllFreed-with_dead :
      (dead : ℕ → Bool) (s : Net K U) (x : ℕ) (xs : List ℕ)
      → (dead x ≡ true → load s x ≡ none)
      → AllFreed s xs
      → AllFreed s (with_dead dead x xs)
  unfolding AllFreed
  AllFreed-with_dead dead s x xs freed a = elim (Bool-cases (dead x)) [
    | inl e ↦ rw e (freed e, a)
    | inr e ↦ rw e a
  ]

pub bare-none : (o : Option Channel) → bare o ≡ none → o ≡ none
bare-none none e = refl
bare-none (some ch) e = cc
