-- ===== src/Channel/Valid.antt =====
-- The state of all channels: the ring, the event loop, and the flags that say for what each is watched.
use evnet.Base.{
  ℕ, ◌≡◌, ◌≢◌, sym, ap, ◌∙◌, subst, List, [], ◌∷◌, Option, some, none, ℕ_discrete, ◌⊎◌, inl, inr,
}
use mathlib.Core.Path.{fun_ext}
use evnet.Event.{Mask, ae_none, CtlOp}
use evnet.Event.Table.{mask_at}
use evnet.Event.Watch.{EpollLaws, IsValid}
use evnet.Channel.{Channel, Net}
use evnet.Channel.Ring.{RingOf}
use evnet.Channel.Links.{next_of, prev_of, Cell, Cells, IsRing}

abbrev pub fd_field : Option Channel → ℕ
fd_field none = 0
fd_field (some c) = c.fd

abbrev pub flags_field : Option Channel → Mask
flags_field none = ae_none
flags_field (some c) = record { readable = c.recv_enabled; writable = c.send_enabled }

module _ {ℓ κ} {K : Type ℓ} {U : Type κ} where
  abbrev pub fd_of : Net K U → ℕ → ℕ
  fd_of s i = fd_field (s.heap i)

  abbrev pub flags_of : Net K U → ℕ → Mask
  flags_of s i = flags_field (s.heap i)

  -- The loop watches the channel's descriptor for just what its flags say.
  abbrev pub Mirrors : Net K U → ℕ → Type 0
  Mirrors s c = mask_at s.loop.events (fd_of s c) ≡ flags_of s c

  abbrev pub AllMirror : Net K U → List ℕ → Type 0
  AllMirror s [] = Unit {0}
  AllMirror s (x ∷ xs) = Mirrors s x × AllMirror s xs

  -- No channel of the list has the descriptor `fd`; and no two have the same.
  abbrev pub OtherFds : Net K U → ℕ → List ℕ → Type 0
  OtherFds s fd [] = Unit {0}
  OtherFds s fd (x ∷ xs) = (fd ≢ fd_of s x) × OtherFds s fd xs

  abbrev pub DistinctFds : Net K U → List ℕ → Type 0
  DistinctFds s [] = Unit {0}
  DistinctFds s (x ∷ xs) = OtherFds s (fd_of s x) xs × DistinctFds s xs

  module _ {epoll_ctl : K → CtlOp → ℕ → Mask → Option K} {interest : K → ℕ → Mask}
      (laws : EpollLaws epoll_ctl interest) where
    -- The channels are `xs`, in the order of the ring.
    pub record IsNet (s : Net K U) (xs : List ℕ) : Type (ℓ ⊔ κ) where
      pub ring : IsRing s xs
      pub loop : IsValid laws s.loop
      pub mirror : AllMirror s xs
      pub fds : DistinctFds s xs

    -- An operation on the channel `c` alone: its links and its descriptor stay, and so do all other channels
    -- and what the loop watches for other descriptors.
    pub record Touches (s : Net K U) (c : ℕ) (s' : Net K U) : Type (ℓ ⊔ κ) where
      pub next : (i : ℕ) → next_of s' i ≡ next_of s i
      pub prev : (i : ℕ) → prev_of s' i ≡ prev_of s i
      pub head : s'.head ≡ s.head
      pub others : (i : ℕ) → c ≢ i → s'.heap i ≡ s.heap i
      pub cell : Cell s' c
      pub fd : fd_of s' c ≡ fd_of s c
      pub loop : IsValid laws s'.loop
      pub masks : (i : ℕ) → fd_of s c ≢ i → mask_at s'.loop.events i ≡ mask_at s.loop.events i
      pub mirror : Mirrors s' c

    pub Touches-trans : (a b d : Net K U) (c : ℕ) → Touches a c b → Touches b c d → Touches a c d
    Touches-trans a b d c p q = record {
      next = λ i. q.next i ∙ p.next i;
      prev = λ i. q.prev i ∙ p.prev i;
      head = q.head ∙ p.head;
      others = λ i n. q.others i n ∙ p.others i n;
      cell = q.cell;
      fd = q.fd ∙ p.fd;
      loop = q.loop;
      masks = λ i n. q.masks i (λ e. n (sym p.fd ∙ e)) ∙ p.masks i n;
      mirror = q.mirror;
    }

  pub same_ring :
      (s s' : Net K U) (xs : List ℕ)
      → ((i : ℕ) → next_of s' i ≡ next_of s i)
      → ((i : ℕ) → prev_of s' i ≡ prev_of s i)
      → s'.head ≡ s.head
      → RingOf (next_of s) (prev_of s) s.head xs
      → RingOf (next_of s') (prev_of s') s'.head xs
  same_ring s s' xs n p h r =
      subst (λ f. RingOf f (prev_of s') s'.head xs) (sym (fun_ext n))
        (subst (λ g. RingOf (next_of s) g s'.head xs) (sym (fun_ext p))
          (subst (λ a. RingOf (next_of s) (prev_of s) a xs) (sym h) r))

  -- The channel `c` shares its descriptor with no other channel of the list.
  abbrev pub Elsewhere : Net K U → ℕ → List ℕ → Type 0
  Elsewhere s c [] = Unit {0}
  Elsewhere s c (x ∷ xs) = ((c ≡ x) ⊎ (fd_of s c ≢ fd_of s x)) × Elsewhere s c xs

  -- Descriptors, channels and flags are the same at each address.
  pub same-OtherFds :
      (s s' : Net K U) (fd : ℕ) (xs : List ℕ)
      → ((i : ℕ) → fd_of s' i ≡ fd_of s i)
      → OtherFds s fd xs
      → OtherFds s' fd xs
  same-OtherFds s s' fd [] o fs = tt
  same-OtherFds s s' fd (x ∷ xs) o (f, fs) = ((λ e. f (e ∙ o x)), same-OtherFds s s' fd xs o fs)

  pub same-DistinctFds :
      (s s' : Net K U) (xs : List ℕ)
      → ((i : ℕ) → fd_of s' i ≡ fd_of s i)
      → DistinctFds s xs
      → DistinctFds s' xs
  same-DistinctFds s s' [] o fs = tt
  same-DistinctFds s s' (x ∷ xs) o (f, fs) = (
    subst (λ fd. OtherFds s' fd xs) (sym (o x)) (same-OtherFds s s' (fd_of s x) xs o f),
    same-DistinctFds s s' xs o fs,
  )

  pub same-Elsewhere :
      (s s' : Net K U) (c : ℕ) (xs : List ℕ)
      → ((i : ℕ) → fd_of s' i ≡ fd_of s i)
      → Elsewhere s c xs
      → Elsewhere s' c xs
  same-Elsewhere s s' c [] o es = tt
  same-Elsewhere s s' c (x ∷ xs) o (inl e, es) = (inl e, same-Elsewhere s s' c xs o es)
  same-Elsewhere s s' c (x ∷ xs) o (inr n, es) =
      (inr (λ e. n (sym (o c) ∙ e ∙ o x)), same-Elsewhere s s' c xs o es)

  pub same-AllMirror :
      (s s' : Net K U) (xs : List ℕ)
      → ((i : ℕ) → fd_of s' i ≡ fd_of s i)
      → ((i : ℕ) → flags_of s' i ≡ flags_of s i)
      → ((i : ℕ) → mask_at s'.loop.events i ≡ mask_at s.loop.events i)
      → AllMirror s xs
      → AllMirror s' xs
  same-AllMirror s s' [] o f m a = tt
  same-AllMirror s s' (x ∷ xs) o f m (a, as') = (
    ap (mask_at s'.loop.events) (o x) ∙ m (fd_of s x) ∙ a ∙ sym (f x),
    same-AllMirror s s' xs o f m as',
  )

  module _ {epoll_ctl : K → CtlOp → ℕ → Mask → Option K} {interest : K → ℕ → Mask}
      {laws : EpollLaws epoll_ctl interest} where
    touched-Cells :
        (s s' : Net K U) (c : ℕ) (xs : List ℕ) → Touches laws s c s' → Cells s xs → Cells s' xs
    touched-Cells s s' c [] t cs = tt
    touched-Cells s s' c (x ∷ xs) t (z, (d, e), cs) = (
      z,
      elim (ℕ_discrete c x) [ yes p ↦ subst (Cell s') p t.cell | no n ↦ (d, t.others x n ∙ e) ],
      touched-Cells s s' c xs t cs,
    )

    touched_fd : (s s' : Net K U) (c : ℕ) → Touches laws s c s' → (i : ℕ) → fd_of s' i ≡ fd_of s i
    touched_fd s s' c t i = elim (ℕ_discrete c i) [
      | yes p ↦ subst (λ i. fd_of s' i ≡ fd_of s i) p t.fd
      | no n ↦ ap fd_field (t.others i n)
    ]

    touched-AllMirror :
        (s s' : Net K U) (c : ℕ) (xs : List ℕ)
        → Touches laws s c s'
        → Elsewhere s c xs
        → AllMirror s xs
        → AllMirror s' xs
    touched-AllMirror s s' c [] t es a = tt
    touched-AllMirror s s' c (x ∷ xs) t (e, es) (a, as') = (
      elim (ℕ_discrete c x) [
        | yes p ↦ subst (Mirrors s') p t.mirror
        | no n ↦
            ap (mask_at s'.loop.events) (ap fd_field (t.others x n))
            ∙ t.masks (fd_of s x) (elim e [ inl p ↦ absurd (n p) | inr q ↦ q ])
            ∙ a
            ∙ sym (ap flags_field (t.others x n))
      ],
      touched-AllMirror s s' c xs t es as',
    )

    -- An operation on one channel keeps the state of all channels valid, if no other channel has its
    -- descriptor.
    pub Touches-IsNet :
        (s s' : Net K U) (c : ℕ) (xs : List ℕ)
        → IsNet laws s xs
        → Elsewhere s c xs
        → Touches laws s c s'
        → IsNet laws s' xs × Elsewhere s' c xs
    Touches-IsNet s s' c xs v e t = (
      record {
        ring = record {
          ring = same_ring s s' xs t.next t.prev t.head v.ring.ring;
          distinct = v.ring.distinct;
          cells = touched-Cells s s' c xs t v.ring.cells;
        };
        loop = t.loop;
        mirror = touched-AllMirror s s' c xs t e v.mirror;
        fds = same-DistinctFds s s' xs (touched_fd s s' c t) v.fds;
      },
      same-Elsewhere s s' c xs (touched_fd s s' c t) e,
    )
