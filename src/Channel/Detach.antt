-- ===== src/Channel/Detach.antt =====
-- A channel that channel_close has taken out of the ring, until its memory is freed.
use evnet.Base.{
  ℕ, ◌≡◌, ◌≢◌, refl, sym, ap, ◌∙◌, subst, Option, some, none, List, [], ◌∷◌, ◌++◌, inl, inr,
}
use evnet.Event.{Mask, CtlOp}
use evnet.Event.Table.{mask_at}
use evnet.Event.Watch.{EpollLaws, IsValid}
use evnet.Channel.{Channel, Net, unlink}
use evnet.Channel.Ring.{AllNe, Agree, Agree-Links, RingOf, Distinct-Apart, append-AllNe}
use evnet.Channel.Links.{
  bare, next_of, prev_of, next_field, prev_field, Cell, Cells, SameBut, SameBut-Cell,
}
use evnet.Channel.Unlink.{unlink-IsRing, Cells-split}
use evnet.Channel.Valid.{
  fd_field, flags_field, fd_of, flags_of, Mirrors, AllMirror, OtherFds, DistinctFds, Elsewhere,
  IsNet, same-DistinctFds, same-Elsewhere, same-AllMirror,
}

pub fd_bare : (o : Option Channel) → fd_field (bare o) ≡ fd_field o
fd_bare none = refl
fd_bare (some c) = refl

pub flags_bare : (o : Option Channel) → flags_field (bare o) ≡ flags_field o
flags_bare none = refl
flags_bare (some c) = refl

module _ {ℓ κ} {K : Type ℓ} {U : Type κ} where
  pub bare-fd :
      (s s' : Net K U) (i : ℕ) → bare (s'.heap i) ≡ bare (s.heap i) → fd_of s' i ≡ fd_of s i
  bare-fd s s' i e = sym (fd_bare (s'.heap i)) ∙ ap fd_field e ∙ fd_bare (s.heap i)

  pub bare-flags :
      (s s' : Net K U) (i : ℕ) → bare (s'.heap i) ≡ bare (s.heap i) → flags_of s' i ≡ flags_of s i
  bare-flags s s' i e = sym (flags_bare (s'.heap i)) ∙ ap flags_field e ∙ flags_bare (s.heap i)

  OtherFds-Elsewhere :
      (s : Net K U) (c : ℕ) (xs : List ℕ) → OtherFds s (fd_of s c) xs → Elsewhere s c xs
  OtherFds-Elsewhere s c [] h = tt
  OtherFds-Elsewhere s c (x ∷ xs) (h, hs) = (inr h, OtherFds-Elsewhere s c xs hs)

  OtherFds-at :
      (s : Net K U) (fd : ℕ) (xs : List ℕ) (c : ℕ) (ys : List ℕ)
      → OtherFds s fd (xs ++ (c ∷ ys))
      → fd ≢ fd_of s c
  OtherFds-at s fd [] c ys (h, hs) = h
  OtherFds-at s fd (x ∷ xs) c ys (h, hs) = OtherFds-at s fd xs c ys hs

  OtherFds-without :
      (s : Net K U) (fd : ℕ) (xs : List ℕ) (c : ℕ) (ys : List ℕ)
      → OtherFds s fd (xs ++ (c ∷ ys))
      → OtherFds s fd (xs ++ ys)
  OtherFds-without s fd [] c ys (h, hs) = hs
  OtherFds-without s fd (x ∷ xs) c ys (h, hs) = (h, OtherFds-without s fd xs c ys hs)

  DistinctFds-without :
      (s : Net K U) (xs : List ℕ) (c : ℕ) (ys : List ℕ)
      → DistinctFds s (xs ++ (c ∷ ys))
      → DistinctFds s (xs ++ ys)
  DistinctFds-without s [] c ys (h, hs) = hs
  DistinctFds-without s (x ∷ xs) c ys (h, hs) =
      (OtherFds-without s (fd_of s x) xs c ys h, DistinctFds-without s xs c ys hs)

  pub AllMirror-without :
      (s : Net K U) (xs : List ℕ) (c : ℕ) (ys : List ℕ)
      → AllMirror s (xs ++ (c ∷ ys))
      → AllMirror s (xs ++ ys) × Mirrors s c
  AllMirror-without s [] c ys (h, hs) = (hs, h)
  AllMirror-without s (x ∷ xs) c ys (h, hs) =
      let (r, m) = AllMirror-without s xs c ys hs in ((h, r), m)

  -- A channel of the ring has its descriptor for itself.
  pub DistinctFds-Elsewhere :
      (s : Net K U) (xs : List ℕ) (c : ℕ) (ys : List ℕ)
      → DistinctFds s (xs ++ (c ∷ ys))
      → Elsewhere s c (xs ++ (c ∷ ys)) × Elsewhere s c (xs ++ ys)
  DistinctFds-Elsewhere s [] c ys (h, hs) =
      let e = OtherFds-Elsewhere s c ys h in ((inl refl, e), e)
  DistinctFds-Elsewhere s (x ∷ xs) c ys (h, hs) =
      let n = OtherFds-at s (fd_of s x) xs c ys h in
      let (a, b) = DistinctFds-Elsewhere s xs c ys hs in
      ((inr (λ e. n (sym e)), a), (inr (λ e. n (sym e)), b))

  pub others-Cells :
      (s s' : Net K U) (c : ℕ) (xs : List ℕ)
      → ((i : ℕ) → c ≢ i → s'.heap i ≡ s.heap i)
      → AllNe c xs
      → Cells s xs
      → Cells s' xs
  others-Cells s s' c [] o n cs = tt
  others-Cells s s' c (x ∷ xs) o (n, ns) (z, (d, e), cs) =
      (z, (d, o x n ∙ e), others-Cells s s' c xs o ns cs)

  others-OtherFds :
      (s s' : Net K U) (c fd : ℕ) (xs : List ℕ)
      → ((i : ℕ) → c ≢ i → s'.heap i ≡ s.heap i)
      → AllNe c xs
      → OtherFds s fd xs
      → OtherFds s' fd xs
  others-OtherFds s s' c fd [] o n fs = tt
  others-OtherFds s s' c fd (x ∷ xs) o (n, ns) (f, fs) =
      ((λ e. f (e ∙ ap fd_field (o x n))), others-OtherFds s s' c fd xs o ns fs)

  pub others-DistinctFds :
      (s s' : Net K U) (c : ℕ) (xs : List ℕ)
      → ((i : ℕ) → c ≢ i → s'.heap i ≡ s.heap i)
      → AllNe c xs
      → DistinctFds s xs
      → DistinctFds s' xs
  others-DistinctFds s s' c [] o n fs = tt
  others-DistinctFds s s' c (x ∷ xs) o (n, ns) (f, fs) = (
    subst (λ fd. OtherFds s' fd xs) (sym (ap fd_field (o x n)))
        (others-OtherFds s s' c (fd_of s x) xs o ns f),
    others-DistinctFds s s' c xs o ns fs,
  )

  pub others-AllMirror :
      (s s' : Net K U) (c : ℕ) (xs : List ℕ)
      → ((i : ℕ) → c ≢ i → s'.heap i ≡ s.heap i)
      → s'.loop ≡ s.loop
      → AllNe c xs
      → AllMirror s xs
      → AllMirror s' xs
  others-AllMirror s s' c [] o m n a = tt
  others-AllMirror s s' c (x ∷ xs) o m (n, ns) (a, as') = (
    ap (mask_at s'.loop.events) (ap fd_field (o x n))
        ∙ ap (λ l. mask_at l.events (fd_of s x)) m
        ∙ a
        ∙ sym (ap flags_field (o x n)),
    others-AllMirror s s' c xs o m ns as',
  )

  others-Agree :
      (s s' : Net K U) (c : ℕ) (xs : List ℕ)
      → ((i : ℕ) → c ≢ i → s'.heap i ≡ s.heap i)
      → AllNe c xs
      → Agree (next_of s') (next_of s) xs × Agree (prev_of s') (prev_of s) xs
  others-Agree s s' c [] o n = (tt, tt)
  others-Agree s s' c (x ∷ xs) o (n, ns) =
      let (a, b) = others-Agree s s' c xs o ns in
      ((ap next_field (o x n), a), (ap prev_field (o x n), b))

  pub others-RingOf :
      (s s' : Net K U) (c : ℕ) (xs : List ℕ)
      → ((i : ℕ) → c ≢ i → s'.heap i ≡ s.heap i)
      → s'.head ≡ s.head
      → AllNe c xs
      → RingOf (next_of s) (prev_of s) s.head xs
      → RingOf (next_of s') (prev_of s') s'.head xs
  others-RingOf s s' c [] o h n r = h ∙ r
  others-RingOf s s' c (x ∷ xs) o h (n, ns) (e, l) =
      let (a, b) = others-Agree s s' c xs o ns in
      (
        h ∙ e,
        Agree-Links (next_of s) (prev_of s) (next_of s') (prev_of s') x xs x l
            (ap next_field (o x n)) a b (ap prev_field (o x n)),
      )

  module _ {epoll_ctl : K → CtlOp → ℕ → Mask → Option K} {interest : K → ℕ → Mask}
      (laws : EpollLaws epoll_ctl interest) where
    -- The channel `c` is out of the ring `zs` and not yet freed; its descriptor is its own.
    pub record Detached (s : Net K U) (c : ℕ) (zs : List ℕ) : Type (ℓ ⊔ κ) where
      pub net : IsNet laws s zs
      pub elsewhere : Elsewhere s c zs
      pub apart : AllNe c zs
      pub cell : Cell s c
      pub mirror : Mirrors s c

    pub unlink-Detached :
        (s : Net K U) (xs : List ℕ) (c : ℕ) (ys : List ℕ)
        → IsNet laws s (xs ++ (c ∷ ys))
        → (s' : Net K U) × (unlink c s ≡ some s') × Detached s' c (xs ++ ys) × SameBut s s'
    unlink-Detached s xs c ys v =
        let (s', run, ring, same) = unlink-IsRing s xs c ys v.ring in
        let fd = λ (i : ℕ). bare-fd s s' i (same.cells i) in
        let flags = λ (i : ℕ). bare-flags s s' i (same.cells i) in
        let masks = λ (i : ℕ). ap (λ l. mask_at l.events i) same.loop in
        let (mirror, m) = AllMirror-without s xs c ys v.mirror in
        let a = Distinct-Apart xs c ys v.ring.distinct in
        let (_, e) = DistinctFds-Elsewhere s xs c ys v.fds in
        let (_, cell, _) = Cells-split s xs c ys v.ring.cells in
        (
          s',
          run,
          record {
            net = record {
              ring = ring;
              loop = subst (IsValid laws) (sym same.loop) v.loop;
              mirror = same-AllMirror s s' (xs ++ ys) fd flags masks mirror;
              fds = same-DistinctFds s s' (xs ++ ys) fd (DistinctFds-without s xs c ys v.fds);
            };
            elsewhere = same-Elsewhere s s' c (xs ++ ys) fd e;
            apart = append-AllNe c xs ys a.before a.behind;
            cell = SameBut-Cell s s' c same cell;
            mirror = ap (mask_at s'.loop.events) (fd c) ∙ masks (fd_of s c) ∙ m ∙ sym (flags c);
          },
          same,
        )
