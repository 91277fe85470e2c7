-- ===== src/Channel/Unlink.antt =====
-- channel_close takes the channel out of the ring.
use evnet.Base.{
  ℕ, ◌≡◌, ◌≢◌, refl, sym, ap, ap₂, ◌∙◌, subst, List, [], ◌∷◌, ◌++◌, if◌then◌else◌, ◌==◌, ==_refl,
  ==_false, Option, some, ◌>>=◌, append-nil,
}
use evnet.Channel.{Channel, Net, load, set_next, set_prev, unlink}
use evnet.Channel.Ring.{
  update, update_other, AllNe, Links, update-Agree, Agree-Links, ne_last, Links-split, append-AllNe,
  Distinct-Apart,
}
use evnet.Channel.Relink.{Links-headless, Links-endless, Links-without}
use evnet.Channel.Links.{
  next_of, prev_of, next_field, prev_field, SameBut, SameBut-Cell, SameBut-Cells, Cell, Cells,
  Relinks, Relinks-Links, set_next-Relinks, then_next, then_prev, IsRing,
}
use evnet.Channel.Create.{Cell-last}

-- The last assignments do not matter to links that do not pass by `c`.
cut-Links :
    (n p : ℕ → ℕ) (c a : ℕ) (xs : List ℕ) (b : ℕ)
    → Links n p a xs b
    → c ≢ a
    → AllNe c xs
    → c ≢ b
    → Links (update n c 0) (update p c 0) a xs b
cut-Links n p c a xs b l ca cxs cb =
    Agree-Links n p (update n c 0) (update p c 0) a xs b l (update_other n 0 (λ e. ca (sym e)))
      (update-Agree n c 0 xs cxs) (update-Agree p c 0 xs cxs) (update_other p 0 (λ e. cb (sym e)))

module _ {ℓ κ} {K : Type ℓ} {U : Type κ} where
  -- The two assignments of NULL at the end.
  abbrev cut_off : ℕ → Option (Net K U) → Option (Net K U)
  cut_off c o = o >>= λ s2. set_next s2 c 0 >>= λ s3. set_prev s3 c 0

  -- The assignments to the neighbours.
  abbrev bypass : ℕ → ℕ → ℕ → Net K U → Option (Net K U)
  bypass c a b s = set_next s a b >>= λ s2. load s2 c >>= λ ch2. set_prev s2 ch2.next ch2.prev

  abbrev around : ℕ → Channel → ℕ → Net K U → Option (Net K U)
  around c ch head s =
      let s1 = record s { head = head } in
      if c == head then some (record s1 { head = 0 }) else bypass c ch.prev ch.next s1

  unlink_lem :
      (c : ℕ) (s : Net K U) (ch : Channel) (head : ℕ)
      → load s c ≡ some ch
      → (if c == s.head then ch.next else s.head) ≡ head
      → unlink c s ≡ cut_off c (around c ch head s)
  unfolding unlink
  unlink_lem c s ch head e eh =
      ap (λ o. o >>= λ ch. cut_off c (around c ch (if c == s.head then ch.next else s.head) s)) e
      ∙ ap (λ h. cut_off c (around c ch h s)) eh

  -- The links once `c`, which stood between `a` and `b`, is taken out.
  bypass-Relinks :
      (s : Net K U) (c a b : ℕ)
      → prev_of s c ≡ a
      → next_of s c ≡ b
      → a ≢ c
      → Cell s c
      → Cell s a
      → Cell s b
      → (s' : Net K U) × (cut_off c (bypass c a b s) ≡ some s')
        × Relinks s (update (update (next_of s) a b) c 0) (update (update (prev_of s) b a) c 0) s'
  bypass-Relinks s c a b ea eb ne cc ca cb =
      let n1 = update (next_of s) a b in
      let p1 = update (prev_of s) b a in
      let (s1, e1, r1) = set_next-Relinks s a b ca in
      let (ch, ech) = SameBut-Cell s s1 c r1.same cc in
      let en : ch.next ≡ b =
        sym (ap next_field ech)
        ∙ ap (λ n. n c) r1.next
        ∙ update_other (next_of s) b (λ e. ne (sym e))
        ∙ eb in
      let ep : ch.prev ≡ a = sym (ap prev_field ech) ∙ ap (λ p. p c) r1.prev ∙ ea in
      let (s2, e2, r2) = then_prev s s1 n1 (prev_of s) b a r1 cb in
      let (s3, e3, r3) = then_next s s2 n1 p1 c 0 r2 cc in
      let (s4, e4, r4) = then_prev s s3 (update n1 c 0) p1 c 0 r3 cc in
      (
        s4,
        ap (λ o. cut_off c (o >>= λ s2. load s2 c >>= λ ch2. set_prev s2 ch2.next ch2.prev)) e1
            ∙ ap (λ o. cut_off c (o >>= λ ch2. set_prev s1 ch2.next ch2.prev)) ech
            ∙ ap₂ (λ n p. cut_off c (set_prev s1 n p)) en ep
            ∙ ap (cut_off c) e2
            ∙ ap (λ o. o >>= λ s3. set_prev s3 c 0) e3
            ∙ e4,
        r4,
      )

  -- A channel that is not alone.
  unlink-Links :
      (s : Net K U) (c : ℕ) (ch : Channel) (a b x : ℕ) (xs : List ℕ)
      → load s c ≡ some ch
      → (if c == s.head then ch.next else s.head) ≡ x
      → prev_of s c ≡ a
      → next_of s c ≡ b
      → a ≢ c
      → Cell s a
      → Cell s b
      → c ≢ x
      → AllNe c xs
      → Links (update (next_of s) a b) (update (prev_of s) b a) x xs x
      → (s' : Net K U) × (unlink c s ≡ some s')
        × (s'.head ≡ x)
        × Links (next_of s') (prev_of s') x xs x
        × SameBut s s'
  unlink-Links s c ch a b x xs e ehead ea eb ne ca cb cx cxs l =
      let s1 : Net K U = record s { head = x } in
      let (s', run, r) = bypass-Relinks s1 c a b ea eb ne (ch, e) ca cb in
      let ep : ch.prev ≡ a = sym (ap prev_field e) ∙ ea in
      let en : ch.next ≡ b = sym (ap next_field e) ∙ eb in
      (
        s',
        unlink_lem c s ch x e ehead
            ∙ ap
                (λ t.
                  cut_off c
                    (if t then some (record s1 { head = 0 }) else bypass c ch.prev ch.next s1))
                (==_false c x cx)
            ∙ ap₂ (λ p n. cut_off c (bypass c p n s1)) ep en
            ∙ run,
        r.head,
        Relinks-Links s1 s' _ _ x xs x r (cut-Links _ _ c x xs x l cx cxs cx),
        record {
          cells = r.same.cells;
          loop = r.same.loop;
          closed = r.same.closed;
          written = r.same.written;
          user = r.same.user;
        },
      )

  pub Cells-split :
      (s : Net K U) (xs : List ℕ) (c : ℕ) (ys : List ℕ)
      → Cells s (xs ++ (c ∷ ys))
      → Cells s xs × Cell s c × Cells s ys
  Cells-split s [] c ys (z, h, hs) = (tt, h, hs)
  Cells-split s (x ∷ xs) c ys (z, h, hs) =
      let (l, m, r) = Cells-split s xs c ys hs in ((z, h, l), m, r)

  Cells-without :
      (s : Net K U) (xs : List ℕ) (c : ℕ) (ys : List ℕ)
      → Cells s (xs ++ (c ∷ ys))
      → Cells s (xs ++ ys)
  Cells-without s [] c ys (z, h, hs) = hs
  Cells-without s (x ∷ xs) c ys (z, h, hs) = (z, h, Cells-without s xs c ys hs)

  unlink_alone :
      (s : Net K U) (c : ℕ)
      → IsRing s (c ∷ [])
      → (s' : Net K U) × (unlink c s ≡ some s') × IsRing s' [] × SameBut s s'
  unlink_alone s c v =
      let (eh, (f, g)) = v.ring in
      let (z, (ch, e), _) = v.cells in
      let en : ch.next ≡ c = sym (ap next_field e) ∙ f in
      let s0 : Net K U = record s { head = 0 } in
      let (s1, e1, r1) = set_next-Relinks s0 c 0 (ch, e) in
      let (s2, e2, r2) = then_prev s0 s1 _ (prev_of s) c 0 r1 (ch, e) in
      (
        s2,
        unlink_lem c s ch c e
              (ap (λ t. if t then ch.next else s.head) (==_refl c s.head (sym eh)) ∙ en)
            ∙ ap
                (λ t.
                  cut_off c
                    (if t then some s0 else bypass c ch.prev ch.next (record s { head = c })))
                (==_refl c c refl)
            ∙ ap (λ o. o >>= λ s3. set_prev s3 c 0) e1
            ∙ e2,
        record { ring = r2.head; distinct = tt; cells = tt },
        record {
          cells = r2.same.cells;
          loop = r2.same.loop;
          closed = r2.same.closed;
          written = r2.same.written;
          user = r2.same.user;
        },
      )

  unlink_head :
      (s : Net K U) (c y : ℕ) (ys : List ℕ)
      → IsRing s (c ∷ y ∷ ys)
      → (s' : Net K U) × (unlink c s ≡ some s') × IsRing s' (y ∷ ys) × SameBut s s'
  unlink_head s c y ys v =
      let (eh, l) = v.ring in
      let (f, g, l') = l in
      let ((cy, cys), d) = v.distinct in
      let (z, (ch, e), (zy, cell_y, cells)) = v.cells in
      let n = next_of s in
      let p = prev_of s in
      let en : ch.next ≡ y = sym (ap next_field e) ∙ f in
      let (s', run, head, links, same) =
        unlink-Links s c ch (p c) y y ys e
          (ap (λ t. if t then ch.next else s.head) (==_refl c s.head (sym eh)) ∙ en) refl f
          (λ q. ne_last n p c y ys c l' cy cys (sym q)) (Cell-last s n p y ys c l' cell_y cells)
          cell_y cy cys (Links-headless n p c y ys l v.distinct) in
      (
        s',
        run,
        record {
          ring = (head, links);
          distinct = d;
          cells = SameBut-Cells s s' (y ∷ ys) same (zy, cell_y, cells);
        },
        same,
      )

  unlink_inner :
      (s : Net K U) (x : ℕ) (xs : List ℕ) (c : ℕ) (ys : List ℕ)
      → IsRing s (x ∷ xs ++ (c ∷ ys))
      → (s' : Net K U) × (unlink c s ≡ some s') × IsRing s' (x ∷ xs ++ ys) × SameBut s s'
  unlink_inner s x xs c [] v =
      let (eh, l) = v.ring in
      let n = next_of s in
      let p = prev_of s in
      let (l1, (f, g)) = Links-split n p x xs c [] x l in
      let a = Distinct-Apart (x ∷ xs) c [] v.distinct in
      let (cx, cxs) = a.before in
      let ((zx, cell_x, cells), (ch, e), _) = Cells-split s (x ∷ xs) c [] v.cells in
      let (s', run, head, links, same) =
        unlink-Links s c ch (p c) x x xs e
          (ap (λ t. if t then ch.next else s.head) (==_false c s.head (λ q. cx (q ∙ eh))) ∙ eh) refl
          f (λ q. ne_last n p c x xs c l1 cx cxs (sym q)) (Cell-last s n p x xs c l1 cell_x cells)
          cell_x cx cxs (Links-endless n p x xs c l v.distinct) in
      (
        s',
        run,
        subst (λ zs. IsRing s' (x ∷ zs)) (sym (append-nil xs))
            (record {
              ring = (head, links);
              distinct = a.front;
              cells = SameBut-Cells s s' (x ∷ xs) same (zx, cell_x, cells);
            }),
        same,
      )
  unlink_inner s x xs c (y ∷ ys) v =
      let (eh, l) = v.ring in
      let n = next_of s in
      let p = prev_of s in
      let (l1, (f, g, l2)) = Links-split n p x xs c (y ∷ ys) x l in
      let a = Distinct-Apart (x ∷ xs) c (y ∷ ys) v.distinct in
      let (cx, cxs) = a.before in
      let (cy, cys) = a.behind in
      let ((zx, cell_x, cells), (ch, e), (zy, cell_y, _)) =
        Cells-split s (x ∷ xs) c (y ∷ ys) v.cells in
      let (s', run, head, links, same) =
        unlink-Links s c ch (p c) y x (xs ++ (y ∷ ys)) e
          (ap (λ t. if t then ch.next else s.head) (==_false c s.head (λ q. cx (q ∙ eh))) ∙ eh) refl
          f (λ q. ne_last n p c x xs c l1 cx cxs (sym q)) (Cell-last s n p x xs c l1 cell_x cells)
          cell_y cx (append-AllNe c xs (y ∷ ys) cxs (cy, cys))
          (Links-without n p x xs c y ys l v.distinct) in
      (
        s',
        run,
        record {
          ring = (head, links);
          distinct = a.rest;
          cells =
              SameBut-Cells s s' (x ∷ xs ++ (y ∷ ys)) same
                (Cells-without s (x ∷ xs) c (y ∷ ys) v.cells);
        },
        same,
      )

  -- Wherever a channel stands in the ring, channel_close first takes out that channel and leaves the others in
  -- their order; it moves the head on if the channel is the head, and sets it to NULL if it is the last
  -- one; the channel itself is still there, and nothing but links changes.
  pub unlink-IsRing :
      (s : Net K U) (xs : List ℕ) (c : ℕ) (ys : List ℕ)
      → IsRing s (xs ++ (c ∷ ys))
      → (s' : Net K U) × (unlink c s ≡ some s') × IsRing s' (xs ++ ys) × SameBut s s'
  unlink-IsRing s [] c [] v = unlink_alone s c v
  unlink-IsRing s [] c (y ∷ ys) v = unlink_head s c y ys v
  unlink-IsRing s (x ∷ xs) c ys v = unlink_inner s x xs c ys v
