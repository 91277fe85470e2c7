-- ===== src/Channel/Create.antt =====
-- channel_create puts the new channel in front of the ring.
use evnet.Base.{
  ℕ, ◌<◌, ◌≡◌, ◌≢◌, refl, sym, ap, ◌∙◌, subst, List, [], ◌∷◌, if◌then◌else◌, ◌==◌, ==_refl,
  ==_false, Bool, Option, some, none, ◌>>=◌, length, leb, gt→leb,
}
use evnet.Channel.{
  Channel, Net, load, store, set_next, set_prev, link_first, link_before, channel_create, blank,
  ip_str_size,
}
use evnet.Channel.Ring.{update, update_same, AllNe, Links, Agree, Agree-Links}
use evnet.Channel.Relink.{Links-inserted}
use evnet.Channel.Links.{
  bare, next_of, prev_of, SameBut, SameBut-Cell, SameBut-Cells, Cell, Cells, Relinks, Relinks-Links,
  set_next-Relinks, then_next, then_prev, IsRing, next_field, prev_field,
}

module _ {ℓ κ} {K : Type ℓ} {U : Type κ} where
  -- A write elsewhere.
  store_other :
      (s : Net K U) (a i : ℕ) (c : Option Channel) → a ≢ i → (store s a c).heap i ≡ s.heap i
  store_other s a i c n = ap (λ b. if b then c else s.heap i) (==_false i a (λ e. n (sym e)))

  store_same : (s : Net K U) (a : ℕ) (c : Option Channel) → (store s a c).heap a ≡ c
  store_same s a c = ap (λ b. if b then c else s.heap a) (==_refl a a refl)

  store-Cells :
      (s : Net K U) (a : ℕ) (c : Channel) (xs : List ℕ)
      → AllNe a xs
      → Cells s xs
      → Cells (store s a (some c)) xs
  store-Cells s a c [] h cs = tt
  store-Cells s a c (x ∷ xs) (h, hs) (z, (d, e), cs) =
      (z, (d, store_other s a x (some c) h ∙ e), store-Cells s a c xs hs cs)

  store-Agree_next :
      (s : Net K U) (a : ℕ) (c : Option Channel) (xs : List ℕ)
      → AllNe a xs
      → Agree (next_of (store s a c)) (next_of s) xs
  store-Agree_next s a c [] h = tt
  store-Agree_next s a c (x ∷ xs) (h, hs) =
      (ap next_field (store_other s a x c h), store-Agree_next s a c xs hs)

  store-Agree_prev :
      (s : Net K U) (a : ℕ) (c : Option Channel) (xs : List ℕ)
      → AllNe a xs
      → Agree (prev_of (store s a c)) (prev_of s) xs
  store-Agree_prev s a c [] h = tt
  store-Agree_prev s a c (x ∷ xs) (h, hs) =
      (ap prev_field (store_other s a x c h), store-Agree_prev s a c xs hs)

  -- The last of linked channels is a channel.
  pub Cell-last :
      (s : Net K U) (n p : ℕ → ℕ) (a : ℕ) (xs : List ℕ) (b : ℕ)
      → Links n p a xs b
      → Cell s a
      → Cells s xs
      → Cell s (p b)
  Cell-last s n p a [] b (f, g) c cs = subst (Cell s) (sym g) c
  Cell-last s n p a (x ∷ xs) b (f, g, l) c (z, cx, cs) = Cell-last s n p x xs b l cx cs

  link_first-Relinks :
      (s : Net K U) (new : ℕ)
      → Cell s new
      → (s' : Net K U) × (link_first new s ≡ some s')
        × Relinks s (update (next_of s) new new) (update (prev_of s) new new) s'
  unfolding link_first
  link_first-Relinks s new c =
      let (s1, e1, r1) = set_next-Relinks s new new c in
      let (s2, e2, r2) = then_prev s s1 (update (next_of s) new new) (prev_of s) new new r1 c in
      (s2, ap (λ o. o >>= λ s1. set_prev s1 new new) e1 ∙ e2, r2)

  link_before-Relinks :
      (s : Net K U) (x new : ℕ)
      → Cell s new
      → Cell s x
      → Cell s (prev_of s x)
      → (s' : Net K U) × (link_before x new s ≡ some s')
        × Relinks s
            (update (update (next_of s) new x) (prev_of s x) new)
            (update (update (prev_of s) new (prev_of s x)) x new)
            s'
  unfolding link_before
  link_before-Relinks s x new cn cx ct =
      let t = prev_of s x in
      let n1 = update (next_of s) new x in
      let p1 = update (prev_of s) new t in
      let (s1, e1, r1) = set_next-Relinks s new x cn in
      let (h, eh) = SameBut-Cell s s1 x r1.same cx in
      let et : h.prev ≡ t = sym (ap prev_field eh) ∙ ap (λ p. p x) r1.prev in
      let (s2, e2, r2) = then_prev s s1 n1 (prev_of s) new t r1 cn in
      let (s3, e3, r3) = then_next s s2 n1 p1 t new r2 ct in
      let (s4, e4, r4) = then_prev s s3 (update n1 t new) p1 x new r3 cx in
      (
        s4,
        ap
              (λ o. o >>= λ s1. load s1 x >>= λ h.
                set_prev s1 new h.prev >>= λ s2. set_next s2 h.prev new >>= λ s3. set_prev s3 x new)
              e1
            ∙ ap
                (λ o. o >>= λ h. set_prev s1 new h.prev >>= λ s2.
                  set_next s2 h.prev new >>= λ s3. set_prev s3 x new)
                eh
            ∙ ap (λ q. set_prev s1 new q >>= λ s2. set_next s2 q new >>= λ s3. set_prev s3 x new) et
            ∙ ap (λ o. o >>= λ s2. set_next s2 t new >>= λ s3. set_prev s3 x new) e2
            ∙ ap (λ o. o >>= λ s3. set_prev s3 x new) e3
            ∙ e4,
        r4,
      )

  linked-IsRing :
      (s : Net K U) (new : ℕ) (c : Channel) (xs : List ℕ)
      → IsRing s xs
      → new ≢ 0
      → AllNe new xs
      → let s0 = store s new (some c) in
        (s1 : Net K U) × ((if s.head == 0 then link_first new s0 else link_before s.head new s0)
          ≡ some s1)
        × IsRing (record s1 { head = new }) (new ∷ xs)
        × SameBut s0 s1
  linked-IsRing s new c [] v z h =
      let s0 = store s new (some c) in
      let cell : Cell s0 new = (c, store_same s new (some c)) in
      let (s1, e, r) = link_first-Relinks s0 new cell in
      (
        s1,
        ap (λ b. if b then link_first new s0 else link_before s.head new s0)
              (==_refl s.head 0 v.ring)
            ∙ e,
        record {
          ring = (
            refl,
            (
              ap (λ n. n new) r.next ∙ update_same (next_of s0) new new,
              ap (λ p. p new) r.prev ∙ update_same (prev_of s0) new new,
            ),
          );
          distinct = (tt, tt);
          cells = (z, SameBut-Cell s0 s1 new r.same cell, tt);
        },
        r.same,
      )
  linked-IsRing s new c (x ∷ xs) v z (h, hs) =
      let s0 = store s new (some c) in
      let (eh, l) = v.ring in
      let (zx, cx, cxs) = v.cells in
      let cell : Cell s0 new = (c, store_same s new (some c)) in
      let (zx0, cx0, cxs0) = store-Cells s new c (x ∷ xs) (h, hs) v.cells in
      let l0 =
        Agree-Links (next_of s) (prev_of s) (next_of s0) (prev_of s0) x xs x l
          (ap next_field (store_other s new x (some c) h)) (store-Agree_next s new (some c) xs hs)
          (store-Agree_prev s new (some c) xs hs)
          (ap prev_field (store_other s new x (some c) h)) in
      let (s1, e, r) =
        link_before-Relinks s0 x new cell cx0
          (Cell-last s0 (next_of s0) (prev_of s0) x xs x l0 cx0 cxs0) in
      let not_null = ==_false s.head 0 (λ e. zx (sym eh ∙ e)) in
      (
        s1,
        ap (λ b. if b then link_first new s0 else link_before s.head new s0) not_null
            ∙ ap (λ a. link_before a new s0) eh
            ∙ e,
        record {
          ring = (
            refl,
            Relinks-Links s0 s1 _ _ new (x ∷ xs) new r
                (Links-inserted (next_of s0) (prev_of s0) new x xs l0 v.distinct (h, hs)),
          );
          distinct = ((h, hs), v.distinct);
          cells = (
            z,
            SameBut-Cell s0 s1 new r.same cell,
            SameBut-Cells s0 s1 (x ∷ xs) r.same (zx0, cx0, cxs0),
          );
        },
        r.same,
      )

  -- channel_create, with memory at an address that is none of the ring's and an address text that fits, returns
  -- that address; the new channel is in front of the ring, whose order stays; it has the descriptor, the text
  -- and the port, empty queues, no handler and no event; and nothing else of any channel changes.
  pub channel_create-IsRing :
      (s : Net K U) (xs : List ℕ) (new fd : ℕ) (ip_str : List ℕ) (port : ℕ) (upstream : Bool)
      → IsRing s xs
      → new ≢ 0
      → AllNe new xs
      → length ip_str < ip_str_size
      → (s' : Net K U) × (channel_create new fd ip_str port upstream s ≡ some (new, s'))
        × IsRing s' (new ∷ xs)
        × (bare (s'.heap new) ≡ some (blank fd ip_str port upstream))
        × ((i : ℕ) → new ≢ i → bare (s'.heap i) ≡ bare (s.heap i))
        × (s'.loop ≡ s.loop)
        × (s'.closed ≡ s.closed)
        × (s'.user ≡ s.user)
  unfolding channel_create
  channel_create-IsRing s xs new fd ip_str port upstream v z h fits =
      let b = blank fd ip_str port upstream in
      let s0 = store s new (some b) in
      let (s1, e, ring, same) = linked-IsRing s new b xs v z h in
      let linked = if s.head == 0 then link_first new s0 else link_before s.head new s0 in
      let out : Option (ℕ × Net K U) = linked >>= λ s1. some (new, record s1 { head = new }) in
      (
        record s1 { head = new },
        ap (λ t. if t then some (0, s) else if leb ip_str_size (length ip_str) then none else out)
              (==_false new 0 z)
            ∙ ap (λ t. if t then none else out) (gt→leb ip_str_size (length ip_str) fits)
            ∙ ap (λ o. o >>= λ s1. some (new, record s1 { head = new })) e,
        ring,
        same.cells new ∙ ap bare (store_same s new (some b)),
        (λ i n. same.cells i ∙ ap bare (store_other s new i (some b) n)),
        same.loop,
        same.closed,
        same.user,
      )
