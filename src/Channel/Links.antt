-- ===== src/Channel/Links.antt =====
-- The heap of channels as two functions, its links, beside all else: what an assignment to a link changes.
use evnet.Base.{
  ℕ, ◌≡◌, ◌≢◌, refl, sym, ap, ◌∙◌, subst, List, [], ◌∷◌, ==_refl, ==_false, Option, some, none,
  ℕ_discrete, ◌>>=◌,
}
use mathlib.Core.Path.{fun_ext}
use evnet.Channel.{Channel, Net, load, store, set_next, set_prev}
use evnet.Channel.Ring.{update, Distinct, Links, RingOf}

-- A channel without its links.
abbrev pub bare : Option Channel → Option Channel
bare none = none
bare (some c) = some (record c { next = 0; prev = 0 })

abbrev pub next_field : Option Channel → ℕ
next_field none = 0
next_field (some c) = c.next

abbrev pub prev_field : Option Channel → ℕ
prev_field none = 0
prev_field (some c) = c.prev

cell_of_bare :
    (o o' : Option Channel)
    → bare o' ≡ bare o
    → (c : Channel) × (o ≡ some c)
    → (c : Channel) × (o' ≡ some c)
cell_of_bare none none e h = h
cell_of_bare (some x) none e h = (x, cc)
cell_of_bare o (some c') e h = (c', refl)

module _ {ℓ κ} {K : Type ℓ} {U : Type κ} where
  abbrev pub next_of : Net K U → ℕ → ℕ
  next_of s i = next_field (s.heap i)

  abbrev pub prev_of : Net K U → ℕ → ℕ
  prev_of s i = prev_field (s.heap i)

  -- The states differ in links and in the head at most.
  pub record SameBut (s s' : Net K U) : Type (ℓ ⊔ κ) where
    pub cells : (i : ℕ) → bare (s'.heap i) ≡ bare (s.heap i)
    pub loop : s'.loop ≡ s.loop
    pub closed : s'.closed ≡ s.closed
    pub written : s'.written ≡ s.written
    pub user : s'.user ≡ s.user

  pub SameBut-refl : (s : Net K U) → SameBut s s
  SameBut-refl s = record {
    cells = λ i. refl;
    loop = refl;
    closed = refl;
    written = refl;
    user = refl;
  }

  pub SameBut-trans : (a b c : Net K U) → SameBut a b → SameBut b c → SameBut a c
  SameBut-trans a b c p q = record {
    cells = λ i. q.cells i ∙ p.cells i;
    loop = q.loop ∙ p.loop;
    closed = q.closed ∙ p.closed;
    written = q.written ∙ p.written;
    user = q.user ∙ p.user;
  }

  -- A channel stands at the address.
  abbrev pub Cell : Net K U → ℕ → Type 0
  Cell s p = (c : Channel) × (load s p ≡ some c)

  pub SameBut-Cell : (s s' : Net K U) (p : ℕ) → SameBut s s' → Cell s p → Cell s' p
  SameBut-Cell s s' p b c = cell_of_bare (s.heap p) (s'.heap p) (b.cells p) c

  -- One assignment to a link: the links that it leaves, and that nothing else changes.
  pub record Relinks (s : Net K U) (n p : ℕ → ℕ) (s' : Net K U) : Type (ℓ ⊔ κ) where
    pub next : next_of s' ≡ n
    pub prev : prev_of s' ≡ p
    pub head : s'.head ≡ s.head
    pub same : SameBut s s'

  pub set_next-Relinks :
      (s : Net K U) (a q : ℕ)
      → Cell s a
      → (s' : Net K U) × (set_next s a q ≡ some s')
        × Relinks s (update (next_of s) a q) (prev_of s) s'
  unfolding set_next
  set_next-Relinks s a q (c, e) = (
    store s a (some (record c { next = q })),
    ap (λ o. o >>= λ c. some (store s a (some (record c { next = q })))) e,
    record {
      next = fun_ext (λ i. elim (ℕ_discrete i a) [
        | yes p ↦ rw (==_refl i a p) refl
        | no n ↦ rw (==_false i a n) refl
      ]);
      prev = fun_ext (λ i. elim (ℕ_discrete i a) [
        | yes p ↦ rw (==_refl i a p) (ap prev_field (sym (ap s.heap p ∙ e)))
        | no n ↦ rw (==_false i a n) refl
      ]);
      head = refl;
      same = record {
        cells = λ i. elim (ℕ_discrete i a) [
          | yes p ↦ rw (==_refl i a p) (ap bare (sym (ap s.heap p ∙ e)))
          | no n ↦ rw (==_false i a n) refl
        ];
        loop = refl;
        closed = refl;
        written = refl;
        user = refl;
      };
    },
  )

  pub set_prev-Relinks :
      (s : Net K U) (a q : ℕ)
      → Cell s a
      → (s' : Net K U) × (set_prev s a q ≡ some s')
        × Relinks s (next_of s) (update (prev_of s) a q) s'
  unfolding set_prev
  set_prev-Relinks s a q (c, e) = (
    store s a (some (record c { prev = q })),
    ap (λ o. o >>= λ c. some (store s a (some (record c { prev = q })))) e,
    record {
      next = fun_ext (λ i. elim (ℕ_discrete i a) [
        | yes p ↦ rw (==_refl i a p) (ap next_field (sym (ap s.heap p ∙ e)))
        | no n ↦ rw (==_false i a n) refl
      ]);
      prev = fun_ext (λ i. elim (ℕ_discrete i a) [
        | yes p ↦ rw (==_refl i a p) refl
        | no n ↦ rw (==_false i a n) refl
      ]);
      head = refl;
      same = record {
        cells = λ i. elim (ℕ_discrete i a) [
          | yes p ↦ rw (==_refl i a p) (ap bare (sym (ap s.heap p ∙ e)))
          | no n ↦ rw (==_false i a n) refl
        ];
        loop = refl;
        closed = refl;
        written = refl;
        user = refl;
      };
    },
  )

  -- Steps one behind the other.
  pub then_next :
      (s s1 : Net K U) (n p : ℕ → ℕ) (a q : ℕ)
      → Relinks s n p s1
      → Cell s a
      → (s2 : Net K U) × (set_next s1 a q ≡ some s2) × Relinks s (update n a q) p s2
  then_next s s1 n p a q r c =
      let (s2, e, r2) = set_next-Relinks s1 a q (SameBut-Cell s s1 a r.same c) in
      (
        s2,
        e,
        record {
          next = r2.next ∙ ap (λ n. update n a q) r.next;
          prev = r2.prev ∙ r.prev;
          head = r2.head ∙ r.head;
          same = SameBut-trans s s1 s2 r.same r2.same;
        },
      )

  pub then_prev :
      (s s1 : Net K U) (n p : ℕ → ℕ) (a q : ℕ)
      → Relinks s n p s1
      → Cell s a
      → (s2 : Net K U) × (set_prev s1 a q ≡ some s2) × Relinks s n (update p a q) s2
  then_prev s s1 n p a q r c =
      let (s2, e, r2) = set_prev-Relinks s1 a q (SameBut-Cell s s1 a r.same c) in
      (
        s2,
        e,
        record {
          next = r2.next ∙ r.next;
          prev = r2.prev ∙ ap (λ p. update p a q) r.prev;
          head = r2.head ∙ r.head;
          same = SameBut-trans s s1 s2 r.same r2.same;
        },
      )

  pub Relinks-Links :
      (s s' : Net K U) (n p : ℕ → ℕ) (a : ℕ) (xs : List ℕ) (b : ℕ)
      → Relinks s n p s'
      → Links n p a xs b
      → Links (next_of s') (prev_of s') a xs b
  Relinks-Links s s' n p a xs b r l =
      subst (λ m. Links m (prev_of s') a xs b) (sym r.next)
        (subst (λ q. Links n q a xs b) (sym r.prev) l)

  abbrev pub Cells : Net K U → List ℕ → Type 0
  Cells s [] = Unit {0}
  Cells s (x ∷ xs) = (x ≢ 0) × Cell s x × Cells s xs

  -- The channels of the program are `xs`, in the order of the ring.
  pub record IsRing (s : Net K U) (xs : List ℕ) : Type (ℓ ⊔ κ) where
    pub ring : RingOf (next_of s) (prev_of s) s.head xs
    pub distinct : Distinct xs
    pub cells : Cells s xs

  pub SameBut-Cells : (s s' : Net K U) (xs : List ℕ) → SameBut s s' → Cells s xs → Cells s' xs
  SameBut-Cells s s' [] b c = tt
  SameBut-Cells s s' (x ∷ xs) b (z, c, cs) =
      (z, SameBut-Cell s s' x b c, SameBut-Cells s s' xs b cs)
