-- ===== src/Channel/Ring.antt =====
-- Doubly linked rings, over two functions from addresses to addresses: how links are redirected.
use evnet.Base.{
  ℕ, ◌≡◌, ◌≢◌, refl, sym, ap, ◌∙◌, List, [], ◌∷◌, ◌++◌, if◌then◌else◌, ◌==◌, ==_refl, ==_false,
}

-- A function with one value replaced.
abbrev pub update : (ℕ → ℕ) → ℕ → ℕ → ℕ → ℕ
update f a v i = if i == a then v else f i

pub update_same : (f : ℕ → ℕ) (a v : ℕ) → update f a v a ≡ v
update_same f a v = ap (λ b. if b then v else f a) (==_refl a a refl)

pub update_other : (f : ℕ → ℕ) {a i : ℕ} (v : ℕ) → i ≢ a → update f a v i ≡ f i
update_other f {a} {i} v n = ap (λ b. if b then v else f i) (==_false i a n)

-- No element is `a`; and no two elements are the same.
abbrev pub AllNe : ℕ → List ℕ → Type 0
AllNe a [] = Unit {0}
AllNe a (x ∷ xs) = (a ≢ x) × AllNe a xs

abbrev pub Distinct : List ℕ → Type 0
Distinct [] = Unit {0}
Distinct (x ∷ xs) = AllNe x xs × Distinct xs

-- From `a` the links run through `xs` to `b`, forth by `n` and back by `p`.
abbrev pub Links : (ℕ → ℕ) → (ℕ → ℕ) → ℕ → List ℕ → ℕ → Type 0
Links n p a [] b = (n a ≡ b) × (p b ≡ a)
Links n p a (x ∷ xs) b = (n a ≡ x) × (p x ≡ a) × Links n p x xs b

-- Two functions agree on a list.
abbrev pub Agree : (ℕ → ℕ) → (ℕ → ℕ) → List ℕ → Type 0
Agree f g [] = Unit {0}
Agree f g (x ∷ xs) = (f x ≡ g x) × Agree f g xs

pub update-Agree : (f : ℕ → ℕ) (a v : ℕ) (xs : List ℕ) → AllNe a xs → Agree (update f a v) f xs
update-Agree f a v [] h = tt
update-Agree f a v (x ∷ xs) (h, hs) = (update_other f v (λ e. h (sym e)), update-Agree f a v xs hs)

-- Where the links are read the new functions agree with the old.
pub Agree-Links :
    (n p n' p' : ℕ → ℕ) (a : ℕ) (xs : List ℕ) (b : ℕ)
    → Links n p a xs b
    → n' a ≡ n a
    → Agree n' n xs
    → Agree p' p xs
    → p' b ≡ p b
    → Links n' p' a xs b
Agree-Links n p n' p' a [] b (f, g) ea en ep eb = (ea ∙ f, eb ∙ g)
Agree-Links n p n' p' a (x ∷ xs) b (f, g, l) ea (ex, en) (gx, ep) eb =
    (ea ∙ f, gx ∙ g, Agree-Links n p n' p' x xs b l ex en ep eb)

-- An address that is neither the first nor in the list is not the last before the end.
pub ne_last :
    (n p : ℕ → ℕ) (c a : ℕ) (xs : List ℕ) (b : ℕ) → Links n p a xs b → c ≢ a → AllNe c xs → c ≢ p b
ne_last n p c a [] b (f, g) h hs = λ e. h (e ∙ g)
ne_last n p c a (x ∷ xs) b (f, g, l) h (hx, hs) = ne_last n p c x xs b l hx hs

-- The end of the links is redirected to `c`: the last address before the end points to it, and it points back.
pub Links-redirected :
    (n p n' p' : ℕ → ℕ) (a : ℕ) (xs : List ℕ) (b c : ℕ)
    → Links n p a xs b
    → Distinct (a ∷ xs)
    → ((i : ℕ) → i ≢ p b → n' i ≡ n i)
    → n' (p b) ≡ c
    → Agree p' p xs
    → p' c ≡ p b
    → Links n' p' a xs c
Links-redirected n p n' p' a [] b c (f, g) d same at ep back = (ap n' (sym g) ∙ at, back ∙ g)
Links-redirected n p n' p' a (x ∷ xs) b c (f, g, l) ((h, hs), d) same at (gx, ep) back = (
  same a (ne_last n p a x xs b l h hs) ∙ f,
  gx ∙ g,
  Links-redirected n p n' p' x xs b c l d same at ep back,
)

-- Links through an address in the middle.
pub Links-split :
    (n p : ℕ → ℕ) (a : ℕ) (xs : List ℕ) (c : ℕ) (ys : List ℕ) (b : ℕ)
    → Links n p a (xs ++ (c ∷ ys)) b
    → Links n p a xs c × Links n p c ys b
Links-split n p a [] c ys b (f, g, l) = ((f, g), l)
Links-split n p a (x ∷ xs) c ys b (f, g, l) =
    let (l1, l2) = Links-split n p x xs c ys b l in ((f, g, l1), l2)

pub Links-join :
    (n p : ℕ → ℕ) (a : ℕ) (xs : List ℕ) (c : ℕ) (ys : List ℕ) (b : ℕ)
    → Links n p a xs c
    → Links n p c ys b
    → Links n p a (xs ++ (c ∷ ys)) b
Links-join n p a [] c ys b (f, g) l = (f, g, l)
Links-join n p a (x ∷ xs) c ys b (f, g, l) l' = (f, g, Links-join n p x xs c ys b l l')

pub AllNe-append : (c : ℕ) (xs ys : List ℕ) → AllNe c (xs ++ ys) → AllNe c xs × AllNe c ys
AllNe-append c [] ys h = (tt, h)
AllNe-append c (x ∷ xs) ys (h, hs) = let (l, r) = AllNe-append c xs ys hs in ((h, l), r)

pub append-AllNe : (c : ℕ) (xs ys : List ℕ) → AllNe c xs → AllNe c ys → AllNe c (xs ++ ys)
append-AllNe c [] ys l r = r
append-AllNe c (x ∷ xs) ys (h, l) r = (h, append-AllNe c xs ys l r)

-- What distinctness says of an address in the middle.
pub record Apart (xs : List ℕ) (c : ℕ) (ys : List ℕ) : Type 0 where
  pub before : AllNe c xs
  pub behind : AllNe c ys
  pub front : Distinct xs
  pub back : Distinct ys
  pub rest : Distinct (xs ++ ys)

pub Distinct-Apart : (xs : List ℕ) (c : ℕ) (ys : List ℕ) → Distinct (xs ++ (c ∷ ys)) → Apart xs c ys
Distinct-Apart [] c ys (h, d) = record { before = tt; behind = h; front = tt; back = d; rest = d }
Distinct-Apart (x ∷ xs) c ys (h, d) =
    let a = Distinct-Apart xs c ys d in
    let (l, (hc, r)) = AllNe-append x xs (c ∷ ys) h in
    record {
      before = ((λ e. hc (sym e)), a.before);
      behind = a.behind;
      front = (l, a.front);
      back = a.back;
      rest = (append-AllNe x xs ys l r, a.rest);
    }

-- No address of the front is the first of the back.
pub ne_of_Distinct : (xs : List ℕ) (y : ℕ) (ys : List ℕ) → Distinct (xs ++ (y ∷ ys)) → AllNe y xs
ne_of_Distinct xs y ys d = (Distinct-Apart xs y ys d).before

-- A ring of the addresses `xs`, from the head on.
abbrev pub RingOf : (ℕ → ℕ) → (ℕ → ℕ) → ℕ → List ℕ → Type 0
RingOf n p head [] = head ≡ 0
RingOf n p head (x ∷ xs) = (head ≡ x) × Links n p x xs x
