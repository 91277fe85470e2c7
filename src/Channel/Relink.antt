-- ===== src/Channel/Relink.antt =====
-- The assignments of channel_create and channel_close to the links of a ring.
use evnet.Base.{ℕ, ◌≡◌, ◌≢◌, sym, ap, ◌∙◌, List, [], ◌∷◌, ◌++◌}
use evnet.Channel.Ring.{
  update, update_same, update_other, AllNe, Distinct, Links, update-Agree, Agree-Links, ne_last,
  Links-redirected, Links-split, Links-join, Distinct-Apart, AllNe-append,
}

-- A new address in front of the first.
pub Links-inserted :
    (n p : ℕ → ℕ) (c x : ℕ) (xs : List ℕ)
    → Links n p x xs x
    → Distinct (x ∷ xs)
    → AllNe c (x ∷ xs)
    → Links (update (update n c x) (p x) c) (update (update p c (p x)) x c) c (x ∷ xs) c
Links-inserted n p c x xs l (h, d) (cx, cxs) =
    let n1 = update n c x in
    let p1 = update p c (p x) in
    let xc : x ≢ c = λ e. cx (sym e) in
    let e1 : p1 x ≡ p x = update_other p (p x) xc in
    let l1 =
      Agree-Links n p n1 p1 x xs x l (update_other n x xc) (update-Agree n c x xs cxs)
        (update-Agree p c (p x) xs cxs) e1 in
    let l2 =
      Links-redirected n1 p1 (update n1 (p x) c) (update p1 x c) x xs x c l1 (h, d)
        (λ i ne. update_other n1 c (λ e. ne (e ∙ sym e1)))
        (ap (update n1 (p x) c) e1 ∙ update_same n1 (p x) c) (update-Agree p1 x c xs h)
        (update_other p1 c cx ∙ update_same p c (p x) ∙ sym e1) in
    (update_other n1 c (ne_last n p c x xs x l cx cxs) ∙ update_same n c x, update_same p1 x c, l2)

-- The first address goes, and the second is the first.
pub Links-headless :
    (n p : ℕ → ℕ) (c y : ℕ) (ys : List ℕ)
    → Links n p c (y ∷ ys) c
    → Distinct (c ∷ y ∷ ys)
    → Links (update n (p c) y) (update p y (p c)) y ys y
Links-headless n p c y ys (f, g, l) (h, d) =
    Links-redirected n p (update n (p c) y) (update p y (p c)) y ys c y l d
      (λ i ne. update_other n y ne) (update_same n (p c) y) (update-Agree p y (p c) ys d.0)
      (update_same p y (p c))

-- An address behind the first goes, the last one or another.
pub Links-endless :
    (n p : ℕ → ℕ) (x : ℕ) (xs : List ℕ) (c : ℕ)
    → Links n p x (xs ++ (c ∷ [])) x
    → Distinct (x ∷ xs ++ (c ∷ []))
    → Links (update n (p c) x) (update p x (p c)) x xs x
Links-endless n p x xs c l (h, d) =
    let (l1, l2) = Links-split n p x xs c [] x l in
    let a = Distinct-Apart xs c [] d in
    let (hx, _) = AllNe-append x xs (c ∷ []) h in
    Links-redirected n p (update n (p c) x) (update p x (p c)) x xs c x l1 (hx, a.front)
      (λ i ne. update_other n x ne) (update_same n (p c) x) (update-Agree p x (p c) xs hx)
      (update_same p x (p c))

-- Each of the second list is none of the first.
abbrev Cross : List ℕ → List ℕ → Type 0
Cross xs [] = Unit {0}
Cross xs (z ∷ zs) = AllNe z xs × Cross xs zs

Distinct-Cross : (xs ys : List ℕ) → Distinct (xs ++ ys) → Cross xs ys
Distinct-Cross xs [] d = tt
Distinct-Cross xs (z ∷ zs) d =
    let a = Distinct-Apart xs z zs d in (a.before, Distinct-Cross xs zs a.rest)

Cross-AllNe :
    (n p : ℕ → ℕ) (x : ℕ) (xs : List ℕ) (c : ℕ) (ys : List ℕ)
    → Links n p x xs c
    → Cross (x ∷ xs) ys
    → AllNe (p c) ys
Cross-AllNe n p x xs c [] l h = tt
Cross-AllNe n p x xs c (z ∷ zs) l ((zx, zxs), h) =
    ((λ e. ne_last n p z x xs c l zx zxs (sym e)), Cross-AllNe n p x xs c zs l h)

pub Links-without :
    (n p : ℕ → ℕ) (x : ℕ) (xs : List ℕ) (c y : ℕ) (ys : List ℕ)
    → Links n p x (xs ++ (c ∷ y ∷ ys)) x
    → Distinct (x ∷ xs ++ (c ∷ y ∷ ys))
    → Links (update n (p c) y) (update p y (p c)) x (xs ++ (y ∷ ys)) x
Links-without n p x xs c y ys l d =
    let (l1, (f, g, l3)) = Links-split n p x xs c (y ∷ ys) x l in
    let a = Distinct-Apart (x ∷ xs) c (y ∷ ys) d in
    let b = Distinct-Apart (x ∷ xs) y ys a.rest in
    let (yx, yxs) = b.before in
    let n' = update n (p c) y in
    let p' = update p y (p c) in
    let front =
      Links-redirected n p n' p' x xs c y l1 a.front (λ i ne. update_other n y ne)
        (update_same n (p c) y) (update-Agree p y (p c) xs yxs) (update_same p y (p c)) in
    let back =
      Agree-Links n p n' p' y ys x l3 (update_other n y (ne_last n p y x xs c l1 yx yxs))
        (update-Agree n (p c) y ys
          (Cross-AllNe n p x xs c ys l1 (Distinct-Cross (x ∷ xs) ys b.rest)))
        (update-Agree p y (p c) ys b.behind) (update_other p (p c) (λ e. yx (sym e))) in
    Links-join n' p' x xs y ys x front back
