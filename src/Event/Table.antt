-- ===== src/Event/Table.antt =====
-- The array of file events: its entries after a change, and the highest descriptor that is watched.
use evnet.Base.{
  ℕ, zero, suc, max, ◌≤◌, ◌<◌, ◌≡◌, refl, sym, ap, ◌∙◌, Bool, true, false, some, List, [], ◌∷◌,
  length, map, arith, if◌then◌else◌, Bool-cases, inl, inr, ◌≢◌, some_inj, ◌⊎◌,
}
use evnet.Event.{Mask, ae_none, is_none, FileEvent, get_elem?, set, search, cleared_mask}

module _ {ℓ} {A : Type ℓ} where
  pub length-set : (xs : List A) (i : ℕ) (a : A) → length (set xs i a) ≡ length xs
  unfolding set
  length-set [] i a = refl
  length-set (x ∷ xs) zero a = refl
  length-set (x ∷ xs) (suc i) a = ap suc (length-set xs i a)

  pub get_elem?_lem : (xs : List A) (i : ℕ) → i < length xs → (x : A) × (get_elem? xs i ≡ some x)
  unfolding get_elem?
  get_elem?_lem [] i h = absurd (omega arith)
  get_elem?_lem (x ∷ xs) zero h = (x, refl)
  get_elem?_lem (x ∷ xs) (suc i) h = get_elem?_lem xs i (omega arith)

-- The mask of an entry; there is none behind the end.
unfoldable pub mask_at : List FileEvent → ℕ → Mask
mask_at [] i = ae_none
mask_at (e ∷ es) zero = e.mask
mask_at (e ∷ es) (suc i) = mask_at es i

pub mask_at-get_elem? :
    (es : List FileEvent) (i : ℕ) {e : FileEvent} → get_elem? es i ≡ some e → mask_at es i ≡ e.mask
unfolding get_elem? mask_at
mask_at-get_elem? [] i h = ground arith
mask_at-get_elem? (x ∷ xs) zero h = ap FileEvent.mask (some_inj h)
mask_at-get_elem? (x ∷ xs) (suc i) h = mask_at-get_elem? xs i h

pub mask_at_outside : (es : List FileEvent) (i : ℕ) → length es ≤ i → mask_at es i ≡ ae_none
unfolding mask_at
mask_at_outside [] i h = refl
mask_at_outside (x ∷ xs) zero h = absurd (omega arith)
mask_at_outside (x ∷ xs) (suc i) h = mask_at_outside xs i (omega arith)

pub mask_at-set_same :
    (es : List FileEvent) (i : ℕ) (e : FileEvent) → i < length es → mask_at (set es i e) i ≡ e.mask
unfolding set mask_at
mask_at-set_same [] i e h = absurd (omega arith)
mask_at-set_same (x ∷ xs) zero e h = refl
mask_at-set_same (x ∷ xs) (suc i) e h = mask_at-set_same xs i e (omega arith)

pub mask_at-set_other :
    (es : List FileEvent) (i j : ℕ) (e : FileEvent) → i ≢ j → mask_at (set es i e) j ≡ mask_at es j
unfolding set mask_at
mask_at-set_other [] i j e h = refl
mask_at-set_other (x ∷ xs) zero zero e h = absurd (h refl)
mask_at-set_other (x ∷ xs) zero (suc j) e h = refl
mask_at-set_other (x ∷ xs) (suc i) zero e h = refl
mask_at-set_other (x ∷ xs) (suc i) (suc j) e h = mask_at-set_other xs i j e (λ p. h (ap suc p))

-- One above the highest entry with a mask, for an entry and what it is for the entries behind it.
abbrev above : Bool → ℕ → ℕ
above unwatched zero = if unwatched then 0 else 1
above unwatched (suc n) = suc (suc n)

-- One above the highest descriptor that is watched, or 0.
unfoldable pub highest : List FileEvent → ℕ
highest [] = 0
highest (e ∷ es) = above (is_none e.mask) (highest es)

above-cases : (b : Bool) (n : ℕ) → (above b n ≡ suc n) ⊎ ((above b n ≡ 0) × (b ≡ true) × (n ≡ 0))
above-cases true zero = inr (refl, refl, refl)
above-cases false zero = inl refl
above-cases b (suc n) = inl refl

pub highest-set_watched :
    (es : List FileEvent) (i : ℕ) (e : FileEvent)
    → i < length es
    → is_none e.mask ≡ false
    → highest (set es i e) ≡ max (highest es) (suc i)
unfolding highest set
highest-set_watched [] i e h w = absurd (omega arith)
highest-set_watched (x ∷ xs) zero e h w =
    ground (
      arith,
      above-cases (is_none e.mask) (highest xs),
      above-cases (is_none x.mask) (highest xs),
      w,
    )
highest-set_watched (x ∷ xs) (suc i) e h w =
    let rest = highest-set_watched xs i e (omega arith) w in
    ground (
      arith,
      rest,
      above-cases (is_none x.mask) (highest xs),
      above-cases (is_none x.mask) (highest (set xs i e)),
    )

-- A change below the highest entry.
pub highest-set_below :
    (es : List FileEvent) (i : ℕ) (e : FileEvent)
    → suc i < highest es
    → highest (set es i e) ≡ highest es
unfolding highest set
highest-set_below [] i e h = absurd (omega arith)
highest-set_below (x ∷ xs) zero e h =
    ground (
      arith,
      h,
      above-cases (is_none e.mask) (highest xs),
      above-cases (is_none x.mask) (highest xs),
    )
highest-set_below (x ∷ xs) (suc i) e h = elim (above-cases (is_none x.mask) (highest xs)) [
  | inl p ↦ ap (above (is_none x.mask)) (highest-set_below xs i e (omega (arith, p, h)))
  | inr (p, _, _) ↦ absurd (omega (arith, p, h))
]

-- Once the highest entry is cleared, the highest is below it.
pub highest-set_cleared :
    (es : List FileEvent) (i : ℕ) (e : FileEvent)
    → highest es ≤ suc i
    → is_none e.mask ≡ true
    → highest (set es i e) ≤ i
unfolding highest set
highest-set_cleared [] i e h w = omega arith
highest-set_cleared (x ∷ xs) zero e h w = ground (
  arith,
  h,
  w,
  above-cases (is_none e.mask) (highest xs),
  above-cases (is_none x.mask) (highest xs),
)
highest-set_cleared (x ∷ xs) (suc i) e h w =
    let below : highest xs ≤ suc i = ground (arith, h, above-cases (is_none x.mask) (highest xs)) in
    let rest = highest-set_cleared xs i e below w in
    ground (arith, rest, above-cases (is_none x.mask) (highest (set xs i e)))

-- What the entry `i` says of the highest.
pub highest-watched :
    (es : List FileEvent) (i : ℕ) → is_none (mask_at es i) ≡ false → suc i ≤ highest es
unfolding highest mask_at
highest-watched [] i w = ground (arith, w)
highest-watched (x ∷ xs) zero w = ground (arith, w, above-cases (is_none x.mask) (highest xs))
highest-watched (x ∷ xs) (suc i) w =
    let rest = highest-watched xs i w in
    ground (arith, rest, above-cases (is_none x.mask) (highest xs))

pub highest-unwatched :
    (es : List FileEvent) (i : ℕ)
    → highest es ≤ suc i
    → is_none (mask_at es i) ≡ true
    → highest es ≤ i
unfolding highest mask_at
highest-unwatched [] i h w = omega arith
highest-unwatched (x ∷ xs) zero h w =
    ground (arith, h, w, above-cases (is_none x.mask) (highest xs))
highest-unwatched (x ∷ xs) (suc i) h w =
    let below : highest xs ≤ suc i = ground (arith, h, above-cases (is_none x.mask) (highest xs)) in
    let rest = highest-unwatched xs i below w in
    ground (arith, rest, above-cases (is_none x.mask) (highest xs))

pub highest-le : (es : List FileEvent) → highest es ≤ length es
unfolding highest
highest-le [] = omega arith
highest-le (x ∷ xs) = ground (arith, highest-le xs, above-cases (is_none x.mask) (highest xs))

-- The search of aeDeleteFileEvent finds it.
pub search-highest :
    (es : List FileEvent) (n : ℕ) → highest es ≤ n → n ≤ length es → search es n ≡ some (highest es)
unfolding search
search-highest es zero h le = let e : highest es ≡ 0 = omega arith in ap some (sym e)
search-highest es (suc n) h le =
    let (e, at) = get_elem?_lem es n (omega arith) in
    let here = mask_at-get_elem? es n at in
    elim (Bool-cases (is_none e.mask)) [
      | inl unwatched ↦
          rw (at, unwatched)
            (search-highest es n (highest-unwatched es n h (ap is_none here ∙ unwatched))
              (omega arith))
      | inr watched ↦
          let up = highest-watched es n (ap is_none here ∙ watched) in
          let same : suc n ≡ highest es = omega arith in rw (at, watched) (ap some same)
    ]

pub highest-cleared : (es : List FileEvent) → highest (map cleared_mask es) ≡ 0
unfolding highest
highest-cleared [] = refl
highest-cleared (e ∷ es) = ap (above true) (highest-cleared es)

pub mask_at-cleared : (es : List FileEvent) (i : ℕ) → mask_at (map cleared_mask es) i ≡ ae_none
unfolding mask_at
mask_at-cleared [] i = refl
mask_at-cleared (e ∷ es) zero = refl
mask_at-cleared (e ∷ es) (suc i) = mask_at-cleared es i

pub length-cleared : (es : List FileEvent) → length (map cleared_mask es) ≡ length es
length-cleared [] = refl
length-cleared (e ∷ es) = ap suc (length-cleared es)
