-- ===== src/Base/Block.antt =====
-- Memory obtained by malloc: a pointer is `none` (NULL) or a block of bytes, and an access outside
-- the block is a fault. memcpy of the C library, on such blocks.
use Prim.Native.Nat.{ℕ, zero, suc, ◌+◌, ◌-◌, ◌≤◌, ◌<◌}
use mathlib.Core.Path.{◌≡◌, refl, sym, ap, ◌∙◌}
use mathlib.Core.List.{List, [], ◌∷◌, ◌++◌}
use mathlib.Core.Option.{Option, none, some}
use mathlib.Core.Option
use native.Mathlib.Omega.{arith}
use evnet.Base.Tests.{leb, if◌then◌else◌}
use evnet.Base.Lists.{
  length, take, drop, length-append, length-take, length-drop, take-append_le, take-append_ge,
  drop-append_le, drop-append_ge, take_of_length_le, drop-drop, take-append-drop, drop-take,
  take-take,
}

abbrev pub Block : Type 0
Block = Option (List ℕ)

-- The bytes of a block; NULL has none.
abbrev pub store : Block → List ℕ
store none = []
store (some b) = b

-- `n` bytes from `from` on.
unfoldable pub slice : ℕ → ℕ → List ℕ → List ℕ
slice from n b = take n (drop from b)

-- `b` with the bytes from `to` on overwritten by `xs`.
pub splice : ℕ → List ℕ → List ℕ → List ℕ
splice to xs b = take to b ++ (xs ++ drop (to + length xs) b)

-- memcpy out of a block, and into one. `none` is an access outside the block.
pub read_at : Block → ℕ → ℕ → Option (List ℕ)
read_at p from n = if leb (from + n) (length (store p)) then some (slice from n (store p)) else none

pub write_at : Block → ℕ → List ℕ → Option Block
write_at p to xs =
    if leb (to + length xs) (length (store p)) then some (Option.map (splice to xs) p) else none

module _ (b : List ℕ) where
  pub length-slice : (from n : ℕ) → from + n ≤ length b → length (slice from n b) ≡ n
  unfolding slice
  length-slice from n h = omega (arith, length-take n (drop from b), length-drop from b)

  pub slice_all : slice 0 (length b) b ≡ b
  unfolding slice
  slice_all = take_of_length_le (length b) b (omega arith)

  pub slice-zero : (from : ℕ) → slice from 0 b ≡ []
  unfolding slice
  slice-zero from = refl

  -- Two neighbouring slices make one.
  pub slice-append :
      (from m n : ℕ)
      → from + m ≤ length b
      → slice from (m + n) b ≡ slice from m b ++ slice (from + m) n b
  unfolding slice
  slice-append from m n h =
      ap (take (m + n)) (sym (take-append-drop m (drop from b)))
      ∙ take-append_ge (m + n) (take m (drop from b)) (drop m (drop from b))
          (omega (arith, length-take m (drop from b)))
      ∙ ap (λ k. take m (drop from b) ++ take k (drop m (drop from b)))
          (omega (arith, length-take m (drop from b), length-drop from b))
      ∙ ap (λ r. take m (drop from b) ++ take n r) (drop-drop m from b)

  pub take-slice : (from m n : ℕ) → m ≤ n → take m (slice from n b) ≡ slice from m b
  unfolding slice
  take-slice from m n h = take-take m n (drop from b) h

  pub drop-slice : (from m n : ℕ) → drop m (slice from n b) ≡ slice (from + m) (n - m) b
  unfolding slice
  drop-slice from m n = drop-take m n (drop from b) ∙ ap (take (n - m)) (drop-drop m from b)

module _ (to : ℕ) (xs b : List ℕ) (inside : to + length xs ≤ length b) where
  pub length-splice : length (splice to xs b) ≡ length b
  unfolding splice
  length-splice = omega (
    arith,
    length-append (take to b) (xs ++ drop (to + length xs) b),
    length-append xs (drop (to + length xs) b),
    length-take to b,
    length-drop (to + length xs) b,
  )

  -- A write leaves what stands before it and behind it.
  pub slice-splice_before :
      (from n : ℕ) → from + n ≤ to → slice from n (splice to xs b) ≡ slice from n b
  unfolding slice splice
  slice-splice_before from n h =
      ap (take n) (drop-append_le from (take to b) _ (omega (arith, length-take to b)))
      ∙ take-append_le n (drop from (take to b)) _
          (omega (arith, length-drop from (take to b), length-take to b))
      ∙ ap (take n) (drop-take from to b)
      ∙ take-take n (to - from) (drop from b) (omega arith)

  pub slice-splice_behind :
      (from n : ℕ) → to + length xs ≤ from → slice from n (splice to xs b) ≡ slice from n b
  unfolding slice splice
  slice-splice_behind from n h = ap (take n) (
      drop-append_ge from (take to b) _ (omega (arith, length-take to b))
      ∙ drop-append_ge (from - length (take to b)) xs _ (omega (arith, length-take to b))
      ∙ drop-drop _ (to + length xs) b
      ∙ ap (λ k. drop k b) (omega (arith, length-take to b)))

  -- A write at the end of a slice extends it by what is written.
  pub slice-splice_end :
      (from n : ℕ)
      → from + n ≡ to
      → slice from (n + length xs) (splice to xs b) ≡ slice from n b ++ xs
  unfolding slice splice
  slice-splice_end from n e =
      ap (take (n + length xs)) (
        drop-append_le from (take to b) (xs ++ drop (to + length xs) b)
          (omega (arith, length-take to b))
        ∙ ap (λ r. r ++ (xs ++ drop (to + length xs) b)) part)
      ∙ take-append_ge (n + length xs) (take n (drop from b)) (xs ++ drop (to + length xs) b)
          (omega (arith, count))
      ∙ ap (◌++◌ (take n (drop from b))) (
          ap (λ k. take k (xs ++ drop (to + length xs) b)) (omega (arith, count))
          ∙ take-append_le (length xs) xs (drop (to + length xs) b) (omega arith)
          ∙ take_of_length_le (length xs) xs (omega arith))
    where
      part : drop from (take to b) ≡ take n (drop from b)
      part = drop-take from to b ∙ ap (λ k. take k (drop from b)) (omega arith)

      count : length (take n (drop from b)) ≡ n
      count = omega (arith, length-take n (drop from b), length-drop from b)

  -- What was written is what is read.
  pub slice-splice_self : slice to (length xs) (splice to xs b) ≡ xs
  slice-splice_self =
      let e : length xs ≡ 0 + length xs = omega arith in
      ap (λ k. slice to k (splice to xs b)) e
      ∙ slice-splice_end to 0 (omega arith)
      ∙ ap (λ r. r ++ xs) (slice-zero b to)

-- The two accesses, inside the block.
pub read_at_lem :
    (p : Block) (from n : ℕ)
    → from + n ≤ length (store p)
    → read_at p from n ≡ some (slice from n (store p))
unfolding read_at
read_at_lem p from n h = ground arith

pub write_at_lem :
    (p : Block) (to : ℕ) (xs : List ℕ)
    → to + length xs ≤ length (store p)
    → (p' : Block) × (write_at p to xs ≡ some p') × (store p' ≡ splice to xs (store p))
unfolding write_at splice
write_at_lem none zero [] h = (none, ground arith, refl)
write_at_lem none zero (x ∷ xs) h = absurd (omega arith)
write_at_lem none (suc to) xs h = absurd (omega arith)
write_at_lem (some b) to xs h = (some (splice to xs b), ground arith, refl)

-- A slice that is known as an append, taken apart.
pub slice-split :
    (b : List ℕ) (m k : ℕ) (hs ys : List ℕ)
    → slice 0 (m + k) b ≡ hs ++ ys
    → length hs ≡ m
    → (slice 0 m b ≡ hs) × (slice m k b ≡ ys)
slice-split b m k hs ys e l = (
  sym (take-slice b 0 m (m + k) (omega arith))
      ∙ ap (take m) e
      ∙ take-append_le m hs ys (omega arith)
      ∙ take_of_length_le m hs (omega arith),
  same
      ∙ sym (drop-slice b 0 m (m + k))
      ∙ ap (drop m) e
      ∙ drop-append_ge m hs ys (omega arith)
      ∙ none_dropped,
)
  where
    same : slice m k b ≡ slice (0 + m) (m + k - m) b
    same =
        let e1 : m ≡ 0 + m = omega arith in
        let e2 : k ≡ m + k - m = omega arith in
        ap (λ i. slice i k b) e1 ∙ ap (λ n. slice (0 + m) n b) e2

    none_dropped : drop (m - length hs) ys ≡ ys
    none_dropped = let e : m - length hs ≡ 0 = omega arith in ap (λ i. drop i ys) e

pub write_at_outside :
    (p : Block) (to : ℕ) (xs : List ℕ) → length (store p) < to + length xs → write_at p to xs ≡ none
unfolding write_at
write_at_outside p to xs h = ground arith

-- A write to the front.
pub write_at_front :
    (p : Block) (hs : List ℕ) (n : ℕ)
    → length hs ≡ n
    → n ≤ length (store p)
    → (b : Block) × (write_at p 0 hs ≡ some b)
      × (slice 0 n (store b) ≡ hs)
      × (length (store b) ≡ length (store p))
write_at_front p hs n l h =
    let inside : 0 + length hs ≤ length (store p) = omega arith in
    let (b, e, s) = write_at_lem p 0 hs inside in
    (
      b,
      e,
      ap (λ k. slice 0 k (store b)) (sym l)
          ∙ ap (slice 0 (length hs)) s
          ∙ slice-splice_self 0 hs (store p) inside,
      ap length s ∙ length-splice 0 hs (store p) inside,
    )
