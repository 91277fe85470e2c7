-- ===== src/DataQueue/Insert.antt =====
-- dataqueue_insert_data.
use evnet.Base.{
  ℕ, ◌+◌, ◌-◌, ◌/◌, ◌^◌, ◌≤◌, ◌<◌, max, ◌≡◌, sym, ap, ap₂, ◌∙◌, ◌⊎◌, inl, inr, List, ◌++◌,
  append_assoc, arith, Bool-cases, ◌⊎◌, ◌<◌, ◌^◌, length, some, true, false,
}
use evnet.Base.Block.{
  Block, store, slice, splice, write_at_lem, length-splice, slice-splice_behind, slice-splice_end,
}
use evnet.DataQueue.{DataQueue, append, place, insert_data}
use evnet.DataQueue.Shape.{
  IsLinear, IsWrapped, IsPlaced, IsValid, IsWedged, contents, contents-linear, contents-wrapped,
  data_size-le,
}
use evnet.DataQueue.Grow.{Grown, grow_lem}
use native.Mathlib.Decide.{dec_lt}

-- `q'` is the queue `q` with `xs` behind its bytes.
pub record Extends (q : DataQueue) (xs : List ℕ) (q' : DataQueue) : Type 0 where
  pub valid : IsValid q'
  pub bytes : contents q' ≡ contents q ++ xs

-- The queue after the copy of `n` bytes into its block, with no counter wrapped.
abbrev pub filled : DataQueue → Block → ℕ → DataQueue
filled q b n = record q {
  buffer = b;
  data_size = q.data_size + n;
  insert_pos = q.insert_pos + n;
  terminal_pos = max q.terminal_pos (q.insert_pos + n);
}

pub append-filled :
    {q : DataQueue} (xs : List ℕ)
    → IsPlaced q
    → q.insert_pos + length xs ≤ q.buffer_size
    → q.data_size + length xs ≤ q.buffer_size
    → (b : Block) × (append q xs ≡ some (filled q b (length xs)))
      × (store b ≡ splice q.insert_pos xs (store q.buffer))
unfolding append
append-filled {q} xs p i d =
    let (b, e, s) = write_at_lem q.buffer q.insert_pos xs (omega arith) in
    (b, rw e (ground arith), s)

-- The bytes go behind those of a queue that lies in one piece.
append_linear :
    {q : DataQueue} (xs : List ℕ)
    → IsPlaced q
    → IsLinear q
    → q.insert_pos + length xs ≤ q.buffer_size
    → (q' : DataQueue) × (append q xs ≡ some q') × Extends q xs q'
append_linear {q} xs p l h =
    let (b, e, s) = append-filled xs p h (omega arith) in
    let linear : IsLinear (filled q b (length xs)) = omega arith in
    let sized : length (store b) ≡ q.buffer_size =
      rw s (length-splice q.insert_pos xs (store q.buffer) (omega arith) ∙ p.sized) in
    let span : max q.terminal_pos (q.insert_pos + length xs) - q.query_pos
        ≡ q.terminal_pos - q.query_pos + length xs =
      omega arith in
    (
      filled q b (length xs),
      e,
      record {
        valid = record { placed = omega arith; shape = inl linear };
        bytes =
            rw (contents-linear linear, contents-linear l, s, span)
              (slice-splice_end q.insert_pos xs (store q.buffer) (omega arith) q.query_pos
                (q.terminal_pos - q.query_pos) (omega arith));
      },
    )

-- The bytes go behind those at the front, before the first unread one.
append_wrapped :
    {q : DataQueue} (xs : List ℕ)
    → IsPlaced q
    → IsWrapped q
    → q.insert_pos + length xs ≤ q.query_pos
    → (q' : DataQueue) × (append q xs ≡ some q') × Extends q xs q'
append_wrapped {q} xs p w h =
    let (b, e, s) = append-filled xs p (omega arith) (omega arith) in
    let span : max q.terminal_pos (q.insert_pos + length xs) ≡ q.terminal_pos = omega arith in
    let wrapped : IsWrapped (filled q b (length xs)) = omega arith in
    let sized : length (store b) ≡ q.buffer_size =
      rw s (length-splice q.insert_pos xs (store q.buffer) (omega arith) ∙ p.sized) in
    (
      filled q b (length xs),
      e,
      record {
        valid = record { placed = omega arith; shape = inr wrapped };
        bytes =
            rw (contents-wrapped wrapped, contents-wrapped w, s, span)
              (ap₂ ◌++◌
                  (slice-splice_behind q.insert_pos xs (store q.buffer) (omega arith) q.query_pos
                    (q.terminal_pos - q.query_pos) h)
                  (slice-splice_end q.insert_pos xs (store q.buffer) (omega arith) 0 q.insert_pos
                    (omega arith))
                ∙ sym (
                    append_assoc (slice q.query_pos (q.terminal_pos - q.query_pos) (store q.buffer))
                      (slice 0 q.insert_pos (store q.buffer)) xs));
      },
    )

-- Where the tests find room, the bytes behind the insertion position are free.
pub record Fits (q : DataQueue) (n : ℕ) (q' : DataQueue) : Type 0 where
  pub placed : IsPlaced q'
  pub bytes : contents q' ≡ contents q
  pub free :
      (IsLinear q' × (q'.insert_pos + n ≤ q'.buffer_size))
      ⊎ (IsWrapped q' × (q'.insert_pos + n ≤ q'.query_pos))

place_full : {q : DataQueue} (n : ℕ) → (place q n).1 ≡ true → (place q n).0 ≡ q
unfolding place
place_full n h = ground arith

-- A queue in one piece, or one whose end is really behind its front.
shape_of_not_wedged :
    {q : DataQueue} {n : ℕ}
    → IsValid q
    → ¬ IsWedged q n
    → q.data_size + n ≤ q.buffer_size
    → IsLinear q ⊎ (IsWrapped q × (q.insert_pos < q.terminal_pos))
shape_of_not_wedged {q} {n} v ok h = elim v.shape [
  | inl l ↦ inl l
  | inr w ↦ elim (dec_lt q.insert_pos q.terminal_pos) [
    | yes lt ↦ inr (w, lt)
    | no ge ↦ elim (dec_lt 0 q.data_size) [
      | yes pos ↦ absurd (ok (omega (arith, v.placed)))
      | no empty ↦ inl (omega (arith, v.placed))
    ]
  ]
]

place-free :
    {q : DataQueue} (n : ℕ)
    → IsValid q
    → IsLinear q ⊎ (IsWrapped q × (q.insert_pos < q.terminal_pos))
    → q.buffer_size + n < 2 ^ 32
    → (place q n).1 ≡ false
    → (IsLinear (place q n).0 × ((place q n).0.insert_pos + n ≤ (place q n).0.buffer_size))
      ⊎ (IsWrapped (place q n).0 × ((place q n).0.insert_pos + n ≤ (place q n).0.query_pos))
unfolding place
place-free n v s h f = ground (arith, data_size-le v)

place_not_full :
    {q : DataQueue} (n : ℕ)
    → IsValid q
    → q.buffer_size + n < 2 ^ 32
    → (place q n).1 ≡ false
    → q.data_size + n ≤ q.buffer_size
unfolding place
place_not_full n v h f = ground (arith, data_size-le v)

place-IsPlaced : {q : DataQueue} (n : ℕ) → IsPlaced q → IsPlaced (place q n).0
unfolding place
place-IsPlaced n p = ground arith

contents-place : (q : DataQueue) (n : ℕ) → contents (place q n).0 ≡ contents q
unfolding place contents
contents-place q n = ground arith

place-Fits :
    {q : DataQueue} (n : ℕ)
    → IsValid q
    → ¬ IsWedged q n
    → q.buffer_size + n < 2 ^ 32
    → (place q n).1 ≡ false
    → Fits q n (place q n).0
place-Fits {q} n v ok h f = record {
  placed = place-IsPlaced n v.placed;
  bytes = contents-place q n;
  free = place-free n v (shape_of_not_wedged v ok (place_not_full n v h f)) h f;
}

-- With room, and after growth.
append-Fits :
    {q room : DataQueue} (xs : List ℕ)
    → Fits q (length xs) room
    → (q' : DataQueue) × (append room xs ≡ some q') × Extends q xs q'
append-Fits {q} {room} xs f =
    let (q', e, x) : (q' : DataQueue) × (append room xs ≡ some q') × Extends room xs q' =
      elim f.free [
        | inl (l, h) ↦ append_linear xs f.placed l h
        | inr (w, h) ↦ append_wrapped xs f.placed w h
      ] in
    (q', e, record { valid = x.valid; bytes = x.bytes ∙ ap (λ r. r ++ xs) f.bytes })

append-Grown :
    {q room : DataQueue} (xs : List ℕ)
    → Grown q (length xs) room
    → (q' : DataQueue) × (append room xs ≡ some q') × Extends q xs q'
append-Grown {q} {room} xs g = append-Fits xs (record {
  placed = g.placed;
  bytes = g.bytes;
  free = inl (g.linear, omega (arith, g.room, g.insert));
})

-- dataqueue_insert_data on a valid queue that is not wedged, where the sizes stay below 2 ^ 32, makes
-- no access outside the block and returns a valid queue that holds the old bytes and, behind them,
-- the new ones.
pub insert_data-Extends :
    {q : DataQueue} (xs : List ℕ)
    → IsValid q
    → ¬ IsWedged q (length xs)
    → q.buffer_size + max (q.buffer_size / 2) (length xs) < 2 ^ 32
    → (q' : DataQueue) × (insert_data q xs ≡ some q') × Extends q xs q'
unfolding insert_data
insert_data-Extends {q} xs v ok h = elim (Bool-cases (place q (length xs)).1) [
  | inl full ↦
      let (room, e, g) = grow_lem (length xs) v h in
      let (q', e', x) = append-Grown xs g in (q', rw (full, place_full (length xs) full, e) e', x)
  | inr free ↦
      let (q', e, x) = append-Fits xs (place-Fits (length xs) v ok (omega arith) free) in
      (q', rw free e, x)
]
