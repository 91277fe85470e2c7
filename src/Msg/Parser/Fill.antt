-- ===== src/Msg/Parser/Fill.antt =====
-- The copying loops of _command: they take exactly the bytes that are asked for, in order.
use evnet.Base.{
  ℕ, zero, suc, ◌+◌, ◌-◌, ◌≤◌, ◌<◌, min, ◌≡◌, refl, sym, ap, ◌∙◌, ◌++◌, append_assoc, arith, length,
  take, drop, some, lt→ltb, le→ltb, drop-drop, dec_lt, length-take, take-add, append-nil, subst,
}
use evnet.Base.Block.{store, slice, write_at_lem, length-splice, slice-splice_end}
use evnet.DataQueue.{next_data, distill_data}
use evnet.DataQueue.Shape.{IsValid, contents, length-contents}
use evnet.DataQueue.Read.{next_data-Offers, distill_after_next_data}
use evnet.Msg.Parser.{Copying, fill_round, fill}

-- From `c` to `c'` the `k` oldest bytes went from the queue to the end of what stands in the buffer.
pub record Filled (c : Copying) (k : ℕ) (c' : Copying) : Type 0 where
  pub pos : c'.pos ≡ c.pos + k
  pub valid : IsValid c'.queue
  pub bytes : contents c'.queue ≡ drop k (contents c.queue)
  pub size : c'.queue.data_size ≡ c.queue.data_size - k
  pub front :
      slice 0 c'.pos (store c'.buffer) ≡ slice 0 c.pos (store c.buffer) ++ take k (contents c.queue)
  pub room : length (store c'.buffer) ≡ length (store c.buffer)

fill_round-Filled :
    (limit : ℕ) (c : Copying)
    → IsValid c.queue
    → c.pos < limit
    → limit - c.pos ≤ c.queue.data_size
    → limit ≤ length (store c.buffer)
    → (n : ℕ) × (c' : Copying) × (0 < n)
      × (n ≤ limit - c.pos)
      × (fill_round limit c ≡ some c')
      × Filled c n c'
unfolding fill_round
fill_round-Filled limit c v h enough room =
    let o = next_data-Offers (limit - c.pos) v (omega arith) in
    let n = min (next_data c.queue).1.count (limit - c.pos) in
    let bytes = take n (contents c.queue) in
    let d = distill_after_next_data n v (omega arith) (omega arith) in
    let count : length bytes ≡ n =
      omega (arith, length-take n (contents c.queue), length-contents v, o.within) in
    let inside : c.pos + length bytes ≤ length (store c.buffer) = omega arith in
    let (b, e, s) = write_at_lem c.buffer c.pos bytes inside in
    (
      n,
      record { pos = c.pos + n; buffer = b; queue = distill_data (next_data c.queue).0 n },
      omega (arith, o.some_bytes),
      omega arith,
      rw (o.first, e) refl,
      record {
        pos = refl;
        valid = d.valid;
        bytes = d.bytes;
        size = d.size;
        front =
            ap (λ k. slice 0 (c.pos + k) (store b)) (sym count)
            ∙ ap (slice 0 (c.pos + length bytes)) s
            ∙ slice-splice_end c.pos bytes (store c.buffer) inside 0 c.pos (omega arith);
        room = ap length s ∙ length-splice c.pos bytes (store c.buffer) inside;
      },
    )

Filled-trans : {a b c : Copying} (m n : ℕ) → Filled a m b → Filled b n c → Filled a (m + n) c
Filled-trans {a} {b} {c} m n f g = record {
  pos = omega (arith, f.pos, g.pos);
  valid = g.valid;
  bytes = g.bytes ∙ ap (drop n) f.bytes ∙ drop-drop n m (contents a.queue);
  size = omega (arith, f.size, g.size);
  front =
      g.front
      ∙ ap (λ r. r ++ take n (contents b.queue)) f.front
      ∙ append_assoc (slice 0 a.pos (store a.buffer)) (take m (contents a.queue))
          (take n (contents b.queue))
      ∙ ap (λ r. slice 0 a.pos (store a.buffer) ++ (take m (contents a.queue) ++ take n r)) f.bytes
      ∙ ap (◌++◌ (slice 0 a.pos (store a.buffer))) (sym (take-add m n (contents a.queue)));
  room = g.room ∙ f.room;
}

Filled-none : {c : Copying} → IsValid c.queue → Filled c 0 c
Filled-none {c} v = record {
  pos = omega arith;
  valid = v;
  bytes = refl;
  size = omega arith;
  front = sym (append-nil (slice 0 c.pos (store c.buffer)));
  room = refl;
}

-- With fuel above the number of missing bytes, if these wait in a valid queue and the buffer has room,
-- the loop takes exactly them.
pub fill-Filled :
    (fuel limit : ℕ) (c : Copying)
    → IsValid c.queue
    → limit - c.pos < fuel
    → limit - c.pos ≤ c.queue.data_size
    → limit ≤ length (store c.buffer)
    → (c' : Copying) × (fill fuel limit c ≡ some c') × Filled c (limit - c.pos) c'
unfolding fill
fill-Filled zero limit c v f enough room = absurd (omega arith)
fill-Filled (suc fuel) limit c v f enough room = elim (dec_lt c.pos limit) [
  | yes h ↦
      let (n, c1, pos, le, e, first) = fill_round-Filled limit c v h enough room in
      let (c2, e', more) =
        fill-Filled fuel limit c1 first.valid (omega (arith, first.pos))
          (omega (arith, first.pos, first.size)) (omega (arith, first.room)) in
      let sum : n + (limit - c1.pos) ≡ limit - c.pos = omega (arith, first.pos) in
      (
        c2,
        rw (lt→ltb _ _ h, e) e',
        subst (λ k. Filled c k c2) sum (Filled-trans n (limit - c1.pos) first more),
      )
  | no h ↦
      let none_missing : limit - c.pos ≡ 0 = omega arith in
      (
        c,
        rw (le→ltb c.pos limit (omega arith)),
        subst (λ k. Filled c k c) (sym none_missing) (Filled-none v),
      )
]
