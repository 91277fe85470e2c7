-- ===== src/Msg/Pack/Bytes.antt =====
-- make_msg_packet: the bytes that it leaves to be sent, and how much data its buffer holds.
use evnet.Base.{
  ℕ, ◌+◌, ◌≤◌, ◌<◌, ◌≡◌, refl, sym, ap, ◌∙◌, List, [], ◌++◌, append-nil, arith, length, some, none,
  lt→ltb, le→ltb, dec_lt, eq_nil_of_length, ◌>>=◌, u16,
}
use evnet.Base.Block.{
  Block, store, slice, read_at, read_at_lem, write_at_lem, length-splice, write_at_front,
  write_at_outside, slice-splice_end, slice_all,
}
use evnet.Msg.Frame.{CmdHead, head_size, socket_packet, head_bytes, length-head_bytes}
use evnet.Msg.Pack.{send_buffer_size, packet_head, copy_data, put_packet, make_msg_packet}

-- The bytes of a packet.
abbrev pub packet_bytes : ℕ → ℕ → List ℕ → List ℕ
packet_bytes main sub xs = head_bytes (packet_head main sub (head_size + length xs)) ++ xs

-- The data goes behind what stands in the buffer.
copy_data_lem :
    (buffer : Block) (xs : List ℕ)
    → head_size + length xs ≤ length (store buffer)
    → (b : Block) × (copy_data buffer (some xs) (length xs) ≡ some b)
      × (slice 0 (head_size + length xs) (store b) ≡ slice 0 head_size (store buffer) ++ xs)
      × (length (store b) ≡ length (store buffer))
unfolding copy_data
copy_data_lem buffer xs inside = elim (dec_lt 0 (length xs)) [
  | yes some_data ↦
      let (b, e, s) = write_at_lem buffer head_size xs inside in
      let source : read_at (some xs) 0 (length xs) ≡ some xs =
        read_at_lem (some xs) 0 (length xs) (omega arith) ∙ ap some (slice_all xs) in
      (
        b,
        rw (lt→ltb _ _ some_data, source) e,
        ap (slice 0 (head_size + length xs)) s
            ∙ slice-splice_end head_size xs (store buffer) inside 0 head_size (omega arith),
        ap length s ∙ length-splice head_size xs (store buffer) inside,
      )
  | no no_data ↦
      let empty : xs ≡ [] = eq_nil_of_length xs (omega arith) in
      (
        buffer,
        rw (le→ltb 0 (length xs) (omega arith)),
        rw empty (sym (append-nil (slice 0 head_size (store buffer)))),
        refl,
      )
]

copy_data_outside :
    (buffer : Block) (xs : List ℕ)
    → 0 < length xs
    → length (store buffer) < head_size + length xs
    → copy_data buffer (some xs) (length xs) ≡ none
unfolding copy_data
copy_data_outside buffer xs pos outside =
    let source : read_at (some xs) 0 (length xs) ≡ some xs =
      read_at_lem (some xs) 0 (length xs) (omega arith) ∙ ap some (slice_all xs) in
    rw (lt→ltb _ _ pos, source) (write_at_outside buffer head_size xs outside)

put_packet_lem :
    (buffer : Block) (h : CmdHead) (xs : List ℕ)
    → length (store buffer) ≡ send_buffer_size
    → length xs ≤ socket_packet
    → (b : Block) × (put_packet buffer h (some xs) (length xs) ≡ some b)
      × (read_at b 0 (head_size + length xs) ≡ some (head_bytes h ++ xs))
      × (length (store b) ≡ send_buffer_size)
unfolding put_packet
put_packet_lem buffer h xs static fits =
    let (b1, e1, front, l1) =
      write_at_front buffer (head_bytes h) head_size (length-head_bytes h) (omega arith) in
    let (b2, e2, whole, l2) = copy_data_lem b1 xs (omega arith) in
    (
      b2,
      rw e1 e2,
      read_at_lem b2 0 (head_size + length xs) (omega arith)
          ∙ ap some (whole ∙ ap (λ r. r ++ xs) front),
      l2 ∙ l1 ∙ static,
    )

put_packet_overruns :
    (buffer : Block) (h : CmdHead) (xs : List ℕ)
    → length (store buffer) ≡ send_buffer_size
    → socket_packet < length xs
    → put_packet buffer h (some xs) (length xs) ≡ none
unfolding put_packet
put_packet_overruns buffer h xs static large =
    let (b1, e1, _, l1) =
      write_at_front buffer (head_bytes h) head_size (length-head_bytes h) (omega arith) in
    rw e1 (copy_data_outside b1 xs (omega arith) (omega arith))

module _ (buffer : Block) (main sub : ℕ) (xs : List ℕ)
    (static : length (store buffer) ≡ send_buffer_size) where
  -- make_msg_packet of at most SOCKET_PACKET bytes of data, on its static buffer, makes no access
  -- outside it, returns the size of head and data with nothing cut off, and leaves at the front of the
  -- buffer the head and then the data.
  pub make_msg_packet_lem :
      length xs ≤ socket_packet
      → (b : Block) × (make_msg_packet buffer main sub (some xs) (length xs)
          ≡ some (b, head_size + length xs))
        × (read_at b 0 (head_size + length xs) ≡ some (packet_bytes main sub xs))
        × (length (store b) ≡ send_buffer_size)
  unfolding make_msg_packet
  make_msg_packet_lem fits =
      let size : u16 (head_size + length xs) ≡ head_size + length xs = omega arith in
      let (b, e, r, l) =
        put_packet_lem buffer (packet_head main sub (head_size + length xs)) xs static fits in
      (
        b,
        ap
              (λ k. put_packet buffer (packet_head main sub k) (some xs) (length xs) >>= λ f.
                some (f, k))
              size
            ∙ ap (λ m. m >>= λ f. some (f, head_size + length xs)) e,
        r,
        l,
      )

  -- With more data than SOCKET_PACKET, make_msg_packet writes behind the end of its static buffer,
  -- whatever the command: nothing checks the size.
  pub make_msg_packet_overruns :
      socket_packet < length xs → make_msg_packet buffer main sub (some xs) (length xs) ≡ none
  unfolding make_msg_packet
  make_msg_packet_overruns large =
      ap (λ m. m >>= λ f. some (f, u16 (head_size + length xs)))
        (put_packet_overruns buffer (packet_head main sub (u16 (head_size + length xs))) xs static
          large)
