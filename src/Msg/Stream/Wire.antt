-- ===== src/Msg/Stream/Wire.antt =====
-- Packets as make_msg_packet writes them, one behind the other, and what the decoder makes of them.
use evnet.Base.{
  ℕ, zero, suc, ◌+◌, ◌-◌, ◌*◌, ◌≤◌, ◌<◌, ◌≡◌, refl, sym, ap, ◌∙◌, List, [], ◌∷◌, ◌++◌, append_assoc,
  append-nil, arith, Bool, true, false, length, take, drop, some, none, le→ltb, lt→ltb, ==_false,
  if◌then◌else◌, Bool-cases, inl, inr, length-append, take-append_ge, drop-append_ge,
}
use evnet.Msg.Frame.{
  CmdHead, IsHead, head_size, socket_packet, head_bytes, read_head, length-head_bytes,
  read_head-head_bytes,
}
use evnet.Msg.Pack.{packet_head}
use evnet.Msg.Pack.Bytes.{packet_bytes}
use evnet.Msg.Stream.{Decoded, decode_body, decode_round, decode, decode_all}
use evnet.Msg.Stream.Progress.{decode_stop}

-- A cut at the end of the first part of an append.
cut_at {ℓ} :
    {A : Type ℓ} (n : ℕ) (xs ys : List A)
    → length xs ≡ n
    → (take n (xs ++ ys) ≡ xs) × (drop n (xs ++ ys) ≡ ys)
cut_at n xs ys e =
    let none_left : n - length xs ≡ 0 = omega arith in
    (
      take-append_ge n xs ys (omega arith) ∙ ap (λ k. xs ++ take k ys) none_left ∙ append-nil xs,
      drop-append_ge n xs ys (omega arith) ∙ ap (λ k. drop k ys) none_left,
    )

module _ {ℓ} {U : Type ℓ} (handler : U → ℕ → ℕ → List ℕ → U × Bool) where
  -- A head in front of the stream is read and used.
  round-head_bytes :
      (h : CmdHead) (rest : List ℕ) (user : U)
      → IsHead h
      → h.version ≡ 0x66
      → decode_round handler none (head_bytes h ++ rest) user ≡ decode_body handler h rest user
  unfolding decode_round
  round-head_bytes h rest user v ver =
      let long : head_size ≤ length (head_bytes h ++ rest) =
        omega (arith, length-append (head_bytes h) rest, length-head_bytes h) in
      let (first, second) = cut_at head_size (head_bytes h) rest (length-head_bytes h) in
      let back : read_head (head_bytes h) ≡ h =
        ap read_head (sym (append-nil (head_bytes h))) ∙ read_head-head_bytes [] v in
      rw (le→ltb _ _ long, first, second, back, ver)

  body_of_packet :
      (h : CmdHead) (xs rest : List ℕ) (user : U)
      → h.packet_size ≡ head_size + length xs
      → h.packet_size ≤ socket_packet
      → decode_body handler h (xs ++ rest) user ≡ (
          let (user', ok) = handler user h.main_cmd h.sub_cmd xs in
          (record { pending = none; rest = rest; user = user'; ok = ok }, ok))
  unfolding decode_body
  body_of_packet h xs rest user size fits =
      let count : h.packet_size - head_size ≡ length xs = omega arith in
      let (first, second) = cut_at (length xs) xs rest refl in
      let long : h.packet_size ≤ length (xs ++ rest) + head_size =
        omega (arith, length-append xs rest) in
      let big : head_size ≤ h.packet_size = omega arith in
      rw (le→ltb _ _ fits, le→ltb _ _ long, le→ltb _ _ big, count, first, second)

  packet_round :
      (main sub : ℕ) (xs rest : List ℕ) (user : U)
      → main < 65536
      → sub < 65536
      → head_size + length xs ≤ socket_packet
      → decode_round handler none (packet_bytes main sub xs ++ rest) user ≡ (
          let (user', ok) = handler user main sub xs in
          (record { pending = none; rest = rest; user = user'; ok = ok }, ok))
  packet_round main sub xs rest user hm hs fits =
      let h = packet_head main sub (head_size + length xs) in
      ap (λ s. decode_round handler none s user) (append_assoc (head_bytes h) xs rest)
      ∙ round-head_bytes h (xs ++ rest) user (omega arith) refl
      ∙ body_of_packet h xs rest user refl fits

  -- A packet that make_msg_packet still builds, with its data within SOCKET_PACKET and its whole size
  -- above it, ends the reader's stream: the decoder reports an error before any call of the handler.
  pub decode_refuses_large :
      (main sub : ℕ) (xs rest : List ℕ) (user : U)
      → main < 65536
      → sub < 65536
      → length xs ≤ socket_packet
      → socket_packet < head_size + length xs
      → decode_all handler none (packet_bytes main sub xs ++ rest) user
        ≡ some (record {
          pending = some (packet_head main sub (head_size + length xs));
          rest = xs ++ rest;
          user = user;
          ok = false;
        })
  decode_refuses_large main sub xs rest user hm hs fits large =
      let h = packet_head main sub (head_size + length xs) in
      let long : 0 < length (packet_bytes main sub xs ++ rest) = omega (
        arith,
        length-append (packet_bytes main sub xs) rest,
        length-append (head_bytes h) xs,
        length-head_bytes h,
      ) in
      decode_stop handler none (packet_bytes main sub xs ++ rest) user _ long (
        ap (λ s. decode_round handler none s user) (append_assoc (head_bytes h) xs rest)
        ∙ round-head_bytes h (xs ++ rest) user (omega arith) refl
        ∙ (unfold decode_body in rw (lt→ltb _ _ large)))

-- A message of the program's user.
pub record Message : Type 0 where
  pub main : ℕ
  pub sub : ℕ
  pub bytes : List ℕ

-- Commands are unsigned shorts, and head and data fit SOCKET_PACKET.
pub record IsMessage (m : Message) : Type 0 where
  pub main_lt : m.main < 65536
  pub sub_lt : m.sub < 65536
  pub fits : head_size + length m.bytes ≤ socket_packet

abbrev pub AllMessages : List Message → Type 0
AllMessages [] = Unit {0}
AllMessages (m ∷ ms) = IsMessage m × AllMessages ms

-- The bytes of messages that are sent one after the other.
unfoldable pub wire : List Message → List ℕ
wire [] = []
wire (m ∷ ms) = packet_bytes m.main m.sub m.bytes ++ wire ms

module _ {ℓ} {U : Type ℓ} (handler : U → ℕ → ℕ → List ℕ → U × Bool) where
  -- The handler is called with each message in turn, until it asks to stop.
  pub serve : List Message → U → Decoded U
  serve [] user = record { pending = none; rest = []; user = user; ok = true }
  serve (m ∷ ms) user =
      let (user', ok) = handler user m.main m.sub m.bytes in
      if ok
      then serve ms user'
      else record { pending = none; rest = wire ms; user = user'; ok = false }

  decode-wire_fuel :
      (fuel : ℕ) (ms : List Message) (user : U)
      → AllMessages ms
      → 2 * length (wire ms) < fuel
      → decode handler fuel none (wire ms) user ≡ some (serve ms user)
  unfolding decode wire serve
  decode-wire_fuel zero ms user v h = absurd (omega arith)
  decode-wire_fuel (suc fuel) [] user v h = refl
  decode-wire_fuel (suc fuel) (m ∷ ms) user (v, vs) h =
      let e = packet_round handler m.main m.sub m.bytes (wire ms) user v.main_lt v.sub_lt v.fits in
      let out = handler user m.main m.sub m.bytes in
      let long : 8 + length (wire ms) ≤ length (packet_bytes m.main m.sub m.bytes ++ wire ms) =
        omega (
          arith,
          length-append (packet_bytes m.main m.sub m.bytes) (wire ms),
          length-append (head_bytes (packet_head m.main m.sub (head_size + length m.bytes)))
              m.bytes,
          length-head_bytes (packet_head m.main m.sub (head_size + length m.bytes)),
        ) in
      let some_bytes =
        ==_false (length (packet_bytes m.main m.sub m.bytes ++ wire ms)) 0 (λ z. omega arith) in
      elim (Bool-cases out.1) [
        | inl on ↦ rw (some_bytes, e, on) (decode-wire_fuel fuel ms out.0 vs (omega arith))
        | inr off ↦ rw (some_bytes, e, off)
      ]

  -- Messages that make_msg_packet and the protocol allow, sent one behind the other, reach the handler
  -- as they were sent, in order, up to the first that the handler answers by false; nothing else
  -- reaches it, and what is left are the bytes of the messages behind that one.
  pub decode-wire :
      (ms : List Message) (user : U)
      → AllMessages ms
      → decode_all handler none (wire ms) user ≡ some (serve ms user)
  unfolding decode_all
  decode-wire ms user v = decode-wire_fuel (2 * length (wire ms) + 2) ms user v (omega arith)
