-- ===== src/Msg/Stream.antt =====
-- What the parser should do, said of a plain stream of bytes: no queue, no buffer, no position.
pub mod Progress
pub mod Wire
pub mod Rounds
pub mod Chunks
use evnet.Base.{
  ℕ, zero, suc, ◌+◌, ◌-◌, ◌*◌, Bool, true, false, Option, some, none, List, [], ltb, ◌==◌,
  if◌then◌else◌, length, take, drop,
}
use evnet.Msg.Frame.{CmdHead, socket_ver, socket_packet, head_size, read_head}

-- A head that waits for its data, the bytes not used yet, the user's state, and whether all was well.
pub record Decoded {ℓ} (U : Type ℓ) : Type ℓ where
  pub pending : Option CmdHead
  pub rest : List ℕ
  pub user : U
  pub ok : Bool

module _ {ℓ} {U : Type ℓ} (handler : U → ℕ → ℕ → List ℕ → U × Bool) where
  -- A packet of which all bytes are there. The flag says whether decoding goes on.
  unfoldable pub decode_packet : CmdHead → List ℕ → U → Decoded U × Bool
  decode_packet h xs user =
      let count = h.packet_size - head_size in
      let (user', ok) = handler user h.main_cmd h.sub_cmd (take count xs) in
      if ltb h.packet_size head_size
      then (record { pending = none; rest = drop count xs; user = user; ok = false }, false)
      else (record { pending = none; rest = drop count xs; user = user'; ok = ok }, ok)

  -- The bytes behind a head that was read.
  unfoldable pub decode_body : CmdHead → List ℕ → U → Decoded U × Bool
  unfolding decode_packet
  decode_body h xs user =
      if ltb socket_packet h.packet_size
      then (record { pending = some h; rest = xs; user = user; ok = false }, false)
      else if ltb (length xs + head_size) h.packet_size
      then (record { pending = some h; rest = xs; user = user; ok = true }, false)
      else decode_packet h xs user

  unfoldable pub decode_round : Option CmdHead → List ℕ → U → Decoded U × Bool
  unfolding decode_body
  decode_round (some h) xs user = decode_body h xs user
  decode_round none xs user =
      let h = read_head (take head_size xs) in
      if ltb (length xs) head_size
      then (record { pending = none; rest = xs; user = user; ok = true }, false)
      else if h.version == socket_ver
      then decode_body h (drop head_size xs) user
      else (record { pending = none; rest = drop head_size xs; user = user; ok = false }, false)

  -- `none`: no fuel left.
  unfoldable pub decode : ℕ → Option CmdHead → List ℕ → U → Option (Decoded U)
  unfolding decode_round
  decode zero pending xs user = none
  decode (suc fuel) pending xs user =
      let rest =
        (let (d, on) = decode_round pending xs user in
          let more = decode fuel d.pending d.rest d.user in if on then more else some d) in
      if length xs == 0
      then some (record { pending = pending; rest = xs; user = user; ok = true })
      else rest

  -- With the fuel of msgparser_parser.
  unfoldable pub decode_all : Option CmdHead → List ℕ → U → Option (Decoded U)
  unfolding decode
  decode_all pending xs user = decode (2 * length xs + 2) pending xs user
