-- ===== src/Msg/Pack.antt =====
-- msg_pack.c: a packet is built in a static buffer, which the next packet overwrites.
pub mod Bytes
use evnet.Base.{
  ℕ, ◌+◌, ◌<◌, ◌≤◌, ◌≡◌, refl, Option, some, none, ◌>>=◌, List, ◌++◌, arith, length, ltb, u16,
  if◌then◌else◌,
}
use evnet.Base.Block.{Block, store, read_at, write_at}
use evnet.Msg.Frame.{CmdHead, socket_ver, socket_packet, head_size, head_bytes}

-- sizeof(g_cbSendDataBuffer)
abbrev pub send_buffer_size : ℕ
send_buffer_size = socket_packet + head_size

abbrev pub packet_head : ℕ → ℕ → ℕ → CmdHead
packet_head main sub size = record {
  version = socket_ver;
  check_code = 0;
  packet_size = size;
  main_cmd = main;
  sub_cmd = sub;
}

-- The copy of the data behind the head: none for a null pointer or for no data.
pub copy_data : Block → Block → ℕ → Option Block
copy_data buffer none size = some buffer
copy_data buffer (some bytes) size =
    if ltb 0 size
    then (do xs ← read_at (some bytes) 0 size; write_at buffer head_size xs)
    else some buffer

-- The head at the front of the buffer, and the data.
pub put_packet : Block → CmdHead → Block → ℕ → Option Block
unfolding copy_data
put_packet buffer head bytes data_size = do
  headed ← write_at buffer 0 (head_bytes head)
  copy_data headed bytes data_size

-- `buffer` is the static buffer and `bytes` the pointer pData. The result is the buffer, whose first
-- bytes are the packet, and the packet's size, an unsigned short.
pub make_msg_packet : Block → ℕ → ℕ → Block → ℕ → Option (Block × ℕ)
unfolding put_packet
make_msg_packet buffer main sub bytes data_size = do
  let size = u16 (head_size + data_size)
  filled ← put_packet buffer (packet_head main sub size) bytes data_size
  some (filled, size)
