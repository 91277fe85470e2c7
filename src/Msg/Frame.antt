-- ===== src/Msg/Frame.antt =====
-- msg_frame.h: the head of a packet, and its eight bytes in memory. The layout is that of a
-- little-endian machine with no padding in these structs (x86, ARM).
use evnet.Base.{
  ℕ, zero, suc, ◌+◌, ◌-◌, ◌*◌, ◌/◌, ◌%◌, ◌<◌, ◌≡◌, refl, List, [], ◌∷◌, ◌++◌, arith, length,
}

-- SOCKET_VER, sizeof(CMD_Head), SOCKET_BUFFER and SOCKET_PACKET.
abbrev pub socket_ver : ℕ
socket_ver = 0x66

abbrev pub head_size : ℕ
head_size = 8

abbrev pub socket_buffer : ℕ
socket_buffer = 32 * 1024

abbrev pub socket_packet : ℕ
socket_packet = socket_buffer - head_size - 2 * 4

-- CMD_Head: CMD_Info and CMD_Command.
pub record CmdHead : Type 0 where
  pub version : ℕ
  pub check_code : ℕ
  pub packet_size : ℕ
  pub main_cmd : ℕ
  pub sub_cmd : ℕ

-- A head that fits its fields.
pub record IsHead (h : CmdHead) : Type 0 where
  pub version_lt : h.version < 256
  pub check_lt : h.check_code < 256
  pub size_lt : h.packet_size < 65536
  pub main_lt : h.main_cmd < 65536
  pub sub_lt : h.sub_cmd < 65536

-- The bytes of a head.
unfoldable pub head_bytes : CmdHead → List ℕ
head_bytes h =
    h.version
    ∷ h.check_code
    ∷ (h.packet_size % 256)
    ∷ (h.packet_size / 256)
    ∷ (h.main_cmd % 256)
    ∷ (h.main_cmd / 256)
    ∷ (h.sub_cmd % 256)
    ∷ (h.sub_cmd / 256)
    ∷ []

-- One byte in memory, as an unsigned char; behind the end of the list there is none, and 0 stands for it.
abbrev pub byte_at : List ℕ → ℕ → ℕ
byte_at [] i = 0
byte_at (x ∷ xs) zero = x % 256
byte_at (x ∷ xs) (suc i) = byte_at xs i

abbrev pub short_at : List ℕ → ℕ → ℕ
short_at xs i = byte_at xs i + 256 * byte_at xs (suc i)

-- The head that eight bytes hold.
pub read_head : List ℕ → CmdHead
read_head xs = record {
  version = byte_at xs 0;
  check_code = byte_at xs 1;
  packet_size = short_at xs 2;
  main_cmd = short_at xs 4;
  sub_cmd = short_at xs 6;
}

byte_at-lt : (xs : List ℕ) (i : ℕ) → byte_at xs i < 256
byte_at-lt [] i = omega arith
byte_at-lt (x ∷ xs) zero = omega arith
byte_at-lt (x ∷ xs) (suc i) = byte_at-lt xs i

pub read_head-IsHead : (xs : List ℕ) → IsHead (read_head xs)
unfolding read_head
read_head-IsHead xs = omega (
  arith,
  byte_at-lt xs 0,
  byte_at-lt xs 1,
  byte_at-lt xs 2,
  byte_at-lt xs 3,
  byte_at-lt xs 4,
  byte_at-lt xs 5,
  byte_at-lt xs 6,
  byte_at-lt xs 7,
)

pub length-head_bytes : (h : CmdHead) → length (head_bytes h) ≡ 8
unfolding head_bytes
length-head_bytes h = refl

-- A head is read back from its bytes, whatever follows them.
pub read_head-head_bytes :
    {h : CmdHead} (rest : List ℕ) → IsHead h → read_head (head_bytes h ++ rest) ≡ h
unfolding read_head head_bytes
read_head-head_bytes {h} rest v = ground arith
