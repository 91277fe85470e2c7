-- ===== src/Socket.antt =====
-- aesocket.c and aesocket.h, and evpipe.c, both in their branch for systems other than Windows: sockets and pipes
-- that do not block. The system's calls are a parameter.
pub mod Descriptors
pub mod Transfer
mod Tests
use evnet.Base.{
  ℕ, zero, suc, Bool, true, false, ◌&&◌, ◌||◌, not, Option, none, some, List, [], ◌∷◌, length, leb,
  ltb, ◌==◌, if◌then◌else◌, ℤ, pos, negsuc, minus_one, is_negative, is_minus_one, is_zero,
}

-- What errno says, as far as the code asks. EAGAIN is the number of EWOULDBLOCK.
pub data Errno : Type 0 where
  would_block : Errno
  in_progress : Errno
  interrupted : Errno
  other_error : Errno

-- The system's calls, over a state `W` of the system: each returns an int, and what it writes.
pub record Os {ℓ} (W : Type ℓ) : Type ℓ where
  pub socket : ℕ → W → ℤ × W
  pub reuse_addr : ℤ → W → ℤ × W
  pub get_flags : ℤ → W → ℤ × W
  pub set_nonblock : ℤ → ℤ → W → ℤ × W
  pub connect : ℤ → Bool → List ℕ → ℕ → W → ℤ × W
  pub bind_any : ℤ → ℕ → W → ℤ × W
  pub listen : ℤ → ℕ → W → ℤ × W
  pub accept : ℤ → W → (ℤ × (List ℕ × ℕ)) × W
  pub send : ℤ → List ℕ → W → ℤ × W
  pub recv : ℤ → ℕ → W → (ℤ × List ℕ) × W
  pub pipe : W → (ℤ × (ℤ × ℤ)) × W
  pub close : ℤ → W → W
  pub errno : W → Errno

abbrev pub wouldblock : ℤ
wouldblock = negsuc 1

abbrev pub invalid_fd : ℤ
invalid_fd = minus_one

pub is_would_block : Errno → Bool
is_would_block would_block = true
is_would_block in_progress = false
is_would_block interrupted = false
is_would_block other_error = false

pub is_in_progress : Errno → Bool
is_in_progress would_block = false
is_in_progress in_progress = true
is_in_progress interrupted = false
is_in_progress other_error = false

-- The four numbers for which aesocread does not fail.
pub is_retry : Errno → Bool
is_retry would_block = true
is_retry in_progress = true
is_retry interrupted = true
is_retry other_error = false

-- strchr for a colon.
pub is_ipv6_addr : List ℕ → Bool
is_ipv6_addr [] = false
is_ipv6_addr (x ∷ xs) = (x == 58) || is_ipv6_addr xs

-- The checks behind a call of send or recv: 0 where nothing was moved.
pub at_least_zero : ℤ → ℤ
at_least_zero (pos n) = pos n
at_least_zero (negsuc n) = pos 0

module _ {ℓ} {W : Type ℓ} (os : Os W) where
  -- aesocnoblock, and likewise socket_nonblocking of evpipe.c: whether it returned 1.
  pub aesocnoblock : ℤ → W → Bool × W
  aesocnoblock soc w =
      let (flags, w1) = os.get_flags soc w in
      let (ret, w2) = os.set_nonblock soc flags w1 in
      if is_minus_one flags then (false, w1) else (not (is_negative ret), w2)

  -- The option that only an acceptor's socket gets: whether it could be set.
  pub reused : Bool → ℤ → W → Bool × W
  reused false soc w = (true, w)
  reused true soc w = let (ret, w1) = os.reuse_addr soc w in (not (is_minus_one ret), w1)

  -- aesoccreate once the socket is there.
  pub prepared : ℤ → Bool → W → ℤ × W
  unfolding reused aesocnoblock
  prepared soc acceptor w =
      let (fine, w1) = reused acceptor soc w in
      let (unblocked, w2) = aesocnoblock soc w1 in
      if not fine
      then (invalid_fd, os.close soc w1)
      else if not unblocked
      then (invalid_fd, os.close soc w2)
      else (soc, w2)

  pub aesoccreate : ℕ → Bool → W → ℤ × W
  unfolding prepared
  aesoccreate family acceptor w =
      let (soc, w1) = os.socket family w in
      if is_minus_one soc then (invalid_fd, w1) else prepared soc acceptor w1

  -- aesocconnect; a connection that is still being made is a success.
  pub aesocconnect : ℤ → List ℕ → ℕ → W → ℤ × W
  unfolding is_ipv6_addr is_in_progress
  aesocconnect soc ip_str port w =
      let (ret, w1) = os.connect soc (is_ipv6_addr ip_str) ip_str port w in
      if is_minus_one ret && not (is_in_progress (os.errno w1))
      then (minus_one, w1)
      else (pos 0, w1)

  pub aesoclisten : ℤ → ℕ → W → ℤ × W
  aesoclisten soc port w =
      let (bound, w1) = os.bind_any soc port w in
      let (ret, w2) = os.listen soc 128 w1 in
      if is_negative bound
      then (minus_one, w1)
      else if is_negative ret
      then (minus_one, w2)
      else (pos 0, w2)

  -- aesocaccept: what it returns, and, where that is 0, the socket, the address text and the port that it writes.
  pub aesocaccept : ℤ → W → (ℤ × Option (ℤ × List ℕ × ℕ)) × W
  unfolding aesocnoblock is_would_block
  aesocaccept soc w =
      let ((conn, (ip_str, port)), w1) = os.accept soc w in
      let (unblocked, w2) = aesocnoblock conn w1 in
      if is_minus_one conn
      then ((wouldblock, none), w1)
      else if is_negative conn
      then (((if is_would_block (os.errno w1) then wouldblock else minus_one), none), w1)
      else if unblocked
      then ((pos 0, some (conn, ip_str, port)), w2)
      else ((minus_one, none), os.close conn w2)

  pub aesocwrite : ℤ → List ℕ → W → ℤ × W
  unfolding is_would_block at_least_zero
  aesocwrite soc bytes w =
      let (ret, w1) = os.send soc bytes w in
      if length bytes == 0
      then (pos 0, w)
      else if is_negative ret
      then (if is_would_block (os.errno w1) then (pos 0, w1) else (minus_one, w1))
      else (at_least_zero ret, w1)

  -- aesocread: what it returns, and the bytes that it has put into the buffer.
  pub aesocread : ℤ → ℕ → W → (ℤ × List ℕ) × W
  unfolding is_retry at_least_zero
  aesocread soc size w =
      let ((ret, bytes), w1) = os.recv soc size w in
      if size == 0
      then ((pos 0, []), w)
      else if is_negative ret
      then (if is_retry (os.errno w1) then ((pos 0, []), w1) else ((minus_one, []), w1))
      else ((at_least_zero ret, bytes), w1)

  -- What socket_nonblocking returns.
  pub socket_nonblocking : ℤ → W → ℤ × W
  unfolding aesocnoblock
  socket_nonblocking soc w =
      let (fine, w1) = aesocnoblock soc w in (if fine then pos 1 else pos 0, w1)

  -- ev_pipe: what it returns, and the two ends that it writes.
  pub ev_pipe : W → (ℤ × Option (ℤ × ℤ)) × W
  unfolding socket_nonblocking
  ev_pipe w =
      let ((ret, (out, into)), w1) = os.pipe w in
      let (first, w2) = socket_nonblocking out w1 in
      let (second, w3) = socket_nonblocking into w2 in
      if not (is_zero ret)
      then ((minus_one, none), w1)
      else if is_negative first
      then ((minus_one, none), os.close into (os.close out w2))
      else if is_negative second
      then ((minus_one, none), os.close into (os.close out w3))
      else ((pos 0, some (out, into)), w3)
