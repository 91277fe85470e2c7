-- ===== src/Socket/Tests.antt =====
-- The theorems on sockets, with a system that keeps the list of its open descriptors, and in which no option can be
-- set.
use evnet.Base.{
  ℕ, ◌≤◌, ◌≡◌, ◌≢◌, refl, ap, true, false, none, some, List, [], ◌∷◌, length, take, length-take,
  ◌⊎◌, inr, arith, ℤ, pos, minus_one, is_negative,
}
use evnet.Socket.{Os, would_block, wouldblock, is_retry, aesoccreate, aesocaccept, aesocread}
use evnet.Socket.Descriptors.{OsLaws, Opened, aesoccreate-Opened, aesocaccept_opens}
use evnet.Socket.Transfer.{TransferLaws, aesocread_bounds}

abbrev remove_first : List ℤ → List ℤ
remove_first [] = []
remove_first (x ∷ xs) = xs

abbrev waiting : List ℕ
waiting = 1 ∷ 2 ∷ 3 ∷ []

abbrev system : Os (List ℤ)
system = record {
  socket = λ family w. (pos (length w), pos (length w) ∷ w);
  reuse_addr = λ soc w. (minus_one, w);
  get_flags = λ soc w. (pos 0, w);
  set_nonblock = λ soc flags w. (minus_one, w);
  connect = λ soc six ip_str port w. (pos 0, w);
  bind_any = λ soc port w. (pos 0, w);
  listen = λ soc backlog w. (pos 0, w);
  accept = λ soc w. ((pos (length w), (49 ∷ [], 80)), pos (length w) ∷ w);
  send = λ soc bytes w. (pos (length bytes), w);
  recv = λ soc size w. ((pos (length (take size waiting)), take size waiting), w);
  pipe = λ w. ((minus_one, (pos 0, pos 0)), w);
  close = λ fd w. remove_first w;
  errno = λ w. would_block;
}

system-OsLaws : OsLaws system (λ w. w)
system-OsLaws = record {
  socket = λ family w. inr (length w, refl, refl);
  accept = λ soc w. inr (length w, refl, refl);
  reuse_addr = λ soc w. refl;
  get_flags = λ soc w. refl;
  set_nonblock = λ soc flags w. refl;
  close = λ fd w fds e. ap remove_first e;
}

pos_inj : (m n : ℕ) → pos m ≡ pos n → m ≡ n
pos_inj m n e = cc

system-TransferLaws : TransferLaws system
system-TransferLaws = record {
  send = λ soc bytes w n e. omega (arith, pos_inj (length bytes) n e);
  recv = λ soc size w n e. (
    pos_inj (length (take size waiting)) n e,
    omega (arith, pos_inj (length (take size waiting)) n e, length-take size waiting),
  );
}

aesoccreate-Opened_example :
    Opened system (λ w. w) system-OsLaws (pos 0 ∷ []) (aesoccreate system 2 true (pos 0 ∷ []))
aesoccreate-Opened_example = aesoccreate-Opened system (λ w. w) system-OsLaws 2 true (pos 0 ∷ [])

aesocaccept_opens_example :
    (((aesocaccept system (pos 0) (pos 0 ∷ [])).0.0 ≡ pos 0)
      × (n : ℕ) × (ip_str : List ℕ) × (port : ℕ) × ((aesocaccept system (pos 0) (pos 0 ∷ [])).0.1
          ≡ some (pos n, ip_str, port))
      × ((aesocaccept system (pos 0) (pos 0 ∷ [])).1 ≡ pos n ∷ (pos 0 ∷ [])))
    ⊎ ((((aesocaccept system (pos 0) (pos 0 ∷ [])).0.0 ≡ wouldblock)
          ⊎ ((aesocaccept system (pos 0) (pos 0 ∷ [])).0.0 ≡ minus_one))
        × ((aesocaccept system (pos 0) (pos 0 ∷ [])).0.1 ≡ none)
        × ((aesocaccept system (pos 0) (pos 0 ∷ [])).1 ≡ pos 0 ∷ []))
aesocaccept_opens_example = aesocaccept_opens system (λ w. w) system-OsLaws (pos 0) (pos 0 ∷ [])

aesocread_bounds_example :
    ((◌≢◌ {A = ℕ} 2 0)
      × (is_negative (system.recv (pos 0) 2 []).0.0 ≡ true)
      × (is_retry would_block ≡ false)
      × ((aesocread system (pos 0) 2 []).0 ≡ (minus_one, [])))
    ⊎ ((n : ℕ) × (bytes : List ℕ) × ((aesocread system (pos 0) 2 []).0 ≡ (pos n, bytes))
        × (length bytes ≡ n)
        × (n ≤ 2)
        × ((◌≡◌ {A = ℕ} 2 0)
            ⊎ ((system.recv (pos 0) 2 []).0 ≡ (pos n, bytes))
            ⊎ ((is_negative (system.recv (pos 0) 2 []).0.0 ≡ true)
                × (is_retry would_block ≡ true)
                × (n ≡ 0))))
aesocread_bounds_example = aesocread_bounds system system-TransferLaws (pos 0) 2 []
