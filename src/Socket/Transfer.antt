-- ===== src/Socket/Transfer.antt =====
-- How much aesocwrite and aesocread say they have moved, and what ev_pipe says.
use evnet.Base.{
  ℕ, ◌≤◌, ◌≡◌, ◌≢◌, refl, ap, ◌∙◌, Bool, true, false, Bool-cases, not, Option, none, some, List, [],
  length, if◌then◌else◌, ◌⊎◌, inl, inr, arith, ==_refl, ==_false, ℕ_discrete, ℤ, pos, negsuc,
  minus_one, is_negative, is_zero,
}
use evnet.Socket.{
  Os, is_would_block, is_retry, at_least_zero, aesocnoblock, socket_nonblocking, aesocwrite,
  aesocread, ev_pipe,
}

-- What the system promises: send takes no more than it is given; recv puts as many bytes into the buffer as it says,
-- and they fit.
pub record TransferLaws {ℓ} {W : Type ℓ} (os : Os W) : Type ℓ where
  pub send :
      (soc : ℤ) (bytes : List ℕ) (w : W) (n : ℕ)
      → (os.send soc bytes w).0 ≡ pos n
      → n ≤ length bytes
  pub recv :
      (soc : ℤ) (size : ℕ) (w : W) (n : ℕ)
      → (os.recv soc size w).0.0 ≡ pos n
      → (length (os.recv soc size w).0.1 ≡ n) × (n ≤ size)

sign_cases : (z : ℤ) → ((n : ℕ) × (z ≡ pos n)) ⊎ (is_negative z ≡ true)
sign_cases (pos n) = inl (n, refl)
sign_cases (negsuc n) = inr refl

module _ {ℓ} {W : Type ℓ} (os : Os W) (laws : TransferLaws os) where
  -- aesocwrite returns -1, and then the error was not that the socket would block; or it returns a number, which
  -- is at most that of the bytes that it was given.
  pub aesocwrite_bounds :
      (soc : ℤ) (bytes : List ℕ) (w : W)
      → (((aesocwrite os soc bytes w).0 ≡ minus_one)
          × (is_would_block (os.errno (os.send soc bytes w).1) ≡ false))
        ⊎ ((n : ℕ) × ((aesocwrite os soc bytes w).0 ≡ pos n) × (n ≤ length bytes))
  unfolding aesocwrite at_least_zero
  aesocwrite_bounds soc bytes w =
      let ret = (os.send soc bytes w).0 in
      let w1 = (os.send soc bytes w).1 in
      let failed : Bool → ℤ × W = λ b. if b then (pos 0, w1) else (minus_one, w1) in
      let sent : ℤ → Bool → ℤ × W =
        λ z b. if b then failed (is_would_block (os.errno w1)) else (at_least_zero z, w1) in
      let out : Bool → ℤ × W = λ b. if b then (pos 0, w) else sent ret (is_negative ret) in
      elim (ℕ_discrete (length bytes) 0) [
        | yes z ↦ inr (0, ap (λ b. (out b).0) (==_refl (length bytes) 0 z), omega arith)
        | no m ↦
            let start = ap (λ b. (out b).0) (==_false (length bytes) 0 m) in
            elim (sign_cases ret) [
              | inl (n, e) ↦
                  inr (n, start ∙ ap (λ z. (sent z (is_negative z)).0) e, laws.send soc bytes w n e)
              | inr neg ↦ elim (Bool-cases (is_would_block (os.errno w1))) [
                | inl wait ↦ inr (
                  0,
                  start ∙ ap (λ b. (sent ret b).0) neg ∙ ap (λ b. (failed b).0) wait,
                  omega arith,
                )
                | inr err ↦
                    inl (start ∙ ap (λ b. (sent ret b).0) neg ∙ ap (λ b. (failed b).0) err, err)
              ]
            ]
      ]

  -- aesocread returns -1 and no bytes, which it does only if it was to read something, recv failed, and the error is
  -- one that stays; or it returns the number of the bytes that it has put into the buffer, and they fit. In this case
  -- it was to read nothing; or recv did not fail, and the number and the bytes are those of recv; or recv failed
  -- with an error that passes, and the number is 0.
  pub aesocread_bounds :
      (soc : ℤ) (size : ℕ) (w : W)
      → ((size ≢ 0)
          × (is_negative (os.recv soc size w).0.0 ≡ true)
          × (is_retry (os.errno (os.recv soc size w).1) ≡ false)
          × ((aesocread os soc size w).0 ≡ (minus_one, [])))
        ⊎ ((n : ℕ) × (bytes : List ℕ) × ((aesocread os soc size w).0 ≡ (pos n, bytes))
            × (length bytes ≡ n)
            × (n ≤ size)
            × ((size ≡ 0)
                ⊎ ((os.recv soc size w).0 ≡ (pos n, bytes))
                ⊎ ((is_negative (os.recv soc size w).0.0 ≡ true)
                    × (is_retry (os.errno (os.recv soc size w).1) ≡ true)
                    × (n ≡ 0))))
  unfolding aesocread at_least_zero
  aesocread_bounds soc size w =
      let ret = (os.recv soc size w).0.0 in
      let bytes = (os.recv soc size w).0.1 in
      let w1 = (os.recv soc size w).1 in
      let failed : Bool → (ℤ × List ℕ) × W =
        λ b. if b then ((pos 0, []), w1) else ((minus_one, []), w1) in
      let got : ℤ → Bool → (ℤ × List ℕ) × W =
        λ z b. if b then failed (is_retry (os.errno w1)) else ((at_least_zero z, bytes), w1) in
      let out : Bool → (ℤ × List ℕ) × W =
        λ b. if b then ((pos 0, []), w) else got ret (is_negative ret) in
      elim (ℕ_discrete size 0) [
        | yes z ↦ inr (0, [], ap (λ b. (out b).0) (==_refl size 0 z), refl, omega arith, inl z)
        | no m ↦
            let start = ap (λ b. (out b).0) (==_false size 0 m) in
            elim (sign_cases ret) [
              | inl (n, e) ↦
                  let (same, fits) = laws.recv soc size w n e in
                  inr (
                    n,
                    bytes,
                    start ∙ ap (λ z. (got z (is_negative z)).0) e,
                    same,
                    fits,
                    inr (inl (ap (λ z. (z, bytes)) e)),
                  )
              | inr neg ↦ elim (Bool-cases (is_retry (os.errno w1))) [
                | inl wait ↦ inr (
                  0,
                  [],
                  start ∙ ap (λ b. (got ret b).0) neg ∙ ap (λ b. (failed b).0) wait,
                  refl,
                  omega arith,
                  inr (inr (neg, wait, refl)),
                )
                | inr err ↦
                    inl (
                      m,
                      neg,
                      err,
                      start ∙ ap (λ b. (got ret b).0) neg ∙ ap (λ b. (failed b).0) err,
                    )
              ]
            ]
      ]

module _ {ℓ} {W : Type ℓ} (os : Os W) where
  nonblocking_sign : (soc : ℤ) (w : W) → is_negative (socket_nonblocking os soc w).0 ≡ false
  unfolding socket_nonblocking
  nonblocking_sign soc w = elim (Bool-cases (aesocnoblock os soc w).0) [
    | inl e ↦ ap (λ b. is_negative (if b then pos 1 else pos 0)) e
    | inr e ↦ ap (λ b. is_negative (if b then pos 1 else pos 0)) e
  ]

  -- ev_pipe returns 0 and writes the two ends of the pipe whenever the system made one, whether or not the ends
  -- could be set not to block.
  pub ev_pipe_unchecked :
      (w : W)
      → is_zero (os.pipe w).0.0 ≡ true
      → ((ev_pipe os w).0.0 ≡ pos 0) × ((ev_pipe os w).0.1 ≡ some (os.pipe w).0.1)
  unfolding ev_pipe
  ev_pipe_unchecked w made =
      let out = (os.pipe w).0.1.0 in
      let into = (os.pipe w).0.1.1 in
      let w1 = (os.pipe w).1 in
      let first = socket_nonblocking os out w1 in
      let second = socket_nonblocking os into first.1 in
      let third : Bool → (ℤ × Option (ℤ × ℤ)) × W = λ b.
        if b
        then ((minus_one, none), os.close into (os.close out second.1))
        else ((pos 0, some (out, into)), second.1) in
      let next : Bool → (ℤ × Option (ℤ × ℤ)) × W = λ b.
        if b
        then ((minus_one, none), os.close into (os.close out first.1))
        else third (is_negative second.0) in
      let all : Bool → (ℤ × Option (ℤ × ℤ)) × W =
        λ b. if not b then ((minus_one, none), w1) else next (is_negative first.0) in
      (
        ap (λ b. (all b).0.0) made
            ∙ ap (λ b. (next b).0.0) (nonblocking_sign out w1)
            ∙ ap (λ b. (third b).0.0) (nonblocking_sign into first.1),
        ap (λ b. (all b).0.1) made
            ∙ ap (λ b. (next b).0.1) (nonblocking_sign out w1)
            ∙ ap (λ b. (third b).0.1) (nonblocking_sign into first.1),
      )
