-- ===== src/Msg/Stream/Progress.antt =====
-- Each round of the decoder that goes on uses up bytes, so the fuel is enough.
use evnet.Base.{
  ℕ, zero, suc, ◌+◌, ◌-◌, ◌*◌, ◌≤◌, ◌<◌, ◌≡◌, refl, ap, ◌∙◌, List, [], arith, Bool, true, false,
  length, take, drop, some, none, Option, ==_false, Bool-cases, inl, inr, length-drop,
}
use evnet.Msg.Frame.{CmdHead, head_size, read_head}
use evnet.Msg.Stream.{Decoded, decode_body, decode_round, decode, decode_all}

-- A head that waits is one round of its own.
abbrev pub held : Option CmdHead → ℕ
held none = 0
held (some h) = 1

pub held-le : (p : Option CmdHead) → held p ≤ 1
held-le none = omega arith
held-le (some h) = omega arith

module _ {ℓ} {U : Type ℓ} (handler : U → ℕ → ℕ → List ℕ → U × Bool) where
  body_progress :
      (h : CmdHead) (xs : List ℕ) (user : U)
      → (decode_body handler h xs user).1 ≡ true
      → ((decode_body handler h xs user).0.pending ≡ none)
        × (length (decode_body handler h xs user).0.rest ≤ length xs)
  unfolding decode_body
  body_progress h xs user on = ground (arith, length-drop (h.packet_size - head_size) xs)

  pub round_progress :
      (pending : Option CmdHead) (xs : List ℕ) (user : U)
      → (decode_round handler pending xs user).1 ≡ true
      → let d = (decode_round handler pending xs user).0 in
        (d.pending ≡ none) × (2 * length d.rest < 2 * length xs + held pending)
  unfolding decode_round
  round_progress (some h) xs user on =
      let p = body_progress h xs user on in (p.0, omega (arith, p.1))
  round_progress none xs user on = ground (
    arith,
    body_progress (read_head (take head_size xs)) (drop head_size xs) user,
    length-drop head_size xs,
  )

  -- With more fuel than rounds are needed, more fuel makes no difference.
  pub decode_fuel :
      (fuel more : ℕ) (pending : Option CmdHead) (xs : List ℕ) (user : U)
      → 2 * length xs + held pending < fuel
      → 2 * length xs + held pending < more
      → decode handler fuel pending xs user ≡ decode handler more pending xs user
  unfolding decode
  decode_fuel zero more pending xs user f m = absurd (omega arith)
  decode_fuel (suc fuel) zero pending xs user f m = absurd (omega arith)
  decode_fuel (suc fuel) (suc more) pending xs user f m =
      let d = (decode_round handler pending xs user).0 in
      elim (Bool-cases (decode_round handler pending xs user).1) [
        | inl on ↦
            let p = round_progress pending xs user on in
            let none_held : held d.pending ≡ 0 = ap held p.0 in
            rw (
              on,
              decode_fuel fuel more d.pending d.rest d.user (omega (arith, p.1))
                  (omega (arith, p.1)),
            )
        | inr off ↦ rw off
      ]

  -- A round that stops is all that is decoded.
  pub decode_stop :
      (pending : Option CmdHead) (xs : List ℕ) (user : U) (d : Decoded U)
      → 0 < length xs
      → decode_round handler pending xs user ≡ (d, false)
      → decode_all handler pending xs user ≡ some d
  unfolding decode_all decode
  decode_stop pending xs user d pos e =
      let rounds : 2 * length xs + 2 ≡ suc (2 * length xs + 1) = omega arith in
      ap (λ k. decode handler k pending xs user) rounds
      ∙ rw (==_false (length xs) 0 (λ z. omega arith), e)

  pub decode_nil :
      (pending : Option CmdHead) (user : U)
      → decode_all handler pending [] user
        ≡ some (record { pending = pending; rest = []; user = user; ok = true })
  unfolding decode_all decode
  decode_nil pending user = refl
