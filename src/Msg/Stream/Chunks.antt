-- ===== src/Msg/Stream/Chunks.antt =====
-- Where the network cuts the stream makes no difference to the decoder.
use evnet.Base.{
  ℕ, zero, suc, ◌+◌, ◌*◌, ◌<◌, ◌≡◌, sym, ap, ◌∙◌, List, [], ◌∷◌, ◌++◌, arith, Bool, length, some,
  Option, if◌then◌else◌, ◌>>=◌, Bool-cases, inl, inr,
}
use evnet.Msg.Frame.{CmdHead}
use evnet.Msg.Stream.{Decoded, decode_round, decode_all}
use evnet.Msg.Stream.Progress.{held, held-le, round_progress, decode_nil}
use evnet.Msg.Stream.Rounds.{with_more, decode_step, after, round-append}

module _ {ℓ} {U : Type ℓ} (handler : U → ℕ → ℕ → List ℕ → U × Bool) where
  -- The rest of a stream behind what its first piece has left.
  abbrev pub continue_with : List ℕ → Decoded U → Option (Decoded U)
  continue_with ys d =
      let rest = decode_all handler d.pending (d.rest ++ ys) d.user in
      if d.ok then rest else some (with_more d ys)

  decode_append_fuel :
      (fuel : ℕ) (pending : Option CmdHead) (xs ys : List ℕ) (user : U)
      → 2 * length xs + held pending < fuel
      → decode_all handler pending (xs ++ ys) user
        ≡ (decode_all handler pending xs user >>= continue_with ys)
  decode_append_fuel zero pending xs ys user h = absurd (omega arith)
  decode_append_fuel (suc fuel) pending [] ys user h =
      sym (ap (λ m. m >>= continue_with ys) (decode_nil handler pending user))
  decode_append_fuel (suc fuel) pending (x ∷ xs) ys user h =
      let here = decode_step handler pending (x ∷ xs) user (omega arith) in
      let there = decode_step handler pending ((x ∷ xs) ++ ys) user (omega arith) in
      let d = (decode_round handler pending (x ∷ xs) user).0 in
      let rest = decode_all handler d.pending d.rest d.user in
      let joined = decode_all handler d.pending (d.rest ++ ys) d.user in
      elim (round-append handler pending (x ∷ xs) ys user) [
        | inl (ok_on, same) ↦ elim (Bool-cases (decode_round handler pending (x ∷ xs) user).1) [
          | inl on ↦
              let p = round_progress handler pending (x ∷ xs) user on in
              there
              ∙ ap (after handler) same
              ∙ ap (λ g. if g then joined else some (with_more d ys)) on
              ∙ decode_append_fuel fuel d.pending d.rest ys d.user
                  (omega (arith, p.1, ap held p.0, held-le pending))
              ∙ sym (
                  ap (λ m. m >>= continue_with ys) (here ∙ ap (λ g. if g then rest else some d) on))
          | inr off ↦
              there
              ∙ ap (after handler) same
              ∙ ap (λ g. if g then joined else some (with_more d ys)) off
              ∙ sym (
                  ap (λ m. m >>= continue_with ys) (here ∙ ap (λ g. if g then rest else some d) off)
                  ∙ ap (λ g. if g then joined else some (with_more d ys)) (ok_on ∙ off))
        ]
        | inr w ↦
            w.resumes ys
            ∙ sym (
                ap (λ m. m >>= continue_with ys) (here ∙ ap (after handler) w.stops)
                ∙ ap
                    (λ ok.
                      if ok
                      then decode_all handler w.left.pending (w.left.rest ++ ys) w.left.user
                      else some (with_more w.left ys))
                    w.fine)
      ]

  -- Decoding a stream in two pieces, the second behind what the first has left, is decoding it whole;
  -- after an error in the first piece nothing of the second is used.
  pub decode-append :
      (pending : Option CmdHead) (xs ys : List ℕ) (user : U)
      → decode_all handler pending (xs ++ ys) user
        ≡ (decode_all handler pending xs user >>= continue_with ys)
  decode-append pending xs ys user =
      decode_append_fuel (2 * length xs + 2) pending xs ys user (omega (arith, held-le pending))
