-- ===== src/Msg/Stream/Rounds.antt =====
-- A round of the decoder on a stream and on a longer one.
use evnet.Base.{
  ℕ, suc, ◌+◌, ◌-◌, ◌*◌, ◌≤◌, ◌<◌, ◌≡◌, refl, sym, ap, ◌∙◌, List, [], ◌∷◌, ◌++◌, arith, Bool, true,
  false, length, take, drop, some, none, Option, le→ltb, lt→ltb, ==_false, ==_refl, if◌then◌else◌,
  Bool-cases, ◌⊎◌, inl, inr, length-append, take-append_le, drop-append_le, dec_lt, ℕ_discrete,
}
use evnet.Msg.Frame.{CmdHead, head_size, socket_packet, socket_ver, read_head}
use evnet.Msg.Stream.{Decoded, decode_body, decode_round, decode, decode_all}
use evnet.Msg.Stream.Progress.{held, held-le, round_progress, decode_fuel, decode_nil}

-- A result with more bytes behind those that are left.
abbrev pub with_more {ℓ} : {U : Type ℓ} → Decoded U → List ℕ → Decoded U
with_more d ys = record d { rest = d.rest ++ ys }

module _ {ℓ} {U : Type ℓ} (handler : U → ℕ → ℕ → List ℕ → U × Bool) where
  -- A round that has what it needs does the same with more bytes behind it.
  abbrev pub Same : Decoded U × Bool → Decoded U × Bool → List ℕ → Type ℓ
  Same r r' ys = (r.0.ok ≡ r.1) × (r' ≡ (with_more r.0 ys, r.1))

  body_short :
      (h : CmdHead) (xs : List ℕ) (user : U)
      → h.packet_size ≤ socket_packet
      → length xs + head_size < h.packet_size
      → decode_body handler h xs user
        ≡ (record { pending = some h; rest = xs; user = user; ok = true }, false)
  unfolding decode_body
  body_short h xs user fits short = rw (le→ltb _ _ fits, lt→ltb _ _ short)

  body-Same :
      (h : CmdHead) (xs ys : List ℕ) (user : U)
      → (socket_packet < h.packet_size) ⊎ (h.packet_size ≤ length xs + head_size)
      → Same (decode_body handler h xs user) (decode_body handler h (xs ++ ys) user) ys
  unfolding decode_body
  body-Same h xs ys user (inl large) = rw (lt→ltb _ _ large) (refl, refl)
  body-Same h xs ys user (inr enough) =
      let longer : h.packet_size ≤ length (xs ++ ys) + head_size =
        omega (arith, length-append xs ys) in
      let k = h.packet_size - head_size in
      let t = take-append_le k xs ys (omega arith) in
      let d = drop-append_le k xs ys (omega arith) in
      elim (dec_lt socket_packet h.packet_size) [
        | yes large ↦ rw (lt→ltb _ _ large) (refl, refl)
        | no fits ↦ elim (dec_lt h.packet_size head_size) [
          | yes tiny ↦
              rw
                (
                  le→ltb socket_packet h.packet_size (omega arith),
                  le→ltb _ _ enough,
                  le→ltb _ _ longer,
                  lt→ltb _ _ tiny,
                  d,
                )
                (refl, refl)
          | no big ↦
              rw
                (
                  le→ltb socket_packet h.packet_size (omega arith),
                  le→ltb _ _ enough,
                  le→ltb _ _ longer,
                  le→ltb h.packet_size head_size (omega arith),
                  t,
                  d,
                )
                (refl, refl)
        ]
      ]

  -- One step of the decoder.
  pub decode_step :
      (pending : Option CmdHead) (xs : List ℕ) (user : U)
      → 0 < length xs
      → decode_all handler pending xs user ≡ (
          let (d, on) = decode_round handler pending xs user in
          let rest = decode_all handler d.pending d.rest d.user in if on then rest else some d)
  unfolding decode_all decode
  decode_step pending xs user pos =
      let rounds : 2 * length xs + 2 ≡ suc (2 * length xs + 1) = omega arith in
      let d = (decode_round handler pending xs user).0 in
      ap (λ k. decode handler k pending xs user) rounds
      ∙ (elim (Bool-cases (decode_round handler pending xs user).1) [
        | inl on ↦
            let p = round_progress handler pending xs user on in
            let none_held : held d.pending ≡ 0 = ap held p.0 in
            rw (==_false (length xs) 0 (λ z. omega arith), on)
              (decode_fuel handler (2 * length xs + 1) (2 * length d.rest + 2) d.pending d.rest
                d.user (omega (arith, p.1, none_held, held-le pending)) (omega (arith, none_held)))
        | inr off ↦ rw (==_false (length xs) 0 (λ z. omega arith), off)
      ])

  -- A round that lacks bytes.
  pub record Waits (pending : Option CmdHead) (xs : List ℕ) (user : U) : Type ℓ where
    pub left : Decoded U
    pub stops : decode_round handler pending xs user ≡ (left, false)
    pub fine : left.ok ≡ true
    pub resumes :
        (ys : List ℕ)
        → decode_all handler pending (xs ++ ys) user
          ≡ decode_all handler left.pending (left.rest ++ ys) left.user

  body_Waits :
      (h : CmdHead) (xs : List ℕ) (user : U)
      → h.packet_size ≤ socket_packet
      → length xs + head_size < h.packet_size
      → Waits (some h) xs user
  unfolding decode_round
  body_Waits h xs user fits short = record {
    left = record { pending = some h; rest = xs; user = user; ok = true };
    stops = body_short h xs user fits short;
    fine = refl;
    resumes = λ ys. refl;
  }

  head_short_Waits : (xs : List ℕ) (user : U) → length xs < head_size → Waits none xs user
  unfolding decode_round
  head_short_Waits xs user short = record {
    left = record { pending = none; rest = xs; user = user; ok = true };
    stops = rw (lt→ltb _ _ short);
    fine = refl;
    resumes = λ ys. refl;
  }

  -- Either way a round goes on in the same way with more bytes, or it waits.
  body_cases :
      (h : CmdHead) (xs ys : List ℕ) (user : U)
      → Same (decode_body handler h xs user) (decode_body handler h (xs ++ ys) user) ys
        ⊎ ((h.packet_size ≤ socket_packet) × (length xs + head_size < h.packet_size))
  body_cases h xs ys user = elim (dec_lt socket_packet h.packet_size) [
    | yes large ↦ inl (body-Same h xs ys user (inl large))
    | no fits ↦ elim (dec_lt (length xs + head_size) h.packet_size) [
      | yes short ↦ inr (omega arith, short)
      | no enough ↦ inl (body-Same h xs ys user (inr (omega arith)))
    ]
  ]

  -- What follows a round.
  abbrev pub after : Decoded U × Bool → Option (Decoded U)
  after r =
      let rest = decode_all handler r.0.pending r.0.rest r.0.user in if r.1 then rest else some r.0

  -- A head that waits for data is used in the same way if no byte is there.
  pending_step :
      (h : CmdHead) (zs : List ℕ) (user : U)
      → h.packet_size ≤ socket_packet
      → head_size < h.packet_size
      → decode_all handler (some h) zs user ≡ after (decode_body handler h zs user)
  unfolding decode_round
  pending_step h [] user fits big =
      decode_nil handler (some h) user ∙ sym (ap after (body_short h [] user fits big))
  pending_step h (z ∷ zs) user fits big = decode_step (some h) (z ∷ zs) user (omega arith)

  -- A stream with a good head in front is the stream behind it with that head pending.
  round_with_head :
      (xs : List ℕ) (user : U)
      → head_size ≤ length xs
      → (read_head (take head_size xs)).version ≡ socket_ver
      → decode_round handler none xs user
        ≡ decode_body handler (read_head (take head_size xs)) (drop head_size xs) user
  unfolding decode_round
  round_with_head xs user long good = rw (le→ltb _ _ long, ==_refl _ _ good)

  round_bad_head :
      (xs : List ℕ) (user : U)
      → head_size ≤ length xs
      → ((read_head (take head_size xs)).version ≡ socket_ver → ⊥)
      → decode_round handler none xs user
        ≡ (record { pending = none; rest = drop head_size xs; user = user; ok = false }, false)
  unfolding decode_round
  round_bad_head xs user long bad = rw (le→ltb _ _ long, ==_false _ _ bad)

  round_with_head_more :
      (xs ys : List ℕ) (user : U)
      → head_size ≤ length xs
      → (read_head (take head_size xs)).version ≡ socket_ver
      → decode_round handler none (xs ++ ys) user
        ≡ decode_body handler (read_head (take head_size xs)) (drop head_size xs ++ ys) user
  round_with_head_more xs ys user long good =
      let t = take-append_le head_size xs ys long in
      round_with_head (xs ++ ys) user (omega (arith, length-append xs ys))
        (ap (λ b. (read_head b).version) t ∙ good)
      ∙ ap (λ b. decode_body handler (read_head b) (drop head_size (xs ++ ys)) user) t
      ∙ ap (λ b. decode_body handler (read_head (take head_size xs)) b user)
          (drop-append_le head_size xs ys long)

  round_bad_head_more :
      (xs ys : List ℕ) (user : U)
      → head_size ≤ length xs
      → ((read_head (take head_size xs)).version ≡ socket_ver → ⊥)
      → Same (decode_round handler none xs user) (decode_round handler none (xs ++ ys) user) ys
  round_bad_head_more xs ys user long bad =
      let t = take-append_le head_size xs ys long in
      let bad' : (read_head (take head_size (xs ++ ys))).version ≡ socket_ver → ⊥ =
        λ e. bad (ap (λ b. (read_head b).version) (sym t) ∙ e) in
      rw
        (
          round_bad_head xs user long bad,
          round_bad_head (xs ++ ys) user (omega (arith, length-append xs ys)) bad',
          drop-append_le head_size xs ys long,
        )
        (refl, refl)

  -- A head whose data is not there yet gives the same in one stream and in two.
  head_Waits :
      (xs : List ℕ) (user : U)
      → head_size ≤ length xs
      → (read_head (take head_size xs)).version ≡ socket_ver
      → (read_head (take head_size xs)).packet_size ≤ socket_packet
      → length (drop head_size xs) + head_size < (read_head (take head_size xs)).packet_size
      → Waits none xs user
  head_Waits xs user long good fits short =
      let h = read_head (take head_size xs) in
      record {
        left = record { pending = some h; rest = drop head_size xs; user = user; ok = true };
        stops =
            round_with_head xs user long good ∙ body_short h (drop head_size xs) user fits short;
        fine = refl;
        resumes = λ ys.
            decode_step none (xs ++ ys) user (omega (arith, length-append xs ys))
            ∙ ap after (round_with_head_more xs ys user long good)
            ∙ sym (pending_step h (drop head_size xs ++ ys) user fits (omega arith));
      }

  head_append :
      (xs ys : List ℕ) (user : U)
      → head_size ≤ length xs
      → Same (decode_round handler none xs user) (decode_round handler none (xs ++ ys) user) ys
        ⊎ Waits none xs user
  head_append xs ys user long =
      elim (ℕ_discrete (read_head (take head_size xs)).version socket_ver) [
        | no bad ↦ inl (round_bad_head_more xs ys user long bad)
        | yes good ↦ elim (body_cases (read_head (take head_size xs)) (drop head_size xs) ys user) [
          | inl same ↦ inl (
              rw (round_with_head xs user long good, round_with_head_more xs ys user long good)
                same)
          | inr (fits, short) ↦ inr (head_Waits xs user long good fits short)
        ]
      ]

  pub round-append :
      (pending : Option CmdHead) (xs ys : List ℕ) (user : U)
      → Same
          (decode_round handler pending xs user)
          (decode_round handler pending (xs ++ ys) user)
          ys
        ⊎ Waits pending xs user
  round-append (some h) xs ys user = elim (body_cases h xs ys user) [
    | inl same ↦ inl (unfold decode_round in same)
    | inr (fits, short) ↦ inr (body_Waits h xs user fits short)
  ]
  round-append none xs ys user = elim (dec_lt (length xs) head_size) [
    | yes short ↦ inr (head_short_Waits xs user short)
    | no enough ↦ head_append xs ys user (omega arith)
  ]
