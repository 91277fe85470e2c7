-- ===== src/Harbor/Order.antt =====
-- Every message of a harbor is told of exactly once and in the order of sending, or still waits.
use evnet.Base.{
  ℤ, negsuc, ℕ, zero, suc, ◌<◌, ◌≡◌, refl, sym, ap, ◌∙◌, Bool, true, false, Option, none, some,
  ◌>>=◌, List, [], ◌∷◌, ◌++◌, if◌then◌else◌, length, ◌⊎◌, inl, inr, arith, Bool-cases,
  length-append,
}
use evnet.Harbor.{
  Message, MsgType, emsgtype_error, HarborMsg, Harbor, is_error, told, settle_first, settle, post,
  continue, harbor_continue, http_handler, harbor_send,
}

module _ {ℓ κ} {H : Type ℓ} {U : Type κ} (httpc_load : H → List ℕ → H × Bool) (httpc_clear : H → H)
    (callback : U → MsgType → HarborMsg → U × Bool) where
  -- A harbor is busy only while the message that it has posted waits at the front.
  abbrev pub IsValid : Harbor H U → Type 0
  IsValid h = (h.is_busy ≡ false) ⊎ (0 < length h.send_list)

  -- The callback's call for a request that did not start, with the error -5.
  pub fail_one : Message → U → U × Bool
  fail_one m u =
      callback u emsgtype_error (record { errorcode = negsuc 4; msg_id = m.msg_id; message = none })

  -- The callback is called so for each message in turn.
  pub fail_all : List Message → U → U
  unfolding fail_one
  fail_all [] u = u
  fail_all (m ∷ ms) u = fail_all ms (fail_one m u).0

  -- The callback answers each of these calls by true; or all but the last, and the last by false.
  pub GoesOn : List Message → U → Type 0
  GoesOn [] u = Unit {0}
  GoesOn (m ∷ ms) u = ((fail_one m u).1 ≡ true) × GoesOn ms (fail_one m u).0

  pub Stops : List Message → U → Type 0
  Stops [] u = ⊥
  Stops (m ∷ ms) u =
      (((fail_one m u).1 ≡ false) × (ms ≡ []))
      ⊎ (((fail_one m u).1 ≡ true) × Stops ms (fail_one m u).0)

  -- The client refuses each message in turn, and is cleared after each.
  pub AllRefused : List Message → H → Type 0
  AllRefused [] c = Unit {0}
  AllRefused (m ∷ ms) c =
      ((httpc_load c m.msg).1 ≡ false) × AllRefused ms (httpc_clear (httpc_load c m.msg).0)

  pub client_after : List Message → H → H
  client_after [] c = c
  client_after (m ∷ ms) c = client_after ms (httpc_clear (httpc_load c m.msg).0)

  -- The first message of `h'` was posted by the client `c`, which took it.
  pub Started : H → Harbor H U → Type ℓ
  Started c h' =
      (m : Message) × (ms : List Message) × (h'.send_list ≡ m ∷ ms)
      × (h'.is_busy ≡ true)
      × (httpc_load c m.msg ≡ (h'.httpc, true))

  -- What harbor_continue makes of `h`: the messages `failed` at its front, each of which the client refused, were
  -- told to the callback as not started, in order and of nothing else, and all others wait. Either `h` was busy, and
  -- nothing changed; or the callback always answered by true, and the next message was posted and taken, or none
  -- is left; or the callback answered by false to the last of those that were refused.
  pub record Continues (h h' : Harbor H U) : Type (ℓ ⊔ κ) where
    pub failed : List Message
    pub order : failed ++ h'.send_list ≡ h.send_list
    pub refused : AllRefused failed h.httpc
    pub user : h'.user ≡ fail_all failed h.user
    pub valid : IsValid h'
    pub rest :
        ((h.is_busy ≡ true) × (h' ≡ h))
        ⊎ ((h.is_busy ≡ false) × GoesOn failed h.user × Started (client_after failed h.httpc) h')
        ⊎ ((h.is_busy ≡ false)
            × (GoesOn failed h.user × (h'.send_list ≡ []) ⊎ Stops failed h.user)
            × (h'.is_busy ≡ false)
            × (h'.httpc ≡ client_after failed h.httpc))

  -- The harbor after a refused post of the first message, before the next.
  abbrev refused_first : Message → List Message → Harbor H U → Harbor H U
  refused_first m ms h = record {
    send_list = ms;
    httpc = httpc_clear (httpc_load h.httpc m.msg).0;
    is_busy = false;
    user = (fail_one m h.user).0;
  }

  Continues-refused :
      (m : Message) (ms : List Message) (h h' : Harbor H U)
      → h.send_list ≡ m ∷ ms
      → h.is_busy ≡ false
      → (httpc_load h.httpc m.msg).1 ≡ false
      → (fail_one m h.user).1 ≡ true
      → Continues (refused_first m ms h) h'
      → Continues h h'
  unfolding fail_all AllRefused GoesOn Stops client_after
  Continues-refused m ms h h' e idle refused on c = record {
    failed = m ∷ c.failed;
    order = ap (◌∷◌ m) c.order ∙ sym e;
    refused = (refused, c.refused);
    user = c.user;
    valid = c.valid;
    rest = elim c.rest [
      | inl (busy, _) ↦ absurd (cc)
      | inr (inl (_, on', start)) ↦ inr (inl (idle, (on, on'), start))
      | inr (inr (_, inl (on', empty), idle', same)) ↦
          inr (inr (idle, inl ((on, on'), empty), idle', same))
      | inr (inr (_, inr stops, idle', same)) ↦ inr (inr (idle, inr (inr (on, stops)), idle', same))
    ];
  }

  -- A post of the first of the messages, if what goes on afterwards does as it should.
  post-Continues :
      (again : Harbor H U → Option (Harbor H U)) (ms : List Message) (h : Harbor H U)
      → h.send_list ≡ ms
      → h.is_busy ≡ false
      → ((h1 : Harbor H U)
          → h1.is_busy ≡ false
          → length h1.send_list < length ms
          → (h' : Harbor H U) × (again h1 ≡ some h') × Continues h1 h')
      → (h' : Harbor H U) × (post httpc_load httpc_clear callback again ms h ≡ some h')
        × Continues h h'
  unfolding post settle settle_first told is_error fail_one fail_all AllRefused GoesOn Stops
      client_after Started
  post-Continues again [] h e idle next = (
    h,
    refl,
    record {
      failed = [];
      order = refl;
      refused = tt;
      user = refl;
      valid = inl idle;
      rest = inr (inr (idle, inl (tt, e), idle, refl));
    },
  )
  post-Continues again (m ∷ ms) h e idle next = elim (Bool-cases (httpc_load h.httpc m.msg).1) [
    | inl started ↦ (
      record h { httpc = (httpc_load h.httpc m.msg).0; is_busy = true },
      rw started refl,
      record {
        failed = [];
        order = refl;
        refused = tt;
        user = refl;
        valid = inr (omega (arith, ap length e));
        rest =
            inr (
              inl
                (idle, tt, (m, ms, e, refl, ap (λ b. ((httpc_load h.httpc m.msg).0, b)) started)));
      },
    )
    | inr refused ↦
        let h1 = refused_first m ms h in
        let posted : Harbor H U = record h {
          httpc = (httpc_load h.httpc m.msg).0;
          is_busy = true;
        } in
        let out = fail_one m h.user in
        let settled : settle httpc_load httpc_clear callback posted none (negsuc 4)
            ≡ some (h1, out.1) =
          ap (λ l. settle_first httpc_load httpc_clear callback l posted none (negsuc 4)) e in
        let run = ap (λ r. r >>= λ p. if p.1 then again p.0 else some p.0) settled in
        elim (Bool-cases out.1) [
          | inl on ↦
              let (h', on_run, c) = next h1 refl (omega arith) in
              (
                h',
                rw refused (run ∙ ap (λ b. if b then again h1 else some h1) on ∙ on_run),
                Continues-refused m ms h h' e idle refused on c,
              )
          | inr off ↦ (
            h1,
            rw refused (run ∙ ap (λ b. if b then again h1 else some h1) off),
            record {
              failed = m ∷ [];
              order = sym e;
              refused = (refused, tt);
              user = refl;
              valid = inl refl;
              rest = inr (inr (idle, inr (inl (off, refl)), refl, refl));
            },
          )
        ]
  ]

  continue-Continues :
      (fuel : ℕ) (h : Harbor H U)
      → IsValid h
      → length h.send_list < fuel
      → (h' : Harbor H U) × (continue httpc_load httpc_clear callback fuel h ≡ some h')
        × Continues h h'
  unfolding continue fail_all AllRefused
  continue-Continues zero h v enough = absurd (omega arith)
  continue-Continues (suc fuel) h v enough =
      let again = λ (h1 : Harbor H U). continue httpc_load httpc_clear callback fuel h1 in
      elim (Bool-cases h.is_busy) [
        | inl busy ↦ (
          h,
          ap (λ b. if b then some h else post httpc_load httpc_clear callback again h.send_list h)
              busy,
          record {
            failed = [];
            order = refl;
            refused = tt;
            user = refl;
            valid = v;
            rest = inl (busy, refl);
          },
        )
        | inr idle ↦
            let (h', run, c) =
              post-Continues again h.send_list h refl idle
                (λ h1 i less. continue-Continues fuel h1 (inl i) (omega (arith, less))) in
            (
              h',
              ap
                    (λ b.
                      if b
                      then some h
                      else post httpc_load httpc_clear callback again h.send_list h)
                    idle
                  ∙ run,
              c,
            )
      ]

  -- harbor_send on a valid harbor returns, however many requests the client refuses on the way, and leaves a
  -- valid harbor. The new message goes behind the others. If the harbor is busy, nothing else changes. If not, the
  -- messages at the front that httpc_load refused, with the client cleared after each, are told to the
  -- callback with error -5, each once and in order, and it is told of nothing else; all others wait, in order. Then
  -- the next message is under way, posted by a call of httpc_load that took it, or none is left, or the callback has
  -- answered by false to the last one that was refused.
  pub harbor_send-Continues :
      (h : Harbor H U) (msg_id : ℤ) (msg : List ℕ)
      → IsValid h
      → (h' : Harbor H U) × (harbor_send httpc_load httpc_clear callback h msg_id msg ≡ some h')
        × Continues
            (record h { send_list = h.send_list ++ (record { msg_id = msg_id; msg = msg } ∷ []) })
            h'
  unfolding harbor_send harbor_continue
  harbor_send-Continues h msg_id msg v =
      let more = h.send_list ++ (record { msg_id = msg_id; msg = msg } ∷ []) in
      continue-Continues (suc (length more)) (record h { send_list = more })
        (inr
          (omega (arith, length-append h.send_list (record { msg_id = msg_id; msg = msg } ∷ []))))
        (omega arith)

  -- The harbor once the message at its front is taken off and told to the callback, which leaves `u`.
  abbrev pub taken_off : Harbor H U → List Message → ℤ → U → Harbor H U
  taken_off h ms code u = record {
    send_list = ms;
    httpc = if is_error code then httpc_clear h.httpc else h.httpc;
    is_busy = false;
    user = u;
  }

  -- harobr_httpHandler on a harbor with a message at the front returns. The message is told to the callback, with
  -- its answer or with the error, and taken off the list; the client is cleared where there was an error. If the
  -- callback answers by true, the harbor goes on with the next messages as harbor_continue does: those that the client
  -- refuses are told as not started, and the first that it takes is under way. If it answers by false, nothing else
  -- happens.
  pub http_handler-Continues :
      (h : Harbor H U) (m : Message) (ms : List Message) (output : Option (List ℕ)) (code : ℤ)
      → h.send_list ≡ m ∷ ms
      → let out = callback h.user (told m output code).0 (told m output code).1 in
        (h' : Harbor H U) × (http_handler httpc_load httpc_clear callback h output code ≡ some h')
        × (((out.1 ≡ true) × Continues (taken_off h ms code out.0) h')
            ⊎ ((out.1 ≡ false) × (h' ≡ taken_off h ms code out.0)))
  unfolding http_handler settle settle_first harbor_continue
  http_handler-Continues h m ms output code e =
      let out = callback h.user (told m output code).0 (told m output code).1 in
      let h1 : Harbor H U = taken_off h ms code out.0 in
      let settled : settle httpc_load httpc_clear callback h output code ≡ some (h1, out.1) =
        ap (λ l. settle_first httpc_load httpc_clear callback l h output code) e in
      let rest = harbor_continue httpc_load httpc_clear callback h1 in
      let run =
        ap
          (λ r. r >>= λ p.
            if p.1 then harbor_continue httpc_load httpc_clear callback p.0 else some p.0)
          settled in
      elim (Bool-cases out.1) [
        | inl on ↦
            let (h', on_run, c) =
              continue-Continues (suc (length ms)) h1 (inl refl) (omega arith) in
            (h', run ∙ ap (λ b. if b then rest else some h1) on ∙ on_run, inl (on, c))
        | inr off ↦ (h1, run ∙ ap (λ b. if b then rest else some h1) off, inr (off, refl))
      ]
