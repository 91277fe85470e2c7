-- ===== src/Channel/Flush.antt =====
-- _write_callback: the bytes that wait go to the system.
use evnet.Base.{
  ℕ, ◌≡◌, ◌≢◌, refl, sym, ap, ◌∙◌, ◌-◌, ◌^◌, ◌%◌, ◌<◌, ◌≤◌, min, take, drop, take-append-drop,
  append_assoc, Option, some, none, ◌>>=◌, if◌then◌else◌, List, ◌∷◌, ◌++◌, arith, ==_refl, ==_false,
  ◌==◌, minus_one,
}
use evnet.DataQueue.{DataQueue, next_data, read_span, distill_data}
use evnet.DataQueue.Shape.{IsValid, contents}
use evnet.DataQueue.Read.{next_data-Offers, distill_after_next_data}
use evnet.Event.{Mask, CtlOp}
use evnet.Event.Watch.{EpollLaws}
use evnet.Channel.{Channel, ChannelMsg, Net, load, store, channel_close, wrote, flush}
use evnet.Channel.Valid.{IsNet, Touches, Touches-trans}
use evnet.Channel.Touch.{Leaves, assign-Leaves}
use evnet.Channel.Enable.{at_member}

-- The bytes that dataqueue_next_data hands out.
abbrev pub offered : DataQueue → List ℕ
offered q = take (next_data q).1.count (contents q)

-- A read of `n` bytes, for no more than were handed out.
offered_lem :
    (q : DataQueue) (n : ℕ)
    → IsValid q
    → 0 < q.data_size
    → n ≤ (next_data q).1.count
    → read_span (next_data q).0 (next_data q).1 n ≡ some (take n (contents q))
offered_lem q n v h le =
    let o = next_data-Offers n v h in
    let m : min (next_data q).1.count n ≡ n = omega arith in
    ap (read_span (next_data q).0 (next_data q).1) (sym m)
    ∙ o.first
    ∙ ap (λ k. some (take k (contents q))) m

-- The channel, and the state, once dataqueue_next_data has run.
abbrev pub rewound : Channel → Channel
rewound ch = record ch { out_queue = (next_data ch.out_queue).0 }

abbrev pub handed {ℓ κ} : {K : Type ℓ} {U : Type κ} → Net K U → ℕ → Channel → Net K U
handed s c ch = store s c (some (rewound ch))

module _ {ℓ κ} {K : Type ℓ} {U : Type κ} {epoll_ctl : K → CtlOp → ℕ → Mask → Option K}
    {interest : K → ℕ → Mask} (laws : EpollLaws epoll_ctl interest)
    (call : ℕ → ℕ → ChannelMsg → Net K U → Option (Net K U)) (take_bytes : List ℕ → ℕ) where
  -- What `n` sent bytes change: they go from the front of the queue to the end of what the system has.
  pub record Sent (s : Net K U) (ch : Channel) (n : ℕ) (s' : Net K U) (ch' : Channel)
      : Type (ℓ ⊔ κ) where
    pub wire : s'.written ch.fd ++ contents ch'.out_queue ≡ s.written ch.fd ++ contents ch.out_queue
    pub others : (fd : ℕ) → fd ≢ ch.fd → s'.written fd ≡ s.written fd
    pub valid : IsValid ch'.out_queue
    pub size : ch'.out_queue.data_size ≡ ch.out_queue.data_size - n
    pub handler : ch'.handler ≡ ch.handler
    pub usr : ch'.usr ≡ ch.usr
    pub user : s'.user ≡ s.user

  module _ (s : Net K U) (xs : List ℕ) (c : ℕ) (ys : List ℕ) (ch : Channel) (now : ℕ)
      (v : IsNet laws s (xs ++ (c ∷ ys))) (e : load s c ≡ some ch) (vq : IsValid ch.out_queue)
      (waiting : 0 < ch.out_queue.data_size) where
    pub handed-Leaves : Leaves laws s c (rewound ch) (handed s c ch)
    handed-Leaves =
        let (mirror, _) = at_member laws s xs c ys v in
        record {
          touches =
              assign-Leaves laws s c ch e v.loop mirror s (rewound ch)
                (record { heap = λ i. refl; head = refl }) refl refl refl refl refl;
          cell = ap (λ b. if b then some (rewound ch) else s.heap c) (==_refl c c refl);
          closed = refl;
          written = refl;
          user = refl;
        }

    flush_lem :
        take_bytes (offered ch.out_queue) ≤ (next_data ch.out_queue).1.count
        → flush epoll_ctl call take_bytes c now s
          ≡ wrote epoll_ctl call c
              (take_bytes (offered ch.out_queue))
              (take (take_bytes (offered ch.out_queue)) (contents ch.out_queue))
              now
              (handed s c ch)
    unfolding flush
    flush_lem le =
        let q = ch.out_queue in
        let next = next_data q in
        let wrote_from = λ (bytes sent : List ℕ).
          wrote epoll_ctl call c (take_bytes bytes) sent now (handed s c ch) in
        ap
          (λ o. o >>= λ ch.
            (read_span (next_data ch.out_queue).0 (next_data ch.out_queue).1
                (next_data ch.out_queue).1.count
              >>= λ bytes.
                  read_span (next_data ch.out_queue).0 (next_data ch.out_queue).1 (take_bytes bytes)
                  >>= λ sent.
                      wrote epoll_ctl call c (take_bytes bytes) sent now
                        (store s c (some (record ch { out_queue = (next_data ch.out_queue).0 })))))
          e
        ∙ ap
            (λ o. o >>= λ bytes.
              read_span next.0 next.1 (take_bytes bytes) >>= λ sent. wrote_from bytes sent)
            (offered_lem q next.1.count vq waiting (omega arith))
        ∙ ap (λ o. o >>= λ sent. wrote_from (offered q) sent)
            (offered_lem q (take_bytes (offered q)) vq waiting le)

    sent_lem :
        (n : ℕ)
        → 0 < n
        → n ≤ (next_data ch.out_queue).1.count
        → (s' : Net K U) × (ch' : Channel) × (wrote epoll_ctl call c n
              (take n (contents ch.out_queue))
              now
              (handed s c ch)
            ≡ some (some n, s'))
          × Touches laws s c s'
          × (load s' c ≡ some ch')
          × Sent s ch n s' ch'
          × (ch'.send_enabled ≡ ch.send_enabled)
    unfolding wrote
    sent_lem n some_bytes le =
        let h = handed s c ch in
        let r = rewound ch in
        let l = handed-Leaves in
        let sent = take n (contents ch.out_queue) in
        let d = distill_after_next_data n vq waiting le in
        let ch' : Channel = record r {
          last_interaction = now % 2 ^ 32;
          out_queue = distill_data (next_data ch.out_queue).0 n;
        } in
        let t : Net K U = record h {
          written = λ d. if d == ch.fd then s.written d ++ sent else s.written d;
        } in
        let s' = store t c (some ch') in
        let nonzero : n ≢ 0 = λ z. omega arith in
        (
          s',
          ch',
          ap
                (λ o. o >>= λ ch.
                  if n == 0
                  then (channel_close epoll_ctl call c minus_one h >>= λ s'. some (none, s'))
                  else some (
                    some n,
                    store
                        (record h {
                          written = λ d. if d == ch.fd then h.written d ++ sent else h.written d;
                        })
                        c
                        (some (record ch {
                          last_interaction = now % 2 ^ 32;
                          out_queue = distill_data ch.out_queue n;
                        })),
                  ))
                l.cell
              ∙ ap
                  (λ b.
                    if b
                    then (channel_close epoll_ctl call c minus_one h >>= λ s'. some (none, s'))
                    else some (some n, s'))
                  (==_false n 0 nonzero),
          Touches-trans laws s h s' c l.touches (
              assign-Leaves laws h c r l.cell l.touches.loop l.touches.mirror t ch'
                (record { heap = λ i. refl; head = refl }) refl refl refl refl refl),
          ap (λ b. if b then some ch' else h.heap c) (==_refl c c refl),
          record {
            wire =
                ap
                  (λ b.
                    (if b then s.written ch.fd ++ sent else s.written ch.fd)
                    ++ contents ch'.out_queue)
                  (==_refl ch.fd ch.fd refl)
                ∙ ap (λ r. (s.written ch.fd ++ sent) ++ r) d.bytes
                ∙ append_assoc (s.written ch.fd) sent (drop n (contents ch.out_queue))
                ∙ ap (λ r. s.written ch.fd ++ r) (take-append-drop n (contents ch.out_queue));
            others = λ fd other.
                ap (λ b. if b then s.written fd ++ sent else s.written fd)
                  (==_false fd ch.fd other);
            valid = d.valid;
            size = d.size;
            handler = refl;
            usr = refl;
            user = refl;
          },
          refl,
        )

    none_taken :
        (sent : List ℕ)
        → wrote epoll_ctl call c 0 sent now (handed s c ch)
          ≡ (channel_close epoll_ctl call c minus_one (handed s c ch) >>= λ s'. some (none, s'))
    unfolding wrote
    none_taken sent =
        let h = handed s c ch in
        let r = rewound ch in
        let shut = channel_close epoll_ctl call c minus_one h >>= λ s'. some (none, s') in
        let more = λ (ch : Channel). some (
          some 0,
          store
              (record h { written = λ d. if d == ch.fd then h.written d ++ sent else h.written d })
              c
              (some (record ch {
                last_interaction = now % 2 ^ 32;
                out_queue = distill_data ch.out_queue 0;
              })),
        ) in
        ap (λ o. o >>= λ ch. if 0 == 0 then shut else more ch) handed-Leaves.cell
        ∙ ap (λ b. if b then shut else more r) (==_refl 0 0 refl)

    -- The system takes none of the bytes that it is offered.
    pub flush_failed :
        take_bytes (offered ch.out_queue) ≡ 0
        → flush epoll_ctl call take_bytes c now s
          ≡ (channel_close epoll_ctl call c minus_one (handed s c ch) >>= λ s'. some (none, s'))
    flush_failed z =
        flush_lem (omega arith)
        ∙ ap
            (λ k.
              wrote epoll_ctl call c k
                (take (take_bytes (offered ch.out_queue)) (contents ch.out_queue)) now
                (handed s c ch))
            z
        ∙ none_taken (take (take_bytes (offered ch.out_queue)) (contents ch.out_queue))

    -- The system takes some.
    pub flush-Sent :
        0 < take_bytes (offered ch.out_queue)
        → take_bytes (offered ch.out_queue) ≤ (next_data ch.out_queue).1.count
        → (s' : Net K U) × (ch' : Channel) × (flush epoll_ctl call take_bytes c now s
            ≡ some (some (take_bytes (offered ch.out_queue)), s'))
          × Touches laws s c s'
          × (load s' c ≡ some ch')
          × Sent s ch (take_bytes (offered ch.out_queue)) s' ch'
          × (ch'.send_enabled ≡ ch.send_enabled)
    flush-Sent positive le =
        let (s', ch', run, touches, cell, sent, watched) =
          sent_lem (take_bytes (offered ch.out_queue)) positive le in
        (s', ch', flush_lem le ∙ run, touches, cell, sent, watched)
