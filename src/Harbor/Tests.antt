-- ===== src/Harbor/Tests.antt =====
-- The theorems on harbors, with a client that refuses messages without bytes.
use evnet.Base.{
  ℤ, pos, ℕ, suc, ◌≡◌, refl, Bool, true, false, some, List, [], ◌∷◌, ◌++◌, ◌⊎◌, inr, arith,
}
use evnet.Harbor.{MsgType, HarborMsg, Harbor, told, harbor_send, http_handler}
use evnet.Harbor.Order.{Continues, taken_off, harbor_send-Continues, http_handler-Continues}

abbrev load : ℕ → List ℕ → ℕ × Bool
load k [] = (suc k, false)
load k (x ∷ xs) = (suc k, true)

abbrev clear : ℕ → ℕ
clear k = 0

-- The user keeps the ids that it was told of, and never stops.
abbrev keep : List ℤ → MsgType → HarborMsg → List ℤ × Bool
keep u type m = (u ++ (m.msg_id ∷ []), true)

abbrev idle : Harbor ℕ (List ℤ)
idle = record { send_list = []; httpc = 0; is_busy = false; user = [] }

-- Message 1 is under way, and two more wait; the client will refuse message 2.
abbrev waiting : Harbor ℕ (List ℤ)
waiting = record {
  send_list =
      record { msg_id = pos 1; msg = 7 ∷ [] }
      ∷ record { msg_id = pos 2; msg = [] }
      ∷ record { msg_id = pos 3; msg = 8 ∷ [] }
      ∷ [];
  httpc = 1;
  is_busy = true;
  user = [];
}

harbor_send-Continues_example :
    (h' : Harbor ℕ (List ℤ)) × (harbor_send load clear keep waiting (pos 4) (9 ∷ []) ≡ some h')
    × Continues load clear keep
        (record waiting {
          send_list = waiting.send_list ++ (record { msg_id = pos 4; msg = 9 ∷ [] } ∷ []);
        })
        h'
harbor_send-Continues_example =
    harbor_send-Continues load clear keep waiting (pos 4) (9 ∷ []) (inr (omega arith))

http_handler-Continues_example :
    (h' : Harbor ℕ (List ℤ)) × (http_handler load clear keep waiting (some (5 ∷ [])) (pos 0)
      ≡ some h')
    × (((true ≡ true)
          × Continues load clear keep
              (taken_off load clear keep waiting
                (record { msg_id = pos 2; msg = [] } ∷ record { msg_id = pos 3; msg = 8 ∷ [] } ∷ [])
                (pos 0)
                (pos 1 ∷ []))
              h')
        ⊎ ((true ≡ false)
            × (h'
                ≡ taken_off load clear keep waiting
                    (record { msg_id = pos 2; msg = [] }
                      ∷ record { msg_id = pos 3; msg = 8 ∷ [] }
                      ∷ [])
                    (pos 0)
                    (pos 1 ∷ []))))
unfolding told
http_handler-Continues_example =
    http_handler-Continues load clear keep waiting (record { msg_id = pos 1; msg = 7 ∷ [] })
      (record { msg_id = pos 2; msg = [] } ∷ record { msg_id = pos 3; msg = 8 ∷ [] } ∷ [])
      (some (5 ∷ [])) (pos 0) refl

-- The answer to message 1 comes: message 2 is refused, and message 3 is under way.
told_and_posted :
    http_handler load clear keep waiting (some (5 ∷ [])) (pos 0)
    ≡ some (record {
      send_list = record { msg_id = pos 3; msg = 8 ∷ [] } ∷ [];
      httpc = 1;
      is_busy = true;
      user = pos 1 ∷ pos 2 ∷ [];
    })
unfolding http_handler
told_and_posted = refl
