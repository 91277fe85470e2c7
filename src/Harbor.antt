-- ===== src/Harbor.antt =====
-- harbor.c and harbor.h: messages wait in a list and are posted one at a time by the HTTP client. The client
-- (httpc.c) and the user's callback are parameters; the callback does not call harbor_send, and httpc_load
-- does not call the handler before it returns. `none`: an access to a message that is not there, or no fuel.
pub mod Order
mod Tests
use evnet.Base.{
  ℤ, pos, negsuc, ℕ, zero, suc, Bool, true, false, ◌||◌, Option, none, some, ◌>>=◌, List, [], ◌∷◌,
  ◌++◌, if◌then◌else◌, length,
}

-- errorcode != 0
pub is_error : ℤ → Bool
is_error (pos zero) = false
is_error (pos (suc n)) = true
is_error (negsuc n) = true

-- harbor_message_t
pub record Message : Type 0 where
  pub msg_id : ℤ
  pub msg : List ℕ

-- The type of a message for the callback.
pub data MsgType : Type 0 where
  emsgtype_error emsgtype_remote : MsgType

-- harborMsg_t
pub record HarborMsg : Type 0 where
  pub errorcode : ℤ
  pub msg_id : ℤ
  pub message : Option (List ℕ)

-- harbor_t with the state `H` of its HTTP client, and the state `U` of its user.
pub record Harbor {ℓ κ} (H : Type ℓ) (U : Type κ) : Type (ℓ ⊔ κ) where
  pub send_list : List Message
  pub httpc : H
  pub is_busy : Bool
  pub user : U

-- What the callback is told of a message: its answer, or the error.
pub told : Message → Option (List ℕ) → ℤ → MsgType × HarborMsg
unfolding is_error
told m output code =
    if is_error code
    then (emsgtype_error, record { errorcode = code; msg_id = m.msg_id; message = none })
    else (emsgtype_remote, record { errorcode = pos 0; msg_id = m.msg_id; message = output })

module _ {ℓ κ} {H : Type ℓ} {U : Type κ} (httpc_load : H → List ℕ → H × Bool) (httpc_clear : H → H)
    (callback : U → MsgType → HarborMsg → U × Bool) where
  -- harobr_httpHandler up to its call of harbor_continue, on the messages of the list. The flag is what the
  -- callback returned.
  pub settle_first : List Message → Harbor H U → Option (List ℕ) → ℤ → Option (Harbor H U × Bool)
  unfolding told is_error
  settle_first [] h output code = none
  settle_first (m ∷ ms) h output code =
      let (type, msg) = told m output code in
      let (user', go) = callback h.user type msg in
      some (
        record {
          send_list = ms;
          httpc = if is_error code then httpc_clear h.httpc else h.httpc;
          is_busy = false;
          user = user';
        },
        go,
      )

  pub settle : Harbor H U → Option (List ℕ) → ℤ → Option (Harbor H U × Bool)
  unfolding settle_first
  settle h output code = settle_first h.send_list h output code

  -- The first message is posted; if httpc_load refuses it, the handler is called with -5, and goes on
  -- by `again`.
  pub post : (Harbor H U → Option (Harbor H U)) → List Message → Harbor H U → Option (Harbor H U)
  unfolding settle
  post again [] h = some h
  post again (m ∷ ms) h =
      let (httpc', ok) = httpc_load h.httpc m.msg in
      let posted = record h { httpc = httpc'; is_busy = true } in
      let failed = (do
        (h', go) ← settle posted none (negsuc 4)
        if go then again h' else some h') in
      if ok then some posted else failed

  -- harbor_continue, with fuel for its recursion through harobr_httpHandler.
  pub continue : ℕ → Harbor H U → Option (Harbor H U)
  unfolding post
  continue zero h = none
  continue (suc fuel) h = if h.is_busy then some h else post (λ h'. continue fuel h') h.send_list h

  pub harbor_continue : Harbor H U → Option (Harbor H U)
  unfolding continue
  harbor_continue h = continue (suc (length h.send_list)) h

  -- harobr_httpHandler
  pub http_handler : Harbor H U → Option (List ℕ) → ℤ → Option (Harbor H U)
  unfolding settle harbor_continue
  http_handler h output code = do
    (h', go) ← settle h output code
    let rest = harbor_continue h'
    if go then rest else some h'

  pub harbor_send : Harbor H U → ℤ → List ℕ → Option (Harbor H U)
  unfolding harbor_continue
  harbor_send h msg_id msg =
      harbor_continue
        (record h { send_list = h.send_list ++ (record { msg_id = msg_id; msg = msg } ∷ []) })
