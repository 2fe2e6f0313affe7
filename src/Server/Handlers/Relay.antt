-- ===== src/Server/Handlers/Relay.antt =====
-- server/src/message_handlers.c: messages from one user to another.
pub mod Outcome
use c_chat.Prelude.{
  ℕ, ◌+◌, Bool, true, false, not, ◌||◌, Option, none, some, List, [], ◌∷◌, ◌++◌, ℤ, pos, negsuc,
  int_eq, length, get_or, slice, if◌then◌else◌, ltb, ◌==◌,
}
use c_chat.Server.Types.{message_ack, incoming_message, invalid_format, user_not_found}
use c_chat.Server.Io.{Env, State, malloc, time_now}
use c_chat.Server.Words.{be32, join16}
use c_chat.Server.Protocol.{send_network_message}
use c_chat.Server.State.{Server, client_at, lift}
use c_chat.Server.Queue.{incoming_payload}
use c_chat.Server.Users.{find_user, find_client_by_username}
use c_chat.Server.Delivery.{take_message_id, queue_message, deliver_queued_messages}
use c_chat.Server.Handlers.{respond, refuse}
use c_chat.Server.Handlers.Account.{bad_name, read_name}

-- `message_len`, the two bytes behind the recipient's name.
unfoldable pub body_len : List ℕ → ℕ
body_len payload =
    join16 (get_or payload (1 + get_or payload 0 0) 0)
      (get_or payload (1 + get_or payload 0 0 + 1) 0)

-- `encrypted_message`, which is read no further than `message_len` bytes.
unfoldable pub read_body : List ℕ → List ℕ
read_body payload = slice payload (1 + get_or payload 0 0 + 2) (body_len payload)

module _ (env : Env) (i : ℕ) where
  -- The acknowledgement: the message's number and 0 failed, 1 delivered or 2 queued.
  unfoldable pub acknowledge : ℕ → ℕ → State Server ℤ
  acknowledge message_id status = respond env i message_ack (be32 message_id ++ status ∷ [])

  -- What follows the send to the recipient, by its result.
  unfoldable pub relay_sent : ℕ → List ℕ → List ℕ → ℤ → State Server ℤ
  unfolding acknowledge
  relay_sent message_id recipient body sent s =
      if int_eq sent (pos 0)
      then acknowledge message_id 1 s
      else acknowledge message_id 2
          (queue_message env recipient (client_at i s).username body (length body) s).1

  -- What follows the `malloc` of the payload for slot `j`.
  unfoldable pub relay_allocated : ℕ → ℕ → List ℕ → List ℕ → List ℕ → Bool → State Server ℤ
  unfolding acknowledge relay_sent
  relay_allocated j message_id recipient body payload true s =
      let (sent, s₁) =
        lift (send_network_message env (client_at j s).socket_fd incoming_message payload) s in
      relay_sent message_id recipient body sent s₁
  relay_allocated j message_id recipient body payload false s =
      (negsuc 0, (acknowledge message_id 0 s).1)

  -- The recipient is connected, at slot `j`.
  unfoldable pub relay_online : ℕ → ℕ → List ℕ → List ℕ → State Server ℤ
  unfolding relay_allocated
  relay_online j message_id recipient body s =
      let (timestamp, s₁) = lift (time_now env) s in
      let payload =
        incoming_payload message_id (client_at i s).username timestamp (length body) body in
      let (allocated, s₂) = lift (malloc env (length payload)) s₁ in
      relay_allocated j message_id recipient body payload allocated s₂

  unfoldable pub relay : Option ℕ → ℕ → List ℕ → List ℕ → State Server ℤ
  unfolding relay_online
  relay (some j) message_id recipient body s = relay_online j message_id recipient body s
  relay none message_id recipient body s =
      acknowledge message_id 2
        (queue_message env recipient (client_at i s).username body (length body) s).1

  unfoldable pub send_to_user : Option ℕ → List ℕ → List ℕ → State Server ℤ
  unfolding relay take_message_id
  send_to_user none recipient body s = refuse env i user_not_found "Recipient not found" s
  send_to_user (some u) recipient body s =
      let (message_id, s₁) = take_message_id s in
      relay (find_client_by_username recipient s₁) message_id recipient body s₁

  unfoldable pub handle_send_message : List ℕ → State Server ℤ
  unfolding send_to_user
  handle_send_message payload s =
      if ltb (length payload) 3
      then refuse env i invalid_format "Invalid message data" s
      else if bad_name payload 2
      then refuse env i invalid_format "Invalid recipient length" s
      else if body_len payload == 0
          || ltb (length payload) (1 + get_or payload 0 0 + 2 + body_len payload)
      then refuse env i invalid_format "Invalid message length" s
      else send_to_user (find_user (read_name payload) s.users) (read_name payload)
          (read_body payload) s

  unfoldable pub handle_get_messages : State Server ℤ
  handle_get_messages = deliver_queued_messages env i
