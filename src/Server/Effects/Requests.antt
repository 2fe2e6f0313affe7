-- ===== src/Server/Effects/Requests.antt =====
-- server/src/message_handlers.c: the handlers of the requests, as sequences of effects.
use c_chat.Prelude.{
  ℕ, suc, ◌+◌, ◌≤◌, ◌≡◌, refl, Bool, true, false, not, ◌||◌, Option, none, some, List, [], ◌∷◌,
  ◌++◌, ℤ, pos, length, arith, take, ltb, is_neg, length-drop, ◌==◌, get_or, int_eq,
}
use c_chat.Server.Types.{
  UserStatus, incoming_message, message_ack, register_response, login_response, public_key_response,
  user_list_response, invalid_format, invalid_username, server_error, user_not_found,
  challenge_size,
}
use c_chat.Server.Io.{Env, malloc, time_now}
use c_chat.Server.Words.{be32}
use c_chat.Server.Protocol.{send_network_message, validate_username_server}
use c_chat.Server.State.{Server, client_at}
use c_chat.Server.Users.{find_user, add_user, authenticate_user}
use c_chat.Server.Delivery.{take_message_id, deliver_queued_messages}
use c_chat.Server.Handlers.{respond}
use c_chat.Server.Handlers.Account.{
  bad_name, read_name, behind_name, register_reply, handle_register_user, login_reply,
  handle_login_user, public_key_reply, handle_get_public_key, handle_logout,
}
use c_chat.Server.Handlers.Relay.{
  body_len, read_body, acknowledge, relay_sent, relay_allocated, relay_online, relay, send_to_user,
  handle_send_message,
}
use c_chat.Server.Handlers.Presence.{
  change_status, set_status_to, read_status, handle_set_status, user_list, handle_list_users,
}
use c_chat.Server.Effects.{
  world, number, mark, show, hang_up, Effects, none_yet, and_then, Effects-trans, one-Effect,
}
use c_chat.Server.Effects.Inbox.{inbox-send_network_message}
use c_chat.Server.Effects.Calls.{
  choose, respond-Effects, refuse-Effects, broadcast-Effects, add_user-Effects,
  authenticate_user-Effects,
}
use c_chat.Server.Effects.Stores.{queue_message-Effects, deliver_queued_messages-Effects}

module _ (env : Env) (i : ℕ) where
  -- A payload that passes the test has the bytes that stand behind its name.
  behind_name-size :
      (payload : List ℕ) (more : ℕ)
      → bad_name payload more ≡ false
      → more ≤ length (behind_name payload)
  unfolding bad_name behind_name
  behind_name-size payload more e = ground (arith, length-drop (1 + get_or payload 0 0) payload)

  pub handle_register_user-Effects :
      (payload : List ℕ) (s : Server) → Effects env s (handle_register_user env i payload s).1
  unfolding handle_register_user
  handle_register_user-Effects payload s =
      choose env (ltb (length payload) (1 + env.public_key_size)) _ _
        (λ _. refuse-Effects env i invalid_format "Invalid registration data" s)
        λ _.
          choose env (bad_name payload env.public_key_size) _ _
            (λ _. refuse-Effects env i invalid_format "Invalid username length" s)
            λ e.
              choose env (is_neg (validate_username_server (read_name payload))) _ _
                (λ _. refuse-Effects env i invalid_username "Invalid username format" s)
                λ _.
                  let (result, s₁) = add_user env (read_name payload) (behind_name payload) s in
                  Effects-trans
                    (add_user-Effects env (read_name payload) (behind_name payload) s
                      (behind_name-size payload env.public_key_size e))
                    (respond-Effects env i register_response (register_reply result) s₁)

  login_reply-Effects : (result : ℤ) (s : Server) → Effects env s (login_reply env i result s).1
  unfolding login_reply
  login_reply-Effects result s =
      choose env (is_neg result) (respond env i login_response (0 ∷ []) s) _
        (λ _. respond-Effects env i login_response (0 ∷ []) s)
        λ _. Effects-trans (deliver_queued_messages-Effects env i s) (
          respond-Effects env i login_response (1 ∷ take challenge_size (client_at i s).challenge)
            (deliver_queued_messages env i s).1)

  pub handle_login_user-Effects :
      (payload : List ℕ) (s : Server) → Effects env s (handle_login_user env i payload s).1
  unfolding handle_login_user
  handle_login_user-Effects payload s =
      choose env (ltb (length payload) (1 + env.signature_size)) _ _
        (λ _. refuse-Effects env i invalid_format "Invalid login data" s)
        λ _.
          choose env (bad_name payload env.signature_size) _ _
            (λ _. refuse-Effects env i invalid_format "Invalid username length" s)
            λ _.
              let (result, s₁) =
                authenticate_user env i (read_name payload) (behind_name payload) s in
              Effects-trans
                (authenticate_user-Effects env i (read_name payload) (behind_name payload) s)
                (login_reply-Effects result s₁)

  pub handle_get_public_key-Effects :
      (payload : List ℕ) (s : Server) → Effects env s (handle_get_public_key env i payload s).1
  unfolding handle_get_public_key
  handle_get_public_key-Effects payload s =
      choose env (ltb (length payload) 1) _ _
        (λ _. refuse-Effects env i invalid_format "Invalid public key request" s)
        λ _.
          choose env (bad_name payload 0) _ _
            (λ _. refuse-Effects env i invalid_format "Invalid username length" s)
            λ _.
              respond-Effects env i public_key_response
                (public_key_reply env i (find_user (read_name payload) s.users) s) s

  acknowledge-Effects :
      (id status : ℕ) (s : Server) → Effects env s (acknowledge env i id status s).1
  unfolding acknowledge
  acknowledge-Effects id status s = respond-Effects env i message_ack (be32 id ++ status ∷ []) s

  relay_sent-Effects :
      (id : ℕ) (recipient body : List ℕ) (sent : ℤ) (s : Server)
      → Effects env s (relay_sent env i id recipient body sent s).1
  unfolding relay_sent
  relay_sent-Effects id recipient body sent s =
      choose env (int_eq sent (pos 0)) (acknowledge env i id 1 s) _
        (λ _. acknowledge-Effects id 1 s)
        λ _.
          Effects-trans (queue_message-Effects env recipient (client_at i s).username body s)
            (acknowledge-Effects id 2 _)

  relay_allocated-Effects :
      (j id : ℕ) (recipient body payload : List ℕ) (allocated : Bool) (s : Server)
      → Effects env s (relay_allocated env i j id recipient body payload allocated s).1
  unfolding relay_allocated
  relay_allocated-Effects j id recipient body payload true s =
      let (sent, io') =
        send_network_message env (client_at j s).socket_fd incoming_message payload s.io in
      Effects-trans
        (one-Effect (
          world s io' (
            inbox-send_network_message env (client_at j s).socket_fd incoming_message payload
              s.io)))
        (relay_sent-Effects id recipient body sent (record s { io = io' }))
  relay_allocated-Effects j id recipient body payload false s = acknowledge-Effects id 0 s

  relay-Effects :
      (o : Option ℕ) (id : ℕ) (recipient body : List ℕ) (s : Server)
      → Effects env s (relay env i o id recipient body s).1
  unfolding relay relay_online time_now malloc
  relay-Effects (some j) id recipient body s =
      Effects-trans
        (and_then (one-Effect (world s (record s.io { calls = suc s.io.calls }) refl))
          (world _ (record s.io { calls = suc (suc s.io.calls) }) refl))
        (relay_allocated-Effects j id recipient body _ _ _)
  relay-Effects none id recipient body s =
      Effects-trans (queue_message-Effects env recipient (client_at i s).username body s)
        (acknowledge-Effects id 2 _)

  send_to_user-Effects :
      (o : Option ℕ) (recipient body : List ℕ) (s : Server)
      → Effects env s (send_to_user env i o recipient body s).1
  unfolding send_to_user take_message_id
  send_to_user-Effects none recipient body s =
      refuse-Effects env i user_not_found "Recipient not found" s
  send_to_user-Effects (some u) recipient body s =
      Effects-trans (one-Effect (number s)) (relay-Effects _ s.next_message_id recipient body _)

  pub handle_send_message-Effects :
      (payload : List ℕ) (s : Server) → Effects env s (handle_send_message env i payload s).1
  unfolding handle_send_message
  handle_send_message-Effects payload s =
      choose env (ltb (length payload) 3) _ _
        (λ _. refuse-Effects env i invalid_format "Invalid message data" s)
        λ _.
          choose env (bad_name payload 2) _ _
            (λ _. refuse-Effects env i invalid_format "Invalid recipient length" s)
            λ _.
              choose env
                (body_len payload == 0
                  || ltb (length payload) (1 + get_or payload 0 0 + 2 + body_len payload))
                _ _ (λ _. refuse-Effects env i invalid_format "Invalid message length" s)
                λ _.
                  send_to_user-Effects (find_user (read_name payload) s.users) (read_name payload)
                    (read_body payload) s

  change_status-Effects :
      (o : Option ℕ) (status : UserStatus) (s : Server)
      → Effects env s (change_status env i o status s).1
  unfolding change_status time_now
  change_status-Effects none status s = none_yet
  change_status-Effects (some u) status s =
      Effects-trans
        (and_then
          (and_then (one-Effect (world s (record s.io { calls = suc s.io.calls }) refl))
            (mark _ u status _))
          (show _ i status))
        (broadcast-Effects env (client_at i s).username status _)

  pub handle_set_status-Effects :
      (payload : List ℕ) (s : Server) → Effects env s (handle_set_status env i payload s).1
  unfolding handle_set_status
  handle_set_status-Effects payload s =
      choose env (ltb (length payload) 1) _ _
        (λ _. refuse-Effects env i invalid_format "Invalid status data" s)
        λ _. set_status_to-Effects (read_status (get_or payload 0 0))
    where
      set_status_to-Effects : (o : Option UserStatus) → Effects env s (set_status_to env i o s).1
      set_status_to-Effects none = refuse-Effects env i invalid_format "Invalid status value" s
      set_status_to-Effects (some status) =
          change_status-Effects (find_user (client_at i s).username s.users) status s

  pub handle_list_users-Effects : (s : Server) → Effects env s (handle_list_users env i s).1
  unfolding handle_list_users malloc
  handle_list_users-Effects s =
      choose env (not (env.malloc s.io.calls (length (user_list s.users)))) _ _
        (λ _. Effects-trans asked (refuse-Effects env i server_error "Memory allocation failed" _))
        λ _. Effects-trans asked (respond-Effects env i user_list_response (user_list s.users) _)
    where
      asked : Effects env s (record s { io = record s.io { calls = suc s.io.calls } })
      asked = one-Effect (world s _ refl)

  pub handle_logout-Effects : (s : Server) → Effects env s (handle_logout i s).1
  unfolding handle_logout
  handle_logout-Effects s = one-Effect (hang_up s i)
