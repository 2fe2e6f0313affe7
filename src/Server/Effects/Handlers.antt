-- ===== src/Server/Effects/Handlers.antt =====
-- server/src/client_handler.c, the switch over requests, as a sequence of effects.
use c_chat.Prelude.{ℕ, Bool, true, false, List, ℤ, String, if◌then◌else◌}
use c_chat.Server.Types.{
  ErrorCode, register_user, login_user, get_public_key, send_message, get_messages, set_status,
  list_users, logout, NetworkMessage, invalid_format, auth_failed,
}
use c_chat.Server.Io.{Env, State}
use c_chat.Server.Protocol.{send_error}
use c_chat.Server.State.{Server, client_at, lift}
use c_chat.Server.Delivery.{deliver_queued_messages}
use c_chat.Server.Handlers.Account.{handle_get_public_key}
use c_chat.Server.Handlers.Relay.{handle_send_message, handle_get_messages}
use c_chat.Server.Handlers.Presence.{handle_set_status, handle_list_users}
use c_chat.Server.Session.{is_type, guarded, dispatch}
use c_chat.Server.Effects.{world, Effects, one-Effect}
use c_chat.Server.Effects.Inbox.{inbox-send_error}
use c_chat.Server.Effects.Stores.{deliver_queued_messages-Effects}
use c_chat.Server.Effects.Requests.{
  handle_register_user-Effects, handle_login_user-Effects, handle_get_public_key-Effects,
  handle_send_message-Effects, handle_set_status-Effects, handle_list_users-Effects,
  handle_logout-Effects,
}

module _ (env : Env) (i : ℕ) where
  pub either :
      {s : Server} (b : Bool) (x y : Server)
      → Effects env s x
      → Effects env s y
      → Effects env s (if b then x else y)
  either true x y p q = p
  either false x y p q = q

  pub error_sent-Effects :
      (code : ErrorCode) (text : String) (s : Server)
      → Effects env s (lift (send_error env (client_at i s).socket_fd code text) s).1
  error_sent-Effects code text s = one-Effect (
      world s (send_error env (client_at i s).socket_fd code text s.io).1
        (inbox-send_error env (client_at i s).socket_fd code text s.io))

  guarded-Effects :
      (handle : State Server ℤ) (s : Server)
      → Effects env s (handle s).1
      → Effects env s (guarded env i handle s)
  unfolding guarded
  guarded-Effects handle s h =
      either (client_at i s).authenticated _ _ h
        (error_sent-Effects auth_failed "Not authenticated" s)

  -- Serving one message is a sequence of effects, whatever its type and payload.
  pub dispatch-Effects : (msg : NetworkMessage) (s : Server) → Effects env s (dispatch env i msg s)
  unfolding dispatch handle_get_messages
  dispatch-Effects msg s =
      let p : List ℕ = msg.payload in
      either (is_type msg register_user) _ _ (handle_register_user-Effects env i p s) (
        either (is_type msg login_user) _ _ (handle_login_user-Effects env i p s) (
          either (is_type msg get_public_key) _ _
            (guarded-Effects (handle_get_public_key env i p) s
              (handle_get_public_key-Effects env i p s))
            (either (is_type msg send_message) _ _
              (guarded-Effects (handle_send_message env i p) s
                (handle_send_message-Effects env i p s))
              (either (is_type msg get_messages) _ _
                (guarded-Effects (deliver_queued_messages env i) s
                  (deliver_queued_messages-Effects env i s))
                (either (is_type msg set_status) _ _
                  (guarded-Effects (handle_set_status env i p) s
                    (handle_set_status-Effects env i p s))
                  (either (is_type msg list_users) _ _
                    (guarded-Effects (handle_list_users env i) s
                      (handle_list_users-Effects env i s))
                    (either (is_type msg logout) _ _ (handle_logout-Effects env i s)
                      (error_sent-Effects invalid_format "Unknown message type" s))))))))
