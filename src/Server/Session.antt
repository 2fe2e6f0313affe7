-- ===== src/Server/Session.antt =====
-- server/src/client_handler.c: the thread of one connection. It reads a message, checks the limit,
-- and hands the message to its handler, until the connection or the server ends; then it clears the
-- connection's slot.
pub mod Guard
pub mod Teardown
pub mod Registers
pub mod Serves
pub mod Relays
use c_chat.Prelude.{
  ℕ, zero, suc, ◌+◌, Bool, true, false, not, ◌&&◌, Option, none, some, List, [], ◌∷◌, ℤ, pos,
  negsuc, is_neg, length, if◌then◌else◌, ltb, ◌==◌,
}
use c_chat.Server.Types.{
  MessageType, register_user, login_user, get_public_key, send_message, get_messages, set_status,
  list_users, logout, type_code, auth_failed, rate_limited, invalid_format, NetworkMessage,
  RateLimit, MessageQueue, ClientConnection, offline,
}
use c_chat.Server.Io.{Env, State, time_now, close}
use c_chat.Server.Protocol.{
  Received, message, disconnected, failed, waiting, is_waiting, receive_network_message, send_error,
  check_rate_limit, update_rate_limit,
}
use c_chat.Server.State.{Server, client_at, set_client, lift}
use c_chat.Server.Users.{find_user, set_user_status, broadcast_status_update}
use c_chat.Server.Handlers.Account.{
  handle_register_user, handle_login_user, handle_get_public_key, handle_logout,
}
use c_chat.Server.Handlers.Relay.{handle_send_message, handle_get_messages}
use c_chat.Server.Handlers.Presence.{handle_set_status, handle_list_users}

-- The queue with its counters cleared; the freed blocks stay in the array.
unfoldable pub clear_queue : MessageQueue → MessageQueue
clear_queue q = record q { queue_head = 0; queue_tail = 0; queue_count = 0 }

-- `close(client->socket_fd)` if it is open.
unfoldable pub close_socket : ℤ → Server → Server
close_socket (pos n) s = record s { io = close (pos n) s.io }
close_socket (negsuc n) s = s

-- Where the thread of a connection is: behind its loop; in a `recv` that does not return; or, of a
-- run that was cut off, in none of them.
pub data Thread : Type 0 where
  ended waits : Server → Thread
  unfinished : Thread

unfoldable pub is_type : NetworkMessage → MessageType → Bool
is_type msg t = msg.type == type_code t

module _ (env : Env) (i : ℕ) where
  -- A request that needs a login. What a handler returns is only logged.
  unfoldable pub guarded : State Server ℤ → Server → Server
  guarded handle s =
      if (client_at i s).authenticated
      then (handle s).1
      else (lift (send_error env (client_at i s).socket_fd auth_failed "Not authenticated") s).1

  -- The `switch` over the type of a message.
  unfoldable pub dispatch : NetworkMessage → Server → Server
  unfolding is_type
  dispatch msg s =
      if is_type msg register_user
      then (handle_register_user env i msg.payload s).1
      else if is_type msg login_user
      then (handle_login_user env i msg.payload s).1
      else if is_type msg get_public_key
      then guarded (handle_get_public_key env i msg.payload) s
      else if is_type msg send_message
      then guarded (handle_send_message env i msg.payload) s
      else if is_type msg get_messages
      then guarded (handle_get_messages env i) s
      else if is_type msg set_status
      then guarded (handle_set_status env i msg.payload) s
      else if is_type msg list_users
      then guarded (handle_list_users env i) s
      else if is_type msg logout
      then (handle_logout i s).1
      else (lift (send_error env (client_at i s).socket_fd invalid_format "Unknown message type")
          s).1

  -- `client->rate_limit = r`
  abbrev pub set_limit : RateLimit → Server → Server
  set_limit r s = set_client i (record (client_at i s) { rate_limit = r }) s

  -- What follows the check of the limit, by its answer and the limit that it leaves. The Boolean
  -- of the result says whether the loop goes on.
  unfoldable pub answer_checked : NetworkMessage → Bool → RateLimit → Server → Bool × Server
  answer_checked msg true r s = (true, dispatch msg (set_limit (update_rate_limit r) s))
  answer_checked msg false r s =
      let s₁ : Server = set_limit r s in
      (
        false,
        (lift (send_error env (client_at i s₁).socket_fd rate_limited "Rate limit exceeded") s₁).1,
      )

  -- A message that was received is answered, if the limit allows it.
  unfoldable pub answer : NetworkMessage → Server → Bool × Server
  unfolding answer_checked
  answer msg s =
      let ((passes, r), s₁) = lift (check_rate_limit env (client_at i s).rate_limit) s in
      answer_checked msg passes r s₁

  unfoldable pub answer_received : Received → Server → Bool × Server
  unfolding answer
  answer_received (message msg) s = answer msg s
  answer_received disconnected s = (false, s)
  answer_received failed s = (false, s)
  answer_received waiting s = (false, s)

  -- One turn of the loop.
  unfoldable pub turn : Server → Bool × Server
  unfolding answer_received
  turn s =
      let (received, s₁) = lift (receive_network_message env (client_at i s).socket_fd) s in
      answer_received received s₁

  -- The next message is not there, and the thread waits for it.
  abbrev pub in_recv : Server → Bool
  in_recv s = is_waiting (receive_network_message env (client_at i s).socket_fd s.io).0

  -- The loop. Each turn that goes on takes five bytes or more off the socket, so that one more
  -- round than the socket has bytes is enough.
  unfoldable pub session_loop : ℕ → Server → Thread
  session_loop zero s = unfinished
  session_loop (suc fuel) s =
      let next = session_loop fuel (turn s).1 in
      if (client_at i s).connected && s.running
      then (if in_recv s then waits (turn s).1 else if (turn s).0 then next else ended (turn s).1)
      else ended s

  unfoldable pub log_out_user : Option ℕ → Server → Server
  log_out_user none s = s
  log_out_user (some u) s =
      let (now, s₁) = lift (time_now env) s in
      broadcast_status_update env (client_at i s).username offline
        (set_user_status u offline now s₁)

  unfoldable pub clear_slot : Server → Server
  unfolding clear_queue
  clear_slot s =
      let c : ClientConnection = client_at i s in
      set_client i
        (record c {
          socket_fd = if is_neg c.socket_fd then c.socket_fd else negsuc 0;
          connected = false;
          authenticated = false;
          username = [];
          queue = clear_queue c.queue;
        })
        s

  -- What follows the loop.
  unfoldable pub teardown : Server → Server
  unfolding log_out_user close_socket
  teardown s =
      let c : ClientConnection = client_at i s in
      let s₁ : Server =
        if c.authenticated && ltb 0 (length c.username)
        then log_out_user (find_user c.username s.users) s
        else s in
      clear_slot (close_socket c.socket_fd s₁)

  abbrev pub after_loop : Thread → Thread
  after_loop (ended s) = ended (teardown s)
  after_loop (waits s) = waits s
  after_loop unfinished = unfinished

  unfoldable pub client_handler : ℕ → Server → Thread
  client_handler fuel s = after_loop (session_loop fuel s)
