-- ===== src/Server/Handlers.antt =====
-- server/src/message_handlers.c. A handler takes the index of the client's slot and the payload; a
-- NULL payload is the empty one, and `payload_len` is the payload's length. Here are the two ways
-- in which the handlers answer.
pub mod Account
pub mod Relay
pub mod Presence
use c_chat.Prelude.{ℕ, ◌<◌, List, ℤ, negsuc, String}
use c_chat.Server.Types.{MessageType, ErrorCode}
use c_chat.Server.Io.{Env, State}
use c_chat.Server.Protocol.{send_error, send_network_message}
use c_chat.Server.State.{Server, client_at, lift}

module _ (env : Env) (i : ℕ) where
  -- `return send_network_message(client->socket_fd, …)`
  unfoldable pub respond : MessageType → List ℕ → State Server ℤ
  respond type payload s = lift (send_network_message env (client_at i s).socket_fd type payload) s

  -- `send_error(client->socket_fd, …); return -1;`
  unfoldable pub refuse : ErrorCode → String → State Server ℤ
  refuse code text s = (negsuc 0, (lift (send_error env (client_at i s).socket_fd code text) s).1)
