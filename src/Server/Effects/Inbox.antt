-- ===== src/Server/Effects/Inbox.antt =====
-- The calls of server/src/protocol.c and message_queue.c that send, and what waits to be read.
use c_chat.Prelude.{
  ℕ, zero, suc, ◌+◌, ◌≡◌, refl, List, [], ◌∷◌, ℤ, pos, negsuc, length, String, bytes_of, ◌++◌,
  arith,
}
use c_chat.Server.Types.{
  MessageType, type_code, error, error_code, incoming_message, status_update, ErrorCode,
  StoredMessage, ClientConnection, MessageQueue,
}
use c_chat.Server.Io.{Env, Io, after_send, send, malloc}
use c_chat.Server.Words.{be16}
use c_chat.Server.Protocol.{header, send_payload, send_network_message, send_error}
use c_chat.Server.Queue.{
  message_payload, send_stored, deliver_loop, head_message, advance_head, mark_delivered,
}
use c_chat.Server.Users.{broadcast_loop}

module _ (env : Env) (fd : ℤ) where
  inbox-after_send :
      (bytes : List ℕ) (io : Io) (r : ℤ) → (after_send env fd bytes io r).1.inbox ≡ io.inbox
  inbox-after_send bytes io (pos n) = refl
  inbox-after_send bytes io (negsuc n) = refl

  inbox-send : (bytes : List ℕ) (io : Io) → (send env fd bytes io).1.inbox ≡ io.inbox
  unfolding send
  inbox-send bytes io = inbox-after_send bytes io (env.send io.calls fd (length bytes))

  inbox-send_payload :
      (payload : List ℕ) (io : Io) → (send_payload env fd payload io).1.inbox ≡ io.inbox
  unfolding send_payload
  inbox-send_payload payload io = ground (arith, inbox-send payload io)

  pub inbox-send_network_message :
      (type : MessageType) (payload : List ℕ) (io : Io)
      → (send_network_message env fd type payload io).1.inbox ≡ io.inbox
  unfolding send_network_message
  inbox-send_network_message type payload io =
      let h : List ℕ = header (length payload) (type_code type) in
      ground (arith, inbox-send h io, inbox-send_payload payload (send env fd h io).1)

  pub inbox-send_error :
      (code : ErrorCode) (text : String) (io : Io)
      → (send_error env fd code text io).1.inbox ≡ io.inbox
  unfolding send_error malloc
  inbox-send_error code text io = ground (
    arith,
    inbox-send_network_message error
        (error_code code ∷ (be16 (length (bytes_of text)) ++ bytes_of text))
        (record io { calls = suc io.calls }),
  )

  inbox-send_stored : (m : StoredMessage) (io : Io) → (send_stored env fd m io).1.inbox ≡ io.inbox
  unfolding send_stored malloc
  inbox-send_stored m io = ground (
    arith,
    inbox-send_network_message incoming_message (message_payload m)
        (record io { calls = suc io.calls }),
  )

  pub inbox-deliver_loop :
      (fuel n : ℕ) (q : MessageQueue) (io : Io)
      → (deliver_loop env fd fuel n q io).2.inbox ≡ io.inbox
  unfolding deliver_loop
  inbox-deliver_loop zero n q io = refl
  inbox-deliver_loop (suc fuel) n q io = ground (
    arith,
    inbox-send_stored (head_message q) io,
    inbox-deliver_loop fuel n (advance_head q) io,
    inbox-deliver_loop fuel (n + 1) (advance_head (mark_delivered q))
        (send_stored env fd (head_message q) io).1,
  )

pub inbox-broadcast_loop :
    (env : Env) (username payload : List ℕ) (cs : List ClientConnection) (io : Io)
    → (broadcast_loop env username payload cs io).inbox ≡ io.inbox
unfolding broadcast_loop
inbox-broadcast_loop env username payload [] io = refl
inbox-broadcast_loop env username payload (c ∷ cs) io = ground (
  arith,
  inbox-send_network_message env c.socket_fd status_update payload io,
  inbox-broadcast_loop env username payload cs io,
  inbox-broadcast_loop env username payload cs
      (send_network_message env c.socket_fd status_update payload io).1,
)
