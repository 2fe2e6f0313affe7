-- ===== src/Server/Protocol/Others.antt =====
-- server/src/protocol.c: what a message that is sent means for the other sockets.
use c_chat.Prelude.{ℕ, ◌≡◌, refl, false, List, ℤ, pos, negsuc, int_eq, length, arith}
use c_chat.Server.Types.{MessageType, type_code}
use c_chat.Server.Io.{Env, Io, after_send, send}
use c_chat.Server.Protocol.{header, send_payload, send_network_message}
use c_chat.Server.Protocol.Frame.{stream}

module _ (env : Env) (fd g : ℤ) (other : int_eq fd g ≡ false) where
  after_send-other :
      (bytes : List ℕ) (io : Io) (r : ℤ)
      → stream g (after_send env fd bytes io r).1.events ≡ stream g io.events
  after_send-other bytes io (pos n) = rw other refl
  after_send-other bytes io (negsuc n) = refl

  send-other :
      (bytes : List ℕ) (io : Io) → stream g (send env fd bytes io).1.events ≡ stream g io.events
  unfolding send
  send-other bytes io = after_send-other bytes io (env.send io.calls fd (length bytes))

  send_payload-other :
      (payload : List ℕ) (io : Io)
      → stream g (send_payload env fd payload io).1.events ≡ stream g io.events
  unfolding send_payload
  send_payload-other payload io = ground (arith, send-other payload io)

  pub send_network_message-other :
      (type : MessageType) (payload : List ℕ) (io : Io)
      → stream g (send_network_message env fd type payload io).1.events ≡ stream g io.events
  unfolding send_network_message
  send_network_message-other type payload io =
      let h : List ℕ = header (length payload) (type_code type) in
      ground (arith, send-other h io, send_payload-other payload (send env fd h io).1)
