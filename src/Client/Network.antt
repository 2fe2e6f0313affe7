-- ===== src/Client/Network.antt =====
-- src/network.c: the connection to the server, and the three requests that are made over it.
pub mod Requests
pub mod Answers
pub mod Socket
pub mod Farewell
use c_chat.Prelude.{
  ℕ, zero, suc, ◌+◌, ◌*◌, Bool, true, false, not, ◌&&◌, ◌||◌, Option, none, some, List, [], ◌∷◌,
  ◌++◌, ℤ, pos, negsuc, is_neg, int_eq, length, get_or, take, drop, if◌then◌else◌, ltb, leb, ◌==◌,
}
use c_chat.Server.Types.{max_username_len, max_message_len, NetworkMessage}
use c_chat.Server.Io.{Env, Io, State, send, blocks, recv, malloc, close}
use c_chat.Server.Words.{be16, read_be32}
use c_chat.Server.Protocol.{header}
use c_chat.Client.{ClientResult, success, invalid_args, network, auth, user_not_found, memory, Link}

-- The two static variables of the file, and the world. `waits` says that the program is in a `recv`
-- that does not return; its callers do not return then.
pub record Connection : Type 0 where
  pub server_socket : ℤ
  pub connected_to_server : Bool
  pub waits : Bool
  pub io : Io

module _ (env : Env) (link : Link) where
  -- One `send` of a whole buffer: whether all of it was taken. The connection counts as lost if the
  -- peer is gone.
  unfoldable pub send_all : List ℕ → State Connection Bool
  send_all bytes c =
      let (sent, io₁) = send env c.server_socket bytes c.io in
      if int_eq sent (pos (length bytes))
      then (true, record c { io = io₁ })
      else if is_neg sent && link.is_broken io₁.calls
      then (false, record c { connected_to_server = false; io = io₁ })
      else (false, record c { io = io₁ })

  unfoldable pub send_body : List ℕ → State Connection ℤ
  send_body payload c =
      if ltb 0 (length payload)
      then (let (sent, c₁) = send_all payload c in (if sent then pos 0 else negsuc 0, c₁))
      else (pos 0, c)

  unfoldable pub send_request : ℕ → List ℕ → State Connection ℤ
  unfolding send_body
  send_request msg_type payload c =
      if is_neg c.server_socket || not c.connected_to_server
      then (negsuc 0, c)
      else let (sent, c₁) = send_all (header (length payload) msg_type) c in
        if sent then send_body payload c₁ else (negsuc 0, c₁)

  abbrev pub with_io : {A : Type 0} → State Io A → State Connection A
  with_io m c = let (a, io') = m c.io in (a, record c { io = io' })

  -- The payload of a reply, by what its `recv` returned.
  unfoldable pub reply_body : ℕ → ℕ → Option (List ℕ) → Option NetworkMessage
  reply_body type len none = none
  reply_body type len (some bytes) =
      if length bytes == len then some (record { type = type; payload = bytes }) else none

  unfoldable pub receive_body : ℕ → ℕ → State Connection (Option NetworkMessage)
  unfolding reply_body
  receive_body type len c =
      let (allocated, c₁) = with_io (malloc env len) c in
      if not allocated
      then (none, c₁)
      else if blocks env c₁.server_socket len c₁.io
      then (none, record c₁ { waits = true })
      else let (bytes, c₂) = with_io (recv env c.server_socket len) c₁ in
        (reply_body type len bytes, c₂)

  unfoldable pub reply_header : Option (List ℕ) → State Connection (Option NetworkMessage)
  unfolding receive_body
  reply_header none c = (none, c)
  reply_header (some h) c =
      if not (length h == 5)
      then (none, c)
      else if ltb 0 (read_be32 h)
      then receive_body (get_or h 4 0) (read_be32 h) c
      else (some (record { type = get_or h 4 0; payload = [] }), c)

  -- `none` is the result -1.
  unfoldable pub receive_reply : State Connection (Option NetworkMessage)
  unfolding reply_header
  receive_reply c =
      if is_neg c.server_socket
      then (none, c)
      else if blocks env c.server_socket 5 c.io
      then (none, record c { waits = true })
      else let (h, c₁) = with_io (recv env c.server_socket 5) c in reply_header h c₁

  unfoldable pub connect_to_server : State Connection ClientResult
  connect_to_server c =
      let fd : ℤ = link.socket c.io.calls in
      let io₁ : Io = record c.io { calls = suc c.io.calls } in
      let lost : Connection = record c { server_socket = negsuc 0; io = close fd io₁ } in
      if c.connected_to_server
      then (success, c)
      else if is_neg fd
      then (network, record c { server_socket = fd; io = io₁ })
      else if not (link.inet_pton c.io.calls)
      then (network, lost)
      else if not (link.connect c.io.calls)
      then (network, lost)
      else (success, record c { server_socket = fd; connected_to_server = true; io = io₁ })

  unfoldable pub reconnect_to_server : State Connection ClientResult
  unfolding connect_to_server
  reconnect_to_server c =
      if c.connected_to_server
      then (success, c)
      else if is_neg c.server_socket
      then connect_to_server c
      else connect_to_server
          (record c { server_socket = negsuc 0; io = close c.server_socket c.io })

  -- A NULL payload is the empty one. The result of the farewell is ignored.
  unfoldable pub disconnect_from_server : State Connection ClientResult
  disconnect_from_server c =
      let c₁ : Connection = if c.connected_to_server then (send_request 0x08 [] c).1 else c in
      if is_neg c.server_socket then (success, c) else (
        success,
        record {
          server_socket = negsuc 0;
          connected_to_server = false;
          waits = c₁.waits;
          io = close c.server_socket c₁.io;
        },
      )

  -- A request and its reply: the payload is allocated, sent, and what comes next is taken for the
  -- reply to it.
  unfoldable pub ask : ℕ → List ℕ → State Connection (ClientResult × Option NetworkMessage)
  ask msg_type payload c =
      let (allocated, c₁) = with_io (malloc env (length payload)) c in
      if not allocated
      then ((memory, none), c₁)
      else let (sent, c₂) = send_request msg_type payload c₁ in
        if is_neg sent
        then ((network, none), c₂)
        else let (reply, c₃) = receive_reply c₂ in ((network, reply), c₃)

  -- The result of a registration, by the two bytes of the reply.
  unfoldable pub register_result : ClientResult → Option NetworkMessage → ClientResult
  register_result error none = error
  register_result error (some m) =
      if not (m.type == 0x81) || ltb (length m.payload) 2
      then network
      else if get_or m.payload 0 0 == 1
      then success
      else if get_or m.payload 1 0 == 0x02
      then auth
      else if get_or m.payload 1 0 == 0x01
      then invalid_args
      else network

  unfoldable pub register_user_with_server : List ℕ → List ℕ → State Connection ClientResult
  unfolding register_result
  register_user_with_server username public_key c =
      if not c.connected_to_server
      then (network, c)
      else if leb max_username_len (length username)
      then (invalid_args, c)
      else let ((error, reply), c₁) =
          ask 0x01 (length username ∷ (username ++ take env.public_key_size public_key)) c in
        (register_result error reply, c₁)

  unfoldable pub key_result : ClientResult → Option NetworkMessage → ClientResult × Option (List ℕ)
  key_result error none = (error, none)
  key_result error (some m) =
      if not (m.type == 0x83)
      then (network, none)
      else if length m.payload == 0 || get_or m.payload 0 0 == 0
      then (user_not_found, none)
      else if ltb (length m.payload) (1 + env.public_key_size)
      then (network, none)
      else (success, some (take env.public_key_size (drop 1 m.payload)))

  -- The key is what is written to the caller's buffer, if anything is.
  unfoldable pub get_user_public_key : List ℕ → State Connection (ClientResult × Option (List ℕ))
  unfolding key_result
  get_user_public_key username c =
      if not c.connected_to_server
      then ((network, none), c)
      else if leb max_username_len (length username)
      then ((invalid_args, none), c)
      else let ((error, reply), c₁) = ask 0x03 (length username ∷ username) c in
        (key_result error reply, c₁)

  unfoldable pub ack_result : ClientResult → Option NetworkMessage → ClientResult
  ack_result error none = error
  ack_result error (some m) =
      if not (m.type == 0x84) || ltb (length m.payload) 5
      then network
      else if get_or m.payload 4 0 == 0
      then network
      else success

  -- `encrypted_message` is `message_len` bytes.
  unfoldable pub send_message_to_server : List ℕ → List ℕ → State Connection ClientResult
  unfolding ack_result
  send_message_to_server recipient encrypted_message c =
      if length encrypted_message == 0 || not c.connected_to_server
      then (network, c)
      else if leb max_username_len (length recipient)
          || ltb (max_message_len + 100) (length encrypted_message)
      then (invalid_args, c)
      else let ((error, reply), c₁) =
          ask 0x04
            (length recipient
              ∷ (recipient ++ (be16 (length encrypted_message) ++ encrypted_message)))
            c in
        (ack_result error reply, c₁)
