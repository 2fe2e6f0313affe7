-- ===== src/Server/Protocol.antt =====
-- server/src/protocol.c: framing of messages on a socket, error replies, the test of usernames and
-- the request limit. Log lines and the clearing of freed memory are left out.
pub mod Frame
pub mod Receive
pub mod Username
pub mod Limit
pub mod Others
pub mod Silence
use c_chat.Prelude.{
  ℕ, zero, suc, ◌+◌, ◌-◌, ◌*◌, ◌^◌, Bool, true, false, not, ◌&&◌, ◌||◌, Option, none, some, List,
  [], ◌∷◌, ◌++◌, ℤ, pos, negsuc, int_eq, length, get_or, if◌then◌else◌, ltb, leb, ◌==◌, String,
  bytes_of,
}
use c_chat.Server.Types.{
  max_username_len, max_message_len, rate_limit_window, rate_limit_max_requests, MessageType,
  type_code, error, ErrorCode, error_code, NetworkMessage, RateLimit,
}
use c_chat.Server.Io.{Env, Io, State, ◌>>=◌, ◌>>◌, pure, send, blocks, recv, malloc, time_now}
use c_chat.Server.Words.{be32, be16, read_be32}

-- The five bytes in front of a payload.
abbrev pub header : ℕ → ℕ → List ℕ
header payload_len type = be32 payload_len ++ type ∷ []

-- What `receive_network_message` returns: 0 with the message, -2 and -1; or it has not returned, and
-- waits in a `recv` for bytes that do not come.
pub data Received : Type 0 where
  message : NetworkMessage → Received
  disconnected failed waiting : Received

unfoldable pub is_waiting : Received → Bool
is_waiting (message msg) = false
is_waiting disconnected = false
is_waiting failed = false
is_waiting waiting = true

-- What comes of the `recv` of a payload.
unfoldable pub payload_message : ℕ → ℕ → Option (List ℕ) → Received
payload_message type len none = failed
payload_message type len (some payload) =
    if length payload == len then message (record { type = type; payload = payload }) else failed

-- `check_rate_limit` at a time: a window that is over is restarted, and the Boolean is the answer.
unfoldable pub check_at : ℕ → RateLimit → Bool × RateLimit
check_at now r =
    let fresh : RateLimit =
      if leb rate_limit_window (now - r.window_start)
      then record { window_start = now; request_count = 0 }
      else r in
    (ltb fresh.request_count rate_limit_max_requests, fresh)

module _ (env : Env) where
  unfoldable pub send_payload : ℤ → List ℕ → State Io ℤ
  send_payload fd payload =
      if ltb 0 (length payload)
      then (do
        sent ← send env fd payload
        pure (if int_eq sent (pos (length payload)) then pos 0 else negsuc 0))
      else pure (pos 0)

  unfoldable pub send_network_message : ℤ → MessageType → List ℕ → State Io ℤ
  send_network_message fd type payload = do
    sent ← send env fd (header (length payload) (type_code type))
    if int_eq sent (pos 5) then send_payload fd payload else pure (negsuc 0)

  -- What follows a `recv` of `len` bytes that returns; or it does not.
  abbrev pub await : ℤ → ℕ → State Io Received → State Io Received
  await fd len received io = if blocks env fd len io then (waiting, io) else received io

  -- The `recv` of a payload of `len` bytes into the buffer allocated for it.
  unfoldable pub receive_payload : ℤ → ℕ → ℕ → State Io Received
  unfolding payload_message
  receive_payload fd type len = do
    allocated ← malloc env len
    if not allocated
        then pure failed
        else await fd len (do received ← recv env fd len; pure (payload_message type len received))

  unfoldable pub decode_header : ℤ → List ℕ → State Io Received
  unfolding receive_payload
  decode_header fd h =
      if length h == 0
      then pure disconnected
      else if not (length h == 5)
      then pure failed
      else if ltb (max_message_len * 2) (read_be32 h)
      then pure failed
      else if ltb 0 (read_be32 h)
      then receive_payload fd (get_or h 4 0) (read_be32 h)
      else pure (message (record { type = get_or h 4 0; payload = [] }))

  -- What comes of the `recv` of a header.
  unfoldable pub header_message : ℤ → Option (List ℕ) → State Io Received
  unfolding decode_header
  header_message fd none = pure failed
  header_message fd (some h) = decode_header fd h

  unfoldable pub receive_network_message : ℤ → State Io Received
  unfolding header_message
  receive_network_message fd = await fd 5 (do received ← recv env fd 5; header_message fd received)

  unfoldable pub send_error : ℤ → ErrorCode → String → State Io ℤ
  send_error fd code text = do
    let msg_len = length (bytes_of text)
    allocated ← malloc env (3 + msg_len)
    if not allocated
        then pure (negsuc 0)
        else send_network_message fd error (error_code code ∷ (be16 msg_len ++ bytes_of text))

  unfoldable pub check_rate_limit : RateLimit → State Io (Bool × RateLimit)
  unfolding check_at
  check_rate_limit r = do now ← time_now env; pure (check_at now r)

unfoldable pub update_rate_limit : RateLimit → RateLimit
update_rate_limit r = record r { request_count = suc r.request_count }

-- The test of one character of a username.
unfoldable pub is_name_char : ℕ → Bool
is_name_char c =
    (leb b'a' c && leb c b'z')
    || (leb b'A' c && leb c b'Z')
    || (leb b'0' c && leb c b'9')
    || c == b'_'

unfoldable pub all_name_chars : List ℕ → Bool
all_name_chars [] = true
all_name_chars (c ∷ cs) = is_name_char c && all_name_chars cs

unfoldable pub validate_username_server : List ℕ → ℤ
validate_username_server username =
    if length username == 0 || leb max_username_len (length username)
    then negsuc 0
    else if all_name_chars username
    then pos 0
    else negsuc 0
