-- ===== src/Server/Types.antt =====
-- server/include/c-chat-server.h: the limits, the codes of the protocol and the state records.
-- A `char[MAX_USERNAME_LEN]` is the list of bytes before its terminator, which is all that strcmp,
-- strlen and strncpy read of it. Socket addresses, thread handles and mutexes are left out.
use c_chat.Prelude.{ℕ, Bool, List, Option, ℤ}

abbrev pub max_username_len : ℕ
max_username_len = 32

abbrev pub max_message_len : ℕ
max_message_len = 1024

abbrev pub max_clients : ℕ
max_clients = 1000

abbrev pub message_queue_size : ℕ
message_queue_size = 100

abbrev pub rate_limit_window : ℕ
rate_limit_window = 60

abbrev pub rate_limit_max_requests : ℕ
rate_limit_max_requests = 100

abbrev pub challenge_size : ℕ
challenge_size = 32

pub data MessageType : Type 0 where
  register_user login_user get_public_key send_message : MessageType
  get_messages set_status list_users logout : MessageType
  register_response login_response public_key_response message_ack : MessageType
  incoming_message user_list_response status_update error : MessageType

-- The value of each enumerator, which fits a byte.
abbrev pub type_code : MessageType → ℕ
type_code register_user = 0x01
type_code login_user = 0x02
type_code get_public_key = 0x03
type_code send_message = 0x04
type_code get_messages = 0x05
type_code set_status = 0x06
type_code list_users = 0x07
type_code logout = 0x08
type_code register_response = 0x81
type_code login_response = 0x82
type_code public_key_response = 0x83
type_code message_ack = 0x84
type_code incoming_message = 0x85
type_code user_list_response = 0x86
type_code status_update = 0x87
type_code error = 0x88

pub data UserStatus : Type 0 where
  offline online away : UserStatus

abbrev pub status_code : UserStatus → ℕ
status_code offline = 0
status_code online = 1
status_code away = 2

pub data ErrorCode : Type 0 where
  invalid_username user_exists user_not_found auth_failed : ErrorCode
  invalid_format rate_limited server_error connection_terminated : ErrorCode

abbrev pub error_code : ErrorCode → ℕ
error_code invalid_username = 0x01
error_code user_exists = 0x02
error_code user_not_found = 0x03
error_code auth_failed = 0x04
error_code invalid_format = 0x05
error_code rate_limited = 0x06
error_code server_error = 0x07
error_code connection_terminated = 0x08

-- `network_message_t` once a message is received: a NULL payload is the empty list, and `length`
-- is that of the payload.
pub record NetworkMessage : Type 0 where
  pub type : ℕ
  pub payload : List ℕ

pub record UserRecord : Type 0 where
  pub username : List ℕ
  pub public_key : List ℕ
  pub status : UserStatus
  pub last_seen : ℕ
  pub is_registered : Bool

-- `encrypted_data` is NULL for `none`, else the `encrypted_len` bytes that it points to.
pub record StoredMessage : Type 0 where
  pub message_id : ℕ
  pub sender : List ℕ
  pub recipient : List ℕ
  pub timestamp : ℕ
  pub encrypted_len : ℕ
  pub encrypted_data : Option (List ℕ)
  pub delivered : Bool

pub record RateLimit : Type 0 where
  pub window_start : ℕ
  pub request_count : ℕ

-- The four fields of `client_connection_t` that make its ring of messages.
pub record MessageQueue : Type 0 where
  pub message_queue : List StoredMessage
  pub queue_head : ℕ
  pub queue_tail : ℕ
  pub queue_count : ℕ

pub record ClientConnection : Type 0 where
  pub socket_fd : ℤ
  pub username : List ℕ
  pub authenticated : Bool
  pub connected : Bool
  pub status : UserStatus
  pub challenge : List ℕ
  pub connected_time : ℕ
  pub rate_limit : RateLimit
  pub queue : MessageQueue
