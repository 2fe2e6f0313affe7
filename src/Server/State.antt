-- ===== src/Server/State.antt =====
-- `server_state_t` of server/include/c-chat-server.h, and the access to one slot of its clients.
-- `users` is the part of the array that `user_count` counts; `clients` is the whole array.
-- A call is one step that no other thread interrupts, so the mutexes are left out.
use c_chat.Prelude.{ℕ, Bool, false, List, [], ℤ, pos, get_or, set, replicate, none}
use c_chat.Server.Types.{
  message_queue_size, UserRecord, StoredMessage, MessageQueue, ClientConnection, offline,
}
use c_chat.Server.Io.{Io, State}

pub record Server : Type 0 where
  pub users : List UserRecord
  pub clients : List ClientConnection
  pub client_count : ℕ
  pub next_message_id : ℕ
  pub running : Bool
  pub server_socket : ℤ
  pub io : Io

-- Zeroed memory.
abbrev pub zero_message : StoredMessage
zero_message = record {
  message_id = 0;
  sender = [];
  recipient = [];
  timestamp = 0;
  encrypted_len = 0;
  encrypted_data = none;
  delivered = false;
}

unfoldable pub zero_queue : MessageQueue
zero_queue = record {
  message_queue = replicate message_queue_size zero_message;
  queue_head = 0;
  queue_tail = 0;
  queue_count = 0;
}

abbrev pub zero_client : ClientConnection
zero_client = record {
  socket_fd = pos 0;
  username = [];
  authenticated = false;
  connected = false;
  status = offline;
  challenge = [];
  connected_time = 0;
  rate_limit = record { window_start = 0; request_count = 0 };
  queue = zero_queue;
}

-- `server.clients[i]`
abbrev pub client_at : ℕ → Server → ClientConnection
client_at i s = get_or s.clients i zero_client

abbrev pub set_client : ℕ → ClientConnection → Server → Server
set_client i c s = record s { clients = set s.clients i c }

-- A call that touches the outside world only.
abbrev pub lift : {A : Type 0} → State Io A → State Server A
lift m s = let (a, io') = m s.io in (a, record s { io = io' })
