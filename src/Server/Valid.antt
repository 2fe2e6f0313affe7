-- ===== src/Server/Valid.antt =====
-- A well formed `server_state_t` of server/include/c-chat-server.h.
use c_chat.Prelude.{
  ℕ, ◌^◌, ◌≤◌, ◌<◌, ◌≡◌, ◌≢◌, true, false, none, some, List, [], ◌∷◌, map, length, All,
}
use c_chat.Server.Types.{
  max_clients, rate_limit_max_requests, UserRecord, StoredMessage, MessageQueue, ClientConnection,
}
use c_chat.Server.Io.{Env}
use c_chat.Server.Protocol.Username.{IsUsername}
use c_chat.Server.State.{Server, client_at}
use c_chat.Server.Queue.Ring.{IsQueue, contents}
use c_chat.Server.Users.{find_user}

-- A registered user has a valid name and a whole key.
pub record IsGoodUser (env : Env) (u : UserRecord) : Type 0 where
  pub name : IsUsername u.username
  pub registered : u.is_registered ≡ true
  pub key : length u.public_key ≡ env.public_key_size

-- A message that waits is not delivered, and has all its data.
pub record IsPending (m : StoredMessage) : Type 0 where
  pub waits : m.delivered ≡ false
  pub body : List ℕ
  pub held : m.encrypted_data ≡ some body
  pub sized : length body ≡ m.encrypted_len
  pub sender_fits : length m.sender ≤ 31

pub record IsFine (q : MessageQueue) : Type 0 where
  pub ring : IsQueue q
  pub pending : All IsPending (contents q)

-- A slot of the client array: who is logged in is registered.
pub record IsSlot (users : List UserRecord) (c : ClientConnection) : Type 0 where
  pub queue : IsFine c.queue
  pub limit : c.rate_limit.request_count ≤ rate_limit_max_requests
  pub logged_in : c.authenticated ≡ true → find_user c.username users ≢ none

abbrev pub names : List UserRecord → List (List ℕ)
names = map λ u. u.username

-- No name stands twice.
abbrev pub Distinct : List (List ℕ) → Type 0
Distinct [] = Unit {0}
Distinct (n ∷ ns) = All (λ m. m ≢ n) ns × Distinct ns

pub record IsValid (env : Env) (s : Server) : Type 0 where
  pub users_in : length s.users ≤ max_clients
  pub users_good : All (IsGoodUser env) s.users
  pub users_distinct : Distinct (names s.users)
  pub clients_in : length s.clients ≡ max_clients
  pub count_in : s.client_count ≤ max_clients
  pub unused : (i : ℕ) → s.client_count ≤ i → (client_at i s).connected ≡ false
  pub slots : (i : ℕ) → IsSlot s.users (client_at i s)
  pub number_in : s.next_message_id < 2 ^ 32
