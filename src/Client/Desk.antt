-- ===== src/Client/Desk.antt =====
-- include/c-chat.h: the records of a chat session. The client's state is the session, the connection
-- to the server, and what is kept on the user's machine.
use c_chat.Prelude.{ℕ, Bool, List}
use c_chat.Server.Io.{State}
use c_chat.Client.Host.{Local}
use c_chat.Client.Network.{Connection}

-- `user_t`
pub record ChatUser : Type 0 where
  pub username : List ℕ
  pub public_key : List ℕ
  pub private_key : List ℕ
  pub is_authenticated : Bool
  pub keys_loaded : Bool

-- `chat_session_t`
pub record ChatSession : Type 0 where
  pub current_user : ChatUser
  pub chat_partner : ChatUser
  pub is_in_chat : Bool

-- `secure_session_keys_t`
pub record SessionKeys : Type 0 where
  pub private_key : List ℕ
  pub partner_public_key : List ℕ
  pub keys_loaded : Bool

pub record Desk : Type 0 where
  pub local : Local
  pub connection : Connection
  pub current_session : ChatSession

abbrev pub on_local : {A : Type 0} → State Local A → State Desk A
on_local m d = let (a, l) = m d.local in (a, record d { local = l })

abbrev pub on_connection : {A : Type 0} → State Connection A → State Desk A
on_connection m d = let (a, c) = m d.connection in (a, record d { connection = c })
