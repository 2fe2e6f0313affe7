-- ===== src/Client.antt =====
-- The client, src/ and include/: its results and what it asks of the operating system beyond what
-- the server does.
pub mod Host
pub mod Terminal
pub mod Crypto
pub mod Network
pub mod Desk
pub mod Users
pub mod Chat
pub mod Interface
pub mod Main
mod Tests
use c_chat.Prelude.{ℕ, Bool, true, false, ℤ}

-- `cchat_error_t` of include/c-chat.h.
pub data ClientResult : Type 0 where
  success invalid_args network crypto auth user_not_found memory : ClientResult
  file_io key_generation encryption decryption key_derivation permission_denied : ClientResult

abbrev pub is_success : ClientResult → Bool
is_success success = true
is_success other = false

-- What the calls of `connect_to_server` answer, and whether `errno` is EPIPE or ECONNRESET after a
-- failed `send`, by the number of calls before.
pub record Link : Type 0 where
  pub socket : ℕ → ℤ
  pub inet_pton : ℕ → Bool
  pub connect : ℕ → Bool
  pub is_broken : ℕ → Bool
