-- ===== src/Server/Handlers/Account.antt =====
-- server/src/message_handlers.c: registration, login, public keys, logout.
pub mod Register
use c_chat.Prelude.{
  ℕ, zero, suc, ◌+◌, Bool, false, not, ◌||◌, Option, none, some, List, [], ◌∷◌, ℤ, pos, negsuc,
  is_neg, length, get_or, take, drop, slice, c_str, if◌then◌else◌, ltb, leb, ◌==◌,
}
use c_chat.Server.Types.{
  max_username_len, challenge_size, register_response, login_response, public_key_response,
  error_code, invalid_format, invalid_username, user_exists, server_error,
}
use c_chat.Server.Io.{Env, State}
use c_chat.Server.Protocol.{validate_username_server}
use c_chat.Server.State.{Server, client_at, set_client}
use c_chat.Server.Users.{find_user, add_user, authenticate_user, user_at}
use c_chat.Server.Delivery.{deliver_queued_messages}
use c_chat.Server.Handlers.{respond, refuse}

-- The second test of the handlers: a name of 1 to 31 bytes, with `more` bytes behind it.
unfoldable pub bad_name : List ℕ → ℕ → Bool
bad_name payload more =
    get_or payload 0 0 == 0
    || leb max_username_len (get_or payload 0 0)
    || ltb (length payload) (1 + get_or payload 0 0 + more)

-- The buffer that the name is copied to, with a terminator behind it.
unfoldable pub read_name : List ℕ → List ℕ
read_name payload = c_str (slice payload 1 (get_or payload 0 0))

-- `&payload[1 + username_len]`
unfoldable pub behind_name : List ℕ → List ℕ
behind_name payload = drop (1 + get_or payload 0 0) payload

-- The two bytes of the answer to each result of `add_user`.
unfoldable pub register_reply : ℤ → List ℕ
register_reply (pos zero) = 1 ∷ 0 ∷ []
register_reply (pos (suc n)) = 0 ∷ error_code server_error ∷ []
register_reply (negsuc zero) = 0 ∷ error_code server_error ∷ []
register_reply (negsuc (suc zero)) = 0 ∷ error_code user_exists ∷ []
register_reply (negsuc (suc (suc n))) = 0 ∷ error_code server_error ∷ []

module _ (env : Env) (i : ℕ) where
  unfoldable pub handle_register_user : List ℕ → State Server ℤ
  handle_register_user payload s =
      if ltb (length payload) (1 + env.public_key_size)
      then refuse env i invalid_format "Invalid registration data" s
      else if bad_name payload env.public_key_size
      then refuse env i invalid_format "Invalid username length" s
      else if is_neg (validate_username_server (read_name payload))
      then refuse env i invalid_username "Invalid username format" s
      else let (result, s₁) = add_user env (read_name payload) (behind_name payload) s in
        respond env i register_response (register_reply result) s₁

  -- What follows `authenticate_user`: only on its result 0 is the challenge sent.
  unfoldable pub login_reply : ℤ → State Server ℤ
  login_reply result s =
      if is_neg result
      then respond env i login_response (0 ∷ []) s
      else respond env i login_response (1 ∷ take challenge_size (client_at i s).challenge)
          (deliver_queued_messages env i s).1

  unfoldable pub handle_login_user : List ℕ → State Server ℤ
  handle_login_user payload s =
      if ltb (length payload) (1 + env.signature_size)
      then refuse env i invalid_format "Invalid login data" s
      else if bad_name payload env.signature_size
      then refuse env i invalid_format "Invalid username length" s
      else let (result, s₁) = authenticate_user env i (read_name payload) (behind_name payload) s in
        login_reply result s₁

  unfoldable pub public_key_reply : Option ℕ → Server → List ℕ
  public_key_reply none s = 0 ∷ []
  public_key_reply (some u) s = 1 ∷ take env.public_key_size (user_at u s).public_key

  unfoldable pub handle_get_public_key : List ℕ → State Server ℤ
  unfolding public_key_reply
  handle_get_public_key payload s =
      if ltb (length payload) 1
      then refuse env i invalid_format "Invalid public key request" s
      else if bad_name payload 0
      then refuse env i invalid_format "Invalid username length" s
      else respond env i public_key_response
          (public_key_reply (find_user (read_name payload) s.users) s) s

unfoldable pub handle_logout : ℕ → State Server ℤ
handle_logout i s = (pos 0, set_client i (record (client_at i s) { connected = false }) s)
