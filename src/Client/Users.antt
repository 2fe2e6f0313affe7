-- ===== src/Client/Users.antt =====
-- src/user.c: registration and login on the client's side, and the test of a name. What is printed is
-- left out.
pub mod Password
pub mod Names
pub mod Accounts
pub mod Offline
pub mod Reader
use c_chat.Prelude.{
  ℕ, zero, suc, ◌+◌, ◌-◌, Bool, true, false, not, ◌&&◌, ◌||◌, Option, none, some, List, [], ◌∷◌,
  length, c_str, str_eq, if◌then◌else◌, leb, ◌==◌,
}
use c_chat.Server.Types.{max_username_len}
use c_chat.Client.{ClientResult, is_success, success, invalid_args, auth, file_io, Link}
use c_chat.Client.Host.{Host, Local, tick, exists}
use c_chat.Client.Terminal.{max_password_len, get_password_input, get_home_directory}
use c_chat.Client.Crypto.{Keys, generate_keypair}
use c_chat.Client.Crypto.Storage.{keys_path, save_keys_to_file, load_keys_from_file}
use c_chat.Client.Network.{connect_to_server, disconnect_from_server, register_user_with_server}
use c_chat.Client.Desk.{Desk, on_local, on_connection}
use c_chat.Server.Io.{Env, State}

-- The `do … while` of `register_user`, from what the two buffers hold: the password, and what is left
-- of the input. One round is one entry of the password and its confirmation.
unfoldable pub choose_password : ℕ → List ℕ → List ℕ → List ℕ → List ℕ × List ℕ
choose_password zero password confirm_password stdin = (password, stdin)
choose_password (suc fuel) password confirm_password stdin =
    let (entered, rest) = get_password_input password max_password_len stdin in
    let (confirmed, rest') = get_password_input confirm_password max_password_len rest in
    let kept : List ℕ = if not (str_eq entered confirmed) then [] else entered in
    let kept' : List ℕ = if not (str_eq entered confirmed) then [] else confirmed in
    let again = choose_password fuel kept kept' rest' in
    if not (str_eq kept kept') then again else (kept, rest')

unfoldable pub is_username_char : ℕ → Bool
is_username_char c =
    (leb b'a' c && leb c b'z')
    || (leb b'A' c && leb c b'Z')
    || (leb b'0' c && leb c b'9')
    || c == b'_'

unfoldable pub all_username_chars : List ℕ → Bool
all_username_chars [] = true
all_username_chars (c ∷ cs) = is_username_char c && all_username_chars cs

unfoldable pub validate_username : List ℕ → ClientResult
validate_username username =
    if length username == 0 || leb max_username_len (length username)
    then invalid_args
    else if all_username_chars username
    then success
    else invalid_args

-- Demonstration data is printed.
unfoldable pub list_users : State Desk ClientResult
list_users d = (success, d)

module _ (env : Env) (link : Link) (host : Host) where
  -- The part of `register_user` that talks to the server; how it goes is only printed. If the server
  -- keeps silent, neither this nor its callers return, and the connection has `waits` set.
  unfoldable pub register_online : List ℕ → List ℕ → Desk → Desk
  register_online username public_key d =
      let (connected, d₁) = on_connection (connect_to_server env link) d in
      if is_success connected
      then (let d₂ =
            (on_connection (register_user_with_server env link username public_key) d₁).1 in
          if d₂.connection.waits
          then d₂
          else (on_connection (disconnect_from_server env link) d₂).1)
      else d₁

  -- What follows the key pair: the password is chosen from the input, starting with what the two
  -- buffers hold; the keys are saved; then the server is told.
  unfoldable pub register_keys :
      List ℕ → List ℕ → List ℕ → ℕ → ClientResult × Option Keys → State Desk ClientResult
  unfolding register_online
  register_keys username password confirm_password fuel (result, none) d = (result, d)
  register_keys username password confirm_password fuel (result, some keys) d =
      let (chosen, rest) = choose_password fuel password confirm_password d.local.stdin in
      let d₁ : Desk = record d { local = record d.local { stdin = rest } } in
      let (saved, d₂) = on_local (save_keys_to_file host username keys chosen) d₁ in
      if is_success saved
      then (success, register_online username keys.public_key d₂)
      else (saved, d₂)

  -- What follows `get_home_directory`: a user whose key file is there is not registered again.
  unfoldable pub register_at :
      Option (List ℕ) → List ℕ → List ℕ → List ℕ → ℕ → State Desk ClientResult
  unfolding register_keys
  register_at none username password confirm_password fuel d = (file_io, d)
  register_at (some home) username password confirm_password fuel d =
      if leb host.path_max (length (keys_path home username))
      then (file_io, d)
      else if exists (keys_path home username) d.local
      then (auth, d)
      else let (made, d₁) = on_local (generate_keypair host) d in
        register_keys username password confirm_password fuel made d₁

  unfoldable pub register_user : List ℕ → List ℕ → List ℕ → ℕ → State Desk ClientResult
  unfolding register_at
  register_user username password confirm_password fuel d =
      let (home, d₁) = on_local (get_home_directory host) d in
      register_at home username password confirm_password fuel d₁

-- `password` is what the buffer holds before. The keys are loaded and forgotten.
unfoldable pub login_user : Host → List ℕ → List ℕ → State Desk ClientResult
login_user host username password d =
    let (entered, rest) = get_password_input password max_password_len d.local.stdin in
    let d₁ : Desk = record d { local = record d.local { stdin = rest } } in
    let ((result, keys), d₂) = on_local (load_keys_from_file host username entered) d₁ in
    (result, d₂)
