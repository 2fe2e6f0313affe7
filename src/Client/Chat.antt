-- ===== src/Client/Chat.antt =====
-- src/chat.c: a chat with another user, and the messages that are sent in it. What is printed and the
-- clearing of memory are left out.
pub mod Loop
pub mod Failures
pub mod Ending
pub mod Receiving
pub mod Delivery
pub mod Refusal
use c_chat.Prelude.{
  ℕ, zero, suc, ◌+◌, ◌-◌, Bool, true, false, not, ◌||◌, Option, none, some, List, [], ◌∷◌, length,
  bytes_of, c_str, str_eq, if◌then◌else◌, ltb, ◌==◌,
}
use mathlib.Core.Option
use c_chat.Server.Types.{max_username_len, max_message_len}
use c_chat.Server.Io.{Env, State}
use c_chat.Client.{
  ClientResult, is_success, success, network, invalid_args, crypto, encryption, Link,
}
use c_chat.Client.Host.{Host, Local}
use c_chat.Client.Terminal.{
  max_password_len, fgets, before_newline, get_password_input, safe_strncpy,
}
use c_chat.Client.Crypto.{Keys, encrypt_message, decrypt_message}
use c_chat.Client.Crypto.Storage.{load_keys_from_file}
use c_chat.Client.Network.{
  connect_to_server, disconnect_from_server, get_user_public_key, send_message_to_server,
}
use c_chat.Client.Desk.{ChatUser, ChatSession, SessionKeys, Desk, on_local, on_connection}
use c_chat.Client.Users.{validate_username}

-- The wrappers that are kept for old callers.
unfoldable pub send_message : List ℕ → ClientResult
send_message message = crypto

unfoldable pub receive_messages : ClientResult
receive_messages = crypto

module _ (host : Host) where
  -- What follows the seal of the demonstration message in `receive_messages_secure`.
  unfoldable pub received : List ℕ → ClientResult × Option (List ℕ) → State Local ClientResult
  received private_key (result, none) l = (encryption, l)
  received private_key (result, some encrypted) l =
      let ((opened, message), l₁) = decrypt_message host encrypted private_key l in (opened, l₁)

  unfoldable pub receive_messages_secure : SessionKeys → State Local ClientResult
  unfolding received
  receive_messages_secure keys l =
      if not keys.keys_loaded
      then (crypto, l)
      else let our_public : List ℕ = host.scalarmult_base keys.private_key in
        let (sealed, l₁) =
          encrypt_message host (bytes_of "Hello from the other side!") our_public l in
        received keys.private_key sealed l₁

module _ (env : Env) (link : Link) (host : Host) where
  -- What follows the seal in `send_message_secure`. Whether the server delivers is only printed.
  unfoldable pub sent_sealed : ClientResult × Option (List ℕ) → State Desk ClientResult
  sent_sealed (result, none) d = (result, d)
  sent_sealed (result, some encrypted) d =
      let partner : List ℕ = d.current_session.chat_partner.username in
      (success, (on_connection (send_message_to_server env link partner encrypted) d).1)

  unfoldable pub send_message_secure : List ℕ → SessionKeys → State Desk ClientResult
  unfolding sent_sealed
  send_message_secure message keys d =
      if length message == 0
      then (invalid_args, d)
      else if not keys.keys_loaded
      then (crypto, d)
      else let (sealed, d₁) = on_local (encrypt_message host message keys.partner_public_key) d in
        sent_sealed sealed d₁

  abbrev pub end_chat : Desk → Desk
  end_chat d = (on_connection (disconnect_from_server env link) d).1

  abbrev pub set_in_chat : Bool → Desk → Desk
  set_in_chat b d = record d { current_session = record d.current_session { is_in_chat = b } }

  -- A round of the chat loop, by what `fgets` read: whether the loop goes on. A failed message is only
  -- reported.
  unfoldable pub chat_round : SessionKeys → List ℕ → State Desk Bool
  chat_round keys [] d = (false, d)
  chat_round keys (c ∷ line) d =
      let message : List ℕ = c_str (before_newline (c ∷ line)) in
      if str_eq message (bytes_of "/exit")
      then (false, end_chat (set_in_chat false d))
      else if ltb 0 (length message)
      then (true, (send_message_secure message keys d).1)
      else (true, d)

  -- The chat loop; `none` if there were not rounds enough, or a message waits for its reply and no
  -- reply comes.
  unfoldable pub chat_loop : ℕ → SessionKeys → Desk → Option Desk
  chat_loop zero keys d = none
  chat_loop (suc fuel) keys d =
      let (line, rest) = fgets (max_message_len - 1) d.local.stdin in
      let (goes_on, d₁) =
        chat_round keys line (record d { local = record d.local { stdin = rest } }) in
      let rest_of_it = chat_loop fuel keys d₁ in
      if not d.current_session.is_in_chat
      then some d
      else if not goes_on
      then some d₁
      else if d₁.connection.waits
      then none
      else rest_of_it

  -- What follows `get_user_public_key` in `start_chat`: the session, the loop and its end.
  unfoldable pub chat_with :
      List ℕ → SessionKeys → ClientResult × Option (List ℕ) → Desk → Option (ClientResult × Desk)
  unfolding chat_loop
  chat_with username keys (result, none) d = some (result, end_chat d)
  chat_with username keys (result, some partner_public_key) d =
      let partner : ChatUser = record d.current_session.chat_partner {
        username = safe_strncpy d.current_session.chat_partner.username username max_username_len;
        public_key = partner_public_key;
      } in
      let d₁ : Desk = record d {
        current_session = record d.current_session { chat_partner = partner; is_in_chat = true };
      } in
      Option.map (λ e. (success, end_chat e))
        (chat_loop (suc (length d.local.stdin))
          (record keys { partner_public_key = partner_public_key }) d₁)

  -- What follows `load_keys_from_file` in `start_chat`; `none` if it does not return.
  unfoldable pub chat_keys :
      List ℕ → ClientResult × Option Keys → Desk → Option (ClientResult × Desk)
  unfolding chat_with
  chat_keys username (result, none) d = some (result, d)
  chat_keys username (result, some keys) d =
      let (connected, d₁) = on_connection (connect_to_server env link) d in
      let (found, d₂) = on_connection (get_user_public_key env link username) d₁ in
      let session_keys : SessionKeys = record {
        private_key = keys.private_key;
        partner_public_key = [];
        keys_loaded = true;
      } in
      if not (is_success connected)
      then some (network, d₁)
      else if d₂.connection.waits
      then none
      else chat_with username session_keys found d₂

  -- `password` is what the buffer holds before.
  unfoldable pub start_chat : List ℕ → List ℕ → Desk → Option (ClientResult × Desk)
  unfolding chat_keys
  start_chat username password d =
      let (entered, rest) = get_password_input password max_password_len d.local.stdin in
      let d₁ : Desk = record d { local = record d.local { stdin = rest } } in
      let (loaded, d₂) =
        on_local (load_keys_from_file host d.current_session.current_user.username entered) d₁ in
      if is_success (validate_username username)
      then chat_keys username loaded d₂
      else some (invalid_args, d)
