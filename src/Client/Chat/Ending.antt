-- ===== src/Client/Chat/Ending.antt =====
-- src/chat.c, start_chat: how a chat ends.
use c_chat.Prelude.{
  ℕ, suc, ◌≡◌, ◌≢◌, ◌⊎◌, refl, ◌∙◌, true, false, Option, none, some, List, [], length, arith,
  Bool-cases, inl, inr,
}
use mathlib.Core.Path.{subst}
use c_chat.Server.Types.{max_username_len}
use c_chat.Server.Io.{Env, IsResponsive}
use c_chat.Client.{ClientResult, is_success, success, network, invalid_args, Link}
use c_chat.Client.Host.{Host}
use c_chat.Client.Terminal.{safe_strncpy, max_password_len, get_password_input}
use c_chat.Client.Terminal.Input.{Reads, none_read, and_then, get_password_input-Reads}
use c_chat.Client.Crypto.{Keys}
use c_chat.Client.Crypto.Storage.{load_keys_from_file}
use c_chat.Client.Crypto.Stdin.{load_keys_from_file-stdin}
use c_chat.Client.Network.{connect_to_server, get_user_public_key}
use c_chat.Client.Network.Socket.{
  Offline, disconnect_from_server-Offline, connect_to_server-Live, Live, if-false, Same-Live,
  connect_to_server-Offline, get_user_public_key-socket,
}
use c_chat.Client.Desk.{ChatUser, SessionKeys, Desk, on_local, on_connection}
use c_chat.Client.Users.{validate_username}
use c_chat.Client.Chat.Failures.{
  NoneIsError, get_user_public_key-NoneIsError, load_keys_from_file-NoneIsError,
}
use c_chat.Client.Chat.Loop.{chat_loop-Ends}
use c_chat.Client.Chat.{end_chat, chat_with, chat_keys, start_chat}

module _ (env : Env) (link : Link) (host : Host) (responsive : IsResponsive env) where
  -- A chat that is over: what it came to.
  pub record Leaves (d : Desk) (o : Option (ClientResult × Desk)) : Type 0 where
    pub result : ClientResult
    pub last : Desk
    pub ended : o ≡ some (result, last)
    pub offline : Offline last.connection
    pub reads : Reads d.local.stdin last.local.stdin
    -- success is for a chat that ran until it was left or the input ended
    pub over :
        (result ≢ success) ⊎ (last.local.stdin ≡ []) ⊎ (last.current_session.is_in_chat ≡ false)

  chat_with-Leaves :
      (username : List ℕ) (keys : SessionKeys) (found : ClientResult × Option (List ℕ)) (d : Desk)
      → NoneIsError found
      → Live d.connection
      → Leaves d (chat_with env link host username keys found d)
  unfolding chat_with
  chat_with-Leaves username keys (result, none) d bad held = record {
    result = result;
    last = end_chat env link host d;
    ended = refl;
    offline = disconnect_from_server-Offline env link responsive d.connection (inl held);
    reads = none_read d.local.stdin;
    over = inl (bad refl);
  }
  chat_with-Leaves username keys (result, some key) d bad held =
      let partner : ChatUser = record d.current_session.chat_partner {
        username = safe_strncpy d.current_session.chat_partner.username username max_username_len;
        public_key = key;
      } in
      let start : Desk = record d {
        current_session = record d.current_session { chat_partner = partner; is_in_chat = true };
      } in
      let z =
        chat_loop-Ends env link host responsive (suc (length d.local.stdin))
          (record keys { partner_public_key = key }) start (omega arith) held in
      record {
        result = success;
        last = end_chat env link host z.last;
        ended = rw z.result refl;
        offline = disconnect_from_server-Offline env link responsive z.last.connection z.held;
        reads = z.reads;
        over = inr z.over;
      }

  chat_keys-Leaves :
      (username : List ℕ) (loaded : ClientResult × Option Keys) (d : Desk)
      → NoneIsError loaded
      → Offline d.connection
      → Leaves d (chat_keys env link host username loaded d)
  unfolding chat_keys
  chat_keys-Leaves username (result, none) d bad off = record {
    result = result;
    last = d;
    ended = refl;
    offline = off;
    reads = none_read d.local.stdin;
    over = inl (bad refl);
  }
  chat_keys-Leaves username (result, some keys) d bad off =
      let (connected, d₁) = on_connection (connect_to_server env link) d in
      let (found, d₂) = on_connection (get_user_public_key env link username) d₁ in
      let session_keys : SessionKeys = record {
        private_key = keys.private_key;
        partner_public_key = [];
        keys_loaded = true;
      } in
      elim (Bool-cases (is_success connected)) [
        | inl ok ↦
            let held : Live d₂.connection =
              Same-Live d₁.connection d₂.connection
                (get_user_public_key-socket env link responsive username d₁.connection)
                (connect_to_server-Live env link responsive d.connection off ok) in
            let z =
              chat_with-Leaves username session_keys found d₂
                (get_user_public_key-NoneIsError env link username d₁.connection) held in
            record {
              result = z.result;
              last = z.last;
              ended = rw ok (if-false d₂.connection.waits none _ held.1 ∙ z.ended);
              offline = z.offline;
              reads = z.reads;
              over = z.over;
            }
        | inr failed ↦ record {
          result = network;
          last = d₁;
          ended = rw failed refl;
          offline = connect_to_server-Offline env link responsive d.connection off failed;
          reads = none_read d.local.stdin;
          over = inl (λ e. cc);
        }
      ]

  -- When no peer keeps silent, whatever is typed, whatever the server answers and whichever calls
  -- fail, a chat that starts with no connection comes to its end with no connection, and has read
  -- the first of the input. If its result is success, the user left the chat or the input is at its
  -- end.
  pub start_chat-Leaves :
      (username password : List ℕ) (d : Desk)
      → Offline d.connection
      → Leaves d (start_chat env link host username password d)
  unfolding start_chat
  start_chat-Leaves username password d off =
      let (entered, rest) = get_password_input password max_password_len d.local.stdin in
      let d₁ : Desk = record d { local = record d.local { stdin = rest } } in
      let user : List ℕ = d.current_session.current_user.username in
      let (loaded, d₂) = on_local (load_keys_from_file host user entered) d₁ in
      let z =
        chat_keys-Leaves username loaded d₂
          (load_keys_from_file-NoneIsError host user entered d₁.local) off in
      let first = get_password_input-Reads password max_password_len d.local.stdin in
      let same = load_keys_from_file-stdin host user entered d₁.local in
      elim (Bool-cases (is_success (validate_username username))) [
        | inl ok ↦ record {
          result = z.result;
          last = z.last;
          ended = rw ok z.ended;
          offline = z.offline;
          reads = and_then _ _ _ first (subst (λ s. Reads s z.last.local.stdin) same z.reads);
          over = z.over;
        }
        | inr bad ↦ record {
          result = invalid_args;
          last = d;
          ended = rw bad refl;
          offline = off;
          reads = none_read d.local.stdin;
          over = inl (λ e. cc);
        }
      ]
