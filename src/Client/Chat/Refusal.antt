-- ===== src/Client/Chat/Refusal.antt =====
-- src/chat.c and server/src/client_handler.c together: the first request of a chat, over a connection
-- that was opened for it.
use c_chat.Prelude.{
  ℕ, suc, ◌+◌, ◌*◌, ◌≤◌, ◌<◌, ◌≡◌, refl, ap, ◌∙◌, true, false, Option, none, some, List, ◌∷◌, ◌++◌,
  ℤ, pos, [], length, leb, bytes_of, arith,
}
use mathlib.Core.List.{append_assoc}
use c_chat.Server.Types.{
  logout, max_username_len, max_message_len, rate_limit_max_requests, get_public_key, error,
  auth_failed, error_code, NetworkMessage, ClientConnection,
}
use c_chat.Server.Io.{Env, IsReliable, Io, malloc}
use c_chat.Server.Words.{be16}
use c_chat.Server.Protocol.{send_error}
use c_chat.Server.Protocol.Frame.{stream, frame, sends_frame}
use c_chat.Server.State.{Server, client_at}
use c_chat.Server.Session.{is_type, turn}
use c_chat.Server.Session.Guard.{not_authenticated, dispatch-not_authenticated}
use c_chat.Server.Session.Serves.{after_count, after_count-same, after_count-events, turn-dispatch}
use c_chat.Client.{ClientResult, success, Link}
use c_chat.Client.Host.{Host, Local}
use c_chat.Client.Terminal.{max_password_len, get_password_input}
use c_chat.Client.Crypto.{Keys}
use c_chat.Client.Crypto.Storage.{load_keys_from_file}
use c_chat.Client.Network.{connect_to_server, key_result, get_user_public_key}
use c_chat.Client.Network.Requests.{up, Exchanges, ask-up}
use c_chat.Client.Network.Socket.{Offline}
use c_chat.Client.Network.Farewell.{connect_to_server-up, disconnect_from_server-up}
use c_chat.Client.Desk.{Desk}
use c_chat.Client.Users.{validate_username}
use c_chat.Client.Chat.{end_chat, chat_with, chat_keys, start_chat}

-- What the server says to a request that needs a login.
abbrev pub refusal : List ℕ
refusal =
    let text = bytes_of "Not authenticated" in error_code auth_failed ∷ (be16 (length text) ++ text)

-- The payload of a request for a key.
abbrev pub asks_for : List ℕ → List ℕ
asks_for name = length name ∷ name

module _ (env : Env) (works : IsReliable env) (i : ℕ) (s : Server) (name rest : List ℕ)
    (short : length name < max_username_len) (stranger : (client_at i s).authenticated ≡ false)
    (allowed : (client_at i s).rate_limit.request_count < rate_limit_max_requests)
    (arrives : s.io.inbox (client_at i s).socket_fd
      ≡ frame get_public_key (asks_for name) ++ rest) where
  abbrev counted : Server
  counted = after_count env i s

  abbrev fd : ℤ
  fd = (client_at i s).socket_fd

  refuses : stream fd (turn env i s).1.io.events ≡ stream fd s.io.events ++ frame error refusal
  unfolding send_error malloc is_type
  refuses =
      let request : NetworkMessage = record { type = 0x03; payload = asks_for name } in
      let small : length (asks_for name) ≤ max_message_len * 2 = omega (arith, short) in
      let still_out : (client_at i counted).authenticated ≡ false =
        after_count-same env i s (λ (c : ClientConnection). c.authenticated) (λ c r. refl) i
        ∙ stranger in
      let socket : (client_at i counted).socket_fd ≡ fd =
        after_count-same env i s (λ (c : ClientConnection). c.socket_fd) (λ c r. refl) i in
      let turned : turn env i s ≡ (true, not_authenticated env i request counted) =
        turn-dispatch env works i s get_public_key (asks_for name) rest small allowed arrives
        ∙ ap (λ t. (true, t)) (dispatch-not_authenticated env i request counted still_out refl) in
      let io₁ : Io = record counted.io { calls = suc counted.io.calls } in
      let (_, out) = sends_frame env fd works error refusal io₁ in
      let sent : stream fd (send_error env fd auth_failed "Not authenticated" counted.io).1.events
          ≡ stream fd counted.io.events ++ frame error refusal =
        rw (works.allocates counted.io.calls (3 + length (bytes_of "Not authenticated"))) out in
      rw turned (
        ap (λ g. stream fd (send_error env g auth_failed "Not authenticated" counted.io).1.events)
          socket
        ∙ sent
        ∙ ap (λ events. stream fd events ++ frame error refusal) (after_count-events env i s))

module _ (network : Env) (link : Link) (reliable : IsReliable network) (n : ℕ)
    (name waiting : List ℕ) (short : length name < max_username_len) where
  -- A request for a key, and the refusal for an answer.
  get_user_public_key-refused :
      (io : Io)
      → io.inbox (pos n) ≡ frame error refusal ++ waiting
      → (io' : Io) × (get_user_public_key network link name (up network link reliable n io)
          ≡ ((ClientResult.network, none), up network link reliable n io'))
        × Exchanges network link reliable n io (frame get_public_key (asks_for name)) waiting io'
  unfolding get_user_public_key key_result
  get_user_public_key-refused io waits =
      let fits : leb max_username_len (length name) ≡ false = ground arith in
      let (io', asked, done) =
        ask-up network link reliable n 0x03 (asks_for name) error refusal waiting io (omega arith)
          waits in
      (io', rw (fits, asked) refl, done)

  module _ (host : Host) (password : List ℕ) (d : Desk) (keys : Keys) (off : Offline d.connection)
      (opens : link.socket d.connection.io.calls ≡ pos n)
      (parsed : link.inet_pton d.connection.io.calls ≡ true)
      (connects : link.connect d.connection.io.calls ≡ true)
      (good : validate_username name ≡ success)
      (waits : d.connection.io.inbox (pos n) ≡ frame error refusal ++ waiting) where
    abbrev entered : List ℕ × List ℕ
    entered = get_password_input password max_password_len d.local.stdin

    abbrev at_hand : Local
    at_hand = record d.local { stdin = entered.1 }

    abbrev opened : Io
    opened = record d.connection.io { calls = suc d.connection.io.calls }

    connected :
        connect_to_server network link d.connection ≡ (success, up network link reliable n opened)
    connected = connect_to_server-up network link reliable n d.connection off opens parsed connects

    -- The chat is over before it began: the request and the farewell went out, the session is what it
    -- was, and the client is offline.
    abbrev pub Refused : Option (ClientResult × Desk) → Type 0
    Refused result =
        (last : Desk) × (result ≡ some (ClientResult.network, last))
        × (stream (pos n) last.connection.io.events
            ≡ stream (pos n) d.connection.io.events
              ++ (frame get_public_key (asks_for name) ++ frame logout []))
        × (last.current_session ≡ d.current_session)
        × Offline last.connection

    refused_end : Desk → Desk
    refused_end e = end_chat network link host (record e {
      connection = up network link reliable n (get_user_public_key-refused opened waits).0;
    })

    chat_keys-refused :
        (e : Desk)
        → e.connection ≡ d.connection
        → chat_keys network link host name (success, some keys) e
          ≡ some (ClientResult.network, refused_end e)
    unfolding chat_keys chat_with refused_end
    chat_keys-refused e same =
        let (io', refused, _) = get_user_public_key-refused opened waits in
        rw (same, connected, refused) refl

    refused_end-Refused :
        (e : Desk)
        → e.current_session ≡ d.current_session
        → Refused (some (ClientResult.network, refused_end e))
    unfolding refused_end
    refused_end-Refused e same =
        let (io', _, (out, _)) = get_user_public_key-refused opened waits in
        let (gone, offline) = disconnect_from_server-up network link reliable n io' in
        (
          refused_end e,
          refl,
          gone
              ∙ ap (λ bytes. bytes ++ frame logout []) out
              ∙ append_assoc (stream (pos n) d.connection.io.events)
                  (frame get_public_key (asks_for name)) (frame logout []),
          same,
          offline,
        )

    start_chat-Refused :
        (load_keys_from_file host d.current_session.current_user.username entered.0 at_hand).0
          ≡ (success, some keys)
        → Refused (start_chat network link host name password d)
    unfolding start_chat
    start_chat-Refused loaded =
        let e : Desk = record d {
          local =
              (load_keys_from_file host d.current_session.current_user.username entered.0
                at_hand).1;
        } in
        rw (good, loaded, chat_keys-refused e refl) (refused_end-Refused e refl)

    -- `start_chat` opens a connection of its own, and no code of the client logs in over one. On working
    -- networks, when the socket can be opened and connected, the name is valid and the keys are loaded:
    -- the turn of the server that receives the request for the partner's key, over a connection that is not
    -- logged in and not over its limit, answers with the refusal; and with the refusal for an answer,
    -- the chat sends that request and the farewell and no more, leaves the session as it was and the
    -- client offline, and its result is a network error.
    pub start_chat-turn-not_authenticated :
        (env : Env) (works : IsReliable env) (i : ℕ) (s : Server) (rest : List ℕ)
        → (load_keys_from_file host d.current_session.current_user.username entered.0 at_hand).0
          ≡ (success, some keys)
        → (client_at i s).authenticated ≡ false
        → (client_at i s).rate_limit.request_count < rate_limit_max_requests
        → s.io.inbox (client_at i s).socket_fd ≡ frame get_public_key (asks_for name) ++ rest
        → (stream (client_at i s).socket_fd (turn env i s).1.io.events
            ≡ stream (client_at i s).socket_fd s.io.events ++ frame error refusal)
          × Refused (start_chat network link host name password d)
    start_chat-turn-not_authenticated env works i s rest loaded stranger allowed arrives =
        (refuses env works i s name rest short stranger allowed arrives, start_chat-Refused loaded)
