-- ===== src/Client/Tests/Sessions.antt =====
-- Runs of src/chat.c, src/interface.c and src/main.c.
use c_chat.Prelude.{
  ℕ, ◌≡◌, ◌≢◌, none, find_index, ◌<◌, ◌^◌, refl, true, false, some, List, [], ◌∷◌, ◌++◌, pos,
  bytes_of, str_eq, take, replicate, arith,
}
use c_chat.Server.Types.{send_message, message_ack, incoming_message}
use c_chat.Server.Io.{Env, IsResponsive, Io, recv, malloc}
use c_chat.Server.Words.{be32, read_be32}
use c_chat.Server.Protocol.Frame.{stream, frame}
use c_chat.Server.State.{Server}
use c_chat.Server.Queue.Payload.{read_incoming}
use c_chat.Server.Handlers.Relay.Outcome.{message_to}
use c_chat.Server.Session.{turn}
use c_chat.Server.Session.Serves.{after_count}
use c_chat.Server.Protocol.{
  receive_network_message, header_message, decode_header, receive_payload, payload_message,
}
use c_chat.Server.Session.Relays.{relayed}
use c_chat.Server.Users.{find_user, find_client_by_username, is_user, is_client}
use c_chat.Server.Tests.{network, network-IsReliable, ann, bob, bob-IsUsername, body, still, office}
use c_chat.Client.{success, invalid_args}
use c_chat.Client.Host.{Local}
use c_chat.Client.Crypto.{init_crypto_library, sealed_message, encrypt_message, decrypt_message}
use c_chat.Client.Desk.{SessionKeys, Desk}
use c_chat.Client.Users.{all_username_chars, is_username_char, validate_username}
use c_chat.Client.Chat.{start_chat}
use c_chat.Client.Chat.Ending.{Leaves, start_chat-Leaves}
use c_chat.Client.Chat.Delivery.{sent, decrypt_message-turn-send_message_secure}
use c_chat.Client.Main.{register, login, main}
use c_chat.Client.Main.Ending.{Outcome, main-Finishes}
use c_chat.Client.Main.Options.{main-validate_username}
use c_chat.Client.Tests.{link}
use c_chat.Client.Tests.Home.{key, laptop, laptop-IsSound, nobody, with_stdin}
use c_chat.Client.Tests.Keys.{later}

abbrev held : ℕ → Desk → List ℕ
held k d = []

-- A password, a message, and the end of the chat.
abbrev chatty : Desk
chatty = record later {
  local = record later.local {
    stdin = body ++ 10 ∷ (bytes_of "hello" ++ 10 ∷ (bytes_of "/exit" ++ 10 ∷ []));
  };
  connection = (with_stdin []).connection;
}

-- A network on which every stream comes to its end.
abbrev brief : Env
brief = record network { silent = λ n fd. false }

brief-IsResponsive : IsResponsive brief
brief-IsResponsive = record { answers = λ n fd. refl }

start_chat-Leaves_example :
    Leaves brief link laptop brief-IsResponsive chatty (start_chat brief link laptop bob [] chatty)
start_chat-Leaves_example =
    start_chat-Leaves brief link laptop brief-IsResponsive bob [] chatty (refl, refl, refl)

main-Finishes_example :
    Outcome brief link laptop brief-IsResponsive held chatty
      (main brief link laptop held (login ann ∷ []) chatty)
main-Finishes_example =
    main-Finishes brief link laptop brief-IsResponsive held (login ann ∷ []) chatty
      (refl, refl, refl)

abbrev long_name : List ℕ
long_name = replicate 40 97

long_name_chars : all_username_chars long_name ≡ true
unfolding all_username_chars is_username_char
long_name_chars = refl

main-validate_username_example :
    (validate_username long_name ≡ invalid_args)
    × (validate_username (take 31 long_name) ≡ success)
    × (main network link laptop held (register long_name ∷ []) chatty
        ≡ main network link laptop held (register (take 31 long_name) ∷ []) chatty)
main-validate_username_example =
    main-validate_username network link laptop held long_name chatty long_name_chars (omega arith)

-- `ann` is in a chat with `bob`, and the acknowledgement of the server waits on socket 4.
abbrev keys : SessionKeys
keys = record { private_key = key; partner_public_key = key; keys_loaded = true }

abbrev in_chat : Desk
in_chat = record (with_stdin []) {
  current_session = record {
    current_user = record nobody { username = ann };
    chat_partner = record nobody { username = bob; public_key = key };
    is_in_chat = true;
  };
}

abbrev acked : Io
acked = record still { inbox = λ fd. frame message_ack (be32 17 ++ 1 ∷ []) ++ [] }

abbrev sealed : List ℕ
sealed = 9 ∷ body

body_sealed : (encrypt_message laptop body key in_chat.local).0 ≡ (success, some sealed)
unfolding encrypt_message init_crypto_library sealed_message
body_sealed = refl

abbrev ready : Local
ready = record in_chat.local { crypto_initialized = true }

abbrev waiting_office : Server
waiting_office = record (office true) {
  io = record still { inbox = λ fd. frame send_message (message_to bob sealed) ++ [] };
}

bob_is_known : find_user bob waiting_office.users ≢ none
unfolding find_user find_index is_user str_eq
bob_is_known = λ e. cc

bob_is_here : find_client_by_username bob waiting_office ≡ some 1
unfolding find_client_by_username is_client find_index str_eq
bob_is_here = refl

at_once : network.time (after_count network 0 waiting_office).io.calls < 2 ^ 32
unfolding receive_network_message header_message decode_header receive_payload recv malloc
    payload_message read_be32
at_once = omega arith

decrypt_message-turn-send_message_secure_example :
    let done =
      sent network link network-IsReliable 4 acked laptop laptop-IsSound
        (omega arith)
        in_chat
        keys
        key
        body
        sealed
        refl
        refl
        body_sealed in
    (done.0 ≡ success)
    × (stream (pos 4) done.1.connection.io.events
        ≡ [] ++ frame send_message (message_to bob sealed))
    × (stream (pos 6) (turn network 0 waiting_office).1.io.events
        ≡ [] ++ frame incoming_message (relayed network 0 sealed waiting_office))
    × ((read_incoming (relayed network 0 sealed waiting_office)).sender ≡ ann)
    × (decrypt_message laptop
          (read_incoming (relayed network 0 sealed waiting_office)).body
          key
          ready
        ≡ ((success, some body), ready))
decrypt_message-turn-send_message_secure_example =
    decrypt_message-turn-send_message_secure network link network-IsReliable 4 acked laptop
      laptop-IsSound (omega arith) in_chat keys key body sealed refl refl body_sealed network
      network-IsReliable 0 1 waiting_office bob-IsUsername bob_is_known bob_is_here (λ e. cc) refl
      (omega arith) (omega arith) (omega arith) at_once [] [] 17 1 refl refl ready refl
