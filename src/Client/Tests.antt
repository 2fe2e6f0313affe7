-- ===== src/Client/Tests.antt =====
-- Runs of src/user.c, and of src/network.c: each request with the reply of a server that waits on
-- socket 4.
mod Home
mod Keys
mod Sessions
mod Strangers
use c_chat.Prelude.{
  str_eq, if◌then◌else◌, ℕ, ◌≡◌, refl, true, false, some, List, [], ◌∷◌, ◌++◌, pos, negsuc, arith,
}
use c_chat.Server.Types.{
  MessageType, register_user, get_public_key, send_message, register_response, public_key_response,
  message_ack,
}
use c_chat.Server.Io.{Io}
use c_chat.Server.Protocol.Frame.{frame}
use c_chat.Server.Handlers.Account.Register.{name_payload}
use c_chat.Server.Handlers.Account.{register_reply}
use c_chat.Server.Handlers.Relay.Outcome.{message_to}
use c_chat.Client.{Link, success, auth}
use c_chat.Client.Network.{register_user_with_server, get_user_public_key, send_message_to_server}
use c_chat.Client.Network.Requests.{up, Exchanges}
use c_chat.Client.Network.Answers.{
  register_user_with_server-register_reply, get_user_public_key-key, send_message_to_server-ack,
}
use c_chat.Server.Protocol.{validate_username_server}
use c_chat.Client.Users.{choose_password, validate_username}
use c_chat.Client.Users.Password.{entered, confirmed, left_over, choose_password-once}
use c_chat.Client.Users.Names.{answer_of, validate_username-validate_username_server}
use c_chat.Server.Tests.{network, network-IsReliable, bob, body, still}

abbrev pub link : Link
link = record {
  socket = λ n. pos 4;
  inet_pton = λ n. true;
  connect = λ n. true;
  is_broken = λ n. false;
}

abbrev key : List ℕ
key = 5 ∷ 6 ∷ 7 ∷ 8 ∷ []

abbrev replied : MessageType → List ℕ → Io
replied type payload = record still { inbox = λ fd. frame type payload ++ [] }

register_user_with_server-register_reply_example :
    (io' : Io) × (register_user_with_server network link bob key (
        up network link network-IsReliable 4
          (replied register_response (register_reply (negsuc 1))))
      ≡ (auth, up network link network-IsReliable 4 io'))
    × Exchanges network link network-IsReliable 4
        (replied register_response (register_reply (negsuc 1)))
        (frame register_user (name_payload bob key))
        []
        io'
register_user_with_server-register_reply_example =
    register_user_with_server-register_reply network link network-IsReliable 4 []
      (replied register_response (register_reply (negsuc 1))) bob key (negsuc 1) (omega arith) refl
      refl

get_user_public_key-key_example :
    (io' : Io) × (get_user_public_key network link bob
        (up network link network-IsReliable 4 (replied public_key_response (1 ∷ key)))
      ≡ ((success, some key), up network link network-IsReliable 4 io'))
    × Exchanges network link network-IsReliable 4
        (replied public_key_response (1 ∷ key))
        (frame get_public_key (3 ∷ bob))
        []
        io'
get_user_public_key-key_example =
    get_user_public_key-key network link network-IsReliable 4 []
      (replied public_key_response (1 ∷ key)) bob key (omega arith) refl (omega arith) refl

send_message_to_server-ack_example :
    (io' : Io) × (send_message_to_server network link bob body
        (up network link network-IsReliable 4 (replied message_ack (0 ∷ 0 ∷ 0 ∷ 17 ∷ 2 ∷ [])))
      ≡ (success, up network link network-IsReliable 4 io'))
    × Exchanges network link network-IsReliable 4
        (replied message_ack (0 ∷ 0 ∷ 0 ∷ 17 ∷ 2 ∷ []))
        (frame send_message (message_to bob body))
        []
        io'
send_message_to_server-ack_example =
    send_message_to_server-ack network link network-IsReliable 4 []
      (replied message_ack (0 ∷ 0 ∷ 0 ∷ 17 ∷ 2 ∷ [])) bob body 17 2 (omega arith) (omega arith)
      (omega arith) refl

validate_username-validate_username_server_example :
    validate_username bob ≡ answer_of (validate_username_server bob)
validate_username-validate_username_server_example = validate_username-validate_username_server bob

-- `bob`, then a confirmation that does not repeat it, then a second try.
abbrev keyboard : List ℕ
keyboard = bob ++ 10 ∷ body ++ 10 ∷ bob ++ 10 ∷ bob ++ 10 ∷ []

choose_password-once_example : choose_password 3 [] [] keyboard ≡ (
  if str_eq (entered [] [] keyboard) (confirmed [] [] keyboard) then entered [] [] keyboard else [],
  left_over [] [] keyboard,
)
choose_password-once_example = choose_password-once [] [] keyboard 2
