-- ===== src/Server/Tests/Accounts.antt =====
-- Runs of server/src/user_management.c, and of the handlers of accounts and of the end of a session.
use c_chat.Prelude.{
  pos, ◌∷◌, [], All, ℕ, ◌≡◌, refl, true, false, none, List, arith, bytes_of, str_eq, find_index,
  ◌++◌,
}
use c_chat.Server.Types.{
  register_response, public_key_response, NetworkMessage, online, status_update, register_user,
}
use c_chat.Server.Protocol.Username.{IsUsername}
use c_chat.Server.State.{Server}
use c_chat.Server.Users.{find_user, is_user, add_user, authenticate_user, broadcast_status_update}
use c_chat.Server.Users.Registry.{AddUser, add_user-AddUser}
use c_chat.Server.Users.Login.{Authenticates, authenticate_user-Authenticates}
use c_chat.Server.Handlers.{respond}
use c_chat.Server.Handlers.Account.{handle_register_user, handle_get_public_key}
use c_chat.Server.Handlers.Account.Register.{
  name_payload, handle_get_public_key-handle_register_user,
}
use c_chat.Server.Session.{is_type, dispatch, teardown, turn}
use c_chat.Server.Session.Guard.{needs_login, not_authenticated, dispatch-not_authenticated}
use c_chat.Server.Session.Teardown.{Freed, teardown-Freed}
use c_chat.Server.Protocol.Frame.{stream, frame}
use c_chat.Server.Valid.{IsGoodUser}
use c_chat.Server.Users.Broadcast.{notices, broadcast_status_update-stream}
use c_chat.Server.Handlers.Presence.{user_list}
use c_chat.Server.Handlers.Presence.Listing.{read_list, read_list-user_list}
use c_chat.Server.Session.Registers.{Registers, turn-Registers}
use c_chat.Server.Tests.{
  ann, network-IsReliable, ann-IsUsername, bob-IsUsername, network, bob, office, still,
}

abbrev eve : List ℕ
eve = bytes_of "eve"

abbrev key : List ℕ
key = 5 ∷ 6 ∷ 7 ∷ 8 ∷ []

eve-IsUsername : IsUsername eve
eve-IsUsername = omega arith

eve_new : find_user eve (office true).users ≡ none
unfolding find_user find_index is_user str_eq
eve_new = refl

add_user-AddUser_example :
    AddUser network eve key (office true) (add_user network eve key (office true))
add_user-AddUser_example = add_user-AddUser network eve key (office true)

authenticate_user-Authenticates_example :
    Authenticates network 1 bob
      (1 ∷ 2 ∷ [])
      (office false)
      (authenticate_user network 1 bob (1 ∷ 2 ∷ []) (office false))
authenticate_user-Authenticates_example =
    authenticate_user-Authenticates network 1 bob (1 ∷ 2 ∷ []) (office false) (omega arith)

-- Slot 1 registers `eve`, and slot 0 asks for her key.
abbrev enrolled : Server
enrolled = (handle_register_user network 1 (name_payload eve key) (office false)).1

handle_get_public_key-handle_register_user_example :
    (handle_register_user network 1 (name_payload eve key) (office false)
      ≡ respond network 1 register_response
          (1 ∷ 0 ∷ [])
          (add_user network eve key (office false)).1)
    × (handle_get_public_key network 0 (name_payload eve []) enrolled
        ≡ respond network 0 public_key_response (1 ∷ 5 ∷ 6 ∷ 7 ∷ 8 ∷ []) enrolled)
handle_get_public_key-handle_register_user_example =
    handle_get_public_key-handle_register_user network eve key (office false) eve-IsUsername refl
      eve_new (omega arith) 1 0

-- Slot 1, which is not logged in, asks for the users.
abbrev request : NetworkMessage
request = record { type = 7; payload = [] }

request-needs_login : needs_login request ≡ true
unfolding is_type
request-needs_login = refl

dispatch-not_authenticated_example :
    dispatch network 1 request (office false) ≡ not_authenticated network 1 request (office false)
dispatch-not_authenticated_example =
    dispatch-not_authenticated network 1 request (office false) refl request-needs_login

teardown-Freed_example : Freed network 0 (office true) (teardown network 0 (office true))
teardown-Freed_example = teardown-Freed network 0 (office true) (omega arith)

-- `bob`, at socket 6, is told that `ann` is online.
broadcast_status_update-stream_example :
    stream (pos 6) (broadcast_status_update network ann online (office true)).io.events
    ≡ notices ann (frame status_update (3 ∷ (ann ++ 1 ∷ []))) (pos 6) (office true).clients
broadcast_status_update-stream_example =
    broadcast_status_update-stream network network-IsReliable ann (pos 6) online (office true)
      (omega arith)

users-IsGoodUser : All (IsGoodUser network) (office true).users
users-IsGoodUser = (
  record { name = ann-IsUsername; registered = refl; key = refl },
  (record { name = bob-IsUsername; registered = refl; key = refl }, tt),
)

read_list-user_list_example : read_list (user_list (office true).users) ≡ (ann, 0) ∷ (bob, 0) ∷ []
read_list-user_list_example =
    read_list-user_list network (office true).users users-IsGoodUser (omega arith)

-- The registration of `eve` arrives at slot 1, and two bytes of the next request.
abbrev eve_arrives : Server
eve_arrives = record (office false) {
  io = record still { inbox = λ fd. frame register_user (name_payload eve key) ++ 0 ∷ 0 ∷ [] };
}

turn-Registers_example :
    Registers network network-IsReliable 1 eve key
      (0 ∷ 0 ∷ [])
      eve_arrives
      eve-IsUsername
      refl
      (omega arith)
      (omega arith)
      (omega arith)
      refl
      (turn network 1 eve_arrives)
turn-Registers_example =
    turn-Registers network network-IsReliable 1 eve key (0 ∷ 0 ∷ []) eve_arrives eve-IsUsername refl
      (omega arith) (omega arith) (omega arith) refl
