-- ===== src/Client/Tests/Strangers.antt =====
-- A run of src/chat.c against a server at which nobody logged in.
use c_chat.Prelude.{ℕ, ◌≡◌, refl, false, some, List, [], ◌∷◌, ◌++◌, pos, c_str, arith}
use c_chat.Server.Types.{get_public_key, error, logout}
use c_chat.Server.Protocol.Frame.{stream, frame}
use c_chat.Server.State.{Server}
use c_chat.Server.Session.{turn}
use c_chat.Server.Tests.{network, network-IsReliable, ann, bob, body, still, office}
use c_chat.Client.{ClientResult, success}
use c_chat.Client.Terminal.{fgets, typed, before_newline, get_password_input}
use c_chat.Client.Crypto.Storage.{load_keys_from_file}
use c_chat.Client.Crypto.KeyFile.{load_keys_from_file-save_keys_to_file}
use c_chat.Client.Network.Socket.{Offline}
use c_chat.Client.Desk.{Desk}
use c_chat.Client.Users.{validate_username, all_username_chars, is_username_char}
use c_chat.Client.Chat.{start_chat}
use c_chat.Client.Chat.Refusal.{refusal, asks_for, start_chat-turn-not_authenticated}
use c_chat.Client.Tests.{link}
use c_chat.Client.Tests.Home.{
  home, laptop, laptop-IsSound, laptop-IsWorking, nobody, with_stdin, unplugged,
}
use c_chat.Client.Tests.Keys.{pair, start, saved}

-- `ann`, whose keys are saved, types the password; the refusal waits on socket 4.
abbrev refused : Desk
refused = record {
  local = record saved { stdin = body ++ 10 ∷ [] };
  connection = record unplugged { io = record still { inbox = λ fd. frame error refusal ++ [] } };
  current_session = record (with_stdin []).current_session {
    current_user = record nobody { username = ann };
  };
}

-- The server has not logged in the connection at slot 1.
abbrev strange : Server
strange = record (office false) {
  io = record still { inbox = λ fd. frame get_public_key (asks_for bob) ++ [] };
}

abbrev hand : Desk → List ℕ × List ℕ
hand d = get_password_input [] 256 d.local.stdin

loaded :
    (load_keys_from_file laptop ann
      (hand refused).0
      (record refused.local { stdin = (hand refused).1 })).0
    ≡ (success, some pair)
unfolding get_password_input fgets typed before_newline c_str
loaded =
    (load_keys_from_file-save_keys_to_file laptop laptop-IsSound laptop-IsWorking home ann body pair
      refl (omega arith) refl refl start (record refused.local { stdin = [] }) refl).1

bob_valid : validate_username bob ≡ success
unfolding validate_username all_username_chars is_username_char
bob_valid = refl

start_chat-turn-not_authenticated_example :
    (stream (pos 6) (turn network 1 strange).1.io.events ≡ [] ++ frame error refusal)
    × ((last : Desk) × (start_chat network link laptop bob [] refused
          ≡ some (ClientResult.network, last))
        × (stream (pos 4) last.connection.io.events
            ≡ [] ++ (frame get_public_key (asks_for bob) ++ frame logout []))
        × (last.current_session ≡ refused.current_session)
        × Offline last.connection)
start_chat-turn-not_authenticated_example =
    start_chat-turn-not_authenticated network link network-IsReliable 4 bob [] (omega arith) laptop
      [] refused pair (refl, refl, refl) refl refl refl bob_valid refl network network-IsReliable 1
      strange [] loaded refl (omega arith) refl
