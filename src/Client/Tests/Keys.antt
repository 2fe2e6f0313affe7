-- ===== src/Client/Tests/Keys.antt =====
-- Runs of src/crypto.c and src/user.c.
use c_chat.Prelude.{ℕ, pos, ◌≡◌, refl, true, some, List, [], ◌∷◌, ◌++◌, str_eq, c_str, arith}
use c_chat.Server.Tests.{network, network-IsReliable, body, ann, still}
use c_chat.Client.{success, auth}
use c_chat.Client.Host.{Host, Local, tick}
use c_chat.Client.Terminal.{max_password_len, get_password_input, fgets, typed, before_newline}
use c_chat.Client.Crypto.{
  Keys, generate_keypair, made_keypair, init_crypto_library, sealed_message, encrypt_message,
  decrypt_message,
}
use c_chat.Client.Crypto.Storage.{save_keys_to_file, load_keys_from_file}
use c_chat.Client.Crypto.Messages.{
  Encrypts, encrypt_message-Encrypts, decrypt_message-encrypt_message,
}
use c_chat.Client.Crypto.KeyFile.{load_keys_from_file-save_keys_to_file}
use c_chat.Client.Crypto.Saving.{Outcome, save_keys_to_file-Outcome}
use c_chat.Client.Desk.{Desk}
use c_chat.Client.Users.{choose_password, register_user, login_user}
use c_chat.Client.Users.Accounts.{register_user-register_user}
use c_chat.Client.Users.Reader.{decrypt_message-register_user}
use c_chat.Client.Tests.{link}
use c_chat.Client.Tests.Home.{
  home, key, laptop, laptop-IsSound, laptop-IsWorking, with_stdin, unplugged,
}
use c_chat.Server.Types.{logout, register_response}
use c_chat.Server.Types
use c_chat.Server.Protocol.Frame.{stream, frame}
use c_chat.Server.Handlers.Account.{register_reply}
use c_chat.Server.Handlers.Account.Register.{name_payload}

abbrev pub start : Local
start = (with_stdin []).local

abbrev sealed : List ℕ
sealed = 9 ∷ body

body_sealed : (encrypt_message laptop body key start).0 ≡ (success, some sealed)
unfolding encrypt_message init_crypto_library sealed_message
body_sealed = refl

encrypt_message-Encrypts_example : Encrypts laptop body key start sealed
encrypt_message-Encrypts_example =
    encrypt_message-Encrypts laptop laptop-IsSound body key start sealed body_sealed

abbrev ready : Local
ready = record start { crypto_initialized = true }

decrypt_message-encrypt_message_example :
    decrypt_message laptop sealed key ready ≡ ((success, some body), ready)
decrypt_message-encrypt_message_example =
    decrypt_message-encrypt_message laptop laptop-IsSound body key start ready sealed body_sealed
      refl

abbrev pub pair : Keys
pair = record { public_key = key; private_key = key }

abbrev pub saved : Local
saved = (save_keys_to_file laptop ann pair body start).1

load_keys_from_file-save_keys_to_file_example :
    ((save_keys_to_file laptop ann pair body start).0 ≡ success)
    × ((load_keys_from_file laptop ann body saved).0 ≡ (success, some pair))
load_keys_from_file-save_keys_to_file_example =
    load_keys_from_file-save_keys_to_file laptop laptop-IsSound laptop-IsWorking home ann body pair
      refl (omega arith) refl refl start saved refl

-- No byte can be written.
abbrev full_disk : Host
full_disk = record laptop { writes = λ n len. 0 }

save_keys_to_file-Outcome_example :
    Outcome full_disk home ann body pair start (save_keys_to_file full_disk ann pair body start)
save_keys_to_file-Outcome_example =
    save_keys_to_file-Outcome full_disk home ann body pair refl start

-- The password is typed twice to register, and once to log in. The server's answer waits.
abbrev typist : Desk
typist = record (with_stdin (body ++ 10 ∷ (body ++ 10 ∷ []))) {
  connection = record unplugged {
    io = record still { inbox = λ fd. frame register_response (register_reply (pos 0)) ++ [] };
  };
}

abbrev done : Desk
done = (register_user network link laptop ann [] [] 1 typist).1

abbrev pub later : Desk
later = record done { local = record done.local { stdin = body ++ 10 ∷ [] } }

same_password :
    (get_password_input [] max_password_len later.local.stdin).0
    ≡ (choose_password 1 [] [] typist.local.stdin).0
unfolding choose_password get_password_input fgets typed before_newline str_eq c_str
same_password = refl

pair_drawn : (generate_keypair laptop (tick typist.local)).0 ≡ (success, some pair)
unfolding generate_keypair init_crypto_library made_keypair
pair_drawn = refl

decrypt_message-register_user_example :
    ((register_user network link laptop ann [] [] 1 typist).0 ≡ success)
    × (stream (pos 4) (register_user network link laptop ann [] [] 1 typist).1.connection.io.events
        ≡ [] ++ (frame Types.register_user (name_payload ann key) ++ frame logout []))
    × ((login_user laptop ann [] later).0 ≡ success)
    × ((load_keys_from_file laptop ann (choose_password 1 [] [] typist.local.stdin).0 later.local).0
        ≡ (success, some pair))
    × (decrypt_message laptop sealed key ready ≡ ((success, some body), ready))
decrypt_message-register_user_example =
    decrypt_message-register_user laptop laptop-IsSound laptop-IsWorking network link home ann [] []
      1 typist refl (omega arith) network-IsReliable 4 (refl, refl, refl) refl refl refl later []
      pair body sealed start ready (pos 0) [] (omega arith) refl refl refl refl same_password
      pair_drawn body_sealed refl

register_user-register_user_example :
    ((register_user network link laptop ann [] [] 1 typist).0 ≡ success)
    × (register_user network link laptop ann [] [] 1 later
        ≡ (auth, record later { local = tick later.local }))
register_user-register_user_example =
    register_user-register_user laptop laptop-IsSound laptop-IsWorking network link home ann [] [] 1
      typist refl (omega arith) [] [] 1 later refl refl
