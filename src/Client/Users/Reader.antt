-- ===== src/Client/Users/Reader.antt =====
-- src/user.c and src/crypto.c together: what a registration is good for.
use c_chat.Prelude.{
  ℕ, ℤ, pos, [], ◌++◌, ◌<◌, ◌≡◌, sym, ap, ◌∙◌, true, false, Option, some, List, length,
}
use mathlib.Core.Option.{some-injective}
use mathlib.Core.Path.{subst}
use c_chat.Server.Types.{max_username_len, logout, register_response}
use c_chat.Server.Types
use c_chat.Server.Io.{Env, IsReliable}
use c_chat.Server.Protocol.Frame.{stream, frame}
use c_chat.Server.Handlers.Account.{register_reply}
use c_chat.Server.Handlers.Account.Register.{name_payload}
use c_chat.Client.Network.Socket.{Offline}
use c_chat.Client.Network.Farewell.{register_online-up}
use c_chat.Client.{ClientResult, success, Link}
use c_chat.Client.Host.{Host, IsSound, IsWorking, Local, tick, exists}
use c_chat.Client.Terminal.{max_password_len, get_password_input}
use c_chat.Client.Crypto.{Keys, generate_keypair, encrypt_message, decrypt_message}
use c_chat.Client.Crypto.Messages.{decrypt_message-encrypt_message}
use c_chat.Client.Crypto.Storage.{keys_path, load_keys_from_file}
use c_chat.Client.Crypto.KeyFile.{load_keys_from_file-save_keys_to_file}
use c_chat.Client.Desk.{Desk}
use c_chat.Client.Users.{choose_password, register_user, login_user}
use c_chat.Client.Users.Accounts.{register_user-Registers, login_user-register_user}

module _ (host : Host) (sound : IsSound host) (working : IsWorking host) (env : Env) (link : Link)
    (home username password confirm_password : List ℕ) (fuel : ℕ) (d : Desk)
    (here : host.home ≡ some home) (fits : length (keys_path home username) < host.path_max)
    (reliable : IsReliable env) (n : ℕ) (off : Offline d.connection)
    (opens : link.socket d.connection.io.calls ≡ pos n)
    (parsed : link.inet_pton d.connection.io.calls ≡ true)
    (connects : link.connect d.connection.io.calls ≡ true) where
  abbrev path : List ℕ
  path = keys_path home username

  abbrev registered : ClientResult × Desk
  registered = register_user env link host username password confirm_password fuel d

  abbrev chosen : List ℕ
  chosen = (choose_password fuel password confirm_password d.local.stdin).0

  -- With libsodium as documented, no call of the machine that fails, a path that fits, keys of the
  -- server's size, a network that works, and a server that can be reached and answers with its reply to
  -- some result of `add_user`: a user with no key file and a name of less than 32 bytes registers with
  -- success, and what goes out to the server is the frame of the registration, with the name and the
  -- public key of the pair that was made, and the farewell. At any later time at which the key file is as it was left, the password that was
  -- chosen logs the user in and loads both keys as they were made; and what anybody sealed to the public
  -- key with success is opened with the private one, if the library is ready, as it was written.
  pub decrypt_message-register_user :
      (later : Desk) (held : List ℕ) (keys : Keys) (message sealed : List ℕ) (l reader : Local)
      (answer : ℤ) (rest : List ℕ)
      → length username < max_username_len
      → host.public_key_size ≡ env.public_key_size
      → d.connection.io.inbox (pos n) ≡ frame register_response (register_reply answer) ++ rest
      → exists path d.local ≡ false
      → later.local.files path ≡ registered.1.local.files path
      → (get_password_input held max_password_len later.local.stdin).0 ≡ chosen
      → (generate_keypair host (tick d.local)).0 ≡ (success, some keys)
      → (encrypt_message host message keys.public_key l).0 ≡ (success, some sealed)
      → reader.crypto_initialized ≡ true
      → (registered.0 ≡ success)
        × (stream (pos n) registered.1.connection.io.events
            ≡ stream (pos n) d.connection.io.events
              ++ (frame Types.register_user (name_payload username keys.public_key)
                  ++ frame logout []))
        × ((login_user host username held later).0 ≡ success)
        × ((load_keys_from_file host username chosen later.local).0 ≡ (success, some keys))
        × (decrypt_message host sealed keys.private_key reader ≡ ((success, some message), reader))
  decrypt_message-register_user later held keys message sealed l reader answer rest short sizes
        waits new same typed made shut ready =
      let r =
        register_user-Registers host sound working env link home username password confirm_password
          fuel d here fits new in
      let (ok, entered) =
        login_user-register_user host sound working env link home username password confirm_password
          fuel d here fits later held new same typed in
      let (_, loaded) =
        load_keys_from_file-save_keys_to_file host sound working home username chosen r.keys here
          fits r.public_size r.private_size r.before later.local
          (same ∙ ap (λ (f : List ℕ → Option (List ℕ)). f path) r.files) in
      let drawn : r.keys ≡ keys =
        some-injective _ _ (ap (λ (x : ClientResult × Option Keys). x.1) (sym r.drawn ∙ made)) in
      let owned : keys.public_key ≡ host.scalarmult_base keys.private_key =
        subst (λ (k : Keys). k.public_key ≡ host.scalarmult_base k.private_key) drawn r.owned in
      let (out, _) =
        register_online-up env link reliable n d.connection off opens parsed connects host username
          r.keys.public_key rest answer r.asker r.online short (r.public_size ∙ sizes) waits in
      let shut' = ap (λ key. (encrypt_message host message key l).0) (sym owned) ∙ shut in
      (
        ok,
        ap (λ (e : Desk). stream (pos n) e.connection.io.events) r.told
            ∙ out
            ∙ ap
                (λ (k : Keys).
                  stream (pos n) d.connection.io.events
                  ++ (frame Types.register_user (name_payload username k.public_key)
                      ++ frame logout []))
                drawn,
        entered,
        loaded ∙ ap (λ k. (success, some k)) drawn,
        decrypt_message-encrypt_message host sound message keys.private_key l reader sealed shut'
            ready,
      )
