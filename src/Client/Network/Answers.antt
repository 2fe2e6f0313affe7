-- ===== src/Client/Network/Answers.antt =====
-- src/network.c: what register_user_with_server, get_user_public_key and send_message_to_server make
-- of the replies of server/src.
use c_chat.Prelude.{
  ℕ, zero, suc, ◌+◌, ◌^◌, ◌≤◌, ◌<◌, ◌≡◌, ◌≢◌, refl, ap, false, ◌||◌, some, List, [], ◌∷◌, ◌++◌, ℤ,
  pos, negsuc, length, get_or, take, take-all, ltb, leb, ◌==◌, arith,
}
use c_chat.Server.Types.{
  max_username_len, max_message_len, register_user, get_public_key, send_message, register_response,
  public_key_response, message_ack,
}
use c_chat.Server.Io.{Env, IsReliable, Io}
use c_chat.Server.Words.{be32}
use c_chat.Server.Protocol.Frame.{frame}
use c_chat.Server.Handlers.Account.{register_reply}
use c_chat.Server.Handlers.Account.Register.{name_payload}
use c_chat.Server.Handlers.Relay.Outcome.{message_to}
use c_chat.Client.{ClientResult, success, network, auth, Link}
use c_chat.Client.Network.{
  register_result, register_user_with_server, key_result, get_user_public_key, ack_result,
  send_message_to_server,
}
use c_chat.Client.Network.Requests.{up, Exchanges, ask-up}

-- What a registration comes to for the client, by the result of the server's `add_user`.
abbrev pub registered : ℤ → ClientResult
registered (pos zero) = success
registered (pos (suc n)) = network
registered (negsuc zero) = network
registered (negsuc (suc zero)) = auth
registered (negsuc (suc (suc n))) = network

-- The result of an acknowledgement, by its status.
abbrev pub acknowledged : ℕ → ClientResult
acknowledged zero = network
acknowledged (suc k) = success

module _ (env : Env) (link : Link) (works : IsReliable env) (n : ℕ) (rest : List ℕ) (io : Io) where
  register_result-register_reply :
      (r : ℤ)
      → register_result env link network (some (record { type = 0x81; payload = register_reply r }))
        ≡ registered r
  unfolding register_result register_reply
  register_result-register_reply (pos zero) = refl
  register_result-register_reply (pos (suc k)) = refl
  register_result-register_reply (negsuc zero) = refl
  register_result-register_reply (negsuc (suc zero)) = refl
  register_result-register_reply (negsuc (suc (suc k))) = refl

  short_reply : (r : ℤ) → length (register_reply r) < 2 ^ 32
  unfolding register_reply
  short_reply (pos zero) = omega arith
  short_reply (pos (suc k)) = omega arith
  short_reply (negsuc zero) = omega arith
  short_reply (negsuc (suc zero)) = omega arith
  short_reply (negsuc (suc (suc k))) = omega arith

  -- On a working network, over a connection that is up, `register_user_with_server` sends the frame
  -- of a registration as the server reads it, for a name of less than 32 bytes and a whole key.
  -- When the server's reply to a result of `add_user` waits, it returns success for 0, a failed
  -- authentication for a name that is taken, and a network error for every other result.
  pub register_user_with_server-register_reply :
      (name key : List ℕ) (r : ℤ)
      → length name < max_username_len
      → length key ≡ env.public_key_size
      → io.inbox (pos n) ≡ frame register_response (register_reply r) ++ rest
      → (io' : Io) × (register_user_with_server env link name key (up env link works n io)
          ≡ (registered r, up env link works n io'))
        × Exchanges env link works n io (frame register_user (name_payload name key)) rest io'
  unfolding register_user_with_server
  register_user_with_server-register_reply name key r short size e =
      let whole : take env.public_key_size key ≡ key =
        take-all env.public_key_size key (omega arith) in
      let fits : leb max_username_len (length name) ≡ false = ground arith in
      let (io', asked, done) =
        ask-up env link works n 0x01 (name_payload name key) register_response (register_reply r)
          rest io (short_reply r) e in
      (
        io',
        rw (fits, whole, asked)
            (ap (λ x. (x, up env link works n io')) (register_result-register_reply r)),
        done,
      )

  key_result-key :
      (key : List ℕ)
      → length key ≡ env.public_key_size
      → key_result env link network (some (record { type = 0x83; payload = 1 ∷ key }))
        ≡ (success, some key)
  unfolding key_result
  key_result-key key size =
      let long : ltb (length (1 ∷ key)) (1 + env.public_key_size) ≡ false = ground arith in
      let filled : (length (1 ∷ key) == 0 || get_or (1 ∷ key) 0 0 == 0) ≡ false = ground arith in
      rw (filled, long, take-all env.public_key_size key (omega arith)) refl

  -- On a working network, over a connection that is up, `get_user_public_key` sends the frame of a
  -- request for a key as the server reads it, for a name of less than 32 bytes, and hands out the
  -- whole key of the reply that waits, where a key has less than 65536 bytes.
  pub get_user_public_key-key :
      (name key : List ℕ)
      → length name < max_username_len
      → length key ≡ env.public_key_size
      → env.public_key_size < 2 ^ 16
      → io.inbox (pos n) ≡ frame public_key_response (1 ∷ key) ++ rest
      → (io' : Io) × (get_user_public_key env link name (up env link works n io)
          ≡ ((success, some key), up env link works n io'))
        × Exchanges env link works n io (frame get_public_key (length name ∷ name)) rest io'
  unfolding get_user_public_key
  get_user_public_key-key name key short size small e =
      let fits : leb max_username_len (length name) ≡ false = ground arith in
      let (io', asked, done) =
        ask-up env link works n 0x03 (length name ∷ name) public_key_response (1 ∷ key) rest io
          (omega arith) e in
      (
        io',
        rw (fits, asked) (ap (λ x. (x, up env link works n io')) (key_result-key key size)),
        done,
      )

  -- On a working network, over a connection that is up, `send_message_to_server` sends the frame of
  -- a message as the server reads it, for a name of less than 32 bytes and a body that is not empty
  -- and has at most 1124 bytes. When the server's acknowledgement waits, it returns a network error
  -- for the status 0, failed, and success for every other.
  pub send_message_to_server-ack :
      (name body : List ℕ) (id status : ℕ)
      → length name < max_username_len
      → length body ≢ 0
      → length body ≤ max_message_len + 100
      → io.inbox (pos n) ≡ frame message_ack (be32 id ++ status ∷ []) ++ rest
      → (io' : Io) × (send_message_to_server env link name body (up env link works n io)
          ≡ (acknowledged status, up env link works n io'))
        × Exchanges env link works n io (frame send_message (message_to name body)) rest io'
  unfolding send_message_to_server
  send_message_to_server-ack name body id status short some_data bounded e =
      let filled : (length body == 0) ≡ false = ground (arith, some_data) in
      let fits : (leb max_username_len (length name) || ltb (max_message_len + 100) (length body))
          ≡ false =
        ground arith in
      let (io', asked, done) =
        ask-up env link works n 0x04 (message_to name body) message_ack (be32 id ++ status ∷ [])
          rest io (omega arith) e in
      (io', rw (filled, fits, asked) (ap (λ x. (x, up env link works n io')) (result status)), done)
    where
      result :
          (k : ℕ)
          → ack_result env link network (some (record { type = 0x84; payload = be32 id ++ k ∷ [] }))
            ≡ acknowledged k
      result zero = refl
      result (suc k) = ground arith
