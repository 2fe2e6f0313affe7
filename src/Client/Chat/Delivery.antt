-- ===== src/Client/Chat/Delivery.antt =====
-- src/chat.c and server/src/client_handler.c together: a message from the one who types it to the one
-- who reads it.
use c_chat.Prelude.{
  ℕ, ◌^◌, ◌≤◌, ◌<◌, ◌≡◌, ◌≢◌, refl, sym, ap, ◌∙◌, true, false, none, some, List, [], ◌∷◌, ◌++◌, pos,
  length, ◌==◌, arith,
}
use c_chat.Server.Types.{
  max_username_len, rate_limit_max_requests, send_message, message_ack, incoming_message,
}
use c_chat.Server.Io.{Env, IsReliable, Io}
use c_chat.Server.Words.{be32}
use c_chat.Server.Protocol.Username.{IsUsername}
use c_chat.Server.Protocol.Frame.{stream, frame}
use c_chat.Server.State.{Server, client_at}
use c_chat.Server.Queue.Payload.{Incoming, read_incoming, read_incoming-incoming_payload}
use c_chat.Server.Users.{find_user, find_client_by_username}
use c_chat.Server.Handlers.Relay.Outcome.{message_to}
use c_chat.Server.Session.{turn}
use c_chat.Server.Session.Serves.{after_count}
use c_chat.Server.Session.Relays.{relayed, turn-Relays}
use c_chat.Client.{ClientResult, success, Link}
use c_chat.Client.Host.{Host, IsSound, Local}
use c_chat.Client.Crypto.{encrypt_message, decrypt_message}
use c_chat.Client.Crypto.Messages.{
  Encrypts, encrypt_message-Encrypts, decrypt_message-encrypt_message,
}
use c_chat.Client.Network.Requests.{up}
use c_chat.Client.Network.Answers.{send_message_to_server-ack}
use c_chat.Client.Desk.{SessionKeys, Desk}
use c_chat.Client.Chat.{sent_sealed, send_message_secure}

-- The sender's desk, on socket `n`, in a chat with `name`, whose public key belongs to `private_key`;
-- and the seal of the message.
module _ (network : Env) (link : Link) (reliable : IsReliable network) (n : ℕ) (io : Io)
    (host : Host) (sound : IsSound host) (few : host.seal_bytes ≤ 100) (d : Desk)
    (keys : SessionKeys) (private_key message sealed : List ℕ) (loaded : keys.keys_loaded ≡ true)
    (theirs : keys.partner_public_key ≡ host.scalarmult_base private_key)
    (made : (encrypt_message host message keys.partner_public_key d.local).0
      ≡ (success, some sealed)) where
  abbrev pub name : List ℕ
  name = d.current_session.chat_partner.username

  abbrev pub sent : ClientResult × Desk
  sent =
      send_message_secure network link host message keys
        (record d { connection = up network link reliable n io })

  seals : Encrypts host message keys.partner_public_key d.local sealed
  seals = encrypt_message-Encrypts host sound message keys.partner_public_key d.local sealed made

  some_data : length sealed ≢ 0
  some_data = omega (arith, seals.size, seals.nonempty)

  bounded : length sealed ≤ 1124
  bounded = omega (arith, seals.fits, few)

  sent-frame :
      (id status : ℕ) (rest : List ℕ)
      → length name < max_username_len
      → io.inbox (pos n) ≡ frame message_ack (be32 id ++ status ∷ []) ++ rest
      → (sent.0 ≡ success)
        × (stream (pos n) sent.1.connection.io.events
            ≡ stream (pos n) io.events ++ frame send_message (message_to name sealed))
  unfolding send_message_secure sent_sealed
  sent-frame id status rest short waits =
      let (io', result, (out, _)) =
        send_message_to_server-ack network link reliable n rest io name sealed id status short
          some_data bounded waits in
      let filled : (length message == 0) ≡ false = ground (arith, seals.nonempty) in
      rw (filled, loaded, made, result) (refl, out)

  module _ (env : Env) (works : IsReliable env) (i j : ℕ) (s : Server) (u : IsUsername name)
      (known : find_user name s.users ≢ none) (here : find_client_by_username name s ≡ some j)
      (apart : (client_at j s).socket_fd ≢ (client_at i s).socket_fd)
      (signed_in : (client_at i s).authenticated ≡ true)
      (allowed : (client_at i s).rate_limit.request_count < rate_limit_max_requests)
      (numbered : s.next_message_id < 2 ^ 32) (called : length (client_at i s).username < 2 ^ 8)
      (in_time : env.time (after_count env i s).io.calls < 2 ^ 32) (rest waiting : List ℕ)
      (id status : ℕ)
      (waits : io.inbox (pos n) ≡ frame message_ack (be32 id ++ status ∷ []) ++ waiting)
      (arrives : s.io.inbox (client_at i s).socket_fd
        ≡ frame send_message (message_to name sealed) ++ rest)
      (later : Local) (ready : later.crypto_initialized ≡ true) where
    -- With libsodium as documented, with working networks, and a seal of at most 100 bytes more than the
    -- message: when a message is sealed in a chat with a user, whose key belongs to the private key, it
    -- goes out as its frame, with success if the server's acknowledgement waits. When the frame has
    -- arrived at the server, at a connection that is logged in and not over its limit, for that user,
    -- who is registered and logged in at another socket, one turn of the loop sends the incoming message
    -- on that socket, where the number, the time and the sender's name fit their fields. Its reader finds
    -- the sender's name, and a body that `decrypt_message` opens as the message that was typed, if the
    -- library is ready.
    pub decrypt_message-turn-send_message_secure :
        (sent.0 ≡ success)
        × (stream (pos n) sent.1.connection.io.events
            ≡ stream (pos n) io.events ++ frame send_message (message_to name sealed))
        × (stream (client_at j s).socket_fd (turn env i s).1.io.events
            ≡ stream (client_at j s).socket_fd s.io.events
              ++ frame incoming_message (relayed env i sealed s))
        × ((read_incoming (relayed env i sealed s)).sender ≡ (client_at i s).username)
        × (decrypt_message host (read_incoming (relayed env i sealed s)).body private_key later
            ≡ ((success, some message), later))
    decrypt_message-turn-send_message_secure =
        let (result, out) = sent-frame id status waiting (omega (arith, u.short)) waits in
        let (_, relays, _) =
          turn-Relays env works i j name sealed rest s u some_data bounded known here apart
            signed_in allowed arrives in
        let read =
          read_incoming-incoming_payload s.next_message_id (client_at i s).username _ sealed
            numbered called in_time (omega (arith, bounded)) in
        let opened =
          decrypt_message-encrypt_message host sound message private_key d.local later sealed
            (ap (λ key. (encrypt_message host message key d.local).0) (sym theirs) ∙ made) ready in
        (
          result,
          out,
          relays,
          ap (λ (m : Incoming). m.sender) read,
          ap (λ (m : Incoming). decrypt_message host m.body private_key later) read ∙ opened,
        )
