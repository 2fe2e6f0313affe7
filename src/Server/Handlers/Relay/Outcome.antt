-- ===== src/Server/Handlers/Relay/Outcome.antt =====
-- server/src/message_handlers.c, handle_send_message: what becomes of a well formed message.
use c_chat.Prelude.{
  ℕ, suc, ◌+◌, ◌%◌, ◌^◌, ◌<◌, ◌≡◌, ◌≢◌, refl, sym, ap, ap₂, ◌∙◌, false, ◌||◌, Option, none, some,
  List, [], ◌∷◌, ◌++◌, ℤ, pos, negsuc, int_eq, int_eq_ne, length, length-append, take, take-all,
  drop-append_add, get_or-append_add, ltb, ◌==◌, arith,
}
use native.Mathlib.Nat.{le_refl}
use c_chat.Server.Types.{message_ack, incoming_message}
use c_chat.Server.Io.{Env, IsReliable, Io, malloc, time_now}
use c_chat.Server.Words.{be32, be16, join16, join16-be16}
use c_chat.Server.Protocol.{send_network_message}
use c_chat.Server.Protocol.Username.{IsUsername}
use c_chat.Server.Protocol.Frame.{stream, frame, sends_frame}
use c_chat.Server.Protocol.Others.{send_network_message-other}
use c_chat.Server.State.{Server, client_at}
use c_chat.Server.Queue.{incoming_payload}
use c_chat.Server.Users.{find_user, find_client_by_username}
use c_chat.Server.Delivery.{take_message_id, queue_message_at, queue_message}
use c_chat.Server.Handlers.{respond}
use c_chat.Server.Handlers.Account.Register.{
  name_payload, read_name-name_payload, bad_name-name_payload,
}
use c_chat.Server.Handlers.Relay.{
  body_len, read_body, acknowledge, relay_sent, relay_allocated, relay_online, relay, send_to_user,
  handle_send_message,
}

-- The payload of MSG_SEND_MESSAGE, as the protocol lays it out.
abbrev pub message_to : List ℕ → List ℕ → List ℕ
message_to name body = name_payload name (be16 (length body) ++ body)

queue_message_away :
    (env : Env) (name sender body : List ℕ) (s : Server)
    → length body ≢ 0
    → find_client_by_username name s ≡ none
    → queue_message env name sender body (length body) s ≡ (negsuc 0, s)
unfolding queue_message queue_message_at
queue_message_away env name sender body s some_data away =
    let test : (length body == 0) ≡ false = ground (arith, some_data) in rw (test, away) refl

relay_away :
    (env : Env) (i id : ℕ) (name body : List ℕ) (s : Server)
    → length body ≢ 0
    → find_client_by_username name s ≡ none
    → relay env i (find_client_by_username name s) id name body s ≡ acknowledge env i id 2 s
unfolding relay
relay_away env i id name body s some_data away = rw away (
    ap (λ (r : ℤ × Server). acknowledge env i id 2 r.1)
      (queue_message_away env name (client_at i s).username body s some_data away))

module _ (env : Env) (works : IsReliable env) (i j id : ℕ) (name body : List ℕ) (s : Server) where
  -- The payload that the recipient at slot `j` is sent.
  abbrev pub incoming : List ℕ
  incoming = incoming_payload id (client_at i s).username (env.time s.io.calls) (length body) body

  abbrev after_calls : Io
  after_calls = record s.io { calls = suc (suc s.io.calls) }

  abbrev after_relay : Io
  after_relay =
      (send_network_message env (client_at j s).socket_fd incoming_message incoming after_calls).1

  relay_works :
      relay env i (some j) id name body s ≡ acknowledge env i id 1 (record s { io = after_relay })
  unfolding relay relay_online relay_allocated relay_sent time_now malloc
  relay_works =
      let sent =
        sends_frame env (client_at j s).socket_fd works incoming_message incoming after_calls in
      rw (works.allocates (suc s.io.calls) (length incoming), sent.0) refl

  -- The recipient has the message, the sender the acknowledgement, and but for the world nothing
  -- changed.
  abbrev pub Relays : ℤ × Server → Type 0
  Relays (r, t) =
      (r ≡ pos 0)
      × (stream (client_at j s).socket_fd t.io.events
          ≡ stream (client_at j s).socket_fd s.io.events ++ frame incoming_message incoming)
      × (stream (client_at i s).socket_fd t.io.events
          ≡ stream (client_at i s).socket_fd s.io.events ++ frame message_ack (be32 id ++ 1 ∷ []))
      × (t ≡ record s { io = t.io })

  relay-Relays :
      int_eq (client_at j s).socket_fd (client_at i s).socket_fd ≡ false
      → int_eq (client_at i s).socket_fd (client_at j s).socket_fd ≡ false
      → Relays (relay env i (some j) id name body s)
  unfolding acknowledge respond
  relay-Relays apart apart' =
      let fd_j : ℤ = (client_at j s).socket_fd in
      let fd_i : ℤ = (client_at i s).socket_fd in
      let ack : List ℕ = be32 id ++ 1 ∷ [] in
      let (_, relayed) = sends_frame env fd_j works incoming_message incoming after_calls in
      let (r, acked) = sends_frame env fd_i works message_ack ack after_relay in
      rw relay_works (
        r,
        send_network_message-other env fd_i fd_j apart' message_ack ack after_relay ∙ relayed,
        acked
            ∙ ap (λ bytes. bytes ++ frame message_ack ack)
                (send_network_message-other env fd_j fd_i apart incoming_message incoming
                  after_calls),
        refl,
      )

module _ (name body : List ℕ) (u : IsUsername name) (short : length body < 2 ^ 16) where
  body_len-message_to : body_len (message_to name body) ≡ length body
  unfolding body_len
  body_len-message_to =
      ap₂ join16
        (get_or-append_add (length name ∷ name) (be16 (length body) ++ body) 0 (1 + length name) 0
          (omega arith))
        (get_or-append_add (length name ∷ name) (be16 (length body) ++ body) 1 (1 + length name + 1)
          0 (omega arith))
      ∙ join16-be16 (length body) short

  read_body-message_to : read_body (message_to name body) ≡ body
  unfolding read_body
  read_body-message_to =
      ap₂ take body_len-message_to (
        drop-append_add (length name ∷ name) (be16 (length body) ++ body) 2 (1 + length name + 2)
          (omega arith))
      ∙ take-all (length body) body (le_refl _)

  module _ (env : Env) (i : ℕ) (s : Server) (some_data : length body ≢ 0) where
    handle_send_message-send_to_user :
        handle_send_message env i (message_to name body) s
        ≡ send_to_user env i (find_user name s.users) name body s
    unfolding handle_send_message
    handle_send_message-send_to_user =
        let size : length (be16 (length body) ++ body) ≡ 2 + length body =
          omega (arith, length-append (be16 (length body)) body) in
        let whole : length (message_to name body) ≡ 1 + length name + 2 + length body =
          omega (arith, length-append name (be16 (length body) ++ body)) in
        let long : ltb (length (message_to name body)) 3 ≡ false = ground (arith, whole) in
        let fits : ((body_len (message_to name body) == 0)
              || ltb (length (message_to name body))
                  (1 + length name + 2 + body_len (message_to name body)))
            ≡ false =
          rw body_len-message_to (ground (arith, whole)) in
        rw (
          long,
          bad_name-name_payload name (be16 (length body) ++ body) u 2 (omega arith),
          fits,
          read_name-name_payload name (be16 (length body) ++ body) u,
          read_body-message_to,
        )

    -- A message with a valid name and a body of 1 to 65535 bytes, for a user who is registered,
    -- while no connection is logged in under the name: the sender is told 2, which means queued,
    -- and but for the counter of messages nothing else is changed. The message is in no queue.
    pub handle_send_message_offline :
        find_user name s.users ≢ none
        → find_client_by_username name s ≡ none
        → handle_send_message env i (message_to name body) s
          ≡ respond env i message_ack
              (be32 s.next_message_id ++ 2 ∷ [])
              (record s { next_message_id = (s.next_message_id + 1) % 2 ^ 32 })
    unfolding send_to_user take_message_id acknowledge find_client_by_username
    handle_send_message_offline known away =
        handle_send_message-send_to_user ∙ to_user (find_user name s.users) known
      where
        to_user :
            (o : Option ℕ)
            → o ≢ none
            → send_to_user env i o name body s
              ≡ respond env i message_ack
                  (be32 s.next_message_id ++ 2 ∷ [])
                  (record s { next_message_id = (s.next_message_id + 1) % 2 ^ 32 })
        to_user none h = absurd (h refl)
        to_user (some j) h =
            relay_away env i s.next_message_id name body
              (record s { next_message_id = (s.next_message_id + 1) % 2 ^ 32 }) some_data away

    -- On a working network, a message with a valid name and a body of 1 to 65535 bytes, for a user
    -- who is registered and logged in at a connection with another socket: its frame, with the next
    -- number, the sender's name, the time and the body, goes out on the recipient's socket, and the
    -- acknowledgement with the number and 1, which means delivered, on the sender's. But for the
    -- counter of messages no other part of the state changes.
    pub handle_send_message_online :
        (works : IsReliable env) (j : ℕ)
        → find_user name s.users ≢ none
        → find_client_by_username name s ≡ some j
        → (client_at j s).socket_fd ≢ (client_at i s).socket_fd
        → Relays env works i j s.next_message_id name body
            (record s { next_message_id = (s.next_message_id + 1) % 2 ^ 32 })
            (handle_send_message env i (message_to name body) s)
    unfolding send_to_user take_message_id find_client_by_username
    handle_send_message_online works j known here apart =
        rw handle_send_message-send_to_user (to_user (find_user name s.users) known)
      where
        to_user :
            (o : Option ℕ)
            → o ≢ none
            → Relays env works i j s.next_message_id name body
                (record s { next_message_id = (s.next_message_id + 1) % 2 ^ 32 })
                (send_to_user env i o name body s)
        to_user none h = absurd (h refl)
        to_user (some k) h = rw here (
            relay-Relays env works i j s.next_message_id name body
              (record s { next_message_id = (s.next_message_id + 1) % 2 ^ 32 })
              (int_eq_ne _ _ apart) (int_eq_ne _ _ (λ e. apart (sym e))))
