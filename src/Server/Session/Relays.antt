-- ===== src/Server/Session/Relays.antt =====
-- server/src/client_handler.c, one turn of the loop from end to end, when a message arrives for a user
-- who is logged in.
use c_chat.Prelude.{
  ℕ, ◌+◌, ◌*◌, ◌≤◌, ◌<◌, ◌≡◌, ◌≢◌, refl, sym, ap, ap₂, ◌∙◌, true, none, some, List, [], ◌∷◌, ◌++◌,
  ℤ, length, length-append, arith,
}
use c_chat.Server.Types.{
  MessageType, max_message_len, rate_limit_max_requests, send_message, message_ack,
  incoming_message, ClientConnection,
}
use c_chat.Server.Io.{Env, Event, IsReliable}
use c_chat.Server.Words.{be32, be16}
use c_chat.Server.Protocol.Username.{IsUsername}
use c_chat.Server.Protocol.Frame.{stream, frame}
use c_chat.Server.State.{Server, client_at}
use c_chat.Server.Queue.{incoming_payload}
use c_chat.Server.Users.{find_user, find_client_by_username}
use c_chat.Server.Handlers.Relay.{handle_send_message}
use c_chat.Server.Handlers.Relay.Outcome.{message_to, handle_send_message_online}
use c_chat.Server.Session.{is_type, guarded, dispatch, turn}
use c_chat.Server.Session.Serves.{
  after_count, after_count-same, after_count-events, after_count-find_client, turn-dispatch,
}

-- The payload that the recipient is sent, with the time that the server reads.
abbrev relayed_by : Env → ℕ → List ℕ → Server → List ℕ → List ℕ
relayed_by env i body s sender =
    incoming_payload s.next_message_id sender (env.time (after_count env i s).io.calls)
      (length body) body

abbrev pub relayed : Env → ℕ → List ℕ → Server → List ℕ
relayed env i body s = relayed_by env i body s (client_at i s).username

module _ (env : Env) (works : IsReliable env) (i j : ℕ) (name body rest : List ℕ) (s : Server)
    (u : IsUsername name) (some_data : length body ≢ 0)
    (bounded : length body ≤ max_message_len + 100) (known : find_user name s.users ≢ none)
    (here : find_client_by_username name s ≡ some j)
    (apart : (client_at j s).socket_fd ≢ (client_at i s).socket_fd)
    (signed_in : (client_at i s).authenticated ≡ true)
    (allowed : (client_at i s).rate_limit.request_count < rate_limit_max_requests)
    (arrives : s.io.inbox (client_at i s).socket_fd
      ≡ frame send_message (message_to name body) ++ rest) where
  abbrev counted : Server
  counted = after_count env i s

  socket : (k : ℕ) → (client_at k counted).socket_fd ≡ (client_at k s).socket_fd
  socket = after_count-same env i s (λ (c : ClientConnection). c.socket_fd) (λ c r. refl)

  small : length (message_to name body) ≤ max_message_len * 2
  small = omega (
    arith,
    length-append name (be16 (length body) ++ body),
    length-append (be16 (length body)) body,
    u.short,
  )

  turn-handle_send_message :
      turn env i s ≡ (true, (handle_send_message env i (message_to name body) counted).1)
  unfolding dispatch is_type guarded
  turn-handle_send_message =
      let still_in : (client_at i counted).authenticated ≡ true =
        after_count-same env i s (λ (c : ClientConnection). c.authenticated) (λ c r. refl) i
        ∙ signed_in in
      turn-dispatch env works i s send_message (message_to name body) rest small allowed arrives
      ∙ rw still_in refl

  -- What went out on a socket, by its number and the events before the turn.
  sent_on :
      {fd fd' : ℤ}
      → fd ≡ fd'
      → (type : MessageType) (payload : List ℕ) (events : List Event)
      → stream fd events ≡ stream fd counted.io.events ++ frame type payload
      → stream fd' events ≡ stream fd' s.io.events ++ frame type payload
  sent_on {fd} {fd'} e type payload events out =
      sym (ap (λ x. stream x events) e)
      ∙ out
      ∙ ap₂ (λ x before. stream x before ++ frame type payload) e (after_count-events env i s)

  -- On a working network, when a message with a valid name and a body of 1 to 1124 bytes has arrived
  -- at a connection that is logged in and not over its limit, for a registered user who is logged in at
  -- a connection with another socket, one turn of the sender's loop sends the incoming message, with the
  -- next number, the sender's name, the time and the body, on the recipient's socket, the
  -- acknowledgement, delivered, on the sender's, and goes on.
  pub turn-Relays :
      ((turn env i s).0 ≡ true)
      × (stream (client_at j s).socket_fd (turn env i s).1.io.events
          ≡ stream (client_at j s).socket_fd s.io.events
            ++ frame incoming_message (relayed env i body s))
      × (stream (client_at i s).socket_fd (turn env i s).1.io.events
          ≡ stream (client_at i s).socket_fd s.io.events
            ++ frame message_ack (be32 s.next_message_id ++ 1 ∷ []))
  turn-Relays =
      let (_, out, ack, _) =
        handle_send_message_online name body u (omega arith) env i counted some_data works j known
          (after_count-find_client env i s name ∙ here)
          (λ e. apart (sym (socket j) ∙ e ∙ socket i)) in
      let name_of : (client_at i counted).username ≡ (client_at i s).username =
        after_count-same env i s (λ (c : ClientConnection). c.username) (λ c r. refl) i in
      let same : relayed_by env i body s (client_at i counted).username ≡ relayed env i body s =
        ap (relayed_by env i body s) name_of in
      let last : Server = (handle_send_message env i (message_to name body) counted).1 in
      rw turn-handle_send_message (
        refl,
        sent_on (socket j) incoming_message (relayed env i body s) last.io.events (
            out
            ∙ ap
                (λ p.
                  stream (client_at j counted).socket_fd counted.io.events
                  ++ frame incoming_message p)
                same),
        sent_on (socket i) message_ack (be32 s.next_message_id ++ 1 ∷ []) last.io.events ack,
      )
