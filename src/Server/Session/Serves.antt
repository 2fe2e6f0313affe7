-- ===== src/Server/Session/Serves.antt =====
-- server/src/client_handler.c, one turn of the loop when a frame has arrived and the limit allows it.
use c_chat.Prelude.{
  ◌*◌, ℕ, zero, suc, ◌≤◌, ◌<◌, ◌≡◌, refl, ◌∙◌, Bool, true, Option, none, some, List, [], ◌∷◌, ◌++◌,
  ℤ, length, get_or, get_or-set_same, set, take, find_index, arith, Bool-cases, inl, inr,
}
use c_chat.Server.Types.{
  max_message_len, rate_limit_max_requests, MessageType, type_code, RateLimit, ClientConnection,
}
use c_chat.Server.Io.{Env, IsReliable, Io, blocks, after_recv, recv, malloc, time_now}
use c_chat.Server.Words.{read_be32}
use c_chat.Server.Protocol.{
  message, receive_payload, decode_header, header_message, receive_network_message, check_at,
  check_rate_limit, update_rate_limit,
}
use c_chat.Server.Protocol.Frame.{frame}
use c_chat.Server.Protocol.Receive.{receive_network_message-frame}
use c_chat.Server.State.{Server, client_at, zero_client}
use c_chat.Server.Users.{is_client, find_client_by_username}
use c_chat.Server.Session.{dispatch, set_limit, answer_checked, answer, answer_received, turn}

module _ (env : Env) (fd : ℤ) where
  recv-events : (len : ℕ) (io : Io) → (recv env fd len io).1.events ≡ io.events
  unfolding recv
  recv-events len io = kept (env.recv io.calls fd len)
    where
      kept : (o : Option ℕ) → (after_recv env fd len io o).1.events ≡ io.events
      kept none = refl
      kept (some n) = refl

  receive_payload-events :
      (type len : ℕ) (io : Io) → (receive_payload env fd type len io).1.events ≡ io.events
  unfolding receive_payload malloc
  receive_payload-events type len io =
      ground (arith, recv-events len (record io { calls = suc io.calls }))

  header_message-events :
      (o : Option (List ℕ)) (io : Io) → (header_message env fd o io).1.events ≡ io.events
  unfolding header_message decode_header
  header_message-events none io = refl
  header_message-events (some h) io =
      ground (arith, receive_payload-events (get_or h 4 0) (read_be32 h) io)

  pub receive_network_message-events :
      (io : Io) → (receive_network_message env fd io).1.events ≡ io.events
  unfolding receive_network_message
  receive_network_message-events io = elim (Bool-cases (blocks env fd 5 io)) [
    | inl held ↦ rw held refl
    | inr free ↦
        rw free (header_message-events (recv env fd 5 io).0 (recv env fd 5 io).1 ∙ recv-events 5 io)
  ]

check_at-passes :
    (now : ℕ) (r : RateLimit)
    → r.request_count < rate_limit_max_requests
    → (check_at now r).0 ≡ true
unfolding check_at
check_at-passes now r h = ground arith

find_index-set :
    (p : ClientConnection → Bool) (cs : List ClientConnection) (n i : ℕ) (c d : ClientConnection)
    → p c ≡ p (get_or cs i d)
    → find_index p (take n (set cs i c)) ≡ find_index p (take n cs)
unfolding find_index
find_index-set p [] n i c d h = refl
find_index-set p (x ∷ xs) zero i c d h = refl
find_index-set p (x ∷ xs) (suc n) zero c d h = rw h refl
find_index-set p (x ∷ xs) (suc n) (suc i) c d h = rw (find_index-set p xs n i c d h) refl

module _ (env : Env) (i : ℕ) (s : Server) where
  abbrev received : Io
  received = (receive_network_message env (client_at i s).socket_fd s.io).1

  -- The state once the request is read and counted.
  abbrev pub after_count : Server
  after_count =
      set_limit env i
        (update_rate_limit (check_at (env.time received.calls) (client_at i s).rate_limit).1)
        (record s { io = record received { calls = suc received.calls } })

  pub after_count-events : after_count.io.events ≡ s.io.events
  after_count-events = receive_network_message-events env (client_at i s).socket_fd s.io

  -- The limit is the one thing of a connection that is changed.
  pub after_count-same :
      {A : Type 0} (f : ClientConnection → A)
      → ((c : ClientConnection) (r : RateLimit) → f (record c { rate_limit = r }) ≡ f c)
      → (j : ℕ) → f (client_at j after_count) ≡ f (client_at j s)
  after_count-same f same j = get_or-set_same f s.clients i j _ zero_client (same (client_at i s) _)

  pub after_count-find_client :
      (name : List ℕ) → find_client_by_username name after_count ≡ find_client_by_username name s
  unfolding find_client_by_username is_client
  after_count-find_client name =
      find_index-set (is_client name) s.clients s.client_count i _ zero_client refl

module _ (env : Env) (works : IsReliable env) (i : ℕ) (s : Server) (type : MessageType)
    (payload rest : List ℕ) (small : length payload ≤ max_message_len * 2)
    (allowed : (client_at i s).rate_limit.request_count < rate_limit_max_requests)
    (arrives : s.io.inbox (client_at i s).socket_fd ≡ frame type payload ++ rest) where
  reads :
      ((receive_network_message env (client_at i s).socket_fd s.io).0
        ≡ message (record { type = type_code type; payload = payload }))
      × ((after_count env i s).io.inbox (client_at i s).socket_fd ≡ rest)
  reads =
      receive_network_message-frame env (client_at i s).socket_fd works s.io type payload rest small
        arrives

  pub after_count-inbox : (after_count env i s).io.inbox (client_at i s).socket_fd ≡ rest
  after_count-inbox = reads.1

  -- The request is handed to its handler, and the loop goes on.
  pub turn-dispatch : turn env i s ≡ (
    true,
    dispatch env i (record { type = type_code type; payload = payload }) (after_count env i s),
  )
  unfolding turn answer_received answer answer_checked check_rate_limit time_now
  turn-dispatch =
      rw
        (
          reads.0,
          check_at-passes (env.time (received env i s).calls) (client_at i s).rate_limit allowed,
        )
        refl
