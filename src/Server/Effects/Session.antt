-- ===== src/Server/Effects/Session.antt =====
-- server/src/client_handler.c: the loop of a connection, with and without fuel.
use c_chat.Prelude.{
  ℕ, zero, suc, ◌+◌, ◌≤◌, ◌<◌, ◌≡◌, refl, ap, Bool, true, false, ◌&&◌, List, ◌++◌, length,
  length-append, ℤ, Bool-cases, inl, inr, arith,
}
use c_chat.Server.Types.{NetworkMessage, rate_limit_max_requests}
use c_chat.Server.Io.{Env, Io}
use c_chat.Server.Protocol.{
  Received, message, disconnected, failed, waiting, receive_network_message,
}
use c_chat.Server.Protocol.Receive.{Decodes, receive_network_message-Decodes}
use c_chat.Server.Protocol.Silence.{IsSilent, receive_network_message-IsSilent}
use c_chat.Server.State.{Server, client_at}
use c_chat.Server.Session.{Thread, ended, waits, in_recv, answer_received, turn, session_loop}
use c_chat.Server.Valid.{IsValid}
use c_chat.Server.Effects.Turn.{answer-Effects, turn-IsValid}
use c_chat.Server.Effects.Leave.{Effects-Same}

module _ (env : Env) (i : ℕ) where
  abbrev pub runs : Server → Bool
  runs s = (client_at i s).connected && s.running

  -- The loop with no bound on its turns: it stops by its test, waits for a message from a peer that
  -- keeps silent, breaks in a turn, or goes on.
  pub data Session : Server → Thread → Type 0 where
    stops : (s : Server) → runs s ≡ false → Session s (ended s)
    hangs :
        (s : Server)
        → runs s ≡ true
        → in_recv env i s ≡ true
        → IsSilent env (client_at i s).socket_fd
        → Session s (waits (turn env i s).1)
    breaks :
        (s : Server)
        → runs s ≡ true
        → in_recv env i s ≡ false
        → (turn env i s).0 ≡ false
        → Session s (ended (turn env i s).1)
    goes_on :
        (s : Server) {t : Thread}
        → runs s ≡ true
        → in_recv env i s ≡ false
        → (turn env i s).0 ≡ true
        → Session (turn env i s).1 t
        → Session s t

  -- The bytes that wait on the connection's socket.
  abbrev pub unread : Server → ℕ
  unread s = length (s.io.inbox (client_at i s).socket_fd)

  answered_shrinks :
      (s : Server) (io' : Io) (received : Received)
      → (client_at i s).rate_limit.request_count ≤ rate_limit_max_requests
      → ((m : NetworkMessage)
          → received ≡ message m
          → length (io'.inbox (client_at i s).socket_fd) + 5 ≤ unread s)
      → (answer_received env i received (record s { io = io' })).0 ≡ true
      → unread (answer_received env i received (record s { io = io' })).1 + 5 ≤ unread s
  unfolding answer_received
  answered_shrinks s io' (message m) h shrinks e =
      let (same, fd) = Effects-Same i (answer-Effects env i m (record s { io = io' }) h) in
      rw (same, fd) (shrinks m refl)
  answered_shrinks s io' disconnected h shrinks e = cc
  answered_shrinks s io' failed h shrinks e = cc
  answered_shrinks s io' waiting h shrinks e = cc

  decoded_shrinks :
      {bytes rest : List ℕ} {m : NetworkMessage}
      → Decodes bytes rest m
      → length rest + 5 ≤ length bytes
  decoded_shrinks {rest = rest} {m = m} d = omega (
    arith,
    ap length d.whole,
    length-append d.head (m.payload ++ rest),
    length-append m.payload rest,
    d.head_size,
  )

  turn_shrinks :
      (s : Server)
      → IsValid env s
      → (turn env i s).0 ≡ true
      → unread (turn env i s).1 + 5 ≤ unread s
  unfolding turn
  turn_shrinks s v e =
      let fd : ℤ = (client_at i s).socket_fd in
      let (received, io') = receive_network_message env fd s.io in
      answered_shrinks s io' received (v.slots i).limit
        (λ m r. decoded_shrinks (receive_network_message-Decodes env fd s.io m r)) e

  -- From a valid state, with one more round than bytes wait on its socket, the loop runs to where the
  -- loop with no bound gets: to its end, or to a `recv` that does not return, which it gets to only if
  -- the peer keeps silent.
  pub session_loop-Session :
      (fuel : ℕ) (s : Server)
      → IsValid env s
      → unread s < fuel
      → Session s (session_loop env i fuel s)
  unfolding session_loop
  session_loop-Session zero s v h = elim h [ ]
  session_loop-Session (suc fuel) s v h = elim (Bool-cases (runs s)) [
    | inr over ↦ rw over (stops s over)
    | inl on ↦ elim (Bool-cases (in_recv env i s)) [
      | inl held ↦
          rw (on, held)
            (hangs s on held
              (receive_network_message-IsSilent env (client_at i s).socket_fd s.io held))
      | inr free ↦ elim (Bool-cases (turn env i s).0) [
        | inr over ↦ rw (on, free, over) (breaks s on free over)
        | inl more ↦
            rw (on, free, more)
              (goes_on s on free more (
                session_loop-Session fuel (turn env i s).1 (turn-IsValid env i s v)
                  (omega (arith, turn_shrinks s v more))))
      ]
    ]
  ]
