-- ===== src/Server/Tests/Whole.antt =====
-- Runs of the whole server: it starts, a client connects, and one message arrives.
use c_chat.Prelude.{pos, ◌∷◌, [], ◌<◌, ◌≡◌, refl, ℤ, negsuc, some, false, true, arith, find_index}
use c_chat.Server.Types.{logout}
use c_chat.Server.Protocol.Frame.{frame}
use c_chat.Server.State.{zero_client, Server}
use c_chat.Server.Listen.Serving.{IsLast, main-cleanup_server}
use c_chat.Server.Listen.Cleanup.{Closes, cleanup_server-Closes}
use c_chat.Server.Listen.{
  Startup, init_server, fresh_clients, fresh_server, is_free, start_thread, take_slot, accept_at,
  accept_client, cleanup_server, signal_handler, Attempt, main,
}
use c_chat.Server.Io.{time_now, randombytes}
use c_chat.Server.Session.{close_socket, session_loop}
use c_chat.Server.Valid.{IsValid}
use c_chat.Server.Effects.Reach.{Reachable, started, steps, accepts, signalled, Reachable-IsValid}
use c_chat.Server.Effects.Session.{Session, unread, session_loop-Session}
use c_chat.Server.Listen.Accept.{Accepts, accept_client-Accepts}
use c_chat.Server.Tests.{network, ann, connection, blank, still, office}

abbrev calls : Startup
calls = record {
  sodium_init = true;
  mutex_init = true;
  socket = pos 3;
  setsockopt = true;
  bind = true;
  listen = true;
}

-- On every socket a logout waits.
abbrev before : Server
before = record blank { io = record still { inbox = λ fd. frame logout [] } }

abbrev listening : Server
listening = (init_server calls before).1

abbrev connected : Server
connected = accept_client network (pos 5) true listening

starts : (init_server calls before).0 ≡ pos 0
unfolding init_server
starts = refl

connected-Reachable : Reachable network connected
connected-Reachable = steps (started calls before starts) (accepts listening (pos 5) true)

Reachable-IsValid_example : IsValid network connected
Reachable-IsValid_example = Reachable-IsValid connected-Reachable

logout_waits : unread network 0 connected < 6
unfolding accept_client accept_at take_slot start_thread init_server fresh_server fresh_clients
    is_free find_index time_now randombytes
logout_waits = omega arith

session_loop-Session_example : Session network 0 connected (session_loop network 0 6 connected)
session_loop-Session_example =
    session_loop-Session network 0 6 connected (Reachable-IsValid connected-Reachable) logout_waits

-- Slot 1 is free.
abbrev one_free : Server
one_free = record (office true) { clients = connection 5 ann true ∷ zero_client ∷ [] }

accept_client-Accepts_example :
    Accepts network (pos 9) one_free true (accept_client network (pos 9) true one_free)
accept_client-Accepts_example = accept_client-Accepts network (pos 9) one_free true

cleanup_server-Closes_example : Closes 1 (pos 6) (office true) (cleanup_server (office true))
cleanup_server-Closes_example = cleanup_server-Closes 1 (pos 6) (office true) (omega arith)

-- One client connects; then a signal comes.
abbrev client : Attempt
client = record { meanwhile = λ s. s; client_socket = pos 5; interrupted = false; created = true }

abbrev interrupt : Attempt
interrupt = record {
  meanwhile = signal_handler;
  client_socket = negsuc 0;
  interrupted = true;
  created = false;
}

interrupted-IsLast : IsLast network interrupt
unfolding signal_handler close_socket
interrupted-IsLast s = by_socket s.server_socket
  where
    by_socket : (fd : ℤ) → (close_socket fd (record s { running = false })).running ≡ false
    by_socket (pos n) = refl
    by_socket (negsuc n) = refl

main-cleanup_server_example :
    (last : Server) × (main network calls (client ∷ interrupt ∷ []) before
      ≡ some (true, cleanup_server last))
    × Reachable network last
    × (last.running ≡ false)
main-cleanup_server_example =
    main-cleanup_server network calls before (client ∷ []) interrupt starts ((λ s r. r), tt)
      (λ s r. steps r (signalled s)) interrupted-IsLast
