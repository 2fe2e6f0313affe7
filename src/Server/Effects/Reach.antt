-- ===== src/Server/Effects/Reach.antt =====
-- The whole server: its thread that accepts connections, the threads of the connections, and the
-- signal handler, in any order. A connection's thread takes one turn of its loop at a time;
-- a turn is one step, and how the threads share the time is left open.
use c_chat.Prelude.{
  ℕ, ◌≡◌, refl, Bool, false, [], ℤ, pos, length, get_or, length-replicate, get_or-replicate, arith,
}
use c_chat.Server.Types.{max_clients, ClientConnection}
use c_chat.Server.Io.{Env, Io}
use c_chat.Server.State.{Server, zero_client}
use c_chat.Server.Session.{turn, teardown}
use c_chat.Server.Listen.{
  unconnected, fresh_clients, fresh_server, Startup, init_server, signal_handler, accept_client,
}
use c_chat.Server.Valid.{IsSlot, IsValid}
use c_chat.Server.Effects.Turn.{turn-IsValid, close_socket-IsValid, teardown-IsValid}
use c_chat.Server.Effects.Slots.{accept_client-IsValid, zero_queue-IsFine}

-- One step of one thread. A thread may have tested that the server runs before another one stopped
-- it, so that no step asks for it.
pub data ServerStep (env : Env) : Server → Server → Type 0 where
  accepts :
      (s : Server) (fd : ℤ) (created : Bool) → ServerStep env s (accept_client env fd created s)
  turns : (s : Server) (i : ℕ) → ServerStep env s (turn env i s).1
  ends : (s : Server) (i : ℕ) → ServerStep env s (teardown env i s)
  signalled : (s : Server) → ServerStep env s (signal_handler s)

pub data Reachable (env : Env) : Server → Type 0 where
  started :
      (calls : Startup) (before : Server)
      → (init_server calls before).0 ≡ pos 0
      → Reachable env (init_server calls before).1
  steps : {s t : Server} → Reachable env s → ServerStep env s t → Reachable env t

unconnected-IsSlot : IsSlot [] unconnected
unconnected-IsSlot = record { queue = zero_queue-IsFine; limit = omega arith; logged_in = λ e. cc }

zero_client-IsSlot : IsSlot [] zero_client
zero_client-IsSlot = record { queue = zero_queue-IsFine; limit = omega arith; logged_in = λ e. cc }

length-fresh_clients : length fresh_clients ≡ max_clients
unfolding fresh_clients
length-fresh_clients = length-replicate max_clients unconnected

fresh_clients-get :
    (P : ClientConnection → Type 0) (i : ℕ)
    → P unconnected
    → P zero_client
    → P (get_or fresh_clients i zero_client)
unfolding fresh_clients
fresh_clients-get P i p q = get_or-replicate P max_clients i unconnected zero_client p q

fresh_server-IsValid : (env : Env) (io : Io) → IsValid env (fresh_server io)
unfolding fresh_server
fresh_server-IsValid env io = record {
  users_in = omega arith;
  users_good = tt;
  users_distinct = tt;
  clients_in = length-fresh_clients;
  count_in = omega arith;
  unused = λ i h. fresh_clients-get (λ c. c.connected ≡ false) i refl refl;
  slots = λ i. fresh_clients-get (IsSlot []) i unconnected-IsSlot zero_client-IsSlot;
  number_in = omega arith;
}

-- The socket and the flag of the main loop do not bear on validity.
socket-IsValid :
    (env : Env) (s : Server) (run : Bool) (fd : ℤ)
    → IsValid env s
    → IsValid env (record s { running = run; server_socket = fd })
socket-IsValid env s run fd v = record {
  users_in = v.users_in;
  users_good = v.users_good;
  users_distinct = v.users_distinct;
  clients_in = v.clients_in;
  count_in = v.count_in;
  unused = v.unused;
  slots = v.slots;
  number_in = v.number_in;
}

init_server_ok :
    (calls : Startup) (s : Server)
    → (init_server calls s).0 ≡ pos 0
    → (init_server calls s).1 ≡ record (fresh_server s.io) { server_socket = calls.socket }
unfolding init_server
init_server_ok calls s h = ground arith

init_server-IsValid :
    (env : Env) (calls : Startup) (s : Server)
    → (init_server calls s).0 ≡ pos 0
    → IsValid env (init_server calls s).1
init_server-IsValid env calls s h = rw (init_server_ok calls s h) (
    socket-IsValid env (fresh_server s.io) (fresh_server s.io).running calls.socket
      (fresh_server-IsValid env s.io))

ServerStep-IsValid : {env : Env} {s t : Server} → ServerStep env s t → IsValid env s → IsValid env t
unfolding signal_handler
ServerStep-IsValid {env} (accepts s fd created) v = accept_client-IsValid env fd created s v
ServerStep-IsValid {env} (turns s i) v = turn-IsValid env i s v
ServerStep-IsValid {env} (ends s i) v = teardown-IsValid env i s v
ServerStep-IsValid {env} (signalled s) v =
    close_socket-IsValid env s.server_socket _ (socket-IsValid env s false s.server_socket v)

-- However the server's threads share the time, whatever the clients send and whatever the calls of
-- the operating system answer: once `init_server` has succeeded, the state is valid at each step.
-- The registered names are valid and distinct, every key is whole, every ring of messages is well
-- formed and holds whole messages, no limit is passed, and a connection that counts as logged in
-- bears the name of a registered user.
pub Reachable-IsValid : {env : Env} {s : Server} → Reachable env s → IsValid env s
Reachable-IsValid {env} (started calls before h) = init_server-IsValid env calls before h
Reachable-IsValid (steps r st) = ServerStep-IsValid st (Reachable-IsValid r)
