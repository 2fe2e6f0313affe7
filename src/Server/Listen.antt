-- ===== src/Server/Listen.antt =====
-- server/src/server.c: start, the loop that accepts connections, and the end. What the calls of the
-- operating system and of libsodium answer comes as arguments.
pub mod Accept
pub mod Cleanup
pub mod Serving
use c_chat.Prelude.{
  ℕ, ◌+◌, Bool, true, false, not, ◌&&◌, Option, none, some, List, [], ◌∷◌, ◌++◌, map, ℤ, pos,
  negsuc, is_neg, take, drop, replicate, find_index, if◌then◌else◌, leb,
}
use mathlib.Core.Option
use c_chat.Server.Types.{max_clients, challenge_size, ClientConnection, online}
use c_chat.Server.Io.{Env, Io, State, time_now, randombytes, close}
use c_chat.Server.State.{Server, zero_client, client_at, set_client, lift}
use c_chat.Server.Session.{close_socket}

-- The results of the calls of `init_server`, in its order: true for success, and the new socket.
pub record Startup : Type 0 where
  pub sodium_init : Bool
  pub mutex_init : Bool
  pub socket : ℤ
  pub setsockopt : Bool
  pub bind : Bool
  pub listen : Bool

abbrev pub unconnected : ClientConnection
unconnected = record zero_client { socket_fd = negsuc 0 }

-- The array of clients, every slot of it unconnected.
unfoldable pub fresh_clients : List ClientConnection
fresh_clients = replicate max_clients unconnected

-- `memset` and the fields that are set behind it.
unfoldable pub fresh_server : Io → Server
fresh_server io = record {
  users = [];
  clients = fresh_clients;
  client_count = 0;
  next_message_id = 1;
  running = true;
  server_socket = negsuc 0;
  io = io;
}

unfoldable pub init_server : Startup → State Server ℤ
unfolding fresh_server close_socket
init_server calls s =
    let fresh : Server = fresh_server s.io in
    let open_server : Server = record fresh { server_socket = calls.socket } in
    if not calls.sodium_init
    then (negsuc 0, s)
    else if not calls.mutex_init
    then (negsuc 0, fresh)
    else if is_neg calls.socket
    then (negsuc 0, open_server)
    else if not (calls.setsockopt && calls.bind && calls.listen)
    then (negsuc 0, close_socket calls.socket open_server)
    else (pos 0, open_server)

unfoldable pub signal_handler : Server → Server
unfolding close_socket
signal_handler s = close_socket s.server_socket (record s { running = false })

unfoldable pub is_free : ClientConnection → Bool
is_free c = not c.connected

module _ (env : Env) where
  unfoldable pub new_connection : ℤ → ℕ → List ℕ → ClientConnection
  new_connection client_socket now challenge = record zero_client {
    socket_fd = client_socket;
    connected = true;
    authenticated = false;
    status = online;
    connected_time = now;
    challenge = challenge;
  }

  -- `pthread_create`, by its result: without a thread the socket is closed and the slot given up.
  unfoldable pub start_thread : ℤ → ℕ → Bool → Server → Server
  start_thread client_socket i true s = s
  start_thread client_socket i false s =
      set_client i (record (client_at i s) { connected = false })
        (record s { io = close client_socket s.io })

  -- The slot `i` is free: it is cleared and taken, and its thread started. `created` is the result
  -- of `pthread_create`.
  unfoldable pub take_slot : ℤ → Bool → ℕ → Server → Server
  unfolding new_connection start_thread
  take_slot client_socket created i s =
      let (now, s₁) = lift (time_now env) s in
      let (challenge, s₂) = lift (randombytes env challenge_size) s₁ in
      let s₃ : Server = set_client i (new_connection client_socket now challenge) s₂ in
      let s₄ : Server = record s₃ {
        client_count = if leb s.client_count i then i + 1 else s.client_count;
      } in
      start_thread client_socket i created s₄

  unfoldable pub accept_at : ℤ → Bool → Option ℕ → Server → Server
  unfolding take_slot
  accept_at client_socket created none s = record s { io = close client_socket s.io }
  accept_at client_socket created (some i) s = take_slot client_socket created i s

  -- One turn of the loop of `main`, once `accept` has returned a socket.
  unfoldable pub accept_client : ℤ → Bool → Server → Server
  unfolding accept_at
  accept_client client_socket created s =
      accept_at client_socket created (find_index is_free s.clients) s

-- `cleanup_server` for one connection.
unfoldable pub shut_connection : ClientConnection → ClientConnection
shut_connection c =
    if c.connected && not (is_neg c.socket_fd) then record c { connected = false } else c

unfoldable pub close_connections : List ClientConnection → Io → Io
close_connections [] io = io
close_connections (c ∷ cs) io =
    close_connections cs
      (if c.connected && not (is_neg c.socket_fd) then close c.socket_fd io else io)

unfoldable pub cleanup_server : Server → Server
unfolding shut_connection close_connections close_socket
cleanup_server s =
    let s₁ : Server = close_socket s.server_socket (record s { running = false }) in
    let live : List ClientConnection = take s.client_count s.clients in
    record s₁ {
      clients = map shut_connection live ++ drop s.client_count s.clients;
      io = close_connections live s₁.io;
    }

-- One `accept`: what the other threads and the signal handler do while it waits, the socket or -1,
-- whether `errno` is EINTR, and whether `pthread_create` then succeeds.
pub record Attempt : Type 0 where
  pub meanwhile : Server → Server
  pub client_socket : ℤ
  pub interrupted : Bool
  pub created : Bool

module _ (env : Env) where
  -- The loop of `main` around `accept`; `none` while the next `accept` still waits.
  unfoldable pub accept_loop : List Attempt → Server → Option Server
  accept_loop [] s = if s.running then none else some s
  accept_loop (a ∷ attempts) s =
      let s₁ : Server = a.meanwhile s in
      let failed = accept_loop attempts s₁ in
      let accepted = accept_loop attempts (accept_client env a.client_socket a.created s₁) in
      if not s.running
      then some s
      else if not (is_neg a.client_socket)
      then accepted
      else if a.interrupted && not s₁.running
      then some s₁
      else failed

  -- What follows `init_server`; the Boolean is true for EXIT_SUCCESS.
  unfoldable pub serve : ℤ → List Attempt → Server → Option (Bool × Server)
  unfolding accept_loop
  serve started attempts s =
      let last = accept_loop attempts s in
      if is_neg started then some (false, s) else Option.map (λ t. (true, cleanup_server t)) last

  unfoldable pub main : Startup → List Attempt → Server → Option (Bool × Server)
  unfolding serve
  main calls attempts s = let (started, s₁) = init_server calls s in serve started attempts s₁
