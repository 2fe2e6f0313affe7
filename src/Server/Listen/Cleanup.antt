-- ===== src/Server/Listen/Cleanup.antt =====
-- server/src/server.c, cleanup_server: what is closed at the end.
use c_chat.Prelude.{
  ℕ, zero, suc, ◌<◌, ◌≡◌, ◌⊎◌, refl, ◌∙◌, Bool, true, false, not, ◌&&◌, ◌||◌, List, [], ◌∷◌, ◌++◌,
  map, ℤ, pos, negsuc, is_neg, int_eq, int_eq_refl, get_or, take, drop, if◌then◌else◌, arith,
  Bool-cases, inl, inr,
}
use c_chat.Server.Types.{ClientConnection}
use c_chat.Server.Io.{Io, Event, wrote, closed, close}
use c_chat.Server.Protocol.Frame.{stream}
use c_chat.Server.State.{Server, client_at, zero_client}
use c_chat.Server.Session.{close_socket}
use c_chat.Server.Listen.{shut_connection, close_connections, cleanup_server}

-- Whether a socket was closed.
abbrev pub is_closed : ℤ → List Event → Bool
is_closed fd [] = false
is_closed fd (wrote g bytes ∷ events) = is_closed fd events
is_closed fd (closed g ∷ events) = int_eq g fd || is_closed fd events

-- A connection is live that is connected on a socket.
abbrev pub is_live : ClientConnection → Bool
is_live c = c.connected && not (is_neg c.socket_fd)

-- What the loop does with one connection.
abbrev one_closed : ClientConnection → Io → Io
one_closed c io = if is_live c then close c.socket_fd io else io

one_closed-kept :
    (fd : ℤ) (c : ClientConnection) (io : Io)
    → is_closed fd io.events ≡ true
    → is_closed fd (one_closed c io).events ≡ true
unfolding close
one_closed-kept fd c io h = elim (Bool-cases (is_live c)) [
  | inl live ↦ rw (live, h) (ground arith)
  | inr gone ↦ rw gone h
]

one_closed-closes :
    (c : ClientConnection) (io : Io)
    → is_live c ≡ true
    → is_closed c.socket_fd (one_closed c io).events ≡ true
unfolding close
one_closed-closes c io live = rw (live, int_eq_refl c.socket_fd) refl

one_closed-stream :
    (fd : ℤ) (c : ClientConnection) (io : Io)
    → stream fd (one_closed c io).events ≡ stream fd io.events
unfolding close
one_closed-stream fd c io = elim (Bool-cases (is_live c)) [
  | inl live ↦ rw live refl
  | inr gone ↦ rw gone refl
]

close_connections-kept :
    (fd : ℤ) (cs : List ClientConnection) (io : Io)
    → is_closed fd io.events ≡ true
    → is_closed fd (close_connections cs io).events ≡ true
unfolding close_connections
close_connections-kept fd [] io h = h
close_connections-kept fd (c ∷ cs) io h =
    close_connections-kept fd cs (one_closed c io) (one_closed-kept fd c io h)

close_connections-closes :
    (cs : List ClientConnection) (n i : ℕ) (io : Io)
    → i < n
    → is_live (get_or cs i zero_client) ≡ true
    → is_closed (get_or cs i zero_client).socket_fd (close_connections (take n cs) io).events ≡ true
unfolding close_connections
close_connections-closes [] n i io h live = cc
close_connections-closes (c ∷ cs) zero i io h live = absurd (omega arith)
close_connections-closes (c ∷ cs) (suc n) zero io h live =
    close_connections-kept c.socket_fd (take n cs) (one_closed c io) (one_closed-closes c io live)
close_connections-closes (c ∷ cs) (suc n) (suc i) io h live =
    close_connections-closes cs n i (one_closed c io) (omega arith) live

close_connections-stream :
    (fd : ℤ) (cs : List ClientConnection) (io : Io)
    → stream fd (close_connections cs io).events ≡ stream fd io.events
unfolding close_connections
close_connections-stream fd [] io = refl
close_connections-stream fd (c ∷ cs) io =
    close_connections-stream fd cs (one_closed c io) ∙ one_closed-stream fd c io

shut_connection-dead : (c : ClientConnection) → is_live (shut_connection c) ≡ false
unfolding shut_connection
shut_connection-dead c = elim (Bool-cases (is_live c)) [
  | inl live ↦ rw live refl
  | inr gone ↦ rw gone gone
]

shut_all :
    (cs : List ClientConnection) (n i : ℕ)
    → i < n
    → is_live (get_or (map shut_connection (take n cs) ++ drop n cs) i zero_client) ≡ false
shut_all [] (suc n) i h = refl
shut_all cs zero i h = absurd (omega arith)
shut_all (c ∷ cs) (suc n) zero h = shut_connection-dead c
shut_all (c ∷ cs) (suc n) (suc i) h = shut_all cs n i (omega arith)

module _ (i : ℕ) (fd : ℤ) (s : Server) where
  -- What the end of the server did with connection `i`, and with what is written to a socket.
  pub record Closes (r : Server) : Type 0 where
    pub stopped : r.running ≡ false
    pub dead : is_live (client_at i r) ≡ false
    pub shut :
        (is_live (client_at i s) ≡ false) ⊎ (is_closed (client_at i s).socket_fd r.io.events ≡ true)
    pub quiet : stream fd r.io.events ≡ stream fd s.io.events
    pub users : r.users ≡ s.users

  abbrev start : Io
  start = (close_socket s.server_socket (record s { running = false })).io

  start-stream : stream fd start.events ≡ stream fd s.io.events
  unfolding close_socket close
  start-stream = by_socket s.server_socket
    where
      by_socket :
          (g : ℤ)
          → stream fd (close_socket g (record s { running = false })).io.events
            ≡ stream fd s.io.events
      by_socket (pos n) = refl
      by_socket (negsuc n) = refl

  -- After `cleanup_server` the server is stopped, a connection that is among the counted is not live, its
  -- socket was closed if it was live, nothing more went out on any socket, and the users are as they were.
  pub cleanup_server-Closes : i < s.client_count → Closes (cleanup_server s)
  unfolding cleanup_server close_socket
  cleanup_server-Closes inside = record {
    stopped = ground arith;
    dead = shut_all s.clients s.client_count i inside;
    shut = elim (Bool-cases (is_live (client_at i s))) [
      | inr gone ↦ inl gone
      | inl live ↦ inr (close_connections-closes s.clients s.client_count i start inside live)
    ];
    quiet = close_connections-stream fd (take s.client_count s.clients) start ∙ start-stream;
    users = ground arith;
  }
