-- ===== src/Server/Session/Teardown.antt =====
-- server/src/client_handler.c, behind the loop: the end of a connection.
use c_chat.Prelude.{
  ℕ, ◌<◌, ◌≡◌, ◌≢◌, refl, sym, ap, ◌∙◌, true, false, ◌&&◌, Option, none, some, List, [], ◌∷◌, ℤ,
  pos, negsuc, is_neg, length, get_or, set, get_or-set_self, get_or-set_ne, if◌then◌else◌, ltb,
  arith,
}
use c_chat.Server.Types.{ClientConnection, UserRecord, offline}
use c_chat.Server.Io.{Env, time_now}
use c_chat.Server.State.{Server, client_at, zero_client}
use c_chat.Server.Users.{find_user, user_at, zero_user, set_user_status}
use c_chat.Server.Users.Login.{broadcast-io}
use c_chat.Server.Queue.Ring.{contents}
use c_chat.Server.Session.{clear_queue, close_socket, log_out_user, clear_slot, teardown}

module _ (env : Env) (i : ℕ) where
  -- Slot `i` is free again: no socket, no login, no message; every other slot is as it was; and a
  -- user who was logged in there is offline.
  pub record Freed (s t : Server) : Type 0 where
    pub closed : is_neg (client_at i t).socket_fd ≡ true
    pub hung_up : (client_at i t).connected ≡ false
    pub logged_out : (client_at i t).authenticated ≡ false
    pub nameless : (client_at i t).username ≡ []
    pub emptied : contents (client_at i t).queue ≡ []
    pub others : (k : ℕ) → k ≢ i → client_at k t ≡ client_at k s
    pub away :
        (u : ℕ)
        → (client_at i s).authenticated ≡ true
        → (client_at i s).username ≢ []
        → find_user (client_at i s).username s.users ≡ some u
        → u < length s.users
        → (user_at u t).status ≡ offline

  -- The state that the login leaves.
  abbrev left : Server → Server
  left s =
      if (client_at i s).authenticated && ltb 0 (length (client_at i s).username)
      then log_out_user env i (find_user (client_at i s).username s.users) s
      else s

  log_out_user-clients : (o : Option ℕ) (s : Server) → (log_out_user env i o s).clients ≡ s.clients
  unfolding log_out_user time_now set_user_status
  log_out_user-clients none s = refl
  log_out_user-clients (some u) s = ap (λ (t : Server). t.clients) (broadcast-io env _ offline _)

  left-clients : (s : Server) → (left s).clients ≡ s.clients
  left-clients s =
      ground (arith, log_out_user-clients (find_user (client_at i s).username s.users) s)

  log_out_user-users :
      (u : ℕ) (s : Server)
      → u < length s.users
      → (user_at u (log_out_user env i (some u) s)).status ≡ offline
  unfolding log_out_user time_now set_user_status
  log_out_user-users u s inside =
      ap (λ (t : Server). (user_at u t).status) (broadcast-io env _ offline _)
      ∙ ap (λ (v : UserRecord). v.status) (get_or-set_self s.users u _ zero_user inside)

  has_name : (name : List ℕ) → name ≢ [] → ltb 0 (length name) ≡ true
  has_name [] h = absurd (h refl)
  has_name (c ∷ cs) h = ground arith

  left-users :
      (u : ℕ) (s : Server)
      → (client_at i s).authenticated ≡ true
      → (client_at i s).username ≢ []
      → find_user (client_at i s).username s.users ≡ some u
      → u < length s.users
      → (user_at u (left s)).status ≡ offline
  left-users u s logged named found known =
      let test : ((client_at i s).authenticated && ltb 0 (length (client_at i s).username)) ≡ true =
        rw (logged, has_name _ named) refl in
      rw (test, found) (log_out_user-users u s known)

  close_socket-clients : (fd : ℤ) (s : Server) → (close_socket fd s).clients ≡ s.clients
  unfolding close_socket
  close_socket-clients (pos n) s = refl
  close_socket-clients (negsuc n) s = refl

  close_socket-users : (fd : ℤ) (s : Server) → (close_socket fd s).users ≡ s.users
  unfolding close_socket
  close_socket-users (pos n) s = refl
  close_socket-users (negsuc n) s = refl

  -- The slot that `clear_slot` writes.
  abbrev cleared : ClientConnection → ClientConnection
  cleared c = record c {
    socket_fd = if is_neg c.socket_fd then c.socket_fd else negsuc 0;
    connected = false;
    authenticated = false;
    username = [];
    queue = record c.queue { queue_head = 0; queue_tail = 0; queue_count = 0 };
  }

  teardown-clients :
      (s : Server) → (teardown env i s).clients ≡ set s.clients i (cleared (client_at i s))
  unfolding teardown clear_slot clear_queue
  teardown-clients s =
      ap (λ (cs : List ClientConnection). set cs i (cleared (get_or cs i zero_client)))
        (close_socket-clients (client_at i s).socket_fd (left s) ∙ left-clients s)

  -- The end of a connection's thread frees its slot of the array, whatever state the connection is
  -- in: no socket, no login and no message is left there, every other slot is as it was, and a
  -- registered user who was logged in there is offline.
  pub teardown-Freed : (s : Server) → i < length s.clients → Freed s (teardown env i s)
  unfolding teardown clear_slot
  teardown-Freed s inside =
      let slot : client_at i (teardown env i s) ≡ cleared (client_at i s) =
        ap (λ cs. get_or cs i zero_client) (teardown-clients s)
        ∙ get_or-set_self s.clients i _ zero_client inside in
      record {
        closed = ap (λ (c : ClientConnection). is_neg c.socket_fd) slot ∙ ground arith;
        hung_up = ap (λ (c : ClientConnection). c.connected) slot;
        logged_out = ap (λ (c : ClientConnection). c.authenticated) slot;
        nameless = ap (λ (c : ClientConnection). c.username) slot;
        emptied = ap (λ (c : ClientConnection). contents c.queue) slot;
        others = λ k ne.
            ap (λ cs. get_or cs k zero_client) (teardown-clients s)
            ∙ get_or-set_ne s.clients i k _ zero_client (λ e. ne (sym e));
        away = λ u logged named found known.
            ap (λ us. (get_or us u zero_user).status)
              (close_socket-users (client_at i s).socket_fd (left s))
            ∙ left-users u s logged named found known;
      }
