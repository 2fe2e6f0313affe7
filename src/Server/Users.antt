-- ===== src/Server/Users.antt =====
-- server/src/user_management.c: the registry of users, the search for a connection, the check of a
-- login, and the notice of a status to the other connections.
pub mod Registry
pub mod Login
pub mod Broadcast
use c_chat.Prelude.{
  ℕ, ◌+◌, ◌%◌, ◌^◌, Bool, true, false, not, ◌&&◌, Option, none, some, List, [], ◌∷◌, ◌++◌, ℤ, pos,
  negsuc, is_neg, length, get_or, set, take, str_eq, find_index, if◌then◌else◌, leb,
}
use c_chat.Server.Types.{
  max_username_len, max_clients, challenge_size, UserStatus, offline, online, status_code,
  status_update, UserRecord, ClientConnection,
}
use c_chat.Server.Io.{Env, Io, State, ◌>>=◌, ◌>>◌, pure, malloc, time_now}
use c_chat.Server.Protocol.{send_network_message, validate_username_server}
use c_chat.Server.State.{Server, client_at, set_client, lift}

-- `strncpy(dst, src, MAX_USERNAME_LEN - 1)` and the terminator behind it.
abbrev pub copy_name : List ℕ → List ℕ
copy_name = take 31

unfoldable pub is_user : List ℕ → UserRecord → Bool
is_user username u = u.is_registered && str_eq u.username username

-- A pointer into `server.users` is its index.
unfoldable pub find_user : List ℕ → List UserRecord → Option ℕ
find_user username users = find_index (is_user username) users

unfoldable pub is_client : List ℕ → ClientConnection → Bool
is_client username c = c.connected && c.authenticated && str_eq c.username username

-- The index of the slot in `server.clients`.
unfoldable pub find_client_by_username : List ℕ → Server → Option ℕ
find_client_by_username username s = find_index (is_client username) (take s.client_count s.clients)

abbrev pub zero_user : UserRecord
zero_user = record {
  username = [];
  public_key = [];
  status = offline;
  last_seen = 0;
  is_registered = false;
}

-- `server.users[i]`
abbrev pub user_at : ℕ → Server → UserRecord
user_at i s = get_or s.users i zero_user

unfoldable pub set_user_status : ℕ → UserStatus → ℕ → Server → Server
set_user_status i status now s = record s {
  users = set s.users i (record (user_at i s) { status = status; last_seen = now });
}

unfoldable pub is_none : Option ℕ → Bool
is_none none = true
is_none (some i) = false

module _ (env : Env) where
  -- The new record behind the others. `public_key` points to at least PUBLIC_KEY_SIZE bytes.
  unfoldable pub append_user : List ℕ → List ℕ → State Server ℤ
  append_user username public_key = do
    now ← lift (time_now env)
    λ s. (
      pos 0,
      record s {
        users =
            s.users
            ++ record {
              username = copy_name username;
              public_key = take env.public_key_size public_key;
              status = offline;
              last_seen = now;
              is_registered = true;
            }
              ∷ [];
      },
    )

  -- The loop of `add_user` over the users is that of `find_user`.
  unfoldable pub add_user : List ℕ → List ℕ → State Server ℤ
  add_user username public_key s =
      if is_neg (validate_username_server username)
      then (negsuc 0, s)
      else if leb max_clients (length s.users)
      then (negsuc 0, s)
      else if not (is_none (find_user username s.users))
      then (negsuc 1, s)
      else append_user username public_key s

  -- Results of the sends are ignored.
  unfoldable pub broadcast_loop : List ℕ → List ℕ → List ClientConnection → Io → Io
  broadcast_loop username payload [] io = io
  broadcast_loop username payload (c ∷ cs) io = broadcast_loop username payload cs (
      if c.connected && c.authenticated && not (str_eq c.username username)
      then (send_network_message env c.socket_fd status_update payload io).1
      else io)

  unfoldable pub status_payload : List ℕ → UserStatus → List ℕ
  status_payload username status = (length username % 2 ^ 8) ∷ (username ++ status_code status ∷ [])

  unfoldable pub broadcast_status_update : List ℕ → UserStatus → Server → Server
  broadcast_status_update username status s =
      let (allocated, io₁) = malloc env (1 + length username + 1) s.io in
      if allocated
      then record s {
        io =
            broadcast_loop username (status_payload username status) (take s.client_count s.clients)
              io₁;
      }
      else record s { io = io₁ }

  -- What `authenticate_user` does once the signature is verified: `u` is the user's index.
  unfoldable pub admit_client : ℕ → List ℕ → ℕ → Server → Server
  unfolding set_user_status
  admit_client i username u s =
      let s₁ : Server =
        set_client i
          (record (client_at i s) { authenticated = true; username = copy_name username }) s in
      let (now, s₂) = lift (time_now env) s₁ in
      broadcast_status_update username online (set_user_status u online now s₂)

  unfoldable pub authenticate_found : ℕ → List ℕ → List ℕ → Option ℕ → State Server ℤ
  authenticate_found i username signature none s = (negsuc 0, s)
  authenticate_found i username signature (some u) s =
      if env.verify (take env.signature_size signature) (client_at i s).challenge
        (user_at u s).public_key
      then (pos 0, admit_client i username u s)
      else (negsuc 0, s)

  unfoldable pub authenticate_user : ℕ → List ℕ → List ℕ → State Server ℤ
  unfolding authenticate_found
  authenticate_user i username signature s =
      authenticate_found i username signature (find_user username s.users) s
