-- ===== src/Server/Users/Broadcast.antt =====
-- server/src/user_management.c, broadcast_status_update: who is told of a status.
use c_chat.Prelude.{
  ℕ, suc, ◌+◌, ◌<◌, ◌%◌, ◌^◌, arith, ◌≡◌, refl, sym, ap, ◌∙◌, Bool, true, false, not, ◌&&◌, List,
  [], ◌∷◌, ◌++◌, ℤ, length, take, int_eq, int_eq→eq, str_eq, if◌then◌else◌, Bool-cases, inl, inr,
}
use mathlib.Core.List.{append_assoc, append-nil}
use c_chat.Server.Types.{UserStatus, status_update, status_code, ClientConnection}
use c_chat.Server.Io.{Env, IsReliable, Io, malloc}
use c_chat.Server.Protocol.{send_network_message}
use c_chat.Server.Protocol.Frame.{stream, frame, sends_frame}
use c_chat.Server.Protocol.Others.{send_network_message-other}
use c_chat.Server.State.{Server}
use c_chat.Server.Users.{broadcast_loop, status_payload, broadcast_status_update}

-- Who is logged in under another name, and has this socket.
abbrev pub is_told : List ℕ → ℤ → ClientConnection → Bool
is_told username fd c =
    (c.connected && c.authenticated && not (str_eq c.username username)) && int_eq c.socket_fd fd

-- The notices that socket `fd` is due, one for each connection of it.
abbrev pub notices : List ℕ → List ℕ → ℤ → List ClientConnection → List ℕ
notices username notice fd [] = []
notices username notice fd (c ∷ cs) =
    let rest = notices username notice fd cs in
    if is_told username fd c then notice ++ rest else rest

module _ (env : Env) (works : IsReliable env) (username : List ℕ) (fd : ℤ) where
  told_stream :
      (c : ClientConnection) (payload : List ℕ) (io : Io)
      → int_eq c.socket_fd fd ≡ true
      → stream fd (send_network_message env c.socket_fd status_update payload io).1.events
        ≡ stream fd io.events ++ frame status_update payload
  told_stream c payload io same =
      rw (← int_eq→eq c.socket_fd fd same)
        (sends_frame env c.socket_fd works status_update payload io).1

  loop-stream :
      (payload : List ℕ) (cs : List ClientConnection) (io : Io)
      → stream fd (broadcast_loop env username payload cs io).events
        ≡ stream fd io.events ++ notices username (frame status_update payload) fd cs
  unfolding broadcast_loop
  loop-stream payload [] io = sym (append-nil (stream fd io.events))
  loop-stream payload (c ∷ cs) io =
      loop-stream payload cs _
      ∙ told payload c cs io (c.connected && c.authenticated && not (str_eq c.username username))
    where
      told :
          (payload : List ℕ) (c : ClientConnection) (cs : List ClientConnection) (io : Io)
          (b : Bool)
          → stream fd
                (if b
                  then (send_network_message env c.socket_fd status_update payload io).1
                  else io).events
              ++ notices username (frame status_update payload) fd cs
            ≡ stream fd io.events
              ++ (if b && int_eq c.socket_fd fd
                  then frame status_update payload
                    ++ notices username (frame status_update payload) fd cs
                  else notices username (frame status_update payload) fd cs)
      told payload c cs io false = refl
      told payload c cs io true = elim (Bool-cases (int_eq c.socket_fd fd)) [
        | inl same ↦ rw same (
            ap (λ bytes. bytes ++ notices username (frame status_update payload) fd cs)
              (told_stream c payload io same)
            ∙ append_assoc (stream fd io.events) (frame status_update payload)
                (notices username (frame status_update payload) fd cs))
        | inr other ↦ rw other (
            ap (λ bytes. bytes ++ notices username (frame status_update payload) fd cs)
              (send_network_message-other env c.socket_fd fd other status_update payload io))
      ]

  -- On a working network, the broadcast of the status of a user, whose name is shorter than 256 bytes,
  -- puts one notice, with the length of the name, the name and the status, on the stream of a socket for each connection of the socket that is counted, connected and logged in
  -- under another name, and nothing else on any stream.
  pub broadcast_status_update-stream :
      (status : UserStatus) (s : Server)
      → length username < 2 ^ 8
      → stream fd (broadcast_status_update env username status s).io.events
        ≡ stream fd s.io.events
          ++ notices username
              (frame status_update (length username ∷ (username ++ status_code status ∷ [])))
              fd
              (take s.client_count s.clients)
  unfolding broadcast_status_update malloc status_payload
  broadcast_status_update-stream status s short =
      let fits : length username % 2 ^ 8 ≡ length username = omega arith in
      rw (works.allocates s.io.calls (1 + length username + 1), fits)
        (loop-stream (length username ∷ (username ++ status_code status ∷ []))
          (take s.client_count s.clients) (record s.io { calls = suc s.io.calls }))
