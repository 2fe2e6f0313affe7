-- ===== src/Server/Session/Registers.antt =====
-- server/src/client_handler.c, one turn of the loop from end to end, when a registration arrives.
use c_chat.Prelude.{
  ◌*◌, ◌≢◌, ◌⊎◌, ℕ, ◌≤◌, ◌<◌, ◌≡◌, refl, sym, ap, ◌∙◌, inl, inr, Bool, true, some, List, ◌++◌, ℤ,
  pos, negsuc, length, length-append, get_or, get_or-set_self, arith,
}
use c_chat.Server.Types.{
  max_message_len, rate_limit_max_requests, register_user, register_response, ClientConnection,
}
use c_chat.Server.Io.{Env, IsReliable, time_now}
use c_chat.Server.Protocol.Username.{IsUsername}
use c_chat.Server.Protocol.Frame.{stream, frame, sends_frame}
use c_chat.Server.Effects.Inbox.{inbox-send_network_message}
use c_chat.Server.State.{Server, client_at, zero_client}
use c_chat.Server.Users.{find_user, append_user, add_user}
use c_chat.Server.Users.Registry.{add_user-AddUser}
use c_chat.Server.Handlers.{respond}
use c_chat.Server.Handlers.Account.{register_reply, handle_register_user}
use c_chat.Server.Handlers.Account.Register.{name_payload, handle_register_user-add_user}
use c_chat.Server.Session.Serves.{after_count, turn-dispatch, after_count-inbox, after_count-events}
use c_chat.Server.Session.{is_type, dispatch, turn}

module _ (env : Env) (name key : List ℕ) where
  -- The result of `add_user` is a matter of the users; of the rest of the state it changes the clock.
  add_user-same :
      (s t : Server) → s.users ≡ t.users → (add_user env name key s).0 ≡ (add_user env name key t).0
  unfolding add_user append_user time_now
  add_user-same s t e = ground (arith, e)

  add_user-clients : (s : Server) → (add_user env name key s).1.clients ≡ s.clients
  unfolding add_user append_user time_now
  add_user-clients s = ground arith

  add_user-events : (s : Server) → (add_user env name key s).1.io.events ≡ s.io.events
  unfolding add_user append_user time_now
  add_user-events s = ground arith

  add_user-inbox : (s : Server) → (add_user env name key s).1.io.inbox ≡ s.io.inbox
  unfolding add_user append_user time_now
  add_user-inbox s = ground arith

module _ (env : Env) (works : IsReliable env) (i : ℕ) (name key rest : List ℕ) (s : Server)
    (u : IsUsername name) (size : length key ≡ env.public_key_size)
    (bounded : env.public_key_size ≤ 1024) (inside : i < length s.clients)
    (allowed : (client_at i s).rate_limit.request_count < rate_limit_max_requests)
    (arrives : s.io.inbox (client_at i s).socket_fd
      ≡ frame register_user (name_payload name key) ++ rest) where
  abbrev fd : ℤ
  fd = (client_at i s).socket_fd

  small : length (name_payload name key) ≤ max_message_len * 2
  small = omega (arith, length-append name key, u.short)

  abbrev counted : Server
  counted = after_count env i s

  turn-handle_register_user :
      turn env i s ≡ (true, (handle_register_user env i (name_payload name key) counted).1)
  unfolding dispatch is_type
  turn-handle_register_user =
      turn-dispatch env works i s register_user (name_payload name key) rest small allowed arrives

  -- What the turn did: it goes on; the reply of the result went out; what stood behind the request
  -- still waits; and on success the user is found.
  abbrev pub Registers : Bool × Server → Type 0
  Registers r =
      (r.0 ≡ true)
      × (stream fd r.1.io.events
          ≡ stream fd s.io.events
            ++ frame register_response (register_reply (add_user env name key s).0))
      × (r.1.io.inbox fd ≡ rest)
      × (((add_user env name key s).0 ≢ pos 0) ⊎ (find_user name r.1.users ≡ some (length s.users)))

  -- The socket of the slot is the same throughout.
  socket : (client_at i (add_user env name key counted).1).socket_fd ≡ fd
  socket =
      ap (λ cs. (get_or cs i zero_client).socket_fd) (add_user-clients env name key counted)
      ∙ ap (λ (c : ClientConnection). c.socket_fd)
          (get_or-set_self s.clients i _ zero_client inside)

  replies :
      (stream fd (handle_register_user env i (name_payload name key) counted).1.io.events
        ≡ stream fd s.io.events
          ++ frame register_response (register_reply (add_user env name key s).0))
      × ((handle_register_user env i (name_payload name key) counted).1.users
          ≡ (add_user env name key counted).1.users)
      × ((handle_register_user env i (name_payload name key) counted).1.io.inbox fd ≡ rest)
  unfolding respond
  replies =
      let reply : List ℕ = register_reply (add_user env name key counted).0 in
      let (r, out) =
        sends_frame env fd works register_response reply (add_user env name key counted).1.io in
      let before : (add_user env name key counted).1.io.events ≡ s.io.events =
        add_user-events env name key counted ∙ after_count-events env i s in
      rw (handle_register_user-add_user env name key counted u i size, socket)
        (
          out
              ∙ ap (λ events. stream fd events ++ frame register_response reply) before
              ∙ ap (λ k. stream fd s.io.events ++ frame register_response (register_reply k))
                  (add_user-same env name key counted s refl),
          refl,
          ap (λ inbox. inbox fd)
                (inbox-send_network_message env fd register_response reply
                    (add_user env name key counted).1.io
                  ∙ add_user-inbox env name key counted)
              ∙ after_count-inbox env works i s register_user (name_payload name key) rest small
                  allowed arrives,
        )

  refuted : {k : ℕ} → ¬ (negsuc k ≡ pos 0)
  refuted e = cc

  refused :
      (k : ℕ) → (add_user env name key counted).0 ≡ negsuc k → (add_user env name key s).0 ≢ pos 0
  refused k e ok = refuted (sym e ∙ add_user-same env name key counted s refl ∙ ok)

  now_found :
      ((add_user env name key s).0 ≢ pos 0)
      ⊎ (find_user name (add_user env name key counted).1.users ≡ some (length s.users))
  now_found = elim (add_user-AddUser env name key counted) [
    | inl (_, added) ↦ inr added.found
    | inr (inl (taken, _, _, _)) ↦ inl (refused 1 taken)
    | inr (inr (full, _, _)) ↦ inl (refused 0 full)
  ]

  -- On a working network, when a registration with a valid name and a whole key, of at most 1024
  -- bytes, has arrived at a connection of the array that is not over its limit, one turn of its
  -- loop takes exactly the request off the socket, answers with the reply to the result that
  -- `add_user` has on the state before the turn, and goes on. If that result is 0, the name then
  -- finds the user at the end of the registry.
  pub turn-Registers : Registers (turn env i s)
  turn-Registers =
      let (out, users, left) = replies in
      rw turn-handle_register_user (refl, out, left, rw users now_found)
