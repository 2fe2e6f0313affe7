-- ===== src/Client/Network/Requests.antt =====
-- src/network.c: requests and replies on a working network.
use c_chat.Prelude.{
  ℕ, suc, ◌^◌, ◌<◌, ◌≡◌, refl, sym, ap, ◌∙◌, true, false, some, List, [], ◌∷◌, ◌++◌, pos, int_eq,
  int_eq_refl, length, min_self, take-all, arith, lt→ltb,
}
use native.Mathlib.Nat.{le_refl}
use mathlib.Core.List.{append_assoc, append-nil}
use c_chat.Server.Types.{MessageType, type_code}
use c_chat.Server.Io.{Env, IsReliable, Io, send, recv, malloc}
use c_chat.Server.Words.{read_be32-be32}
use c_chat.Server.Protocol.{header}
use c_chat.Server.Protocol.Frame.{stream, frame, send_works}
use c_chat.Server.Protocol.Receive.{blocks-append, recv-append}
use c_chat.Client.{network, Link}
use c_chat.Client.Network.{
  Connection, send_all, send_body, send_request, reply_body, receive_body, reply_header,
  receive_reply, ask,
}

module _ (env : Env) (link : Link) (works : IsReliable env) (n : ℕ) where
  -- A connection that is up, on socket `n`.
  abbrev pub up : Io → Connection
  up io = record { server_socket = pos n; connected_to_server = true; waits = false; io = io }

  -- These bytes went out on the socket, and what waits there to be read is `rest`.
  abbrev pub Exchanges : Io → List ℕ → List ℕ → Io → Type 0
  Exchanges io bytes rest io' =
      (stream (pos n) io'.events ≡ stream (pos n) io.events ++ bytes) × (io'.inbox (pos n) ≡ rest)

  send-Exchanges :
      (bytes : List ℕ) (io : Io)
      → Exchanges io bytes (io.inbox (pos n)) (send env (pos n) bytes io).1
  unfolding send
  send-Exchanges bytes io =
      rw
        (
          works.sends io.calls (pos n) (length bytes),
          int_eq_refl (pos n),
          min_self (length bytes),
          take-all (length bytes) bytes (le_refl _),
        )
        (refl, refl)

  send_all-up :
      (bytes : List ℕ) (io : Io)
      → send_all env link bytes (up io) ≡ (true, up (send env (pos n) bytes io).1)
  unfolding send_all
  send_all-up bytes io =
      let test : int_eq (send env (pos n) bytes io).0 (pos (length bytes)) ≡ true =
        rw (send_works env (pos n) works bytes io) (int_eq_refl (pos (length bytes))) in
      rw test refl

  send_body-up :
      (payload : List ℕ) (io : Io)
      → (io' : Io) × (send_body env link payload (up io) ≡ (pos 0, up io'))
        × Exchanges io payload (io.inbox (pos n)) io'
  unfolding send_body
  send_body-up [] io = (io, refl, (sym (append-nil (stream (pos n) io.events)), refl))
  send_body-up (x ∷ xs) io = (
    (send env (pos n) (x ∷ xs) io).1,
    rw (lt→ltb 0 (suc (length xs)) (omega arith), send_all-up (x ∷ xs) io) refl,
    send-Exchanges (x ∷ xs) io,
  )

  pub send_request-up :
      (type : ℕ) (payload : List ℕ) (io : Io)
      → (io' : Io) × (send_request env link type payload (up io) ≡ (pos 0, up io'))
        × Exchanges io (header (length payload) type ++ payload) (io.inbox (pos n)) io'
  unfolding send_request
  send_request-up type payload io =
      let h : List ℕ = header (length payload) type in
      let io₁ : Io = (send env (pos n) h io).1 in
      let (out₁, in₁) = send-Exchanges h io in
      let (io₂, sent, (out₂, in₂)) = send_body-up payload io₁ in
      (
        io₂,
        rw (send_all-up h io) sent,
        (
          out₂
              ∙ ap (λ bytes. bytes ++ payload) out₁
              ∙ append_assoc (stream (pos n) io.events) h payload,
          in₂ ∙ in₁,
        ),
      )

  recv-events : (len : ℕ) (io : Io) → (recv env (pos n) len io).1.events ≡ io.events
  unfolding recv
  recv-events len io = rw (works.receives io.calls (pos n) len) refl

  receive_body-up :
      (type : ℕ) (payload rest : List ℕ) (io : Io)
      → io.inbox (pos n) ≡ payload ++ rest
      → (io' : Io) × (receive_body env link type (length payload) (up io)
          ≡ (some (record { type = type; payload = payload }), up io'))
        × (io'.events ≡ io.events)
        × (io'.inbox (pos n) ≡ rest)
  unfolding receive_body reply_body malloc
  receive_body-up type payload rest io e =
      let io₁ : Io = record io { calls = suc io.calls } in
      let (got, left) = recv-append env (pos n) works io₁ payload rest e in
      (
        (recv env (pos n) (length payload) io₁).1,
        rw
            (
              works.allocates io.calls (length payload),
              blocks-append env (pos n) works io₁ payload rest e,
              got,
            )
            (ground arith),
        recv-events (length payload) io₁,
        left,
      )

  reply_header-up :
      (type : MessageType) (payload rest : List ℕ) (io : Io)
      → length payload < 2 ^ 32
      → io.inbox (pos n) ≡ payload ++ rest
      → (io' : Io) × (reply_header env link
            (some (header (length payload) (type_code type)))
            (up io)
          ≡ (some (record { type = type_code type; payload = payload }), up io'))
        × (io'.events ≡ io.events)
        × (io'.inbox (pos n) ≡ rest)
  unfolding reply_header
  reply_header-up type [] rest io h e =
      (io, rw (read_be32-be32 0 (type_code type ∷ []) (omega arith)) refl, refl, e)
  reply_header-up type (x ∷ xs) rest io h e =
      let (io', got, quiet, left) = receive_body-up (type_code type) (x ∷ xs) rest io e in
      (
        io',
        rw
            (
              read_be32-be32 (suc (length xs)) (type_code type ∷ []) h,
              lt→ltb 0 (suc (length xs)) (omega arith),
            )
            got,
        quiet,
        left,
      )

  receive_reply-up :
      (type : MessageType) (payload rest : List ℕ) (io : Io)
      → length payload < 2 ^ 32
      → io.inbox (pos n) ≡ frame type payload ++ rest
      → (io' : Io) × (receive_reply env link (up io)
          ≡ (some (record { type = type_code type; payload = payload }), up io'))
        × (io'.events ≡ io.events)
        × (io'.inbox (pos n) ≡ rest)
  unfolding receive_reply
  receive_reply-up type payload rest io h e =
      let head : List ℕ = header (length payload) (type_code type) in
      let (got, left) = recv-append env (pos n) works io head (payload ++ rest) e in
      let (io', reply, quiet, after) =
        reply_header-up type payload rest (recv env (pos n) 5 io).1 h left in
      (
        io',
        rw (blocks-append env (pos n) works io head (payload ++ rest) e, got) reply,
        quiet ∙ recv-events 5 io,
        after,
      )

  -- A request goes out whole, and the frame that waits is what is taken for the reply.
  pub ask-up :
      (request : ℕ) (payload : List ℕ) (type : MessageType) (answer rest : List ℕ) (io : Io)
      → length answer < 2 ^ 32
      → io.inbox (pos n) ≡ frame type answer ++ rest
      → (io' : Io) × (ask env link request payload (up io)
          ≡ ((network, some (record { type = type_code type; payload = answer })), up io'))
        × Exchanges io (header (length payload) request ++ payload) rest io'
  unfolding ask malloc
  ask-up request payload type answer rest io h e =
      let io₁ : Io = record io { calls = suc io.calls } in
      let (io₂, sent, (out, kept)) = send_request-up request payload io₁ in
      let (io₃, reply, quiet, left) = receive_reply-up type answer rest io₂ h (kept ∙ e) in
      (
        io₃,
        rw (works.allocates io.calls (length payload), sent, reply) refl,
        (ap (stream (pos n)) quiet ∙ out, left),
      )
