-- ===== src/Client/Network/Socket.antt =====
-- src/network.c: the two static variables, in requests and at the ends of a connection.
use c_chat.Prelude.{
  ℕ, suc, Bool, Option, none, some, get_or, ap, ◌∙◌, [], if◌then◌else◌, ◌≡◌, ◌⊎◌, refl, true, false,
  List, ◌∷◌, is_neg, length, take, ◌++◌, ltb, arith, Bool-cases, inl, inr,
}
use c_chat.Server.Io.{Env, IsResponsive, State, malloc, recv}
use c_chat.Server.Words.{be16, read_be32}
use c_chat.Server.Protocol.{header}
use c_chat.Client.{is_success, Link}
use c_chat.Client.Network.{
  Connection, send_all, send_body, send_request, with_io, receive_body, reply_header, receive_reply,
  connect_to_server, disconnect_from_server, ask, register_user_with_server, get_user_public_key,
  send_message_to_server,
}

-- A test that is known to fail.
pub if-false : {A : Type 0} (b : Bool) (x y : A) → b ≡ false → (if b then x else y) ≡ y
if-false b x y e = rw e refl

-- Neither connected nor with a socket, and not in a `recv`.
abbrev pub Offline : Connection → Type 0
Offline c = (c.connected_to_server ≡ false) × (is_neg c.server_socket ≡ true) × (c.waits ≡ false)

-- With a socket, and not in a `recv`.
abbrev pub Live : Connection → Type 0
Live c = (is_neg c.server_socket ≡ false) × (c.waits ≡ false)

abbrev pub Held : Connection → Type 0
Held c = Live c ⊎ Offline c

-- On the same socket, and as much in a `recv`.
abbrev pub Same : Connection → Connection → Type 0
Same c c' = (c'.server_socket ≡ c.server_socket) × (c'.waits ≡ c.waits)

pub Same-Live : (c c' : Connection) → Same c c' → Live c → Live c'
Same-Live c c' (socket, waits) (held, free) = (ap is_neg socket ∙ held, waits ∙ free)

module _ (env : Env) (link : Link) (responsive : IsResponsive env) where
  abbrev Keeps : {A : Type 0} → State Connection A → Type 0
  Keeps m = (c : Connection) → Same c (m c).1

  send_all-socket : (bytes : List ℕ) → Keeps (send_all env link bytes)
  unfolding send_all
  send_all-socket bytes c = ground arith

  send_body-socket : (payload : List ℕ) → Keeps (send_body env link payload)
  unfolding send_body
  send_body-socket payload c = elim (Bool-cases (ltb 0 (length payload))) [
    | inl some_data ↦ rw some_data (send_all-socket payload c)
    | inr empty ↦ rw empty (refl, refl)
  ]

  send_request-socket : (type : ℕ) (payload : List ℕ) → Keeps (send_request env link type payload)
  unfolding send_request
  send_request-socket type payload c =
      let (_, c₁) = send_all env link (header (length payload) type) c in
      ground (arith, send_all-socket (header (length payload) type) c, send_body-socket payload c₁)

  receive_body-socket : (type len : ℕ) → Keeps (receive_body env link type len)
  unfolding receive_body malloc
  receive_body-socket type len c =
      ground (arith, responsive.answers (suc c.io.calls) c.server_socket)

  reply_header-socket : (o : Option (List ℕ)) → Keeps (reply_header env link o)
  unfolding reply_header
  reply_header-socket none c = (refl, refl)
  reply_header-socket (some h) c =
      ground (arith, receive_body-socket (get_or h 4 0) (read_be32 h) c)

  receive_reply-socket : Keeps (receive_reply env link)
  unfolding receive_reply
  receive_reply-socket c =
      let (h, c₁) = with_io env link (recv env c.server_socket 5) c in
      ground (arith, responsive.answers c.io.calls c.server_socket, reply_header-socket h c₁)

  ask-socket : (type : ℕ) (payload : List ℕ) → Keeps (ask env link type payload)
  unfolding ask
  ask-socket type payload c =
      let (_, c₁) = with_io env link (malloc env (length payload)) c in
      let (_, c₂) = send_request env link type payload c₁ in
      ground (arith, send_request-socket type payload c₁, receive_reply-socket c₂)

  farewell_free :
      (c : Connection)
      → c.waits ≡ false
      → (if c.connected_to_server then (send_request env link 0x08 [] c).1 else c).waits ≡ false
  farewell_free c free =
      by_test c.connected_to_server (send_request env link 0x08 [] c).1 c
        ((send_request-socket 0x08 [] c).1 ∙ free) free
    where
      by_test :
          (b : Bool) (x y : Connection)
          → x.waits ≡ false
          → y.waits ≡ false
          → (if b then x else y).waits ≡ false
      by_test true x y p q = p
      by_test false x y p q = q

  -- What a disconnection leaves, of a connection with a socket or offline.
  pub disconnect_from_server-Offline :
      (c : Connection) → Held c → Offline (disconnect_from_server env link c).1
  unfolding disconnect_from_server
  disconnect_from_server-Offline c (inl (held, free)) = rw held (refl, refl, farewell_free c free)
  disconnect_from_server-Offline c (inr (lost, none_held, free)) =
      rw none_held (lost, none_held, free)

  pub connect_to_server-Offline :
      (c : Connection)
      → Offline c
      → is_success (connect_to_server env link c).0 ≡ false
      → Offline (connect_to_server env link c).1
  unfolding connect_to_server
  connect_to_server-Offline c (lost, none_held, free) = ground arith

  -- After a success there is a socket.
  pub connect_to_server-Live :
      (c : Connection)
      → Offline c
      → is_success (connect_to_server env link c).0 ≡ true
      → Live (connect_to_server env link c).1
  unfolding connect_to_server
  connect_to_server-Live c (lost, none_held, free) = ground arith

  pub get_user_public_key-socket : (name : List ℕ) → Keeps (get_user_public_key env link name)
  unfolding get_user_public_key
  get_user_public_key-socket name c = ground (arith, ask-socket 0x03 (length name ∷ name) c)

  pub send_message_to_server-socket :
      (name body : List ℕ) → Keeps (send_message_to_server env link name body)
  unfolding send_message_to_server
  send_message_to_server-socket name body c =
      ground (arith, ask-socket 0x04 (length name ∷ (name ++ (be16 (length body) ++ body))) c)

  pub register_user_with_server-socket :
      (name key : List ℕ) → Keeps (register_user_with_server env link name key)
  unfolding register_user_with_server
  register_user_with_server-socket name key c =
      ground (arith, ask-socket 0x01 (length name ∷ (name ++ take env.public_key_size key)) c)
