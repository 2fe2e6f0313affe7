-- ===== src/Server/Protocol/Receive.antt =====
-- server/src/protocol.c: what was framed at the head of a socket, and what is read of it.
use c_chat.Prelude.{
  ℕ, suc, ◌*◌, ◌≤◌, ◌≡◌, refl, sym, ap, ◌∙◌, Option, none, some, List, [], ◌∷◌, ◌++◌, ℤ,
  int_eq_refl, length, get_or, drop, ltb, length-append, Bool, true, false, ◌&&◌, Bool-cases, inl,
  inr, take-append-drop, take-append, drop-append, arith, min,
}
use mathlib.Core.Option.{some-injective}
use c_chat.Server.Types.{max_message_len, MessageType, type_code, NetworkMessage}
use c_chat.Server.Io.{Env, IsReliable, Io, blocks, after_recv, recv, malloc}
use c_chat.Server.Words.{read_be32, read_be32-be32}
use c_chat.Server.Protocol.{
  header, message, payload_message, receive_payload, decode_header, header_message,
  receive_network_message,
}
use c_chat.Server.Protocol.Frame.{frame}

-- How `m` was read off a socket that held `bytes`, and left `rest` on it.
pub record Decodes (bytes rest : List ℕ) (m : NetworkMessage) : Type 0 where
  pub head : List ℕ
  pub head_size : length head ≡ 5
  pub whole : bytes ≡ head ++ (m.payload ++ rest)
  pub sized : length m.payload ≡ read_be32 head
  pub bounded : length m.payload ≤ max_message_len * 2
  pub typed : m.type ≡ get_or head 4 0

module _ (env : Env) (fd : ℤ) where
  after_recv-split :
      (len : ℕ) (io : Io) (o : Option ℕ) (got : List ℕ)
      → (after_recv env fd len io o).0 ≡ some got
      → io.inbox fd ≡ got ++ (after_recv env fd len io o).1.inbox fd
  after_recv-split len io none got h = cc
  after_recv-split len io (some n) got h = rw (int_eq_refl fd) (
      sym (take-append-drop (min n len) (io.inbox fd))
      ∙ ap (λ g. g ++ drop (min n len) (io.inbox fd)) (some-injective _ _ h))

  -- What `recv` puts into the buffer is what it takes off the socket.
  recv-split :
      (len : ℕ) (io : Io) (got : List ℕ)
      → (recv env fd len io).0 ≡ some got
      → io.inbox fd ≡ got ++ (recv env fd len io).1.inbox fd
  unfolding recv
  recv-split len io got = after_recv-split len io (env.recv io.calls fd len) got

  payload_message_inv :
      (type len : ℕ) (o : Option (List ℕ)) (m : NetworkMessage)
      → payload_message type len o ≡ message m
      → (o ≡ some m.payload) × (length m.payload ≡ len) × (m.type ≡ type)
  unfolding payload_message
  payload_message_inv type len none m h = cc
  payload_message_inv type len (some payload) m h = ground arith

  receive_payload-message :
      (type len : ℕ) (io : Io) (m : NetworkMessage)
      → (receive_payload env fd type len io).0 ≡ message m
      → (length m.payload ≡ len)
        × (m.type ≡ type)
        × (io.inbox fd ≡ m.payload ++ (receive_payload env fd type len io).1.inbox fd)
  unfolding receive_payload malloc
  receive_payload-message type len io m h =
      let io₁ : Io = record io { calls = suc io.calls } in
      ground (
        arith,
        payload_message_inv type len (recv env fd len io₁).0 m,
        recv-split len io₁ m.payload,
      )

  decode_header-message :
      (h : List ℕ) (io : Io) (m : NetworkMessage)
      → (decode_header env fd h io).0 ≡ message m
      → (length h ≡ 5)
        × (length m.payload ≡ read_be32 h)
        × (length m.payload ≤ max_message_len * 2)
        × (m.type ≡ get_or h 4 0)
        × (io.inbox fd ≡ m.payload ++ (decode_header env fd h io).1.inbox fd)
  unfolding decode_header
  decode_header-message h io m e =
      ground (arith, receive_payload-message (get_or h 4 0) (read_be32 h) io m)

  header_message-Decodes :
      (io io₁ : Io) (o : Option (List ℕ)) (m : NetworkMessage)
      → ((got : List ℕ) → o ≡ some got → io.inbox fd ≡ got ++ io₁.inbox fd)
      → (header_message env fd o io₁).0 ≡ message m
      → Decodes (io.inbox fd) ((header_message env fd o io₁).1.inbox fd) m
  unfolding header_message
  header_message-Decodes io io₁ none m split e = cc
  header_message-Decodes io io₁ (some h) m split e =
      let (a, b, c, d, rest) = decode_header-message h io₁ m e in
      record {
        head = h;
        head_size = a;
        whole = split h refl ∙ ap (◌++◌ h) rest;
        sized = b;
        bounded = c;
        typed = d;
      }

  -- A message that `receive_network_message` returns was framed so at the head of the socket's
  -- bytes: five bytes of header with its length and type, then its payload, of at most 2048 bytes.
  -- Exactly these bytes are taken off the socket.
  pub receive_network_message-Decodes :
      (io : Io) (m : NetworkMessage)
      → (receive_network_message env fd io).0 ≡ message m
      → Decodes (io.inbox fd) ((receive_network_message env fd io).1.inbox fd) m
  unfolding receive_network_message
  receive_network_message-Decodes io m e = elim (Bool-cases (blocks env fd 5 io)) [
    | inl held ↦ cc (rw held at e)
    | inr free ↦ rw free (
        header_message-Decodes io (recv env fd 5 io).1 (recv env fd 5 io).0 m (recv-split 5 io)
          (rw free at e))
  ]

  module _ (works : IsReliable env) where
    pub recv-append :
        (io : Io) (got rest : List ℕ)
        → io.inbox fd ≡ got ++ rest
        → let (o, io') = recv env fd (length got) io in (o ≡ some got) × (io'.inbox fd ≡ rest)
    unfolding recv
    recv-append io got rest e =
        rw (works.receives io.calls fd (length got), int_eq_refl fd, e)
          (ap some (take-append got rest _ (omega arith)), drop-append got rest _ (omega arith))

    and-false : (b : Bool) → (b && false) ≡ false
    and-false true = refl
    and-false false = refl

    pub blocks-append :
        (io : Io) (got rest : List ℕ)
        → io.inbox fd ≡ got ++ rest
        → blocks env fd (length got) io ≡ false
    blocks-append io got rest e =
        let enough : ltb (length (got ++ rest)) (min (length got) (length got)) ≡ false =
          ground (arith, length-append got rest) in
        rw (works.receives io.calls fd (length got), e, enough) (and-false (env.silent io.calls fd))

    receive_payload-append :
        (type : ℕ) (io : Io) (payload rest : List ℕ)
        → io.inbox fd ≡ payload ++ rest
        → let (r, io') = receive_payload env fd type (length payload) io in
          (r ≡ message (record { type = type; payload = payload })) × (io'.inbox fd ≡ rest)
    unfolding receive_payload malloc
    receive_payload-append type io payload rest e = ground (
      arith,
      works.allocates io.calls (length payload),
      blocks-append (record io { calls = suc io.calls }) payload rest e,
      recv-append (record io { calls = suc io.calls }) payload rest e,
    )

    decode_header-append :
        (code : ℕ) (payload rest : List ℕ) (io : Io)
        → length payload ≤ max_message_len * 2
        → io.inbox fd ≡ payload ++ rest
        → let (r, io') = decode_header env fd (header (length payload) code) io in
          (r ≡ message (record { type = code; payload = payload })) × (io'.inbox fd ≡ rest)
    unfolding decode_header
    decode_header-append code [] rest io h e = ground (arith, read_be32-be32 0 (code ∷ []))
    decode_header-append code (x ∷ xs) rest io h e = ground (
      arith,
      read_be32-be32 (suc (length xs)) (code ∷ []),
      receive_payload-append code io (x ∷ xs) rest e,
    )

    header_message-append :
        (io : Io) (o : Option (List ℕ)) (code : ℕ) (payload rest : List ℕ)
        → length payload ≤ max_message_len * 2
        → o ≡ some (header (length payload) code)
        → io.inbox fd ≡ payload ++ rest
        → let (r, io') = header_message env fd o io in
          (r ≡ message (record { type = code; payload = payload })) × (io'.inbox fd ≡ rest)
    unfolding header_message
    header_message-append io none code payload rest h o e = cc
    header_message-append io (some g) code payload rest h o e =
        rw (some-injective _ _ o) (decode_header-append code payload rest io h e)

    -- A frame of at most 2048 payload bytes at the head of the socket is read back as the message
    -- that was framed, whatever follows it, and what follows is left on the socket.
    pub receive_network_message-frame :
        (io : Io) (type : MessageType) (payload rest : List ℕ)
        → length payload ≤ max_message_len * 2
        → io.inbox fd ≡ frame type payload ++ rest
        → let (r, io') = receive_network_message env fd io in
          (r ≡ message (record { type = type_code type; payload = payload }))
          × (io'.inbox fd ≡ rest)
    unfolding receive_network_message
    receive_network_message-frame io type payload rest h e =
        let (o, i) =
          recv-append io (header (length payload) (type_code type)) (payload ++ rest) e in
        rw (blocks-append io (header (length payload) (type_code type)) (payload ++ rest) e) (
          header_message-append (recv env fd 5 io).1 (recv env fd 5 io).0 (type_code type) payload
            rest h o i)
