-- ===== src/Server/Protocol/Frame.antt =====
-- server/src/protocol.c: frames, and what a `send` puts on the stream of a socket.
use c_chat.Prelude.{
  ℕ, suc, ◌≡◌, refl, sym, ap, ◌∙◌, ◌⊎◌, ◌<◌, false, inl, inr, true, List, [], ◌∷◌, ◌++◌, ℤ, pos,
  negsuc, int_eq, int_eq_refl, length, length-append, min_self, take, take-all, if◌then◌else◌,
  arith, Bool-cases, lt→ltb, min, take-append_left,
}
use mathlib.Core.List.{append_assoc, append-nil}
use c_chat.Server.Types.{MessageType, type_code}
use c_chat.Server.Io.{Env, IsReliable, Io, Event, wrote, closed, after_send, send}
use c_chat.Server.Protocol.{header, send_payload, send_network_message}

-- The bytes that went out on a socket, oldest first.
abbrev pub stream : ℤ → List Event → List ℕ
stream fd [] = []
stream fd (wrote g bytes ∷ es) = if int_eq g fd then stream fd es ++ bytes else stream fd es
stream fd (closed g ∷ es) = stream fd es

abbrev pub frame : MessageType → List ℕ → List ℕ
frame type payload = header (length payload) (type_code type) ++ payload

-- The bytes that a `send` with this result took.
abbrev pub accepted : ℤ → ℕ
accepted (pos n) = n
accepted (negsuc n) = 0

module _ (env : Env) (fd : ℤ) where
  after_send-stream :
      (bytes : List ℕ) (io : Io) (r : ℤ)
      → let (r', io') = after_send env fd bytes io r in
        stream fd io'.events ≡ stream fd io.events ++ take (accepted r') bytes
  after_send-stream bytes io (pos n) = rw (int_eq_refl fd)
  after_send-stream bytes io (negsuc n) = sym (append-nil (stream fd io.events))

  pub send-stream :
      (bytes : List ℕ) (io : Io)
      → let (r, io') = send env fd bytes io in
        stream fd io'.events ≡ stream fd io.events ++ take (accepted r) bytes
  unfolding send
  send-stream bytes io = after_send-stream bytes io (env.send io.calls fd (length bytes))

  -- How a whole message went: all of the frame, or less than all of it and an error.
  abbrev pub Framed : List ℕ → Io → ℤ × Io → Type 0
  Framed bytes io sent =
      ((sent.0 ≡ pos 0) × (stream fd sent.1.events ≡ stream fd io.events ++ bytes))
      ⊎ ((k : ℕ) × (k < length bytes)
          × (sent.0 ≡ negsuc 0)
          × (stream fd sent.1.events ≡ stream fd io.events ++ take k bytes))

  accepted_all :
      (r : ℤ) (bytes : List ℕ)
      → int_eq r (pos (length bytes)) ≡ true
      → take (accepted r) bytes ≡ bytes
  accepted_all (pos n) bytes h = take-all n bytes (ground arith)
  accepted_all (negsuc n) bytes h = cc

  after_send_part :
      (bytes : List ℕ) (io : Io) (r : ℤ)
      → 0 < length bytes
      → int_eq (after_send env fd bytes io r).0 (pos (length bytes)) ≡ false
      → accepted (after_send env fd bytes io r).0 < length bytes
  after_send_part bytes io (pos n) some_bytes part = ground (arith, part)
  after_send_part bytes io (negsuc n) some_bytes part = some_bytes

  send_part :
      (bytes : List ℕ) (io : Io)
      → 0 < length bytes
      → int_eq (send env fd bytes io).0 (pos (length bytes)) ≡ false
      → accepted (send env fd bytes io).0 < length bytes
  unfolding send
  send_part bytes io = after_send_part bytes io (env.send io.calls fd (length bytes))

  send_payload-Framed :
      (payload : List ℕ) (io : Io) → Framed payload io (send_payload env fd payload io)
  unfolding send_payload
  send_payload-Framed [] io = inl (refl, sym (append-nil (stream fd io.events)))
  send_payload-Framed (x ∷ xs) io =
      rw (lt→ltb 0 (suc (length xs)) (omega arith))
        (elim (Bool-cases (int_eq r (pos (suc (length xs))))) [
          | inl all ↦
              inl (rw all refl, rw (accepted_all r (x ∷ xs) all) at (send-stream (x ∷ xs) io))
          | inr part ↦ inr (
            accepted r,
            send_part (x ∷ xs) io (omega arith) part,
            rw part refl,
            send-stream (x ∷ xs) io,
          )
        ])
    where
      r : ℤ
      r = (send env fd (x ∷ xs) io).0

  -- `send_network_message` returns 0 exactly when the whole frame, the five bytes of the header and
  -- the payload, was appended to the socket's stream; else it returns -1 and less than the frame, a
  -- part of it cut at the end, was appended.
  pub send_network_message-Framed :
      (type : MessageType) (payload : List ℕ) (io : Io)
      → Framed (frame type payload) io (send_network_message env fd type payload io)
  unfolding send_network_message
  send_network_message-Framed type payload io = elim (Bool-cases (int_eq r (pos 5))) [
    | inl all ↦
        rw all (
          whole (rw (accepted_all r h all) at (send-stream h io)) (send_payload-Framed payload io₁))
    | inr part ↦ rw part (
        inr (
          min (accepted r) 5,
          omega (arith, send_part h io (omega arith) part, length-append h payload),
          refl,
          send-stream h io
              ∙ ap (◌++◌ (stream fd io.events))
                  (take-append_left (accepted r) (min (accepted r) 5) h payload refl),
        ))
  ]
    where
      h : List ℕ
      h = header (length payload) (type_code type)

      r : ℤ
      r = (send env fd h io).0

      io₁ : Io
      io₁ = (send env fd h io).1

      whole :
          stream fd io₁.events ≡ stream fd io.events ++ h
          → Framed payload io₁ (send_payload env fd payload io₁)
          → Framed (h ++ payload) io (send_payload env fd payload io₁)
      whole e (inl (z, p)) = inl (z, p ∙ rw e (append_assoc (stream fd io.events) h payload))
      whole e (inr (k, less, z, p)) = inr (
        suc (suc (suc (suc (suc k)))),
        omega (arith, less),
        z,
        p ∙ rw e (append_assoc (stream fd io.events) h (take k payload)),
      )

  module _ (works : IsReliable env) where
    pub send_works : (bytes : List ℕ) (io : Io) → (send env fd bytes io).0 ≡ pos (length bytes)
    unfolding send
    send_works bytes io = rw (works.sends io.calls fd (length bytes), min_self (length bytes)) refl

    send_payload_works : (payload : List ℕ) (io : Io) → (send_payload env fd payload io).0 ≡ pos 0
    unfolding send_payload
    send_payload_works [] io = refl
    send_payload_works (x ∷ xs) io =
        rw (lt→ltb 0 (suc (length xs)) (omega arith), send_works (x ∷ xs) io) (ground arith)

    send_network_message_works :
        (type : MessageType) (payload : List ℕ) (io : Io)
        → (send_network_message env fd type payload io).0 ≡ pos 0
    unfolding send_network_message
    send_network_message_works type payload io =
        let h : List ℕ = header (length payload) (type_code type) in
        rw (send_works h io) (send_payload_works payload (send env fd h io).1)

    -- On a working network the whole frame goes out.
    pub sends_frame :
        (type : MessageType) (payload : List ℕ) (io : Io)
        → let (r, io') = send_network_message env fd type payload io in
          (r ≡ pos 0) × (stream fd io'.events ≡ stream fd io.events ++ frame type payload)
    sends_frame type payload io = elim (send_network_message-Framed type payload io) [
      | inl whole ↦ whole
      | inr (k, less, bad, part) ↦ cc (send_network_message_works type payload io)
    ]
