-- ===== src/Server/Protocol/Silence.antt =====
-- server/src/protocol.c, receive_network_message: when it does not return.
use c_chat.Prelude.{
  ℕ, suc, ◌≡◌, Bool, true, false, ◌&&◌, Option, none, some, List, ℤ, length, get_or, ltb, ◌==◌, ◌*◌,
  Bool-cases, inl, inr, arith,
}
use c_chat.Server.Types.{max_message_len}
use c_chat.Server.Io.{Env, Io, blocks, recv, malloc}
use c_chat.Server.Words.{read_be32}
use c_chat.Server.Protocol.{
  is_waiting, payload_message, receive_payload, decode_header, header_message,
  receive_network_message,
}

and-left : (a b : Bool) → (a && b) ≡ true → a ≡ true
and-left true b h = ground arith
and-left false b h = cc

module _ (env : Env) (fd : ℤ) where
  -- The peer keeps silent at some call.
  abbrev pub IsSilent : Type 0
  IsSilent = (n : ℕ) × (env.silent n fd ≡ true)

  blocks-IsSilent : (len : ℕ) (io : Io) → blocks env fd len io ≡ true → IsSilent
  blocks-IsSilent len io h = (io.calls, and-left (env.silent io.calls fd) _ h)

  payload_message-returns :
      (type len : ℕ) (o : Option (List ℕ)) → is_waiting (payload_message type len o) ≡ false
  unfolding payload_message is_waiting
  payload_message-returns type len none = ground arith
  payload_message-returns type len (some payload) = ground arith

  receive_payload-IsSilent :
      (type len : ℕ) (io : Io) → is_waiting (receive_payload env fd type len io).0 ≡ true → IsSilent
  unfolding receive_payload malloc is_waiting
  receive_payload-IsSilent type len io h =
      let io₁ : Io = record io { calls = suc io.calls } in
      elim (Bool-cases (env.malloc io.calls len)) [
        | inr full ↦ cc (rw full at h)
        | inl allocated ↦ elim (Bool-cases (blocks env fd len io₁)) [
          | inl held ↦ blocks-IsSilent len io₁ held
          | inr free ↦
              cc (
                rw (allocated, free, payload_message-returns type len (recv env fd len io₁).0) at h)
        ]
      ]

  decode_header-IsSilent :
      (h : List ℕ) (io : Io) → is_waiting (decode_header env fd h io).0 ≡ true → IsSilent
  unfolding decode_header is_waiting
  decode_header-IsSilent h io e = elim (Bool-cases (length h == 0)) [
    | inl gone ↦ cc (rw gone at e)
    | inr some_bytes ↦ elim (Bool-cases (length h == 5)) [
      | inr part ↦ cc (rw (some_bytes, part) at e)
      | inl whole ↦ elim (Bool-cases (ltb (max_message_len * 2) (read_be32 h))) [
        | inl long ↦ cc (rw (some_bytes, whole, long) at e)
        | inr fits ↦ elim (Bool-cases (ltb 0 (read_be32 h))) [
          | inr empty ↦ cc (rw (some_bytes, whole, fits, empty) at e)
          | inl filled ↦
              receive_payload-IsSilent (get_or h 4 0) (read_be32 h) io
                (rw (some_bytes, whole, fits, filled) at e)
        ]
      ]
    ]
  ]

  header_message-IsSilent :
      (o : Option (List ℕ)) (io : Io) → is_waiting (header_message env fd o io).0 ≡ true → IsSilent
  unfolding header_message is_waiting
  header_message-IsSilent none io e = cc
  header_message-IsSilent (some h) io e = decode_header-IsSilent h io e

  -- A call that does not return waits for a peer that keeps silent.
  pub receive_network_message-IsSilent :
      (io : Io) → is_waiting (receive_network_message env fd io).0 ≡ true → IsSilent
  unfolding receive_network_message
  receive_network_message-IsSilent io e = elim (Bool-cases (blocks env fd 5 io)) [
    | inl held ↦ blocks-IsSilent 5 io held
    | inr free ↦ header_message-IsSilent (recv env fd 5 io).0 (recv env fd 5 io).1 (rw free at e)
  ]
