-- ===== src/Server/Queue/Payload.antt =====
-- server/src/message_queue.c and message_handlers.c: the payload of an incoming message, as its
-- reader sees it.
use c_chat.Prelude.{
  ℕ, ◌+◌, ◌%◌, ◌^◌, ◌<◌, ◌≡◌, refl, List, ◌∷◌, ◌++◌, length, get_or, slice, drop, take-all,
  take-append, drop-append_add, arith,
}
use native.Mathlib.Nat.{le_refl}
use c_chat.Server.Words.{be32, be16, read_be32, join16, read_be32-be32, join16-be16}
use c_chat.Server.Queue.{incoming_payload}

pub record Incoming : Type 0 where
  pub message_id : ℕ
  pub sender : List ℕ
  pub timestamp : ℕ
  pub body : List ℕ

-- The layout of the message in the description of the protocol.
abbrev pub read_incoming : List ℕ → Incoming
read_incoming bytes =
    let size = get_or bytes 4 0 in
    let rest = drop (5 + size) bytes in
    record {
      message_id = read_be32 bytes;
      sender = slice bytes 5 size;
      timestamp = read_be32 rest;
      body = slice rest 6 (join16 (get_or rest 4 0) (get_or rest 5 0));
    }

-- A reader of the payload gets back the number, the sender, the time and the body that it was made
-- of, for a number and a time of 32 bits, a sender of at most 255 bytes and a body of less than
-- 65536.
pub read_incoming-incoming_payload :
    (message_id : ℕ) (sender : List ℕ) (timestamp : ℕ) (body : List ℕ)
    → message_id < 2 ^ 32
    → length sender < 2 ^ 8
    → timestamp < 2 ^ 32
    → length body < 2 ^ 16
    → read_incoming (incoming_payload message_id sender timestamp (length body) body)
      ≡ record { message_id = message_id; sender = sender; timestamp = timestamp; body = body }
unfolding incoming_payload
read_incoming-incoming_payload message_id sender timestamp body id_fits sender_fits time_fits
      body_fits =
    let n : ℕ = length sender in
    let tail : List ℕ = be32 timestamp ++ (be16 (length body) ++ body) in
    let size : n % 2 ^ 8 ≡ n = omega arith in
    let bytes : List ℕ = be32 message_id ++ n ∷ (sender ++ tail) in
    let rest : drop (5 + n) bytes ≡ tail =
      drop-append_add (be32 message_id ++ n ∷ sender) tail 0 (5 + n) (omega arith) in
    rw
      (
        size,
        rest,
        read_be32-be32 message_id (n ∷ (sender ++ tail)) id_fits,
        take-append sender tail n refl,
        read_be32-be32 timestamp (be16 (length body) ++ body) time_fits,
        join16-be16 (length body) body_fits,
        take-all (length body) body (le_refl _),
      )
      refl
