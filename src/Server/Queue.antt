-- ===== src/Server/Queue.antt =====
-- server/src/message_queue.c: the ring of messages of a connection, and the loop that sends what it
-- holds. `queue_message`, which first looks for the recipient's slot, is in Server/Delivery.
pub mod Ring
pub mod Deliver
pub mod Payload
use c_chat.Prelude.{
  ℕ, zero, suc, ◌+◌, ◌-◌, ◌%◌, ◌^◌, Bool, true, false, not, Option, none, some, List, [], ◌∷◌, ◌++◌,
  ℤ, pos, negsuc, int_eq, length, get_or, set, take, if◌then◌else◌, leb, ◌==◌,
}
use c_chat.Server.Types.{message_queue_size, incoming_message, StoredMessage, MessageQueue}
use c_chat.Server.Io.{Env, Io, State, malloc}
use c_chat.Server.Words.{be32, be16}
use c_chat.Server.Protocol.{send_network_message}
use c_chat.Server.State.{zero_message}

-- `memcpy(dst, data, len)` of an allocated block.
abbrev pub data_bytes : Option (List ℕ) → ℕ → List ℕ
data_bytes none len = []
data_bytes (some data') len = take len data'

-- The payload of MSG_INCOMING_MESSAGE. The casts to uint8_t, uint32_t and uint16_t are the `%` of
-- the bytes written.
unfoldable pub incoming_payload : ℕ → List ℕ → ℕ → ℕ → List ℕ → List ℕ
incoming_payload message_id sender timestamp len body =
    be32 message_id ++ (length sender % 2 ^ 8) ∷ (sender ++ (be32 timestamp ++ (be16 len ++ body)))

unfoldable pub message_payload : StoredMessage → List ℕ
unfolding incoming_payload
message_payload m =
    incoming_payload m.message_id m.sender m.timestamp m.encrypted_len
      (data_bytes m.encrypted_data m.encrypted_len)

-- `&client->message_queue[client->queue_head]`
abbrev pub head_message : MessageQueue → StoredMessage
head_message q = get_or q.message_queue q.queue_head zero_message

-- The message at the tail is filled in; it is in the queue once the tail has moved on.
unfoldable pub write_tail : StoredMessage → MessageQueue → MessageQueue
write_tail m q = record q { message_queue = set q.message_queue q.queue_tail m }

unfoldable pub advance_tail : MessageQueue → MessageQueue
advance_tail q = record q {
  queue_tail = (q.queue_tail + 1) % message_queue_size;
  queue_count = q.queue_count + 1;
}

unfoldable pub advance_head : MessageQueue → MessageQueue
advance_head q = record q {
  queue_head = (q.queue_head + 1) % message_queue_size;
  queue_count = q.queue_count - 1;
}

-- The head after its message went out: marked, its data freed and set to NULL.
unfoldable pub mark_delivered : MessageQueue → MessageQueue
mark_delivered q = record q {
  message_queue =
      set q.message_queue q.queue_head
        (record (head_message q) { delivered = true; encrypted_data = none });
}

module _ (env : Env) (fd : ℤ) where
  -- One message goes out: false if memory or the socket fails.
  unfoldable pub send_stored : StoredMessage → State Io Bool
  send_stored m io =
      let (allocated, io₁) = malloc env (length (message_payload m)) io in
      if not allocated
      then (false, io₁)
      else let (result, io₂) =
          send_network_message env fd incoming_message (message_payload m) io₁ in
        (int_eq result (pos 0), io₂)

  -- The `while` of `deliver_queued_messages`, with the number delivered so far; `queue_count` rounds
  -- are enough.
  unfoldable pub deliver_loop : ℕ → ℕ → MessageQueue → Io → ℕ × MessageQueue × Io
  deliver_loop zero n q io = (n, q, io)
  deliver_loop (suc fuel) n q io =
      let skip = deliver_loop fuel n (advance_head q) io in
      let next =
        deliver_loop fuel (n + 1) (advance_head (mark_delivered q))
          (send_stored (head_message q) io).1 in
      if q.queue_count == 0
      then (n, q, io)
      else if (head_message q).delivered
      then skip
      else if (send_stored (head_message q) io).0
      then next
      else (n, q, (send_stored (head_message q) io).1)
