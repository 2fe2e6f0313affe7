-- ===== src/Server/Delivery.antt =====
-- server/src/message_queue.c: storing a message for a connection, and delivering what is stored.
pub mod Stored
use c_chat.Prelude.{
  ℕ, ◌+◌, ◌%◌, ◌^◌, Bool, true, false, not, Option, none, some, List, ℤ, pos, negsuc, take,
  if◌then◌else◌, leb, ◌==◌,
}
use c_chat.Server.Types.{message_queue_size, StoredMessage, ClientConnection, MessageQueue}
use c_chat.Server.Io.{Env, State, malloc, time_now}
use c_chat.Server.State.{Server, client_at, set_client, lift}
use c_chat.Server.Queue.{write_tail, advance_tail, deliver_loop}
use c_chat.Server.Users.{find_client_by_username, copy_name}

-- `server.next_message_id++` on a uint32_t.
unfoldable pub take_message_id : State Server ℕ
take_message_id s =
    (s.next_message_id, record s { next_message_id = (s.next_message_id + 1) % 2 ^ 32 })

abbrev pub set_queue : ℕ → MessageQueue → Server → Server
set_queue i q s = set_client i (record (client_at i s) { queue = q }) s

-- The end of `queue_message`, on whether `encrypted_data` could be allocated. The message stands at
-- the tail in both cases; only with its data is it counted.
unfoldable pub finish_store : ℕ → StoredMessage → List ℕ → Bool → State Server ℤ
finish_store i m encrypted_data true s = (
  pos 0,
  set_queue i
      (advance_tail
        (write_tail (record m { encrypted_data = some encrypted_data }) (client_at i s).queue))
      s,
)
finish_store i m encrypted_data false s =
    (negsuc 0, set_queue i (write_tail m (client_at i s).queue) s)

unfoldable pub new_message : ℕ → List ℕ → List ℕ → ℕ → ℕ → StoredMessage
new_message id recipient sender now encrypted_len = record {
  message_id = id;
  sender = copy_name sender;
  recipient = copy_name recipient;
  timestamp = now;
  encrypted_len = encrypted_len;
  encrypted_data = none;
  delivered = false;
}

module _ (env : Env) where
  unfoldable pub store_message : ℕ → List ℕ → List ℕ → List ℕ → ℕ → State Server ℤ
  unfolding take_message_id finish_store new_message
  store_message i recipient sender encrypted_data encrypted_len s =
      let (id, s₁) = take_message_id s in
      let (now, s₂) = lift (time_now env) s₁ in
      let (allocated, s₃) = lift (malloc env encrypted_len) s₂ in
      finish_store i (new_message id recipient sender now encrypted_len)
        (take encrypted_len encrypted_data) allocated s₃

  unfoldable pub queue_message_at : Option ℕ → List ℕ → List ℕ → List ℕ → ℕ → State Server ℤ
  queue_message_at none recipient sender encrypted_data encrypted_len s = (negsuc 0, s)
  queue_message_at (some i) recipient sender encrypted_data encrypted_len s =
      if leb message_queue_size (client_at i s).queue.queue_count
      then (negsuc 0, s)
      else store_message i recipient sender encrypted_data encrypted_len s

  -- The pointers are never NULL.
  unfoldable pub queue_message : List ℕ → List ℕ → List ℕ → ℕ → State Server ℤ
  unfolding queue_message_at
  queue_message recipient sender encrypted_data encrypted_len s =
      if encrypted_len == 0
      then (negsuc 0, s)
      else queue_message_at (find_client_by_username recipient s) recipient sender encrypted_data
          encrypted_len s

  -- The part of `deliver_queued_messages` behind its guard.
  unfoldable pub deliver_now : ℕ → State Server ℤ
  deliver_now i s =
      let c : ClientConnection = client_at i s in
      let (delivered_count, q, io') =
        deliver_loop env c.socket_fd c.queue.queue_count 0 c.queue s.io in
      (pos delivered_count, record (set_queue i q s) { io = io' })

  unfoldable pub deliver_queued_messages : ℕ → State Server ℤ
  unfolding deliver_now
  deliver_queued_messages i s =
      if (client_at i s).authenticated then deliver_now i s else (negsuc 0, s)
