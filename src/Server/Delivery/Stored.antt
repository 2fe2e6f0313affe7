-- ===== src/Server/Delivery/Stored.antt =====
-- server/src/message_queue.c: what queue_message and deliver_queued_messages do to the messages that
-- wait.
use c_chat.Prelude.{
  ℕ, suc, ◌≤◌, ◌<◌, ◌≡◌, ◌≢◌, refl, sym, ap, ◌∙◌, ◌⊎◌, inl, inr, Bool, true, false, Option, none,
  some, List, [], ◌∷◌, ◌++◌, ℤ, pos, negsuc, length, take, length-take, take-all, map, ap₂, ◌^◌,
  All, leb, leb→gt, leb→le, ◌==◌, arith, Bool-cases, find_index-get, get_or-set_self, get_or-set_ne,
  get_or-set_same,
}
use native.Mathlib.Nat.{le_refl}
use c_chat.Server.Types.{message_queue_size, StoredMessage, ClientConnection}
use c_chat.Server.Io.{Env, IsReliable, Io, malloc, time_now}
use c_chat.Server.Protocol.Frame.{stream}
use c_chat.Server.State.{Server, client_at, zero_client}
use c_chat.Server.Queue.Ring.{IsQueue, contents, contents-write_tail, contents-advance_tail}
use c_chat.Server.Queue.Deliver.{deliver_loop-Refines, deliver_all_works, frames}
use c_chat.Server.Users.{is_client, find_client_by_username, copy_name}
use c_chat.Server.Queue.{message_payload}
use c_chat.Server.Queue.Payload.{Incoming, read_incoming, read_incoming-incoming_payload}
use c_chat.Server.Valid.{IsPending, IsFine}
use c_chat.Server.Delivery.{
  take_message_id, finish_store, new_message, store_message, queue_message_at, queue_message,
  deliver_now, deliver_queued_messages,
}

-- The slot that a name finds is one of the array.
pub find_client-inside :
    (name : List ℕ) (s : Server) (i : ℕ)
    → find_client_by_username name s ≡ some i
    → i < length s.clients
unfolding find_client_by_username
find_client-inside name s i e =
    let (inside, hit) =
      find_index-get (is_client name) (take s.client_count s.clients) i zero_client e in
    omega (arith, length-take s.client_count s.clients)

-- The message of this number and time, with its data.
abbrev pub with_body : StoredMessage → List ℕ → StoredMessage
with_body m body = record m { encrypted_data = some body }

-- Stored behind what waits in slot `i`, and no other slot changed; or the memory for the data could
-- not be had, and each queue holds what it held.
abbrev pub StoresAt : Bool → ℕ → StoredMessage → Server → ℤ × Server → Type 0
StoresAt allocated i m s (r, t) =
    ((allocated ≡ true)
      × (r ≡ pos 0)
      × (contents (client_at i t).queue ≡ contents (client_at i s).queue ++ m ∷ [])
      × ((k : ℕ) → k ≢ i → client_at k t ≡ client_at k s))
    ⊎ ((allocated ≡ false)
        × (r ≡ negsuc 0)
        × ((k : ℕ) → contents (client_at k t).queue ≡ contents (client_at k s).queue))

finish_store-StoresAt :
    (i : ℕ) (m : StoredMessage) (body : List ℕ) (allocated : Bool) (s : Server)
    → i < length s.clients
    → IsQueue (client_at i s).queue
    → (client_at i s).queue.queue_count < message_queue_size
    → StoresAt allocated i (with_body m body) s (finish_store i m body allocated s)
unfolding finish_store
finish_store-StoresAt i m body true s inside v room = inl (
  refl,
  refl,
  rw (get_or-set_self s.clients i _ zero_client inside)
      (contents-advance_tail (client_at i s).queue (with_body m body) v room),
  λ k ne. get_or-set_ne s.clients i k _ zero_client (λ e. ne (sym e)),
)
finish_store-StoresAt i m body false s inside v room = inr (
  refl,
  refl,
  λ k.
      get_or-set_same (λ (c : ClientConnection). contents c.queue) s.clients i k _ zero_client
        (contents-write_tail (client_at i s).queue m v room),
)

module _ (env : Env) (recipient sender body : List ℕ) (s : Server) where
  -- The message that `queue_message` stores.
  abbrev pub stored : StoredMessage
  stored = record {
    message_id = s.next_message_id;
    sender = copy_name sender;
    recipient = copy_name recipient;
    timestamp = env.time s.io.calls;
    encrypted_len = length body;
    encrypted_data = some (take (length body) body);
    delivered = false;
  }

  store_message-StoresAt :
      (i : ℕ)
      → i < length s.clients
      → IsQueue (client_at i s).queue
      → (client_at i s).queue.queue_count < message_queue_size
      → StoresAt
          (env.malloc (suc s.io.calls) (length body))
          i
          stored
          s
          (store_message env i recipient sender body (length body) s)
  unfolding store_message take_message_id time_now malloc new_message
  store_message-StoresAt i inside v room = finish_store-StoresAt i _ _ _ _ inside v room

  -- Which slot the message goes to, by the search for the recipient's connection; or why it goes to
  -- none.
  abbrev pub Stores : ℤ × Server → Type 0
  Stores r =
      ((i : ℕ) × (find_client_by_username recipient s ≡ some i)
        × (length body ≢ 0)
        × ((client_at i s).queue.queue_count < message_queue_size)
        × StoresAt (env.malloc (suc s.io.calls) (length body)) i stored s r)
      ⊎ ((r ≡ (negsuc 0, s))
          × ((length body ≡ 0)
              ⊎ (find_client_by_username recipient s ≡ none)
              ⊎ ((i : ℕ) × (find_client_by_username recipient s ≡ some i)
                  × (message_queue_size ≤ (client_at i s).queue.queue_count))))

  queue_message_at-Stores :
      (o : Option ℕ)
      → find_client_by_username recipient s ≡ o
      → length body ≢ 0
      → ((k : ℕ) → IsQueue (client_at k s).queue)
      → Stores (queue_message_at env o recipient sender body (length body) s)
  unfolding queue_message_at
  queue_message_at-Stores none e some_data v = inr (refl, inr (inl e))
  queue_message_at-Stores (some i) e some_data v =
      elim (Bool-cases (leb message_queue_size (client_at i s).queue.queue_count)) [
        | inl full ↦ rw full (inr (refl, inr (inr (i, e, leb→le _ _ full))))
        | inr room ↦ rw room (
            inl (
              i,
              e,
              some_data,
              leb→gt _ _ room,
              store_message-StoresAt i (find_client-inside recipient s i e) (v i) (leb→gt _ _ room),
            ))
      ]

  -- With well formed queues, a message that is not empty, for a name under which a connection is
  -- logged in whose queue is not full, is stored at the end of that queue, with the next number, the
  -- time and its data, and the other slots stay as they were; unless there is no memory for the
  -- data: then -1 is returned and every queue holds what it held. In all other cases -1 is returned
  -- and nothing is changed.
  pub queue_message-Stores :
      ((k : ℕ) → IsQueue (client_at k s).queue)
      → Stores (queue_message env recipient sender body (length body) s)
  unfolding queue_message
  queue_message-Stores v = elim (Bool-cases (length body == 0)) [
    | inl empty ↦ rw empty (inr (refl, inl (ground (arith, empty))))
    | inr full ↦ rw full (
        queue_message_at-Stores (find_client_by_username recipient s) refl (ground (arith, full)) v)
  ]

All-waits : (ms : List StoredMessage) → All IsPending ms → All (λ m. m.delivered ≡ false) ms
All-waits [] h = tt
All-waits (m ∷ ms) h = (h.0.waits, All-waits ms h.1)

-- The numbers of the message fit the fields of the frame that carries it.
abbrev pub Fits : StoredMessage → Type 0
Fits m = (m.message_id < 2 ^ 32) × (m.timestamp < 2 ^ 32) × (m.encrypted_len < 2 ^ 16)

abbrev pub held_data : Option (List ℕ) → List ℕ
held_data none = []
held_data (some bytes) = bytes

-- What the reader of a stored message is to see.
abbrev pub seen : StoredMessage → Incoming
seen m = record {
  message_id = m.message_id;
  sender = m.sender;
  timestamp = m.timestamp;
  body = held_data m.encrypted_data;
}

module _ (env : Env) (works : IsReliable env) (i : ℕ) (s : Server) where
  read-message_payload :
      (m : StoredMessage) → IsPending m → Fits m → read_incoming (message_payload m) ≡ seen m
  unfolding message_payload
  read-message_payload m h (id_fits, time_fits, body_fits) =
      rw (h.held, ← h.sized, take-all (length h.body) h.body (le_refl _))
        (read_incoming-incoming_payload m.message_id m.sender m.timestamp h.body id_fits
          (omega (arith, h.sender_fits)) time_fits (omega (arith, h.sized)))

  payloads_seen :
      (ms : List StoredMessage)
      → All IsPending ms
      → All Fits ms
      → map read_incoming (map message_payload ms) ≡ map seen ms
  payloads_seen [] h fits = refl
  payloads_seen (m ∷ ms) h fits =
      ap₂ ◌∷◌ (read-message_payload m h.0 fits.0) (payloads_seen ms h.1 fits.1)

  -- On a working network, a connection of the array that is logged in and whose queue is well
  -- formed and holds whole messages, with a number and a time of 32 bits and a body of less than 65536
  -- bytes, is sent one frame for each message that waits for it, oldest first, and a reader of the
  -- protocol finds in its payload the number, the sender, the time and the data of that message. How
  -- many there were is returned, and the queue is then empty.
  pub deliver_queued_messages_works :
      i < length s.clients
      → (client_at i s).authenticated ≡ true
      → IsFine (client_at i s).queue
      → All Fits (contents (client_at i s).queue)
      → let c = client_at i s in
        let (r, t) = deliver_queued_messages env i s in
        (r ≡ pos (length (contents c.queue)))
        × (contents (client_at i t).queue ≡ [])
        × ((payloads : List (List ℕ)) × (map read_incoming payloads ≡ map seen (contents c.queue))
            × (stream c.socket_fd t.io.events ≡ stream c.socket_fd s.io.events ++ frames payloads))
  unfolding deliver_queued_messages deliver_now
  deliver_queued_messages_works inside logged fine fits =
      let (n, held, w, ring) =
        deliver_loop-Refines env (client_at i s).socket_fd (client_at i s).queue.queue_count 0
          (client_at i s).queue s.io fine.ring (le_refl _) in
      let (all, none_left, sent) =
        deliver_all_works env (client_at i s).socket_fd works (contents (client_at i s).queue) 0
          s.io (All-waits _ fine.pending) in
      rw (logged, get_or-set_self s.clients i _ zero_client inside)
        (
          ap pos (n ∙ all ∙ omega arith),
          held ∙ none_left,
          (
            map message_payload (contents (client_at i s).queue),
            payloads_seen (contents (client_at i s).queue) fine.pending fits,
            ap (λ (io : Io). stream (client_at i s).socket_fd io.events) w ∙ sent,
          ),
        )
