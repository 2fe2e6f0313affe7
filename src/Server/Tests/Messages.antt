-- ===== src/Server/Tests/Messages.antt =====
-- Runs of server/src/message_queue.c, and of the handler that sends a message.
use c_chat.Prelude.{
  ℕ, map, zero, suc, ◌≤◌, ◌≡◌, ◌≢◌, refl, Bool, true, false, none, some, [], ◌∷◌, ◌++◌, pos, length,
  All, List, arith, str_eq, find_index,
}
use c_chat.Server.Types.{message_ack, StoredMessage, MessageQueue}
use c_chat.Server.State.{Server, client_at, zero_queue}
use c_chat.Server.Queue.{write_tail, advance_tail, deliver_loop}
use c_chat.Server.Queue.Ring.{
  IsQueue, contents, zero_queue-IsQueue, stored-IsQueue, contents-advance_tail,
}
use c_chat.Server.Queue.Deliver.{deliver_all, deliver_loop-Refines, Refines, frames}
use c_chat.Server.Users.{find_user, is_user, find_client_by_username, is_client}
use c_chat.Server.Delivery.{queue_message, deliver_queued_messages}
use c_chat.Server.Delivery.Stored.{
  Fits, seen, Stores, queue_message-Stores, deliver_queued_messages_works,
}
use c_chat.Server.Handlers.{respond}
use c_chat.Server.Handlers.Relay.{handle_send_message}
use c_chat.Server.Handlers.Relay.Outcome.{
  message_to, Relays, handle_send_message_offline, handle_send_message_online,
}
use c_chat.Server.Queue.{incoming_payload}
use c_chat.Server.Queue.Payload.{read_incoming, read_incoming-incoming_payload}
use c_chat.Server.Tests.{
  network, network-IsReliable, ann, bob, body, bob-IsUsername, still, office, connection,
}
use c_chat.Server.Valid.{IsFine}
use c_chat.Server.Protocol.Frame.{stream}

abbrev letter : StoredMessage
letter = record {
  message_id = 4;
  sender = ann;
  recipient = bob;
  timestamp = 1000;
  encrypted_len = 3;
  encrypted_data = some body;
  delivered = false;
}

abbrev one_letter : MessageQueue
one_letter = advance_tail (write_tail letter zero_queue)

empty_count : zero_queue.queue_count ≡ 0
unfolding zero_queue
empty_count = refl

one_letter-IsQueue : IsQueue one_letter
one_letter-IsQueue = stored-IsQueue zero_queue-IsQueue letter (omega (arith, empty_count))

one_letter_count : one_letter.queue_count ≤ 1
unfolding advance_tail write_tail zero_queue
one_letter_count = omega arith

deliver_loop-Refines_example :
    Refines network
      (pos 6)
      (deliver_all network (pos 6) (contents one_letter) 0 still)
      (deliver_loop network (pos 6) 1 0 one_letter still)
deliver_loop-Refines_example =
    deliver_loop-Refines network (pos 6) 1 0 one_letter still one_letter-IsQueue one_letter_count

queues : (k : ℕ) → IsQueue (client_at k (office true)).queue
queues zero = zero_queue-IsQueue
queues (suc zero) = zero_queue-IsQueue
queues (suc (suc k)) = zero_queue-IsQueue

queue_message-Stores_example :
    Stores network bob ann body (office true) (queue_message network bob ann body 3 (office true))
queue_message-Stores_example = queue_message-Stores network bob ann body (office true) queues

bob_known : (bob_in : Bool) → find_user bob (office bob_in).users ≢ none
unfolding find_user find_index is_user str_eq
bob_known bob_in = λ e. cc

bob_away : find_client_by_username bob (office false) ≡ none
unfolding find_client_by_username find_index is_client str_eq
bob_away = refl

bob_here : find_client_by_username bob (office true) ≡ some 1
unfolding find_client_by_username find_index is_client str_eq
bob_here = refl

handle_send_message_offline_example :
    handle_send_message network 0 (message_to bob body) (office false)
    ≡ respond network 0 message_ack
        (0 ∷ 0 ∷ 0 ∷ 17 ∷ 2 ∷ [])
        (record (office false) { next_message_id = 18 })
handle_send_message_offline_example =
    handle_send_message_offline bob body bob-IsUsername (omega arith) network 0 (office false)
      (omega arith) (bob_known false) bob_away

handle_send_message_online_example :
    Relays network network-IsReliable 0 1 17 bob body
      (record (office true) { next_message_id = 18 })
      (handle_send_message network 0 (message_to bob body) (office true))
handle_send_message_online_example =
    handle_send_message_online bob body bob-IsUsername (omega arith) network 0 (office true)
      (omega arith) network-IsReliable 1 (bob_known true) bob_here (λ e. cc)

-- `ann`, who is logged in at slot 0, finds a letter there.
abbrev waiting_letter : Server
waiting_letter = record (office true) {
  clients = record (connection 5 ann true) { queue = one_letter } ∷ [];
}

nothing_waits : contents zero_queue ≡ []
unfolding zero_queue
nothing_waits = refl

one_letter-IsFine : IsFine one_letter
one_letter-IsFine = record {
  ring = one_letter-IsQueue;
  pending =
      rw (contents-advance_tail zero_queue letter zero_queue-IsQueue (omega (arith, empty_count))) (
        rw nothing_waits (
          (
            record {
              waits = refl;
              body = body;
              held = refl;
              sized = refl;
              sender_fits = omega arith;
            },
            tt,
          )));
}

one_letter-Fits : All Fits (contents one_letter)
unfolding advance_tail write_tail zero_queue
one_letter-Fits = (omega arith, tt)

deliver_queued_messages_works_example :
    let (r, t) = deliver_queued_messages network 0 waiting_letter in
    (r ≡ pos (length (contents one_letter)))
    × (contents (client_at 0 t).queue ≡ [])
    × ((payloads : List (List ℕ)) × (map read_incoming payloads ≡ map seen (contents one_letter))
        × (stream (pos 5) t.io.events ≡ [] ++ frames payloads))
deliver_queued_messages_works_example =
    deliver_queued_messages_works network network-IsReliable 0 waiting_letter (omega arith) refl
      one_letter-IsFine one_letter-Fits

read_incoming-incoming_payload_example :
    read_incoming (incoming_payload 17 ann 1000 3 body)
    ≡ record { message_id = 17; sender = ann; timestamp = 1000; body = body }
read_incoming-incoming_payload_example =
    read_incoming-incoming_payload 17 ann 1000 body (omega arith) (omega arith) (omega arith)
      (omega arith)
