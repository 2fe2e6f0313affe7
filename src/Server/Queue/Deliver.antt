-- ===== src/Server/Queue/Deliver.antt =====
-- server/src/message_queue.c: the loop of deliver_queued_messages over the ring, and the loop over the
-- list of the messages that wait.
use c_chat.Prelude.{
  ℕ, zero, suc, ◌+◌, ◌≤◌, ◌≡◌, refl, sym, ◌∙◌, true, false, List, [], ◌∷◌, ◌++◌, ℤ, inl, inr,
  length, map, All, if◌then◌else◌, arith, Bool-cases,
}
use mathlib.Core.List.{append_assoc, append-nil}
use c_chat.Server.Types.{StoredMessage, MessageQueue, incoming_message}
use c_chat.Server.Io.{Env, IsReliable, Io, malloc}
use c_chat.Server.Protocol.Frame.{stream, frame, sends_frame}
use c_chat.Server.Queue.{advance_head, mark_delivered, message_payload, send_stored, deliver_loop}
use c_chat.Server.Queue.Ring.{
  IsQueue, contents, count_of_contents, contents-uncons, count-advance_head, count-advance_marked,
  advance_marked-IsQueue, contents-mark_delivered, advance_head-IsQueue,
}

-- The frames of incoming messages with these payloads, oldest first.
abbrev pub frames : List (List ℕ) → List ℕ
frames [] = []
frames (payload ∷ payloads) = frame incoming_message payload ++ frames payloads

module _ (env : Env) (fd : ℤ) where
  -- The loop as it is meant, over the messages that wait: how many went out, what is left, and the
  -- world. The first that fails to go out stays at the front.
  pub deliver_all : List StoredMessage → ℕ → Io → ℕ × List StoredMessage × Io
  deliver_all [] n io = (n, [], io)
  deliver_all (m ∷ ms) n io =
      let skip = deliver_all ms n io in
      let next = deliver_all ms (n + 1) (send_stored env fd m io).1 in
      if m.delivered
      then skip
      else if (send_stored env fd m io).0
      then next
      else (n, m ∷ ms, (send_stored env fd m io).1)

  -- What is left is a part of what waited.
  pub deliver_all-All :
      (P : StoredMessage → Type 0) (ms : List StoredMessage) (n : ℕ) (io : Io)
      → All P ms
      → All P (deliver_all ms n io).1
  unfolding deliver_all
  deliver_all-All P [] n io h = tt
  deliver_all-All P (m ∷ ms) n io h = elim (Bool-cases m.delivered) [
    | inl e ↦ simp e (deliver_all-All P ms n io h.1)
    | inr e ↦ elim (Bool-cases (send_stored env fd m io).0) [
      | inl sent ↦ simp (e, sent) (deliver_all-All P ms (n + 1) (send_stored env fd m io).1 h.1)
      | inr kept ↦ simp (e, kept) h
    ]
  ]

  abbrev pub Refines : ℕ × List StoredMessage × Io → ℕ × MessageQueue × Io → Type 0
  Refines want got = (got.0 ≡ want.0) × (contents got.1 ≡ want.1) × (got.2 ≡ want.2) × IsQueue got.1

  loop-Refines :
      (fuel n : ℕ) (q : MessageQueue) (io : Io) (ms : List StoredMessage)
      → IsQueue q
      → q.queue_count ≤ fuel
      → contents q ≡ ms
      → Refines (deliver_all ms n io) (deliver_loop env fd fuel n q io)
  unfolding deliver_all deliver_loop
  loop-Refines zero n q io [] v h e = (refl, e, refl, v)
  loop-Refines zero n q io (m ∷ ms) v h e = absurd (omega (arith, count_of_contents q (m ∷ ms) e))
  loop-Refines (suc fuel) n q io [] v h e = ground (arith, count_of_contents q [] e)
  loop-Refines (suc fuel) n q io (m ∷ ms) v h e =
      let (some_wait, front, behind) = contents-uncons q m ms e in
      ground (
        arith,
        some_wait,
        front,
        loop-Refines fuel n (advance_head q) io ms (advance_head-IsQueue v some_wait)
            (omega (arith, count-advance_head v)) behind,
        loop-Refines fuel (n + 1) (advance_head (mark_delivered q)) (send_stored env fd m io).1 ms
            (advance_marked-IsQueue v some_wait) (omega (arith, count-advance_marked v))
            (contents-mark_delivered q v ∙ behind),
      )

  -- With as much fuel as messages, the loop over the ring delivers what `deliver_all` delivers of
  -- the messages in order, leaves the queue holding what that leaves, and keeps the ring well formed.
  pub deliver_loop-Refines :
      (fuel n : ℕ) (q : MessageQueue) (io : Io)
      → IsQueue q
      → q.queue_count ≤ fuel
      → Refines (deliver_all (contents q) n io) (deliver_loop env fd fuel n q io)
  deliver_loop-Refines fuel n q io v h = loop-Refines fuel n q io (contents q) v h refl

  module _ (works : IsReliable env) where
    send_stored-works :
        (m : StoredMessage) (io : Io)
        → let (sent, io') = send_stored env fd m io in
          (sent ≡ true)
          × (stream fd io'.events
              ≡ stream fd io.events ++ frame incoming_message (message_payload m))
    unfolding send_stored malloc
    send_stored-works m io = ground (
      arith,
      works.allocates io.calls (length (message_payload m)),
      sends_frame env fd works incoming_message (message_payload m)
          (record io { calls = suc io.calls }),
    )

    -- On a working network every message that waits goes out, oldest first, and none is left.
    pub deliver_all_works :
        (ms : List StoredMessage) (n : ℕ) (io : Io)
        → All (λ m. m.delivered ≡ false) ms
        → let (n', rest, io') = deliver_all ms n io in
          (n' ≡ n + length ms)
          × (rest ≡ [])
          × (stream fd io'.events ≡ stream fd io.events ++ frames (map message_payload ms))
    unfolding deliver_all
    deliver_all_works [] n io h = (omega arith, refl, sym (append-nil (stream fd io.events)))
    deliver_all_works (m ∷ ms) n io h = ground (
      arith,
      send_stored-works m io,
      deliver_all_works ms (n + 1) (send_stored env fd m io).1 h.1,
      append_assoc (stream fd io.events) (frame incoming_message (message_payload m))
          (frames (map message_payload ms)),
    )
