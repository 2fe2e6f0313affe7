-- ===== src/Server/Queue/Ring.antt =====
-- server/src/message_queue.c: the ring of stored messages, and the queue that it stands for.
use c_chat.Prelude.{
  ℕ, zero, suc, ◌+◌, ◌-◌, ◌%◌, ◌≤◌, ◌<◌, ◌≡◌, ◌≢◌, refl, sym, ap, ap₂, ◌∙◌, List, [], ◌∷◌, ◌++◌,
  length, get_or, set, length-set, get_or-set_self, get_or-set_ne, length-replicate, arith,
}
use native.Mathlib.Numerals.{add-one}
use c_chat.Server.Types.{message_queue_size, StoredMessage, MessageQueue}
use c_chat.Server.State.{zero_message, zero_queue}
use c_chat.Server.Queue.{head_message, write_tail, advance_tail, advance_head, mark_delivered}

pub record IsQueue (q : MessageQueue) : Type 0 where
  pub room : length q.message_queue ≡ message_queue_size
  pub head_in : q.queue_head < message_queue_size
  pub count_in : q.queue_count ≤ message_queue_size
  pub tail_at : q.queue_tail ≡ (q.queue_head + q.queue_count) % message_queue_size

-- The `n` messages from index `h` on, round the end of the array.
abbrev pub window : List StoredMessage → ℕ → ℕ → List StoredMessage
window buf h zero = []
window buf h (suc n) = get_or buf h zero_message ∷ window buf ((h + 1) % message_queue_size) n

-- The messages that wait in a queue.
abbrev pub contents : MessageQueue → List StoredMessage
contents q = window q.message_queue q.queue_head q.queue_count

pub length-window : (buf : List StoredMessage) (h n : ℕ) → length (window buf h n) ≡ n
length-window buf h zero = refl
length-window buf h (suc n) = ap suc (length-window buf ((h + 1) % message_queue_size) n)

-- A write at an index that lies `n` steps or more ahead of `h` is not seen.
window-set :
    (buf : List StoredMessage) (m : StoredMessage) (h i n : ℕ)
    → h < message_queue_size
    → i < message_queue_size
    → n ≤ (i + message_queue_size - h) % message_queue_size
    → window (set buf i m) h n ≡ window buf h n
window-set buf m h i zero hh hi far = refl
window-set buf m h i (suc n) hh hi far =
    ap₂ ◌∷◌ (get_or-set_ne buf i h m zero_message (λ e. omega arith))
      (window-set buf m ((h + 1) % message_queue_size) i n (omega arith) hi (omega arith))

window-snoc :
    (buf : List StoredMessage) (h n : ℕ)
    → h < message_queue_size
    → window buf h (suc n)
      ≡ window buf h n ++ get_or buf ((h + n) % message_queue_size) zero_message ∷ []
window-snoc buf h zero hh = ap (λ k. get_or buf k zero_message ∷ []) (omega arith)
window-snoc buf h (suc n) hh = ap (◌∷◌ (get_or buf h zero_message)) (
    window-snoc buf ((h + 1) % message_queue_size) n (omega arith)
    ∙ ap (λ k. window buf ((h + 1) % message_queue_size) n ++ get_or buf k zero_message ∷ [])
        (omega arith))

window-pred :
    (buf : List StoredMessage) (h n : ℕ)
    → n ≢ 0
    → window buf h n ≡ get_or buf h zero_message ∷ window buf ((h + 1) % message_queue_size) (n - 1)
window-pred buf h zero p = absurd (p refl)
window-pred buf h (suc n) p = ap (λ k. window buf h (suc k)) (omega arith)

pub count_of_contents :
    (q : MessageQueue) (ms : List StoredMessage) → contents q ≡ ms → q.queue_count ≡ length ms
count_of_contents q ms h =
    sym (length-window q.message_queue q.queue_head q.queue_count) ∙ ap length h

-- The first message is the head, and the rest lies behind it.
pub contents-cons :
    (q : MessageQueue) → q.queue_count ≢ 0 → contents q ≡ head_message q ∷ contents (advance_head q)
unfolding advance_head
contents-cons q h = window-pred q.message_queue q.queue_head q.queue_count h

-- A message at the tail that is not counted is not in the queue.
pub contents-write_tail :
    (q : MessageQueue) (m : StoredMessage)
    → IsQueue q
    → q.queue_count < message_queue_size
    → contents (write_tail m q) ≡ contents q
unfolding write_tail
contents-write_tail q m v h =
    window-set q.message_queue m q.queue_head q.queue_tail q.queue_count (omega arith) (omega arith)
      (omega arith)

-- In a well formed ring with room, what is written at the tail and counted comes behind the messages
-- that wait.
pub contents-advance_tail :
    (q : MessageQueue) (m : StoredMessage)
    → IsQueue q
    → q.queue_count < message_queue_size
    → contents (advance_tail (write_tail m q)) ≡ contents q ++ m ∷ []
unfolding advance_tail write_tail
contents-advance_tail q m v h =
    rw
      (
        add-one,
        window-snoc (set q.message_queue q.queue_tail m) q.queue_head q.queue_count (omega arith),
      )
      (ap₂ (λ w x. w ++ x ∷ [])
        (window-set q.message_queue m q.queue_head q.queue_tail q.queue_count (omega arith)
          (omega arith) (omega arith))
        (rw (← v.tail_at)
          (get_or-set_self q.message_queue q.queue_tail m zero_message (omega arith))))

-- The same, for a queue that is known to hold `m` in front of `ms`.
pub contents-uncons :
    (q : MessageQueue) (m : StoredMessage) (ms : List StoredMessage)
    → contents q ≡ m ∷ ms
    → (q.queue_count ≢ 0) × (head_message q ≡ m) × (contents (advance_head q) ≡ ms)
contents-uncons q m ms h =
    let some_wait : q.queue_count ≢ 0 = omega (arith, count_of_contents q (m ∷ ms) h) in
    let e : head_message q ∷ contents (advance_head q) ≡ m ∷ ms =
      sym (contents-cons q some_wait) ∙ h in
    (some_wait, cc, cc)

pub contents-mark_delivered :
    (q : MessageQueue)
    → IsQueue q
    → contents (advance_head (mark_delivered q)) ≡ contents (advance_head q)
unfolding advance_head mark_delivered
contents-mark_delivered q v =
    window-set q.message_queue _ ((q.queue_head + 1) % message_queue_size) q.queue_head
      (q.queue_count - 1) (omega arith) (omega arith) (omega arith)

module _ {q : MessageQueue} (v : IsQueue q) where
  -- A queue with room, after a message is written and counted.
  pub stored-IsQueue :
      (m : StoredMessage)
      → q.queue_count < message_queue_size
      → IsQueue (advance_tail (write_tail m q))
  unfolding write_tail advance_tail
  stored-IsQueue m h = ground (arith, length-set q.message_queue q.queue_tail m)

  pub write_tail-IsQueue : (m : StoredMessage) → IsQueue (write_tail m q)
  unfolding write_tail
  write_tail-IsQueue m = ground (arith, length-set q.message_queue q.queue_tail m)

  pub advance_head-IsQueue : q.queue_count ≢ 0 → IsQueue (advance_head q)
  unfolding advance_head
  advance_head-IsQueue h = omega arith

  pub mark_delivered-IsQueue : IsQueue (mark_delivered q)
  unfolding mark_delivered
  mark_delivered-IsQueue = record {
    room = length-set q.message_queue q.queue_head _ ∙ v.room;
    head_in = v.head_in;
    count_in = v.count_in;
    tail_at = v.tail_at;
  }

  pub count-advance_head : (advance_head q).queue_count ≡ q.queue_count - 1
  unfolding advance_head
  count-advance_head = refl

  pub count-advance_marked : (advance_head (mark_delivered q)).queue_count ≡ q.queue_count - 1
  unfolding advance_head mark_delivered
  count-advance_marked = refl

pub advance_marked-IsQueue :
    {q : MessageQueue} → IsQueue q → q.queue_count ≢ 0 → IsQueue (advance_head (mark_delivered q))
unfolding mark_delivered
advance_marked-IsQueue {q} v h =
    advance_head-IsQueue {q = mark_delivered q} (mark_delivered-IsQueue v) h

pub zero_queue-IsQueue : IsQueue zero_queue
unfolding zero_queue
zero_queue-IsQueue = omega (arith, length-replicate 100 zero_message)
