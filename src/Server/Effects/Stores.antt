-- ===== src/Server/Effects/Stores.antt =====
-- server/src/message_queue.c: deliver_queued_messages and queue_message, as sequences of effects.
use c_chat.Prelude.{
  ℕ, suc, ◌<◌, refl, ap, Bool, true, false, Option, none, some, List, [], ◌∷◌, ℤ, negsuc, length,
  arith, All-append, leb, leb→gt, take-all, length-take, ◌==◌,
}
use native.Mathlib.Nat.{le_refl}
use c_chat.Server.Types.{StoredMessage, message_queue_size, MessageQueue, ClientConnection}
use c_chat.Server.Io.{Env, Io, malloc, time_now}
use c_chat.Server.State.{Server, client_at}
use c_chat.Server.Users.{find_client_by_username}
use c_chat.Server.Queue.{write_tail, advance_tail, deliver_loop}
use c_chat.Server.Queue.Ring.{
  contents, write_tail-IsQueue, stored-IsQueue, contents-advance_tail, contents-write_tail,
}
use c_chat.Server.Queue.Deliver.{deliver_all-All, deliver_loop-Refines}
use c_chat.Server.Valid.{IsPending, IsFine}
use c_chat.Server.Delivery.{
  finish_store, store_message, queue_message_at, queue_message, deliver_now,
  deliver_queued_messages,
}
use c_chat.Server.Effects.{
  world, number, requeue, Effects, none_yet, and_then, Effects-trans, one-Effect,
}
use c_chat.Server.Effects.Inbox.{inbox-deliver_loop}
use c_chat.Server.Effects.Calls.{choose}

module _ (env : Env) where
  deliver-IsFine :
      (fd : ℤ) (q : MessageQueue) (io : Io)
      → IsFine q
      → IsFine (deliver_loop env fd q.queue_count 0 q io).1
  deliver-IsFine fd q io f =
      let (n, held, w, ring) =
        deliver_loop-Refines env fd q.queue_count 0 q io f.ring (le_refl _) in
      record {
        ring = ring;
        pending = rw held (deliver_all-All env fd IsPending (contents q) 0 io f.pending);
      }

  deliver_now-Effects : (i : ℕ) (s : Server) → Effects env s (deliver_now env i s).1
  unfolding deliver_now
  deliver_now-Effects i s =
      let c : ClientConnection = client_at i s in
      let (n, q, io') = deliver_loop env c.socket_fd c.queue.queue_count 0 c.queue s.io in
      and_then (one-Effect (requeue s i q (deliver-IsFine c.socket_fd c.queue s.io)))
        (world _ io' (inbox-deliver_loop env c.socket_fd c.queue.queue_count 0 c.queue s.io))

  pub deliver_queued_messages-Effects :
      (i : ℕ) (s : Server) → Effects env s (deliver_queued_messages env i s).1
  unfolding deliver_queued_messages
  deliver_queued_messages-Effects i s =
      choose env (client_at i s).authenticated (deliver_now env i s) (negsuc 0, s)
        (λ _. deliver_now-Effects i s) (λ _. none_yet)

  stored-IsFine :
      (q : MessageQueue) (m : StoredMessage)
      → q.queue_count < message_queue_size
      → IsPending m
      → IsFine q
      → IsFine (advance_tail (write_tail m q))
  stored-IsFine q m room p f = record {
    ring = stored-IsQueue f.ring m room;
    pending =
        rw (contents-advance_tail q m f.ring room)
          (All-append IsPending (contents q) (m ∷ []) f.pending (p, tt));
  }

  unstored-IsFine :
      (q : MessageQueue) (m : StoredMessage)
      → q.queue_count < message_queue_size
      → IsFine q
      → IsFine (write_tail m q)
  unstored-IsFine q m room f = record {
    ring = write_tail-IsQueue f.ring m;
    pending = rw (contents-write_tail q m f.ring room) f.pending;
  }

  finish_store-Effects :
      (i : ℕ) (m : StoredMessage) (body : List ℕ) (allocated : Bool) (s : Server)
      → (client_at i s).queue.queue_count < message_queue_size
      → IsPending (record m { encrypted_data = some body })
      → Effects env s (finish_store i m body allocated s).1
  unfolding finish_store
  finish_store-Effects i m body true s room p =
      one-Effect (requeue s i _ (stored-IsFine (client_at i s).queue _ room p))
  finish_store-Effects i m body false s room p =
      one-Effect (requeue s i _ (unstored-IsFine (client_at i s).queue m room))

  store_message-Effects :
      (i : ℕ) (recipient sender body : List ℕ) (s : Server)
      → (client_at i s).queue.queue_count < message_queue_size
      → Effects env s (store_message env i recipient sender body (length body) s).1
  unfolding store_message time_now malloc
  store_message-Effects i recipient sender body s room =
      Effects-trans
        (and_then
          (and_then (one-Effect (number s)) (world _ (record s.io { calls = suc s.io.calls }) refl))
          (world _ (record s.io { calls = suc (suc s.io.calls) }) refl))
        (finish_store-Effects i _ _ _ _ room (record {
          waits = refl;
          body = body;
          held = ap some (take-all (length body) body (le_refl _));
          sized = refl;
          sender_fits = omega (arith, length-take 31 sender);
        }))

  queue_message_at-Effects :
      (o : Option ℕ) (recipient sender body : List ℕ) (s : Server)
      → Effects env s (queue_message_at env o recipient sender body (length body) s).1
  unfolding queue_message_at
  queue_message_at-Effects none recipient sender body s = none_yet
  queue_message_at-Effects (some i) recipient sender body s =
      choose env (leb message_queue_size (client_at i s).queue.queue_count) (negsuc 0, s)
        (store_message env i recipient sender body (length body) s) (λ _. none_yet)
        (λ e. store_message-Effects i recipient sender body s (leb→gt _ _ e))

  pub queue_message-Effects :
      (recipient sender body : List ℕ) (s : Server)
      → Effects env s (queue_message env recipient sender body (length body) s).1
  unfolding queue_message
  queue_message-Effects recipient sender body s =
      choose env (length body == 0) (negsuc 0, s) _ (λ _. none_yet)
        (λ _.
          queue_message_at-Effects (find_client_by_username recipient s) recipient sender body s)
