-- ===== src/Server/Effects/Turn.antt =====
-- server/src/client_handler.c: one turn of the loop of a connection, and what follows the loop.
use c_chat.Prelude.{
  ℕ, suc, ◌≤◌, ◌≡◌, refl, Bool, true, false, ◌&&◌, Option, none, some, ℤ, pos, negsuc, length,
  arith, ltb,
}
use c_chat.Server.Types.{
  rate_limit_max_requests, NetworkMessage, RateLimit, MessageQueue, ClientConnection, rate_limited,
  offline,
}
use c_chat.Server.Io.{Env, time_now}
use c_chat.Server.Protocol.{
  Received, message, disconnected, failed, waiting, receive_network_message, check_at,
  check_rate_limit, update_rate_limit,
}
use c_chat.Server.State.{Server, client_at}
use c_chat.Server.Users.{find_user}
use c_chat.Server.Session.{
  clear_queue, close_socket, answer_checked, answer, answer_received, turn, log_out_user,
  clear_slot, teardown,
}
use c_chat.Server.Valid.{IsFine, IsValid}
use c_chat.Server.Effects.{
  world, mark, meter, Effects, none_yet, and_then, Effects-trans, one-Effect,
}
use c_chat.Server.Effects.Keep.{Effects-IsValid, io-IsValid, set_client-IsValid}
use c_chat.Server.Effects.Calls.{broadcast-Effects}
use c_chat.Server.Effects.Handlers.{error_sent-Effects, either, dispatch-Effects}

-- The count after a check, passed or not.
check_at_count :
    (now : ℕ) (r : RateLimit)
    → r.request_count ≤ rate_limit_max_requests
    → ((check_at now r).0 ≡ true
        → (update_rate_limit (check_at now r).1).request_count ≤ rate_limit_max_requests)
      × ((check_at now r).1.request_count ≤ rate_limit_max_requests)
unfolding check_at update_rate_limit
check_at_count now r h = (λ e. ground arith, ground arith)

clear_queue-IsFine : {q : MessageQueue} → IsFine q → IsFine (clear_queue q)
unfolding clear_queue
clear_queue-IsFine f = record {
  ring = record {
    room = f.ring.room;
    head_in = omega arith;
    count_in = omega arith;
    tail_at = omega arith;
  };
  pending = tt;
}

pub close_socket-IsValid :
    (env : Env) (fd : ℤ) (s : Server) → IsValid env s → IsValid env (close_socket fd s)
unfolding close_socket
close_socket-IsValid env (pos n) s v = io-IsValid env s v _
close_socket-IsValid env (negsuc n) s v = v

module _ (env : Env) (i : ℕ) where
  answer_checked-Effects :
      (msg : NetworkMessage) (passes : Bool) (r : RateLimit) (s : Server)
      → (passes ≡ true → (update_rate_limit r).request_count ≤ rate_limit_max_requests)
      → r.request_count ≤ rate_limit_max_requests
      → Effects env s (answer_checked env i msg passes r s).1
  unfolding answer_checked
  answer_checked-Effects msg true r s next h =
      Effects-trans (one-Effect (meter s i (update_rate_limit r) (next refl)))
        (dispatch-Effects env i msg _)
  answer_checked-Effects msg false r s next h =
      Effects-trans (one-Effect (meter s i r h))
        (error_sent-Effects env i rate_limited "Rate limit exceeded" _)

  pub answer-Effects :
      (msg : NetworkMessage) (s : Server)
      → (client_at i s).rate_limit.request_count ≤ rate_limit_max_requests
      → Effects env s (answer env i msg s).1
  unfolding answer time_now check_rate_limit
  answer-Effects msg s h =
      let now : ℕ = env.time s.io.calls in
      let (next, few) = check_at_count now (client_at i s).rate_limit h in
      Effects-trans (one-Effect (world s (record s.io { calls = suc s.io.calls }) refl))
        (answer_checked-Effects msg _ _ _ next few)

  answer_received-IsValid :
      (received : Received) (s : Server)
      → IsValid env s
      → IsValid env (answer_received env i received s).1
  unfolding answer_received
  answer_received-IsValid (message msg) s v =
      Effects-IsValid (answer-Effects msg s (v.slots i).limit) v
  answer_received-IsValid disconnected s v = v
  answer_received-IsValid failed s v = v
  answer_received-IsValid waiting s v = v

  -- A turn of the loop keeps the state valid, whatever comes in.
  pub turn-IsValid : (s : Server) → IsValid env s → IsValid env (turn env i s).1
  unfolding turn
  turn-IsValid s v =
      let (received, io') = receive_network_message env (client_at i s).socket_fd s.io in
      answer_received-IsValid received (record s { io = io' }) (io-IsValid env s v io')

  log_out_user-Effects : (o : Option ℕ) (s : Server) → Effects env s (log_out_user env i o s)
  unfolding log_out_user time_now
  log_out_user-Effects none s = none_yet
  log_out_user-Effects (some u) s =
      Effects-trans
        (and_then (one-Effect (world s (record s.io { calls = suc s.io.calls }) refl))
          (mark _ u offline _))
        (broadcast-Effects env (client_at i s).username offline _)

  clear_slot-IsValid : (s : Server) → IsValid env s → IsValid env (clear_slot env i s)
  unfolding clear_slot
  clear_slot-IsValid s v =
      set_client-IsValid env s v i _
        (record {
          queue = clear_queue-IsFine (v.slots i).queue;
          limit = (v.slots i).limit;
          logged_in = λ e. cc;
        })
        (λ e. cc)

  -- What follows the loop keeps the state valid.
  pub teardown-IsValid : (s : Server) → IsValid env s → IsValid env (teardown env i s)
  unfolding teardown
  teardown-IsValid s v =
      let c : ClientConnection = client_at i s in
      clear_slot-IsValid _ (
        close_socket-IsValid env c.socket_fd _ (
          Effects-IsValid
            (either env i (c.authenticated && ltb 0 (length c.username)) _ s
              (log_out_user-Effects (find_user c.username s.users) s) none_yet)
            v))
