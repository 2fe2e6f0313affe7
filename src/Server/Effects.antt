-- ===== src/Server/Effects.antt =====
-- What the handlers of server/src/message_handlers.c do to the state, as single effects, and
-- sequences of them.
pub mod Inbox
pub mod Registry
pub mod Keep
pub mod Calls
pub mod Stores
pub mod Requests
pub mod Handlers
pub mod Turn
pub mod Slots
pub mod Reach
pub mod Leave
pub mod Session
use c_chat.Prelude.{
  ℕ, ◌+◌, ◌%◌, ◌^◌, ◌≤◌, ◌<◌, ◌≡◌, refl, Bool, true, false, none, some, List, [], ◌∷◌, ◌++◌, length,
}
use c_chat.Server.Types.{
  max_clients, rate_limit_max_requests, UserStatus, UserRecord, RateLimit, MessageQueue,
}
use c_chat.Server.Io.{Env, Io}
use c_chat.Server.State.{Server, client_at, set_client}
use c_chat.Server.Users.{find_user, set_user_status, copy_name}
use c_chat.Server.Delivery.{set_queue}
use c_chat.Server.Valid.{IsGoodUser, IsFine}

pub data Effect (env : Env) : Server → Server → Type 0 where
  -- something is sent, or the clock or the allocator is asked; nothing is read off a socket
  world : (s : Server) (io' : Io) → io'.inbox ≡ s.io.inbox → Effect env s (record s { io = io' })
  -- a message number is taken
  number :
      (s : Server) → Effect env s (record s { next_message_id = (s.next_message_id + 1) % 2 ^ 32 })
  -- a user is registered under a new name
  enrol :
      (s : Server) (u : UserRecord)
      → IsGoodUser env u
      → find_user u.username s.users ≡ none
      → length s.users < max_clients
      → Effect env s (record s { users = s.users ++ u ∷ [] })
  -- a user's status changes
  mark :
      (s : Server) (u : ℕ) (status : UserStatus) (now : ℕ)
      → Effect env s (set_user_status u status now s)
  -- a connection is logged in as a registered user
  log_in :
      (s : Server) (i u : ℕ) (name : List ℕ)
      → find_user name s.users ≡ some u
      → Effect env s (
          set_client i
            (record (client_at i s) { authenticated = true; username = copy_name name })
            s)
  -- a connection's status changes
  show :
      (s : Server) (i : ℕ) (status : UserStatus)
      → Effect env s (set_client i (record (client_at i s) { status = status }) s)
  -- a connection's queue becomes another that is well formed
  requeue :
      (s : Server) (i : ℕ) (q : MessageQueue)
      → (IsFine (client_at i s).queue → IsFine q)
      → Effect env s (set_queue i q s)
  -- a connection asks to end
  hang_up :
      (s : Server) (i : ℕ)
      → Effect env s (set_client i (record (client_at i s) { connected = false }) s)
  -- a request is counted
  meter :
      (s : Server) (i : ℕ) (r : RateLimit)
      → r.request_count ≤ rate_limit_max_requests
      → Effect env s (set_client i (record (client_at i s) { rate_limit = r }) s)

pub data Effects (env : Env) (s : Server) : Server → Type 0 where
  none_yet : Effects env s s
  and_then : {t u : Server} → Effects env s t → Effect env t u → Effects env s u

pub Effects-trans :
    {env : Env} {s t u : Server} → Effects env s t → Effects env t u → Effects env s u
Effects-trans p none_yet = p
Effects-trans p (and_then q e) = and_then (Effects-trans p q) e

pub one-Effect : {env : Env} {s t : Server} → Effect env s t → Effects env s t
one-Effect e = and_then none_yet e
