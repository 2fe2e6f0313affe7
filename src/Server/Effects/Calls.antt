-- ===== src/Server/Effects/Calls.antt =====
-- The calls that the handlers of server/src/message_handlers.c make, as sequences of effects.
use c_chat.Prelude.{
  ℕ, suc, ◌+◌, ◌≤◌, ◌<◌, ◌≡◌, refl, Bool, true, false, not, Option, none, some, List, ℤ, negsuc,
  length, String, Bool-cases, inl, inr, if◌then◌else◌, arith, take, leb, leb→gt, is_neg, take-all,
  length-take,
}
use c_chat.Server.Types.{max_clients, MessageType, ErrorCode, UserStatus, online}
use c_chat.Server.Io.{Env, malloc, time_now}
use c_chat.Server.Protocol.{validate_username_server}
use c_chat.Server.Protocol.Username.{IsUsername, validate_username_server-IsUsername}
use c_chat.Server.State.{Server, client_at}
use c_chat.Server.Users.{
  append_user, add_user, copy_name, is_none, find_user, status_payload, broadcast_status_update,
  admit_client, authenticate_found, authenticate_user,
}
use c_chat.Server.Handlers.{respond, refuse}
use c_chat.Server.Effects.{
  world, enrol, mark, log_in, Effects, none_yet, and_then, Effects-trans, one-Effect,
}
use c_chat.Server.Effects.Inbox.{inbox-send_network_message, inbox-send_error, inbox-broadcast_loop}

module _ (env : Env) where
  pub respond-Effects :
      (i : ℕ) (type : MessageType) (payload : List ℕ) (s : Server)
      → Effects env s (respond env i type payload s).1
  unfolding respond
  respond-Effects i type payload s =
      one-Effect
        (world s _ (inbox-send_network_message env (client_at i s).socket_fd type payload s.io))

  pub refuse-Effects :
      (i : ℕ) (code : ErrorCode) (text : String) (s : Server)
      → Effects env s (refuse env i code text s).1
  unfolding refuse
  refuse-Effects i code text s =
      one-Effect (world s _ (inbox-send_error env (client_at i s).socket_fd code text s.io))

  pub broadcast-Effects :
      (username : List ℕ) (status : UserStatus) (s : Server)
      → Effects env s (broadcast_status_update env username status s)
  unfolding broadcast_status_update malloc
  broadcast-Effects username status s =
      elim (Bool-cases (env.malloc s.io.calls (1 + length username + 1))) [
        | inl e ↦ rw e (
            one-Effect (
              world s _ (
                inbox-broadcast_loop env username (status_payload env username status)
                  (take s.client_count s.clients) (record s.io { calls = suc s.io.calls }))))
        | inr e ↦ rw e (one-Effect (world s _ refl))
      ]

  admit_client-Effects :
      (i u : ℕ) (username : List ℕ) (s : Server)
      → find_user username s.users ≡ some u
      → Effects env s (admit_client env i username u s)
  unfolding admit_client time_now
  admit_client-Effects i u username s h =
      Effects-trans
        (and_then (and_then (one-Effect (log_in s i u username h)) (world _ _ refl))
          (mark _ u online _))
        (broadcast-Effects username online _)

  -- A branch of a handler that returns.
  pub choose :
      {s : Server} (b : Bool) (x y : ℤ × Server)
      → (b ≡ true → Effects env s x.1)
      → (b ≡ false → Effects env s y.1)
      → Effects env s (if b then x else y).1
  choose true x y p q = p refl
  choose false x y p q = q refl

  authenticate_found-Effects :
      (i : ℕ) (username signature : List ℕ) (o : Option ℕ) (s : Server)
      → find_user username s.users ≡ o
      → Effects env s (authenticate_found env i username signature o s).1
  unfolding authenticate_found
  authenticate_found-Effects i username signature none s h = none_yet
  authenticate_found-Effects i username signature (some u) s h =
      choose _ _ _ (λ _. admit_client-Effects i u username s h) (λ _. none_yet)

  pub authenticate_user-Effects :
      (i : ℕ) (username signature : List ℕ) (s : Server)
      → Effects env s (authenticate_user env i username signature s).1
  unfolding authenticate_user
  authenticate_user-Effects i username signature s =
      authenticate_found-Effects i username signature (find_user username s.users) s refl

  append_user-Effects :
      (username public_key : List ℕ) (s : Server)
      → IsUsername username
      → env.public_key_size ≤ length public_key
      → length s.users < max_clients
      → find_user username s.users ≡ none
      → Effects env s (append_user env username public_key s).1
  unfolding append_user time_now
  append_user-Effects username public_key s name key room new =
      let same : copy_name username ≡ username = take-all 31 username name.short in
      and_then (one-Effect (world s (record s.io { calls = suc s.io.calls }) refl)) (
        enrol _ _
          (record {
            name = rw same name;
            registered = refl;
            key = omega (arith, length-take env.public_key_size public_key);
          })
          (rw same new) room)

  is_none→none : (o : Option ℕ) → not (is_none o) ≡ false → o ≡ none
  unfolding is_none
  is_none→none none e = refl
  is_none→none (some i) e = cc

  valid_name : (name : List ℕ) → is_neg (validate_username_server name) ≡ false → IsUsername name
  valid_name name e = elim (validate_username_server-IsUsername name) [
    | inl (z, u) ↦ u
    | inr (z, u) ↦ absurd (ground (arith, z))
  ]

  pub add_user-Effects :
      (username public_key : List ℕ) (s : Server)
      → env.public_key_size ≤ length public_key
      → Effects env s (add_user env username public_key s).1
  unfolding add_user
  add_user-Effects username public_key s key =
      choose (is_neg (validate_username_server username)) (negsuc 0, s) _ (λ _. none_yet)
        λ valid.
          choose (leb max_clients (length s.users)) (negsuc 0, s) _ (λ _. none_yet)
            λ room.
              choose (not (is_none (find_user username s.users))) (negsuc 1, s) _ (λ _. none_yet)
                λ new.
                  append_user-Effects username public_key s (valid_name username valid) key
                    (leb→gt _ _ room) (is_none→none _ new)
