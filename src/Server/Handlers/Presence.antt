-- ===== src/Server/Handlers/Presence.antt =====
-- server/src/message_handlers.c: the status of a user, and the list of all users.
pub mod Listing
use c_chat.Prelude.{
  ℕ, zero, suc, ◌%◌, ◌^◌, not, Option, none, some, List, [], ◌∷◌, ◌++◌, ℤ, pos, length, get_or,
  if◌then◌else◌, ltb,
}
use c_chat.Server.Types.{
  UserStatus, offline, online, away, status_code, user_list_response, invalid_format, server_error,
  UserRecord,
}
use c_chat.Server.Io.{Env, State, malloc, time_now}
use c_chat.Server.Words.{be16}
use c_chat.Server.State.{Server, client_at, set_client, lift}
use c_chat.Server.Users.{find_user, set_user_status, broadcast_status_update}
use c_chat.Server.Handlers.{respond, refuse}

-- The cast to `user_status_t`, with the test `new_status > STATUS_AWAY`.
unfoldable pub read_status : ℕ → Option UserStatus
read_status zero = some offline
read_status (suc zero) = some online
read_status (suc (suc zero)) = some away
read_status (suc (suc (suc n))) = none

-- The entries of the list, and how many there are.
unfoldable pub user_entries : List UserRecord → List ℕ
user_entries [] = []
user_entries (u ∷ us) =
    let rest = user_entries us in
    if u.is_registered
    then (length u.username % 2 ^ 8) ∷ (u.username ++ status_code u.status ∷ rest)
    else rest

unfoldable pub count_registered : List UserRecord → ℕ
count_registered [] = 0
count_registered (u ∷ us) =
    let rest = count_registered us in if u.is_registered then suc rest else rest

unfoldable pub user_list : List UserRecord → List ℕ
user_list us = be16 (count_registered us % 2 ^ 16) ++ user_entries us

module _ (env : Env) (i : ℕ) where
  unfoldable pub change_status : Option ℕ → UserStatus → State Server ℤ
  change_status none status s = (pos 0, s)
  change_status (some u) status s =
      let (now, s₁) = lift (time_now env) s in
      let s₂ : Server = set_user_status u status now s₁ in
      let s₃ : Server = set_client i (record (client_at i s₂) { status = status }) s₂ in
      (pos 0, broadcast_status_update env (client_at i s).username status s₃)

  unfoldable pub set_status_to : Option UserStatus → State Server ℤ
  unfolding change_status
  set_status_to none s = refuse env i invalid_format "Invalid status value" s
  set_status_to (some status) s =
      change_status (find_user (client_at i s).username s.users) status s

  unfoldable pub handle_set_status : List ℕ → State Server ℤ
  unfolding set_status_to read_status
  handle_set_status payload s =
      if ltb (length payload) 1
      then refuse env i invalid_format "Invalid status data" s
      else set_status_to (read_status (get_or payload 0 0)) s

  unfoldable pub handle_list_users : State Server ℤ
  handle_list_users s =
      let (allocated, s₁) = lift (malloc env (length (user_list s.users))) s in
      if not allocated
      then refuse env i server_error "Memory allocation failed" s₁
      else respond env i user_list_response (user_list s.users) s₁
