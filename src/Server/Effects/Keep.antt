-- ===== src/Server/Effects/Keep.antt =====
-- Effects on `server_state_t` and the validity of the state.
use c_chat.Prelude.{
  ℕ, zero, suc, ◌+◌, ◌%◌, ◌^◌, ◌≤◌, ◌<◌, ◌≡◌, ◌≢◌, refl, ◌∙◌, Bool-cases, inl, inr, true, false,
  none, some, List, [], ◌∷◌, ◌++◌, length, get_or, set, All, All-append, arith, find_index-none,
  find_index-append_found, find_index-set, get_or-set_cases, length-append, length-set,
}
use mathlib.Core.List.{map-append}
use c_chat.Server.Types.{max_clients, UserStatus, UserRecord, ClientConnection}
use c_chat.Server.Io.{Env, Io}
use c_chat.Server.State.{Server, client_at, set_client, zero_client}
use c_chat.Server.Users.{is_user, find_user, set_user_status, user_at, zero_user, copy_name}
use c_chat.Server.Valid.{IsGoodUser, IsSlot, names, Distinct, IsValid}
use c_chat.Server.Effects.{
  Effect, world, number, enrol, mark, log_in, show, requeue, hang_up, meter, Effects, none_yet,
  and_then,
}
use c_chat.Server.Effects.Registry.{All-set_get, names-set, Distinct-append, new_name, found_copy}

-- A slot stays good while the registered names stay.
IsSlot-users :
    (us vs : List UserRecord) (c : ClientConnection)
    → ((name : List ℕ) → find_user name us ≢ none → find_user name vs ≢ none)
    → IsSlot us c
    → IsSlot vs c
IsSlot-users us vs c keeps h = record {
  queue = h.queue;
  limit = h.limit;
  logged_in = λ e. keeps c.username (h.logged_in e);
}

unused-set :
    (cs : List ClientConnection) (i j : ℕ) (c : ClientConnection)
    → (get_or cs j zero_client).connected ≡ false
    → (c.connected ≡ true → (get_or cs i zero_client).connected ≡ true)
    → (get_or (set cs i c) j zero_client).connected ≡ false
unused-set [] i j c h old = h
unused-set (x ∷ xs) zero zero c h old = elim (Bool-cases c.connected) [
  | inl e ↦ cc (old e)
  | inr e ↦ e
]
unused-set (x ∷ xs) zero (suc j) c h old = h
unused-set (x ∷ xs) (suc i) zero c h old = h
unused-set (x ∷ xs) (suc i) (suc j) c h old = unused-set xs i j c h old

-- A change of the users that keeps the registered names.
users-IsValid :
    (env : Env) (s : Server) (us : List UserRecord)
    → IsValid env s
    → length us ≤ max_clients
    → All (IsGoodUser env) us
    → Distinct (names us)
    → ((name : List ℕ) → find_user name s.users ≢ none → find_user name us ≢ none)
    → IsValid env (record s { users = us })
users-IsValid env s us v room good distinct keeps = record {
  users_in = room;
  users_good = good;
  users_distinct = distinct;
  clients_in = v.clients_in;
  count_in = v.count_in;
  unused = v.unused;
  slots = λ j. IsSlot-users s.users us (client_at j s) keeps (v.slots j);
  number_in = v.number_in;
}

module _ (env : Env) (s : Server) (v : IsValid env s) where
  -- One slot is replaced by a good one that is not newly connected.
  pub set_client-IsValid :
      (i : ℕ) (c : ClientConnection)
      → IsSlot s.users c
      → (c.connected ≡ true → (client_at i s).connected ≡ true)
      → IsValid env (set_client i c s)
  set_client-IsValid i c good old = record {
    users_in = v.users_in;
    users_good = v.users_good;
    users_distinct = v.users_distinct;
    clients_in = length-set s.clients i c ∙ v.clients_in;
    count_in = v.count_in;
    unused = λ j h. unused-set s.clients i j c (v.unused j h) old;
    slots = λ j. get_or-set_cases (IsSlot s.users) s.clients i j c zero_client (v.slots j) good;
    number_in = v.number_in;
  }

  pub io-IsValid : (io' : Io) → IsValid env (record s { io = io' })
  io-IsValid io' = record {
    users_in = v.users_in;
    users_good = v.users_good;
    users_distinct = v.users_distinct;
    clients_in = v.clients_in;
    count_in = v.count_in;
    unused = v.unused;
    slots = v.slots;
    number_in = v.number_in;
  }

  number-IsValid : IsValid env (record s { next_message_id = (s.next_message_id + 1) % 2 ^ 32 })
  number-IsValid = record {
    users_in = v.users_in;
    users_good = v.users_good;
    users_distinct = v.users_distinct;
    clients_in = v.clients_in;
    count_in = v.count_in;
    unused = v.unused;
    slots = v.slots;
    number_in = omega arith;
  }

  enrol-IsValid :
      (u : UserRecord)
      → IsGoodUser env u
      → find_user u.username s.users ≡ none
      → length s.users < max_clients
      → IsValid env (record s { users = s.users ++ u ∷ [] })
  unfolding find_user
  enrol-IsValid u good new room =
      users-IsValid env s (s.users ++ u ∷ []) v (omega (arith, length-append s.users (u ∷ [])))
        (All-append (IsGoodUser env) s.users (u ∷ []) v.users_good (good, tt))
        (rw map-append (
          Distinct-append (names s.users) u.username v.users_distinct
            (new_name env u.username s.users v.users_good (find_index-none _ s.users new))))
        λ name found. rw (find_index-append_found (is_user name) s.users (u ∷ []) found) found

  mark-IsValid :
      (i : ℕ) (status : UserStatus) (now : ℕ) → IsValid env (set_user_status i status now s)
  unfolding set_user_status find_user is_user
  mark-IsValid i status now =
      users-IsValid env s (set s.users i changed) v
        (omega (arith, length-set s.users i changed, v.users_in))
        (All-set_get (IsGoodUser env) s.users i changed zero_user v.users_good
          (λ g. record { name = g.name; registered = g.registered; key = g.key }))
        (rw (names-set s.users i changed zero_user refl) v.users_distinct)
        λ name found. rw (find_index-set (is_user name) s.users i changed zero_user refl) found
    where
      changed : UserRecord
      changed = record (user_at i s) { status = status; last_seen = now }

  log_in-IsValid :
      (i u : ℕ) (name : List ℕ)
      → find_user name s.users ≡ some u
      → IsValid env (
          set_client i
            (record (client_at i s) { authenticated = true; username = copy_name name })
            s)
  log_in-IsValid i u name found =
      set_client-IsValid i _
        (record {
          queue = (v.slots i).queue;
          limit = (v.slots i).limit;
          logged_in = λ _ e. cc (found, e, found_copy env name s.users u v.users_good found);
        })
        (λ e. e)

-- Every effect keeps the state valid.
pub Effect-IsValid : {env : Env} {s t : Server} → Effect env s t → IsValid env s → IsValid env t
Effect-IsValid {env} (world s io' e) v = io-IsValid env s v io'
Effect-IsValid {env} (number s) v = number-IsValid env s v
Effect-IsValid {env} (enrol s u good new room) v = enrol-IsValid env s v u good new room
Effect-IsValid {env} (mark s u status now) v = mark-IsValid env s v u status now
Effect-IsValid {env} (log_in s i u name found) v = log_in-IsValid env s v i u name found
Effect-IsValid {env} (show s i status) v =
    set_client-IsValid env s v i _
      (record {
        queue = (v.slots i).queue;
        limit = (v.slots i).limit;
        logged_in = (v.slots i).logged_in;
      })
      (λ e. e)
Effect-IsValid {env} (requeue s i q fine) v =
    set_client-IsValid env s v i _
      (record {
        queue = fine (v.slots i).queue;
        limit = (v.slots i).limit;
        logged_in = (v.slots i).logged_in;
      })
      (λ e. e)
Effect-IsValid {env} (hang_up s i) v =
    set_client-IsValid env s v i _
      (record {
        queue = (v.slots i).queue;
        limit = (v.slots i).limit;
        logged_in = (v.slots i).logged_in;
      })
      (λ e. cc)
Effect-IsValid {env} (meter s i r few) v =
    set_client-IsValid env s v i _
      (record { queue = (v.slots i).queue; limit = few; logged_in = (v.slots i).logged_in })
      (λ e. e)

pub Effects-IsValid : {env : Env} {s t : Server} → Effects env s t → IsValid env s → IsValid env t
Effects-IsValid none_yet v = v
Effects-IsValid (and_then p e) v = Effect-IsValid e (Effects-IsValid p v)
