-- ===== src/Server/Effects/Slots.antt =====
-- server/src/server.c: a new connection, and the validity of the state.
use c_chat.Prelude.{
  ℕ, suc, ◌+◌, ◌≤◌, ◌<◌, ◌≡◌, refl, ap, ◌∙◌, Bool, true, false, Option, none, some, List, ℤ,
  get_or-set_ne, get_or-set_cases, length-set, find_index, find_index-get, if◌then◌else◌, arith,
  leb,
}
use c_chat.Server.Types.{max_clients, challenge_size, ClientConnection, UserRecord}
use c_chat.Server.Io.{Env, time_now, randombytes, close}
use c_chat.Server.State.{Server, zero_client, set_client}
use c_chat.Server.Queue.Ring.{zero_queue-IsQueue}
use c_chat.Server.State.{zero_queue}
use c_chat.Server.Listen.{
  is_free, new_connection, start_thread, take_slot, accept_at, accept_client,
}
use c_chat.Server.Valid.{IsSlot, IsFine, IsValid}
use c_chat.Server.Effects.Keep.{io-IsValid, set_client-IsValid}

pub zero_queue-IsFine : IsFine zero_queue
unfolding zero_queue
zero_queue-IsFine = record { ring = zero_queue-IsQueue; pending = tt }

new_connection-IsSlot :
    (env : Env) (fd : ℤ) (now : ℕ) (challenge : List ℕ) (us : List UserRecord)
    → IsSlot us (new_connection env fd now challenge)
unfolding new_connection
new_connection-IsSlot env fd now challenge us = record {
  queue = zero_queue-IsFine;
  limit = omega arith;
  logged_in = λ e. cc;
}

-- The slot `i` is taken, and the count of slots in use goes past it.
occupy-IsValid :
    (env : Env) (s : Server) (i count : ℕ) (c : ClientConnection)
    → IsValid env s
    → i < max_clients
    → IsSlot s.users c
    → (s.client_count ≤ count) × (i < count) × (count ≤ max_clients)
    → IsValid env (record (set_client i c s) { client_count = count })
occupy-IsValid env s i count c v inside good (grown, past, bound) = record {
  users_in = v.users_in;
  users_good = v.users_good;
  users_distinct = v.users_distinct;
  clients_in = length-set s.clients i c ∙ v.clients_in;
  count_in = bound;
  unused = λ j h.
      ap (λ (d : ClientConnection). d.connected)
        (get_or-set_ne s.clients i j c zero_client (λ e. omega arith))
      ∙ v.unused j (omega arith);
  slots = λ j. get_or-set_cases (IsSlot s.users) s.clients i j c zero_client (v.slots j) good;
  number_in = v.number_in;
}

new_count :
    (i count : ℕ)
    → i < max_clients
    → count ≤ max_clients
    → let n : ℕ = if leb count i then i + 1 else count in (count ≤ n) × (i < n) × (n ≤ max_clients)
new_count i count h k = ground arith

module _ (env : Env) where
  start_thread-IsValid :
      (fd : ℤ) (i : ℕ) (created : Bool) (s : Server)
      → IsValid env s
      → IsValid env (start_thread env fd i created s)
  unfolding start_thread
  start_thread-IsValid fd i true s v = v
  start_thread-IsValid fd i false s v =
      set_client-IsValid env (record s { io = close fd s.io }) (io-IsValid env s v _) i _
        (record {
          queue = (v.slots i).queue;
          limit = (v.slots i).limit;
          logged_in = (v.slots i).logged_in;
        })
        (λ e. cc)

  take_slot-IsValid :
      (fd : ℤ) (created : Bool) (i : ℕ) (s : Server)
      → IsValid env s
      → i < max_clients
      → IsValid env (take_slot env fd created i s)
  unfolding take_slot time_now randombytes
  take_slot-IsValid fd created i s v inside =
      let challenge : List ℕ = env.randombytes (suc s.io.calls) challenge_size in
      start_thread-IsValid fd i created _ (
        occupy-IsValid env (record s { io = record s.io { calls = suc (suc s.io.calls) } }) i _ _
          (io-IsValid env s v _) inside
          (new_connection-IsSlot env fd (env.time s.io.calls) challenge s.users)
          (new_count i s.client_count inside v.count_in))

  accept_at-IsValid :
      (fd : ℤ) (created : Bool) (o : Option ℕ) (s : Server)
      → IsValid env s
      → find_index is_free s.clients ≡ o
      → IsValid env (accept_at env fd created o s)
  unfolding accept_at
  accept_at-IsValid fd created none s v e = io-IsValid env s v _
  accept_at-IsValid fd created (some i) s v e =
      let (inside, free) = find_index-get is_free s.clients i zero_client e in
      take_slot-IsValid fd created i s v (omega (arith, v.clients_in))

  -- A new connection keeps the state valid, whether a slot is free and its thread starts or not.
  pub accept_client-IsValid :
      (fd : ℤ) (created : Bool) (s : Server)
      → IsValid env s
      → IsValid env (accept_client env fd created s)
  unfolding accept_client
  accept_client-IsValid fd created s v =
      accept_at-IsValid fd created (find_index is_free s.clients) s v refl
