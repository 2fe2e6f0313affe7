-- ===== src/Server/Listen/Accept.antt =====
-- server/src/server.c, the accept loop of main: which slot a new connection gets.
use c_chat.Prelude.{
  ℕ, suc, ◌+◌, ◌≤◌, ◌<◌, ◌≡◌, ◌≢◌, refl, sym, ap, ◌∙◌, ◌⊎◌, inl, inr, Bool, true, false, Option,
  none, some, List, [], ◌∷◌, ℤ, length, All, find_index, find_index-get, find_index-none,
  get_or-set_self, length-set, set, get_or-set_ne, if◌then◌else◌, leb, arith,
}
use c_chat.Server.Types.{challenge_size, ClientConnection, online}
use c_chat.Server.Io.{Env, closed, time_now, randombytes, close}
use c_chat.Server.State.{Server, zero_client, zero_queue, client_at}
use c_chat.Server.Queue.Ring.{contents}
use c_chat.Server.Listen.{
  is_free, new_connection, start_thread, take_slot, accept_at, accept_client,
}

module _ (env : Env) (fd : ℤ) (s : Server) where
  -- The slot of the connection, which holds nothing of its last owner: the socket, the time, a fresh
  -- challenge and an empty queue, without a name, a key, a login or a counted request.
  abbrev pub slot_of : Bool → ClientConnection
  slot_of created = record {
    socket_fd = fd;
    username = [];
    connected = created;
    authenticated = false;
    status = online;
    connected_time = env.time s.io.calls;
    queue = zero_queue;
    rate_limit = record { window_start = 0; request_count = 0 };
    challenge = env.randombytes (suc s.io.calls) challenge_size;
  }

  -- Slot `i` was the new connection's to take: all of it is new, it is counted, and the other slots
  -- and the users are as they were.
  pub record Takes (created : Bool) (i : ℕ) (t : Server) : Type 0 where
    pub free : (client_at i s).connected ≡ false
    pub inside : i < length s.clients
    pub fresh : client_at i t ≡ slot_of created
    pub socket : (client_at i t).socket_fd ≡ fd
    pub live : (client_at i t).connected ≡ created
    pub stranger : (client_at i t).authenticated ≡ false
    pub empty : contents (client_at i t).queue ≡ []
    pub asked : (client_at i t).challenge ≡ env.randombytes (suc s.io.calls) challenge_size
    pub counted : i < t.client_count
    pub grows : s.client_count ≤ t.client_count
    pub others : (k : ℕ) → k ≢ i → client_at k t ≡ client_at k s
    pub registry : t.users ≡ s.users

  -- A free slot was taken; or there was none, and the socket is closed.
  abbrev pub Accepts : Bool → Server → Type 0
  Accepts created t =
      ((i : ℕ) × Takes created i t)
      ⊎ (All (λ c. c.connected ≡ true) s.clients
          × (t ≡ record s { io = record s.io { events = closed fd ∷ s.io.events } }))

  abbrev taken : Bool → ClientConnection
  taken created =
      record (new_connection env fd (env.time s.io.calls)
        (env.randombytes (suc s.io.calls) challenge_size)) { connected = created }

  slot :
      (created : Bool) (i : ℕ)
      → i < length s.clients
      → client_at i (take_slot env fd created i s) ≡ taken created
  unfolding take_slot start_thread new_connection time_now randombytes
  slot true i inside = get_or-set_self s.clients i (taken true) zero_client inside
  slot false i inside =
      get_or-set_self (set s.clients i (taken true)) i _ zero_client
        (omega (arith, length-set s.clients i (taken true)))
      ∙ ap (λ (c : ClientConnection). record c { connected = false })
          (get_or-set_self s.clients i (taken true) zero_client inside)

  other_slots :
      (created : Bool) (i k : ℕ)
      → k ≢ i
      → client_at k (take_slot env fd created i s) ≡ client_at k s
  unfolding take_slot start_thread new_connection time_now randombytes
  other_slots true i k ne = get_or-set_ne s.clients i k (taken true) zero_client (λ e. ne (sym e))
  other_slots false i k ne =
      get_or-set_ne (set s.clients i (taken true)) i k _ zero_client (λ e. ne (sym e))
      ∙ get_or-set_ne s.clients i k (taken true) zero_client (λ e. ne (sym e))

  new_count :
      (created : Bool) (i : ℕ)
      → (take_slot env fd created i s).client_count
        ≡ (if leb s.client_count i then i + 1 else s.client_count)
  unfolding take_slot start_thread time_now randombytes
  new_count true i = refl
  new_count false i = refl

  new_users : (created : Bool) (i : ℕ) → (take_slot env fd created i s).users ≡ s.users
  unfolding take_slot start_thread time_now randombytes
  new_users true i = refl
  new_users false i = refl

  take_slot-Takes :
      (created : Bool) (i : ℕ)
      → i < length s.clients
      → (client_at i s).connected ≡ false
      → Takes created i (take_slot env fd created i s)
  unfolding new_connection zero_queue
  take_slot-Takes created i inside free =
      let here : client_at i (take_slot env fd created i s) ≡ taken created =
        slot created i inside in
      record {
        free = free;
        inside = inside;
        fresh = here;
        socket = ap (λ (c : ClientConnection). c.socket_fd) here;
        live = ap (λ (c : ClientConnection). c.connected) here;
        stranger = ap (λ (c : ClientConnection). c.authenticated) here;
        empty = ap (λ (c : ClientConnection). contents c.queue) here;
        asked = ap (λ (c : ClientConnection). c.challenge) here;
        counted = ground (arith, new_count created i);
        grows = ground (arith, new_count created i);
        others = other_slots created i;
        registry = new_users created i;
      }

  is_free→ : (c : ClientConnection) → is_free c ≡ true → c.connected ≡ false
  unfolding is_free
  is_free→ c e = ground arith

  none_free :
      (cs : List ClientConnection)
      → All (λ c. is_free c ≡ false) cs
      → All (λ (c : ClientConnection). c.connected ≡ true) cs
  unfolding is_free
  none_free [] h = tt
  none_free (c ∷ cs) h = (ground (arith, h.0), none_free cs h.1)

  -- A connection that was accepted gets a slot that was not connected: the whole slot is then new,
  -- with its socket, the time and a fresh challenge, without a name, a login, a counted request or a
  -- message, is connected if the thread could be created, and is among those that `client_count`
  -- counts; the other slots and the users stay as they were.
  -- If every slot is connected, the socket is closed and nothing else changes.
  pub accept_client-Accepts : (created : Bool) → Accepts created (accept_client env fd created s)
  unfolding accept_client accept_at close
  accept_client-Accepts created = found (find_index is_free s.clients) refl
    where
      found :
          (o : Option ℕ)
          → find_index is_free s.clients ≡ o
          → Accepts created (accept_at env fd created o s)
      found none e = inr (none_free s.clients (find_index-none is_free s.clients e), refl)
      found (some i) e =
          let (inside, free) = find_index-get is_free s.clients i zero_client e in
          inl (i, take_slot-Takes created i inside (is_free→ (client_at i s) free))
