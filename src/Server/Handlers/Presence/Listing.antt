-- ===== src/Server/Handlers/Presence/Listing.antt =====
-- server/src/message_handlers.c, handle_list_users: what a reader of the list gets.
use c_chat.Prelude.{
  ℕ, zero, suc, ◌+◌, ◌%◌, ◌^◌, ◌≤◌, ◌≡◌, refl, ap, ap₂, ◌∙◌, List, [], ◌∷◌, map, length, get_or,
  take, drop, take-append, drop-append_add, get_or-append_add, All, arith,
}
use c_chat.Server.Types.{status_code, UserRecord, max_clients}
use c_chat.Server.Io.{Env}
use c_chat.Server.Words.{join16, join16-be16}
use c_chat.Server.Valid.{IsGoodUser}
use c_chat.Server.Handlers.Presence.{user_entries, count_registered, user_list}

-- The layout of the list in the description of the protocol: two bytes of count, then for each user
-- the length of the name, the name and the status.
abbrev pub read_entries : ℕ → List ℕ → List (List ℕ × ℕ)
read_entries zero bytes = []
read_entries (suc n) bytes =
    let size = get_or bytes 0 0 in
    (take size (drop 1 bytes), get_or bytes (1 + size) 0)
    ∷ read_entries n (drop (1 + size + 1) bytes)

abbrev pub read_list : List ℕ → List (List ℕ × ℕ)
read_list bytes = read_entries (join16 (get_or bytes 0 0) (get_or bytes 1 0)) (drop 2 bytes)

abbrev pub entry : UserRecord → List ℕ × ℕ
entry u = (u.username, status_code u.status)

module _ (env : Env) where
  count_registered-good :
      (us : List UserRecord) → All (IsGoodUser env) us → count_registered us ≡ length us
  unfolding count_registered
  count_registered-good [] h = refl
  count_registered-good (u ∷ us) h = rw h.0.registered (ap suc (count_registered-good us h.1))

  read_entries-user_entries :
      (us : List UserRecord)
      → All (IsGoodUser env) us
      → read_entries (length us) (user_entries us) ≡ map entry us
  unfolding user_entries
  read_entries-user_entries [] h = refl
  read_entries-user_entries (u ∷ us) h =
      let n : ℕ = length u.username in
      let size : n % 2 ^ 8 ≡ n = ground (arith, h.0.name.short) in
      rw (h.0.registered, size)
        (ap₂ ◌∷◌
          (ap₂ (λ name status. (name, status))
            (take-append u.username (status_code u.status ∷ user_entries us) n refl)
            (get_or-append_add (n ∷ u.username) (status_code u.status ∷ user_entries us) 0 (1 + n) 0
              (omega arith)))
          (ap (read_entries (length us)) (
              drop-append_add (n ∷ u.username) (status_code u.status ∷ user_entries us) 1
                (1 + n + 1) (omega arith))
            ∙ read_entries-user_entries us h.1))

  -- A reader of the list of up to a thousand users, each registered with a valid name and a whole
  -- key, read as the protocol lays it out, gets the name and the status of each user, in the order
  -- of the registry, and nothing else.
  pub read_list-user_list :
      (us : List UserRecord)
      → All (IsGoodUser env) us
      → length us ≤ max_clients
      → read_list (user_list us) ≡ map entry us
  unfolding user_list
  read_list-user_list us h few =
      let count : count_registered us % 2 ^ 16 ≡ length us =
        ap (λ n. n % 2 ^ 16) (count_registered-good us h) ∙ omega arith in
      rw (count, join16-be16 (length us) (omega arith)) (read_entries-user_entries us h)
