-- ===== src/Server/Users/Registry.antt =====
-- server/src/user_management.c, add_user: the registry as a map from names to keys.
use c_chat.Prelude.{
  ℕ, ◌≤◌, ◌<◌, ◌≡◌, ◌≢◌, refl, sym, ◌⊎◌, inl, inr, true, false, not, none, some, List, [], ℤ, pos,
  negsuc, length, take, take-all, get_or-length, str_eq_refl, str_eq_ne, ap, leb, leb→le, leb→gt,
  if◌then◌else◌, Bool-cases, Option-cases, find_index-append_new, find_index-append_miss,
}
use c_chat.Server.Types.{max_clients, UserRecord}
use c_chat.Server.Io.{Env, time_now}
use c_chat.Server.Protocol.Username.{IsUsername, validate_username_server-IsUsername}
use c_chat.Server.State.{Server}
use c_chat.Server.Users.{
  is_user, find_user, user_at, zero_user, is_none, copy_name, append_user, add_user,
}

module _ (env : Env) (username public_key : List ℕ) (s : Server) where
  -- The user was added: under a valid and new name, at the end, with the key; and no other name's
  -- search changed.
  pub record Added (t : Server) : Type 0 where
    pub name : IsUsername username
    pub new : find_user username s.users ≡ none
    pub room : length s.users < max_clients
    pub found : find_user username t.users ≡ some (length s.users)
    pub key : (user_at (length s.users) t).public_key ≡ take env.public_key_size public_key
    pub others : (n : List ℕ) → n ≢ username → find_user n t.users ≡ find_user n s.users

  -- The results of `add_user`: 0 and the user added; -2 for a valid name that is taken; -1 for a name
  -- that is not valid or a registry that is full. But on 0 the state stays as it was.
  abbrev pub AddUser : ℤ × Server → Type 0
  AddUser (r, t) =
      ((r ≡ pos 0) × Added t)
      ⊎ ((r ≡ negsuc 1) × (t ≡ s) × IsUsername username × (find_user username s.users ≢ none))
      ⊎ ((r ≡ negsuc 0) × (t ≡ s) × ((¬ IsUsername username) ⊎ (max_clients ≤ length s.users)))

  append_user-Added :
      IsUsername username
      → find_user username s.users ≡ none
      → length s.users < max_clients
      → AddUser (append_user env username public_key s)
  unfolding append_user time_now find_user is_user
  append_user-Added name new room =
      let same : copy_name username ≡ username = take-all 31 username name.short in
      inl (
        refl,
        record {
          name = name;
          new = new;
          room = room;
          found =
              find_index-append_new (is_user username) s.users _ new
                (rw (same, str_eq_refl username));
          key = ap (λ (u : UserRecord). u.public_key) (get_or-length s.users [] _ zero_user);
          others = λ n ne.
              find_index-append_miss (is_user n) s.users _
                (rw same (str_eq_ne username n (λ e. ne (sym e))));
        },
      )

  -- Each result of `add_user` says what happened to the registry: 0, the name is valid and was new
  -- and there was room, it is now found at the end with the key, and no other name's search
  -- changed; -2, the name is valid and taken, nothing changed; -1, the name is not valid or the
  -- registry is full, nothing changed.
  pub add_user-AddUser : AddUser (add_user env username public_key s)
  unfolding add_user is_none
  add_user-AddUser = elim (validate_username_server-IsUsername username) [
    | inr (e, bad) ↦ rw e (inr (inr (refl, refl, inl bad)))
    | inl (e, name) ↦ rw e (with_name name)
  ]
    where
      with_name :
          IsUsername username
          → AddUser (
              if leb max_clients (length s.users)
              then (negsuc 0, s)
              else if not (is_none (find_user username s.users))
              then (negsuc 1, s)
              else append_user env username public_key s)
      with_name name = elim (Bool-cases (leb max_clients (length s.users))) [
        | inl full ↦ rw full (inr (inr (refl, refl, inr (leb→le _ _ full))))
        | inr room ↦ elim (Option-cases (find_user username s.users)) [
          | inl new ↦
              let test : not (is_none (find_user username s.users)) ≡ false = rw new refl in
              rw (room, test) (append_user-Added name new (leb→gt _ _ room))
          | inr (u, old) ↦
              let test : not (is_none (find_user username s.users)) ≡ true = rw old refl in
              rw (room, test) (inr (inl (refl, refl, name, λ e. cc (old, e))))
        ]
      ]
