-- ===== src/Server/Users/Login.antt =====
-- server/src/user_management.c, authenticate_user and broadcast_status_update: who is logged in, and
-- who is told.
use mathlib.Core.Path.{subst}
use mathlib.Core.Option.{some-injective}
use c_chat.Prelude.{
  ℕ, ◌<◌, ◌≡◌, ◌≢◌, refl, sym, ap, ◌∙◌, ◌⊎◌, inl, inr, true, false, Option, none, some, List, ℤ,
  pos, negsuc, length, take, get_or, set, get_or-set_self, get_or-set_ne, arith, Bool-cases,
}
use c_chat.Server.Types.{UserStatus, online, ClientConnection}
use c_chat.Server.Io.{Env, time_now}
use c_chat.Server.State.{Server, zero_client, client_at}
use c_chat.Server.Users.{
  find_user, set_user_status, user_at, broadcast_status_update, admit_client, authenticate_found,
  authenticate_user, copy_name,
}

module _ (env : Env) where
  -- A broadcast does nothing but send.
  pub broadcast-io :
      (username : List ℕ) (status : UserStatus) (s : Server)
      → broadcast_status_update env username status s
        ≡ record s { io = (broadcast_status_update env username status s).io }
  unfolding broadcast_status_update
  broadcast-io username status s = ground arith

  admit_client-clients :
      (i u : ℕ) (username : List ℕ) (s : Server)
      → (admit_client env i username u s).clients
        ≡ set s.clients i
            (record (client_at i s) { authenticated = true; username = copy_name username })
  unfolding admit_client time_now set_user_status
  admit_client-clients i u username s =
      ap (λ (t : Server). t.clients) (broadcast-io username online _)

  admit_client-users :
      (i u : ℕ) (username : List ℕ) (s : Server)
      → (admit_client env i username u s).users
        ≡ set s.users u (record (user_at u s) { status = online; last_seen = env.time s.io.calls })
  unfolding admit_client time_now set_user_status
  admit_client-users i u username s = ap (λ (t : Server). t.users) (broadcast-io username online _)

module _ (env : Env) (i : ℕ) (username signature : List ℕ) (s : Server) where
  -- The connection is logged in, and its user online.
  pub record LoggedIn (t : Server) : Type 0 where
    pub user : ℕ
    pub found : find_user username s.users ≡ some user
    pub signed :
        env.verify
          (take env.signature_size signature)
          (client_at i s).challenge
          (user_at user s).public_key
        ≡ true
    pub authenticated : (client_at i t).authenticated ≡ true
    pub named : (client_at i t).username ≡ copy_name username
    pub shown :
        t.users
        ≡ set s.users user
            (record (user_at user s) { status = online; last_seen = env.time s.io.calls })
    pub others : (j : ℕ) → i ≢ j → client_at j t ≡ client_at j s

  -- The results of `authenticate_user`.
  abbrev pub Authenticates : ℤ × Server → Type 0
  Authenticates (r, t) =
      ((r ≡ pos 0) × LoggedIn t)
      ⊎ ((r ≡ negsuc 0)
          × (t ≡ s)
          × ((u : ℕ)
              → find_user username s.users ≡ some u
              → env.verify (take env.signature_size signature) (client_at i s).challenge
                  (user_at u s).public_key
                ≡ false))

  admitted-LoggedIn :
      (u : ℕ)
      → find_user username s.users ≡ some u
      → env.verify
          (take env.signature_size signature)
          (client_at i s).challenge
          (user_at u s).public_key
        ≡ true
      → i < length s.clients
      → LoggedIn (admit_client env i username u s)
  admitted-LoggedIn u found signed inside = record {
    user = u;
    found = found;
    signed = signed;
    authenticated = ap (λ (c : ClientConnection). c.authenticated) here;
    named = ap (λ (c : ClientConnection). c.username) here;
    shown = admit_client-users env i u username s;
    others = λ j ne.
        ap (λ cs. get_or cs j zero_client) (admit_client-clients env i u username s)
        ∙ get_or-set_ne s.clients i j _ zero_client ne;
  }
    where
      here :
          client_at i (admit_client env i username u s)
          ≡ record (client_at i s) { authenticated = true; username = copy_name username }
      here =
          ap (λ cs. get_or cs i zero_client) (admit_client-clients env i u username s)
          ∙ get_or-set_self s.clients i _ zero_client inside

  -- For a connection of the array, `authenticate_user` returns 0 if the name is registered and the
  -- signature of the connection's challenge verifies under the user's key; then this connection,
  -- and no other, is logged in under the name, and that user is online. In every other case it
  -- returns -1 and changes nothing.
  pub authenticate_user-Authenticates :
      i < length s.clients → Authenticates (authenticate_user env i username signature s)
  unfolding authenticate_user
  authenticate_user-Authenticates inside = found_cases (find_user username s.users) refl
    where
      found_cases :
          (o : Option ℕ)
          → find_user username s.users ≡ o
          → Authenticates (authenticate_found env i username signature o s)
      found_cases none e = inr (refl, refl, λ u f. cc)
      found_cases (some u) e =
          elim (Bool-cases (
            env.verify (take env.signature_size signature) (client_at i s).challenge
              (user_at u s).public_key)) [
                | inl signed ↦ rw signed (inl (refl, admitted-LoggedIn u e signed inside))
                | inr forged ↦ rw forged (
                    inr (
                      refl,
                      refl,
                      λ w f.
                          subst
                            (λ k.
                              env.verify (take env.signature_size signature)
                                (client_at i s).challenge (user_at k s).public_key
                              ≡ false)
                            (some-injective u w (sym e ∙ f)) forged,
                    ))
              ]
