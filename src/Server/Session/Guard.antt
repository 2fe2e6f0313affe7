-- ===== src/Server/Session/Guard.antt =====
-- server/src/client_handler.c, the switch: what a connection may ask for before it logs in.
use c_chat.Prelude.{ℕ, ◌≡◌, refl, Bool, true, false, ◌||◌, ◌⊎◌, ℤ, arith, inl, inr}
use c_chat.Server.Types.{
  get_public_key, send_message, get_messages, set_status, list_users, auth_failed, NetworkMessage,
}
use c_chat.Server.Io.{Env, State}
use c_chat.Server.Protocol.{send_error}
use c_chat.Server.State.{Server, client_at, lift}
use c_chat.Server.Session.{is_type, guarded, dispatch}

-- The requests that need a login.
abbrev pub needs_login : NetworkMessage → Bool
needs_login msg =
    is_type msg get_public_key
    || is_type msg send_message
    || is_type msg get_messages
    || is_type msg set_status
    || is_type msg list_users

module _ (env : Env) (i : ℕ) (msg : NetworkMessage) (s : Server) where
  abbrev pub not_authenticated : Server
  not_authenticated =
      (lift (send_error env (client_at i s).socket_fd auth_failed "Not authenticated") s).1

  guarded-refused :
      (handle : State Server ℤ)
      → (client_at i s).authenticated ≡ false
      → guarded env i handle s ≡ not_authenticated
  unfolding guarded
  guarded-refused handle stranger = rw stranger refl

  -- A connection that is not logged in and asks for a key, sends a message, asks for its messages,
  -- sets its status or asks for the users is answered with the error of a missing login. Nothing but
  -- that error goes out, and nothing of the state is changed.
  pub dispatch-not_authenticated :
      (client_at i s).authenticated ≡ false
      → needs_login msg ≡ true
      → dispatch env i msg s ≡ not_authenticated
  unfolding dispatch is_type
  dispatch-not_authenticated stranger asks = elim (codes asks) [
    | inl e ↦ rw e (guarded-refused _ stranger)
    | inr (inl e) ↦ rw e (guarded-refused _ stranger)
    | inr (inr (inl e)) ↦ rw e (guarded-refused _ stranger)
    | inr (inr (inr (inl e))) ↦ rw e (guarded-refused _ stranger)
    | inr (inr (inr (inr e))) ↦ rw e (guarded-refused _ stranger)
  ]
    where
      codes :
          needs_login msg ≡ true
          → (msg.type ≡ 3) ⊎ (msg.type ≡ 4) ⊎ (msg.type ≡ 5) ⊎ (msg.type ≡ 6) ⊎ (msg.type ≡ 7)
      codes h = ground arith
