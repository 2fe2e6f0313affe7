-- ===== src/Client/Users/Offline.antt =====
-- src/user.c, register_user: the connection behind it.
use c_chat.Prelude.{ℕ, sym, Option, none, some, List, length, leb, Bool-cases, inl, inr}
use mathlib.Core.Path.{subst}
use c_chat.Server.Io.{Env, IsResponsive}
use c_chat.Client.{ClientResult, is_success, Link}
use c_chat.Client.Host.{Host, exists}
use c_chat.Client.Crypto.{Keys, generate_keypair}
use c_chat.Client.Crypto.Storage.{keys_path, save_keys_to_file}
use c_chat.Client.Network.{Connection, connect_to_server, register_user_with_server}
use c_chat.Client.Network.Socket.{
  Offline, disconnect_from_server-Offline, connect_to_server-Live, Live, if-false, Same-Live,
  connect_to_server-Offline, register_user_with_server-socket,
}
use c_chat.Client.Desk.{Desk, on_local, on_connection}
use c_chat.Client.Users.{choose_password, register_online, register_keys, register_at}

module _ (env : Env) (link : Link) (host : Host) (responsive : IsResponsive env) where
  register_online-Offline :
      (username key : List ℕ) (d : Desk)
      → Offline d.connection
      → Offline (register_online env link host username key d).connection
  unfolding register_online
  register_online-Offline username key d off =
      let (connected, d₁) = on_connection (connect_to_server env link) d in
      elim (Bool-cases (is_success connected)) [
        | inl ok ↦
            let c : Connection =
              (register_user_with_server env link username key d₁.connection).1 in
            let live : Live c =
              Same-Live d₁.connection c
                (register_user_with_server-socket env link responsive username key d₁.connection)
                (connect_to_server-Live env link responsive d.connection off ok) in
            rw ok (
              subst (λ (e : Desk). Offline e.connection) (sym (if-false c.waits _ _ live.1))
                (disconnect_from_server-Offline env link responsive c (inl live)))
        | inr failed ↦
            rw failed (connect_to_server-Offline env link responsive d.connection off failed)
      ]

  register_keys-Offline :
      (username password confirm : List ℕ) (made : ClientResult × Option Keys) (d : Desk)
      → Offline d.connection
      → Offline (register_keys env link host username password confirm 1 made d).1.connection
  unfolding register_keys
  register_keys-Offline username password confirm (result, none) d off = off
  register_keys-Offline username password confirm (result, some keys) d off =
      let (chosen, rest) = choose_password 1 password confirm d.local.stdin in
      let d₁ : Desk = record d { local = record d.local { stdin = rest } } in
      let (saved, d₂) = on_local (save_keys_to_file host username keys chosen) d₁ in
      elim (Bool-cases (is_success saved)) [
        | inl ok ↦ rw ok (register_online-Offline username keys.public_key d₂ off)
        | inr failed ↦ rw failed off
      ]

  pub register_at-Offline :
      (home : Option (List ℕ)) (username password confirm : List ℕ) (d : Desk)
      → Offline d.connection
      → Offline (register_at env link host home username password confirm 1 d).1.connection
  unfolding register_at
  register_at-Offline none username password confirm d off = off
  register_at-Offline (some home) username password confirm d off =
      let (made, d₁) = on_local (generate_keypair host) d in
      elim (Bool-cases (leb host.path_max (length (keys_path home username)))) [
        | inl long ↦ rw long off
        | inr fits ↦ elim (Bool-cases (exists (keys_path home username) d.local)) [
          | inl old ↦ rw (fits, old) off
          | inr new ↦ rw (fits, new) (register_keys-Offline username password confirm made d₁ off)
        ]
      ]
