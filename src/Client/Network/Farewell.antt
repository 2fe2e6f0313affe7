-- ===== src/Client/Network/Farewell.antt =====
-- src/network.c, disconnect_from_server, and src/user.c, the part of register_user that tells the server:
-- what they put on the stream of a socket.
use c_chat.Prelude.{ℕ, suc, ◌<◌, ◌≡◌, refl, ap, ◌∙◌, true, List, [], ◌++◌, ℤ, pos, length}
use mathlib.Core.List.{append_assoc}
use c_chat.Server.Types.{max_username_len, logout, register_user, register_response}
use c_chat.Server.Io.{Env, IsReliable, Io, close}
use c_chat.Server.Protocol.Frame.{stream, frame}
use c_chat.Server.Handlers.Account.{register_reply}
use c_chat.Server.Handlers.Account.Register.{name_payload}
use c_chat.Client.{success, Link}
use c_chat.Client.Network.{Connection, connect_to_server, disconnect_from_server}
use c_chat.Client.Network.Requests.{up, send_request-up}
use c_chat.Client.Network.Answers.{register_user_with_server-register_reply}
use c_chat.Client.Network.Socket.{Offline}
use c_chat.Client.Host.{Host}
use c_chat.Client.Desk.{Desk}
use c_chat.Client.Users.{register_online}

module _ (env : Env) (link : Link) (works : IsReliable env) (n : ℕ) where
  -- The farewell goes out, and the client is offline.
  pub disconnect_from_server-up :
      (io : Io)
      → let (r, c) = disconnect_from_server env link (up env link works n io) in
        (stream (pos n) c.io.events ≡ stream (pos n) io.events ++ frame logout []) × Offline c
  unfolding disconnect_from_server close
  disconnect_from_server-up io =
      let (io', sent, (out, _)) = send_request-up env link works n 0x08 [] io in
      rw sent (out, (refl, refl, refl))

  module _ (c : Connection) (off : Offline c) (opens : link.socket c.io.calls ≡ pos n)
      (parsed : link.inet_pton c.io.calls ≡ true) (connects : link.connect c.io.calls ≡ true) where
    abbrev pub opened : Io
    opened = record c.io { calls = suc c.io.calls }

    pub connect_to_server-up : connect_to_server env link c ≡ (success, up env link works n opened)
    unfolding connect_to_server
    connect_to_server-up = rw (off.0, opens, parsed, connects, off.2) refl

    -- A registration over a connection of its own: the request, and the farewell.
    pub register_online-up :
        (host : Host) (name key rest : List ℕ) (r : ℤ) (d : Desk)
        → d.connection ≡ c
        → length name < max_username_len
        → length key ≡ env.public_key_size
        → c.io.inbox (pos n) ≡ frame register_response (register_reply r) ++ rest
        → let last = (register_online env link host name key d).connection in
          (stream (pos n) last.io.events
            ≡ stream (pos n) c.io.events
              ++ (frame register_user (name_payload name key) ++ frame logout []))
          × Offline last
    unfolding register_online
    register_online-up host name key rest r d same short size waits =
        let (io', asked, (out, _)) =
          register_user_with_server-register_reply env link works n rest opened name key r short
            size waits in
        let (gone, offline) = disconnect_from_server-up io' in
        rw (same, connect_to_server-up, asked)
          (
            gone
                ∙ ap (λ bytes. bytes ++ frame logout []) out
                ∙ append_assoc (stream (pos n) c.io.events)
                    (frame register_user (name_payload name key)) (frame logout []),
            offline,
          )
