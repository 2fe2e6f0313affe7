-- ===== src/Server/Tests/Wire.antt =====
-- Runs of server/src/protocol.c.
use c_chat.Prelude.{◌≡◌, refl, ◌⊎◌, [], ◌∷◌, ◌++◌, pos, negsuc, arith}
use c_chat.Server.Types.{send_message, RateLimit, NetworkMessage}
use c_chat.Server.Io.{Io}
use c_chat.Server.Protocol.{
  message, receive_network_message, send_network_message, validate_username_server,
}
use c_chat.Server.Protocol.Frame.{frame, Framed, send_network_message-Framed}
use c_chat.Server.Protocol.Receive.{
  Decodes, receive_network_message-frame, receive_network_message-Decodes,
}
use c_chat.Server.Protocol.Username.{IsUsername, validate_username_server-IsUsername}
use c_chat.Server.Protocol.Limit.{admitted, admitted-eq-min}
use c_chat.Server.Tests.{network, network-IsReliable, bob, body, still}

-- A frame of three bytes of payload, and two bytes of the next one.
abbrev arriving : Io
arriving = record still { inbox = λ fd. frame send_message body ++ 0 ∷ 0 ∷ [] }

abbrev arrived : NetworkMessage
arrived = record { type = 4; payload = body }

receive_network_message-frame_example :
    ((receive_network_message network (pos 5) arriving).0 ≡ message arrived)
    × ((receive_network_message network (pos 5) arriving).1.inbox (pos 5) ≡ 0 ∷ 0 ∷ [])
receive_network_message-frame_example =
    receive_network_message-frame network (pos 5) network-IsReliable arriving send_message body
      (0 ∷ 0 ∷ []) (omega arith) refl

receive_network_message-Decodes_example :
    Decodes
      (frame send_message body ++ 0 ∷ 0 ∷ [])
      ((receive_network_message network (pos 5) arriving).1.inbox (pos 5))
      arrived
receive_network_message-Decodes_example =
    receive_network_message-Decodes network (pos 5) arriving arrived
      (receive_network_message-frame network (pos 5) network-IsReliable arriving send_message body
        (0 ∷ 0 ∷ []) (omega arith) refl).0

send_network_message-Framed_example :
    Framed network
      (pos 5)
      (frame send_message body)
      still
      (send_network_message network (pos 5) send_message body still)
send_network_message-Framed_example =
    send_network_message-Framed network (pos 5) send_message body still

validate_username_server-IsUsername_example :
    ((validate_username_server bob ≡ pos 0) × IsUsername bob)
    ⊎ ((validate_username_server bob ≡ negsuc 0) × ¬ IsUsername bob)
validate_username_server-IsUsername_example = validate_username_server-IsUsername bob

abbrev nearly_full : RateLimit
nearly_full = record { window_start = 1000; request_count = 98 }

admitted-eq-min_example : admitted nearly_full (1001 ∷ 1002 ∷ 1059 ∷ []) ≡ 2
admitted-eq-min_example = admitted-eq-min nearly_full (1001 ∷ 1002 ∷ 1059 ∷ []) (omega arith)
