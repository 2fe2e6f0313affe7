-- ===== src/Lib.antt =====
-- C-Chat: the chat server of server/src and server/include and its client of src and include, in C,
-- as functions on an explicit state.
--
-- The server keeps one global `server_state_t`: the registered users, an array of a thousand
-- connections each with a ring of a hundred stored messages, and the number of the next message.
-- The main thread accepts connections; one thread for each reads framed messages off its socket,
-- checks the request limit, and hands each message to a handler, which may look at or change the
-- state of any user or connection and sends answers.
--
-- The client keeps a user's keys in a file under a password, registers the user, and relays messages
-- over one connection to the server: each is sealed to the recipient's public key, which the server
-- hands out. A command line starts chats; a chat reads lines and sends them.
--
-- Files and code:
--   Prelude                lists, strings and `int` results over the native numbers
--   Server/Types, State    server/include/c-chat-server.h: constants, enumerations, records
--   Server/Io              what the server calls: sockets, clock, allocator, libsodium
--   Server/Words           big-endian bytes
--   Server/Protocol        server/src/protocol.c: send_network_message, receive_network_message,
--                          send_error, validate_username_server, check_rate_limit,
--                          update_rate_limit
--   Server/Queue, Delivery server/src/message_queue.c: queue_message, deliver_queued_messages
--   Server/Users           server/src/user_management.c: find_user, find_client_by_username,
--                          add_user, authenticate_user, broadcast_status_update
--   Server/Handlers        server/src/message_handlers.c: Account (register, login, public key,
--                          logout), Relay (send, get messages), Presence (status, user list)
--   Server/Session         server/src/client_handler.c: the switch, the loop, the end
--   Server/Listen          server/src/server.c: main, init_server, signal_handler,
--                          cleanup_server
--   Server/Valid, Effects  the invariant of the state, and what a handler can do to it
--   Client, Client/Network include/c-chat.h (results) and src/network.c: connect_to_server,
--                          disconnect_from_server, register_user_with_server,
--                          get_user_public_key, send_message_to_server
--   Client/Host            what the client calls: files, environment, libsodium
--   Client/Desk            include/c-chat.h: user_t, chat_session_t, secure_session_keys_t
--   Client/Terminal        src/utils.c: get_password_input, safe_strncpy, get_home_directory,
--                          secure_file_permissions
--   Client/Crypto          src/crypto.c: generate_keypair, encrypt_message, decrypt_message,
--                          save_keys_to_file, load_keys_from_file, create_keys_directory,
--                          derive_key_from_password
--   Client/Users           src/user.c: register_user, login_user, list_users, validate_username
--   Client/Chat            src/chat.c: start_chat, send_message_secure, receive_messages_secure
--   Client/Interface       src/interface.c: run_chat_interface, secure_clear_screen
--   Client/Main            src/main.c: main, by the options that getopt_long returns
--   Server/Tests, Client/Tests  runs on a small server, and of requests to it
--
-- The state. `Server` is `server_state_t`; `users` is the part of the array that `user_count` counts
-- and a pointer to a user or a connection is its index. A `char[32]` is its bytes before the
-- terminator. `Io` counts the calls of the operating system made so far, holds what was written to
-- and closed on each socket, and what waits on each to be read. `Env` says what the calls answer, and
-- is a parameter of everything: theorems hold for all answers, failures included, but where they ask
-- for `IsReliable`, that no call fails or is cut short. The server's theorems assume nothing of
-- libsodium.
--
-- The client's state is a `Desk`: the session, the connection, and what is kept on the machine, which
-- is what is typed and not yet read, the files, and the flag of the library. `Host` is what files and
-- libsodium answer; `IsSound` says that libsodium does what it documents, `IsWorking` that no call
-- of the machine fails.
--
-- Calls that do not return. A `recv` waits for as many bytes as it asks for, until the stream ends.
-- `Env.silent` says that a peer keeps its stream open and sends no more than the inbox holds: a
-- `recv` that asks for more than that does not return. The thread of a connection is then found
-- waiting, and a client in its `recv`, whose connection has `waits` set, does not return from its
-- chat or its program. Theorems that something comes to its end name what they take of the peers:
-- nothing, with the wait as an outcome, or `IsResponsive`, that none keeps silent. Other calls of the
-- system are taken to return.
--
-- Undefined behaviour. A word of a command that is longer than its array is written past its end; the
-- run is then cut off as `overflows`, and nothing is said of what follows.
--
-- Buffers. What `fwrite` takes is on the disk if the `fclose` that follows puts it there.
--
-- Fuel. The delivery loop runs on as many rounds as messages wait, and each round takes one. The loop
-- of a connection runs on one more round than bytes wait on its socket, and each turn that goes on
-- takes five of them or more. The loop that asks for a password runs on any fuel but none. A chat and the
-- command line run on one more round than bytes are left of the input: each reads a line, or ends.
--
-- Threads. A turn of a connection's loop, an accepted connection, the end of a connection and a
-- signal are single steps, taken in any order. A turn is taken when its message is there or will not
-- come; one that waits changes nothing but what it has read. The loop of main takes what the other
-- threads do while it waits as an argument. The mutexes are left out, and so are interleavings inside of a step.
--
-- Not modelled: log lines and what is printed, the freeing and clearing of memory, socket addresses,
-- the echo of the terminal, Windows; Makefiles and scripts.
pub mod Client
pub mod Prelude
pub mod Server
