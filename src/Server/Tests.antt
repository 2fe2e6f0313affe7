-- ===== src/Server/Tests.antt =====
-- A small server to run the theorems on: two users, and a network that works.
mod Wire
mod Accounts
mod Messages
mod Whole
use c_chat.Prelude.{
  ℕ, ◌+◌, ◌≡◌, refl, Bool, true, false, none, some, List, [], ◌∷◌, ℤ, pos, negsuc, bytes_of,
  replicate, str_eq, take, arith,
}
use c_chat.Server.Types.{UserRecord, ClientConnection, offline, online}
use c_chat.Server.Io.{Env, IsReliable, Io}
use c_chat.Server.Protocol.Username.{IsUsername}
use c_chat.Server.State.{Server, zero_client}

-- Keys of four bytes, of which a signature repeats the first two.
abbrev pub network : Env
network = record {
  time = λ n. 1000 + n;
  malloc = λ n size. true;
  send = λ n fd len. pos len;
  recv = λ n fd len. some len;
  silent = λ n fd. true;
  randombytes = λ n len. replicate len 7;
  verify = λ signature message key. str_eq (take 2 key) signature;
  public_key_size = 4;
  signature_size = 2;
}

pub network-IsReliable : IsReliable network
network-IsReliable = record {
  sends = λ n fd len. refl;
  receives = λ n fd len. refl;
  allocates = λ n size. refl;
}

abbrev pub ann : List ℕ
ann = bytes_of "ann"

abbrev pub bob : List ℕ
bob = bytes_of "bob"

abbrev pub body : List ℕ
body = 9 ∷ 8 ∷ 7 ∷ []

pub bob-IsUsername : IsUsername bob
bob-IsUsername = omega arith

pub ann-IsUsername : IsUsername ann
ann-IsUsername = omega arith

abbrev pub still : Io
still = record { calls = 0; events = []; inbox = λ fd. [] }

abbrev pub user : List ℕ → UserRecord
user name = record {
  username = name;
  public_key = 1 ∷ 2 ∷ 3 ∷ 4 ∷ [];
  status = offline;
  last_seen = 0;
  is_registered = true;
}

abbrev pub connection : ℕ → List ℕ → Bool → ClientConnection
connection fd name logged_in = record zero_client {
  socket_fd = pos fd;
  username = name;
  authenticated = logged_in;
  connected = true;
  status = online;
}

-- Both users are registered; `ann` is logged in at socket 5, and `bob`, if so, at socket 6.
abbrev pub office : Bool → Server
office bob_in = record {
  users = user ann ∷ user bob ∷ [];
  clients = connection 5 ann true ∷ connection 6 bob bob_in ∷ [];
  client_count = 2;
  next_message_id = 17;
  running = true;
  server_socket = pos 3;
  io = still;
}

abbrev pub blank : Server
blank = record {
  users = [];
  clients = [];
  client_count = 0;
  next_message_id = 0;
  running = false;
  server_socket = pos 0;
  io = still;
}
