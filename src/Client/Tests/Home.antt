-- ===== src/Client/Tests/Home.antt =====
-- A machine of a user, with a library in place of libsodium that hides nothing, for runs.
use c_chat.Prelude.{
  ℕ, ◌≡◌, refl, sym, ap, ◌∙◌, true, false, Option, none, some, List, [], ◌∷◌, length,
  length-replicate, drop, replicate, arith, negsuc, bytes_of,
}
use mathlib.Core.Option.{some-injective}
use c_chat.Client.Host.{Host, IsSound, IsWorking}
use c_chat.Client.Network.{Connection}
use c_chat.Client.Desk.{ChatUser, Desk}
use c_chat.Server.Tests.{still}

abbrev pub home : List ℕ
home = bytes_of "/home/ann"

abbrev pub key : List ℕ
key = 5 ∷ 6 ∷ 7 ∷ 8 ∷ []

abbrev pub laptop : Host
laptop = record {
  home = some home;
  passwd_dir = none;
  path_max = 4096;
  duplicates = λ n. true;
  creates = λ n path. true;
  opens = λ n path. true;
  writes = λ n len. len;
  flushes = λ n len. len;
  reads = λ n len. len;
  mkdir = λ n path. true;
  unlink = λ n path. true;
  chmod = λ n path. true;
  sodium_init = λ n. true;
  randombytes = λ n len. replicate len 1;
  keypair = λ n. some (key, key);
  scalarmult_base = λ private_key. private_key;
  seal = λ n message public_key. some (9 ∷ message);
  seal_open = λ bytes public_key private_key. some (drop 1 bytes);
  secretbox = λ message nonce key. some (7 ∷ message);
  secretbox_open = λ bytes nonce key. some (drop 1 bytes);
  pwhash = λ password salt. password;
  has_memory = λ n. true;
  public_key_size = 4;
  private_key_size = 4;
  seal_bytes = 1;
  salt_size = 2;
  nonce_size = 3;
  mac_bytes = 1;
}

pairs-paired :
    (public_key private_key : List ℕ)
    → ◌≡◌ {A = Option (List ℕ × List ℕ)} (some (key, key)) (some (public_key, private_key))
    → (public_key ≡ private_key) × (length public_key ≡ 4) × (length private_key ≡ 4)
pairs-paired public_key private_key e =
    let made : ◌≡◌ {A = List ℕ × List ℕ} (key, key) (public_key, private_key) =
      some-injective _ _ e in
    let to_public : key ≡ public_key = ap (λ (p : List ℕ × List ℕ). p.0) made in
    let to_private : key ≡ private_key = ap (λ (p : List ℕ × List ℕ). p.1) made in
    (sym to_public ∙ to_private, sym (ap length to_public), sym (ap length to_private))

pub laptop-IsSound : IsSound laptop
laptop-IsSound = record {
  sized = λ n len. length-replicate len 1;
  paired = λ n public_key private_key e. pairs-paired public_key private_key e;
  sealed = λ n message private_key bytes e.
      ap (λ bytes. some (drop 1 bytes)) (sym (some-injective _ _ e));
  seal_size = λ n message public_key bytes e. sym (ap length (some-injective _ _ e)) ∙ omega arith;
  boxed = λ message nonce key. (7 ∷ message, refl, refl, omega arith);
}

pub laptop-IsWorking : IsWorking laptop
laptop-IsWorking = record {
  duplicated = λ n. refl;
  created = λ n path. refl;
  opened = λ n path. refl;
  written = λ n len. refl;
  flushed = λ n len. refl;
  read = λ n len. refl;
  made = λ n path. refl;
  initialised = λ n. refl;
  remembers = λ n. refl;
  pairs = λ n. (key, key, refl);
}

abbrev pub unplugged : Connection
unplugged = record {
  server_socket = negsuc 0;
  connected_to_server = false;
  waits = false;
  io = still;
}

abbrev pub nobody : ChatUser
nobody = record {
  username = [];
  public_key = [];
  private_key = [];
  is_authenticated = false;
  keys_loaded = false;
}

abbrev pub with_stdin : List ℕ → Desk
with_stdin stdin = record {
  local = record {
    calls = 0;
    crypto_initialized = false;
    stdin = stdin;
    files = λ path. none;
    folders = λ path. false;
  };
  connection = unplugged;
  current_session = record { current_user = nobody; chat_partner = nobody; is_in_chat = false };
}
