-- ===== src/Client/Host.antt =====
-- What src/crypto.c and src/utils.c call and do not implement: files, the environment and libsodium.
-- Each is a field of `Host`, a parameter of the model. What a call answers may depend on how many
-- such calls went before it, which `Local` counts.
use c_chat.Prelude.{
  ℕ, suc, ◌+◌, ◌≡◌, Bool, true, false, ◌||◌, Option, none, some, List, [], ◌++◌, length, take, min,
  str_eq, if◌then◌else◌, ◌==◌,
}

pub record Host : Type 0 where
  -- `getenv("HOME")`, and `getpwuid(getuid())->pw_dir`
  pub home : Option (List ℕ)
  pub passwd_dir : Option (List ℕ)
  -- `PATH_MAX`
  pub path_max : ℕ
  -- `strdup` is not NULL
  pub duplicates : ℕ → Bool
  -- `fopen(path, "wb")` and `fopen(path, "rb")`, of a file that is there, are not NULL
  pub creates : ℕ → List ℕ → Bool
  pub opens : ℕ → List ℕ → Bool
  -- how many bytes `fwrite` takes, and how many of those that are left `fread` gives
  pub writes : ℕ → ℕ → ℕ
  pub reads : ℕ → ℕ → ℕ
  -- how many of the bytes that `fwrite` took are on the disk after `fclose`: fewer if it fails
  pub flushes : ℕ → ℕ → ℕ
  -- `mkdir`, `unlink` and `chmod` return 0
  pub mkdir : ℕ → List ℕ → Bool
  pub unlink : ℕ → List ℕ → Bool
  pub chmod : ℕ → List ℕ → Bool
  -- `sodium_init() >= 0`
  pub sodium_init : ℕ → Bool
  pub randombytes : ℕ → ℕ → List ℕ
  -- `crypto_box_keypair`: the public and the private key
  pub keypair : ℕ → Option (List ℕ × List ℕ)
  pub scalarmult_base : List ℕ → List ℕ
  -- `crypto_box_seal` of a message to a public key, and `crypto_box_seal_open` with both keys
  pub seal : ℕ → List ℕ → List ℕ → Option (List ℕ)
  pub seal_open : List ℕ → List ℕ → List ℕ → Option (List ℕ)
  -- `crypto_secretbox_easy` and `crypto_secretbox_open_easy`, with a nonce and a key
  pub secretbox : List ℕ → List ℕ → List ℕ → Option (List ℕ)
  pub secretbox_open : List ℕ → List ℕ → List ℕ → Option (List ℕ)
  -- `crypto_pwhash` of a password and a salt, and whether it has the memory for it
  pub pwhash : List ℕ → List ℕ → List ℕ
  pub has_memory : ℕ → Bool
  -- the sizes of libsodium
  pub public_key_size : ℕ
  pub private_key_size : ℕ
  pub seal_bytes : ℕ
  pub salt_size : ℕ
  pub nonce_size : ℕ
  pub mac_bytes : ℕ

-- libsodium as documented: what is sealed or boxed is opened with the keys that belong to it, and
-- every result has its size.
pub record IsSound (host : Host) : Type 0 where
  pub sized : (n len : ℕ) → length (host.randombytes n len) ≡ len
  pub paired :
      (n : ℕ) (public_key private_key : List ℕ)
      → host.keypair n ≡ some (public_key, private_key)
      → (public_key ≡ host.scalarmult_base private_key)
        × (length public_key ≡ host.public_key_size)
        × (length private_key ≡ host.private_key_size)
  pub sealed :
      (n : ℕ) (message private_key bytes : List ℕ)
      → host.seal n message (host.scalarmult_base private_key) ≡ some bytes
      → host.seal_open bytes (host.scalarmult_base private_key) private_key ≡ some message
  pub seal_size :
      (n : ℕ) (message public_key bytes : List ℕ)
      → host.seal n message public_key ≡ some bytes
      → length bytes ≡ length message + host.seal_bytes
  pub boxed :
      (message nonce key : List ℕ)
      → (bytes : List ℕ) × (host.secretbox message nonce key ≡ some bytes)
        × (host.secretbox_open bytes nonce key ≡ some message)
        × (length bytes ≡ length message + host.mac_bytes)

-- No call of the operating system fails or is cut short, and the directories can be named.
pub record IsWorking (host : Host) : Type 0 where
  pub duplicated : (n : ℕ) → host.duplicates n ≡ true
  pub created : (n : ℕ) (path : List ℕ) → host.creates n path ≡ true
  pub opened : (n : ℕ) (path : List ℕ) → host.opens n path ≡ true
  pub written : (n len : ℕ) → host.writes n len ≡ len
  pub flushed : (n len : ℕ) → host.flushes n len ≡ len
  pub read : (n len : ℕ) → host.reads n len ≡ len
  pub made : (n : ℕ) (path : List ℕ) → host.mkdir n path ≡ true
  pub initialised : (n : ℕ) → host.sodium_init n ≡ true
  pub remembers : (n : ℕ) → host.has_memory n ≡ true
  pub pairs :
      (n : ℕ)
      → (public_key : List ℕ) × (private_key : List ℕ) × (host.keypair n
          ≡ some (public_key, private_key))

-- The static variable of src/crypto.c, what is typed and not yet read, and the file system: the
-- bytes of the files, and which folders there are.
pub record Local : Type 0 where
  pub calls : ℕ
  pub crypto_initialized : Bool
  pub stdin : List ℕ
  pub files : List ℕ → Option (List ℕ)
  pub folders : List ℕ → Bool

abbrev pub tick : Local → Local
tick l = record l { calls = suc l.calls }

abbrev pub is_some : Option (List ℕ) → Bool
is_some none = false
is_some (some bytes) = true

-- `stat(path)` returns 0.
abbrev pub exists : List ℕ → Local → Bool
exists path l = l.folders path || is_some (l.files path)

abbrev pub put_file : List ℕ → Option (List ℕ) → Local → Local
put_file path content l = record l { files = λ p. if str_eq p path then content else l.files p }

abbrev pub content_of : Option (List ℕ) → List ℕ
content_of none = []
content_of (some bytes) = bytes

module _ (host : Host) where
  -- `fwrite(bytes, 1, len, file) == len`; what is taken stands behind what the file holds.
  unfoldable pub fwrite : List ℕ → List ℕ → Local → Bool × Local
  fwrite path bytes l =
      let n = min (host.writes l.calls (length bytes)) (length bytes) in
      (n == length bytes, put_file path (some (content_of (l.files path) ++ take n bytes)) (tick l))

  -- `fclose(file)` of a file that was written to; nobody asks for its result.
  unfoldable pub fclose : List ℕ → Local → Local
  fclose path l =
      let bytes : List ℕ = content_of (l.files path) in
      put_file path (some (take (host.flushes l.calls (length bytes)) bytes)) (tick l)

  -- `unlink(path)`
  unfoldable pub remove : List ℕ → Local → Local
  remove path l = if host.unlink l.calls path then put_file path none (tick l) else tick l
