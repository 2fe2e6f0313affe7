-- ===== src/Client/Crypto/Storage.antt =====
-- src/crypto.c: the derivation of a key from a password, the directory of the keys, and the file that
-- keeps a user's keys.
use c_chat.Prelude.{
  ℕ, ◌+◌, Bool, true, false, not, Option, none, some, List, [], ◌∷◌, ◌++◌, length, take, drop, min,
  bytes_of, str_eq, if◌then◌else◌, leb, ◌==◌,
}
use c_chat.Server.Io.{State}
use mathlib.Core.Option
use c_chat.Client.{
  ClientResult, is_success, success, file_io, encryption, decryption, key_derivation,
}
use c_chat.Client.Host.{Host, Local, tick, exists, put_file, fwrite, fclose, remove}
use c_chat.Client.Terminal.{get_home_directory, secure_file_permissions}
use c_chat.Client.Crypto.{Keys}

-- The path in the folder `.c-chat` of the home directory, if it fits `char[PATH_MAX]`.
abbrev pub keys_directory : List ℕ → List ℕ
keys_directory home = home ++ bytes_of "/.c-chat"

abbrev pub keys_path : List ℕ → List ℕ → List ℕ
keys_path home username = keys_directory home ++ (bytes_of "/" ++ (username ++ bytes_of ".keys"))

module _ (host : Host) where
  unfoldable pub derive_key_from_password :
      List ℕ → List ℕ → State Local (ClientResult × Option (List ℕ))
  derive_key_from_password password salt l =
      if host.has_memory l.calls
      then ((success, some (host.pwhash password salt)), tick l)
      else ((key_derivation, none), tick l)

  -- What follows `get_home_directory` in `create_keys_directory`.
  unfoldable pub make_keys_directory : Option (List ℕ) → State Local ClientResult
  make_keys_directory none l = (file_io, l)
  make_keys_directory (some home) l =
      let path : List ℕ = keys_directory home in
      if leb host.path_max (length path)
      then (file_io, l)
      else if exists path l
      then (success, l)
      else if host.mkdir l.calls path
      then (success, record (tick l) { folders = λ p. if str_eq p path then true else l.folders p })
      else (file_io, tick l)

  unfoldable pub create_keys_directory : State Local ClientResult
  unfolding make_keys_directory
  create_keys_directory l =
      let (home, l₁) = get_home_directory host l in make_keys_directory home l₁

  -- The chain of `fwrite` calls: it stops at the first that falls short.
  unfoldable pub write_parts : List ℕ → List (List ℕ) → State Local Bool
  write_parts path [] l = (true, l)
  write_parts path (part ∷ parts) l =
      let (written, l₁) = fwrite host path part l in
      let rest = write_parts path parts l₁ in if written then rest else (false, l₁)

  -- From `fopen(keys_path, "wb")`, which makes an empty file, to the end. A failed change of the
  -- permissions is only reported.
  unfoldable pub write_key_file : List ℕ → List (List ℕ) → State Local ClientResult
  write_key_file path parts l =
      if not (host.creates l.calls path)
      then (file_io, tick l)
      else let (written, l₁) = write_parts path parts (put_file path (some []) (tick l)) in
        if written
        then (success, (secure_file_permissions host path (fclose host path l₁)).1)
        else (file_io, remove host path (fclose host path l₁))

  -- What follows `crypto_secretbox_easy`.
  unfoldable pub save_boxed :
      List ℕ → List ℕ → List ℕ → List ℕ → Option (List ℕ) → State Local ClientResult
  unfolding write_key_file
  save_boxed path salt nonce public_key none l = (encryption, l)
  save_boxed path salt nonce public_key (some encrypted_private) l =
      write_key_file path
        (salt ∷ nonce ∷ take host.public_key_size public_key ∷ encrypted_private ∷ []) l

  -- What follows the derivation of the key: the nonce is made, and the private key boxed.
  unfoldable pub save_derived :
      List ℕ → List ℕ → Keys → ClientResult × Option (List ℕ) → State Local ClientResult
  unfolding save_boxed
  save_derived path salt keys (result, none) l = (key_derivation, l)
  save_derived path salt keys (result, some derived_key) l =
      let nonce : List ℕ = host.randombytes l.calls host.nonce_size in
      save_boxed path salt nonce keys.public_key
        (host.secretbox (take host.private_key_size keys.private_key) nonce derived_key) (tick l)

  -- What follows `get_home_directory` in `save_keys_to_file`.
  unfoldable pub save_at : Option (List ℕ) → List ℕ → Keys → List ℕ → State Local ClientResult
  unfolding save_derived
  save_at none username keys password l = (file_io, l)
  save_at (some home) username keys password l =
      if leb host.path_max (length (keys_path home username))
      then (file_io, l)
      else let salt : List ℕ = host.randombytes l.calls host.salt_size in
        let (derived, l₁) = derive_key_from_password password salt (tick l) in
        save_derived (keys_path home username) salt keys derived l₁

  unfoldable pub save_keys_to_file : List ℕ → Keys → List ℕ → State Local ClientResult
  unfolding save_at
  save_keys_to_file username keys password l =
      let (result, l₁) = create_keys_directory l in
      if not (is_success result)
      then (file_io, l₁)
      else let (home, l₂) = get_home_directory host l₁ in save_at home username keys password l₂

  -- The chain of `fread` calls into arrays of these sizes: what each has read, if none falls short.
  unfoldable pub read_parts : List ℕ → List ℕ → State Local (Option (List (List ℕ)))
  read_parts [] bytes l = (some [], l)
  read_parts (size ∷ sizes) bytes l =
      let part : List ℕ = take (min (host.reads l.calls size) size) bytes in
      let (parts, l₁) = read_parts sizes (drop (length part) bytes) (tick l) in
      if length part == size then (Option.map (λ ps. part ∷ ps) parts, l₁) else (none, tick l)

  -- What follows the derivation of the key in `load_keys_from_file`.
  unfoldable pub load_opened : List ℕ → Option (List ℕ) → ClientResult × Option Keys
  load_opened public_key none = (decryption, none)
  load_opened public_key (some private_key) =
      (success, some (record { public_key = public_key; private_key = private_key }))

  unfoldable pub load_derived :
      List ℕ → List ℕ → List ℕ → ClientResult × Option (List ℕ) → ClientResult × Option Keys
  unfolding load_opened
  load_derived nonce public_key encrypted_private (result, none) = (key_derivation, none)
  load_derived nonce public_key encrypted_private (result, some derived_key) =
      load_opened public_key (host.secretbox_open encrypted_private nonce derived_key)

  unfoldable pub load_parts :
      Option (List (List ℕ)) → List ℕ → State Local (ClientResult × Option Keys)
  unfolding load_derived
  load_parts (some (salt ∷ nonce ∷ public_key ∷ encrypted_private ∷ [])) password l =
      let (derived, l₁) = derive_key_from_password password salt l in
      (load_derived nonce public_key encrypted_private derived, l₁)
  load_parts other password l = ((file_io, none), l)

  -- What follows `fopen(keys_path, "rb")`, by what the file holds.
  unfoldable pub load_file : Option (List ℕ) → List ℕ → State Local (ClientResult × Option Keys)
  unfolding load_parts
  load_file none password l = ((file_io, none), l)
  load_file (some bytes) password l =
      let (parts, l₁) =
        read_parts
          (host.salt_size
            ∷ host.nonce_size
            ∷ host.public_key_size
            ∷ (host.private_key_size + host.mac_bytes)
            ∷ [])
          bytes l in
      load_parts parts password l₁

  unfoldable pub load_at :
      Option (List ℕ) → List ℕ → List ℕ → State Local (ClientResult × Option Keys)
  unfolding load_file
  load_at none username password l = ((file_io, none), l)
  load_at (some home) username password l =
      let path : List ℕ = keys_path home username in
      if leb host.path_max (length path)
      then ((file_io, none), l)
      else load_file (if host.opens l.calls path then l.files path else none) password (tick l)

  unfoldable pub load_keys_from_file : List ℕ → List ℕ → State Local (ClientResult × Option Keys)
  unfolding load_at
  load_keys_from_file username password l =
      let (home, l₁) = get_home_directory host l in load_at home username password l₁
