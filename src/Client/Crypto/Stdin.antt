-- ===== src/Client/Crypto/Stdin.antt =====
-- src/crypto.c: what is left of the input behind a call.
use c_chat.Prelude.{
  ℕ, ◌+◌, ◌≡◌, refl, ◌∙◌, Option, none, some, List, [], ◌∷◌, length, take, drop, min, if◌then◌else◌,
  leb, arith, Bool-cases, inl, inr,
}
use c_chat.Server.Io.{State}
use c_chat.Client.Host.{Host, Local, tick}
use c_chat.Client.Terminal.{strdup, passwd_directory, home_directory, get_home_directory}
use c_chat.Client.Crypto.{init_crypto_library, encrypt_message}
use c_chat.Client.Crypto.Storage.{
  keys_path, derive_key_from_password, read_parts, load_parts, load_file, load_at,
  load_keys_from_file,
}

module _ (host : Host) where
  abbrev Keeps : {A : Type 0} → State Local A → Type 0
  Keeps m = (l : Local) → (m l).1.stdin ≡ l.stdin

  pub init_crypto_library-stdin : Keeps (init_crypto_library host)
  unfolding init_crypto_library
  init_crypto_library-stdin l = ground arith

  pub encrypt_message-stdin : (message key : List ℕ) → Keeps (encrypt_message host message key)
  unfolding encrypt_message init_crypto_library
  encrypt_message-stdin message key l = ground arith

  get_home_directory-stdin : Keeps (get_home_directory host)
  unfolding get_home_directory home_directory passwd_directory strdup
  get_home_directory-stdin l = ground arith

  read_parts-stdin : (sizes bytes : List ℕ) → Keeps (read_parts host sizes bytes)
  unfolding read_parts
  read_parts-stdin [] bytes l = refl
  read_parts-stdin (size ∷ sizes) bytes l =
      let part : List ℕ = take (min (host.reads l.calls size) size) bytes in
      ground (arith, read_parts-stdin sizes (drop (length part) bytes) (tick l))

  load_parts-stdin :
      (parts : Option (List (List ℕ))) (password : List ℕ) → Keeps (load_parts host parts password)
  unfolding load_parts derive_key_from_password
  load_parts-stdin parts password l = ground arith

  load_file-stdin :
      (bytes : Option (List ℕ)) (password : List ℕ) → Keeps (load_file host bytes password)
  unfolding load_file
  load_file-stdin none password l = refl
  load_file-stdin (some bytes) password l =
      let sizes : List ℕ =
        host.salt_size
        ∷ host.nonce_size
        ∷ host.public_key_size
        ∷ (host.private_key_size + host.mac_bytes)
        ∷ [] in
      let (parts, l₁) = read_parts host sizes bytes l in
      load_parts-stdin parts password l₁ ∙ read_parts-stdin sizes bytes l

  load_at-stdin :
      (home : Option (List ℕ)) (username password : List ℕ)
      → Keeps (load_at host home username password)
  unfolding load_at
  load_at-stdin none username password l = refl
  load_at-stdin (some home) username password l =
      let path : List ℕ = keys_path home username in
      let file =
        load_file-stdin (if host.opens l.calls path then l.files path else none) password
          (tick l) in
      elim (Bool-cases (leb host.path_max (length path))) [
        | inl long ↦ rw long refl
        | inr fits ↦ rw fits file
      ]

  pub load_keys_from_file-stdin :
      (username password : List ℕ) → Keeps (load_keys_from_file host username password)
  unfolding load_keys_from_file
  load_keys_from_file-stdin username password l =
      let (home, l₁) = get_home_directory host l in
      load_at-stdin home username password l₁ ∙ get_home_directory-stdin l
