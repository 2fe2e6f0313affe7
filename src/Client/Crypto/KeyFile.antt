-- ===== src/Client/Crypto/KeyFile.antt =====
-- src/crypto.c, save_keys_to_file and load_keys_from_file: the file of a user's keys, written and
-- read back.
use c_chat.Prelude.{
  ℕ, suc, ◌+◌, ◌<◌, ◌≡◌, refl, sym, ap, ap₂, ◌∙◌, false, some, List, [], ◌∷◌, ◌++◌, map, length,
  length-append, take-all, leb, arith, bytes_of,
}
use mathlib.Core.Option.{some-injective}
use mathlib.Core.List.{append-nil}
use c_chat.Client.{ClientResult, success}
use c_chat.Client.Host.{Host, IsSound, IsWorking, Local, tick}
use c_chat.Client.Crypto.{Keys}
use c_chat.Client.Crypto.Storage.{
  keys_directory, keys_path, derive_key_from_password, create_keys_directory, write_key_file,
  save_boxed, save_derived, save_at, save_keys_to_file, read_parts, load_opened, load_derived,
  load_parts, load_file, load_at, load_keys_from_file,
}
use c_chat.Client.Crypto.Files.{
  joined, found_home, write_key_file-Wrote, read_parts-joined, create_keys_directory-success,
}

module _ (host : Host) (sound : IsSound host) (working : IsWorking host)
    (home username password : List ℕ) (keys : Keys) (here : host.home ≡ some home)
    (fits : length (keys_path home username) < host.path_max)
    (public_size : length keys.public_key ≡ host.public_key_size)
    (private_size : length keys.private_key ≡ host.private_key_size) where
  -- The file of the keys under this password, for some salt and nonce.
  pub record Keeps (bytes : List ℕ) : Type 0 where
    pub salt : List ℕ
    pub nonce : List ℕ
    pub boxed : List ℕ
    pub salted : length salt ≡ host.salt_size
    pub nonced : length nonce ≡ host.nonce_size
    pub made : host.secretbox keys.private_key nonce (host.pwhash password salt) ≡ some boxed
    pub layout : bytes ≡ joined (salt ∷ nonce ∷ keys.public_key ∷ boxed ∷ [])

  directory_fits : length (keys_directory home) < host.path_max
  directory_fits =
      omega (
        arith,
        length-append (keys_directory home) (bytes_of "/" ++ (username ++ bytes_of ".keys")),
      )

  -- With libsodium as documented and a file system on which no call fails, keys of their sizes are
  -- saved under a path that fits, in the layout of salt, nonce, public key and boxed private key.
  pub save_keys_to_file-Keeps :
      (l : Local)
      → (bytes : List ℕ) × ((save_keys_to_file host username keys password l).0 ≡ success)
        × ((save_keys_to_file host username keys password l).1.files (keys_path home username)
            ≡ some bytes)
        × Keeps bytes
  unfolding save_keys_to_file save_at save_derived save_boxed derive_key_from_password
  save_keys_to_file-Keeps l =
      let l₁ : Local = (create_keys_directory host l).1 in
      let salt : List ℕ = host.randombytes (suc l₁.calls) host.salt_size in
      let nonce : List ℕ = host.randombytes (suc (suc (suc l₁.calls))) host.nonce_size in
      let path : List ℕ = keys_path home username in
      let test : leb host.path_max (length path) ≡ false = ground arith in
      let (boxed, made, opens, size) =
        sound.boxed keys.private_key nonce (host.pwhash password salt) in
      let parts : List (List ℕ) = salt ∷ nonce ∷ keys.public_key ∷ boxed ∷ [] in
      let l₂ : Local = tick (tick (tick (tick l₁))) in
      let (result, holds) = write_key_file-Wrote host working path parts l₂ in
      let saved : save_keys_to_file host username keys password l
          ≡ write_key_file host path parts l₂ =
        rw
          (
            create_keys_directory-success host working home l here directory_fits,
            found_home host working home l₁ here,
            test,
            working.remembers (suc (suc l₁.calls)),
            take-all host.private_key_size keys.private_key (omega arith),
            made,
            take-all host.public_key_size keys.public_key (omega arith),
          )
          refl in
      (
        joined parts,
        ap (λ (r : ClientResult × Local). r.0) saved ∙ result,
        ap (λ (r : ClientResult × Local). r.1.files path) saved ∙ holds,
        record {
          salt = salt;
          nonce = nonce;
          boxed = boxed;
          salted = sound.sized (suc l₁.calls) host.salt_size;
          nonced = sound.sized (suc (suc (suc l₁.calls))) host.nonce_size;
          made = made;
          layout = refl;
        },
      )

  -- The first parts of a chain, read whole, are what `load_parts` is given.
  load_file-Keeps :
      (bytes : List ℕ) (l : Local)
      → Keeps bytes
      → (load_file host (some bytes) password l).0 ≡ (success, some keys)
  unfolding load_file load_parts load_derived load_opened derive_key_from_password
  load_file-Keeps bytes l k =
      let parts : List (List ℕ) = k.salt ∷ k.nonce ∷ keys.public_key ∷ k.boxed ∷ [] in
      let (boxed, made, opens, size) =
        sound.boxed keys.private_key k.nonce (host.pwhash password k.salt) in
      let same : boxed ≡ k.boxed = some-injective _ _ (sym made ∙ k.made) in
      let boxed_size : length k.boxed ≡ host.private_key_size + host.mac_bytes =
        omega (arith, ap length same, size) in
      let sizes : host.salt_size
            ∷ host.nonce_size
            ∷ host.public_key_size
            ∷ (host.private_key_size + host.mac_bytes)
            ∷ []
          ≡ map length parts =
        cc (k.salted, k.nonced, public_size, boxed_size) in
      let got =
        ap₂ (λ ss bs. (read_parts host ss bs l).0) sizes
          (k.layout ∙ sym (append-nil (joined parts)))
        ∙ read_parts-joined host working parts [] l in
      let found : host.secretbox_open k.boxed k.nonce (host.pwhash password k.salt)
          ≡ some keys.private_key =
        rw (← same) opens in
      rw
        (
          got,
          working.remembers
              (read_parts host
                (host.salt_size
                  ∷ host.nonce_size
                  ∷ host.public_key_size
                  ∷ (host.private_key_size + host.mac_bytes)
                  ∷ [])
                bytes l).1.calls,
          found,
        )
        refl

  -- The keys that were saved are loaded with the same password, at any later time at which the file is
  -- as it was left.
  pub load_keys_from_file-Keeps :
      (bytes : List ℕ) (l : Local)
      → Keeps bytes
      → l.files (keys_path home username) ≡ some bytes
      → (load_keys_from_file host username password l).0 ≡ (success, some keys)
  unfolding load_keys_from_file load_at
  load_keys_from_file-Keeps bytes l k e =
      let test : leb host.path_max (length (keys_path home username)) ≡ false = ground arith in
      rw
        (
          found_home host working home l here,
          test,
          working.opened (suc l.calls) (keys_path home username),
          e,
        )
        (load_file-Keeps bytes (tick (tick l)) k)

  -- With libsodium as documented and a file system on which no call fails, keys of their sizes are
  -- saved with success under a path that fits, and are loaded again, as they were, with the same name
  -- and password, at any later time at which the file is as the save left it.
  pub load_keys_from_file-save_keys_to_file :
      (l later : Local)
      → later.files (keys_path home username)
        ≡ (save_keys_to_file host username keys password l).1.files (keys_path home username)
      → ((save_keys_to_file host username keys password l).0 ≡ success)
        × ((load_keys_from_file host username password later).0 ≡ (success, some keys))
  load_keys_from_file-save_keys_to_file l later e =
      let (bytes, saved, holds, kept) = save_keys_to_file-Keeps l in
      (saved, load_keys_from_file-Keeps bytes later kept (e ∙ holds))
