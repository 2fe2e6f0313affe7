-- ===== src/Client/Crypto.antt =====
-- src/crypto.c: keys, sealed messages, and the file that keeps a user's keys. The pointers are never
-- NULL. An array that is handed out is part of the result where the result is success: callers read
-- it in no other case. The clearing of memory is left out.
pub mod Messages
pub mod KeyFile
pub mod Saving
pub mod Storage
pub mod Files
pub mod Stdin
use c_chat.Prelude.{
  ℕ, zero, suc, ◌+◌, ◌-◌, ◌*◌, Bool, true, false, not, ◌||◌, Option, none, some, List, [], ◌∷◌,
  ◌++◌, length, take, drop, min, bytes_of, str_eq, if◌then◌else◌, ltb, leb, ◌==◌,
}
use c_chat.Server.Types.{max_message_len}
use c_chat.Server.Io.{State}
use mathlib.Core.Option
use c_chat.Client.{
  ClientResult, is_success, success, invalid_args, crypto, file_io, key_generation, encryption,
  decryption, key_derivation,
}
use c_chat.Client.Host.{Host, Local, tick, exists, put_file, content_of, fwrite, remove}
use c_chat.Client.Terminal.{get_home_directory, secure_file_permissions}

-- The public and the private key.
pub record Keys : Type 0 where
  pub public_key : List ℕ
  pub private_key : List ℕ

unfoldable pub cleanup_crypto_library : Local → Local
cleanup_crypto_library l = record l { crypto_initialized = false }

module _ (host : Host) where
  unfoldable pub init_crypto_library : State Local ClientResult
  init_crypto_library l =
      if l.crypto_initialized
      then (success, l)
      else if not (host.sodium_init l.calls)
      then (crypto, tick l)
      else (success, record (tick l) { crypto_initialized = true })

  -- `crypto_box_keypair`, by what it made.
  unfoldable pub made_keypair : Option (List ℕ × List ℕ) → ClientResult × Option Keys
  made_keypair none = (key_generation, none)
  made_keypair (some (public_key, private_key)) =
      (success, some (record { public_key = public_key; private_key = private_key }))

  unfoldable pub generate_keypair : State Local (ClientResult × Option Keys)
  unfolding made_keypair
  generate_keypair l =
      let (result, l₁) = init_crypto_library l in
      if not (is_success result)
      then ((result, none), l₁)
      else (made_keypair (host.keypair l₁.calls), tick l₁)

  -- `crypto_box_seal`, by what it made of `message_len` bytes. The bytes are the first
  -- `*encrypted_len` of the buffer.
  unfoldable pub sealed_message : ℕ → Option (List ℕ) → ClientResult × Option (List ℕ)
  sealed_message message_len none = (encryption, none)
  sealed_message message_len (some bytes) =
      (success, some (take (message_len + host.seal_bytes) bytes))

  unfoldable pub encrypt_message : List ℕ → List ℕ → State Local (ClientResult × Option (List ℕ))
  unfolding sealed_message
  encrypt_message message recipient_public_key l =
      if length message == 0 || ltb max_message_len (length message)
      then ((invalid_args, none), l)
      else let (result, l₁) = init_crypto_library l in
        if not (is_success result) then ((result, none), l₁) else (
          sealed_message (length message) (host.seal l₁.calls message recipient_public_key),
          tick l₁,
        )

  -- `crypto_box_seal_open`, by what it found in `encrypted_len` bytes. The message is the first
  -- `*message_len` bytes, behind which a terminator is written; a box that opens is not shorter than
  -- `crypto_box_SEALBYTES`.
  unfoldable pub opened_message : ℕ → Option (List ℕ) → ClientResult × Option (List ℕ)
  opened_message encrypted_len none = (decryption, none)
  opened_message encrypted_len (some bytes) =
      (success, some (take (encrypted_len - host.seal_bytes) bytes))

  unfoldable pub decrypt_message : List ℕ → List ℕ → State Local (ClientResult × Option (List ℕ))
  unfolding opened_message
  decrypt_message encrypted private_key l =
      if length encrypted == 0
      then ((invalid_args, none), l)
      else let (result, l₁) = init_crypto_library l in
        if not (is_success result) then ((result, none), l₁) else (
          opened_message (length encrypted)
              (host.seal_open encrypted (host.scalarmult_base private_key) private_key),
          l₁,
        )
