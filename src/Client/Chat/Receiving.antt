-- ===== src/Client/Chat/Receiving.antt =====
-- src/chat.c, receive_messages_secure: the message that is sealed and opened again.
use c_chat.Prelude.{
  ℕ, ◌≡◌, ◌⊎◌, refl, ap, true, ◌||◌, Option, none, some, List, length, bytes_of, ltb, ◌==◌,
  Bool-cases, inl, inr,
}
use c_chat.Server.Types.{max_message_len}
use c_chat.Client.{ClientResult, is_success, success, encryption}
use c_chat.Client.Host.{Host, IsSound, Local}
use c_chat.Client.Crypto.{init_crypto_library, sealed_message, encrypt_message}
use c_chat.Client.Crypto.Messages.{encrypt_message-Encrypts, decrypt_message-encrypt_message}
use c_chat.Client.Desk.{SessionKeys}
use c_chat.Client.Chat.{received, receive_messages_secure}

module _ (host : Host) where
  -- Bytes are handed out with success only.
  sealed-success :
      (n : ℕ) (o : Option (List ℕ)) (bytes : List ℕ)
      → (sealed_message host n o).1 ≡ some bytes
      → sealed_message host n o ≡ (success, some bytes)
  unfolding sealed_message
  sealed-success n none bytes h = cc
  sealed-success n (some made) bytes h = rw h refl

  encrypt-success :
      (message public_key : List ℕ) (l : Local) (bytes : List ℕ)
      → (encrypt_message host message public_key l).0.1 ≡ some bytes
      → (encrypt_message host message public_key l).0 ≡ (success, some bytes)
  unfolding encrypt_message
  encrypt-success message public_key l bytes h =
      elim (Bool-cases (length message == 0 || ltb max_message_len (length message))) [
        | inl bad ↦ cc (rw bad at h)
        | inr good ↦ elim (Bool-cases (is_success (init_crypto_library host l).0)) [
          | inr failed ↦ cc (rw (good, failed) at h)
          | inl ok ↦ rw (good, ok) (sealed-success (length message) _ bytes (rw (good, ok) at h))
        ]
      ]

  -- With libsodium as documented and keys loaded, it returns success, or that the seal failed; what
  -- was sealed is opened.
  pub receive_messages_secure-opens :
      (sound : IsSound host) (keys : SessionKeys) (l : Local)
      → keys.keys_loaded ≡ true
      → ((receive_messages_secure host keys l).0 ≡ success)
        ⊎ ((receive_messages_secure host keys l).0 ≡ encryption)
  unfolding receive_messages_secure received
  receive_messages_secure-opens sound keys l loaded =
      rw loaded
        (opened (encrypt_message host hello our l).0.0 (encrypt_message host hello our l).0.1 refl)
    where
      hello : List ℕ
      hello = bytes_of "Hello from the other side!"

      our : List ℕ
      our = host.scalarmult_base keys.private_key

      opened :
          (result : ClientResult) (o : Option (List ℕ))
          → (encrypt_message host hello our l).0.1 ≡ o
          → ((received host keys.private_key (result, o) (encrypt_message host hello our l).1).0
              ≡ success)
            ⊎ ((received host keys.private_key (result, o) (encrypt_message host hello our l).1).0
                ≡ encryption)
      opened result none e = inr refl
      opened result (some bytes) e =
          let made = encrypt-success hello our l bytes e in
          let sealed = encrypt_message-Encrypts host sound hello our l bytes made in
          let opens =
            decrypt_message-encrypt_message host sound hello keys.private_key l
              (encrypt_message host hello our l).1 bytes made sealed.ready in
          inl (ap (λ (r : (ClientResult × Option (List ℕ)) × Local). r.0.0) opens)
