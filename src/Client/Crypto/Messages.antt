-- ===== src/Client/Crypto/Messages.antt =====
-- src/crypto.c, encrypt_message and decrypt_message: sealed messages, and the buffers that hold them.
use c_chat.Prelude.{
  ℕ, ◌+◌, ◌-◌, ◌≤◌, ◌≡◌, ◌≢◌, refl, sym, ap, ◌∙◌, true, false, ◌||◌, Option, none, some, List,
  length, take, take-all, ltb, ◌==◌, arith, Bool-cases, inl, inr,
}
use mathlib.Core.Option.{some-injective}
use c_chat.Server.Types.{max_message_len}
use c_chat.Client.{ClientResult, is_success, success}
use c_chat.Client.Host.{Host, IsSound, Local}
use c_chat.Client.Crypto.{
  init_crypto_library, sealed_message, encrypt_message, opened_message, decrypt_message,
}

module _ (host : Host) where
  -- `encrypt_message` handed out these bytes.
  pub record Encrypts (message public_key : List ℕ) (l : Local) (bytes : List ℕ) : Type 0 where
    pub nonempty : length message ≢ 0
    pub short : length message ≤ max_message_len
    pub calls : ℕ
    pub sealed : host.seal calls message public_key ≡ some bytes
    pub size : length bytes ≡ length message + host.seal_bytes
    pub fits : length bytes ≤ max_message_len + host.seal_bytes
    pub ready : (encrypt_message host message public_key l).1.crypto_initialized ≡ true

  init-ready :
      (l : Local)
      → is_success (init_crypto_library host l).0 ≡ true
      → (init_crypto_library host l).1.crypto_initialized ≡ true
  unfolding init_crypto_library
  init-ready l h = ground (arith, h)

  module _ (sound : IsSound host) where
    sealed_message-some :
        (n : ℕ) (message public_key bytes : List ℕ) (o : Option (List ℕ))
        → host.seal n message public_key ≡ o
        → (sealed_message host (length message) o) ≡ (success, some bytes)
        → (o ≡ some bytes) × (length bytes ≡ length message + host.seal_bytes)
    unfolding sealed_message
    sealed_message-some n message public_key bytes none e h = cc
    sealed_message-some n message public_key bytes (some made) e h =
        let size : length made ≡ length message + host.seal_bytes =
          sound.seal_size n message public_key made e in
        let whole : take (length message + host.seal_bytes) made ≡ made =
          take-all _ made (omega arith) in
        let same : made ≡ bytes =
          sym whole ∙ some-injective _ _ (ap (λ (r : ClientResult × Option (List ℕ)). r.1) h) in
        (ap some same, sym (ap length same) ∙ size)

    -- With libsodium as documented, what `encrypt_message` hands out with success is the seal of a message
    -- of 1 to 1024 bytes, has the size of the message and of a seal, and fits
    -- `unsigned char[ENCRYPTED_MSG_SIZE]`; the library is then ready.
    pub encrypt_message-Encrypts :
        (message public_key : List ℕ) (l : Local) (bytes : List ℕ)
        → (encrypt_message host message public_key l).0 ≡ (success, some bytes)
        → Encrypts message public_key l bytes
    unfolding encrypt_message
    encrypt_message-Encrypts message public_key l bytes h =
        elim (Bool-cases (length message == 0 || ltb max_message_len (length message))) [
          | inl bad ↦ cc (rw bad at h)
          | inr good ↦ elim (Bool-cases (is_success (init_crypto_library host l).0)) [
            | inr failed ↦ cc (rw (good, failed) at h)
            | inl ok ↦
                let n : ℕ = (init_crypto_library host l).1.calls in
                let (sealed, size) =
                  sealed_message-some n message public_key bytes (host.seal n message public_key)
                    refl (rw (good, ok) at h) in
                record {
                  nonempty = ground (arith, good);
                  short = ground (arith, good);
                  calls = n;
                  sealed = sealed;
                  size = size;
                  fits = ground (arith, good, size);
                  ready = rw (good, ok) (init-ready l ok);
                }
          ]
        ]

    init-again :
        (l : Local) → l.crypto_initialized ≡ true → init_crypto_library host l ≡ (success, l)
    unfolding init_crypto_library
    init-again l h = rw h refl

    -- With libsodium as documented, what `encrypt_message` seals to a public key with success is opened by
    -- `decrypt_message` with the private key that it belongs to, at any later time at which the library is
    -- ready, as the message that was sealed.
    pub decrypt_message-encrypt_message :
        (message private_key : List ℕ) (l later : Local) (bytes : List ℕ)
        → (encrypt_message host message (host.scalarmult_base private_key) l).0
          ≡ (success, some bytes)
        → later.crypto_initialized ≡ true
        → decrypt_message host bytes private_key later ≡ ((success, some message), later)
    unfolding decrypt_message opened_message
    decrypt_message-encrypt_message message private_key l later bytes h ready =
        let e = encrypt_message-Encrypts message (host.scalarmult_base private_key) l bytes h in
        let filled : (length bytes == 0) ≡ false = ground (arith, e.size, e.nonempty) in
        rw
          (
            filled,
            init-again later ready,
            sound.sealed e.calls message private_key bytes e.sealed,
            opened bytes message e.size,
          )
          refl
      where
        opened :
            (b m : List ℕ)
            → length b ≡ length m + host.seal_bytes
            → opened_message host (length b) (some m) ≡ (success, some m)
        opened b m size =
            ap (λ x. (success, some x)) (take-all (length b - host.seal_bytes) m (omega arith))
