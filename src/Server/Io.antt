-- ===== src/Server/Io.antt =====
-- What the server calls and does not implement: sockets, the clock, the allocator, libsodium.
-- Each is a field of `Env`, a parameter of the model. What a call of the operating system answers
-- may depend on how many such calls went before it, which `Io` counts.
use c_chat.Prelude.{
  ℕ, suc, ◌≡◌, Bool, true, Option, none, some, List, ◌∷◌, ℤ, pos, negsuc, int_eq, take, drop,
  length, min, ltb, false, ◌&&◌, if◌then◌else◌,
}

pub record Env : Type 0 where
  -- `time(NULL)`
  pub time : ℕ → ℕ
  -- `malloc(size)` is not NULL
  pub malloc : ℕ → ℕ → Bool
  -- how many bytes `send(fd, buf, len, MSG_NOSIGNAL)` has room for, or -1; it takes at most `len`
  pub send : ℕ → ℤ → ℕ → ℤ
  -- `recv(fd, buf, len, MSG_WAITALL)`, if it returns, fails for `none`; for `some n` it waits for `len` bytes, and
  -- returns fewer at the end of the stream, or when a signal comes after `n` bytes
  pub recv : ℕ → ℤ → ℕ → Option ℕ
  -- the peer of `fd` keeps the stream open and sends no more than what `inbox` holds of it
  pub silent : ℕ → ℤ → Bool
  -- `randombytes_buf(buf, len)`
  pub randombytes : ℕ → ℕ → List ℕ
  -- `crypto_sign_verify_detached(signature, message, CHALLENGE_SIZE, public_key) == 0`
  pub verify : List ℕ → List ℕ → List ℕ → Bool
  -- `crypto_box_PUBLICKEYBYTES` and `crypto_sign_BYTES`
  pub public_key_size : ℕ
  pub signature_size : ℕ

-- No call fails or is cut short: the documented behaviour of a working network and allocator.
pub record IsReliable (env : Env) : Type 0 where
  pub sends : (n : ℕ) (fd : ℤ) (len : ℕ) → env.send n fd len ≡ pos len
  pub receives : (n : ℕ) (fd : ℤ) (len : ℕ) → env.recv n fd len ≡ some len
  pub allocates : (n size : ℕ) → env.malloc n size ≡ true

-- No peer keeps silent: whoever is waited for sends what is asked for, or ends the stream.
pub record IsResponsive (env : Env) : Type 0 where
  pub answers : (n : ℕ) (fd : ℤ) → env.silent n fd ≡ false

-- What the program does to a socket.
pub data Event : Type 0 where
  wrote : ℤ → List ℕ → Event
  closed : ℤ → Event

-- `events` holds the newest first; `inbox fd` is what the peer of `fd` sends and is not yet read.
pub record Io : Type 0 where
  pub calls : ℕ
  pub events : List Event
  pub inbox : ℤ → List ℕ

abbrev pub State : Type 0 → Type 0 → Type 0
State S A = S → A × S

infixl 5 ◌>>=◌ ◌>>◌
abbrev pub ◌>>=◌ : {S A B : Type 0} → State S A → (A → State S B) → State S B
◌>>=◌ m f s = let (a, s') = m s in f a s'

abbrev pub ◌>>◌ : {S A B : Type 0} → State S A → State S B → State S B
◌>>◌ m k s = let (a, s') = m s in k s'

abbrev pub pure : {S A : Type 0} → A → State S A
pure a s = (a, s)

module _ (env : Env) where
  unfoldable pub time_now : State Io ℕ
  time_now io = (env.time io.calls, record io { calls = suc io.calls })

  unfoldable pub malloc : ℕ → State Io Bool
  malloc size io = (env.malloc io.calls size, record io { calls = suc io.calls })

  abbrev pub after_send : ℤ → List ℕ → Io → ℤ → ℤ × Io
  after_send fd buf io (pos n) = (
    pos (min n (length buf)),
    record io {
      calls = suc io.calls;
      events = wrote fd (take (min n (length buf)) buf) ∷ io.events;
    },
  )
  after_send fd buf io (negsuc n) = (negsuc n, record io { calls = suc io.calls })

  unfoldable pub send : ℤ → List ℕ → State Io ℤ
  send fd buf io = after_send fd buf io (env.send io.calls fd (length buf))

  abbrev pub after_recv : ℤ → ℕ → Io → Option ℕ → Option (List ℕ) × Io
  after_recv fd len io none = (none, record io { calls = suc io.calls })
  after_recv fd len io (some n) = (
    some (take (min n len) (io.inbox fd)),
    record io {
      calls = suc io.calls;
      inbox = λ g. if int_eq g fd then drop (min n len) (io.inbox fd) else io.inbox g;
    },
  )

  abbrev pub falls_short : ℕ → List ℕ → Option ℕ → Bool
  falls_short len bytes none = false
  falls_short len bytes (some n) = ltb (length bytes) (min n len)

  -- A `recv` of `len` bytes does not return: it waits for bytes that the peer does not send.
  abbrev pub blocks : ℤ → ℕ → Io → Bool
  blocks fd len io =
      env.silent io.calls fd && falls_short len (io.inbox fd) (env.recv io.calls fd len)

  -- The bytes that a `recv` that returns puts into its buffer; `none` for its result -1.
  unfoldable pub recv : ℤ → ℕ → State Io (Option (List ℕ))
  recv fd len io = after_recv fd len io (env.recv io.calls fd len)

  unfoldable pub randombytes : ℕ → State Io (List ℕ)
  randombytes len io = (env.randombytes io.calls len, record io { calls = suc io.calls })

unfoldable pub close : ℤ → Io → Io
close fd io = record io { events = closed fd ∷ io.events }
