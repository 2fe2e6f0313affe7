-- ===== src/Client/Chat/Failures.antt =====
-- src/network.c and src/crypto.c: the results of calls that hand nothing out.
use c_chat.Prelude.{
  ℕ, ◌≡◌, ◌≢◌, Bool, true, false, not, Option, none, some, List, ◌∷◌, length, if◌then◌else◌, leb,
  arith, Bool-cases, inl, inr,
}
use c_chat.Server.Types.{max_username_len, NetworkMessage}
use c_chat.Server.Io.{Env}
use c_chat.Client.{ClientResult, success, Link}
use c_chat.Client.Host.{Host, Local, tick}
use c_chat.Client.Terminal.{get_home_directory}
use c_chat.Client.Crypto.Storage.{
  keys_path, derive_key_from_password, load_opened, load_derived, load_parts, load_file, load_at,
  load_keys_from_file,
}
use c_chat.Client.Network.{Connection, ask, key_result, get_user_public_key}

-- A result and what is handed out with it.
abbrev pub NoneIsError : {A : Type 0} → ClientResult × Option A → Type 0
NoneIsError r = r.1 ≡ none → r.0 ≢ success

by_test :
    {A S : Type 0} (b : Bool) (x y : (ClientResult × Option A) × S)
    → NoneIsError x.0
    → NoneIsError y.0
    → NoneIsError (if b then x else y).0
by_test true x y p q = p
by_test false x y p q = q

module _ (env : Env) (link : Link) where
  ask-error :
      (type : ℕ) (payload : List ℕ) (c : Connection) → (ask env link type payload c).0.0 ≢ success
  unfolding ask
  ask-error type payload c = ground arith

  key_result-NoneIsError :
      (error : ClientResult) (o : Option NetworkMessage)
      → error ≢ success
      → NoneIsError (key_result env link error o)
  unfolding key_result
  key_result-NoneIsError error none h = λ _. h
  key_result-NoneIsError error (some m) h = λ e. ground (arith, e)

  pub get_user_public_key-NoneIsError :
      (name : List ℕ) (c : Connection) → NoneIsError (get_user_public_key env link name c).0
  unfolding get_user_public_key
  get_user_public_key-NoneIsError name c =
      let asked = ask env link 0x03 (length name ∷ name) c in
      let answer =
        key_result-NoneIsError asked.0.0 asked.0.1 (ask-error 0x03 (length name ∷ name) c) in
      by_test (not c.connected_to_server) _ _ (λ _ e. cc)
        (by_test (leb max_username_len (length name)) _ _ (λ _ e. cc) answer)

module _ (host : Host) where
  load_parts-NoneIsError :
      (parts : Option (List (List ℕ))) (password : List ℕ) (l : Local)
      → NoneIsError (load_parts host parts password l).0
  unfolding load_parts derive_key_from_password load_derived load_opened
  load_parts-NoneIsError parts password l = λ h. ground (arith, h)

  load_file-NoneIsError :
      (o : Option (List ℕ)) (password : List ℕ) (l : Local)
      → NoneIsError (load_file host o password l).0
  unfolding load_file
  load_file-NoneIsError none password l = λ _ e. cc
  load_file-NoneIsError (some bytes) password l = load_parts-NoneIsError _ password _

  load_at-NoneIsError :
      (home : Option (List ℕ)) (username password : List ℕ) (l : Local)
      → NoneIsError (load_at host home username password l).0
  unfolding load_at
  load_at-NoneIsError none username password l = λ _ e. cc
  load_at-NoneIsError (some home) username password l =
      elim (Bool-cases (leb host.path_max (length (keys_path home username)))) [
        | inl long ↦ rw long (λ _ e. cc)
        | inr fits ↦ rw fits (load_file-NoneIsError _ password (tick l))
      ]

  pub load_keys_from_file-NoneIsError :
      (username password : List ℕ) (l : Local)
      → NoneIsError (load_keys_from_file host username password l).0
  unfolding load_keys_from_file
  load_keys_from_file-NoneIsError username password l =
      let (home, l₁) = get_home_directory host l in load_at-NoneIsError home username password l₁
