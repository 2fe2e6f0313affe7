-- ===== src/Client/Users/Accounts.antt =====
-- src/user.c, register_user and login_user: one after the other.
use c_chat.Prelude.{
  ℕ, ◌<◌, ◌≡◌, refl, ap, ◌∙◌, Bool, true, false, Option, some, List, ◌||◌, length, leb, arith,
  Bool-cases, inl, inr,
}
use c_chat.Server.Io.{Env}
use c_chat.Client.{ClientResult, success, auth, Link}
use c_chat.Client.Host.{Host, IsSound, IsWorking, Local, tick, exists}
use c_chat.Client.Terminal.{max_password_len, get_password_input}
use c_chat.Client.Crypto.{Keys, init_crypto_library, made_keypair, generate_keypair}
use c_chat.Client.Crypto.Storage.{keys_path, save_keys_to_file, load_keys_from_file}
use c_chat.Client.Crypto.Files.{found_home}
use c_chat.Client.Crypto.KeyFile.{save_keys_to_file-Keeps, load_keys_from_file-save_keys_to_file}
use c_chat.Client.Desk.{Desk}
use c_chat.Client.Users.{
  choose_password, register_online, register_keys, register_at, register_user, login_user,
}

or-true : (b : Bool) → (b || true) ≡ true
or-true true = refl
or-true false = refl

module _ (host : Host) (sound : IsSound host) (working : IsWorking host) where
  -- What a key pair is made of, and that the files stay.
  pub record Generates (l : Local) (r : (ClientResult × Option Keys) × Local) : Type 0 where
    pub keys : Keys
    pub made : r.0 ≡ (success, some keys)
    pub owned : keys.public_key ≡ host.scalarmult_base keys.private_key
    pub public_size : length keys.public_key ≡ host.public_key_size
    pub private_size : length keys.private_key ≡ host.private_key_size
    pub files : r.1.files ≡ l.files
    pub stdin : r.1.stdin ≡ l.stdin

  init_works :
      (l : Local)
      → let (r, l₁) = init_crypto_library host l in
        (r ≡ success) × (l₁.files ≡ l.files) × (l₁.stdin ≡ l.stdin)
  unfolding init_crypto_library
  init_works l = elim (Bool-cases l.crypto_initialized) [
    | inl ready ↦ simp ready (refl, refl, refl)
    | inr fresh ↦ simp (fresh, working.initialised l.calls) (refl, refl, refl)
  ]

  generate_keypair-Generates : (l : Local) → Generates l (generate_keypair host l)
  unfolding generate_keypair made_keypair
  generate_keypair-Generates l =
      let (ok, files, stdin) = init_works l in
      let n : ℕ = (init_crypto_library host l).1.calls in
      let (public_key, private_key, made) = working.pairs n in
      let (owned, public_size, private_size) = sound.paired n public_key private_key made in
      record {
        keys = record { public_key = public_key; private_key = private_key };
        made = rw (ok, made) refl;
        owned = owned;
        public_size = public_size;
        private_size = private_size;
        files = rw ok files;
        stdin = rw ok stdin;
      }

  -- A user whose key file is there is refused, with nothing sent to the server.
  pub register_user-auth :
      (env : Env) (link : Link) (home username password confirm_password : List ℕ) (fuel : ℕ)
      (d : Desk)
      → host.home ≡ some home
      → length (keys_path home username) < host.path_max
      → exists (keys_path home username) d.local ≡ true
      → register_user env link host username password confirm_password fuel d
        ≡ (auth, record d { local = tick d.local })
  unfolding register_user register_at
  register_user-auth env link home username password confirm_password fuel d here fits old =
      let test : leb host.path_max (length (keys_path home username)) ≡ false = ground arith in
      rw (found_home host working home d.local here, test, old) refl

  module _ (env : Env) (link : Link) (home username password confirm_password : List ℕ) (fuel : ℕ)
      (d : Desk) (here : host.home ≡ some home)
      (fits : length (keys_path home username) < host.path_max) where
    abbrev path : List ℕ
    path = keys_path home username

    abbrev registered : ClientResult × Desk
    registered = register_user env link host username password confirm_password fuel d

    abbrev chosen : List ℕ
    chosen = (choose_password fuel password confirm_password d.local.stdin).0

    register_online-local :
        (key : List ℕ) (e : Desk) → (register_online env link host username key e).local ≡ e.local
    unfolding register_online
    register_online-local key e = ground arith

    -- With nothing in the way, a new user's keys are saved.
    pub record Registers : Type 0 where
      pub keys : Keys
      pub drawn : (generate_keypair host (tick d.local)).0 ≡ (success, some keys)
      pub owned : keys.public_key ≡ host.scalarmult_base keys.private_key
      pub before : Local
      pub public_size : length keys.public_key ≡ host.public_key_size
      pub private_size : length keys.private_key ≡ host.private_key_size
      pub result : registered.0 ≡ success
      pub asker : Desk
      pub online : asker.connection ≡ d.connection
      pub told : registered.1 ≡ register_online env link host username keys.public_key asker
      pub files :
          registered.1.local.files ≡ (save_keys_to_file host username keys chosen before).1.files

    pub register_user-Registers : exists path d.local ≡ false → Registers
    unfolding register_user register_at register_keys
    register_user-Registers new =
        let test : leb host.path_max (length path) ≡ false = ground arith in
        let g = generate_keypair-Generates (tick d.local) in
        let made : Local = (generate_keypair host (tick d.local)).1 in
        let before : Local = record made {
          stdin = (choose_password fuel password confirm_password d.local.stdin).1;
        } in
        let (saved, _) =
          load_keys_from_file-save_keys_to_file host sound working home username chosen g.keys here
            fits g.public_size g.private_size before
            (save_keys_to_file host username g.keys chosen before).1 refl in
        record {
          keys = g.keys;
          drawn = g.made;
          owned = g.owned;
          before = before;
          public_size = g.public_size;
          private_size = g.private_size;
          asker = record d { local = (save_keys_to_file host username g.keys chosen before).1 };
          online = refl;
          told =
              rw (found_home host working home d.local here, test, new, g.made, g.stdin, saved)
                refl;
          result =
              rw (found_home host working home d.local here, test, new, g.made, g.stdin, saved)
                refl;
          files =
              rw (found_home host working home d.local here, test, new, g.made, g.stdin, saved)
                (ap (λ (l : Local). l.files) (register_online-local g.keys.public_key _));
        }

    -- Who is registered logs in with the password that was chosen, while the key file is as it was left.
    pub login_user-register_user :
        (later : Desk) (held : List ℕ)
        → exists path d.local ≡ false
        → later.local.files path ≡ registered.1.local.files path
        → (get_password_input held max_password_len later.local.stdin).0 ≡ chosen
        → (registered.0 ≡ success) × ((login_user host username held later).0 ≡ success)
    unfolding login_user
    login_user-register_user later held new same typed =
        let r = register_user-Registers new in
        let l : Local = record later.local {
          stdin = (get_password_input held max_password_len later.local.stdin).1;
        } in
        let (_, loaded) =
          load_keys_from_file-save_keys_to_file host sound working home username chosen r.keys here
            fits r.public_size r.private_size r.before l
            (same ∙ ap (λ (f : List ℕ → Option (List ℕ)). f path) r.files) in
        (
          r.result,
          ap (λ password. (load_keys_from_file host username password l).0.0) typed
              ∙ ap (λ (result : ClientResult × Option Keys). result.0) loaded,
        )

    -- With libsodium as documented, no call of the machine that fails, and a path that fits: a user with
    -- no key file registers with success, whatever the server answers, if the call returns. At any later
    -- time at which the key file is as it was left, the user is refused as known, with nothing sent to
    -- the server.
    pub register_user-register_user :
        (password' confirm_password' : List ℕ) (fuel' : ℕ) (later : Desk)
        → exists path d.local ≡ false
        → later.local.files path ≡ registered.1.local.files path
        → (registered.0 ≡ success)
          × ((register_user env link host username password' confirm_password' fuel' later)
              ≡ (auth, record later { local = tick later.local }))
    register_user-register_user password' confirm_password' fuel' later new same =
        let r = register_user-Registers new in
        let (bytes, _, holds, _) =
          save_keys_to_file-Keeps host sound working home username chosen r.keys here fits
            r.public_size r.private_size r.before in
        let there : later.local.files path ≡ some bytes =
          same ∙ ap (λ (f : List ℕ → Option (List ℕ)). f path) r.files ∙ holds in
        let old : exists path later.local ≡ true = rw there (or-true (later.local.folders path)) in
        (
          r.result,
          register_user-auth env link home username password' confirm_password' fuel' later here
              fits old,
        )
