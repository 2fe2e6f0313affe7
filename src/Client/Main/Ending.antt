-- ===== src/Client/Main/Ending.antt =====
-- src/main.c: how the program ends.
use c_chat.Prelude.{ℕ, ◌≡◌, ◌≢◌, ◌⊎◌, refl, sym, true, false, List, [], ◌∷◌, Bool-cases, inl, inr}
use mathlib.Core.Path.{subst}
use c_chat.Server.Types.{max_username_len}
use c_chat.Server.Io.{Env, IsResponsive}
use c_chat.Client.{ClientResult, is_success, success, invalid_args, Link}
use c_chat.Client.Host.{Host, Local}
use c_chat.Client.Terminal.{safe_strncpy, get_home_directory}
use c_chat.Client.Crypto.{init_crypto_library, cleanup_crypto_library}
use c_chat.Client.Network.Socket.{Offline, if-false}
use c_chat.Client.Users.Offline.{register_at-Offline}
use c_chat.Client.Desk.{ChatUser, Desk, on_local}
use c_chat.Client.Users.{validate_username, list_users, register_user, login_user}
use c_chat.Client.Interface.{Run, returns, hangs}
use c_chat.Client.Interface.Ending.{Overflows, later_Overflows, run_chat_interface-Ends}
use c_chat.Client.Crypto.Stdin.{init_crypto_library-stdin, load_keys_from_file-stdin}
use c_chat.Client.Terminal.{max_password_len, get_password_input}
use c_chat.Client.Terminal.Input.{Reads, none_read, get_password_input-Reads}
use c_chat.Client.Main.{
  Opt, register, login, list, help, version, unknown, Modes, no_modes, parse_options, clean_up,
  finish, run_register, run_session, run_login, run_mode, run_parsed, main,
}

failed-not_success : (r : ClientResult) → is_success r ≡ false → r ≢ success
failed-not_success r h e = cc (rw e at h)

module _ (env : Env) (link : Link) (host : Host) (responsive : IsResponsive env)
    (held : ℕ → Desk → List ℕ) where
  -- How the program ended: with no connection, and, after a success, with the library cleaned up.
  pub record Finishes (o : Run (ClientResult × Desk)) : Type 0 where
    pub result : ClientResult
    pub last : Desk
    pub ended : o ≡ returns (result, last)
    pub offline : Offline last.connection
    pub clean : (result ≢ success) ⊎ (last.local.crypto_initialized ≡ false)

  -- It ended, or a word that was typed overflowed its array.
  abbrev pub Outcome : Desk → Run (ClientResult × Desk) → Type 0
  Outcome d o = Finishes o ⊎ Overflows env link host responsive held d.local.stdin o

  stopped :
      (r : ClientResult) (d : Desk) → r ≢ success → Offline d.connection → Finishes (returns (r, d))
  stopped r d bad off = record {
    result = r;
    last = d;
    ended = refl;
    offline = off;
    clean = inl bad;
  }

  cleaned :
      (r : ClientResult) (d : Desk) → Offline d.connection → Finishes (returns (r, clean_up d))
  unfolding cleanup_crypto_library
  cleaned r d off = record {
    result = r;
    last = clean_up d;
    ended = refl;
    offline = off;
    clean = inr refl;
  }

  finish-Finishes :
      (r : ClientResult × Desk) → Offline r.1.connection → Finishes (returns (finish r))
  finish-Finishes r off = elim (Bool-cases (is_success r.0)) [
    | inl ok ↦ rw ok (cleaned success r.1 off)
    | inr failed ↦ rw failed (stopped r.0 r.1 (failed-not_success r.0 failed) off)
  ]

  run_register-Finishes :
      (username : List ℕ) (d : Desk)
      → Offline d.connection
      → Finishes (run_register env link host held username d)
  unfolding run_register register_user
  run_register-Finishes username d off =
      let (home, d₁) = on_local (get_home_directory host) d in
      let z =
        register_at-Offline env link host responsive home username (held 0 d) (held 1 d) d₁ off in
      elim (Bool-cases (is_success (validate_username username))) [
        | inr bad ↦ rw bad (stopped invalid_args d (λ e. cc) off)
        | inl ok ↦ rw ok (
            subst Finishes (sym (if-false _ hangs _ z.2))
              (finish-Finishes (register_user env link host username (held 0 d) (held 1 d) 1 d) z))
      ]

  run_session-Finishes :
      (username : List ℕ) (d : Desk)
      → Offline d.connection
      → Outcome d (run_session env link host held username d)
  unfolding run_session
  run_session-Finishes username d off =
      let user : ChatUser = record d.current_session.current_user {
        username = safe_strncpy d.current_session.current_user.username username max_username_len;
        is_authenticated = true;
      } in
      let start : Desk = record d {
        current_session = record d.current_session { current_user = user };
      } in
      let z = run_chat_interface-Ends env link host responsive held start off in
      elim z [
        | inl e ↦ inl (rw e.result (cleaned success e.last e.offline))
        | inr v ↦ inr (record {
          line = v.line;
          result = rw v.result refl;
          rest = v.rest;
          read = v.read;
          typed = v.typed;
          long = v.long;
        })
      ]

  login_user-Reads :
      (username password : List ℕ) (d : Desk)
      → Reads d.local.stdin (login_user host username password d).1.local.stdin
  unfolding login_user
  login_user-Reads username password d =
      let (entered, rest) = get_password_input password max_password_len d.local.stdin in
      subst (Reads d.local.stdin)
        (sym (load_keys_from_file-stdin host username entered (record d.local { stdin = rest })))
        (get_password_input-Reads password max_password_len d.local.stdin)

  later_Outcome :
      (d e : Desk) (o : Run (ClientResult × Desk))
      → Reads d.local.stdin e.local.stdin
      → Outcome e o
      → Outcome d o
  later_Outcome d e o read (inl z) = inl z
  later_Outcome d e o read (inr v) =
      inr (later_Overflows env link host responsive held _ _ o read v)

  run_login-Finishes :
      (username : List ℕ) (d : Desk)
      → Offline d.connection
      → Outcome d (run_login env link host held username d)
  unfolding run_login login_user
  run_login-Finishes username d off =
      let (result, d₁) = login_user host username (held 0 d) d in
      elim (Bool-cases (is_success (validate_username username))) [
        | inr bad ↦ rw bad (inl (stopped invalid_args d (λ e. cc) off))
        | inl ok ↦ elim (Bool-cases (is_success result)) [
          | inl entered ↦
              rw (ok, entered)
                (later_Outcome d d₁ _ (login_user-Reads username (held 0 d) d)
                  (run_session-Finishes username d₁ off))
          | inr failed ↦
              rw (ok, failed) (inl (stopped result d₁ (failed-not_success result failed) off))
        ]
      ]

  run_mode-Finishes :
      (m : Modes) (d : Desk) → Offline d.connection → Outcome d (run_mode env link host held m d)
  unfolding run_mode list_users
  run_mode-Finishes m d off = elim (Bool-cases m.register_mode) [
    | inl new ↦ rw new (inl (run_register-Finishes m.username d off))
    | inr known ↦ elim (Bool-cases m.login_mode) [
      | inl entering ↦ rw (known, entering) (run_login-Finishes m.username d off)
      | inr other ↦ elim (Bool-cases m.list_mode) [
        | inl listing ↦ rw (known, other, listing) (inl (finish-Finishes (list_users d) off))
        | inr idle ↦ rw (known, other, idle) (inl (cleaned invalid_args d off))
      ]
    ]
  ]

  parsed-Finishes :
      (opts : List Opt) (m : Modes) (d : Desk)
      → Offline d.connection
      → Outcome d (run_parsed env link host held (parse_options opts m) d)
  unfolding run_parsed parse_options
  parsed-Finishes [] m d off = run_mode-Finishes m d off
  parsed-Finishes (register name ∷ opts) m d off = parsed-Finishes opts _ d off
  parsed-Finishes (login name ∷ opts) m d off = parsed-Finishes opts _ d off
  parsed-Finishes (list ∷ opts) m d off = parsed-Finishes opts _ d off
  parsed-Finishes (help ∷ opts) m d off = inl (cleaned success d off)
  parsed-Finishes (version ∷ opts) m d off = inl (cleaned success d off)
  parsed-Finishes (unknown ∷ opts) m d off = inl (stopped invalid_args d (λ e. cc) off)

  init_crypto_library-Reads : (l : Local) → Reads l.stdin (init_crypto_library host l).1.stdin
  unfolding init_crypto_library
  init_crypto_library-Reads l =
      subst (Reads l.stdin) (sym (init_crypto_library-stdin host l)) (none_read l.stdin)

  -- When no peer keeps silent, whatever the options are, whatever is typed, whatever the server answers
  -- and whichever calls fail, the program, which starts with no connection, comes to its end with no
  -- connection, and if its result is success, the cryptographic library was cleaned up; or it reads a
  -- line of the input of which a word is too long for its array.
  pub main-Finishes :
      (opts : List Opt) (d : Desk)
      → Offline d.connection
      → Outcome d (main env link host held opts d)
  unfolding main
  main-Finishes opts d off =
      let (result, d₁) = on_local (init_crypto_library host) d in
      elim (Bool-cases (is_success result)) [
        | inl ok ↦ rw ok (
            later_Outcome d d₁ _ (init_crypto_library-Reads d.local)
              (parsed-Finishes opts no_modes d₁ off))
        | inr failed ↦ rw failed (inl (stopped result d₁ (failed-not_success result failed) off))
      ]
