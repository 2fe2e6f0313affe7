-- ===== src/Client/Main.antt =====
-- src/main.c: the program, from the options that `getopt_long` finds. What is printed is left out;
-- `held` is what an array that was not set holds, by its number: 0 for a password, 1 for its
-- confirmation, 2 for the name in a command.
pub mod Ending
pub mod Options
use c_chat.Prelude.{
  ℕ, zero, suc, ◌+◌, Bool, true, false, not, Option, none, some, List, [], ◌∷◌, length,
  if◌then◌else◌,
}
use mathlib.Core.Option
use c_chat.Server.Types.{max_username_len}
use c_chat.Server.Io.{Env, State}
use c_chat.Client.{ClientResult, is_success, success, invalid_args, Link}
use c_chat.Client.Host.{Host}
use c_chat.Client.Terminal.{safe_strncpy}
use c_chat.Client.Crypto.{init_crypto_library, cleanup_crypto_library}
use c_chat.Client.Desk.{ChatUser, Desk, on_local}
use c_chat.Client.Users.{validate_username, list_users, register_user, login_user}
use c_chat.Client.Interface.{Run, returns, hangs, map_run, run_chat_interface}

-- What `getopt_long` returns, with its argument.
pub data Opt : Type 0 where
  register login : List ℕ → Opt
  list help version unknown : Opt

-- The variables of `main`.
pub record Modes : Type 0 where
  pub username : List ℕ
  pub register_mode : Bool
  pub login_mode : Bool
  pub list_mode : Bool

abbrev pub no_modes : Modes
no_modes = record { username = []; register_mode = false; login_mode = false; list_mode = false }

-- What the loop over the options comes to: an exit with a result, after which the library was cleaned
-- up or was not, or the modes.
pub data Parsed : Type 0 where
  exits : ClientResult → Parsed
  leaves : ClientResult → Parsed
  goes_on : Modes → Parsed

unfoldable pub parse_options : List Opt → Modes → Parsed
parse_options [] m = goes_on m
parse_options (register optarg ∷ opts) m =
    parse_options opts (record m {
      register_mode = true;
      username = safe_strncpy m.username optarg max_username_len;
    })
parse_options (login optarg ∷ opts) m =
    parse_options opts
      (record m { login_mode = true; username = safe_strncpy m.username optarg max_username_len })
parse_options (list ∷ opts) m = parse_options opts (record m { list_mode = true })
parse_options (help ∷ opts) m = exits success
parse_options (version ∷ opts) m = exits success
parse_options (unknown ∷ opts) m = leaves invalid_args

abbrev pub clean_up : Desk → Desk
clean_up d = record d { local = cleanup_crypto_library d.local }

-- A result other than success is returned at once; after success the library is cleaned up.
abbrev pub finish : ClientResult × Desk → ClientResult × Desk
finish (result, d) = if is_success result then (success, clean_up d) else (result, d)

module _ (env : Env) (link : Link) (host : Host) (held : ℕ → Desk → List ℕ) where
  -- `none` if the server does not answer. The loop of `register_user` ends after its first round, for which one unit of fuel is enough.
  unfoldable pub run_register : List ℕ → Desk → Run (ClientResult × Desk)
  run_register username d =
      let (result, d₁) = register_user env link host username (held 0 d) (held 1 d) 1 d in
      if not (is_success (validate_username username))
      then returns (invalid_args, d)
      else if d₁.connection.waits
      then hangs
      else returns (finish (result, d₁))

  -- The session of a user who is logged in.
  unfoldable pub run_session : List ℕ → Desk → Run (ClientResult × Desk)
  run_session username d =
      let user : ChatUser = record d.current_session.current_user {
        username = safe_strncpy d.current_session.current_user.username username max_username_len;
        is_authenticated = true;
      } in
      let d₁ : Desk = record d {
        current_session = record d.current_session { current_user = user };
      } in
      map_run (λ e. (success, clean_up e)) (run_chat_interface env link host held d₁)

  unfoldable pub run_login : List ℕ → Desk → Run (ClientResult × Desk)
  unfolding run_session
  run_login username d =
      let (result, d₁) = login_user host username (held 0 d) d in
      if not (is_success (validate_username username))
      then returns (invalid_args, d)
      else if is_success result
      then run_session username d₁
      else returns (result, d₁)

  unfoldable pub run_mode : Modes → Desk → Run (ClientResult × Desk)
  unfolding run_register run_login
  run_mode m d =
      if m.register_mode
      then run_register m.username d
      else if m.login_mode
      then run_login m.username d
      else if m.list_mode
      then returns (finish (list_users d))
      else returns (invalid_args, clean_up d)

  unfoldable pub run_parsed : Parsed → Desk → Run (ClientResult × Desk)
  unfolding run_mode
  run_parsed (exits result) d = returns (result, clean_up d)
  run_parsed (leaves result) d = returns (result, d)
  run_parsed (goes_on m) d = run_mode m d

  unfoldable pub main : List Opt → Desk → Run (ClientResult × Desk)
  unfolding run_parsed parse_options
  main opts d =
      let (result, d₁) = on_local (init_crypto_library host) d in
      if not (is_success result)
      then returns (result, d₁)
      else run_parsed (parse_options opts no_modes) d₁
