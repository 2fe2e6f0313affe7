-- ===== src/Client/Main/Options.antt =====
-- src/main.c: the name that an option gives, and the test of it.
use c_chat.Prelude.{
  ℕ, zero, suc, ◌≤◌, ◌≡◌, refl, true, List, [], ◌∷◌, length, length-take, take, take-all, leb,
  arith,
}
use c_chat.Server.Types.{max_username_len}
use c_chat.Server.Io.{Env}
use c_chat.Client.{success, invalid_args, Link}
use c_chat.Client.Host.{Host}
use c_chat.Client.Terminal.{safe_strncpy}
use c_chat.Client.Desk.{Desk}
use c_chat.Client.Users.{all_username_chars, validate_username}
use c_chat.Client.Main.{register, parse_options, main}

all_username_chars-take :
    (n : ℕ) (s : List ℕ) → all_username_chars s ≡ true → all_username_chars (take n s) ≡ true
unfolding all_username_chars
all_username_chars-take zero s h = refl
all_username_chars-take (suc n) [] h = refl
all_username_chars-take (suc n) (c ∷ cs) h = ground (arith, h, all_username_chars-take n cs)

module _ (env : Env) (link : Link) (host : Host) (held : ℕ → Desk → List ℕ) where
  -- A name of 32 bytes or more, of the characters that a name may have, is refused by the test, but
  -- `--register` passes: the program does with it what it does with its first 31 bytes, which the test
  -- accepts.
  pub main-validate_username :
      (name : List ℕ) (d : Desk)
      → all_username_chars name ≡ true
      → max_username_len ≤ length name
      → (validate_username name ≡ invalid_args)
        × (validate_username (take 31 name) ≡ success)
        × (main env link host held (register name ∷ []) d
            ≡ main env link host held (register (take 31 name) ∷ []) d)
  unfolding validate_username main parse_options safe_strncpy
  main-validate_username name d chars long =
      let size : length (take 31 name) ≡ 31 = omega (arith, length-take 31 name) in
      let refused : leb max_username_len (length name) ≡ true = ground arith in
      let whole : take 31 (take 31 name) ≡ take 31 name =
        take-all 31 (take 31 name) (omega arith) in
      (
        ground (arith, refused),
        rw (size, all_username_chars-take 31 name chars) refl,
        rw whole refl,
      )
