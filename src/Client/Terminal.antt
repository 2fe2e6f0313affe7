-- ===== src/Client/Terminal.antt =====
-- src/utils.c: the home directory, the permissions of a file, the copy of a string, and a line that is
-- typed. A `char[]` is its bytes before the terminator.
pub mod Input
use c_chat.Prelude.{
  ℕ, zero, suc, ◌+◌, ◌-◌, Bool, Option, none, some, List, [], ◌∷◌, take, c_str, if◌then◌else◌, ◌==◌,
}
use c_chat.Server.Io.{State}
use c_chat.Client.{ClientResult, success, permission_denied}
use c_chat.Client.Host.{Host, Local, tick}

abbrev pub max_password_len : ℕ
max_password_len = 256

-- `fgets(buf, n + 1, stdin)`: a line with its end, or as much of it as there is room for; and what is
-- left to read. Nothing at the end of the input.
unfoldable pub fgets : ℕ → List ℕ → List ℕ × List ℕ
fgets n [] = ([], [])
fgets zero (c ∷ cs) = ([], c ∷ cs)
fgets (suc n) (c ∷ cs) =
    let (line, rest) = fgets n cs in if c == 10 then (c ∷ [], cs) else (c ∷ line, rest)

-- The byte of a line's end is 10. `line[strcspn(line, "\n")] = '\0'`
unfoldable pub before_newline : List ℕ → List ℕ
before_newline [] = []
before_newline (c ∷ cs) = let rest = before_newline cs in if c == 10 then [] else c ∷ rest

-- What a buffer holds once a line was read into it; at the end of the input it keeps what it held.
unfoldable pub typed : List ℕ → List ℕ → List ℕ
typed buffer [] = buffer
typed buffer (c ∷ line) = c_str (before_newline (c ∷ line))

unfoldable pub get_password_input : List ℕ → ℕ → List ℕ → List ℕ × List ℕ
unfolding typed
get_password_input password max_len stdin =
    let (line, rest) = fgets (max_len - 1) stdin in (typed password line, rest)

-- What `dest` holds behind it.
unfoldable pub safe_strncpy : List ℕ → List ℕ → ℕ → List ℕ
safe_strncpy dest src size = if size == 0 then dest else take (size - 1) src

module _ (host : Host) where
  unfoldable pub strdup : List ℕ → State Local (Option (List ℕ))
  strdup s l = (if host.duplicates l.calls then some s else none, tick l)

  -- The fallback of `get_home_directory`.
  unfoldable pub passwd_directory : Option (List ℕ) → State Local (Option (List ℕ))
  passwd_directory none l = (none, l)
  passwd_directory (some dir) l = strdup dir l

  unfoldable pub home_directory : Option (List ℕ) → State Local (Option (List ℕ))
  unfolding passwd_directory
  home_directory none l = passwd_directory host.passwd_dir l
  home_directory (some dir) l = strdup dir l

  unfoldable pub get_home_directory : State Local (Option (List ℕ))
  unfolding home_directory
  get_home_directory l = home_directory host.home l

  unfoldable pub secure_file_permissions : List ℕ → State Local ClientResult
  secure_file_permissions filepath l =
      (if host.chmod l.calls filepath then success else permission_denied, tick l)
