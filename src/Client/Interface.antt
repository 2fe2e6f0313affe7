-- ===== src/Client/Interface.antt =====
-- src/interface.c: the command line of a user who is logged in. What is printed is left out. `held`
-- is what an array that was not set holds, by its number: 0 for a password, 2 for `target_user`.
pub mod Words
pub mod Ending
use c_chat.Prelude.{
  ℕ, zero, suc, ◌+◌, ◌-◌, Bool, true, false, not, ◌&&◌, ◌||◌, Option, none, some, List, [], ◌∷◌,
  length, bytes_of, c_str, str_eq, if◌then◌else◌, ltb, leb, ◌==◌,
}
use mathlib.Core.Option
use c_chat.Server.Types.{max_username_len, max_message_len}
use c_chat.Server.Io.{Env, State}
use c_chat.Client.{ClientResult, success, Link}
use c_chat.Client.Host.{Host}
use c_chat.Client.Terminal.{fgets, before_newline}
use c_chat.Client.Desk.{Desk}
use c_chat.Client.Chat.{start_chat}

-- `isspace`, and the words of `sscanf(input, "%s %s", …)`: the first word, and what is behind it.
unfoldable pub is_space : ℕ → Bool
is_space c = c == 32 || (leb 9 c && leb c 13)

unfoldable pub skip_spaces : List ℕ → List ℕ
skip_spaces [] = []
skip_spaces (c ∷ cs) = let rest = skip_spaces cs in if is_space c then rest else c ∷ cs

unfoldable pub word : List ℕ → List ℕ × List ℕ
word [] = ([], [])
word (c ∷ cs) = let (w, rest) = word cs in if is_space c then ([], c ∷ cs) else (c ∷ w, rest)

abbrev pub filled : List ℕ → Option (List ℕ)
filled [] = none
filled (c ∷ cs) = some (c ∷ cs)

-- The words that were found; a buffer is written for each of them.
-- `command[MAX_COMMAND_LEN]`
abbrev pub max_command_len : ℕ
max_command_len = 64

-- A run that returns; one that does not; and one in which `sscanf` writes a word of this line past the
-- end of its array, after which C says nothing.
pub data Run (A : Type 0) : Type 0 where
  returns : A → Run A
  hangs : Run A
  overflows : List ℕ → Run A

abbrev pub of_option : {A : Type 0} → Option A → Run A
of_option none = hangs
of_option (some a) = returns a

abbrev pub map_run : {A B : Type 0} → (A → B) → Run A → Run B
map_run f (returns a) = returns (f a)
map_run f hangs = hangs
map_run f (overflows line) = overflows line

abbrev pub is_longer : ℕ → Option (List ℕ) → Bool
is_longer size none = false
is_longer size (some w) = leb size (length w)

-- A word of `size` bytes needs an array of one byte more.
unfoldable pub has_long_word : Option (List ℕ) × Option (List ℕ) → Bool
has_long_word words = is_longer max_command_len words.0 || is_longer max_username_len words.1

unfoldable pub scan_words : List ℕ → Option (List ℕ) × Option (List ℕ)
scan_words input =
    let (first, rest) = word (skip_spaces input) in
    let (second, rest') = word (skip_spaces rest) in (filled first, filled second)

-- `target_user` is written if there is a second word.
abbrev pub target_of : List ℕ → Option (List ℕ) → List ℕ
target_of target_user none = target_user
target_of target_user (some name) = name

-- After ANSI sequences are written.
unfoldable pub secure_clear_screen : ClientResult
secure_clear_screen = success

module _ (env : Env) (link : Link) (host : Host) (held : ℕ → Desk → List ℕ) where
  -- One command: whether the loop goes on, and the state. `none` if a chat does not return.
  unfoldable pub run_command : List ℕ → List ℕ → Desk → Option (Bool × Desk)
  run_command command target_user d =
      if str_eq command (bytes_of "/quit")
      then some (false, d)
      else if str_eq command (bytes_of "chat") && ltb 0 (length target_user)
      then Option.map (λ r. (true, r.1)) (start_chat env link host target_user (held 0 d) d)
      else some (true, d)

  unfoldable pub run_words :
      List ℕ → Option (List ℕ) × Option (List ℕ) → Desk → Option (Bool × Desk)
  unfolding run_command
  run_words target_user (none, second) d = some (true, d)
  run_words target_user (some command, second) d = run_command command target_user d

  -- A round, by what `fgets` read.
  unfoldable pub run_line : List ℕ → List ℕ → Desk → Run (Bool × Desk)
  unfolding run_words
  run_line target_user [] d = returns (false, d)
  run_line target_user (c ∷ line) d =
      let input : List ℕ = c_str (before_newline (c ∷ line)) in
      let words = scan_words input in
      if has_long_word words
      then overflows input
      else of_option (run_words (target_of target_user words.1) words d)

  abbrev pub next_target : List ℕ → List ℕ → List ℕ
  next_target target_user line = target_of target_user (scan_words (c_str (before_newline line))).1

  abbrev pub go_on : (Desk → Run Desk) → Run (Bool × Desk) → Run Desk
  go_on loop (returns (true, d)) = loop d
  go_on loop (returns (false, d)) = returns d
  go_on loop hangs = hangs
  go_on loop (overflows line) = overflows line

  -- The loop of `run_chat_interface`, with what `target_user` holds; `hangs` stands also for a run that
  -- had not rounds enough.
  unfoldable pub command_loop : ℕ → List ℕ → Desk → Run Desk
  command_loop zero target_user d = hangs
  command_loop (suc fuel) target_user d =
      let (line, rest) = fgets (max_message_len - 1) d.local.stdin in
      go_on (command_loop fuel (next_target target_user line))
        (run_line target_user line (record d { local = record d.local { stdin = rest } }))

  unfoldable pub run_chat_interface : Desk → Run Desk
  unfolding command_loop
  run_chat_interface d = command_loop (suc (length d.local.stdin)) (held 2 d) d
