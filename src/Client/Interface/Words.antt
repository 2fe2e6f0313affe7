-- ===== src/Client/Interface/Words.antt =====
-- src/interface.c: the words of a command.
use c_chat.Prelude.{
  ℕ, ◌≡◌, ◌≢◌, refl, sym, ap, ◌∙◌, Bool, true, false, not, ◌&&◌, none, some, List, [], ◌∷◌, ◌++◌,
  length, bytes_of, str_eq, ltb, arith,
}
use mathlib.Core.Option
use mathlib.Core.List.{append-nil}
use c_chat.Server.Io.{Env}
use c_chat.Client.{Link}
use c_chat.Client.Host.{Host}
use c_chat.Client.Desk.{Desk}
use c_chat.Client.Chat.{start_chat}
use c_chat.Client.Interface.{
  is_space, skip_spaces, word, filled, scan_words, target_of, run_command, run_words,
}

abbrev pub all_spaces : List ℕ → Bool
all_spaces [] = true
all_spaces (c ∷ cs) = is_space c && all_spaces cs

abbrev pub no_spaces : List ℕ → Bool
no_spaces [] = true
no_spaces (c ∷ cs) = not (is_space c) && no_spaces cs

-- A word: it is not empty, and has no space.
abbrev pub is_word : List ℕ → Bool
is_word [] = false
is_word (c ∷ cs) = not (is_space c) && no_spaces cs

-- What may stand behind a word.
abbrev pub is_behind : List ℕ → Bool
is_behind [] = true
is_behind (c ∷ cs) = is_space c

skip_spaces-pad : (pad s : List ℕ) → all_spaces pad ≡ true → skip_spaces (pad ++ s) ≡ skip_spaces s
unfolding skip_spaces
skip_spaces-pad [] s h = refl
skip_spaces-pad (c ∷ cs) s h =
    let space : is_space c ≡ true = ground (arith, h) in
    rw space (skip_spaces-pad cs s (ground (arith, h)))

word-no_spaces : (w s : List ℕ) → no_spaces w ≡ true → is_behind s ≡ true → word (w ++ s) ≡ (w, s)
unfolding word
word-no_spaces [] [] h e = refl
word-no_spaces [] (c ∷ s) h e = rw e refl
word-no_spaces (c ∷ cs) s h e =
    let solid : is_space c ≡ false = ground (arith, h) in
    rw (solid, word-no_spaces cs s (ground (arith, h)) e) refl

-- A word behind spaces is found.
word-is_word :
    (pad w s : List ℕ)
    → all_spaces pad ≡ true
    → is_word w ≡ true
    → is_behind s ≡ true
    → word (skip_spaces (pad ++ (w ++ s))) ≡ (w, s)
unfolding skip_spaces
word-is_word pad [] s p h e = cc
word-is_word pad (c ∷ cs) s p h e =
    let solid : is_space c ≡ false = ground (arith, h) in
    rw (skip_spaces-pad pad (c ∷ cs ++ s) p, solid) (word-no_spaces (c ∷ cs) s h e)

filled-is_word : (w : List ℕ) → is_word w ≡ true → filled w ≡ some w
filled-is_word [] h = cc
filled-is_word (c ∷ cs) h = refl

-- Two words, with spaces before and between them, and nothing or a space behind them, are read as
-- `sscanf` reads them.
pub scan_words-two :
    (pad command : List ℕ) (c : ℕ) (between name rest : List ℕ)
    → all_spaces pad ≡ true
    → is_word command ≡ true
    → is_space c ≡ true
    → all_spaces between ≡ true
    → is_word name ≡ true
    → is_behind rest ≡ true
    → scan_words (pad ++ (command ++ (c ∷ between ++ (name ++ rest)))) ≡ (some command, some name)
unfolding scan_words
scan_words-two pad command c between name rest p w s q v e =
    let blank : all_spaces (c ∷ between) ≡ true = ground (arith, s, q) in
    rw
      (
        word-is_word pad command (c ∷ between ++ (name ++ rest)) p w s,
        word-is_word (c ∷ between) name rest blank v e,
        filled-is_word command w,
        filled-is_word name v,
      )
      refl

-- One word, with spaces around it.
scan_words-one :
    (pad command rest : List ℕ)
    → all_spaces pad ≡ true
    → is_word command ≡ true
    → all_spaces rest ≡ true
    → scan_words (pad ++ (command ++ rest)) ≡ (some command, none)
unfolding scan_words word skip_spaces
scan_words-one pad command rest p w q =
    rw (word-is_word pad command rest p w (behind rest q), empty rest q, filled-is_word command w)
      refl
  where
    behind : (s : List ℕ) → all_spaces s ≡ true → is_behind s ≡ true
    behind [] h = refl
    behind (c ∷ cs) h = ground (arith, h)

    empty : (s : List ℕ) → all_spaces s ≡ true → (word (skip_spaces s)).0 ≡ []
    empty s h =
        ap (λ x. (word (skip_spaces x)).0) (sym (append-nil s))
        ∙ ap (λ x. (word x).0) (skip_spaces-pad s [] h)

-- The line `chat`, with or without spaces around it, starts a chat with the user of the command before,
-- or whatever the buffer holds, if that is not the empty string.
pub run_words-chat_alone :
    (env : Env) (link : Link) (host : Host) (held : ℕ → Desk → List ℕ)
    (pad rest target_user : List ℕ) (d : Desk)
    → all_spaces pad ≡ true
    → all_spaces rest ≡ true
    → length target_user ≢ 0
    → let words = scan_words (pad ++ (bytes_of "chat" ++ rest)) in
      run_words env link host held (target_of target_user words.1) words d
      ≡ Option.map (λ r. (true, r.1)) (start_chat env link host target_user (held 0 d) d)
unfolding run_words run_command is_space str_eq
run_words-chat_alone env link host held pad rest target_user d p q named =
    let some_name : ltb 0 (length target_user) ≡ true = ground (arith, named) in
    rw (scan_words-one pad (bytes_of "chat") rest p refl q, some_name) refl
