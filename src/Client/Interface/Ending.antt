-- ===== src/Client/Interface/Ending.antt =====
-- src/interface.c, run_chat_interface: how the command line ends.
use c_chat.Prelude.{
  ◌⊎◌, ap, ℕ, zero, suc, ◌-◌, ◌<◌, ◌≡◌, refl, Bool, true, false, ◌&&◌, Option, none, some, List, [],
  ◌∷◌, length, bytes_of, c_str, str_eq, ltb, arith, Bool-cases, inl, inr,
}
use mathlib.Core.Option
use c_chat.Server.Types.{max_message_len}
use c_chat.Server.Io.{Env, IsResponsive}
use c_chat.Client.{Link}
use c_chat.Client.Host.{Host}
use c_chat.Client.Terminal.{fgets, before_newline}
use c_chat.Client.Terminal.Input.{
  Reads, none_read, and_then, length-Reads, Got, at_end, a_line, fgets-Got, fgets-Reads,
}
use c_chat.Client.Network.Socket.{Offline}
use c_chat.Client.Desk.{Desk}
use c_chat.Client.Chat.{start_chat}
use c_chat.Client.Chat.Ending.{start_chat-Leaves}
use c_chat.Client.Interface.{
  Run, returns, overflows, of_option, has_long_word, scan_words, target_of, run_command, run_words,
  run_line, next_target, go_on, command_loop, run_chat_interface,
}

module _ (env : Env) (link : Link) (host : Host) (responsive : IsResponsive env)
    (held : ℕ → Desk → List ℕ) where
  -- A command is done: there is no connection, and the first of the input was read.
  record Done (d : Desk) (o : Option (Bool × Desk)) : Type 0 where
    goes_on : Bool
    next : Desk
    result : o ≡ some (goes_on, next)
    offline : Offline next.connection
    reads : Reads d.local.stdin next.local.stdin

  still : (d : Desk) (b : Bool) → Offline d.connection → Done d (some (b, d))
  still d b off = record {
    goes_on = b;
    next = d;
    result = refl;
    offline = off;
    reads = none_read d.local.stdin;
  }

  run_command-Done :
      (command target_user : List ℕ) (d : Desk)
      → Offline d.connection
      → Done d (run_command env link host held command target_user d)
  unfolding run_command
  run_command-Done command target_user d off =
      let z = start_chat-Leaves env link host responsive target_user (held 0 d) d off in
      let chat : Done d
          (Option.map (λ r. (true, r.1)) (start_chat env link host target_user (held 0 d) d)) =
        record {
          goes_on = true;
          next = z.last;
          result = rw z.ended refl;
          offline = z.offline;
          reads = z.reads;
        } in
      elim (Bool-cases (str_eq command (bytes_of "/quit"))) [
        | inl quit ↦ rw quit (still d false off)
        | inr other ↦
            elim (Bool-cases (str_eq command (bytes_of "chat") && ltb 0 (length target_user))) [
              | inl named ↦ rw (other, named) chat
              | inr unnamed ↦ rw (other, unnamed) (still d true off)
            ]
      ]

  run_words-Done :
      (target_user : List ℕ) (words : Option (List ℕ) × Option (List ℕ)) (d : Desk)
      → Offline d.connection
      → Done d (run_words env link host held target_user words d)
  unfolding run_words
  run_words-Done target_user (none, second) d off = still d true off
  run_words-Done target_user (some command, second) d off =
      run_command-Done command target_user d off

  -- The loop came to its end.
  pub record Ends (d : Desk) (o : Run Desk) : Type 0 where
    pub last : Desk
    pub result : o ≡ returns last
    pub offline : Offline last.connection
    pub reads : Reads d.local.stdin last.local.stdin

  -- A word of a line of the input did not fit its array.
  pub record Overflows (stdin : List ℕ) {A : Type 0} (o : Run A) : Type 0 where
    pub line : List ℕ
    pub result : o ≡ overflows line
    pub rest : List ℕ
    pub read : Reads stdin rest
    pub typed : line ≡ c_str (before_newline (fgets (max_message_len - 1) rest).0)
    pub long : has_long_word (scan_words line) ≡ true

  pub later_Overflows :
      {A : Type 0} (s t : List ℕ) (o : Run A) → Reads s t → Overflows t o → Overflows s o
  later_Overflows s t o read v = record {
    line = v.line;
    result = v.result;
    rest = v.rest;
    read = and_then _ _ _ read v.read;
    typed = v.typed;
    long = v.long;
  }

  abbrev pub Ended : Desk → Run Desk → Type 0
  Ended d o = Ends d o ⊎ Overflows d.local.stdin o

  abbrev Hypothesis : ℕ → Type 0
  Hypothesis fuel =
      (target_user : List ℕ) (d : Desk)
      → length d.local.stdin < fuel
      → Offline d.connection
      → Ended d (command_loop env link host held fuel target_user d)

  later_Ended :
      (d e : Desk) (o : Run Desk) → Reads d.local.stdin e.local.stdin → Ended e o → Ended d o
  later_Ended d e o read (inl z) = inl (record {
    last = z.last;
    result = z.result;
    offline = z.offline;
    reads = and_then _ _ _ read z.reads;
  })
  later_Ended d e o read (inr v) = inr (later_Overflows _ _ o read v)

  go_on-Ends :
      (fuel : ℕ) (target_user : List ℕ) (d : Desk) (o : Option (Bool × Desk))
      → Hypothesis fuel
      → length d.local.stdin < fuel
      → Done d o
      → Ended d (
          go_on env link host held (command_loop env link host held fuel target_user) (of_option o))
  go_on-Ends fuel target_user d o loop short done = rw done.result (by_case done.goes_on)
    where
      z : Ended done.next (command_loop env link host held fuel target_user done.next)
      z =
          loop target_user done.next (omega (arith, short, length-Reads _ _ done.reads))
            done.offline

      by_case :
          (b : Bool)
          → Ended d (
              go_on env link host held
                (command_loop env link host held fuel target_user)
                (returns (b, done.next)))
      by_case true = later_Ended d done.next _ done.reads z
      by_case false =
          inl
            (record { last = done.next; result = refl; offline = done.offline; reads = done.reads })

  abbrev with_input : Desk → List ℕ → Desk
  with_input d rest = record d { local = record d.local { stdin = rest } }

  line-Ends :
      (fuel : ℕ) (target_user : List ℕ) (d : Desk) (p : List ℕ × List ℕ)
      → Hypothesis fuel
      → length d.local.stdin < suc fuel
      → Offline d.connection
      → Got d.local.stdin p
      → p ≡ fgets (max_message_len - 1) d.local.stdin
      → Reads d.local.stdin p.1
      → Ended d (
          go_on env link host held
            (command_loop env link host held fuel (next_target env link host held target_user p.0))
            (run_line env link host held target_user p.0 (with_input d p.1)))
  unfolding run_line
  line-Ends fuel target_user d p loop few off (at_end empty) from read =
      inl (record { last = with_input d []; result = refl; offline = off; reads = read })
  line-Ends fuel target_user d p loop few off (a_line c line rest shorter) from read =
      let input : List ℕ = c_str (before_newline (c ∷ line)) in
      let words = scan_words input in
      let done = run_words-Done (target_of target_user words.1) words (with_input d rest) off in
      let z =
        go_on-Ends fuel (next_target env link host held target_user (c ∷ line)) (with_input d rest)
          (run_words env link host held (target_of target_user words.1) words (with_input d rest))
          loop (omega (arith, shorter, few)) done in
      elim (Bool-cases (has_long_word words)) [
        | inl long ↦ rw long (
            inr (record {
              line = input;
              result = refl;
              rest = d.local.stdin;
              read = none_read d.local.stdin;
              typed = ap (λ (q : List ℕ × List ℕ). c_str (before_newline q.0)) from;
              long = long;
            }))
        | inr short ↦ rw short (later_Ended d (with_input d rest) _ read z)
      ]

  command_loop-Ends : (fuel : ℕ) → Hypothesis fuel
  unfolding command_loop
  command_loop-Ends zero target_user d few off = absurd (omega arith)
  command_loop-Ends (suc fuel) target_user d few off =
      line-Ends fuel target_user d (fgets (max_message_len - 1) d.local.stdin)
        (command_loop-Ends fuel) few off (fgets-Got 1022 d.local.stdin) refl
        (fgets-Reads (max_message_len - 1) d.local.stdin)

  -- When no peer keeps silent, whatever the server answers and whichever calls fail, the command line
  -- comes to its end, with no connection if it started with none; or a word that is typed overflows.
  pub run_chat_interface-Ends :
      (d : Desk) → Offline d.connection → Ended d (run_chat_interface env link host held d)
  unfolding run_chat_interface
  run_chat_interface-Ends d off =
      command_loop-Ends (suc (length d.local.stdin)) (held 2 d) d (omega arith) off
