-- ===== src/Client/Chat/Loop.antt =====
-- src/chat.c, start_chat: the loop over the lines of a chat.
use c_chat.Prelude.{
  ℕ, zero, suc, ◌-◌, ◌<◌, ◌≡◌, ◌⊎◌, refl, sym, ◌∙◌, Bool, true, false, not, Option, none, some,
  List, [], ◌∷◌, length, bytes_of, c_str, str_eq, if◌then◌else◌, ltb, ◌==◌, arith, Bool-cases, inl,
  inr,
}
use mathlib.Core.Path.{subst}
use c_chat.Server.Types.{max_message_len}
use c_chat.Server.Io.{Env, IsResponsive}
use c_chat.Client.{ClientResult, Link}
use c_chat.Client.Host.{Host}
use c_chat.Client.Terminal.{fgets, before_newline}
use c_chat.Client.Terminal.Input.{
  Reads, none_read, and_then, Got, at_end, a_line, fgets-Got, fgets-Reads,
}
use c_chat.Client.Crypto.{encrypt_message}
use c_chat.Client.Crypto.Stdin.{encrypt_message-stdin}
use c_chat.Client.Network.Socket.{
  if-false, Offline, Live, Held, Same, Same-Live, disconnect_from_server-Offline,
  send_message_to_server-socket,
}
use c_chat.Client.Desk.{SessionKeys, Desk, on_local}
use c_chat.Client.Chat.{
  sent_sealed, send_message_secure, end_chat, set_in_chat, chat_round, chat_loop,
}

module _ (env : Env) (link : Link) (host : Host) (responsive : IsResponsive env) where
  -- Still on the socket, with the same left to read.
  abbrev Stays : Desk → Desk → Type 0
  Stays d e =
      Same d.connection e.connection
      × (e.local.stdin ≡ d.local.stdin)
      × (e.current_session ≡ d.current_session)

  sent_sealed-Stays :
      (sealed : ClientResult × Option (List ℕ)) (d : Desk)
      → Stays d (sent_sealed env link host sealed d).1
  unfolding sent_sealed
  sent_sealed-Stays (result, none) d = ((refl, refl), refl, refl)
  sent_sealed-Stays (result, some encrypted) d = (
    send_message_to_server-socket env link responsive d.current_session.chat_partner.username
        encrypted d.connection,
    refl,
    refl,
  )

  send_message_secure-Stays :
      (message : List ℕ) (keys : SessionKeys) (d : Desk)
      → Stays d (send_message_secure env link host message keys d).1
  unfolding send_message_secure
  send_message_secure-Stays message keys d =
      let (sealed, d₁) = on_local (encrypt_message host message keys.partner_public_key) d in
      let (socket, input, session) = sent_sealed-Stays sealed d₁ in
      let input₁ = encrypt_message-stdin host message keys.partner_public_key d.local in
      elim (Bool-cases (length message == 0)) [
        | inl empty ↦ rw empty ((refl, refl), refl, refl)
        | inr filled ↦ elim (Bool-cases keys.keys_loaded) [
          | inr missing ↦ rw (filled, missing) ((refl, refl), refl, refl)
          | inl loaded ↦ rw (filled, loaded) (socket, input ∙ input₁, session)
        ]
      ]

  -- A round that goes on, on the same socket and with the same left to read; or the end of the chat.
  data Round (d : Desk) : Bool × Desk → Type 0 where
    goes_on : (e : Desk) → Stays d e → Round d (true, e)
    ends :
        (e : Desk)
        → Offline e.connection
        → e.local.stdin ≡ d.local.stdin
        → e.current_session.is_in_chat ≡ false
        → Round d (false, e)

  chat_round-Round :
      (keys : SessionKeys) (c : ℕ) (line : List ℕ) (d : Desk)
      → Live d.connection
      → Round d (chat_round env link host keys (c ∷ line) d)
  unfolding chat_round
  chat_round-Round keys c line d held =
      let message : List ℕ = c_str (before_newline (c ∷ line)) in
      elim (Bool-cases (str_eq message (bytes_of "/exit"))) [
        | inl exit ↦ rw exit (
            ends (end_chat env link host (set_in_chat env link host false d))
              (disconnect_from_server-Offline env link responsive d.connection (inl held)) refl
              refl)
        | inr other ↦ elim (Bool-cases (ltb 0 (length message))) [
          | inl filled ↦
              rw (other, filled)
                (goes_on (send_message_secure env link host message keys d).1
                  (send_message_secure-Stays message keys d))
          | inr empty ↦ rw (other, empty) (goes_on d ((refl, refl), refl, refl))
        ]
      ]

  -- The loop came to its end, from `d`.
  pub record Ends (d : Desk) (o : Option Desk) : Type 0 where
    pub last : Desk
    pub result : o ≡ some last
    pub held : Held last.connection
    pub reads : Reads d.local.stdin last.local.stdin
    pub over : (last.local.stdin ≡ []) ⊎ (last.current_session.is_in_chat ≡ false)

  abbrev after_line : ℕ → SessionKeys → Desk → List ℕ × List ℕ → Bool × Desk
  after_line fuel keys d p =
      chat_round env link host keys p.0 (record d { local = record d.local { stdin = p.1 } })

  abbrev body : ℕ → SessionKeys → Desk → Bool × Desk → Option Desk
  body fuel keys d r =
      if not d.current_session.is_in_chat
      then some d
      else if not r.0
      then some r.1
      else if r.1.connection.waits
      then none
      else chat_loop env link host fuel keys r.1

  abbrev Hypothesis : ℕ → SessionKeys → Type 0
  Hypothesis fuel keys =
      (d : Desk)
      → length d.local.stdin < fuel
      → Live d.connection
      → Ends d (chat_loop env link host fuel keys d)

  body-Ends :
      (fuel : ℕ) (keys : SessionKeys) (d : Desk) (rest : List ℕ) (r : Bool × Desk)
      → Hypothesis fuel keys
      → d.current_session.is_in_chat ≡ true
      → Live d.connection
      → Reads d.local.stdin rest
      → length rest < fuel
      → Round (record d { local = record d.local { stdin = rest } }) r
      → Ends d (body fuel keys d r)
  body-Ends fuel keys d rest r loop here held read short (goes_on e (socket, input, _)) =
      let live : Live e.connection = Same-Live d.connection e.connection socket held in
      let z = loop e (rw input short) live in
      record {
        last = z.last;
        result = rw here (if-false e.connection.waits none _ live.1 ∙ z.result);
        held = z.held;
        reads = and_then _ _ _ (subst (λ s. Reads d.local.stdin s) (sym input) read) z.reads;
        over = z.over;
      }
  body-Ends fuel keys d rest r loop here held read short (ends e off input out) = record {
    last = e;
    result = rw here refl;
    held = inr off;
    reads = subst (λ s. Reads d.local.stdin s) (sym input) read;
    over = inr out;
  }

  line-Ends :
      (fuel : ℕ) (keys : SessionKeys) (d : Desk) (p : List ℕ × List ℕ)
      → Hypothesis fuel keys
      → d.current_session.is_in_chat ≡ true
      → length d.local.stdin < suc fuel
      → Live d.connection
      → Got d.local.stdin p
      → Reads d.local.stdin p.1
      → Ends d (body fuel keys d (after_line fuel keys d p))
  unfolding chat_round
  line-Ends fuel keys d p loop here few held (at_end empty) read = record {
    last = record d { local = record d.local { stdin = [] } };
    result = rw here refl;
    held = inl held;
    reads = read;
    over = inl refl;
  }
  line-Ends fuel keys d p loop here few held (a_line c cs rest shorter) read =
      body-Ends fuel keys d rest (after_line fuel keys d (c ∷ cs, rest)) loop here held read
        (omega (arith, shorter, few))
        (chat_round-Round keys c cs (record d { local = record d.local { stdin = rest } }) held)

  -- When no peer keeps silent, with a socket and more rounds than bytes are left of the input, the chat loop comes to its end: it
  -- has read the first of the input, all of it unless the user left the chat, and the connection is
  -- still open or was closed.
  pub chat_loop-Ends :
      (fuel : ℕ) (keys : SessionKeys) (d : Desk)
      → length d.local.stdin < fuel
      → Live d.connection
      → Ends d (chat_loop env link host fuel keys d)
  unfolding chat_loop
  chat_loop-Ends zero keys d few held = absurd (omega arith)
  chat_loop-Ends (suc fuel) keys d few held = elim (Bool-cases d.current_session.is_in_chat) [
    | inr out ↦ record {
      last = d;
      result = rw out refl;
      held = inl held;
      reads = none_read d.local.stdin;
      over = inr out;
    }
    | inl here ↦
        line-Ends fuel keys d (fgets (max_message_len - 1) d.local.stdin) (chat_loop-Ends fuel keys)
          here few held (fgets-Got 1022 d.local.stdin)
          (fgets-Reads (max_message_len - 1) d.local.stdin)
  ]
